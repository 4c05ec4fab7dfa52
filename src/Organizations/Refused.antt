-- ===== src/Organizations/Refused.antt =====
-- What is refused to the last owner of an Organization.
use mathlib.Core.List.{append-nil}
use realmroot.Prelude.{
  ℕ, String, Bool, true, false, not, some, List, [], ◌∷◌, map, any, filter, ◌≡◌, refl, ap, arith,
  eq_iff, Bool-cases, inl, inr, no_clash, ◌+◌,
}
use realmroot.Errors.{ok, err, precondition_failed_error}
use realmroot.Organizations.{MemberRow, OrganizationState, MutationActor, draw_id}
use realmroot.Organizations.Roles.{has_role}
use realmroot.Organizations.Store.{find_member, team_ids}
use realmroot.Organizations.Store.Writes.{
  is_other_owner, is_not_last_owner, is_removable, target_user_ids, private_client_ids,
  remove_member, revoke_token, leave_session, is_team_membership,
}
use realmroot.Organizations.Guards.{require_member, require_member_for_organization}
use realmroot.Organizations.Handlers.{authorization_audit, remove_found, remove_organization_member}
use realmroot.Organizations.Keys.{same_id, found_passes}

filter_none :
    {A : Type 0} (p : A → Bool) (xs : List A)
    → any p xs ≡ false
    → (filter (λ x. not (p x)) xs ≡ xs) × (filter p xs ≡ [])
filter_none p [] h = (refl, refl)
filter_none p (x ∷ xs) h =
    let no : p x ≡ false = ground (arith, h) in
    let (kept, none_passes) = filter_none p xs (ground (arith, h)) in
    rw no (ap (x ∷◌) kept, none_passes)

filter_all_kept :
    {A : Type 0} (p : A → Bool) (xs : List A) → ((x : A) → p x ≡ true) → filter p xs ≡ xs
filter_all_kept p [] h = refl
filter_all_kept p (x ∷ xs) h = rw (h x) (ap (x ∷◌) (filter_all_kept p xs h))

map_same : {A : Type 0} (f : A → A) (xs : List A) → ((x : A) → f x ≡ x) → map f xs ≡ xs
map_same f [] h = refl
map_same f (x ∷ xs) h = rw (h x, map_same f xs h) refl

module _ (generate : ℕ → String) (oid mid : String) (actor : MutationActor) where
  none_removable :
      (s : OrganizationState) (row : MemberRow) (expected : ℕ)
      → no_clash same_id s.members ≡ true
      → find_member s mid ≡ some row
      → has_role "owner" row.role ≡ true
      → any (is_other_owner oid mid) s.members ≡ false
      → any (is_removable s.members oid mid expected) s.members ≡ false
  unfolding find_member is_not_last_owner
  none_removable s row expected unique found owner alone =
      let condition = is_removable s.members oid mid expected in
      elim (Bool-cases (any condition s.members)) [
        | inl k ↦ absurd (
            ground (
              arith,
              owner,
              alone,
              found_passes condition mid (λ x h. ground (arith, h)) s.members row unique found k,
            ))
        | inr k ↦ k
      ]

  unchanged :
      (s : OrganizationState) (row : MemberRow)
      → any (is_removable s.members oid mid row.updated_at) s.members ≡ false
      → remove_found generate oid mid actor row s ≡ (
        err (precondition_failed_error "The Organization member changed or is the last Owner."),
        record s { drawn = s.drawn + 1 },
      )
  unfolding remove_found authorization_audit draw_id remove_member target_user_ids
  unchanged s row h =
      let condition = is_removable s.members oid mid row.updated_at in
      let clients = private_client_ids s.applications oid in
      let teams = team_ids s oid in
      let (kept, no_target) = filter_none condition s.members h in
      rw
        (
          h,
          kept,
          no_target,
          append-nil s.audit_events,
          filter_all_kept (λ x. not (is_team_membership [] teams x)) s.team_members (λ x. refl),
          map_same (revoke_token [] clients s.clock) s.refresh_tokens (λ x. refl),
          map_same (leave_session [] oid) s.sessions (λ x. refl),
        )
        refl

  required :
      (s : OrganizationState) (row : MemberRow)
      → find_member s mid ≡ some row
      → row.organization_id ≡ oid
      → require_member_for_organization mid oid s ≡ ok row
  unfolding require_member_for_organization require_member
  required s row found same = rw (found, (eq_iff row.organization_id oid).1 same) refl

  -- The removal of a member that is an owner of the Organization and the only one, ids being those of
  -- one member row each, is answered with 412, and the members, their memberships of teams, the
  -- refresh tokens, the sessions and the audit log are as they were.
  pub last_owner_is_refused :
      (s : OrganizationState) (row : MemberRow)
      → no_clash same_id s.members ≡ true
      → find_member s mid ≡ some row
      → row.organization_id ≡ oid
      → has_role "owner" row.role ≡ true
      → any (is_other_owner oid mid) s.members ≡ false
      → remove_organization_member generate oid mid actor s ≡ (
        err (precondition_failed_error "The Organization member changed or is the last Owner."),
        record s { drawn = s.drawn + 1 },
      )
  unfolding remove_organization_member
  last_owner_is_refused s row unique found same owner alone =
      rw (required s row found same)
        (unchanged s row (none_removable s row row.updated_at unique found owner alone))
