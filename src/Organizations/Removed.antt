-- ===== src/Organizations/Removed.antt =====
-- What a removed member has lost.
use realmroot.Prelude.{
  ℕ, String, Bool, true, false, not, ◌&&◌, some, List, [], ◌∷◌, map, any, all, filter, includes,
  holds, is_some, ◌==◌, ◌≡◌, refl, sym, ap, subst, arith, eq_iff, Bool-cases, inl, inr, no_clash,
}
use realmroot.Errors.{Result, ok, err, Failure, not_found_error, precondition_failed_error}
use realmroot.Errors.Laws.{require-ok, ok-injective, or_throw-ok}
use realmroot.Errors.Exec.{reads}
use realmroot.Errors.Exec.Laws.{>>=-eq-ok}
use realmroot.Organizations.{
  MemberRow, RefreshTokenRow, SessionRow, TeamMemberRow, OrganizationState, MutationActor, draw_id,
}
use realmroot.Organizations.Store.{find_member, team_ids}
use realmroot.Organizations.Store.Writes.{
  is_removable, target_user_ids, private_client_ids, revoke_token, leave_session,
  is_team_membership, remove_member,
}
use realmroot.Organizations.Keys.{has_id, same_id, found_passes, found_filtered, found_user}
use realmroot.Organizations.Guards.{only, require_member, require_member_for_organization}
use realmroot.Organizations.Handlers.{authorization_audit, remove_found, remove_organization_member}

-- What the removed member no longer has: the membership, the membership of a team of the
-- Organization, a token that can still be refreshed at a private application of it, and a session
-- in which it is the active Organization.
pub record IsOut (t : OrganizationState) (organization_id member_id user_id : String) : Type 0 where
  pub no_membership : any (has_id member_id) t.members ≡ false
  pub no_team :
      all
        (λ x. not (x.user_id == user_id && includes (team_ids t organization_id) x.team_id))
        t.team_members
      ≡ true
  pub no_refresh :
      all
        (λ x. not (
          x.user_id == user_id
          && (includes (private_client_ids t.applications organization_id) x.client_id
              && not (is_some x.revoked))))
        t.refresh_tokens
      ≡ true
  pub no_session :
      all
        (λ x. not (x.user_id == user_id && holds x.active_organization_id organization_id))
        t.sessions
      ≡ true

all_filtered :
    {A : Type 0} (p q : A → Bool) (xs : List A)
    → ((x : A) → p x ≡ true → q x ≡ true)
    → all q (filter p xs) ≡ true
all_filtered p q [] h = refl
all_filtered p q (x ∷ xs) h = elim (Bool-cases (p x)) [
  | inl e ↦ rw e (ground (arith, h x e, all_filtered p q xs h))
  | inr e ↦ rw e (all_filtered p q xs h)
]

all_mapped :
    {A : Type 0} (q : A → Bool) (f : A → A) (xs : List A)
    → ((x : A) → q (f x) ≡ true)
    → all q (map f xs) ≡ true
all_mapped q f [] h = refl
all_mapped q f (x ∷ xs) h = ground (arith, h x, all_mapped q f xs h)

-- The users that a removal is about
module _ (users : List String) (user : String) (member : includes users user ≡ true) where
  included : (x : String) → (x == user) ≡ true → includes users x ≡ true
  included x h = rw ((eq_iff x user).0 h) member

  team_left :
      (teams : List String) (x : TeamMemberRow)
      → not (is_team_membership users teams x) ≡ true
      → not (x.user_id == user && includes teams x.team_id) ≡ true
  team_left teams x h = ground (arith, h, included x.user_id)

  token_revoked :
      (clients : List String) (now : ℕ) (x : RefreshTokenRow)
      → (let y = revoke_token users clients now x in
          not (y.user_id == user && (includes clients y.client_id && not (is_some y.revoked))))
        ≡ true
  token_revoked clients now x =
      elim (Bool-cases
        (includes users x.user_id && (includes clients x.client_id && not (is_some x.revoked)))) [
          | inl e ↦ rw e (ground arith)
          | inr e ↦ rw e (ground (arith, e, included x.user_id))
        ]

  session_left :
      (organization_id : String) (x : SessionRow)
      → (let y = leave_session users organization_id x in
          not (y.user_id == user && holds y.active_organization_id organization_id))
        ≡ true
  session_left organization_id x =
      elim (Bool-cases
        (includes users x.user_id && holds x.active_organization_id organization_id)) [
          | inl e ↦ rw e (ground arith)
          | inr e ↦ rw e (ground (arith, e, included x.user_id))
        ]

only-ok :
    (r : Result MemberRow) (test : MemberRow → Bool) (e : Failure) (row : MemberRow)
    → only r test e ≡ ok row
    → (r ≡ ok row) × (test row ≡ true)
only-ok (err f) test e row h = cc
only-ok (ok a) test e row h = elim (Bool-cases (test a)) [
  | inl k ↦
      let same : a ≡ row = ok-injective (rw k at h) in
      (ap ok same, subst (λ z. test z ≡ true) same k)
  | inr k ↦ absurd (refused (rw k at h))
]
  where
    refused : ¬ (err e ≡ ok row)
    refused g = cc

required_member :
    (mid oid : String) (s : OrganizationState) (row : MemberRow)
    → require_member_for_organization mid oid s ≡ ok row
    → (find_member s mid ≡ some row) × (row.organization_id ≡ oid)
unfolding require_member_for_organization require_member
required_member mid oid s row h =
    let missing = not_found_error "Organization member was not found." in
    let (read, test) =
      only-ok (require_member mid s) (λ member. member.organization_id == oid) missing row h in
    (or_throw-ok (find_member s mid) missing row read, (eq_iff row.organization_id oid).0 test)

module _ (generate : ℕ → String) (oid mid : String) (actor : MutationActor) where
  removed-IsOut :
      (row : MemberRow) (s : OrganizationState)
      → no_clash same_id s.members ≡ true
      → find_member s mid ≡ some row
      → any (is_removable s.members oid mid row.updated_at) s.members ≡ true
      → IsOut (remove_found generate oid mid actor row s).1 oid mid row.user_id
  unfolding remove_found authorization_audit draw_id remove_member find_member team_ids
      private_client_ids target_user_ids
  removed-IsOut row s unique found some_row =
      let condition = is_removable s.members oid mid row.updated_at in
      let passes =
        found_passes condition mid (λ x h. ground (arith, h)) s.members row unique found some_row in
      let users = target_user_ids s.members oid mid row.updated_at in
      let member : includes users row.user_id ≡ true =
        found_user condition mid s.members row found passes in
      record {
        no_membership =
            found_filtered condition mid (λ x h. ground (arith, h)) s.members row unique found
              passes;
        no_team =
            all_filtered (λ x. not (is_team_membership users (team_ids s oid) x))
              (λ x. not (x.user_id == row.user_id && includes (team_ids s oid) x.team_id))
              s.team_members (team_left users row.user_id member (team_ids s oid));
        no_refresh =
            all_mapped
              (λ x. not (
                x.user_id == row.user_id
                && (includes (private_client_ids s.applications oid) x.client_id
                    && not (is_some x.revoked))))
              (revoke_token users (private_client_ids s.applications oid) s.clock) s.refresh_tokens
              (token_revoked users row.user_id member (private_client_ids s.applications oid)
                s.clock);
        no_session =
            all_mapped (λ x. not (x.user_id == row.user_id && holds x.active_organization_id oid))
              (leave_session users oid) s.sessions (session_left users row.user_id member oid);
      }

  removed-ok :
      (row : MemberRow) (s : OrganizationState) {a : Unit {0}}
      → (remove_found generate oid mid actor row s).0 ≡ ok a
      → any (is_removable s.members oid mid row.updated_at) s.members ≡ true
  unfolding remove_found authorization_audit draw_id remove_member
  removed-ok row s {a = a} h =
      require-ok (any (is_removable s.members oid mid row.updated_at) s.members)
        (precondition_failed_error "The Organization member changed or is the last Owner.") h

  -- When the removal of a member of an Organization is answered without an error, ids being those of
  -- one member row each, the member was one of that Organization, and afterwards there is no member
  -- row with the id, no membership of the user in a team of the Organization, no refresh token of the
  -- user at a private application of it that is not revoked, and no session of the user in which the
  -- Organization is the active one.
  pub removed_member-IsOut :
      (s : OrganizationState) {a : Unit {0}}
      → no_clash same_id s.members ≡ true
      → (remove_organization_member generate oid mid actor s).0 ≡ ok a
      → (row : MemberRow) × (find_member s mid ≡ some row)
        × (row.organization_id ≡ oid)
        × IsOut (remove_organization_member generate oid mid actor s).1 oid mid row.user_id
  unfolding remove_organization_member
  removed_member-IsOut s unique h =
      let (row, read, run) =
        >>=-eq-ok (reads (require_member_for_organization mid oid))
          (remove_found generate oid mid actor) s h in
      let (found, same) = required_member mid oid s row read in
      let done = removed-ok row s (subst (λ z. z.0 ≡ ok _) run h) in
      (
        row,
        found,
        same,
        subst (λ z. IsOut z.1 oid mid row.user_id) (sym run)
            (removed-IsOut row s unique found done),
      )
