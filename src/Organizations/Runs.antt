-- ===== src/Organizations/Runs.antt =====
-- Every request on Organizations, as steps on the tables.
use realmroot.Prelude.{
  Reaches, Reaches-trans, ℕ, String, true, false, not, ◌&&◌, ◌||◌, Option, none, some, List, [],
  ◌∷◌, ◌++◌, any, includes, ◌==◌, ◌+◌, ◌≡◌, refl, get_or, Bool-cases, inl, inr,
}
use realmroot.Errors.{Failure, Result, ok, err, require, conflict_error}
use realmroot.Errors.Exec.{lift, reads}
use realmroot.Errors.Exec.Laws.{along}
use realmroot.Organizations.{
  OrganizationRow, MemberRow, InvitationRow, OrganizationState, MutationActor, draw_id,
  is_platform_organization,
}
use realmroot.Organizations.Roles.{serialize_roles}
use realmroot.Organizations.Store.{
  is_member_taken, insert_member, kept, OrganizationPatch, is_organization_taken, is_slug_taken,
  update_organization, delete_organization, update_member,
}
use realmroot.Organizations.Store
use realmroot.Organizations.Store.Writes.{
  replace_member_roles, remove_member, is_replaceable, create_invitation, cancel_invitation,
}
use realmroot.Organizations.Guards.{
  get_organization, require_member_for_organization, validate_organization_role_keys,
  check_ownership, require_invitation, member_row,
}
use realmroot.Organizations.Handlers.{
  OrganizationInput, MemberInput, InvitationInput, authorization_audit, create_organization,
  add_member, remove_organization_member, replace_roles, remove_found, replace_checked, invite,
  change_organization, remove_organization, change_member, withdraw_invitation,
}
use realmroot.Organizations.Steps.{Step, Reach}

abbrev State : Type 0
State = OrganizationState

still : (s t : State) → t.organizations ≡ s.organizations → t.members ≡ s.members → Reach s t
still s t o m = Reaches.step Reaches.here (Step.unchanged o m)

insert_member-Reach : (member : MemberRow) (s : State) → Reach s (insert_member member s).1
unfolding insert_member
insert_member-Reach member s = elim (Bool-cases (includes s.deleted_users member.user_id)) [
  | inl d ↦ rw d Reaches.here
  | inr d ↦ elim (Bool-cases (any (is_member_taken member) s.members)) [
    | inl e ↦ rw (d, e) Reaches.here
    | inr e ↦
        elim (Bool-cases (
          any (λ row. row.id == member.organization_id) s.organizations
          && includes s.users member.user_id)) [
            | inl k ↦ rw (d, e, k) (Reaches.step Reaches.here (Step.joined member refl refl))
            | inr k ↦ rw (d, e, k) Reaches.here
          ]
  ]
]

update_organization-Reach :
    (id : String) (patch : OrganizationPatch) (s : State)
    → Reach s (update_organization id patch s).1
unfolding update_organization
update_organization-Reach id patch s =
    elim (Bool-cases (
      any (λ row. row.id == id) s.organizations
      && any (is_slug_taken id patch.slug) s.organizations)) [
        | inl e ↦ rw e Reaches.here
        | inr e ↦ rw e (Reaches.step Reaches.here (Step.changed id patch s.clock refl refl))
      ]

delete_organization-Reach : (id : String) (s : State) → Reach s (delete_organization id s).1
unfolding delete_organization
delete_organization-Reach id s =
    elim (Bool-cases (
      any (λ row. row.id == id) s.organizations
      && (any (λ row. row.owner_organization_id == id) s.applications
          || includes s.restricting id))) [
            | inl e ↦ rw e Reaches.here
            | inr e ↦ rw e (Reaches.step Reaches.here (Step.deleted id refl refl))
          ]

create_invitation-Reach : (row : InvitationRow) (s : State) → Reach s (create_invitation row s).1
unfolding create_invitation
create_invitation-Reach row s = elim (Bool-cases (any (λ x. x.id == row.id) s.invitations)) [
  | inl e ↦ rw e Reaches.here
  | inr e ↦
      elim (Bool-cases (
        any (λ x. x.id == row.organization_id) s.organizations
        && elim row.inviter_id [ none ↦ true | some id ↦ includes s.users id ])) [
          | inl k ↦ rw (e, k) (still s _ refl refl)
          | inr k ↦ rw (e, k) Reaches.here
        ]
]

insert_member-ok :
    (member : MemberRow) (s : State) {a : Unit {0}}
    → (insert_member member s).0 ≡ ok a
    → (insert_member member s).1 ≡ record s { members = s.members ++ member ∷ [] }
unfolding insert_member
insert_member-ok member s h = elim (Bool-cases (includes s.deleted_users member.user_id)) [
  | inl d ↦ absurd (not_ok (rw d at h))
  | inr d ↦ elim (Bool-cases (any (is_member_taken member) s.members)) [
    | inl e ↦ absurd (not_ok (rw (d, e) at h))
    | inr e ↦
        elim (Bool-cases (
          any (λ row. row.id == member.organization_id) s.organizations
          && includes s.users member.user_id)) [
            | inl k ↦ rw (d, e, k) refl
            | inr k ↦ absurd (not_ok (rw (d, e, k) at h))
          ]
  ]
]
  where
    not_ok : {x : Failure} {a : Unit {0}} → ¬ (err x ≡ ok a)
    not_ok h = cc

kept-Reach :
    (s : State) (organization : OrganizationRow) (r : Result (Unit {0})) (s' : State)
    → ((a : Unit {0}) → r ≡ ok a → Reach s s')
    → Reach s (kept s organization r s').1
kept-Reach s organization (ok a) s' h = h a refl
kept-Reach s organization (err e) s' h = Reaches.here

founding-Reach :
    (organization : OrganizationRow) (owner : MemberRow) (s : State)
    → owner.organization_id ≡ organization.id
    → owner.role ≡ serialize_roles ("owner" ∷ [])
    → Reach s (Store.create_organization organization owner s).1
unfolding Store.create_organization
founding-Reach organization owner s same role =
    elim (Bool-cases (any (is_organization_taken organization) s.organizations)) [
      | inl e ↦ rw e Reaches.here
      | inr e ↦
          let t = record s { organizations = s.organizations ++ organization ∷ [] } in
          rw e (
            kept-Reach s organization (insert_member owner t).0 (insert_member owner t).1 (λ a h.
              rw (insert_member-ok owner t h)
                (Reaches.step Reaches.here (Step.founded organization owner same role refl refl))))
    ]

-- The requests, each with its input and who asks
pub data Request : Type 0 where
  found : OrganizationInput → (owner_user_id : String) → Request
  change : (id : String) → OrganizationPatch → Request
  delete : (id : String) → Request
  add : (organization_id : String) → MemberInput → Request
  retitle : (organization_id member_id : String) → (title : Option (Option String)) → Request
  remove : (organization_id member_id : String) → MutationActor → Request
  replace : (organization_id member_id : String) → (roles : List String) → MutationActor → Request
  invite_to : (organization_id : String) → InvitationInput → MutationActor → Request
  withdraw : (organization_id id : String) → Request

module _ (generate : ℕ → String) where
  -- The tables when the handler has ended, with an answer or with an error
  unfoldable pub after : Request → State → State
  after (found input owner) s = (create_organization generate input owner s).1
  after (change id patch) s = (change_organization id patch s).1
  after (delete id) s = (remove_organization id s).1
  after (add id input) s = (add_member generate id input s).1
  after (retitle id member title) s = (change_member id member title s).1
  after (remove id member actor) s = (remove_organization_member generate id member actor s).1
  after (replace id member roles actor) s = (replace_roles generate id member roles actor s).1
  after (invite_to id input actor) s = (invite generate id input actor s).1
  after (withdraw organization_id id) s = (withdraw_invitation organization_id id s).1

  removal-Reach :
      (id member : String) (actor : MutationActor) (row : MemberRow) (s : State)
      → Reach s (remove_found generate id member actor row s).1
  unfolding remove_found authorization_audit draw_id remove_member
  removal-Reach id member actor row s =
      Reaches.step Reaches.here (Step.left id member row.updated_at refl refl)

  replacement-Reach :
      (id member : String) (roles : List String) (actor : MutationActor) (row : MemberRow)
      (s : State)
      → Reach s (replace_checked generate id member roles actor row s).1
  unfolding replace_checked authorization_audit draw_id replace_member_roles
  replacement-Reach id member roles actor row s =
      elim (Bool-cases (any (is_replaceable s.members id member roles row.updated_at) s.members)) [
        | inl e ↦ rw e (
            Reaches.step Reaches.here
              (Step.replaced id member roles row.updated_at s.clock refl refl))
        | inr e ↦ rw e (
            Reaches.step Reaches.here
              (Step.replaced id member roles row.updated_at s.clock refl refl))
      ]

  founded-Reach :
      (input : OrganizationInput) (owner : String) (s : State)
      → Reach s (create_organization generate input owner s).1
  unfolding create_organization draw_id
  founded-Reach input owner s =
      let t = record s { drawn = s.drawn + 1 + 1 } in
      Reaches-trans s t _ (still s t refl refl) (founding-Reach _ _ t refl refl)

  -- Every request on Organizations, members and invitations, with whatever input and however it ends,
  -- takes the tables along steps of the step relation only.
  pub organization_request-Reach : (r : Request) (s : State) → Reach s (after r s)
  unfolding after remove_organization_member replace_roles change_organization remove_organization
      add_member change_member invite withdraw_invitation draw_id update_member cancel_invitation
  organization_request-Reach (found input owner) s = founded-Reach input owner s
  organization_request-Reach (change id patch) s =
      along (reads (get_organization id)) _ s Reaches.here (λ organization h.
        along
          (lift (
            require (not (is_platform_organization organization && get_or patch.disabled false))
              (conflict_error "The built-in platform Organization cannot be disabled.")))
          _ s Reaches.here
          (λ a k.
            along (update_organization id patch) _ s (update_organization-Reach id patch s)
              (λ b l. Reaches.here)))
  organization_request-Reach (delete id) s =
      along (reads (get_organization id)) _ s Reaches.here (λ organization h.
        along
          (lift (
            require (not (is_platform_organization organization))
              (conflict_error "The built-in platform Organization cannot be deleted.")))
          _ s Reaches.here (λ a k. delete_organization-Reach id s))
  organization_request-Reach (add id input) s =
      along (reads (get_organization id)) _ s Reaches.here (λ organization h.
        along (reads (validate_organization_role_keys id input.roles)) _ s Reaches.here (λ a k.
          let t = record s { drawn = s.drawn + 1 } in
          Reaches-trans s t _ (still s t refl refl) (
            along
              (insert_member
                (member_row (generate s.drawn) id input.user_id input.roles input.title s.clock))
              _ t (insert_member-Reach _ t) (λ b l. Reaches.here))))
  organization_request-Reach (retitle id member title) s =
      along (reads (require_member_for_organization member id)) _ s Reaches.here
        (λ row h. Reaches.step Reaches.here (Step.retitled member title s.clock refl refl))
  organization_request-Reach (remove id member actor) s =
      along (reads (require_member_for_organization member id)) _ s Reaches.here
        (λ row h. removal-Reach id member actor row s)
  organization_request-Reach (replace id member roles actor) s =
      along (reads (require_member_for_organization member id)) _ s Reaches.here (λ row h.
        along (reads (validate_organization_role_keys id roles)) _ s Reaches.here (λ a k.
          along (reads (check_ownership row roles)) _ s Reaches.here
            (λ b l. replacement-Reach id member roles actor row s)))
  organization_request-Reach (invite_to id input actor) s =
      along (reads (get_organization id)) _ s Reaches.here (λ organization h.
        along (reads (validate_organization_role_keys id input.roles)) _ s Reaches.here (λ a k.
          let t = record s { drawn = s.drawn + 1 } in
          Reaches-trans s t _ (still s t refl refl) (create_invitation-Reach _ t)))
  organization_request-Reach (withdraw organization_id id) s =
      along (reads (require_invitation organization_id id)) _ s Reaches.here
        (λ row h. still s _ refl refl)
