-- ===== src/Organizations/Handlers.antt =====
-- server/usecases/authorization.ts: the handlers on Organizations, members and invitations.
use realmroot.Prelude.{ℕ, String, false, not, ◌&&◌, Option, none, List, [], ◌∷◌, get_or, ◌+◌, ◌*◌}
use realmroot.Errors.{require, conflict_error, precondition_failed_error}
use realmroot.Errors.Exec.{Exec, pure, lift, reads, ◌>>=◌, ◌>>◌}
use realmroot.Json.{Json, Members, items_of}
use realmroot.Organizations.{
  OrganizationRow, MemberRow, InvitationRow, AuditRow, OrganizationState, MutationActor, draw_id,
  is_platform_organization,
}
use realmroot.Organizations.Guards.{
  get_organization, require_member, require_member_for_organization,
  validate_organization_role_keys, check_ownership, agent_field, first_of, member_row,
  require_invitation,
}
use realmroot.Organizations.Roles.{serialize_roles, deserialize_roles}
use realmroot.Organizations.Store.{
  find_organization, find_member, find_invitation, list_organization_roles, count_members_by_role,
  insert_member, OrganizationPatch, update_organization, delete_organization, update_member,
}
use realmroot.Organizations.Store
use realmroot.Organizations.Store.Writes.{
  replace_member_roles, remove_member, create_invitation, cancel_invitation,
}

pub record OrganizationInput : Type 0 where
  pub slug : String
  pub name : String
  pub display_name : Option String
  pub logo : Option String

pub record MemberInput : Type 0 where
  pub user_id : String
  pub roles : List String
  pub title : Option String

pub record InvitationInput : Type 0 where
  pub email : String
  pub roles : List String
  pub expires_at : Option ℕ

abbrev pub ExecO : Type 0 → Type 0
ExecO = Exec OrganizationState

module _ (generate : ℕ → String) where
  unfoldable pub authorization_audit :
      (action owner_organization_id : String)
      → MutationActor
      → (occurred_at : ℕ) → Members
      → ExecO AuditRow
  unfolding draw_id
  authorization_audit action owner_organization_id actor occurred_at metadata =
      draw_id generate >>= λ id. pure (record {
        id = id;
        action = action;
        owner_organization_id = owner_organization_id;
        controller_user_id = actor.controller_user_id;
        subject_issuer = agent_field (λ agent. agent.issuer) actor.agent;
        subject =
            first_of (agent_field (λ agent. agent.subject) actor.agent) actor.controller_user_id;
        agent_identity_id = agent_field (λ agent. agent.identity_id) actor.agent;
        host_id = agent_field (λ agent. agent.host_id) actor.agent;
        metadata = metadata;
        occurred_at = occurred_at;
      })

  unfoldable pub create_organization :
      OrganizationInput → (owner_user_id : String) → ExecO OrganizationRow
  unfolding draw_id serialize_roles Store.create_organization
  create_organization input owner_user_id = draw_id generate >>= λ id.
      draw_id generate >>= λ member_id s.
      Store.create_organization
        (record {
          id = id;
          slug = input.slug;
          name = input.name;
          display_name = input.display_name;
          logo = input.logo;
          disabled = false;
          disabled_reason = none;
          created_at = s.clock;
          updated_at = s.clock;
        })
        (member_row member_id id owner_user_id ("owner" ∷ []) none s.clock) s

  unfoldable pub add_member : (organization_id : String) → MemberInput → ExecO MemberRow
  unfolding get_organization validate_organization_role_keys draw_id serialize_roles insert_member
  add_member organization_id input = reads (get_organization organization_id) >>= λ _.
      reads (validate_organization_role_keys organization_id input.roles) >>= λ _.
      draw_id generate >>= λ id s.
      let row = member_row id organization_id input.user_id input.roles input.title s.clock in
      (insert_member row >> pure row) s

  -- What follows the check that the member is one of the Organization
  unfoldable pub remove_found :
      (organization_id member_id : String) → MutationActor → MemberRow → ExecO (Unit {0})
  unfolding authorization_audit remove_member
  remove_found organization_id member_id actor member s =
      (authorization_audit "organization.member.removed" organization_id actor s.clock (
            Members.member "organizationId" (Json.str organization_id)
              (Members.member "memberId" (Json.str member_id) Members.end))
          >>= λ audit.
              remove_member organization_id member_id member.updated_at audit >>= λ removed. lift (
                require removed (
                  precondition_failed_error
                    "The Organization member changed or is the last Owner.")))
        s

  unfoldable pub remove_organization_member :
      (organization_id member_id : String) → MutationActor → ExecO (Unit {0})
  unfolding require_member_for_organization remove_found
  remove_organization_member organization_id member_id actor =
      reads (require_member_for_organization member_id organization_id)
      >>= remove_found organization_id member_id actor

  -- What follows the checks on the member and on the roles
  unfoldable pub replace_checked :
      (organization_id member_id : String)
      → (roles : List String) → MutationActor
      → (target : MemberRow) → ExecO (List String)
  unfolding authorization_audit replace_member_roles deserialize_roles
  replace_checked organization_id member_id roles actor target s =
      (authorization_audit "organization.member.roles-replaced" organization_id actor s.clock (
            Members.member "organizationId" (Json.str organization_id) (
              Members.member "memberId" (Json.str member_id) (
                Members.member "previousRoles" (Json.arr (items_of (deserialize_roles target.role)))
                  (Members.member "roles" (Json.arr (items_of roles)) Members.end))))
          >>= λ audit.
              replace_member_roles organization_id member_id roles target.updated_at audit
              >>= λ updated.
                  lift (
                    require updated (
                      precondition_failed_error
                        "The Organization member changed after it was read."))
                  >>= λ _. pure roles)
        s

  unfoldable pub replace_roles :
      (organization_id member_id : String)
      → (roles : List String) → MutationActor
      → ExecO (List String)
  unfolding require_member_for_organization validate_organization_role_keys check_ownership
      replace_checked
  replace_roles organization_id member_id roles actor =
      reads (require_member_for_organization member_id organization_id) >>= λ target.
      reads (validate_organization_role_keys organization_id roles) >>= λ _.
      reads (check_ownership target roles) >>= λ _.
      replace_checked organization_id member_id roles actor target

  unfoldable pub invite :
      (organization_id : String) → InvitationInput → MutationActor → ExecO InvitationRow
  unfolding get_organization validate_organization_role_keys draw_id serialize_roles
      create_invitation
  invite organization_id input actor = reads (get_organization organization_id) >>= λ _.
      reads (validate_organization_role_keys organization_id input.roles) >>= λ _.
      draw_id generate >>= λ id s.
      create_invitation
        (record {
          id = id;
          organization_id = organization_id;
          email = input.email;
          role = serialize_roles input.roles;
          inviter_id = actor.controller_user_id;
          status = "pending";
          expires_at = get_or input.expires_at (s.clock + 1000 * 60 * 60 * 48);
          revoked_at = none;
          created_at = s.clock;
        })
        s

unfoldable pub change_organization : (id : String) → OrganizationPatch → ExecO OrganizationRow
unfolding get_organization update_organization
change_organization id patch = reads (get_organization id) >>= λ organization.
    lift (
      require (not (is_platform_organization organization && get_or patch.disabled false))
        (conflict_error "The built-in platform Organization cannot be disabled."))
    >>= λ _. update_organization id patch >>= λ _. reads (get_organization id)

unfoldable pub remove_organization : (id : String) → ExecO (Unit {0})
unfolding get_organization delete_organization
remove_organization id = reads (get_organization id) >>= λ organization.
    lift (
      require (not (is_platform_organization organization))
        (conflict_error "The built-in platform Organization cannot be deleted."))
    >>= λ _. delete_organization id

unfoldable pub change_member :
    (organization_id member_id : String) → (title : Option (Option String)) → ExecO MemberRow
unfolding require_member_for_organization require_member update_member
change_member organization_id member_id title =
    reads (require_member_for_organization member_id organization_id) >>= λ _.
    update_member member_id title >>= λ _. reads (require_member member_id)

unfoldable pub withdraw_invitation : (organization_id id : String) → ExecO (Unit {0})
unfolding require_invitation cancel_invitation
withdraw_invitation organization_id id =
    reads (require_invitation organization_id id) >>= λ _. cancel_invitation id
