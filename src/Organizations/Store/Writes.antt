-- ===== src/Organizations/Store/Writes.antt =====
-- server/adapters/repos/authorization.ts: the writes under a condition, each with its audit event.
use realmroot.Prelude.{
  ℕ, String, Bool, true, false, not, ◌&&◌, ◌||◌, none, some, List, [], ◌∷◌, ◌++◌, map, filter, any,
  includes, holds, is_some, nat_eq, ◌==◌, if◌then◌else◌,
}
use realmroot.Errors.{ok, err}
use realmroot.Errors.Exec.{Exec}
use realmroot.Directory.{Visibility}
use realmroot.Organizations.{
  MemberRow, InvitationRow, ApplicationRow, RefreshTokenRow, SessionRow, TeamMemberRow, AuditRow,
  OrganizationState,
}
use realmroot.Organizations.Roles.{serialize_roles, has_role}
use realmroot.Organizations.Store.{is_member_with, team_ids, unique_error, foreign_key_error}

-- Another member of the Organization is an owner.
abbrev pub is_other_owner : (organization_id member_id : String) → MemberRow → Bool
is_other_owner organization_id member_id other =
    not (other.id == member_id) && is_member_with organization_id "owner" other

-- The guard in SQL: the member is not an owner, or is not the last one.
unfoldable pub is_not_last_owner :
    List MemberRow → (organization_id member_id : String) → MemberRow → Bool
is_not_last_owner members organization_id member_id row =
    not (has_role "owner" row.role) || any (is_other_owner organization_id member_id) members

abbrev pub is_expected : (organization_id member_id : String) → (expected : ℕ) → MemberRow → Bool
is_expected organization_id member_id expected row =
    row.id == member_id
    && (row.organization_id == organization_id && nat_eq row.updated_at expected)

abbrev pub is_replaceable :
    List MemberRow
    → (organization_id member_id : String) → (roles : List String) → (expected : ℕ) → MemberRow
    → Bool
is_replaceable members organization_id member_id roles expected row =
    is_expected organization_id member_id expected row
    && (includes roles "owner" || is_not_last_owner members organization_id member_id row)

abbrev pub replace_row :
    List MemberRow
    → (organization_id member_id : String) → (roles : List String) → (expected now : ℕ) → MemberRow
    → MemberRow
replace_row members organization_id member_id roles expected now row =
    if is_replaceable members organization_id member_id roles expected row
    then record row { role = serialize_roles roles; updated_at = now }
    else row

-- One event for each row that the condition selects
abbrev audited : {A : Type 0} → (A → Bool) → List A → AuditRow → List AuditRow
audited condition rows audit = map (λ _. audit) (filter condition rows)

unfoldable pub replace_member_roles :
    (organization_id member_id : String)
    → (roles : List String) → (expected : ℕ) → AuditRow
    → Exec OrganizationState Bool
replace_member_roles organization_id member_id roles expected audit s =
    let condition = is_replaceable s.members organization_id member_id roles expected in
    (
      ok (any condition s.members),
      record s {
        audit_events = s.audit_events ++ audited condition s.members audit;
        members =
            map (replace_row s.members organization_id member_id roles expected audit.occurred_at)
              s.members;
      },
    )

abbrev pub is_removable :
    List MemberRow → (organization_id member_id : String) → (expected : ℕ) → MemberRow → Bool
is_removable members organization_id member_id expected row =
    is_expected organization_id member_id expected row
    && is_not_last_owner members organization_id member_id row

unfoldable pub target_user_ids :
    List MemberRow → (organization_id member_id : String) → (expected : ℕ) → List String
target_user_ids members organization_id member_id expected =
    map (λ row. row.user_id)
      (filter (is_removable members organization_id member_id expected) members)

abbrev pub is_private_application : (organization_id : String) → ApplicationRow → Bool
is_private_application organization_id row =
    row.owner_organization_id == organization_id
    && elim row.visibility [ Visibility.private ↦ true | Visibility.public ↦ false ]

unfoldable pub private_client_ids : List ApplicationRow → (organization_id : String) → List String
private_client_ids applications organization_id =
    map (λ row. row.oauth_client_id) (filter (is_private_application organization_id) applications)

abbrev pub revoke_token :
    (users clients : List String) (now : ℕ) → RefreshTokenRow → RefreshTokenRow
revoke_token users clients now row =
    if includes users row.user_id && (includes clients row.client_id && not (is_some row.revoked))
    then record row { revoked = some now }
    else row

abbrev pub leave_session :
    (users : List String) (organization_id : String) → SessionRow → SessionRow
leave_session users organization_id row =
    if includes users row.user_id && holds row.active_organization_id organization_id
    then record row { active_organization_id = none; active_team_id = none }
    else row

abbrev pub is_team_membership : (users teams : List String) → TeamMemberRow → Bool
is_team_membership users teams row = includes users row.user_id && includes teams row.team_id

unfoldable pub remove_member :
    (organization_id member_id : String) → (expected : ℕ) → AuditRow → Exec OrganizationState Bool
unfolding target_user_ids private_client_ids team_ids
remove_member organization_id member_id expected audit s =
    let condition = is_removable s.members organization_id member_id expected in
    let users = target_user_ids s.members organization_id member_id expected in
    let clients = private_client_ids s.applications organization_id in
    let teams = team_ids s organization_id in
    (
      ok (any condition s.members),
      record s {
        audit_events = s.audit_events ++ audited condition s.members audit;
        team_members = filter (λ row. not (is_team_membership users teams row)) s.team_members;
        refresh_tokens = map (revoke_token users clients s.clock) s.refresh_tokens;
        sessions = map (leave_session users organization_id) s.sessions;
        members = filter (λ row. not (condition row)) s.members;
      },
    )

unfoldable pub create_invitation : InvitationRow → Exec OrganizationState InvitationRow
create_invitation invitation s =
    if any (λ row. row.id == invitation.id) s.invitations
    then (err unique_error, s)
    else if any (λ row. row.id == invitation.organization_id) s.organizations
        && elim invitation.inviter_id [ none ↦ true | some id ↦ includes s.users id ]
    then (ok invitation, record s { invitations = s.invitations ++ invitation ∷ [] })
    else (err foreign_key_error, s)

abbrev pub cancel_row : (id : String) → (now : ℕ) → InvitationRow → InvitationRow
cancel_row id now row =
    if row.id == id then record row { status = "canceled"; revoked_at = some now } else row

unfoldable pub cancel_invitation : (id : String) → Exec OrganizationState (Unit {0})
cancel_invitation id s =
    (ok tt, record s { invitations = map (cancel_row id s.clock) s.invitations })
