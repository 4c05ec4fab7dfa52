-- ===== src/Organizations/Store.antt =====
-- server/adapters/repos/authorization.ts: the queries and writes on Organizations and members. A
-- batch is one transaction, and its statements see the rows that those before them wrote. A row is
-- refused by a unique index before it is by a foreign key.
pub mod Writes
use realmroot.Prelude.{
  ℕ, String, Bool, true, false, not, ◌&&◌, ◌||◌, Option, none, some, List, [], ◌∷◌, ◌++◌, map,
  filter, find, any, includes, holds, is_some, get_or, length, nat_eq, ◌==◌, if◌then◌else◌,
}
use realmroot.Errors.{Result, ok, err, Failure, thrown}
use realmroot.Errors.Exec.{Exec}
use realmroot.Directory.{Visibility}
use realmroot.Organizations.{
  OrganizationRow, MemberRow, InvitationRow, OrganizationRoleRow, ApplicationRow, RefreshTokenRow,
  SessionRow, TeamRow, TeamMemberRow, AuditRow, OrganizationState,
}
use realmroot.Organizations.Roles.{serialize_roles, has_role}

abbrev pub unique_error : Failure
unique_error = thrown "UNIQUE constraint failed"

abbrev pub foreign_key_error : Failure
foreign_key_error = thrown "FOREIGN KEY constraint failed"

-- What a trigger of migrations/20260908181744_loose_lilandra.sql aborts with
abbrev pub account_deleted_error : Failure
account_deleted_error = thrown "account_deleted"

unfoldable pub find_organization : OrganizationState → String → Option OrganizationRow
find_organization s id = find (λ row. row.id == id) s.organizations

unfoldable pub find_member : OrganizationState → String → Option MemberRow
find_member s id = find (λ row. row.id == id) s.members

unfoldable pub find_invitation : OrganizationState → String → Option InvitationRow
find_invitation s id = find (λ row. row.id == id) s.invitations

unfoldable pub list_organization_roles : OrganizationState → String → List OrganizationRoleRow
list_organization_roles s organization_id =
    filter (λ row. row.organization_id == organization_id) s.roles

-- A member of the Organization with the role in its column
abbrev pub is_member_with : (organization_id key : String) → MemberRow → Bool
is_member_with organization_id key row =
    row.organization_id == organization_id && has_role key row.role

unfoldable pub count_members_by_role : OrganizationState → (organization_id key : String) → ℕ
count_members_by_role s organization_id key =
    length (filter (is_member_with organization_id key) s.members)

abbrev pub is_organization_taken : OrganizationRow → OrganizationRow → Bool
is_organization_taken organization row = row.id == organization.id || row.slug == organization.slug

abbrev pub is_member_taken : MemberRow → MemberRow → Bool
is_member_taken member row =
    row.id == member.id
    || (row.organization_id == member.organization_id && row.user_id == member.user_id)

-- The trigger `account_deleted_member_insert` is asked first.
unfoldable pub insert_member : MemberRow → Exec OrganizationState (Unit {0})
insert_member member s =
    if includes s.deleted_users member.user_id
    then (err account_deleted_error, s)
    else if any (is_member_taken member) s.members
    then (err unique_error, s)
    else if any (λ row. row.id == member.organization_id) s.organizations
        && includes s.users member.user_id
    then (ok tt, record s { members = s.members ++ member ∷ [] })
    else (err foreign_key_error, s)

-- A batch whose second statement fails leaves nothing of the first.
abbrev pub kept :
    OrganizationState
    → OrganizationRow
    → Result (Unit {0})
    → OrganizationState
    → Result OrganizationRow × OrganizationState
kept before organization (ok _) s = (ok organization, s)
kept before organization (err e) s = (err e, before)

unfoldable pub create_organization :
    OrganizationRow → (owner : MemberRow) → Exec OrganizationState OrganizationRow
unfolding insert_member
create_organization organization owner s =
    if any (is_organization_taken organization) s.organizations
    then (err unique_error, s)
    else let inserted =
        insert_member owner (record s { organizations = s.organizations ++ organization ∷ [] }) in
      kept s organization inserted.0 inserted.1

-- `none` for what is undefined: `withoutUndefined` leaves its column as it is
pub record OrganizationPatch : Type 0 where
  pub slug : Option String
  pub name : Option String
  pub display_name : Option (Option String)
  pub logo : Option (Option String)
  pub disabled : Option Bool
  pub disabled_reason : Option (Option String)

abbrev pub patch_organization :
    (id : String) → OrganizationPatch → (now : ℕ) → OrganizationRow → OrganizationRow
patch_organization id patch now row =
    if row.id == id
    then record row {
      slug = get_or patch.slug row.slug;
      name = get_or patch.name row.name;
      display_name = get_or patch.display_name row.display_name;
      logo = get_or patch.logo row.logo;
      disabled = get_or patch.disabled row.disabled;
      disabled_reason = get_or patch.disabled_reason row.disabled_reason;
      updated_at = now;
    }
    else row

-- The slug is one of another Organization.
abbrev pub is_slug_taken : (id : String) → Option String → OrganizationRow → Bool
is_slug_taken id slug row = not (row.id == id) && holds slug row.slug

unfoldable pub update_organization :
    (id : String) → OrganizationPatch → Exec OrganizationState (Unit {0})
update_organization id patch s =
    if any (λ row. row.id == id) s.organizations
      && any (is_slug_taken id patch.slug) s.organizations
    then (err unique_error, s)
    else (
      ok tt,
      record s { organizations = map (patch_organization id patch s.clock) s.organizations },
    )

unfoldable pub team_ids : OrganizationState → (organization_id : String) → List String
team_ids s organization_id =
    map (λ row. row.id) (filter (λ row. row.organization_id == organization_id) s.teams)

-- `on delete restrict` of the applications and the resources, and `on delete cascade` of the rest
unfoldable pub delete_organization : (id : String) → Exec OrganizationState (Unit {0})
unfolding team_ids
delete_organization id s =
    if any (λ row. row.id == id) s.organizations
      && (any (λ row. row.owner_organization_id == id) s.applications || includes s.restricting id)
    then (err foreign_key_error, s)
    else (
      ok tt,
      record s {
        organizations = filter (λ row. not (row.id == id)) s.organizations;
        members = filter (λ row. not (row.organization_id == id)) s.members;
        invitations = filter (λ row. not (row.organization_id == id)) s.invitations;
        roles = filter (λ row. not (row.organization_id == id)) s.roles;
        teams = filter (λ row. not (row.organization_id == id)) s.teams;
        team_members = filter (λ row. not (includes (team_ids s id) row.team_id)) s.team_members;
      },
    )

abbrev pub retitle : (id : String) → Option (Option String) → (now : ℕ) → MemberRow → MemberRow
retitle id title now row =
    if row.id == id then record row { title = get_or title row.title; updated_at = now } else row

-- The account of a user is deleted with the rows of its memberships, so that the trigger
-- `account_deleted_member_update` finds none.
unfoldable pub update_member :
    (id : String) → Option (Option String) → Exec OrganizationState (Unit {0})
update_member id title s = (ok tt, record s { members = map (retitle id title s.clock) s.members })
