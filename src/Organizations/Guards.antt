-- ===== src/Organizations/Guards.antt =====
-- server/usecases/authorization.ts: what the handlers on Organizations read and refuse before they write.
use Prim.Native.String
use realmroot.Prelude.{
  ℕ, String, Bool, not, ◌&&◌, ◌||◌, Option, none, some, List, [], ◌∷◌, map, find, includes, leb,
  ◌==◌, if◌then◌else◌,
}
use realmroot.Errors.{
  Result, Failure, ok, err, or_throw, require, not_found_error, bad_request_error,
}
use realmroot.Organizations.{
  OrganizationRow, MemberRow, InvitationRow, OrganizationState, ActorAgent,
}
use realmroot.Organizations.Roles.{serialize_roles, deserialize_roles}
use realmroot.Organizations.Store.{
  find_organization, find_member, find_invitation, list_organization_roles, count_members_by_role,
}

unfoldable pub get_organization : String → OrganizationState → Result OrganizationRow
unfolding find_organization
get_organization id s =
    or_throw (find_organization s id) (not_found_error "Organization was not found.")

unfoldable pub require_member : String → OrganizationState → Result MemberRow
unfolding find_member
require_member id s =
    or_throw (find_member s id) (not_found_error "Organization member was not found.")

-- `if (!test(value)) throw failure`
abbrev pub only : {A : Type 0} → Result A → (A → Bool) → Failure → Result A
only (ok a) test e = if test a then ok a else err e
only (err failure) test e = err failure

unfoldable pub require_member_for_organization :
    (id organization_id : String) → OrganizationState → Result MemberRow
unfolding require_member
require_member_for_organization id organization_id s =
    only (require_member id s) (λ member. member.organization_id == organization_id)
      (not_found_error "Organization member was not found.")

-- `predefinedOrganizationRoleKeys`
abbrev pub predefined_keys : List String
predefined_keys = "owner" ∷ "admin" ∷ "developer" ∷ "member" ∷ []

abbrev pub is_known_role : (dynamic : List String) → String → Bool
is_known_role dynamic role = includes predefined_keys role || includes dynamic role

-- `if (unknown) throw …`: the empty text does not count.
abbrev pub refuse_unknown : Option String → Result (Unit {0})
refuse_unknown none = ok tt
refuse_unknown (some role) =
    require (role == "") (
      bad_request_error (String.◌++◌ "Organization Role \"" (String.◌++◌ role "\" was not found.")))

unfoldable pub validate_organization_role_keys :
    (organization_id : String) → (roles : List String) → OrganizationState → Result (Unit {0})
unfolding list_organization_roles
validate_organization_role_keys organization_id roles s =
    let dynamic = map (λ row. row.role) (list_organization_roles s organization_id) in
    refuse_unknown (find (λ role. not (is_known_role dynamic role)) roles)

unfoldable pub reject_last_owner_mutation : MemberRow → OrganizationState → Result (Unit {0})
unfolding deserialize_roles count_members_by_role
reject_last_owner_mutation member s =
    require
      (not (includes (deserialize_roles member.role) "owner")
        || leb 2 (count_members_by_role s member.organization_id "owner"))
      (bad_request_error
        "Transfer Organization ownership before changing or removing the last Owner.")

-- `if (target.roles.includes('owner') && !input.roles.includes('owner'))`
unfoldable pub check_ownership :
    (target : MemberRow) → (roles : List String) → OrganizationState → Result (Unit {0})
unfolding reject_last_owner_mutation deserialize_roles
check_ownership target roles s =
    if includes (deserialize_roles target.role) "owner" && not (includes roles "owner")
    then reject_last_owner_mutation target s
    else ok tt

abbrev pub agent_field : (ActorAgent → String) → Option ActorAgent → Option String
agent_field field none = none
agent_field field (some agent) = some (field agent)

-- `left ?? right`
abbrev pub first_of : Option String → Option String → Option String
first_of (some left) right = some left
first_of none right = right

abbrev pub member_row :
    (id organization_id user_id : String)
    → (roles : List String) → (title : Option String) → (now : ℕ) → MemberRow
member_row id organization_id user_id roles title now = record {
  id = id;
  organization_id = organization_id;
  user_id = user_id;
  role = serialize_roles roles;
  title = title;
  created_at = now;
  updated_at = now;
}

unfoldable pub require_invitation :
    (organization_id id : String) → OrganizationState → Result InvitationRow
unfolding find_invitation
require_invitation organization_id id s =
    let missing = not_found_error "Organization invitation was not found." in
    only (or_throw (find_invitation s id) missing)
      (λ invitation. invitation.organization_id == organization_id) missing
