-- ===== src/Tests/Organizations.antt =====
-- The theorems on Organizations, tried on one with two owners.
use realmroot.Prelude.{ℕ, String, true, false, none, some, List, [], ◌∷◌, ◌≡◌, refl, ◌+◌}
use realmroot.Errors.{ok, err, precondition_failed_error}
use realmroot.Directory.{Visibility}
use realmroot.Organizations.{OrganizationRow, MemberRow, OrganizationState, MutationActor, draw_id}
use realmroot.Organizations.Roles.{like, has_role, deserialize_roles, serialize_roles}
use realmroot.Organizations.Store.{
  find_member, find_organization, OrganizationPatch, update_organization, delete_organization,
}
use realmroot.Organizations.Store.Writes.{is_not_last_owner, remove_member}
use realmroot.Organizations.Guards.{
  get_organization, require_member, require_member_for_organization,
}
use realmroot.Organizations.Handlers.{
  authorization_audit, remove_found, remove_organization_member, change_organization,
  remove_organization,
}
use realmroot.Organizations.Steps.{Reach, is_owned}
use realmroot.Organizations.Owned.{reached-is_owned}
use realmroot.Organizations.Runs.{Request, after, organization_request-Reach}
use realmroot.Organizations.Removed.{IsOut, removed_member-IsOut}
use realmroot.Organizations.Refused.{last_owner_is_refused}

abbrev ids : ℕ → String
ids n = "audit-1"

abbrev admin : MutationActor
admin = record { controller_user_id = some "alice"; agent = none }

abbrev acme : OrganizationRow
acme = record {
  id = "acme";
  slug = "acme";
  name = "Acme";
  display_name = none;
  logo = none;
  disabled = false;
  disabled_reason = none;
  created_at = 1;
  updated_at = 1;
}

abbrev member_of_acme : (id user_id role : String) → MemberRow
member_of_acme id user_id role = record {
  id = id;
  organization_id = "acme";
  user_id = user_id;
  role = role;
  title = none;
  created_at = 1;
  updated_at = 1;
}

abbrev with_members : List MemberRow → OrganizationState
with_members members = record {
  organizations = acme ∷ [];
  members = members;
  invitations = [];
  roles = [];
  users = "alice" ∷ "bob" ∷ [];
  deleted_users = [];
  applications =
      record {
        oauth_client_id = "shop";
        owner_organization_id = "acme";
        visibility = Visibility.private;
      }
      ∷ [];
  restricting = [];
  refresh_tokens = record { client_id = "shop"; user_id = "bob"; revoked = none } ∷ [];
  sessions =
      record { user_id = "bob"; active_organization_id = some "acme"; active_team_id = none } ∷ [];
  teams = record { id = "crew"; organization_id = "acme" } ∷ [];
  team_members = record { team_id = "crew"; user_id = "bob" } ∷ [];
  audit_events = [];
  drawn = 0;
  clock = 100;
}

abbrev two_owners : OrganizationState
two_owners =
    with_members
      (member_of_acme "m1" "alice" "owner" ∷ member_of_acme "m2" "bob" "member,owner" ∷ [])

abbrev one_owner : OrganizationState
one_owner =
    with_members (member_of_acme "m1" "alice" "owner" ∷ member_of_acme "m2" "bob" "member" ∷ [])

removal_answers : (remove_organization_member ids "acme" "m2" admin two_owners).0 ≡ ok tt
unfolding remove_organization_member remove_found authorization_audit draw_id remove_member
    require_member_for_organization require_member find_member is_not_last_owner has_role like
removal_answers = refl

removal_is_followed : Reach two_owners (after ids (Request.remove "acme" "m2" admin) two_owners)
removal_is_followed = organization_request-Reach ids (Request.remove "acme" "m2" admin) two_owners

organization_request-Reach_example :
    Reach one_owner (after ids (Request.replace "acme" "m2" ("owner" ∷ []) admin) one_owner)
organization_request-Reach_example =
    organization_request-Reach ids (Request.replace "acme" "m2" ("owner" ∷ []) admin) one_owner

reached-is_owned_example : is_owned (after ids (Request.remove "acme" "m2" admin) two_owners) ≡ true
unfolding has_role like
reached-is_owned_example =
    reached-is_owned two_owners (after ids (Request.remove "acme" "m2" admin) two_owners)
      removal_is_followed refl

removed_member-IsOut_example :
    (row : MemberRow) × (find_member two_owners "m2" ≡ some row)
    × (row.organization_id ≡ "acme")
    × IsOut (remove_organization_member ids "acme" "m2" admin two_owners).1 "acme" "m2" row.user_id
removed_member-IsOut_example =
    removed_member-IsOut ids "acme" "m2" admin two_owners refl removal_answers

last_owner_is_refused_example : remove_organization_member ids "acme" "m1" admin one_owner ≡ (
  err (precondition_failed_error "The Organization member changed or is the last Owner."),
  record one_owner { drawn = one_owner.drawn + 1 },
)
unfolding find_member has_role like
last_owner_is_refused_example =
    last_owner_is_refused ids "acme" "m1" admin one_owner (member_of_acme "m1" "alice" "owner") refl
      refl refl refl refl

-- `_` in a role key stands for any character.
underscore_is_a_wildcard : has_role "a_b" "a-b" ≡ true
unfolding has_role like
underscore_is_a_wildcard = refl

roles_read_back :
    deserialize_roles (serialize_roles ("owner" ∷ "admin" ∷ "owner" ∷ [])) ≡ "admin" ∷ "owner" ∷ []
unfolding deserialize_roles serialize_roles
roles_read_back = refl

abbrev platform : OrganizationState
platform = record two_owners {
  organizations = record acme { slug = "realmroot" } ∷ [];
  applications = [];
}

abbrev renaming : OrganizationPatch
renaming = record {
  slug = some "renamed";
  name = none;
  display_name = none;
  logo = none;
  disabled = none;
  disabled_reason = none;
}

-- The built-in Organization can be given another slug, and then be deleted.
platform_is_renamed_and_deleted :
    (remove_organization "acme" (change_organization "acme" renaming platform).1).0 ≡ ok tt
unfolding remove_organization change_organization get_organization find_organization
    update_organization delete_organization
platform_is_renamed_and_deleted = refl
