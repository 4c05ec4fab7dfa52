-- ===== src/Membership.antt =====
-- server/usecases/resource-visibility.ts, server/usecases/system-resources.ts,
-- server/domain/platform-organization.ts, server/domain/realmroot-resource-server.ts and
-- server/usecases/organization-membership-scopes.ts: the scopes that the roles of a member give.
pub mod Resolved
use realmroot.Prelude.{
  ℕ, String, Bool, true, false, not, ◌&&◌, ◌||◌, Option, none, some, List, [], ◌∷◌, ◌++◌, map, ◌==◌,
  filter, flat_map, includes, dedupe, sort, get_or, if◌then◌else◌,
}
use realmroot.Errors.{Failure, thrown, Result, ok, err, ◌>>=◌, or_throw}
use realmroot.Scopes.{in_scope_registry, inherited_keys, predefined_role_scopes}
use realmroot.Directory.{
  Directory, Organization, ApiResource, ResourceScope, RoleScope, Visibility, private, public,
  GrantMode, automatic, assigned, Member, find_resource, find_resource_by_identifier,
  find_organization_by_slug, organization_role_scopes, find_member_by_organization_user,
}
use realmroot.Context.{
  AuthorizationTenant, AuthorizationSubject, AuthorizationContext, can_authorize,
}

abbrev pub is_public : Visibility → Bool
is_public private = false
is_public public = true

abbrev pub is_automatic : GrantMode → Bool
is_automatic automatic = true
is_automatic assigned = false

unfoldable pub resource_visible_to_organization : ApiResource → String → Bool
resource_visible_to_organization resource organization_id =
    is_public resource.visibility || resource.owner_organization_id == organization_id

unfoldable pub active_resource_visible_to_organization : ApiResource → String → Bool
unfolding resource_visible_to_organization
active_resource_visible_to_organization resource organization_id =
    resource.enabled && resource_visible_to_organization resource organization_id

unfoldable pub is_realmroot_resource_server : ApiResource → Bool
is_realmroot_resource_server resource = resource.identifier == "realmroot"

unfoldable pub find_realmroot_resource_server : Directory → Option ApiResource
unfolding find_resource_by_identifier
find_realmroot_resource_server deps = find_resource_by_identifier deps "realmroot"

unfoldable pub require_platform_organization : Directory → Result Organization
unfolding find_organization_by_slug
require_platform_organization deps =
    or_throw (find_organization_by_slug deps "realmroot")
      (thrown "The built-in platform Organization is unavailable.")

-- `resource.scopeRegistry?.scopes ?? []`
abbrev pub registry_scopes : ApiResource → List ResourceScope
registry_scopes resource = get_or resource.scope_registry []

abbrev pub scope_values : List ResourceScope → List String
scope_values scopes = map (λ scope. scope.value) scopes

abbrev pub assigned_scopes : ApiResource → List String
assigned_scopes resource =
    scope_values (filter (λ scope. not (is_automatic scope.grant_mode)) (registry_scopes resource))

unfoldable pub filter_current_resource_scopes : ApiResource → String → List String → List String
unfolding active_resource_visible_to_organization is_realmroot_resource_server
filter_current_resource_scopes resource organization_id [] = []
filter_current_resource_scopes resource organization_id (s ∷ ss) =
    if not (active_resource_visible_to_organization resource organization_id)
    then []
    else if is_realmroot_resource_server resource
    then sort (filter in_scope_registry (s ∷ ss))
    else sort (filter (includes (assigned_scopes resource)) (s ∷ ss))

-- The inner loop over the scopes of a predefined role. `role in …` holds of an inherited key too,
-- and then there is nothing to iterate over: a TypeError.
unfoldable pub scopes_of_predefined_role : String → Result (List String)
scopes_of_predefined_role role =
    if includes inherited_keys role
    then err (thrown "TypeError: the value is not iterable")
    else ok (get_or (predefined_role_scopes role) [])

unfoldable pub scopes_of_predefined_roles : List String → Result (List String)
scopes_of_predefined_roles [] = ok []
scopes_of_predefined_roles (role ∷ roles) = do
  here ← scopes_of_predefined_role role
  later ← scopes_of_predefined_roles roles
  ok (here ++ later)

abbrev pub matching_scopes : String → List RoleScope → List String
matching_scopes resource_id items =
    map (λ item. item.scope) (filter (λ item. item.resource_id == resource_id) items)

-- The loop over the dynamic roles; without a resource no item matches.
unfoldable pub scopes_of_dynamic_roles :
    Directory → String → List String → Option ApiResource → List String
scopes_of_dynamic_roles deps organization_id roles none = []
scopes_of_dynamic_roles deps organization_id roles (some resource) =
    flat_map
      (λ role. matching_scopes resource.id (organization_role_scopes deps organization_id role))
      roles

abbrev is_empty : List String → Bool
is_empty [] = true
is_empty (_ ∷ _) = false

-- What follows the test on `realmroot`, for the scopes collected so far
unfoldable pub scopes_of_other_resource :
    String → List String → Option ApiResource → List String → List String
unfolding filter_current_resource_scopes
scopes_of_other_resource organization_id roles none scopes = []
scopes_of_other_resource organization_id roles (some resource) scopes =
    if is_empty scopes && not (includes roles "owner")
    then []
    else if resource.owner_organization_id == organization_id && includes roles "owner"
    then filter_current_resource_scopes resource organization_id
        (dedupe (scopes ++ assigned_scopes resource))
    else filter_current_resource_scopes resource organization_id (dedupe scopes)

abbrev is_realmroot : Option ApiResource → Bool
is_realmroot none = false
is_realmroot (some resource) = is_realmroot_resource_server resource

unfoldable pub resolve_organization_membership_scopes_for_resource :
    Directory → String → List String → Option ApiResource → Result (List String)
resolve_organization_membership_scopes_for_resource deps organization_id roles resource =
    let dynamic = scopes_of_dynamic_roles deps organization_id roles resource in
    let of_realmroot : Result (List String) = (do
      predefined ← scopes_of_predefined_roles roles
      ok (sort (filter in_scope_registry (dedupe (predefined ++ dynamic))))) in
    if is_realmroot resource
    then of_realmroot
    else ok (scopes_of_other_resource organization_id roles resource dynamic)

unfoldable pub resolve_organization_membership_scopes :
    Directory → String → List String → String → Result (List String)
resolve_organization_membership_scopes deps organization_id roles resource_id =
    resolve_organization_membership_scopes_for_resource deps organization_id roles
      (find_resource deps resource_id)

abbrev pub scopes_of_member :
    Directory → String → Option Member → Option ApiResource → Result (List String)
scopes_of_member deps organization_id (some member) (some realmroot) =
    resolve_organization_membership_scopes_for_resource deps organization_id member.roles
      (some realmroot)
scopes_of_member deps organization_id _ _ = ok []

unfoldable pub resolve_organization_user_authorization_context :
    Directory → String → String → Result AuthorizationContext
resolve_organization_user_authorization_context deps organization_id user_id = do
  scopes ←
      scopes_of_member deps organization_id
        (find_member_by_organization_user deps organization_id user_id)
        (find_realmroot_resource_server deps)
  ok (record {
    subject = AuthorizationSubject.user user_id;
    tenant = AuthorizationTenant.organization organization_id;
    scopes = scopes;
  })

unfoldable pub organization_user_has_scope : Directory → String → String → String → Result Bool
organization_user_has_scope deps organization_id user_id required_scope = do
  context ← resolve_organization_user_authorization_context deps organization_id user_id
  ok (can_authorize context (AuthorizationTenant.organization organization_id) required_scope)
