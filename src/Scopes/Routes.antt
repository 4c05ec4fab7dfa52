-- ===== src/Scopes/Routes.antt =====
-- shared/authz.ts: which scope a management request needs.
pub mod Laws
use Prim.Native.Char.{Char, code}
use Prim.Native.String
use realmroot.Prelude.{
  String, Bool, true, false, not, ◌&&◌, ◌||◌, Option, none, some, List, [], ◌∷◌, ◌++◌, map, ◌==◌,
  filter, find, flat_map, includes, dedupe, nat_eq, split_at, if◌then◌else◌,
}
use realmroot.Scopes.{realmroot_management_scopes}

-- `keyof typeof resourceAccess`
pub data ProtectedResource : Type 0 where
  applications users organizations roles api_resources connectors settings : ProtectedResource
  security webhooks agents audit_events readiness : ProtectedResource

pub record ResourceAccess : Type 0 where
  pub route_prefixes : List String
  pub read : String
  pub write : Option String

unfoldable pub resource_access : ProtectedResource → ResourceAccess
resource_access ProtectedResource.applications = record {
  route_prefixes = "applications" ∷ [];
  read = "applications:read";
  write = some "applications:write";
}
resource_access ProtectedResource.users = record {
  route_prefixes = "users" ∷ [];
  read = "users:read";
  write = some "users:write";
}
resource_access ProtectedResource.organizations = record {
  route_prefixes = "organizations" ∷ [];
  read = "organizations:read";
  write = some "organizations:write";
}
resource_access ProtectedResource.roles = record {
  route_prefixes = [];
  read = "roles:read";
  write = some "roles:write";
}
resource_access ProtectedResource.api_resources = record {
  route_prefixes = "resource-servers" ∷ [];
  read = "resource-servers:read";
  write = some "resource-servers:write";
}
resource_access ProtectedResource.connectors = record {
  route_prefixes = "connectors" ∷ [];
  read = "connectors:read";
  write = some "connectors:write";
}
resource_access ProtectedResource.settings = record {
  route_prefixes = "realm" ∷ [];
  read = "settings:read";
  write = some "settings:write";
}
resource_access ProtectedResource.security = record {
  route_prefixes = [];
  read = "security:read";
  write = some "security:write";
}
resource_access ProtectedResource.webhooks = record {
  route_prefixes = "webhooks" ∷ [];
  read = "webhooks:read";
  write = some "webhooks:write";
}
resource_access ProtectedResource.agents = record {
  route_prefixes = "agents" ∷ [];
  read = "agents:read";
  write = some "agents:write";
}
resource_access ProtectedResource.audit_events = record {
  route_prefixes = [];
  read = "audit-events:read";
  write = none;
}
resource_access ProtectedResource.readiness = record {
  route_prefixes = [];
  read = "readiness:read";
  write = none;
}

-- `Object.entries(resourceAccess)`, in the order of the source
unfoldable pub protected_resources : List ProtectedResource
protected_resources =
    ProtectedResource.applications ∷ ProtectedResource.users ∷ ProtectedResource.organizations
    ∷ ProtectedResource.roles ∷ ProtectedResource.api_resources ∷ ProtectedResource.connectors
    ∷ ProtectedResource.settings ∷ ProtectedResource.security ∷ ProtectedResource.webhooks
    ∷ ProtectedResource.agents ∷ ProtectedResource.audit_events ∷ ProtectedResource.readiness ∷ []

-- `resourceByRoutePrefix[prefix] ?? null`; no prefix is listed twice
unfoldable pub resource_by_route_prefix : String → Option ProtectedResource
unfolding resource_access protected_resources
resource_by_route_prefix prefix =
    find (λ resource. includes (resource_access resource).route_prefixes prefix) protected_resources

abbrev is_slash : Char → Bool
is_slash c = nat_eq (code c) b'/'

-- `path.replace(/^\/+/, '')`
pub strip_slashes : String → String
strip_slashes String.[] = ""
strip_slashes (String.◌∷◌ c s) =
    let rest = strip_slashes s in if is_slash c then rest else String.◌∷◌ c s

-- `path.split('/')`
pub split_slash : String → List String
unfolding split_at
split_slash path = split_at is_slash path

abbrev is_segment : String → Bool
is_segment s = not (s == "")

abbrev realm_resource : String → ProtectedResource
realm_resource child =
    if child == "security-policy"
    then ProtectedResource.security
    else if child == "audit-events"
    then ProtectedResource.audit_events
    else if child == "configuration-status"
    then ProtectedResource.readiness
    else ProtectedResource.settings

-- The second segment of `["realm"]` is `undefined`, which no test above equals.
abbrev resource_for_segments : List String → Option ProtectedResource
resource_for_segments [] = none
resource_for_segments (prefix ∷ []) =
    if prefix == "realm"
    then some ProtectedResource.settings
    else if is_segment prefix
    then resource_by_route_prefix prefix
    else none
resource_for_segments (prefix ∷ child ∷ _) =
    if prefix == "realm"
    then some (realm_resource child)
    else if is_segment prefix
    then resource_by_route_prefix prefix
    else none

unfoldable pub protected_resource_for_path : String → Option ProtectedResource
unfolding strip_slashes split_slash resource_by_route_prefix
protected_resource_for_path path = resource_for_segments (split_slash (strip_slashes path))

abbrev is_read_method : String → Bool
is_read_method method = method == "GET" || method == "HEAD"

unfoldable pub required_resource_scope : String → ProtectedResource → Option String
unfolding resource_access
required_resource_scope method resource =
    if is_read_method method
    then some (resource_access resource).read
    else (resource_access resource).write

-- `.replace(/^api(?:\/|$)/, '')`, on the segments of the path
abbrev without_api : List String → List String
without_api [] = []
without_api (s ∷ []) = if s == "api" then "" ∷ [] else s ∷ []
without_api (s ∷ t ∷ rest) = if s == "api" then t ∷ rest else s ∷ t ∷ rest

-- The three patterns under `organizations/`, on the segments of the path.
pub data OrganizationRoute : Type 0 where
  role_route role_assignment_route organization_route other_route : OrganizationRoute

abbrev under_organization : List String → OrganizationRoute
under_organization [] = organization_route
under_organization (s ∷ []) = if s == "roles" then role_route else other_route
under_organization (s ∷ t ∷ []) = if s == "roles" && is_segment t then role_route else other_route
under_organization (s ∷ t ∷ u ∷ []) =
    if s == "members" && is_segment t && u == "roles" then role_assignment_route else other_route
under_organization _ = other_route

abbrev organization_route_of : List String → OrganizationRoute
organization_route_of (root ∷ id ∷ rest) =
    if root == "organizations" && is_segment id then under_organization rest else other_route
organization_route_of _ = other_route

abbrev scope_for_resource : String → Option ProtectedResource → Option String
scope_for_resource method none = none
scope_for_resource method (some resource) = required_resource_scope method resource

abbrev scope_for_route : String → String → OrganizationRoute → Option String
scope_for_route method path role_route =
    some (if is_read_method method then "roles:read" else "roles:write")
scope_for_route method path role_assignment_route =
    some (if is_read_method method then "role-assignments:read" else "role-assignments:write")
scope_for_route method path organization_route =
    if method == "DELETE"
    then some "organizations:delete"
    else scope_for_resource method (protected_resource_for_path path)
scope_for_route method path other_route =
    scope_for_resource method (protected_resource_for_path path)

unfoldable pub required_protected_scope : String → String → Option String
unfolding strip_slashes split_slash protected_resource_for_path required_resource_scope
required_protected_scope method path =
    scope_for_route method path
      (organization_route_of (without_api (split_slash (strip_slashes path))))

unfoldable pub agent_bootstrap_scopes : List String
agent_bootstrap_scopes =
    "agent:read" ∷ "resource-servers:read" ∷ "authorization-details:read" ∷ "access-requests:read"
    ∷ "access-requests:write" ∷ []

unfoldable pub realmroot_oauth_scopes : List String
unfolding agent_bootstrap_scopes realmroot_management_scopes dedupe
realmroot_oauth_scopes = dedupe (agent_bootstrap_scopes ++ realmroot_management_scopes)
