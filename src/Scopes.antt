-- ===== src/Scopes.antt =====
-- shared/scope-registry.ts, shared/authz.ts and the role scopes of shared/organization-access.ts.
pub mod Routes
pub mod Laws
use realmroot.Prelude.{
  String, Bool, true, false, not, ◌&&◌, ◌||◌, Option, none, some, List, [], ◌∷◌, ◌++◌, map, ◌==◌,
  filter, includes, dedupe, is_some, if◌then◌else◌,
}

pub record ScopeDefinition : Type 0 where
  pub resource : String
  pub action : String
  pub organization : Bool

abbrev organization_scope : String → String → ScopeDefinition
organization_scope resource action = record {
  resource = resource;
  action = action;
  organization = true;
}

unfoldable pub realmroot_scope_registry : List (String × ScopeDefinition)
realmroot_scope_registry =
    ("applications:read", organization_scope "application" "read")
    ∷ ("applications:write", organization_scope "application" "write")
    ∷ ("users:read", organization_scope "member" "read")
    ∷ ("users:write", organization_scope "user" "write")
    ∷ ("organizations:read", organization_scope "organization" "read")
    ∷ ("organizations:write", organization_scope "organization" "write")
    ∷ ("organizations:delete", organization_scope "organization" "delete")
    ∷ ("roles:read", organization_scope "role" "read")
    ∷ ("roles:write", organization_scope "role" "write")
    ∷ ("role-assignments:read", organization_scope "role" "read-assignment")
    ∷ ("role-assignments:write", organization_scope "role" "write-assignment")
    ∷ ("resource-servers:read", organization_scope "resource-server" "read")
    ∷ ("resource-servers:write", organization_scope "resource-server" "write")
    ∷ ("connectors:read", organization_scope "connector" "read")
    ∷ ("connectors:write", organization_scope "connector" "write")
    ∷ ("settings:read", organization_scope "realm" "read")
    ∷ ("settings:write", organization_scope "realm" "write")
    ∷ ("security:read", organization_scope "security" "read")
    ∷ ("security:write", organization_scope "security" "write")
    ∷ ("readiness:read", organization_scope "readiness" "read")
    ∷ ("webhooks:read", organization_scope "webhook" "read")
    ∷ ("webhooks:write", organization_scope "webhook" "write")
    ∷ ("agents:read", organization_scope "agent" "read")
    ∷ ("agents:write", organization_scope "agent" "write")
    ∷ ("permissions:read", organization_scope "permission" "read")
    ∷ ("permissions:write", organization_scope "permission" "write")
    ∷ ("audit-events:read", organization_scope "audit-event" "read")
    ∷ []

-- `Object.keys(realmrootScopeRegistry)`
unfoldable pub realmroot_management_scopes : List String
unfolding realmroot_scope_registry
realmroot_management_scopes = map (λ entry. entry.0) realmroot_scope_registry

unfoldable pub realmroot_organization_scopes : List String
unfolding realmroot_scope_registry
realmroot_organization_scopes =
    map (λ entry. entry.0) (filter (λ entry. entry.1.organization) realmroot_scope_registry)

-- The names that every JavaScript object inherits: `key in record` holds of them too.
unfoldable pub inherited_keys : List String
inherited_keys =
    "constructor" ∷ "hasOwnProperty" ∷ "isPrototypeOf" ∷ "propertyIsEnumerable" ∷ "toLocaleString"
    ∷ "toString" ∷ "valueOf" ∷ "__proto__" ∷ "__defineGetter__" ∷ "__defineSetter__"
    ∷ "__lookupGetter__" ∷ "__lookupSetter__" ∷ []

-- `scope in realmrootScopeRegistry`
unfoldable pub in_scope_registry : String → Bool
in_scope_registry scope =
    includes realmroot_management_scopes scope || includes inherited_keys scope

unfoldable pub admin_scopes : List String
unfolding realmroot_organization_scopes
admin_scopes =
    filter (λ scope. not (scope == "organizations:delete") && not (scope == "roles:write"))
      realmroot_organization_scopes

unfoldable pub developer_scopes : List String
developer_scopes =
    "applications:read" ∷ "applications:write" ∷ "users:read" ∷ "organizations:read" ∷ "roles:read"
    ∷ "role-assignments:read" ∷ "resource-servers:read" ∷ "resource-servers:write"
    ∷ "connectors:read" ∷ "webhooks:read" ∷ "webhooks:write" ∷ "agents:read" ∷ "audit-events:read"
    ∷ []

unfoldable pub member_scopes : List String
member_scopes = "organizations:read" ∷ "users:read" ∷ []

-- `predefinedOrganizationRoleScopes[role]`, for the keys that the object has itself
unfoldable pub predefined_role_scopes : String → Option (List String)
predefined_role_scopes role =
    if role == "owner"
    then some realmroot_organization_scopes
    else if role == "admin"
    then some admin_scopes
    else if role == "developer"
    then some developer_scopes
    else if role == "member"
    then some member_scopes
    else none
