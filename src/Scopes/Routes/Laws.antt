-- ===== src/Scopes/Routes/Laws.antt =====
-- The scope that a route requires is a registered one.
use realmroot.Prelude.{
  String, true, false, Option, none, some, ◌==◌, ◌≡◌, refl, includes, if◌then◌else◌, Bool-cases,
  inl, inr,
}
use realmroot.Scopes.{realmroot_management_scopes}
use realmroot.Scopes.Routes.{
  ProtectedResource, resource_access, is_read_method, required_resource_scope, scope_for_resource,
  scope_for_route, OrganizationRoute, role_route, role_assignment_route, organization_route,
  other_route, required_protected_scope, organization_route_of, protected_resource_for_path,
  split_slash, strip_slashes, without_api,
}

abbrev pub IsRegistered : Option String → Type 0
IsRegistered none = Unit
IsRegistered (some scope) = includes realmroot_management_scopes scope ≡ true

read-IsRegistered : (r : ProtectedResource) → IsRegistered (some (resource_access r).read)
unfolding realmroot_management_scopes resource_access
read-IsRegistered ProtectedResource.applications = refl
read-IsRegistered _ = refl

write-IsRegistered : (r : ProtectedResource) → IsRegistered (resource_access r).write
unfolding realmroot_management_scopes resource_access
write-IsRegistered ProtectedResource.audit_events = tt
write-IsRegistered ProtectedResource.readiness = tt
write-IsRegistered _ = refl

pub required_resource_scope-IsRegistered :
    (method : String) (r : ProtectedResource) → IsRegistered (required_resource_scope method r)
unfolding required_resource_scope
required_resource_scope-IsRegistered method r = elim (Bool-cases (is_read_method method)) [
  | inl reads ↦ rw reads (read-IsRegistered r)
  | inr writes ↦ rw writes (write-IsRegistered r)
]

scope_for_resource-IsRegistered :
    (method : String) (o : Option ProtectedResource) → IsRegistered (scope_for_resource method o)
scope_for_resource-IsRegistered method none = tt
scope_for_resource-IsRegistered method (some r) = required_resource_scope-IsRegistered method r

scope_for_route-IsRegistered :
    (method path : String) (route : OrganizationRoute)
    → IsRegistered (scope_for_route method path route)
unfolding realmroot_management_scopes
scope_for_route-IsRegistered method path role_route =
    elim (is_read_method method)
      as (λ b. IsRegistered (some (if b then "roles:read" else "roles:write"))) [
        | true ↦ refl
        | false ↦ refl
      ]
scope_for_route-IsRegistered method path role_assignment_route =
    elim (is_read_method method)
      as (λ b.
        IsRegistered (some (if b then "role-assignments:read" else "role-assignments:write"))) [
          | true ↦ refl
          | false ↦ refl
        ]
scope_for_route-IsRegistered method path organization_route =
    elim (method == "DELETE")
      as (λ b. IsRegistered (
        if b
        then some "organizations:delete"
        else scope_for_resource method (protected_resource_for_path path))) [
          | true ↦ refl
          | false ↦ scope_for_resource-IsRegistered method (protected_resource_for_path path)
        ]
scope_for_route-IsRegistered method path other_route =
    scope_for_resource-IsRegistered method (protected_resource_for_path path)

-- Whatever the method and the path, the scope that the request needs, if any, is a key of the scope
-- registry.
pub required_protected_scope-IsRegistered :
    (method path : String) → IsRegistered (required_protected_scope method path)
unfolding required_protected_scope
required_protected_scope-IsRegistered method path =
    scope_for_route-IsRegistered method path
      (organization_route_of (without_api (split_slash (strip_slashes path))))
