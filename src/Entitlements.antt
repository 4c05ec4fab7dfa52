-- ===== src/Entitlements.antt =====
-- server/usecases/resource-scope-entitlements.ts: the scopes of a resource that a user or an
-- application holds at a time.
pub mod Effective
pub mod Expiry
use realmroot.Prelude.{
  ℕ, String, Bool, true, false, not, ◌&&◌, ◌||◌, Option, none, some, List, [], ◌∷◌, ◌++◌, map, ◌==◌,
  filter, includes, dedupe, sort, get_or, leb, holds, is_some, if◌then◌else◌,
}
use realmroot.Errors.{Result, ok, err, ◌>>=◌}
use realmroot.Directory.{
  Directory, ApiResource, ScopeEntitlement, Member, Application, list_user_memberships,
  list_active_user_scope_entitlements, list_active_application_scope_entitlements,
}
use realmroot.Membership.{
  is_public, is_automatic, registry_scopes, scope_values, active_resource_visible_to_organization,
  resolve_organization_membership_scopes,
}

pub data Lifecycle : Type 0 where
  active : Lifecycle
  ended : (end_reason : Option String) → Lifecycle

abbrev ended_by : Option ℕ → ℕ → Lifecycle
ended_by none now = active
ended_by (some expires_at) now = if leb expires_at now then ended (some "expired") else active

unfoldable pub resource_scope_entitlement_lifecycle : ScopeEntitlement → ℕ → Lifecycle
resource_scope_entitlement_lifecycle entitlement now = elim entitlement.ended_at [
  | some _ ↦ ended entitlement.end_reason
  | none ↦ ended_by entitlement.expires_at now
]

-- `tenantOrganizationId?: string | null`: not given, given as null, given
pub data Tenant : Type 0 where
  any_tenant no_organization : Tenant
  in_organization : String → Tenant

unfoldable pub user_entitlement_matches_organization : ScopeEntitlement → Tenant → Bool
user_entitlement_matches_organization entitlement any_tenant = true
user_entitlement_matches_organization entitlement no_organization =
    not (is_some entitlement.organization_id)
user_entitlement_matches_organization entitlement (in_organization id) =
    holds entitlement.organization_id id

abbrev pub automatic_scopes : ApiResource → List String
automatic_scopes resource =
    scope_values (filter (λ scope. is_automatic scope.grant_mode) (registry_scopes resource))

abbrev pub declared_scopes : ApiResource → List String
declared_scopes resource = scope_values (registry_scopes resource)

unfoldable pub current_registry_scopes : ApiResource → List String → List String
current_registry_scopes resource scopes =
    sort (filter (includes (declared_scopes resource)) (dedupe scopes))

abbrev pub entitled_scopes : List ScopeEntitlement → List String
entitled_scopes entitlements = map (λ entitlement. entitlement.scope) entitlements

-- `visibleMemberships`
unfoldable pub visible_memberships : ApiResource → Tenant → List Member → List Member
visible_memberships resource any_tenant memberships =
    if is_public resource.visibility
    then memberships
    else filter (λ m. m.organization_id == resource.owner_organization_id) memberships
visible_memberships resource no_organization memberships = []
visible_memberships resource (in_organization id) memberships =
    filter (λ m. m.organization_id == id) memberships

-- The loop over the memberships
unfoldable pub scopes_of_memberships : Directory → ApiResource → List Member → Result (List String)
scopes_of_memberships deps resource [] = ok []
scopes_of_memberships deps resource (m ∷ ms) = do
  here ← resolve_organization_membership_scopes deps m.organization_id m.roles resource.id
  later ← scopes_of_memberships deps resource ms
  ok (here ++ later)

abbrev is_hidden : ApiResource → Tenant → List Member → Bool
is_hidden resource any_tenant [] = not (is_public resource.visibility)
is_hidden resource _ _ = false

unfoldable pub user_effective_resource_scopes :
    Directory → String → ApiResource → ℕ → Tenant → Result (List String)
user_effective_resource_scopes deps user_id resource now tenant =
    let visible = visible_memberships resource tenant (list_user_memberships deps user_id) in
    let entitled = entitled_scopes (
      filter (λ e. user_entitlement_matches_organization e tenant)
        (list_active_user_scope_entitlements deps user_id resource.id now)) in
    let rest : Result (List String) = (do
      of_memberships ← scopes_of_memberships deps resource visible
      ok (
          current_registry_scopes resource
            (automatic_scopes resource ++ (entitled ++ of_memberships)))) in
    if is_hidden resource tenant visible then ok [] else rest

unfoldable pub application_effective_resource_scopes :
    Directory → Application → ApiResource → ℕ → List String
application_effective_resource_scopes deps application resource now =
    if not (active_resource_visible_to_organization resource application.owner_organization_id)
    then []
    else current_registry_scopes resource (
        automatic_scopes resource
        ++ entitled_scopes
            (list_active_application_scope_entitlements deps application.id resource.id now))
