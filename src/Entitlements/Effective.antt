-- ===== src/Entitlements/Effective.antt =====
-- Which scopes of a resource an application or a user holds.
use realmroot.Prelude.{
  ℕ, String, Bool, true, ◌&&◌, ◌||◌, List, ◌++◌, ◌==◌, ◌≡◌, arith, filter, includes, any, dedupe,
  holds, includes-append, includes-filter, includes-dedupe, includes-sort, includes-map-filter,
}
use realmroot.Errors.{ok}
use realmroot.Directory.{
  Directory, ApiResource, Application, Member, is_active_at, list_active_user_scope_entitlements,
  list_active_application_scope_entitlements,
}
use realmroot.Membership.{
  active_resource_visible_to_organization, resolve_organization_membership_scopes,
}
use realmroot.Entitlements.{
  Tenant, user_entitlement_matches_organization, automatic_scopes, declared_scopes,
  current_registry_scopes, entitled_scopes, application_effective_resource_scopes,
}

includes-current_registry_scopes :
    (resource : ApiResource) (scopes : List String) (v : String)
    → includes (current_registry_scopes resource scopes) v
      ≡ (includes (declared_scopes resource) v && includes scopes v)
unfolding current_registry_scopes
includes-current_registry_scopes resource scopes v = ground (
  arith,
  includes-sort (filter (includes (declared_scopes resource)) (dedupe scopes)) v,
  includes-filter (includes (declared_scopes resource)) (dedupe scopes) v,
  includes-dedupe scopes v,
)

-- An active entitlement of the application for the resource carries the scope.
abbrev pub is_entitled_application : Directory → Application → ApiResource → ℕ → String → Bool
is_entitled_application deps application resource now v =
    any
      (λ e.
        (holds e.application_id application.id
          && e.resource_server_id == resource.id
          && is_active_at now e)
        && e.scope == v)
      deps.entitlements

-- The scopes of an application for a resource: none where the resource is disabled or not visible to
-- the Organization that owns the application, and otherwise the declared scopes that are automatic
-- or that an active entitlement of the application carries.
pub application_scopes :
    (deps : Directory) (application : Application) (resource : ApiResource) (now : ℕ) (v : String)
    → includes (application_effective_resource_scopes deps application resource now) v ≡ (
        active_resource_visible_to_organization resource application.owner_organization_id
        && (includes (declared_scopes resource) v
            && (includes (automatic_scopes resource) v
                || is_entitled_application deps application resource now v)))
unfolding application_effective_resource_scopes list_active_application_scope_entitlements
application_scopes deps application resource now v =
    let entitled =
      entitled_scopes
        (list_active_application_scope_entitlements deps application.id resource.id now) in
    ground (
      arith,
      includes-current_registry_scopes resource (automatic_scopes resource ++ entitled) v,
      includes-append (automatic_scopes resource) entitled v,
      includes-map-filter (λ e. e.scope)
          (λ e.
            holds e.application_id application.id
            && e.resource_server_id == resource.id
            && is_active_at now e)
          deps.entitlements v,
    )

-- An active entitlement of the user for the resource, given in the tenant, carries the scope.
abbrev pub is_entitled_user : Directory → String → ApiResource → ℕ → Tenant → String → Bool
is_entitled_user deps user_id resource now tenant v =
    any (λ e. user_entitlement_matches_organization e tenant && e.scope == v)
      (list_active_user_scope_entitlements deps user_id resource.id now)

-- A membership of the user in the Organization whose roles carry the scope for the resource.
pub record FromMembership (deps : Directory) (user_id organization_id : String)
    (resource : ApiResource) (v : String) : Type 0 where
  pub membership : Member
  pub of_user : membership.user_id ≡ user_id
  pub of_organization : membership.organization_id ≡ organization_id
  pub scopes : List String
  pub resolved :
      resolve_organization_membership_scopes deps membership.organization_id membership.roles
        resource.id
      ≡ ok scopes
  pub carried : includes scopes v ≡ true

module _ (deps : Directory) (user_id organization_id : String) (resource : ApiResource)
    (v : String) where
  abbrev IsOwn : Member → Type 0
  IsOwn m = (m.user_id ≡ user_id) × (m.organization_id ≡ organization_id)
