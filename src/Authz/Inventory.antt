-- ===== src/Authz/Inventory.antt =====
-- server/http/middleware/authz.ts: the tenants in which a principal holds a scope, for the lists
-- that show only what the principal may see.
pub mod Laws
pub mod Tenants
use realmroot.Prelude.{
  ℕ, String, Bool, true, false, not, ◌&&◌, ◌||◌, Option, none, some, List, [], ◌∷◌, ◌++◌, ◌==◌,
  includes, dedupe, sort, if◌then◌else◌,
}
use realmroot.Errors.{forbidden_error, Result, ok, err, ◌>>=◌, ◌>>◌, require}
use realmroot.Directory.{Directory, Member, list_user_memberships}
use realmroot.Membership.{require_platform_organization}
use realmroot.Context.{AuthorizationTenant, AuthorizationContext, can_authorize, scope_required}
use realmroot.Authz.{
  Authority, of_organization, of_user, ApplicationPrincipal, AgentPrincipal, Principal,
  resolve_platform_organization_context, resolve_authorization_context,
}

abbrev add_if {ℓ} : {A : Type ℓ} → Bool → A → List A → List A
add_if b x xs = if b then x ∷ xs else xs

-- One round of the loops: the tenant, if the principal's context there has the scope
pub tenants_holding :
    Directory → Principal → String → List AuthorizationTenant → Result (List AuthorizationTenant)
tenants_holding deps principal required_scope [] = ok []
tenants_holding deps principal required_scope (target ∷ targets) = do
  context ← resolve_authorization_context deps principal target
  later ← tenants_holding deps principal required_scope targets
  ok (add_if (includes context.scopes required_scope) target later)

abbrev pub organization_tenants : List Member → List AuthorizationTenant
organization_tenants [] = []
organization_tenants (m ∷ ms) =
    AuthorizationTenant.organization m.organization_id ∷ organization_tenants ms

abbrev pub tenants_of_authority : Option Authority → List AuthorizationTenant
tenants_of_authority (some (of_organization id)) = AuthorizationTenant.organization id ∷ []
tenants_of_authority (some (of_user id)) = AuthorizationTenant.user id ∷ []
tenants_of_authority none = []

abbrev pub tenants_of :
    Directory
    → Principal
    → String
    → Option String
    → Option ApplicationPrincipal
    → Option AgentPrincipal
    → Result (List AuthorizationTenant)
tenants_of deps principal required_scope (some user_id) application agent =
    tenants_holding deps principal required_scope
      (AuthorizationTenant.user user_id ∷ organization_tenants (list_user_memberships deps user_id))
tenants_of deps principal required_scope none (some application) agent = do
  require (includes application.scopes required_scope)
      (forbidden_error (scope_required required_scope))
  ok (AuthorizationTenant.organization application.owner_organization_id ∷ [])
tenants_of deps principal required_scope none none (some agent) = do
  require (includes agent.scopes required_scope) (forbidden_error (scope_required required_scope))
  ok (tenants_of_authority agent.authority)
tenants_of deps principal required_scope none none none =
    err (forbidden_error (scope_required required_scope))

-- `none` where the source returns undefined: the principal holds the scope on the platform, and the
-- list is not restricted.
unfoldable pub authorized_tenant_inventory :
    Directory → Principal → String → Result (Option (List AuthorizationTenant))
unfolding tenants_holding
authorized_tenant_inventory deps principal required_scope = do
  platform ← require_platform_organization deps
  context ← resolve_platform_organization_context deps principal platform.id
  let restricted : Result (Option (List AuthorizationTenant)) = do
    tenants ←
        tenants_of deps principal required_scope principal.user_id principal.application
          principal.agent
    ok (some tenants)
  if can_authorize context (AuthorizationTenant.organization platform.id) required_scope
      then ok none
      else restricted

abbrev organization_ids : List AuthorizationTenant → List String
organization_ids [] = []
organization_ids (AuthorizationTenant.organization id ∷ ts) = id ∷ organization_ids ts
organization_ids (AuthorizationTenant.user id ∷ ts) = organization_ids ts

abbrev ids_of : Option (List AuthorizationTenant) → Option (List String)
ids_of none = none
ids_of (some tenants) = some (sort (dedupe (organization_ids tenants)))

unfoldable pub authorized_organization_ids :
    Directory → Principal → String → Result (Option (List String))
authorized_organization_ids deps principal required_scope = do
  tenants ← authorized_tenant_inventory deps principal required_scope
  ok (ids_of tenants)
