-- ===== src/Context.antt =====
-- server/domain/authorization-context.ts: who acts, in which tenant, with which scopes.
pub mod Laws
use Prim.Native.String
use realmroot.Prelude.{
  ℕ, String, Bool, true, false, not, ◌&&◌, Option, none, some, List, [], ◌∷◌, ◌==◌, includes,
}
use realmroot.Errors.{Result, ok, err, ◌>>=◌, ◌>>◌, require, forbidden_error}

pub data AuthorizationSubject : Type 0 where
  user agent application workload : (id : String) → AuthorizationSubject

pub data AuthorizationTenant : Type 0 where
  user organization : (id : String) → AuthorizationTenant

-- The set of scopes is a list.
pub record AuthorizationContext : Type 0 where
  pub subject : AuthorizationSubject
  pub tenant : AuthorizationTenant
  pub scopes : List String

unfoldable pub tenant_key : AuthorizationTenant → String
tenant_key (AuthorizationTenant.user id) = String.◌++◌ "user:" id
tenant_key (AuthorizationTenant.organization id) = String.◌++◌ "organization:" id

abbrev pub scope_required : String → String
scope_required scope = String.◌++◌ "OAuth scope \"" (String.◌++◌ scope "\" is required.")

unfoldable pub authorize : AuthorizationContext → AuthorizationTenant → String → Result (Unit {0})
unfolding tenant_key
authorize context target_tenant required_scope = do
  require (tenant_key context.tenant == tenant_key target_tenant)
      (forbidden_error "The authenticated subject cannot access the target tenant.")
  require (includes context.scopes required_scope) (forbidden_error (scope_required required_scope))
  ok tt

unfoldable pub can_authorize : AuthorizationContext → AuthorizationTenant → String → Bool
unfolding tenant_key
can_authorize context target_tenant required_scope =
    tenant_key context.tenant == tenant_key target_tenant && includes context.scopes required_scope

-- The target tenant, once `authorize` has let it pass
unfoldable pub authorize_owner :
    AuthorizationContext → AuthorizationTenant → String → Result AuthorizationTenant
unfolding authorize
authorize_owner context target_tenant required_scope = do
  authorize context target_tenant required_scope
  ok target_tenant
