-- ===== src/Authz.antt =====
-- server/http/middleware/authz.ts: what an authenticated principal may do in which tenant. The
-- principal is what `getPrincipal` of server/http/middleware/authn.ts returns.
pub mod Resolve
pub mod Inventory
use realmroot.Prelude.{
  ℕ, String, Bool, true, false, not, ◌&&◌, ◌||◌, Option, none, some, List, [], ◌∷◌, ◌++◌, map, ◌==◌,
  filter, includes, dedupe, sort, is_some, if◌then◌else◌,
}
use realmroot.Errors.{
  Failure, thrown, unauthorized_error, forbidden_error, Result, ok, err, ◌>>=◌, ◌>>◌, require,
}
use realmroot.Scopes.Routes.{ProtectedResource, required_resource_scope}
use realmroot.Directory.{Directory, Member, list_user_memberships}
use realmroot.Membership.{
  require_platform_organization, resolve_organization_user_authorization_context,
}
use realmroot.Context.{
  AuthorizationSubject, AuthorizationTenant, AuthorizationContext, authorize, authorize_owner,
  can_authorize, scope_required,
}

pub data Authority : Type 0 where
  of_organization of_user : (id : String) → Authority

pub record ApplicationPrincipal : Type 0 where
  pub id : String
  pub owner_organization_id : String
  pub scopes : List String

pub record AgentPrincipal : Type 0 where
  pub identity_id : String
  pub scopes : List String
  pub authority : Option Authority

pub record Principal : Type 0 where
  pub user_id : Option String
  pub application : Option ApplicationPrincipal
  pub agent : Option AgentPrincipal

abbrev authentication_required : Failure
authentication_required = unauthorized_error "Authentication is required."

-- `(agent ?? application)!.scopes`, where one of the two is there
abbrev delegated_scopes : Option AgentPrincipal → Option ApplicationPrincipal → Option (List String)
delegated_scopes (some agent) application = some agent.scopes
delegated_scopes none (some application) = some application.scopes
delegated_scopes none none = none

abbrev check_delegated : Option (List String) → Option String → Result (Unit {0})
check_delegated none required = ok tt
check_delegated (some scopes) none = err (forbidden_error "This resource is read-only.")
check_delegated (some scopes) (some required) =
    require (includes scopes required) (forbidden_error (scope_required required))

-- The middleware passes the request on, or throws.
unfoldable pub authz : ProtectedResource → String → Principal → Result (Unit {0})
authz resource method principal = do
  require (is_some principal.user_id || is_some principal.agent || is_some principal.application)
      authentication_required
  check_delegated (delegated_scopes principal.agent principal.application)
      (required_resource_scope method resource)

abbrev check_agent_scope : Option AgentPrincipal → String → Result (Unit {0})
check_agent_scope none required_scope =
    err (unauthorized_error "An OAuth-authenticated Agent is required.")
check_agent_scope (some agent) required_scope =
    require (includes agent.scopes required_scope) (forbidden_error (scope_required required_scope))

unfoldable pub require_agent_scope : Principal → String → Result (Unit {0})
require_agent_scope principal required_scope = check_agent_scope principal.agent required_scope

abbrev restrict_to : Option ApplicationPrincipal → AuthorizationContext → AuthorizationContext
restrict_to none context = context
restrict_to (some application) context = record context {
  scopes = filter (includes application.scopes) context.scopes;
}

unfoldable pub restrict_user_context_to_application_scopes :
    Principal → AuthorizationContext → AuthorizationContext
restrict_user_context_to_application_scopes principal context =
    restrict_to principal.application context

abbrev platform_context_of_agent : AgentPrincipal → Option Authority → String → AuthorizationContext
platform_context_of_agent agent (some (of_organization id)) platform_id = record {
  subject = AuthorizationSubject.agent agent.identity_id;
  tenant = AuthorizationTenant.organization platform_id;
  scopes = if id == platform_id then agent.scopes else [];
}
platform_context_of_agent agent _ platform_id = record {
  subject = AuthorizationSubject.agent agent.identity_id;
  tenant = AuthorizationTenant.organization platform_id;
  scopes = [];
}

-- `resolvePlatformOrganizationContext`, once the platform's id is known, by kind of principal
abbrev platform_context :
    Directory
    → Principal
    → String
    → Option String
    → Option ApplicationPrincipal
    → Option AgentPrincipal
    → Result AuthorizationContext
platform_context deps principal platform_id (some user_id) application agent = do
  context ← resolve_organization_user_authorization_context deps platform_id user_id
  ok (restrict_user_context_to_application_scopes principal context)
platform_context deps principal platform_id none (some application) agent = ok (record {
  subject = AuthorizationSubject.application application.id;
  tenant = AuthorizationTenant.organization application.owner_organization_id;
  scopes = if application.owner_organization_id == platform_id then application.scopes else [];
})
platform_context deps principal platform_id none none (some agent) =
    ok (platform_context_of_agent agent agent.authority platform_id)
platform_context deps principal platform_id none none none = err authentication_required

unfoldable pub resolve_platform_organization_context :
    Directory → Principal → String → Result AuthorizationContext
unfolding restrict_user_context_to_application_scopes
resolve_platform_organization_context deps principal platform_id =
    platform_context deps principal platform_id principal.user_id principal.application
      principal.agent

abbrev is_empty : List String → Bool
is_empty [] = true
is_empty (_ ∷ _) = false

abbrev own_scopes : List String
own_scopes = "self:read" ∷ "self:write" ∷ "agents:read" ∷ "agents:write" ∷ "audit-events:read" ∷ []

-- The context of a user principal in the tenant of a user, before the application restricts it
abbrev in_user_tenant : String → AuthorizationContext → String → AuthorizationContext
in_user_tenant user_id platform target_id = record {
  subject = AuthorizationSubject.user user_id;
  tenant =
      if is_empty platform.scopes
      then AuthorizationTenant.user user_id
      else AuthorizationTenant.user target_id;
  scopes = if user_id == target_id then dedupe (platform.scopes ++ own_scopes) else platform.scopes;
}

-- The context of a user principal, given its platform context
abbrev user_context :
    Directory
    → Principal
    → String
    → AuthorizationContext
    → AuthorizationTenant
    → Result AuthorizationContext
user_context deps principal user_id platform (AuthorizationTenant.user target_id) = ok (
    restrict_user_context_to_application_scopes principal
      (in_user_tenant user_id platform target_id))
user_context deps principal user_id platform (AuthorizationTenant.organization target_id) = do
  let of_organization : Result AuthorizationContext = do
    context ← resolve_organization_user_authorization_context deps target_id user_id
    ok (restrict_user_context_to_application_scopes principal context)
  if is_empty platform.scopes
      then of_organization
      else ok (record platform { tenant = AuthorizationTenant.organization target_id })

abbrev pub tenant_of_authority : Option Authority → AuthorizationTenant
tenant_of_authority (some (of_organization id)) = AuthorizationTenant.organization id
tenant_of_authority (some (of_user id)) = AuthorizationTenant.user id
tenant_of_authority none = AuthorizationTenant.user ""

abbrev pub is_authority_of : String → Option Authority → Bool
is_authority_of platform_id (some (of_organization id)) = id == platform_id
is_authority_of platform_id _ = false

-- The context of an agent principal, given the platform's id
abbrev pub agent_context : String → AgentPrincipal → AuthorizationTenant → AuthorizationContext
agent_context platform_id agent target = record {
  subject = AuthorizationSubject.agent agent.identity_id;
  tenant =
      if is_authority_of platform_id agent.authority
      then target
      else tenant_of_authority agent.authority;
  scopes = agent.scopes;
}

abbrev context_of :
    Directory
    → Principal
    → AuthorizationTenant
    → Option String
    → Option ApplicationPrincipal
    → Option AgentPrincipal
    → Result AuthorizationContext
context_of deps principal target (some user_id) application agent = do
  platform ← require_platform_organization deps
  context ← resolve_platform_organization_context deps principal platform.id
  user_context deps principal user_id context target
context_of deps principal target none (some application) agent = ok (record {
  subject = AuthorizationSubject.application application.id;
  tenant = AuthorizationTenant.organization application.owner_organization_id;
  scopes = application.scopes;
})
context_of deps principal target none none none = err authentication_required
context_of deps principal target none none (some agent) = do
  platform ← require_platform_organization deps
  ok (agent_context platform.id agent target)

unfoldable pub resolve_authorization_context :
    Directory → Principal → AuthorizationTenant → Result AuthorizationContext
unfolding restrict_user_context_to_application_scopes
resolve_authorization_context deps principal target_tenant =
    context_of deps principal target_tenant principal.user_id principal.application principal.agent

unfoldable pub authorize_organization : Directory → Principal → String → String → Result (Unit {0})
authorize_organization deps principal organization_id required_scope = do
  context ←
      resolve_authorization_context deps principal
        (AuthorizationTenant.organization organization_id)
  authorize context (AuthorizationTenant.organization organization_id) required_scope

unfoldable pub authorize_organization_owner :
    Directory → Principal → String → String → Result AuthorizationTenant
authorize_organization_owner deps principal organization_id required_scope = do
  context ←
      resolve_authorization_context deps principal
        (AuthorizationTenant.organization organization_id)
  authorize_owner context (AuthorizationTenant.organization organization_id) required_scope

unfoldable pub authorize_user : Directory → Principal → String → String → Result (Unit {0})
authorize_user deps principal user_id required_scope = do
  context ← resolve_authorization_context deps principal (AuthorizationTenant.user user_id)
  authorize context (AuthorizationTenant.user user_id) required_scope

unfoldable pub authorize_platform_organization : Directory → Principal → String → Result (Unit {0})
authorize_platform_organization deps principal required_scope = do
  platform ← require_platform_organization deps
  authorize_organization deps principal platform.id required_scope

unfoldable pub has_platform_organization_access : Directory → Principal → String → Result Bool
has_platform_organization_access deps principal required_scope = do
  platform ← require_platform_organization deps
  context ← resolve_platform_organization_context deps principal platform.id
  ok (can_authorize context (AuthorizationTenant.organization platform.id) required_scope)
