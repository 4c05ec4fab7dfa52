-- ===== src/Authz/Resolve.antt =====
-- What each kind of principal can be authorized for.
use realmroot.Prelude.{
  String, true, false, Option, none, some, [], ◌==◌, ◌≡◌, ◌↔◌, ◌⊎◌, inl, inr, refl, ap, subst,
  arith, includes, includes-filter, if◌then◌else◌, Bool-cases, Option-cases, eq_iff,
}
use realmroot.Errors.{ok}
use realmroot.Errors.Laws.{>>=-eq-ok, ok-injective}
use realmroot.Directory.{Directory, Organization, Member, find_member_by_organization_user}
use realmroot.Membership.{
  require_platform_organization, resolve_organization_user_authorization_context,
}
use realmroot.Context.{AuthorizationSubject, AuthorizationTenant, AuthorizationContext}
use realmroot.Context.Laws.{authorize_iff}
use realmroot.Authz.{
  Authority, of_organization, of_user, ApplicationPrincipal, AgentPrincipal, Principal, restrict_to,
  resolve_platform_organization_context, user_context, context_of, resolve_authorization_context,
  authorize_organization, is_empty, tenant_of_authority, is_authority_of, agent_context,
  in_user_tenant, platform_context, restrict_user_context_to_application_scopes,
}

-- The scopes of a context are among those of the application.
abbrev pub IsWithin : ApplicationPrincipal → String → AuthorizationContext → Type 0
IsWithin application v context =
    includes context.scopes v ≡ true → includes application.scopes v ≡ true

restrict_to-IsWithin :
    (application : ApplicationPrincipal) (v : String) (context : AuthorizationContext)
    → IsWithin application v (restrict_to (some application) context)
restrict_to-IsWithin application v context held =
    ground (arith, held, includes-filter (includes application.scopes) context.scopes v)

module _ (deps : Directory) (user_id : Option String) (application : ApplicationPrincipal)
    (agent : Option AgentPrincipal) where
  abbrev principal : Principal
  principal = record { user_id = user_id; application = some application; agent = agent }

  platform_context-IsWithin :
      (u : Option String) (platform_id v : String) (context : AuthorizationContext)
      → platform_context deps principal platform_id u (some application) agent ≡ ok context
      → IsWithin application v context
  unfolding restrict_user_context_to_application_scopes
  platform_context-IsWithin (some u) platform_id v context e =
      let (found, resolved, same) =
        >>=-eq-ok (resolve_organization_user_authorization_context deps platform_id u) _ e in
      subst (IsWithin application v) (ok-injective same) (restrict_to-IsWithin application v found)
  platform_context-IsWithin none platform_id v context e =
      subst (IsWithin application v) (ok-injective e)
        (elim (Bool-cases (application.owner_organization_id == platform_id)) [
          | inl same ↦ rw same (λ held. held)
          | inr other ↦ rw other (λ held. cc)
        ])

  resolve_platform-IsWithin :
      (platform_id v : String) (context : AuthorizationContext)
      → resolve_platform_organization_context deps principal platform_id ≡ ok context
      → IsWithin application v context
  unfolding resolve_platform_organization_context
  resolve_platform-IsWithin platform_id v context e =
      platform_context-IsWithin user_id platform_id v context e

  user_context-IsWithin :
      (u v : String) (platform : AuthorizationContext) (target : AuthorizationTenant)
      (context : AuthorizationContext)
      → IsWithin application v platform
      → user_context deps principal u platform target ≡ ok context
      → IsWithin application v context
  unfolding restrict_user_context_to_application_scopes
  user_context-IsWithin u v platform (AuthorizationTenant.user t) context within e =
      subst (IsWithin application v) (ok-injective e)
        (restrict_to-IsWithin application v (in_user_tenant u platform t))
  user_context-IsWithin u v platform (AuthorizationTenant.organization t) context within e =
      elim (Bool-cases (is_empty platform.scopes)) [
        | inl empty ↦
            let (found, resolved, same) =
              >>=-eq-ok (resolve_organization_user_authorization_context deps t u) _
                (rw empty at e) in
            subst (IsWithin application v) (ok-injective same)
              (restrict_to-IsWithin application v found)
        | inr operator ↦ subst (IsWithin application v) (ok-injective (rw operator at e)) within
      ]

  context_of-IsWithin :
      (u : Option String) (target : AuthorizationTenant) (v : String)
      (context : AuthorizationContext)
      → context_of deps principal target u (some application) agent ≡ ok context
      → IsWithin application v context
  context_of-IsWithin none target v context e =
      subst (IsWithin application v) (ok-injective e) (λ held. held)
  context_of-IsWithin (some u) target v context e =
      let (platform, found, rest) = >>=-eq-ok (require_platform_organization deps) _ e in
      let (of_platform, resolved, last) =
        >>=-eq-ok (resolve_platform_organization_context deps principal platform.id) _ rest in
      user_context-IsWithin u v of_platform target context
        (resolve_platform-IsWithin platform.id v of_platform resolved) last

  -- Whoever the user behind it is, a principal that comes with an application's token is never
  -- resolved to a scope that the token does not have, in any tenant.
  pub resolved_scopes_within_application :
      (target : AuthorizationTenant) (v : String) (context : AuthorizationContext)
      → resolve_authorization_context deps principal target ≡ ok context
      → includes context.scopes v ≡ true
      → includes application.scopes v ≡ true
  unfolding resolve_authorization_context
  resolved_scopes_within_application target v context e =
      context_of-IsWithin user_id target v context e

abbrev pub agent_principal : AgentPrincipal → Principal
agent_principal agent = record { user_id = none; application = none; agent = some agent }

-- The Organization is the agent's authority, or the authority is the platform Organization.
abbrev pub HasAuthority : Option Authority → (platform_id organization_id : String) → Type 0
HasAuthority authority platform_id organization_id =
    (id : String) × (authority ≡ some (of_organization id))
    × ((id ≡ platform_id) ⊎ (id ≡ organization_id))

abbrev id_of : AuthorizationTenant → String
id_of (AuthorizationTenant.user id) = id
id_of (AuthorizationTenant.organization id) = id

agent_tenant_iff :
    (authority : Option Authority) (platform_id organization_id : String)
    → ((if is_authority_of platform_id authority
          then AuthorizationTenant.organization organization_id
          else tenant_of_authority authority)
        ≡ AuthorizationTenant.organization organization_id)
      ↔ HasAuthority authority platform_id organization_id
agent_tenant_iff none platform_id organization_id = (λ h. cc, λ (id, e, h). cc)
agent_tenant_iff (some (of_user id)) platform_id organization_id = (λ h. cc, λ (id, e, h). cc)
agent_tenant_iff (some (of_organization id)) platform_id organization_id = (
  λ h. elim (Bool-cases (id == platform_id)) [
    | inl platform ↦ (id, refl, inl ((eq_iff id platform_id).0 platform))
    | inr other ↦ (id, refl, inr (ap id_of (rw other at h)))
  ],
  λ (held, e, h). ground (arith, eq_iff id platform_id),
)

-- An agent that comes without a user or an application is authorized for an Organization exactly
-- where its token has the scope and the authority that it acts under is that Organization or the
-- platform Organization: authority over a user, or none, never reaches an Organization.
pub agent_authorized_iff :
    (deps : Directory) (platform : Organization) (agent : AgentPrincipal)
    (organization_id scope : String)
    → require_platform_organization deps ≡ ok platform
    → (authorize_organization deps (agent_principal agent) organization_id scope ≡ ok tt) ↔ (
        HasAuthority agent.authority platform.id organization_id
        × (includes agent.scopes scope ≡ true))
unfolding authorize_organization resolve_authorization_context
agent_authorized_iff deps platform agent organization_id scope e =
    let target = AuthorizationTenant.organization organization_id in
    let (to, from) = (authorize_iff (agent_context platform.id agent target) target scope).0 in
    let (gain, back) = agent_tenant_iff agent.authority platform.id organization_id in
    rw e (
      λ h. let (tenant, held) = to h in (gain tenant, held),
      λ (authority, held). from (back authority, held),
    )

abbrev context_without_membership : String → String → AuthorizationContext
context_without_membership organization_id user_id = record {
  subject = AuthorizationSubject.user user_id;
  tenant = AuthorizationTenant.organization organization_id;
  scopes = [];
}

no_membership :
    (deps : Directory) (organization_id user_id : String)
    → find_member_by_organization_user deps organization_id user_id ≡ none
    → resolve_organization_user_authorization_context deps organization_id user_id
      ≡ ok (context_without_membership organization_id user_id)
unfolding resolve_organization_user_authorization_context
no_membership deps organization_id user_id missing = rw missing

restricted_empty :
    (application : Option ApplicationPrincipal) (organization_id user_id scope : String)
    → includes
        (restrict_to application (context_without_membership organization_id user_id)).scopes
        scope
      ≡ false
restricted_empty none organization_id user_id scope = refl
restricted_empty (some application) organization_id user_id scope = refl

abbrev pub user_principal : String → Option ApplicationPrincipal → Principal
user_principal user_id application = record {
  user_id = some user_id;
  application = application;
  agent = none;
}

-- A user who holds no scope on the platform is authorized for an Organization only as a member of it.
pub user_authorized_is_member :
    (deps : Directory) (user_id : String) (application : Option ApplicationPrincipal)
    (platform : Organization) (of_platform : AuthorizationContext) (organization_id scope : String)
    → require_platform_organization deps ≡ ok platform
    → resolve_platform_organization_context deps (user_principal user_id application) platform.id
      ≡ ok of_platform
    → of_platform.scopes ≡ []
    → authorize_organization deps (user_principal user_id application) organization_id scope ≡ ok tt
    → (member : Member) × (find_member_by_organization_user deps organization_id user_id
        ≡ some member)
unfolding authorize_organization resolve_authorization_context
user_authorized_is_member deps user_id application platform of_platform organization_id scope p q r
      h =
    let principal : Principal = record {
      user_id = some user_id;
      application = application;
      agent = none;
    } in
    let target = AuthorizationTenant.organization organization_id in
    elim (Option-cases (find_member_by_organization_user deps organization_id user_id)) [
      | inr found ↦ found
      | inl missing ↦
          let (context, resolved, passed) =
            >>=-eq-ok (resolve_authorization_context deps principal target) _ h in
          let same = ok-injective (
            rw (p, q, ap is_empty r, no_membership deps organization_id user_id missing) at
              resolved) in
          let held = ((authorize_iff context target scope).0.0 passed).1 in
          cc (
            ap (λ (c : AuthorizationContext). includes c.scopes scope) same,
            restricted_empty application organization_id user_id scope,
            held,
          )
    ]
