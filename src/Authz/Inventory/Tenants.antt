-- ===== src/Authz/Inventory/Tenants.antt =====
-- The tenants that a principal stands in, and whose context there is of that tenant.
use realmroot.Prelude.{
  String, true, Option, none, some, ◌≡◌, inl, inr, refl, subst, includes, Bool-cases, Among, ap,
  sym, ◌∙◌, ◌⊎◌,
}
use realmroot.Errors.{ok}
use realmroot.Errors.Laws.{>>=-eq-ok, ok-injective}
use realmroot.Directory.{Directory, Member, find_member_by_organization_user}
use realmroot.Membership.{
  scopes_of_member, find_realmroot_resource_server, resolve_organization_user_authorization_context,
}
use realmroot.Context.{AuthorizationTenant, AuthorizationContext}
use realmroot.Authz.{
  Authority, of_organization, of_user, is_empty, restrict_to, in_user_tenant, user_context,
  restrict_user_context_to_application_scopes, tenant_of_authority, is_authority_of,
  ApplicationPrincipal, AgentPrincipal, Principal, agent_context, resolve_authorization_context,
}

-- The principal's context in the tenant is of that tenant, and holds the scope.
abbrev pub HoldsIn : Directory → Principal → String → AuthorizationTenant → Type 0
HoldsIn deps principal scope tenant =
    (context : AuthorizationContext) × (resolve_authorization_context deps principal tenant
      ≡ ok context)
    × (context.tenant ≡ tenant)
    × (includes context.scopes scope ≡ true)

-- The tenants that a principal stands in: a user's own and the organizations of which there is a
-- membership, the owner of an application, the authority of an agent
abbrev pub StandsIn :
    Directory
    → Option String
    → Option ApplicationPrincipal
    → Option AgentPrincipal
    → AuthorizationTenant
    → Type 0
StandsIn deps (some user_id) application agent (AuthorizationTenant.user id) = id ≡ user_id
StandsIn deps (some user_id) application agent (AuthorizationTenant.organization id) =
    (member : Member) × Among member deps.members
    × (member.user_id ≡ user_id)
    × (member.organization_id ≡ id)
StandsIn deps none (some application) agent tenant =
    tenant ≡ AuthorizationTenant.organization application.owner_organization_id
StandsIn deps none none (some agent) tenant =
    ((id : String) × (agent.authority ≡ some (of_organization id))
      × (tenant ≡ AuthorizationTenant.organization id))
    ⊎ ((id : String) × (agent.authority ≡ some (of_user id))
        × (tenant ≡ AuthorizationTenant.user id))
StandsIn deps none none none tenant = ⊥

abbrev pub principal_of :
    Option String → Option ApplicationPrincipal → Option AgentPrincipal → Principal
principal_of user_id application agent = record {
  user_id = user_id;
  application = application;
  agent = agent;
}

-- A tenant that the inventory may list
abbrev pub IsListed :
    Directory
    → Option String
    → Option ApplicationPrincipal
    → Option AgentPrincipal
    → String
    → AuthorizationTenant
    → Type 0
IsListed deps user_id application agent scope tenant =
    StandsIn deps user_id application agent tenant
    × HoldsIn deps (principal_of user_id application agent) scope tenant

restrict_to-tenant :
    (application : Option ApplicationPrincipal) (context : AuthorizationContext)
    → (restrict_to application context).tenant ≡ context.tenant
restrict_to-tenant none context = refl
restrict_to-tenant (some application) context = refl

restricted_tenant :
    (principal : Principal) (context : AuthorizationContext)
    → (restrict_user_context_to_application_scopes principal context).tenant ≡ context.tenant
unfolding restrict_user_context_to_application_scopes
restricted_tenant principal context = restrict_to-tenant principal.application context

own_tenant :
    (user_id : String) (platform : AuthorizationContext)
    → (in_user_tenant user_id platform user_id).tenant ≡ AuthorizationTenant.user user_id
own_tenant user_id platform = elim (Bool-cases (is_empty platform.scopes)) [
  | inl e ↦ rw e refl
  | inr e ↦ rw e refl
]

member_tenant :
    (deps : Directory) (user_id organization_id : String) (context : AuthorizationContext)
    → resolve_organization_user_authorization_context deps organization_id user_id ≡ ok context
    → context.tenant ≡ AuthorizationTenant.organization organization_id
unfolding resolve_organization_user_authorization_context
member_tenant deps user_id organization_id context h =
    let (scopes, e, built) =
      >>=-eq-ok
        (scopes_of_member deps organization_id
          (find_member_by_organization_user deps organization_id user_id)
          (find_realmroot_resource_server deps))
        _ h in
    ap (λ c. c.tenant) (sym (ok-injective built))

-- A user's context in a tenant that the user stands in is of that tenant.
pub user_context_tenant :
    (deps : Directory) (principal : Principal) (user_id : String) (platform : AuthorizationContext)
    (application : Option ApplicationPrincipal) (agent : Option AgentPrincipal)
    (tenant : AuthorizationTenant) (context : AuthorizationContext)
    → StandsIn deps (some user_id) application agent tenant
    → user_context deps principal user_id platform tenant ≡ ok context
    → context.tenant ≡ tenant
user_context_tenant deps principal user_id platform application agent (AuthorizationTenant.user id)
      context own h =
    ap (λ c. c.tenant) (sym (ok-injective h))
    ∙ restricted_tenant principal (in_user_tenant user_id platform id)
    ∙ subst (λ i. (in_user_tenant user_id platform i).tenant ≡ AuthorizationTenant.user i) (sym own)
        (own_tenant user_id platform)
user_context_tenant deps principal user_id platform application agent
      (AuthorizationTenant.organization id) context own h =
    elim (Bool-cases (is_empty platform.scopes)) [
      | inl e ↦
          let (of_member, found, same) =
            >>=-eq-ok (resolve_organization_user_authorization_context deps id user_id) _
              (rw e at h) in
          ap (λ c. c.tenant) (sym (ok-injective same))
          ∙ restricted_tenant principal of_member
          ∙ member_tenant deps user_id id of_member found
      | inr e ↦ ap (λ c. c.tenant) (sym (ok-injective (rw e at h)))
    ]

pub agent_tenant :
    (platform_id : String) (agent : AgentPrincipal) (authority : Authority)
    → agent.authority ≡ some authority
    → (agent_context platform_id agent (tenant_of_authority (some authority))).tenant
      ≡ tenant_of_authority (some authority)
agent_tenant platform_id agent authority e =
    elim (Bool-cases (is_authority_of platform_id agent.authority)) [
      | inl of_platform ↦ rw of_platform refl
      | inr other ↦ rw other (ap tenant_of_authority e)
    ]
