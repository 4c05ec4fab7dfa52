-- ===== src/Authz/Inventory/Laws.antt =====
-- The inventory lists only tenants in which the principal is authorized.
use realmroot.Prelude.{
  String, true, Option, none, some, List, [], ◌∷◌, ◌≡◌, inl, inr, refl, subst, arith, includes,
  Bool-cases, All, Among, filter-Among, eq_iff, ◌==◌,
}
use realmroot.Errors.{ok}
use realmroot.Errors.Laws.{>>=-eq-ok, require-eq-ok, ok-injective}
use realmroot.Directory.{Directory, Organization, Member, list_user_memberships}
use realmroot.Membership.{require_platform_organization}
use realmroot.Context.{AuthorizationTenant, AuthorizationContext, can_authorize}
use realmroot.Authz.{
  Authority, of_organization, of_user, ApplicationPrincipal, AgentPrincipal, agent_context,
  resolve_platform_organization_context, resolve_authorization_context,
}
use realmroot.Authz.Inventory.{
  organization_tenants, tenants_of_authority, tenants_holding, tenants_of,
  authorized_tenant_inventory,
}
use realmroot.Authz.Inventory.Tenants.{
  StandsIn, principal_of, IsListed, user_context_tenant, agent_tenant,
}

module _ (deps : Directory) (user_id : String) (application : Option ApplicationPrincipal)
    (agent : Option AgentPrincipal) (scope : String) where
  abbrev Listed : AuthorizationTenant → Type 0
  Listed = IsListed deps (some user_id) application agent scope

  resolved_tenant :
      (tenant : AuthorizationTenant) (context : AuthorizationContext)
      → StandsIn deps (some user_id) application agent tenant
      → resolve_authorization_context deps (principal_of (some user_id) application agent) tenant
        ≡ ok context
      → context.tenant ≡ tenant
  unfolding resolve_authorization_context
  resolved_tenant tenant context own h =
      let principal = principal_of (some user_id) application agent in
      let (platform, e1, h1) = >>=-eq-ok (require_platform_organization deps) _ h in
      let (found, e2, h2) =
        >>=-eq-ok (resolve_platform_organization_context deps principal platform.id) _ h1 in
      user_context_tenant deps principal user_id found application agent tenant context own h2

  tenants_holding-Listed :
      (targets tenants : List AuthorizationTenant)
      → All (StandsIn deps (some user_id) application agent) targets
      → tenants_holding deps (principal_of (some user_id) application agent) scope targets
        ≡ ok tenants
      → All Listed tenants
  unfolding tenants_holding
  tenants_holding-Listed [] tenants own e = subst (All Listed) (ok-injective e) tt
  tenants_holding-Listed (target ∷ targets) tenants (own, owns) e =
      let principal = principal_of (some user_id) application agent in
      let (context, resolved, rest) =
        >>=-eq-ok (resolve_authorization_context deps principal target) _ e in
      let (later, found, same) = >>=-eq-ok (tenants_holding deps principal scope targets) _ rest in
      let ih = tenants_holding-Listed targets later owns found in
      let tenant = resolved_tenant target context own resolved in
      subst (All Listed) (ok-injective same) (elim (Bool-cases (includes context.scopes scope)) [
        | inl held ↦ rw held ((own, (context, resolved, tenant, held)), ih)
        | inr missing ↦ rw missing ih
      ])

  memberships_stand :
      (members : List Member)
      → ((m : Member) → Among m members → Among m deps.members × (m.user_id == user_id ≡ true))
      → All (StandsIn deps (some user_id) application agent) (organization_tenants members)
  memberships_stand [] rows = tt
  memberships_stand (m ∷ ms) rows =
      let (row, is_user) = rows m (inl refl) in
      (
        (m, row, (eq_iff m.user_id user_id).0 is_user, refl),
        memberships_stand ms (λ n among. rows n (inr among)),
      )

  user_targets_stand :
      All (StandsIn deps (some user_id) application agent) (
        AuthorizationTenant.user user_id
        ∷ organization_tenants (list_user_memberships deps user_id))
  unfolding list_user_memberships
  user_targets_stand = (
    refl,
    memberships_stand (list_user_memberships deps user_id)
        (filter-Among (λ row. row.user_id == user_id) deps.members),
  )

agent_tenants-IsListed :
    (deps : Directory) (platform : Organization) (agent : AgentPrincipal) (scope : String)
    → require_platform_organization deps ≡ ok platform
    → includes agent.scopes scope ≡ true
    → (authority : Option Authority) → agent.authority ≡ authority
    → All (IsListed deps none none (some agent) scope) (tenants_of_authority authority)
unfolding resolve_authorization_context
agent_tenants-IsListed deps platform agent scope p held none e = tt
agent_tenants-IsListed deps platform agent scope p held (some (of_organization id)) e =
    let target = AuthorizationTenant.organization id in
    (
      (
        inl (id, e, refl),
        (
          agent_context platform.id agent target,
          rw p refl,
          agent_tenant platform.id agent (of_organization id) e,
          held,
        ),
      ),
      tt,
    )
agent_tenants-IsListed deps platform agent scope p held (some (of_user id)) e =
    let target = AuthorizationTenant.user id in
    (
      (
        inr (id, e, refl),
        (
          agent_context platform.id agent target,
          rw p refl,
          agent_tenant platform.id agent (of_user id) e,
          held,
        ),
      ),
      tt,
    )

tenants_of-IsListed :
    (deps : Directory) (user_id : Option String) (application : Option ApplicationPrincipal)
    (agent : Option AgentPrincipal) (platform : Organization) (scope : String)
    (tenants : List AuthorizationTenant)
    → require_platform_organization deps ≡ ok platform
    → tenants_of deps (principal_of user_id application agent) scope user_id application agent
      ≡ ok tenants
    → All (IsListed deps user_id application agent scope) tenants
unfolding resolve_authorization_context
tenants_of-IsListed deps (some u) application agent platform scope tenants p e =
    tenants_holding-Listed deps u application agent scope _ tenants
      (user_targets_stand deps u application agent scope) e
tenants_of-IsListed deps none (some application) agent platform scope tenants p e =
    let (held, same) = require-eq-ok (includes application.scopes scope) _ _ e in
    subst (All (IsListed deps none (some application) agent scope)) (ok-injective same)
      ((refl, (_, refl, refl, held)), tt)
tenants_of-IsListed deps none none (some agent) platform scope tenants p e =
    let (held, same) = require-eq-ok (includes agent.scopes scope) _ _ e in
    subst (All (IsListed deps none none (some agent) scope)) (ok-injective same)
      (agent_tenants-IsListed deps platform agent scope p held agent.authority refl)
tenants_of-IsListed deps none none none platform scope tenants p e = cc

-- A list of tenants that the inventory returns, rather than the mark that the principal holds the
-- scope on the platform, holds only tenants that the principal stands in (a user's own and the
-- organizations with a membership of the user, an application's owner, an agent's authority), and in
-- each the principal's context resolves, is of that tenant, and has the required scope.
pub authorized_tenant_inventory_sound :
    (deps : Directory) (user_id : Option String) (application : Option ApplicationPrincipal)
    (agent : Option AgentPrincipal) (scope : String) (tenants : List AuthorizationTenant)
    → authorized_tenant_inventory deps (principal_of user_id application agent) scope
      ≡ ok (some tenants)
    → All (IsListed deps user_id application agent scope) tenants
unfolding authorized_tenant_inventory
authorized_tenant_inventory_sound deps user_id application agent scope tenants e =
    let principal = principal_of user_id application agent in
    let (platform, p, rest) = >>=-eq-ok (require_platform_organization deps) _ e in
    let (context, q, last) =
      >>=-eq-ok (resolve_platform_organization_context deps principal platform.id) _ rest in
    elim (Bool-cases (can_authorize context (AuthorizationTenant.organization platform.id) scope)) [
      | inl operator ↦ cc (rw operator at last)
      | inr plain ↦
          let (found, q', same) =
            >>=-eq-ok (tenants_of deps principal scope user_id application agent) _
              (rw plain at last) in
          tenants_of-IsListed deps user_id application agent platform scope tenants p
            (ground (arith, q', ok-injective same))
    ]
