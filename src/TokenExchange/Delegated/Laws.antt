-- ===== src/TokenExchange/Delegated/Laws.antt =====
-- What a delegated exchange can give.
use realmroot.Prelude.{
  Among, ◌<◌, ◌/◌, any, ℕ, String, false, ◌&&◌, some, List, ◌≡◌, includes, ◌∙◌, sym, ap, subst,
  arith, ◌≤◌, ◌+◌, ◌*◌,
}
use realmroot.Errors.{ok}
use realmroot.Json.{Json, Members, get, parse_space_separated_claim, read_single_audience}
use realmroot.Directory.{
  Directory, Application, ApiResource, ScopeMapping, TokenExchangePolicy, User,
}
use realmroot.Entitlements.{user_effective_resource_scopes, declared_scopes}
use realmroot.TokenExchange.{Services, TokenExchangeRequest, realmroot_organization_claim}
use realmroot.TokenExchange.Grants.{resolve_application_token_scopes_for_resource}
use realmroot.TokenExchange.Delegated.{mapped_target_scopes}
use realmroot.TokenExchange.Delegated.Grant.{resolve_delegated_grant, DelegatedGrant, tenant_of}
use realmroot.TokenExchange.Delegated.Checks.{
  delegated_scopes-eq-ok, IsVisibleAt, visible_resource-IsVisibleAt, find_mappings-Among,
  IsActiveUser, user_found, leads_to, mapped-leads_to, IsClaimedOrganization, organization-claimed,
}
use realmroot.TokenExchange.Delegated.Run.{read-AreRead, lt_of_ltb, resolve_delegated_grant-eq-ok}

-- What a delegated grant for the verified claims rests on, and what it gives
pub record DelegatedBounds (deps : Directory) (services : Services) (clock : ℕ)
    (input : TokenExchangeRequest) (claims : Members) (application : Application)
    (grant : DelegatedGrant) (v : String) : Type 0 where
  pub user : User
  pub audience : String
  pub exp : ℕ
  pub source : ApiResource
  pub target : ApiResource
  pub mappings : List ScopeMapping
  pub asked : List String
  pub of_user : List String
  pub subject_claim : get claims "sub" ≡ some (Json.str grant.subject)
  pub issuer_claim : get claims "iss" ≡ some (Json.str services.issuer)
  pub audience_claim : read_single_audience (get claims "aud") ≡ some audience
  pub expiry_claim : get claims "exp" ≡ some (Json.num exp)
  pub organization_claim :
      IsClaimedOrganization (get claims realmroot_organization_claim) grant.organization_id
  pub active_user : IsActiveUser deps grant.subject user
  pub source_is : IsVisibleAt deps application audience source
  pub target_is : IsVisibleAt deps application input.audience target
  pub policy :
      Among
        (TokenExchangePolicy.resource_policy source.id target.id mappings)
        application.token_exchange_policies
  pub asked_for :
      resolve_application_token_scopes_for_resource deps application target clock input.scope
      ≡ ok asked
  pub held_by_user :
      user_effective_resource_scopes deps grant.subject target clock
        (tenant_of grant.organization_id)
      ≡ ok of_user
  pub scopes_are : includes grant.scopes v ≡ (
      includes asked v
      && (any
            (leads_to (parse_space_separated_claim (get claims "scope")) (declared_scopes source) v)
            mappings
          && includes of_user v))
  pub not_offline : includes grant.scopes "offline_access" ≡ false
  pub not_expired : clock / 1000 < exp
  pub five_minutes : grant.expires_at ≤ clock + 300000
  pub within_subject : grant.expires_at ≤ exp * 1000

-- When a delegated exchange decides a grant, the claims of the subject token are of this issuer, name
-- the grant's subject, who is an active user, and its Organization, if any, and are not expired; their
-- audience and the one asked for are those of two resources that the application's Organization may
-- use, and a policy of the application leads from the one to the other. A scope is in the grant
-- exactly when it was asked for and is the application's, a mapping of that policy leads to it from a
-- scope that the subject token carries and the source declares, and the user holds it in that
-- Organization. A refresh token cannot be had, and the new token lasts no longer than five minutes,
-- and than the `exp` of the subject token.
pub delegated_grant_is_bounded :
    (deps : Directory) (services : Services) (clock : ℕ) (input : TokenExchangeRequest)
    (claims : Members) (application : Application) (grant : DelegatedGrant) (v : String)
    → resolve_delegated_grant deps services clock input claims application ≡ ok grant
    → DelegatedBounds deps services clock input claims application grant v
delegated_grant_is_bounded deps services clock input claims application grant v h =
    let d = resolve_delegated_grant-eq-ok deps services clock input claims application grant h in
    let told = read-AreRead services.issuer claims d.read d.claims_read in
    let (user, active) = user_found deps d.read.subject d.user_is_active in
    let carried = parse_space_separated_claim (get claims "scope") in
    let laws =
      delegated_scopes-eq-ok deps services clock d.asked
        (mapped_target_scopes d.mappings carried (declared_scopes d.source)) d.of_user grant.scopes
        v d.scopes_are in
    record {
      user = user;
      audience = d.read.source_audience;
      exp = d.read.expires_at;
      source = d.source;
      target = d.target;
      mappings = d.mappings;
      asked = d.asked;
      of_user = d.of_user;
      subject_claim = told.0 ∙ ap (λ x. some (Json.str x)) (sym d.subject_is);
      issuer_claim = told.1;
      audience_claim = told.2;
      expiry_claim = told.3;
      organization_claim =
          organization-claimed (get claims realmroot_organization_claim) grant.organization_id
            d.organization_read;
      active_user = subst (λ x. IsActiveUser deps x user) (sym d.subject_is) active;
      source_is =
          visible_resource-IsVisibleAt deps application d.read.source_audience "invalid_grant"
            "Subject access token audience is not eligible for this Application." d.source
            d.source_found;
      target_is =
          visible_resource-IsVisibleAt deps application input.audience "invalid_target"
            "Requested audience is not visible to the Application tenant." d.target d.target_found;
      policy =
          find_mappings-Among d.source.id d.target.id application.token_exchange_policies d.mappings
            d.policy;
      asked_for = d.asked_for;
      held_by_user =
          subst
            (λ x.
              user_effective_resource_scopes deps x d.target clock (tenant_of grant.organization_id)
              ≡ ok d.of_user)
            (sym d.subject_is) d.held_by_user;
      scopes_are =
          subst (λ b. includes grant.scopes v ≡ (includes d.asked v && (b && includes d.of_user v)))
            (mapped-leads_to carried (declared_scopes d.source) v d.mappings) laws.0;
      not_offline = laws.1;
      not_expired = lt_of_ltb (clock / 1000) d.read.expires_at d.not_expired;
      five_minutes = omega (arith, d.expiry);
      within_subject = omega (arith, d.expiry);
    }
