-- ===== src/TokenExchange/Delegated/Run.antt =====
-- What a delegated grant went through.
use realmroot.Prelude.{
  eq_iff, not, true, ◌==◌, ◌<◌, ltb, nat_eq, ◌/◌, ℕ, String, some, List, ◌≡◌, refl, ◌∙◌, ap, subst,
  arith, ◌+◌, ◌*◌, min,
}
use realmroot.Errors.{ok}
use realmroot.Errors.Laws.{>>=-eq-ok, require-eq-ok, or_throw-eq-ok, ok-injective}
use realmroot.Json.{
  Json, Members, get, parse_space_separated_claim, read_string, read_number, read_single_audience,
}
use realmroot.Json.Laws.{read_string-some, read_number-some}
use realmroot.Directory.{Directory, Application, ApiResource, ScopeMapping}
use realmroot.Entitlements.{user_effective_resource_scopes, declared_scopes}
use realmroot.TokenExchange.{Services, TokenExchangeRequest, realmroot_organization_claim}
use realmroot.TokenExchange.Grants.{resolve_application_token_scopes_for_resource}
use realmroot.TokenExchange.Delegated.{
  mapped_target_scopes, find_mappings, require_active_delegated_user,
}
use realmroot.TokenExchange.Delegated.Grant.{
  delegated_scopes, resolve_delegated_grant, DelegatedGrant, SubjectClaims, read_subject_claims,
  visible_resource, tenant_of, read_organization, read_actor, resolve_delegated_actor,
}

-- What reading the claims of a subject token tells of them
abbrev AreRead : (issuer : String) → Members → SubjectClaims → Type 0
AreRead issuer claims read =
    (get claims "sub" ≡ some (Json.str read.subject))
    × (get claims "iss" ≡ some (Json.str issuer))
    × (read_single_audience (get claims "aud") ≡ some read.source_audience)
    × (get claims "exp" ≡ some (Json.num read.expires_at))

pub read-AreRead :
    (issuer : String) (claims : Members) (read : SubjectClaims)
    → read_subject_claims issuer claims ≡ ok read
    → AreRead issuer claims read
unfolding read_subject_claims
read-AreRead issuer claims read h0 =
    let (subject, e1, h1) = or_throw-eq-ok (read_string (get claims "sub")) _ _ h0 in
    let (claimed, e2, h2) = or_throw-eq-ok (read_string (get claims "iss")) _ _ h1 in
    let (t3, h3) = require-eq-ok (claimed == issuer) _ _ h2 in
    let (audience, e4, h4) = or_throw-eq-ok (read_single_audience (get claims "aud")) _ _ h3 in
    let (exp, e5, h5) = or_throw-eq-ok (read_number (get claims "exp")) _ _ h4 in
    let (t6, h6) = require-eq-ok (not (nat_eq exp 0)) _ _ h5 in
    subst (AreRead issuer claims) (ok-injective h6) (
      read_string-some (get claims "sub") subject e1,
      read_string-some (get claims "iss") claimed e2
          ∙ ap (λ x. some (Json.str x)) ((eq_iff claimed issuer).0 t3),
      e4,
      read_number-some (get claims "exp") exp e5,
    )

pub lt_of_ltb : (a b : ℕ) → ltb a b ≡ true → a < b
lt_of_ltb a b h = ground (arith, h)

-- What a delegated grant went through.
pub record Delegation (deps : Directory) (services : Services) (clock : ℕ)
    (input : TokenExchangeRequest) (claims : Members) (application : Application)
    (grant : DelegatedGrant) : Type 0 where
  pub read : SubjectClaims
  pub source : ApiResource
  pub target : ApiResource
  pub mappings : List ScopeMapping
  pub asked : List String
  pub of_user : List String
  pub claims_read : read_subject_claims services.issuer claims ≡ ok read
  pub not_expired : ltb (clock / 1000) read.expires_at ≡ true
  pub source_found :
      visible_resource deps application read.source_audience "invalid_grant"
        "Subject access token audience is not eligible for this Application."
      ≡ ok source
  pub target_found :
      visible_resource deps application input.audience "invalid_target"
        "Requested audience is not visible to the Application tenant."
      ≡ ok target
  pub organization_read :
      read_organization (get claims realmroot_organization_claim) ≡ ok grant.organization_id
  pub user_is_active : require_active_delegated_user deps read.subject ≡ ok tt
  pub policy : find_mappings source.id target.id application.token_exchange_policies ≡ some mappings
  pub asked_for :
      resolve_application_token_scopes_for_resource deps application target clock input.scope
      ≡ ok asked
  pub held_by_user :
      user_effective_resource_scopes deps read.subject target clock
        (tenant_of grant.organization_id)
      ≡ ok of_user
  pub scopes_are :
      delegated_scopes deps services clock asked
        (mapped_target_scopes mappings
          (parse_space_separated_claim (get claims "scope"))
          (declared_scopes source))
        of_user
      ≡ ok grant.scopes
  pub subject_is : grant.subject ≡ read.subject
  pub expiry : grant.expires_at ≡ min (clock + 300 * 1000) (read.expires_at * 1000)

pub resolve_delegated_grant-eq-ok :
    (deps : Directory) (services : Services) (clock : ℕ) (input : TokenExchangeRequest)
    (claims : Members) (application : Application) (grant : DelegatedGrant)
    → resolve_delegated_grant deps services clock input claims application ≡ ok grant
    → Delegation deps services clock input claims application grant
unfolding resolve_delegated_grant
resolve_delegated_grant-eq-ok deps services clock input claims application grant h0 =
    let (read, e1, h1) = >>=-eq-ok (read_subject_claims services.issuer claims) _ h0 in
    let (t2, h2) = require-eq-ok _ _ _ h1 in
    let (u3, e3, h3) = >>=-eq-ok (require_active_delegated_user deps read.subject) _ h2 in
    let (source, e4, h4) =
      >>=-eq-ok
        (visible_resource deps application read.source_audience "invalid_grant"
          "Subject access token audience is not eligible for this Application.")
        _ h3 in
    let (target, e5, h5) =
      >>=-eq-ok
        (visible_resource deps application input.audience "invalid_target"
          "Requested audience is not visible to the Application tenant.")
        _ h4 in
    let (mappings, e6, h6) =
      or_throw-eq-ok (find_mappings source.id target.id application.token_exchange_policies) _ _
        h5 in
    let (asked, e7, h7) =
      >>=-eq-ok
        (resolve_application_token_scopes_for_resource deps application target clock input.scope) _
        h6 in
    let (organization_id, e8, h8) =
      >>=-eq-ok (read_organization (get claims realmroot_organization_claim)) _ h7 in
    let (actor, e9, h9) = >>=-eq-ok (read_actor (get claims "act")) _ h8 in
    let (delegated, e10, h10) =
      >>=-eq-ok
        (resolve_delegated_actor deps services clock input claims source target
          application.owner_organization_id read.subject organization_id actor)
        _ h9 in
    let (of_user, e11, h11) =
      >>=-eq-ok
        (user_effective_resource_scopes deps read.subject target clock (tenant_of organization_id))
        _ h10 in
    let (scopes, e12, h12) =
      >>=-eq-ok
        (delegated_scopes deps services clock asked
          (mapped_target_scopes mappings (parse_space_separated_claim (get claims "scope"))
            (declared_scopes source))
          of_user)
        _ h11 in
    subst (Delegation deps services clock input claims application) (ok-injective h12) (record {
      read = read;
      source = source;
      target = target;
      mappings = mappings;
      asked = asked;
      of_user = of_user;
      claims_read = e1;
      not_expired = t2;
      source_found = e4;
      target_found = e5;
      organization_read = e8;
      user_is_active = e3;
      policy = e6;
      asked_for = e7;
      held_by_user = e11;
      scopes_are = e12;
      subject_is = refl;
      expiry = refl;
    })
