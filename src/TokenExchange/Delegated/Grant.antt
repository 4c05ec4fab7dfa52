-- ===== src/TokenExchange/Delegated/Grant.antt =====
-- server/usecases/token-exchange.ts: `exchangeDelegatedUserToken`, from the verified claims to the
-- scopes that the new token has, and its issue.
use realmroot.Prelude.{
  ℕ, String, Bool, true, false, not, ◌&&◌, Option, none, some, List, [], ◌∷◌, ◌+◌, ◌-◌, ◌*◌, ◌/◌,
  ◌==◌, filter, includes, join, ltb, nat_eq, length, min,
}
use realmroot.Errors.{Result, ok, err, oauth_error, require, or_throw, ◌>>=◌, ◌>>◌}
use realmroot.Errors.Exec.{Exec}
use realmroot.Errors.Exec
use realmroot.Json.{
  Json, Members, get, is_record, read_string, read_number, read_single_audience,
  parse_space_separated_claim, object,
}
use realmroot.Directory.{
  Directory, Application, ApiResource, AuthorizationModel, find_resource_by_resource_url,
}
use realmroot.Membership.{active_resource_visible_to_organization}
use realmroot.Entitlements.{
  Tenant, no_organization, in_organization, declared_scopes, user_effective_resource_scopes,
}
use realmroot.TokenExchange.{
  Services, State, TokenExchangeRequest, TokenExchangeResponse, realmroot_organization_claim,
  delegated_user_expires_in_seconds, access_token_type,
}
use realmroot.TokenExchange.Grants.{resolve_application_token_scopes_for_resource}
use realmroot.TokenExchange.Issue.{AccessGrant, issue_jwt_access_token}
use realmroot.TokenExchange.Delegated.{
  Actor, require_active_delegated_user, require_active_delegated_agent, find_mappings,
  mapped_target_scopes,
}

pub record SubjectClaims : Type 0 where
  pub subject : String
  pub source_audience : String
  pub expires_at : ℕ

abbrev missing_claims : String
missing_claims = "Subject access token is missing required claims."

unfoldable pub read_subject_claims : (issuer : String) → Members → Result SubjectClaims
read_subject_claims issuer claims = do
  subject ← or_throw (read_string (get claims "sub")) (oauth_error "invalid_grant" missing_claims)
  claimed ← or_throw (read_string (get claims "iss")) (oauth_error "invalid_grant" missing_claims)
  require (claimed == issuer) (oauth_error "invalid_grant" missing_claims)
  audience ←
      or_throw (read_single_audience (get claims "aud"))
        (oauth_error "invalid_grant" missing_claims)
  expires_at ←
      or_throw (read_number (get claims "exp")) (oauth_error "invalid_grant" missing_claims)
  require (not (nat_eq expires_at 0)) (oauth_error "invalid_grant" missing_claims)
  ok (record { subject = subject; source_audience = audience; expires_at = expires_at })

abbrev pub read_organization : Option Json → Result (Option String)
read_organization none = ok none
read_organization (some claim) = elim (read_string (some claim)) [
  | none ↦ err (oauth_error "invalid_grant" "Subject access token Organization claim is invalid.")
  | some id ↦ ok (some id)
]

abbrev pub read_actor : Option Json → Result (Option Members)
read_actor none = ok none
read_actor (some claim) = elim (is_record claim) [
  | none ↦ err (oauth_error "invalid_grant" "Agent actor claim is invalid.")
  | some actor ↦ ok (some actor)
]

abbrev pub tenant_of : Option String → Tenant
tenant_of none = no_organization
tenant_of (some id) = in_organization id

abbrev is_native : AuthorizationModel → Bool
is_native AuthorizationModel.native = true
is_native AuthorizationModel.external = false

unfoldable pub require_agent_resources : ApiResource → ApiResource → Result (Unit {0})
require_agent_resources source target = do
  require source.available_to_agents
      (oauth_error "invalid_grant" "Subject access token audience is not available to Agents.")
  require target.available_to_agents
      (oauth_error "invalid_target" "Requested audience is not available to Agents.")
  require (is_native target.authorization_model)
      (oauth_error "invalid_target" "Agent delegation requires a native target Resource Server.")

-- The two resources of an exchange
unfoldable pub visible_resource :
    Directory → Application → String → String → String → Result ApiResource
unfolding find_resource_by_resource_url
visible_resource deps application audience error description = do
  resource ← or_throw (find_resource_by_resource_url deps audience) (oauth_error error description)
  require (active_resource_visible_to_organization resource application.owner_organization_id)
      (oauth_error error description)
  ok resource

-- What is decided before the token is issued
pub record DelegatedGrant : Type 0 where
  pub subject : String
  pub scopes : List String
  pub organization_id : Option String
  pub actor : Option Actor
  pub expires_at : ℕ

module _ (deps : Directory) (services : Services) (clock : ℕ) where
  -- `delegatedActor`
  unfoldable pub resolve_delegated_actor :
      TokenExchangeRequest
      → Members
      → ApiResource
      → ApiResource
      → String
      → String
      → Option String
      → Option Members
      → Result (Option Actor)
  unfolding require_agent_resources
  resolve_delegated_actor input claims source target owner_id subject organization_id none = ok none
  resolve_delegated_actor input claims source target owner_id subject organization_id (some actor) =
      do
        require_agent_resources source target
        delegated ←
            require_active_delegated_agent deps services clock input claims source owner_id subject
              organization_id actor
        ok (some delegated)

  -- The scopes that are asked for, mapped by the policy, and the user's.
  unfoldable pub delegated_scopes :
      (application_scopes mapped_target_scopes user_scopes : List String) → Result (List String)
  delegated_scopes application_scopes mapped user_scopes =
      let scopes =
        filter (λ scope. includes mapped scope && includes user_scopes scope) application_scopes in
      require (not (nat_eq (length scopes) 0) && not (includes scopes "offline_access")) (
        oauth_error "invalid_scope"
          "Requested delegated scope is unavailable for the target Resource Server.")
      >> ok scopes

  unfoldable pub resolve_delegated_grant :
      TokenExchangeRequest → Members → Application → Result DelegatedGrant
  unfolding read_subject_claims visible_resource resolve_delegated_actor delegated_scopes
  resolve_delegated_grant input claims application = do
    read ← read_subject_claims services.issuer claims
    require (ltb (clock / 1000) read.expires_at)
        (oauth_error "invalid_grant" "Subject access token is expired.")
    require_active_delegated_user deps read.subject
    source ←
        visible_resource deps application read.source_audience "invalid_grant"
          "Subject access token audience is not eligible for this Application."
    target ←
        visible_resource deps application input.audience "invalid_target"
          "Requested audience is not visible to the Application tenant."
    mappings ← or_throw (find_mappings source.id target.id application.token_exchange_policies) (
        oauth_error "invalid_target"
          "No token exchange policy allows the requested source and target.")
    application_scopes ←
        resolve_application_token_scopes_for_resource deps application target clock input.scope
    organization_id ← read_organization (get claims realmroot_organization_claim)
    actor ← read_actor (get claims "act")
    delegated ←
        resolve_delegated_actor input claims source target application.owner_organization_id
          read.subject organization_id actor
    user_scopes ←
        user_effective_resource_scopes deps read.subject target clock (tenant_of organization_id)
    scopes ←
        delegated_scopes application_scopes
          (mapped_target_scopes mappings (parse_space_separated_claim (get claims "scope"))
            (declared_scopes source))
          user_scopes
    ok (record {
      subject = read.subject;
      scopes = scopes;
      organization_id = organization_id;
      actor = delegated;
      expires_at = min (clock + delegated_user_expires_in_seconds * 1000) (read.expires_at * 1000);
    })

abbrev organization_claim : Option String → Option Json
organization_claim none = none
organization_claim (some id) = some (Json.str id)

abbrev actor_pair : Option Actor → Option (String × String)
actor_pair none = none
actor_pair (some actor) = some (actor.issuer, actor.subject)

abbrev pub access_grant_of : String → String → ℕ → DelegatedGrant → AccessGrant
access_grant_of client_id audience clock granted = record {
  client_id = client_id;
  subject = granted.subject;
  audience = audience;
  scopes = granted.scopes;
  claims = object ((realmroot_organization_claim, organization_claim granted.organization_id) ∷ []);
  actor = actor_pair granted.actor;
  issued_at = clock;
  expires_at = granted.expires_at;
}

unfoldable pub exchange_delegated_user_token :
    Directory
    → Services
    → TokenExchangeRequest
    → Members
    → String
    → Application
    → Exec State TokenExchangeResponse
unfolding resolve_delegated_grant issue_jwt_access_token
exchange_delegated_user_token deps services input claims client_id application s =
    let granted = resolve_delegated_grant deps services s.clock input claims application in
    elim granted [
      | err e ↦ (err e, s)
      | ok grant ↦
          Exec.◌>>=◌
            (issue_jwt_access_token services
              (access_grant_of client_id input.audience s.clock grant))
            (λ token. Exec.pure (record {
              access_token = token;
              issued_token_type = access_token_type;
              expires_in = (grant.expires_at - s.clock) / 1000;
              scope = join grant.scopes;
              refresh_token = none;
            }))
            s
    ]
