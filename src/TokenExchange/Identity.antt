-- ===== src/TokenExchange/Identity.antt =====
-- server/usecases/token-exchange.ts: `exchangeAgentIdentityToken`, an agent's access token exchanged
-- for an ID token of a private application of the controller's organization.
pub mod Audited
pub mod Laws
use realmroot.Prelude.{
  ℕ, String, Bool, true, false, not, ◌&&◌, ◌||◌, Option, none, some, List, [], ◌∷◌, ◌+◌, ◌-◌, ◌*◌,
  ◌/◌, ◌==◌, any, all, includes, join, min, is_some, ltb, nat_eq, length, if◌then◌else◌,
}
use realmroot.Errors.{Result, ok, err, oauth_error, require, or_throw, Failure, ◌>>=◌, ◌>>◌}
use realmroot.Errors.Exec.{Exec}
use realmroot.Errors.Exec
use realmroot.Json.{
  Json, Items, Members, items_of, get, object, read_string, read_number, read_single_audience,
}
use realmroot.Directory.{
  Directory, Application, Visibility, TokenExchangePolicy, find_by_client_id,
  find_by_issuer_subject, find_member_by_organization_user, find_organization,
  list_team_names_for_user, ApiResource, AgentIdentity,
}
use realmroot.Membership.{is_public}
use realmroot.TokenExchange.{
  Services, State, TokenExchangeRequest, TokenExchangeResponse, ClientCredentials, fresh_id,
  access_token_type, id_token_type, token_exchange_grant_type, realmroot_cli_client_id,
  realmroot_organization_claim, delegated_user_expires_in_seconds,
}
use realmroot.TokenExchange.Client.{
  parse_list, authenticate_application_client, AuthenticatedClient,
}
use realmroot.TokenExchange.Grants.{normalize_scopes}
use realmroot.TokenExchange.Federated.{Verifier, verify_realmroot_access_token}
use realmroot.TokenExchange.Audit.{
  AuditContext, actor_members, append_identity_token_exchange_audit, reason_of, description_of,
}
use realmroot.TokenExchange.Delegated.{
  Actor, native_agent_binding, require_active_identity, require_active_membership,
  require_active_delegated_user,
}
use realmroot.TokenExchange.Delegated.Grant.{visible_resource}

pub record AgentClaims : Type 0 where
  pub subject : String
  pub source_audience : String
  pub actor : Actor
  pub expires_at : ℕ

abbrev missing : Failure
missing = oauth_error "invalid_grant" "Agent subject token is missing required claims."

unfoldable pub read_agent_claims : (issuer : String) → Members → Result AgentClaims
read_agent_claims issuer claims = do
  subject ← or_throw (read_string (get claims "sub")) missing
  claimed ← or_throw (read_string (get claims "iss")) missing
  require (claimed == issuer) missing
  source_audience ← or_throw (read_single_audience (get claims "aud")) missing
  source_token_id ← or_throw (read_string (get claims "jti")) missing
  source_client_id ← or_throw (read_string (get claims "client_id")) missing
  require (source_client_id == realmroot_cli_client_id) missing
  expires_at ← or_throw (read_number (get claims "exp")) missing
  require (not (nat_eq expires_at 0)) missing
  actor ← or_throw (actor_members claims) missing
  actor_issuer ← or_throw (read_string (get actor "iss")) missing
  actor_subject ← or_throw (read_string (get actor "sub")) missing
  ok (record {
    subject = subject;
    source_audience = source_audience;
    actor = record { issuer = actor_issuer; subject = actor_subject };
    expires_at = expires_at;
  })

-- A policy for identity tokens, from the source to the target. Without a target none is.
abbrev pub allows_identity : String → Option Application → TokenExchangePolicy → Bool
allows_identity source_id (some target) (TokenExchangePolicy.identity_policy source target_id) =
    source == source_id && target_id == target.id
allows_identity source_id _ _ = false

unfoldable pub require_target : Application → String → Option Application → Result Application
require_target application organization_id none =
    err (oauth_error "invalid_target" "Target OIDC Application is not eligible for this exchange.")
require_target application organization_id (some target) = do
  require
      (not target.disabled
        && not (is_public target.visibility)
        && target.owner_organization_id == application.owner_organization_id
        && target.owner_organization_id == organization_id)
      (oauth_error "invalid_target" "Target OIDC Application is not eligible for this exchange.")
  ok target

abbrev pub identity_scopes : List String
identity_scopes = "openid" ∷ "groups" ∷ []

unfoldable pub resolve_identity_scopes : Option String → Application → Result (List String)
unfolding normalize_scopes
resolve_identity_scopes scope target = do
  requested ← normalize_scopes scope identity_scopes
  require
      (nat_eq (length requested) 2
        && includes requested "openid"
        && includes requested "groups"
        && all (includes target.oidc_scopes) requested)
      (oauth_error "invalid_scope"
        "Requested identity scope is unavailable for the target Application.")
  ok requested

pub record IdentityGrant : Type 0 where
  pub claims : AgentClaims
  pub organization_id : String
  pub target_client_id : String
  pub groups : List String
  pub scopes : List String
  pub expires_at : ℕ

module _ (deps : Directory) (services : Services) where
  unfoldable pub resolve_identity_grant :
      ℕ → TokenExchangeRequest → Members → Application → Result IdentityGrant
  unfolding read_agent_claims require_target resolve_identity_scopes visible_resource
      native_agent_binding require_active_identity require_active_membership
      require_active_delegated_user find_by_client_id find_by_issuer_subject
      list_team_names_for_user
  resolve_identity_grant clock input claims application = do
    read ← read_agent_claims services.issuer claims
    require (ltb (clock / 1000) read.expires_at)
        (oauth_error "invalid_grant" "Agent subject token is expired.")
    organization_id ←
        or_throw (read_string (get claims realmroot_organization_claim))
          (oauth_error "invalid_grant" "Agent subject token has no Organization context.")
    source ←
        visible_resource deps application read.source_audience "invalid_grant"
          "Agent subject token audience is not eligible for this Application."
    require
        (any (allows_identity source.id (find_by_client_id deps input.audience))
          application.token_exchange_policies)
        (oauth_error "invalid_target"
          "No token exchange policy allows the requested source and target.")
    target ← require_target application organization_id (find_by_client_id deps input.audience)
    binding_id ←
        native_agent_binding deps services clock input source
          (find_by_issuer_subject deps read.actor.issuer read.actor.subject)
    require_active_identity deps services clock
        (find_by_issuer_subject deps read.actor.issuer read.actor.subject) binding_id read.subject
    require_active_delegated_user deps read.subject
    require_active_membership deps services clock organization_id read.subject
    scopes ← resolve_identity_scopes input.scope target
    ok (record {
      claims = read;
      organization_id = organization_id;
      target_client_id = target.client_id;
      groups = list_team_names_for_user deps organization_id read.subject;
      scopes = scopes;
      expires_at = min (clock + delegated_user_expires_in_seconds * 1000) (read.expires_at * 1000);
    })

  -- The claims of the ID token
  unfoldable pub identity_claims : (client_id jti : String) → ℕ → IdentityGrant → Members
  identity_claims client_id jti clock grant = object (
      ("iss", some (Json.str services.issuer))
      ∷ ("sub", some (Json.str grant.claims.subject))
      ∷ ("aud", some (Json.str grant.target_client_id))
      ∷ ("azp", some (Json.str client_id))
      ∷ (
        "act",
        some (
            Json.obj (
              object (
                ("iss", some (Json.str grant.claims.actor.issuer))
                ∷ ("sub", some (Json.str grant.claims.actor.subject))
                ∷ []))),
      )
      ∷ ("groups", some (Json.arr (items_of grant.groups)))
      ∷ (realmroot_organization_claim, some (Json.str grant.organization_id))
      ∷ ("iat", some (Json.num (clock / 1000)))
      ∷ ("exp", some (Json.num (grant.expires_at / 1000)))
      ∷ ("jti", some (Json.str jti))
      ∷ [])

  unfoldable pub exchange_agent_identity_token_verified :
      TokenExchangeRequest → Members → String → Application → Exec State TokenExchangeResponse
  unfolding resolve_identity_grant identity_claims fresh_id
  exchange_agent_identity_token_verified input claims client_id application s =
      elim (resolve_identity_grant s.clock input claims application) [
        | err e ↦ (err e, s)
        | ok grant ↦
            Exec.◌>>=◌ (fresh_id services)
              (λ jti. Exec.pure (record {
                access_token = services.sign (identity_claims client_id jti s.clock grant) "JWT";
                issued_token_type = id_token_type;
                expires_in = (grant.expires_at - s.clock) / 1000;
                scope = join grant.scopes;
                refresh_token = none;
              }))
              s
      ]

  -- The checks of the `try` block before the claims are known
  unfoldable pub authenticate_identity_client :
      TokenExchangeRequest → AuthenticatedClient → Option Verifier → Result Members
  unfolding verify_realmroot_access_token
  authenticate_identity_client input authenticated verifier = do
    require (includes (parse_list authenticated.0.grant_types) token_exchange_grant_type)
        (oauth_error "unauthorized_client" "Client is not allowed to use token exchange.")
    require (input.subject_token_type == access_token_type)
        (oauth_error "invalid_request" "ID tokens require an access_token subject token.")
    verify_realmroot_access_token services input verifier
