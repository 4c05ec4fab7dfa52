-- ===== src/TokenExchange/Exchange.antt =====
-- server/usecases/token-exchange.ts: `exchangeToken`.
pub mod Laws
use realmroot.Prelude.{
  ℕ, String, Bool, true, false, not, ◌&&◌, ◌||◌, Option, none, some, List, [], ◌∷◌, ◌-◌, ◌/◌, ◌==◌,
  includes, join, is_some, if◌then◌else◌,
}
use realmroot.Errors.{Result, ok, err, oauth_error, require, Failure}
use realmroot.Errors.Exec.{Exec, pure, raise, lift, reads, on_error, ◌>>=◌, ◌>>◌}
use realmroot.Json.{Members, get, parse_space_separated_claim, Json}
use realmroot.Directory.{Directory, Application, OauthClient}
use realmroot.TokenExchange.{
  Services, State, AccessToken, TokenExchangeRequest, TokenExchangeResponse, ClientCredentials,
  fresh_id, access_token_type, id_token_type, jwt_token_type, token_exchange_grant_type,
}
use realmroot.TokenExchange.Store.{store_access_token}
use realmroot.TokenExchange.Client.{parse_list, present, authenticate_application_client}
use realmroot.TokenExchange.Federated.{
  FederatedGrant, Verifier, resolve_federated_grant, credential_claims,
  verify_realmroot_access_token,
}
use realmroot.TokenExchange.Issue.{issue_jwt_access_token, issue_refresh_token}
use realmroot.TokenExchange.Delegated.Grant.{exchange_delegated_user_token}
use realmroot.TokenExchange.Identity.Audited.{exchange_agent_identity_token}
use realmroot.TokenExchange.Audit.{
  append_agent_resource_token_exchange_audit, reason_of, description_of,
}

abbrev store_token : AccessToken → Exec State (Unit {0})
unfolding store_access_token
store_token token s = (ok tt, store_access_token token s)

module _ (deps : Directory) (services : Services) where
  -- `if (scopes.includes('offline_access'))`: the refresh token of the response
  abbrev offline_token : String → FederatedGrant → Exec State (Option String)
  unfolding issue_refresh_token fresh_id
  offline_token client_id grant s =
      if includes grant.scopes "offline_access"
      then (do
        family_id ← fresh_id services
        token ← issue_refresh_token services client_id family_id (record {
          credential_id = grant.credential.id;
          subject = grant.subject;
          subject_token_issuer = grant.credential.issuer;
          audience = grant.credential.audience;
          scopes = grant.scopes;
          claims = credential_claims grant.credential;
        })
        pure (some token))
          s
      else (ok none, s)

  -- What a federated subject token is exchanged for, once it is decided.
  unfoldable pub issue_federated :
      (client_id : String) → (issued_at : ℕ) → FederatedGrant → Exec State TokenExchangeResponse
  unfolding issue_jwt_access_token fresh_id store_access_token issue_refresh_token
  issue_federated client_id issued_at grant = do
    access_token ← issue_jwt_access_token services (record {
      client_id = client_id;
      subject = grant.subject;
      audience = grant.credential.audience;
      scopes = grant.scopes;
      claims = credential_claims grant.credential;
      actor = none;
      issued_at = issued_at;
      expires_at = grant.expires_at;
    })
    id ← fresh_id services
    store_token (record {
      id = id;
      token_hash = services.hash_provider_secret access_token;
      client_id = client_id;
      credential_id = grant.credential.id;
      subject = grant.subject;
      subject_token_issuer = grant.credential.issuer;
      audience = grant.credential.audience;
      scopes = grant.scopes;
      claims = credential_claims grant.credential;
      expires_at = grant.expires_at;
      created_at = issued_at;
      revoked_at = none;
    })
    refresh_token ← offline_token client_id grant
    pure (record {
      access_token = access_token;
      issued_token_type = access_token_type;
      expires_in = (grant.expires_at - issued_at) / 1000;
      scope = join grant.scopes;
      refresh_token = refresh_token;
    })

  unfoldable pub exchange_federated_token :
      TokenExchangeRequest → OauthClient → Application → Exec State TokenExchangeResponse
  unfolding resolve_federated_grant issue_federated
  exchange_federated_token input oauth_client application s =
      (do
        grant ←
            reads
              (λ t. resolve_federated_grant deps services t.clock input oauth_client application)
        issue_federated oauth_client.client_id s.clock grant)
        s

  -- The `try` block about a token with an `act` claim: what happens is audited, and an error is
  -- thrown on.
  unfoldable pub audited_delegation :
      TokenExchangeRequest → Members → String → Application → Exec State TokenExchangeResponse
  unfolding exchange_delegated_user_token append_agent_resource_token_exchange_audit
  audited_delegation input claims client_id application =
      on_error
        (do
          response ← exchange_delegated_user_token deps services input claims client_id application
          append_agent_resource_token_exchange_audit deps input claims application true none none
              (some (parse_space_separated_claim (some (Json.str response.scope))))
          pure response)
        (λ e.
          append_agent_resource_token_exchange_audit deps input claims application false
            (some (reason_of e))
            (some (description_of "Agent Resource token exchange failed unexpectedly." e)) none)

  unfoldable pub exchange_access_token :
      TokenExchangeRequest
      → Option Verifier
      → OauthClient
      → Application
      → Exec State TokenExchangeResponse
  unfolding verify_realmroot_access_token audited_delegation exchange_delegated_user_token
  exchange_access_token input verifier oauth_client application = do
    claims ← lift (verify_realmroot_access_token services input verifier)
    (if is_some (get claims "act")
        then audited_delegation input claims oauth_client.client_id application
        else exchange_delegated_user_token deps services input claims oauth_client.client_id
            application)

  -- `input.requestedTokenType && input.requestedTokenType !== accessTokenType`
  abbrev is_supported : Option String → Bool
  is_supported none = true
  is_supported (some requested) = requested == "" || requested == access_token_type

  unfoldable pub exchange_by_subject_type :
      TokenExchangeRequest
      → Option Verifier
      → OauthClient
      → Application
      → Exec State TokenExchangeResponse
  unfolding exchange_access_token exchange_federated_token
  exchange_by_subject_type input verifier oauth_client application =
      if input.subject_token_type == access_token_type
      then exchange_access_token input verifier oauth_client application
      else if input.subject_token_type == jwt_token_type
      then exchange_federated_token input oauth_client application
      else raise (oauth_error "invalid_request" "Unsupported subject_token_type.")

  unfoldable pub exchange_for_access_token :
      TokenExchangeRequest → ClientCredentials → Option Verifier → Exec State TokenExchangeResponse
  unfolding authenticate_application_client exchange_by_subject_type
  exchange_for_access_token input client verifier = do
    (oauth_client, application) ←
        lift (authenticate_application_client deps services client.client_id client.client_secret)
    lift (
        require (includes (parse_list oauth_client.grant_types) token_exchange_grant_type)
          (oauth_error "unauthorized_client" "Client is not allowed to use token exchange."))
    lift (
        require (is_supported input.requested_token_type)
          (oauth_error "invalid_request" "Unsupported requested_token_type."))
    exchange_by_subject_type input verifier oauth_client application

  abbrev is_id_token : Option String → Bool
  is_id_token none = false
  is_id_token (some requested) = requested == id_token_type

  unfoldable pub exchange_token :
      TokenExchangeRequest → ClientCredentials → Option Verifier → Exec State TokenExchangeResponse
  unfolding exchange_for_access_token exchange_agent_identity_token
  exchange_token input client verifier =
      if not (input.grant_type == token_exchange_grant_type)
      then raise (oauth_error "unsupported_grant_type" "Unsupported grant_type.")
      else if is_id_token input.requested_token_type
      then exchange_agent_identity_token deps services input client verifier
      else exchange_for_access_token input client verifier
