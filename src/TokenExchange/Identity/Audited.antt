-- ===== src/TokenExchange/Identity/Audited.antt =====
-- server/usecases/token-exchange.ts: `exchangeAgentIdentityToken`, whose `try` block audits what
-- happens, with the application and the claims as far as they are known.
use realmroot.Prelude.{true, false, Option, none, some}
use realmroot.Errors.{ok, err, Failure}
use realmroot.Errors.Exec.{Exec, pure, on_error, ◌>>=◌, ◌>>◌}
use realmroot.Json.{Members}
use realmroot.Directory.{Directory}
use realmroot.TokenExchange.{
  Services, State, TokenExchangeRequest, TokenExchangeResponse, ClientCredentials,
}
use realmroot.TokenExchange.Client.{authenticate_application_client, AuthenticatedClient}
use realmroot.TokenExchange.Federated.{Verifier}
use realmroot.TokenExchange.Audit.{
  AuditContext, append_identity_token_exchange_audit, reason_of, description_of,
}
use realmroot.TokenExchange.Identity.{
  authenticate_identity_client, exchange_agent_identity_token_verified,
}

module _ (deps : Directory) (services : Services) where
  -- The `catch` block
  unfoldable pub audit_denied :
      TokenExchangeRequest → ClientCredentials → AuditContext → Failure → Exec State (Unit {0})
  unfolding append_identity_token_exchange_audit
  audit_denied input client context e =
      append_identity_token_exchange_audit deps input client.client_id context false
        (some (reason_of e)) (some (description_of "ID token exchange failed unexpectedly." e))

  unfoldable pub exchange_verified_identity :
      TokenExchangeRequest
      → ClientCredentials
      → AuthenticatedClient
      → Members
      → Exec State TokenExchangeResponse
  unfolding exchange_agent_identity_token_verified append_identity_token_exchange_audit
  exchange_verified_identity input client authenticated claims = do
    response ←
        exchange_agent_identity_token_verified deps services input claims authenticated.0.client_id
          authenticated.1
    append_identity_token_exchange_audit deps input client.client_id
        (record { application = some authenticated.1; claims = some claims }) true none none
    pure response

  unfoldable pub exchange_agent_identity_token :
      TokenExchangeRequest → ClientCredentials → Option Verifier → Exec State TokenExchangeResponse
  unfolding authenticate_application_client authenticate_identity_client audit_denied
      exchange_verified_identity
  exchange_agent_identity_token input client verifier s =
      elim (authenticate_application_client deps services client.client_id client.client_secret) [
        | err e ↦
            on_error (λ t. (err e, t))
              (audit_denied input client (record { application = none; claims = none })) s
        | ok authenticated ↦
            elim (authenticate_identity_client deps services input authenticated verifier) [
              | err e ↦
                  on_error (λ t. (err e, t))
                    (audit_denied input client
                      (record { application = some authenticated.1; claims = none }))
                    s
              | ok claims ↦
                  on_error (exchange_verified_identity input client authenticated claims)
                    (audit_denied input client
                      (record { application = some authenticated.1; claims = some claims }))
                    s
            ]
      ]
