-- ===== src/TokenExchange/Identity/Laws.antt =====
-- What an exchange for an ID token leaves in the audit log.
use realmroot.Prelude.{
  String, true, false, Option, none, some, [], ◌∷◌, ◌++◌, ◌≡◌, refl, inl, inr, ap,
}
use realmroot.Errors.{Result}
use realmroot.Errors.Laws.{Result-cases, is_ok}
use realmroot.Json.{Members}
use realmroot.Directory.{Directory, Application}
use realmroot.TokenExchange.{
  Services, State, AuditEvent, TokenExchangeRequest, ClientCredentials, fresh_id,
}
use realmroot.TokenExchange.Client.{authenticate_application_client, AuthenticatedClient}
use realmroot.TokenExchange.Federated.{Verifier}
use realmroot.TokenExchange.Audit.{
  AuditContext, append, identity_event, append_identity_token_exchange_audit, reason_of,
  description_of,
}
use realmroot.TokenExchange.Identity.{
  authenticate_identity_client, exchange_agent_identity_token_verified, resolve_identity_grant,
}
use realmroot.TokenExchange.Identity.Audited.{
  audit_denied, exchange_verified_identity, exchange_agent_identity_token,
}
use realmroot.Errors.Exec.{on_error}
use realmroot.Errors.{Failure}

-- A log with one row more, which says how the exchange ended.
abbrev Audited {ℓ} : {A : Type ℓ} → State → Result A × State → Type 0
Audited s r =
    (event : AuditEvent) × (r.1.audit_events ≡ s.audit_events ++ event ∷ [])
    × (event.allowed ≡ is_ok r.0)

denied :
    AuditContext
    → Directory
    → TokenExchangeRequest
    → ClientCredentials
    → Failure
    → State
    → AuditEvent
denied context deps input client e s =
    identity_event deps input client.client_id context false (some (reason_of e))
      (some (description_of "ID token exchange failed unexpectedly." e)) s.clock

module _ (deps : Directory) (services : Services) (input : TokenExchangeRequest)
    (client : ClientCredentials) (s : State) where
  verified-audit :
      (claims : Members) (client_id : String) (application : Application)
      → (exchange_agent_identity_token_verified deps services input claims client_id application
          s).1.audit_events
        ≡ s.audit_events
  unfolding exchange_agent_identity_token_verified fresh_id
  verified-audit claims client_id application =
      elim (Result-cases (resolve_identity_grant deps services s.clock input claims application)) [
        | inl (grant, e) ↦ rw (exchange_agent_identity_token_verified, e) refl
        | inr (failure, e) ↦ rw (exchange_agent_identity_token_verified, e) refl
      ]

  verified-Audited :
      (authenticated : AuthenticatedClient) (claims : Members)
      → Audited s (
          on_error
            (exchange_verified_identity deps services input client authenticated claims)
            (audit_denied deps services input client
              (record { application = some authenticated.1; claims = some claims }))
            s)
  unfolding exchange_verified_identity audit_denied append_identity_token_exchange_audit append
      denied
  verified-Audited authenticated claims =
      let unchanged = verified-audit claims authenticated.0.client_id authenticated.1 in
      let context : AuditContext = record {
        application = some authenticated.1;
        claims = some claims;
      } in
      let after =
        (exchange_agent_identity_token_verified deps services input claims authenticated.0.client_id
          authenticated.1 s).1 in
      elim (Result-cases
        (exchange_agent_identity_token_verified deps services input claims authenticated.0.client_id
          authenticated.1 s).0) [
            | inl (r, e) ↦
                let event =
                  identity_event deps input client.client_id context true none none after.clock in
                rw e (event, ap (λ es. es ++ event ∷ []) unchanged, refl)
            | inr (failure, e) ↦
                let event = denied context deps input client failure after in
                rw e (event, ap (λ es. es ++ event ∷ []) unchanged, refl)
          ]

  -- Every exchange for an ID token appends one row to the audit log, which says whether it
  -- succeeded: also when the client fails to authenticate, or the subject token is refused.
  pub identity_exchange_is_audited :
      (verifier : Option Verifier)
      → (event : AuditEvent) × ((exchange_agent_identity_token deps services input client verifier
            s).1.audit_events
          ≡ s.audit_events ++ event ∷ [])
        × (event.allowed
            ≡ is_ok (exchange_agent_identity_token deps services input client verifier s).0)
  unfolding exchange_agent_identity_token audit_denied append_identity_token_exchange_audit append
      denied
  identity_exchange_is_audited verifier =
      elim (Result-cases
        (authenticate_application_client deps services client.client_id client.client_secret)) [
          | inr (e, h) ↦
              rw (exchange_agent_identity_token, h)
                (
                  denied (record { application = none; claims = none }) deps input client e s,
                  refl,
                  refl,
                )
          | inl (authenticated, h) ↦
              elim (Result-cases
                (authenticate_identity_client deps services input authenticated verifier)) [
                  | inr (e, k) ↦
                      rw (exchange_agent_identity_token, h, k)
                        (
                          denied (record { application = some authenticated.1; claims = none }) deps
                              input client e s,
                          refl,
                          refl,
                        )
                  | inl (claims, k) ↦
                      rw (exchange_agent_identity_token, h, k)
                        (verified-Audited authenticated claims)
                ]
        ]
