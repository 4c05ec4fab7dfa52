-- ===== src/TokenExchange/Exchange/Laws.antt =====
-- What an exchange that acts for an agent leaves in the audit log.
use realmroot.Prelude.{String, true, false, none, some, [], ◌∷◌, ◌++◌, ◌≡◌, refl, inl, inr, ap}
use realmroot.Errors.Laws.{Result-cases, is_ok}
use realmroot.Json.{Json, Members, parse_space_separated_claim}
use realmroot.Directory.{Directory, Application}
use realmroot.TokenExchange.{Services, State, AuditEvent, TokenExchangeRequest, fresh_id}
use realmroot.TokenExchange.Issue.{issue_jwt_access_token}
use realmroot.TokenExchange.Delegated.Grant.{exchange_delegated_user_token, resolve_delegated_grant}
use realmroot.TokenExchange.Audit.{
  append, agent_resource_event, reason_of, description_of,
  append_agent_resource_token_exchange_audit,
}
use realmroot.TokenExchange.Exchange.{audited_delegation}

-- The exchange itself writes nothing to the log.
exchange_delegated-audit :
    (deps : Directory) (services : Services) (input : TokenExchangeRequest) (claims : Members)
    (client_id : String) (application : Application) (s : State)
    → (exchange_delegated_user_token deps services input claims client_id application
        s).1.audit_events
      ≡ s.audit_events
unfolding exchange_delegated_user_token issue_jwt_access_token fresh_id
exchange_delegated-audit deps services input claims client_id application s =
    elim (Result-cases (resolve_delegated_grant deps services s.clock input claims application)) [
      | inl (grant, e) ↦ rw (exchange_delegated_user_token, e) refl
      | inr (failure, e) ↦ rw (exchange_delegated_user_token, e) refl
    ]

-- One row is appended to the audit log whether a delegated exchange that is audited succeeds or fails,
-- and it says which; the response or the error is that of the exchange itself.
pub delegation_is_audited :
    (deps : Directory) (services : Services) (input : TokenExchangeRequest) (claims : Members)
    (client_id : String) (application : Application) (s : State)
    → (event : AuditEvent) × ((audited_delegation deps services input claims client_id application
          s).1.audit_events
        ≡ s.audit_events ++ event ∷ [])
      × (event.allowed
          ≡ is_ok (audited_delegation deps services input claims client_id application s).0)
      × ((audited_delegation deps services input claims client_id application s).0
          ≡ (exchange_delegated_user_token deps services input claims client_id application s).0)
unfolding audited_delegation append_agent_resource_token_exchange_audit append agent_resource_event
delegation_is_audited deps services input claims client_id application s =
    let unchanged = exchange_delegated-audit deps services input claims client_id application s in
    elim (Result-cases
      (exchange_delegated_user_token deps services input claims client_id application s).0) [
        | inl (r, e) ↦
            let event =
              agent_resource_event deps input claims application true none none
                (some (parse_space_separated_claim (some (Json.str r.scope))))
                (exchange_delegated_user_token deps services input claims client_id application
                  s).1.clock in
            rw e (event, ap (λ es. es ++ event ∷ []) unchanged, refl, refl)
        | inr (failure, e) ↦
            let event =
              agent_resource_event deps input claims application false (some (reason_of failure))
                (some (description_of "Agent Resource token exchange failed unexpectedly." failure))
                none
                (exchange_delegated_user_token deps services input claims client_id application
                  s).1.clock in
            rw e (event, ap (λ es. es ++ event ∷ []) unchanged, refl, refl)
      ]
