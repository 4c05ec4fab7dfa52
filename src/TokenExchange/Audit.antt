-- ===== src/TokenExchange/Audit.antt =====
-- server/usecases/token-exchange.ts: the audit rows of the exchanges that act for an agent.
use realmroot.Prelude.{
  ℕ, String, Bool, false, Option, none, some, List, [], ◌∷◌, ◌++◌, get_or, is_some, not, dedupe,
  words,
}
use realmroot.Errors.{ok, Failure, api_error, oauth_failure, thrown}
use realmroot.Errors.Exec.{Exec}
use realmroot.Json.{Members, get, is_record, read_string}
use realmroot.Directory.{
  Directory, Application, ApiResource, AgentIdentity, find_by_issuer_subject, find_by_client_id,
  find_resource_by_resource_url,
}
use realmroot.TokenExchange.{State, AuditEvent, TokenExchangeRequest, realmroot_organization_claim}

-- `deps.agentAudit.append`. The id of the row is not modelled.
unfoldable pub append : AuditEvent → Exec State (Unit {0})
append event s = (ok tt, record s { audit_events = s.audit_events ++ event ∷ [] })

-- `error instanceof OAuthError ? error.error : 'internal_error'`
abbrev pub reason_of : Failure → String
reason_of (oauth_failure status error description) = error
reason_of (api_error status code message) = "internal_error"
reason_of (thrown message) = "internal_error"

-- `error instanceof OAuthError ? error.errorDescription : fallback`
abbrev pub description_of : String → Failure → String
description_of fallback (oauth_failure status error description) = description
description_of fallback (api_error status code message) = fallback
description_of fallback (thrown message) = fallback

abbrev read_member : Option Members → String → Option String
read_member none key = none
read_member (some m) key = read_string (get m key)

-- `isRecord(claims.act) ? claims.act : null`
abbrev pub actor_members : Members → Option Members
actor_members claims = elim (get claims "act") [ none ↦ none | some act ↦ is_record act ]

abbrev find_actor : Directory → Option String → Option String → Option AgentIdentity
unfolding find_by_issuer_subject
find_actor deps (some issuer) (some subject) = find_by_issuer_subject deps issuer subject
find_actor deps _ _ = none

abbrev identity_id : Option AgentIdentity → Option String
identity_id none = none
identity_id (some identity) = some identity.id

abbrev resource_id : Option ApiResource → Option String
resource_id none = none
resource_id (some resource) = some resource.id

abbrev application_id : Option Application → Option String
application_id none = none
application_id (some application) = some application.id

unfoldable pub agent_resource_event :
    Directory
    → TokenExchangeRequest
    → Members
    → Application
    → (allowed : Bool) → (reason_code failure_reason : Option String) → Option (List String)
    → (occurred_at : ℕ) → AuditEvent
unfolding find_by_issuer_subject find_resource_by_resource_url
agent_resource_event deps input claims application allowed reason_code failure_reason issued_scopes
      occurred_at =
    let actor = actor_members claims in
    let actor_issuer = read_member actor "iss" in
    let actor_subject = read_member actor "sub" in
    record {
      action = "oauth.agent_resource_token_exchanged";
      allowed = allowed;
      realm_owned = false;
      owner_organization_id = some application.owner_organization_id;
      controller_user_id = read_string (get claims "sub");
      subject_issuer = actor_issuer;
      subject = actor_subject;
      agent_identity_id = identity_id (find_actor deps actor_issuer actor_subject);
      resource_id = resource_id (find_resource_by_resource_url deps input.audience);
      scopes = get_or issued_scopes (dedupe (words (get_or input.scope "")));
      reason_code = reason_code;
      metadata =
          ("exchangeClientId", some application.client_id)
          ∷ ("sourceTokenId", read_string (get claims "jti"))
          ∷ ("targetAudience", some input.audience)
          ∷ ("failureReason", failure_reason)
          ∷ [];
      occurred_at = occurred_at;
    }

unfoldable pub append_agent_resource_token_exchange_audit :
    Directory
    → TokenExchangeRequest
    → Members
    → Application
    → (allowed : Bool) → (reason_code failure_reason : Option String) → Option (List String)
    → Exec State (Unit {0})
unfolding append agent_resource_event
append_agent_resource_token_exchange_audit deps input claims application allowed reason_code
      failure_reason issued_scopes s =
    append
      (agent_resource_event deps input claims application allowed reason_code failure_reason
        issued_scopes s.clock)
      s

-- What `identityTokenExchangeAuditContext` collects: the application and the claims where the
-- exchange came so far.
pub record AuditContext : Type 0 where
  pub application : Option Application
  pub claims : Option Members

abbrev owner_of : Option Application → Option String
owner_of none = none
owner_of (some application) = some application.owner_organization_id

abbrev actor_of : Option Members → Option Members
actor_of none = none
actor_of (some claims) = actor_members claims

unfoldable pub identity_event :
    Directory
    → TokenExchangeRequest
    → (client_id : String) → AuditContext
    → (allowed : Bool) → (reason_code failure_reason : Option String) → (occurred_at : ℕ)
    → AuditEvent
unfolding find_by_issuer_subject find_by_client_id
identity_event deps input client_id context allowed reason_code failure_reason occurred_at =
    let actor = actor_of context.claims in
    let actor_issuer = read_member actor "iss" in
    let actor_subject = read_member actor "sub" in
    record {
      action = "oauth.agent_identity_token_exchanged";
      allowed = allowed;
      realm_owned = not (is_some (owner_of context.application));
      owner_organization_id = owner_of context.application;
      controller_user_id = read_member context.claims "sub";
      subject_issuer = actor_issuer;
      subject = actor_subject;
      agent_identity_id = identity_id (find_actor deps actor_issuer actor_subject);
      resource_id = none;
      scopes = "openid" ∷ "groups" ∷ [];
      reason_code = reason_code;
      metadata =
          ("exchangeClientId", some client_id)
          ∷ ("sourceTokenId", read_member context.claims "jti")
          ∷ ("tokenOrganizationId", read_member context.claims realmroot_organization_claim)
          ∷ ("targetApplicationId", application_id (find_by_client_id deps input.audience))
          ∷ ("targetApplicationClientId", some input.audience)
          ∷ ("failureReason", failure_reason)
          ∷ [];
      occurred_at = occurred_at;
    }

unfoldable pub append_identity_token_exchange_audit :
    Directory
    → TokenExchangeRequest
    → (client_id : String) → AuditContext
    → (allowed : Bool) → (reason_code failure_reason : Option String) → Exec State (Unit {0})
unfolding append identity_event
append_identity_token_exchange_audit deps input client_id context allowed reason_code failure_reason
      s =
    append (identity_event deps input client_id context allowed reason_code failure_reason s.clock)
      s
