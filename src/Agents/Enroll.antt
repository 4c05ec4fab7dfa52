-- ===== src/Agents/Enroll.antt =====
-- server/usecases/agent-identities.ts: enrolling agents. A handler gives the rows; their shape in a
-- response (`toIdentity`, `toIntent`) is not modelled.
use Prim.Native.String
use realmroot.Prelude.{
  ℕ, String, Bool, false, not, ◌&&◌, Option, none, some, List, [], ◌∷◌, ◌++◌, holds, is_some,
  get_or, leb, ◌==◌, if◌then◌else◌,
}
use realmroot.Errors.{
  Result, ok, require, or_throw, ◌>>◌, not_found_error, bad_request_error, conflict_error,
  forbidden_error, thrown,
}
use realmroot.Errors.Exec
use realmroot.Errors.Exec.{Exec, pure, raise, lift, reads}
use realmroot.Agents.{
  IdentityStatus, BindingStatus, is_pending, AgentIdentityRecord, AgentIdentityBinding,
  AgentIdentityBindingRecord, AgentIdentityAggregate, AgentEnrollmentIntentRecord, AgentRecord,
  AgentState, draw, time, truthy,
}
use realmroot.Agents.Store.{
  find_identity, find_by_username, find_intent, find_protocol_agent, find_binding_by_protocol_agent,
  find_active_by_protocol_agent,
}
use realmroot.Agents.Store.Writes.{create_identity, approve_intent, claim_identity_profile}

infixl 10 ◌>>=!◌ ◌>>!◌
abbrev pub ◌>>=!◌ {ℓ} : {S A B : Type ℓ} → Exec S A → (A → Exec S B) → Exec S B
◌>>=!◌ = Exec.◌>>=◌

abbrev pub ◌>>!◌ {ℓ} : {S A B : Type ℓ} → Exec S A → Exec S B → Exec S B
◌>>!◌ = Exec.◌>>◌

-- The profile that an enrollment asks for
pub record ProfileInput : Type 0 where
  pub protocol_agent_id : String
  pub username : String
  pub nickname : Option String
  pub runtime : String

unfoldable pub assert_controller : (owner_user_id actor_user_id : String) → Result (Unit {0})
assert_controller owner actor =
    require (owner == actor) (forbidden_error "Agent identity controller access is required.")

unfoldable pub assert_same_home_space : (left right : String) → Result (Unit {0})
assert_same_home_space left right =
    require (left == right)
      (forbidden_error "Enrollment intent does not belong to the Agent identity home space.")

unfoldable pub require_identity : String → AgentState → Result AgentIdentityAggregate
unfolding find_identity
require_identity id s =
    or_throw (find_identity s id) (not_found_error "Agent identity was not found.")

-- `protocolAgent.status === 'active' && protocolAgent.userId === actorUserId`
abbrev pub may_enroll : String → Option AgentRecord → Bool
may_enroll actor none = false
may_enroll actor (some agent) = agent.status == "active" && holds agent.user_id actor

unfoldable pub assert_protocol_agent_can_enroll :
    (protocol_agent_id actor_user_id : String) → AgentState → Result (Unit {0})
unfolding find_protocol_agent find_binding_by_protocol_agent
assert_protocol_agent_can_enroll id actor s =
    require (may_enroll actor (find_protocol_agent s id))
      (not_found_error "Active Agent protocol registration was not found.")
    >> require (not (is_some (find_binding_by_protocol_agent s id)))
        (bad_request_error "Agent protocol registration is already bound.")

unfoldable pub require_available_agent_username : String → AgentState → Result (Unit {0})
unfolding find_by_username
require_available_agent_username username s =
    require (not (is_some (find_by_username s username)))
      (conflict_error (String.◌++◌ (String.◌++◌ "Agent username \"" username) "\" is unavailable."))

unfoldable pub require_or_claim_identity_profile :
    AgentIdentityAggregate → ProfileInput → Exec AgentState AgentIdentityAggregate
unfolding require_available_agent_username claim_identity_profile time
require_or_claim_identity_profile aggregate input = elim (truthy aggregate.identity.username) [
  | some username ↦
      if username == input.username
      then pure aggregate
      else raise (conflict_error "Agent username is immutable.")
  | none ↦
      reads (require_available_agent_username input.username)
      >>! (time >>=! λ now.
          claim_identity_profile aggregate.identity.id input.username
            (get_or input.nickname input.runtime) input.runtime now
          >>=! λ claimed.
              lift (or_throw claimed (conflict_error "Agent username has already been assigned.")))
]

abbrev pub new_agent_identity_record :
    (id subject issuer : String)
    → (username : Option String)
    → (name : String) (runtime : Option String) (owner : String) (now : ℕ) → AgentIdentityRecord
new_agent_identity_record id subject issuer username name runtime owner now = record {
  id = id;
  issuer = issuer;
  subject = subject;
  username = username;
  name = name;
  runtime = runtime;
  owner_user_id = owner;
  status = IdentityStatus.active;
  deleted_at = none;
  created_at = now;
  updated_at = now;
}

abbrev pub new_agent_identity_binding :
    (id identity_id protocol_agent_id : String) (now : ℕ) → AgentIdentityBinding
new_agent_identity_binding id identity_id protocol_agent_id now = record {
  id = id;
  agent_identity_id = identity_id;
  protocol_agent_id = protocol_agent_id;
  status = BindingStatus.active;
  bound_at = now;
  revoked_at = none;
  created_at = now;
  updated_at = now;
}

-- `aggregate.bindings.at(-1)`
abbrev pub last_host : List AgentIdentityBindingRecord → Option String
last_host [] = none
last_host (row ∷ []) = some row.host_id
last_host (row ∷ next ∷ rows) = last_host (next ∷ rows)

unfoldable pub append_identity_audit :
    (generate : ℕ → String) (action : String)
    → AgentIdentityAggregate
    → (controller : Option String) → List (String × Option String)
    → Exec AgentState (Unit {0})
unfolding draw
append_identity_audit generate action aggregate controller metadata = draw generate >>=! λ id s. (
  ok tt,
  record s {
    audit_events =
        s.audit_events
        ++ record {
          id = id;
          action = action;
          owner_user_id = aggregate.identity.owner_user_id;
          controller_user_id = controller;
          subject_issuer = aggregate.identity.issuer;
          subject = aggregate.identity.subject;
          agent_identity_id = aggregate.identity.id;
          host_id = last_host aggregate.bindings;
          metadata = metadata;
          occurred_at = s.clock;
        }
          ∷ [];
  },
)

-- The end of an enrollment that makes an identity or a binding
unfoldable pub audited :
    (ℕ → String)
    → (controller : String) → Exec AgentState AgentIdentityAggregate
    → Exec AgentState AgentIdentityAggregate
unfolding append_identity_audit
audited generate controller write = write >>=! λ aggregate.
    append_identity_audit generate "agent.identity_enrolled" aggregate (some controller) []
    >>! pure aggregate

unfoldable pub create_new_login_identity :
    (generate : ℕ → String)
    → ProfileInput
    → (issuer controller : String) → Exec AgentState AgentIdentityAggregate
unfolding assert_protocol_agent_can_enroll require_available_agent_username draw time
    create_identity audited
create_new_login_identity generate input issuer controller =
    reads (assert_protocol_agent_can_enroll input.protocol_agent_id controller)
    >>! (time >>=! λ now.
        reads (require_available_agent_username input.username)
        >>! (draw generate >>=! λ identity_id. draw generate >>=! λ subject.
            draw generate >>=! λ binding_id. audited generate controller (
              create_identity
                (new_agent_identity_record identity_id subject issuer (some input.username)
                  (get_or input.nickname input.runtime) (some input.runtime) controller now)
                (new_agent_identity_binding binding_id identity_id input.protocol_agent_id now))))

unfoldable pub create_agent_login_identity :
    (generate : ℕ → String)
    → ProfileInput
    → (issuer controller : String) → Exec AgentState AgentIdentityAggregate
unfolding find_active_by_protocol_agent require_or_claim_identity_profile create_new_login_identity
create_agent_login_identity generate input issuer controller s =
    elim (find_active_by_protocol_agent s input.protocol_agent_id) [
      | some existing ↦ require_or_claim_identity_profile existing input s
      | none ↦ create_new_login_identity generate input issuer controller s
    ]

-- What an approval writes: a new identity and its binding, or a binding of the identity it names.
unfoldable pub approve_with :
    (generate : ℕ → String) (issuer actor : String) (now : ℕ)
    → AgentEnrollmentIntentRecord
    → Option String
    → Exec AgentState AgentIdentityAggregate
unfolding require_identity assert_same_home_space draw approve_intent
approve_with generate issuer actor now intent (some identity_id) =
    reads (require_identity identity_id) >>=! λ existing.
    lift (assert_same_home_space intent.owner_user_id existing.identity.owner_user_id)
    >>! (draw generate >>=! λ binding_id.
        approve_intent intent.id none
          (new_agent_identity_binding binding_id identity_id intent.protocol_agent_id now) actor
          now)
approve_with generate issuer actor now intent none = draw generate >>=! λ identity_id.
    draw generate >>=! λ subject. draw generate >>=! λ binding_id.
    lift (or_throw intent.requested_name (thrown "NOT NULL constraint failed: agent_identity.name"))
    >>=! λ name.
        approve_intent intent.id
          (some (
            new_agent_identity_record identity_id subject issuer intent.requested_username name
              intent.requested_runtime intent.owner_user_id now))
          (new_agent_identity_binding binding_id identity_id intent.protocol_agent_id now) actor now

unfoldable pub approve_agent_enrollment :
    (generate : ℕ → String) (intent_id issuer actor : String)
    → Exec AgentState AgentIdentityAggregate
unfolding find_intent assert_controller assert_protocol_agent_can_enroll time approve_with audited
approve_agent_enrollment generate intent_id issuer actor =
    reads (λ s.
      or_throw (find_intent s intent_id) (not_found_error "Agent enrollment intent was not found."))
    >>=! λ intent.
        lift (
          require (is_pending intent.status)
            (bad_request_error "Agent enrollment intent is no longer pending."))
        >>! (time >>=! λ now.
            lift (
              require (not (leb intent.expires_at now))
                (bad_request_error "Agent enrollment intent has expired."))
            >>! (lift (assert_controller intent.owner_user_id actor)
                >>! (reads (assert_protocol_agent_can_enroll intent.protocol_agent_id actor)
                    >>! audited generate actor (
                        approve_with generate issuer actor now intent
                          (truthy intent.agent_identity_id)))))
