-- ===== src/Agents/Intents.antt =====
-- server/usecases/agent-identities.ts: the intents to enroll, and their replay by an idempotency key.
use realmroot.Prelude.{
  ℕ, String, Bool, true, false, not, ◌&&◌, Option, none, some, ◌+◌, holds, is_some, get_or, ◌==◌,
}
use realmroot.Errors.{Result, ok, require, or_throw, ◌>>◌, conflict_error, forbidden_error}
use realmroot.Errors.Exec.{Exec, pure, lift, reads}
use realmroot.Agents.{
  IntentStatus, AgentIdentityAggregate, AgentEnrollmentIntentRecord, AgentState,
  enrollment_lifetime_ms, draw, time, truthy,
}
use realmroot.Agents.Store.{
  find_intent_by_idempotency_key, find_latest_approved_identity_intent,
  find_active_by_protocol_agent,
}
use realmroot.Agents.Store.Writes.{create_intent_idempotently}
use realmroot.Agents.Enroll.{
  ◌>>=!◌, ◌>>!◌, ProfileInput, assert_controller, require_identity,
  assert_protocol_agent_can_enroll, require_available_agent_username,
  require_or_claim_identity_profile,
}

-- `intent.requestedUsername ? ... : ...` gives the fields that it is compared by.
pub record Profile : Type 0 where
  pub username : Option String
  pub nickname : Option String
  pub runtime : Option String

abbrev pub profile_of : ProfileInput → Profile
profile_of input = record {
  username = some input.username;
  nickname = some (get_or input.nickname input.runtime);
  runtime = some input.runtime;
}

-- `left === right` for texts that may be null
abbrev pub same_text : Option String → Option String → Bool
same_text none none = true
same_text (some a) (some b) = a == b
same_text _ _ = false

abbrev pub is_matching : AgentEnrollmentIntentRecord → Profile → String → Bool
is_matching intent profile owner =
    not (is_some intent.agent_identity_id)
    && (same_text intent.requested_name profile.nickname
        && (same_text intent.requested_username profile.username
            && (same_text intent.requested_runtime profile.runtime
                && intent.owner_user_id == owner)))

unfoldable pub require_matching_identity_enrollment :
    AgentEnrollmentIntentRecord → Profile → (owner actor : String) → Result (Unit {0})
require_matching_identity_enrollment intent profile owner actor =
    require (intent.created_by_user_id == actor)
      (forbidden_error "This Agent cannot replay the enrollment request.")
    >> require (is_matching intent profile owner) (
        conflict_error
          "Idempotency-Key was already used for a different Agent identity enrollment.")

unfoldable pub require_matching_installation_enrollment :
    AgentEnrollmentIntentRecord → (identity_id actor : String) → Result (Unit {0})
require_matching_installation_enrollment intent identity_id actor =
    require (intent.created_by_user_id == actor)
      (forbidden_error "This Agent cannot replay the enrollment request.")
    >> require (holds intent.agent_identity_id identity_id) (
        conflict_error
          "Idempotency-Key was already used for a different Agent installation enrollment.")

abbrev pub with_profile : AgentEnrollmentIntentRecord → Profile → AgentEnrollmentIntentRecord
with_profile intent profile = record intent {
  requested_name = profile.nickname;
  requested_username = profile.username;
  requested_runtime = profile.runtime;
}

-- The intent, and whether it was there before
abbrev pub Replayed : Type 0
Replayed = AgentEnrollmentIntentRecord × Bool

abbrev pub to_replayed : Bool → Bool
to_replayed created = not created

-- `existing`: a row with the agent and the key
unfoldable pub replay_existing :
    AgentEnrollmentIntentRecord → ProfileInput → (actor : String) → Exec AgentState Replayed
unfolding require_matching_identity_enrollment find_active_by_protocol_agent
    require_or_claim_identity_profile
replay_existing existing input actor = elim (truthy existing.requested_username) [
  | some username ↦
      lift (require_matching_identity_enrollment existing (profile_of input) actor actor)
      >>! pure (existing, true)
  | none ↦
      lift (
        require_matching_identity_enrollment (with_profile existing (profile_of input))
          (profile_of input) actor actor)
      >>! (reads (λ s. or_throw (find_active_by_protocol_agent s input.protocol_agent_id) (
            conflict_error
              "The existing Agent enrollment cannot claim a username without its identity."))
          >>=! λ bound.
              require_or_claim_identity_profile bound input
              >>! pure (with_profile existing (profile_of input), true))
]

-- `approved`: what its own profile is compared with
abbrev pub approved_profile : AgentEnrollmentIntentRecord → Profile → Profile
approved_profile intent profile = elim (truthy intent.requested_username) [
  | some username ↦ record {
    username = some username;
    nickname = intent.requested_name;
    runtime = intent.requested_runtime;
  }
  | none ↦ profile
]

abbrev pub intent_record :
    (id : String)
    → (identity_id : Option String) → Profile
    → (owner protocol_agent_id key : String) → IntentStatus
    → (actor : String) → (approved_by : Option String) → (approved_at : Option ℕ) → (now : ℕ)
    → AgentEnrollmentIntentRecord
intent_record id identity_id profile owner protocol_agent_id key status actor approved_by
      approved_at now =
    record {
      id = id;
      agent_identity_id = identity_id;
      requested_name = profile.nickname;
      requested_username = profile.username;
      requested_runtime = profile.runtime;
      owner_user_id = owner;
      protocol_agent_id = protocol_agent_id;
      idempotency_key = some key;
      status = status;
      created_by_user_id = actor;
      approved_by_user_id = approved_by;
      expires_at = now + enrollment_lifetime_ms;
      approved_at = approved_at;
      created_at = now;
      updated_at = now;
    }

-- An agent with an approved intent replays it; one without gets an approved intent of its identity.
unfoldable pub replay_or_migrate :
    (ℕ → String)
    → (bound profiled : AgentIdentityAggregate) → ProfileInput
    → (actor key : String) → Option AgentEnrollmentIntentRecord
    → Exec AgentState Replayed
unfolding require_matching_identity_enrollment time draw create_intent_idempotently
replay_or_migrate generate bound profiled input actor key (some approved) =
    lift (
      require_matching_identity_enrollment approved (approved_profile approved (profile_of input))
        bound.identity.owner_user_id actor)
    >>! pure (approved, true)
replay_or_migrate generate bound profiled input actor key none = time >>=! λ now.
    draw generate >>=! λ id.
    create_intent_idempotently key (
      intent_record id none
        (record {
          username = profiled.identity.username;
          nickname = some profiled.identity.name;
          runtime = profiled.identity.runtime;
        })
        bound.identity.owner_user_id input.protocol_agent_id key IntentStatus.approved actor
        (some actor) (some now) now)
    >>=! λ migrated.
        lift (
          require_matching_identity_enrollment migrated.0 (profile_of input)
            bound.identity.owner_user_id actor)
        >>! pure (migrated.0, true)

-- `boundIdentity`: an agent that already stands for an identity
unfoldable pub replay_bound :
    (ℕ → String)
    → AgentIdentityAggregate
    → ProfileInput
    → (actor key : String) → Exec AgentState Replayed
unfolding require_or_claim_identity_profile assert_controller find_latest_approved_identity_intent
    replay_or_migrate
replay_bound generate bound input actor key =
    require_or_claim_identity_profile bound input >>=! λ profiled.
    lift (assert_controller bound.identity.owner_user_id actor)
    >>! (reads (λ s. ok (find_latest_approved_identity_intent s input.protocol_agent_id))
        >>=! replay_or_migrate generate bound profiled input actor key)

unfoldable pub reserve_identity_intent :
    (ℕ → String) → ProfileInput → (actor key : String) → Exec AgentState Replayed
unfolding assert_protocol_agent_can_enroll require_available_agent_username time draw
    create_intent_idempotently require_matching_identity_enrollment assert_controller
reserve_identity_intent generate input actor key =
    lift (assert_controller actor actor)
    >>! (reads (assert_protocol_agent_can_enroll input.protocol_agent_id actor)
        >>! (reads (require_available_agent_username input.username)
            >>! (time >>=! λ now. draw generate >>=! λ id.
                create_intent_idempotently key (
                  intent_record id none (profile_of input) actor input.protocol_agent_id key
                    IntentStatus.pending actor none none now)
                >>=! λ reserved.
                    lift (
                      require_matching_identity_enrollment reserved.0 (profile_of input) actor
                        actor)
                    >>! pure (reserved.0, to_replayed reserved.1))))

unfoldable pub create_agent_enrollment_intent :
    (ℕ → String) → ProfileInput → (actor key : String) → Exec AgentState Replayed
unfolding find_intent_by_idempotency_key find_active_by_protocol_agent replay_existing replay_bound
    reserve_identity_intent
create_agent_enrollment_intent generate input actor key s =
    elim (find_intent_by_idempotency_key s input.protocol_agent_id key) [
      | some existing ↦ replay_existing existing input actor s
      | none ↦ elim (find_active_by_protocol_agent s input.protocol_agent_id) [
        | some bound ↦ replay_bound generate bound input actor key s
        | none ↦ reserve_identity_intent generate input actor key s
      ]
    ]

unfoldable pub reserve_installation_intent :
    (ℕ → String) → (identity_id protocol_agent_id actor key : String) → Exec AgentState Replayed
unfolding require_identity assert_controller assert_protocol_agent_can_enroll time draw
    create_intent_idempotently require_matching_installation_enrollment
reserve_installation_intent generate identity_id protocol_agent_id actor key =
    reads (require_identity identity_id) >>=! λ aggregate.
    lift (assert_controller aggregate.identity.owner_user_id actor)
    >>! (reads (assert_protocol_agent_can_enroll protocol_agent_id actor)
        >>! (time >>=! λ now. draw generate >>=! λ id.
            create_intent_idempotently key (
              intent_record id (some identity_id)
                (record { username = none; nickname = none; runtime = none })
                aggregate.identity.owner_user_id protocol_agent_id key IntentStatus.pending actor
                none none now)
            >>=! λ reserved.
                lift (require_matching_installation_enrollment reserved.0 identity_id actor)
                >>! pure (reserved.0, to_replayed reserved.1)))

unfoldable pub create_additional_agent_enrollment_intent :
    (ℕ → String) → (identity_id protocol_agent_id actor key : String) → Exec AgentState Replayed
unfolding find_intent_by_idempotency_key require_matching_installation_enrollment
    reserve_installation_intent
create_additional_agent_enrollment_intent generate identity_id protocol_agent_id actor key s =
    elim (find_intent_by_idempotency_key s protocol_agent_id key) [
      | some existing ↦
          (lift (require_matching_installation_enrollment existing identity_id actor)
              >>! pure (existing, true))
            s
      | none ↦ reserve_installation_intent generate identity_id protocol_agent_id actor key s
    ]
