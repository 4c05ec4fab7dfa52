-- ===== src/Tests/Agents.antt =====
-- The theorems on agent identities, tried on an identity with two protocol agents.
use realmroot.Prelude.{
  Reaches, Reaches-trans, ℕ, zero, suc, String, true, false, none, some, [], ◌∷◌, ◌≡◌, ◌≢◌, refl,
}
use realmroot.Errors.{Result, ok, err, forbidden_error}
use realmroot.Errors.Exec.{pure}
use realmroot.Agents.{
  IdentityStatus, BindingStatus, IntentStatus, AgentIdentityRecord, AgentIdentityBinding,
  AgentIdentityAggregate, AgentEnrollmentIntentRecord, AgentRecord, AgentState,
}
use realmroot.Agents.Store.{
  find_intent_by_idempotency_key, find_active_by_protocol_agent, aggregate, joined,
}
use realmroot.Agents.Enroll.{ProfileInput}
use realmroot.Agents.Intents.{create_agent_enrollment_intent}
use realmroot.Agents.Manage.{
  ResourceRevocation, require_active_agent_identity, revoke_agent_identity_host,
  delete_agent_identity, deactivate_agent_identity, activate_agent_identity,
}
use realmroot.Agents.Steps.{Reach, IsSound}
use realmroot.Agents.Runs.Requests.{Request, after, request-Reach}
use realmroot.Agents.Sound.Kept.{reached-IsSound}
use realmroot.Agents.Lasting.Resolved.{agent_keeps_identity}
use realmroot.Agents.Lasting.Ended.{
  revoked_host_stays_out, deleted_identity_stays_out, revoked_host_unbinds_all,
}
use realmroot.Agents.Replays.{enrollment_replayed}

abbrev generate : ℕ → String
generate zero = "id-0"
generate (suc zero) = "id-1"
generate (suc (suc zero)) = "id-2"
generate _ = "id-n"

-- No other tables
abbrev no_resources : ResourceRevocation ℕ
no_resources = record { access = λ id. pure tt; leases_for_binding = λ id. pure tt }

abbrev protocol_agent : String → AgentRecord
protocol_agent id = record {
  id = id;
  user_id = some "user-1";
  host_id = "host";
  status = "active";
  updated_at = 0;
}

abbrev before : AgentState
before = record {
  identities = [];
  bindings = [];
  intents = [];
  agents = protocol_agent "laptop" ∷ protocol_agent "server" ∷ protocol_agent "phone" ∷ [];
  capability_grants = [];
  approval_requests = [];
  audit_events = [];
  drawn = 0;
  clock = 1000;
}

abbrev profile : ProfileInput
profile = record {
  protocol_agent_id = "laptop";
  username = "helper";
  nickname = none;
  runtime = "cli";
}

request-Reach_example :
    Reach before
      (after no_resources generate (Request.login profile "https://realm" "user-1") (before, 0)).0
request-Reach_example =
    request-Reach no_resources generate (Request.login profile "https://realm" "user-1") (before, 0)

reached-IsSound_example :
    IsSound
      (after no_resources generate (Request.login profile "https://realm" "user-1") (before, 0)).0
reached-IsSound_example = reached-IsSound before _ refl refl (
    request-Reach no_resources generate (Request.login profile "https://realm" "user-1")
      (before, 0))

abbrev identity_at : ℕ → AgentIdentityRecord
identity_at now = record {
  id = "agent-1";
  issuer = "https://realm";
  subject = "subject-1";
  username = some "helper";
  name = "Helper";
  runtime = some "cli";
  owner_user_id = "user-1";
  status = IdentityStatus.active;
  deleted_at = none;
  created_at = 0;
  updated_at = now;
}

abbrev binding : (id protocol_agent_id : String) → AgentIdentityBinding
binding id protocol_agent_id = record {
  id = id;
  agent_identity_id = "agent-1";
  protocol_agent_id = protocol_agent_id;
  status = BindingStatus.active;
  bound_at = 0;
  revoked_at = none;
  created_at = 0;
  updated_at = 0;
}

abbrev other_identity : AgentIdentityRecord
other_identity = record (identity_at 0) {
  id = "agent-2";
  subject = "subject-2";
  username = some "second";
}

abbrev other_binding : AgentIdentityBinding
other_binding = record (binding "binding-3" "phone") { agent_identity_id = "agent-2" }

abbrev bound : AgentState
bound = record before {
  identities = identity_at 0 ∷ other_identity ∷ [];
  bindings = binding "binding-1" "laptop" ∷ binding "binding-2" "server" ∷ other_binding ∷ [];
}

bound-IsSound : IsSound bound
bound-IsSound = record { named_once = refl; bound_once = refl; owned = refl }

abbrev aggregate_at : ℕ → AgentIdentityAggregate
aggregate_at now = record {
  identity = identity_at now;
  bindings =
      record { binding = binding "binding-1" "laptop"; host_id = "host" }
      ∷ record { binding = binding "binding-2" "server"; host_id = "host" }
      ∷ [];
}

-- Deactivated, and activated again
abbrev off : AgentState × ℕ
off = after no_resources generate (Request.deactivate "agent-1" "user-1") (bound, 0)

abbrev on : AgentState × ℕ
on = after no_resources generate (Request.activate "agent-1" "user-1") off

resolved_before : require_active_agent_identity "laptop" bound ≡ ok (aggregate_at 0)
unfolding require_active_agent_identity aggregate joined
resolved_before = refl

resolved_after : require_active_agent_identity "laptop" on.0 ≡ ok (aggregate_at 1000)
unfolding require_active_agent_identity after deactivate_agent_identity activate_agent_identity
    aggregate joined
resolved_after = refl

agent_keeps_identity_example : (aggregate_at 1000).identity.id ≡ (aggregate_at 0).identity.id
agent_keeps_identity_example =
    agent_keeps_identity "laptop" bound on.0 (aggregate_at 0) (aggregate_at 1000) bound-IsSound
      (Reaches-trans bound off.0 on.0
        (request-Reach no_resources generate (Request.deactivate "agent-1" "user-1") (bound, 0))
        (request-Reach no_resources generate (Request.activate "agent-1" "user-1") off))
      resolved_before resolved_after

abbrev host_gone : AgentState × ℕ
host_gone =
    (revoke_agent_identity_host no_resources generate "agent-1" "laptop" "user-1" (bound, 0)).1

host_is_revoked :
    (revoke_agent_identity_host no_resources generate "agent-1" "laptop" "user-1" (bound, 0)).0
    ≡ ok tt
unfolding revoke_agent_identity_host aggregate joined
host_is_revoked = refl

abbrev not_bound : Result AgentIdentityAggregate
not_bound =
    err (
      forbidden_error "Agent protocol identity is not bound to an active Realmroot Agent identity.")

revoked_host_stays_out_example :
    require_active_agent_identity "laptop"
      (after no_resources generate (Request.login profile "https://realm" "user-1") host_gone).0
    ≡ not_bound
revoked_host_stays_out_example =
    revoked_host_stays_out no_resources generate "agent-1" "user-1" (bound, 0) "laptop" _
      bound-IsSound host_is_revoked
      (request-Reach no_resources generate (Request.login profile "https://realm" "user-1")
        host_gone)

revoked_host_unbinds_all_example : require_active_agent_identity "server" host_gone.0 ≡ not_bound
revoked_host_unbinds_all_example =
    revoked_host_unbinds_all no_resources generate "agent-1" "user-1" (bound, 0) "laptop" "server"
      bound-IsSound refl host_is_revoked

abbrev deleted : AgentState × ℕ
deleted = (delete_agent_identity no_resources generate "agent-1" "user-1" (bound, 0)).1

is_deleted : (delete_agent_identity no_resources generate "agent-1" "user-1" (bound, 0)).0 ≡ ok tt
unfolding delete_agent_identity aggregate
is_deleted = refl

abbrev other_aggregate : AgentIdentityAggregate
other_aggregate = record {
  identity = other_identity;
  bindings = record { binding = other_binding; host_id = "host" } ∷ [];
}

other_resolved : require_active_agent_identity "phone" deleted.0 ≡ ok other_aggregate
unfolding require_active_agent_identity delete_agent_identity aggregate joined
other_resolved = refl

deleted_identity_stays_out_example : other_aggregate.identity.id ≢ "agent-1"
deleted_identity_stays_out_example =
    deleted_identity_stays_out no_resources generate "agent-1" "user-1" (bound, 0) "phone" deleted.0
      other_aggregate is_deleted Reaches.here other_resolved

abbrev intent : AgentEnrollmentIntentRecord
intent = record {
  id = "id-0";
  agent_identity_id = none;
  requested_name = some "cli";
  requested_username = some "helper";
  requested_runtime = some "cli";
  owner_user_id = "user-1";
  protocol_agent_id = "laptop";
  idempotency_key = some "key";
  status = IntentStatus.pending;
  created_by_user_id = "user-1";
  approved_by_user_id = none;
  expires_at = 601000;
  approved_at = none;
  created_at = 1000;
  updated_at = 1000;
}

enrolls :
    (create_agent_enrollment_intent generate profile "user-1" "key" before).0 ≡ ok (intent, false)
unfolding create_agent_enrollment_intent
enrolls = refl

no_intent : find_intent_by_idempotency_key before "laptop" "key" ≡ none
unfolding find_intent_by_idempotency_key
no_intent = refl

no_identity : find_active_by_protocol_agent before "laptop" ≡ none
unfolding find_active_by_protocol_agent
no_identity = refl

enrollment_replayed_example :
    create_agent_enrollment_intent generate profile "user-1" "key"
      (create_agent_enrollment_intent generate profile "user-1" "key" before).1
    ≡ (ok (intent, true), (create_agent_enrollment_intent generate profile "user-1" "key" before).1)
enrollment_replayed_example =
    enrollment_replayed generate generate profile "user-1" "key" before intent refl no_intent
      no_identity enrolls
