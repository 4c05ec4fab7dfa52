-- ===== src/Agents/Store.antt =====
-- server/adapters/repos/agent-identities.ts: what the use cases read and write. A batch is one step: it
-- writes all its statements or none. The user rows that owners name are taken to be there.
pub mod Writes
use Prim.Native.String
use realmroot.Prelude.{
  ℕ, String, Bool, true, false, not, ◌&&◌, ◌||◌, Option, none, some, List, [], ◌∷◌, ◌++◌, map, find,
  filter, any, includes, holds, is_some, ◌==◌, ltb, nat_eq, if◌then◌else◌,
}
use realmroot.Errors.{Result, ok, err, conflict_error, thrown, Failure, require, or_throw}
use realmroot.Errors.Exec.{Exec}
use realmroot.Agents.{
  IdentityStatus, BindingStatus, IntentStatus, is_active, is_bound, is_pending, is_approved,
  AgentIdentityRecord, AgentIdentityBinding, AgentIdentityBindingRecord, AgentIdentityAggregate,
  AgentEnrollmentIntentRecord, AgentRecord, AgentGrant, AgentState,
}

-- `isNull(agentIdentity.deletedAt)`
abbrev pub is_kept : AgentIdentityRecord → Bool
is_kept row = not (is_some row.deleted_at)

abbrev pub has_agent_id : String → AgentRecord → Bool
has_agent_id id row = row.id == id

-- `bindingRows`: the inner join with the agent of each row
unfoldable pub joined :
    List AgentRecord → List AgentIdentityBinding → List AgentIdentityBindingRecord
joined agents [] = []
joined agents (row ∷ rows) =
    let rest = joined agents rows in
    elim (find (has_agent_id row.protocol_agent_id) agents) [
      | none ↦ rest
      | some agent ↦ record { binding = row; host_id = agent.host_id } ∷ rest
    ]

unfoldable pub aggregate : AgentState → AgentIdentityRecord → AgentIdentityAggregate
aggregate s identity = record {
  identity = identity;
  bindings = joined s.agents (filter (λ row. row.agent_identity_id == identity.id) s.bindings);
}

abbrev pub aggregate_of : AgentState → Option AgentIdentityRecord → Option AgentIdentityAggregate
aggregate_of s none = none
aggregate_of s (some identity) = some (aggregate s identity)

abbrev pub is_identity : String → AgentIdentityRecord → Bool
is_identity id row = row.id == id && is_kept row

unfoldable pub find_identity : AgentState → String → Option AgentIdentityAggregate
find_identity s id = aggregate_of s (find (is_identity id) s.identities)

unfoldable pub find_by_username : AgentState → String → Option AgentIdentityRecord
find_by_username s username = find (λ row. holds row.username username && is_kept row) s.identities

unfoldable pub find_intent : AgentState → String → Option AgentEnrollmentIntentRecord
find_intent s id = find (λ row. row.id == id) s.intents

abbrev pub has_key : String → String → AgentEnrollmentIntentRecord → Bool
has_key protocol_agent_id key row =
    row.protocol_agent_id == protocol_agent_id && holds row.idempotency_key key

unfoldable pub find_intent_by_idempotency_key :
    AgentState → (protocol_agent_id key : String) → Option AgentEnrollmentIntentRecord
find_intent_by_idempotency_key s protocol_agent_id key =
    find (has_key protocol_agent_id key) s.intents

-- Null comes last in a descending order.
abbrev before : Option ℕ → Option ℕ → Bool
before none none = false
before none (some b) = true
before (some a) none = false
before (some a) (some b) = ltb a b

abbrev same_time : Option ℕ → Option ℕ → Bool
same_time none none = true
same_time (some a) (some b) = nat_eq a b
same_time _ _ = false

abbrev is_later : AgentEnrollmentIntentRecord → AgentEnrollmentIntentRecord → Bool
is_later a b =
    before a.approved_at b.approved_at
    || (same_time a.approved_at b.approved_at && ltb a.created_at b.created_at)

latest :
    AgentEnrollmentIntentRecord → List AgentEnrollmentIntentRecord → AgentEnrollmentIntentRecord
latest row [] = row
latest row (next ∷ rows) = latest (if is_later row next then next else row) rows

abbrev latest_of : List AgentEnrollmentIntentRecord → Option AgentEnrollmentIntentRecord
unfolding latest
latest_of [] = none
latest_of (row ∷ rows) = some (latest row rows)

unfoldable pub find_latest_approved_identity_intent :
    AgentState → String → Option AgentEnrollmentIntentRecord
unfolding latest
find_latest_approved_identity_intent s protocol_agent_id = latest_of (
    filter
      (λ row.
        row.protocol_agent_id == protocol_agent_id
        && (is_approved row.status && not (is_some row.agent_identity_id)))
      s.intents)

unfoldable pub find_protocol_agent : AgentState → String → Option AgentRecord
find_protocol_agent s id = find (has_agent_id id) s.agents

abbrev first : List AgentIdentityBindingRecord → Option AgentIdentityBindingRecord
first [] = none
first (row ∷ rows) = some row

unfoldable pub find_binding_by_protocol_agent :
    AgentState → String → Option AgentIdentityBindingRecord
unfolding joined
find_binding_by_protocol_agent s id =
    first (joined s.agents (filter (λ row. row.protocol_agent_id == id) s.bindings))

-- An identity in use, by its id
abbrev pub is_live : String → AgentIdentityRecord → Bool
is_live id row = row.id == id && (is_active row.status && is_kept row)

-- The inner join of the bindings of an agent with the identities in use
unfoldable pub live_identities :
    List AgentIdentityRecord → String → List AgentIdentityBinding → List AgentIdentityRecord
live_identities identities id [] = []
live_identities identities id (row ∷ rows) =
    (if row.protocol_agent_id == id && is_bound row.status
      then filter (is_live row.agent_identity_id) identities
      else [])
    ++ live_identities identities id rows

abbrev pub head : List AgentIdentityRecord → Option AgentIdentityRecord
head [] = none
head (row ∷ rows) = some row

unfoldable pub find_active_by_protocol_agent : AgentState → String → Option AgentIdentityAggregate
unfolding live_identities
find_active_by_protocol_agent s id =
    aggregate_of s (head (live_identities s.identities id s.bindings))

-- The unique indexes. A username that is null is not in its index.
abbrev pub same_username : Option String → Option String → Bool
same_username none other = false
same_username (some username) other = holds other username

abbrev pub is_taken_by : AgentIdentityRecord → AgentIdentityRecord → Bool
is_taken_by identity row =
    row.id == identity.id
    || ((row.issuer == identity.issuer && row.subject == identity.subject)
        || same_username identity.username row.username)

abbrev pub is_bound_by : AgentIdentityBinding → AgentIdentityBinding → Bool
is_bound_by binding row = row.id == binding.id || row.protocol_agent_id == binding.protocol_agent_id

-- `identityKeyWrite`
abbrev pub reserved_error : Failure
reserved_error = conflict_error (
    String.◌++◌ "Agent identity and installation identifiers remain reserved after revocation "
      "or deletion and cannot be reused.")

abbrev pub foreign_key_error : Failure
foreign_key_error = thrown "FOREIGN KEY constraint failed"

-- The statements `insert into agent_identity` and `insert into agent_identity_binding`
unfoldable pub insert_identity :
    AgentIdentityRecord → List AgentIdentityRecord → Result (List AgentIdentityRecord)
insert_identity identity rows =
    if any (is_taken_by identity) rows then err reserved_error else ok (rows ++ identity ∷ [])

unfoldable pub insert_binding :
    List AgentIdentityRecord
    → List AgentRecord
    → AgentIdentityBinding
    → List AgentIdentityBinding
    → Result (List AgentIdentityBinding)
insert_binding identities agents binding rows =
    if any (is_bound_by binding) rows
    then err reserved_error
    else if any (λ row. row.id == binding.agent_identity_id) identities
        && any (has_agent_id binding.protocol_agent_id) agents
    then ok (rows ++ binding ∷ [])
    else err foreign_key_error

-- A batch of both. With no identity only the binding is written.
unfoldable pub insert_optional :
    Option AgentIdentityRecord → List AgentIdentityRecord → Result (List AgentIdentityRecord)
unfolding insert_identity
insert_optional none rows = ok rows
insert_optional (some identity) rows = insert_identity identity rows

unfoldable pub bind_into :
    AgentState
    → AgentIdentityBinding
    → Result (List AgentIdentityRecord)
    → Result (List AgentIdentityRecord × List AgentIdentityBinding)
unfolding insert_binding
bind_into s binding (err failure) = err failure
bind_into s binding (ok identities) = elim (insert_binding identities s.agents binding s.bindings) [
  | err failure ↦ err failure
  | ok bindings ↦ ok (identities, bindings)
]

unfoldable pub insert_both :
    AgentState
    → Option AgentIdentityRecord
    → AgentIdentityBinding
    → Result (List AgentIdentityRecord × List AgentIdentityBinding)
unfolding insert_optional bind_into
insert_both s identity binding = bind_into s binding (insert_optional identity s.identities)
