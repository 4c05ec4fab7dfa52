-- ===== src/Agents/Store/Writes.antt =====
-- server/adapters/repos/agent-identities.ts: the batches.
use realmroot.Prelude.{
  ℕ, String, Bool, true, false, not, ◌&&◌, ◌||◌, Option, none, some, List, [], ◌∷◌, ◌++◌, map, find,
  filter, any, includes, holds, is_some, ◌==◌, if◌then◌else◌,
}
use realmroot.Errors.{Result, ok, err, thrown, or_throw}
use realmroot.Errors.Exec.{Exec}
use realmroot.Agents.{
  IdentityStatus, BindingStatus, IntentStatus, is_active, is_bound, is_pending, AgentIdentityRecord,
  AgentIdentityBinding, AgentIdentityAggregate, AgentEnrollmentIntentRecord, AgentRecord,
  AgentGrant, AgentState,
}
use realmroot.Agents.Store.{
  is_kept, is_identity, has_agent_id, reserved_error, foreign_key_error, insert_both, find_identity,
  find_intent_by_idempotency_key, has_key,
}

abbrev pub with_tables :
    AgentState → List AgentIdentityRecord × List AgentIdentityBinding → AgentState
with_tables s tables = record s { identities = tables.0; bindings = tables.1 }

-- A batch that inserts, and the row read back
unfoldable pub persist :
    AgentState
    → Result (List AgentIdentityRecord × List AgentIdentityBinding)
    → (AgentState → AgentState)
    → (id message : String) → Result AgentIdentityAggregate × AgentState
unfolding find_identity
persist s (err failure) others id message = (err failure, s)
persist s (ok tables) others id message =
    let s' = others (with_tables s tables) in (or_throw (find_identity s' id) (thrown message), s')

unfoldable pub create_identity :
    AgentIdentityRecord → AgentIdentityBinding → Exec AgentState AgentIdentityAggregate
unfolding insert_both persist
create_identity identity binding s =
    persist s (insert_both s (some identity) binding) (λ t. t) identity.id
      "Agent identity was not persisted."

abbrev pub approve_if_pending :
    (id user : String) (now : ℕ) → AgentEnrollmentIntentRecord → AgentEnrollmentIntentRecord
approve_if_pending id user now row =
    if row.id == id && is_pending row.status
    then record row {
      status = IntentStatus.approved;
      approved_by_user_id = some user;
      approved_at = some now;
      updated_at = now;
    }
    else row

unfoldable pub approve_intent :
    (intent_id : String)
    → Option AgentIdentityRecord
    → AgentIdentityBinding
    → (approved_by_user_id : String) → (approved_at : ℕ) → Exec AgentState AgentIdentityAggregate
unfolding insert_both persist
approve_intent intent_id identity binding user now s =
    persist s (insert_both s identity binding)
      (λ t. record t { intents = map (approve_if_pending intent_id user now) t.intents })
      binding.agent_identity_id "Approved Agent identity was not persisted."

-- The row that a claim of a profile writes
abbrev pub is_claimable : String → AgentIdentityRecord → Bool
is_claimable id row = row.id == id && (not (is_some row.username) && is_kept row)

abbrev pub claim_row :
    (id username name runtime : String) (now : ℕ) → AgentIdentityRecord → AgentIdentityRecord
claim_row id username name runtime now row =
    if is_claimable id row
    then record row {
      username = some username;
      name = name;
      runtime = some runtime;
      updated_at = now;
    }
    else row

unfoldable pub claim_identity_profile :
    (id username name runtime : String)
    → (now : ℕ) → Exec AgentState (Option AgentIdentityAggregate)
unfolding find_identity
claim_identity_profile id username name runtime now s =
    if any (is_claimable id) s.identities
    then (if any (λ row. holds row.username username) s.identities
        then (err reserved_error, s)
        else let s' = record s {
          identities = map (claim_row id username name runtime now) s.identities;
        } in
          (ok (find_identity s' id), s'))
    else (ok none, s)

-- The check of the table: an intent names an identity, or all of a new one.
abbrev pub is_checked : AgentEnrollmentIntentRecord → Bool
is_checked intent =
    is_some intent.agent_identity_id
    || (is_some intent.requested_name
        && (is_some intent.requested_username && is_some intent.requested_runtime))

abbrev pub identity_exists : List AgentIdentityRecord → Option String → Bool
identity_exists rows none = true
identity_exists rows (some id) = any (λ row. row.id == id) rows

abbrev pub is_intent_taken :
    (key : String) → AgentEnrollmentIntentRecord → AgentEnrollmentIntentRecord → Bool
is_intent_taken key intent row = row.id == intent.id || has_key intent.protocol_agent_id key row

abbrev pub replayed :
    Option AgentEnrollmentIntentRecord → Option (AgentEnrollmentIntentRecord × Bool)
replayed none = none
replayed (some row) = some (row, false)

-- The intent is written with the idempotency key `key`.
unfoldable pub create_intent_idempotently :
    (key : String)
    → AgentEnrollmentIntentRecord
    → Exec AgentState (AgentEnrollmentIntentRecord × Bool)
unfolding find_intent_by_idempotency_key
create_intent_idempotently key intent s =
    if not (is_checked intent)
    then (err (thrown "CHECK constraint failed"), s)
    else if any (is_intent_taken key intent) s.intents
    then (
      or_throw (replayed (find_intent_by_idempotency_key s intent.protocol_agent_id key))
          (thrown "Agent installation enrollment reservation did not return its durable resource."),
      s,
    )
    else if identity_exists s.identities intent.agent_identity_id
        && any (has_agent_id intent.protocol_agent_id) s.agents
    then (ok (intent, true), record s { intents = s.intents ++ intent ∷ [] })
    else (err foreign_key_error, s)

abbrev pub is_active_binding : String → AgentIdentityBinding → Bool
is_active_binding identity_id row = row.agent_identity_id == identity_id && is_bound row.status

unfoldable pub active_protocol_agent_ids : AgentState → String → List String
active_protocol_agent_ids s identity_id =
    map (λ row. row.protocol_agent_id) (filter (is_active_binding identity_id) s.bindings)

-- `revokeProtocolAgentStatements`
abbrev pub revoke_row :
    (identity_id : String) (now : ℕ) → AgentIdentityBinding → AgentIdentityBinding
revoke_row identity_id now row =
    if is_active_binding identity_id row
    then record row { status = BindingStatus.revoked; revoked_at = some now; updated_at = now }
    else row

abbrev pub revoke_agent : (ids : List String) (now : ℕ) → AgentRecord → AgentRecord
revoke_agent ids now row =
    if includes ids row.id then record row { status = "revoked"; updated_at = now } else row

abbrev pub revoke_grant : (ids : List String) (now : ℕ) → AgentGrant → AgentGrant
revoke_grant ids now row =
    if includes ids row.agent_id then record row { status = "revoked"; updated_at = now } else row

unfoldable pub revoke_protocol_agents :
    (identity_id : String) (protocol_agent_ids : List String) (now : ℕ) → AgentState → AgentState
revoke_protocol_agents identity_id ids now s = record s {
  bindings = map (revoke_row identity_id now) s.bindings;
  agents = map (revoke_agent ids now) s.agents;
  capability_grants = map (revoke_grant ids now) s.capability_grants;
  approval_requests = map (revoke_grant ids now) s.approval_requests;
}

abbrev pub is_active_binding_of :
    (identity_id protocol_agent_id : String) → AgentIdentityBinding → Bool
is_active_binding_of identity_id protocol_agent_id row =
    row.agent_identity_id == identity_id
    && (row.protocol_agent_id == protocol_agent_id && is_bound row.status)

unfoldable pub revoke_binding :
    (identity_id protocol_agent_id : String) (now : ℕ) → Exec AgentState Bool
unfolding revoke_protocol_agents
revoke_binding identity_id protocol_agent_id now s =
    if any (is_active_binding_of identity_id protocol_agent_id) s.bindings
    then (ok true, revoke_protocol_agents identity_id (protocol_agent_id ∷ []) now s)
    else (ok false, s)

abbrev pub deactivate_row : String → ℕ → AgentIdentityRecord → AgentIdentityRecord
deactivate_row id now row =
    if row.id == id then record row { status = IdentityStatus.inactive; updated_at = now } else row

unfoldable pub deactivate_found :
    Option AgentIdentityRecord → String → ℕ → (revoke_bindings : Bool) → Exec AgentState Bool
unfolding revoke_protocol_agents active_protocol_agent_ids
deactivate_found none id now revoke s = (ok false, s)
deactivate_found (some identity) id now revoke s =
    let s' = record s { identities = map (deactivate_row id now) s.identities } in
    if not (is_active identity.status) && not revoke
    then (ok true, s)
    else if revoke
    then (ok true, revoke_protocol_agents id (active_protocol_agent_ids s id) now s')
    else (ok true, s')

unfoldable pub deactivate_identity :
    (id : String) (now : ℕ) (revoke_bindings : Bool) → Exec AgentState Bool
unfolding deactivate_found
deactivate_identity id now revoke s =
    deactivate_found (find (is_identity id) s.identities) id now revoke s

abbrev pub is_activatable : String → AgentIdentityRecord → Bool
is_activatable id row = row.id == id && (not (is_active row.status) && is_kept row)

abbrev pub activate_row : String → ℕ → AgentIdentityRecord → AgentIdentityRecord
activate_row id now row =
    if is_activatable id row
    then record row { status = IdentityStatus.active; updated_at = now }
    else row

unfoldable pub activate_identity : (id : String) (now : ℕ) → Exec AgentState Bool
activate_identity id now s =
    if any (is_active_binding id) s.bindings
    then (
      ok (any (is_activatable id) s.identities),
      record s { identities = map (activate_row id now) s.identities },
    )
    else (ok false, s)

abbrev pub delete_row : String → ℕ → AgentIdentityRecord → AgentIdentityRecord
delete_row id now row =
    if is_identity id row
    then record row { status = IdentityStatus.inactive; deleted_at = some now; updated_at = now }
    else row

unfoldable pub delete_identity : (id : String) (now : ℕ) → Exec AgentState Bool
unfolding revoke_protocol_agents active_protocol_agent_ids
delete_identity id now s =
    if any (is_identity id) s.identities
    then (
      ok true,
      revoke_protocol_agents id (active_protocol_agent_ids s id) now
          (record s { identities = map (delete_row id now) s.identities }),
    )
    else (ok false, s)
