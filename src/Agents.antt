-- ===== src/Agents.antt =====
-- server/usecases/ports.ts and server/db/schema/agent-identity-tables.ts: the identities of agents,
-- the protocol agents bound to them, and the intents to enroll. What the use cases of
-- server/usecases/agent-identities.ts share.
pub mod Store
pub mod Enroll
pub mod Intents
pub mod Manage
pub mod Steps
pub mod Sound
pub mod Lasting
pub mod Runs
pub mod Replays
use realmroot.Prelude.{ℕ, String, Bool, true, false, Option, none, some, List, ◌+◌, ◌*◌, ◌==◌}
use realmroot.Errors.{Result, ok, err}
use realmroot.Errors.Exec.{Exec}

pub data IdentityStatus : Type 0 where
  active inactive : IdentityStatus

pub data BindingStatus : Type 0 where
  active revoked : BindingStatus

pub data IntentStatus : Type 0 where
  pending approved : IntentStatus

-- `status === 'active'`, `status === 'pending'`
abbrev pub is_active : IdentityStatus → Bool
is_active IdentityStatus.active = true
is_active IdentityStatus.inactive = false

abbrev pub is_bound : BindingStatus → Bool
is_bound BindingStatus.active = true
is_bound BindingStatus.revoked = false

abbrev pub is_pending : IntentStatus → Bool
is_pending IntentStatus.pending = true
is_pending IntentStatus.approved = false

abbrev pub is_approved : IntentStatus → Bool
is_approved IntentStatus.approved = true
is_approved IntentStatus.pending = false

pub record AgentIdentityRecord : Type 0 where
  pub id : String
  pub issuer : String
  pub subject : String
  pub username : Option String
  pub name : String
  pub runtime : Option String
  pub owner_user_id : String
  pub status : IdentityStatus
  pub deleted_at : Option ℕ
  pub created_at : ℕ
  pub updated_at : ℕ

-- A row of the table; the host comes from the agent, when it is read.
pub record AgentIdentityBinding : Type 0 where
  pub id : String
  pub agent_identity_id : String
  pub protocol_agent_id : String
  pub status : BindingStatus
  pub bound_at : ℕ
  pub revoked_at : Option ℕ
  pub created_at : ℕ
  pub updated_at : ℕ

pub record AgentIdentityBindingRecord : Type 0 where
  pub binding : AgentIdentityBinding
  pub host_id : String

pub record AgentIdentityAggregate : Type 0 where
  pub identity : AgentIdentityRecord
  pub bindings : List AgentIdentityBindingRecord

pub record AgentEnrollmentIntentRecord : Type 0 where
  pub id : String
  pub agent_identity_id : Option String
  pub requested_name : Option String
  pub requested_username : Option String
  pub requested_runtime : Option String
  pub owner_user_id : String
  pub protocol_agent_id : String
  pub idempotency_key : Option String
  pub status : IntentStatus
  pub created_by_user_id : String
  pub approved_by_user_id : Option String
  pub expires_at : ℕ
  pub approved_at : Option ℕ
  pub created_at : ℕ
  pub updated_at : ℕ

-- A row of the agent protocol's table, in the columns that are read or written here.
pub record AgentRecord : Type 0 where
  pub id : String
  pub user_id : Option String
  pub host_id : String
  pub status : String
  pub updated_at : ℕ

-- A row of the protocol's capability grants or of its approval requests
pub record AgentGrant : Type 0 where
  pub agent_id : String
  pub status : String
  pub updated_at : ℕ

-- A row of the audit log. Resources, connections and scopes are null in these rows.
pub record GovernanceEvent : Type 0 where
  pub id : String
  pub action : String
  pub owner_user_id : String
  pub controller_user_id : Option String
  pub subject_issuer : String
  pub subject : String
  pub agent_identity_id : String
  pub host_id : Option String
  pub metadata : List (String × Option String)
  pub occurred_at : ℕ

-- The tables, how many ids have been drawn, and the time in milliseconds, which one request reads once.
pub record AgentState : Type 0 where
  pub identities : List AgentIdentityRecord
  pub bindings : List AgentIdentityBinding
  pub intents : List AgentEnrollmentIntentRecord
  pub agents : List AgentRecord
  pub capability_grants : List AgentGrant
  pub approval_requests : List AgentGrant
  pub audit_events : List GovernanceEvent
  pub drawn : ℕ
  pub clock : ℕ

abbrev pub enrollment_lifetime_ms : ℕ
enrollment_lifetime_ms = 10 * 60 * 1000

-- `deps.ids.generate()`: the ids are a parameter.
unfoldable pub draw : (ℕ → String) → Exec AgentState String
draw generate s = (ok (generate s.drawn), record s { drawn = s.drawn + 1 })

unfoldable pub time : Exec AgentState ℕ
time s = (ok s.clock, s)

-- `if (value)` for a text that may be null
abbrev if_empty : Bool → String → Option String
if_empty true s = none
if_empty false s = some s

abbrev pub truthy : Option String → Option String
truthy none = none
truthy (some s) = if_empty (s == "") s
