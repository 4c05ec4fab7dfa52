-- ===== src/Agents/Steps.antt =====
-- What may happen to the tables of agent identities, as a relation. Each batch of statements is one
-- step, so that concurrent requests interleave step by step; the agent protocol registers agents.
use realmroot.Prelude.{
  Reaches, ℕ, String, Bool, true, false, ◌&&◌, none, List, [], ◌∷◌, ◌++◌, map, any, all, holds,
  ◌==◌, ◌≡◌, no_clash,
}
use realmroot.Agents.{AgentIdentityRecord, AgentIdentityBinding, AgentRecord, AgentState}
use realmroot.Agents.Store.{is_taken_by, is_bound_by, has_agent_id}
use realmroot.Agents.Store.Writes.{
  claim_row, revoke_row, revoke_agent, deactivate_row, activate_row, delete_row,
}

-- The protocol agent `id` is registered for the user.
abbrev pub is_agent_of : (user id : String) → AgentRecord → Bool
is_agent_of user id agent = agent.id == id && holds agent.user_id user

-- The identity that a binding names has the user of its protocol agent as its owner.
abbrev pub is_owned :
    List AgentRecord → (identity_id protocol_agent_id : String) → AgentIdentityRecord → Bool
is_owned agents identity_id protocol_agent_id identity =
    identity.id == identity_id && any (is_agent_of identity.owner_user_id protocol_agent_id) agents

abbrev pub is_owned_binding :
    List AgentRecord → List AgentIdentityRecord → AgentIdentityBinding → Bool
is_owned_binding agents identities row =
    any (is_owned agents row.agent_identity_id row.protocol_agent_id) identities

pub data Step (s s' : AgentState) : Type 0 where
  registered :
      (agent : AgentRecord)
      → any (has_agent_id agent.id) s.agents ≡ false
      → s'.identities ≡ s.identities
      → s'.bindings ≡ s.bindings
      → s'.agents ≡ s.agents ++ agent ∷ []
      → Step s s'
  enrolled :
      (identity : AgentIdentityRecord) (binding : AgentIdentityBinding)
      → identity.deleted_at ≡ none
      → any (is_taken_by identity) s.identities ≡ false
      → any (is_bound_by binding) s.bindings ≡ false
      → is_owned s.agents binding.agent_identity_id binding.protocol_agent_id identity ≡ true
      → s'.identities ≡ s.identities ++ identity ∷ []
      → s'.bindings ≡ s.bindings ++ binding ∷ []
      → s'.agents ≡ s.agents
      → Step s s'
  installed :
      (binding : AgentIdentityBinding)
      → any (is_bound_by binding) s.bindings ≡ false
      → is_owned_binding s.agents s.identities binding ≡ true
      → s'.identities ≡ s.identities
      → s'.bindings ≡ s.bindings ++ binding ∷ []
      → s'.agents ≡ s.agents
      → Step s s'
  claimed :
      (id username name runtime : String) (now : ℕ)
      → any (λ row. holds row.username username) s.identities ≡ false
      → s'.identities ≡ map (claim_row id username name runtime now) s.identities
      → s'.bindings ≡ s.bindings
      → s'.agents ≡ s.agents
      → Step s s'
  revoked :
      (id : String) (ids : List String) (now : ℕ)
      → s'.identities ≡ s.identities
      → s'.bindings ≡ map (revoke_row id now) s.bindings
      → s'.agents ≡ map (revoke_agent ids now) s.agents
      → Step s s'
  deactivated :
      (id : String) (now : ℕ)
      → s'.identities ≡ map (deactivate_row id now) s.identities
      → s'.bindings ≡ s.bindings
      → s'.agents ≡ s.agents
      → Step s s'
  recovered :
      (id : String) (ids : List String) (now : ℕ)
      → s'.identities ≡ map (deactivate_row id now) s.identities
      → s'.bindings ≡ map (revoke_row id now) s.bindings
      → s'.agents ≡ map (revoke_agent ids now) s.agents
      → Step s s'
  activated :
      (id : String) (now : ℕ)
      → s'.identities ≡ map (activate_row id now) s.identities
      → s'.bindings ≡ s.bindings
      → s'.agents ≡ s.agents
      → Step s s'
  deleted :
      (id : String) (ids : List String) (now : ℕ)
      → s'.identities ≡ map (delete_row id now) s.identities
      → s'.bindings ≡ map (revoke_row id now) s.bindings
      → s'.agents ≡ map (revoke_agent ids now) s.agents
      → Step s s'
  unchanged :
      s'.identities ≡ s.identities → s'.bindings ≡ s.bindings → s'.agents ≡ s.agents → Step s s'

abbrev pub Reach : AgentState → AgentState → Type 0
Reach = Reaches Step

-- Ids, subjects of an issuer and usernames are those of one identity each, deleted ones included; an id
-- and a protocol agent are of one binding each; the owner of an identity is the user of its agents.
pub record IsSound (s : AgentState) : Type 0 where
  pub named_once : no_clash is_taken_by s.identities ≡ true
  pub bound_once : no_clash is_bound_by s.bindings ≡ true
  pub owned : all (is_owned_binding s.agents s.identities) s.bindings ≡ true
