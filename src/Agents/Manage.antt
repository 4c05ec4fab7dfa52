-- ===== src/Agents/Manage.antt =====
-- server/usecases/agent-identities.ts: what a controller or an operator does with an identity. The
-- use cases of external resources that are called here write other tables: they are a parameter.
use realmroot.Prelude.{ℕ, String, true, false, Option, none, some, List, [], ◌∷◌, find, ◌==◌}
use realmroot.Errors.{
  Result, ok, require, or_throw, ◌>>◌, ◌>>=◌, not_found_error, bad_request_error, forbidden_error,
}
use realmroot.Errors.Exec.{Exec, pure, lift, reads}
use realmroot.Agents.{
  is_active, AgentIdentityAggregate, AgentIdentityBindingRecord, AgentState, time,
}
use realmroot.Agents.Store.{find_active_by_protocol_agent}
use realmroot.Agents.Store.Writes.{
  revoke_binding, deactivate_identity, activate_identity, delete_identity,
}
use realmroot.Agents.Enroll.{
  ◌>>=!◌, ◌>>!◌, assert_controller, require_identity, append_identity_audit,
}

-- `revokeAgentResourceAccess` and `revokeAgentResourceLeasesForBinding` on tables `R` of their own
pub record ResourceRevocation (R : Type 0) : Type 0 where
  pub access : (agent_identity_id : String) → Exec R (Unit {0})
  pub leases_for_binding : (binding_id : String) → Exec R (Unit {0})

unfoldable pub require_controlled_identity :
    (id actor : String) → AgentState → Result AgentIdentityAggregate
unfolding require_identity assert_controller
require_controlled_identity id actor s = require_identity id s >>= λ identity.
    assert_controller identity.identity.owner_user_id actor >> ok identity

unfoldable pub require_active_agent_identity : String → AgentState → Result AgentIdentityAggregate
unfolding find_active_by_protocol_agent
require_active_agent_identity id s =
    or_throw (find_active_by_protocol_agent s id) (
      forbidden_error "Agent protocol identity is not bound to an active Realmroot Agent identity.")

abbrev pub emergency : List (String × Option String)
emergency = ("emergency", some "true") ∷ []

-- `deactivateAgentIdentity`, and `emergencyDeactivateAgentIdentity` with no controller to check
unfoldable pub deactivate_required :
    (ℕ → String)
    → String
    → Option String
    → List (String × Option String)
    → AgentIdentityAggregate
    → Exec AgentState (Unit {0})
unfolding deactivate_identity append_identity_audit time
deactivate_required generate id controller metadata identity = time >>=! λ now.
    deactivate_identity id now false >>=! λ done.
    lift (require done (not_found_error "Agent identity was not found."))
    >>! append_identity_audit generate "agent.identity_deactivated" identity controller metadata

unfoldable pub deactivate_agent_identity :
    (ℕ → String) → (id actor : String) → Exec AgentState (Unit {0})
unfolding require_controlled_identity deactivate_required
deactivate_agent_identity generate id actor =
    reads (require_controlled_identity id actor)
    >>=! deactivate_required generate id (some actor) []

unfoldable pub emergency_deactivate_agent_identity :
    (ℕ → String) → String → Option String → Exec AgentState (Unit {0})
unfolding require_identity deactivate_required
emergency_deactivate_agent_identity generate id actor =
    reads (require_identity id) >>=! deactivate_required generate id actor emergency

unfoldable pub activate_required :
    (ℕ → String)
    → String
    → Option String
    → List (String × Option String)
    → AgentIdentityAggregate
    → Exec AgentState (Unit {0})
unfolding activate_identity append_identity_audit time
activate_required generate id controller metadata identity =
    elim (is_active identity.identity.status) [
      | true ↦ pure tt
      | false ↦ time >>=! λ now. activate_identity id now >>=! λ done.
          lift (
            require done (
              bad_request_error
                "Agent identity requires a new installation before it can be activated."))
          >>! append_identity_audit generate "agent.identity_activated" identity controller metadata
    ]

unfoldable pub activate_agent_identity :
    (ℕ → String) → (id actor : String) → Exec AgentState (Unit {0})
unfolding require_controlled_identity activate_required
activate_agent_identity generate id actor =
    reads (require_controlled_identity id actor) >>=! activate_required generate id (some actor) []

unfoldable pub emergency_activate_agent_identity :
    (ℕ → String) → String → Option String → Exec AgentState (Unit {0})
unfolding require_identity activate_required
emergency_activate_agent_identity generate id actor =
    reads (require_identity id) >>=! activate_required generate id actor emergency

abbrev pub host_of : Option AgentIdentityBindingRecord → Option String
host_of none = none
host_of (some row) = some row.host_id

abbrev pub binding_of : String → AgentIdentityAggregate → Option AgentIdentityBindingRecord
binding_of id identity = find (λ row. row.binding.protocol_agent_id == id) identity.bindings

-- The write of each handler, and its test
unfoldable pub revoke_or_throw : (id protocol_agent_id : String) → Exec AgentState (Unit {0})
unfolding time revoke_binding
revoke_or_throw id protocol_agent_id = time >>=! λ now.
    revoke_binding id protocol_agent_id now >>=! λ done.
    lift (require done (not_found_error "Active Agent host binding was not found."))

unfoldable pub recover_or_throw : String → Exec AgentState (Unit {0})
unfolding time deactivate_identity
recover_or_throw id = time >>=! λ now. deactivate_identity id now true >>=! λ done.
    lift (require done (bad_request_error "Only an active Agent identity can be recovered."))

unfoldable pub delete_or_throw : String → Exec AgentState (Unit {0})
unfolding time delete_identity
delete_or_throw id = time >>=! λ now. delete_identity id now >>=! λ done.
    lift (require done (not_found_error "Agent identity was not found."))

module _ {R : Type 0} where
  -- a run on the identity tables, and one on the others
  abbrev pub within : {A : Type 0} → Exec AgentState A → Exec (AgentState × R) A
  within m x = ((m x.0).0, ((m x.0).1, x.1))

  abbrev pub beside : {A : Type 0} → Exec R A → Exec (AgentState × R) A
  beside m x = ((m x.1).0, (x.0, (m x.1).1))

  abbrev pub lease_revocation :
      ResourceRevocation R → Option AgentIdentityBindingRecord → Exec (AgentState × R) (Unit {0})
  lease_revocation resources none = pure tt
  lease_revocation resources (some row) = beside (resources.leases_for_binding row.binding.id)

  unfoldable pub revoke_agent_identity_host :
      ResourceRevocation R
      → (ℕ → String)
      → (id protocol_agent_id actor : String) → Exec (AgentState × R) (Unit {0})
  unfolding require_controlled_identity revoke_or_throw append_identity_audit
  revoke_agent_identity_host resources generate id protocol_agent_id actor =
      within (reads (require_controlled_identity id actor)) >>=! λ identity.
      within (revoke_or_throw id protocol_agent_id)
      >>! (lease_revocation resources (binding_of protocol_agent_id identity)
          >>! within (
              append_identity_audit generate "agent.host_revoked" identity (some actor) (
                ("protocolAgentId", some protocol_agent_id)
                ∷ ("hostId", host_of (binding_of protocol_agent_id identity))
                ∷ [])))

  unfoldable pub recover_agent_identity :
      ResourceRevocation R → (ℕ → String) → (id actor : String) → Exec (AgentState × R) (Unit {0})
  unfolding require_controlled_identity recover_or_throw append_identity_audit
  recover_agent_identity resources generate id actor =
      within (reads (require_controlled_identity id actor)) >>=! λ identity.
      lift (
        require (is_active identity.identity.status)
          (bad_request_error "Only an active Agent identity can be recovered."))
      >>! (within (recover_or_throw id)
          >>! (beside (resources.access id)
              >>! within (
                  append_identity_audit generate "agent.identity_recovered" identity (some actor)
                    [])))

  unfoldable pub delete_required :
      ResourceRevocation R
      → (ℕ → String)
      → String
      → Option String
      → List (String × Option String)
      → AgentIdentityAggregate
      → Exec (AgentState × R) (Unit {0})
  unfolding delete_or_throw append_identity_audit
  delete_required resources generate id controller metadata identity =
      within (delete_or_throw id)
      >>! (beside (resources.access id)
          >>! within (
              append_identity_audit generate "agent.identity_deleted" identity controller metadata))

  unfoldable pub delete_agent_identity :
      ResourceRevocation R → (ℕ → String) → (id actor : String) → Exec (AgentState × R) (Unit {0})
  unfolding require_controlled_identity delete_required
  delete_agent_identity resources generate id actor =
      within (reads (require_controlled_identity id actor))
      >>=! delete_required resources generate id (some actor) []

  unfoldable pub emergency_delete_agent_identity :
      ResourceRevocation R
      → (ℕ → String)
      → String
      → Option String
      → Exec (AgentState × R) (Unit {0})
  unfolding require_identity delete_required
  emergency_delete_agent_identity resources generate id actor =
      within (reads (require_identity id))
      >>=! delete_required resources generate id actor emergency
