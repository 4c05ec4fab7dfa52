-- ===== src/Agents/Runs/Requests.antt =====
-- Every request on agent identities, as steps on the tables.
use realmroot.Prelude.{
  Reaches, Reaches-trans, ℕ, String, true, false, Option, none, some, List, [], ◌∷◌, ◌≡◌, refl,
  Bool-cases, inl, inr,
}
use realmroot.Errors.{ok, require, bad_request_error, not_found_error}
use realmroot.Errors.Exec.{Exec, lift, reads}
use realmroot.Errors.Exec.Laws.{along, >>=-along}
use realmroot.Agents.{AgentIdentityAggregate, AgentIdentityBindingRecord, AgentState, is_active}
use realmroot.Agents.Store.Writes.{
  deactivate_identity, activate_identity, revoke_binding, delete_identity,
}
use realmroot.Agents.Enroll.{
  ◌>>=!◌, ◌>>!◌, ProfileInput, create_agent_login_identity, approve_agent_enrollment,
  require_identity, append_identity_audit,
}
use realmroot.Agents.Intents.{
  create_agent_enrollment_intent, create_additional_agent_enrollment_intent,
}
use realmroot.Agents.Manage.{
  ResourceRevocation, within, beside, revoke_or_throw, recover_or_throw, delete_or_throw,
  require_controlled_identity, revoke_agent_identity_host, recover_agent_identity,
  delete_agent_identity, emergency_delete_agent_identity, deactivate_agent_identity,
  emergency_deactivate_agent_identity, activate_agent_identity, emergency_activate_agent_identity,
  lease_revocation, binding_of, host_of, emergency, delete_required, deactivate_required,
  activate_required,
}
use realmroot.Agents.Steps.{Reach}
use realmroot.Agents.Runs.{
  still, deactivate_identity-Reach, activate_identity-Reach, revoke_binding-Reach,
  delete_identity-Reach,
}
use realmroot.Agents.Runs.Enrollments.{enroll-Reach, add_installation-Reach}
use realmroot.Agents.Runs.Handlers.{login-Reach, approval-Reach}

-- The requests, each with its input and who asks
pub data Request : Type 0 where
  login : ProfileInput → (issuer controller : String) → Request
  enroll : ProfileInput → (actor key : String) → Request
  add_installation : (identity_id protocol_agent_id actor key : String) → Request
  approve : (intent_id issuer actor : String) → Request
  revoke_host : (identity_id protocol_agent_id actor : String) → Request
  recover deactivate activate delete : (identity_id actor : String) → Request
  emergency_deactivate emergency_activate emergency_delete :
      (identity_id : String) → (actor : Option String) → Request

module _ {R : Type 0} (resources : ResourceRevocation R) (generate : ℕ → String) where
  -- The tables when the handler has ended, with an answer or with an error
  unfoldable pub after : Request → AgentState × R → AgentState × R
  after (login input issuer controller) x =
      (within (create_agent_login_identity generate input issuer controller) x).1
  after (enroll input actor key) x =
      (within (create_agent_enrollment_intent generate input actor key) x).1
  after (add_installation id p actor key) x =
      (within (create_additional_agent_enrollment_intent generate id p actor key) x).1
  after (approve intent_id issuer actor) x =
      (within (approve_agent_enrollment generate intent_id issuer actor) x).1
  after (revoke_host id p actor) x = (revoke_agent_identity_host resources generate id p actor x).1
  after (recover id actor) x = (recover_agent_identity resources generate id actor x).1
  after (deactivate id actor) x = (within (deactivate_agent_identity generate id actor) x).1
  after (activate id actor) x = (within (activate_agent_identity generate id actor) x).1
  after (delete id actor) x = (delete_agent_identity resources generate id actor x).1
  after (emergency_deactivate id actor) x =
      (within (emergency_deactivate_agent_identity generate id actor) x).1
  after (emergency_activate id actor) x =
      (within (emergency_activate_agent_identity generate id actor) x).1
  after (emergency_delete id actor) x =
      (emergency_delete_agent_identity resources generate id actor x).1

  beside-along :
      {A B : Type 0} (m : Exec (AgentState × R) A) (f : A → Exec (AgentState × R) B)
      (x : AgentState × R)
      → Reach x.0 (m x).1.0
      → ((a : A) → (m x).0 ≡ ok a → Reach (m x).1.0 (f a (m x).1).1.0)
      → Reach x.0 ((m >>=! f) x).1.0
  beside-along m f x h k =
      >>=-along (λ y z. Reach y.0 z.0) (λ y z w. Reaches-trans y.0 z.0 w.0) m f x h k

module _ (generate : ℕ → String) where
  module _ (id : String) (controller : Option String) (metadata : List (String × Option String))
      (identity : AgentIdentityAggregate) (s : AgentState) where
    deactivated-Reach : Reach s (deactivate_required generate id controller metadata identity s).1
    unfolding deactivate_required
    deactivated-Reach =
        let t = (deactivate_identity id s.clock false s).1 in
        along (deactivate_identity id s.clock false) _ s
          (deactivate_identity-Reach id s.clock s false)
          (λ done h.
            along (lift (require done (not_found_error "Agent identity was not found."))) _ t
              Reaches.here (λ a k. still t _ refl refl refl))

    activated-Reach : Reach s (activate_required generate id controller metadata identity s).1
    unfolding activate_required
    activated-Reach = elim (Bool-cases (is_active identity.identity.status)) [
      | inl e ↦ rw (e, activate_required) Reaches.here
      | inr e ↦
          let t = (activate_identity id s.clock s).1 in
          rw (e, activate_required)
            (along (activate_identity id s.clock) _ s (activate_identity-Reach id s.clock s)
              (λ done h.
                along
                  (lift (
                    require done (
                      bad_request_error
                        "Agent identity requires a new installation before it can be activated.")))
                  _ t Reaches.here (λ a k. still t _ refl refl refl)))
    ]

module _ {R : Type 0} (resources : ResourceRevocation R) (generate : ℕ → String) where
  revoked-Reach :
      (row : Option AgentIdentityBindingRecord) (audit : Exec AgentState (Unit {0}))
      (x : AgentState × R)
      → Reach x.0 (audit x.0).1
      → Reach x.0 ((lease_revocation resources row >>! within audit) x).1.0
  revoked-Reach none audit x r = r
  revoked-Reach (some row) audit x r =
      beside-along resources generate (beside (resources.leases_for_binding row.binding.id)) _ x
        Reaches.here (λ a h. r)

  accessed-Reach :
      (id : String) (audit : Exec AgentState (Unit {0})) (x : AgentState × R)
      → Reach x.0 (audit x.0).1
      → Reach x.0 ((beside (resources.access id) >>! within audit) x).1.0
  accessed-Reach id audit x r =
      beside-along resources generate (beside (resources.access id)) _ x Reaches.here (λ a h. r)

  revoke_or_throw-Reach : (id p : String) (s : AgentState) → Reach s (revoke_or_throw id p s).1
  unfolding revoke_or_throw
  revoke_or_throw-Reach id p s =
      along (revoke_binding id p s.clock) _ s (revoke_binding-Reach id p s.clock s)
        (λ done h. Reaches.here)

  recover_or_throw-Reach : (id : String) (s : AgentState) → Reach s (recover_or_throw id s).1
  unfolding recover_or_throw
  recover_or_throw-Reach id s =
      along (deactivate_identity id s.clock true) _ s (deactivate_identity-Reach id s.clock s true)
        (λ done h. Reaches.here)

  delete_or_throw-Reach : (id : String) (s : AgentState) → Reach s (delete_or_throw id s).1
  unfolding delete_or_throw
  delete_or_throw-Reach id s =
      along (delete_identity id s.clock) _ s (delete_identity-Reach id s.clock s)
        (λ done h. Reaches.here)

  audit-Reach :
      (action : String) (identity : AgentIdentityAggregate) (controller : Option String)
      (metadata : List (String × Option String)) (s : AgentState)
      → Reach s (append_identity_audit generate action identity controller metadata s).1
  unfolding append_identity_audit
  audit-Reach action identity controller metadata s = still s _ refl refl refl

  deleted-Reach :
      (id : String) (controller : Option String) (metadata : List (String × Option String))
      (identity : AgentIdentityAggregate) (x : AgentState × R)
      → Reach x.0 (delete_required resources generate id controller metadata identity x).1.0
  unfolding delete_required
  deleted-Reach id controller metadata identity x =
      beside-along resources generate (within (delete_or_throw id)) _ x
        (delete_or_throw-Reach id x.0)
        (λ a h.
          accessed-Reach id _ ((delete_or_throw id x.0).1, x.1)
            (audit-Reach "agent.identity_deleted" identity controller metadata
              (delete_or_throw id x.0).1))

  -- Every request on agent identities, with whatever input and however it ends, takes the tables along
  -- steps of the step relation only.
  pub request-Reach :
      (r : Request) (x : AgentState × R) → Reach x.0 (after resources generate r x).0
  unfolding after revoke_agent_identity_host recover_agent_identity deactivate_agent_identity
      activate_agent_identity delete_agent_identity emergency_deactivate_agent_identity
      emergency_activate_agent_identity emergency_delete_agent_identity
  request-Reach (login input issuer controller) x = login-Reach generate input issuer controller x.0
  request-Reach (enroll input actor key) x = enroll-Reach generate input actor key x.0
  request-Reach (add_installation id p actor key) x =
      add_installation-Reach generate id p actor key x.0
  request-Reach (approve intent_id issuer actor) x =
      approval-Reach generate intent_id issuer actor x.0
  request-Reach (revoke_host id p actor) x =
      beside-along resources generate (within (reads (require_controlled_identity id actor))) _ x
        Reaches.here
        (λ identity h.
          beside-along resources generate (within (revoke_or_throw id p)) _ x
            (revoke_or_throw-Reach id p x.0)
            (λ a k.
              let row = binding_of p identity in
              revoked-Reach row _ ((revoke_or_throw id p x.0).1, x.1)
                (audit-Reach "agent.host_revoked" identity (some actor)
                  (("protocolAgentId", some p) ∷ ("hostId", host_of row) ∷ [])
                  (revoke_or_throw id p x.0).1)))
  request-Reach (recover id actor) x =
      beside-along resources generate (within (reads (require_controlled_identity id actor))) _ x
        Reaches.here
        (λ identity h.
          beside-along resources generate
            (lift (
              require (is_active identity.identity.status)
                (bad_request_error "Only an active Agent identity can be recovered.")))
            _ x Reaches.here
            (λ b l.
              beside-along resources generate (within (recover_or_throw id)) _ x
                (recover_or_throw-Reach id x.0)
                (λ a k.
                  accessed-Reach id _ ((recover_or_throw id x.0).1, x.1)
                    (audit-Reach "agent.identity_recovered" identity (some actor) []
                      (recover_or_throw id x.0).1))))
  request-Reach (deactivate id actor) x =
      along (reads (require_controlled_identity id actor)) _ x.0 Reaches.here
        (λ identity h. deactivated-Reach generate id (some actor) [] identity x.0)
  request-Reach (activate id actor) x =
      along (reads (require_controlled_identity id actor)) _ x.0 Reaches.here
        (λ identity h. activated-Reach generate id (some actor) [] identity x.0)
  request-Reach (delete id actor) x =
      beside-along resources generate (within (reads (require_controlled_identity id actor))) _ x
        Reaches.here (λ identity h. deleted-Reach id (some actor) [] identity x)
  request-Reach (emergency_deactivate id actor) x =
      along (reads (require_identity id)) _ x.0 Reaches.here
        (λ identity h. deactivated-Reach generate id actor emergency identity x.0)
  request-Reach (emergency_activate id actor) x =
      along (reads (require_identity id)) _ x.0 Reaches.here
        (λ identity h. activated-Reach generate id actor emergency identity x.0)
  request-Reach (emergency_delete id actor) x =
      beside-along resources generate (within (reads (require_identity id))) _ x Reaches.here
        (λ identity h. deleted-Reach id actor emergency identity x)
