-- ===== src/Agents/Runs/Enrollments.antt =====
-- The handlers that reserve or replay an enrollment intent, as steps on the tables.
use realmroot.Prelude.{
  Reaches, Reaches-trans, ℕ, String, Option, none, some, ◌+◌, refl, inl, inr, Option-cases,
}
use realmroot.Errors.{or_throw, conflict_error}
use realmroot.Errors.Exec.Laws.{along}
use realmroot.Errors.Exec.{lift, reads}
use realmroot.Agents.{
  IntentStatus, AgentIdentityAggregate, AgentEnrollmentIntentRecord, AgentState, truthy,
}
use realmroot.Agents.Store.{
  find_intent_by_idempotency_key, find_active_by_protocol_agent,
  find_latest_approved_identity_intent,
}
use realmroot.Agents.Store.Writes.{create_intent_idempotently}
use realmroot.Agents.Enroll.{
  ProfileInput, assert_controller, assert_protocol_agent_can_enroll,
  require_available_agent_username, require_or_claim_identity_profile, require_identity,
}
use realmroot.Agents.Intents.{
  create_agent_enrollment_intent, create_additional_agent_enrollment_intent, replay_existing,
  replay_bound, reserve_identity_intent, reserve_installation_intent, intent_record, profile_of,
  replay_or_migrate, with_profile, approved_profile, require_matching_identity_enrollment,
  require_matching_installation_enrollment,
}
use realmroot.Agents.Steps.{Reach}
use realmroot.Agents.Runs.{still, create_intent-Reach}
use realmroot.Agents.Runs.Handlers.{require_or_claim-Reach}

module _ (generate : ℕ → String) where
  reserve_identity-Reach :
      (input : ProfileInput) (actor key : String) (s : AgentState)
      → Reach s (reserve_identity_intent generate input actor key s).1
  unfolding reserve_identity_intent
  reserve_identity-Reach input actor key s =
      along (lift (assert_controller actor actor)) _ s Reaches.here (λ a h.
        along (reads (assert_protocol_agent_can_enroll input.protocol_agent_id actor)) _ s
          Reaches.here
          (λ b k.
            along (reads (require_available_agent_username input.username)) _ s Reaches.here (λ c l.
              let t = record s { drawn = s.drawn + 1 } in
              let intent =
                intent_record (generate s.drawn) none (profile_of input) actor
                  input.protocol_agent_id key IntentStatus.pending actor none none s.clock in
              Reaches-trans s t _ (still s t refl refl refl) (
                along (create_intent_idempotently key intent) _ t (create_intent-Reach key intent t)
                  (λ reserved m.
                    along
                      (lift (
                        require_matching_identity_enrollment reserved.0 (profile_of input) actor
                          actor))
                      _ (create_intent_idempotently key intent t).1 Reaches.here
                      (λ d n. Reaches.here))))))

  reserve_installation-Reach :
      (id p actor key : String) (s : AgentState)
      → Reach s (reserve_installation_intent generate id p actor key s).1
  unfolding reserve_installation_intent
  reserve_installation-Reach id p actor key s =
      along (reads (require_identity id)) _ s Reaches.here (λ found h.
        along (lift (assert_controller found.identity.owner_user_id actor)) _ s Reaches.here (λ a k.
          along (reads (assert_protocol_agent_can_enroll p actor)) _ s Reaches.here (λ b l.
            let t = record s { drawn = s.drawn + 1 } in
            let intent =
              intent_record (generate s.drawn) (some id)
                (record { username = none; nickname = none; runtime = none })
                found.identity.owner_user_id p key IntentStatus.pending actor none none s.clock in
            Reaches-trans s t _ (still s t refl refl refl) (
              along (create_intent_idempotently key intent) _ t (create_intent-Reach key intent t)
                (λ reserved m.
                  along (lift (require_matching_installation_enrollment reserved.0 id actor)) _
                    (create_intent_idempotently key intent t).1 Reaches.here
                    (λ d n. Reaches.here))))))

  replay_existing-Reach :
      (existing : AgentEnrollmentIntentRecord) (input : ProfileInput) (actor : String)
      (s : AgentState)
      → Reach s (replay_existing existing input actor s).1
  unfolding replay_existing
  replay_existing-Reach existing input actor s =
      elim (Option-cases (truthy existing.requested_username)) [
        | inr (username, e) ↦
            rw (e, replay_existing)
              (along
                (lift
                  (require_matching_identity_enrollment existing (profile_of input) actor actor))
                _ s Reaches.here (λ a h. Reaches.here))
        | inl e ↦
            rw (e, replay_existing)
              (along
                (lift (
                  require_matching_identity_enrollment (with_profile existing (profile_of input))
                    (profile_of input) actor actor))
                _ s Reaches.here
                (λ a h.
                  along
                    (reads (λ t.
                      or_throw (find_active_by_protocol_agent t input.protocol_agent_id) (
                        conflict_error
                          "The existing Agent enrollment cannot claim a username without its identity.")))
                    _ s Reaches.here
                    (λ bound k.
                      along (require_or_claim_identity_profile bound input) _ s
                        (require_or_claim-Reach bound input s) (λ b l. Reaches.here))))
      ]

  replay_or_migrate-Reach :
      (bound profiled : AgentIdentityAggregate) (input : ProfileInput) (actor key : String)
      (found : Option AgentEnrollmentIntentRecord) (s : AgentState)
      → Reach s (replay_or_migrate generate bound profiled input actor key found s).1
  unfolding replay_or_migrate
  replay_or_migrate-Reach bound profiled input actor key (some approved) s =
      along
        (lift (
          require_matching_identity_enrollment approved
            (approved_profile approved (profile_of input)) bound.identity.owner_user_id actor))
        _ s Reaches.here (λ a h. Reaches.here)
  replay_or_migrate-Reach bound profiled input actor key none s =
      let t = record s { drawn = s.drawn + 1 } in
      let intent =
        intent_record (generate s.drawn) none
          (record {
            username = profiled.identity.username;
            nickname = some profiled.identity.name;
            runtime = profiled.identity.runtime;
          })
          bound.identity.owner_user_id input.protocol_agent_id key IntentStatus.approved actor
          (some actor) (some s.clock) s.clock in
      Reaches-trans s t _ (still s t refl refl refl) (
        along (create_intent_idempotently key intent) _ t (create_intent-Reach key intent t)
          (λ migrated m.
            along
              (lift (
                require_matching_identity_enrollment migrated.0 (profile_of input)
                  bound.identity.owner_user_id actor))
              _ (create_intent_idempotently key intent t).1 Reaches.here (λ d n. Reaches.here)))

  replay_bound-Reach :
      (bound : AgentIdentityAggregate) (input : ProfileInput) (actor key : String) (s : AgentState)
      → Reach s (replay_bound generate bound input actor key s).1
  unfolding replay_bound
  replay_bound-Reach bound input actor key s =
      along (require_or_claim_identity_profile bound input) _ s
        (require_or_claim-Reach bound input s)
        (λ profiled h.
          let t = (require_or_claim_identity_profile bound input s).1 in
          along (lift (assert_controller bound.identity.owner_user_id actor)) _ t Reaches.here
            (λ a k.
              replay_or_migrate-Reach bound profiled input actor key
                (find_latest_approved_identity_intent t input.protocol_agent_id) t))

  pub enroll-Reach :
      (input : ProfileInput) (actor key : String) (s : AgentState)
      → Reach s (create_agent_enrollment_intent generate input actor key s).1
  unfolding create_agent_enrollment_intent
  enroll-Reach input actor key s =
      elim (Option-cases (find_intent_by_idempotency_key s input.protocol_agent_id key)) [
        | inr (existing, e) ↦
            rw (e, create_agent_enrollment_intent) (replay_existing-Reach existing input actor s)
        | inl e ↦ elim (Option-cases (find_active_by_protocol_agent s input.protocol_agent_id)) [
          | inr (bound, e') ↦
              rw (e, create_agent_enrollment_intent, e')
                (replay_bound-Reach bound input actor key s)
          | inl e' ↦
              rw (e, create_agent_enrollment_intent, e') (reserve_identity-Reach input actor key s)
        ]
      ]

  pub add_installation-Reach :
      (id p actor key : String) (s : AgentState)
      → Reach s (create_additional_agent_enrollment_intent generate id p actor key s).1
  unfolding create_additional_agent_enrollment_intent
  add_installation-Reach id p actor key s =
      elim (Option-cases (find_intent_by_idempotency_key s p key)) [
        | inr (existing, e) ↦
            rw (e, create_additional_agent_enrollment_intent)
              (along (lift (require_matching_installation_enrollment existing id actor)) _ s
                Reaches.here (λ a h. Reaches.here))
        | inl e ↦
            rw (e, create_additional_agent_enrollment_intent)
              (reserve_installation-Reach id p actor key s)
      ]
