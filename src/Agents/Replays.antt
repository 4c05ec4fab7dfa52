-- ===== src/Agents/Replays.antt =====
-- `createAgentEnrollmentIntent`, sent again with the same idempotency key.
use realmroot.Prelude.{
  ℕ, String, Bool, true, false, not, ◌&&◌, Option, none, some, List, [], ◌∷◌, ◌++◌, any, find, ◌==◌,
  ◌≡◌, refl, arith, eq_refl, sym, ◌∙◌, ap, Bool-cases, inl, inr, subst, ◌+◌,
}
use realmroot.Errors.{Failure, ok, or_throw}
use realmroot.Errors.Laws.{ok-injective}
use realmroot.Errors.Exec.{lift, reads}
use realmroot.Errors.Exec.Laws.{>>=-eq-ok}
use realmroot.Agents.{IntentStatus, AgentEnrollmentIntentRecord, AgentState, truthy}
use realmroot.Agents.Store.{
  find_intent_by_idempotency_key, find_active_by_protocol_agent, has_key, has_agent_id,
}
use realmroot.Agents.Store.Writes.{
  create_intent_idempotently, is_checked, is_intent_taken, identity_exists, replayed,
}
use realmroot.Agents.Enroll.{
  ProfileInput, assert_controller, assert_protocol_agent_can_enroll,
  require_available_agent_username,
}
use realmroot.Agents.Intents.{
  create_agent_enrollment_intent, reserve_identity_intent, replay_existing, intent_record,
  profile_of, require_matching_identity_enrollment, Replayed, to_replayed,
}

-- A key that no row has: the row that is written is the one that is found.
find-snoc :
    (p : AgentEnrollmentIntentRecord → Bool) (xs : List AgentEnrollmentIntentRecord)
    (x : AgentEnrollmentIntentRecord)
    → find p xs ≡ none
    → p x ≡ true
    → find p (xs ++ x ∷ []) ≡ some x
find-snoc p [] x h k = rw k refl
find-snoc p (y ∷ ys) x h k = ground (arith, find-snoc p ys x)

was_there :
    (o : Option AgentEnrollmentIntentRecord) (e : Failure) (r : Replayed)
    → or_throw (replayed o) e ≡ ok r
    → r.1 ≡ false
was_there none e r h = cc
was_there (some row) e r h = sym (ap (λ x. x.1) (ok-injective h))

created :
    (key : String) (intent : AgentEnrollmentIntentRecord) (s : AgentState) (reserved : Replayed)
    → (create_intent_idempotently key intent s).0 ≡ ok reserved
    → reserved.1 ≡ true
    → (reserved.0 ≡ intent)
      × ((create_intent_idempotently key intent s).1.intents ≡ s.intents ++ intent ∷ [])
unfolding create_intent_idempotently
created key intent s reserved h c = elim (Bool-cases (not (is_checked intent))) [
  | inl bad ↦ absurd (ground (arith, bad))
  | inr good ↦ elim (Bool-cases (any (is_intent_taken key intent) s.intents)) [
    | inl taken ↦ absurd (cc (was_there _ _ reserved (rw (good, taken) at h)))
    | inr free ↦
        elim (Bool-cases (
          identity_exists s.identities intent.agent_identity_id
          && any (has_agent_id intent.protocol_agent_id) s.agents)) [
            | inl named ↦
                let e : ok (intent, true) ≡ ok reserved = rw (good, free, named) at h in
                (sym (ap (λ r. r.0) (ok-injective e)), rw (good, free, named) refl)
            | inr unnamed ↦ absurd (ground (arith, good, free, unnamed))
          ]
  ]
]

new_intent :
    (ℕ → String) → ProfileInput → (actor key : String) → AgentState → AgentEnrollmentIntentRecord
new_intent generate input actor key s =
    intent_record (generate s.drawn) none (profile_of input) actor input.protocol_agent_id key
      IntentStatus.pending actor none none s.clock

not_true : (b : Bool) → to_replayed b ≡ false → b ≡ true
not_true true h = refl
not_true false h = cc

new_intent-username :
    (generate : ℕ → String) (input : ProfileInput) (actor key : String) (s : AgentState)
    → (input.username == "") ≡ false
    → truthy (new_intent generate input actor key s).requested_username ≡ some input.username
unfolding new_intent
new_intent-username generate input actor key s named = rw named refl

new_intent-has_key :
    (generate : ℕ → String) (input : ProfileInput) (actor key : String) (s : AgentState)
    → has_key input.protocol_agent_id key (new_intent generate input actor key s) ≡ true
unfolding new_intent
new_intent-has_key generate input actor key s =
    rw (eq_refl input.protocol_agent_id, eq_refl key) refl

-- What an enrollment that made an intent has written
reserved_lem :
    (generate : ℕ → String) (input : ProfileInput) (actor key : String) (s : AgentState)
    (intent : AgentEnrollmentIntentRecord)
    → (reserve_identity_intent generate input actor key s).0 ≡ ok (intent, false)
    → (intent ≡ new_intent generate input actor key s)
      × ((reserve_identity_intent generate input actor key s).1.intents ≡ s.intents ++ intent ∷ [])
      × (require_matching_identity_enrollment intent (profile_of input) actor actor ≡ ok tt)
unfolding reserve_identity_intent new_intent
reserved_lem generate input actor key s intent h =
    let t = record s { drawn = s.drawn + 1 } in
    let rec = new_intent generate input actor key s in
    let (a, ha, e1) = >>=-eq-ok (lift (assert_controller actor actor)) _ s h in
    let h1 = ap (λ r. r.0) (sym e1) ∙ h in
    let (b, hb, e2) =
      >>=-eq-ok (reads (assert_protocol_agent_can_enroll input.protocol_agent_id actor)) _ s h1 in
    let h2 = ap (λ r. r.0) (sym e2) ∙ h1 in
    let (c, hc, e3) = >>=-eq-ok (reads (require_available_agent_username input.username)) _ s h2 in
    let h3 = ap (λ r. r.0) (sym e3) ∙ h2 in
    let (reserved, hd, e4) = >>=-eq-ok (create_intent_idempotently key rec) _ t h3 in
    let h4 = ap (λ r. r.0) (sym e4) ∙ h3 in
    let u = (create_intent_idempotently key rec t).1 in
    let (d, he, e5) =
      >>=-eq-ok
        (lift (require_matching_identity_enrollment reserved.0 (profile_of input) actor actor)) _ u
        h4 in
    let h5 : ok (reserved.0, to_replayed reserved.1) ≡ ok (intent, false) =
      ap (λ r. r.0) (sym e5) ∙ h4 in
    let same : reserved.0 ≡ intent = ap (λ r. r.0) (ok-injective h5) in
    let (made, rows) =
      created key rec t reserved hd (not_true reserved.1 (ap (λ r. r.1) (ok-injective h5))) in
    (
      sym same ∙ made,
      ap (λ r. r.1.intents) (e1 ∙ (e2 ∙ (e3 ∙ (e4 ∙ e5))))
          ∙ (rows ∙ ap (λ x. s.intents ++ x ∷ []) (sym made ∙ same)),
      subst (λ x. require_matching_identity_enrollment x (profile_of input) actor actor ≡ ok tt)
          same he,
    )

create_agent_enrollment_intent-new :
    (generate : ℕ → String) (input : ProfileInput) (actor key : String) (s : AgentState)
    → find_intent_by_idempotency_key s input.protocol_agent_id key ≡ none
    → find_active_by_protocol_agent s input.protocol_agent_id ≡ none
    → create_agent_enrollment_intent generate input actor key s
      ≡ reserve_identity_intent generate input actor key s
unfolding create_agent_enrollment_intent reserve_identity_intent
create_agent_enrollment_intent-new generate input actor key s fresh unbound =
    rw (fresh, create_agent_enrollment_intent, unbound) refl

replay_found :
    (generate : ℕ → String) (input : ProfileInput) (actor key : String) (s t : AgentState)
    (intent : AgentEnrollmentIntentRecord)
    → find_intent_by_idempotency_key s input.protocol_agent_id key ≡ none
    → intent ≡ new_intent generate input actor key s
    → t.intents ≡ s.intents ++ intent ∷ []
    → find_intent_by_idempotency_key t input.protocol_agent_id key ≡ some intent
unfolding find_intent_by_idempotency_key
replay_found generate input actor key s t intent fresh made rows =
    ap (find (has_key input.protocol_agent_id key)) rows
    ∙ find-snoc (has_key input.protocol_agent_id key) s.intents intent fresh (
        subst (λ x. has_key input.protocol_agent_id key x ≡ true) (sym made)
          (new_intent-has_key generate input actor key s))

replay_existing-of_match :
    (generate : ℕ → String) (input : ProfileInput) (actor key : String) (t : AgentState)
    (intent : AgentEnrollmentIntentRecord)
    → find_intent_by_idempotency_key t input.protocol_agent_id key ≡ some intent
    → truthy intent.requested_username ≡ some input.username
    → require_matching_identity_enrollment intent (profile_of input) actor actor ≡ ok tt
    → create_agent_enrollment_intent generate input actor key t ≡ (ok (intent, true), t)
unfolding create_agent_enrollment_intent
replay_existing-of_match generate input actor key t intent found name matches =
    rw (found, create_agent_enrollment_intent) (rw (name, replay_existing) (rw matches refl))

-- An enrollment that made an intent, sent again with the same key, input and user, gives the same intent
-- as one that was there, and writes nothing.
pub enrollment_replayed :
    (generate generate' : ℕ → String) (input : ProfileInput) (actor key : String) (s : AgentState)
    (intent : AgentEnrollmentIntentRecord)
    → (input.username == "") ≡ false
    → find_intent_by_idempotency_key s input.protocol_agent_id key ≡ none
    → find_active_by_protocol_agent s input.protocol_agent_id ≡ none
    → (create_agent_enrollment_intent generate input actor key s).0 ≡ ok (intent, false)
    → create_agent_enrollment_intent generate' input actor key
        (create_agent_enrollment_intent generate input actor key s).1
      ≡ (ok (intent, true), (create_agent_enrollment_intent generate input actor key s).1)
enrollment_replayed generate generate' input actor key s intent named fresh unbound h =
    let first = create_agent_enrollment_intent-new generate input actor key s fresh unbound in
    let h' = ap (λ r. r.0) (sym first) ∙ h in
    let (made, rows, matches) = reserved_lem generate input actor key s intent h' in
    let t = (reserve_identity_intent generate input actor key s).1 in
    let found = replay_found generate input actor key s t intent fresh made rows in
    rw first (
      replay_existing-of_match generate' input actor key t intent found
        (ap (λ x. truthy x.requested_username) made
          ∙ new_intent-username generate input actor key s named)
        matches)
