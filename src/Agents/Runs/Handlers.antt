-- ===== src/Agents/Runs/Handlers.antt =====
-- Enrolling, as steps on the tables.
use realmroot.Prelude.{
  Reaches, Reaches-trans, ℕ, String, true, not, Option, none, some, List, [], ◌∷◌, any, find, ◌==◌,
  ◌≡◌, refl, arith, eq_iff, eq_refl, sym, ◌∙◌, Bool-cases, inl, inr, Option-cases, subst, and_true,
  get_or, leb, ◌+◌,
}
use realmroot.Errors.{ok, or_throw, require, not_found_error, bad_request_error, thrown}
use realmroot.Errors.Laws.{or_throw-ok, require-eq-ok, require-ok}
use realmroot.Errors.Exec.{Exec, lift, reads}
use realmroot.Errors.Exec.Laws.{along}
use realmroot.Agents.{
  AgentIdentityRecord, AgentIdentityAggregate, AgentEnrollmentIntentRecord, AgentRecord, AgentState,
  truthy, is_pending,
}
use realmroot.Agents.Store.{
  is_identity, has_agent_id, find_intent, find_identity, is_kept, find_active_by_protocol_agent,
}
use realmroot.Agents.Lasting.Resolved.{aggregate_of-some}
use realmroot.Agents.Store.Writes.{create_identity, claim_identity_profile}
use realmroot.Agents.Enroll.{
  ProfileInput, may_enroll, assert_protocol_agent_can_enroll, assert_controller,
  assert_same_home_space, require_identity, require_available_agent_username,
  require_or_claim_identity_profile, new_agent_identity_record, new_agent_identity_binding, audited,
  create_new_login_identity, create_agent_login_identity, approve_with, approve_agent_enrollment,
}
use realmroot.Agents.Steps.{Reach, is_owned, is_agent_of}
use realmroot.Agents.Runs.{
  still, create_identity-Reach, approve_intent-Reach, approve_installation-Reach,
  claim_identity_profile-Reach,
}

find_agent_of :
    (actor p : String) (xs : List AgentRecord)
    → may_enroll actor (find (has_agent_id p) xs) ≡ true
    → any (is_agent_of actor p) xs ≡ true
find_agent_of actor p [] h = cc
find_agent_of actor p (x ∷ xs) h = ground (arith, find_agent_of actor p xs)

can_enroll :
    (p actor : String) (s : AgentState)
    → assert_protocol_agent_can_enroll p actor s ≡ ok tt
    → any (is_agent_of actor p) s.agents ≡ true
unfolding assert_protocol_agent_can_enroll
can_enroll p actor s h =
    find_agent_of actor p s.agents
      (require-eq-ok (may_enroll actor (find (has_agent_id p) s.agents)) _ _ h).0

pub audited-Reach :
    (generate : ℕ → String) (controller : String) (write : Exec AgentState AgentIdentityAggregate)
    (s : AgentState)
    → Reach s (write s).1
    → Reach s (audited generate controller write s).1
unfolding audited
audited-Reach generate controller write s r =
    along write _ s r (λ aggregate e. still (write s).1 _ refl refl refl)

pub require_or_claim-Reach :
    (stored : AgentIdentityAggregate) (input : ProfileInput) (s : AgentState)
    → Reach s (require_or_claim_identity_profile stored input s).1
unfolding require_or_claim_identity_profile
require_or_claim-Reach stored input s = elim (Option-cases (truthy stored.identity.username)) [
  | inl e ↦
      rw (e, require_or_claim_identity_profile)
        (along (reads (require_available_agent_username input.username)) _ s Reaches.here (λ a h.
          along
            (claim_identity_profile stored.identity.id input.username
              (get_or input.nickname input.runtime) input.runtime s.clock)
            _ s
            (claim_identity_profile-Reach stored.identity.id input.username
              (get_or input.nickname input.runtime) input.runtime s.clock s)
            (λ claimed k. Reaches.here)))
  | inr (username, e) ↦ elim (Bool-cases (username == input.username)) [
    | inl same ↦ rw (e, require_or_claim_identity_profile, same) Reaches.here
    | inr other ↦ rw (e, require_or_claim_identity_profile, other) Reaches.here
  ]
]

create_new-Reach :
    (generate : ℕ → String) (input : ProfileInput) (issuer controller : String) (s : AgentState)
    → Reach s (create_new_login_identity generate input issuer controller s).1
unfolding create_new_login_identity
create_new-Reach generate input issuer controller s =
    along (reads (assert_protocol_agent_can_enroll input.protocol_agent_id controller)) _ s
      Reaches.here
      (λ a enrolls.
        along (reads (require_available_agent_username input.username)) _ s Reaches.here (λ b free.
          let t = record s { drawn = s.drawn + 1 + 1 + 1 } in
          let identity =
            new_agent_identity_record (generate s.drawn) (generate (s.drawn + 1)) issuer
              (some input.username) (get_or input.nickname input.runtime) (some input.runtime)
              controller s.clock in
          let binding =
            new_agent_identity_binding (generate (s.drawn + 1 + 1)) (generate s.drawn)
              input.protocol_agent_id s.clock in
          Reaches-trans s t _ (still s t refl refl refl) (
            audited-Reach generate controller (create_identity identity binding) t (
              create_identity-Reach t binding identity refl (
                rw
                  (
                    eq_refl (generate s.drawn),
                    can_enroll input.protocol_agent_id controller s enrolls,
                  )
                  refl)))))

pub login-Reach :
    (generate : ℕ → String) (input : ProfileInput) (issuer controller : String) (s : AgentState)
    → Reach s (create_agent_login_identity generate input issuer controller s).1
unfolding create_agent_login_identity
login-Reach generate input issuer controller s =
    elim (Option-cases (find_active_by_protocol_agent s input.protocol_agent_id)) [
      | inl e ↦
          rw (e, create_agent_login_identity) (create_new-Reach generate input issuer controller s)
      | inr (existing, e) ↦
          rw (e, create_agent_login_identity) (require_or_claim-Reach existing input s)
    ]

-- The identity that an approval names has the owner of the intent.
found_owned :
    (agents : List AgentRecord) (id p : String) (i : AgentIdentityRecord)
    (xs : List AgentIdentityRecord)
    → find (is_identity id) xs ≡ some i
    → any (is_agent_of i.owner_user_id p) agents ≡ true
    → any (is_owned agents id p) xs ≡ true
found_owned agents id p i [] h k = cc
found_owned agents id p i (x ∷ xs) h k = elim (Bool-cases (is_identity id x)) [
  | inl e ↦
      let same : some x ≡ some i = rw e at h in
      let owner : x.owner_user_id ≡ i.owner_user_id = cc same in
      rw
        (
          (and_true (x.id == id) (is_kept x) e).0,
          subst (λ u. any (is_agent_of u p) agents ≡ true) (sym owner) k,
        )
        refl
  | inr e ↦ ground (arith, found_owned agents id p i xs (rw e at h) k)
]

found_identity :
    (id : String) (s : AgentState) (a : AgentIdentityAggregate)
    → require_identity id s ≡ ok a
    → find (is_identity id) s.identities ≡ some a.identity
unfolding require_identity find_identity
found_identity id s a h =
    aggregate_of-some s (find (is_identity id) s.identities) a (or_throw-ok _ _ a h)

same_space :
    (left right : String) → assert_same_home_space left right ≡ ok tt → (left == right) ≡ true
unfolding assert_same_home_space
same_space left right h = require-ok (left == right) _ h

controller_of :
    (owner actor : String) → assert_controller owner actor ≡ ok tt → (owner == actor) ≡ true
unfolding assert_controller
controller_of owner actor h = require-ok (owner == actor) _ h

approve_with-Reach :
    (generate : ℕ → String) (issuer actor : String) (now : ℕ) (intent : AgentEnrollmentIntentRecord)
    (o : Option String) (s : AgentState)
    → (intent.owner_user_id == actor) ≡ true
    → any (is_agent_of actor intent.protocol_agent_id) s.agents ≡ true
    → Reach s (approve_with generate issuer actor now intent o s).1
unfolding approve_with
approve_with-Reach generate issuer actor now intent none s owner agent =
    let t = record s { drawn = s.drawn + 1 + 1 + 1 } in
    Reaches-trans s t _ (still s t refl refl refl) (
      along
        (lift (
          or_throw intent.requested_name
            (thrown "NOT NULL constraint failed: agent_identity.name")))
        _ t Reaches.here
        (λ name e. approve_intent-Reach t _ intent.id actor now _ refl (
          rw
            (
              eq_refl (generate s.drawn),
              subst (λ u. any (is_agent_of u intent.protocol_agent_id) s.agents ≡ true)
                  (sym ((eq_iff intent.owner_user_id actor).0 owner)) agent,
            )
            refl)))
approve_with-Reach generate issuer actor now intent (some id) s owner agent =
    along (reads (require_identity id)) _ s Reaches.here (λ existing found.
      along (lift (assert_same_home_space intent.owner_user_id existing.identity.owner_user_id)) _ s
        Reaches.here
        (λ a same.
          let t = record s { drawn = s.drawn + 1 } in
          Reaches-trans s t _ (still s t refl refl refl) (
            approve_installation-Reach t _ intent.id actor now (
              found_owned s.agents id intent.protocol_agent_id existing.identity s.identities
                (found_identity id s existing found)
                (subst (λ u. any (is_agent_of u intent.protocol_agent_id) s.agents ≡ true)
                  (sym ((eq_iff intent.owner_user_id actor).0 owner)
                    ∙ (eq_iff intent.owner_user_id existing.identity.owner_user_id).0
                        (same_space intent.owner_user_id existing.identity.owner_user_id same))
                  agent)))))

pub approval-Reach :
    (generate : ℕ → String) (intent_id issuer actor : String) (s : AgentState)
    → Reach s (approve_agent_enrollment generate intent_id issuer actor s).1
unfolding approve_agent_enrollment
approval-Reach generate intent_id issuer actor s =
    along
      (reads (λ t.
        or_throw (find_intent t intent_id)
          (not_found_error "Agent enrollment intent was not found.")))
      _ s Reaches.here
      (λ intent found.
        along
          (lift (
            require (is_pending intent.status)
              (bad_request_error "Agent enrollment intent is no longer pending.")))
          _ s Reaches.here
          (λ a pending.
            along
              (lift (
                require (not (leb intent.expires_at s.clock))
                  (bad_request_error "Agent enrollment intent has expired.")))
              _ s Reaches.here
              (λ b live.
                along (lift (assert_controller intent.owner_user_id actor)) _ s Reaches.here
                  (λ c controls.
                    along (reads (assert_protocol_agent_can_enroll intent.protocol_agent_id actor))
                      _ s Reaches.here
                      (λ d enrolls.
                        audited-Reach generate actor
                          (approve_with generate issuer actor s.clock intent
                            (truthy intent.agent_identity_id))
                          s
                          (approve_with-Reach generate issuer actor s.clock intent
                            (truthy intent.agent_identity_id) s
                            (controller_of intent.owner_user_id actor controls)
                            (can_enroll intent.protocol_agent_id actor s enrolls)))))))
