-- ===== src/Agents/Runs.antt =====
-- What a request does, as steps on the tables: the batches.
pub mod Handlers
pub mod Enrollments
pub mod Requests
use realmroot.Prelude.{
  Reaches, Reaches-trans, ℕ, String, Bool, true, false, not, ◌&&◌, ◌||◌, Option, none, some, List,
  [], ◌∷◌, ◌++◌, map, any, all, find, holds, is_some, ◌==◌, ◌≡◌, refl, arith, eq_iff, eq_refl, sym,
  ◌∙◌, ap, Bool-cases, inl, inr, Option-cases, subst, and_true,
}
use realmroot.Errors.{Result, ok, err}
use realmroot.Errors.Laws.{Result-cases, ok-injective}
use realmroot.Errors.Exec.{Exec}
use realmroot.Errors.Exec.Laws.{>>=-along}
use realmroot.Agents.{
  AgentIdentityRecord, AgentIdentityBinding, AgentIdentityAggregate, AgentEnrollmentIntentRecord,
  AgentRecord, AgentState, draw, time, is_active,
}
use realmroot.Agents.Store.{
  insert_both, insert_identity, insert_binding, is_taken_by, is_bound_by, is_identity, has_agent_id,
  find_identity, aggregate, bind_into,
}
use realmroot.Agents.Store.Writes.{
  create_identity, approve_intent, claim_identity_profile, create_intent_idempotently,
  revoke_binding, deactivate_identity, activate_identity, delete_identity, revoke_protocol_agents,
  active_protocol_agent_ids, is_claimable, is_checked, is_intent_taken, is_active_binding,
  is_active_binding_of, persist, with_tables, identity_exists, deactivate_found,
}
use realmroot.Agents.Steps.{Step, Reach, is_owned, is_owned_binding, is_agent_of}

-- No table of these changes.
pub still :
    (s t : AgentState)
    → t.identities ≡ s.identities
    → t.bindings ≡ s.bindings
    → t.agents ≡ s.agents
    → Reach s t
still s t i b a = Reaches.step Reaches.here (Step.unchanged i b a)

abbrev Tables : Type 0
Tables = List AgentIdentityRecord × List AgentIdentityBinding

insert_identity-ok :
    (identity : AgentIdentityRecord) (rows is : List AgentIdentityRecord)
    → insert_identity identity rows ≡ ok is
    → (any (is_taken_by identity) rows ≡ false) × (is ≡ rows ++ identity ∷ [])
unfolding insert_identity
insert_identity-ok identity rows is h = elim (Bool-cases (any (is_taken_by identity) rows)) [
  | inl taken ↦ absurd (ground (arith, taken))
  | inr free ↦ (free, sym (ok-injective (rw free at h)))
]

insert_binding-ok :
    (is : List AgentIdentityRecord) (agents : List AgentRecord) (binding : AgentIdentityBinding)
    (rows bs : List AgentIdentityBinding)
    → insert_binding is agents binding rows ≡ ok bs
    → (any (is_bound_by binding) rows ≡ false) × (bs ≡ rows ++ binding ∷ [])
unfolding insert_binding
insert_binding-ok is agents binding rows bs h = elim (Bool-cases (any (is_bound_by binding) rows)) [
  | inl bound ↦ absurd (ground (arith, bound))
  | inr unbound ↦
      elim (Bool-cases (
        any (λ row. row.id == binding.agent_identity_id) is
        && any (has_agent_id binding.protocol_agent_id) agents)) [
          | inl named ↦ (unbound, sym (ok-injective (rw (unbound, named) at h)))
          | inr unnamed ↦ absurd (ground (arith, unbound, unnamed))
        ]
]

bind_into-ok :
    (s : AgentState) (binding : AgentIdentityBinding) (r : Result (List AgentIdentityRecord))
    (tables : Tables)
    → bind_into s binding r ≡ ok tables
    → (r ≡ ok tables.0) × (insert_binding tables.0 s.agents binding s.bindings ≡ ok tables.1)
unfolding bind_into
bind_into-ok s binding (err e) tables h = absurd (cc)
bind_into-ok s binding (ok is) tables h =
    elim (Result-cases (insert_binding is s.agents binding s.bindings)) [
      | inl (bs, e) ↦
          let k : ok (is, bs) ≡ ok tables = rw (e, bind_into) at h in
          (
            ap ok (ap (λ t. t.0) (ok-injective k)),
            subst (λ xs. insert_binding xs s.agents binding s.bindings ≡ ok tables.1)
                (ap (λ t. t.0) (ok-injective k)) (e ∙ ap ok (ap (λ t. t.1) (ok-injective k))),
          )
      | inr (e, e') ↦ absurd (ground (arith, e'))
    ]

persist-Reach :
    (s : AgentState) (r : Result Tables) (others : AgentState → AgentState) (id message : String)
    → ((tables : Tables) → r ≡ ok tables → Reach s (others (with_tables s tables)))
    → Reach s (persist s r others id message).1
unfolding persist
persist-Reach s (err e) others id message h = Reaches.here
persist-Reach s (ok tables) others id message h = h tables refl

module _ (s : AgentState) (binding : AgentIdentityBinding) where
  enrolled-Reach :
      (identity : AgentIdentityRecord) (tables : Tables) (t : AgentState)
      → identity.deleted_at ≡ none
      → is_owned s.agents binding.agent_identity_id binding.protocol_agent_id identity ≡ true
      → insert_both s (some identity) binding ≡ ok tables
      → t.identities ≡ tables.0
      → t.bindings ≡ tables.1
      → t.agents ≡ s.agents
      → Reach s t
  unfolding insert_both
  enrolled-Reach identity tables t kept owned e i b a =
      let (first, second) =
        bind_into-ok s binding (insert_identity identity s.identities) tables e in
      let (free, ids) = insert_identity-ok identity s.identities tables.0 first in
      let (unbound, rows) =
        insert_binding-ok tables.0 s.agents binding s.bindings tables.1 second in
      Reaches.step Reaches.here
        (Step.enrolled identity binding kept free unbound owned (i ∙ ids) (b ∙ rows) a)

  installed-Reach :
      (tables : Tables) (t : AgentState)
      → is_owned_binding s.agents s.identities binding ≡ true
      → insert_both s none binding ≡ ok tables
      → t.identities ≡ tables.0
      → t.bindings ≡ tables.1
      → t.agents ≡ s.agents
      → Reach s t
  unfolding insert_both
  installed-Reach tables t owned e i b a =
      let (first, second) = bind_into-ok s binding (ok s.identities) tables e in
      let (unbound, rows) =
        insert_binding-ok tables.0 s.agents binding s.bindings tables.1 second in
      Reaches.step Reaches.here
        (Step.installed binding unbound owned (i ∙ sym (ok-injective first)) (b ∙ rows) a)

  pub create_identity-Reach :
      (identity : AgentIdentityRecord)
      → identity.deleted_at ≡ none
      → is_owned s.agents binding.agent_identity_id binding.protocol_agent_id identity ≡ true
      → Reach s (create_identity identity binding s).1
  unfolding create_identity
  create_identity-Reach identity kept owned =
      persist-Reach s (insert_both s (some identity) binding) (λ t. t) _ _
        (λ tables e.
          enrolled-Reach identity tables (with_tables s tables) kept owned e refl refl refl)

  pub approve_intent-Reach :
      (intent_id user : String) (now : ℕ) (identity : AgentIdentityRecord)
      → identity.deleted_at ≡ none
      → is_owned s.agents binding.agent_identity_id binding.protocol_agent_id identity ≡ true
      → Reach s (approve_intent intent_id (some identity) binding user now s).1
  unfolding approve_intent
  approve_intent-Reach intent_id user now identity kept owned =
      persist-Reach s (insert_both s (some identity) binding) _ _ _
        (λ tables e. enrolled-Reach identity tables _ kept owned e refl refl refl)

  pub approve_installation-Reach :
      (intent_id user : String) (now : ℕ)
      → is_owned_binding s.agents s.identities binding ≡ true
      → Reach s (approve_intent intent_id none binding user now s).1
  unfolding approve_intent
  approve_installation-Reach intent_id user now owned =
      persist-Reach s (insert_both s none binding) _ _ _
        (λ tables e. installed-Reach tables _ owned e refl refl refl)

pub claim_identity_profile-Reach :
    (id username name runtime : String) (now : ℕ) (s : AgentState)
    → Reach s (claim_identity_profile id username name runtime now s).1
unfolding claim_identity_profile
claim_identity_profile-Reach id username name runtime now s =
    elim (Bool-cases (any (is_claimable id) s.identities)) [
      | inl found ↦ elim (Bool-cases (any (λ row. holds row.username username) s.identities)) [
        | inl taken ↦ rw (found, taken) Reaches.here
        | inr free ↦
            rw (found, free)
              (Reaches.step Reaches.here
                (Step.claimed id username name runtime now free refl refl refl))
      ]
      | inr missing ↦ rw missing Reaches.here
    ]

pub create_intent-Reach :
    (key : String) (intent : AgentEnrollmentIntentRecord) (s : AgentState)
    → Reach s (create_intent_idempotently key intent s).1
unfolding create_intent_idempotently
create_intent-Reach key intent s = elim (Bool-cases (not (is_checked intent))) [
  | inl bad ↦ rw bad Reaches.here
  | inr good ↦ elim (Bool-cases (any (is_intent_taken key intent) s.intents)) [
    | inl taken ↦ rw (good, taken) Reaches.here
    | inr free ↦
        elim (Bool-cases (
          identity_exists s.identities intent.agent_identity_id
          && any (has_agent_id intent.protocol_agent_id) s.agents)) [
            | inl named ↦ rw (good, free, named) (still s _ refl refl refl)
            | inr unnamed ↦ rw (good, free, unnamed) Reaches.here
          ]
  ]
]

pub revoke_binding-Reach :
    (id p : String) (now : ℕ) (s : AgentState) → Reach s (revoke_binding id p now s).1
unfolding revoke_binding
revoke_binding-Reach id p now s = elim (Bool-cases (any (is_active_binding_of id p) s.bindings)) [
  | inl found ↦ rw found (Reaches.step Reaches.here (Step.revoked id (p ∷ []) now refl refl refl))
  | inr missing ↦ rw missing Reaches.here
]

module _ (id : String) (now : ℕ) (s : AgentState) where
  pub deactivate_found-Reach :
      (identity : AgentIdentityRecord) (revoke : Bool)
      → Reach s (deactivate_found (some identity) id now revoke s).1
  unfolding deactivate_found revoke_protocol_agents
  deactivate_found-Reach identity true =
      elim (Bool-cases (not (is_active identity.status) && false)) [
        | inl e ↦ rw e Reaches.here
        | inr e ↦ rw e (
            Reaches.step Reaches.here
              (Step.recovered id (active_protocol_agent_ids s id) now refl refl refl))
      ]
  deactivate_found-Reach identity false =
      elim (Bool-cases (not (is_active identity.status) && true)) [
        | inl e ↦ rw e Reaches.here
        | inr e ↦ rw e (Reaches.step Reaches.here (Step.deactivated id now refl refl refl))
      ]

  pub deactivate_identity-Reach : (revoke : Bool) → Reach s (deactivate_identity id now revoke s).1
  unfolding deactivate_identity
  deactivate_identity-Reach revoke = elim (Option-cases (find (is_identity id) s.identities)) [
    | inl e ↦ rw e Reaches.here
    | inr (identity, e) ↦ rw e (deactivate_found-Reach identity revoke)
  ]

pub activate_identity-Reach :
    (id : String) (now : ℕ) (s : AgentState) → Reach s (activate_identity id now s).1
unfolding activate_identity
activate_identity-Reach id now s = elim (Bool-cases (any (is_active_binding id) s.bindings)) [
  | inl found ↦ rw found (Reaches.step Reaches.here (Step.activated id now refl refl refl))
  | inr missing ↦ rw missing Reaches.here
]

pub delete_identity-Reach :
    (id : String) (now : ℕ) (s : AgentState) → Reach s (delete_identity id now s).1
unfolding delete_identity
delete_identity-Reach id now s = elim (Bool-cases (any (is_identity id) s.identities)) [
  | inl found ↦ rw found (
      Reaches.step Reaches.here
        (Step.deleted id (active_protocol_agent_ids s id) now refl refl refl))
  | inr missing ↦ rw missing Reaches.here
]
