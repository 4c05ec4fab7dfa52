-- ===== src/Agents/Lasting.antt =====
-- What no later request undoes: the identity that a protocol agent is bound to, the end of a binding,
-- and the end of an identity.
pub mod Resolved
pub mod Ended
use realmroot.Prelude.{
  Reaches, Reaches-trans, ℕ, String, Bool, true, false, not, ◌&&◌, ◌||◌, Option, none, some, List,
  [], ◌∷◌, ◌++◌, map, any, all, filter, All, All-filter, filter-All, is_some, ◌==◌, ◌≡◌, refl,
  arith, eq_iff, subst, sym, ◌∙◌, ap, any-append, any-map, all-append, Bool-cases, inl, inr,
  Option-cases, and_true,
}
use realmroot.Errors.{Result, ok, err, or_throw}
use realmroot.Errors.Laws.{or_throw-ok}
use realmroot.Agents.{
  AgentIdentityRecord, AgentIdentityBinding, AgentIdentityAggregate, AgentState, is_bound,
  is_active,
}
use realmroot.Agents.Store.{
  is_bound_by, is_taken_by, is_live, is_kept, live_identities, head, aggregate_of, aggregate,
  find_active_by_protocol_agent,
}
use realmroot.Agents.Store.Writes.{
  claim_row, revoke_row, revoke_agent, deactivate_row, activate_row, delete_row, is_active_binding,
  is_claimable, is_activatable,
}
use realmroot.Agents.Steps.{Step, Reach}
use realmroot.Agents.Manage.{require_active_agent_identity}

abbrev pub is_binding_of : String → AgentIdentityBinding → Bool
is_binding_of p row = row.protocol_agent_id == p

abbrev pub has_identity : String → AgentIdentityRecord → Bool
has_identity id row = row.id == id

module _ {ℓ} {A : Type ℓ} where
  all_mono :
      (q : A → Bool) (f : A → A) (xs : List A)
      → ((x : A) → q x ≡ true → q (f x) ≡ true)
      → all q xs ≡ true
      → all q (map f xs) ≡ true
  all_mono q f [] h k = refl
  all_mono q f (x ∷ xs) h k = ground (arith, h x, all_mono q f xs h)

  pub all-All : (q : A → Bool) (xs : List A) → all q xs ≡ true → All (λ x. q x ≡ true) xs
  all-All q [] h = tt
  all-All q (x ∷ xs) h = let hs = and_true (q x) (all q xs) h in (hs.0, all-All q xs hs.1)

-- A new binding is of another protocol agent than those that are bound.
other_agent :
    (p : String) (binding : AgentIdentityBinding) (xs : List AgentIdentityBinding)
    → any (is_bound_by binding) xs ≡ false
    → any (is_binding_of p) xs ≡ true
    → (binding.protocol_agent_id == p) ≡ false
other_agent p binding [] h k = cc
other_agent p binding (x ∷ xs) h k = ground (
  arith,
  other_agent p binding xs,
  eq_iff binding.protocol_agent_id p,
  eq_iff x.protocol_agent_id p,
  eq_iff x.protocol_agent_id binding.protocol_agent_id,
)

other_identity :
    (id : String) (identity : AgentIdentityRecord) (xs : List AgentIdentityRecord)
    → any (is_taken_by identity) xs ≡ false
    → any (has_identity id) xs ≡ true
    → (identity.id == id) ≡ false
other_identity id identity [] h k = cc
other_identity id identity (x ∷ xs) h k = ground (
  arith,
  other_identity id identity xs,
  eq_iff identity.id id,
  eq_iff x.id id,
  eq_iff x.id identity.id,
)

-- The rows of a protocol agent that is bound pass a test that revocation keeps.
abbrev pub Bound : String → (AgentIdentityBinding → Bool) → List AgentIdentityBinding → Type 0
Bound p q xs = (any (is_binding_of p) xs ≡ true) × (all q xs ≡ true)

module _ (p : String) (q : AgentIdentityBinding → Bool)
    (kept : (id : String) (now : ℕ) (x : AgentIdentityBinding)
      → q x ≡ true
      → q (revoke_row id now x) ≡ true)
    (others : (x : AgentIdentityBinding) → (x.protocol_agent_id == p) ≡ false → q x ≡ true) where
  Bound-revoke :
      (id : String) (now : ℕ) (xs : List AgentIdentityBinding)
      → Bound p q xs
      → Bound p q (map (revoke_row id now) xs)
  Bound-revoke id now xs h = (
    any-map (is_binding_of p) (revoke_row id now) xs (same_agent id now) ∙ h.0,
    all_mono q (revoke_row id now) xs (kept id now) h.1,
  )
    where
      same_agent :
          (id : String) (now : ℕ) (x : AgentIdentityBinding)
          → is_binding_of p (revoke_row id now x) ≡ is_binding_of p x
      same_agent id now x = elim (Bool-cases (is_active_binding id x)) [
        | inl e ↦ rw e refl
        | inr e ↦ rw e refl
      ]

  Bound-snoc :
      (binding : AgentIdentityBinding) (xs : List AgentIdentityBinding)
      → any (is_bound_by binding) xs ≡ false
      → Bound p q xs
      → Bound p q (xs ++ binding ∷ [])
  Bound-snoc binding xs fresh h = ground (
    arith,
    any-append (is_binding_of p) xs (binding ∷ []),
    all-append q xs (binding ∷ []),
    others binding (other_agent p binding xs fresh h.0),
  )

  Bound-Step : (s t : AgentState) → Step s t → Bound p q s.bindings → Bound p q t.bindings
  Bound-Step s t (Step.registered agent fresh i b a) h = subst (Bound p q) (sym b) h
  Bound-Step s t (Step.enrolled identity binding k n fresh o i b a) h =
      subst (Bound p q) (sym b) (Bound-snoc binding s.bindings fresh h)
  Bound-Step s t (Step.installed binding fresh o i b a) h =
      subst (Bound p q) (sym b) (Bound-snoc binding s.bindings fresh h)
  Bound-Step s t (Step.claimed id username name runtime now free i b a) h =
      subst (Bound p q) (sym b) h
  Bound-Step s t (Step.revoked id ids now i b a) h =
      subst (Bound p q) (sym b) (Bound-revoke id now s.bindings h)
  Bound-Step s t (Step.deactivated id now i b a) h = subst (Bound p q) (sym b) h
  Bound-Step s t (Step.recovered id ids now i b a) h =
      subst (Bound p q) (sym b) (Bound-revoke id now s.bindings h)
  Bound-Step s t (Step.activated id now i b a) h = subst (Bound p q) (sym b) h
  Bound-Step s t (Step.deleted id ids now i b a) h =
      subst (Bound p q) (sym b) (Bound-revoke id now s.bindings h)
  Bound-Step s t (Step.unchanged i b a) h = subst (Bound p q) (sym b) h

  pub Bound-Reach : (s t : AgentState) → Reach s t → Bound p q s.bindings → Bound p q t.bindings
  Bound-Reach s t Reaches.here h = h
  Bound-Reach s t (Reaches.step {t = u} r st) h = Bound-Step u t st (Bound-Reach s u r h)

-- A row that was deleted
abbrev pub is_gone : String → AgentIdentityRecord → Bool
is_gone id row = not (row.id == id) || is_some row.deleted_at

-- The identity `id` is in the table, and deleted.
abbrev pub Gone : String → List AgentIdentityRecord → Type 0
Gone id xs = (any (has_identity id) xs ≡ true) × (all (is_gone id) xs ≡ true)

Gone-map :
    (id : String) (f : AgentIdentityRecord → AgentIdentityRecord) (xs : List AgentIdentityRecord)
    → ((x : AgentIdentityRecord) → has_identity id (f x) ≡ has_identity id x)
    → ((x : AgentIdentityRecord) → is_gone id x ≡ true → is_gone id (f x) ≡ true)
    → Gone id xs
    → Gone id (map f xs)
Gone-map id f xs same kept h =
    (any-map (has_identity id) f xs same ∙ h.0, all_mono (is_gone id) f xs kept h.1)

Gone-deactivate :
    (id other : String) (now : ℕ) (xs : List AgentIdentityRecord)
    → Gone id xs
    → Gone id (map (deactivate_row other now) xs)
Gone-deactivate id other now xs =
    Gone-map id (deactivate_row other now) xs (λ x. ground arith) (λ x h. ground arith)

Gone-activate :
    (id other : String) (now : ℕ) (xs : List AgentIdentityRecord)
    → Gone id xs
    → Gone id (map (activate_row other now) xs)
Gone-activate id other now xs =
    Gone-map id (activate_row other now) xs (λ x. ground arith) (λ x h. ground arith)

Gone-delete :
    (id other : String) (now : ℕ) (xs : List AgentIdentityRecord)
    → Gone id xs
    → Gone id (map (delete_row other now) xs)
Gone-delete id other now xs =
    Gone-map id (delete_row other now) xs (λ x. ground arith) (λ x h. ground arith)

Gone-claim :
    (id other username name runtime : String) (now : ℕ) (xs : List AgentIdentityRecord)
    → Gone id xs
    → Gone id (map (claim_row other username name runtime now) xs)
Gone-claim id other username name runtime now xs =
    Gone-map id (claim_row other username name runtime now) xs (λ x. ground arith)
      (λ x h. ground arith)

Gone-snoc :
    (id : String) (identity : AgentIdentityRecord) (xs : List AgentIdentityRecord)
    → any (is_taken_by identity) xs ≡ false
    → Gone id xs
    → Gone id (xs ++ identity ∷ [])
Gone-snoc id identity xs fresh h = ground (
  arith,
  any-append (has_identity id) xs (identity ∷ []),
  all-append (is_gone id) xs (identity ∷ []),
  other_identity id identity xs fresh h.0,
)

Gone-Step :
    (id : String) (s t : AgentState) → Step s t → Gone id s.identities → Gone id t.identities
Gone-Step id s t (Step.registered agent fresh i b a) h = subst (Gone id) (sym i) h
Gone-Step id s t (Step.enrolled identity binding k fresh n o i b a) h =
    subst (Gone id) (sym i) (Gone-snoc id identity s.identities fresh h)
Gone-Step id s t (Step.installed binding fresh o i b a) h = subst (Gone id) (sym i) h
Gone-Step id s t (Step.claimed other username name runtime now free i b a) h =
    subst (Gone id) (sym i) (Gone-claim id other username name runtime now s.identities h)
Gone-Step id s t (Step.revoked other ids now i b a) h = subst (Gone id) (sym i) h
Gone-Step id s t (Step.deactivated other now i b a) h =
    subst (Gone id) (sym i) (Gone-deactivate id other now s.identities h)
Gone-Step id s t (Step.recovered other ids now i b a) h =
    subst (Gone id) (sym i) (Gone-deactivate id other now s.identities h)
Gone-Step id s t (Step.activated other now i b a) h =
    subst (Gone id) (sym i) (Gone-activate id other now s.identities h)
Gone-Step id s t (Step.deleted other ids now i b a) h =
    subst (Gone id) (sym i) (Gone-delete id other now s.identities h)
Gone-Step id s t (Step.unchanged i b a) h = subst (Gone id) (sym i) h

pub Gone-Reach :
    (id : String) (s t : AgentState) → Reach s t → Gone id s.identities → Gone id t.identities
Gone-Reach id s t Reaches.here h = h
Gone-Reach id s t (Reaches.step {t = u} r st) h = Gone-Step id u t st (Gone-Reach id s u r h)
