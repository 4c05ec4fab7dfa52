-- ===== src/Agents/Lasting/Resolved.antt =====
-- `requireActiveAgentIdentity` after any later requests.
use realmroot.Prelude.{
  ℕ, String, Bool, true, false, not, ◌&&◌, ◌||◌, Option, none, some, List, [], ◌∷◌, ◌++◌, any, all,
  filter, All, ◌==◌, ◌≡◌, refl, arith, eq_iff, eq_refl, sym, ◌∙◌, ap, Bool-cases, inl, inr,
  Option-cases, and_true, subst, no_clash, find, false_of_not,
}
use realmroot.Errors.{ok}
use realmroot.Errors.Laws.{or_throw-ok}
use realmroot.Agents.{
  AgentIdentityRecord, AgentIdentityBinding, AgentIdentityAggregate, AgentState, is_bound,
}
use realmroot.Agents.Store.{
  is_bound_by, is_live, live_identities, head, aggregate_of, aggregate,
  find_active_by_protocol_agent,
}
use realmroot.Agents.Store.Writes.{revoke_row, is_active_binding_of}
use realmroot.Agents.Steps.{Reach, IsSound}
use realmroot.Agents.Lasting.{is_binding_of, Bound, Bound-Reach, all-All}
use realmroot.Agents.Manage.{require_active_agent_identity}

-- What an agent that is resolved rests on: a binding that is active, and an identity that is live
pub record Backing (q : AgentIdentityBinding → Bool) (r : AgentIdentityRecord → Bool) (p : String)
    (identity : AgentIdentityRecord) : Type 0 where
  pub row : AgentIdentityBinding
  pub passes : q row ≡ true
  pub of_agent : (row.protocol_agent_id == p) ≡ true
  pub bound : is_bound row.status ≡ true
  pub live : is_live row.agent_identity_id identity ≡ true
  pub identity_passes : r identity ≡ true

module _ (q : AgentIdentityBinding → Bool) (r : AgentIdentityRecord → Bool) (p : String)
    (identities : List AgentIdentityRecord) (kept : All (λ x. r x ≡ true) identities) where
  of_row :
      (row : AgentIdentityBinding) (xs : List AgentIdentityRecord)
      → All (λ x. r x ≡ true) xs
      → q row ≡ true
      → (row.protocol_agent_id == p) ≡ true
      → is_bound row.status ≡ true
      → All (Backing q r p) (filter (is_live row.agent_identity_id) xs)
  of_row row [] h k l m = tt
  of_row row (x ∷ xs) h k l m = elim (Bool-cases (is_live row.agent_identity_id x)) [
    | inl e ↦ rw e (
      record { row = row; passes = k; of_agent = l; bound = m; live = e; identity_passes = h.0 },
      of_row row xs h.1 k l m,
    )
    | inr e ↦ rw e (of_row row xs h.1 k l m)
  ]

  All-append {ℓ κ} :
      {A : Type ℓ} (P : A → Type κ) (xs ys : List A) → All P xs → All P ys → All P (xs ++ ys)
  All-append P [] ys h k = k
  All-append P (x ∷ xs) ys h k = (h.0, All-append P xs ys h.1 k)

  live-Backing :
      (rows : List AgentIdentityBinding)
      → All (λ x. q x ≡ true) rows
      → All (Backing q r p) (live_identities identities p rows)
  unfolding live_identities
  live-Backing [] h = tt
  live-Backing (row ∷ rows) h =
      elim (Bool-cases (row.protocol_agent_id == p && is_bound row.status)) [
        | inl e ↦ rw e (
            let es = and_true (row.protocol_agent_id == p) (is_bound row.status) e in
            All-append (Backing q r p) (filter (is_live row.agent_identity_id) identities)
              (live_identities identities p rows) (of_row row identities kept h.0 es.0 es.1)
              (live-Backing rows h.1))
        | inr e ↦ rw e (live-Backing rows h.1)
      ]

head-All :
    (P : AgentIdentityRecord → Type 0) (xs : List AgentIdentityRecord) (x : AgentIdentityRecord)
    → All P xs
    → head xs ≡ some x
    → P x
head-All P [] x h e = absurd (cc)
head-All P (y ∷ ys) x h e = subst P (cc) h.0

pub aggregate_of-some :
    (s : AgentState) (o : Option AgentIdentityRecord) (a : AgentIdentityAggregate)
    → aggregate_of s o ≡ some a
    → o ≡ some a.identity
unfolding aggregate
aggregate_of-some s none a h = cc
aggregate_of-some s (some x) a h = ap (λ o. elim o [ none ↦ none | some b ↦ some b.identity ]) h

-- Where an agent is resolved, its binding and its identity pass what all the rows pass.
pub resolved-Backing :
    (q : AgentIdentityBinding → Bool) (r : AgentIdentityRecord → Bool) (p : String) (s : AgentState)
    (a : AgentIdentityAggregate)
    → all q s.bindings ≡ true
    → all r s.identities ≡ true
    → require_active_agent_identity p s ≡ ok a
    → Backing q r p a.identity
unfolding require_active_agent_identity find_active_by_protocol_agent
resolved-Backing q r p s a h k e =
    head-All (Backing q r p) (live_identities s.identities p s.bindings) a.identity
      (live-Backing q r p s.identities (all-All r s.identities k) s.bindings
        (all-All q s.bindings h))
      (aggregate_of-some s (head (live_identities s.identities p s.bindings)) a
        (or_throw-ok _ _ a e))

-- The rows of an agent, by the first of them: no other has its protocol agent.
abbrev pub stands_for : (p id : String) → AgentIdentityBinding → Bool
stands_for p id row = not (row.protocol_agent_id == p) || row.agent_identity_id == id

none_of :
    (p id : String) (x : AgentIdentityBinding) (xs : List AgentIdentityBinding)
    → (x.protocol_agent_id == p) ≡ true
    → any (is_bound_by x) xs ≡ false
    → all (stands_for p id) xs ≡ true
none_of p id x [] h k = refl
none_of p id x (y ∷ ys) h k = ground (
  arith,
  none_of p id x ys h,
  eq_iff x.protocol_agent_id p,
  eq_iff y.protocol_agent_id p,
  eq_iff y.protocol_agent_id x.protocol_agent_id,
)

pub one_binding :
    (p : String) (xs : List AgentIdentityBinding) (x : AgentIdentityBinding)
    → no_clash is_bound_by xs ≡ true
    → find (is_binding_of p) xs ≡ some x
    → Bound p (stands_for p x.agent_identity_id) xs
one_binding p [] x h e = absurd (cc)
one_binding p (y ∷ ys) x h e =
    let hs = and_true (not (any (is_bound_by y) ys)) (no_clash is_bound_by ys) h in
    elim (Bool-cases (y.protocol_agent_id == p)) [
      | inl same ↦ ground (
        arith,
        none_of p x.agent_identity_id y ys same (false_of_not _ hs.0),
        eq_refl x.agent_identity_id,
      )
      | inr other ↦ ground (arith, one_binding p ys x hs.1)
    ]

no_active_of :
    (id p : String) (x : AgentIdentityBinding) (xs : List AgentIdentityBinding)
    → (x.protocol_agent_id == p) ≡ true
    → any (is_bound_by x) xs ≡ false
    → any (is_active_binding_of id p) xs ≡ false
no_active_of id p x [] h k = refl
no_active_of id p x (y ∷ ys) h k = ground (
  arith,
  no_active_of id p x ys h,
  eq_iff x.protocol_agent_id p,
  eq_iff y.protocol_agent_id p,
  eq_iff y.protocol_agent_id x.protocol_agent_id,
)

-- Where one active binding is of the identity, all bindings of its agent are.
pub no_binding_clash :
    (id p : String) (xs : List AgentIdentityBinding)
    → no_clash is_bound_by xs ≡ true
    → any (is_active_binding_of id p) xs ≡ true
    → all (stands_for p id) xs ≡ true
no_binding_clash id p [] h k = refl
no_binding_clash id p (x ∷ xs) h k =
    let hs = and_true (not (any (is_bound_by x) xs)) (no_clash is_bound_by xs) h in
    elim (Bool-cases (x.protocol_agent_id == p)) [
      | inl same ↦ ground (
        arith,
        none_of p id x xs same (false_of_not _ hs.0),
        no_active_of id p x xs same (false_of_not _ hs.0),
      )
      | inr other ↦ ground (arith, no_binding_clash id p xs hs.1)
    ]

unbound :
    (p : String) (xs : List AgentIdentityBinding)
    → find (is_binding_of p) xs ≡ none
    → all (λ row. not (row.protocol_agent_id == p)) xs ≡ true
unbound p [] h = refl
unbound p (x ∷ xs) h = ground (arith, unbound p xs)

stands_for-revoke :
    (p id other : String) (now : ℕ) (x : AgentIdentityBinding)
    → stands_for p id x ≡ true
    → stands_for p id (revoke_row other now x) ≡ true
stands_for-revoke p id other now x h = ground arith

pub all_rows : (xs : List AgentIdentityRecord) → all (λ x. true) xs ≡ true
all_rows [] = refl
all_rows (x ∷ xs) = all_rows xs

-- The identity that an agent is resolved to is the one that its binding names.
resolved-id :
    (p id : String) (s : AgentState) (a : AgentIdentityAggregate)
    → all (stands_for p id) s.bindings ≡ true
    → require_active_agent_identity p s ≡ ok a
    → a.identity.id ≡ id
resolved-id p id s a h e =
    let b = resolved-Backing (stands_for p id) (λ x. true) p s a h (all_rows s.identities) e in
    ground (
      arith,
      b.passes,
      b.of_agent,
      b.live,
      eq_iff a.identity.id b.row.agent_identity_id,
      eq_iff b.row.agent_identity_id id,
    )

-- A protocol agent that was resolved to an identity is resolved to no other identity later, whatever
-- requests and registrations follow.
pub agent_keeps_identity :
    (p : String) (s t : AgentState) (a b : AgentIdentityAggregate)
    → IsSound s
    → Reach s t
    → require_active_agent_identity p s ≡ ok a
    → require_active_agent_identity p t ≡ ok b
    → b.identity.id ≡ a.identity.id
agent_keeps_identity p s t a b sound r e f =
    elim (Option-cases (find (is_binding_of p) s.bindings)) [
      | inl none_bound ↦
          let backing =
            resolved-Backing (λ row. not (row.protocol_agent_id == p)) (λ x. true) p s a
              (unbound p s.bindings none_bound) (all_rows s.identities) e in
          absurd (ground (arith, backing.passes, backing.of_agent))
      | inr (x, found) ↦
          let h = one_binding p s.bindings x sound.bound_once found in
          let k =
            Bound-Reach p (stands_for p x.agent_identity_id)
              (stands_for-revoke p x.agent_identity_id) (λ y other. rw other refl) s t r h in
          resolved-id p x.agent_identity_id t b k.1 f
          ∙ sym (resolved-id p x.agent_identity_id s a h.1 e)
    ]
