-- ===== src/Agents/Lasting/Ended.antt =====
-- Revoking a host, and deleting an identity, whatever requests follow.
use realmroot.Prelude.{
  ℕ, String, Bool, true, not, ◌||◌, Option, none, some, List, [], ◌∷◌, map, any, all, ◌==◌, ◌≡◌,
  ◌≢◌, refl, arith, eq_iff, sym, ◌∙◌, ap, Bool-cases, inl, inr, Option-cases, subst,
}
use realmroot.Errors.{ok, err, forbidden_error}
use realmroot.Errors.Laws.{Result-cases}
use realmroot.Errors.Exec.{Exec, reads}
use realmroot.Errors.Exec.Laws.{>>=-eq-ok}
use realmroot.Agents.{
  AgentIdentityRecord, AgentIdentityBinding, AgentIdentityBindingRecord, AgentIdentityAggregate,
  AgentState, is_bound,
}
use realmroot.Agents.Store.{is_identity, find_active_by_protocol_agent}
use realmroot.Agents.Store.Writes.{revoke_row, delete_row, is_active_binding_of}
use realmroot.Agents.Enroll.{◌>>!◌, append_identity_audit}
use realmroot.Agents.Steps.{Reach, IsSound}
use realmroot.Agents.Lasting.{
  is_binding_of, has_identity, Bound, Bound-Reach, Gone, Gone-Reach, is_gone,
}
use realmroot.Agents.Lasting.Resolved.{resolved-Backing, stands_for, all_rows, no_binding_clash}
use realmroot.Agents.Manage.{
  ResourceRevocation, require_active_agent_identity, require_controlled_identity, within, beside,
  revoke_or_throw, delete_or_throw, lease_revocation, binding_of, revoke_agent_identity_host,
  delete_agent_identity,
}

-- A binding of the agent that is revoked
abbrev pub is_out : String → AgentIdentityBinding → Bool
is_out p row = not (row.protocol_agent_id == p) || not (is_bound row.status)

out-revoke :
    (p id : String) (now : ℕ) (x : AgentIdentityBinding)
    → is_out p x ≡ true
    → is_out p (revoke_row id now x) ≡ true
out-revoke p id now x h = ground arith

has_agent :
    (id p : String) (xs : List AgentIdentityBinding)
    → any (is_active_binding_of id p) xs ≡ true
    → any (is_binding_of p) xs ≡ true
has_agent id p [] h = cc
has_agent id p (x ∷ xs) h = ground (arith, has_agent id p xs)

revoke-out :
    (id p : String) (now : ℕ) (xs : List AgentIdentityBinding)
    → all (stands_for p id) xs ≡ true
    → all (is_out p) (map (revoke_row id now) xs) ≡ true
revoke-out id p now [] h = refl
revoke-out id p now (x ∷ xs) h = ground (arith, revoke-out id p now xs)

revoke-agents :
    (id p : String) (now : ℕ) (xs : List AgentIdentityBinding)
    → any (is_binding_of p) (map (revoke_row id now) xs) ≡ any (is_binding_of p) xs
revoke-agents id p now [] = refl
revoke-agents id p now (x ∷ xs) = ground (arith, revoke-agents id p now xs)

-- No agent whose bindings are revoked is resolved.
pub out_of_use :
    (p : String) (s : AgentState)
    → all (is_out p) s.bindings ≡ true
    → require_active_agent_identity p s
      ≡ err (
          forbidden_error
            "Agent protocol identity is not bound to an active Realmroot Agent identity.")
unfolding require_active_agent_identity
out_of_use p s h = elim (Option-cases (find_active_by_protocol_agent s p)) [
  | inl e ↦ rw e refl
  | inr (a, e) ↦
      let b = resolved-Backing (is_out p) (λ x. true) p s a h (all_rows s.identities) (rw e refl) in
      absurd (ground (arith, b.passes, b.of_agent, b.bound))
]

all_gone :
    (id : String) (now : ℕ) (xs : List AgentIdentityRecord)
    → all (is_gone id) (map (delete_row id now) xs) ≡ true
all_gone id now [] = refl
all_gone id now (x ∷ xs) = ground (arith, all_gone id now xs)

has_deleted :
    (id : String) (now : ℕ) (xs : List AgentIdentityRecord)
    → any (is_identity id) xs ≡ true
    → any (has_identity id) (map (delete_row id now) xs) ≡ true
has_deleted id now [] h = cc
has_deleted id now (x ∷ xs) h = ground (arith, has_deleted id now xs)

deleted-Gone :
    (id : String) (now : ℕ) (xs : List AgentIdentityRecord)
    → any (is_identity id) xs ≡ true
    → Gone id (map (delete_row id now) xs)
deleted-Gone id now xs h = (has_deleted id now xs h, all_gone id now xs)

every_row : (xs : List AgentIdentityBinding) → all (λ x. true) xs ≡ true
every_row [] = refl
every_row (x ∷ xs) = every_row xs

-- The writes that a successful revocation and a successful deletion make
revoke_or_throw-ok :
    (id p : String) (s : AgentState)
    → (revoke_or_throw id p s).0 ≡ ok tt
    → (any (is_active_binding_of id p) s.bindings ≡ true)
      × ((revoke_or_throw id p s).1.bindings ≡ map (revoke_row id s.clock) s.bindings)
unfolding revoke_or_throw
revoke_or_throw-ok id p s h = elim (Bool-cases (any (is_active_binding_of id p) s.bindings)) [
  | inl found ↦ (found, rw found refl)
  | inr missing ↦ absurd (ground (arith, missing))
]

delete_or_throw-ok :
    (id : String) (s : AgentState)
    → (delete_or_throw id s).0 ≡ ok tt
    → (any (is_identity id) s.identities ≡ true)
      × ((delete_or_throw id s).1.identities ≡ map (delete_row id s.clock) s.identities)
unfolding delete_or_throw
delete_or_throw-ok id s h = elim (Bool-cases (any (is_identity id) s.identities)) [
  | inl found ↦ (found, rw found refl)
  | inr missing ↦ absurd (ground (arith, missing))
]

module _ {R : Type 0} (resources : ResourceRevocation R) (generate : ℕ → String) (id actor : String)
    (x : AgentState × R) where
  -- After its write, a handler revokes on the other tables and appends to the log.
  rest_of_revocation :
      (row : Option AgentIdentityBindingRecord) (audit : Exec AgentState (Unit {0}))
      (y : AgentState × R)
      → ((z : AgentState) → (audit z).1.bindings ≡ z.bindings)
      → ((lease_revocation resources row >>! within audit) y).1.0.bindings ≡ y.0.bindings
  rest_of_revocation none audit y h = h y.0
  rest_of_revocation (some row) audit y h =
      elim (Result-cases (resources.leases_for_binding row.binding.id y.1).0) [
        | inl (a, e) ↦ rw e (h y.0)
        | inr (e, e') ↦ rw e' refl
      ]

  host_revoked :
      (p : String)
      → (revoke_agent_identity_host resources generate id p actor x).0 ≡ ok tt
      → (any (is_active_binding_of id p) x.0.bindings ≡ true)
        × ((revoke_agent_identity_host resources generate id p actor x).1.0.bindings
            ≡ map (revoke_row id x.0.clock) x.0.bindings)
  unfolding revoke_agent_identity_host
  host_revoked p h =
      let (identity, g, e) =
        >>=-eq-ok (within (reads (require_controlled_identity id actor))) _ x h in
      let (done, g', e') =
        >>=-eq-ok (within (revoke_or_throw id p)) _ x (ap (λ r. r.0) (sym e) ∙ h) in
      let (found, write) = revoke_or_throw-ok id p x.0 g' in
      (
        found,
        ap (λ r. r.1.0.bindings) (e ∙ e')
            ∙ (rest_of_revocation (binding_of p identity) _ _ (λ z. refl) ∙ write),
      )

  identity_deleted :
      (delete_agent_identity resources generate id actor x).0 ≡ ok tt
      → (any (is_identity id) x.0.identities ≡ true)
        × ((delete_agent_identity resources generate id actor x).1.0.identities
            ≡ map (delete_row id x.0.clock) x.0.identities)
  unfolding delete_agent_identity
  identity_deleted h =
      let (identity, g, e) =
        >>=-eq-ok (within (reads (require_controlled_identity id actor))) _ x h in
      let (done, g', e') =
        >>=-eq-ok (within (delete_or_throw id)) _ x (ap (λ r. r.0) (sym e) ∙ h) in
      let (found, write) = delete_or_throw-ok id x.0 g' in
      (
        found,
        ap (λ r. r.1.0.identities) (e ∙ e')
            ∙ (rest_of_deletion identity ((delete_or_throw id x.0).1, x.1) ∙ write),
      )
    where
      rest_of_deletion :
          (identity : AgentIdentityAggregate) (y : AgentState × R)
          → ((beside (resources.access id)
                >>! within (
                    append_identity_audit generate "agent.identity_deleted" identity
                      (some actor)
                      []))
              y).1.0.identities
            ≡ y.0.identities
      rest_of_deletion identity y = elim (Result-cases (resources.access id y.1).0) [
        | inl (a, e) ↦ rw e refl
        | inr (e, e') ↦ rw e' refl
      ]

  -- Once a controller has revoked the host of a protocol agent, the agent is refused as not bound to an
  -- active identity, whatever requests and registrations follow.
  pub revoked_host_stays_out :
      (p : String) (t : AgentState)
      → IsSound x.0
      → (revoke_agent_identity_host resources generate id p actor x).0 ≡ ok tt
      → Reach (revoke_agent_identity_host resources generate id p actor x).1.0 t
      → require_active_agent_identity p t
        ≡ err (
            forbidden_error
              "Agent protocol identity is not bound to an active Realmroot Agent identity.")
  revoked_host_stays_out p t sound h r =
      let (found, write) = host_revoked p h in
      let one = no_binding_clash id p x.0.bindings sound.bound_once found in
      out_of_use p t
        (Bound-Reach p (is_out p) (out-revoke p) (λ y other. rw other refl)
          (revoke_agent_identity_host resources generate id p actor x).1.0 t r
          (subst (Bound p (is_out p)) (sym write) (
            revoke-agents id p x.0.clock x.0.bindings ∙ has_agent id p x.0.bindings found,
            revoke-out id p x.0.clock x.0.bindings one,
          ))).1

  -- Once a controller has deleted an identity, no protocol agent is resolved to it, whatever requests and
  -- registrations follow.
  pub deleted_identity_stays_out :
      (p : String) (t : AgentState) (a : AgentIdentityAggregate)
      → (delete_agent_identity resources generate id actor x).0 ≡ ok tt
      → Reach (delete_agent_identity resources generate id actor x).1.0 t
      → require_active_agent_identity p t ≡ ok a
      → a.identity.id ≢ id
  deleted_identity_stays_out p t a h r e same =
      let (found, write) = identity_deleted h in
      let gone =
        Gone-Reach id (delete_agent_identity resources generate id actor x).1.0 t r
          (subst (Gone id) (sym write) (deleted-Gone id x.0.clock x.0.identities found)) in
      let b = resolved-Backing (λ row. true) (is_gone id) p t a (every_row t.bindings) gone.1 e in
      absurd (ground (arith, b.identity_passes, b.live, (eq_iff a.identity.id id).1 same))

  -- Revoking the host of one protocol agent unbinds every protocol agent of the identity: right after
  -- it, each of them that was bound is refused as not bound to an active identity.
  pub revoked_host_unbinds_all :
      (p q : String)
      → IsSound x.0
      → any (is_active_binding_of id q) x.0.bindings ≡ true
      → (revoke_agent_identity_host resources generate id p actor x).0 ≡ ok tt
      → require_active_agent_identity q
          (revoke_agent_identity_host resources generate id p actor x).1.0
        ≡ err (
            forbidden_error
              "Agent protocol identity is not bound to an active Realmroot Agent identity.")
  revoked_host_unbinds_all p q sound other h =
      let (found, write) = host_revoked p h in
      out_of_use q (revoke_agent_identity_host resources generate id p actor x).1.0 (
        ap (all (is_out q)) write
        ∙ revoke-out id q x.0.clock x.0.bindings
            (no_binding_clash id q x.0.bindings sound.bound_once other))
