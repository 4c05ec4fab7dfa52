-- ===== src/Agents/Sound.antt =====
-- The invariant of the tables of agent identities: what each write of a row keeps.
pub mod Kept
use realmroot.Prelude.{
  ℕ, String, Bool, true, false, not, ◌&&◌, ◌||◌, Option, none, some, List, [], ◌∷◌, ◌++◌, map, any,
  all, holds, ◌==◌, ◌≡◌, refl, arith, eq_iff, subst, sym, ap, ◌∙◌, no_clash, no_clash-snoc,
  no_clash-map, any-append, any-map, all-append, all_imp, all-map, Bool-cases, inl, inr, or_false,
  and_true, false_of_not, includes,
}
use realmroot.Agents.{AgentIdentityRecord, AgentIdentityBinding, AgentRecord, AgentState}
use realmroot.Agents.Store.{same_username, is_taken_by, is_bound_by, has_agent_id, is_identity}
use realmroot.Agents.Store.Writes.{
  claim_row, is_claimable, revoke_row, revoke_agent, deactivate_row, activate_row, delete_row,
  is_activatable, is_active_binding,
}
use realmroot.Agents.Steps.{is_agent_of, is_owned, is_owned_binding, Step, Reach, IsSound}

eq_sym : (a b : String) → (a == b) ≡ (b == a)
eq_sym a b = ground (arith, eq_iff a b, eq_iff b a)

same_username_sym : (a b : Option String) → same_username a b ≡ same_username b a
same_username_sym none none = refl
same_username_sym none (some b) = refl
same_username_sym (some a) none = refl
same_username_sym (some a) (some b) = eq_sym b a

pub is_taken_by_sym : (x y : AgentIdentityRecord) → is_taken_by x y ≡ is_taken_by y x
is_taken_by_sym x y =
    rw
      (
        eq_sym x.id y.id,
        eq_sym x.issuer y.issuer,
        eq_sym x.subject y.subject,
        same_username_sym x.username y.username,
      )
      refl

pub is_bound_by_sym : (x y : AgentIdentityBinding) → is_bound_by x y ≡ is_bound_by y x
is_bound_by_sym x y = rw (eq_sym x.id y.id, eq_sym x.protocol_agent_id y.protocol_agent_id) refl

pub taken-deactivate :
    (id : String) (now : ℕ) (x y : AgentIdentityRecord)
    → is_taken_by (deactivate_row id now x) (deactivate_row id now y) ≡ is_taken_by x y
taken-deactivate id now x y = ground arith

pub taken-activate :
    (id : String) (now : ℕ) (x y : AgentIdentityRecord)
    → is_taken_by (activate_row id now x) (activate_row id now y) ≡ is_taken_by x y
taken-activate id now x y = ground arith

pub taken-delete :
    (id : String) (now : ℕ) (x y : AgentIdentityRecord)
    → is_taken_by (delete_row id now x) (delete_row id now y) ≡ is_taken_by x y
taken-delete id now x y = ground arith

pub bound-revoke :
    (id : String) (now : ℕ) (x y : AgentIdentityBinding)
    → is_bound_by (revoke_row id now x) (revoke_row id now y) ≡ is_bound_by x y
bound-revoke id now x y = ground arith

unclaimed :
    (username name runtime : String) (now : ℕ) (x y : AgentIdentityRecord)
    → is_taken_by x y ≡ false
    → holds x.username username ≡ false
    → is_taken_by x (record y {
      username = some username;
      name = name;
      runtime = some runtime;
      updated_at = now;
    })
      ≡ false
unclaimed username name runtime now x y h k =
    ground (arith, same_username_sym x.username (some username))

claim_pair :
    (id username name runtime : String) (now : ℕ) (x y : AgentIdentityRecord)
    → is_taken_by x y ≡ false
    → holds x.username username ≡ false
    → holds y.username username ≡ false
    → is_taken_by
        (claim_row id username name runtime now x)
        (claim_row id username name runtime now y)
      ≡ false
claim_pair id username name runtime now x y h k l = elim (Bool-cases (is_claimable id x)) [
  | inl e ↦ elim (Bool-cases (is_claimable id y)) [
    | inl f ↦ ground (arith, eq_iff x.id id, eq_iff y.id id, eq_iff y.id x.id)
    | inr f ↦ rw (e, f) (ground arith)
  ]
  | inr e ↦ elim (Bool-cases (is_claimable id y)) [
    | inl f ↦ rw (e, f) (unclaimed username name runtime now x y h k)
    | inr f ↦ rw (e, f) h
  ]
]

claim_row-clash :
    (id username name runtime : String) (now : ℕ) (x : AgentIdentityRecord)
    (ys : List AgentIdentityRecord)
    → any (is_taken_by x) ys ≡ false
    → holds x.username username ≡ false
    → any (λ row. holds row.username username) ys ≡ false
    → any
        (is_taken_by (claim_row id username name runtime now x))
        (map (claim_row id username name runtime now) ys)
      ≡ false
claim_row-clash id username name runtime now x [] h k l = refl
claim_row-clash id username name runtime now x (y ∷ ys) h k l =
    let hs = or_false (is_taken_by x y) (any (is_taken_by x) ys) h in
    let ls = or_false (holds y.username username) (any (λ row. holds row.username username) ys) l in
    rw
      (
        claim_pair id username name runtime now x y hs.0 k ls.0,
        claim_row-clash id username name runtime now x ys hs.1 k ls.1,
      )
      refl

pub no_clash-claim :
    (id username name runtime : String) (now : ℕ) (xs : List AgentIdentityRecord)
    → no_clash is_taken_by xs ≡ true
    → any (λ row. holds row.username username) xs ≡ false
    → no_clash is_taken_by (map (claim_row id username name runtime now) xs) ≡ true
no_clash-claim id username name runtime now [] h k = refl
no_clash-claim id username name runtime now (x ∷ xs) h k =
    let hs = and_true (not (any (is_taken_by x) xs)) (no_clash is_taken_by xs) h in
    let ks = or_false (holds x.username username) (any (λ row. holds row.username username) xs) k in
    rw
      (
        claim_row-clash id username name runtime now x xs (false_of_not _ hs.0) ks.0 ks.1,
        no_clash-claim id username name runtime now xs hs.1 ks.1,
      )
      refl

-- What a binding's owner is tested by is in no column that is written.
module _ (agents : List AgentRecord) (aid pid id : String) (now : ℕ) (x : AgentIdentityRecord) where
  pub owned-deactivate :
      is_owned agents aid pid (deactivate_row id now x) ≡ is_owned agents aid pid x
  owned-deactivate = elim (Bool-cases (x.id == id)) [ inl e ↦ rw e refl | inr e ↦ rw e refl ]

  pub owned-activate : is_owned agents aid pid (activate_row id now x) ≡ is_owned agents aid pid x
  owned-activate = elim (Bool-cases (is_activatable id x)) [ inl e ↦ rw e refl | inr e ↦ rw e refl ]

  pub owned-delete : is_owned agents aid pid (delete_row id now x) ≡ is_owned agents aid pid x
  owned-delete = elim (Bool-cases (is_identity id x)) [ inl e ↦ rw e refl | inr e ↦ rw e refl ]

  pub owned-claim :
      (username name runtime : String)
      → is_owned agents aid pid (claim_row id username name runtime now x)
        ≡ is_owned agents aid pid x
  owned-claim username name runtime = elim (Bool-cases (is_claimable id x)) [
    | inl e ↦ rw e refl
    | inr e ↦ rw e refl
  ]

pub agent-revoke :
    (user id : String) (ids : List String) (now : ℕ) (x : AgentRecord)
    → is_agent_of user id (revoke_agent ids now x) ≡ is_agent_of user id x
agent-revoke user id ids now x = elim (Bool-cases (includes ids x.id)) [
  | inl e ↦ rw e refl
  | inr e ↦ rw e refl
]

pub binding-revoke :
    (agents : List AgentRecord) (identities : List AgentIdentityRecord) (id : String) (now : ℕ)
    (x : AgentIdentityBinding)
    → is_owned_binding agents identities (revoke_row id now x)
      ≡ is_owned_binding agents identities x
binding-revoke agents identities id now x = elim (Bool-cases (is_active_binding id x)) [
  | inl e ↦ rw e refl
  | inr e ↦ rw e refl
]
