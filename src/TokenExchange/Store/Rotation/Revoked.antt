-- ===== src/TokenExchange/Store/Rotation/Revoked.antt =====
-- Revoked families along the steps that requests take.
use realmroot.Prelude.{
  Reaches, ℕ, String, true, false, ◌&&◌, some, List, [], ◌∷◌, ◌++◌, map, any, includes, is_some,
  ◌==◌, ◌≡◌, ◌+◌, ◌≤◌, filter, arith, eq_iff, inl, inr, Bool-cases, subst, sym, ◌∙◌,
}
use mathlib.Core.List.{append-nil}
use realmroot.TokenExchange.{State, RefreshToken}
use realmroot.TokenExchange.Store.{
  store_refresh_token, rotate_refresh_token, revoke_refresh_token_family, consume_refresh_token,
  is_active, is_active_parent, consume_parent, copies,
}
use realmroot.TokenExchange.Store.Rotation.{families, is_row, is_dead, Step, Reach}
use realmroot.TokenExchange.Store.Rotation.Counts
use realmroot.TokenExchange.Store.Rotation.Families.{IsSound, family_one, active_one}
use realmroot.TokenExchange.Store.Rotation.Steps.{IsSound-Reach, empty-IsSound}
use realmroot.TokenExchange.Store.Rotation.Dead.{
  dead-consume, dead-revoke, dead-revoke_by_id, dead-snoc, dead-count,
}

-- A token that is in use is counted in its family.
counted :
    (f p : String) (xs : List RefreshToken) (x : RefreshToken)
    → filter (is_active_parent (some p)) xs ≡ x ∷ []
    → is_active x ≡ true
    → x.family_id ≡ f
    → 1 ≤ Counts.count f xs
counted f p xs x e active family =
    let total : Counts.count f (map (consume_parent (some p) 0) xs) + Counts.count f (x ∷ [])
        ≡ Counts.count f xs =
      subst
        (λ ys.
          Counts.count f (map (consume_parent (some p) 0) xs) + Counts.count f ys
          ≡ Counts.count f xs)
        e (Counts.count-consume f (some p) 0 xs) in
    ground (arith, total, eq_iff x.family_id f)

dead-rotate :
    (f p : String) (now : ℕ) (xs : List RefreshToken) (child : RefreshToken)
    → IsSound xs
    → any (is_row p child.family_id) xs ≡ true
    → is_dead f xs ≡ true
    → is_dead f (
        map
          (consume_parent (some p) now)
          (xs ++ copies child (filter (is_active_parent (some p)) xs)))
      ≡ true
dead-rotate f p now xs child sound h dead = elim (Counts.one_parent p xs sound.distinct) [
  | inl e ↦ rw e (rw (append-nil xs) (dead-consume f (some p) now xs ∙ dead))
  | inr (x, e) ↦ rw e (
      dead-consume f (some p) now (xs ++ child ∷ [])
      ∙ dead-snoc f xs child
          (ground (
            arith,
            counted child.family_id p xs x e (active_one p xs x e)
                (family_one p child.family_id xs x sound.distinct h e),
            dead-count f xs dead,
            eq_iff child.family_id f,
          ))
          dead)
]

dead-store :
    (f : String) (token : RefreshToken) (s : State)
    → includes (families s.refresh_tokens) token.family_id ≡ false
    → is_dead f s.refresh_tokens ≡ true
    → is_dead f (store_refresh_token token s).1.refresh_tokens ≡ true
unfolding store_refresh_token
dead-store f token s new dead =
    let appended : is_dead f (s.refresh_tokens ++ token ∷ []) ≡ true =
      dead-snoc f s.refresh_tokens token (ground (arith, eq_iff token.family_id f)) dead in
    elim (Bool-cases (
      any (λ row. row.family_id == token.family_id && is_some row.revoked_at)
        (s.refresh_tokens ++ token ∷ []))) [
          | inl e ↦
              rw e (dead-revoke_by_id f token.id s.clock (s.refresh_tokens ++ token ∷ []) appended)
          | inr e ↦ rw e appended
        ]

abbrev Dead : String → List RefreshToken → Type 0
Dead f rows = is_dead f rows ≡ true

Dead-Step :
    (f : String) (s s' : State)
    → IsSound s.refresh_tokens
    → Dead f s.refresh_tokens
    → Step s s'
    → Dead f s'.refresh_tokens
unfolding rotate_refresh_token consume_refresh_token revoke_refresh_token_family
Dead-Step f s s' sound dead (Step.issued token fresh new e) =
    subst (Dead f) (sym e) (dead-store f token s new dead)
Dead-Step f s s' sound dead (Step.rotated child access_token p parent h fresh e) =
    subst (Dead f) (sym e) (
      subst
        (λ o. Dead f (
          map (consume_parent o s.clock)
            (s.refresh_tokens ++ copies child (filter (is_active_parent o) s.refresh_tokens))))
        (sym parent) (dead-rotate f p s.clock s.refresh_tokens child sound h dead))
Dead-Step f s s' sound dead (Step.consumed id at e) =
    subst (Dead f) (sym e) (dead-consume f (some id) at s.refresh_tokens ∙ dead)
Dead-Step f s s' sound dead (Step.revoked g at e) =
    subst (Dead f) (sym e) (dead-revoke f g at s.refresh_tokens dead)
Dead-Step f s s' sound dead (Step.unchanged e) = subst (Dead f) (sym e) dead

Dead-Reach :
    (f : String) (s s' : State)
    → IsSound s.refresh_tokens
    → Dead f s.refresh_tokens
    → Reach s s'
    → Dead f s'.refresh_tokens
Dead-Reach f s s' sound dead Reaches.here = dead
Dead-Reach f s s' sound dead (Reaches.step {t} r h) =
    Dead-Step f t s' (IsSound-Reach s t sound r) (Dead-Reach f s t sound dead r) h

-- Starting without tokens, a family whose tokens were all revoked stays so in every order of the
-- requests' statements that follow, and none of its tokens is in use again.
pub revoked_family_stays_revoked :
    (s t u : State) (f : String)
    → s.refresh_tokens ≡ []
    → Reach s t
    → Reach t u
    → is_dead f t.refresh_tokens ≡ true
    → (is_dead f u.refresh_tokens ≡ true) × (Counts.count f u.refresh_tokens ≡ 0)
revoked_family_stays_revoked s t u f e r r' dead =
    let later = Dead-Reach f t u (IsSound-Reach s t (empty-IsSound s e) r) dead r' in
    (later, dead-count f u.refresh_tokens later)
