-- ===== src/TokenExchange/Refresh/Succeeds.antt =====
-- When a refresh succeeds.
use realmroot.Prelude.{
  ℕ, String, Bool, true, false, Option, some, List, [], ◌∷◌, ◌++◌, ◌==◌, ◌≡◌, refl, find, filter,
  map, any, includes, arith, eq_refl, ap, ◌∙◌, sym, subst, get_or, Bool-cases, inl, inr, length,
}
use realmroot.Directory.{Directory}
use realmroot.TokenExchange.{State, RefreshToken, AccessToken}
use realmroot.TokenExchange.Store.{rotate_refresh_token, is_active_parent, consume_parent, copies}
use realmroot.TokenExchange.Store.Rotation.{ids}
use realmroot.TokenExchange.Store.Rotation.Counts
use realmroot.TokenExchange.Store.Rotation.Families.{IsSound, filter-snoc}
use realmroot.TokenExchange.Refresh.Once.{find-kept-hash, find-dropped-hash}

-- A row that is found by its hash and passes a test is among those that pass it.
pub found-filter :
    (h : String) (q : RefreshToken → Bool) (xs : List RefreshToken) (row : RefreshToken)
    → find (λ x. x.token_hash == h) xs ≡ some row
    → q row ≡ true
    → any q xs ≡ true
found-filter h q [] row e k = cc
found-filter h q (x ∷ xs) row e k = elim (Bool-cases (x.token_hash == h)) [
  | inl kept ↦
      let same : x ≡ row = ap (λ o. get_or o x) (sym (find-kept-hash h x xs kept) ∙ e) in
      rw (subst (λ r. q r ≡ true) (sym same) k) refl
  | inr dropped ↦
      ground (arith, found-filter h q xs row (sym (find-dropped-hash h x xs dropped) ∙ e) k)
]

any-of_nil :
    (q : RefreshToken → Bool) (xs : List RefreshToken) → filter q xs ≡ [] → any q xs ≡ false
any-of_nil q [] e = refl
any-of_nil q (x ∷ xs) e = ground (arith, any-of_nil q xs)

no_row_with :
    (id : String) (o : Option String) (now : ℕ) (xs : List RefreshToken)
    → includes (ids xs) id ≡ false
    → filter (λ row. row.id == id) (map (consume_parent o now) xs) ≡ []
no_row_with id o now [] h = refl
no_row_with id o now (x ∷ xs) h = ground (arith, no_row_with id o now xs)

-- The rows with a new id, once it is appended
one_row_with :
    (o : Option String) (now : ℕ) (xs : List RefreshToken) (new : RefreshToken)
    → includes (ids xs) new.id ≡ false
    → length (filter (λ row. row.id == new.id) (map (consume_parent o now) (xs ++ new ∷ []))) ≡ 1
one_row_with o now [] new h = ground (arith, eq_refl new.id)
one_row_with o now (x ∷ xs) new h = ground (arith, one_row_with o now xs new)

length-copies {ℓ κ} :
    {A : Type ℓ} {B : Type κ} (v : B) (xs : List A) → length (copies v xs) ≡ length xs
length-copies v [] = refl
length-copies v (x ∷ xs) = ground (arith, length-copies v xs)

-- A batch for an active parent, with a new id, is stored as a whole.
pub rotate_refresh_token-of_active :
    (new : RefreshToken) (access_token : AccessToken) (s : State) (p : String)
    → new.parent_id ≡ some p
    → IsSound s.refresh_tokens
    → any (is_active_parent (some p)) s.refresh_tokens ≡ true
    → (new.id == p) ≡ false
    → includes (ids s.refresh_tokens) new.id ≡ false
    → (rotate_refresh_token new access_token s).0 ≡ true
unfolding rotate_refresh_token
rotate_refresh_token-of_active new access_token s p parent sound active other fresh =
    elim (Counts.one_parent p s.refresh_tokens sound.distinct) [
      | inl e ↦ ground (arith, any-of_nil (is_active_parent (some p)) s.refresh_tokens e)
      | inr (x, e) ↦
          let e' : filter (is_active_parent new.parent_id) s.refresh_tokens ≡ x ∷ [] =
            subst (λ o. filter (is_active_parent o) s.refresh_tokens ≡ x ∷ []) (sym parent) e in
          let snoc : filter (is_active_parent new.parent_id) (s.refresh_tokens ++ new ∷ [])
              ≡ x ∷ [] =
            subst (λ o. filter (is_active_parent o) (s.refresh_tokens ++ new ∷ []) ≡ x ∷ [])
              (sym parent) (filter-snoc p s.refresh_tokens new other ∙ e) in
          rw
            (
              e',
              snoc,
              length-copies access_token (
                  filter (λ row. row.id == new.id)
                    (map (consume_parent new.parent_id s.clock) (s.refresh_tokens ++ new ∷ []))),
              one_row_with new.parent_id s.clock s.refresh_tokens new fresh,
            )
            refl
    ]
