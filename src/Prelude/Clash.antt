-- ===== src/Prelude/Clash.antt =====
-- Lists no two rows of which clash, as under a unique index, and tests on all the rows.
use mathlib.Core.Path.{◌≡◌, refl}
use mathlib.Core.Bool.{Bool, true, false, not, ◌&&◌, ◌||◌}
use mathlib.Core.List.{List, [], ◌∷◌, ◌++◌, map}
use native.Mathlib.Omega.{arith}
use realmroot.Prelude.Lists.{any, all, filter}

-- No two rows of a list clash.
abbrev pub no_clash {ℓ} : {A : Type ℓ} → (A → A → Bool) → List A → Bool
no_clash clash [] = true
no_clash clash (x ∷ xs) = not (any (clash x) xs) && no_clash clash xs

module _ {ℓ} {A : Type ℓ} where
  pub any-append : (p : A → Bool) (xs ys : List A) → any p (xs ++ ys) ≡ (any p xs || any p ys)
  any-append p [] ys = refl
  any-append p (x ∷ xs) ys = ground (arith, any-append p xs ys)

  pub any-map :
      (p : A → Bool) (f : A → A) (xs : List A)
      → ((x : A) → p (f x) ≡ p x)
      → any p (map f xs) ≡ any p xs
  any-map p f [] h = refl
  any-map p f (x ∷ xs) h = ground (arith, h x, any-map p f xs h)

  -- A row that clashes with none of the others may come last.
  pub no_clash-snoc :
      (clash : A → A → Bool) (xs : List A) (y : A)
      → ((x : A) → clash x y ≡ clash y x)
      → no_clash clash xs ≡ true
      → any (clash y) xs ≡ false
      → no_clash clash (xs ++ y ∷ []) ≡ true
  no_clash-snoc clash [] y same h fresh = refl
  no_clash-snoc clash (x ∷ xs) y same h fresh =
      ground (arith, same x, any-append (clash x) xs (y ∷ []), no_clash-snoc clash xs y same)

  pub no_clash-map :
      (clash : A → A → Bool) (f : A → A) (xs : List A)
      → ((x y : A) → clash (f x) (f y) ≡ clash x y)
      → no_clash clash (map f xs) ≡ no_clash clash xs
  no_clash-map clash f [] h = refl
  no_clash-map clash f (x ∷ xs) h = ground (arith, any_clash xs, no_clash-map clash f xs h)
    where
      any_clash : (ys : List A) → any (clash (f x)) (map f ys) ≡ any (clash x) ys
      any_clash [] = refl
      any_clash (y ∷ ys) = ground (arith, h x y, any_clash ys)

  pub all-append : (p : A → Bool) (xs ys : List A) → all p (xs ++ ys) ≡ (all p xs && all p ys)
  all-append p [] ys = refl
  all-append p (x ∷ xs) ys = ground (arith, all-append p xs ys)

  pub all_imp :
      (p q : A → Bool) (xs : List A)
      → ((x : A) → p x ≡ true → q x ≡ true)
      → all p xs ≡ true
      → all q xs ≡ true
  all_imp p q [] h k = refl
  all_imp p q (x ∷ xs) h k = ground (arith, h x, all_imp p q xs h)

  pub all-map :
      (p : A → Bool) (f : A → A) (xs : List A)
      → ((x : A) → p (f x) ≡ p x)
      → all p (map f xs) ≡ all p xs
  all-map p f [] h = refl
  all-map p f (x ∷ xs) h = ground (arith, h x, all-map p f xs h)

  pub all-cong : (p q : A → Bool) (xs : List A) → ((x : A) → p x ≡ q x) → all p xs ≡ all q xs
  all-cong p q [] h = refl
  all-cong p q (x ∷ xs) h = ground (arith, h x, all-cong p q xs h)

  pub any-cong : (p q : A → Bool) (xs : List A) → ((x : A) → p x ≡ q x) → any p xs ≡ any q xs
  any-cong p q [] h = refl
  any-cong p q (x ∷ xs) h = ground (arith, h x, any-cong p q xs h)

  -- A test that some row passes, after the rows have been rewritten or filtered
  pub any-map_imp :
      (p q : A → Bool) (f : A → A) (xs : List A)
      → ((x : A) → p x ≡ true → q (f x) ≡ true)
      → any p xs ≡ true
      → any q (map f xs) ≡ true
  any-map_imp p q f [] h k = cc
  any-map_imp p q f (x ∷ xs) h k = ground (arith, h x, any-map_imp p q f xs h)

  pub any-filter_imp :
      (p q keep : A → Bool) (xs : List A)
      → ((x : A) → p x ≡ true → (q x && keep x) ≡ true)
      → any p xs ≡ true
      → any q (filter keep xs) ≡ true
  any-filter_imp p q keep [] h k = cc
  any-filter_imp p q keep (x ∷ xs) h k = ground (arith, h x, any-filter_imp p q keep xs h)

  pub all-map_imp :
      (p q : A → Bool) (f : A → A) (xs : List A)
      → ((x : A) → p x ≡ true → q (f x) ≡ true)
      → all p xs ≡ true
      → all q (map f xs) ≡ true
  all-map_imp p q f [] h k = refl
  all-map_imp p q f (x ∷ xs) h k = ground (arith, h x, all-map_imp p q f xs h)

  pub all-filter_imp :
      (p q keep : A → Bool) (xs : List A)
      → ((x : A) → p x ≡ true → keep x ≡ true → q x ≡ true)
      → all p xs ≡ true
      → all q (filter keep xs) ≡ true
  all-filter_imp p q keep [] h k = refl
  all-filter_imp p q keep (x ∷ xs) h k = ground (arith, h x, all-filter_imp p q keep xs h)
