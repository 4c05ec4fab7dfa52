-- ===== src/Prelude/Searches.antt =====
-- The members of a list, and those that a search finds.
use mathlib.Core.Path.{◌≡◌, subst}
use mathlib.Core.Logic.{Lift, ◌⊎◌, inl, inr}
use mathlib.Core.Bool.{Bool, true, false}
use mathlib.Core.Option.{some}
use mathlib.Core.List.{List, [], ◌∷◌}
use realmroot.Prelude.Tests.{Bool-cases}
use realmroot.Prelude.Lists.{find, filter}

module _ {ℓ} {A : Type ℓ} where
  -- The value is a member of the list.
  abbrev pub Among : A → List A → Type ℓ
  Among x [] = Lift ⊥
  Among x (y ∷ ys) = (y ≡ x) ⊎ Among x ys

  some-injective : {x y : A} → some x ≡ some y → x ≡ y
  some-injective e = cc

  pub find-Among : (p : A → Bool) (xs : List A) (x : A) → find p xs ≡ some x → Among x xs
  find-Among p [] x h = cc
  find-Among p (y ∷ xs) x h = elim (Bool-cases (p y)) [
    | inl e ↦ inl (some-injective (rw e at h))
    | inr e ↦ inr (find-Among p xs x (rw e at h))
  ]

  pub filter-Among :
      (p : A → Bool) (xs : List A) (x : A) → Among x (filter p xs) → Among x xs × (p x ≡ true)
  filter-Among p [] x m = absurd m.lower
  filter-Among p (y ∷ xs) x m = split (filter-Among p xs x) (Bool-cases (p y)) m
    where
      split :
          (Among x (filter p xs) → Among x xs × (p x ≡ true))
          → (p y ≡ true) ⊎ (p y ≡ false)
          → Among x (filter p (y ∷ xs))
          → Among x (y ∷ xs) × (p x ≡ true)
      split later (inl e) n = elim (rw e at n) [
        | inl same ↦ (inl same, subst (λ z. p z ≡ true) same e)
        | inr k ↦ (inr (later k).0, (later k).1)
      ]
      split later (inr e) n = let k = rw e at n in (inr (later k).0, (later k).1)
