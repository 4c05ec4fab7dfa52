-- ===== src/Prelude/Lists/Sets.antt =====
-- What a list of texts contains, under each operation.
use Prim.Native.String.{String}
use mathlib.Core.Path.{◌≡◌, refl, ◌∙◌}
use mathlib.Core.Bool.{Bool, true, false, not, ◌&&◌, ◌||◌}
use mathlib.Core.List.{List, [], ◌∷◌, ◌++◌, map}
use native.Mathlib.Omega.{arith}
use text.Mathlib.Text.{◌==◌}
use text.Mathlib.TextEquality.{eq_iff}
use realmroot.Prelude.Lists.{
  includes, filter, all, dedupe_from, dedupe, insert_sorted, sort, All, any, flat_map,
}

pub includes-append :
    (xs ys : List String) (v : String) → includes (xs ++ ys) v ≡ (includes xs v || includes ys v)
includes-append [] ys v = refl
includes-append (x ∷ xs) ys v = ground (arith, includes-append xs ys v)

pub includes-filter :
    (p : String → Bool) (xs : List String) (v : String)
    → includes (filter p xs) v ≡ (includes xs v && p v)
includes-filter p [] v = refl
includes-filter p (x ∷ xs) v = ground (arith, includes-filter p xs v, eq_iff x v)

pub includes-dedupe_from :
    (seen xs : List String) (v : String)
    → includes (dedupe_from seen xs) v ≡ (includes xs v && not (includes seen v))
unfolding dedupe_from
includes-dedupe_from seen [] v = refl
includes-dedupe_from seen (x ∷ xs) v =
    ground (arith, includes-dedupe_from seen xs v, includes-dedupe_from (x ∷ seen) xs v, eq_iff x v)

pub includes-dedupe : (xs : List String) (v : String) → includes (dedupe xs) v ≡ includes xs v
unfolding dedupe
includes-dedupe xs v = ground (arith, includes-dedupe_from [] xs v)

includes-insert_sorted :
    (x : String) (ys : List String) (v : String)
    → includes (insert_sorted x ys) v ≡ ((x == v) || includes ys v)
unfolding insert_sorted
includes-insert_sorted x [] v = refl
includes-insert_sorted x (y ∷ ys) v = ground (arith, includes-insert_sorted x ys v)

pub includes-sort : (xs : List String) (v : String) → includes (sort xs) v ≡ includes xs v
unfolding sort
includes-sort [] v = refl
includes-sort (x ∷ xs) v = ground (arith, includes-insert_sorted x (sort xs) v, includes-sort xs v)

pub includes-flat_map {ℓ} :
    {A : Type ℓ} (f : A → List String) (xs : List A) (v : String)
    → includes (flat_map f xs) v ≡ any (λ x. includes (f x) v) xs
includes-flat_map f [] v = refl
includes-flat_map f (x ∷ xs) v =
    includes-append (f x) (flat_map f xs) v ∙ rw (includes-flat_map f xs v)

-- What `map f (filter p xs)` contains.
pub includes-map-filter {ℓ} :
    {A : Type ℓ} (f : A → String) (p : A → Bool) (xs : List A) (v : String)
    → includes (map f (filter p xs)) v ≡ any (λ x. p x && f x == v) xs
includes-map-filter f p [] v = refl
includes-map-filter f p (x ∷ xs) v = ground (arith, includes-map-filter f p xs v)

pub ruleset sets = (includes-append, includes-filter, includes-dedupe, includes-sort)

-- Every member of a list that passes `all` passes the test.
pub all-includes :
    (p : String → Bool) (xs : List String) (v : String)
    → all p xs ≡ true
    → includes xs v ≡ true
    → p v ≡ true
all-includes p [] v h m = cc
all-includes p (x ∷ xs) v h m = ground (arith, all-includes p xs v, eq_iff x v)

-- A list whose members another list contains adds nothing to it.
pub includes_of_all :
    (ys xs : List String) (v : String)
    → all (includes ys) xs ≡ true
    → (includes xs v && includes ys v) ≡ includes xs v
includes_of_all ys [] v h = refl
includes_of_all ys (x ∷ xs) v h = ground (arith, includes_of_all ys xs v, eq_iff x v)

pub any-includes :
    (p : String → Bool) (xs : List String) (v : String)
    → includes xs v ≡ true
    → p v ≡ true
    → any p xs ≡ true
any-includes p [] v m h = cc
any-includes p (x ∷ xs) v m h = ground (arith, any-includes p xs v, eq_iff x v)

-- A list without repetitions.
abbrev pub IsDistinct : List String → Type 0
IsDistinct [] = Unit
IsDistinct (x ∷ xs) = (includes xs x ≡ false) × IsDistinct xs

dedupe_from-IsDistinct : (seen xs : List String) → IsDistinct (dedupe_from seen xs)
unfolding dedupe_from
dedupe_from-IsDistinct seen [] = tt
dedupe_from-IsDistinct seen (x ∷ xs) = ground (
  arith,
  dedupe_from-IsDistinct seen xs,
  dedupe_from-IsDistinct (x ∷ seen) xs,
  includes-dedupe_from (x ∷ seen) xs x,
  eq_iff x x,
)

pub dedupe-IsDistinct : (xs : List String) → IsDistinct (dedupe xs)
unfolding dedupe
dedupe-IsDistinct xs = dedupe_from-IsDistinct [] xs

abbrev IsFresh : List String → List String → Type 0
IsFresh seen xs = All (λ x. includes seen x ≡ false) xs

IsFresh-cons :
    (x : String) (seen xs : List String)
    → includes xs x ≡ false
    → IsFresh seen xs
    → IsFresh (x ∷ seen) xs
IsFresh-cons x seen [] h f = tt
IsFresh-cons x seen (y ∷ xs) h f = ground (arith, IsFresh-cons x seen xs, eq_iff x y, eq_iff y x)

dedupe_from_of_distinct :
    (seen xs : List String) → IsDistinct xs → IsFresh seen xs → dedupe_from seen xs ≡ xs
unfolding dedupe_from
dedupe_from_of_distinct seen [] d f = refl
dedupe_from_of_distinct seen (x ∷ xs) d f =
    ground (arith, dedupe_from_of_distinct (x ∷ seen) xs d.1, IsFresh-cons x seen xs d.0 f.1)

IsFresh-nil : (xs : List String) → IsFresh [] xs
IsFresh-nil [] = tt
IsFresh-nil (x ∷ xs) = (refl, IsFresh-nil xs)

pub dedupe_of_distinct : (xs : List String) → IsDistinct xs → dedupe xs ≡ xs
unfolding dedupe
dedupe_of_distinct xs d = dedupe_from_of_distinct [] xs d (IsFresh-nil xs)

pub filter-all : (p : String → Bool) (xs : List String) → all p xs ≡ true → filter p xs ≡ xs
filter-all p [] h = refl
filter-all p (x ∷ xs) h = ground (arith, filter-all p xs)
