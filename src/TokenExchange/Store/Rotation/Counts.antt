-- ===== src/TokenExchange/Store/Rotation/Counts.antt =====
-- How the statements on the refresh tokens change what is in use of each family.
use realmroot.Prelude.{
  ℕ, String, false, Option, some, List, [], ◌∷◌, ◌++◌, map, includes, ◌≡◌, refl, ◌+◌, ◌≤◌, suc,
  filter, if◌then◌else◌, arith, eq_iff, IsDistinct, includes-append, ◌⊎◌, inl, inr, Bool-cases,
}
use realmroot.TokenExchange.{RefreshToken}
use realmroot.TokenExchange.Store.{is_active_parent, consume_parent, revoke_in_family}
use realmroot.TokenExchange.Store.Rotation.{ids, in_use}

abbrev pub count : String → List RefreshToken → ℕ
count f [] = 0
count f (x ∷ xs) = let rest = count f xs in if in_use f x then suc rest else rest

pub count-append :
    (f : String) (xs ys : List RefreshToken) → count f (xs ++ ys) ≡ count f xs + count f ys
count-append f [] ys = ground arith
count-append f (x ∷ xs) ys = ground (arith, count-append f xs ys)

pub ids-revoke :
    (f : String) (now : ℕ) (xs : List RefreshToken) → ids (map (revoke_in_family f now) xs) ≡ ids xs
ids-revoke f now [] = refl
ids-revoke f now (x ∷ xs) = ground (arith, ids-revoke f now xs)

pub ids-consume :
    (p : Option String) (now : ℕ) (xs : List RefreshToken)
    → ids (map (consume_parent p now) xs) ≡ ids xs
ids-consume p now [] = refl
ids-consume p now (x ∷ xs) = ground (arith, ids-consume p now xs)

pub count-revoke :
    (f g : String) (now : ℕ) (xs : List RefreshToken)
    → count f (map (revoke_in_family g now) xs) ≤ count f xs
count-revoke f g now [] = omega arith
count-revoke f g now (x ∷ xs) = ground (arith, count-revoke f g now xs)

-- What consuming takes from a family was among the parents.
pub count-consume :
    (f : String) (p : Option String) (now : ℕ) (xs : List RefreshToken)
    → count f (map (consume_parent p now) xs) + count f (filter (is_active_parent p) xs)
      ≡ count f xs
count-consume f p now [] = refl
count-consume f p now (x ∷ xs) = ground (arith, count-consume f p now xs)

pub parents-nil :
    (p : String) (xs : List RefreshToken)
    → includes (ids xs) p ≡ false
    → filter (is_active_parent (some p)) xs ≡ []
parents-nil p [] h = refl
parents-nil p (x ∷ xs) h = ground (arith, parents-nil p xs, eq_iff x.id p, eq_iff p x.id)

-- The ids are distinct, so that one row at most is a parent.
pub one_parent :
    (p : String) (xs : List RefreshToken)
    → IsDistinct (ids xs)
    → (filter (is_active_parent (some p)) xs ≡ [])
      ⊎ ((x : RefreshToken) × (filter (is_active_parent (some p)) xs ≡ x ∷ []))
one_parent p [] d = inl refl
one_parent p (x ∷ xs) d = elim (Bool-cases (is_active_parent (some p) x)) [
  | inl kept ↦ inr (x, ground (arith, parents-nil p xs, eq_iff x.id p, eq_iff p x.id))
  | inr dropped ↦ rw dropped (one_parent p xs d.1)
]

pub IsDistinct-append :
    (xs : List String) (v : String)
    → IsDistinct xs
    → includes xs v ≡ false
    → IsDistinct (xs ++ v ∷ [])
IsDistinct-append [] v d h = (refl, tt)
IsDistinct-append (x ∷ xs) v d h = (
  ground (arith, includes-append xs (v ∷ []) x, eq_iff x v, eq_iff v x),
  IsDistinct-append xs v d.1 (ground arith),
)
