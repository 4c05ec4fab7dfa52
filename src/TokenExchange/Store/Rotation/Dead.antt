-- ===== src/TokenExchange/Store/Rotation/Dead.antt =====
-- A family that was revoked stays revoked, whatever requests follow.
use realmroot.Prelude.{
  ℕ, String, Bool, true, false, not, ◌||◌, Option, List, [], ◌∷◌, ◌++◌, map, all, includes, is_some,
  ◌==◌, ◌≡◌, refl, arith, and_true,
}
use realmroot.TokenExchange.{RefreshToken}
use realmroot.TokenExchange.Store.{consume_parent, revoke_in_family, revoke_by_id}
use realmroot.TokenExchange.Store.Rotation.{families, is_dead}
use realmroot.TokenExchange.Store.Rotation.Counts

-- The second half of `is_dead`
abbrev all_revoked : String → List RefreshToken → Bool
all_revoked f xs = all (λ row. not (row.family_id == f) || is_some row.revoked_at) xs

pub families-consume :
    (p : Option String) (now : ℕ) (xs : List RefreshToken)
    → families (map (consume_parent p now) xs) ≡ families xs
families-consume p now [] = refl
families-consume p now (x ∷ xs) = ground (arith, families-consume p now xs)

revoked-consume :
    (f : String) (p : Option String) (now : ℕ) (xs : List RefreshToken)
    → all_revoked f (map (consume_parent p now) xs) ≡ all_revoked f xs
revoked-consume f p now [] = refl
revoked-consume f p now (x ∷ xs) = ground (arith, revoked-consume f p now xs)

pub dead-consume :
    (f : String) (p : Option String) (now : ℕ) (xs : List RefreshToken)
    → is_dead f (map (consume_parent p now) xs) ≡ is_dead f xs
dead-consume f p now xs = rw (families-consume p now xs, revoked-consume f p now xs) refl

pub families-revoke :
    (g : String) (now : ℕ) (xs : List RefreshToken)
    → families (map (revoke_in_family g now) xs) ≡ families xs
families-revoke g now [] = refl
families-revoke g now (x ∷ xs) = ground (arith, families-revoke g now xs)

revoked-revoke :
    (f g : String) (now : ℕ) (xs : List RefreshToken)
    → all_revoked f xs ≡ true
    → all_revoked f (map (revoke_in_family g now) xs) ≡ true
revoked-revoke f g now [] h = refl
revoked-revoke f g now (x ∷ xs) h = ground (arith, revoked-revoke f g now xs)

pub revoke-revoked :
    (f : String) (now : ℕ) (xs : List RefreshToken)
    → all_revoked f (map (revoke_in_family f now) xs) ≡ true
revoke-revoked f now [] = refl
revoke-revoked f now (x ∷ xs) = ground (arith, revoke-revoked f now xs)

pub dead-revoke :
    (f g : String) (now : ℕ) (xs : List RefreshToken)
    → is_dead f xs ≡ true
    → is_dead f (map (revoke_in_family g now) xs) ≡ true
dead-revoke f g now xs h = ground (arith, families-revoke g now xs, revoked-revoke f g now xs)

families-revoke_by_id :
    (id : String) (now : ℕ) (xs : List RefreshToken)
    → families (map (revoke_by_id id now) xs) ≡ families xs
families-revoke_by_id id now [] = refl
families-revoke_by_id id now (x ∷ xs) = ground (arith, families-revoke_by_id id now xs)

revoked-revoke_by_id :
    (f id : String) (now : ℕ) (xs : List RefreshToken)
    → all_revoked f xs ≡ true
    → all_revoked f (map (revoke_by_id id now) xs) ≡ true
revoked-revoke_by_id f id now [] h = refl
revoked-revoke_by_id f id now (x ∷ xs) h = ground (arith, revoked-revoke_by_id f id now xs)

pub dead-revoke_by_id :
    (f id : String) (now : ℕ) (xs : List RefreshToken)
    → is_dead f xs ≡ true
    → is_dead f (map (revoke_by_id id now) xs) ≡ true
dead-revoke_by_id f id now xs h =
    ground (arith, families-revoke_by_id id now xs, revoked-revoke_by_id f id now xs)

families-snoc :
    (f : String) (xs : List RefreshToken) (t : RefreshToken)
    → includes (families xs) f ≡ true
    → includes (families (xs ++ t ∷ [])) f ≡ true
families-snoc f [] t h = cc
families-snoc f (x ∷ xs) t h = ground (arith, families-snoc f xs t)

revoked-snoc :
    (f : String) (xs : List RefreshToken) (t : RefreshToken)
    → (t.family_id == f) ≡ false
    → all_revoked f xs ≡ true
    → all_revoked f (xs ++ t ∷ []) ≡ true
revoked-snoc f [] t other h = ground arith
revoked-snoc f (x ∷ xs) t other h = ground (arith, revoked-snoc f xs t other)

-- A row of another family changes nothing.
pub dead-snoc :
    (f : String) (xs : List RefreshToken) (t : RefreshToken)
    → (t.family_id == f) ≡ false
    → is_dead f xs ≡ true
    → is_dead f (xs ++ t ∷ []) ≡ true
dead-snoc f xs t other h = ground (arith, families-snoc f xs t, revoked-snoc f xs t other)

revoked-count :
    (f : String) (xs : List RefreshToken) → all_revoked f xs ≡ true → Counts.count f xs ≡ 0
revoked-count f [] h = refl
revoked-count f (x ∷ xs) h = ground (arith, revoked-count f xs)

pub dead-count : (f : String) (xs : List RefreshToken) → is_dead f xs ≡ true → Counts.count f xs ≡ 0
dead-count f xs h = revoked-count f xs (and_true (includes (families xs) f) (all_revoked f xs) h).1
