-- ===== src/TokenExchange/Store/Rotation/Families.antt =====
-- The invariants of the refresh tokens: one token in use of each family, and no way back for a family
-- that was revoked.
use mathlib.Core.List.{append-nil}
use realmroot.Prelude.{
  ℕ, String, true, false, Option, some, List, [], ◌∷◌, ◌++◌, map, any, All, includes, All, ◌==◌,
  ◌≡◌, refl, ◌+◌, ◌≤◌, filter, arith, eq_iff, IsDistinct, inl, inr, Bool-cases, subst, sym,
  and_true, filter-All, ◌∙◌,
}
use realmroot.TokenExchange.{RefreshToken}
use realmroot.TokenExchange.Store.{
  is_active, is_active_parent, consume_parent, revoke_in_family, copies,
}
use realmroot.TokenExchange.Store.Rotation.{ids, families, is_row}
use realmroot.TokenExchange.Store.Rotation.Counts

-- Distinct ids, and one token in use of a family at most.
pub record IsSound (rows : List RefreshToken) : Type 0 where
  pub distinct : IsDistinct (ids rows)
  pub single : (f : String) → Counts.count f rows ≤ 1

pub count-none :
    (f : String) (xs : List RefreshToken) → includes (families xs) f ≡ false → Counts.count f xs ≡ 0
count-none f [] h = refl
count-none f (x ∷ xs) h = ground (arith, count-none f xs)

pub ids-append : (xs ys : List RefreshToken) → ids (xs ++ ys) ≡ ids xs ++ ids ys
ids-append [] ys = refl
ids-append (x ∷ xs) ys = ground (arith, ids-append xs ys)

pub has_id_of_row :
    (p f : String) (xs : List RefreshToken)
    → any (is_row p f) xs ≡ true
    → includes (ids xs) p ≡ true
has_id_of_row p f [] h = cc
has_id_of_row p f (x ∷ xs) h = ground (arith, has_id_of_row p f xs)

pub inactive :
    (p : String) (x : RefreshToken) → (x.id == p) ≡ false → is_active_parent (some p) x ≡ false
inactive p x h = ground (arith, eq_iff x.id p, eq_iff p x.id)

-- The parents are of the family that `is_row` says.
pub parents-family :
    (p f : String) (xs : List RefreshToken)
    → IsDistinct (ids xs)
    → any (is_row p f) xs ≡ true
    → All (λ x. x.family_id ≡ f) (filter (is_active_parent (some p)) xs)
parents-family p f [] d h = tt
parents-family p f (x ∷ xs) d h = elim (Bool-cases (x.id == p)) [
  | inl same ↦ elim (Bool-cases (is_active_parent (some p) x)) [
    | inl kept ↦ rw kept (
      ground (arith, has_id_of_row p f xs, eq_iff x.id p, eq_iff x.family_id f),
      rw (Counts.parents-nil p xs (ground (arith, eq_iff x.id p))) tt,
    )
    | inr dropped ↦ rw dropped (rw (Counts.parents-nil p xs (ground (arith, eq_iff x.id p))) tt)
  ]
  | inr other ↦ rw (inactive p x other) (parents-family p f xs d.1 (ground arith))
]

pub IsSound-consume :
    (p : Option String) (now : ℕ) (xs : List RefreshToken)
    → IsSound xs
    → IsSound (map (consume_parent p now) xs)
IsSound-consume p now xs sound = record {
  distinct = subst IsDistinct (sym (Counts.ids-consume p now xs)) sound.distinct;
  single = λ f. omega (arith, Counts.count-consume f p now xs, sound.single f);
}

pub IsSound-revoke :
    (g : String) (now : ℕ) (xs : List RefreshToken)
    → IsSound xs
    → IsSound (map (revoke_in_family g now) xs)
IsSound-revoke g now xs sound = record {
  distinct = subst IsDistinct (sym (Counts.ids-revoke g now xs)) sound.distinct;
  single = λ f. omega (arith, Counts.count-revoke f g now xs, sound.single f);
}

pub filter-snoc :
    (p : String) (xs : List RefreshToken) (child : RefreshToken)
    → (child.id == p) ≡ false
    → filter (is_active_parent (some p)) (xs ++ child ∷ []) ≡ filter (is_active_parent (some p)) xs
filter-snoc p [] child h = ground (arith, inactive p child h)
filter-snoc p (x ∷ xs) child h = ground (arith, filter-snoc p xs child h)

-- A child takes the place of its parent in what is in use of the family.
count-child :
    (f p : String) (now : ℕ) (xs : List RefreshToken) (child x : RefreshToken)
    → filter (is_active_parent (some p)) xs ≡ x ∷ []
    → is_active x ≡ true
    → x.family_id ≡ child.family_id
    → (child.id == p) ≡ false
    → Counts.count f (map (consume_parent (some p) now) (xs ++ child ∷ [])) ≤ Counts.count f xs
count-child f p now xs child x e active family other =
    let total : Counts.count f (map (consume_parent (some p) now) (xs ++ child ∷ []))
          + Counts.count f (x ∷ [])
        ≡ Counts.count f (xs ++ child ∷ []) =
      subst
        (λ ys.
          Counts.count f (map (consume_parent (some p) now) (xs ++ child ∷ [])) + Counts.count f ys
          ≡ Counts.count f (xs ++ child ∷ []))
        (filter-snoc p xs child other ∙ e)
        (Counts.count-consume f (some p) now (xs ++ child ∷ [])) in
    ground (arith, total, Counts.count-append f xs (child ∷ []))

pub not_the_parent :
    (p f : String) (xs : List RefreshToken) (id : String)
    → any (is_row p f) xs ≡ true
    → includes (ids xs) id ≡ false
    → (id == p) ≡ false
not_the_parent p f xs id h fresh = ground (arith, has_id_of_row p f xs h, eq_iff id p)

pub active_one :
    (p : String) (xs : List RefreshToken) (x : RefreshToken)
    → filter (is_active_parent (some p)) xs ≡ x ∷ []
    → is_active x ≡ true
active_one p xs x e =
    (and_true (p == x.id) (is_active x)
      (subst (All (λ y. is_active_parent (some p) y ≡ true)) e
        (filter-All (is_active_parent (some p)) xs)).0).1

pub family_one :
    (p f : String) (xs : List RefreshToken) (x : RefreshToken)
    → IsDistinct (ids xs)
    → any (is_row p f) xs ≡ true
    → filter (is_active_parent (some p)) xs ≡ x ∷ []
    → x.family_id ≡ f
family_one p f xs x d h e = (subst (All (λ y. y.family_id ≡ f)) e (parents-family p f xs d h)).0

pub IsSound-rotate :
    (p : String) (now : ℕ) (xs : List RefreshToken) (child : RefreshToken)
    → IsSound xs
    → any (is_row p child.family_id) xs ≡ true
    → includes (ids xs) child.id ≡ false
    → IsSound (
        map
          (consume_parent (some p) now)
          (xs ++ copies child (filter (is_active_parent (some p)) xs)))
IsSound-rotate p now xs child sound h fresh = elim (Counts.one_parent p xs sound.distinct) [
  | inl e ↦ rw e (rw (append-nil xs) (IsSound-consume (some p) now xs sound))
  | inr (x, e) ↦ rw e (record {
    distinct =
        subst IsDistinct
          (sym (Counts.ids-consume (some p) now (xs ++ child ∷ []) ∙ ids-append xs (child ∷ [])))
          (Counts.IsDistinct-append (ids xs) child.id sound.distinct fresh);
    single = λ f. omega (
      arith,
      sound.single f,
      count-child f p now xs child x e (active_one p xs x e)
          (family_one p child.family_id xs x sound.distinct h e)
          (not_the_parent p child.family_id xs child.id h fresh),
    );
  })
]
