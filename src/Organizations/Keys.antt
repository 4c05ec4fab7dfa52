-- ===== src/Organizations/Keys.antt =====
-- What the primary key of `member` says of the row that is found under an id.
use realmroot.Prelude.{
  String, Bool, true, false, not, some, List, [], ◌∷◌, map, any, filter, find, includes, ◌==◌, ◌≡◌,
  refl, sym, ap, subst, arith, eq_iff, Bool-cases, inl, inr, no_clash,
}
use realmroot.Organizations.{MemberRow}

abbrev pub has_id : String → MemberRow → Bool
has_id id row = row.id == id

-- The primary key of `member`
abbrev pub same_id : MemberRow → MemberRow → Bool
same_id x y = x.id == y.id

some-injective : {x y : MemberRow} → some x ≡ some y → x ≡ y
some-injective e = cc

none_kept :
    (id : String) (p : MemberRow → Bool) (xs : List MemberRow)
    → any (has_id id) xs ≡ false
    → any (has_id id) (filter (λ x. not (p x)) xs) ≡ false
none_kept id p [] h = refl
none_kept id p (x ∷ xs) h = elim (Bool-cases (p x)) [
  | inl k ↦ rw k (none_kept id p xs (ground (arith, h)))
  | inr k ↦ rw k (ground (arith, h, none_kept id p xs))
]

-- Under the primary key, what some row with the id passes, the row found under the id passes.
module _ (p : MemberRow → Bool) (id : String)
    (keyed : (x : MemberRow) → p x ≡ true → has_id id x ≡ true) where
  clash_of :
      (x : MemberRow) (xs : List MemberRow)
      → has_id id x ≡ true
      → any (has_id id) xs ≡ true
      → any (same_id x) xs ≡ true
  clash_of x [] h k = cc
  clash_of x (y ∷ xs) h k =
      ground (arith, h, k, clash_of x xs h, eq_iff x.id id, eq_iff y.id id, eq_iff x.id y.id)

  any_keyed : (xs : List MemberRow) → any p xs ≡ true → any (has_id id) xs ≡ true
  any_keyed [] h = cc
  any_keyed (x ∷ xs) h = ground (arith, keyed x, any_keyed xs)

  pub found_passes :
      (xs : List MemberRow) (row : MemberRow)
      → no_clash same_id xs ≡ true
      → find (has_id id) xs ≡ some row
      → any p xs ≡ true
      → p row ≡ true
  found_passes [] row u f h = cc
  found_passes (x ∷ xs) row u f h = elim (Bool-cases (has_id id x)) [
    | inl e ↦
        let same : x ≡ row = some-injective (rw e at f) in
        subst (λ z. p z ≡ true) same (ground (arith, h, u, any_keyed xs, clash_of x xs e))
    | inr e ↦ found_passes xs row (ground (arith, u)) (rw e at f) (ground (arith, h, keyed x, e))
  ]

  pub found_filtered :
      (xs : List MemberRow) (row : MemberRow)
      → no_clash same_id xs ≡ true
      → find (has_id id) xs ≡ some row
      → p row ≡ true
      → any (has_id id) (filter (λ x. not (p x)) xs) ≡ false
  found_filtered [] row u f h = refl
  found_filtered (x ∷ xs) row u f h = elim (Bool-cases (has_id id x)) [
    | inl e ↦
        let same : x ≡ row = some-injective (rw e at f) in
        let passes : p x ≡ true = subst (λ z. p z ≡ true) (sym same) h in
        rw passes (none_kept id p xs (ground (arith, u, clash_of x xs e)))
    | inr e ↦ elim (Bool-cases (p x)) [
      | inl k ↦ absurd (ground (arith, keyed x k, e))
      | inr k ↦ rw (k, e) (found_filtered xs row (ground (arith, u)) (rw e at f) h)
    ]
  ]

-- The user of a row that passes is among the users of those that pass.
pub found_user :
    (p : MemberRow → Bool) (id : String) (xs : List MemberRow) (row : MemberRow)
    → find (has_id id) xs ≡ some row
    → p row ≡ true
    → includes (map (λ x. x.user_id) (filter p xs)) row.user_id ≡ true
found_user p id [] row f h = cc
found_user p id (x ∷ xs) row f h = elim (Bool-cases (has_id id x)) [
  | inl e ↦
      let same : x ≡ row = some-injective (rw e at f) in
      let passes : p x ≡ true = subst (λ z. p z ≡ true) (sym same) h in
      rw passes (ground (arith, (eq_iff x.user_id row.user_id).1 (ap (λ z. z.user_id) same)))
  | inr e ↦ elim (Bool-cases (p x)) [
    | inl k ↦ rw k (ground (arith, found_user p id xs row (rw e at f) h))
    | inr k ↦ rw k (found_user p id xs row (rw e at f) h)
  ]
]
