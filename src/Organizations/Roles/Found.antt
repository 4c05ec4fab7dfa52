-- ===== src/Organizations/Roles/Found.antt =====
-- What `LIKE` finds in the column `member.role`.
use Prim.Native.Char.{code}
use Prim.Native.String
use text.Mathlib.TextLemmas.{nil-append, cons-append, append_assoc}
use realmroot.Prelude.{
  ℕ, ◌||◌, String, Bool, true, List, [], ◌∷◌, includes, dedupe, sort, nat_eq, ◌==◌, ◌≡◌, refl,
  arith, eq_iff, includes-dedupe, includes-sort, Bool-cases, inl, inr,
}
use realmroot.Organizations.Roles.{commas, serialize_roles, any_end, like, has_role, fold}

ends_self : (p : String → Bool) (s : String) → p s ≡ true → any_end p s ≡ true
unfolding any_end
ends_self p String.[] h = h
ends_self p (String.◌∷◌ c s) h = ground (arith, h)

ends_append :
    (p : String → Bool) (x s : String) → any_end p s ≡ true → any_end p (String.◌++◌ x s) ≡ true
unfolding any_end
ends_append p String.[] s h = rw (nil-append s) h
ends_append p (String.◌∷◌ c x) s h = rw (cons-append c x s) (ground (arith, ends_append p x s h))

-- What follows a `%` at the end of a pattern may be anything.
any_rest : (s : String) → any_end (like "") s ≡ true
unfolding any_end like
any_rest String.[] = refl
any_rest (String.◌∷◌ c s) = ground (arith, any_rest s)

nat_eq_refl : (n : ℕ) → nat_eq n n ≡ true
nat_eq_refl n = ground arith

or_true_right : (a : Bool) → (a || true) ≡ true
or_true_right a = ground arith

-- A text matches itself as the start of a pattern, wildcards included.
like_prefix :
    (key pattern text : String)
    → like pattern text ≡ true
    → like (String.◌++◌ key pattern) (String.◌++◌ key text) ≡ true
unfolding like any_end
like_prefix String.[] pattern text h = rw (nil-append pattern, nil-append text) h
like_prefix (String.◌∷◌ c key) pattern text h =
    let more = like_prefix key pattern text h in
    let t = String.◌++◌ key text in
    rw (cons-append c key pattern, cons-append c key text)
      (elim (Bool-cases (nat_eq (code c) 37)) [
        | inl e ↦ rw e (ground (arith, ends_self (like (String.◌++◌ key pattern)) t more))
        | inr e ↦ rw (e, nat_eq_refl (fold c), or_true_right (nat_eq (code c) 95)) more
      ])

abbrev IsFound : (key : String) → String → Type 0
IsFound key s = any_end (like (String.◌++◌ "," (String.◌++◌ key ",%"))) s ≡ true

last-IsFound : (key : String) → IsFound key (String.◌++◌ "," (String.◌++◌ key ","))
unfolding any_end like
last-IsFound key =
    ends_self (like (String.◌++◌ "," (String.◌++◌ key ",%")))
      (String.◌++◌ "," (String.◌++◌ key ","))
      (like_prefix "," (String.◌++◌ key ",%") (String.◌++◌ key ",") (like_prefix key ",%" "," refl))

first-IsFound :
    (key rest : String) → IsFound key (String.◌++◌ "," (String.◌++◌ key (String.◌++◌ "," rest)))
unfolding any_end like
first-IsFound key rest =
    ends_self (like (String.◌++◌ "," (String.◌++◌ key ",%")))
      (String.◌++◌ "," (String.◌++◌ key (String.◌++◌ "," rest)))
      (like_prefix "," (String.◌++◌ key ",%") (String.◌++◌ key (String.◌++◌ "," rest))
        (like_prefix key ",%" (String.◌++◌ "," rest) (like_prefix "," "%" rest (any_rest rest))))

commas-IsFound :
    (key : String) (ws : List String)
    → includes ws key ≡ true
    → IsFound key (String.◌++◌ "," (String.◌++◌ (commas ws) ","))
unfolding commas
commas-IsFound key [] h = cc
commas-IsFound key (w ∷ []) h =
    let e = (eq_iff w key).0 (ground (arith, h)) in rw e (last-IsFound key)
commas-IsFound key (w ∷ v ∷ ws) h = elim (Bool-cases (w == key)) [
  | inl e ↦
      rw
        (
          (eq_iff w key).0 e,
          append_assoc key (String.◌++◌ "," (commas (v ∷ ws))) ",",
          append_assoc "," (commas (v ∷ ws)) ",",
        )
        (first-IsFound key (String.◌++◌ (commas (v ∷ ws)) ","))
  | inr e ↦
      let rest = String.◌++◌ "," (String.◌++◌ (commas (v ∷ ws)) ",") in
      rw
        (
          append_assoc w (String.◌++◌ "," (commas (v ∷ ws))) ",",
          append_assoc "," (commas (v ∷ ws)) ",",
          ← append_assoc "," w rest,
        )
        (ends_append (like (String.◌++◌ "," (String.◌++◌ key ",%"))) (String.◌++◌ "," w) rest
          (commas-IsFound key (v ∷ ws) (ground (arith, e, h))))
]

-- A role of a list is found in the list's serialized form.
pub has_role-serialize_roles :
    (key : String) (roles : List String)
    → includes roles key ≡ true
    → has_role key (serialize_roles roles) ≡ true
unfolding has_role serialize_roles like
has_role-serialize_roles key roles h = rw (cons-append "%" "," (String.◌++◌ key ",%")) (
    commas-IsFound key (sort (dedupe roles))
      (rw (includes-sort (dedupe roles) key, includes-dedupe roles key) h))
