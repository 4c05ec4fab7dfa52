-- ===== src/Json/Laws.antt =====
-- What a claim is that one of the readers gives.
use realmroot.Prelude.{
  ℕ, String, Bool-cases, inl, inr, Option, none, some, ◌≡◌, ◌==◌, ap, true, eq_iff,
}
use realmroot.Json.{Json, read_string, read_number, is_text}

pub some-injective : {A : Type 0} {x y : A} → some x ≡ some y → x ≡ y
some-injective e = cc

-- A text that is read is the claim itself.
pub read_string-some :
    (o : Option Json) (t : String) → read_string o ≡ some t → o ≡ some (Json.str t)
read_string-some none t h = cc
read_string-some (some Json.null) t h = cc
read_string-some (some (Json.bool b)) t h = cc
read_string-some (some (Json.num n)) t h = cc
read_string-some (some (Json.arr xs)) t h = cc
read_string-some (some (Json.obj m)) t h = cc
read_string-some (some (Json.str s)) t h = elim (Bool-cases (s == "")) [
  | inl e ↦ absurd (refused (rw e at h))
  | inr e ↦ ap (λ x. some (Json.str x)) (some-injective (rw e at h))
]
  where
    refused : ¬ (none ≡ some t)
    refused g = cc

pub read_number-some : (o : Option Json) (n : ℕ) → read_number o ≡ some n → o ≡ some (Json.num n)
read_number-some none n h = cc
read_number-some (some Json.null) n h = cc
read_number-some (some (Json.bool b)) n h = cc
read_number-some (some (Json.str s)) n h = cc
read_number-some (some (Json.arr xs)) n h = cc
read_number-some (some (Json.obj m)) n h = cc
read_number-some (some (Json.num k)) n h = ap (λ x. some (Json.num x)) (some-injective h)

pub is_text-some : (o : Option Json) (t : String) → is_text o t ≡ true → o ≡ some (Json.str t)
is_text-some (some (Json.str s)) t h = ap (λ x. some (Json.str x)) ((eq_iff s t).0 h)
is_text-some none t h = cc
is_text-some (some Json.null) t h = cc
is_text-some (some (Json.bool b)) t h = cc
is_text-some (some (Json.num n)) t h = cc
is_text-some (some (Json.arr xs)) t h = cc
is_text-some (some (Json.obj m)) t h = cc
