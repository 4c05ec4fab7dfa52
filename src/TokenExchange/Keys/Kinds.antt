-- ===== src/TokenExchange/Keys/Kinds.antt =====
-- Which single keys are fit.
use realmroot.Prelude.{
  String, Bool, true, false, not, ◌&&◌, ◌||◌, Option, none, some, ◌==◌, is_some, eq_iff, arith, ◌≡◌,
  refl, ap, sym, Bool-cases, inl, inr, if◌then◌else◌,
}
use realmroot.Json.{
  is_text, Json, null, bool, num, str, arr, obj, Items, nil, cons, Members, get, read_string,
}
use realmroot.TokenExchange.Keys.{
  is_other, items_other, refuses_verify, has_private_member, is_unfit, is_unfit_kind, is_unfit_rsa,
  is_unfit_ec,
}

-- A property that is absent, or is the text. An empty text counts as absent.
abbrev pub agrees : Option String → String → Bool
agrees none t = true
agrees (some s) t = s == t

abbrev pub items_are : Items → String → Bool
items_are nil t = true
items_are (cons (str s) rest) t = s == t && items_are rest t
items_are (cons _ rest) t = false

abbrev pub allows_verify : Option Json → Bool
allows_verify none = true
allows_verify (some (arr (cons first rest))) = items_are (cons first rest) "verify"
allows_verify (some _) = false

abbrev pub is_present : Members → String → Bool
is_present key name = is_some (read_string (get key name))

abbrev pub is_rsa_key : Members → Bool
is_rsa_key key =
    is_text (get key "kty") "RSA"
    && (agrees (read_string (get key "alg")) "RS256" && (is_present key "n" && is_present key "e"))

abbrev pub is_ec_key : Members → Bool
is_ec_key key =
    is_text (get key "kty") "EC"
    && (agrees (read_string (get key "alg")) "ES256"
        && (is_text (get key "crv") "P-256" && (is_present key "x" && is_present key "y")))

-- A key of one of the two kinds, for verification only, without a private part.
abbrev pub is_public_verification_key : Members → Bool
is_public_verification_key key =
    not (has_private_member key)
    && (agrees (read_string (get key "use")) "sig"
        && (allows_verify (get key "key_ops") && (is_rsa_key key || is_ec_key key)))

de_morgan : (a b c d : Bool) → not a ≡ c → not b ≡ d → not (a || b) ≡ (c && d)
de_morgan true b c d h k = rw (sym h) refl
de_morgan false b c d h k = rw (sym h) k

not-not : (b : Bool) → not (not b) ≡ b
not-not true = refl
not-not false = refl

not-is_other : (o : Option String) (t : String) → not (is_other o t) ≡ agrees o t
not-is_other none t = refl
not-is_other (some s) t = ground arith

not-items_other : (xs : Items) (t : String) → not (items_other xs t) ≡ items_are xs t
not-items_other nil t = refl
not-items_other (cons (str s) xs) t = ground (arith, not-items_other xs t)
not-items_other (cons null xs) t = refl
not-items_other (cons (bool b) xs) t = refl
not-items_other (cons (num n) xs) t = refl
not-items_other (cons (arr ys) xs) t = refl
not-items_other (cons (obj m) xs) t = refl

not-refuses_verify : (o : Option Json) → not (refuses_verify o) ≡ allows_verify o
not-refuses_verify none = refl
not-refuses_verify (some null) = refl
not-refuses_verify (some (bool b)) = refl
not-refuses_verify (some (num n)) = refl
not-refuses_verify (some (str s)) = refl
not-refuses_verify (some (obj m)) = refl
not-refuses_verify (some (arr nil)) = refl
not-refuses_verify (some (arr (cons (str s) xs))) = ground (arith, not-items_other xs "verify")
not-refuses_verify (some (arr (cons null xs))) = ground arith
not-refuses_verify (some (arr (cons (bool b) xs))) = ground arith
not-refuses_verify (some (arr (cons (num n) xs))) = ground arith
not-refuses_verify (some (arr (cons (arr ys) xs))) = ground arith
not-refuses_verify (some (arr (cons (obj m) xs))) = ground arith

one_kind : (o : Option Json) → (is_text o "RSA" && is_text o "EC") ≡ false
one_kind none = refl
one_kind (some (str s)) = elim (Bool-cases (s == "RSA")) [
  | inl h ↦ rw ((eq_iff s "RSA").0 h) refl
  | inr h ↦ rw h refl
]
one_kind (some null) = refl
one_kind (some (bool b)) = refl
one_kind (some (num n)) = refl
one_kind (some (arr n)) = refl
one_kind (some (obj n)) = refl

not-is_unfit_rsa :
    (key : Members)
    → not (is_unfit_rsa key)
      ≡ (agrees (read_string (get key "alg")) "RS256" && (is_present key "n" && is_present key "e"))
not-is_unfit_rsa key =
    de_morgan (is_other (read_string (get key "alg")) "RS256") _ _ _
      (not-is_other (read_string (get key "alg")) "RS256")
      (de_morgan _ _ _ _ (not-not (is_present key "n")) (not-not (is_present key "e")))

not-is_unfit_ec :
    (key : Members)
    → not (is_unfit_ec key) ≡ (
        agrees (read_string (get key "alg")) "ES256"
        && (is_text (get key "crv") "P-256" && (is_present key "x" && is_present key "y")))
not-is_unfit_ec key =
    de_morgan (is_other (read_string (get key "alg")) "ES256") _ _ _
      (not-is_other (read_string (get key "alg")) "ES256")
      (de_morgan _ _ _ _ (not-not (is_text (get key "crv") "P-256"))
        (de_morgan _ _ _ _ (not-not (is_present key "x")) (not-not (is_present key "y"))))

not-choice :
    (r e a b c d : Bool)
    → (r && e) ≡ false
    → not a ≡ c
    → not b ≡ d
    → not (if r then a else if e then b else true) ≡ ((r && c) || (e && d))
not-choice true true a b c d h k l = cc
not-choice true false a b c d h k l = ground arith
not-choice false true a b c d h k l = ground arith
not-choice false false a b c d h k l = refl

not-is_unfit_kind : (key : Members) → not (is_unfit_kind key) ≡ (is_rsa_key key || is_ec_key key)
not-is_unfit_kind key =
    not-choice (is_text (get key "kty") "RSA") (is_text (get key "kty") "EC") (is_unfit_rsa key)
      (is_unfit_ec key) _ _ (one_kind (get key "kty")) (not-is_unfit_rsa key) (not-is_unfit_ec key)

pub accepts_key :
    (key : Members)
    → (not (has_private_member key) && not (is_unfit key)) ≡ is_public_verification_key key
accepts_key key =
    ap (λ b. not (has_private_member key) && b)
      (de_morgan (is_other (read_string (get key "use")) "sig") _ _ _
        (not-is_other (read_string (get key "use")) "sig")
        (de_morgan (refuses_verify (get key "key_ops")) _ _ _
          (not-refuses_verify (get key "key_ops")) (not-is_unfit_kind key)))
