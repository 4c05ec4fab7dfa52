-- ===== src/TokenExchange/Keys/Laws.antt =====
-- Which public keys a federated credential may have, taken together.
use realmroot.Prelude.{
  ℕ, String, Bool, true, false, not, ◌&&◌, ◌||◌, Option, none, some, List, [], ◌∷◌, ◌++◌, all,
  includes, is_some, ltb, leb, flat_map, eq_iff, arith, ◌≡◌, refl, ◌∙◌,
}
use realmroot.Errors.{Result, ◌>>◌, require, Failure}
use realmroot.Errors.Laws.{is_ok}
use realmroot.Json.{Members}
use realmroot.TokenExchange.Keys.Kinds.{is_public_verification_key, accepts_key}
use realmroot.TokenExchange.Keys.{
  has_private_member, is_unfit, key_id, is_repeated, with_id, check_keys, length,
  validate_public_keys,
}

abbrev pub id_list : Option String → List String
id_list none = []
id_list (some s) = s ∷ []

abbrev pub key_ids : List Members → List String
key_ids = flat_map (λ key. id_list (key_id key))

abbrev pub is_distinct : List String → Bool
is_distinct [] = true
is_distinct (x ∷ xs) = not (includes xs x) && is_distinct xs

abbrev is_fresh : List String → List String → Bool
is_fresh seen = all (λ x. not (includes seen x))

is_fresh-cons :
    (id : String) (seen xs : List String)
    → is_fresh (id ∷ seen) xs ≡ (not (includes xs id) && is_fresh seen xs)
is_fresh-cons id seen [] = refl
is_fresh-cons id seen (x ∷ xs) = ground (arith, is_fresh-cons id seen xs, eq_iff x id, eq_iff id x)

is_fresh-nil : (xs : List String) → is_fresh [] xs ≡ true
is_fresh-nil [] = refl
is_fresh-nil (x ∷ xs) = is_fresh-nil xs

is_ok-require :
    (t : Bool) (e : Failure) (k : Result (Unit {0})) → is_ok (require t e >> k) ≡ (t && is_ok k)
is_ok-require true e k = refl
is_ok-require false e k = refl

check_keys-cons :
    (many : Bool) (seen : List String) (key : Members) (rest : List Members)
    → is_ok (check_keys many seen (key ∷ rest)) ≡ (
        not (many && not (is_some (key_id key)))
        && (not (is_repeated seen (key_id key))
            && (not (has_private_member key)
                && (not (is_unfit key)
                    && is_ok (check_keys many (with_id seen (key_id key)) rest)))))
unfolding check_keys
check_keys-cons many seen key rest = simp is_ok-require

without_id :
    (many a b c d e p : Bool)
    → (not (many && true) && (a && (b && (c && ((not many || d) && e)))))
      ≡ (((a && b) && c) && ((not many || (false && d)) && e))
without_id true a b c d e p = ground arith
without_id false true true true d e p = refl
without_id false true true false d e p = refl
without_id false true false c d e p = refl
without_id false false b c d e p = refl

with_new_id :
    (many r a b c d t f n : Bool)
    → (not (many && false)
        && (not r && (a && (b && (c && ((not many || d) && (t && (not n && f))))))))
      ≡ (((a && b) && c) && ((not many || (true && d)) && ((not n && t) && (not r && f))))
with_new_id many r a b c d t f n = ground arith

next_key :
    (o : Option String) (many a b c d : Bool) (seen ids : List String)
    → (not (many && not (is_some o))
        && (not (is_repeated seen o)
            && (a
                && (b
                    && (c
                        && ((not many || d)
                            && (is_distinct ids && is_fresh (with_id seen o) ids)))))))
      ≡ (((a && b) && c)
          && ((not many || (is_some o && d))
              && (is_distinct (id_list o ++ ids) && is_fresh seen (id_list o ++ ids))))
next_key none many a b c d seen ids =
    without_id many a b c d (is_distinct ids && is_fresh seen ids) true
next_key (some id) many a b c d seen ids = rw (is_fresh-cons id seen ids) (
    with_new_id many (includes seen id) a b c d (is_distinct ids) (is_fresh seen ids)
      (includes ids id))

check_keys-accepts :
    (many : Bool) (seen : List String) (keys : List Members)
    → is_ok (check_keys many seen keys) ≡ (
        all is_public_verification_key keys
        && ((not many || all (λ key. is_some (key_id key)) keys)
            && (is_distinct (key_ids keys) && is_fresh seen (key_ids keys))))
unfolding check_keys
check_keys-accepts many seen [] = ground arith
check_keys-accepts many seen (key ∷ rest) =
    check_keys-cons many seen key rest
    ∙ (rw (check_keys-accepts many (with_id seen (key_id key)) rest) (
        next_key (key_id key) many (not (has_private_member key)) (not (is_unfit key))
          (all is_public_verification_key rest) (all (λ k. is_some (key_id k)) rest) seen
          (key_ids rest)
        ∙ rw (accepts_key key) refl))

not-ltb : (n : ℕ) → not (ltb 1 n) ≡ leb n 1
not-ltb n = ground arith

and_true_right : (b : Bool) → (b && true) ≡ b
and_true_right true = refl
and_true_right false = refl

-- The keys of a federated credential are accepted exactly when each is an RS256 RSA or ES256 P-256 key
-- for verification only and has no private member, no two have the same id, and, where there is more
-- than one, each has an id.
pub validate_public_keys_iff :
    (keys : List Members)
    → is_ok (validate_public_keys keys) ≡ (
        all is_public_verification_key keys
        && ((leb (length keys) 1 || all (λ key. is_some (key_id key)) keys)
            && is_distinct (key_ids keys)))
unfolding validate_public_keys
validate_public_keys_iff keys =
    check_keys-accepts (ltb 1 (length keys)) [] keys
    ∙ rw
        (
          is_fresh-nil (key_ids keys),
          not-ltb (length keys),
          and_true_right (is_distinct (key_ids keys)),
        )
        refl
