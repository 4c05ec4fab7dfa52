-- ===== src/TokenExchange/Keys.antt =====
-- server/usecases/token-exchange.ts: the public keys that a federated credential may have.
pub mod Kinds
pub mod Laws
use realmroot.Prelude.{
  ℕ, String, Bool, true, false, not, ◌&&◌, ◌||◌, Option, none, some, List, [], ◌∷◌, ◌==◌, ◌+◌, any,
  includes, is_some, ltb, if◌then◌else◌,
}
use realmroot.Errors.{Result, ok, ◌>>◌, require, bad_request_error}
use realmroot.Json.{
  is_text, Json, null, bool, num, str, arr, obj, Items, nil, cons, Members, get, read_string,
  items_include,
}

-- `value && value !== text` for a property that was read as a string
abbrev pub is_other : Option String → String → Bool
is_other none text = false
is_other (some s) text = not (s == text)

-- `operations.some((operation) => operation !== text)`
abbrev pub items_other : Items → String → Bool
items_other nil text = false
items_other (cons (str s) rest) text = not (s == text) || items_other rest text
items_other (cons _ rest) text = true

abbrev pub refuses_verify : Option Json → Bool
refuses_verify none = false
refuses_verify (some (arr operations)) =
    not (items_include operations "verify") || items_other operations "verify"
refuses_verify (some _) = true

abbrev pub private_members : List String
private_members = "d" ∷ "p" ∷ "q" ∷ "dp" ∷ "dq" ∷ "qi" ∷ "k" ∷ []

abbrev pub has_private_member : Members → Bool
has_private_member key = any (λ name. is_some (get key name)) private_members

abbrev pub is_unfit_rsa : Members → Bool
is_unfit_rsa key =
    is_other (read_string (get key "alg")) "RS256"
    || (not (is_some (read_string (get key "n"))) || not (is_some (read_string (get key "e"))))

abbrev pub is_unfit_ec : Members → Bool
is_unfit_ec key =
    is_other (read_string (get key "alg")) "ES256"
    || (not (is_text (get key "crv") "P-256")
        || (not (is_some (read_string (get key "x"))) || not (is_some (read_string (get key "y")))))

abbrev pub is_unfit_kind : Members → Bool
is_unfit_kind key =
    if is_text (get key "kty") "RSA"
    then is_unfit_rsa key
    else if is_text (get key "kty") "EC"
    then is_unfit_ec key
    else true

abbrev pub is_unfit : Members → Bool
is_unfit key =
    is_other (read_string (get key "use")) "sig"
    || (refuses_verify (get key "key_ops") || is_unfit_kind key)

abbrev pub key_id : Members → Option String
key_id key = read_string (get key "kid")

abbrev pub is_repeated : List String → Option String → Bool
is_repeated seen none = false
is_repeated seen (some id) = includes seen id

abbrev pub with_id : List String → Option String → List String
with_id seen none = seen
with_id seen (some id) = id ∷ seen

-- The loop over the keys; `seen` is the set of the ids so far.
unfoldable pub check_keys : Bool → List String → List Members → Result (Unit {0})
check_keys many seen [] = ok tt
check_keys many seen (key ∷ rest) =
    require (not (many && not (is_some (key_id key))))
      (bad_request_error "Each public key requires kid when multiple keys are configured.")
    >> (require (not (is_repeated seen (key_id key)))
          (bad_request_error "Federated public key kid values must be unique.")
        >> (require (not (has_private_member key))
              (bad_request_error "Federated credentials accept public verification keys only.")
            >> (require (not (is_unfit key)) (
                  bad_request_error
                    "Federated public keys must be RS256 RSA or ES256 P-256 verification keys.")
                >> check_keys many (with_id seen (key_id key)) rest)))

abbrev pub length {ℓ} : {A : Type ℓ} → List A → ℕ
length [] = 0
length (x ∷ xs) = 1 + length xs

unfoldable pub validate_public_keys : List Members → Result (Unit {0})
validate_public_keys keys = check_keys (ltb 1 (length keys)) [] keys
