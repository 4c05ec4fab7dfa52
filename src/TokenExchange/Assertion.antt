-- ===== src/TokenExchange/Assertion.antt =====
-- server/usecases/token-exchange.ts: the subject token that a federated issuer signed, from its
-- text to its verification.
use Prim.Native.Char.{code}
use Prim.Native.String
use realmroot.Prelude.{
  ℕ, String, Bool, true, false, not, ◌&&◌, ◌||◌, Option, none, some, List, [], ◌∷◌, ◌/◌, ◌==◌, find,
  nat_eq, leb, ltb, length, split_at, is_some,
}
use realmroot.Errors.{Result, ok, err, oauth_error, ◌>>=◌, ◌>>◌, require, or_throw}
use realmroot.Json.{
  Json, Items, Members, get, is_record, read_string, read_number, read_single_audience,
  audience_matches, is_text,
}
use realmroot.Directory.{FederatedCredential}
use realmroot.TokenExchange.{Services}
use realmroot.TokenExchange.Client.{present}

pub record Assertion : Type 0 where
  pub header : Members
  pub payload : Members
  pub signing_input : String
  pub signature : String

abbrev invalid_grant {ℓ} : {A : Type ℓ} → String → Result A
invalid_grant description = err (oauth_error "invalid_grant" description)

abbrev pub read_record : Option Json → Option Members
read_record none = none
read_record (some j) = is_record j

-- What throws inside `parseJwt` is turned into one and the same error.
abbrev pub assemble :
    String → String → Option Members → Option Members → Option String → Result Assertion
assemble head body (some header) (some payload) (some signature) = ok (record {
  header = header;
  payload = payload;
  signing_input = String.◌++◌ head (String.◌++◌ "." body);
  signature = signature;
})
assemble head body _ _ _ = invalid_grant "Invalid subject token."

abbrev pub parse_parts : Services → List String → Result Assertion
parse_parts services (head ∷ body ∷ signature ∷ []) =
    assemble head body (read_record (services.decode_part head))
      (read_record (services.decode_part body)) (services.decode_signature signature)
parse_parts services _ = invalid_grant "Invalid subject token."

unfoldable pub parse_jwt : Services → String → Result Assertion
parse_jwt services token = parse_parts services (split_at (λ c. nat_eq (code c) 0x2e) token)

unfoldable pub unverified_subject_token_audience : Services → String → Result (Option String)
unfolding parse_jwt
unverified_subject_token_audience services token = do
  assertion ← parse_jwt services token
  ok (read_single_audience (get assertion.payload "aud"))

-- `!value`
abbrev is_falsy : Option Json → Bool
is_falsy none = true
is_falsy (some Json.null) = true
is_falsy (some (Json.bool b)) = not b
is_falsy (some (Json.num n)) = nat_eq n 0
is_falsy (some (Json.str s)) = s == ""
is_falsy (some (Json.arr xs)) = false
is_falsy (some (Json.obj m)) = false

abbrev list_of_items : Items → List Json
list_of_items Items.nil = []
list_of_items (Items.cons j xs) = j ∷ list_of_items xs

abbrev keys_of_body : Option Json → Result (List Json)
keys_of_body (some (Json.arr xs)) = ok (list_of_items xs)
keys_of_body _ = invalid_grant "Federated credential JWKS is invalid."

-- The fetch may throw: that error is not an OAuthError, and its caller's `catch` replaces it.
unfoldable pub fetch_jwks_keys : Services → String → Result (List Json)
fetch_jwks_keys services jwks_url = elim (services.fetch_keys jwks_url) [
  | none ↦ invalid_grant "Subject token verification key is unavailable."
  | some body ↦ elim (is_record body) [
    | none ↦ invalid_grant "Federated credential JWKS is invalid."
    | some members ↦ keys_of_body (get members "keys")
  ]
]

-- `(!kid || item.kid === kid) && (!item.alg || item.alg === alg)`, of an item that is a record
abbrev pub fits_members : Option String → String → Option Members → Bool
fits_members kid alg none = false
fits_members none alg (some key) = is_falsy (get key "alg") || is_text (get key "alg") alg
fits_members (some k) alg (some key) =
    is_text (get key "kid") k && (is_falsy (get key "alg") || is_text (get key "alg") alg)

abbrev pub key_fits : Option String → String → Json → Bool
key_fits kid alg item = fits_members kid alg (is_record item)

abbrev pub select_key : Option String → String → List Json → Result Members
select_key kid alg keys = do
  require (is_some kid || nat_eq (length keys) 1)
      (oauth_error "invalid_grant" "Subject token must identify one signing key.")
  key ←
      or_throw (find (key_fits kid alg) keys)
        (oauth_error "invalid_grant" "Subject token signing key was not found.")
  or_throw (is_record key) (oauth_error "invalid_grant" "Subject token signing key was not found.")

-- `credential.publicKeys ?? (credential.jwksUrl ? await fetchJwksKeys(…) : null)`
unfoldable pub credential_keys : Services → FederatedCredential → Result (List Json)
unfolding fetch_jwks_keys
credential_keys services credential = elim credential.public_keys [
  | some keys ↦ ok keys
  | none ↦ elim (present credential.jwks_url) [
    | none ↦ invalid_grant "Federated credential has no verification key."
    | some jwks_url ↦ fetch_jwks_keys services jwks_url
  ]
]

unfoldable pub select_credential_jwk :
    Services → FederatedCredential → Option String → String → Result Members
unfolding credential_keys
select_credential_jwk services credential kid alg = do
  keys ← credential_keys services credential
  select_key kid alg keys

abbrev pub check_signature : Services → Assertion → FederatedCredential → String → Result (Unit {0})
unfolding select_credential_jwk
check_signature services assertion credential alg = do
  key ← select_credential_jwk services credential (read_string (get assertion.header "kid")) alg
  verified ←
      or_throw (services.verify_signature key alg assertion.signing_input assertion.signature)
        (oauth_error "invalid_grant" "Subject token verification key is unavailable.")
  require verified (oauth_error "invalid_grant" "Subject token signature is invalid.")

-- `nbf`: not there, there and a number in the past, or refused.
abbrev pub check_not_before : Option Json → ℕ → Result (Unit {0})
check_not_before none now = ok tt
check_not_before (some (Json.num nbf)) now =
    require (leb nbf now) (oauth_error "invalid_grant" "Subject token is not active yet.")
check_not_before (some _) now = invalid_grant "Subject token nbf claim is invalid."

unfoldable pub verify_subject_token :
    Services → ℕ → Assertion → FederatedCredential → Result (Unit {0})
unfolding select_credential_jwk
verify_subject_token services clock assertion credential = do
  exp ←
      or_throw (read_number (get assertion.payload "exp"))
        (oauth_error "invalid_grant" "Subject token is expired or missing an exp claim.")
  require (ltb (clock / 1000) exp)
      (oauth_error "invalid_grant" "Subject token is expired or missing an exp claim.")
  check_not_before (get assertion.payload "nbf") (clock / 1000)
  require (audience_matches (get assertion.payload "aud") credential.audience)
      (oauth_error "invalid_grant" "Subject token audience is invalid.")
  alg ←
      or_throw (read_string (get assertion.header "alg"))
        (oauth_error "invalid_grant" "Subject token algorithm is invalid.")
  require (not (alg == "none")) (oauth_error "invalid_grant" "Subject token algorithm is invalid.")
  require (alg == "RS256" || alg == "ES256")
      (oauth_error "invalid_grant" (String.◌++◌ "Unsupported subject token algorithm: " alg))
  check_signature services assertion credential alg
