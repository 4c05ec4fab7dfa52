-- ===== src/TokenExchange/Federated/Verified.antt =====
-- What a subject token is whose verification against a credential succeeds.
use realmroot.Prelude.{
  Among, find-Among, none, Option, List, refl, nat_eq, length, leb, ◌⊎◌, inl, inr, ◌<◌, Bool-cases,
  is_some, String, ◌∙◌, ℕ, String, true, not, ◌||◌, some, ◌≡◌, ap, subst, arith, ◌≤◌, ◌/◌, find,
  find_sound, eq_iff, ◌==◌, ltb,
}
use realmroot.Errors.{ok, oauth_error}
use realmroot.Errors.Laws.{require-ok, >>=-eq-ok, require-eq-ok, or_throw-eq-ok, or_throw-ok}
use realmroot.Json.{Json, Members, get, is_record, read_string, read_number, audience_matches}
use realmroot.Json.Laws.{read_string-some, read_number-some, is_text-some, some-injective}
use realmroot.Directory.{FederatedCredential}
use realmroot.TokenExchange.{Services}
use realmroot.TokenExchange.Assertion.{
  Assertion, verify_subject_token, check_not_before, check_signature, select_credential_jwk,
  select_key, credential_keys, key_fits, fits_members,
}
use realmroot.TokenExchange.Federated.Parsed.{read_record-some}

-- When a token may be used first
abbrev pub IsBegun : Option Json → (now : ℕ) → Type 0
IsBegun claim now = (claim ≡ none) ⊎ ((nbf : ℕ) × (claim ≡ some (Json.num nbf)) × (nbf ≤ now))

not_before-IsBegun :
    (claim : Option Json) (now : ℕ) → check_not_before claim now ≡ ok tt → IsBegun claim now
not_before-IsBegun none now h = inl refl
not_before-IsBegun (some (Json.num nbf)) now h =
    inr (nbf, refl, ground (arith, require-ok (leb nbf now) _ h))
not_before-IsBegun (some Json.null) now h = cc
not_before-IsBegun (some (Json.bool b)) now h = cc
not_before-IsBegun (some (Json.str s)) now h = cc
not_before-IsBegun (some (Json.arr xs)) now h = cc
not_before-IsBegun (some (Json.obj m)) now h = cc

-- The key is the only one, or has the name that the token gives.
abbrev pub IsNamed : Option Json → (keys : List Json) → (key : Members) → Type 0
IsNamed claim keys key =
    ((read_string claim ≡ none) × (length keys ≡ 1))
    ⊎ ((kid : String) × (claim ≡ some (Json.str kid)) × (get key "kid" ≡ some (Json.str kid)))

-- What verification has found of a subject token against a credential
pub record IsVerified (services : Services) (clock : ℕ) (assertion : Assertion)
    (credential : FederatedCredential) (exp : ℕ) : Type 0 where
  pub alg : String
  pub keys : List Json
  pub key : Members
  pub expiry_claim : get assertion.payload "exp" ≡ some (Json.num exp)
  pub not_expired : clock / 1000 < exp
  pub begun : IsBegun (get assertion.payload "nbf") (clock / 1000)
  pub audience_claim : audience_matches (get assertion.payload "aud") credential.audience ≡ true
  pub algorithm : get assertion.header "alg" ≡ some (Json.str alg)
  pub algorithm_is : (alg ≡ "RS256") ⊎ (alg ≡ "ES256")
  pub keys_are : credential_keys services credential ≡ ok keys
  pub key_is : Among (Json.obj key) keys
  pub key_named : IsNamed (get assertion.header "kid") keys key
  pub signed :
      services.verify_signature key alg assertion.signing_input assertion.signature ≡ some true

abbrev NamedKey : Option String → String → List Json → Members → Type 0
NamedKey kid alg keys key =
    Among (Json.obj key) keys
    × (((kid ≡ none) × (length keys ≡ 1))
        ⊎ ((k : String) × (kid ≡ some k) × (get key "kid" ≡ some (Json.str k))))

fitting-named :
    (kid : Option String) (alg : String) (keys : List Json) (key : Members)
    → is_some kid || nat_eq (length keys) 1 ≡ true
    → fits_members kid alg (some key) ≡ true
    → ((kid ≡ none) × (length keys ≡ 1))
      ⊎ ((k : String) × (kid ≡ some k) × (get key "kid" ≡ some (Json.str k)))
fitting-named none alg keys key one fits = inl (refl, ground (arith, one))
fitting-named (some k) alg keys key one fits =
    inr (k, refl, is_text-some (get key "kid") k (ground (arith, fits)))

is_record-some : (j : Json) (m : Members) → is_record j ≡ some m → j ≡ Json.obj m
is_record-some j m h = some-injective (read_record-some (some j) m h)

select_key-named :
    (kid : Option String) (alg : String) (keys : List Json) (key : Members)
    → select_key kid alg keys ≡ ok key
    → NamedKey kid alg keys key
select_key-named kid alg keys key h =
    let (one, h1) = require-eq-ok (is_some kid || nat_eq (length keys) 1) _ _ h in
    let (item, found, h2) = or_throw-eq-ok (find (key_fits kid alg) keys) _ _ h1 in
    let read =
      or_throw-ok (is_record item)
        (oauth_error "invalid_grant" "Subject token signing key was not found.") key h2 in
    let fits : fits_members kid alg (some key) ≡ true =
      subst (λ o. fits_members kid alg o ≡ true) read
        (find_sound (key_fits kid alg) keys item found) in
    (
      subst (λ j. Among j keys) (is_record-some item key read)
          (find-Among (key_fits kid alg) keys item found),
      fitting-named kid alg keys key one fits,
    )

-- The signature is that of a key of the credential.
abbrev IsSigned : Services → Assertion → FederatedCredential → String → Type 0
IsSigned services assertion credential alg =
    (keys : List Json) × (key : Members) × (credential_keys services credential ≡ ok keys)
    × NamedKey (read_string (get assertion.header "kid")) alg keys key
    × (services.verify_signature key alg assertion.signing_input assertion.signature ≡ some true)

check_signature-IsSigned :
    (services : Services) (assertion : Assertion) (credential : FederatedCredential) (alg : String)
    → check_signature services assertion credential alg ≡ ok tt
    → IsSigned services assertion credential alg
unfolding select_credential_jwk
check_signature-IsSigned services assertion credential alg h =
    let kid = read_string (get assertion.header "kid") in
    let (key, e1, h1) = >>=-eq-ok (select_credential_jwk services credential kid alg) _ h in
    let (keys, e2, h2) = >>=-eq-ok (credential_keys services credential) _ e1 in
    let (verified, e3, h3) =
      or_throw-eq-ok (services.verify_signature key alg assertion.signing_input assertion.signature)
        _ _ h1 in
    let passed =
      require-ok verified (oauth_error "invalid_grant" "Subject token signature is invalid.") h3 in
    (keys, key, e2, select_key-named kid alg keys key h2, e3 ∙ ap (λ b. some b) passed)

read_string-IsNamed :
    (claim : Option Json) (keys : List Json) (key : Members)
    → ((read_string claim ≡ none) × (length keys ≡ 1))
      ⊎ ((k : String) × (read_string claim ≡ some k) × (get key "kid" ≡ some (Json.str k)))
    → IsNamed claim keys key
read_string-IsNamed claim keys key (inl (none_read, one)) = inl (none_read, one)
read_string-IsNamed claim keys key (inr (k, e, f)) = inr (k, read_string-some claim k e, f)

of_algorithms :
    (alg : String) → alg == "RS256" || alg == "ES256" ≡ true → (alg ≡ "RS256") ⊎ (alg ≡ "ES256")
of_algorithms alg h = elim (Bool-cases (alg == "RS256")) [
  | inl e ↦ inl ((eq_iff alg "RS256").0 (ground (arith, e)))
  | inr e ↦ inr ((eq_iff alg "ES256").0 (ground (arith, e, h)))
]

pub verify_subject_token-IsVerified :
    (services : Services) (clock : ℕ) (assertion : Assertion) (credential : FederatedCredential)
    → verify_subject_token services clock assertion credential ≡ ok tt
    → (exp : ℕ) × IsVerified services clock assertion credential exp
unfolding verify_subject_token
verify_subject_token-IsVerified services clock assertion credential h =
    let (exp, e, h1) = or_throw-eq-ok (read_number (get assertion.payload "exp")) _ _ h in
    let (later, h2) = require-eq-ok (ltb (clock / 1000) exp) _ _ h1 in
    let (u3, e3, h3) =
      >>=-eq-ok (check_not_before (get assertion.payload "nbf") (clock / 1000)) _ h2 in
    let (t4, h4) =
      require-eq-ok (audience_matches (get assertion.payload "aud") credential.audience) _ _ h3 in
    let (alg, e5, h5) = or_throw-eq-ok (read_string (get assertion.header "alg")) _ _ h4 in
    let (t6, h6) = require-eq-ok (not (alg == "none")) _ _ h5 in
    let (t7, h7) = require-eq-ok (alg == "RS256" || alg == "ES256") _ _ h6 in
    let (keys, key, known, (among, named), signed) =
      check_signature-IsSigned services assertion credential alg h7 in
    (
      exp,
      record {
        alg = alg;
        keys = keys;
        key = key;
        expiry_claim = read_number-some (get assertion.payload "exp") exp e;
        not_expired = ground (arith, later);
        begun = not_before-IsBegun (get assertion.payload "nbf") (clock / 1000) e3;
        audience_claim = t4;
        algorithm = read_string-some (get assertion.header "alg") alg e5;
        algorithm_is = of_algorithms alg t7;
        keys_are = known;
        key_is = among;
        key_named = read_string-IsNamed (get assertion.header "kid") keys key named;
        signed = signed;
      },
    )
