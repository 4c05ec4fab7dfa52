-- ===== src/TokenExchange/Introspect/Answers.antt =====
-- What the answer of an introspection rests on.
use text.Mathlib.Text.{starts_with}
use realmroot.Prelude.{
  not-is_some, ℕ, String, true, Option, none, some, ◌≡◌, ◌⊎◌, ◌<◌, ◌/◌, refl, Bool-cases, inl, inr,
  sym, ap, arith, Option-cases, if◌then◌else◌, eq_iff, Among, find-Among, find_sound, ltb, join,
  nat_eq, ◌==◌, subst,
}
use realmroot.Json.{Json, Members, get}
use realmroot.Json.Laws.{is_text-some}
use realmroot.Directory.{Directory}
use realmroot.TokenExchange.{
  Services, State, AccessToken, ClientCredentials, opaque_access_token_prefix,
}
use realmroot.TokenExchange.Store.{find_access_token_by_hash}
use realmroot.TokenExchange.Introspect.{
  inactive, active, is_live, is_num, describe, describe_payload, token_exchange_jwt_matches,
  introspect_row, introspect_found,
}

-- The members of an answer that say what the token is good for are those of the row.
pub record Answers (issuer : String) (row : AccessToken) (m : Members) : Type 0 where
  pub is_active : get m "active" ≡ some (Json.bool true)
  pub issued_by : get m "iss" ≡ some (Json.str issuer)
  pub about : get m "sub" ≡ some (Json.str row.subject)
  pub for_audience : get m "aud" ≡ some (Json.str row.audience)
  pub for_client : get m "client_id" ≡ some (Json.str row.client_id)
  pub with_scope : get m "scope" ≡ some (Json.str (join row.scopes))
  pub until : get m "exp" ≡ some (Json.num (row.expires_at / 1000))
  pub not_delegated : get m "act" ≡ none

nat_eq-true : (n m : ℕ) → nat_eq n m ≡ true → n ≡ m
nat_eq-true n m h = ground (arith, h)

is_num-some : (o : Option Json) (t : ℕ) → is_num o t ≡ true → o ≡ some (Json.num t)
is_num-some (some (Json.num n)) t h = ap (λ x. some (Json.num x)) (nat_eq-true n t h)
is_num-some none t h = cc
is_num-some (some Json.null) t h = cc
is_num-some (some (Json.bool b)) t h = cc
is_num-some (some (Json.str s)) t h = cc
is_num-some (some (Json.arr xs)) t h = cc
is_num-some (some (Json.obj m)) t h = cc

describe-Answers : (issuer : String) (row : AccessToken) → Answers issuer row (describe issuer row)
unfolding describe get
describe-Answers issuer row = record {
  is_active = refl;
  issued_by = refl;
  about = refl;
  for_audience = refl;
  for_client = refl;
  with_scope = refl;
  until = refl;
  not_delegated = refl;
}

payload-Answers :
    (issuer : String) (row : AccessToken) (payload : Members)
    → token_exchange_jwt_matches payload row issuer ≡ true
    → Answers issuer row (describe_payload payload)
unfolding token_exchange_jwt_matches get
payload-Answers issuer row payload h = record {
  is_active = refl;
  issued_by = is_text-some (get payload "iss") issuer (ground (arith, h));
  about = is_text-some (get payload "sub") row.subject (ground (arith, h));
  for_audience = is_text-some (get payload "aud") row.audience (ground (arith, h));
  for_client = is_text-some (get payload "client_id") row.client_id (ground (arith, h));
  with_scope = is_text-some (get payload "scope") (join row.scopes) (ground (arith, h));
  until = is_num-some (get payload "exp") (row.expires_at / 1000) (ground (arith, h));
  not_delegated = not-is_some (get payload "act") (ground (arith, h));
}

-- Where the answer comes from: the row, for an opaque token, or else a payload whose signature was
-- verified for the row's audience.
abbrev pub Source : Services → (token issuer : String) → AccessToken → Members → Type 0
Source services token issuer row m =
    (starts_with token opaque_access_token_prefix ≡ true)
    ⊎ ((payload : Members) × (services.verify token issuer row.audience ≡ some payload)
        × (m ≡ describe_payload payload))

active-injective : {m n : Members} → active m ≡ active n → m ≡ n
active-injective e = cc

payload_told :
    (services : Services) (token issuer : String) (row : AccessToken) (payload m : Members)
    → services.verify token issuer row.audience ≡ some payload
    → (if token_exchange_jwt_matches payload row issuer
        then active (describe_payload payload)
        else inactive)
      ≡ active m
    → Answers issuer row m × Source services token issuer row m
payload_told services token issuer row payload m v h =
    elim (Bool-cases (token_exchange_jwt_matches payload row issuer)) [
      | inl e ↦
          let same = active-injective (rw e at h) in
          (
            subst (Answers issuer row) same (payload-Answers issuer row payload e),
            inr (payload, v, sym same),
          )
      | inr e ↦ absurd (refused (rw e at h))
    ]
  where
    refused : ¬ (inactive ≡ active m)
    refused g = cc

row_told :
    (deps : Directory) (services : Services) (token issuer : String) (row : AccessToken)
    (m : Members)
    → introspect_row deps services token issuer row ≡ active m
    → Answers issuer row m × Source services token issuer row m
unfolding introspect_row
row_told deps services token issuer row m h =
    elim (Bool-cases (starts_with token opaque_access_token_prefix)) [
      | inl e ↦
          let same = active-injective (rw (introspect_row, e) at h) in
          (subst (Answers issuer row) same (describe-Answers issuer row), inl e)
      | inr e ↦ elim (Option-cases (services.verify token issuer row.audience)) [
        | inl v ↦ absurd (refused (rw (introspect_row, e, v) at h))
        | inr (payload, v) ↦
            payload_told services token issuer row payload m v (rw (introspect_row, e, v) at h)
      ]
    ]
  where
    refused : ¬ (inactive ≡ active m)
    refused g = cc

-- What an active answer to the client rests on.
abbrev pub Introspected :
    Services → (token issuer client_id : String) → State → AccessToken → Members → Type 0
Introspected services token issuer client_id s row m =
    Among row s.access_tokens
    × (row.token_hash ≡ services.hash_provider_secret token)
    × (row.client_id ≡ client_id)
    × (row.revoked_at ≡ none)
    × (s.clock < row.expires_at)
    × Answers issuer row m
    × Source services token issuer row m

pub found_told :
    (deps : Directory) (services : Services) (token : String) (client : ClientCredentials)
    (issuer : String) (s : State) (o : Option AccessToken) (m : Members)
    → find_access_token_by_hash s (services.hash_provider_secret token) ≡ o
    → introspect_found deps services token client issuer s.clock o ≡ active m
    → (row : AccessToken) × Introspected services token issuer client.client_id s row m
unfolding introspect_found find_access_token_by_hash
found_told deps services token client issuer s none m f h = absurd (refused h)
  where
    refused : ¬ (inactive ≡ active m)
    refused g = cc
found_told deps services token client issuer s (some row) m f h =
    let hash = services.hash_provider_secret token in
    elim (Bool-cases (is_live row client.client_id s.clock)) [
      | inl live ↦
          let (told, source) =
            row_told deps services token issuer row m (rw (introspect_found, live) at h) in
          (
            row,
            (
              find-Among (λ x. x.token_hash == hash) s.access_tokens row f,
              (eq_iff row.token_hash hash).0
                  (find_sound (λ x. x.token_hash == hash) s.access_tokens row f),
              (eq_iff row.client_id client.client_id).0 (ground (arith, live)),
              not-is_some row.revoked_at (ground (arith, live)),
              later s.clock row.expires_at (ground (arith, live)),
              told,
              source,
            ),
          )
      | inr dead ↦ absurd (refused (rw (introspect_found, dead) at h))
    ]
  where
    refused : ¬ (inactive ≡ active m)
    refused g = cc

    later : (a b : ℕ) → ltb a b ≡ true → a < b
    later a b k = ground (arith, k)
