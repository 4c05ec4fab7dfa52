-- ===== src/TokenExchange/Introspect.antt =====
-- server/usecases/token-exchange.ts: `introspectToken`, and which tokens are of the exchange.
pub mod Answers
pub mod Laws
use text.Mathlib.Text.{starts_with}
use realmroot.Prelude.{
  ℕ, String, Bool, true, false, not, ◌&&◌, ◌||◌, Option, none, some, List, [], ◌∷◌, ◌/◌, ◌==◌,
  nat_eq, is_some, join, ltb, if◌then◌else◌,
}
use realmroot.Errors.{Result, ok, err, ◌>>=◌}
use realmroot.Json.{Json, Members, get, object, is_text}
use realmroot.Directory.{Directory}
use realmroot.TokenExchange.{
  Services, State, AccessToken, ClientCredentials, opaque_access_token_prefix,
  realmroot_organization_claim, subject_claims_member,
}
use realmroot.TokenExchange.Store.{find_access_token_by_hash}
use realmroot.TokenExchange.Client.{authenticate_application_client}

-- `IntrospectionResponse`: not active, or active with the members of the answer
pub data Introspection : Type 0 where
  inactive : Introspection
  active : Members → Introspection

abbrev pub is_num : Option Json → ℕ → Bool
is_num (some (Json.num n)) m = nat_eq n m
is_num _ m = false

-- `===` of two claims, one of which is stored: a text or nothing
abbrev same_claim : Option Json → Option Json → Bool
same_claim none stored = not (is_some stored)
same_claim (some (Json.str s)) stored = is_text stored s
same_claim (some _) stored = false

unfoldable pub token_exchange_jwt_matches : Members → AccessToken → String → Bool
token_exchange_jwt_matches payload row issuer =
    is_text (get payload "iss") issuer
    && is_text (get payload "sub") row.subject
    && is_text (get payload "aud") row.audience
    && is_text (get payload "client_id") row.client_id
    && is_text (get payload "scope") (join row.scopes)
    && is_num (get payload "exp") (row.expires_at / 1000)
    && not (is_some (get payload "act"))
    && same_claim (get payload realmroot_organization_claim)
        (get row.claims realmroot_organization_claim)

-- The row is the client's, not revoked, and not expired.
abbrev pub is_live : AccessToken → String → ℕ → Bool
is_live row client_id now =
    row.client_id == client_id && not (is_some row.revoked_at) && ltb now row.expires_at

-- The answer about an opaque token is made from its row.
unfoldable pub describe : String → AccessToken → Members
describe issuer row = Members.member "active" (Json.bool true) (
    object (
      ("iss", some (Json.str issuer))
      ∷ ("sub", some (Json.str row.subject))
      ∷ ("aud", some (Json.str row.audience))
      ∷ ("client_id", some (Json.str row.client_id))
      ∷ ("scope", some (Json.str (join row.scopes)))
      ∷ ("exp", some (Json.num (row.expires_at / 1000)))
      ∷ ("iat", some (Json.num (row.created_at / 1000)))
      ∷ ("token_type", some (Json.str "Bearer"))
      ∷ (subject_claims_member, some (Json.obj row.claims))
      ∷ []))

-- `{ ...payload, active: true, token_type: 'Bearer' }`: what is read first wins over the payload.
abbrev pub describe_payload : Members → Members
describe_payload payload =
    Members.member "active" (Json.bool true)
      (Members.member "token_type" (Json.str "Bearer") payload)

module _ (deps : Directory) (services : Services) where
  unfoldable pub introspect_row : String → String → AccessToken → Introspection
  unfolding token_exchange_jwt_matches describe
  introspect_row token issuer row =
      if starts_with token opaque_access_token_prefix
      then active (describe issuer row)
      else elim (services.verify token issuer row.audience) [
        | none ↦ inactive
        | some payload ↦
            if token_exchange_jwt_matches payload row issuer
            then active (describe_payload payload)
            else inactive
      ]

  -- The condition on the row that the token's hash finds
  unfoldable pub introspect_found :
      String → ClientCredentials → String → ℕ → Option AccessToken → Introspection
  unfolding introspect_row
  introspect_found token client issuer now none = inactive
  introspect_found token client issuer now (some row) =
      if is_live row client.client_id now then introspect_row token issuer row else inactive

  unfoldable pub introspect_token :
      String → ClientCredentials → String → State → Result Introspection
  unfolding authenticate_application_client find_access_token_by_hash introspect_found
  introspect_token token client issuer s = do
    _ ← authenticate_application_client deps services client.client_id client.client_secret
    ok (
        introspect_found token client issuer s.clock
          (find_access_token_by_hash s (services.hash_provider_secret token)))

  unfoldable pub is_token_exchange_access_token : String → State → Bool
  unfolding find_access_token_by_hash
  is_token_exchange_access_token token s =
      if starts_with token opaque_access_token_prefix
      then true
      else is_some (find_access_token_by_hash s (services.hash_provider_secret token))
