-- ===== src/TokenExchange/Issue.antt =====
-- server/usecases/token-exchange.ts: how access tokens are signed and refresh tokens are made.
use realmroot.Prelude.{ℕ, String, Option, none, some, List, [], ◌∷◌, ◌+◌, ◌*◌, ◌/◌, join}
use realmroot.Errors.{ok, oauth_error, require}
use realmroot.Errors.Exec.{Exec, pure, ◌>>=◌, ◌>>◌, lift}
use realmroot.Json.{Json, Members, get, object}
use realmroot.TokenExchange.{
  Services, State, RefreshToken, fresh_id, fresh_token, now, realmroot_organization_claim,
  default_refresh_expires_in_seconds,
}
use realmroot.TokenExchange.Store.{store_refresh_token}

-- The input of `issueJwtAccessToken`
pub record AccessGrant : Type 0 where
  pub client_id : String
  pub subject : String
  pub audience : String
  pub scopes : List String
  pub claims : Members
  pub actor : Option (String × String)
  pub issued_at : ℕ
  pub expires_at : ℕ

abbrev pub actor_claim : Option (String × String) → Option Json
actor_claim none = none
actor_claim (some (issuer, subject)) =
    some
      (Json.obj (object (("iss", some (Json.str issuer)) ∷ ("sub", some (Json.str subject)) ∷ [])))

-- The claims that `issueJwtAccessToken` signs
unfoldable pub access_token_claims : (issuer jti : String) → AccessGrant → Members
access_token_claims issuer jti input = object (
    ("iss", some (Json.str issuer))
    ∷ ("sub", some (Json.str input.subject))
    ∷ ("aud", some (Json.str input.audience))
    ∷ ("client_id", some (Json.str input.client_id))
    ∷ ("scope", some (Json.str (join input.scopes)))
    ∷ (realmroot_organization_claim, get input.claims realmroot_organization_claim)
    ∷ ("act", actor_claim input.actor)
    ∷ ("iat", some (Json.num (input.issued_at / 1000)))
    ∷ ("exp", some (Json.num (input.expires_at / 1000)))
    ∷ ("jti", some (Json.str jti))
    ∷ [])

-- What a refresh token is made from
pub record RefreshGrant : Type 0 where
  pub credential_id : String
  pub subject : String
  pub subject_token_issuer : String
  pub audience : String
  pub scopes : List String
  pub claims : Members

pub record PreparedRefresh : Type 0 where
  pub token : String
  pub row : RefreshToken

module _ (services : Services) where
  unfoldable pub issue_jwt_access_token : AccessGrant → Exec State String
  unfolding access_token_claims fresh_id
  issue_jwt_access_token input = do
    jti ← fresh_id services
    pure (services.sign (access_token_claims services.issuer jti input) "at+jwt")

  unfoldable pub prepare_refresh_token :
      String → String → Option String → RefreshGrant → Exec State PreparedRefresh
  unfolding fresh_id fresh_token now
  prepare_refresh_token client_id family_id parent_id input = do
    token ← fresh_token services
    at ← now
    id ← fresh_id services
    pure (record {
      token = token;
      row = record {
        id = id;
        family_id = family_id;
        parent_id = parent_id;
        token_hash = services.hash_provider_secret token;
        client_id = client_id;
        credential_id = input.credential_id;
        subject = input.subject;
        subject_token_issuer = input.subject_token_issuer;
        audience = input.audience;
        scopes = input.scopes;
        claims = input.claims;
        expires_at = at + default_refresh_expires_in_seconds * 1000;
        consumed_at = none;
        revoked_at = none;
        created_at = at;
      };
    })

  unfoldable pub issue_refresh_token : String → String → RefreshGrant → Exec State String
  unfolding prepare_refresh_token store_refresh_token
  issue_refresh_token client_id family_id input = do
    prepared ← prepare_refresh_token client_id family_id none input
    stored ← λ s. let (stored, s') = store_refresh_token prepared.row s in (ok stored, s')
    lift (require stored (oauth_error "invalid_grant" "Refresh token family was revoked."))
    pure prepared.token
