-- ===== src/TokenExchange/Refresh.antt =====
-- server/usecases/token-exchange.ts: `refreshToken`, in the order of its checks.
pub mod Reuse
pub mod Steps
pub mod Succeeds
pub mod Single
pub mod Passed
pub mod Once
use realmroot.Prelude.{
  ℕ, String, Bool, true, false, not, ◌&&◌, ◌||◌, Option, none, some, List, [], ◌∷◌, ◌+◌, ◌*◌, ◌==◌,
  includes, join, get_or, is_some, leb, holds, if◌then◌else◌,
}
use realmroot.Errors.{Result, ok, err, oauth_error, require, or_throw}
use realmroot.Errors.Exec.{Exec, pure, raise, ◌>>=◌, ◌>>◌, lift, reads}
use realmroot.Json.{Json, Members, get}
use realmroot.Directory.{
  Directory, Application, FederatedCredential, find_federated_credential_for_client,
}
use realmroot.TokenExchange.{
  Services, State, RefreshToken, AccessToken, TokenRefreshRequest, ClientCredentials,
  TokenExchangeResponse, fresh_id, now, realmroot_organization_claim, access_token_type,
  default_expires_in_seconds,
}
use realmroot.TokenExchange.Store.{
  find_refresh_token_by_hash, rotate_refresh_token, revoke_refresh_token_family,
}
use realmroot.TokenExchange.Client.{authorize_refresh}
use realmroot.TokenExchange.Grants.{resolve_application_token_scopes, is_eligible_audience}
use realmroot.TokenExchange.Issue.{AccessGrant, issue_jwt_access_token, prepare_refresh_token}

-- `revokeRefreshTokenFamily`, and then the error
unfoldable pub revoke_and_throw {ℓ} :
    {A : Type ℓ} → RefreshToken → String → State → Result A × State
unfolding revoke_refresh_token_family
revoke_and_throw row description s = (
  err (oauth_error "invalid_grant" description),
  revoke_refresh_token_family row.family_id s.clock s,
)

-- The row that the presented token names, if it is the client's.
unfoldable pub presented_token : Services → String → String → State → Result RefreshToken
unfolding find_refresh_token_by_hash
presented_token services token client_id s =
    elim (find_refresh_token_by_hash s (services.hash_provider_secret token)) [
      | none ↦ err (oauth_error "invalid_grant" "Refresh token is invalid.")
      | some row ↦
          if row.client_id == client_id
          then ok row
          else err (oauth_error "invalid_grant" "Refresh token is invalid.")
    ]

-- The state of the row: reuse of a consumed token revokes its family.
unfoldable pub check_lifetime : RefreshToken → Exec State (Unit {0})
unfolding revoke_and_throw
check_lifetime row s =
    if is_some row.consumed_at
    then revoke_and_throw row "Refresh token reuse was detected." s
    else if is_some row.revoked_at || leb row.expires_at s.clock
    then (err (oauth_error "invalid_grant" "Refresh token is invalid or expired."), s)
    else (ok tt, s)

abbrev is_tenant : Option Json → String → Bool
is_tenant (some (Json.str tenant_id)) organization_id = tenant_id == organization_id
is_tenant _ organization_id = false

-- The tenant and the audience of the credential are still those of the token.
unfoldable pub is_still_eligible : Directory → RefreshToken → FederatedCredential → Bool
unfolding is_eligible_audience
is_still_eligible deps row credential =
    credential.audience == row.audience
    && is_tenant (get row.claims realmroot_organization_claim) credential.owner_organization_id
    && is_eligible_audience deps credential.audience credential.owner_organization_id

unfoldable pub check_credential : Directory → String → RefreshToken → Exec State (Unit {0})
unfolding find_federated_credential_for_client revoke_and_throw is_still_eligible
check_credential deps client_id row s =
    elim (find_federated_credential_for_client deps row.credential_id client_id) [
      | none ↦
          (err (oauth_error "invalid_grant" "The federated credential is no longer active."), s)
      | some credential ↦
          if not credential.enabled
          then (
            err (oauth_error "invalid_grant" "The federated credential is no longer active."),
            s,
          )
          else if is_still_eligible deps row credential
          then (ok tt, s)
          else revoke_and_throw row "The refresh token tenant or audience is no longer eligible." s
    ]

-- `if (!stored) …`, and the response
abbrev pub answer : RefreshToken → Bool → TokenExchangeResponse → Exec State TokenExchangeResponse
unfolding revoke_and_throw
answer row true response = pure response
answer row false response = revoke_and_throw row "Refresh token reuse was detected."

module _ (deps : Directory) (services : Services) where
  -- What is issued once the token has passed.
  unfoldable pub rotate : String → RefreshToken → List String → Exec State TokenExchangeResponse
  unfolding issue_jwt_access_token prepare_refresh_token fresh_id now rotate_refresh_token
      revoke_and_throw
  rotate client_id row requested_scopes = do
    issued_at ← now
    access_token ← issue_jwt_access_token services (record {
      client_id = client_id;
      subject = row.subject;
      audience = row.audience;
      scopes = requested_scopes;
      claims = row.claims;
      actor = none;
      issued_at = issued_at;
      expires_at = issued_at + default_expires_in_seconds * 1000;
    })
    rotated ← prepare_refresh_token services client_id row.family_id (some row.id) (record {
      credential_id = row.credential_id;
      subject = row.subject;
      subject_token_issuer = row.subject_token_issuer;
      audience = row.audience;
      scopes = requested_scopes;
      claims = row.claims;
    })
    id ← fresh_id services
    stored ← λ s.
        let (stored, s') =
          rotate_refresh_token rotated.row
            (record {
              id = id;
              token_hash = services.hash_provider_secret access_token;
              client_id = client_id;
              credential_id = row.credential_id;
              subject = row.subject;
              subject_token_issuer = row.subject_token_issuer;
              audience = row.audience;
              scopes = requested_scopes;
              claims = row.claims;
              expires_at = issued_at + default_expires_in_seconds * 1000;
              created_at = s.clock;
              revoked_at = none;
            })
            s in
        (ok stored, s')
    answer row stored (record {
      access_token = access_token;
      issued_token_type = access_token_type;
      expires_in = default_expires_in_seconds;
      scope = join requested_scopes;
      refresh_token = some rotated.token;
    })

  -- `refreshToken`, once the client is known and the row is found
  unfoldable pub refresh_row :
      TokenRefreshRequest → String → Application → RefreshToken → Exec State TokenExchangeResponse
  unfolding check_lifetime check_credential resolve_application_token_scopes rotate
  refresh_row input client_id application row = do
    check_lifetime row
    check_credential deps client_id row
    requested_scopes ← reads (λ s.
        resolve_application_token_scopes deps application row.audience s.clock
          (some (get_or input.scope (join row.scopes))))
    rotate client_id row requested_scopes

  unfoldable pub refresh_token :
      TokenRefreshRequest → ClientCredentials → Exec State TokenExchangeResponse
  unfolding authorize_refresh presented_token refresh_row
  refresh_token input client = do
    (oauth_client, application) ← lift (authorize_refresh deps services input client)
    row ← reads (presented_token services input.refresh_token oauth_client.client_id)
    refresh_row input oauth_client.client_id application row
