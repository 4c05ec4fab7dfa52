-- ===== src/TokenExchange/Federated.antt =====
-- server/usecases/token-exchange.ts: the part of `exchangeToken` that decides what the subject token
-- of a federated issuer is exchanged for.
pub mod Laws
pub mod Parsed
pub mod Verified
use realmroot.Prelude.{
  ℕ, String, Bool, true, false, not, ◌&&◌, ◌||◌, Option, none, some, List, [], ◌∷◌, ◌+◌, ◌*◌, ◌/◌,
  ◌==◌, includes, min, get_or, if◌then◌else◌,
}
use realmroot.Errors.{Result, ok, err, oauth_error, oauth_failure, require, or_throw, ◌>>=◌, ◌>>◌}
use realmroot.Json.{Json, Members, get, object, read_string, read_number}
use realmroot.Directory.{Directory, Application, OauthClient, FederatedCredential}
use realmroot.TokenExchange.{
  Services, TokenExchangeRequest, refresh_token_grant_type, realmroot_organization_claim,
  default_expires_in_seconds,
}
use realmroot.TokenExchange.Client.{parse_list}
use realmroot.TokenExchange.Grants.{
  resolve_credential, require_eligible_audience, resolve_application_token_scopes,
}
use realmroot.TokenExchange.Assertion.{
  Assertion, parse_jwt, verify_subject_token, unverified_subject_token_audience,
}

pub record FederatedGrant : Type 0 where
  pub subject : String
  pub credential : FederatedCredential
  pub scopes : List String
  pub expires_at : ℕ

-- The claims that are stored beside the token
abbrev pub credential_claims : FederatedCredential → Members
credential_claims credential =
    object ((realmroot_organization_claim, some (Json.str credential.owner_organization_id)) ∷ [])

module _ (deps : Directory) (services : Services) (clock : ℕ) where
  unfoldable pub resolve_federated_grant :
      TokenExchangeRequest → OauthClient → Application → Result FederatedGrant
  unfolding parse_jwt resolve_credential require_eligible_audience resolve_application_token_scopes
      verify_subject_token
  resolve_federated_grant input oauth_client application = do
    assertion ← parse_jwt services input.subject_token
    issuer ←
        or_throw (read_string (get assertion.payload "iss"))
          (oauth_error "invalid_grant" "Subject token is missing required claims.")
    subject ←
        or_throw (read_string (get assertion.payload "sub"))
          (oauth_error "invalid_grant" "Subject token is missing required claims.")
    credential ← resolve_credential deps oauth_client.client_id issuer subject
    require (credential.owner_organization_id == application.owner_organization_id) (
        oauth_error "invalid_grant" "Federated credential is outside the Application Organization.")
    require (credential.audience == input.audience)
        (oauth_error "invalid_target" "Requested audience does not match the federated credential.")
    require_eligible_audience deps credential.audience credential.owner_organization_id
    scopes ← resolve_application_token_scopes deps application input.audience clock input.scope
    require
        (not (includes scopes "offline_access")
          || includes (parse_list oauth_client.grant_types) refresh_token_grant_type)
        (oauth_error "invalid_scope" "Client is not allowed to issue refresh tokens.")
    verify_subject_token services clock assertion credential
    ok (record {
      subject = subject;
      credential = credential;
      scopes = scopes;
      expires_at =
          min (clock + default_expires_in_seconds * 1000)
            (get_or (read_number (get assertion.payload "exp")) 0 * 1000);
    })

-- A verifier of Realmroot's own tokens: the claims, or nothing where it throws.
abbrev pub Verifier : Type 0
Verifier = (token issuer audience : String) → Option Members

unfoldable pub verify_realmroot_access_token :
    Services → TokenExchangeRequest → Option Verifier → Result Members
unfolding unverified_subject_token_audience
verify_realmroot_access_token services input none =
    err (oauth_failure 503 "temporarily_unavailable" "Access token verification is unavailable.")
verify_realmroot_access_token services input (some verify) = do
  source_audience ← unverified_subject_token_audience services input.subject_token
  audience ←
      or_throw source_audience
        (oauth_error "invalid_grant" "Subject access token audience is invalid.")
  or_throw (verify input.subject_token services.issuer audience)
      (oauth_error "invalid_grant" "Subject access token is invalid.")
