-- ===== src/TokenExchange/Federated/Laws.antt =====
-- What the subject token of a federated issuer can be exchanged for.
use realmroot.Prelude.{
  Among, find-Among, filter-Among, Bool, false, refl, String, ℕ, true, not, ◌&&◌, ◌||◌, some, ◌≡◌,
  includes, ap, subst, arith, ◌≤◌, ◌+◌, ◌*◌, find, find_sound, and_true, eq_iff, ◌==◌, get_or, min,
}
use realmroot.Errors.{ok, oauth_error}
use realmroot.Errors.Laws.{>>=-eq-ok, require-eq-ok, or_throw-eq-ok, ok-injective, or_throw-ok}
use realmroot.Json.{Json, get, read_string, read_number}
use realmroot.Json.Laws.{read_string-some}
use realmroot.Directory.{
  Directory, Application, OauthClient, FederatedCredential, find_federated_credentials,
  is_live_credential,
}
use realmroot.TokenExchange.{Services, TokenExchangeRequest, refresh_token_grant_type}
use realmroot.TokenExchange.Client.{parse_list}
use realmroot.TokenExchange.Grants.{
  subject_matches, resolve_credential, require_eligible_audience, resolve_application_token_scopes,
}
use realmroot.TokenExchange.Assertion.{Assertion, parse_jwt, verify_subject_token}
use realmroot.TokenExchange.Federated.Parsed.{IsParsed, parse_jwt-IsParsed}
use realmroot.TokenExchange.Federated.Verified.{IsVerified, verify_subject_token-IsVerified}
use realmroot.TokenExchange.Federated.{FederatedGrant, resolve_federated_grant}

-- The credential is of the client, for the issuer and the subject, and in use.
abbrev pub IsBackedBy :
    Directory → (client_id issuer subject : String) → FederatedCredential → Type 0
IsBackedBy deps client_id issuer subject credential =
    Among credential deps.credentials
    × (credential.issuer ≡ issuer)
    × (credential.application_client_id ≡ client_id)
    × (credential.application_disabled ≡ false)
    × (credential.resource_enabled ≡ true)
    × (credential.enabled ≡ true)
    × (subject_matches credential.subject subject ≡ true)

resolve_credential-IsBackedBy :
    (deps : Directory) (client_id issuer subject : String) (credential : FederatedCredential)
    → resolve_credential deps client_id issuer subject ≡ ok credential
    → IsBackedBy deps client_id issuer subject credential
unfolding resolve_credential find_federated_credentials
resolve_credential-IsBackedBy deps client_id issuer subject credential h =
    let fits : FederatedCredential → Bool =
      λ item. item.enabled && subject_matches item.subject subject in
    let of_client : FederatedCredential → Bool =
      λ row. row.issuer == issuer && is_live_credential deps client_id row in
    let rows = find_federated_credentials deps client_id issuer in
    let found =
      or_throw-ok (find fits rows)
        (oauth_error "invalid_grant" "No federated credential matches the subject token.")
        credential h in
    let (row, passes) =
      filter-Among of_client deps.credentials credential (find-Among fits rows credential found) in
    let (enabled, matches) = and_true _ _ (find_sound fits rows credential found) in
    let (issued, live) = and_true _ _ passes in
    (
      row,
      (eq_iff credential.issuer issuer).0 issued,
      (eq_iff credential.application_client_id client_id).0 (ground (arith, live)),
      ground (arith, live),
      ground (arith, live),
      enabled,
      matches,
    )

-- What a federated grant rests on, and what it gives
pub record FederatedBounds (deps : Directory) (services : Services) (clock : ℕ)
    (input : TokenExchangeRequest) (oauth_client : OauthClient) (application : Application)
    (grant : FederatedGrant) : Type 0 where
  pub assertion : Assertion
  pub issuer : String
  pub exp : ℕ
  pub parsed : IsParsed services input.subject_token assertion
  pub issuer_claim : get assertion.payload "iss" ≡ some (Json.str issuer)
  pub subject_claim : get assertion.payload "sub" ≡ some (Json.str grant.subject)
  pub verified : IsVerified services clock assertion grant.credential exp
  pub backed : IsBackedBy deps oauth_client.client_id issuer grant.subject grant.credential
  pub owner : grant.credential.owner_organization_id ≡ application.owner_organization_id
  pub audience : grant.credential.audience ≡ input.audience
  pub scopes_are :
      resolve_application_token_scopes deps application input.audience clock input.scope
      ≡ ok grant.scopes
  pub one_hour : grant.expires_at ≤ clock + 3600000
  pub within_subject : grant.expires_at ≤ exp * 1000

-- What a federated grant went through.
record Federation (deps : Directory) (services : Services) (clock : ℕ)
    (input : TokenExchangeRequest) (oauth_client : OauthClient) (application : Application)
    (grant : FederatedGrant) : Type 0 where
  pub assertion : Assertion
  pub issuer : String
  pub token_parsed : parse_jwt services input.subject_token ≡ ok assertion
  pub issuer_read : read_string (get assertion.payload "iss") ≡ some issuer
  pub subject_read : read_string (get assertion.payload "sub") ≡ some grant.subject
  pub credential_found :
      resolve_credential deps oauth_client.client_id issuer grant.subject ≡ ok grant.credential
  pub same_owner :
      grant.credential.owner_organization_id == application.owner_organization_id ≡ true
  pub same_audience : grant.credential.audience == input.audience ≡ true
  pub scopes_are :
      resolve_application_token_scopes deps application input.audience clock input.scope
      ≡ ok grant.scopes
  pub token_verified : verify_subject_token services clock assertion grant.credential ≡ ok tt
  pub expiry :
      grant.expires_at
      ≡ min (clock + 3600 * 1000) (get_or (read_number (get assertion.payload "exp")) 0 * 1000)

resolve_federated_grant-eq-ok :
    (deps : Directory) (services : Services) (clock : ℕ) (input : TokenExchangeRequest)
    (oauth_client : OauthClient) (application : Application) (grant : FederatedGrant)
    → resolve_federated_grant deps services clock input oauth_client application ≡ ok grant
    → Federation deps services clock input oauth_client application grant
unfolding resolve_federated_grant
resolve_federated_grant-eq-ok deps services clock input oauth_client application grant h0 =
    let (assertion, e1, h1) = >>=-eq-ok (parse_jwt services input.subject_token) _ h0 in
    let (issuer, e2, h2) = or_throw-eq-ok (read_string (get assertion.payload "iss")) _ _ h1 in
    let (subject, e3, h3) = or_throw-eq-ok (read_string (get assertion.payload "sub")) _ _ h2 in
    let (credential, e4, h4) =
      >>=-eq-ok (resolve_credential deps oauth_client.client_id issuer subject) _ h3 in
    let (t5, h5) =
      require-eq-ok (credential.owner_organization_id == application.owner_organization_id) _ _
        h4 in
    let (t6, h6) = require-eq-ok (credential.audience == input.audience) _ _ h5 in
    let (u7, e7, h7) =
      >>=-eq-ok
        (require_eligible_audience deps credential.audience credential.owner_organization_id) _
        h6 in
    let (scopes, e8, h8) =
      >>=-eq-ok (resolve_application_token_scopes deps application input.audience clock input.scope)
        _ h7 in
    let (t9, h9) =
      require-eq-ok
        (not (includes scopes "offline_access")
          || includes (parse_list oauth_client.grant_types) refresh_token_grant_type)
        _ _ h8 in
    let (u10, e10, h10) =
      >>=-eq-ok (verify_subject_token services clock assertion credential) _ h9 in
    subst (Federation deps services clock input oauth_client application) (ok-injective h10)
      (record {
        assertion = assertion;
        issuer = issuer;
        token_parsed = e1;
        issuer_read = e2;
        subject_read = e3;
        credential_found = e4;
        same_owner = t5;
        same_audience = t6;
        scopes_are = e8;
        token_verified = e10;
        expiry = refl;
      })

-- A federated grant rests on a subject token of three parts, whose claims name the grant's subject
-- and the issuer, and on a row of the credentials of the client and of that issuer, in use, whose
-- subject pattern fits, which is of the application's Organization and for the audience asked for. The
-- token is neither expired nor too early, has the credential's audience, and its signature, RS256 or
-- ES256, is accepted under a key of the credential: the one its header names, or the only one. The
-- scopes are the application's, of those asked for. The new token ends within the hour, and no later
-- than the `exp` of the subject token.
pub federated_grant_is_bounded :
    (deps : Directory) (services : Services) (clock : ℕ) (input : TokenExchangeRequest)
    (oauth_client : OauthClient) (application : Application) (grant : FederatedGrant)
    → resolve_federated_grant deps services clock input oauth_client application ≡ ok grant
    → FederatedBounds deps services clock input oauth_client application grant
federated_grant_is_bounded deps services clock input oauth_client application grant h =
    let d =
      resolve_federated_grant-eq-ok deps services clock input oauth_client application grant h in
    let (exp, verified) =
      verify_subject_token-IsVerified services clock d.assertion grant.credential
        d.token_verified in
    let read : get_or (read_number (get d.assertion.payload "exp")) 0 ≡ exp =
      ap (λ claim. get_or (read_number claim) 0) verified.expiry_claim in
    record {
      assertion = d.assertion;
      issuer = d.issuer;
      exp = exp;
      parsed = parse_jwt-IsParsed services input.subject_token d.assertion d.token_parsed;
      issuer_claim = read_string-some (get d.assertion.payload "iss") d.issuer d.issuer_read;
      subject_claim = read_string-some (get d.assertion.payload "sub") grant.subject d.subject_read;
      verified = verified;
      backed =
          resolve_credential-IsBackedBy deps oauth_client.client_id d.issuer grant.subject
            grant.credential d.credential_found;
      owner =
          (eq_iff grant.credential.owner_organization_id application.owner_organization_id).0
            d.same_owner;
      audience = (eq_iff grant.credential.audience input.audience).0 d.same_audience;
      scopes_are = d.scopes_are;
      one_hour = omega (arith, d.expiry);
      within_subject = omega (arith, d.expiry, read);
    }
