-- ===== src/Tests/Tokens.antt =====
-- The theorems on the token exchange, tried on the small realm.
use realmroot.Prelude.{
  Reaches, String, true, false, none, some, List, [], ◌∷◌, ◌≡◌, ◌≤◌, refl, includes, ◌&&◌, ◌||◌,
  all, join, ◌++◌, split_at, dedupe, words, sort, leb, is_some,
}
use realmroot.Errors.{Result, ok, err, oauth_error}
use realmroot.Errors.Laws.{is_ok}
use realmroot.TokenExchange.Keys.{validate_public_keys, check_keys, length, key_id}
use realmroot.TokenExchange.Keys.Kinds.{is_public_verification_key}
use realmroot.TokenExchange.Keys.Laws.{validate_public_keys_iff, key_ids, is_distinct}
use realmroot.Json.{Members, object, str, arr, cons, nil, get}
use realmroot.Directory.{
  OauthClient, find_client, organization_role_scopes, find_resource_by_resource_url,
  list_active_application_scope_entitlements, ApiResource, find_federated_credentials,
  list_user_memberships, find_resource, list_active_user_scope_entitlements,
}
use realmroot.Membership.{
  active_resource_visible_to_organization, resolve_organization_membership_scopes,
  resolve_organization_membership_scopes_for_resource, is_realmroot_resource_server,
  scopes_of_other_resource, scopes_of_dynamic_roles,
}
use realmroot.Entitlements.{
  application_effective_resource_scopes, current_registry_scopes, user_effective_resource_scopes,
  user_entitlement_matches_organization, visible_memberships, scopes_of_memberships,
}
use realmroot.TokenExchange.{State, TokenExchangeResponse, AuditEvent, AccessToken}
use realmroot.TokenExchange.Client.{authorize_refresh}
use realmroot.TokenExchange.Store.Rotation.{is_dead, Step, Reach}
use realmroot.TokenExchange.Store.Rotation.Counts.{count}
use realmroot.TokenExchange.Store.Rotation.Steps.{one_token_in_use}
use realmroot.TokenExchange.Store.Rotation.Revoked.{revoked_family_stays_revoked}
use realmroot.TokenExchange.Store.{store_refresh_token, revoke_refresh_token_family}
use realmroot.TokenExchange.Grants.{resolve_application_token_scopes_for_resource}
use realmroot.TokenExchange.Grants.Laws.{application_token_scopes}
use realmroot.TokenExchange.Refresh.{presented_token, refresh_token}
use realmroot.TokenExchange.Refresh.Single.{refresh_token_once, refreshed_scopes}
use realmroot.TokenExchange.Refresh.Reuse.{reuse_revokes_family}
use realmroot.TokenExchange.Refresh.Steps.{refresh_token-Reach}
use realmroot.TokenExchange.Introspect.{active, describe, introspect_token}
use realmroot.TokenExchange.Introspect.Answers.{Introspected}
use realmroot.TokenExchange.Introspect.Laws.{HasShownSecret, introspect_active}
use realmroot.TokenExchange.Federated.{FederatedGrant, resolve_federated_grant}
use realmroot.TokenExchange.Federated.Laws.{FederatedBounds, federated_grant_is_bounded}
use realmroot.TokenExchange.Delegated.{mapped_target_scopes, require_active_delegated_user}
use realmroot.TokenExchange.Delegated.Grant.{
  DelegatedGrant, resolve_delegated_grant, exchange_delegated_user_token,
}
use realmroot.TokenExchange.Delegated.Laws.{DelegatedBounds, delegated_grant_is_bounded}
use realmroot.TokenExchange.Exchange.{audited_delegation}
use realmroot.TokenExchange.Exchange.Laws.{delegation_is_audited}
use realmroot.TokenExchange.Identity.Audited.{exchange_agent_identity_token}
use realmroot.TokenExchange.Identity.Laws.{identity_exchange_is_audited}
use realmroot.Tests.{
  realm, services, credentials, refresh_request, with_first, no_tokens, first_token, shop,
  shop_client, opaque_token, orders, federated_request, delegated_request, bob_claims, credential,
}

authorized : authorize_refresh realm services refresh_request credentials ≡ ok (shop_client, shop)
unfolding authorize_refresh
authorized = refl

presented : presented_token services "fatr_first" "shop-client" with_first ≡ ok first_token
unfolding presented_token
presented = refl

abbrev run : Result TokenExchangeResponse × State
run = refresh_token realm services refresh_request credentials with_first

abbrev given : TokenExchangeResponse
given = record {
  access_token = "signed";
  issued_token_type = "urn:ietf:params:oauth:token-type:access_token";
  expires_in = 3600;
  scope = "orders:read offline_access";
  refresh_token = some "fatr_random";
}

succeeds : run ≡ (ok given, run.1)
unfolding refresh_token get find_resource_by_resource_url active_resource_visible_to_organization
    dedupe words join application_effective_resource_scopes current_registry_scopes sort
    list_active_application_scope_entitlements
succeeds = refl

refresh_token_once_example :
    ((refresh_token realm services refresh_request credentials run.1).0
      ≡ err (oauth_error "invalid_grant" "Refresh token reuse was detected."))
    × (is_dead "family"
          (refresh_token realm services refresh_request credentials run.1).1.refresh_tokens
        ≡ true)
refresh_token_once_example =
    refresh_token_once realm services refresh_request credentials with_first run.1 given shop_client
      shop first_token authorized presented succeeds

refreshed_scopes_example :
    (scopes : List String) × (resource : ApiResource) × (find_resource_by_resource_url realm
        "https://orders"
      ≡ some resource)
    × ("orders:read offline_access" ≡ join scopes)
    × (all
          (λ v.
            includes shop.oidc_scopes v
            || includes (application_effective_resource_scopes realm shop resource 1000000) v)
          scopes
        ≡ true)
refreshed_scopes_example =
    refreshed_scopes realm services refresh_request credentials with_first run.1 given shop_client
      shop first_token authorized presented succeeds

abbrev scopes_given : List String
scopes_given = "orders:read" ∷ "offline_access" ∷ []

abbrev with_consumed : State
with_consumed = record with_first {
  refresh_tokens = record first_token { consumed_at = some 5 } ∷ [];
}

presented_consumed :
    presented_token services "fatr_first" "shop-client" with_consumed
    ≡ ok (record first_token { consumed_at = some 5 })
unfolding presented_token
presented_consumed = refl

reuse_revokes_family_example :
    ((refresh_token realm services refresh_request credentials with_consumed).0
      ≡ err (oauth_error "invalid_grant" "Refresh token reuse was detected."))
    × (is_dead "family"
          (refresh_token realm services refresh_request credentials with_consumed).1.refresh_tokens
        ≡ true)
reuse_revokes_family_example =
    reuse_revokes_family realm services refresh_request credentials with_consumed shop_client shop
      (record first_token { consumed_at = some 5 }) authorized presented_consumed refl

issued_first : Reach no_tokens with_first
unfolding store_refresh_token
issued_first = Reaches.step Reaches.here (Step.issued first_token refl refl refl)

abbrev with_revoked : State
with_revoked = record with_first {
  refresh_tokens = record first_token { revoked_at = some 7 } ∷ [];
}

then_revoked : Reach no_tokens with_revoked
unfolding revoke_refresh_token_family
then_revoked = Reaches.step issued_first (Step.revoked "family" 7 refl)

then_unchanged : Reach with_revoked with_revoked
then_unchanged = Reaches.step Reaches.here (Step.unchanged refl)

one_token_in_use_example : count "family" with_first.refresh_tokens ≤ 1
one_token_in_use_example = one_token_in_use no_tokens with_first "family" refl issued_first

revoked_family_stays_revoked_example :
    (is_dead "family" with_revoked.refresh_tokens ≡ true)
    × (count "family" with_revoked.refresh_tokens ≡ 0)
revoked_family_stays_revoked_example =
    revoked_family_stays_revoked no_tokens with_revoked with_revoked "family" refl then_revoked
      then_unchanged refl

resolved_for_orders :
    resolve_application_token_scopes_for_resource realm shop orders 1000000
      (some "orders:read offline_access")
    ≡ ok scopes_given
unfolding resolve_application_token_scopes_for_resource dedupe words
    application_effective_resource_scopes active_resource_visible_to_organization
    current_registry_scopes sort list_active_application_scope_entitlements
resolved_for_orders = refl

application_token_scopes_example : includes scopes_given "orders:read" ≡ (
    includes (words "orders:read offline_access") "orders:read"
    && (includes shop.oidc_scopes "orders:read"
        || includes
            (application_effective_resource_scopes realm shop orders 1000000)
            "orders:read"))
application_token_scopes_example =
    application_token_scopes realm shop orders 1000000 (some "orders:read offline_access")
      scopes_given "orders:read" resolved_for_orders

called_active :
    introspect_token realm services "fatx_opaque" credentials "https://auth" with_first
    ≡ ok (active (describe "https://auth" opaque_token))
unfolding introspect_token
called_active = refl

introspect_active_example :
    ((who : OauthClient) × HasShownSecret services credentials who
      × (find_client realm credentials.client_id ≡ some who))
    × ((row : AccessToken) × Introspected services "fatx_opaque" "https://auth"
          credentials.client_id with_first row
          (describe "https://auth" opaque_token))
introspect_active_example =
    introspect_active realm services "fatx_opaque" credentials "https://auth" with_first
      (describe "https://auth" opaque_token) called_active

abbrev federated_grant : FederatedGrant
federated_grant = record {
  subject = "repo:shop";
  credential = credential;
  scopes = "orders:read" ∷ [];
  expires_at = 2000000;
}

granted_federated :
    resolve_federated_grant realm services 1000000 federated_request shop_client shop
    ≡ ok federated_grant
unfolding resolve_federated_grant split_at get find_resource_by_resource_url
    active_resource_visible_to_organization dedupe words application_effective_resource_scopes
    current_registry_scopes sort list_active_application_scope_entitlements
    find_federated_credentials
granted_federated = refl

federated_grant_is_bounded_example :
    FederatedBounds realm services 1000000 federated_request shop_client shop federated_grant
federated_grant_is_bounded_example =
    federated_grant_is_bounded realm services 1000000 federated_request shop_client shop
      federated_grant granted_federated

abbrev delegated_grant : DelegatedGrant
delegated_grant = record {
  subject = "bob";
  scopes = "bills:read" ∷ [];
  organization_id = some "acme";
  actor = none;
  expires_at = 1300000;
}

granted_delegated :
    resolve_delegated_grant realm services 1000000 delegated_request bob_claims shop
    ≡ ok delegated_grant
unfolding resolve_delegated_grant resolve_organization_membership_scopes_for_resource
    is_realmroot_resource_server user_entitlement_matches_organization scopes_of_other_resource
    scopes_of_dynamic_roles organization_role_scopes get find_resource_by_resource_url
    active_resource_visible_to_organization dedupe words application_effective_resource_scopes
    current_registry_scopes sort list_active_application_scope_entitlements
    require_active_delegated_user resolve_application_token_scopes_for_resource
    user_effective_resource_scopes visible_memberships scopes_of_memberships list_user_memberships
    resolve_organization_membership_scopes find_resource list_active_user_scope_entitlements
    mapped_target_scopes
granted_delegated = refl

delegated_grant_is_bounded_example :
    DelegatedBounds realm services 1000000 delegated_request bob_claims shop delegated_grant
      "bills:read"
delegated_grant_is_bounded_example =
    delegated_grant_is_bounded realm services 1000000 delegated_request bob_claims shop
      delegated_grant "bills:read" granted_delegated

abbrev delegation : Result TokenExchangeResponse × State
delegation =
    audited_delegation realm services delegated_request bob_claims "shop-client" shop with_first

delegation_is_audited_example :
    (event : AuditEvent) × (delegation.1.audit_events ≡ [] ++ event ∷ [])
    × (event.allowed ≡ is_ok delegation.0)
    × (delegation.0
        ≡ (exchange_delegated_user_token realm services delegated_request bob_claims "shop-client"
            shop with_first).0)
delegation_is_audited_example =
    delegation_is_audited realm services delegated_request bob_claims "shop-client" shop with_first

abbrev identity_exchange : Result TokenExchangeResponse × State
identity_exchange =
    exchange_agent_identity_token realm services delegated_request credentials none with_first

identity_exchange_is_audited_example :
    (event : AuditEvent) × (identity_exchange.1.audit_events ≡ [] ++ event ∷ [])
    × (event.allowed ≡ is_ok identity_exchange.0)
identity_exchange_is_audited_example =
    identity_exchange_is_audited realm services delegated_request credentials with_first none

refresh_token-Reach_example :
    Reach with_first (refresh_token realm services refresh_request credentials with_first).1
refresh_token-Reach_example =
    refresh_token-Reach realm services refresh_request credentials with_first refl

abbrev rsa_key : String → Members
rsa_key id = object (
    ("kty", some (str "RSA"))
    ∷ ("kid", some (str id))
    ∷ ("n", some (str "sXch"))
    ∷ ("e", some (str "AQAB"))
    ∷ ("key_ops", some (arr (cons (str "verify") nil)))
    ∷ [])

abbrev ec_key : Members
ec_key = object (
    ("kty", some (str "EC"))
    ∷ ("kid", some (str "ec"))
    ∷ ("crv", some (str "P-256"))
    ∷ ("x", some (str "f83O"))
    ∷ ("y", some (str "x_FE"))
    ∷ ("use", some (str "sig"))
    ∷ [])

validate_public_keys_iff_example : is_ok (validate_public_keys (rsa_key "a" ∷ ec_key ∷ [])) ≡ (
    all is_public_verification_key (rsa_key "a" ∷ ec_key ∷ [])
    && ((leb (length (rsa_key "a" ∷ ec_key ∷ [])) 1
          || all (λ key. is_some (key_id key)) (rsa_key "a" ∷ ec_key ∷ []))
        && is_distinct (key_ids (rsa_key "a" ∷ ec_key ∷ []))))
validate_public_keys_iff_example = validate_public_keys_iff (rsa_key "a" ∷ ec_key ∷ [])

two_keys_accepted : validate_public_keys (rsa_key "a" ∷ ec_key ∷ []) ≡ ok tt
unfolding validate_public_keys check_keys get
two_keys_accepted = refl

repeated_key_refused : is_ok (validate_public_keys (rsa_key "a" ∷ rsa_key "a" ∷ [])) ≡ false
unfolding validate_public_keys check_keys get
repeated_key_refused = refl
