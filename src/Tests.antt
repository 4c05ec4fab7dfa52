-- ===== src/Tests.antt =====
-- A small realm on which the theorems are tried: two Organizations, two resources of one of them
-- beside Realmroot's own, an application with a federated credential, and two users.
mod Access
mod Tokens
mod Pages
mod Agents
mod Organizations
use realmroot.Prelude.{
  ℕ, String, Bool, true, false, Option, none, some, List, [], ◌∷◌, ◌==◌, nat_eq, if◌then◌else◌,
}
use realmroot.Json.{Json, Items, Members, object}
use realmroot.Directory.{
  Directory, Organization, Member, User, ApiResource, Visibility, AuthorizationModel, GrantMode,
  ResourceScope, OrganizationRole, RoleScope, ScopeEntitlement, Application, OauthClient,
  FederatedCredential, ResourceScopes, TokenExchangePolicy, ScopeMapping,
}
use realmroot.TokenExchange.{
  Services, State, RefreshToken, AccessToken, ClientCredentials, TokenRefreshRequest,
  TokenExchangeRequest, realmroot_organization_claim, refresh_token_grant_type,
  token_exchange_grant_type, jwt_token_type, access_token_type,
}

abbrev pub platform : Organization
platform = record { id = "platform"; slug = "realmroot"; disabled = false }

abbrev pub realmroot_api : ApiResource
realmroot_api = record {
  id = "realmroot-api";
  identifier = "realmroot";
  resource_url = "https://auth/api";
  authorization_model = AuthorizationModel.native;
  enabled = true;
  owner_organization_id = "platform";
  visibility = Visibility.public;
  scope_registry = none;
  available_to_agents = true;
  deleted_at = none;
}

abbrev pub orders : ApiResource
orders = record {
  id = "orders";
  identifier = "orders";
  resource_url = "https://orders";
  authorization_model = AuthorizationModel.native;
  enabled = true;
  owner_organization_id = "acme";
  visibility = Visibility.private;
  scope_registry = some (
      record { value = "orders:read"; grant_mode = GrantMode.assigned }
      ∷ record { value = "orders:list"; grant_mode = GrantMode.automatic }
      ∷ []);
  available_to_agents = true;
  deleted_at = none;
}

abbrev pub bills : ApiResource
bills = record {
  id = "bills";
  identifier = "bills";
  resource_url = "https://bills";
  authorization_model = AuthorizationModel.native;
  enabled = true;
  owner_organization_id = "acme";
  visibility = Visibility.private;
  scope_registry = some (record { value = "bills:read"; grant_mode = GrantMode.assigned } ∷ []);
  available_to_agents = false;
  deleted_at = none;
}

abbrev pub shop : Application
shop = record {
  id = "shop";
  client_id = "shop-client";
  disabled = false;
  visibility = Visibility.private;
  owner_organization_id = "acme";
  allowed_grant_types = [];
  oidc_scopes = "openid" ∷ "offline_access" ∷ [];
  resource_scopes =
      record { resource_server_id = "orders"; scopes = "orders:read" ∷ [] }
      ∷ record { resource_server_id = "bills"; scopes = "bills:read" ∷ [] }
      ∷ [];
  token_exchange_policies =
      TokenExchangePolicy.resource_policy "orders" "bills"
        (record { source_scope = "orders:read"; target_scope = "bills:read" } ∷ [])
      ∷ [];
}

abbrev pub shop_client : OauthClient
shop_client = record {
  client_id = "shop-client";
  client_secret = some "secret";
  disabled = false;
  grant_types = some (
      Json.arr (
        Items.cons (Json.str token_exchange_grant_type)
          (Items.cons (Json.str refresh_token_grant_type) Items.nil)));
}

abbrev pub credential : FederatedCredential
credential = record {
  id = "credential";
  application_client_id = "shop-client";
  application_disabled = false;
  owner_organization_id = "acme";
  issuer = "https://idp";
  subject = "repo:*";
  audience = "https://orders";
  jwks_url = none;
  public_keys = some (Json.obj Members.end ∷ []);
  resource_enabled = true;
  enabled = true;
}

abbrev entitlement : Option String → Option String → String → String → ScopeEntitlement
entitlement user_id application_id resource_id scope = record {
  user_id = user_id;
  application_id = application_id;
  resource_server_id = resource_id;
  organization_id = some "acme";
  scope = scope;
  expires_at = none;
  ended_at = none;
  end_reason = none;
}

abbrev pub realm : Directory
realm = record {
  organizations = platform ∷ record { id = "acme"; slug = "acme"; disabled = false } ∷ [];
  members =
      record { organization_id = "acme"; user_id = "alice"; roles = "owner" ∷ [] }
      ∷ record { organization_id = "acme"; user_id = "bob"; roles = "reader" ∷ [] }
      ∷ [];
  users =
      record { id = "alice"; banned = false; deleted_at = none }
      ∷ record { id = "bob"; banned = false; deleted_at = none }
      ∷ [];
  resources = realmroot_api ∷ orders ∷ bills ∷ [];
  organization_roles =
      record {
        organization_id = "acme";
        role = "reader";
        scopes = record { resource_id = "orders"; scope = "orders:read" } ∷ [];
      }
      ∷ [];
  entitlements =
      entitlement none (some "shop") "orders" "orders:read"
      ∷ entitlement none (some "shop") "bills" "bills:read"
      ∷ entitlement (some "bob") none "bills" "bills:read"
      ∷ [];
  applications = shop ∷ [];
  clients = shop_client ∷ [];
  credentials = credential ∷ [];
  identities = [];
  bindings = [];
  leases = [];
  access_requests = [];
  teams = [];
}

abbrev header_claims : Members
header_claims = object (("alg", some (Json.str "RS256")) ∷ [])

abbrev assertion_claims : Members
assertion_claims = object (
    ("iss", some (Json.str "https://idp"))
    ∷ ("sub", some (Json.str "repo:shop"))
    ∷ ("aud", some (Json.str "https://orders"))
    ∷ ("exp", some (Json.num 2000))
    ∷ [])

abbrev pub services : Services
services = record {
  hash_provider_secret = λ s. s;
  sha256 = λ s. s;
  issuer = "https://auth";
  sign = λ _ _. "signed";
  verify = λ _ _ _. none;
  decode_part = λ part.
      if part == "h" then some (Json.obj header_claims) else some (Json.obj assertion_claims);
  decode_signature = λ part. some part;
  verify_signature = λ _ _ _ _. some true;
  fetch_keys = λ _. none;
  generate = λ n. if nat_eq n 2 then "row-2" else "row";
  random_token = λ _. "random";
}

abbrev pub first_token : RefreshToken
first_token = record {
  id = "row-1";
  family_id = "family";
  parent_id = none;
  token_hash = "fatr_first";
  client_id = "shop-client";
  credential_id = "credential";
  subject = "repo:shop";
  subject_token_issuer = "https://idp";
  audience = "https://orders";
  scopes = "orders:read" ∷ "offline_access" ∷ [];
  claims = object ((realmroot_organization_claim, some (Json.str "acme")) ∷ []);
  expires_at = 2000000;
  consumed_at = none;
  revoked_at = none;
  created_at = 0;
}

abbrev pub opaque_token : AccessToken
opaque_token = record {
  id = "access";
  token_hash = "fatx_opaque";
  client_id = "shop-client";
  credential_id = "credential";
  subject = "repo:shop";
  subject_token_issuer = "https://idp";
  audience = "https://orders";
  scopes = "orders:read" ∷ [];
  claims = Members.end;
  expires_at = 2000000;
  created_at = 0;
  revoked_at = none;
}

abbrev pub no_tokens : State
no_tokens = record {
  access_tokens = [];
  refresh_tokens = [];
  audit_events = [];
  drawn = 0;
  clock = 1000000;
}

abbrev pub with_first : State
with_first = record no_tokens {
  refresh_tokens = first_token ∷ [];
  access_tokens = opaque_token ∷ [];
}

abbrev pub credentials : ClientCredentials
credentials = record { client_id = "shop-client"; client_secret = some "secret" }

abbrev pub refresh_request : TokenRefreshRequest
refresh_request = record {
  grant_type = refresh_token_grant_type;
  refresh_token = "fatr_first";
  scope = none;
}

abbrev pub federated_request : TokenExchangeRequest
federated_request = record {
  grant_type = token_exchange_grant_type;
  subject_token = "h.p.s";
  subject_token_type = jwt_token_type;
  audience = "https://orders";
  scope = some "orders:read";
  requested_token_type = none;
}

abbrev pub delegated_request : TokenExchangeRequest
delegated_request = record federated_request {
  subject_token_type = access_token_type;
  audience = "https://bills";
  scope = some "bills:read";
}

abbrev pub bob_claims : Members
bob_claims = object (
    ("sub", some (Json.str "bob"))
    ∷ ("iss", some (Json.str "https://auth"))
    ∷ ("aud", some (Json.str "https://orders"))
    ∷ ("exp", some (Json.num 2000))
    ∷ ("scope", some (Json.str "orders:read"))
    ∷ (realmroot_organization_claim, some (Json.str "acme"))
    ∷ [])
