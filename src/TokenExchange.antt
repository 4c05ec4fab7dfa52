-- ===== src/TokenExchange.antt =====
-- server/usecases/token-exchange.ts: what the parts of the token exchange share: its constants, the
-- outside services it calls, the state it writes, and the responses it gives.
pub mod Store
pub mod Client
pub mod Keys
pub mod Grants
pub mod Issue
pub mod Introspect
pub mod Identity
pub mod Exchange
pub mod Federated
pub mod Audit
pub mod Assertion
pub mod Delegated
pub mod Refresh
use Prim.Native.String
use realmroot.Prelude.{ℕ, String, Bool, Option, List, ◌+◌, ◌*◌}
use realmroot.Errors.Exec.{Exec}
use realmroot.Errors.{ok}
use realmroot.Json.{Json, Members}

abbrev pub token_exchange_grant_type : String
token_exchange_grant_type = "urn:ietf:params:oauth:grant-type:token-exchange"

abbrev pub refresh_token_grant_type : String
refresh_token_grant_type = "refresh_token"

abbrev pub access_token_type : String
access_token_type = "urn:ietf:params:oauth:token-type:access_token"

abbrev pub id_token_type : String
id_token_type = "urn:ietf:params:oauth:token-type:id_token"

abbrev pub jwt_token_type : String
jwt_token_type = "urn:ietf:params:oauth:token-type:jwt"

abbrev pub default_expires_in_seconds : ℕ
default_expires_in_seconds = 3600

abbrev pub delegated_user_expires_in_seconds : ℕ
delegated_user_expires_in_seconds = 300

abbrev pub default_refresh_expires_in_seconds : ℕ
default_refresh_expires_in_seconds = 2592000

abbrev pub subject_claims_member : String
subject_claims_member = "urn:realmroot:params:oauth:token-exchange:subject-claims"

abbrev pub refresh_token_prefix : String
refresh_token_prefix = "fatr_"

abbrev pub opaque_access_token_prefix : String
opaque_access_token_prefix = "fatx_"

abbrev pub realmroot_cli_client_id : String
realmroot_cli_client_id = "realmroot-cli"

abbrev pub realmroot_organization_claim : String
realmroot_organization_claim = "urn:realmroot:params:oauth:org"

-- What the code calls and does not define: hashing, signing, verification, decoding, fresh
-- identifiers and random tokens. A service that may throw returns an option.
pub record Services : Type 0 where
  pub hash_provider_secret : String → String
  pub sha256 : String → String
  pub issuer : String
  pub sign : Members → (type : String) → String
  pub verify : (token issuer audience : String) → Option Members
  pub decode_part : String → Option Json
  pub decode_signature : String → Option String
  pub verify_signature : (key : Members) → (alg signing_input signature : String) → Option Bool
  pub fetch_keys : String → Option Json
  pub generate : ℕ → String
  pub random_token : ℕ → String

pub record AccessToken : Type 0 where
  pub id : String
  pub token_hash : String
  pub client_id : String
  pub credential_id : String
  pub subject : String
  pub subject_token_issuer : String
  pub audience : String
  pub scopes : List String
  pub claims : Members
  pub expires_at : ℕ
  pub created_at : ℕ
  pub revoked_at : Option ℕ

pub record RefreshToken : Type 0 where
  pub id : String
  pub family_id : String
  pub parent_id : Option String
  pub token_hash : String
  pub client_id : String
  pub credential_id : String
  pub subject : String
  pub subject_token_issuer : String
  pub audience : String
  pub scopes : List String
  pub claims : Members
  pub expires_at : ℕ
  pub consumed_at : Option ℕ
  pub revoked_at : Option ℕ
  pub created_at : ℕ

-- A row of the audit log of the token exchange.
pub record AuditEvent : Type 0 where
  pub action : String
  pub allowed : Bool
  pub realm_owned : Bool
  pub owner_organization_id : Option String
  pub controller_user_id : Option String
  pub subject_issuer : Option String
  pub subject : Option String
  pub agent_identity_id : Option String
  pub resource_id : Option String
  pub scopes : List String
  pub reason_code : Option String
  pub metadata : List (String × Option String)
  pub occurred_at : ℕ

-- The tables that the token exchange writes, how many fresh values have been drawn, and the time in
-- milliseconds, which one request reads once.
pub record State : Type 0 where
  pub access_tokens : List AccessToken
  pub refresh_tokens : List RefreshToken
  pub audit_events : List AuditEvent
  pub drawn : ℕ
  pub clock : ℕ

-- `deps.ids.generate()`, `crypto.randomUUID()`
pub fresh_id : Services → Exec State String
fresh_id services s = (ok (services.generate s.drawn), record s { drawn = s.drawn + 1 })

-- `${refreshTokenPrefix}${base64Url(randomBytes(32))}`
pub fresh_token : Services → Exec State String
fresh_token services s = (
  ok (String.◌++◌ refresh_token_prefix (services.random_token s.drawn)),
  record s { drawn = s.drawn + 1 },
)

pub now : Exec State ℕ
now s = (ok s.clock, s)

pub record ClientCredentials : Type 0 where
  pub client_id : String
  pub client_secret : Option String

pub record TokenExchangeRequest : Type 0 where
  pub grant_type : String
  pub subject_token : String
  pub subject_token_type : String
  pub audience : String
  pub scope : Option String
  pub requested_token_type : Option String

pub record TokenRefreshRequest : Type 0 where
  pub grant_type : String
  pub refresh_token : String
  pub scope : Option String

pub record TokenExchangeResponse : Type 0 where
  pub access_token : String
  pub issued_token_type : String
  pub expires_in : ℕ
  pub scope : String
  pub refresh_token : Option String
