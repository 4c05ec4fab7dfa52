-- ===== src/Directory.antt =====
-- What the handlers read: the rows of the database, and the queries of server/adapters/repos that
-- look them up. A query takes the first row that its conditions select.
use realmroot.Prelude.{
  sort, ℕ, String, Bool, not, ◌&&◌, Option, none, some, List, [], map, ◌==◌, ltb, find, filter,
  holds, is_some,
}
use realmroot.Errors.{Result, or_throw, not_found_error}
use realmroot.Json.{Json}

pub record Organization : Type 0 where
  pub id : String
  pub slug : String
  pub disabled : Bool

pub record Member : Type 0 where
  pub organization_id : String
  pub user_id : String
  pub roles : List String

pub record User : Type 0 where
  pub id : String
  pub banned : Bool
  pub deleted_at : Option ℕ

pub data Visibility : Type 0 where
  private public : Visibility

pub data AuthorizationModel : Type 0 where
  native external : AuthorizationModel

pub data GrantMode : Type 0 where
  automatic assigned : GrantMode

pub record ResourceScope : Type 0 where
  pub value : String
  pub grant_mode : GrantMode

pub record ApiResource : Type 0 where
  pub id : String
  pub identifier : String
  pub resource_url : String
  pub authorization_model : AuthorizationModel
  pub enabled : Bool
  pub owner_organization_id : String
  pub visibility : Visibility
  pub scope_registry : Option (List ResourceScope)
  pub available_to_agents : Bool
  pub deleted_at : Option ℕ

pub record RoleScope : Type 0 where
  pub resource_id : String
  pub scope : String

-- A dynamic role, its permission column decoded.
pub record OrganizationRole : Type 0 where
  pub organization_id : String
  pub role : String
  pub scopes : List RoleScope

pub record ScopeEntitlement : Type 0 where
  pub user_id : Option String
  pub application_id : Option String
  pub resource_server_id : String
  pub organization_id : Option String
  pub scope : String
  pub expires_at : Option ℕ
  pub ended_at : Option ℕ
  pub end_reason : Option String

pub record ScopeMapping : Type 0 where
  pub source_scope : String
  pub target_scope : String

-- `tokenExchangePolicySchema`: the two sides of the union
pub data TokenExchangePolicy : Type 0 where
  resource_policy :
      (source_resource_server_id target_resource_server_id : String)
      → List ScopeMapping
      → TokenExchangePolicy
  identity_policy : (source_resource_server_id target_application_id : String) → TokenExchangePolicy

pub record ResourceScopes : Type 0 where
  pub resource_server_id : String
  pub scopes : List String

pub record Application : Type 0 where
  pub id : String
  pub client_id : String
  pub disabled : Bool
  pub visibility : Visibility
  pub owner_organization_id : String
  pub allowed_grant_types : List String
  pub oidc_scopes : List String
  pub resource_scopes : List ResourceScopes
  pub token_exchange_policies : List TokenExchangePolicy

-- The grant types are a JSON text in the row: here, what it parses to.
pub record OauthClient : Type 0 where
  pub client_id : String
  pub client_secret : Option String
  pub disabled : Bool
  pub grant_types : Option Json

-- A federated credential joined with its application and its resource.
pub record FederatedCredential : Type 0 where
  pub id : String
  pub application_client_id : String
  pub application_disabled : Bool
  pub owner_organization_id : String
  pub issuer : String
  pub subject : String
  pub audience : String
  pub jwks_url : Option String
  pub public_keys : Option (List Json)
  pub resource_enabled : Bool
  pub enabled : Bool

pub record AgentBinding : Type 0 where
  pub id : String
  pub agent_identity_id : String
  pub active : Bool
  pub revoked_at : Option ℕ

pub record AgentIdentity : Type 0 where
  pub id : String
  pub issuer : String
  pub subject : String
  pub owner_user_id : String
  pub active : Bool
  pub deleted_at : Option ℕ

pub record TokenLease : Type 0 where
  pub token_hash : String
  pub request_id : String
  pub binding_id : String
  pub expires_at : ℕ
  pub revoked_at : Option ℕ

pub record AccessRequest : Type 0 where
  pub id : String
  pub resource_id : String
  pub agent_identity_id : String

pub record Team : Type 0 where
  pub organization_id : String
  pub name : String
  pub member_user_ids : List String

pub record Directory : Type 0 where
  pub organizations : List Organization
  pub members : List Member
  pub users : List User
  pub resources : List ApiResource
  pub organization_roles : List OrganizationRole
  pub entitlements : List ScopeEntitlement
  pub applications : List Application
  pub clients : List OauthClient
  pub credentials : List FederatedCredential
  pub identities : List AgentIdentity
  pub bindings : List AgentBinding
  pub leases : List TokenLease
  pub access_requests : List AccessRequest
  pub teams : List Team

-- `endedAt IS NULL AND (expiresAt IS NULL OR expiresAt > now)`
abbrev pub is_active_at : ℕ → ScopeEntitlement → Bool
is_active_at now row = elim row.expires_at [
  | none ↦ not (is_some row.ended_at)
  | some expires_at ↦ not (is_some row.ended_at) && ltb now expires_at
]

module _ (deps : Directory) where
  unfoldable pub find_organization : String → Option Organization
  find_organization id = find (λ row. row.id == id) deps.organizations

  unfoldable pub find_organization_by_slug : String → Option Organization
  find_organization_by_slug slug = find (λ row. row.slug == slug) deps.organizations

  unfoldable pub find_member_by_organization_user : String → String → Option Member
  find_member_by_organization_user organization_id user_id =
      find (λ row. row.organization_id == organization_id && row.user_id == user_id) deps.members

  unfoldable pub list_user_memberships : String → List Member
  list_user_memberships user_id = filter (λ row. row.user_id == user_id) deps.members

  unfoldable pub list_team_names_for_user : String → String → List String
  list_team_names_for_user organization_id user_id = sort (
      map (λ team. team.name)
        (filter
          (λ team.
            team.organization_id == organization_id
            && is_some (find (λ id. id == user_id) team.member_user_ids))
          deps.teams))

  unfoldable pub find_resource : String → Option ApiResource
  find_resource id = find (λ row. row.id == id && not (is_some row.deleted_at)) deps.resources

  unfoldable pub find_resource_by_identifier : String → Option ApiResource
  find_resource_by_identifier identifier =
      find (λ row. row.identifier == identifier && not (is_some row.deleted_at)) deps.resources

  unfoldable pub find_resource_by_resource_url : String → Option ApiResource
  find_resource_by_resource_url resource_url =
      find (λ row. row.resource_url == resource_url && row.enabled && not (is_some row.deleted_at))
        deps.resources

  -- `(await listOrganizationRoleScopes(organizationId)).get(role) ?? []`
  unfoldable pub organization_role_scopes : String → String → List RoleScope
  organization_role_scopes organization_id role =
      elim (find (λ row. row.organization_id == organization_id && row.role == role)
        deps.organization_roles) [ none ↦ [] | some row ↦ row.scopes ]

  unfoldable pub find_by_client_id : String → Option Application
  find_by_client_id client_id = find (λ row. row.client_id == client_id) deps.applications

  unfoldable pub find_client : String → Option OauthClient
  find_client client_id = find (λ row. row.client_id == client_id) deps.clients

  abbrev pub is_live_credential : String → FederatedCredential → Bool
  is_live_credential client_id row =
      row.application_client_id == client_id
      && not row.application_disabled
      && row.resource_enabled
      && row.enabled

  unfoldable pub find_federated_credentials : String → String → List FederatedCredential
  find_federated_credentials client_id issuer =
      filter (λ row. row.issuer == issuer && is_live_credential client_id row) deps.credentials

  unfoldable pub find_federated_credential_for_client : String → String → Option FederatedCredential
  find_federated_credential_for_client id client_id =
      find (λ row. row.id == id && is_live_credential client_id row) deps.credentials

  -- `getUser` throws where there is no row.
  unfoldable pub get_user : String → Result User
  get_user id =
      or_throw (find (λ row. row.id == id && not (is_some row.deleted_at)) deps.users)
        (not_found_error "User not found.")

  unfoldable pub find_by_issuer_subject : String → String → Option AgentIdentity
  find_by_issuer_subject issuer subject =
      find (λ row. row.issuer == issuer && row.subject == subject && not (is_some row.deleted_at))
        deps.identities

  unfoldable pub find_identity : String → Option AgentIdentity
  find_identity id = find (λ row. row.id == id && not (is_some row.deleted_at)) deps.identities

  unfoldable pub identity_bindings : String → List AgentBinding
  identity_bindings id = filter (λ row. row.agent_identity_id == id) deps.bindings

  unfoldable pub find_active_token_lease_by_token_hash : String → ℕ → Option TokenLease
  find_active_token_lease_by_token_hash token_hash now =
      find
        (λ row.
          row.token_hash == token_hash && ltb now row.expires_at && not (is_some row.revoked_at))
        deps.leases

  unfoldable pub find_access_request : String → Option AccessRequest
  find_access_request id = find (λ row. row.id == id) deps.access_requests

  unfoldable pub list_active_user_scope_entitlements : String → String → ℕ → List ScopeEntitlement
  list_active_user_scope_entitlements user_id resource_server_id now =
      filter
        (λ row.
          holds row.user_id user_id
          && row.resource_server_id == resource_server_id
          && is_active_at now row)
        deps.entitlements

  unfoldable pub list_active_application_scope_entitlements :
      String → String → ℕ → List ScopeEntitlement
  list_active_application_scope_entitlements application_id resource_server_id now =
      filter
        (λ row.
          holds row.application_id application_id
          && row.resource_server_id == resource_server_id
          && is_active_at now row)
        deps.entitlements
