-- ===== src/TokenExchange/Delegated.antt =====
-- server/usecases/token-exchange.ts: `exchangeDelegatedUserToken`, a user's access token of one
-- resource exchanged for one of another, by an application or by an agent that acts for the user.
pub mod Grant
pub mod Checks
pub mod Run
pub mod Laws
use realmroot.Prelude.{
  ℕ, String, Bool, true, false, not, ◌&&◌, ◌||◌, Option, none, some, List, [], ◌∷◌, ◌+◌, ◌-◌, ◌*◌,
  ◌/◌, ◌==◌, find, filter, any, all, includes, join, is_some, leb, ltb, nat_eq, holds, map, min,
  if◌then◌else◌,
}
use realmroot.Errors.{
  Result, ok, err, Failure, oauth_error, require, or_throw, ◌>>=◌, ◌>>◌, api_error, oauth_failure,
  thrown,
}
use realmroot.Json.{
  Json, Members, get, is_record, read_string, read_number, read_single_audience,
  parse_space_separated_claim,
}
use realmroot.Directory.{
  Directory, Application, ApiResource, AuthorizationModel, TokenExchangePolicy, ScopeMapping, User,
  AgentBinding, AgentIdentity, get_user, find_resource_by_resource_url, find_by_issuer_subject,
  find_by_client_id, find_organization, find_member_by_organization_user, find_identity,
  identity_bindings, find_active_token_lease_by_token_hash, find_access_request, TokenLease,
}
use realmroot.Membership.{active_resource_visible_to_organization}
use realmroot.Entitlements.{Tenant, declared_scopes, user_effective_resource_scopes}
use realmroot.TokenExchange.{
  Services, TokenExchangeRequest, realmroot_organization_claim, realmroot_cli_client_id,
  delegated_user_expires_in_seconds,
}
use realmroot.TokenExchange.Grants.{resolve_application_token_scopes_for_resource}

-- The `catch` of `requireActiveDelegatedUser`
abbrev pub user_of : Result User → Result User
user_of (ok user) = ok user
user_of (err (oauth_failure status error description)) =
    err (oauth_failure status error description)
user_of (err (thrown message)) = err (thrown message)
user_of (err (api_error status code message)) =
    if nat_eq status 404
    then err (oauth_error "invalid_grant" "Subject access token does not represent a User.")
    else err (api_error status code message)

unfoldable pub require_active_delegated_user : Directory → String → Result (Unit {0})
unfolding get_user
require_active_delegated_user deps subject = do
  user ← user_of (get_user deps subject)
  require (not user.banned)
      (oauth_error "invalid_grant" "Subject access token does not represent an active User.")

-- The policies between two resources: their mappings, if the policy is of that kind.
abbrev pub mappings_between : String → String → TokenExchangePolicy → Option (List ScopeMapping)
mappings_between source_id target_id (TokenExchangePolicy.resource_policy source target mappings) =
    if source == source_id && target == target_id then some mappings else none
mappings_between source_id target_id (TokenExchangePolicy.identity_policy source target) = none

abbrev pub find_mappings : String → String → List TokenExchangePolicy → Option (List ScopeMapping)
find_mappings source_id target_id [] = none
find_mappings source_id target_id (p ∷ ps) = elim (mappings_between source_id target_id p) [
  | some mappings ↦ some mappings
  | none ↦ find_mappings source_id target_id ps
]

-- `mappedTargetScopes`
unfoldable pub mapped_target_scopes :
    List ScopeMapping → (subject_scopes declared_source_scopes : List String) → List String
mapped_target_scopes mappings subject_scopes declared_source_scopes =
    map (λ m. m.target_scope)
      (filter
        (λ m.
          includes subject_scopes m.source_scope && includes declared_source_scopes m.source_scope)
        mappings)

-- `policyStillAuthorizesToken`, for one policy of the source application
abbrev authorizes_token : String → List String → TokenExchangePolicy → Bool
authorizes_token source_id token_scopes
      (TokenExchangePolicy.resource_policy source target mappings) =
    target == source_id && all (includes (map (λ m. m.target_scope) mappings)) token_scopes
authorizes_token source_id token_scopes (TokenExchangePolicy.identity_policy source target) = false

pub record Actor : Type 0 where
  pub issuer : String
  pub subject : String

module _ (deps : Directory) (services : Services) (clock : ℕ) where
  -- A token that the agent got itself: its lease is active, and its request is of this agent and
  -- this resource. The binding of the lease is the one that has to be active.
  unfoldable pub native_agent_binding :
      TokenExchangeRequest → ApiResource → Option AgentIdentity → Result (Option String)
  unfolding find_active_token_lease_by_token_hash find_access_request
  native_agent_binding input source_resource identity = do
    lease ←
        or_throw
          (find_active_token_lease_by_token_hash deps (services.sha256 input.subject_token) clock)
          (oauth_error "invalid_grant" "Agent subject token is inactive or revoked.")
    source_request ←
        or_throw (find_access_request deps lease.request_id)
          (oauth_error "invalid_grant" "Agent subject token authority does not match its claims.")
    found ←
        or_throw identity
          (oauth_error "invalid_grant" "Agent subject token authority does not match its claims.")
    require
        (source_request.resource_id == source_resource.id
          && source_request.agent_identity_id == found.id)
        (oauth_error "invalid_grant" "Agent subject token authority does not match its claims.")
    ok (some lease.binding_id)

  -- A token that an application got by exchange: its policy still gives the token's scopes.
  unfoldable pub check_source_application :
      String → Members → ApiResource → String → Result (Option String)
  unfolding find_by_client_id
  check_source_application source_client_id claims source_resource owner_organization_id = do
    source ←
        or_throw (find_by_client_id deps source_client_id) (
          oauth_error "invalid_grant"
            "Delegated Agent subject token authority is no longer active.")
    require
        (not source.disabled
          && source.owner_organization_id == owner_organization_id
          && any
              (authorizes_token source_resource.id
                (parse_space_separated_claim (get claims "scope")))
              source.token_exchange_policies)
        (oauth_error "invalid_grant" "Delegated Agent subject token authority is no longer active.")
    ok none

  -- `requiredBindingId === null || binding.id === requiredBindingId`
  abbrev pub binding_counts : Option String → AgentBinding → Bool
  binding_counts none b = b.active && not (is_some b.revoked_at)
  binding_counts (some id) b = b.id == id && b.active && not (is_some b.revoked_at)

  unfoldable pub require_active_identity :
      Option AgentIdentity → Option String → String → Result (Unit {0})
  unfolding find_identity identity_bindings
  require_active_identity identity required_binding_id controller_user_id = do
    found ← or_throw identity (oauth_error "invalid_grant" "Agent identity or binding is inactive.")
    aggregate ←
        or_throw (find_identity deps found.id)
          (oauth_error "invalid_grant" "Agent identity or binding is inactive.")
    require
        (aggregate.active
          && not (is_some aggregate.deleted_at)
          && aggregate.owner_user_id == controller_user_id
          && any (binding_counts required_binding_id) (identity_bindings deps aggregate.id))
        (oauth_error "invalid_grant" "Agent identity or binding is inactive.")

  unfoldable pub require_active_membership : String → String → Result (Unit {0})
  unfolding find_organization find_member_by_organization_user
  require_active_membership organization_id user_id = do
    organization ←
        or_throw (find_organization deps organization_id)
          (oauth_error "invalid_grant" "Controller Organization membership is inactive.")
    require
        (not organization.disabled
          && is_some (find_member_by_organization_user deps organization_id user_id))
        (oauth_error "invalid_grant" "Controller Organization membership is inactive.")

  unfoldable pub require_active_delegated_agent :
      TokenExchangeRequest
      → Members
      → ApiResource
      → String
      → String
      → Option String
      → Members
      → Result Actor
  unfolding native_agent_binding check_source_application require_active_identity
      require_active_membership find_by_issuer_subject
  require_active_delegated_agent input claims source_resource owner_organization_id
        controller_user_id organization_id actor =
      do
        actor_issuer ←
            or_throw (read_string (get actor "iss"))
              (oauth_error "invalid_grant" "Agent subject token is missing required claims.")
        actor_subject ←
            or_throw (read_string (get actor "sub"))
              (oauth_error "invalid_grant" "Agent subject token is missing required claims.")
        source_token_id ←
            or_throw (read_string (get claims "jti"))
              (oauth_error "invalid_grant" "Agent subject token is missing required claims.")
        source_client_id ←
            or_throw (read_string (get claims "client_id"))
              (oauth_error "invalid_grant" "Agent subject token is missing required claims.")
        required_binding_id ←
            if source_client_id == realmroot_cli_client_id
            then native_agent_binding input source_resource
                (find_by_issuer_subject deps actor_issuer actor_subject)
            else check_source_application source_client_id claims source_resource
                owner_organization_id
        require_active_identity (find_by_issuer_subject deps actor_issuer actor_subject)
            required_binding_id controller_user_id
        elim organization_id [
          | none ↦ ok tt
          | some id ↦ require_active_membership id controller_user_id
        ]
        ok (record { issuer = actor_issuer; subject = actor_subject })
