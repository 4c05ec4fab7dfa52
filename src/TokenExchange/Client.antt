-- ===== src/TokenExchange/Client.antt =====
-- server/usecases/oauth-client-authentication.ts, and the grant types of a client as
-- server/usecases/token-exchange.ts reads them.
use realmroot.Prelude.{
  String, not, Option, none, some, List, [], ◌∷◌, ◌==◌, includes, if◌then◌else◌,
}
use realmroot.Errors.{
  Result, ok, Failure, oauth_failure, oauth_error, ◌>>=◌, ◌>>◌, require, or_throw,
}
use realmroot.Json.{Json, Items}
use realmroot.Directory.{
  Directory, OauthClient, Application, find_client, find_by_client_id, find_organization,
}
use realmroot.TokenExchange.{
  Services, TokenRefreshRequest, ClientCredentials, refresh_token_grant_type,
}

abbrev pub invalid_client : String → Failure
invalid_client = oauth_failure 401 "invalid_client"

-- A text that is there and not empty, as JavaScript's truth of `string | null` reads it.
abbrev pub present : Option String → Option String
present none = none
present (some s) = if s == "" then none else some s

abbrev pub AuthenticatedClient : Type 0
AuthenticatedClient = OauthClient × Application

module _ (deps : Directory) (services : Services) where
  unfoldable pub authenticate_application_client :
      String → Option String → Result AuthenticatedClient
  unfolding find_client find_by_client_id find_organization
  authenticate_application_client client_id client_secret = do
    require (not (client_id == "")) (invalid_client "Client authentication is required.")
    secret ← or_throw (present client_secret) (invalid_client "Client authentication is required.")
    client ← or_throw (find_client deps client_id) (invalid_client "Invalid client credentials.")
    require (not client.disabled) (invalid_client "Invalid client credentials.")
    application ←
        or_throw (find_by_client_id deps client_id) (invalid_client "Invalid client credentials.")
    require (not application.disabled) (invalid_client "Invalid client credentials.")
    organization ←
        or_throw (find_organization deps application.owner_organization_id)
          (invalid_client "Invalid client credentials.")
    require (not organization.disabled) (invalid_client "Invalid client credentials.")
    stored ← or_throw (present client.client_secret) (invalid_client "Invalid client credentials.")
    require (stored == services.hash_provider_secret secret)
        (invalid_client "Invalid client credentials.")
    ok (client, application)

abbrev texts : Items → List String
texts Items.nil = []
texts (Items.cons (Json.str s) xs) = s ∷ texts xs
texts (Items.cons _ xs) = texts xs

-- `parseList`, after `JSON.parse`
abbrev pub parse_list : Option Json → List String
parse_list (some (Json.arr xs)) = texts xs
parse_list _ = []

-- `requireApplicationByClientId`
unfoldable pub require_application_by_client_id : Directory → String → Result Application
unfolding find_by_client_id
require_application_by_client_id deps client_id = do
  application ←
      or_throw (find_by_client_id deps client_id)
        (oauth_error "unauthorized_client" "Application is not active.")
  require (not application.disabled)
      (oauth_error "unauthorized_client" "Application is not active.")
  ok application

-- The checks of a request to refresh that come before the token is looked up
unfoldable pub authorize_refresh :
    Directory → Services → TokenRefreshRequest → ClientCredentials → Result AuthenticatedClient
unfolding authenticate_application_client require_application_by_client_id
authorize_refresh deps services input client = do
  require (input.grant_type == refresh_token_grant_type)
      (oauth_error "unsupported_grant_type" "Unsupported grant_type.")
  (oauth_client, _) ←
      authenticate_application_client deps services client.client_id client.client_secret
  application ← require_application_by_client_id deps oauth_client.client_id
  require (includes (parse_list oauth_client.grant_types) refresh_token_grant_type)
      (oauth_error "unauthorized_client" "Client is not allowed to use refresh tokens.")
  ok (oauth_client, application)
