-- ===== src/TokenExchange/Grants.antt =====
-- server/usecases/token-exchange.ts: which scopes and which audience an application's token may
-- have, and which federated credential speaks for a subject.
pub mod Laws
use Prim.Native.Char.{code}
use Prim.Native.String
use text.Mathlib.Text.{starts_with}
use realmroot.Prelude.{
  ℕ, String, Bool, true, false, not, ◌&&◌, ◌||◌, Option, none, some, List, [], ◌∷◌, ◌++◌, ◌==◌,
  find, filter, includes, dedupe, words, get_or, nat_eq, if◌then◌else◌,
}
use realmroot.Errors.{Result, ok, err, oauth_error, ◌>>=◌, ◌>>◌, require, or_throw}
use realmroot.Directory.{
  Directory, Application, ApiResource, FederatedCredential, ResourceScopes,
  find_resource_by_resource_url, find_federated_credentials,
}
use realmroot.Membership.{active_resource_visible_to_organization}
use realmroot.Entitlements.{application_effective_resource_scopes}

-- The loop of `normalizeScopes`: the first scope that is not allowed is named in the error.
abbrev pub check_allowed : List String → List String → Result (Unit {0})
check_allowed [] allowed = ok tt
check_allowed (s ∷ ss) allowed = do
  require (includes allowed s)
      (oauth_error "invalid_scope" (String.◌++◌ "Scope is not allowed: " s))
  check_allowed ss allowed

unfoldable pub normalize_scopes : Option String → List String → Result (List String)
normalize_scopes scope allowed =
    let scopes = dedupe (words (get_or scope "")) in check_allowed scopes allowed >> ok scopes

-- `configuredScopes`
unfoldable pub configured_scopes : Application → ApiResource → List String
configured_scopes application resource =
    elim (find (λ c. c.resource_server_id == resource.id) application.resource_scopes) [
      | none ↦ []
      | some configuration ↦ configuration.scopes
    ]

module _ (deps : Directory) where
  unfoldable pub resolve_application_token_scopes_for_resource :
      Application → ApiResource → ℕ → Option String → Result (List String)
  unfolding normalize_scopes configured_scopes
  resolve_application_token_scopes_for_resource application resource now requested_scope = do
    requested ←
        normalize_scopes requested_scope
          (application.oidc_scopes ++ configured_scopes application resource)
    ok (
        filter
          (λ scope.
            includes application.oidc_scopes scope
            || includes (application_effective_resource_scopes deps application resource now) scope)
          requested)

  unfoldable pub resolve_application_token_scopes :
      Application → String → ℕ → Option String → Result (List String)
  unfolding resolve_application_token_scopes_for_resource
  resolve_application_token_scopes application audience now requested_scope = do
    resource ← or_throw (find_resource_by_resource_url deps audience) (
        oauth_error "invalid_target" "Requested audience is not visible to the Application tenant.")
    require (active_resource_visible_to_organization resource application.owner_organization_id) (
        oauth_error "invalid_target" "Requested audience is not visible to the Application tenant.")
    resolve_application_token_scopes_for_resource application resource now requested_scope

  unfoldable pub is_eligible_audience : String → String → Bool
  is_eligible_audience audience organization_id =
      elim (find_resource_by_resource_url deps audience) [
        | none ↦ false
        | some resource ↦ active_resource_visible_to_organization resource organization_id
      ]

  unfoldable pub require_eligible_audience : String → String → Result (Unit {0})
  unfolding is_eligible_audience
  require_eligible_audience audience organization_id =
      require (is_eligible_audience audience organization_id) (
        oauth_error "invalid_target"
          "Requested audience is not eligible for the Application tenant.")

-- `pattern.endsWith('*')`, and then `pattern.slice(0, -1)`
abbrev pub before_star : String → Option String
before_star String.[] = none
before_star (String.◌∷◌ c s) =
    let rest = before_star s in
    if s == ""
    then (if nat_eq (code c) 0x2a then some "" else none)
    else elim rest [ none ↦ none | some prefix ↦ some (String.◌∷◌ c prefix) ]

unfoldable pub subject_matches : String → String → Bool
subject_matches pattern subject = elim (before_star pattern) [
  | none ↦ pattern == subject
  | some prefix ↦ starts_with subject prefix
]

unfoldable pub resolve_credential :
    Directory → String → String → String → Result FederatedCredential
unfolding subject_matches
resolve_credential deps application_client_id issuer subject =
    or_throw
      (find (λ item. item.enabled && subject_matches item.subject subject)
        (find_federated_credentials deps application_client_id issuer))
      (oauth_error "invalid_grant" "No federated credential matches the subject token.")
