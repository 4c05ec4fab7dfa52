-- ===== src/TokenExchange/Introspect/Laws.antt =====
-- Which tokens introspection calls active, and what it says of them.
use realmroot.Prelude.{
  false_of_not, String, false, not, Option, none, some, ◌≡◌, refl, Bool-cases, inl, inr, ◌∙◌, ap,
  eq_iff, ◌==◌, subst,
}
use realmroot.Errors.{ok}
use realmroot.Errors.Laws.{>>=-eq-ok, ok-injective, require-eq-ok, or_throw-eq-ok}
use realmroot.Json.{Members}
use realmroot.Directory.{
  Directory, Application, OauthClient, find_client, find_by_client_id, find_organization,
}
use realmroot.TokenExchange.{Services, State, AccessToken, ClientCredentials}
use realmroot.TokenExchange.Store.{find_access_token_by_hash}
use realmroot.TokenExchange.Client.{authenticate_application_client, present}
use realmroot.TokenExchange.Introspect.{active, introspect_token}
use realmroot.TokenExchange.Introspect.Answers.{Introspected, found_told}

present-some : (o : Option String) (t : String) → present o ≡ some t → o ≡ some t
present-some none t h = cc
present-some (some s) t h = elim (Bool-cases (s == "")) [
  | inl e ↦ absurd (refused (rw e at h))
  | inr e ↦ rw e at h
]
  where
    refused : ¬ (none ≡ some t)
    refused g = cc

-- The client showed the secret of a client row that is not disabled.
abbrev pub HasShownSecret : Services → ClientCredentials → OauthClient → Type 0
HasShownSecret services client row =
    (secret : String) × (client.client_secret ≡ some secret)
    × (row.client_secret ≡ some (services.hash_provider_secret secret))
    × (row.disabled ≡ false)

shown :
    (deps : Directory) (services : Services) (client : ClientCredentials) (row : OauthClient)
    (application : Application)
    → authenticate_application_client deps services client.client_id client.client_secret
      ≡ ok (row, application)
    → HasShownSecret services client row × (find_client deps client.client_id ≡ some row)
unfolding authenticate_application_client
shown deps services client row application h0 =
    let (t1, h1) = require-eq-ok (not (client.client_id == "")) _ _ h0 in
    let (secret, e2, h2) = or_throw-eq-ok (present client.client_secret) _ _ h1 in
    let (found, e3, h3) = or_throw-eq-ok (find_client deps client.client_id) _ _ h2 in
    let (t4, h4) = require-eq-ok (not found.disabled) _ _ h3 in
    let (owner, e5, h5) = or_throw-eq-ok (find_by_client_id deps client.client_id) _ _ h4 in
    let (t6, h6) = require-eq-ok (not owner.disabled) _ _ h5 in
    let (home, e7, h7) =
      or_throw-eq-ok (find_organization deps owner.owner_organization_id) _ _ h6 in
    let (t8, h8) = require-eq-ok (not home.disabled) _ _ h7 in
    let (stored, e9, h9) = or_throw-eq-ok (present found.client_secret) _ _ h8 in
    let (t10, h10) = require-eq-ok (stored == services.hash_provider_secret secret) _ _ h9 in
    let hash = services.hash_provider_secret secret in
    let same : found ≡ row = ap (λ x. x.0) (ok-injective h10) in
    subst (λ z. HasShownSecret services client z × (find_client deps client.client_id ≡ some z))
      same
      (
        (
          secret,
          present-some client.client_secret secret e2,
          present-some found.client_secret stored e9 ∙ ap some ((eq_iff stored hash).0 t10),
          false_of_not found.disabled t4,
        ),
        e3,
      )

-- A token is called active only to a client that showed the secret of its row, which is not disabled,
-- and is the client of a stored token row with the token's hash, while that row is not revoked and its
-- expiry lies ahead. The answer then has the issuer, and the subject, audience, client, scopes and
-- expiry of that row, and no actor; and the token is opaque, or the answer is of a payload that was
-- verified for the row's audience.
pub introspect_active :
    (deps : Directory) (services : Services) (token : String) (client : ClientCredentials)
    (issuer : String) (s : State) (m : Members)
    → introspect_token deps services token client issuer s ≡ ok (active m)
    → ((who : OauthClient) × HasShownSecret services client who
        × (find_client deps client.client_id ≡ some who))
      × ((row : AccessToken) × Introspected services token issuer client.client_id s row m)
unfolding introspect_token
introspect_active deps services token client issuer s m h =
    let ((who, application), authenticated, e) =
      >>=-eq-ok
        (authenticate_application_client deps services client.client_id client.client_secret) _ h in
    let (secret, stored) = shown deps services client who application authenticated in
    (
      (who, secret, stored),
      found_told deps services token client issuer s
          (find_access_token_by_hash s (services.hash_provider_secret token)) m refl
          (ok-injective e),
    )
