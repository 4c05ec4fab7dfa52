-- ===== src/TokenExchange/Refresh/Single.antt =====
-- A refresh token works once.
use realmroot.Prelude.{
  String, Bool, true, false, some, List, ◌≡◌, filter, is_some, arith, eq_refl, ap, ◌∙◌, sym, subst,
  get_or, join, all, ◌||◌, includes,
}
use realmroot.Errors.{ok, err, oauth_error}
use realmroot.Errors.Laws.{ok-injective}
use realmroot.Directory.{
  Directory, Application, OauthClient, ApiResource, find_resource_by_resource_url,
}
use realmroot.Entitlements.{application_effective_resource_scopes}
use realmroot.TokenExchange.Grants.Laws.{token_scopes-eq-ok}
use realmroot.TokenExchange.{
  Services, State, RefreshToken, TokenRefreshRequest, ClientCredentials, TokenExchangeResponse,
}
use realmroot.TokenExchange.Store.{
  find_refresh_token_by_hash, rotate_refresh_token, is_active_parent, consume_parent, copies,
}
use realmroot.TokenExchange.Store.Rotation.{is_dead}
use realmroot.TokenExchange.Client.{authorize_refresh}
use realmroot.TokenExchange.Refresh.{
  presented_token, refresh_row, refresh_token, answer, revoke_and_throw,
}
use realmroot.TokenExchange.Refresh.Reuse.{
  presented_token-eq-ok, presented_token-of_found, reuse_revokes_family,
}
use realmroot.TokenExchange.Refresh.Passed.{RowPassed, refresh_row-eq-ok, refresh_token-of_row}
use realmroot.TokenExchange.Refresh.Once.{
  child, access_row, drawn_state, response, rotate-answer, find-consumed,
}

answer-eq-ok :
    (row : RefreshToken) (stored : Bool) (given r : TokenExchangeResponse) (s s' : State)
    → answer row stored given s ≡ (ok r, s')
    → (r ≡ given) × (s' ≡ s)
unfolding revoke_and_throw
answer-eq-ok row true given r s s' h = (ok-injective (ap (λ x. x.0) (sym h)), ap (λ x. x.1) (sym h))
answer-eq-ok row false given r s s' h =
    let bad : err (oauth_error "invalid_grant" "Refresh token reuse was detected.") ≡ ok r =
      ap (λ x. x.0) h in
    cc

module _ (deps : Directory) (services : Services) (input : TokenRefreshRequest)
    (client : ClientCredentials) (s s' : State) (r : TokenExchangeResponse)
    (oauth_client : OauthClient) (application : Application) (row : RefreshToken)
    (a : authorize_refresh deps services input client ≡ ok (oauth_client, application))
    (p : presented_token services input.refresh_token oauth_client.client_id s ≡ ok row)
    (h : refresh_token deps services input client s ≡ (ok r, s')) where
  of_row : refresh_row deps services input oauth_client.client_id application row s ≡ (ok r, s')
  of_row =
      sym (refresh_token-of_row deps services input client s oauth_client application row a p) ∙ h

  pub row_passed : RowPassed deps services input oauth_client.client_id application row s
  row_passed =
      refresh_row-eq-ok deps services input oauth_client.client_id application row s r
        (ap (λ x. x.0) of_row)

  abbrev made_child : RefreshToken
  made_child = child services oauth_client.client_id row row_passed.scopes s

  abbrev table : State
  table =
      (rotate_refresh_token made_child
        (access_row services oauth_client.client_id row row_passed.scopes s)
        (drawn_state services oauth_client.client_id row row_passed.scopes s)).1

  -- The response and the state of a successful refresh
  pub outcome :
      (r ≡ response services oauth_client.client_id row row_passed.scopes s) × (s' ≡ table)
  outcome =
      answer-eq-ok row
        (rotate_refresh_token made_child
          (access_row services oauth_client.client_id row row_passed.scopes s)
          (drawn_state services oauth_client.client_id row row_passed.scopes s)).0
        (response services oauth_client.client_id row row_passed.scopes s) r table s'
        (sym (rotate-answer services oauth_client.client_id row row_passed.scopes s deps)
          ∙ sym row_passed.rotated
          ∙ of_row)

  used : RefreshToken
  used = consume_parent (some row.id) s.clock row

  used-consumed : is_some used.consumed_at ≡ true
  unfolding used
  used-consumed = ground (arith, eq_refl row.id, row_passed.usable)

  used-client : used.client_id ≡ row.client_id
  unfolding used
  used-client = ground arith

  used-family : used.family_id ≡ row.family_id
  unfolding used
  used-family = ground arith

  found_again :
      find_refresh_token_by_hash table (services.hash_provider_secret input.refresh_token)
      ≡ some used
  unfolding used find_refresh_token_by_hash rotate_refresh_token
  found_again =
      find-consumed (services.hash_provider_secret input.refresh_token) (some row.id) s.clock
        s.refresh_tokens
        (copies made_child (filter (is_active_parent (some row.id)) s.refresh_tokens)) row
        (presented_token-eq-ok services input.refresh_token oauth_client.client_id s row p).0

  presented_again :
      presented_token services input.refresh_token oauth_client.client_id table ≡ ok used
  presented_again =
      presented_token-of_found services input.refresh_token oauth_client.client_id table used
        found_again
        (used-client
          ∙ (presented_token-eq-ok services input.refresh_token oauth_client.client_id s row p).1)

  -- After a refresh that succeeds, the same token is refused as reused, and then all tokens of the
  -- family are revoked, the new one included.
  pub refresh_token_once :
      ((refresh_token deps services input client s').0
        ≡ err (oauth_error "invalid_grant" "Refresh token reuse was detected."))
      × (is_dead row.family_id (refresh_token deps services input client s').1.refresh_tokens
          ≡ true)
  refresh_token_once =
      subst
        (λ t.
          ((refresh_token deps services input client t).0
            ≡ err (oauth_error "invalid_grant" "Refresh token reuse was detected."))
          × (is_dead row.family_id (refresh_token deps services input client t).1.refresh_tokens
              ≡ true))
        (sym outcome.1)
        (subst
          (λ f.
            ((refresh_token deps services input client table).0
              ≡ err (oauth_error "invalid_grant" "Refresh token reuse was detected."))
            × (is_dead f (refresh_token deps services input client table).1.refresh_tokens ≡ true))
          used-family
          (reuse_revokes_family deps services input client table oauth_client application used a
            presented_again used-consumed))

  -- The scopes of a successful refresh are ones that the application holds at that time: OIDC scopes
  -- of its own, or effective scopes of the resource, which is still there.
  pub refreshed_scopes :
      (scopes : List String) × (resource : ApiResource) × (find_resource_by_resource_url deps
          row.audience
        ≡ some resource)
      × (r.scope ≡ join scopes)
      × (all
            (λ v.
              includes application.oidc_scopes v
              || includes
                  (application_effective_resource_scopes deps application resource s.clock)
                  v)
            scopes
          ≡ true)
  refreshed_scopes =
      let (resource, found, held) =
        token_scopes-eq-ok deps application row.audience s.clock
          (some (get_or input.scope (join row.scopes))) row_passed.scopes row_passed.resolved in
      (row_passed.scopes, resource, found, ap (λ x. x.scope) outcome.0, held)
