-- ===== src/TokenExchange/Refresh/Passed.antt =====
-- What a refresh that succeeds has checked.
use realmroot.Prelude.{
  ℕ, String, Bool, true, false, not, ◌&&◌, Option, none, some, List, ◌≡◌, refl, is_some, arith, ap,
  ◌∙◌, sym, subst, inl, inr, Option-cases, leb, get_or, join,
}
use realmroot.Errors.{ok}
use realmroot.Errors.Exec.Laws.{>>=-eq-ok}
use realmroot.Errors.Exec.{Exec, lift, reads, ◌>>=◌}
use realmroot.Directory.{
  Directory, Application, OauthClient, FederatedCredential, find_federated_credential_for_client,
}
use realmroot.TokenExchange.{
  Services, State, RefreshToken, TokenRefreshRequest, ClientCredentials, TokenExchangeResponse,
}
use realmroot.TokenExchange.Client.{authorize_refresh}
use realmroot.TokenExchange.Grants.{resolve_application_token_scopes}
use realmroot.TokenExchange.Refresh.{
  presented_token, check_lifetime, check_credential, revoke_and_throw, refresh_row, refresh_token,
  rotate, is_still_eligible,
}

-- The row is neither consumed nor revoked nor expired.
abbrev pub is_usable : RefreshToken → ℕ → Bool
is_usable row now =
    not (is_some row.consumed_at) && not (is_some row.revoked_at) && not (leb row.expires_at now)

pub check_lifetime-of_usable :
    (row : RefreshToken) (s : State)
    → is_usable row s.clock ≡ true
    → check_lifetime row s ≡ (ok tt, s)
unfolding check_lifetime
check_lifetime-of_usable row s h = ground arith

pub usable-of_check_lifetime :
    (row : RefreshToken) (s : State)
    → (check_lifetime row s).0 ≡ ok tt
    → is_usable row s.clock ≡ true
unfolding check_lifetime revoke_and_throw
usable-of_check_lifetime row s h = ground arith

-- The credential of the row is there, enabled, and of the row's tenant and audience.
abbrev is_backed_by : Directory → RefreshToken → Option FederatedCredential → Bool
is_backed_by deps row none = false
is_backed_by deps row (some credential) =
    credential.enabled && is_still_eligible deps row credential

unfoldable pub is_backed : Directory → String → RefreshToken → Bool
is_backed deps client_id row =
    is_backed_by deps row (find_federated_credential_for_client deps row.credential_id client_id)

pub check_credential-of_backed :
    (deps : Directory) (client_id : String) (row : RefreshToken) (s : State)
    → is_backed deps client_id row ≡ true
    → check_credential deps client_id row s ≡ (ok tt, s)
unfolding check_credential is_backed
check_credential-of_backed deps client_id row s h =
    elim (Option-cases (find_federated_credential_for_client deps row.credential_id client_id)) [
      | inl e ↦ ground (arith, e)
      | inr (credential, e) ↦ ground (arith, e)
    ]

pub backed-of_check_credential :
    (deps : Directory) (client_id : String) (row : RefreshToken) (s : State)
    → (check_credential deps client_id row s).0 ≡ ok tt
    → is_backed deps client_id row ≡ true
unfolding check_credential is_backed revoke_and_throw
backed-of_check_credential deps client_id row s h =
    elim (Option-cases (find_federated_credential_for_client deps row.credential_id client_id)) [
      | inl e ↦ ground (arith, e)
      | inr (credential, e) ↦ ground (arith, e)
    ]

-- What a successful refresh of a row went through.
pub record RowPassed (deps : Directory) (services : Services) (input : TokenRefreshRequest)
    (client_id : String) (application : Application) (row : RefreshToken) (s : State) : Type 0 where
  pub usable : is_usable row s.clock ≡ true
  pub backed : is_backed deps client_id row ≡ true
  pub scopes : List String
  pub resolved :
      resolve_application_token_scopes deps application row.audience s.clock
        (some (get_or input.scope (join row.scopes)))
      ≡ ok scopes
  pub rotated :
      refresh_row deps services input client_id application row s
      ≡ rotate deps services client_id row scopes s

-- `refresh_row` after its first check, and after its second.
module _ (deps : Directory) (services : Services) (input : TokenRefreshRequest) (client_id : String)
    (application : Application) (row : RefreshToken) where
  abbrev resolve : Exec State (List String)
  resolve = reads (λ s.
      resolve_application_token_scopes deps application row.audience s.clock
        (some (get_or input.scope (join row.scopes))))

  abbrev after_credential : Exec State TokenExchangeResponse
  after_credential = resolve >>= rotate deps services client_id row

  abbrev after_lifetime : Exec State TokenExchangeResponse
  after_lifetime = check_credential deps client_id row >>= λ _. after_credential

  pub refresh_row-of_checks :
      (s : State) (scopes : List String)
      → is_usable row s.clock ≡ true
      → is_backed deps client_id row ≡ true
      → resolve_application_token_scopes deps application row.audience s.clock
          (some (get_or input.scope (join row.scopes)))
        ≡ ok scopes
      → refresh_row deps services input client_id application row s
        ≡ rotate deps services client_id row scopes s
  unfolding refresh_row
  refresh_row-of_checks s scopes usable backed resolved =
      rw
        (
          check_lifetime-of_usable row s usable,
          check_credential-of_backed deps client_id row s backed,
          resolved,
        )
        refl

  pub refresh_row-eq-ok :
      (s : State) (r : TokenExchangeResponse)
      → (refresh_row deps services input client_id application row s).0 ≡ ok r
      → RowPassed deps services input client_id application row s
  unfolding refresh_row
  refresh_row-eq-ok s r h =
      let (u, a, e) = >>=-eq-ok (check_lifetime row) (λ _. after_lifetime) s h in
      let usable = usable-of_check_lifetime row s a in
      let h' : (after_lifetime s).0 ≡ ok r =
        subst (λ x. (after_lifetime x.1).0 ≡ ok r) (check_lifetime-of_usable row s usable)
          (ap (λ x. x.0) (sym e) ∙ h) in
      let (u', b, e') =
        >>=-eq-ok (check_credential deps client_id row) (λ _. after_credential) s h' in
      let backed = backed-of_check_credential deps client_id row s b in
      let h'' : (after_credential s).0 ≡ ok r =
        subst (λ x. (after_credential x.1).0 ≡ ok r)
          (check_credential-of_backed deps client_id row s backed) (ap (λ x. x.0) (sym e') ∙ h') in
      let (scopes, c, e'') = >>=-eq-ok resolve (rotate deps services client_id row) s h'' in
      record {
        usable = usable;
        backed = backed;
        scopes = scopes;
        resolved = c;
        rotated = refresh_row-of_checks s scopes usable backed c;
      }

-- What a successful refresh went through.
pub record Passed (deps : Directory) (services : Services) (input : TokenRefreshRequest)
    (client : ClientCredentials) (s : State) : Type 0 where
  pub oauth_client : OauthClient
  pub application : Application
  pub row : RefreshToken
  pub authorized : authorize_refresh deps services input client ≡ ok (oauth_client, application)
  pub presented : presented_token services input.refresh_token oauth_client.client_id s ≡ ok row
  pub passed : RowPassed deps services input oauth_client.client_id application row s
  pub same :
      refresh_token deps services input client s
      ≡ refresh_row deps services input oauth_client.client_id application row s

module _ (deps : Directory) (services : Services) (input : TokenRefreshRequest)
    (client : ClientCredentials) (s : State) where
  abbrev after_client : OauthClient × Application → Exec State TokenExchangeResponse
  after_client authenticated =
      reads (presented_token services input.refresh_token authenticated.0.client_id)
      >>= refresh_row deps services input authenticated.0.client_id authenticated.1

  pub refresh_token-of_row :
      (oauth_client : OauthClient) (application : Application) (row : RefreshToken)
      → authorize_refresh deps services input client ≡ ok (oauth_client, application)
      → presented_token services input.refresh_token oauth_client.client_id s ≡ ok row
      → refresh_token deps services input client s
        ≡ refresh_row deps services input oauth_client.client_id application row s
  unfolding refresh_token
  refresh_token-of_row oauth_client application row a p = rw (a, p) refl

  pub refresh_token-eq-ok :
      (r : TokenExchangeResponse)
      → (refresh_token deps services input client s).0 ≡ ok r
      → Passed deps services input client s
  unfolding refresh_token
  refresh_token-eq-ok r h =
      let (c, a, e) =
        >>=-eq-ok (lift (authorize_refresh deps services input client)) after_client s h in
      let h' : (after_client c s).0 ≡ ok r = ap (λ x. x.0) (sym e) ∙ h in
      let (row, p, e') =
        >>=-eq-ok (reads (presented_token services input.refresh_token c.0.client_id))
          (refresh_row deps services input c.0.client_id c.1) s h' in
      record {
        oauth_client = c.0;
        application = c.1;
        row = row;
        authorized = a;
        presented = p;
        passed =
            refresh_row-eq-ok deps services input c.0.client_id c.1 row s r
              (ap (λ x. x.0) (sym e') ∙ h');
        same = e ∙ e';
      }
