-- ===== src/TokenExchange/Refresh/Reuse.antt =====
-- A refresh token that is presented a second time, and what a successful refresh leaves behind.
use realmroot.Prelude.{
  ℕ, String, Bool, true, some, List, [], ◌∷◌, ◌==◌, ◌≡◌, refl, find, includes, is_some, arith,
  eq_iff, eq_refl, ap, ◌∙◌, sym, subst, Bool-cases, inl, inr, Option-cases, get_or,
}
use realmroot.Errors.{ok, err, oauth_error}
use realmroot.Errors.Laws.{ok-injective}
use realmroot.Directory.{Directory, Application, OauthClient}
use realmroot.TokenExchange.{Services, State, RefreshToken, TokenRefreshRequest, ClientCredentials}
use realmroot.TokenExchange.Store.{find_refresh_token_by_hash, revoke_refresh_token_family}
use realmroot.TokenExchange.Store.Rotation.{is_dead, families}
use realmroot.TokenExchange.Store.Rotation.Dead.{revoke-revoked, families-revoke}
use realmroot.TokenExchange.Client.{authorize_refresh}
use realmroot.TokenExchange.Refresh.{
  presented_token, check_lifetime, revoke_and_throw, refresh_row, refresh_token,
}

find-kept :
    (p : RefreshToken → Bool) (x : RefreshToken) (xs : List RefreshToken)
    → p x ≡ true
    → find p (x ∷ xs) ≡ some x
find-kept p x xs h = rw h refl

-- A row that a search finds is of a family of the table.
pub find-families :
    (p : RefreshToken → Bool) (rows : List RefreshToken) (row : RefreshToken)
    → find p rows ≡ some row
    → includes (families rows) row.family_id ≡ true
find-families p [] row h = cc
find-families p (x ∷ xs) row h = elim (Bool-cases (p x)) [
  | inl kept ↦
      subst (λ r. includes (families (x ∷ xs)) r.family_id ≡ true)
        (ap (λ o. get_or o x) (sym (find-kept p x xs kept) ∙ h)) (rw (eq_refl x.family_id) refl)
  | inr dropped ↦ ground (arith, find-families p xs row)
]

pub presented_token-eq-ok :
    (services : Services) (token client_id : String) (s : State) (row : RefreshToken)
    → presented_token services token client_id s ≡ ok row
    → (find_refresh_token_by_hash s (services.hash_provider_secret token) ≡ some row)
      × (row.client_id ≡ client_id)
unfolding presented_token
presented_token-eq-ok services token client_id s row h =
    elim (Option-cases (find_refresh_token_by_hash s (services.hash_provider_secret token))) [
      | inl e ↦
          let bad : presented_token services token client_id s
              ≡ err (oauth_error "invalid_grant" "Refresh token is invalid.") =
            rw (presented_token, e) refl in
          cc
      | inr (found, e) ↦ elim (Bool-cases (found.client_id == client_id)) [
        | inl k ↦
            let good : presented_token services token client_id s ≡ ok found =
              rw (presented_token, e, k) refl in
            let same : found ≡ row = ok-injective (sym good ∙ h) in
            (
              e ∙ ap some same,
              ap (λ r. r.client_id) (sym same) ∙ (eq_iff found.client_id client_id).0 k,
            )
        | inr k ↦
            let bad : presented_token services token client_id s
                ≡ err (oauth_error "invalid_grant" "Refresh token is invalid.") =
              rw (presented_token, e, k) refl in
            cc
      ]
    ]

pub presented_token-of_found :
    (services : Services) (token client_id : String) (s : State) (row : RefreshToken)
    → find_refresh_token_by_hash s (services.hash_provider_secret token) ≡ some row
    → row.client_id ≡ client_id
    → presented_token services token client_id s ≡ ok row
unfolding presented_token
presented_token-of_found services token client_id s row e c =
    rw (presented_token, e, (eq_iff row.client_id client_id).1 c) refl

pub revoke_family-is_dead :
    (f : String) (now : ℕ) (s : State)
    → includes (families s.refresh_tokens) f ≡ true
    → is_dead f (revoke_refresh_token_family f now s).refresh_tokens ≡ true
unfolding revoke_refresh_token_family
revoke_family-is_dead f now s h =
    rw (families-revoke f now s.refresh_tokens, revoke-revoked f now s.refresh_tokens, h) refl

-- A token that was consumed is refused, whatever else is asked for, and then all tokens of its family
-- are revoked.
pub reuse_revokes_family :
    (deps : Directory) (services : Services) (input : TokenRefreshRequest)
    (client : ClientCredentials) (s : State) (oauth_client : OauthClient)
    (application : Application) (row : RefreshToken)
    → authorize_refresh deps services input client ≡ ok (oauth_client, application)
    → presented_token services input.refresh_token oauth_client.client_id s ≡ ok row
    → is_some row.consumed_at ≡ true
    → ((refresh_token deps services input client s).0
        ≡ err (oauth_error "invalid_grant" "Refresh token reuse was detected."))
      × (is_dead row.family_id (refresh_token deps services input client s).1.refresh_tokens ≡ true)
unfolding refresh_token refresh_row find_refresh_token_by_hash check_lifetime revoke_and_throw
reuse_revokes_family deps services input client s oauth_client application row a p c =
    rw (a, p, c)
      (
        refl,
        revoke_family-is_dead row.family_id s.clock s (
            find-families (λ r. r.token_hash == services.hash_provider_secret input.refresh_token)
              s.refresh_tokens row
              (presented_token-eq-ok services input.refresh_token oauth_client.client_id s row
                p).0),
      )
