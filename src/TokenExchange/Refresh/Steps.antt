-- ===== src/TokenExchange/Refresh/Steps.antt =====
-- A refresh, seen as steps on the table of refresh tokens.
use realmroot.Prelude.{
  Reaches, Reaches-trans, ℕ, String, Bool, true, false, some, List, ◌≡◌, refl, any, includes,
  is_some, ap, sym, subst, inl, inr, Bool-cases, Option-cases, ◌+◌, ◌||◌, leb, eq_refl, get_or,
  join, not,
}
use realmroot.Errors.{Result, ok, err, Failure}
use realmroot.Errors.Laws.{Result-cases}
use realmroot.Errors.Exec.{Exec, ◌>>=◌, continue, lift, reads}
use realmroot.Directory.{Directory, Application, find_federated_credential_for_client}
use realmroot.TokenExchange.{
  Services, State, RefreshToken, TokenRefreshRequest, ClientCredentials, TokenExchangeResponse,
}
use realmroot.TokenExchange.Store.{
  rotate_refresh_token, revoke_refresh_token_family, find_refresh_token_by_hash,
}
use realmroot.TokenExchange.Store.Rotation.{ids, is_row, Step, Reach}
use realmroot.TokenExchange.Client.{authorize_refresh}
use realmroot.TokenExchange.Grants.{resolve_application_token_scopes}
use realmroot.TokenExchange.Refresh.{
  check_lifetime, check_credential, revoke_and_throw, rotate, answer, refresh_row, refresh_token,
  presented_token, is_still_eligible,
}
use realmroot.TokenExchange.Refresh.Once.{child, access_row, drawn_state, response, rotate-answer}
use realmroot.TokenExchange.Refresh.Passed.{
  check_lifetime-of_usable, usable-of_check_lifetime, check_credential-of_backed,
  backed-of_check_credential,
}
use realmroot.TokenExchange.Refresh.Reuse.{presented_token-eq-ok}
use realmroot.TokenExchange.Refresh.Succeeds.{found-filter}

continue-of_err :
    {A B : Type 0} (r : Result A) (f : A → Exec State B) (t : State) (e : Failure)
    → r ≡ err e
    → (continue r f t).1 ≡ t
continue-of_err (ok a) f t e h = cc
continue-of_err (err e') f t e h = refl

-- A run whose first part leaves the state as it was when it succeeds.
bind-Reach :
    {A B : Type 0} (m : Exec State A) (f : A → Exec State B) (s : State)
    → Reach s (m s).1
    → ((a : A) → (m s).0 ≡ ok a → (m s ≡ (ok a, s)) × Reach s (f a s).1)
    → Reach s ((m >>= f) s).1
bind-Reach m f s first rest = elim (Result-cases (m s).0) [
  | inr (e, h) ↦ subst (Reach s) (sym (continue-of_err (m s).0 f (m s).1 e h)) first
  | inl (a, h) ↦
      let (same, later) = rest a h in subst (λ x. Reach s (continue x.0 f x.1).1) (sym same) later
]

revoke-Reach : (s : State) (f : String) (now : ℕ) → Reach s (revoke_refresh_token_family f now s)
revoke-Reach s f now = Reaches.step Reaches.here (Step.revoked f now refl)

check_lifetime-Reach : (row : RefreshToken) (s : State) → Reach s (check_lifetime row s).1
unfolding check_lifetime revoke_and_throw
check_lifetime-Reach row s = elim (Bool-cases (is_some row.consumed_at)) [
  | inl used ↦ rw used (revoke-Reach s row.family_id s.clock)
  | inr unused ↦ elim (Bool-cases (is_some row.revoked_at || leb row.expires_at s.clock)) [
    | inl over ↦ rw (unused, over) Reaches.here
    | inr live ↦ rw (unused, live) Reaches.here
  ]
]

check_credential-Reach :
    (deps : Directory) (client_id : String) (row : RefreshToken) (s : State)
    → Reach s (check_credential deps client_id row s).1
unfolding check_credential revoke_and_throw
check_credential-Reach deps client_id row s =
    elim (Option-cases (find_federated_credential_for_client deps row.credential_id client_id)) [
      | inl e ↦ rw (check_credential, e) Reaches.here
      | inr (credential, e) ↦ elim (Bool-cases (not credential.enabled)) [
        | inl off ↦ rw (check_credential, e, off) Reaches.here
        | inr on ↦ elim (Bool-cases (is_still_eligible deps row credential)) [
          | inl eligible ↦ rw (check_credential, e, on, eligible) Reaches.here
          | inr not_eligible ↦
              rw (check_credential, e, on, not_eligible) (revoke-Reach s row.family_id s.clock)
        ]
      ]
    ]

answer-Reach :
    (row : RefreshToken) (stored : Bool) (given : TokenExchangeResponse) (s t : State)
    → Reach s t
    → Reach s (answer row stored given t).1
unfolding answer revoke_and_throw
answer-Reach row true given s t r = r
answer-Reach row false given s t r =
    Reaches-trans s t (revoke_refresh_token_family row.family_id t.clock t) r
      (revoke-Reach t row.family_id t.clock)

module _ (deps : Directory) (services : Services) (client_id : String) (row : RefreshToken)
    (s : State) (found : any (is_row row.id row.family_id) s.refresh_tokens ≡ true)
    (fresh : includes (ids s.refresh_tokens) (services.generate (s.drawn + 1 + 1)) ≡ false) where
  table-Reach :
      (scopes : List String)
      → Reach s
          (rotate_refresh_token
            (child services client_id row scopes s)
            (access_row services client_id row scopes s)
            (drawn_state services client_id row scopes s)).1
  unfolding rotate_refresh_token
  table-Reach scopes = Reaches.step Reaches.here (
      Step.rotated (child services client_id row scopes s)
        (access_row services client_id row scopes s) row.id refl found fresh refl)

  rotate-Reach : (scopes : List String) → Reach s (rotate deps services client_id row scopes s).1
  rotate-Reach scopes =
      subst (λ x. Reach s x.1) (sym (rotate-answer services client_id row scopes s deps))
        (answer-Reach row
          (rotate_refresh_token (child services client_id row scopes s)
            (access_row services client_id row scopes s)
            (drawn_state services client_id row scopes s)).0
          (response services client_id row scopes s) s
          (rotate_refresh_token (child services client_id row scopes s)
            (access_row services client_id row scopes s)
            (drawn_state services client_id row scopes s)).1
          (table-Reach scopes))

  refresh_row-Reach :
      (input : TokenRefreshRequest) (application : Application)
      → Reach s (refresh_row deps services input client_id application row s).1
  unfolding refresh_row
  refresh_row-Reach input application =
      bind-Reach (check_lifetime row) _ s (check_lifetime-Reach row s) (λ a h. (
        check_lifetime-of_usable row s (usable-of_check_lifetime row s h),
        bind-Reach (check_credential deps client_id row) _ s
            (check_credential-Reach deps client_id row s)
            (λ b k. (
              check_credential-of_backed deps client_id row s
                  (backed-of_check_credential deps client_id row s k),
              bind-Reach
                  (reads (λ t.
                    resolve_application_token_scopes deps application row.audience t.clock
                      (some (get_or input.scope (join row.scopes)))))
                  (rotate deps services client_id row) s Reaches.here
                  (λ scopes e. (ap (λ r. (r, s)) e, rotate-Reach scopes)),
            )),
      ))

found-is_row :
    (h : String) (s : State) (row : RefreshToken)
    → find_refresh_token_by_hash s h ≡ some row
    → any (is_row row.id row.family_id) s.refresh_tokens ≡ true
unfolding find_refresh_token_by_hash
found-is_row h s row found =
    found-filter h (is_row row.id row.family_id) s.refresh_tokens row found
      (rw (eq_refl row.id, eq_refl row.family_id) refl)

-- Whatever a refresh request is and however it ends, it takes the table of refresh tokens along steps
-- of the step relation only, if the id that it generates for the new row is not taken.
pub refresh_token-Reach :
    (deps : Directory) (services : Services) (input : TokenRefreshRequest)
    (client : ClientCredentials) (s : State)
    → includes (ids s.refresh_tokens) (services.generate (s.drawn + 1 + 1)) ≡ false
    → Reach s (refresh_token deps services input client s).1
unfolding refresh_token
refresh_token-Reach deps services input client s fresh =
    bind-Reach (lift (authorize_refresh deps services input client)) _ s Reaches.here
      (λ authenticated a. (
        ap (λ r. (r, s)) a,
        bind-Reach (reads (presented_token services input.refresh_token authenticated.0.client_id))
            (refresh_row deps services input authenticated.0.client_id authenticated.1) s
            Reaches.here
            (λ row p. (
              ap (λ r. (r, s)) p,
              refresh_row-Reach deps services authenticated.0.client_id row s
                  (found-is_row (services.hash_provider_secret input.refresh_token) s row
                    (presented_token-eq-ok services input.refresh_token authenticated.0.client_id s
                      row p).0)
                  fresh input authenticated.1,
            )),
      ))
