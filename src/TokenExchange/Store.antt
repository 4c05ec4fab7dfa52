-- ===== src/TokenExchange/Store.antt =====
-- server/adapters/repos/token-exchange.ts: the tables of issued access and refresh tokens.
pub mod Rotation
use realmroot.Prelude.{
  ℕ, String, Bool, true, false, not, ◌&&◌, Option, none, some, List, [], ◌∷◌, ◌++◌, ◌==◌, find,
  filter, any, map, length, nat_eq, holds, is_some, if◌then◌else◌,
}
use realmroot.Errors.Exec.{Exec}
use realmroot.Errors.{ok}
use realmroot.TokenExchange.{AccessToken, RefreshToken, State}

unfoldable pub store_access_token : AccessToken → State → State
store_access_token token s = record s { access_tokens = s.access_tokens ++ token ∷ [] }

unfoldable pub find_access_token_by_hash : State → String → Option AccessToken
find_access_token_by_hash s token_hash = find (λ row. row.token_hash == token_hash) s.access_tokens

unfoldable pub find_refresh_token_by_hash : State → String → Option RefreshToken
find_refresh_token_by_hash s token_hash =
    find (λ row. row.token_hash == token_hash) s.refresh_tokens

-- `UPDATE … SET revoked_at = now WHERE id = …`
abbrev revoke_by_id : String → ℕ → RefreshToken → RefreshToken
revoke_by_id id now row = if row.id == id then record row { revoked_at = some now } else row

-- The row is inserted, and revoked again if a row of its family is revoked.
unfoldable pub store_refresh_token : RefreshToken → State → Bool × State
store_refresh_token token s =
    let rows = s.refresh_tokens ++ token ∷ [] in
    if any (λ row. row.family_id == token.family_id && is_some row.revoked_at) rows
    then (false, record s { refresh_tokens = map (revoke_by_id token.id s.clock) rows })
    else (true, record s { refresh_tokens = rows })

abbrev pub is_active : RefreshToken → Bool
is_active row = not (is_some row.consumed_at) && not (is_some row.revoked_at)

-- `parentIsActive`
abbrev pub is_active_parent : Option String → RefreshToken → Bool
is_active_parent parent_id row = holds parent_id row.id && is_active row

abbrev pub consume : ℕ → RefreshToken → RefreshToken
consume now row = record row { consumed_at = some now }

abbrev pub consume_parent : Option String → ℕ → RefreshToken → RefreshToken
consume_parent parent_id now row = if is_active_parent parent_id row then consume now row else row

-- `insert … select … where`: one copy of the value for each row that the condition selects
abbrev pub copies {ℓ κ} : {A : Type ℓ} {B : Type κ} → B → List A → List B
copies value rows = map (λ _. value) rows

-- The three statements of the batch: the child is inserted if the parent is active, the parent is
-- consumed, and the access token is inserted if the child is there.
unfoldable pub rotate_refresh_token : RefreshToken → AccessToken → State → Bool × State
rotate_refresh_token child access_token s =
    let parents = filter (is_active_parent child.parent_id) s.refresh_tokens in
    let with_children = s.refresh_tokens ++ copies child parents in
    let consumed = filter (is_active_parent child.parent_id) with_children in
    let rows = map (consume_parent child.parent_id s.clock) with_children in
    let inserted = copies access_token (filter (λ row. row.id == child.id) rows) in
    (
      nat_eq (length parents) 1 && nat_eq (length consumed) 1 && nat_eq (length inserted) 1,
      record s { refresh_tokens = rows; access_tokens = s.access_tokens ++ inserted },
    )

-- `UPDATE … SET revoked_at = now WHERE family_id = … AND revoked_at IS NULL`
abbrev pub revoke_in_family : String → ℕ → RefreshToken → RefreshToken
revoke_in_family family_id now row =
    if row.family_id == family_id && not (is_some row.revoked_at)
    then record row { revoked_at = some now }
    else row

unfoldable pub revoke_refresh_token_family : String → ℕ → State → State
revoke_refresh_token_family family_id now s = record s {
  refresh_tokens = map (revoke_in_family family_id now) s.refresh_tokens;
}

-- `consumeRefreshToken`
unfoldable pub consume_refresh_token : String → ℕ → State → Bool × State
consume_refresh_token id now s = (
  any (is_active_parent (some id)) s.refresh_tokens,
  record s { refresh_tokens = map (consume_parent (some id) now) s.refresh_tokens },
)
