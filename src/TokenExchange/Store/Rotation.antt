-- ===== src/TokenExchange/Store/Rotation.antt =====
-- server/adapters/repos/token-exchange.ts: the refresh tokens under any order of the statements
-- that requests send. Each batch is one step, so that concurrent requests interleave step by step.
pub mod Counts
pub mod Families
pub mod Steps
pub mod Dead
pub mod Revoked
use realmroot.Prelude.{
  Reaches, Reaches-trans, ℕ, String, Bool, true, false, not, ◌&&◌, ◌||◌, Option, some, List, [],
  ◌∷◌, map, any, all, includes, is_some, ◌==◌, ◌≡◌,
}
use realmroot.TokenExchange.{State, RefreshToken, AccessToken}
use realmroot.TokenExchange.Store.{
  store_refresh_token, rotate_refresh_token, revoke_refresh_token_family, consume_refresh_token,
  is_active,
}

abbrev pub ids : List RefreshToken → List String
ids rows = map (λ row. row.id) rows

abbrev pub families : List RefreshToken → List String
families rows = map (λ row. row.family_id) rows

-- The row with an id, in a family
abbrev pub is_row : String → String → RefreshToken → Bool
is_row id family_id row = row.id == id && row.family_id == family_id

-- What a request does to the table of refresh tokens. `generate` gives an id or a family that no row
-- has, and a child is made from a row of its family that was read before.
pub data Step (s s' : State) : Type 0 where
  issued :
      (token : RefreshToken)
      → includes (ids s.refresh_tokens) token.id ≡ false
      → includes (families s.refresh_tokens) token.family_id ≡ false
      → s'.refresh_tokens ≡ (store_refresh_token token s).1.refresh_tokens
      → Step s s'
  rotated :
      (child : RefreshToken) (access_token : AccessToken) (parent_id : String)
      → child.parent_id ≡ some parent_id
      → any (is_row parent_id child.family_id) s.refresh_tokens ≡ true
      → includes (ids s.refresh_tokens) child.id ≡ false
      → s'.refresh_tokens ≡ (rotate_refresh_token child access_token s).1.refresh_tokens
      → Step s s'
  consumed :
      (id : String) (now : ℕ)
      → s'.refresh_tokens ≡ (consume_refresh_token id now s).1.refresh_tokens
      → Step s s'
  revoked :
      (family_id : String) (now : ℕ)
      → s'.refresh_tokens ≡ (revoke_refresh_token_family family_id now s).refresh_tokens
      → Step s s'
  unchanged : s'.refresh_tokens ≡ s.refresh_tokens → Step s s'

abbrev pub Reach : State → State → Type 0
Reach = Reaches Step

-- The rows of a family that a request can still use
abbrev pub in_use : String → RefreshToken → Bool
in_use family_id row = row.family_id == family_id && is_active row

-- A family that had a row, and has revoked them all.
abbrev pub is_dead : String → List RefreshToken → Bool
is_dead family_id rows =
    includes (families rows) family_id
    && all (λ row. not (row.family_id == family_id) || is_some row.revoked_at) rows
