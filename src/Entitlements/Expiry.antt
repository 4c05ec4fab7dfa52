-- ===== src/Entitlements/Expiry.antt =====
-- When a scope entitlement counts: server/usecases/resource-scope-entitlements.ts against the
-- queries of server/adapters/repos/resource-scope-entitlement-filters.ts.
use realmroot.Prelude.{
  ℕ, String, Bool, true, false, not, ◌||◌, Option, none, some, ◌≡◌, ◌↔◌, arith, leb, is_some,
}
use realmroot.Directory.{ScopeEntitlement, is_active_at}
use realmroot.Entitlements.{active, resource_scope_entitlement_lifecycle}

pub data Status : Type 0 where
  active_status inactive_status : Status

abbrev has_expired : Option ℕ → ℕ → Bool
has_expired none now = false
has_expired (some expires_at) now = leb expires_at now

unfoldable pub scope_entitlement_status_condition : Status → ℕ → ScopeEntitlement → Bool
scope_entitlement_status_condition inactive_status now e =
    is_some e.ended_at || has_expired e.expires_at now
scope_entitlement_status_condition active_status now e = is_active_at now e

module _ (e : ScopeEntitlement) (now : ℕ) where
  lifecycle_lem :
      (ended_at expires_at : Option ℕ) (reason : Option String)
      → let row = record e { ended_at = ended_at; expires_at = expires_at; end_reason = reason } in
        ((resource_scope_entitlement_lifecycle row now ≡ active) ↔ (is_active_at now row ≡ true))
        × (scope_entitlement_status_condition inactive_status now row ≡ not (is_active_at now row))
  unfolding resource_scope_entitlement_lifecycle scope_entitlement_status_condition
  lifecycle_lem (some t) (some x) reason = ground arith
  lifecycle_lem (some t) none reason = ground arith
  lifecycle_lem none none reason = ground arith
  lifecycle_lem none (some x) reason = ground arith

  -- The lifecycle that the API shows is `active` exactly where the query for active entitlements
  -- selects the row, and the query for inactive ones selects exactly the other rows: at every time
  -- an entitlement is in one of the two lists.
  pub lifecycle-active_iff :
      ((resource_scope_entitlement_lifecycle e now ≡ active)
        ↔ (scope_entitlement_status_condition active_status now e ≡ true))
      × (scope_entitlement_status_condition inactive_status now e
          ≡ not (scope_entitlement_status_condition active_status now e))
  unfolding scope_entitlement_status_condition
  lifecycle-active_iff = lifecycle_lem e.ended_at e.expires_at e.end_reason
