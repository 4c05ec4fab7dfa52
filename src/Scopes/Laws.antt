-- ===== src/Scopes/Laws.antt =====
-- The predefined roles of an Organization.
use realmroot.Prelude.{
  String, not, ◌&&◌, ◌==◌, ◌≡◌, refl, includes, includes_of_all, includes-filter,
}
use realmroot.Scopes.{
  realmroot_management_scopes, realmroot_organization_scopes, admin_scopes, developer_scopes,
  member_scopes,
}

-- What an owner, an admin, a developer and a member hold: the owner every registered scope, the
-- admin all of those but the two that are kept for the owner, a developer only scopes of the admin,
-- and a member only scopes of the developer.
pub predefined_roles_nested :
    (scope : String)
    → (includes realmroot_organization_scopes scope ≡ includes realmroot_management_scopes scope)
      × (includes admin_scopes scope ≡ (
          includes realmroot_management_scopes scope
          && (not (scope == "organizations:delete") && not (scope == "roles:write"))))
      × ((includes developer_scopes scope && includes admin_scopes scope)
          ≡ includes developer_scopes scope)
      × ((includes member_scopes scope && includes developer_scopes scope)
          ≡ includes member_scopes scope)
unfolding member_scopes developer_scopes admin_scopes realmroot_organization_scopes
    realmroot_management_scopes
predefined_roles_nested scope = (
  refl,
  includes-filter (λ s. not (s == "organizations:delete") && not (s == "roles:write"))
      realmroot_organization_scopes scope,
  includes_of_all admin_scopes developer_scopes scope refl,
  includes_of_all developer_scopes member_scopes scope refl,
)
