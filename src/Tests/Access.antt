-- ===== src/Tests/Access.antt =====
-- The theorems on who may do what, tried on the small realm.
use realmroot.Prelude.{
  String, true, false, not, none, some, List, [], ◌∷◌, ◌≡◌, refl, includes, ◌&&◌, ◌||◌, ◌==◌, All,
  ◌↔◌, dedupe, sort,
}
use realmroot.Errors.{ok, err, thrown}
use realmroot.Scopes.{
  realmroot_organization_scopes, realmroot_management_scopes, admin_scopes, developer_scopes,
  member_scopes, inherited_keys, in_scope_registry,
}
use realmroot.Directory.{
  Directory, Member, Organization, ScopeEntitlement, find_member_by_organization_user,
  find_organization_by_slug,
}
use realmroot.Context.{
  AuthorizationTenant, AuthorizationSubject, AuthorizationContext, authorize, can_authorize,
  authorize_owner,
}
use realmroot.Context.Laws.{Permits, authorize_iff}
use realmroot.Membership.{
  resolve_organization_membership_scopes_for_resource, is_realmroot_resource_server,
  active_resource_visible_to_organization, assigned_scopes, require_platform_organization,
}
use realmroot.Membership.Resolved.{
  membership_scopes_of_resource, membership_scopes_of_realmroot, membership_scopes_inherited_key,
  is_granted_by_role, is_predefined_for,
}
use realmroot.Entitlements.{
  Tenant, application_effective_resource_scopes, declared_scopes, automatic_scopes, active,
  resource_scope_entitlement_lifecycle,
}
use realmroot.Entitlements.Expiry.{
  lifecycle-active_iff, scope_entitlement_status_condition, active_status, inactive_status,
}
use realmroot.Entitlements.Effective.{application_scopes, is_entitled_application}
use realmroot.Authz.{
  Principal, ApplicationPrincipal, AgentPrincipal, of_organization, authorize_organization,
  resolve_authorization_context, resolve_platform_organization_context,
}
use realmroot.Authz.Resolve.{
  resolved_scopes_within_application, agent_authorized_iff, user_authorized_is_member, HasAuthority,
  agent_principal, user_principal,
}
use realmroot.Authz.Inventory.{authorized_tenant_inventory}
use realmroot.Authz.Inventory.Tenants.{IsListed, principal_of}
use realmroot.Authz.Inventory.Laws.{authorized_tenant_inventory_sound}
use realmroot.Tests.{realm, platform, realmroot_api, orders, bills, shop}

abbrev context : AuthorizationContext
context = record {
  subject = AuthorizationSubject.user "alice";
  tenant = AuthorizationTenant.organization "acme";
  scopes = "roles:read" ∷ [];
}

abbrev acme : AuthorizationTenant
acme = AuthorizationTenant.organization "acme"

authorize_iff_example :
    ((authorize context acme "roles:read" ≡ ok tt) ↔ Permits context acme "roles:read")
    × ((can_authorize context acme "roles:read" ≡ true) ↔ Permits context acme "roles:read")
    × ((authorize_owner context acme "roles:read" ≡ ok acme) ↔ Permits context acme "roles:read")
authorize_iff_example = authorize_iff context acme "roles:read"

orders-IsOther : is_realmroot_resource_server orders ≡ false
unfolding is_realmroot_resource_server
orders-IsOther = refl

realmroot_api-IsRealmroot : is_realmroot_resource_server realmroot_api ≡ true
unfolding is_realmroot_resource_server
realmroot_api-IsRealmroot = refl

membership_scopes_of_resource_example :
    (scopes : List String) × (resolve_organization_membership_scopes_for_resource realm "acme"
        ("reader" ∷ [])
        (some orders)
      ≡ ok scopes)
    × (includes scopes "orders:read" ≡ (
        active_resource_visible_to_organization orders "acme"
        && (includes (assigned_scopes orders) "orders:read"
            && (is_granted_by_role realm "acme" ("reader" ∷ []) orders "orders:read"
                || (orders.owner_organization_id == "acme" && includes ("reader" ∷ []) "owner")))))
membership_scopes_of_resource_example =
    membership_scopes_of_resource realm "acme" ("reader" ∷ []) orders orders-IsOther "orders:read"

membership_scopes_of_realmroot_example :
    (scopes : List String) × (resolve_organization_membership_scopes_for_resource realm "acme"
        ("owner" ∷ [])
        (some realmroot_api)
      ≡ ok scopes)
    × (includes scopes "roles:write" ≡ (
        in_scope_registry "roles:write"
        && (is_predefined_for ("owner" ∷ []) "roles:write"
            || is_granted_by_role realm "acme" ("owner" ∷ []) realmroot_api "roles:write")))
unfolding inherited_keys
membership_scopes_of_realmroot_example =
    membership_scopes_of_realmroot realm "acme" ("owner" ∷ []) realmroot_api
      realmroot_api-IsRealmroot refl "roles:write"

membership_scopes_inherited_key_example :
    resolve_organization_membership_scopes_for_resource realm "acme"
      ("constructor" ∷ [])
      (some realmroot_api)
    ≡ err (thrown "TypeError: the value is not iterable")
unfolding inherited_keys
membership_scopes_inherited_key_example =
    membership_scopes_inherited_key realm "acme" ("constructor" ∷ []) realmroot_api
      realmroot_api-IsRealmroot refl

abbrev expiring : ScopeEntitlement
expiring = record {
  user_id = some "bob";
  application_id = none;
  resource_server_id = "bills";
  organization_id = none;
  scope = "bills:read";
  expires_at = some 5;
  ended_at = none;
  end_reason = none;
}

lifecycle-active_iff_example :
    ((resource_scope_entitlement_lifecycle expiring 5 ≡ active)
      ↔ (scope_entitlement_status_condition active_status 5 expiring ≡ true))
    × (scope_entitlement_status_condition inactive_status 5 expiring
        ≡ not (scope_entitlement_status_condition active_status 5 expiring))
lifecycle-active_iff_example = lifecycle-active_iff expiring 5

application_scopes_example :
    includes (application_effective_resource_scopes realm shop bills 0) "bills:read" ≡ (
      active_resource_visible_to_organization bills "acme"
      && (includes (declared_scopes bills) "bills:read"
          && (includes (automatic_scopes bills) "bills:read"
              || is_entitled_application realm shop bills 0 "bills:read")))
application_scopes_example = application_scopes realm shop bills 0 "bills:read"

abbrev tool : ApplicationPrincipal
tool = record { id = "tool"; owner_organization_id = "acme"; scopes = "roles:read" ∷ [] }

abbrev alice_in_acme : AuthorizationContext
alice_in_acme = record {
  subject = AuthorizationSubject.user "alice";
  tenant = acme;
  scopes = "roles:read" ∷ [];
}

abbrev alice_with_tool : Principal
alice_with_tool = record { user_id = some "alice"; application = some tool; agent = none }

alice_resolved : resolve_authorization_context realm alice_with_tool acme ≡ ok alice_in_acme
unfolding resolve_authorization_context require_platform_organization
    resolve_platform_organization_context
    realmroot.Membership.resolve_organization_user_authorization_context
    find_member_by_organization_user realmroot.Membership.find_realmroot_resource_server
    resolve_organization_membership_scopes_for_resource is_realmroot_resource_server
    realmroot.Membership.scopes_of_predefined_roles realmroot.Membership.scopes_of_predefined_role
    inherited_keys sort dedupe realmroot.Scopes.predefined_role_scopes realmroot_organization_scopes
    in_scope_registry realmroot_management_scopes realmroot.Membership.scopes_of_dynamic_roles
    realmroot.Directory.organization_role_scopes
alice_resolved = refl

resolved_scopes_within_application_example : includes tool.scopes "roles:read" ≡ true
resolved_scopes_within_application_example =
    resolved_scopes_within_application realm (some "alice") tool none acme "roles:read"
      alice_in_acme alice_resolved refl

platform_found : require_platform_organization realm ≡ ok platform
unfolding require_platform_organization
platform_found = refl

abbrev agent : AgentPrincipal
agent = record {
  identity_id = "agent";
  scopes = "roles:read" ∷ [];
  authority = some (of_organization "acme");
}

agent_authorized_iff_example :
    (authorize_organization realm (agent_principal agent) "acme" "roles:read" ≡ ok tt)
    ↔ (HasAuthority agent.authority "platform" "acme" × (includes agent.scopes "roles:read" ≡ true))
agent_authorized_iff_example =
    agent_authorized_iff realm platform agent "acme" "roles:read" platform_found

abbrev alice_on_platform : AuthorizationContext
alice_on_platform = record {
  subject = AuthorizationSubject.user "alice";
  tenant = AuthorizationTenant.organization "platform";
  scopes = [];
}

alice_has_no_platform_scope :
    resolve_platform_organization_context realm (user_principal "alice" none) "platform"
    ≡ ok alice_on_platform
unfolding resolve_platform_organization_context
    realmroot.Membership.resolve_organization_user_authorization_context
    find_member_by_organization_user
alice_has_no_platform_scope = refl

alice_authorized :
    authorize_organization realm (user_principal "alice" none) "acme" "roles:read" ≡ ok tt
unfolding authorize_organization authorize resolve_authorization_context
    require_platform_organization resolve_platform_organization_context
    realmroot.Membership.resolve_organization_user_authorization_context
    find_member_by_organization_user realmroot.Membership.find_realmroot_resource_server
    resolve_organization_membership_scopes_for_resource is_realmroot_resource_server
    realmroot.Membership.scopes_of_predefined_roles realmroot.Membership.scopes_of_predefined_role
    inherited_keys sort dedupe realmroot.Scopes.predefined_role_scopes realmroot_organization_scopes
    in_scope_registry realmroot_management_scopes realmroot.Membership.scopes_of_dynamic_roles
    realmroot.Directory.organization_role_scopes
alice_authorized = refl

user_authorized_is_member_example :
    (member : Member) × (find_member_by_organization_user realm "acme" "alice" ≡ some member)
user_authorized_is_member_example =
    user_authorized_is_member realm "alice" none platform alice_on_platform "acme" "roles:read"
      platform_found alice_has_no_platform_scope refl alice_authorized

alice_inventory :
    authorized_tenant_inventory realm (principal_of (some "alice") none none) "roles:read"
    ≡ ok (some (acme ∷ []))
unfolding authorized_tenant_inventory can_authorize realmroot.Directory.list_user_memberships
    resolve_authorization_context require_platform_organization
    resolve_platform_organization_context
    realmroot.Membership.resolve_organization_user_authorization_context
    find_member_by_organization_user realmroot.Membership.find_realmroot_resource_server
    resolve_organization_membership_scopes_for_resource is_realmroot_resource_server
    realmroot.Membership.scopes_of_predefined_roles realmroot.Membership.scopes_of_predefined_role
    inherited_keys sort dedupe realmroot.Scopes.predefined_role_scopes realmroot_organization_scopes
    in_scope_registry realmroot_management_scopes realmroot.Membership.scopes_of_dynamic_roles
    realmroot.Directory.organization_role_scopes
alice_inventory = refl

authorized_tenant_inventory_sound_example :
    All (IsListed realm (some "alice") none none "roles:read") (acme ∷ [])
authorized_tenant_inventory_sound_example =
    authorized_tenant_inventory_sound realm (some "alice") none none "roles:read" (acme ∷ [])
      alice_inventory
