-- ===== src/Membership/Resolved.antt =====
-- Which scopes a member of an Organization gets for a resource.
use realmroot.Prelude.{
  String, Bool, true, false, ◌&&◌, ◌||◌, some, List, [], ◌∷◌, ◌++◌, ◌==◌, ◌≡◌, refl, ◌∙◌, arith,
  filter, includes, any, dedupe, sort, get_or, includes-append, includes-filter, includes-dedupe,
  includes-sort, includes-flat_map, includes-map-filter, or_false, Bool-cases, inl, inr,
}
use realmroot.Errors.{thrown, ok, err}
use realmroot.Scopes.{in_scope_registry, inherited_keys, predefined_role_scopes}
use realmroot.Directory.{Directory, ApiResource, organization_role_scopes}
use realmroot.Membership.{
  active_resource_visible_to_organization, is_realmroot_resource_server, assigned_scopes,
  filter_current_resource_scopes, scopes_of_predefined_role, scopes_of_predefined_roles,
  matching_scopes, scopes_of_dynamic_roles, scopes_of_other_resource,
  resolve_organization_membership_scopes_for_resource,
}

-- A dynamic role of the Organization among `roles` carries the scope for the resource.
abbrev pub is_granted_by_role : Directory → String → List String → ApiResource → String → Bool
is_granted_by_role deps organization_id roles resource scope =
    any
      (λ role.
        any (λ item. item.resource_id == resource.id && item.scope == scope)
          (organization_role_scopes deps organization_id role))
      roles

-- A predefined role among `roles` carries the scope.
abbrev pub is_predefined_for : List String → String → Bool
is_predefined_for roles scope =
    any (λ role. includes (get_or (predefined_role_scopes role) []) scope) roles

includes-filter_current :
    (resource : ApiResource) (organization_id : String) (scopes : List String) (v : String)
    → is_realmroot_resource_server resource ≡ false
    → includes (filter_current_resource_scopes resource organization_id scopes) v ≡ (
        active_resource_visible_to_organization resource organization_id
        && (includes scopes v && includes (assigned_scopes resource) v))
unfolding filter_current_resource_scopes
includes-filter_current resource organization_id [] v other = ground arith
includes-filter_current resource organization_id (s ∷ ss) v other = ground (
  arith,
  includes-sort (filter (includes (assigned_scopes resource)) (s ∷ ss)) v,
  includes-filter (includes (assigned_scopes resource)) (s ∷ ss) v,
)

any-ext {ℓ} :
    {A : Type ℓ} (p q : A → Bool) (xs : List A) → ((x : A) → p x ≡ q x) → any p xs ≡ any q xs
any-ext p q [] h = refl
any-ext p q (x ∷ xs) h = rw (h x, any-ext p q xs h)

includes-scopes_of_dynamic_roles :
    (deps : Directory) (organization_id : String) (roles : List String) (resource : ApiResource)
    (v : String)
    → includes (scopes_of_dynamic_roles deps organization_id roles (some resource)) v
      ≡ is_granted_by_role deps organization_id roles resource v
unfolding scopes_of_dynamic_roles
includes-scopes_of_dynamic_roles deps organization_id roles resource v =
    includes-flat_map
      (λ role. matching_scopes resource.id (organization_role_scopes deps organization_id role))
      roles v
    ∙ any-ext _ _ roles (λ role.
      includes-map-filter (λ item. item.scope) (λ item. item.resource_id == resource.id)
        (organization_role_scopes deps organization_id role) v)

includes-scopes_of_other_resource :
    (organization_id : String) (roles : List String) (resource : ApiResource) (scopes : List String)
    (v : String)
    → is_realmroot_resource_server resource ≡ false
    → includes (scopes_of_other_resource organization_id roles (some resource) scopes) v ≡ (
        active_resource_visible_to_organization resource organization_id
        && (includes (assigned_scopes resource) v
            && (includes scopes v
                || (resource.owner_organization_id == organization_id && includes roles "owner"))))
unfolding scopes_of_other_resource
includes-scopes_of_other_resource organization_id roles resource [] v other = ground (
  arith,
  includes-filter_current resource organization_id (dedupe (assigned_scopes resource)) v other,
  includes-filter_current resource organization_id (dedupe []) v other,
  includes-dedupe (assigned_scopes resource) v,
  includes-dedupe [] v,
)
includes-scopes_of_other_resource organization_id roles resource (s ∷ ss) v other = ground (
  arith,
  includes-filter_current resource organization_id (dedupe (s ∷ ss ++ assigned_scopes resource)) v
      other,
  includes-filter_current resource organization_id (dedupe (s ∷ ss)) v other,
  includes-dedupe (s ∷ ss ++ assigned_scopes resource) v,
  includes-dedupe (s ∷ ss) v,
  includes-append ss (assigned_scopes resource) v,
)

predefined_roles_total :
    (roles : List String)
    → any (includes inherited_keys) roles ≡ false
    → (scopes : List String) × (scopes_of_predefined_roles roles ≡ ok scopes)
      × ((v : String) → includes scopes v ≡ is_predefined_for roles v)
unfolding scopes_of_predefined_roles scopes_of_predefined_role
predefined_roles_total [] plain = ([], refl, λ v. refl)
predefined_roles_total (role ∷ roles) plain =
    let (here, later) =
      or_false (includes inherited_keys role) (any (includes inherited_keys) roles) plain in
    let (scopes, found, held) = predefined_roles_total roles later in
    (
      get_or (predefined_role_scopes role) [] ++ scopes,
      rw (here, found),
      λ v. includes-append (get_or (predefined_role_scopes role) []) scopes v ∙ rw (held v),
    )

predefined_roles_inherited :
    (roles : List String)
    → any (includes inherited_keys) roles ≡ true
    → scopes_of_predefined_roles roles ≡ err (thrown "TypeError: the value is not iterable")
unfolding scopes_of_predefined_roles scopes_of_predefined_role
predefined_roles_inherited [] inherited = cc
predefined_roles_inherited (role ∷ roles) inherited =
    elim (Bool-cases (includes inherited_keys role)) [
      | inl here ↦ rw here
      | inr plain ↦ rw (plain, predefined_roles_inherited roles (ground (arith, plain, inherited)))
    ]

module _ (deps : Directory) (organization_id : String) (roles : List String)
    (resource : ApiResource) where
  -- For a resource other than Realmroot itself, resolving the scopes of a member always succeeds,
  -- and the result holds a scope exactly where the resource is enabled and visible to the
  -- Organization, declares the scope as assigned, and either a dynamic role of the member carries
  -- it or the member owns the Organization that owns the resource.
  pub membership_scopes_of_resource :
      is_realmroot_resource_server resource ≡ false
      → (v : String)
      → (scopes : List String) × (resolve_organization_membership_scopes_for_resource deps
            organization_id roles
            (some resource)
          ≡ ok scopes)
        × (includes scopes v ≡ (
            active_resource_visible_to_organization resource organization_id
            && (includes (assigned_scopes resource) v
                && (is_granted_by_role deps organization_id roles resource v
                    || (resource.owner_organization_id == organization_id
                        && includes roles "owner")))))
  unfolding resolve_organization_membership_scopes_for_resource
  membership_scopes_of_resource other v =
      let dynamic = scopes_of_dynamic_roles deps organization_id roles (some resource) in
      (
        scopes_of_other_resource organization_id roles (some resource) dynamic,
        rw other,
        includes-scopes_of_other_resource organization_id roles resource dynamic v other
            ∙ rw (includes-scopes_of_dynamic_roles deps organization_id roles resource v),
      )

  -- For Realmroot itself, where no role is named like a key that every object inherits, resolving
  -- the scopes of a member succeeds, and the result holds a scope exactly where the scope registry
  -- has it and a predefined or a dynamic role of the member carries it.
  pub membership_scopes_of_realmroot :
      is_realmroot_resource_server resource ≡ true
      → any (includes inherited_keys) roles ≡ false
      → (v : String)
      → (scopes : List String) × (resolve_organization_membership_scopes_for_resource deps
            organization_id roles
            (some resource)
          ≡ ok scopes)
        × (includes scopes v ≡ (
            in_scope_registry v
            && (is_predefined_for roles v
                || is_granted_by_role deps organization_id roles resource v)))
  unfolding resolve_organization_membership_scopes_for_resource
  membership_scopes_of_realmroot realmroot plain v =
      let dynamic = scopes_of_dynamic_roles deps organization_id roles (some resource) in
      let (predefined, found, held) = predefined_roles_total roles plain in
      let collected = dedupe (predefined ++ dynamic) in
      (
        sort (filter in_scope_registry collected),
        rw (realmroot, found),
        ground (
          arith,
          includes-sort (filter in_scope_registry collected) v,
          includes-filter in_scope_registry collected v,
          includes-dedupe (predefined ++ dynamic) v,
          includes-append predefined dynamic v,
          held v,
          includes-scopes_of_dynamic_roles deps organization_id roles resource v,
        ),
      )

  -- A role named like a key that every JavaScript object inherits, such as `constructor`, makes
  -- resolving the member's scopes for Realmroot fail with a TypeError, whatever the other roles are.
  pub membership_scopes_inherited_key :
      is_realmroot_resource_server resource ≡ true
      → any (includes inherited_keys) roles ≡ true
      → resolve_organization_membership_scopes_for_resource deps organization_id roles
          (some resource)
        ≡ err (thrown "TypeError: the value is not iterable")
  unfolding resolve_organization_membership_scopes_for_resource
  membership_scopes_inherited_key realmroot inherited =
      rw (realmroot, predefined_roles_inherited roles inherited)
