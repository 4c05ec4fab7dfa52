-- ===== src/Organizations/Owned.antt =====
-- The owners of the Organizations, after any steps.
use realmroot.Prelude.{
  Reaches, ℕ, String, Bool, true, false, not, Option, List, [], ◌∷◌, ◌++◌, map, any, filter, ◌==◌,
  ◌≡◌, refl, arith, eq_iff, Bool-cases, inl, inr, any-append, all-append, any-map_imp,
  any-filter_imp, all-map_imp, all-filter_imp, all_imp,
}
use realmroot.Organizations.{OrganizationRow, MemberRow, OrganizationState}
use realmroot.Organizations.Roles.{serialize_roles}
use realmroot.Organizations.Roles.Found.{has_role-serialize_roles}
use realmroot.Organizations.Store.{is_member_with, patch_organization, retitle}
use realmroot.Organizations.Store.Writes.{
  is_other_owner, is_not_last_owner, is_expected, is_replaceable, replace_row, is_removable,
}
use realmroot.Organizations.Steps.{Step, Reach, is_owned}

abbrev has_owner : List MemberRow → (organization_id : String) → Bool
has_owner members id = any (is_member_with id "owner") members

module _ (members : List MemberRow) (oid mid : String) (expected : ℕ) where
  -- A row of another Organization is not the expected one.
  unexpected :
      (id : String) (row : MemberRow)
      → (id == oid) ≡ false
      → is_member_with id "owner" row ≡ true
      → is_expected oid mid expected row ≡ false
  unexpected id row d h =
      let e : row.organization_id ≡ id = (eq_iff row.organization_id id).0 (ground (arith, h)) in
      elim (Bool-cases (row.organization_id == oid)) [
        | inl k ↦ absurd (ground (arith, rw e at k, d))
        | inr k ↦ ground (arith, k)
      ]

  module _ (roles : List String) (now : ℕ) where
    abbrev replaced_row : MemberRow → MemberRow
    replaced_row = replace_row members oid mid roles expected now

    other_stays :
        (row : MemberRow)
        → is_other_owner oid mid row ≡ true
        → is_member_with oid "owner" (replaced_row row) ≡ true
    other_stays row h = elim (Bool-cases (is_replaceable members oid mid roles expected row)) [
      | inl k ↦ absurd (ground (arith, k, h))
      | inr k ↦ rw k (ground (arith, h))
    ]

    last_stays :
        any (is_other_owner oid mid) members ≡ false
        → (row : MemberRow) → is_member_with oid "owner" row ≡ true
        → is_member_with oid "owner" (replaced_row row) ≡ true
    unfolding is_not_last_owner
    last_stays alone row h = elim (Bool-cases (is_replaceable members oid mid roles expected row)) [
      | inl k ↦
          rw k (
            ground (arith, h, has_role-serialize_roles "owner" roles (ground (arith, k, h, alone))))
      | inr k ↦ rw k h
    ]

    replaced_owner :
        (id : String) → has_owner members id ≡ true → has_owner (map replaced_row members) id ≡ true
    replaced_owner id h = elim (Bool-cases (id == oid)) [
      | inr d ↦
          any-map_imp (is_member_with id "owner") (is_member_with id "owner") replaced_row members
            (λ row k. rw (unexpected id row d k) k) h
      | inl e ↦ elim (Bool-cases (any (is_other_owner oid mid) members)) [
        | inl other ↦ rw ((eq_iff id oid).0 e) (
            any-map_imp (is_other_owner oid mid) (is_member_with oid "owner") replaced_row members
              other_stays other)
        | inr alone ↦ rw ((eq_iff id oid).0 e) (
            any-map_imp (is_member_with oid "owner") (is_member_with oid "owner") replaced_row
              members (last_stays alone) (rw ((eq_iff id oid).0 e) at h))
      ]
    ]

  abbrev stays : MemberRow → Bool
  stays row = not (is_removable members oid mid expected row)

  remaining_owner :
      (id : String) → has_owner members id ≡ true → has_owner (filter stays members) id ≡ true
  unfolding is_not_last_owner
  remaining_owner id h = elim (Bool-cases (id == oid)) [
    | inr d ↦
        any-filter_imp (is_member_with id "owner") (is_member_with id "owner") stays members
          (λ row k. ground (arith, k, unexpected id row d k)) h
    | inl e ↦ elim (Bool-cases (any (is_other_owner oid mid) members)) [
      | inl other ↦ rw ((eq_iff id oid).0 e) (
          any-filter_imp (is_other_owner oid mid) (is_member_with oid "owner") stays members
            (λ row k. ground (arith, k)) other)
      | inr alone ↦ rw ((eq_iff id oid).0 e) (
          any-filter_imp (is_member_with oid "owner") (is_member_with oid "owner") stays members
            (λ row k. ground (arith, k, alone)) (rw ((eq_iff id oid).0 e) at h))
    ]
  ]

retitled_owner :
    (tid : String) (title : Option (Option String)) (now : ℕ) (members : List MemberRow)
    (id : String)
    → has_owner members id ≡ true
    → has_owner (map (retitle tid title now) members) id ≡ true
retitled_owner tid title now members id =
    any-map_imp (is_member_with id "owner") (is_member_with id "owner") (retitle tid title now)
      members (λ row h. elim (Bool-cases (row.id == tid)) [ inl e ↦ rw e h | inr e ↦ rw e h ])

joined_owner :
    (members more : List MemberRow) (id : String)
    → has_owner members id ≡ true
    → has_owner (members ++ more) id ≡ true
joined_owner members more id h =
    rw (any-append (is_member_with id "owner") members more) (ground (arith, h))

cascaded_owner :
    (id : String) (members : List MemberRow) (organization : OrganizationRow)
    → has_owner members organization.id ≡ true
    → not (organization.id == id) ≡ true
    → has_owner (filter (λ row. not (row.organization_id == id)) members) organization.id ≡ true
cascaded_owner id members organization h k =
    any-filter_imp (is_member_with organization.id "owner") (is_member_with organization.id "owner")
      (λ row. not (row.organization_id == id)) members
      (λ row l. ground (
        arith,
        l,
        k,
        eq_iff row.organization_id organization.id,
        eq_iff row.organization_id id,
        eq_iff organization.id id,
      ))
      h

founded_owner :
    (members : List MemberRow) (owner : MemberRow) (organization : OrganizationRow)
    → owner.organization_id ≡ organization.id
    → owner.role ≡ serialize_roles ("owner" ∷ [])
    → has_owner (members ++ owner ∷ []) organization.id ≡ true
founded_owner members owner organization e r =
    rw (any-append (is_member_with organization.id "owner") members (owner ∷ []), e, r)
      (ground (
        arith,
        (eq_iff organization.id organization.id).1 refl,
        has_role-serialize_roles "owner" ("owner" ∷ []) refl,
      ))

step-is_owned : (s s' : OrganizationState) → Step s s' → is_owned s ≡ true → is_owned s' ≡ true
step-is_owned s s' (Step.unchanged o m) h = rw (o, m) h
step-is_owned s s' (Step.founded organization owner e r o m) h =
    rw
      (
        o,
        m,
        all-append (λ x. has_owner (s.members ++ owner ∷ []) x.id) s.organizations
            (organization ∷ []),
      )
      (ground (
        arith,
        founded_owner s.members owner organization e r,
        all_imp (λ x. has_owner s.members x.id) (λ x. has_owner (s.members ++ owner ∷ []) x.id)
            s.organizations (λ x k. joined_owner s.members (owner ∷ []) x.id k) h,
      ))
step-is_owned s s' (Step.changed id patch now o m) h =
    rw (o, m)
      (all-map_imp (λ x. has_owner s.members x.id) (λ x. has_owner s.members x.id)
        (patch_organization id patch now) s.organizations
        (λ x k. elim (Bool-cases (x.id == id)) [ inl e ↦ rw e k | inr e ↦ rw e k ]) h)
step-is_owned s s' (Step.deleted id o m) h =
    rw (o, m)
      (all-filter_imp (λ x. has_owner s.members x.id)
        (λ x. has_owner (filter (λ row. not (row.organization_id == id)) s.members) x.id)
        (λ row. not (row.id == id)) s.organizations (cascaded_owner id s.members) h)
step-is_owned s s' (Step.joined member o m) h =
    rw (o, m)
      (all_imp (λ x. has_owner s.members x.id) (λ x. has_owner (s.members ++ member ∷ []) x.id)
        s.organizations (λ x k. joined_owner s.members (member ∷ []) x.id k) h)
step-is_owned s s' (Step.retitled id title now o m) h =
    rw (o, m)
      (all_imp (λ x. has_owner s.members x.id)
        (λ x. has_owner (map (retitle id title now) s.members) x.id) s.organizations
        (λ x k. retitled_owner id title now s.members x.id k) h)
step-is_owned s s' (Step.replaced oid mid roles expected now o m) h =
    rw (o, m)
      (all_imp (λ x. has_owner s.members x.id)
        (λ x. has_owner (map (replace_row s.members oid mid roles expected now) s.members) x.id)
        s.organizations (λ x k. replaced_owner s.members oid mid expected roles now x.id k) h)
step-is_owned s s' (Step.left oid mid expected o m) h =
    rw (o, m)
      (all_imp (λ x. has_owner s.members x.id)
        (λ x.
          has_owner (filter (λ row. not (is_removable s.members oid mid expected row)) s.members)
            x.id)
        s.organizations (λ x k. remaining_owner s.members oid mid expected x.id k) h)

-- If every Organization has an owner among its members, then so it is after any steps of the relation:
-- neither the removal of members nor the replacement of their roles, however concurrent requests
-- interleave, leaves an Organization without one.
pub reached-is_owned :
    (s s' : OrganizationState) → Reach s s' → is_owned s ≡ true → is_owned s' ≡ true
reached-is_owned s s' Reaches.here h = h
reached-is_owned s s' (Reaches.step {t = t} r last) h =
    step-is_owned t s' last (reached-is_owned s t r h)
