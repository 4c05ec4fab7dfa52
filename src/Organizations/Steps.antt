-- ===== src/Organizations/Steps.antt =====
-- What may happen to the tables of Organizations and members, as a relation. Each batch of statements
-- is one step, so that concurrent requests interleave step by step.
use realmroot.Prelude.{
  Reaches, ℕ, String, Bool, not, Option, List, [], ◌∷◌, ◌++◌, map, any, all, filter, ◌==◌, ◌≡◌,
}
use realmroot.Organizations.{OrganizationRow, MemberRow, OrganizationState}
use realmroot.Organizations.Roles.{serialize_roles}
use realmroot.Organizations.Store.{is_member_with, OrganizationPatch, patch_organization, retitle}
use realmroot.Organizations.Store.Writes.{replace_row, is_removable}

pub data Step (s s' : OrganizationState) : Type 0 where
  unchanged : s'.organizations ≡ s.organizations → s'.members ≡ s.members → Step s s'
  founded :
      (organization : OrganizationRow) (owner : MemberRow)
      → owner.organization_id ≡ organization.id
      → owner.role ≡ serialize_roles ("owner" ∷ [])
      → s'.organizations ≡ s.organizations ++ organization ∷ []
      → s'.members ≡ s.members ++ owner ∷ []
      → Step s s'
  changed :
      (id : String) (patch : OrganizationPatch) (now : ℕ)
      → s'.organizations ≡ map (patch_organization id patch now) s.organizations
      → s'.members ≡ s.members
      → Step s s'
  deleted :
      (id : String)
      → s'.organizations ≡ filter (λ row. not (row.id == id)) s.organizations
      → s'.members ≡ filter (λ row. not (row.organization_id == id)) s.members
      → Step s s'
  joined :
      (member : MemberRow)
      → s'.organizations ≡ s.organizations
      → s'.members ≡ s.members ++ member ∷ []
      → Step s s'
  retitled :
      (id : String) (title : Option (Option String)) (now : ℕ)
      → s'.organizations ≡ s.organizations
      → s'.members ≡ map (retitle id title now) s.members
      → Step s s'
  replaced :
      (organization_id member_id : String) (roles : List String) (expected now : ℕ)
      → s'.organizations ≡ s.organizations
      → s'.members
        ≡ map (replace_row s.members organization_id member_id roles expected now) s.members
      → Step s s'
  left :
      (organization_id member_id : String) (expected : ℕ)
      → s'.organizations ≡ s.organizations
      → s'.members
        ≡ filter
            (λ row. not (is_removable s.members organization_id member_id expected row))
            s.members
      → Step s s'

abbrev pub Reach : OrganizationState → OrganizationState → Type 0
Reach = Reaches Step

-- Every Organization has an owner among its members.
abbrev pub is_owned : OrganizationState → Bool
is_owned s =
    all (λ organization. any (is_member_with organization.id "owner") s.members) s.organizations
