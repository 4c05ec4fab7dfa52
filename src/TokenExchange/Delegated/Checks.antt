-- ===== src/TokenExchange/Delegated/Checks.antt =====
-- What the checks of a delegated exchange tell when they pass.
use realmroot.Prelude.{
  not-is_some, Option-cases, Among, find-Among, find, find_sound, eq_iff, is_some, not, none,
  Option, Bool-cases, inl, inr, true, ◌==◌, ◌⊎◌, nat_eq, any, [], ◌∷◌, ℕ, String, Bool, false, ◌&&◌,
  some, List, ◌≡◌, refl, includes, filter, includes-filter, ◌∙◌, sym, ap, subst, arith, and_true,
  false_of_not,
}
use realmroot.Errors.{
  ok, err, Failure, oauth_error, Result, api_error, oauth_failure, thrown, not_found_error,
}
use realmroot.Errors.Laws.{
  >>=-eq-ok, require-eq-ok, or_throw-eq-ok, or_throw-ok, require-ok, ok-injective,
}
use realmroot.Json.{Json, read_string}
use realmroot.Json.Laws.{some-injective, read_string-some}
use realmroot.Directory.{
  Directory, Application, ApiResource, ScopeMapping, TokenExchangePolicy, User, get_user,
  find_resource_by_resource_url,
}
use realmroot.Membership.{active_resource_visible_to_organization}
use realmroot.TokenExchange.{Services}
use realmroot.TokenExchange.Delegated.{
  mapped_target_scopes, find_mappings, require_active_delegated_user, user_of,
}
use realmroot.TokenExchange.Delegated.Grant.{delegated_scopes, visible_resource, read_organization}

pub delegated_scopes-eq-ok :
    (deps : Directory) (services : Services) (clock : ℕ) (asked mapped of_user scopes : List String)
    (v : String)
    → delegated_scopes deps services clock asked mapped of_user ≡ ok scopes
    → (includes scopes v ≡ (includes asked v && (includes mapped v && includes of_user v)))
      × (includes scopes "offline_access" ≡ false)
unfolding delegated_scopes
delegated_scopes-eq-ok deps services clock asked mapped of_user scopes v h =
    let kept : String → Bool = λ scope. includes mapped scope && includes of_user scope in
    let (t, e) = require-eq-ok _ _ (ok (filter kept asked)) h in
    let same : filter kept asked ≡ scopes = ok-injective e in
    (
      ap (λ ss. includes ss v) (sym same) ∙ includes-filter kept asked v,
      ap (λ ss. includes ss "offline_access") (sym same)
          ∙ false_of_not (includes (filter kept asked) "offline_access") (and_true _ _ t).1,
    )

-- A resource that the application's organization may use, at the address `audience`
abbrev pub IsVisibleAt : Directory → Application → (audience : String) → ApiResource → Type 0
IsVisibleAt deps application audience resource =
    Among resource deps.resources
    × (resource.resource_url ≡ audience)
    × (resource.enabled ≡ true)
    × (resource.deleted_at ≡ none)
    × (active_resource_visible_to_organization resource application.owner_organization_id ≡ true)

pub visible_resource-IsVisibleAt :
    (deps : Directory) (application : Application) (audience error description : String)
    (resource : ApiResource)
    → visible_resource deps application audience error description ≡ ok resource
    → IsVisibleAt deps application audience resource
unfolding visible_resource find_resource_by_resource_url
visible_resource-IsVisibleAt deps application audience error description resource h =
    let selects : ApiResource → Bool =
      λ row. row.resource_url == audience && row.enabled && not (is_some row.deleted_at) in
    let (row, found, h1) =
      or_throw-eq-ok (find selects deps.resources) (oauth_error error description) _ h in
    let (visible, h2) =
      require-eq-ok (active_resource_visible_to_organization row application.owner_organization_id)
        _ _ h1 in
    let passes = find_sound selects deps.resources row found in
    subst (IsVisibleAt deps application audience) (ok-injective h2) (
      find-Among selects deps.resources row found,
      (eq_iff row.resource_url audience).0 (ground (arith, passes)),
      ground (arith, passes),
      not-is_some row.deleted_at (ground (arith, passes)),
      visible,
    )

policy_of :
    {a b source target : String} {ms mappings : List ScopeMapping}
    → a ≡ source
    → b ≡ target
    → ms ≡ mappings
    → TokenExchangePolicy.resource_policy a b ms
      ≡ TokenExchangePolicy.resource_policy source target mappings
policy_of e f g = cc

-- The policy of the application between two resources that maps the scopes
pub find_mappings-Among :
    (source target : String) (policies : List TokenExchangePolicy) (mappings : List ScopeMapping)
    → find_mappings source target policies ≡ some mappings
    → Among (TokenExchangePolicy.resource_policy source target mappings) policies
find_mappings-Among source target [] mappings h = cc
find_mappings-Among source target (TokenExchangePolicy.identity_policy a b ∷ ps) mappings h =
    inr (find_mappings-Among source target ps mappings h)
find_mappings-Among source target (TokenExchangePolicy.resource_policy a b ms ∷ ps) mappings h =
    elim (Bool-cases (a == source && b == target)) [
      | inl e ↦ inl (
          policy_of ((eq_iff a source).0 (ground (arith, e)))
            ((eq_iff b target).0 (ground (arith, e))) (some-injective (rw (find_mappings, e) at h)))
      | inr e ↦ inr (find_mappings-Among source target ps mappings (rw (find_mappings, e) at h))
    ]

user_of-ok : (r : Result User) (user : User) → user_of r ≡ ok user → r ≡ ok user
user_of-ok (ok u) user h = h
user_of-ok (err (oauth_failure status error description)) user h = cc
user_of-ok (err (thrown message)) user h = cc
user_of-ok (err (api_error status code message)) user h = elim (Bool-cases (nat_eq status 404)) [
  | inl e ↦ absurd (refused (rw e at h))
  | inr e ↦ absurd (refused (rw e at h))
]
  where
    refused : {f : Failure} → ¬ (err f ≡ ok user)
    refused g = cc

-- The row of a user who is neither banned nor deleted
abbrev pub IsActiveUser : Directory → (subject : String) → User → Type 0
IsActiveUser deps subject user =
    Among user deps.users × (user.id ≡ subject) × (user.deleted_at ≡ none) × (user.banned ≡ false)

pub user_found :
    (deps : Directory) (subject : String)
    → require_active_delegated_user deps subject ≡ ok tt
    → (user : User) × IsActiveUser deps subject user
unfolding require_active_delegated_user get_user
user_found deps subject h =
    let selects : User → Bool = λ row. row.id == subject && not (is_some row.deleted_at) in
    let (user, e, h1) = >>=-eq-ok (user_of (get_user deps subject)) _ h in
    let found =
      or_throw-ok (find selects deps.users) (not_found_error "User not found.") user
        (user_of-ok (get_user deps subject) user e) in
    let passes = find_sound selects deps.users user found in
    let active =
      require-ok (not user.banned)
        (oauth_error "invalid_grant" "Subject access token does not represent an active User.")
        h1 in
    (
      user,
      (
        find-Among selects deps.users user found,
        (eq_iff user.id subject).0 (ground (arith, passes)),
        not-is_some user.deleted_at (ground (arith, passes)),
        false_of_not user.banned active,
      ),
    )

-- A mapping leads to the scope from one that the subject token carries and that the source declares.
abbrev pub leads_to :
    (subject_scopes declared : List String) → (scope : String) → ScopeMapping → Bool
leads_to subject_scopes declared scope m =
    m.target_scope == scope
    && (includes subject_scopes m.source_scope && includes declared m.source_scope)

pub mapped-leads_to :
    (subject_scopes declared : List String) (v : String) (mappings : List ScopeMapping)
    → includes (mapped_target_scopes mappings subject_scopes declared) v
      ≡ any (leads_to subject_scopes declared v) mappings
unfolding mapped_target_scopes
mapped-leads_to subject_scopes declared v [] = refl
mapped-leads_to subject_scopes declared v (m ∷ ms) =
    elim (Bool-cases (includes subject_scopes m.source_scope && includes declared m.source_scope)) [
      | inl e ↦ rw e (ground (arith, mapped-leads_to subject_scopes declared v ms))
      | inr e ↦ rw e (ground (arith, mapped-leads_to subject_scopes declared v ms))
    ]

-- The tenant that the Organization claim of the subject token names, or that of no Organization
abbrev pub IsClaimedOrganization : Option Json → Option String → Type 0
IsClaimedOrganization claim organization_id =
    ((claim ≡ none) × (organization_id ≡ none))
    ⊎ ((id : String) × (claim ≡ some (Json.str id)) × (organization_id ≡ some id))

pub organization-claimed :
    (claim : Option Json) (organization_id : Option String)
    → read_organization claim ≡ ok organization_id
    → IsClaimedOrganization claim organization_id
organization-claimed none organization_id h = inl (refl, sym (ok-injective h))
organization-claimed (some j) organization_id h = elim (Option-cases (read_string (some j))) [
  | inl e ↦ absurd (refused (rw (read_organization, e) at h))
  | inr (id, e) ↦
      inr (id, read_string-some (some j) id e, sym (ok-injective (rw (read_organization, e) at h)))
]
  where
    refused : {f : Failure} → ¬ (err f ≡ ok organization_id)
    refused g = cc
