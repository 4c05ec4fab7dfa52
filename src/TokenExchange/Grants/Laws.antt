-- ===== src/TokenExchange/Grants/Laws.antt =====
-- The scopes that a request is given, and the subjects that a credential speaks for.
use Prim.Native.Char.{Char}
use Prim.Native.String
use text.Mathlib.Text.{starts_with}
use text.Mathlib.TextLemmas.{cons-append, cons-ne-nil}
use realmroot.Prelude.{
  ℕ, String, Bool, true, false, ◌&&◌, ◌||◌, Option, some, List, [], ◌∷◌, ◌++◌, ◌==◌, ◌≡◌, refl,
  filter, includes, includes-filter, includes-dedupe, dedupe, words, join, get_or, all, All, IsWord,
  IsDistinct, words-join, dedupe_of_distinct, ◌↔◌, arith, eq_iff, eq_refl, and_true, ap, ◌∙◌, sym,
  subst, Bool-cases, inl, inr,
}
use realmroot.Errors.{ok, oauth_error, ◌>>◌, require}
use realmroot.Errors.Laws.{>>=-eq-ok, require-eq-ok, ok-injective, or_throw-eq-ok}
use realmroot.Directory.{Directory, Application, ApiResource, find_resource_by_resource_url}
use realmroot.Membership.{active_resource_visible_to_organization}
use realmroot.Entitlements.{application_effective_resource_scopes}
use realmroot.TokenExchange.Grants.{
  check_allowed, normalize_scopes, configured_scopes, resolve_application_token_scopes_for_resource,
  before_star, subject_matches, resolve_application_token_scopes,
}

pub check_allowed_iff :
    (ss allowed : List String)
    → (check_allowed ss allowed ≡ ok tt) ↔ (all (includes allowed) ss ≡ true)
check_allowed_iff [] allowed = (λ h. refl, λ h. refl)
check_allowed_iff (s ∷ ss) allowed = elim (Bool-cases (includes allowed s)) [
  | inl kept ↦ rw kept (check_allowed_iff ss allowed)
  | inr dropped ↦ rw dropped (λ h. cc, λ h. cc)
]

-- Scopes that are words, without repetition and all allowed, are given back as they were written.
pub normalize_scopes-join :
    (scopes allowed : List String)
    → All IsWord scopes
    → IsDistinct scopes
    → all (includes allowed) scopes ≡ true
    → normalize_scopes (some (join scopes)) allowed ≡ ok scopes
unfolding normalize_scopes
normalize_scopes-join scopes allowed are_words distinct h =
    rw
      (
        words-join scopes are_words,
        dedupe_of_distinct scopes distinct,
        (check_allowed_iff scopes allowed).1 h,
      )
      refl

pub normalize_scopes-eq-ok :
    (scope : Option String) (allowed scopes : List String)
    → normalize_scopes scope allowed ≡ ok scopes
    → (scopes ≡ dedupe (words (get_or scope ""))) × (all (includes allowed) scopes ≡ true)
unfolding normalize_scopes
normalize_scopes-eq-ok scope allowed scopes h =
    let (u, checked, e) =
      >>=-eq-ok (check_allowed (dedupe (words (get_or scope ""))) allowed)
        (λ _. ok (dedupe (words (get_or scope "")))) h in
    let same : dedupe (words (get_or scope "")) ≡ scopes = ok-injective e in
    (
      sym same,
      subst (λ ss. all (includes allowed) ss ≡ true) same
          ((check_allowed_iff (dedupe (words (get_or scope ""))) allowed).0 checked),
    )

-- A scope is in the answer when it is asked for and the application holds it: as an OIDC scope, or as
-- an effective scope of the resource.
pub application_token_scopes :
    (deps : Directory) (application : Application) (resource : ApiResource) (now : ℕ)
    (requested_scope : Option String) (scopes : List String) (v : String)
    → resolve_application_token_scopes_for_resource deps application resource now requested_scope
      ≡ ok scopes
    → includes scopes v ≡ (
        includes (words (get_or requested_scope "")) v
        && (includes application.oidc_scopes v
            || includes (application_effective_resource_scopes deps application resource now) v))
unfolding resolve_application_token_scopes_for_resource
application_token_scopes deps application resource now requested_scope scopes v h =
    let holds_scope : String → Bool = λ scope.
      includes application.oidc_scopes scope
      || includes (application_effective_resource_scopes deps application resource now) scope in
    let (requested, e, kept) =
      >>=-eq-ok
        (normalize_scopes requested_scope
          (application.oidc_scopes ++ configured_scopes application resource))
        (λ requested. ok (filter holds_scope requested)) h in
    let words_of =
      (normalize_scopes-eq-ok requested_scope
        (application.oidc_scopes ++ configured_scopes application resource) requested e).0 in
    ap (λ ss. includes ss v) (sym (ok-injective kept))
    ∙ includes-filter holds_scope requested v
    ∙ ap (λ ss. includes ss v && holds_scope v) words_of
    ∙ ap (λ b. b && holds_scope v) (includes-dedupe (words (get_or requested_scope "")) v)

all_of_includes :
    (p : String → Bool) (xs : List String)
    → ((v : String) → includes xs v ≡ true → p v ≡ true)
    → all p xs ≡ true
all_of_includes p [] h = refl
all_of_includes p (x ∷ xs) h =
    rw (h x (ground (arith, eq_refl x)), all_of_includes p xs (λ v m. h v (ground arith))) refl

-- What an audience's resource gives, seen from the audience.
pub token_scopes-eq-ok :
    (deps : Directory) (application : Application) (audience : String) (now : ℕ)
    (requested_scope : Option String) (scopes : List String)
    → resolve_application_token_scopes deps application audience now requested_scope ≡ ok scopes
    → (resource : ApiResource) × (find_resource_by_resource_url deps audience ≡ some resource)
      × (all
            (λ v.
              includes application.oidc_scopes v
              || includes (application_effective_resource_scopes deps application resource now) v)
            scopes
          ≡ true)
unfolding resolve_application_token_scopes
token_scopes-eq-ok deps application audience now requested_scope scopes h =
    let (resource, found, h') =
      or_throw-eq-ok (find_resource_by_resource_url deps audience)
        (oauth_error "invalid_target"
          "Requested audience is not visible to the Application tenant.")
        (λ resource.
          require
            (active_resource_visible_to_organization resource application.owner_organization_id)
            (oauth_error "invalid_target"
              "Requested audience is not visible to the Application tenant.")
          >> resolve_application_token_scopes_for_resource deps application resource now
              requested_scope)
        h in
    let (visible, e) =
      require-eq-ok
        (active_resource_visible_to_organization resource application.owner_organization_id)
        (oauth_error "invalid_target"
          "Requested audience is not visible to the Application tenant.")
        (resolve_application_token_scopes_for_resource deps application resource now
          requested_scope)
        h' in
    (
      resource,
      found,
      all_of_includes
          (λ v.
            includes application.oidc_scopes v
            || includes (application_effective_resource_scopes deps application resource now) v)
          scopes
          (λ v m.
            (and_true (includes (words (get_or requested_scope "")) v)
              (includes application.oidc_scopes v
                || includes (application_effective_resource_scopes deps application resource now) v)
              (sym (
                  application_token_scopes deps application resource now requested_scope scopes v e)
                ∙ m)).1),
    )

cons-is_not_empty : (c : Char) (s : String) → (String.◌∷◌ c s == "") ≡ false
cons-is_not_empty c s = elim (Bool-cases (String.◌∷◌ c s == "")) [
  | inl empty ↦ elim (cons-ne-nil c s ((eq_iff (String.◌∷◌ c s) "").0 empty)) [ ]
  | inr filled ↦ filled
]

snoc-is_not_empty : (s : String) → (String.◌++◌ s "*" == "") ≡ false
snoc-is_not_empty String.[] = refl
snoc-is_not_empty (String.◌∷◌ c s) = rw cons-append (cons-is_not_empty c (String.◌++◌ s "*"))

before_star-snoc : (prefix : String) → before_star (String.◌++◌ prefix "*") ≡ some prefix
before_star-snoc String.[] = refl
before_star-snoc (String.◌∷◌ c s) =
    rw (cons-append, before_star, snoc-is_not_empty s, before_star-snoc s) refl

-- A pattern that ends in a star speaks for the subjects that start with the rest of it.
pub subject_matches-star :
    (prefix subject : String)
    → subject_matches (String.◌++◌ prefix "*") subject ≡ starts_with subject prefix
unfolding subject_matches
subject_matches-star prefix subject = rw (subject_matches, before_star-snoc prefix) refl
