-- ===== src/Context/Laws.antt =====
-- What `authorize` lets pass.
use Prim.Native.Char.{code}
use Prim.Native.String
use text.Mathlib.TextLemmas.{append_cancel_left, cons-append}
use realmroot.Prelude.{
  ℕ, String, true, ◌≡◌, ◌↔◌, refl, sym, ap, arith, ◌==◌, includes, eq_iff, and_true,
}
use realmroot.Errors.{ok}
use realmroot.Errors.Laws.{>>=-eq-ok, require-eq-ok}
use realmroot.Context.{
  AuthorizationTenant, AuthorizationContext, tenant_key, authorize, can_authorize, authorize_owner,
}

abbrev head_code : String → ℕ
head_code String.[] = 0
head_code (String.◌∷◌ c s) = code c

head_code-user : (a : String) → head_code (String.◌++◌ "user:" a) ≡ b'u'
head_code-user a = rw cons-append refl

head_code-organization : (a : String) → head_code (String.◌++◌ "organization:" a) ≡ b'o'
head_code-organization a = rw cons-append refl

user_key-ne : (a b : String) → String.◌++◌ "user:" a ≡ String.◌++◌ "organization:" b → ⊥
user_key-ne a b h = omega (arith, ap head_code h, head_code-user a, head_code-organization b)

-- The key of a tenant determines it: no user and no organization share one.
pub tenant_key-injective : (a b : AuthorizationTenant) → tenant_key a ≡ tenant_key b → a ≡ b
unfolding tenant_key
tenant_key-injective (AuthorizationTenant.user a) (AuthorizationTenant.user b) h =
    ap AuthorizationTenant.user (append_cancel_left "user:" a b h)
tenant_key-injective (AuthorizationTenant.organization a) (AuthorizationTenant.organization b) h =
    ap AuthorizationTenant.organization (append_cancel_left "organization:" a b h)
tenant_key-injective (AuthorizationTenant.user a) (AuthorizationTenant.organization b) h =
    absurd (user_key-ne a b h)
tenant_key-injective (AuthorizationTenant.organization a) (AuthorizationTenant.user b) h =
    absurd (user_key-ne b a (sym h))

tenant_key-eq_iff : (a b : AuthorizationTenant) → ((tenant_key a == tenant_key b) ≡ true) ↔ (a ≡ b)
tenant_key-eq_iff a b = (
  λ h. tenant_key-injective a b ((eq_iff _ _).0 h),
  λ h. (eq_iff (tenant_key a) (tenant_key b)).1 (ap tenant_key h),
)

module _ (context : AuthorizationContext) (target : AuthorizationTenant) (scope : String) where
  -- The context is of the target tenant and holds the scope.
  abbrev pub Permits : Type 0
  Permits = (context.tenant ≡ target) × (includes context.scopes scope ≡ true)

  can_authorize_lem : (can_authorize context target scope ≡ true) ↔ Permits
  unfolding can_authorize
  can_authorize_lem =
      let (to, from) = tenant_key-eq_iff context.tenant target in
      (
        λ h. let (same, held) = and_true _ _ h in (to same, held),
        λ (same, held). rw (from same, held),
      )

  authorize_lem : (authorize context target scope ≡ ok tt) ↔ Permits
  unfolding authorize
  authorize_lem =
      let (to, from) = tenant_key-eq_iff context.tenant target in
      (
        λ h.
            let (same, rest) = require-eq-ok _ _ _ h in
            let (held, done) = require-eq-ok _ _ _ rest in (to same, held),
        λ (same, held). rw (from same, held),
      )

  authorize_owner_lem : (authorize_owner context target scope ≡ ok target) ↔ Permits
  unfolding authorize_owner
  authorize_owner_lem = (
    λ h.
        let (u, passed, done) = >>=-eq-ok (authorize context target scope) _ h in
        authorize_lem.0 passed,
    λ h. rw (authorize_lem.1 h),
  )

  -- `authorize` passes, `can_authorize` is true and `authorize_owner` returns the target, each
  -- exactly where the context's tenant is the target (a user and an organization with one id are
  -- two tenants) and the context holds the required scope.
  pub authorize_iff :
      ((authorize context target scope ≡ ok tt) ↔ Permits)
      × ((can_authorize context target scope ≡ true) ↔ Permits)
      × ((authorize_owner context target scope ≡ ok target) ↔ Permits)
  authorize_iff = (authorize_lem, can_authorize_lem, authorize_owner_lem)
