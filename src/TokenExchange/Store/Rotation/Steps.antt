-- ===== src/TokenExchange/Store/Rotation/Steps.antt =====
-- The invariants of the refresh tokens along the steps that requests take.
use realmroot.Prelude.{
  Reaches, ℕ, String, false, ◌&&◌, some, List, [], ◌∷◌, ◌++◌, map, any, includes, is_some, ◌==◌,
  ◌≡◌, refl, ◌≤◌, filter, arith, eq_iff, IsDistinct, inl, inr, Bool-cases, subst, sym,
}
use realmroot.TokenExchange.{State, RefreshToken}
use realmroot.TokenExchange.Store.{
  store_refresh_token, rotate_refresh_token, revoke_refresh_token_family, consume_refresh_token,
  is_active_parent, consume_parent, copies, revoke_by_id,
}
use realmroot.TokenExchange.Store.Rotation.{ids, families, Step, Reach}
use realmroot.TokenExchange.Store.Rotation.Counts
use realmroot.TokenExchange.Store.Rotation.Families.{
  IsSound, IsSound-consume, IsSound-revoke, IsSound-rotate, ids-append, count-none,
}

count-revoke_by_id :
    (f id : String) (now : ℕ) (xs : List RefreshToken)
    → Counts.count f (map (revoke_by_id id now) xs) ≤ Counts.count f xs
count-revoke_by_id f id now [] = omega arith
count-revoke_by_id f id now (x ∷ xs) = ground (arith, count-revoke_by_id f id now xs)

ids-revoke_by_id :
    (id : String) (now : ℕ) (xs : List RefreshToken) → ids (map (revoke_by_id id now) xs) ≡ ids xs
ids-revoke_by_id id now [] = refl
ids-revoke_by_id id now (x ∷ xs) = ground (arith, ids-revoke_by_id id now xs)

IsSound-append :
    (xs : List RefreshToken) (token : RefreshToken)
    → IsSound xs
    → includes (ids xs) token.id ≡ false
    → includes (families xs) token.family_id ≡ false
    → IsSound (xs ++ token ∷ [])
IsSound-append xs token sound fresh new = record {
  distinct =
      subst IsDistinct (sym (ids-append xs (token ∷ [])))
        (Counts.IsDistinct-append (ids xs) token.id sound.distinct fresh);
  single = λ f. ground (
    arith,
    sound.single f,
    Counts.count-append f xs (token ∷ []),
    count-none token.family_id xs new,
    eq_iff token.family_id f,
  );
}

IsSound-revoke_by_id :
    (id : String) (now : ℕ) (xs : List RefreshToken)
    → IsSound xs
    → IsSound (map (revoke_by_id id now) xs)
IsSound-revoke_by_id id now xs sound = record {
  distinct = subst IsDistinct (sym (ids-revoke_by_id id now xs)) sound.distinct;
  single = λ f. omega (arith, count-revoke_by_id f id now xs, sound.single f);
}

IsSound-store :
    (token : RefreshToken) (s : State)
    → IsSound s.refresh_tokens
    → includes (ids s.refresh_tokens) token.id ≡ false
    → includes (families s.refresh_tokens) token.family_id ≡ false
    → IsSound (store_refresh_token token s).1.refresh_tokens
unfolding store_refresh_token
IsSound-store token s sound fresh new =
    elim (Bool-cases (
      any (λ row. row.family_id == token.family_id && is_some row.revoked_at)
        (s.refresh_tokens ++ token ∷ []))) [
          | inl e ↦ rw e (
              IsSound-revoke_by_id token.id s.clock (s.refresh_tokens ++ token ∷ [])
                (IsSound-append s.refresh_tokens token sound fresh new))
          | inr e ↦ rw e (IsSound-append s.refresh_tokens token sound fresh new)
        ]

pub IsSound-Step : (s s' : State) → IsSound s.refresh_tokens → Step s s' → IsSound s'.refresh_tokens
unfolding rotate_refresh_token consume_refresh_token revoke_refresh_token_family
IsSound-Step s s' sound (Step.issued token fresh new e) =
    subst IsSound (sym e) (IsSound-store token s sound fresh new)
IsSound-Step s s' sound (Step.rotated child access_token p parent h fresh e) =
    subst IsSound (sym e) (
      subst
        (λ o. IsSound (
          map (consume_parent o s.clock)
            (s.refresh_tokens ++ copies child (filter (is_active_parent o) s.refresh_tokens))))
        (sym parent) (IsSound-rotate p s.clock s.refresh_tokens child sound h fresh))
IsSound-Step s s' sound (Step.consumed id at e) =
    subst IsSound (sym e) (IsSound-consume (some id) at s.refresh_tokens sound)
IsSound-Step s s' sound (Step.revoked f at e) =
    subst IsSound (sym e) (IsSound-revoke f at s.refresh_tokens sound)
IsSound-Step s s' sound (Step.unchanged e) = subst IsSound (sym e) sound

pub IsSound-Reach :
    (s s' : State) → IsSound s.refresh_tokens → Reach s s' → IsSound s'.refresh_tokens
IsSound-Reach s s' sound Reaches.here = sound
IsSound-Reach s s' sound (Reaches.step {t} r h) = IsSound-Step t s' (IsSound-Reach s t sound r) h

pub empty-IsSound : (s : State) → s.refresh_tokens ≡ [] → IsSound s.refresh_tokens
empty-IsSound s e = subst IsSound (sym e) (record { distinct = tt; single = λ f. omega arith })

-- In every order of the requests' statements, starting without tokens, a family has one token in use
-- at most.
pub one_token_in_use :
    (s t : State) (f : String)
    → s.refresh_tokens ≡ []
    → Reach s t
    → Counts.count f t.refresh_tokens ≤ 1
one_token_in_use s t f e r = (IsSound-Reach s t (empty-IsSound s e) r).single f
