-- ===== src/Errors/Exec/Laws.antt =====
-- Taking successful runs apart.
use realmroot.Prelude.{Reaches, Reaches-trans, ◌≡◌, refl}
use realmroot.Errors.{Result, ok, err}
use realmroot.Errors.Exec.{Exec, ◌>>=◌, continue}

continue-eq-ok {ℓ} :
    {S A B : Type ℓ} (r : Result A) (t : S) (f : A → Exec S B) {b : B}
    → (continue r f t).0 ≡ ok b
    → (a : A) × (r ≡ ok a) × (continue r f t ≡ f a t)
continue-eq-ok (ok a) t f h = (a, refl, refl)
continue-eq-ok (err e) t f h = cc

-- A run that succeeds has a first part that succeeds, and ends as the second does.
pub >>=-eq-ok {ℓ} :
    {S A B : Type ℓ} (m : Exec S A) (f : A → Exec S B) (s : S) {b : B}
    → ((m >>= f) s).0 ≡ ok b
    → (a : A) × ((m s).0 ≡ ok a) × ((m >>= f) s ≡ f a (m s).1)
>>=-eq-ok m f s h = continue-eq-ok (m s).0 (m s).1 f h

-- A relation that each part of a run goes along, the run goes along.
module _ {ℓ κ} {S A B : Type ℓ} (Rel : S → S → Type κ)
    (trans : (s t u : S) → Rel s t → Rel t u → Rel s u) where
  continue-along :
      (r : Result A) (f : A → Exec S B) (s t : S)
      → Rel s t
      → ((a : A) → r ≡ ok a → Rel t (f a t).1)
      → Rel s (continue r f t).1
  continue-along (ok a) f s t h k = trans s t (f a t).1 h (k a refl)
  continue-along (err e) f s t h k = h

  pub >>=-along :
      (m : Exec S A) (f : A → Exec S B) (s : S)
      → Rel s (m s).1
      → ((a : A) → (m s).0 ≡ ok a → Rel (m s).1 (f a (m s).1).1)
      → Rel s ((m >>= f) s).1
  >>=-along m f s h k = continue-along (m s).0 f s (m s).1 h k

-- What the parts of a run reach step by step, the run reaches.
pub along {ℓ κ} :
    {S A B : Type ℓ} {Step : S → S → Type κ} (m : Exec S A) (f : A → Exec S B) (s : S)
    → Reaches Step s (m s).1
    → ((a : A) → (m s).0 ≡ ok a → Reaches Step (m s).1 (f a (m s).1).1)
    → Reaches Step s ((m >>= f) s).1
along {Step = Step} m f s h k = >>=-along (Reaches Step) Reaches-trans m f s h k
