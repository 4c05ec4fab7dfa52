-- ===== src/Errors/Exec.antt =====
-- Handlers that write to the store and may throw. What was written before a throw stays written, so
-- the store comes back beside the failure too.
pub mod Laws
use realmroot.Prelude.{Option, none, some}
use realmroot.Errors.{Failure, Result, ok, err}

abbrev pub Exec {ℓ} : Type ℓ → Type ℓ → Type ℓ
Exec S A = S → Result A × S

module _ {ℓ} {S A : Type ℓ} where
  abbrev pub pure : A → Exec S A
  pure a s = (ok a, s)

  abbrev pub raise : Failure → Exec S A
  raise e s = (err e, s)

  -- a computation that only reads
  abbrev pub lift : Result A → Exec S A
  lift r s = (r, s)

  -- a computation that reads the store
  abbrev pub reads : (S → Result A) → Exec S A
  reads f s = (f s, s)

  -- `catch (error) { await handler(error); throw error }`
  abbrev continue_failed : Result A → (Failure → Exec S (Unit {ℓ})) → Exec S A
  continue_failed (ok a) f s = (ok a, s)
  continue_failed (err e) f s = (err e, (f e s).1)

  abbrev pub on_error : Exec S A → (Failure → Exec S (Unit {ℓ})) → Exec S A
  on_error m f s = let (r, s') = m s in continue_failed r f s'

module _ {ℓ} {S A B : Type ℓ} where
  abbrev pub continue : Result A → (A → Exec S B) → Exec S B
  continue (err failure) next s = (err failure, s)
  continue (ok value) next s = next value s

  infixl 10 ◌>>=◌ ◌>>◌
  abbrev pub ◌>>=◌ : Exec S A → (A → Exec S B) → Exec S B
  ◌>>=◌ m f s = let (r, s') = m s in continue r f s'

  abbrev pub ◌>>◌ : Exec S A → Exec S B → Exec S B
  check >> rest = check >>= λ _. rest
