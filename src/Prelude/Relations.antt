-- ===== src/Prelude/Relations.antt =====
-- Steps of a relation, one after another.
pub data Reaches {ℓ κ} {S : Type ℓ} (Step : S → S → Type κ) (s : S) : S → Type (ℓ ⊔ κ) where
  here : Reaches Step s s
  step : {t u : S} → Reaches Step s t → Step t u → Reaches Step s u

pub Reaches-trans {ℓ κ} :
    {S : Type ℓ} {Step : S → S → Type κ} (s t u : S)
    → Reaches Step s t
    → Reaches Step t u
    → Reaches Step s u
Reaches-trans s t u r Reaches.here = r
Reaches-trans s t u r (Reaches.step {t = v} r' last) = Reaches.step (Reaches-trans s t v r r') last
