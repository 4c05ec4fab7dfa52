-- ===== src/Prelude/Words/RoundTrip.antt =====
-- `words` gives back what `join` has put together.
use Prim.Native.String.{String}
use Prim.Native.String
use mathlib.Core.Path.{◌≡◌, refl, ap, ◌∙◌}
use mathlib.Core.Logic.{◌≢◌}
use mathlib.Core.Bool.{true}
use mathlib.Core.List.{List, [], ◌∷◌}
use native.Mathlib.Omega.{arith}
use text.Mathlib.TextEquality.{eq_iff}
use text.Mathlib.TextLemmas.{nil-append, cons-append, append-nil}
use realmroot.Prelude.Lists.{All}
use realmroot.Prelude.Words.{pieces, words, join, is_not_empty, NoSpace, IsWord}

pieces-append :
    (w t p : String) (ps : List String)
    → NoSpace w
    → pieces t ≡ p ∷ ps
    → pieces (String.◌++◌ w t) ≡ String.◌++◌ w p ∷ ps
unfolding pieces
pieces-append String.[] t p ps h e = simp nil-append e
pieces-append (String.◌∷◌ c w) t p ps h e =
    simp cons-append (rw (h.0, pieces-append w t p ps h.1 e))

pieces-space : (s : String) → pieces (String.◌++◌ " " s) ≡ "" ∷ pieces s
unfolding pieces
pieces-space s = rw cons-append (rw nil-append)

pieces-word : (w : String) → NoSpace w → pieces w ≡ w ∷ []
unfolding pieces
pieces-word String.[] h = refl
pieces-word (String.◌∷◌ c w) h = rw (h.0, pieces-word w h.1)

is_not_empty-word : (w : String) → w ≢ "" → is_not_empty w ≡ true
is_not_empty-word w h = ground (arith, eq_iff w "")

words-append_space :
    (w s : String) → IsWord w → words (String.◌++◌ w (String.◌++◌ " " s)) ≡ w ∷ words s
unfolding words
words-append_space w s h =
    rw (pieces-append w (String.◌++◌ " " s) "" (pieces s) h.1 (pieces-space s), append-nil w)
      (rw (is_not_empty-word w h.0))

words-word : (w : String) → IsWord w → words w ≡ w ∷ []
unfolding words
words-word w h = rw (pieces-word w h.1, is_not_empty-word w h.0)

pub words-join : (ws : List String) → All IsWord ws → words (join ws) ≡ ws
unfolding join words
words-join [] h = refl
words-join (w ∷ []) h = words-word w h.0
words-join (w ∷ v ∷ ws) h =
    words-append_space w (join (v ∷ ws)) h.0 ∙ ap (◌∷◌ w) (words-join (v ∷ ws) h.1)
