-- ===== src/Prelude/Words.antt =====
-- Scope lists as text: `value.split(/\s+/).filter(Boolean)` and `scopes.join(' ')`.
pub mod RoundTrip
use Prim.Native.Char.{Char, code}
use Prim.Native.String.{String}
use Prim.Native.String
use mathlib.Core.Path.{◌≡◌, refl}
use mathlib.Core.Logic.{◌≢◌, ◌⊎◌, inl, inr}
use mathlib.Core.Bool.{Bool, true, false, not, ◌&&◌, ◌||◌}
use mathlib.Core.List.{List, [], ◌∷◌}
use native.Mathlib.Omega.{arith}
use text.Mathlib.Text.{◌==◌}
use text.Mathlib.TextEquality.{eq_iff}
use text.Mathlib.TextLemmas.{nil-append, cons-append, append_assoc}
use realmroot.Prelude.Tests.{if◌then◌else◌, Bool-cases, leb, nat_eq, and_true, false_of_not}
use realmroot.Prelude.Lists.{filter, All}

-- `\s` of a JavaScript regular expression
unfoldable pub is_space : Char → Bool
is_space ch =
    let c = code ch in
    leb 9 c && leb c 13
    || nat_eq c 0x20
    || nat_eq c 0xa0
    || nat_eq c 0x1680
    || leb 0x2000 c && leb c 0x200a
    || nat_eq c 0x2028
    || nat_eq c 0x2029
    || nat_eq c 0x202f
    || nat_eq c 0x205f
    || nat_eq c 0x3000
    || nat_eq c 0xfeff

abbrev cons_head : Char → List String → List String
cons_head c [] = String.◌∷◌ c "" ∷ []
cons_head c (w ∷ ws) = String.◌∷◌ c w ∷ ws

-- `value.split(separator)`, where one character separates
unfoldable pub split_at : (Char → Bool) → String → List String
split_at separates String.[] = "" ∷ []
split_at separates (String.◌∷◌ c s) =
    let rest = split_at separates s in if separates c then "" ∷ rest else cons_head c rest

-- The pieces between white space. A run of spaces, which `/\s+/` takes at once, leaves empty pieces
-- here; `filter(Boolean)` drops them.
pub pieces : String → List String
unfolding split_at is_space
pieces s = split_at is_space s

abbrev is_not_empty : String → Bool
is_not_empty s = not (s == "")

unfoldable pub words : String → List String
unfolding pieces
words s = filter is_not_empty (pieces s)

unfoldable pub join : List String → String
join [] = ""
join (w ∷ []) = w
join (w ∷ v ∷ ws) = String.◌++◌ w (String.◌++◌ " " (join (v ∷ ws)))

abbrev pub NoSpace : String → Type 0
NoSpace String.[] = Unit
NoSpace (String.◌∷◌ c s) = (is_space c ≡ false) × NoSpace s

-- A text that `words` can give back: not empty, without white space.
abbrev pub IsWord : String → Type 0
IsWord w = (w ≢ "") × NoSpace w

unfoldable pub no_space : String → Bool
unfolding is_space
no_space String.[] = true
no_space (String.◌∷◌ c s) = not (is_space c) && no_space s

-- Whether every text of a list is a word
unfoldable pub are_words : List String → Bool
unfolding no_space
are_words [] = true
are_words (w ∷ ws) = not (w == "") && (no_space w && are_words ws)

no_space-NoSpace : (s : String) → no_space s ≡ true → NoSpace s
unfolding no_space
no_space-NoSpace String.[] h = tt
no_space-NoSpace (String.◌∷◌ c s) h =
    let both = and_true (not (is_space c)) (no_space s) h in
    (false_of_not (is_space c) both.0, no_space-NoSpace s both.1)

not_empty : (w : String) → (w == "") ≡ false → w ≢ ""
not_empty w h e = cc ((eq_iff w "").1 e)

pub are_words-IsWord : (ws : List String) → are_words ws ≡ true → All IsWord ws
unfolding are_words
are_words-IsWord [] h = tt
are_words-IsWord (w ∷ ws) h =
    let outer = and_true (not (w == "")) (no_space w && are_words ws) h in
    let inner = and_true (no_space w) (are_words ws) outer.1 in
    (
      (not_empty w (false_of_not (w == "") outer.0), no_space-NoSpace w inner.0),
      are_words-IsWord ws inner.1,
    )
