-- ===== src/Json.antt =====
-- JSON values, and the readers of a token's claims in server/usecases/token-exchange.ts.
-- Numbers are natural numbers: a negative or fractional number in a claim is not modelled.
pub mod Laws
use realmroot.Prelude.{
  ℕ, String, Bool, true, false, Option, none, some, List, [], ◌∷◌, ◌==◌, words, dedupe,
  if◌then◌else◌,
}

mutual
  pub data Json : Type 0 where
    null : Json
    bool : Bool → Json
    num : ℕ → Json
    str : String → Json
    arr : Items → Json
    obj : Members → Json

  pub data Items : Type 0 where
    nil : Items
    cons : Json → Items → Items

  pub data Members : Type 0 where
    end : Members
    member : String → Json → Members → Members

-- `record[key]`; `none` is `undefined`. A parsed object keeps the last value of a repeated key, and
-- holds each key once: here the first is read.
unfoldable pub get : Members → String → Option Json
get end k = none
get (member j v m) k = if j == k then some v else get m k

-- An object literal. A member that is `undefined` is left out of the JSON text.
abbrev pub object : List (String × Option Json) → Members
object [] = end
object ((k, none) ∷ rest) = object rest
object ((k, some v) ∷ rest) = member k v (object rest)

abbrev pub is_record : Json → Option Members
is_record (obj m) = some m
is_record _ = none

abbrev not_empty : String → Option String
not_empty s = if s == "" then none else some s

abbrev pub read_string : Option Json → Option String
read_string (some (str s)) = not_empty s
read_string _ = none

abbrev pub read_number : Option Json → Option ℕ
read_number (some (num n)) = some n
read_number _ = none

abbrev pub read_single_audience : Option Json → Option String
read_single_audience (some (str s)) = not_empty s
read_single_audience (some (arr (cons (str s) nil))) = not_empty s
read_single_audience _ = none

abbrev pub parse_space_separated_claim : Option Json → List String
parse_space_separated_claim (some (str s)) = dedupe (words s)
parse_space_separated_claim _ = []

abbrev pub items_of : List String → Items
items_of [] = Items.nil
items_of (s ∷ ss) = Items.cons (Json.str s) (items_of ss)

-- `Array.isArray(value) && value.includes(text)`
abbrev pub items_include : Items → String → Bool
items_include nil t = false
items_include (cons (str s) xs) t = if s == t then true else items_include xs t
items_include (cons _ xs) t = items_include xs t

abbrev pub audience_matches : Option Json → String → Bool
audience_matches (some (str s)) audience = s == audience
audience_matches (some (arr xs)) audience = items_include xs audience
audience_matches _ audience = false

-- `claim === text`
abbrev pub is_text : Option Json → String → Bool
is_text (some (str s)) t = s == t
is_text _ t = false
