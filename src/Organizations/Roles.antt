-- ===== src/Organizations/Roles.antt =====
-- The column `member.role`: server/adapters/repos/authorization-mappers.ts, and SQLite's `LIKE`, by
-- which server/adapters/repos/authorization.ts looks for one role in it.
pub mod Found
use Prim.Native.Char.{Char, code}
use Prim.Native.String
use realmroot.Prelude.{
  ℕ, String, Bool, true, false, not, ◌&&◌, ◌||◌, List, [], ◌∷◌, map, filter, dedupe, sort, split_at,
  ◌==◌, ◌+◌, leb, nat_eq, is_space, if◌then◌else◌,
}

unfoldable pub commas : List String → String
commas [] = ""
commas (w ∷ []) = w
commas (w ∷ v ∷ ws) = String.◌++◌ w (String.◌++◌ "," (commas (v ∷ ws)))

unfoldable pub serialize_roles : List String → String
unfolding dedupe sort commas
serialize_roles roles = commas (sort (dedupe roles))

-- `String.prototype.trim`
trim_start : String → String
trim_start String.[] = ""
trim_start (String.◌∷◌ c s) = let rest = trim_start s in if is_space c then rest else String.◌∷◌ c s

trim_end : String → String
trim_end String.[] = ""
trim_end (String.◌∷◌ c s) =
    let rest = trim_end s in if rest == "" && is_space c then "" else String.◌∷◌ c rest

unfoldable pub deserialize_roles : String → List String
unfolding split_at dedupe sort trim_start trim_end is_space
deserialize_roles value = sort (
    dedupe (
      filter (λ role. not (role == ""))
        (map (λ role. trim_start (trim_end role)) (split_at (λ c. nat_eq (code c) 44) value))))

-- `LIKE` folds the letters of ASCII only
abbrev pub fold : Char → ℕ
fold c = let n = code c in if leb 65 n && leb n 90 then n + 32 else n

-- Some end of the text passes.
unfoldable pub any_end : (String → Bool) → String → Bool
any_end p String.[] = p ""
any_end p (String.◌∷◌ c s) = p (String.◌∷◌ c s) || any_end p s

abbrev like_first : Char → (String → Bool) → String → Bool
like_first p rest String.[] = false
like_first p rest (String.◌∷◌ c s) = (nat_eq (code p) 95 || nat_eq (fold p) (fold c)) && rest s

-- `text LIKE pattern`: `%` stands for any text, `_` for any character.
unfoldable pub like : (pattern text : String) → Bool
unfolding any_end
like String.[] text = text == ""
like (String.◌∷◌ p pattern) text =
    if nat_eq (code p) 37 then any_end (like pattern) text else like_first p (like pattern) text

-- `(',' || role || ',') like '%,<key>,%'`
unfoldable pub has_role : (key role : String) → Bool
unfolding like
has_role key role =
    like (String.◌++◌ "%," (String.◌++◌ key ",%")) (String.◌++◌ "," (String.◌++◌ role ","))
