-- ===== src/TokenExchange/Federated/Parsed.antt =====
-- What a subject token is that could be parsed.
use Prim.Native.Char.{code}
use Prim.Native.String
use realmroot.Prelude.{
  none, Option, List, [], ◌∷◌, refl, split_at, nat_eq, String, String, some, ◌≡◌, ap, subst,
}
use realmroot.Errors.{ok}
use realmroot.Errors.Laws.{ok-injective}
use realmroot.Json.{Json, Members}
use realmroot.Json.Laws.{some-injective}
use realmroot.TokenExchange.{Services}
use realmroot.TokenExchange.Assertion.{Assertion, parse_jwt, read_record, assemble, parse_parts}

-- The text of a token is its three parts, of which the assertion has the decoded ones.
abbrev pub IsParsed : Services → (token : String) → Assertion → Type 0
IsParsed services token assertion =
    (head : String) × (body : String) × (signature : String) × (split_at (λ c. nat_eq (code c) 0x2e)
        token
      ≡ head ∷ body ∷ signature ∷ [])
    × (services.decode_part head ≡ some (Json.obj assertion.header))
    × (services.decode_part body ≡ some (Json.obj assertion.payload))
    × (services.decode_signature signature ≡ some assertion.signature)
    × (assertion.signing_input ≡ String.◌++◌ head (String.◌++◌ "." body))

pub read_record-some :
    (o : Option Json) (m : Members) → read_record o ≡ some m → o ≡ some (Json.obj m)
read_record-some none m h = cc
read_record-some (some Json.null) m h = cc
read_record-some (some (Json.bool b)) m h = cc
read_record-some (some (Json.num n)) m h = cc
read_record-some (some (Json.str s)) m h = cc
read_record-some (some (Json.arr xs)) m h = cc
read_record-some (some (Json.obj k)) m h = ap (λ x. some (Json.obj x)) (some-injective h)

assembled :
    (services : Services) (token head body tail : String) (header payload : Option Members)
    (signature : Option String) (assertion : Assertion)
    → split_at (λ c. nat_eq (code c) 0x2e) token ≡ head ∷ body ∷ tail ∷ []
    → read_record (services.decode_part head) ≡ header
    → read_record (services.decode_part body) ≡ payload
    → services.decode_signature tail ≡ signature
    → assemble head body header payload signature ≡ ok assertion
    → IsParsed services token assertion
assembled services token head body tail (some header) (some payload) (some signature) assertion
      parts e f g h =
    subst (IsParsed services token) (ok-injective h) (
      head,
      body,
      tail,
      parts,
      read_record-some (services.decode_part head) header e,
      read_record-some (services.decode_part body) payload f,
      g,
      refl,
    )
assembled services token head body tail none payload signature assertion parts e f g h = cc
assembled services token head body tail (some a) none signature assertion parts e f g h = cc
assembled services token head body tail (some a) (some b) none assertion parts e f g h = cc

parts-IsParsed :
    (services : Services) (token : String) (parts : List String) (assertion : Assertion)
    → split_at (λ c. nat_eq (code c) 0x2e) token ≡ parts
    → parse_parts services parts ≡ ok assertion
    → IsParsed services token assertion
parts-IsParsed services token [] assertion e h = cc
parts-IsParsed services token (a ∷ []) assertion e h = cc
parts-IsParsed services token (a ∷ b ∷ []) assertion e h = cc
parts-IsParsed services token (a ∷ b ∷ c ∷ []) assertion e h =
    assembled services token a b c (read_record (services.decode_part a))
      (read_record (services.decode_part b)) (services.decode_signature c) assertion e refl refl
      refl h
parts-IsParsed services token (a ∷ b ∷ c ∷ d ∷ ds) assertion e h = cc

pub parse_jwt-IsParsed :
    (services : Services) (token : String) (assertion : Assertion)
    → parse_jwt services token ≡ ok assertion
    → IsParsed services token assertion
unfolding parse_jwt
parse_jwt-IsParsed services token assertion h =
    parts-IsParsed services token (split_at (λ c. nat_eq (code c) 0x2e) token) assertion refl h
