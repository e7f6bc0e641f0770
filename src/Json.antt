-- ===== src/Json.antt =====
-- src/gate/gate-payment-auth.ts and src/payment/payment-protocol.ts: the JSON that challenges and
-- credentials carry, and its canonical text. `quote` is `JSON.stringify` of a text, and `precedes`
-- the order of `sort`.
use the402machine.Base.{String, Bool, Option, none, some, List, [], ◌∷◌, if◌then◌else◌, str_eq}
use the402machine.Tokens.{is_sha256_hex}
use Prim.Native.String.{◌++◌ as ◌<>◌}

-- `raw` is a number, a truth value, `null` or an array, as its text.
mutual
  pub data Json : Type 0 where
    string : String → Json
    raw : String → Json
    object : Members → Json

  pub data Members : Type 0 where
    empty : Members
    member : (name : String) → Json → Members → Members

-- A member of an object, as `value.name` reads it.
unfoldable pub named : String → Members → Option Json
named name empty = none
named name (member k v rest) = if str_eq k name then some v else named name rest

unfoldable pub get : String → Json → Option Json
unfolding named
get name (string s) = none
get name (raw s) = none
get name (object ms) = named name ms

abbrev pub text_of : Option Json → Option String
text_of (some (string s)) = some s
text_of _ = none

abbrev pub then_get : Option Json → String → Option Json
then_get none name = none
then_get (some j) name = get name j

-- A text of 64 hexadecimal digits.
abbrev pub hash_of : Option String → Option String
hash_of none = none
hash_of (some s) = if is_sha256_hex s then some s else none

join : List (String × String) → String
join [] = ""
join ((k, t) ∷ []) = t
join ((k, t) ∷ x ∷ xs) = t <> ("," <> join (x ∷ xs))

module _ (quote : String → String) (precedes : String → String → Bool) where
  insert_member : String × String → List (String × String) → List (String × String)
  insert_member m [] = m ∷ []
  insert_member m (x ∷ xs) = if precedes m.0 x.0 then m ∷ x ∷ xs else x ∷ insert_member m xs

  sorted : List (String × String) → List (String × String)
  unfolding insert_member
  sorted [] = []
  sorted (x ∷ xs) = insert_member x (sorted xs)

  unfoldable mutual
    unfolding sorted join

    pub canonical_json : Json → String
    canonical_json (string s) = quote s
    canonical_json (raw s) = s
    canonical_json (object ms) = "{" <> (join (sorted (written ms)) <> "}")

    pub written : Members → List (String × String)
    written empty = []
    written (member k v rest) = (k, quote k <> (":" <> canonical_json v)) ∷ written rest
