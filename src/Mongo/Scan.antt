-- ===== src/Mongo/Scan.antt =====
-- packages/core/src/mongo/guard.ts: `scanValue`, which looks for server-side code and for unsafe
-- regular expressions at any depth of a value. The code's `depth` is counted down here: `room` is
-- `maxDepth + 1 - depth`, so `depth > maxDepth` is `room` at zero.
pub mod Sound
use ask_sql.Prelude.{
  ℕ, zero, suc, Bool, true, false, ◌&&◌, ◌||◌, Option, none, some, List, [], ◌∷◌, Text, codes,
  text_eq, has, if◌then◌else◌, ◌<|>◌,
}
use ask_sql.Json.{Json, null, bool, num, str, arr, obj, Items, nil, cons, Fields, end, field, get}
use ask_sql.Mongo.Policy.{MongoGuardPolicy, Rule, too_deep, regex_opaque, operator_denied}
use ask_sql.Mongo.Pattern.{check_pattern}

abbrev pub denied_operators_anywhere : List Text
denied_operators_anywhere = codes "$where" ∷ codes "$function" ∷ codes "$accumulator" ∷ []

abbrev pub regex_operators : List Text
regex_operators = codes "$regexMatch" ∷ codes "$regexFind" ∷ codes "$regexFindAll" ∷ []

-- `typeof p === 'string' ? p : 'opaque'`; `none` is 'opaque'.
abbrev text_or_opaque : Option Json → Option Text
text_or_opaque (some (str s)) = some s
text_or_opaque _ = none

-- `'pattern' in v`, and what it then reads
abbrev inner_pattern : Fields → Option Text
inner_pattern fs = text_or_opaque (get (codes "pattern") fs)

unfoldable pub regex_pattern_of : Json → Option Text
regex_pattern_of (str s) = some s
regex_pattern_of (obj fs) = elim (get (codes "$regularExpression") fs) [
  | some (obj ejson) ↦ text_or_opaque (get (codes "pattern") ejson)
  | _ ↦ inner_pattern fs
]
regex_pattern_of _ = none

unfoldable pub inspect_regex : Json → MongoGuardPolicy → Option Rule
inspect_regex v policy = elim (regex_pattern_of v) [
  | none ↦ some regex_opaque
  | some pattern ↦ check_pattern pattern policy
]

-- `isDoc(v) && 'regex' in v`, and the value of that property
abbrev pub regex_field : Json → Option Json
regex_field (obj fs) = get (codes "regex") fs
regex_field _ = none

abbrev pub is_regex_key : Text → Bool
is_regex_key k = text_eq (codes "$regex") k || text_eq (codes "$regularExpression") k

-- The tests that the loop makes on one property before it goes into the value.
unfoldable pub scan_field : MongoGuardPolicy → Text → Json → Option Rule
scan_field policy key v =
    if has denied_operators_anywhere key
    then some (operator_denied key)
    else if is_regex_key key
    then inspect_regex v policy
    else if has regex_operators key
    then elim (regex_field v) [ some carrier ↦ inspect_regex carrier policy | none ↦ none ]
    else none

unfoldable mutual
  pub scan_value : MongoGuardPolicy → ℕ → Json → Option Rule
  scan_value policy zero v = some too_deep
  scan_value policy (suc room) (arr xs) = scan_items policy room xs
  scan_value policy (suc room) (obj fs) = scan_fields policy room fs
  scan_value policy (suc room) null = none
  scan_value policy (suc room) (bool b) = none
  scan_value policy (suc room) (num n) = none
  scan_value policy (suc room) (str s) = none

  pub scan_items : MongoGuardPolicy → ℕ → Items → Option Rule
  scan_items policy room nil = none
  scan_items policy room (cons x xs) = scan_value policy room x <|> scan_items policy room xs

  pub scan_fields : MongoGuardPolicy → ℕ → Fields → Option Rule
  scan_fields policy room end = none
  scan_fields policy room (field key v fs) =
      scan_field policy key v <|> (scan_value policy room v <|> scan_fields policy room fs)
