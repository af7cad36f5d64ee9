-- ===== src/Regex/Build.antt =====
-- The parts from which the expressions of packages/core/src/guard.ts are put together. `folds` says
-- that an expression has the flags `i` and `u`, and not only `i`.
use ask_sql.Prelude.{
  ℕ, Bool, ◌&&◌, Option, none, some, List, [], ◌∷◌, Text, ◌==◌, if◌then◌else◌, is_space, is_decimal,
  lower_letter,
}
use ask_sql.Regex.{Regex, empty, unit, many, then_, either}

abbrev pub folded : Bool → ℕ → ℕ
folded folds c =
    if folds && c == 0x17f then b's' else if folds && c == 0x212a then b'k' else lower_letter c

-- The letters of a word in lower case, compared whatever their case.
abbrev pub word : Bool → Text → Regex
word folds [] = empty
word folds (c ∷ s) = then_ (unit (λ d. folded folds d == c)) (word folds s)

abbrev pub class : Bool → (ℕ → Bool) → Regex
class folds p = unit (λ d. p (folded folds d))

abbrev pub unit_is : ℕ → Regex
unit_is c = unit (λ d. d == c)

abbrev pub one_or_more : Regex → Regex
one_or_more r = then_ r (many r)

abbrev pub optional : Regex → Regex
optional r = either r empty

abbrev pub spaces : Regex
spaces = one_or_more (unit is_space)

abbrev pub spaces_or_none : Regex
spaces_or_none = many (unit is_space)

abbrev pub digits : Regex
digits = one_or_more (unit is_decimal)

abbrev pub in_order : List Regex → Regex
in_order [] = empty
in_order (r ∷ []) = r
in_order (r ∷ q ∷ rs) = then_ r (in_order (q ∷ rs))

abbrev pub any_word : Bool → Text → List Text → Regex
any_word folds w [] = word folds w
any_word folds w (v ∷ vs) = either (word folds w) (any_word folds v vs)

abbrev pub any_of : Regex → List Regex → Regex
any_of r [] = r
any_of r (q ∷ qs) = either r (any_of q qs)

-- `m[i]`; the last capture of a group counts.
abbrev pub captured_of : ℕ → List (ℕ × Text) → Option Text
captured_of i [] = none
captured_of i ((j, t) ∷ gs) = if i == j then some t else captured_of i gs
