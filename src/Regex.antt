-- ===== src/Regex.antt =====
-- The regular expressions of JavaScript, as far as packages/core/src/guard.ts uses them: a
-- backtracking matcher with continuations, greedy repetition and capture groups.
pub mod Build
pub mod Sound
use ask_sql.Prelude.{
  ℕ, zero, suc, ◌+◌, ◌-◌, Bool, true, false, not, ◌&&◌, ◌||◌, Option, none, some, List, [], ◌∷◌,
  ◌++◌, Text, codes, length, take, ◌==◌, ltb, if◌then◌else◌, ◌<|>◌, is_space, is_decimal, is_letter,
  is_word, lower_letter,
}

-- `boundary true` is `\b` with the flags `i` and `u`, under which the long s and the Kelvin sign are
-- word characters too.
pub data Regex : Type 0 where
  empty start finish : Regex
  boundary : Bool → Regex
  unit : (ℕ → Bool) → Regex
  many : Regex → Regex
  ahead : Regex → Regex
  group : ℕ → Regex → Regex
  then_ either : Regex → Regex → Regex

-- A place in the text, and what the groups before it have captured.
pub record Place : Type 0 where
  pub before : Option ℕ
  pub rest : Text
  pub groups : List (ℕ × Text)

abbrev pub is_word_unit : Bool → ℕ → Bool
is_word_unit folds c = is_word c || (folds && (c == 0x17f || c == 0x212a))

abbrev pub word_before : Bool → Option ℕ → Bool
word_before folds none = false
word_before folds (some c) = is_word_unit folds c

abbrev pub word_after : Bool → Text → Bool
word_after folds [] = false
word_after folds (c ∷ s) = is_word_unit folds c

abbrev pub at_boundary : Bool → Place → Bool
at_boundary folds p =
    (word_before folds p.before && not (word_after folds p.rest))
    || (not (word_before folds p.before) && word_after folds p.rest)

abbrev pub is_start : Option ℕ → Bool
is_start none = true
is_start (some c) = false

abbrev pub is_nil : Text → Bool
is_nil [] = true
is_nil (c ∷ s) = false

-- What stands between two places of one text.
abbrev pub between : Place → Place → Text
between p q = take (length p.rest - length q.rest) p.rest

abbrev pub capture : ℕ → Place → Place → Place
capture i p q = record { before = q.before; rest = q.rest; groups = (i, between p q) ∷ q.groups }

-- The place behind the next code unit, if it is in the class.
abbrev pub step : (ℕ → Bool) → Place → Option Place
step class p = elim p.rest [
  | [] ↦ none
  | (c ∷ s) ↦
      if class c then some (record { before = some c; rest = s; groups = p.groups }) else none
]

abbrev pub and_then : Option Place → (Place → Option Place) → Option Place
and_then none k = none
and_then (some p) k = k p

-- Greedy repetition: each round must consume something, so as many rounds as there are code units
-- are enough.
unfoldable pub rounds :
    ((Place → Option Place) → Place → Option Place)
    → ℕ
    → (Place → Option Place)
    → Place
    → Option Place
rounds m zero k p = k p
rounds m (suc n) k p =
    m (λ q. if ltb (length q.rest) (length p.rest) then rounds m n k q else none) p <|> k p

unfoldable pub match : Regex → (Place → Option Place) → Place → Option Place
match empty k p = k p
match start k p = if is_start p.before then k p else none
match finish k p = if is_nil p.rest then k p else none
match (boundary folds) k p = if at_boundary folds p then k p else none
match (unit class) k p = and_then (step class p) k
match (many r) k p = rounds (match r) (length p.rest) k p
match (ahead r) k p = elim (match r some p) [ none ↦ none | some q ↦ k p ]
match (group i r) k p = match r (λ q. k (capture i p q)) p
match (then_ r s) k p = match r (match s k) p
match (either r s) k p = match r k p <|> match s k p

-- `exec`: the text before the first match, and the place behind it.
unfoldable pub exec_from : Regex → Option ℕ → Text → Option (Text × Place)
exec_from r before [] = elim (match r some (record { before = before; rest = []; groups = [] })) [
  | some q ↦ some ([], q)
  | none ↦ none
]
exec_from r before (c ∷ s) =
    let rest = exec_from r (some c) s in
    elim (match r some (record { before = before; rest = c ∷ s; groups = [] })) [
      | some q ↦ some ([], q)
      | none ↦ elim rest [ some (skipped, q) ↦ some (c ∷ skipped, q) | none ↦ none ]
    ]

unfoldable pub exec : Regex → Text → Option (Text × Place)
exec r s = exec_from r none s

abbrev pub is_some {ℓ} : {A : Type ℓ} → Option A → Bool
is_some none = false
is_some (some a) = true

unfoldable pub test : Regex → Text → Bool
unfolding exec
test r s = is_some (exec r s)
