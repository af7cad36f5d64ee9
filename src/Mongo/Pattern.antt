-- ===== src/Mongo/Pattern.antt =====
-- packages/core/src/mongo/guard.ts: `NESTED_QUANTIFIER`, the heuristic for regular expressions that
-- may backtrack without end, and `checkPattern`.
use ask_sql.Prelude.{
  ℕ, ◌≤◌, Bool, true, false, ◌&&◌, ◌||◌, Option, none, some, [], ◌∷◌, Text, length, ◌==◌,
  if◌then◌else◌, ltb, Bool-cases, ◌≡◌, ◌↔◌, inl, inr, arith, ==_iff,
}
use ask_sql.Mongo.Policy.{MongoGuardPolicy, Rule, regex_too_long, regex_unsafe}

-- `[+*]`
abbrev pub is_quantifier : ℕ → Bool
is_quantifier c = c == b'+' || c == b'*'

-- `[()]`
abbrev pub is_paren : ℕ → Bool
is_paren c = c == b'(' || c == b')'

abbrev starts_quantifier : Text → Bool
starts_quantifier [] = false
starts_quantifier (c ∷ s) = is_quantifier c

-- After the opening parenthesis: `[^()]*[+*][^()]*\)[+*]`. `seen` tells that a quantifier was read.
inside_group : Bool → Text → Bool
inside_group seen [] = false
inside_group seen (c ∷ s) =
    if c == b')'
    then seen && starts_quantifier s
    else if c == b'('
    then false
    else inside_group (seen || is_quantifier c) s

-- `NESTED_QUANTIFIER.test(pattern)`
unfoldable pub nested_quantifier : Text → Bool
unfolding inside_group
nested_quantifier [] = false
nested_quantifier (c ∷ s) = (c == b'(' && inside_group false s) || nested_quantifier s

unfoldable pub check_pattern : Text → MongoGuardPolicy → Option Rule
check_pattern pattern policy =
    if ltb policy.max_regex_pattern_length (length pattern)
    then some regex_too_long
    else if nested_quantifier pattern
    then some regex_unsafe
    else none

-- `[^()]*\)[+*]`, read from the start of the text.
pub data Closes : Text → Type 0 where
  close : {p z : ℕ} {s : Text} → p ≡ b')' → is_quantifier z ≡ true → Closes (p ∷ z ∷ s)
  skip : {c : ℕ} {s : Text} → is_paren c ≡ false → Closes s → Closes (c ∷ s)

-- `[^()]*[+*][^()]*\)[+*]`, read from the start of the text.
pub data Quantified : Text → Type 0 where
  quantified : {c : ℕ} {s : Text} → is_quantifier c ≡ true → Closes s → Quantified (c ∷ s)
  skip : {c : ℕ} {s : Text} → is_paren c ≡ false → Quantified s → Quantified (c ∷ s)

-- Somewhere a group that holds a quantifier, and no parenthesis, is itself repeated.
pub data Repeats : Text → Type 0 where
  here : {p : ℕ} {s : Text} → p ≡ b'(' → Quantified s → Repeats (p ∷ s)
  later : {c : ℕ} {s : Text} → Repeats s → Repeats (c ∷ s)

inside_group→Closes : (s : Text) → inside_group true s ≡ true → Closes s
unfolding inside_group
inside_group→Closes [] h = cc
inside_group→Closes (c ∷ []) h = ground arith
inside_group→Closes (c ∷ d ∷ s) h = elim (Bool-cases (c == b')')) [
  | inl e ↦ close ((==_iff _ _).0 e) (ground arith)
  | inr e ↦ skip (ground arith) (inside_group→Closes (d ∷ s) (ground arith))
]

inside_group→Quantified : (s : Text) → inside_group false s ≡ true → Quantified s
unfolding inside_group
inside_group→Quantified [] h = cc
inside_group→Quantified (c ∷ s) h = elim (Bool-cases (is_quantifier c)) [
  | inl e ↦ quantified e (inside_group→Closes s (ground arith))
  | inr e ↦ skip (ground arith) (inside_group→Quantified s (ground arith))
]

Closes→inside_group : {s : Text} (seen : Bool) → seen ≡ true → Closes s → inside_group seen s ≡ true
unfolding inside_group
Closes→inside_group seen e (close p q) = ground arith
Closes→inside_group seen e (skip {c} h d) =
    ground (arith, Closes→inside_group (seen || is_quantifier c) (ground arith) d)

Quantified→inside_group : {s : Text} (seen : Bool) → Quantified s → inside_group seen s ≡ true
unfolding inside_group
Quantified→inside_group seen (quantified {c} h d) =
    ground (arith, Closes→inside_group (seen || is_quantifier c) (ground arith) d)
Quantified→inside_group seen (skip {c} h g) =
    ground (arith, Quantified→inside_group (seen || is_quantifier c) g)

nested_quantifier→Repeats : (s : Text) → nested_quantifier s ≡ true → Repeats s
unfolding nested_quantifier
nested_quantifier→Repeats [] h = cc
nested_quantifier→Repeats (c ∷ s) h = elim (Bool-cases (nested_quantifier s)) [
  | inl e ↦ later (nested_quantifier→Repeats s e)
  | inr e ↦ here (ground arith) (inside_group→Quantified s (ground arith))
]

Repeats→nested_quantifier : {s : Text} → Repeats s → nested_quantifier s ≡ true
unfolding nested_quantifier
Repeats→nested_quantifier (here p g) = ground (arith, Quantified→inside_group false g)
Repeats→nested_quantifier (later d) = ground (arith, Repeats→nested_quantifier d)

-- The heuristic is the expression: it holds exactly of the patterns in which a parenthesised group
-- without inner parentheses holds `+` or `*` and is followed by `+` or `*`.
pub nested_quantifier_iff : (s : Text) → (nested_quantifier s ≡ true) ↔ Repeats s
nested_quantifier_iff s = (nested_quantifier→Repeats s, Repeats→nested_quantifier)

-- What a pattern must be to pass: short enough, and with no repeated group that holds a quantifier.
pub record IsSafePattern (policy : MongoGuardPolicy) (pattern : Text) : Type 0 where
  pub short : length pattern ≤ policy.max_regex_pattern_length
  pub no_repeats : ¬ Repeats pattern

pub check_pattern-IsSafePattern :
    (pattern : Text) (policy : MongoGuardPolicy)
    → check_pattern pattern policy ≡ none
    → IsSafePattern policy pattern
unfolding check_pattern
check_pattern-IsSafePattern pattern policy h = record {
  short = ground arith;
  no_repeats = λ d. ground (arith, Repeats→nested_quantifier d);
}

pub IsSafePattern-check_pattern :
    {pattern : Text} {policy : MongoGuardPolicy}
    → IsSafePattern policy pattern
    → check_pattern pattern policy ≡ none
unfolding check_pattern
IsSafePattern-check_pattern {pattern} safe = elim (Bool-cases (nested_quantifier pattern)) [
  | inl e ↦ absurd (safe.no_repeats (nested_quantifier→Repeats pattern e))
  | inr e ↦ rw e (ground (arith, safe.short))
]
