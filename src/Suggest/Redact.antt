-- ===== src/Suggest/Redact.antt =====
-- packages/core/src/engine.ts: `redactValuesInError`, which keeps the values of a driver's error out of
-- a prompt.
use ask_sql.Prelude.{
  ℕ, zero, suc, ◌-◌, true, false, not, ◌||◌, List, [], ◌∷◌, ◌++◌, Text, codes, length, drop, ◌==◌,
  if◌then◌else◌, is_word,
}
use ask_sql.Regex.{Regex, finish, boundary, unit, many, group, then_, empty, test}
use ask_sql.Regex.Build.{
  word, unit_is, one_or_more, optional, spaces_or_none, digits, in_order, any_word, captured_of,
}
use ask_sql.Sql.Rewrite.{or_nothing}
use ask_sql.IdentifierCase.{Edited}
use ask_sql.IdentifierCase.Names.{replace}

-- `r{0,n}` and `r{n}`
abbrev pub at_most : ℕ → Regex → Regex
at_most zero r = empty
at_most (suc n) r = optional (then_ r (at_most n r))

abbrev pub times : ℕ → Regex → Regex
times zero r = empty
times (suc n) r = then_ r (times n r)

abbrev pub other_than : ℕ → Regex
other_than c = unit (λ d. not (d == c))

-- `"[^"]*"`
abbrev pub double_quoted : Regex
double_quoted = in_order (unit_is b'"' ∷ many (other_than b'"') ∷ unit_is b'"' ∷ [])

-- `\([^)]*\)`
abbrev pub bracketed : Regex
bracketed = in_order (unit_is b'(' ∷ many (other_than b')') ∷ unit_is b')' ∷ [])

abbrev pub words : Text → Regex
words = word false

-- The replacement `'$1$2' + new`, where a group that is not there is empty.
abbrev pub kept_then : Text → List (ℕ × Text) → Text → Text → Text → Edited
kept_then new groups before matched after =
    (or_nothing (captured_of 1 groups) ++ or_nothing (captured_of 2 groups) ++ new, true)

abbrev pub put : Text → Regex → Text → Text
put new r s = (replace r (kept_then new) s).0

abbrev pub lead : List Regex → Regex
lead rs = group 1 (in_order rs)

abbrev pub key_value : Regex
key_value =
    then_
      (lead (
        unit_is b'('
        ∷ many (unit (λ c. not (c == b'(' || c == b')')))
        ∷ unit_is b')'
        ∷ spaces_or_none
        ∷ unit_is b'='
        ∷ spaces_or_none
        ∷ []))
      bracketed

-- What stands before a quoted name.
abbrev pub names_identifier : Regex
names_identifier = in_order (
    boundary false
    ∷ any_word false (codes "unknown column") (
        codes "unknown table"
        ∷ codes "no such column"
        ∷ codes "no such table"
        ∷ codes "column"
        ∷ codes "table"
        ∷ codes "field"
        ∷ codes "near"
        ∷ codes "constraint"
        ∷ codes "index"
        ∷ [])
    ∷ spaces_or_none
    ∷ finish
    ∷ [])

abbrev pub single_quoted : Regex
single_quoted = in_order (unit_is b'\'' ∷ many (other_than b'\'') ∷ unit_is b'\'' ∷ [])

abbrev pub unless_identifier : List (ℕ × Text) → Text → Text → Text → Edited
unless_identifier groups before matched after =
    if test names_identifier (drop (length before - 40) before)
    then (matched, false)
    else (codes "'...'", true)

abbrev pub colon : List Regex
colon = unit_is b':' ∷ spaces_or_none ∷ []

abbrev pub for_type : Text → Regex
for_type before = then_ (lead (words before ∷ one_or_more (unit is_word) ∷ colon)) double_quoted

abbrev pub invalid_value : Regex
invalid_value =
    then_
      (lead (
        words (codes "invalid value")
        ∷ spaces_or_none
        ∷ optional (in_order (words (codes "for ") ∷ one_or_more (unit is_word) ∷ []))
        ∷ colon))
      double_quoted

abbrev pub unconverted : Regex
unconverted = in_order (
    group 1 (
      any_word false (codes "unable to parse")
        (codes "could not convert" ∷ codes "conversion failed for" ∷ []))
    ∷ group 2 (at_most 40 (other_than b'"'))
    ∷ double_quoted
    ∷ [])

abbrev pub date_out_of_range : Regex
date_out_of_range =
    then_ (lead (words (codes "date/time field value out of range") ∷ colon)) double_quoted

abbrev pub value_out_of_range : Regex
value_out_of_range =
    then_
      (lead (
        words (codes "value out of range")
        ∷ at_most 20 (unit (λ c. not (c == b':' || c == b'"')))
        ∷ colon))
      double_quoted

abbrev pub failing_row : Regex
failing_row = then_ (lead (words (codes "failing row contains") ∷ spaces_or_none ∷ [])) bracketed

abbrev pub oracle_value : Regex
oracle_value =
    then_
      (lead (
        optional (in_order (words (codes "ora-") ∷ digits ∷ unit_is b':' ∷ spaces_or_none ∷ []))
        ∷ any_word false (codes "invalid number")
            (codes "character to number conversion error" ∷ [])
        ∷ at_most 3 (other_than b'\n')
        ∷ colon))
      (one_or_more (other_than b'\n'))

abbrev pub long_quoted : Regex
long_quoted =
    in_order
      (unit_is b'"' ∷ times 60 (other_than b'"') ∷ many (other_than b'"') ∷ unit_is b'"' ∷ [])

abbrev pub without_values : Text → Text
without_values s = put (codes "\"...\"") (for_type (codes "invalid input value for enum ")) (
    put (codes "\"...\"") value_out_of_range (
      put (codes "\"...\"") date_out_of_range (
        put (codes "\"...\"") unconverted (
          put (codes "\"...\"") invalid_value (
            put (codes "\"...\"") (for_type (codes "out of range for type "))
              (put (codes "\"...\"") (for_type (codes "invalid input syntax for type ")) s))))))

unfoldable pub redact_values_in_error : Text → Text
redact_values_in_error detail =
    let pairs = put (codes "(...)") key_value detail in
    let names = (replace single_quoted unless_identifier pairs).0 in
    put (codes "\"...\"") long_quoted
      (put (codes "...") oracle_value (put (codes "(...)") failing_row (without_values names)))
