-- ===== src/IdentifierCase.antt =====
-- packages/core/src/identifier-case.ts: where literals and comments lie, and the loop that rewrites
-- what stands between them. An index into the text is a pair of what stands before it, the nearest
-- first, and what stands behind it.
pub mod Names
pub mod Skip
pub mod Pieces
pub mod Kept
mod Tests
use ask_sql.Prelude.{
  ℕ, zero, suc, ◌+◌, ◌-◌, Bool, true, false, not, ◌&&◌, ◌||◌, Option, none, some, List, [], ◌∷◌,
  ◌++◌, Text, codes, length, take, drop, replicate, text_eq, if◌then◌else◌, ltb, leb, ◌==◌,
  starts_with, to_lower_case, is_letter, is_decimal, is_word,
}

-- `s.indexOf(t)`
unfoldable pub index_of : Text → Text → Option ℕ
index_of t [] = if starts_with t [] then some 0 else none
index_of t (c ∷ s) =
    let rest = index_of t s in
    if starts_with t (c ∷ s) then some 0 else elim rest [ none ↦ none | some i ↦ some (suc i) ]

-- The length up to the first place of `t` at or behind `from`, or that of the whole text.
unfoldable pub up_to : ℕ → Text → Text → Option ℕ
up_to from t s = elim (index_of t (drop from s)) [ none ↦ none | some i ↦ some (from + i) ]

abbrev pub or_all : Option ℕ → ℕ → Text → ℕ
or_all none behind s = length s
or_all (some i) behind s = i + behind

-- The rest of `$tag$`, from the tag on.
unfoldable pub tag_end : Text → Option ℕ
tag_end [] = none
tag_end (c ∷ s) =
    let rest = tag_end s in
    if c == b'$'
    then some 1
    else if is_word c
    then elim rest [ none ↦ none | some n ↦ some (suc n) ]
    else none

-- `/^\$[A-Za-z_][\w]*\$|^\$\$/`: the length of the opening tag.
unfoldable pub dollar_tag : Text → Option ℕ
dollar_tag (c ∷ d ∷ s) =
    if c == b'$'
    then (if d == b'$'
        then some 2
        else if is_letter d || d == b'_'
        then elim (tag_end s) [ none ↦ none | some n ↦ some (2 + n) ]
        else none)
    else none
dollar_tag _ = none

-- `/\bE$/i` on the two characters before the quote
abbrev pub is_escape_prefix : Text → Bool
is_escape_prefix [] = false
is_escape_prefix (c ∷ []) = c == b'E' || c == b'e'
is_escape_prefix (c ∷ d ∷ s) = (c == b'E' || c == b'e') && not (is_word d)

-- What a literal takes behind its opening quote.
unfoldable pub literal_rest : Bool → ℕ → Text → ℕ
literal_rest escaped quote [] = 0
literal_rest escaped quote (c ∷ []) = 1
literal_rest escaped quote (c ∷ d ∷ s) =
    let two_on = suc (suc (literal_rest escaped quote s)) in
    let one_on = suc (literal_rest escaped quote (d ∷ s)) in
    if escaped && c == b'\\'
    then two_on
    else if c == quote
    then (if d == quote then two_on else 1)
    else one_on

abbrev pub literal_length : Bool → Text → Text → ℕ
literal_length backslash_escapes before [] = 0
literal_length backslash_escapes before (quote ∷ s) =
    suc (literal_rest (backslash_escapes || is_escape_prefix before) quote s)

unfoldable pub is_line_comment : Text → Bool
is_line_comment (c ∷ d ∷ s) = c == b'-' && d == b'-'
is_line_comment _ = false

unfoldable pub is_block_comment : Text → Bool
is_block_comment (c ∷ d ∷ s) = c == b'/' && d == b'*'
is_block_comment _ = false

abbrev pub opens_literal : Bool → Text → Bool
opens_literal double_quote_is_literal [] = false
opens_literal double_quote_is_literal (c ∷ s) = c == b'\'' || (c == b'"' && double_quote_is_literal)

-- `skipTo`: how much a literal or comment takes that begins here; none is -1.
unfoldable pub skip_to : Bool → Bool → Text → Text → Option ℕ
skip_to double_quote_is_literal backslash_escapes before s = elim (dollar_tag s) [
  | some n ↦ some (or_all (up_to n (take n s) s) n s)
  | none ↦
      if is_line_comment s
      then some (or_all (up_to 0 (10 ∷ []) s) 0 s)
      else if is_block_comment s
      then some (or_all (up_to 2 (codes "*/") s) 2 s)
      else if opens_literal double_quote_is_literal s
      then some (literal_length backslash_escapes before s)
      else none
]

-- The reversed text before the place that is `n` further on.
unfoldable pub pass : ℕ → Text → Text → Text
pass zero before s = before
pass (suc n) before [] = before
pass (suc n) before (c ∷ s) = pass n (c ∷ before) s

unfoldable pub reverse_onto : Text → Text → Text
reverse_onto [] s = s
reverse_onto (c ∷ t) s = reverse_onto t (c ∷ s)

-- A text, and whether it differs from what was there.
abbrev pub Edited : Type 0
Edited = Text × Bool

infixr 66 ◌<+>◌
abbrev pub ◌<+>◌ : Edited → Edited → Edited
a <+> b = (a.0 ++ b.0, a.1 || b.1)

-- The loop of the rewriters: `code` holds the part of the current piece that is read, reversed.
-- `fix` gets a piece of code and the rest of the statement behind it, and `keep` a literal.
unfoldable pub scan_code :
    (Text → Text → Option ℕ)
    → (Text → Text → Edited)
    → (Text → Text)
    → ℕ
    → Text
    → Text
    → Text
    → Edited
scan_code skip fix keep zero before code s = fix (reverse_onto code []) s <+> (s, false)
scan_code skip fix keep (suc fuel) before code [] = fix (reverse_onto code []) []
scan_code skip fix keep (suc fuel) before code (c ∷ s) = elim (skip before (c ∷ s)) [
  | some n ↦
      fix (reverse_onto code []) (c ∷ s)
      <+> (keep (take n (c ∷ s)), false)
      <+> scan_code skip fix keep fuel (pass n before (c ∷ s)) [] (drop n (c ∷ s))
  | none ↦ scan_code skip fix keep fuel (c ∷ before) (c ∷ code) s
]

unfoldable pub rewrite_code :
    (Text → Text → Option ℕ) → (Text → Text → Edited) → (Text → Text) → Text → Edited
rewrite_code skip fix keep sql = scan_code skip fix keep (suc (length sql)) [] [] sql

-- `changed ? out : null`
abbrev pub if_changed : Edited → Option Text
if_changed e = if e.1 then some e.0 else none

abbrev pub blanks : Text → Text
blanks literal = replicate (length literal) b' '

unfoldable pub without_literals_and_comments : Text → Text
without_literals_and_comments sql =
    (rewrite_code (skip_to false false) (λ code behind. (code, false)) blanks sql).0

-- `hasUnterminatedLiteral`, in and out of a literal.
unfoldable pub unterminated_from : ℕ → Bool → Bool → Text → Bool
unterminated_from zero backslash_escapes inside s = inside
unterminated_from (suc fuel) backslash_escapes inside [] = inside
unterminated_from (suc fuel) backslash_escapes true (c ∷ s) =
    elim (backslash_escapes && c == b'\\') [
      | true ↦ unterminated_from fuel backslash_escapes true (drop 1 s)
      | false ↦ elim (c == b'\'') [
        | true ↦ elim (starts_with (b'\'' ∷ []) s) [
          | true ↦ unterminated_from fuel backslash_escapes true (drop 1 s)
          | false ↦ unterminated_from fuel backslash_escapes false s
        ]
        | false ↦ unterminated_from fuel backslash_escapes true s
      ]
    ]
unterminated_from (suc fuel) backslash_escapes false (c ∷ s) = elim (dollar_tag (c ∷ s)) [
  | some n ↦
      unterminated_from fuel backslash_escapes false
        (drop (or_all (up_to n (take n (c ∷ s)) (c ∷ s)) n (c ∷ s)) (c ∷ s))
  | none ↦ elim (is_line_comment (c ∷ s)) [
    | true ↦
        unterminated_from fuel backslash_escapes false
          (drop (or_all (up_to 0 (10 ∷ []) (c ∷ s)) 0 (c ∷ s)) (c ∷ s))
    | false ↦ elim (is_block_comment (c ∷ s)) [
      | true ↦
          unterminated_from fuel backslash_escapes false
            (drop (or_all (up_to 2 (codes "*/") (c ∷ s)) 2 (c ∷ s)) (c ∷ s))
      | false ↦ elim (c == b'\'') [
        | true ↦ unterminated_from fuel backslash_escapes true s
        | false ↦ unterminated_from fuel backslash_escapes false s
      ]
    ]
  ]
]

abbrev pub has_unterminated_literal : Text → Bool → Bool
has_unterminated_literal sql backslash_escapes =
    unterminated_from (suc (length sql)) backslash_escapes false sql
