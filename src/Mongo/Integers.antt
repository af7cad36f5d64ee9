-- ===== src/Mongo/Integers.antt =====
-- packages/core/src/mongo/guard.ts: `hasUnsafeIntegerLiteral`, a scan of the JSON text for bare
-- integers that JSON.parse would round. The index of the code is the text that is left here. The
-- loop runs on fuel, one unit for each code unit; on an empty fuel it answers `true`.
pub mod Digits
pub mod Sound
pub mod Fraction
use ask_sql.Prelude.{
  ℕ, zero, suc, ◌+◌, ◌-◌, ◌*◌, Bool, true, false, not, ◌&&◌, ◌||◌, List, [], ◌∷◌, Text, length,
  ◌==◌, leb, ltb, if◌then◌else◌, codes, ◌≡◌, refl, drop,
}

-- `Number.MAX_SAFE_INTEGER`, that is 2 ^ 53 - 1
abbrev pub safe_int : ℕ
safe_int = 9_007_199_254_740_991

abbrev pub is_digit : ℕ → Bool
is_digit c = leb b'0' c && leb c b'9'

-- `json.slice(digitsStart, j)`: the digits that the text begins with, and the text at `j`
unfoldable pub digits_of : Text → Text
digits_of [] = []
digits_of (c ∷ s) = if is_digit c then c ∷ digits_of s else []

unfoldable pub after_digits : Text → Text
after_digits [] = []
after_digits (c ∷ s) = if is_digit c then after_digits s else c ∷ s

-- `BigInt` of digits, continued from the value of those before
unfoldable pub value_from : ℕ → Text → ℕ
value_from n [] = n
value_from n (c ∷ s) = value_from (n * 10 + (c - b'0')) s

abbrev pub value : Text → ℕ
value = value_from 0

-- `next !== '.' && next !== 'e' && next !== 'E'`
abbrev pub is_integer : Text → Bool
is_integer [] = true
is_integer (c ∷ s) = not (c == b'.') && not (c == b'e') && not (c == b'E')

-- The text at `digitsStart`, behind a minus sign if there is one.
abbrev pub digits_start : ℕ → Text → Text
digits_start c s = if c == b'-' then s else c ∷ s

-- The test on one run of digits; the sign is left out, as `-SAFE_INT` and `SAFE_INT` bound the
-- same magnitudes.
abbrev pub is_unsafe : Text → Text → Bool
is_unsafe digits next = is_integer next && leb 16 (length digits) && ltb safe_int (value digits)

unfoldable pub scan : ℕ → Bool → Text → Bool
scan fuel in_string [] = false
scan zero in_string (c ∷ s) = true
scan (suc fuel) true (c ∷ s) = elim (c == b'\\') [
  | true ↦ scan fuel true (drop 1 s)
  | false ↦ scan fuel (not (c == b'"')) s
]
scan (suc fuel) false (c ∷ s) = elim (c == b'"') [
  | true ↦ scan fuel true s
  | false ↦ elim (c == b'-' || is_digit c) [
    | true ↦ elim (is_unsafe (digits_of (digits_start c s)) (after_digits (digits_start c s))) [
      | true ↦ true
      | false ↦ scan fuel false (after_digits (digits_start c s))
    ]
    | false ↦ scan fuel false s
  ]
]

unfoldable pub has_unsafe_integer_literal : Text → Bool
unfolding scan digits_of after_digits value_from
has_unsafe_integer_literal json = scan (length json) false json
