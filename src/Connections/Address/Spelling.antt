-- ===== src/Connections/Address/Spelling.antt =====
-- The spellings of an IPv4 literal: one to four numbers, each decimal, hexadecimal or octal.
use ask_sql.Prelude.{
  ℕ, suc, ◌+◌, ◌*◌, ◌^◌, ◌<◌, ◌≤◌, Bool, true, List, [], ◌∷◌, ◌++◌, Text, length, &&_true,
  to_lower_case, lower_unit, append_assoc, ◌≡◌, ◌⊎◌, refl, sym, inl, inr, ap, ◌∙◌, arith,
}
use mathlib.Core.Path
use native.Mathlib.Nat.{pow-zero, pow-suc}
use ask_sql.Connections.Address.{every, digit_value, parse_int}

-- A digit of a base, with its value: a figure, or a letter of either case.
pub data IsDigit (base : ℕ) : ℕ → ℕ → Type 0 where
  figure : (d : ℕ) → d < 10 → d < base → IsDigit base (d + b'0') d
  small : (d : ℕ) → d + 10 < base → IsDigit base (d + b'a') (d + 10)
  capital : (d : ℕ) → d + 10 < base → IsDigit base (d + b'A') (d + 10)

-- One or more digits, with the number that they stand for.
pub data IsNumeral (base : ℕ) : Text → ℕ → Type 0 where
  single : {c d : ℕ} → IsDigit base c d → IsNumeral base (c ∷ []) d
  more :
      {c d m : ℕ} {s : Text}
      → IsDigit base c d
      → IsNumeral base s m
      → IsNumeral base (c ∷ s) (d * base ^ length s + m)

-- A spelling of a number: hexadecimal behind 0x or 0X, octal behind a zero, or decimal, without a zero
-- in front.
pub data Spells : Text → ℕ → Type 0 where
  in_hexadecimal :
      {x n : ℕ} {s : Text} → (x ≡ b'x') ⊎ (x ≡ b'X') → IsNumeral 16 s n → Spells (b'0' ∷ x ∷ s) n
  in_octal : {n : ℕ} {s : Text} → IsNumeral 8 s n → Spells (b'0' ∷ s) n
  in_decimal :
      {c n : ℕ} {s : Text} → IsNumeral 10 (c ∷ s) n → (c ≡ b'0' → s ≡ []) → Spells (c ∷ s) n

-- The numbers of an address, spelled with a dot between two of them.
pub data Address : Text → List ℕ → Type 0 where
  last : {w : Text} {n : ℕ} → Spells w n → Address w (n ∷ [])
  dot :
      {w s : Text} {n : ℕ} {ns : List ℕ}
      → Spells w n
      → Address s ns
      → Address (w ++ b'.' ∷ s) (n ∷ ns)

pub every-append :
    (p : ℕ → Bool) (s t : Text) → every p s ≡ true → every p t ≡ true → every p (s ++ t) ≡ true
unfolding every
every-append p [] t h k = k
every-append p (c ∷ s) t h k =
    let (a, b) = &&_true (p c) (every p s) h in rw (a, every-append p s t b k)

-- Every digit is in a class that holds the digits of the base.
pub IsNumeral-every :
    (p : ℕ → Bool) {base n : ℕ} {s : Text}
    → ((c d : ℕ) → IsDigit base c d → p c ≡ true)
    → IsNumeral base s n
    → every p s ≡ true
unfolding every
IsNumeral-every p ok (single h) = let fits = ok _ _ h in rw fits refl
IsNumeral-every p ok (more h rest) =
    let fits = ok _ _ h in rw (fits, IsNumeral-every p ok rest) refl

digit_value-IsDigit : {base c d : ℕ} → base ≤ 16 → IsDigit base c d → digit_value c ≡ d
unfolding digit_value
digit_value-IsDigit sixteen (figure d ten fits) = ground arith
digit_value-IsDigit sixteen (small d fits) = ground arith
digit_value-IsDigit sixteen (capital d fits) = ground arith

shift : (k base d p m : ℕ) → (k * base + d) * p + m ≡ k * (p * base) + (d * p + m)
shift k base d p m = grind arith

shift_one : (k base : ℕ) → k * base ^ 1 ≡ k * base
shift_one k base = let none_left = pow-zero base in rw (pow-suc base 0, none_left) (omega arith)

parse_int-from :
    {base n : ℕ} {s : Text} (k : ℕ)
    → base ≤ 16
    → IsNumeral base s n
    → parse_int base k s ≡ k * base ^ length s + n
unfolding parse_int
parse_int-from {base} k sixteen (single {c} {d} h) =
    rw (digit_value-IsDigit sixteen h, shift_one k base) refl
parse_int-from {base} k sixteen (more {c} {d} {m} {s} h rest) =
    let here = digit_value-IsDigit sixteen h in
    let there = parse_int-from (k * base + d) sixteen rest in
    rw (here, there, pow-suc base (length s)) (shift k base d (base ^ length s) m)

-- `parseInt` gives the number that the digits stand for.
pub parse_int-IsNumeral :
    {base n : ℕ} {s : Text} → base ≤ 16 → IsNumeral base s n → parse_int base 0 s ≡ n
parse_int-IsNumeral sixteen h = let all = parse_int-from 0 sixteen h in omega (arith, all)

to_lower_case-append : (s t : Text) → to_lower_case (s ++ t) ≡ to_lower_case s ++ to_lower_case t
unfolding to_lower_case
to_lower_case-append [] t = refl
to_lower_case-append (c ∷ s) t =
    ap (λ u. lower_unit c ++ u) (to_lower_case-append s t)
    ∙ sym (append_assoc (lower_unit c) (to_lower_case s) (to_lower_case t))

-- In lower case a digit is one code unit, a digit of the same value.
lower_unit-IsDigit :
    {base c d : ℕ}
    → base ≤ 16
    → IsDigit base c d
    → (e : ℕ) × (lower_unit c ≡ e ∷ []) × IsDigit base e d
lower_unit-IsDigit sixteen (figure d ten fits) = (d + b'0', ground arith, figure d ten fits)
lower_unit-IsDigit sixteen (small d fits) = (d + b'a', ground arith, small d fits)
lower_unit-IsDigit sixteen (capital d fits) = (d + b'a', ground arith, small d fits)

-- In lower case a numeral is one of the same number and length.
abbrev IsLowered : ℕ → Text → ℕ → Type 0
IsLowered base s n = IsNumeral base (to_lower_case s) n × (length (to_lower_case s) ≡ length s)

to_lower_case-IsLowered :
    {base n : ℕ} {s : Text} → base ≤ 16 → IsNumeral base s n → IsLowered base s n
unfolding to_lower_case
to_lower_case-IsLowered sixteen (single h) =
    let (e, one, lowered) = lower_unit-IsDigit sixteen h in rw one (single lowered, refl)
to_lower_case-IsLowered {base} sixteen (more {c} {d} {m} {s} h rest) =
    let (e, one, lowered) = lower_unit-IsDigit sixteen h in
    let (numeral, same) = to_lower_case-IsLowered sixteen rest in
    let value : d * base ^ length (to_lower_case s) + m ≡ d * base ^ length s + m = rw same refl in
    rw one
      (Path.subst (IsNumeral base (e ∷ to_lower_case s)) value (more lowered numeral), ap suc same)

decimal_figure : {c d : ℕ} → IsDigit 10 c d → (b'0' ≤ c) × (c ≤ b'9')
decimal_figure (figure d ten fits) = omega arith
decimal_figure (small d fits) = absurd (omega arith)
decimal_figure (capital d fits) = absurd (omega arith)

decimal_digit : {c : ℕ} {s : Text} {n : ℕ} → IsNumeral 10 (c ∷ s) n → (b'0' ≤ c) × (c ≤ b'9')
decimal_digit (single h) = decimal_figure h
decimal_digit (more h rest) = decimal_figure h

Spells-to_lower_case : {w : Text} {n : ℕ} → Spells w n → Spells (to_lower_case w) n
unfolding to_lower_case
Spells-to_lower_case (in_hexadecimal {x} (inl small_mark) h) =
    rw small_mark (in_hexadecimal (inl refl) (to_lower_case-IsLowered (omega arith) h).0)
Spells-to_lower_case (in_hexadecimal {x} (inr capital_mark) h) =
    rw capital_mark (in_hexadecimal (inl refl) (to_lower_case-IsLowered (omega arith) h).0)
Spells-to_lower_case (in_octal h) = in_octal (to_lower_case-IsLowered (omega arith) h).0
Spells-to_lower_case (in_decimal {c} {n} {s} h alone) =
    let lowered = (to_lower_case-IsLowered (omega arith) h).0 in
    let figure_first = decimal_digit h in
    let one : lower_unit c ≡ c ∷ [] = ground arith in in_lowered one (rw one at lowered)
  where
    in_lowered :
        lower_unit c ≡ c ∷ []
        → IsNumeral 10 (c ∷ to_lower_case s) n
        → Spells (lower_unit c ++ to_lower_case s) n
    in_lowered one h = rw one (in_decimal h (λ e. rw (alone e) refl))

-- In lower case the spelling of an address is one of the same numbers.
pub Address-to_lower_case : {s : Text} {ns : List ℕ} → Address s ns → Address (to_lower_case s) ns
unfolding to_lower_case
Address-to_lower_case (last h) = last (Spells-to_lower_case h)
Address-to_lower_case (dot {w} {s} {n} {ns} h rest) =
    Path.subst (λ t. Address t (n ∷ ns)) (sym (to_lower_case-append w (b'.' ∷ s)))
      (dot (Spells-to_lower_case h) (Address-to_lower_case rest))
