-- ===== src/Connections/Address/RoundTrip.antt =====
-- `ipv4Octets` reads every spelling of an address back as its octets.
use ask_sql.Prelude.{
  ℕ, suc, ◌+◌, ◌*◌, ◌≤◌, ◌<◌, Bool, true, false, not, some, List, [], ◌∷◌, ◌++◌, Text, ltb, ◌==◌,
  ==_iff, &&_true, is_decimal, Bool-cases, ◌||◌, ◌⊎◌, ◌≡◌, refl, inl, inr, ap, arith, length,
}
use ask_sql.Connections.Address.{
  is_hex, is_octal, every, is_hex_literal, is_octal_literal, is_decimal_literal, parse_int,
  part_value, part_values, split, pop, exceeds_octet, octets_below, octets_of, ipv4_octets,
}
use ask_sql.Connections.Address.Spelling.{
  IsDigit, figure, small, capital, IsNumeral, single, more, Spells, in_hexadecimal, in_octal,
  in_decimal, Address, last, dot, IsNumeral-every, parse_int-IsNumeral,
}

IsDigit-is_decimal : (c d : ℕ) → IsDigit 10 c d → is_decimal c ≡ true
IsDigit-is_decimal c d (figure e ten fits) = ground arith
IsDigit-is_decimal c d (small e fits) = absurd (omega arith)
IsDigit-is_decimal c d (capital e fits) = absurd (omega arith)

IsDigit-is_octal : (c d : ℕ) → IsDigit 8 c d → is_octal c ≡ true
IsDigit-is_octal c d (figure e ten fits) = ground arith
IsDigit-is_octal c d (small e fits) = absurd (omega arith)
IsDigit-is_octal c d (capital e fits) = absurd (omega arith)

IsDigit-is_hex : (c d : ℕ) → IsDigit 16 c d → is_hex c ≡ true
IsDigit-is_hex c d (figure e ten fits) = ground arith
IsDigit-is_hex c d (small e fits) = ground arith
IsDigit-is_hex c d (capital e fits) = ground arith

is_hex_literal-octal :
    (c : ℕ) (s : Text) → is_octal c ≡ true → is_hex_literal (b'0' ∷ c ∷ s) ≡ false
unfolding is_hex_literal
is_hex_literal-octal c [] h = refl
is_hex_literal-octal c (d ∷ s) h = ground arith

is_hex_literal-decimal : (c : ℕ) (s : Text) → (c == b'0') ≡ false → is_hex_literal (c ∷ s) ≡ false
unfolding is_hex_literal
is_hex_literal-decimal c [] h = refl
is_hex_literal-decimal c (x ∷ []) h = refl
is_hex_literal-decimal c (x ∷ d ∷ s) h = rw h refl

is_octal_literal-decimal :
    (c : ℕ) (s : Text) → (c == b'0') ≡ false → is_octal_literal (c ∷ s) ≡ false
unfolding is_octal_literal
is_octal_literal-decimal c [] h = refl
is_octal_literal-decimal c (x ∷ s) h = rw h refl

part_value-hexadecimal :
    (x d : ℕ) (t : Text)
    → (x == b'x' || x == b'X') ≡ true
    → every is_hex (d ∷ t) ≡ true
    → part_value (b'0' ∷ x ∷ d ∷ t) ≡ some (parse_int 16 0 (d ∷ t))
unfolding part_value is_hex_literal
part_value-hexadecimal x d t m h = rw (m, h) refl

part_value-octal :
    (d : ℕ) (t : Text)
    → every is_octal (d ∷ t) ≡ true
    → part_value (b'0' ∷ d ∷ t) ≡ some (parse_int 8 0 (d ∷ t))
unfolding part_value is_octal_literal every
part_value-octal d t h =
    let (a, _) = &&_true (is_octal d) (every is_octal t) h in
    rw (is_hex_literal-octal d t a, h) refl

part_value-decimal :
    (d : ℕ) (t : Text)
    → every is_decimal (d ∷ t) ≡ true
    → (d ≡ b'0' → t ≡ [])
    → part_value (d ∷ t) ≡ some (parse_int 10 0 (d ∷ t))
unfolding part_value is_decimal_literal
part_value-decimal d t h alone = elim (Bool-cases (d == b'0')) [
  | inr other ↦ rw (is_hex_literal-decimal d t other, is_octal_literal-decimal d t other, h) refl
  | inl zero_digit ↦
      let e = alone ((==_iff d b'0').0 zero_digit) in
      rw e (unfold is_hex_literal is_octal_literal in rw (rw e at h) refl)
]

marked : (x : ℕ) → (x ≡ b'x') ⊎ (x ≡ b'X') → (x == b'x' || x == b'X') ≡ true
marked x (inl e) = ground arith
marked x (inr e) = ground arith

-- A numeral has a first digit.
IsNumeral-cons : {base n : ℕ} {s : Text} → IsNumeral base s n → (c : ℕ) × (t : Text) × (s ≡ c ∷ t)
IsNumeral-cons (single {c} h) = (c, [], refl)
IsNumeral-cons (more {c} {s = s} h rest) = (c, s, refl)

part_value-Spells : {w : Text} {n : ℕ} → Spells w n → part_value w ≡ some n
part_value-Spells (in_hexadecimal {x} {n} {s} mark h) =
    let (c, t, split) = IsNumeral-cons h in
    let all = IsNumeral-every is_hex IsDigit-is_hex h in
    let back = parse_int-IsNumeral (omega arith) h in
    rw split (
      rw (part_value-hexadecimal x c t (marked x mark) (rw split at all))
        (ap some (rw split at back)))
part_value-Spells (in_octal {n} {s} h) =
    let (c, t, split) = IsNumeral-cons h in
    let all = IsNumeral-every is_octal IsDigit-is_octal h in
    let back = parse_int-IsNumeral (omega arith) h in
    rw split (rw (part_value-octal c t (rw split at all)) (ap some (rw split at back)))
part_value-Spells (in_decimal {c} {n} {s} h alone) =
    let all = IsNumeral-every is_decimal IsDigit-is_decimal h in
    rw (part_value-decimal c s all alone) (ap some (parse_int-IsNumeral (omega arith) h))

abbrev pub is_not_dot : ℕ → Bool
is_not_dot c = not (c == b'.')

split-append :
    (w s : Text) → every is_not_dot w ≡ true → split b'.' (w ++ b'.' ∷ s) ≡ w ∷ split b'.' s
unfolding split every
split-append [] s h = refl
split-append (c ∷ w) s h =
    let (a, b) = &&_true (is_not_dot c) (every is_not_dot w) h in
    let other : (c == b'.') ≡ false = ground arith in rw (other, split-append w s b) refl

split_one : (w : Text) → every is_not_dot w ≡ true → split b'.' w ≡ w ∷ []
unfolding split every
split_one [] h = refl
split_one (c ∷ w) h =
    let (a, b) = &&_true (is_not_dot c) (every is_not_dot w) h in
    let other : (c == b'.') ≡ false = ground arith in rw (other, split_one w b) refl

IsDigit-not_dot : (base c d : ℕ) → base ≤ 16 → IsDigit base c d → is_not_dot c ≡ true
IsDigit-not_dot base c d sixteen (figure e ten fits) = ground arith
IsDigit-not_dot base c d sixteen (small e fits) = ground arith
IsDigit-not_dot base c d sixteen (capital e fits) = ground arith

IsNumeral-not_dot :
    {base n : ℕ} {s : Text} → base ≤ 16 → IsNumeral base s n → every is_not_dot s ≡ true
IsNumeral-not_dot {base} sixteen h =
    IsNumeral-every is_not_dot (λ c d. IsDigit-not_dot base c d sixteen) h

Spells-not_dot : {w : Text} {n : ℕ} → Spells w n → every is_not_dot w ≡ true
unfolding every
Spells-not_dot (in_hexadecimal {x} mark h) =
    let other : is_not_dot x ≡ true = mark_not_dot x mark in
    rw (other, IsNumeral-not_dot (omega arith) h) refl
  where
    mark_not_dot : (x : ℕ) → (x ≡ b'x') ⊎ (x ≡ b'X') → is_not_dot x ≡ true
    mark_not_dot x (inl e) = ground arith
    mark_not_dot x (inr e) = ground arith
Spells-not_dot (in_octal h) = IsNumeral-not_dot (omega arith) h
Spells-not_dot (in_decimal h alone) = IsNumeral-not_dot (omega arith) h

part_values-Address : {s : Text} {ns : List ℕ} → Address s ns → part_values (split b'.' s) ≡ some ns
unfolding part_values
part_values-Address (last {w} h) =
    rw (split_one w (Spells-not_dot h), part_values, part_value-Spells h) refl
part_values-Address (dot {w} {s} h rest) =
    rw
      (
        split-append w s (Spells-not_dot h),
        part_values,
        part_value-Spells h,
        part_values-Address rest,
      )
      refl

length-Address : {s : Text} {ns : List ℕ} → Address s ns → length (split b'.' s) ≡ length ns
length-Address (last {w} h) = rw (split_one w (Spells-not_dot h)) refl
length-Address (dot {w} {s} h rest) =
    rw (split-append w s (Spells-not_dot h)) (ap suc (length-Address rest))

ipv4_octets-Address :
    {s : Text} {ns : List ℕ} → Address s ns → length ns ≤ 4 → ipv4_octets s ≡ octets_of ns
unfolding ipv4_octets
ipv4_octets-Address {ns} h short =
    let few : ltb 4 (length ns) ≡ false = ground arith in
    rw (length-Address h, few, part_values-Address h) refl

-- The ways in which the octets of an address are grouped into numbers: the last number stands for
-- all octets that no other number names.
pub data Groups (a b c d : ℕ) : List ℕ → Type 0 where
  four : Groups a b c d (a ∷ b ∷ c ∷ d ∷ [])
  three : Groups a b c d (a ∷ b ∷ (c * 256 + d) ∷ [])
  two : Groups a b c d (a ∷ ((b * 256 + c) * 256 + d) ∷ [])
  one : Groups a b c d ((((a * 256 + b) * 256 + c) * 256 + d) ∷ [])

octets_of-Groups :
    {a b c d : ℕ} {ns : List ℕ}
    → Groups a b c d ns
    → a < 256
    → b < 256
    → c < 256
    → d < 256
    → octets_of ns ≡ some (a ∷ b ∷ c ∷ d ∷ [])
unfolding octets_of pop exceeds_octet octets_below
octets_of-Groups four ha hb hc hd = ground arith
octets_of-Groups three ha hb hc hd = ground arith
octets_of-Groups two ha hb hc hd = ground arith
octets_of-Groups one ha hb hc hd = ground arith

length-Groups : {a b c d : ℕ} {ns : List ℕ} → Groups a b c d ns → length ns ≤ 4
length-Groups four = omega arith
length-Groups three = omega arith
length-Groups two = omega arith
length-Groups one = omega arith

-- Every spelling of the address a.b.c.d is read back as its four octets: one to four numbers with dots
-- between them, the last one standing for all octets that are left, and each number decimal without a
-- zero in front, hexadecimal behind 0x or 0X, or octal behind a zero, whatever the others are; zeros in
-- front of a hexadecimal or octal number and letters of either case are allowed.
pub ipv4_octets-Groups :
    {a b c d : ℕ} {s : Text} {ns : List ℕ}
    → Address s ns
    → Groups a b c d ns
    → a < 256
    → b < 256
    → c < 256
    → d < 256
    → ipv4_octets s ≡ some (a ∷ b ∷ c ∷ d ∷ [])
ipv4_octets-Groups h g ha hb hc hd =
    rw (ipv4_octets-Address h (length-Groups g)) (octets_of-Groups g ha hb hc hd)
