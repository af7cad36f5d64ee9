-- ===== src/Mongo/Integers/Fraction.antt =====
-- A fraction with many digits is taken for an integer: the loop goes on behind the decimal point and
-- reads the digits there as a run of their own.
use ask_sql.Prelude.{
  ℕ, ◌<◌, true, false, [], ◌∷◌, ◌++◌, Text, All, Bool-cases, ◌≡◌, refl, inl, inr, arith,
}
use ask_sql.Mongo.Integers.{
  is_digit, digits_of, digits_start, value, safe_int, is_integer, has_unsafe_integer_literal,
}
use ask_sql.Mongo.Integers.Digits.{digits_of-append}
use ask_sql.Mongo.Integers.Sound.{Literal, here, behind, outer, has_unsafe_integer_literal_iff}

digits_start_digit : (c : ℕ) (s : Text) → is_digit c ≡ true → digits_start c s ≡ c ∷ s
digits_start_digit c s h = ground arith

digits_of-point : (s : Text) → digits_of (b'.' ∷ s) ≡ []
digits_of-point s = unfold digits_of in refl

-- A text `w.f`, with digits `w` and `f`, is refused as an unsafe integer when the digits of the
-- fraction alone, read as an integer, exceed 2 ^ 53 - 1, however small the number is.
pub has_unsafe_integer_literal-fraction :
    (w : ℕ) (ws : Text) (f : ℕ) (fs rest : Text)
    → All (λ c. is_digit c ≡ true) (w ∷ ws)
    → All (λ c. is_digit c ≡ true) (f ∷ fs)
    → digits_of rest ≡ []
    → is_integer rest ≡ true
    → safe_int < value (f ∷ fs)
    → has_unsafe_integer_literal ((w ∷ ws) ++ (b'.' ∷ ((f ∷ fs) ++ rest))) ≡ true
has_unsafe_integer_literal-fraction w ws f fs rest hw hf e i large =
    elim (Bool-cases (has_unsafe_integer_literal text)) [
      | inl h ↦ h
      | inr h ↦
          absurd (
            omega (arith, (has_unsafe_integer_literal_iff text).0 h (f ∷ fs) rest literal i, large))
    ]
  where
    text : Text
    text = (w ∷ ws) ++ (b'.' ∷ ((f ∷ fs) ++ rest))

    fraction : Literal (f ∷ fs) rest false ((f ∷ fs) ++ rest)
    fraction =
        let split = digits_of-append (f ∷ fs) rest hf e in
        let start = digits_start_digit f (fs ++ rest) hf.0 in
        here (ground (arith, hf.0)) (rw start split.0) (rw start split.1)

    point : Literal (f ∷ fs) rest false (b'.' ∷ ((f ∷ fs) ++ rest))
    point = outer (ground arith) (ground arith) fraction

    literal : Literal (f ∷ fs) rest false text
    literal = behind (ground (arith, hw.0)) (
        rw (digits_start_digit w (ws ++ (b'.' ∷ ((f ∷ fs) ++ rest))) hw.0) (
          rw ((digits_of-append (w ∷ ws) (b'.' ∷ ((f ∷ fs) ++ rest)) hw (digits_of-point _)).1)
            point))
