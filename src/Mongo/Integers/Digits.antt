-- ===== src/Mongo/Integers/Digits.antt =====
-- Runs of digits: how long they are, and how large their values can be.
use ask_sql.Prelude.{
  ℕ, zero, suc, ◌+◌, ◌-◌, ◌*◌, ◌^◌, ◌≤◌, ◌<◌, true, [], ◌∷◌, ◌++◌, Text, length, ◌≡◌, refl, arith,
  All, Bool-cases, inl, inr,
}
use native.Mathlib.Decide.{dec_le}
use native.Mathlib.Nat.{pow-suc, le_trans}
use ask_sql.Mongo.Integers.{is_digit, digits_of, after_digits, value_from, value, safe_int}

pub digits_of-append-after_digits : (s : Text) → digits_of s ++ after_digits s ≡ s
unfolding digits_of after_digits
digits_of-append-after_digits [] = refl
digits_of-append-after_digits (c ∷ s) = ground (arith, digits_of-append-after_digits s)

pub length-after_digits-le : (s : Text) → length (after_digits s) ≤ length s
unfolding after_digits
length-after_digits-le [] = omega arith
length-after_digits-le (c ∷ s) = ground (arith, length-after_digits-le s)

pub length-after_digits-lt :
    (c : ℕ) (s : Text) → is_digit c ≡ true → length (after_digits (c ∷ s)) ≤ length s
unfolding after_digits
length-after_digits-lt c s h = ground (arith, length-after_digits-le s)

pub digits_of-All : (s : Text) → All (λ c. is_digit c ≡ true) (digits_of s)
unfolding digits_of
digits_of-All [] = tt
digits_of-All (c ∷ s) = elim (Bool-cases (is_digit c)) [
  | inl e ↦ rw e (e, digits_of-All s)
  | inr e ↦ rw e tt
]

-- A run of `k` digits behind the value `n` stays below (n + 1) * 10 ^ k.
value_from-lt :
    (s : Text) (n : ℕ) → All (λ c. is_digit c ≡ true) s → value_from n s < (n + 1) * 10 ^ length s
unfolding value_from
value_from-lt [] n h = omega arith
value_from-lt (c ∷ s) n (d, h) =
    let step : n * 10 + (c - b'0') + 1 ≤ (n + 1) * 10 = ground arith in
    let rest = value_from-lt s (n * 10 + (c - b'0')) h in
    rw pow-suc (le_trans rest (widen (10 ^ length s) step))
  where
    widen :
        (p : ℕ)
        → n * 10 + (c - b'0') + 1 ≤ (n + 1) * 10
        → (n * 10 + (c - b'0') + 1) * p ≤ (n + 1) * (p * 10)
    widen p e = grind arith

pow_mono : (a b : ℕ) → a ≤ b → 10 ^ a ≤ 10 ^ b
pow_mono zero zero h = omega arith
pow_mono (suc a) zero h = absurd (omega arith)
pow_mono a (suc b) h = elim (dec_le a b) [
  | yes p ↦ rw pow-suc (omega (arith, pow_mono a b p))
  | no p ↦ let e : a ≡ suc b = omega arith in rw e (omega arith)
]

-- Fewer than 16 digits cannot leave the safe range, which is why the code compares longer ones only.
pub value-le_of_short :
    (s : Text) → All (λ c. is_digit c ≡ true) s → length s < 16 → value s ≤ safe_int
value-le_of_short s h short =
    omega (arith, value_from-lt s 0 h, pow_mono (length s) 15 (omega arith))

-- Digits in front of a text that begins with none are read off whole.
pub digits_of-append :
    (xs : Text) (rest : Text)
    → All (λ c. is_digit c ≡ true) xs
    → digits_of rest ≡ []
    → (digits_of (xs ++ rest) ≡ xs) × (after_digits (xs ++ rest) ≡ rest)
unfolding digits_of after_digits
digits_of-append [] [] h e = (refl, refl)
digits_of-append [] (c ∷ rest) h e = ground arith
digits_of-append (x ∷ xs) rest (d, h) e = ground (arith, digits_of-append xs rest h e)
