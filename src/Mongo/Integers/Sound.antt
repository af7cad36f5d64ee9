-- ===== src/Mongo/Integers/Sound.antt =====
-- What `hasUnsafeIntegerLiteral` decides: whether a bare integer outside string literals is unsafe.
use ask_sql.Prelude.{
  ℕ, zero, suc, ◌≤◌, ◌<◌, Bool, true, false, ◌||◌, [], ◌∷◌, Text, length, ◌==◌, ◌≡◌, ◌≢◌, refl,
  arith, Bool-cases, inl, inr, ◌↔◌, drop, length-drop, ==_iff,
}
use native.Mathlib.Decide.{dec_lt}
use ask_sql.Mongo.Integers.{
  is_digit, digits_of, after_digits, value, safe_int, is_integer, digits_start, is_unsafe, scan,
  has_unsafe_integer_literal,
}
use ask_sql.Mongo.Integers.Digits.{
  digits_of-All, value-le_of_short, length-after_digits-le, length-after_digits-lt,
}

-- What a number may begin with.
abbrev starts_number : ℕ → Bool
starts_number c = c == b'-' || is_digit c

-- Reading the text, inside a string literal or outside, meets the run `digits` with `next` behind it.
pub data Literal (digits next : Text) : Bool → Text → Type 0 where
  escape :
      {c : ℕ} {s : Text}
      → c ≡ b'\\'
      → Literal digits next true (drop 1 s)
      → Literal digits next true (c ∷ s)
  close :
      {c : ℕ} {s : Text} → c ≡ b'"' → Literal digits next false s → Literal digits next true (c ∷ s)
  inner :
      {c : ℕ} {s : Text}
      → c ≢ b'\\'
      → c ≢ b'"'
      → Literal digits next true s
      → Literal digits next true (c ∷ s)
  start :
      {c : ℕ} {s : Text} → c ≡ b'"' → Literal digits next true s → Literal digits next false (c ∷ s)
  here :
      {c : ℕ} {s : Text}
      → starts_number c ≡ true
      → digits_of (digits_start c s) ≡ digits
      → after_digits (digits_start c s) ≡ next
      → Literal digits next false (c ∷ s)
  behind :
      {c : ℕ} {s : Text}
      → starts_number c ≡ true
      → Literal digits next false (after_digits (digits_start c s))
      → Literal digits next false (c ∷ s)
  outer :
      {c : ℕ} {s : Text}
      → c ≢ b'"'
      → starts_number c ≡ false
      → Literal digits next false s
      → Literal digits next false (c ∷ s)

-- The reference: an integer that is not a fraction or an exponent is in the safe range.
abbrev pub Safe : Text → Text → Type 0
Safe digits next = is_integer next ≡ true → value digits ≤ safe_int

length-rest-le :
    (c : ℕ) (s : Text)
    → starts_number c ≡ true
    → length (after_digits (digits_start c s)) ≤ length s
length-rest-le c s h = elim (Bool-cases (c == b'-')) [
  | inl e ↦ rw e (length-after_digits-le s)
  | inr e ↦ rw e (length-after_digits-lt c s (ground arith))
]

is_unsafe-Safe :
    (t : Text)
    → is_unsafe (digits_of t) (after_digits t) ≡ false
    → Safe (digits_of t) (after_digits t)
is_unsafe-Safe t h i = elim (dec_lt (length (digits_of t)) 16) [
  | yes short ↦ value-le_of_short (digits_of t) (digits_of-All t) short
  | no long ↦ ground arith
]

-- A step at a number, split on its run of digits.
scan-number :
    (fuel c : ℕ) (s : Text)
    → starts_number c ≡ true
    → scan (suc fuel) false (c ∷ s) ≡ false
    → (is_unsafe (digits_of (digits_start c s)) (after_digits (digits_start c s)) ≡ false)
      × (scan fuel false (after_digits (digits_start c s)) ≡ false)
unfolding scan
scan-number fuel c s e h =
    let quote : (c == b'"') ≡ false = ground arith in
    elim (Bool-cases (is_unsafe (digits_of (digits_start c s)) (after_digits (digits_start c s)))) [
      | inl u ↦ cc (rw (quote, e, u, scan) at h)
      | inr u ↦ (u, rw (quote, e, u, scan) at h)
    ]

scan-Safe :
    (fuel : ℕ) (st : Bool) (s : Text) {digits next : Text}
    → Literal digits next st s
    → scan fuel st s ≡ false
    → Safe digits next
unfolding scan
scan-Safe fuel st [] l h = elim l [ ]
scan-Safe zero st (c ∷ s) l h = cc
scan-Safe (suc fuel) true (c ∷ s) (escape e l) h = scan-Safe fuel true (drop 1 s) l (ground arith)
scan-Safe (suc fuel) true (c ∷ s) (close e l) h = scan-Safe fuel false s l (ground arith)
scan-Safe (suc fuel) true (c ∷ s) (inner n m l) h = scan-Safe fuel true s l (ground arith)
scan-Safe (suc fuel) false (c ∷ s) (start e l) h = scan-Safe fuel true s l (ground arith)
scan-Safe (suc fuel) false (c ∷ s) (here e d n) h =
    rw (← d, ← n) (is_unsafe-Safe (digits_start c s) (scan-number fuel c s e h).0)
scan-Safe (suc fuel) false (c ∷ s) (behind e l) h =
    scan-Safe fuel false _ l (scan-number fuel c s e h).1
scan-Safe (suc fuel) false (c ∷ s) (outer n e l) h = scan-Safe fuel false s l (ground arith)

-- A bare integer that the text holds, and that is out of the safe range.
record Unsafe (st : Bool) (s : Text) : Type 0 where
  digits : Text
  next : Text
  literal : Literal digits next st s
  integer : is_integer next ≡ true
  large : safe_int < value digits

lift :
    {st st' : Bool} {s s' : Text}
    → ((d n : Text) → Literal d n st s → Literal d n st' s')
    → Unsafe st s
    → Unsafe st' s'
lift step u = record {
  digits = u.digits;
  next = u.next;
  literal = step u.digits u.next u.literal;
  integer = u.integer;
  large = u.large;
}

number-Unsafe :
    (c : ℕ) (s : Text)
    → starts_number c ≡ true
    → is_unsafe (digits_of (digits_start c s)) (after_digits (digits_start c s)) ≡ true
    → Unsafe false (c ∷ s)
number-Unsafe c s e h = record {
  digits = digits_of (digits_start c s);
  next = after_digits (digits_start c s);
  literal = here e refl refl;
  integer = ground arith;
  large = ground arith;
}

scan-Unsafe :
    (fuel : ℕ) (st : Bool) (s : Text) → length s ≤ fuel → scan fuel st s ≡ true → Unsafe st s
unfolding scan
scan-Unsafe fuel st [] l h = cc
scan-Unsafe zero st (c ∷ s) l h = absurd (omega arith)
scan-Unsafe (suc fuel) true (c ∷ s) l h = elim (Bool-cases (c == b'\\')) [
  | inl e ↦
      lift (λ d n. escape ((==_iff _ _).0 e))
        (scan-Unsafe fuel true (drop 1 s) (omega (arith, length-drop 1 s)) (ground arith))
  | inr e ↦ elim (Bool-cases (c == b'"')) [
    | inl q ↦
        lift (λ d n. close ((==_iff _ _).0 q))
          (scan-Unsafe fuel false s (omega arith) (ground arith))
    | inr q ↦
        lift (λ d n. inner (ground arith) (ground arith))
          (scan-Unsafe fuel true s (omega arith) (ground arith))
  ]
]
scan-Unsafe (suc fuel) false (c ∷ s) l h = elim (Bool-cases (c == b'"')) [
  | inl q ↦
      lift (λ d n. start ((==_iff _ _).0 q)) (scan-Unsafe fuel true s (omega arith) (ground arith))
  | inr q ↦ elim (Bool-cases (starts_number c)) [
    | inr e ↦
        lift (λ d n. outer (ground arith) e) (scan-Unsafe fuel false s (omega arith) (ground arith))
    | inl e ↦
        elim (Bool-cases
          (is_unsafe (digits_of (digits_start c s)) (after_digits (digits_start c s)))) [
            | inl u ↦ number-Unsafe c s e u
            | inr u ↦
                lift (λ d n. behind e)
                  (scan-Unsafe fuel false (after_digits (digits_start c s))
                    (omega (arith, length-rest-le c s e)) (ground arith))
          ]
  ]
]

-- The scan answers false exactly when every integer outside string literals (a run of digits not
-- followed by `.`, `e` or `E`), however many digits it has, is at most 2 ^ 53 - 1 in magnitude. Its
-- fuel is always enough.
pub has_unsafe_integer_literal_iff :
    (json : Text)
    → (has_unsafe_integer_literal json ≡ false)
      ↔ ((digits next : Text) → Literal digits next false json → Safe digits next)
unfolding has_unsafe_integer_literal
has_unsafe_integer_literal_iff json = (
  λ h d n l. scan-Safe (length json) false json l h,
  λ all. safe all (scan (length json) false json) refl,
)
  where
    safe :
        ((digits next : Text) → Literal digits next false json → Safe digits next)
        → (b : Bool) → scan (length json) false json ≡ b
        → scan (length json) false json ≡ false
    safe all false e = e
    safe all true e =
        let u = scan-Unsafe (length json) false json (omega arith) e in
        absurd (omega (arith, all u.digits u.next u.literal u.integer, u.large))
