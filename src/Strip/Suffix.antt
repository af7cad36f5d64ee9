-- ===== src/Strip/Suffix.antt =====
-- Every span ends within the text: what is left behind it is a suffix of what it began in.
use ask_sql.Prelude.{
  starts_with, ℕ, zero, suc, ◌-◌, ◌≤◌, Bool, true, false, ◌&&◌, ◌||◌, Option, none, some, [], ◌∷◌,
  ◌++◌, Text, length, take, drop, ◌==◌, if◌then◌else◌, is_word, begins_with, Bool-cases, ◌≡◌, refl,
  ap, inl, inr, arith,
}
use ask_sql.Strip.Spans.{
  Flags, Span, comment, literal, double_quoted, backticked, after_line, after_block, after_literal,
  after_backtick, after_first, after_tag, tag_of, dollar_quoted, bracketed, or_end, open_dollar,
  open_literal, open_span,
}
use ask_sql.Strip.Scan.{consumed}

pub data Suffix (r : Text) : Text → Type 0 where
  whole : Suffix r r
  more : {c : ℕ} {s : Text} → Suffix r s → Suffix r (c ∷ s)

pub Suffix-length : {r s : Text} → Suffix r s → length r ≤ length s
Suffix-length whole = omega arith
Suffix-length (more h) = omega (arith, Suffix-length h)

pub Suffix-trans : {q r : Text} {s : Text} → Suffix q r → Suffix r s → Suffix q s
Suffix-trans h whole = h
Suffix-trans h (more k) = more (Suffix-trans h k)

-- What was consumed, and what is left, are the text.
pub take-Suffix : {r s : Text} → Suffix r s → take (consumed s r) s ++ r ≡ s
take-Suffix {r} whole = let e : length r - length r ≡ 0 = omega arith in rw e
take-Suffix {r} (more {c} {s} h) =
    let e : suc (length s) - length r ≡ suc (length s - length r) =
      omega (arith, Suffix-length h) in
    rw e (ap (◌∷◌ c) (take-Suffix h))

pub Suffix-nil : (s : Text) → Suffix [] s
Suffix-nil [] = whole
Suffix-nil (c ∷ s) = more (Suffix-nil s)

pub Suffix-drop : (n : ℕ) (s : Text) → Suffix (drop n s) s
Suffix-drop zero s = whole
Suffix-drop (suc n) [] = whole
Suffix-drop (suc n) (c ∷ s) = more (Suffix-drop n s)

after_line-Suffix : (s : Text) → Suffix (after_line s) s
unfolding after_line
after_line-Suffix [] = whole
after_line-Suffix (c ∷ s) = elim (Bool-cases (c == b'\n' || c == b'\r')) [
  | inl e ↦ rw e whole
  | inr e ↦ rw e (more (after_line-Suffix s))
]

after_block-Suffix : (depth : ℕ) (s : Text) → Suffix (after_block depth s) s
unfolding after_block
after_block-Suffix zero s = whole
after_block-Suffix (suc depth) [] = whole
after_block-Suffix (suc depth) (c ∷ []) = more whole
after_block-Suffix (suc depth) (c ∷ d ∷ s) = elim (Bool-cases (c == b'/' && d == b'*')) [
  | inl e ↦ rw (e, after_block) (more (more (after_block-Suffix (suc (suc depth)) s)))
  | inr e ↦ elim (Bool-cases (c == b'*' && d == b'/')) [
    | inl f ↦ rw (e, f, after_block) (more (more (after_block-Suffix depth s)))
    | inr f ↦ rw (e, f, after_block) (more (after_block-Suffix (suc depth) (d ∷ s)))
  ]
]

after_literal-Suffix : (q : ℕ) (b : Bool) (s : Text) → Suffix (after_literal q b s) s
unfolding after_literal
after_literal-Suffix q b [] = whole
after_literal-Suffix q b (c ∷ []) = more whole
after_literal-Suffix q b (c ∷ d ∷ s) = elim (Bool-cases (b && c == b'\\')) [
  | inl e ↦ rw (e, after_literal) (more (more (after_literal-Suffix q b s)))
  | inr e ↦ elim (Bool-cases (c == q && d == q)) [
    | inl f ↦ rw (e, f, after_literal) (more (more (after_literal-Suffix q b s)))
    | inr f ↦ elim (Bool-cases (c == q)) [
      | inl g ↦ rw (e, f, g, after_literal) (more whole)
      | inr g ↦ rw (e, f, g, after_literal) (more (after_literal-Suffix q b (d ∷ s)))
    ]
  ]
]

after_backtick-Suffix : (s : Text) → Suffix (after_backtick s) s
unfolding after_backtick
after_backtick-Suffix [] = whole
after_backtick-Suffix (c ∷ s) = elim (Bool-cases (c == b'`')) [
  | inl e ↦ rw e (more whole)
  | inr e ↦ rw e (more (after_backtick-Suffix s))
]

after_first-Suffix : (tag s : Text) {r : Text} → after_first tag s ≡ some r → Suffix r s
unfolding after_first
after_first-Suffix tag [] {r} h = elim (Bool-cases (starts_with tag [])) [
  | inl e ↦ let p : [] ≡ r = cc (rw e at h) in rw (← p) whole
  | inr e ↦ cc (rw e at h)
]
after_first-Suffix tag (c ∷ s) {r} h = elim (Bool-cases (starts_with tag (c ∷ s))) [
  | inl e ↦
      let p : drop (length tag) (c ∷ s) ≡ r = cc (rw e at h) in
      rw (← p) (Suffix-drop (length tag) (c ∷ s))
  | inr e ↦ more (after_first-Suffix tag s (rw e at h))
]

after_tag-Suffix : (s : Text) → Suffix (after_tag s) s
unfolding after_tag
after_tag-Suffix [] = whole
after_tag-Suffix (c ∷ s) = elim (Bool-cases (is_word c)) [
  | inl e ↦ rw e (more (after_tag-Suffix s))
  | inr e ↦ rw e whole
]

or_end-Suffix :
    (o : Option Text) (s : Text) → ((r : Text) → o ≡ some r → Suffix r s) → Suffix (or_end o) s
or_end-Suffix none s h = Suffix-nil s
or_end-Suffix (some r) s h = h r refl

dollar_quoted-Suffix : (s : Text) {r : Text} → dollar_quoted s ≡ some r → Suffix r s
unfolding dollar_quoted
dollar_quoted-Suffix s {r} h = elim (Bool-cases (begins_with b'$' (after_tag s))) [
  | inr e ↦ cc (rw e at h)
  | inl e ↦
      let tag = b'$' ∷ (tag_of s ++ b'$' ∷ []) in
      let p : or_end (after_first tag (drop 1 (after_tag s))) ≡ r = cc (rw e at h) in
      rw (← p) (
        Suffix-trans
          (or_end-Suffix (after_first tag (drop 1 (after_tag s))) _
            (λ q k. after_first-Suffix tag _ k))
          (Suffix-trans (Suffix-drop 1 (after_tag s)) (after_tag-Suffix s)))
]

-- What an opening test leaves behind its span.
abbrev Leaves : Text → Option (Span × Text) → Type 0
Leaves s o = (k : Span) (r : Text) → o ≡ some (k, r) → Suffix r s

Leaves-if :
    {s : Text} (b : Bool) (x y : Option (Span × Text))
    → Leaves s x
    → Leaves s y
    → Leaves s (if b then x else y)
Leaves-if true x y hx hy = hx
Leaves-if false x y hx hy = hy

Leaves-some : {s q : Text} (k : Span) → Suffix q s → Leaves s (some (k, q))
Leaves-some {q} k h k' r e = let p : q ≡ r = cc in rw (← p) h

Leaves-none : {s : Text} → Leaves s none
Leaves-none k r e = cc

Leaves-bracketed :
    {s : Text} (o : Option Text) → ((r : Text) → o ≡ some r → Suffix r s) → Leaves s (bracketed o)
Leaves-bracketed none h = Leaves-none
Leaves-bracketed (some q) h = Leaves-some literal (h q refl)

open_literal-Leaves :
    (flags : Flags) (prev : Option ℕ) (c : ℕ) (s : Text) → Leaves s (open_literal flags prev c s)
unfolding open_literal
open_literal-Leaves flags prev c s =
    Leaves-if _ _ _
      (Leaves-some literal
        (Suffix-trans (after_literal-Suffix b'\'' true (drop 1 s)) (Suffix-drop 1 s)))
      (Leaves-if _ _ _ (Leaves-some literal (after_literal-Suffix b'\'' flags.backslash_escapes s))
        (Leaves-if _ _ _ (Leaves-some double_quoted (after_literal-Suffix b'"' false s)) (
          Leaves-if _ _ _ (Leaves-some backticked (after_backtick-Suffix s)) (
            Leaves-if _ _ _ (Leaves-bracketed _ (λ r h. after_first-Suffix (b']' ∷ []) s h))
              Leaves-none))))

open_dollar-Suffix : (c : ℕ) (s : Text) {r : Text} → open_dollar c s ≡ some r → Suffix r s
open_dollar-Suffix c s h = elim (Bool-cases (c == b'$')) [
  | inl e ↦ dollar_quoted-Suffix s (rw e at h)
  | inr e ↦ cc (rw e at h)
]

Leaves-dollar :
    (s : Text) (o : Option Text) (y : Option (Span × Text))
    → ((r : Text) → o ≡ some r → Suffix r s)
    → Leaves s y
    → Leaves s (elim o [ some rest ↦ some (literal, rest) | none ↦ y ])
Leaves-dollar s none y ho hy = hy
Leaves-dollar s (some q) y ho hy = Leaves-some literal (ho q refl)

open_span-Leaves :
    (flags : Flags) (prev : Option ℕ) (c : ℕ) (s : Text) → Leaves s (open_span flags prev c s)
unfolding open_span
open_span-Leaves flags prev c s =
    Leaves-if (c == b'-' && begins_with b'-' s) _ _ (Leaves-some comment (after_line-Suffix s)) (
      Leaves-if (c == b'#' && flags.hash_is_comment) _ _ (Leaves-some comment (after_line-Suffix s))
        (Leaves-if (c == b'/' && begins_with b'*' s) _ _
          (Leaves-some comment (Suffix-trans (after_block-Suffix 1 (drop 1 s)) (Suffix-drop 1 s)))
          (Leaves-dollar s (open_dollar c s) _ (λ q h. open_dollar-Suffix c s h)
            (open_literal-Leaves flags prev c s))))

-- A span that is opened leaves a suffix of the text behind its first character.
pub open_span-Suffix :
    (flags : Flags) (prev : Option ℕ) (c : ℕ) (s : Text) {k : Span} {r : Text}
    → open_span flags prev c s ≡ some (k, r)
    → Suffix r s
open_span-Suffix flags prev c s {k} {r} = open_span-Leaves flags prev c s k r
