-- ===== src/Strip/Pieces/Ordinary.antt =====
-- What is known of a character of the text at which no span opens.
use ask_sql.Prelude.{
  ℕ, Bool, true, false, ◌&&◌, Option, none, some, [], ◌∷◌, ◌++◌, Text, ◌==◌, if◌then◌else◌,
  begins_with, is_word, starts_with, All, Member, at_head, further, Bool-cases, ◌≡◌, ◌≢◌, refl, inl,
  inr, arith,
}
use ask_sql.Strip.Spans.{
  Flags, Span, after_first, after_tag, dollar_quoted, bracketed, open_dollar, open_literal,
  open_span,
}

-- What stands behind the first dollar sign of a tag: word characters, and a dollar sign.
abbrev pub IsTag : Text → Type 0
IsTag m = (tag : Text) × (rest : Text) × All (λ c. is_word c ≡ true) tag × (m ≡ tag ++ b'$' ∷ rest)

if-none {ℓ} :
    {A : Type ℓ} (b : Bool) (x : A) (y : Option A)
    → (if b then some x else y) ≡ none
    → (b ≡ false) × (y ≡ none)
if-none true x y h = cc
if-none false x y h = (refl, h)

then-none {ℓ} :
    {A : Type ℓ} (b : Bool) (x y : Option A) → (if b then x else y) ≡ none → b ≡ true → x ≡ none
then-none true x y h e = h
then-none false x y h e = cc

bracketed-none : (o : Option Text) → bracketed o ≡ none → o ≡ none
bracketed-none none h = refl
bracketed-none (some s) h = cc

-- What an ordinary character is not.
open_literal-none :
    (flags : Flags) (prev : Option ℕ) (c : ℕ) (s : Text)
    → open_literal flags prev c s ≡ none
    → ((c == b'\'') ≡ false)
      × ((c == b'"') ≡ false)
      × ((c == b'`') ≡ false)
      × ((c == b'[') ≡ true → after_first (b']' ∷ []) s ≡ none)
unfolding open_literal
open_literal-none flags prev c s h =
    let (_, h₁) = if-none _ _ _ h in
    let (single, h₂) = if-none (c == b'\'') _ _ h₁ in
    let (double, h₃) = if-none (c == b'"') _ _ h₂ in
    let (back, h₄) = if-none (c == b'`') _ _ h₃ in
    (single, double, back, λ e. bracketed-none _ (then-none (c == b'[') _ _ h₄ e))

dollar-none :
    (o : Option Text) {f : Text → Option (Span × Text)} (y : Option (Span × Text))
    → ((r : Text) → f r ≢ none)
    → elim o [ some rest ↦ f rest | none ↦ y ] ≡ none
    → (o ≡ none) × (y ≡ none)
dollar-none none y n h = (refl, h)
dollar-none (some r) y n h = absurd (n r h)

open_dollar-none :
    (c : ℕ) (s : Text) → open_dollar c s ≡ none → c ≡ b'$' → begins_with b'$' (after_tag s) ≡ false
unfolding dollar_quoted
open_dollar-none c s h e =
    let dollar : (c == b'$') ≡ true = ground arith in
    let h' = then-none (c == b'$') (dollar_quoted s) none h dollar in
    (if-none (begins_with b'$' (after_tag s)) _ _ h').0

pub after_tag-IsTag : (m : Text) → IsTag m → begins_with b'$' (after_tag m) ≡ true
unfolding after_tag
after_tag-IsTag m (tag, rest, words, same) = rw same (go tag words)
  where
    go :
        (t : Text)
        → All (λ c. is_word c ≡ true) t
        → begins_with b'$' (after_tag (t ++ b'$' ∷ rest)) ≡ true
    go [] h = refl
    go (c ∷ t) h = let word = h.0 in rw word (go t h.1)

-- A text in which a character is not found does not have it.
after_first-none : (s : Text) → after_first (b']' ∷ []) s ≡ none → Member b']' s → ⊥
unfolding after_first starts_with
after_first-none [] h m = elim m [ ]
after_first-none (c ∷ s) h (at_head e) =
    let here : (b']' == c) ≡ true = ground arith in cc (rw here at h)
after_first-none (c ∷ s) h (further m) = elim (Bool-cases (b']' == c)) [
  | inl e ↦ cc (rw e at h)
  | inr e ↦ after_first-none s (rw e at h) m
]

-- A character of the text at which no span opens.
abbrev pub IsOrdinary : Flags → ℕ → Text → Type 0
IsOrdinary flags c s =
    (c ≢ b'\'')
    × (c ≢ b'"')
    × (c ≢ b'`')
    × (c ≡ b'#' → flags.hash_is_comment ≡ false)
    × (c ≡ b'-' → begins_with b'-' s ≡ false)
    × (c ≡ b'/' → begins_with b'*' s ≡ false)
    × (c ≡ b'$' → begins_with b'$' (after_tag s) ≡ false)
    × (c ≡ b'[' → Member b']' s → ⊥)

pub open_span-none :
    (flags : Flags) (prev : Option ℕ) (c : ℕ) (s : Text)
    → open_span flags prev c s ≡ none
    → IsOrdinary flags c s
unfolding open_span
open_span-none flags prev c s h =
    let (dash, h₁) = if-none (c == b'-' && begins_with b'-' s) _ _ h in
    let (hash, h₂) = if-none (c == b'#' && flags.hash_is_comment) _ _ h₁ in
    let (block, h₃) = if-none (c == b'/' && begins_with b'*' s) _ _ h₂ in
    let (dollar, h₄) = dollar-none (open_dollar c s) (open_literal flags prev c s) (λ r. cc) h₃ in
    let (single, double, back, bracket) = open_literal-none flags prev c s h₄ in
    (
      ground (arith, single),
      ground (arith, double),
      ground (arith, back),
      ground (arith, hash),
      ground (arith, dash),
      ground (arith, block),
      open_dollar-none c s dollar,
      λ e. let here : (c == b'[') ≡ true = ground arith in after_first-none s (bracket here),
    )
