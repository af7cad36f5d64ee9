-- ===== src/Strip/Trim/Kept.antt =====
-- What `trimTrailingNoise` leaves: the text up to its last piece that is not noise.
use ask_sql.Prelude.{
  ℕ, zero, suc, ◌+◌, ◌≤◌, Bool, true, not, ◌&&◌, ◌||◌, Option, none, some, List, [], ◌∷◌, ◌++◌,
  Text, length, length-append, take, ◌==◌, if◌then◌else◌, is_space, Bool-cases, Option-cases, ◌≡◌,
  refl, sym, ap, inl, inr, arith, append_assoc, ◌∙◌,
}
use ask_sql.Engine.{EngineKind}
use ask_sql.Strip.Spans.{Flags, open_span}
use ask_sql.Strip.Scan.{last_of, consumed}
use ask_sql.Strip.Suffix.{more, Suffix-length, take-Suffix, open_span-Suffix}
use ask_sql.Strip.Pieces.{
  Piece, shown, hidden, raw, Cut, done, visible, span, Cut-raw, length-take-Suffix,
}
use ask_sql.Strip.Trim.{is_noise, is_comment, last_real, trim_flags, trim_trailing_noise}

-- A comment, a separator or whitespace.
abbrev pub is_trailing : Piece → Bool
is_trailing (shown c) = is_noise c
is_trailing (hidden k t) = is_comment k

abbrev pub width : Piece → ℕ
width (shown c) = 1
width (hidden k t) = length t

abbrev cons_kept : Piece → List Piece → List Piece
cons_kept p [] = if is_trailing p then [] else p ∷ []
cons_kept p (q ∷ qs) = p ∷ q ∷ qs

-- The pieces without the noise at their end.
abbrev pub kept : List Piece → List Piece
kept [] = []
kept (p ∷ ps) = cons_kept p (kept ps)

measured : ℕ → ℕ → List Piece → ℕ
measured pos real [] = real
measured pos real (p ∷ ps) =
    measured (pos + width p) (if is_trailing p then real else pos + width p) ps

noise_if : (a b : Bool) (x y : ℕ) → (if not b && not a then y else x) ≡ (if a || b then x else y)
noise_if a b x y = ground arith

last_real-measured :
    (flags : Flags) (fuel : ℕ) (prev : Option ℕ) (pos real : ℕ) (s : Text)
    → length s ≤ fuel
    → (ps : List Piece) × Cut flags prev s ps
      × (last_real flags fuel prev pos real s ≡ measured pos real ps)
unfolding last_real measured
last_real-measured flags fuel prev pos real [] h = ([], done, refl)
last_real-measured flags zero prev pos real (c ∷ s) h = absurd (omega arith)
last_real-measured flags (suc fuel) prev pos real (c ∷ s) h =
    elim (Option-cases (open_span flags prev c s)) [
      | inl e ↦
          let (ps, cut, same) =
            last_real-measured flags fuel (some c) (pos + 1) (if is_noise c then real else pos + 1)
              s (omega arith) in
          (
            shown c ∷ ps,
            visible e cut,
            rw (e, last_real)
                (ap (λ r. last_real flags fuel (some c) (pos + 1) r s)
                    (noise_if (c == b';') (is_space c) real (pos + 1))
                  ∙ same),
          )
      | inr ((k, rest), e) ↦
          let suffix = open_span-Suffix flags prev c s e in
          let n = consumed (c ∷ s) rest in
          let t = take n (c ∷ s) in
          let (ps, cut, same) =
            last_real-measured flags fuel (last_of prev t) (pos + n)
              (if is_comment k then real else pos + n) rest (omega (arith, Suffix-length suffix)) in
          (
            hidden k t ∷ ps,
            span e (take-Suffix (more {c = c} suffix)) cut,
            rw (e, last_real) (rw (length-take-Suffix (more {c = c} suffix)) same),
          )
    ]

ending : ℕ → ℕ → List Piece → ℕ
ending pos real [] = real
ending pos real (q ∷ qs) = pos + length (raw (q ∷ qs))

raw-width : (p : Piece) (ps : List Piece) → length (raw (p ∷ ps)) ≡ width p + length (raw ps)
raw-width (shown c) ps = omega arith
raw-width (hidden k t) ps = length-append t (raw ps)

ending-cons_kept :
    (p : Piece) (qs : List Piece) (pos real : ℕ)
    → ending (pos + width p) (if is_trailing p then real else pos + width p) qs
      ≡ ending pos real (cons_kept p qs)
unfolding ending
ending-cons_kept p (q ∷ qs) pos real = omega (arith, raw-width p (q ∷ qs))
ending-cons_kept p [] pos real = elim (Bool-cases (is_trailing p)) [
  | inl e ↦ rw e refl
  | inr e ↦ rw e (omega (arith, raw-width p []))
]

measured-kept : (ps : List Piece) (pos real : ℕ) → measured pos real ps ≡ ending pos real (kept ps)
unfolding measured ending
measured-kept [] pos real = refl
measured-kept (p ∷ ps) pos real =
    measured-kept ps (pos + width p) (if is_trailing p then real else pos + width p)
    ∙ ending-cons_kept p (kept ps) pos real

ending-length : (ps : List Piece) → ending 0 0 ps ≡ length (raw ps)
unfolding ending
ending-length [] = refl
ending-length (p ∷ ps) = omega arith

abbrev pub all_trailing : List Piece → Bool
all_trailing [] = true
all_trailing (p ∷ ps) = is_trailing p && all_trailing ps

-- Nothing is left, or what is left ends in a piece that is not noise.
abbrev pub ends_real : List Piece → Bool
ends_real [] = true
ends_real (p ∷ []) = not (is_trailing p)
ends_real (p ∷ q ∷ ps) = ends_real (q ∷ ps)

-- A split of the pieces before the noise at their end.
abbrev pub SplitEnd : List Piece → List Piece → List Piece → Type 0
SplitEnd ps front back =
    (ps ≡ front ++ back) × (all_trailing back ≡ true) × (ends_real front ≡ true)

cons_kept-SplitEnd :
    (p : Piece) (front back : List Piece)
    → all_trailing back ≡ true
    → ends_real front ≡ true
    → (rest : List Piece) × SplitEnd (p ∷ front ++ back) (cons_kept p front) rest
cons_kept-SplitEnd p (q ∷ qs) back h k = (back, (refl, h, k))
cons_kept-SplitEnd p [] back h k = elim (Bool-cases (is_trailing p)) [
  | inl e ↦ (p ∷ back, rw e (refl, h, refl))
  | inr e ↦ (back, rw e (refl, h, ap not e))
]

kept-SplitEnd : (ps : List Piece) → (back : List Piece) × SplitEnd ps (kept ps) back
kept-SplitEnd [] = ([], (refl, refl, refl))
kept-SplitEnd (p ∷ ps) =
    let (back, (split, h, k)) = kept-SplitEnd ps in
    let (rest, (same, h', k')) = cons_kept-SplitEnd p (kept ps) back h k in
    (rest, (ap (◌∷◌ p) split ∙ same, h', k'))

take-append : (s t : Text) → take (length s) (s ++ t) ≡ s
take-append [] t = refl
take-append (c ∷ s) t = ap (◌∷◌ c) (take-append s t)

raw-append : (ps qs : List Piece) → raw (ps ++ qs) ≡ raw ps ++ raw qs
raw-append [] qs = refl
raw-append (shown c ∷ ps) qs = ap (◌∷◌ c) (raw-append ps qs)
raw-append (hidden k t ∷ ps) qs = rw (raw-append ps qs, append_assoc)

-- `trimTrailingNoise` cuts the text into characters and spans, like the scan but with the flags of
-- its own, and leaves the text of the pieces up to the last that is neither a comment nor a
-- separator nor whitespace: a literal is left whole, and all that is cut off is noise.
pub trim_trailing_noise-SplitEnd :
    (sql : Text) (engine : Option EngineKind)
    → (pieces front back : List Piece) × Cut (trim_flags engine) none sql pieces
      × SplitEnd pieces front back
      × (sql ≡ raw front ++ raw back)
      × (trim_trailing_noise sql engine ≡ raw front)
unfolding trim_trailing_noise
trim_trailing_noise-SplitEnd sql engine =
    let (ps, cut, same) =
      last_real-measured (trim_flags engine) (length sql) none 0 0 sql (omega arith) in
    let (back, (split, h, k)) = kept-SplitEnd ps in
    let at_end = same ∙ measured-kept ps 0 0 ∙ ending-length (kept ps) in
    let whole_text = sym (Cut-raw cut) ∙ ap raw split ∙ raw-append (kept ps) back in
    let front = raw (kept ps) in
    let cut_off =
      ap (λ n. take n sql) at_end
      ∙ ap (take (length front)) whole_text
      ∙ take-append front (raw back) in
    (ps, kept ps, back, cut, (split, h, k), whole_text, cut_off)
