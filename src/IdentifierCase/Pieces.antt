-- ===== src/IdentifierCase/Pieces.antt =====
-- The loop of the rewriters cuts the statement into code and literals, and changes the code only.
use ask_sql.Prelude.{
  ℕ, zero, suc, ◌≤◌, ◌<◌, true, false, Option, none, some, List, [], ◌∷◌, ◌++◌, Text, length,
  length-drop, take, drop, Option-cases, append-nil, append_assoc, ◌≡◌, refl, sym, ap, ◌∙◌, inl,
  inr, arith,
}
use ask_sql.IdentifierCase.{Edited, ◌<+>◌, pass, reverse_onto, scan_code, rewrite_code}

-- A piece of a statement: code, or a literal or comment that is kept in its place.
pub data Piece : Type 0 where
  code kept : Text → Piece

abbrev pub piece_text : Piece → Text
piece_text (code s) = s
piece_text (kept s) = s

unfoldable pub joined : List Piece → Text
joined [] = []
joined (p ∷ ps) = piece_text p ++ joined ps

-- Nothing that is kept begins inside the code.
abbrev pub IsFree : (Text → Text → Option ℕ) → Text → Text → Text → Type 0
IsFree skip before [] rest = Unit
IsFree skip before (c ∷ s) rest =
    (skip before (c ∷ s ++ rest) ≡ none) × IsFree skip (c ∷ before) s rest

-- The pieces are those that `skip` finds: a piece is kept just where a literal begins, and is all of it.
abbrev pub IsCut : (Text → Text → Option ℕ) → Text → List Piece → Type 0
IsCut skip before [] = Unit
IsCut skip before (code s ∷ ps) =
    IsFree skip before s (joined ps) × IsCut skip (reverse_onto s before) ps
IsCut skip before (kept s ∷ ps) =
    (skip before (s ++ joined ps) ≡ some (length s)) × IsCut skip (reverse_onto s before) ps

-- The pieces with the code rewritten and the rest kept by `keep`.
unfoldable pub rewritten : (Text → Text → Edited) → (Text → Text) → List Piece → Edited
rewritten fix keep [] = ([], false)
rewritten fix keep (code s ∷ ps) = fix s (joined ps) <+> rewritten fix keep ps
rewritten fix keep (kept s ∷ ps) = (keep s, false) <+> rewritten fix keep ps

-- A skip goes forward, and not past the end.
abbrev pub IsSkip : (Text → Text → Option ℕ) → Type 0
IsSkip skip = (before s : Text) (n : ℕ) → skip before s ≡ some n → (1 ≤ n) × (n ≤ length s)

take-append-drop : (n : ℕ) (s : Text) → take n s ++ drop n s ≡ s
take-append-drop zero s = refl
take-append-drop (suc n) [] = refl
take-append-drop (suc n) (c ∷ s) = ap (◌∷◌ c) (take-append-drop n s)

length-take_within : (n : ℕ) (s : Text) → n ≤ length s → length (take n s) ≡ n
length-take_within zero s h = refl
length-take_within (suc n) [] h = absurd (omega arith)
length-take_within (suc n) (c ∷ s) h = ap suc (length-take_within n s (omega arith))

pass-reverse_onto : (n : ℕ) (before s : Text) → pass n before s ≡ reverse_onto (take n s) before
unfolding pass reverse_onto
pass-reverse_onto zero before s = refl
pass-reverse_onto (suc n) before [] = refl
pass-reverse_onto (suc n) before (c ∷ s) = pass-reverse_onto n (c ∷ before) s

reverse_onto-append : (s t : Text) → reverse_onto s t ≡ reverse_onto s [] ++ t
unfolding reverse_onto
reverse_onto-append [] t = refl
reverse_onto-append (c ∷ s) t =
    reverse_onto-append s (c ∷ t)
    ∙ sym (append_assoc (reverse_onto s []) (c ∷ []) t)
    ∙ ap (λ z. z ++ t) (sym (reverse_onto-append s (c ∷ [])))

reverse_onto_twice : (s t b : Text) → reverse_onto (reverse_onto s t) b ≡ reverse_onto t (s ++ b)
unfolding reverse_onto
reverse_onto_twice [] t b = refl
reverse_onto_twice (c ∷ s) t b = reverse_onto_twice s (c ∷ t) b

<+>_unit : (a : Edited) → (a <+> ([], false)) ≡ a
<+>_unit (s, true) = rw append-nil refl
<+>_unit (s, false) = rw append-nil refl

module _ (skip : Text → Text → Option ℕ) where
  IsFree-snoc :
      (before t : Text) (c : ℕ) (s : Text)
      → IsFree skip before t (c ∷ s)
      → skip (reverse_onto t before) (c ∷ s) ≡ none
      → IsFree skip before (t ++ (c ∷ [])) s
  unfolding reverse_onto
  IsFree-snoc before [] c s h e = (e, tt)
  IsFree-snoc before (x ∷ t) c s (h, hs) e =
      (rw (append_assoc t (c ∷ []) s) h, IsFree-snoc (x ∷ before) t c s hs e)

  module _ (is_skip : IsSkip skip) (fix : Text → Text → Edited) (keep : Text → Text) where
    -- A run of the loop as a cut, its result as a rewriting.
    abbrev Run : Text → Text → Text → Edited → Type 0
    Run before front s result =
        (ps : List Piece) × (front ++ s ≡ joined ps)
        × IsCut skip before ps
        × (result ≡ rewritten fix keep ps)

    scan_code-Run :
        (fuel : ℕ) (before code_read s : Text)
        → length s < fuel
        → IsFree skip before (reverse_onto code_read []) s
        → Run before
            (reverse_onto code_read [])
            s
            (scan_code skip fix keep fuel (code_read ++ before) code_read s)
    unfolding scan_code joined rewritten reverse_onto
    scan_code-Run zero before code_read s enough free = absurd (omega arith)
    scan_code-Run (suc fuel) before code_read [] enough free =
        let front = reverse_onto code_read [] in
        (code front ∷ [], refl, (free, tt), sym (<+>_unit (fix front [])))
    scan_code-Run (suc fuel) before code_read (c ∷ s) enough free =
        let front = reverse_onto code_read [] in
        let there : reverse_onto front before ≡ code_read ++ before =
          reverse_onto_twice code_read [] before in
        elim (Option-cases (skip (code_read ++ before) (c ∷ s))) [
          | inl e ↦
              let grown : reverse_onto code_read (c ∷ []) ≡ front ++ (c ∷ []) =
                reverse_onto-append code_read (c ∷ []) in
              let free' : IsFree skip before (reverse_onto code_read (c ∷ [])) s =
                rw grown (IsFree-snoc before front c s free (rw there e)) in
              let (ps, split, cut, same) =
                scan_code-Run fuel before (c ∷ code_read) s (omega arith) free' in
              (
                ps,
                sym (append_assoc front (c ∷ []) s) ∙ ap (λ z. z ++ s) (sym grown) ∙ split,
                cut,
                rw (e, scan_code) same,
              )
          | inr (n, e) ↦
              let (some_read, within) = is_skip (code_read ++ before) (c ∷ s) n e in
              let literal = take n (c ∷ s) in
              let behind = drop n (c ∷ s) in
              let after = pass n (code_read ++ before) (c ∷ s) in
              let left = length-drop n (c ∷ s) in
              let (ps, split, cut, same) = scan_code-Run fuel after [] behind (omega arith) tt in
              let whole : literal ++ joined ps ≡ c ∷ s =
                rw (← split) (take-append-drop n (c ∷ s)) in
              let size : length literal ≡ n = length-take_within n (c ∷ s) within in
              let passed : after ≡ reverse_onto literal (reverse_onto front before) =
                rw there (pass-reverse_onto n (code_read ++ before) (c ∷ s)) in
              (
                code front ∷ kept literal ∷ ps,
                ap (λ z. front ++ z) (sym whole),
                (rw whole free, (rw (there, whole, size) e, rw (← passed) cut)),
                rw (e, scan_code) (rw (whole, same) refl),
              )
        ]

    pub rewrite_code-Run :
        (sql : Text)
        → (ps : List Piece) × (sql ≡ joined ps)
          × IsCut skip [] ps
          × (rewrite_code skip fix keep sql ≡ rewritten fix keep ps)
    unfolding rewrite_code reverse_onto
    rewrite_code-Run sql = scan_code-Run (suc (length sql)) [] [] sql (omega arith) tt
