-- ===== src/Strip/Pieces/Mask.antt =====
-- The masked text keeps every offset, and nothing in it can open a literal or a comment.
use ask_sql.Prelude.{
  ℕ, zero, suc, false, Option, List, [], ◌∷◌, ◌++◌, Text, length, replicate, ◌==◌, begins_with,
  is_word, Member, at_head, further, Member-append_right, Bool-cases, ◌≡◌, ◌≢◌, refl, ap, ◌⊎◌, inl,
  inr, arith,
}
use mathlib.Core.Path
use ask_sql.Engine.{EngineKind}
use ask_sql.Strip.Spans.{Flags, after_tag}
use ask_sql.Strip.Scan.{scan_flags, mask_comments_and_strings}
use ask_sql.Strip.Suffix.{Suffix-length, open_span-Suffix}
use ask_sql.Strip.Pieces.Ordinary.{IsTag, after_tag-IsTag, open_span-none}
use ask_sql.Strip.Pieces.{
  Piece, shown, hidden, raw, blanked, Cut, done, visible, span, Cut-raw, mask_strip_pieces,
}

-- Character by character, the mask holds the text's own character or a blank.
abbrev pub Aligned : Text → Text → Type 0
Aligned [] [] = Unit
Aligned (m ∷ ms) (c ∷ cs) = ((m ≡ c) ⊎ (m ≡ b' ')) × Aligned ms cs
Aligned _ _ = ⊥

Aligned-replicate :
    (t : Text) (ms cs : Text) → Aligned ms cs → Aligned (replicate (length t) b' ' ++ ms) (t ++ cs)
Aligned-replicate [] ms cs h = h
Aligned-replicate (c ∷ t) ms cs h = (inr refl, Aligned-replicate t ms cs h)

blanked-Aligned : (ps : List Piece) → Aligned (blanked ps) (raw ps)
blanked-Aligned [] = tt
blanked-Aligned (shown c ∷ ps) = (inl refl, blanked-Aligned ps)
blanked-Aligned (hidden k t ∷ ps) = Aligned-replicate t (blanked ps) (raw ps) (blanked-Aligned ps)

Aligned-length : (ms cs : Text) → Aligned ms cs → length ms ≡ length cs
Aligned-length [] [] h = refl
Aligned-length (m ∷ ms) (c ∷ cs) h = ap suc (Aligned-length ms cs h.1)
Aligned-length [] (c ∷ cs) h = absurd h
Aligned-length (m ∷ ms) [] h = absurd h

-- The mask is as long as the text, and holds at each offset the text's own character or a blank.
pub mask_comments_and_strings-Aligned :
    (sql : Text) (engine : Option EngineKind)
    → (length (mask_comments_and_strings sql engine) ≡ length sql)
      × Aligned (mask_comments_and_strings sql engine) sql
mask_comments_and_strings-Aligned sql engine =
    let (ps, cut, same, masks, _) = mask_strip_pieces sql engine in
    let aligned = blanked-Aligned ps in
    rw masks (
      Path.subst (λ t. (length (blanked ps) ≡ length t) × Aligned (blanked ps) t) same
        (Aligned-length _ _ aligned, aligned))

-- A character that opens no quoted text and, with what follows, no dollar-quoted text, no bracketed
-- name and no comment.
abbrev pub Plain : Flags → ℕ → Text → Type 0
Plain flags c m =
    (c ≢ b'\'')
    × (c ≢ b'"')
    × (c ≢ b'`')
    × (c ≡ b'#' → flags.hash_is_comment ≡ false)
    × (c ≡ b'-' → begins_with b'-' m ≡ false)
    × (c ≡ b'/' → begins_with b'*' m ≡ false)
    × (c ≡ b'$' → IsTag m → ⊥)
    × (c ≡ b'[' → Member b']' m → ⊥)

abbrev pub IsInert : Flags → Text → Type 0
IsInert flags [] = Unit
IsInert flags (c ∷ m) = Plain flags c m × IsInert flags m

-- Where the text does not begin with `d`, its mask does not, since a span leaves blanks.
blanked-begins_with :
    (flags : Flags) (d : ℕ) {prev : Option ℕ} {s : Text} {ps : List Piece}
    → (b' ' == d) ≡ false
    → Cut flags prev s ps
    → begins_with d s ≡ false
    → begins_with d (blanked ps) ≡ false
blanked-begins_with flags d blank done h = refl
blanked-begins_with flags d blank (visible e cut) h = h
blanked-begins_with flags d blank (span {t = []} e split cut) h =
    absurd (omega (arith, ap length split, Suffix-length (open_span-Suffix flags _ _ _ e)))
blanked-begins_with flags d blank (span {t = x ∷ t} e split cut) h = blank

-- The mask goes on a tag no further than the text does.
blanked-after_tag :
    (flags : Flags) {prev : Option ℕ} {s : Text} {ps : List Piece}
    → Cut flags prev s ps
    → begins_with b'$' (after_tag s) ≡ false
    → begins_with b'$' (after_tag (blanked ps)) ≡ false
unfolding after_tag
blanked-after_tag flags done h = refl
blanked-after_tag flags (visible {c} e cut) h = elim (Bool-cases (is_word c)) [
  | inl w ↦ rw w (blanked-after_tag flags cut (rw w at h))
  | inr w ↦ rw w (rw w at h)
]
blanked-after_tag flags (span {t = []} e split cut) h =
    absurd (omega (arith, ap length split, Suffix-length (open_span-Suffix flags _ _ _ e)))
blanked-after_tag flags (span {t = x ∷ t} e split cut) h = refl

Member-replicate :
    (d n : ℕ) (m : Text) → (b' ' == d) ≡ false → Member d (replicate n b' ' ++ m) → Member d m
Member-replicate d zero m blank h = h
Member-replicate d (suc n) m blank (at_head e) = absurd (ground arith)
Member-replicate d (suc n) m blank (further h) = Member-replicate d n m blank h

-- The mask has no character that the text has not, except blanks.
blanked-Member :
    (d : ℕ) (ps : List Piece) → (b' ' == d) ≡ false → Member d (blanked ps) → Member d (raw ps)
blanked-Member d [] blank m = elim m [ ]
blanked-Member d (shown c ∷ ps) blank (at_head e) = at_head e
blanked-Member d (shown c ∷ ps) blank (further m) = further (blanked-Member d ps blank m)
blanked-Member d (hidden k t ∷ ps) blank m =
    Member-append_right t
      (blanked-Member d ps blank (Member-replicate d (length t) (blanked ps) blank m))

replicate-IsInert :
    (flags : Flags) (n : ℕ) (m : Text) → IsInert flags m → IsInert flags (replicate n b' ' ++ m)
replicate-IsInert flags zero m h = h
replicate-IsInert flags (suc n) m h = (
  (
    omega arith,
    omega arith,
    omega arith,
    λ e. absurd (omega arith),
    λ e. absurd (omega arith),
    λ e. absurd (omega arith),
    λ e. absurd (omega arith),
    λ e. absurd (omega arith),
  ),
  replicate-IsInert flags n m h,
)

blanked-IsInert :
    (flags : Flags) {prev : Option ℕ} {s : Text} {ps : List Piece}
    → Cut flags prev s ps
    → IsInert flags (blanked ps)
blanked-IsInert flags done = tt
blanked-IsInert flags (visible {c} {ps = ps} e cut) =
    let (single, double, back, hash, dash, block, dollar, bracket) = open_span-none flags _ c _ e in
    (
      (
        single,
        double,
        back,
        hash,
        λ i. blanked-begins_with flags b'-' refl cut (dash i),
        λ i. blanked-begins_with flags b'*' refl cut (block i),
        λ i tag.
            let ends = after_tag-IsTag _ tag in
            let goes_on = blanked-after_tag flags cut (dollar i) in cc,
        λ i m. bracket i (Path.subst (Member b']') (Cut-raw cut) (blanked-Member b']' ps refl m)),
      ),
      blanked-IsInert flags cut,
    )
blanked-IsInert flags (span {t} e split cut) =
    replicate-IsInert flags (length t) _ (blanked-IsInert flags cut)

-- Nothing in the masked text opens a quoted text, a bracketed name or a comment of the engine: it has no
-- quote and no backtick, no `$` that begins a dollar tag (word characters and a second `$`), no `[` with
-- a `]` behind it, no `#` where that opens a comment, no `-` before a `-` and no `/` before a `*`.
pub mask_comments_and_strings-IsInert :
    (sql : Text) (engine : Option EngineKind)
    → IsInert (scan_flags engine) (mask_comments_and_strings sql engine)
mask_comments_and_strings-IsInert sql engine =
    let (ps, cut, _, masks, _) = mask_strip_pieces sql engine in
    rw masks (blanked-IsInert (scan_flags engine) cut)
