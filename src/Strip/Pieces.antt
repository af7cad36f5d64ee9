-- ===== src/Strip/Pieces.antt =====
-- What the scan does: it cuts the text into ordinary characters and spans, and writes each piece.
pub mod Ordinary
pub mod Mask
use ask_sql.Prelude.{
  ℕ, zero, suc, ◌≤◌, Bool, true, false, Option, none, some, List, [], ◌∷◌, ◌++◌, Text, length, take,
  length-take, ◌-◌, replicate, if◌then◌else◌, Option-cases, ◌≡◌, refl, ap, inl, inr, arith,
}
use ask_sql.Engine.{EngineKind}
use ask_sql.Strip.Spans.{Flags, Span, open_span}
use ask_sql.Strip.Scan.{
  marker, hide, last_of, consumed, scan_from, scan_flags, scan, strip_comments_and_strings,
  mask_comments_and_strings,
}
use ask_sql.Strip.Suffix.{Suffix, more, Suffix-length, take-Suffix, open_span-Suffix}

pub data Piece : Type 0 where
  shown : ℕ → Piece
  hidden : Span → Text → Piece

-- The text of the pieces, and what the two modes write for them.
abbrev pub raw : List Piece → Text
raw [] = []
raw (shown c ∷ ps) = c ∷ raw ps
raw (hidden k t ∷ ps) = t ++ raw ps

abbrev pub blanked : List Piece → Text
blanked [] = []
blanked (shown c ∷ ps) = c ∷ blanked ps
blanked (hidden k t ∷ ps) = replicate (length t) b' ' ++ blanked ps

abbrev pub stripped : List Piece → Text
stripped [] = []
stripped (shown c ∷ ps) = c ∷ stripped ps
stripped (hidden k t ∷ ps) = marker k ++ stripped ps

-- The text, behind the character `prev`, is cut into these pieces: a span wherever one opens, and
-- an ordinary character everywhere else.
pub data Cut (flags : Flags) : Option ℕ → Text → List Piece → Type 0 where
  done : {prev : Option ℕ} → Cut flags prev [] []
  visible :
      {prev : Option ℕ} {c : ℕ} {s : Text} {ps : List Piece}
      → open_span flags prev c s ≡ none
      → Cut flags (some c) s ps
      → Cut flags prev (c ∷ s) (shown c ∷ ps)
  span :
      {prev : Option ℕ} {c : ℕ} {s t rest : Text} {k : Span} {ps : List Piece}
      → open_span flags prev c s ≡ some (k, rest)
      → t ++ rest ≡ c ∷ s
      → Cut flags (last_of prev t) rest ps
      → Cut flags prev (c ∷ s) (hidden k t ∷ ps)

pub Cut-raw :
    {flags : Flags} {prev : Option ℕ} {s : Text} {ps : List Piece}
    → Cut flags prev s ps
    → raw ps ≡ s
Cut-raw done = refl
Cut-raw (visible {c} e d) = ap (◌∷◌ c) (Cut-raw d)
Cut-raw (span {t} e split d) = rw (Cut-raw d) split

-- One cut, from which both modes write.
record Written (flags : Flags) (fuel : ℕ) (prev : Option ℕ) (s : Text) : Type 0 where
  pieces : List Piece
  cut : Cut flags prev s pieces
  masks : scan_from flags true fuel prev s ≡ blanked pieces
  strips : scan_from flags false fuel prev s ≡ stripped pieces

pub length-take-Suffix : {r s : Text} → Suffix r s → length (take (consumed s r) s) ≡ consumed s r
length-take-Suffix {r} {s} h = omega (arith, length-take (length s - length r) s)

scan_from-Written :
    (flags : Flags) (fuel : ℕ) (prev : Option ℕ) (s : Text)
    → length s ≤ fuel
    → Written flags fuel prev s
unfolding scan_from
scan_from-Written flags fuel prev [] h = record {
  pieces = [];
  cut = done;
  masks = refl;
  strips = refl;
}
scan_from-Written flags zero prev (c ∷ s) h = absurd (omega arith)
scan_from-Written flags (suc fuel) prev (c ∷ s) h = elim (Option-cases (open_span flags prev c s)) [
  | inl e ↦
      let w = scan_from-Written flags fuel (some c) s (omega arith) in
      record {
        pieces = shown c ∷ w.pieces;
        cut = visible e w.cut;
        masks = rw (e, scan_from) (ap (◌∷◌ c) w.masks);
        strips = rw (e, scan_from) (ap (◌∷◌ c) w.strips);
      }
  | inr ((k, rest), e) ↦
      let suffix = open_span-Suffix flags prev c s e in
      let n = consumed (c ∷ s) rest in
      let t = take n (c ∷ s) in
      let w =
        scan_from-Written flags fuel (last_of prev t) rest (omega (arith, Suffix-length suffix)) in
      record {
        pieces = hidden k t ∷ w.pieces;
        cut = span e (take-Suffix (more {c = c} suffix)) w.cut;
        masks = rw (e, scan_from) (rw (w.masks, length-take-Suffix (more {c = c} suffix)));
        strips = rw (e, scan_from) (rw (w.strips));
      }
]

-- `stripCommentsAndStrings` and `maskCommentsAndStrings` cut the text the same way, into ordinary
-- characters and spans, a span wherever one opens. Both write the ordinary characters as they are;
-- the mask writes as many blanks as a span has characters, the other a marker for each span.
pub mask_strip_pieces :
    (sql : Text) (engine : Option EngineKind)
    → (pieces : List Piece) × Cut (scan_flags engine) none sql pieces
      × (raw pieces ≡ sql)
      × (mask_comments_and_strings sql engine ≡ blanked pieces)
      × (strip_comments_and_strings sql engine ≡ stripped pieces)
unfolding scan mask_comments_and_strings strip_comments_and_strings
mask_strip_pieces sql engine =
    let w = scan_from-Written (scan_flags engine) (length sql) none sql (omega arith) in
    (w.pieces, w.cut, Cut-raw w.cut, w.masks, w.strips)
