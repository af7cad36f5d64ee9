-- ===== src/Strip/Scan.antt =====
-- packages/core/src/strip.ts: `scan` with its two modes, `hasMultipleStatements` and
-- `trimTrailingNoise`.
use ask_sql.Prelude.{
  ℕ, zero, suc, ◌-◌, Bool, true, false, Option, none, some, [], ◌∷◌, ◌++◌, Text, codes, length,
  take, replicate, if◌then◌else◌,
}
use ask_sql.Engine.{EngineKind}
use ask_sql.Strip.Spans.{
  Flags, Span, comment, literal, double_quoted, backticked, hash_is_comment_of,
  backslash_escapes_of, has_e_strings_of, open_span,
}

-- `out.push(preserveLength ? ' '.repeat(Math.min(i, n) - start) : text)`
abbrev pub marker : Span → Text
marker comment = codes " "
marker literal = codes " "
marker double_quoted = codes " \" "
marker backticked = codes " ` "

abbrev pub hide : Bool → Span → ℕ → Text
hide preserve_length span n = if preserve_length then replicate n b' ' else marker span

-- `sql[i - 1]` once the span was read
abbrev pub last_of : Option ℕ → Text → Option ℕ
last_of prev [] = prev
last_of prev (c ∷ s) = last_of (some c) s

-- How many characters stand before `rest`.
abbrev pub consumed : Text → Text → ℕ
consumed s rest = length s - length rest

unfoldable pub scan_from : Flags → Bool → ℕ → Option ℕ → Text → Text
scan_from flags mode fuel prev [] = []
scan_from flags mode zero prev (c ∷ s) = []
scan_from flags mode (suc fuel) prev (c ∷ s) = elim (open_span flags prev c s) [
  | some (span, rest) ↦
      let n = consumed (c ∷ s) rest in
      hide mode span n ++ scan_from flags mode fuel (last_of prev (take n (c ∷ s))) rest
  | none ↦ c ∷ scan_from flags mode fuel (some c) s
]

abbrev pub scan_flags : Option EngineKind → Flags
scan_flags engine = record {
  hash_is_comment = hash_is_comment_of engine;
  backslash_escapes = backslash_escapes_of engine;
  has_e_strings = has_e_strings_of engine;
}

unfoldable pub scan : Text → Option EngineKind → Bool → Text
scan sql engine preserve_length =
    scan_from (scan_flags engine) preserve_length (length sql) none sql

unfoldable pub strip_comments_and_strings : Text → Option EngineKind → Text
strip_comments_and_strings sql engine = scan sql engine false

unfoldable pub mask_comments_and_strings : Text → Option EngineKind → Text
mask_comments_and_strings sql engine = scan sql engine true
