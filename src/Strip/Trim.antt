-- ===== src/Strip/Trim.antt =====
-- packages/core/src/strip.ts: `hasMultipleStatements` and `trimTrailingNoise`.
pub mod Single
pub mod Kept
use ask_sql.Prelude.{
  ℕ, zero, suc, ◌+◌, ◌-◌, Bool, true, false, not, ◌&&◌, ◌||◌, Option, none, some, [], ◌∷◌, Text,
  length, take, get_elem?, ◌==◌, if◌then◌else◌, is_space,
}
use ask_sql.Engine.{EngineKind}
use ask_sql.Strip.Spans.{Flags, Span, comment, hash_is_comment_of, open_span}
use ask_sql.Strip.Scan.{last_of, consumed}

-- `c === ';' || TRAILING_WS.test(c)`
abbrev pub is_noise : ℕ → Bool
is_noise c = c == b';' || is_space c

abbrev pub is_noise_at : Option ℕ → Bool
is_noise_at none = false
is_noise_at (some c) = is_noise c

-- The loop that moves `end` back over trailing separators and whitespace.
unfoldable pub end_from : ℕ → Text → ℕ
end_from zero s = 0
end_from (suc k) s = if is_noise_at (get_elem? s k) then end_from k s else suc k

unfoldable pub has_separator : Text → Bool
has_separator [] = false
has_separator (c ∷ s) = c == b';' || has_separator s

-- `lastIndexOf(';', end - 1) !== -1`: the search begins at index 0 where `end - 1` is negative, so
-- `end - 1 + 1` characters are searched, with the truncated subtraction of ℕ.
unfoldable pub has_multiple_statements : Text → Bool
unfolding has_separator end_from
has_multiple_statements s = has_separator (take (end_from (length s) s - 1 + 1) s)

abbrev pub is_comment : Span → Bool
is_comment comment = true
is_comment _ = false

-- `lastReal` at the end of the loop; `pos` is the index `i`, `real` is `lastReal` so far.
unfoldable pub last_real : Flags → ℕ → Option ℕ → ℕ → ℕ → Text → ℕ
last_real flags fuel prev pos real [] = real
last_real flags zero prev pos real (c ∷ s) = real
last_real flags (suc fuel) prev pos real (c ∷ s) = elim (open_span flags prev c s) [
  | some (span, rest) ↦
      let n = consumed (c ∷ s) rest in
      last_real flags fuel (last_of prev (take n (c ∷ s))) (pos + n)
        (if is_comment span then real else pos + n) rest
  | none ↦
      last_real flags fuel (some c) (pos + 1)
        (if not (is_space c) && not (c == b';') then pos + 1 else real) s
]

-- Here a backslash never escapes, and `E'...'` is a literal whatever the engine.
abbrev pub trim_flags : Option EngineKind → Flags
trim_flags engine = record {
  hash_is_comment = hash_is_comment_of engine;
  backslash_escapes = false;
  has_e_strings = true;
}

unfoldable pub trim_trailing_noise : Text → Option EngineKind → Text
unfolding last_real
trim_trailing_noise sql engine = take (last_real (trim_flags engine) (length sql) none 0 0 sql) sql
