-- ===== src/Sql/Executable.antt =====
-- packages/core/src/guard.ts: `hasMysqlExecutableComment`. The index is the text that is left, and
-- the fuel of the loop is its length.
use ask_sql.Prelude.{
  ℕ, zero, suc, Bool, true, false, not, ◌&&◌, ◌||◌, [], ◌∷◌, Text, length, drop, ◌==◌,
  if◌then◌else◌, begins_with,
}
use ask_sql.Strip.Spans.{after_line, after_literal}

-- The text behind the next `*/`.
unfoldable pub after_plain_block : Text → Text
after_plain_block [] = []
after_plain_block (c ∷ []) = []
after_plain_block (c ∷ d ∷ s) = if c == b'*' && d == b'/' then s else after_plain_block (d ∷ s)

abbrev pub is_quote : ℕ → Bool
is_quote c = c == b'\'' || c == b'"' || c == b'`'

unfoldable pub executes_from : ℕ → Text → Bool
executes_from fuel [] = false
executes_from zero (c ∷ s) = false
executes_from (suc fuel) (c ∷ s) =
    if c == b'/' && begins_with b'*' s
    then elim (begins_with b'!' (drop 1 s)) [
      | true ↦ true
      | false ↦ executes_from fuel (after_plain_block (drop 1 s))
    ]
    else elim (is_quote c) [
      | true ↦ executes_from fuel (after_literal c (not (c == b'`')) s)
      | false ↦ elim ((c == b'-' && begins_with b'-' s) || c == b'#') [
        | true ↦ executes_from fuel (after_line s)
        | false ↦ executes_from fuel s
      ]
    ]

unfoldable pub has_mysql_executable_comment : Text → Bool
has_mysql_executable_comment sql = executes_from (length sql) sql
