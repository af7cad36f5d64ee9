-- ===== src/Strip/Spans.antt =====
-- packages/core/src/strip.ts: the spans that `scan` hides and `trimTrailingNoise` steps over. Both
-- functions of the code write the same tests out; they differ in the three flags.
use ask_sql.Prelude.{
  ℕ, zero, suc, Bool, true, false, not, ◌&&◌, ◌||◌, Option, none, some, [], ◌∷◌, ◌++◌, Text, length,
  drop, ◌==◌, if◌then◌else◌, begins_with, is_word, starts_with,
}
use ask_sql.Engine.{EngineKind, postgres, mysql, duckdb}

pub record Flags : Type 0 where
  pub hash_is_comment : Bool
  pub backslash_escapes : Bool
  pub has_e_strings : Bool

-- `engine === undefined || engine === 'mysql'`
abbrev pub hash_is_comment_of : Option EngineKind → Bool
hash_is_comment_of none = true
hash_is_comment_of (some mysql) = true
hash_is_comment_of (some _) = false

abbrev pub backslash_escapes_of : Option EngineKind → Bool
backslash_escapes_of (some mysql) = true
backslash_escapes_of _ = false

abbrev pub has_e_strings_of : Option EngineKind → Bool
has_e_strings_of none = true
has_e_strings_of (some postgres) = true
has_e_strings_of (some duckdb) = true
has_e_strings_of (some _) = false

-- What a span is: a comment, a quoted text that leaves a blank, or an identifier that leaves its
-- quote as a marker.
pub data Span : Type 0 where
  comment literal double_quoted backticked : Span

-- The text from the next line end on.
unfoldable pub after_line : Text → Text
after_line [] = []
after_line (c ∷ s) = if c == b'\n' || c == b'\r' then c ∷ s else after_line s

-- The text behind a block comment, `depth` of which are open.
unfoldable pub after_block : ℕ → Text → Text
after_block zero s = s
after_block (suc depth) [] = []
after_block (suc depth) (c ∷ []) = []
after_block (suc depth) (c ∷ d ∷ s) = elim (c == b'/' && d == b'*') [
  | true ↦ after_block (suc (suc depth)) s
  | false ↦ elim (c == b'*' && d == b'/') [
    | true ↦ after_block depth s
    | false ↦ after_block (suc depth) (d ∷ s)
  ]
]

-- The text behind the closing quote. A doubled quote is a quote of the text, and with `escapes` a
-- backslash takes the next character with it.
unfoldable pub after_literal : ℕ → Bool → Text → Text
after_literal quote escapes [] = []
after_literal quote escapes (c ∷ []) = []
after_literal quote escapes (c ∷ d ∷ s) = elim (escapes && c == b'\\') [
  | true ↦ after_literal quote escapes s
  | false ↦ elim (c == quote && d == quote) [
    | true ↦ after_literal quote escapes s
    | false ↦ elim (c == quote) [ true ↦ d ∷ s | false ↦ after_literal quote escapes (d ∷ s) ]
  ]
]

-- The text behind the next backtick.
unfoldable pub after_backtick : Text → Text
after_backtick [] = []
after_backtick (c ∷ s) = if c == b'`' then s else after_backtick s

-- The text behind the first occurrence of `tag`, that is behind `indexOf(tag) + tag.length`.
unfoldable pub after_first : Text → Text → Option Text
after_first tag [] = if starts_with tag [] then some [] else none
after_first tag (c ∷ s) =
    if starts_with tag (c ∷ s) then some (drop (length tag) (c ∷ s)) else after_first tag s

-- The characters of a dollar tag, and the text behind them.
unfoldable pub tag_of : Text → Text
tag_of [] = []
tag_of (c ∷ s) = if is_word c then c ∷ tag_of s else []

unfoldable pub after_tag : Text → Text
after_tag [] = []
after_tag (c ∷ s) = if is_word c then after_tag s else c ∷ s

abbrev pub or_end : Option Text → Text
or_end none = []
or_end (some s) = s

-- `$$...$$` or `$tag$...$tag$`, behind its first dollar sign
unfoldable pub dollar_quoted : Text → Option Text
dollar_quoted s =
    if begins_with b'$' (after_tag s)
    then some (or_end (after_first (b'$' ∷ (tag_of s ++ b'$' ∷ [])) (drop 1 (after_tag s))))
    else none

-- `/[A-Za-z0-9_$]/.test(sql[i - 1] ?? '')`
abbrev pub in_token : Option ℕ → Bool
in_token none = false
in_token (some c) = is_word c || c == b'$'

abbrev pub bracketed : Option Text → Option (Span × Text)
bracketed none = none
bracketed (some s) = some (literal, s)

-- The tests from the `E'...'` literal on.
unfoldable pub open_literal : Flags → Option ℕ → ℕ → Text → Option (Span × Text)
open_literal flags prev c s =
    if flags.has_e_strings && (c == b'e' || c == b'E') && begins_with b'\'' s && not (in_token prev)
    then some (literal, after_literal b'\'' true (drop 1 s))
    else if c == b'\''
    then some (literal, after_literal b'\'' flags.backslash_escapes s)
    else if c == b'"'
    then some (double_quoted, after_literal b'"' false s)
    else if c == b'`'
    then some (backticked, after_backtick s)
    else if c == b'['
    then bracketed (after_first (b']' ∷ []) s)
    else none

abbrev pub open_dollar : ℕ → Text → Option Text
open_dollar c s = if c == b'$' then dollar_quoted s else none

-- The span that begins at `c`, with the text behind it; `none` where `c` is an ordinary character.
unfoldable pub open_span : Flags → Option ℕ → ℕ → Text → Option (Span × Text)
open_span flags prev c s =
    if c == b'-' && begins_with b'-' s
    then some (comment, after_line s)
    else if c == b'#' && flags.hash_is_comment
    then some (comment, after_line s)
    else if c == b'/' && begins_with b'*' s
    then some (comment, after_block 1 (drop 1 s))
    else elim (open_dollar c s) [
      | some rest ↦ some (literal, rest)
      | none ↦ open_literal flags prev c s
    ]
