-- ===== src/Mongo/Shell.antt =====
-- packages/core/src/mongo/guard.ts: `relaxShellJson` and `toStrictPipelineJson`. The index of the
-- code is the text that is left; the loop runs on fuel, one unit for each character at most.
use ask_sql.Prelude.{
  ℕ, zero, suc, Bool, true, false, ◌&&◌, ◌||◌, Option, none, some, [], ◌∷◌, ◌++◌, Text, length,
  ◌==◌, if◌then◌else◌, is_letter, is_word, skip_space, begins_with, is_space,
}
use ask_sql.Json.{Json, arr, Items}

-- The body of the output literal, and the text behind the closing quote.
abbrev prepend : Text → Text × Text → Text × Text
prepend piece (body, rest) = (piece ++ body, rest)

-- An escape is kept, but `\'` in a single-quoted literal becomes `'`.
abbrev escaped_piece : ℕ → ℕ → Text
escaped_piece quote e = if e == b'\'' && quote == b'\'' then b'\'' ∷ [] else b'\\' ∷ e ∷ []

-- A double quote in a single-quoted literal is escaped.
abbrev plain_piece : ℕ → ℕ → Text
plain_piece quote c = if c == b'"' && quote == b'\'' then b'\\' ∷ b'"' ∷ [] else c ∷ []

pub literal : ℕ → Text → Text × Text
literal quote [] = ([], [])
literal quote (c ∷ []) =
    if c == quote
    then ([], [])
    else if c == b'\\'
    then (b'\\' ∷ [], [])
    else (plain_piece quote c, [])
literal quote (c ∷ d ∷ s) = elim (c == quote) [
  | true ↦ ([], d ∷ s)
  | false ↦ elim (c == b'\\') [
    | true ↦ prepend (escaped_piece quote d) (literal quote s)
    | false ↦ prepend (plain_piece quote c) (literal quote (d ∷ s))
  ]
]

abbrev pub starts_word : ℕ → Bool
starts_word c = is_letter c || c == b'_' || c == b'$'

abbrev pub continues_word : ℕ → Bool
continues_word c = is_word c || c == b'$' || c == b'.'

-- The word that the text begins with, and the text behind it.
pub word_of : Text → Text × Text
word_of [] = ([], [])
word_of (c ∷ s) = if continues_word c then prepend (c ∷ []) (word_of s) else ([], c ∷ s)

abbrev quoted : Text → Text
quoted body = (b'"' ∷ body) ++ b'"' ∷ []

abbrev closes : Text → Bool
closes s = begins_with b'}' (skip_space s) || begins_with b']' (skip_space s)

pub relax : ℕ → Text → Text
relax fuel [] = []
relax zero (c ∷ s) = []
relax (suc fuel) (c ∷ s) = elim (c == b'"' || c == b'\'') [
  | true ↦ let (body, rest) = literal c s in quoted body ++ relax fuel rest
  | false ↦ elim (starts_word c) [
    | true ↦
        let (word, rest) = word_of (c ∷ s) in
        (if begins_with b':' (skip_space rest) then quoted word else word) ++ relax fuel rest
    | false ↦ elim (c == b',' && closes s) [ true ↦ relax fuel s | false ↦ c ∷ relax fuel s ]
  ]
]

unfoldable pub relax_shell_json : Text → Text
unfolding relax literal word_of skip_space is_space
relax_shell_json text = relax (length text) text

-- `JSON.parse` and `JSON.stringify` of the JavaScript engine.
pub record JsonText : Type 0 where
  pub parse : Text → Option Json
  pub stringify : Json → Text

module _ (json_text : JsonText) where
  open json_text use {parse}

  -- `attempt`: the parsed value, if it is an array
  abbrev attempt : Text → Option Items
  attempt text = elim (parse text) [ some (arr xs) ↦ some xs | _ ↦ none ]

  unfoldable pub to_strict_pipeline_json : Text → Option (Text × Items)
  to_strict_pipeline_json pipeline_json = elim (attempt pipeline_json) [
    | some pipeline ↦ some (pipeline_json, pipeline)
    | none ↦ elim (attempt (relax_shell_json pipeline_json)) [
      | some pipeline ↦ some (relax_shell_json pipeline_json, pipeline)
      | none ↦ none
    ]
  ]
