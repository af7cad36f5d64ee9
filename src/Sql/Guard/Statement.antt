-- ===== src/Sql/Guard/Statement.antt =====
-- packages/core/src/guard.ts: what `guardSql` makes of the text before it is parsed.
use ask_sql.Prelude.{
  ℕ, Bool, true, false, not, ◌&&◌, ◌||◌, Option, none, some, [], ◌∷◌, ◌++◌, Text, codes, length,
  take, drop, ◌-◌, text_eq, if◌then◌else◌, ◌<|>◌, includes,
}
use ask_sql.Json.{Num, whole, Json, arr, obj, Items, nil, cons, Fields, end}
use ask_sql.Engine.{EngineKind}
use ask_sql.Strip.Scan.{strip_comments_and_strings, mask_comments_and_strings}
use ask_sql.Mongo.Integers.{value}
use ask_sql.Regex.{exec, test}
use ask_sql.Regex.Build.{captured_of}
use ask_sql.Sql.Patterns.{explain_start, for_update, lock_in_share_mode, into_file}
use ask_sql.Sql.Clauses.{plain_limit, stray_limit}
use ask_sql.Sql.Walk.{type_of}
use ask_sql.Sql.Rewrite.{or_nothing, oracle_fetch_tail}
use ask_sql.Sql.Guard.{
  DialectInfo, GuardRule, locking_clause, into_outfile, backtick_identifier, recursive_no_limit,
  is_sqlite, is_fetch, sqlite_recursive_wedge,
}

-- What the guard validates: the text, and the FETCH clause that was taken off it with its count.
pub record Prepared : Type 0 where
  pub inner : Text
  pub tail : Option Text
  pub count : Option ℕ

abbrev pub take_tail : Text → Prepared
take_tail inner = elim (oracle_fetch_tail inner) [
  | none ↦ record { inner = inner; tail = none; count = none }
  | some t ↦ record { inner = t.head; tail = some t.text; count = t.count }
]

abbrev pub is_absent {ℓ} : {A : Type ℓ} → Option A → Bool
is_absent none = true
is_absent (some a) = false

-- `body.slice(0, explainMatch[0].length)` and the rest; nothing where there is no EXPLAIN.
unfoldable pub explain_parts : Text → Option (Text × Text)
explain_parts body = elim (exec explain_start body) [
  | none ↦ none
  | some (skipped, q) ↦
      let n = length body - length skipped - length q.rest in some (take n body, drop n body)
]

abbrev pub inner_of : Text → Option (Text × Text) → Text
inner_of inner none = inner
inner_of inner (some (prefix, rest)) = rest

abbrev pub when_ : Bool → GuardRule → Option GuardRule
when_ b rule = if b then some rule else none

-- The lexical read-only floor, in the order of the code.
unfoldable pub lexical_violation : DialectInfo → Text → Option GuardRule
lexical_violation dialect s =
    when_ (test for_update s || test lock_in_share_mode s) locking_clause
    <|> when_ (test into_file s) into_outfile
    <|> when_ (not (text_eq (dialect.quote_char ∷ []) (codes "`")) && includes b'`' s)
        backtick_identifier
    <|> when_ (is_sqlite dialect.engine && sqlite_recursive_wedge s) recursive_no_limit

-- `Array.isArray(ast) ? ast : [ast]`
abbrev pub statements_of : Json → Items
statements_of (arr xs) = xs
statements_of ast = cons ast nil

-- The only statement, where there is one; what is no object has no type.
abbrev pub only_statement : Items → Option Fields
only_statement (cons (obj fs) nil) = some fs
only_statement (cons x nil) = some end
only_statement _ = none

abbrev pub type_text : Fields → Text
type_text root = elim (type_of root) [ some t ↦ t | none ↦ [] ]

module _ (number_text : Num → Text) where
  -- A plain trailing LIMIT becomes a FETCH clause; none is a LIMIT that has no such form.
  unfoldable pub translate_limit : EngineKind → Text → Option Text
  translate_limit engine inner =
      let masked = mask_comments_and_strings inner (some engine) in
      let stray = test stray_limit (strip_comments_and_strings inner (some engine)) in
      let otherwise = if stray then none else some inner in
      elim (exec plain_limit masked) [
        | none ↦ otherwise
        | some (skipped, q) ↦
            if is_absent (oracle_fetch_tail inner)
            then some (
                take (length skipped) inner
                ++ codes "FETCH FIRST "
                ++ number_text (whole (value (or_nothing (captured_of 1 q.groups))))
                ++ codes " ROWS ONLY"
                ++ drop (length inner - length q.rest) inner)
            else otherwise
      ]

  -- `none` is the refusal `limit_unsupported`.
  unfoldable pub prepare : DialectInfo → Text → Option Prepared
  prepare dialect body =
      if is_fetch dialect.limit_style
      then elim (translate_limit dialect.engine body) [
        | none ↦ none
        | some inner ↦ some (take_tail inner)
      ]
      else some (record { inner = body; tail = none; count = none })
