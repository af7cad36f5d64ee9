-- ===== src/Sql/Guard/Verdict.antt =====
-- packages/core/src/guard.ts: `guardSql`. The parser is a library: `parse` gives the syntax tree and
-- the table list for a text and a grammar, or none where it throws. A statement that is null, which
-- makes the code throw, is refused here like one without a type.
use ask_sql.Prelude.{
  ℕ, suc, Bool, true, false, ◌&&◌, Option, none, some, List, [], ◌∷◌, ◌++◌, Text, codes, length,
  take, drop, text_eq, ltb, if◌then◌else◌,
}
use ask_sql.Json.{Num, whole, Json, obj, Fields}
use ask_sql.Strip.Scan.{strip_comments_and_strings}
use ask_sql.Strip.Trim.{has_multiple_statements, trim_trailing_noise}
use ask_sql.Regex.{test, is_nil}
use ask_sql.Sql.Policy.{GuardPolicy, PartialGuardPolicy, resolve_guard_policy, context_of}
use ask_sql.Sql.Patterns.{pragma_start, show_start}
use ask_sql.Sql.Clauses.{fetch_count, limit_all, limit_all_at_start}
use ask_sql.Sql.Executable.{has_mysql_executable_comment}
use ask_sql.Sql.Walk.{walk}
use ask_sql.Sql.Limit.{
  LimitStatus, unlimited, within, nonliteral, high, unbounded, lower_limit_in_text, inspect_limit,
}
use ask_sql.Sql.Rewrite.{trim, replace_behind, rewrite_sqlite_match}
use ask_sql.Sql.Guard.{
  DialectInfo, empty_statement, too_long, mysql_executable_comment, multi_statement,
  limit_unsupported, parse_failed, limit_unbounded, limit_nonliteral, root_not_allowed,
  walk_violation, GuardVerdict, blocked, is_sqlite, is_mysql_engine, is_fetch, without_semicolon,
  pragma_verdict, show_verdict,
}
use ask_sql.Sql.Guard.Statement.{
  Prepared, explain_parts, inner_of, lexical_violation, statements_of, only_statement, type_text,
  prepare,
}

module _ (number_text : Num → Text) where
  -- The statement with the FETCH clause put back, its count lowered where it is too high.
  abbrev pub restored : ℕ → Text → Text → Option ℕ → Text × Bool
  restored max_rows inner tail count = elim count [
    | some n ↦
        if ltb max_rows n
        then (inner ++ replace_behind fetch_count (number_text (whole max_rows)) tail, true)
        else (inner ++ tail, false)
    | none ↦ (inner ++ tail, false)
  ]

  abbrev pub allowed_as : Text → List Text → Bool → Bool → List Text → GuardVerdict
  allowed_as sql warnings auto lowered tables = record {
    allowed = true;
    sql = sql;
    rule_id = none;
    warnings = warnings;
    auto_limited = auto;
    lowered_limit = lowered;
    tables = some tables;
  }

  abbrev pub high_warning : Text
  high_warning = codes "The row limit is higher than allowed; it is enforced at execution time."

  abbrev pub replace_all : ℕ → Text → Option ℕ → Text
  replace_all max_rows body at = elim at [
    | none ↦ replace_behind limit_all (number_text (whole max_rows)) body
    | some i ↦
        take i body
        ++ replace_behind limit_all_at_start (number_text (whole max_rows)) (drop i body)
  ]

  -- The row cap of a statement that has no FETCH clause, by the status of its limit.
  unfoldable pub capped : DialectInfo → Text → ℕ → Text → List Text → LimitStatus → GuardVerdict
  capped dialect original max_rows body tables unlimited =
      if is_fetch dialect.limit_style
      then allowed_as body [] false false tables
      else allowed_as (body ++ codes "\nLIMIT " ++ number_text (whole max_rows)) [] true false
          tables
  capped dialect original max_rows body tables high =
      elim (lower_limit_in_text number_text body max_rows dialect.engine) [
        | some [] ↦ allowed_as body (high_warning ∷ []) false false tables
        | some (c ∷ edited) ↦ allowed_as (c ∷ edited) [] false true tables
        | none ↦ allowed_as body (high_warning ∷ []) false false tables
      ]
  capped dialect original max_rows body tables (unbounded at) =
      if text_eq (replace_all max_rows body at) body
      then blocked original limit_unbounded
      else allowed_as (replace_all max_rows body at) [] false true tables
  capped dialect original max_rows body tables nonliteral = blocked original limit_nonliteral
  capped dialect original max_rows body tables within = allowed_as body [] false false tables

  -- The verdict on a tree that the walk accepts.
  unfoldable pub cap_verdict :
      DialectInfo
      → Text
      → ℕ
      → Text
      → Prepared
      → Option (Text × Text)
      → Fields
      → List Text
      → GuardVerdict
  unfolding capped
  cap_verdict dialect original max_rows body prepared explained root tables = elim explained [
    | some (prefix, rest) ↦ allowed_as (prefix ++ rest) [] false false tables
    | none ↦ elim prepared.tail [
      | some tail ↦
          let (sql, lowered) = restored max_rows prepared.inner tail prepared.count in
          allowed_as sql [] false lowered tables
      | none ↦
          capped dialect original max_rows body tables
            (inspect_limit number_text root max_rows body dialect.engine)
    ]
  ]

  -- The verdict on the tree of the statement.
  unfoldable pub tree_verdict :
      GuardPolicy
      → DialectInfo
      → Text
      → Text
      → Prepared
      → Option (Text × Text)
      → Json
      → List Text
      → GuardVerdict
  unfolding cap_verdict
  tree_verdict policy dialect original body prepared explained ast tables =
      elim (only_statement (statements_of ast)) [
        | none ↦ blocked original multi_statement
        | some root ↦
            if text_eq (type_text root) (codes "select")
            then elim (walk number_text (context_of policy dialect.engine) (suc policy.max_depth)
                (obj root)) [
                  | some rule ↦ blocked original (walk_violation rule)
                  | none ↦
                      cap_verdict dialect original policy.max_rows body prepared explained root
                        tables
                ]
            else blocked original (root_not_allowed (type_text root))
      ]

  module _ (parse : Text → Text → Option (Json × List Text)) where
    -- What `toParse` holds.
    abbrev pub parsed_text : DialectInfo → Text → Text
    parsed_text dialect inner =
        if is_sqlite dialect.engine then rewrite_sqlite_match inner else inner

    -- From the EXPLAIN wrapper on.
    unfoldable pub statement_verdict : GuardPolicy → DialectInfo → Text → Text → GuardVerdict
    unfolding tree_verdict
    statement_verdict policy dialect original body = elim (prepare number_text dialect body) [
      | none ↦ blocked original limit_unsupported
      | some prepared ↦
          let explained = explain_parts body in
          let inner = inner_of prepared.inner explained in
          elim (lexical_violation dialect
            (strip_comments_and_strings inner (some dialect.engine))) [
              | some rule ↦ blocked original rule
              | none ↦ elim (parse (parsed_text dialect inner) dialect.grammar) [
                | none ↦ blocked original parse_failed
                | some (ast, tables) ↦
                    tree_verdict policy dialect original body prepared explained ast tables
              ]
            ]
    ]

    -- The commands that are allowed without the parser, and else the statement.
    unfoldable pub body_verdict : GuardPolicy → DialectInfo → Text → Text → Text → GuardVerdict
    unfolding statement_verdict
    body_verdict policy dialect original stripped body =
        if is_sqlite dialect.engine && test pragma_start stripped
        then pragma_verdict original body
        else if is_mysql_engine dialect.engine && test show_start stripped
        then show_verdict original stripped body
        else statement_verdict policy dialect original body

    unfoldable pub verdict_on : GuardPolicy → DialectInfo → Text → GuardVerdict
    unfolding body_verdict
    verdict_on policy dialect original =
        let trimmed = trim original in
        let stripped = strip_comments_and_strings trimmed (some dialect.engine) in
        if is_nil trimmed
        then blocked original empty_statement
        else if ltb policy.max_sql_length (length trimmed)
        then blocked original too_long
        else if is_mysql_engine dialect.engine && has_mysql_executable_comment trimmed
        then blocked original mysql_executable_comment
        else if has_multiple_statements stripped
        then blocked original multi_statement
        else body_verdict policy dialect original (without_semicolon (trim stripped))
            (trim_trailing_noise trimmed (some dialect.engine))

    -- `none` is the error that a policy with another mode throws.
    unfoldable pub guard_sql : Text → DialectInfo → PartialGuardPolicy → Option GuardVerdict
    guard_sql sql dialect partial = elim (resolve_guard_policy partial) [
      | none ↦ none
      | some policy ↦ some (verdict_on policy dialect sql)
    ]
