-- ===== src/Suggest.antt =====
-- packages/core/src/engine.ts: what is offered after the database has refused a statement (`run` of an
-- answer, `suggestFix`), and what is remembered of an approved one (`recordFeedback`). Nothing of it is
-- executed.
pub mod Redact
pub mod Safe
mod Tests
use ask_sql.Prelude.{
  ℕ, Bool, true, false, not, ◌&&◌, ◌||◌, Option, none, some, List, [], ◌∷◌, ◌++◌, Text, codes,
  text_eq, map, if◌then◌else◌, ◌<|>◌,
}
use ask_sql.Engine.{EngineKind}
use ask_sql.Errors.{ErrorCode, db_query_error, AskSqlError, Thrown, ask_error, or_else}
use ask_sql.Regex.{is_nil}
use ask_sql.Sql.Guard.{DialectInfo, GuardVerdict}
use ask_sql.Sql.Rewrite.{trim}
use ask_sql.IdentifierCase.Names.{
  non_empty, folding_for, correct_table_case, looks_like_unknown_table,
}
use ask_sql.Floors.{TableInfo, SchemaCatalog, first_unknown_table}
use ask_sql.Floors.Columns.{UnknownColumn, first_unknown_column}
use ask_sql.FewShots.{FewShotExample, Examples, add_example}
use ask_sql.Ask.{Extraction}
use ask_sql.Execute.{
  Connection, ExecuteOptions, PriorVerdict, Executed, returned, threw, Effect, execute_guarded,
}
use ask_sql.Suggest.Redact.{redact_values_in_error}

-- The parts of the engine that a suggestion is made with. The model is asked with the question, the
-- statement, the failure and the schema text, and gives none where it throws.
pub record Repairer : Type 0 where
  pub dialect : DialectInfo
  pub guard_sql : Text → GuardVerdict
  pub ask_model : Text → Text → Text → Text → Option Text
  pub extract_sql : Text → Option Extraction
  pub schema_text : SchemaCatalog → Text → Text
  pub table_list : Text → Text → Option (List Text)
  pub column_list : Text → Text → Option (List Text)

abbrev pub rejected_by_database : Text → Text
rejected_by_database detail = codes "The database rejected it: " ++ redact_values_in_error detail

abbrev pub is_query_error : ErrorCode → Bool
is_query_error db_query_error = true
is_query_error _ = false

abbrev pub if_named : Option Text → Option UnknownColumn → Text → Option Text
if_named none none sql = some sql
if_named none (some column) sql = none
if_named (some table) column sql = none

module _ (parts : Repairer) where
  -- The statement of the guard, where it allows the text.
  abbrev pub if_allowed : GuardVerdict → Option Text
  if_allowed v = if v.allowed then some v.sql else none

  abbrev pub guarded : Option Text → Option Text
  guarded none = none
  guarded (some sql) = if_allowed (parts.guard_sql sql)

  -- The same, where it is another statement than the one that failed.
  abbrev pub if_other : Text → GuardVerdict → Option Text
  if_other failed v = if v.allowed && not (text_eq v.sql failed) then some v.sql else none

  abbrev pub another : Text → Option Extraction → Option Text
  another failed none = none
  another failed (some e) = if_other failed (parts.guard_sql e.sql)

  -- `correctTableCase` with the names of the catalog
  abbrev pub recased : SchemaCatalog → Text → Option Text
  recased catalog sql = non_empty (
      correct_table_case sql (map (λ (t : TableInfo). t.name) catalog.tables)
        parts.dialect.quote_char (folding_for parts.dialect.engine))

  -- `caseFixFor`
  unfoldable pub case_fix_for : SchemaCatalog → Text → Text → Option Text
  case_fix_for catalog final_sql message =
      if looks_like_unknown_table message then guarded (recased catalog final_sql) else none

  abbrev pub extracted : Option Text → Option Extraction
  extracted none = none
  extracted (some reply) = parts.extract_sql reply

  -- `tryRepairAfterDbError`
  unfoldable pub try_repair : Text → Text → Text → Text → Option Text
  try_repair question final_sql schema message =
      another final_sql
        (extracted (parts.ask_model question final_sql (rejected_by_database message) schema))

  -- The suggestion beside an error of `run`, where there is one.
  unfoldable pub suggestion_for : Text → SchemaCatalog → Text → Text → Bool → Thrown → Option Text
  suggestion_for question catalog schema final_sql was_cancelled (ask_error e) =
      let message = or_else e.detail e.user_message in
      if is_query_error e.code && not was_cancelled
      then non_empty
          (case_fix_for catalog final_sql message <|> try_repair question final_sql schema message)
      else none
  suggestion_for question catalog schema final_sql was_cancelled _ = none

  abbrev pub beside : Text → SchemaCatalog → Text → Text → Bool → Executed → Option Text
  beside question catalog schema final_sql was_cancelled (returned result) = none
  beside question catalog schema final_sql was_cancelled (threw err) =
      suggestion_for question catalog schema final_sql was_cancelled err

  -- `run` of an answer: what `executeGuarded` does, and the suggestion beside its error.
  unfoldable pub run_answer :
      Connection
      → ExecuteOptions
      → Text
      → SchemaCatalog
      → Text
      → Text
      → Bool
      → List Effect × Executed × Option Text
  run_answer conn opts question catalog schema final_sql was_cancelled =
      let (effects, result) = execute_guarded conn opts final_sql in
      (effects, result, beside question catalog schema final_sql was_cancelled result)

  -- A repaired statement that names only tables and columns which are there.
  abbrev pub if_known : SchemaCatalog → Text → GuardVerdict → Option Text
  if_known catalog bad v =
      if not v.allowed || text_eq v.sql bad
      then none
      else if_named
          (first_unknown_table parts.table_list v.sql catalog parts.dialect.grammar v.tables)
          (first_unknown_column parts.table_list parts.column_list v.sql catalog
            parts.dialect.grammar)
          v.sql

  abbrev pub known_repair : SchemaCatalog → Text → Option Extraction → Option Text
  known_repair catalog bad none = none
  known_repair catalog bad (some e) = if_known catalog bad (parts.guard_sql e.sql)

  -- `suggestFix` with the catalog at hand
  unfoldable pub fix_with : SchemaCatalog → Text → Text → Option Text → Option Text
  fix_with catalog question bad error_detail =
      let cased =
        if looks_like_unknown_table (or_else error_detail [])
        then guarded (recased catalog bad)
        else none in
      cased
      <|> known_repair catalog bad (
          extracted (
            parts.ask_model question bad
              (rejected_by_database (or_else error_detail (codes "the query failed to run")))
              (parts.schema_text catalog question)))

  -- `suggestFix`; the catalog is none where it cannot be read.
  unfoldable pub suggest_fix : Option SchemaCatalog → Text → Text → Option Text → Option Text
  suggest_fix catalog question failed_sql error_detail =
      let bad = trim failed_sql in
      let q = trim question in
      if is_nil bad || is_nil q
      then none
      else elim catalog [ none ↦ none | some c ↦ fix_with c q bad error_detail ]

  abbrev pub remembered : ℕ → Text → Option Text → Text → GuardVerdict → Examples → Examples
  remembered cap connection_id user_id q v examples =
      if v.allowed
      then add_example cap connection_id (record { question = q; sql = v.sql }) user_id examples
      else examples

  -- `recordFeedback`, with the store of few-shots
  unfoldable pub record_feedback : ℕ → Text → Option Text → Text → Text → Examples → Examples
  record_feedback cap connection_id user_id question sql examples =
      let q = trim question in
      let s = trim sql in
      if is_nil q || is_nil s
      then examples
      else remembered cap connection_id user_id q (parts.guard_sql s) examples
