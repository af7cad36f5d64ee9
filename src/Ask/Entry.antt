-- ===== src/Ask/Entry.antt =====
-- packages/core/src/engine.ts: `askImpl` up to its loop, and `connectorById`; with `needsQuoting` of
-- packages/core/src/catalog.ts. A question is refused, answered from the catalog, or goes to the loop.
use ask_sql.Prelude.{
  ℕ, Bool, true, false, not, ◌&&◌, ◌||◌, Option, none, some, List, [], ◌∷◌, ◌++◌, Text, codes,
  length, ltb, text_eq, has, if◌then◌else◌, to_lower_case, is_letter, is_word, ◌==◌,
}
use ask_sql.Engine.{EngineKind, mysql, sqlite, duckdb, oracle}
use ask_sql.Errors.{
  Thrown, ask_error, ask_sql_error, invalid_input, llm_bad_output, llm_refusal, or_else,
}
use ask_sql.Regex.{is_nil}
use ask_sql.Sql.Guard.{DialectInfo, GuardVerdict}
use ask_sql.Sql.Rewrite.{trim}
use ask_sql.IdentifierCase.Names.{upper, fold_name}
use ask_sql.Floors.{ColumnInfo, TableInfo, SchemaCatalog}
use ask_sql.Ask.{Setting, Extraction, Calls, AskResult, Outcome, answered, threw}
use ask_sql.Ask.Texts.{failing, raised}
use ask_sql.Ask.Loop.{ask_loop}

pub record Connector : Type 0 where
  pub id : Text
  pub dialect : DialectInfo

pub data CatalogRead : Type 0 where
  read : SchemaCatalog → CatalogRead
  unreadable : Thrown → CatalogRead

-- The functions of other files that are called before the loop, and the configuration. `get_catalog` is
-- told whether it is to refresh, and `may_refresh` says whether a refresh for staleness is due.
pub record Around : Type 0 where
  pub connectors : List Connector
  pub allow_data_in_prompt : Bool
  pub number_text : ℕ → Text
  pub is_capability_question : Text → Bool
  pub is_prompt_injection : Text → Bool
  pub is_write_request : Text → Bool
  pub is_schema_advice_question : Text → Bool
  pub is_database_overview_question : Text → Bool
  pub is_relationship_question : Text → Bool
  pub names_something_in_catalog : Text → SchemaCatalog → Bool
  pub may_refresh : Connector → Bool
  pub get_catalog : Connector → Bool → CatalogRead
  pub catalog_query_for : Text → SchemaCatalog → DialectInfo → Option Extraction
  pub reserved_words : EngineKind → List Text
  pub any_reserved : List Text
  pub has_usable_context : Bool
  pub calls_for : Text → Connector → SchemaCatalog → Calls
  pub schema_text : Text → Connector → SchemaCatalog → Text
  pub user_prompt : Text → Connector → SchemaCatalog → Text

abbrev pub max_question_length : ℕ
max_question_length = 10_000

-- `PLAIN_IDENTIFIER_RE`
abbrev pub all_plain : Text → Bool
all_plain [] = true
all_plain (c ∷ s) = is_word c && all_plain s

abbrev pub is_plain_identifier : Text → Bool
is_plain_identifier [] = false
is_plain_identifier (c ∷ s) = (is_letter c || c == b'_') && all_plain s

unfoldable pub needs_quoting : List Text → EngineKind → Text → Bool
needs_quoting reserved engine name =
    not (is_plain_identifier name)
    || (has reserved (to_lower_case name) || elim engine [
      | oracle ↦ not (text_eq name (fold_name name upper))
      | mysql ↦ false
      | sqlite ↦ false
      | duckdb ↦ false
      | _ ↦ not (text_eq name (to_lower_case name))
    ])

abbrev pub column_names : List ColumnInfo → List Text
column_names [] = []
column_names (c ∷ cs) = c.name ∷ column_names cs

-- `allNames`
unfoldable pub all_names : List TableInfo → List Text
all_names [] = []
all_names (t ∷ ts) = t.name ∷ column_names t.columns ++ all_names ts

-- `spellings.get(n.toLowerCase())?.size === 1`
unfoldable pub has_one_spelling : Text → List Text → Bool
has_one_spelling n [] = true
has_one_spelling n (m ∷ ms) =
    (not (text_eq (to_lower_case m) (to_lower_case n)) || text_eq m n) && has_one_spelling n ms

unfoldable pub quotable_from : List Text → EngineKind → List Text → List Text → List Text
quotable_from reserved engine every [] = []
quotable_from reserved engine every (n ∷ ns) =
    let rest = quotable_from reserved engine every ns in
    if needs_quoting reserved engine n && has_one_spelling n every then n ∷ rest else rest

unfoldable pub tables_among : List Text → List TableInfo → List Text
tables_among names [] = []
tables_among names (t ∷ ts) =
    let rest = tables_among names ts in if has names t.name then t.name ∷ rest else rest

-- `connectorById`; an empty id is like none.
unfoldable pub find_connector : Text → List Connector → Option Connector
find_connector id [] = none
find_connector id (c ∷ cs) = if text_eq c.id id then some c else find_connector id cs

abbrev pub first_connector : List Connector → Option Connector
first_connector [] = none
first_connector (c ∷ cs) = some c

abbrev pub connector_by_id : Option Text → List Connector → Option Connector
connector_by_id (some (c ∷ id)) connectors = find_connector (c ∷ id) connectors
connector_by_id _ connectors = first_connector connectors

abbrev pub unknown_connection : Option Text → Thrown
unknown_connection connection_id =
    raised invalid_input (some (codes "Unknown database connection."))
      (codes "unknown connectionId: " ++ or_else connection_id (codes "(none)"))

module _ (around : Around) where
  -- A question that goes no further, in the order of the tests.
  unfoldable pub refusal : Text → Option Thrown
  refusal q =
      if is_nil q
      then some (
          ask_error (
            ask_sql_error invalid_input
              (record { user_message = none; detail = none; retryable = none })))
      else if ltb max_question_length (length q)
      then some (
          raised invalid_input
            (some (codes "The question is too long. Keep it under 10,000 characters."))
            (codes "question length " ++ around.number_text (length q)))
      else if around.is_capability_question q
      then some (
          failing llm_bad_output
            (codes "That is a question about AskSQL itself rather than the data.")
            (codes "capability question routed to the prose path"))
      else if around.is_prompt_injection q
      then some (
          failing llm_refusal (codes "I only answer questions about the data in this database.")
            (codes "prompt-injection attempt declined"))
      else if around.is_write_request q
      then some (
          failing llm_bad_output
            (codes
              "That asks for a statement that changes data. AskSQL is read-only, so it is written out for you to run yourself.")
            (codes "write request routed to the proposal path"))
      else if around.is_schema_advice_question q
          || (around.is_database_overview_question q || around.is_relationship_question q)
      then some (
          failing llm_bad_output
            (codes
              "That asks about the schema itself rather than the data in it, so there is no query to run.")
            (codes "schema-advice question routed to the prose path"))
      else none

  abbrev pub setting_for : Text → Connector → SchemaCatalog → Setting
  setting_for q conn catalog =
      let reserved = around.reserved_words conn.dialect.engine in
      let every = all_names catalog.tables in
      let quotable = quotable_from reserved conn.dialect.engine every every in
      record {
        question = q;
        connection_id = conn.id;
        dialect = conn.dialect;
        catalog = catalog;
        quotable_names = quotable;
        quotable_tables = tables_among quotable catalog.tables;
        any_reserved = around.any_reserved;
        engine_reserved = reserved;
        allow_data_in_prompt = around.allow_data_in_prompt;
        has_context = around.has_usable_context;
      }

  unfoldable pub to_loop : Text → Connector → SchemaCatalog → Option Outcome
  to_loop q conn catalog =
      ask_loop (setting_for q conn catalog) (around.calls_for q conn catalog)
        (around.schema_text q conn catalog) (around.user_prompt q conn catalog)

  -- The answer to a question of structure, which no model has written.
  abbrev pub written_answer : Connector → Extraction → GuardVerdict → AskResult
  written_answer conn written verdict = record {
    sql = verdict.sql;
    explanation = written.explanation;
    guard = verdict;
    connection_id = conn.id;
    input_tokens = 0;
    output_tokens = 0;
    repairs = 0;
  }

  abbrev pub written_or_loop : Text → Connector → SchemaCatalog → Option Extraction → Option Outcome
  written_or_loop q conn catalog none = to_loop q conn catalog
  written_or_loop q conn catalog (some written) =
      let verdict = (around.calls_for q conn catalog).guard_sql written.sql in
      if verdict.allowed
      then some (answered (written_answer conn written verdict))
      else to_loop q conn catalog

  abbrev pub or_old : SchemaCatalog → CatalogRead → SchemaCatalog
  or_old catalog (read newer) = newer
  or_old catalog (unreadable err) = catalog

  -- The catalog, read again where the question names nothing in it and a refresh is due.
  abbrev pub fresh_catalog : Text → Connector → SchemaCatalog → SchemaCatalog
  fresh_catalog q conn catalog =
      if not (around.names_something_in_catalog q catalog) && around.may_refresh conn
      then or_old catalog (around.get_catalog conn true)
      else catalog

  abbrev pub with_catalog : Text → Connector → CatalogRead → Option Outcome
  with_catalog q conn (unreadable err) = some (threw err none)
  with_catalog q conn (read catalog) =
      let full = fresh_catalog q conn catalog in
      written_or_loop q conn full (around.catalog_query_for q full conn.dialect)

  abbrev pub with_connector : Option Text → Text → Option Connector → Option Outcome
  with_connector connection_id q none = some (threw (unknown_connection connection_id) none)
  with_connector connection_id q (some conn) = with_catalog q conn (around.get_catalog conn false)

  abbrev pub unless_refused : Option Text → Text → Option Thrown → Option Outcome
  unless_refused connection_id q (some err) = some (threw err none)
  unless_refused connection_id q none =
      with_connector connection_id q (connector_by_id connection_id around.connectors)

  -- `askImpl`, on the fuel of its loop
  unfoldable pub ask : Text → Option Text → Option Outcome
  ask question connection_id = let q = trim question in unless_refused connection_id q (refusal q)
