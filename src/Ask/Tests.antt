-- ===== src/Ask/Tests.antt =====
-- Runs of the loop with a model that names a table which is not there and then one which is, and the
-- theorems on the loop at them.
use ask_sql.Prelude.{
  ℕ, zero, suc, ◌≤◌, true, false, Option, none, some, List, [], ◌∷◌, Text, codes, has, text_eq,
  to_lower_case, starts_with, includes, is_space, skip_space, if◌then◌else◌, ◌≡◌, refl,
}
use ask_sql.Json.{Num, nan, Json, str, obj, field, end, get}
use ask_sql.Engine.{postgres}
use ask_sql.Errors.{ask_error, ask_sql_error, llm_context_overflow}
use ask_sql.Strip.Spans.{open_literal, open_span}
use ask_sql.Strip.Scan.{scan_from, scan, strip_comments_and_strings}
use ask_sql.Strip.Trim.{
  end_from, has_separator, has_multiple_statements, last_real, trim_trailing_noise,
}
use ask_sql.Regex.{rounds, match, exec_from, exec, test}
use ask_sql.Sql.Policy.{GuardPolicy, deny_set_of, context_of}
use ask_sql.Sql.Walk.{
  type_violation, into_violation, file_violation, sequence_violation, call_violation,
  node_violation, walk,
}
use ask_sql.Sql.Limit.{last_select, tree_status, inspect_limit}
use ask_sql.Sql.Rewrite.{trim_end, contains, without_fetch_tail}
use ask_sql.Sql.Guard.{DialectInfo, limit, without_semicolon}
use ask_sql.Sql.Guard.Statement.{explain_parts, lexical_violation, prepare}
use ask_sql.Sql.Guard.Verdict.{
  allowed_as, capped, cap_verdict, tree_verdict, statement_verdict, body_verdict, verdict_on,
}
use ask_sql.IdentifierCase.{
  index_of, up_to, tag_end, dollar_tag, literal_rest, is_line_comment, is_block_comment, skip_to,
  pass, reverse_onto, scan_code, rewrite_code, without_literals_and_comments,
}
use ask_sql.IdentifierCase.Names.{
  replace_from, replace, spelling, put_spelling, spellings_from, past_unit, skip_quoted,
  quote_catalog_identifiers, quote_reserved_aliases,
}
use ask_sql.Floors.{
  TableInfo, SchemaCatalog, split_entry, matches_from, collect_cte_names, collect_select_aliases,
  known_tables, unknown_table_in, first_unknown_table, last_segment, columns_of,
}
use ask_sql.Floors.Columns.{
  is_single_scope, has_using, all_known, ambiguous_ref, query_tables_of, bare_column_error,
  qualified_column_error, ref_error, unknown_ref, ambiguous_column, first_unknown_column,
}
use ask_sql.Ask.{Setting, Calls, ModelReply, replied, refused, AskResult, Outcome, answered, threw}
use ask_sql.Ask.Checks.{
  chosen_verdict, is_literal_answer, first_per_column, impossible_in, impossible_code,
}
use ask_sql.Ask.Turn.{
  answer, code_floor, column_floor, epoch_floor, fan_out_floor, nested_floor, grouping_floor,
  ambiguous_floor,
}
use ask_sql.Ask.Loop.{
  table_floor, rejected, judged, no_statement, impossible_reply, after_reply, on_reply, turn, run,
  initial, ask_loop,
}
use ask_sql.Ask.Bounds.{Runs, ask_loop-Runs}
use ask_sql.Ask.Good.{IsGood}
use ask_sql.Ask.Sound.{ask_loop-IsGood}
use ask_sql.Ask.Entry.{
  Around, read, all_names, needs_quoting, has_one_spelling, quotable_from, tables_among,
  find_connector, unknown_connection, refusal, to_loop, ask,
}
use ask_sql.Ask.Whole.{IsFromReadOn, ask-IsFromReadOn}

abbrev thousand : Num → Text
thousand n = codes "1000"

abbrev orders_entry : List Text
orders_entry = codes "select::null::orders" ∷ []

abbrev users_entry : List Text
users_entry = codes "select::null::users" ∷ []

-- A parser that takes every text for one SELECT, of orders or of users.
abbrev one_select : Text → Text → Option (Json × List Text)
one_select text grammar = some (
  obj (field (codes "type") (str (codes "select")) end),
  if contains (codes "orders") text then orders_entry else users_entry,
)

abbrev read_only : GuardPolicy
read_only = record {
  max_rows = 1000;
  deny_functions = [];
  allow_file_functions = false;
  max_sql_length = 100_000;
  max_depth = 400;
}

abbrev postgres_dialect : DialectInfo
postgres_dialect = record {
  engine = postgres;
  grammar = codes "Postgresql";
  quote_char = b'"';
  limit_style = limit;
}

abbrev users_table : TableInfo
users_table = record {
  schema = none;
  name = codes "users";
  columns = record { name = codes "a"; db_type = codes "text" } ∷ [];
}

abbrev one_table : SchemaCatalog
one_table = record { engine = postgres; tables = users_table ∷ [] }

abbrev how_many : Setting
how_many = record {
  question = codes "which a?";
  connection_id = codes "main";
  dialect = postgres_dialect;
  catalog = one_table;
  quotable_names = [];
  quotable_tables = [];
  any_reserved = [];
  engine_reserved = [];
  allow_data_in_prompt = true;
  has_context = false;
}

-- The model overflows at first, then names a table that is not there, and then one that is.
abbrev model : ℕ → Text → ModelReply
model zero prompt = refused (
    ask_error (
      ask_sql_error llm_context_overflow
        (record { user_message = none; detail = none; retryable = none })))
model (suc zero) prompt = replied (codes "SELECT a FROM orders") 10 2
model (suc (suc n)) prompt = replied (codes "SELECT a FROM users") 10 2

abbrev read_calls : Calls
read_calls = record {
  call_model = model;
  build_repair_user = λ r. r.failure;
  extract_sql = λ t. some (record { sql = t; explanation = [] });
  extract_impossible = λ t. none;
  is_model_refusal = λ t. false;
  is_metadata_question = λ t. false;
  catalog_query_hint = [];
  closest_table_name = λ t. some (codes "users");
  tighter_schema = [];
  tighter_prompt = [];
  guard_sql = λ t. verdict_on thousand one_select read_only postgres_dialect t;
  reason_of = λ v. none;
  rule_text = λ v. none;
  table_list = λ t g. some (if contains (codes "orders") t then orders_entry else users_entry);
  column_list = λ t g. some (codes "select::null::a" ∷ []);
  ungrouped_aggregate = λ t. none;
  nested_aggregate = λ t. none;
  fan_out_aggregate = λ t. none;
  epoch_unit_mismatch = λ t. none;
  code_literals = λ t. [];
  code_values_of = λ c. none;
  sanitize_value = λ t. t;
  number_text = thousand;
  number_of = λ t. nan;
  join_graph = [];
  dangling_reference = λ q b. none;
}

abbrev users_answer : AskResult
users_answer = record {
  sql = codes "SELECT a FROM users\nLIMIT 1000";
  explanation = [];
  guard = allowed_as thousand (codes "SELECT a FROM users\nLIMIT 1000") [] true false users_entry;
  connection_id = codes "main";
  input_tokens = 20;
  output_tokens = 4;
  repairs = 1;
}

answer_run : ask_loop how_many read_calls [] (codes "which a?") ≡ some (answered users_answer)
unfolding ask_loop run turn on_reply after_reply judged rejected table_floor no_statement
    impossible_reply ambiguous_floor grouping_floor nested_floor fan_out_floor epoch_floor
    column_floor code_floor answer impossible_code impossible_in first_per_column is_literal_answer
    chosen_verdict first_unknown_column ambiguous_column unknown_ref ref_error
    qualified_column_error bare_column_error query_tables_of ambiguous_ref all_known has_using
    is_single_scope columns_of last_segment first_unknown_table unknown_table_in known_tables
    collect_select_aliases collect_cte_names matches_from split_entry quote_catalog_identifiers
    quote_reserved_aliases replace replace_from spelling put_spelling spellings_from past_unit
    skip_quoted without_literals_and_comments rewrite_code scan_code skip_to dollar_tag tag_end
    index_of up_to literal_rest is_line_comment is_block_comment pass reverse_onto starts_with
    verdict_on body_verdict statement_verdict tree_verdict cap_verdict capped context_of deny_set_of
    without_fetch_tail contains trim_end skip_space is_space strip_comments_and_strings scan
    scan_from open_span open_literal has_multiple_statements end_from has_separator
    trim_trailing_noise last_real without_semicolon explain_parts lexical_violation prepare exec
    exec_from match rounds test includes text_eq get to_lower_case walk node_violation
    type_violation into_violation file_violation sequence_violation call_violation has inspect_limit
    last_select tree_status ask_sql_error
answer_run = refl

ask_loop-Runs_example :
    (n : ℕ) × (o : Outcome) × (ask_loop how_many read_calls [] (codes "which a?") ≡ some o)
    × Runs how_many read_calls n (initial [] (codes "which a?")) o
    × (n ≤ 6)
ask_loop-Runs_example = ask_loop-Runs how_many read_calls [] (codes "which a?")

ask_loop-IsGood_example : IsGood how_many read_calls users_answer
ask_loop-IsGood_example = ask_loop-IsGood how_many read_calls [] (codes "which a?") answer_run

-- Everything around the loop, with one connection and no question of structure.
abbrev one_connection : Around
one_connection = record {
  connectors = record { id = codes "main"; dialect = postgres_dialect } ∷ [];
  allow_data_in_prompt = true;
  number_text = λ n. codes "1";
  is_capability_question = λ q. false;
  is_prompt_injection = λ q. false;
  is_write_request = λ q. false;
  is_schema_advice_question = λ q. false;
  is_database_overview_question = λ q. false;
  is_relationship_question = λ q. false;
  names_something_in_catalog = λ q c. false;
  may_refresh = λ conn. true;
  get_catalog = λ conn refresh. read one_table;
  catalog_query_for = λ q c d. none;
  reserved_words = λ e. codes "order" ∷ [];
  any_reserved = codes "order" ∷ [];
  has_usable_context = false;
  calls_for = λ q conn c. record read_calls {
    guard_sql = λ t. verdict_on thousand one_select read_only conn.dialect t;
  };
  schema_text = λ q conn c. [];
  user_prompt = λ q conn c. q;
}

whole_run : ask one_connection (codes " which a? ") none ≡ some (answered users_answer)
unfolding ask refusal to_loop all_names needs_quoting has_one_spelling quotable_from tables_among
    ask_loop run turn on_reply after_reply judged rejected table_floor no_statement impossible_reply
    ambiguous_floor grouping_floor nested_floor fan_out_floor epoch_floor column_floor code_floor
    answer impossible_code impossible_in first_per_column is_literal_answer chosen_verdict
    first_unknown_column ambiguous_column unknown_ref ref_error qualified_column_error
    bare_column_error query_tables_of ambiguous_ref all_known has_using is_single_scope columns_of
    last_segment first_unknown_table unknown_table_in known_tables collect_select_aliases
    collect_cte_names matches_from split_entry quote_catalog_identifiers quote_reserved_aliases
    replace replace_from spelling put_spelling spellings_from past_unit skip_quoted
    without_literals_and_comments rewrite_code scan_code skip_to dollar_tag tag_end index_of up_to
    literal_rest is_line_comment is_block_comment pass reverse_onto starts_with verdict_on
    body_verdict statement_verdict tree_verdict cap_verdict capped context_of deny_set_of
    without_fetch_tail contains trim_end skip_space is_space strip_comments_and_strings scan
    scan_from open_span open_literal has_multiple_statements end_from has_separator
    trim_trailing_noise last_real without_semicolon explain_parts lexical_violation prepare exec
    exec_from match rounds test includes text_eq get to_lower_case walk node_violation
    type_violation into_violation file_violation sequence_violation call_violation has inspect_limit
    last_select tree_status ask_sql_error
whole_run = refl

-- A name in another case than PostgreSQL reads it, a reserved word and a name with a space are quoted.
quoting_run :
    quotable_from
      (codes "order" ∷ [])
      postgres
      (codes "Id" ∷ codes "name" ∷ codes "order" ∷ codes "a b" ∷ codes "X" ∷ codes "x" ∷ [])
      (codes "Id" ∷ codes "name" ∷ codes "order" ∷ codes "a b" ∷ codes "X" ∷ codes "x" ∷ [])
    ≡ codes "Id" ∷ codes "order" ∷ codes "a b" ∷ []
unfolding quotable_from needs_quoting has_one_spelling to_lower_case text_eq has
quoting_run = refl

unknown_run :
    ask one_connection (codes "which a?") (some (codes "other"))
    ≡ some (threw (unknown_connection (some (codes "other"))) none)
unfolding ask refusal find_connector trim_end skip_space is_space text_eq
unknown_run = refl

ask-IsFromReadOn_example :
    IsFromReadOn thousand one_select read_only one_connection (λ q conn c t. refl) users_answer
ask-IsFromReadOn_example =
    ask-IsFromReadOn thousand one_select read_only one_connection (λ q conn c t. refl)
      (codes " which a? ") none whole_run
