-- ===== src/Suggest/Tests.antt =====
-- Runs of the suggestions and of what is remembered, and the theorem on suggestions at one.
use ask_sql.Prelude.{
  starts_with, false, Option, none, some, List, [], ◌∷◌, Text, codes, has, text_eq, to_lower_case,
  includes, is_space, skip_space, ◌≡◌, refl,
}
use ask_sql.Json.{Num, Json, str, obj, field, end, get}
use ask_sql.Engine.{postgres}
use ask_sql.Strip.Spans.{after_literal, open_literal, open_span}
use ask_sql.Strip.Scan.{scan_from, scan, strip_comments_and_strings}
use ask_sql.Strip.Trim.{
  end_from, has_separator, has_multiple_statements, last_real, trim_trailing_noise,
}
use ask_sql.Regex.{rounds, match, exec_from, exec, test}
use ask_sql.Sql.Policy.{GuardPolicy, deny_set_of, context_of}
use ask_sql.Sql.Walk.{
  type_violation, into_violation, file_violation, sequence_violation, call_violation,
  node_violation, walk,
}
use ask_sql.Sql.Limit.{last_select, tree_status, inspect_limit}
use ask_sql.Sql.Rewrite.{trim_end}
use ask_sql.Sql.Guard.{DialectInfo, limit, without_semicolon}
use ask_sql.Sql.Guard.Statement.{explain_parts, lexical_violation, prepare}
use ask_sql.Sql.Guard.Verdict.{
  capped, cap_verdict, tree_verdict, statement_verdict, body_verdict, verdict_on,
}
use ask_sql.Ask.Safe.{IsFromRead}
use ask_sql.IdentifierCase.{
  index_of, up_to, tag_end, dollar_tag, literal_rest, is_line_comment, is_block_comment, skip_to,
  pass, reverse_onto, scan_code, rewrite_code,
}
use ask_sql.IdentifierCase.Names.{
  replace_from, replace, spelling, put_spelling, spellings_from, correct_table_case,
}
use ask_sql.Floors.{SchemaCatalog}
use ask_sql.FewShots.{examples_of, set_examples, without_question, add_example}
use ask_sql.History.{key}
use ask_sql.Suggest.{Repairer, fix_with, suggest_fix, record_feedback}
use ask_sql.Suggest.Redact.{redact_values_in_error}
use ask_sql.Suggest.Safe.{on_request, Offers-IsFromRead}

abbrev thousand : Num → Text
thousand n = codes "1000"

-- A parser that takes every text for one SELECT without a limit.
abbrev one_select : Text → Text → Option (Json × List Text)
one_select text grammar = some (obj (field (codes "type") (str (codes "select")) end), [])

abbrev read_only : GuardPolicy
read_only = record {
  max_rows = 1000;
  deny_functions = [];
  allow_file_functions = false;
  max_sql_length = 100_000;
  max_depth = 400;
}

abbrev postgres_dialect : DialectInfo
postgres_dialect = record {
  engine = postgres;
  grammar = codes "Postgresql";
  quote_char = b'"';
  limit_style = limit;
}

abbrev users_catalog : SchemaCatalog
users_catalog = record {
  engine = postgres;
  tables = record { schema = none; name = codes "Users"; columns = [] } ∷ [];
}

abbrev repairer : Repairer
repairer = record {
  dialect = postgres_dialect;
  guard_sql = λ t. verdict_on thousand one_select read_only postgres_dialect t;
  ask_model = λ q s f t. none;
  extract_sql = λ t. none;
  schema_text = λ c q. [];
  table_list = λ t g. none;
  column_list = λ t g. none;
}

-- A table in another case than PostgreSQL reads it is quoted, and the model is not asked.
fix_run :
    suggest_fix repairer
      (some users_catalog)
      (codes "who?")
      (codes "SELECT 1 FROM users")
      (some (codes "relation does not exist"))
    ≡ some (codes "SELECT 1 FROM \"Users\"\nLIMIT 1000")
unfolding suggest_fix fix_with correct_table_case rewrite_code scan_code skip_to dollar_tag tag_end
    index_of up_to literal_rest is_line_comment is_block_comment pass reverse_onto starts_with
    replace replace_from spelling put_spelling spellings_from after_literal verdict_on body_verdict
    statement_verdict tree_verdict cap_verdict capped context_of deny_set_of trim_end skip_space
    is_space strip_comments_and_strings scan scan_from open_span open_literal
    has_multiple_statements end_from has_separator trim_trailing_noise last_real without_semicolon
    explain_parts lexical_violation prepare exec exec_from match rounds test includes text_eq get
    to_lower_case walk node_violation type_violation into_violation file_violation
    sequence_violation call_violation has inspect_limit last_select tree_status
fix_run = refl

Offers-IsFromRead_example :
    IsFromRead thousand one_select read_only postgres_dialect
      (codes "SELECT 1 FROM \"Users\"\nLIMIT 1000")
Offers-IsFromRead_example =
    Offers-IsFromRead thousand one_select read_only repairer (λ t. refl)
      (codes "SELECT 1 FROM \"Users\"\nLIMIT 1000")
      (on_request (some users_catalog) (codes "who?") (codes "SELECT 1 FROM users")
        (some (codes "relation does not exist")) fix_run)

-- Values are taken out of an error, and names stay.
redacted_run :
    (redact_values_in_error (codes "Key (email)=(ada@example.com) already exists")
      ≡ codes "Key (email)=(...) already exists")
    × (redact_values_in_error (codes "Unknown column 'nam' for value 'ada'")
        ≡ codes "Unknown column 'nam' for value '...'")
    × (redact_values_in_error (codes "invalid input syntax for type integer: \"ada\"")
        ≡ codes "invalid input syntax for type integer: \"...\"")
    × (redact_values_in_error (codes "ORA-01722: invalid number x: ada")
        ≡ codes "ORA-01722: invalid number x: ...")
unfolding redact_values_in_error replace replace_from exec exec_from match rounds test is_space
    skip_space
redacted_run = (refl, refl, refl, refl)

-- A statement that the guard refuses is not remembered.
feedback_run :
    (record_feedback repairer 2
        (codes "main")
        none
        (codes " q ")
        (codes "SELECT 1; DROP TABLE t")
        []
      ≡ [])
    × (record_feedback repairer 2 (codes "main") none (codes " q ") (codes "SELECT 1") []
        ≡ (
          key (codes "main") none,
          record { question = codes "q"; sql = codes "SELECT 1\nLIMIT 1000" } ∷ [],
        )
          ∷ [])
unfolding record_feedback add_example set_examples examples_of without_question key verdict_on
    body_verdict statement_verdict tree_verdict cap_verdict capped context_of deny_set_of trim_end
    skip_space is_space strip_comments_and_strings scan scan_from open_span open_literal
    has_multiple_statements end_from has_separator trim_trailing_noise last_real without_semicolon
    explain_parts lexical_violation prepare exec exec_from match rounds test includes text_eq get
    to_lower_case walk node_violation type_violation into_violation file_violation
    sequence_violation call_violation has inspect_limit last_select tree_status
feedback_run = (refl, refl)
