-- ===== src/Execute/Tests.antt =====
-- Runs of `executeGuarded` behind the SQL guard, and its theorems at them.
use ask_sql.Prelude.{
  true, false, Option, none, some, List, [], ◌∷◌, Text, codes, has, text_eq, to_lower_case,
  includes, is_space, skip_space, ◌≡◌, refl, at_head,
}
use ask_sql.Json.{Num, Json, str, obj, field, end, get}
use ask_sql.Engine.{postgres}
use ask_sql.Errors.{ask_error, ask_sql_error, guard_blocked}
use ask_sql.Strip.Spans.{open_literal, open_span}
use ask_sql.Strip.Scan.{scan_from, scan, strip_comments_and_strings}
use ask_sql.Strip.Trim.{
  end_from, has_separator, has_multiple_statements, last_real, trim_trailing_noise,
}
use ask_sql.Regex.{rounds, match, exec_from, exec, test}
use ask_sql.Sql.Policy.{GuardPolicy, deny_set_of, context_of}
use ask_sql.Sql.Walk.{
  type_violation, into_violation, file_violation, sequence_violation, call_violation,
  node_violation, walk,
}
use ask_sql.Sql.Limit.{last_select, tree_status, inspect_limit}
use ask_sql.Sql.Rewrite.{trim_end}
use ask_sql.Sql.Guard.{DialectInfo, limit, without_semicolon, multi_statement}
use ask_sql.Sql.Guard.Statement.{explain_parts, lexical_violation, prepare}
use ask_sql.Sql.Guard.Verdict.{
  capped, cap_verdict, tree_verdict, statement_verdict, body_verdict, verdict_on,
}
use ask_sql.Ask.Safe.{IsFromRead}
use ask_sql.Execute.{
  Request, returned, threw, ExecuteOptions, ok, blocked, no_code, rule, executes, records,
  Connection, with_caveats, after_execute, execute_guarded,
}
use ask_sql.Execute.Accounted.{execute_guarded-IsFromRead}

abbrev thousand : Num → Text
thousand n = codes "1000"

-- A parser that takes every text for one SELECT without a limit.
abbrev one_select : Text → Text → Option (Json × List Text)
one_select text grammar = some (obj (field (codes "type") (str (codes "select")) end), [])

abbrev read_only : GuardPolicy
read_only = record {
  max_rows = 1000;
  deny_functions = [];
  allow_file_functions = false;
  max_sql_length = 100_000;
  max_depth = 400;
}

abbrev postgres_dialect : DialectInfo
postgres_dialect = record {
  engine = postgres;
  grammar = codes "Postgresql";
  quote_char = b'"';
  limit_style = limit;
}

-- A database that fills every limit.
abbrev full : Connection
full = record {
  id = codes "main";
  dialect = postgres_dialect;
  policy_max_rows = 1000;
  connect = none;
  guard_sql = λ t. verdict_on thousand one_select read_only postgres_dialect t;
  execute = λ r. returned (record { row_count = r.max_rows; truncated = false; warnings = [] });
  reason = λ v. none;
  rule_text = λ v. none;
  number_text = thousand;
}

abbrev no_options : ExecuteOptions
no_options = record {
  question = none;
  user_id = none;
  max_rows = some 5000;
  timeout_ms = none;
  aborted = false;
  prior = none;
}

abbrev limited : Request
limited = record { sql = codes "SELECT 1\nLIMIT 1000"; timeout_ms = 30_000; max_rows = 1000 }

-- A cap above the policy is lowered to it, and the filled limit is marked.
full_run : execute_guarded full no_options (codes "SELECT 1;") ≡ (
  executes limited
      ∷ records (record {
        connection_id = codes "main";
        user_id = none;
        question = none;
        sql = codes "SELECT 1\nLIMIT 1000";
        status = ok;
        error_code = no_code;
        row_count = some 1000;
      })
      ∷ [],
  returned (record {
    row_count = 1000;
    truncated = true;
    warnings =
        codes "A row limit of 1000 was added automatically - these are the first rows only." ∷ [];
  }),
)
unfolding execute_guarded after_execute with_caveats verdict_on body_verdict statement_verdict
    tree_verdict cap_verdict capped context_of deny_set_of trim_end skip_space is_space
    strip_comments_and_strings scan scan_from open_span open_literal has_multiple_statements
    end_from has_separator trim_trailing_noise last_real without_semicolon explain_parts
    lexical_violation prepare exec exec_from match rounds test includes text_eq get to_lower_case
    walk node_violation type_violation into_violation file_violation sequence_violation
    call_violation has inspect_limit last_select tree_status
full_run = refl

-- Two statements are refused, with a row and without a request.
blocked_run : execute_guarded full no_options (codes "SELECT 1; DROP TABLE t") ≡ (
  records (record {
    connection_id = codes "main";
    user_id = none;
    question = none;
    sql = codes "SELECT 1; DROP TABLE t";
    status = blocked;
    error_code = rule (some multi_statement);
    row_count = none;
  })
      ∷ [],
  threw (
      ask_error (
        ask_sql_error guard_blocked (record {
          user_message = some (codes "Blocked for safety: this statement is not allowed.");
          detail = some (codes "ruleId=unknown sql=SELECT 1; DROP TABLE t");
          retryable = none;
        }))),
)
unfolding execute_guarded verdict_on trim_end skip_space is_space strip_comments_and_strings scan
    scan_from open_span open_literal has_multiple_statements end_from has_separator
blocked_run = refl

execute_guarded-IsFromRead_example :
    IsFromRead thousand one_select read_only postgres_dialect (codes "SELECT 1\nLIMIT 1000")
execute_guarded-IsFromRead_example =
    execute_guarded-IsFromRead thousand one_select read_only full no_options (λ t. refl)
      (codes "SELECT 1;") limited (rw full_run (at_head refl))
