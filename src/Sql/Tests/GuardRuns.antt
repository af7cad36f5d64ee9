-- ===== src/Sql/Tests/GuardRuns.antt =====
-- Runs of the SQL guard with a small parser, and its theorems at concrete statements.
use ask_sql.Prelude.{
  true, false, Option, none, some, List, [], Text, codes, has, text_eq, to_lower_case, starts_with,
  includes, is_space, skip_space, ◌≡◌, refl,
}
use ask_sql.Json.{Num, Json, str, obj, field, end, get}
use ask_sql.RowCap.{clamp_max_rows}
use ask_sql.Mongo.Integers.{value_from}
use ask_sql.Engine.{postgres, mysql}
use ask_sql.Strip.Spans.{after_line, after_literal, open_literal, open_span}
use ask_sql.Strip.Scan.{scan_from, scan, strip_comments_and_strings, mask_comments_and_strings}
use ask_sql.Strip.Trim.{
  end_from, has_separator, has_multiple_statements, last_real, trim_trailing_noise,
}
use ask_sql.Regex.{rounds, match, exec_from, exec, test}
use ask_sql.Sql.Deny.{universal_deny, universal_deny_prefixes, default_deny_set}
use ask_sql.Sql.Policy.{
  GuardPolicy, PartialGuardPolicy, resolve_guard_policy, deny_set_of, context_of,
}
use ask_sql.Sql.Executable.{executes_from, has_mysql_executable_comment, after_plain_block}
use ask_sql.Sql.Walk.{
  type_violation, into_violation, file_violation, sequence_violation, call_violation,
  node_violation, walk,
}
use ask_sql.Sql.Limit.{
  last_hit, last_index_of, splice, lower_limit_in_text, limit_at, statement_level_limit,
  last_select, count_status, tree_status, inspect_limit,
}
use ask_sql.Sql.Limit
use ask_sql.Sql.Rewrite.{
  replace_behind, trim_end, trim, before_offset, oracle_fetch_tail, contains, rewrite_from,
  rewrite_sqlite_match, without_fetch_tail,
}
use ask_sql.Sql.Guard.{DialectInfo, limit, GuardVerdict, without_semicolon}
use ask_sql.Sql.Guard.Statement.{explain_parts, lexical_violation, prepare}
use ask_sql.Sql.Guard.Verdict.{
  allowed_as, replace_all, capped, cap_verdict, tree_verdict, statement_verdict, body_verdict,
  verdict_on, guard_sql,
}
use ask_sql.Sql.Guard.Sound.{IsRead, guard_sql-IsRead}
use ask_sql.Sql.Guard.Closed.{IsClosed, guard_sql-IsClosed}

abbrev thousand : Num → Text
thousand n = codes "1000"

-- A parser that takes every text for one SELECT without a limit.
abbrev one_select : Text → Text → Option (Json × List Text)
one_select text grammar = some (obj (field (codes "type") (str (codes "select")) end), [])

abbrev postgres_dialect : DialectInfo
postgres_dialect = record {
  engine = postgres;
  grammar = codes "Postgresql";
  quote_char = b'"';
  limit_style = limit;
}

abbrev nothing_set : PartialGuardPolicy
nothing_set = record {
  mode = none;
  max_rows = none;
  deny_functions = none;
  allow_file_functions = none;
  max_sql_length = none;
  max_depth = none;
}

abbrev appended : GuardVerdict
appended = allowed_as thousand (codes "SELECT 1\nLIMIT 1000") [] true false []

appended_run :
    guard_sql thousand one_select (codes "SELECT 1;") postgres_dialect nothing_set ≡ some appended
unfolding guard_sql verdict_on body_verdict statement_verdict tree_verdict cap_verdict capped
    resolve_guard_policy clamp_max_rows context_of deny_set_of default_deny_set universal_deny
    universal_deny_prefixes trim_end skip_space is_space strip_comments_and_strings scan scan_from
    open_span open_literal has_multiple_statements end_from has_separator trim_trailing_noise
    last_real without_semicolon explain_parts lexical_violation prepare exec exec_from match rounds
    test includes text_eq get to_lower_case walk node_violation type_violation into_violation
    file_violation sequence_violation call_violation has inspect_limit last_select tree_status
appended_run = refl

guard_sql-IsRead_example :
    (policy : GuardPolicy) × (resolve_guard_policy nothing_set ≡ some policy)
    × (has_multiple_statements
          (strip_comments_and_strings (trim (codes "SELECT 1;")) (some postgres))
        ≡ false)
    × IsRead thousand one_select policy postgres_dialect
        (without_semicolon
          (trim (strip_comments_and_strings (trim (codes "SELECT 1;")) (some postgres))))
        (trim_trailing_noise (trim (codes "SELECT 1;")) (some postgres))
guard_sql-IsRead_example =
    guard_sql-IsRead thousand one_select (codes "SELECT 1;") postgres_dialect nothing_set
      appended_run refl

guard_sql-IsClosed_example : IsClosed (codes "SELECT 1;") appended
guard_sql-IsClosed_example =
    guard_sql-IsClosed thousand one_select (codes "SELECT 1;") postgres_dialect nothing_set
      appended_run

lowered_run :
    lower_limit_in_text thousand (codes "SELECT 'limit 5000' LIMIT 5000 OFFSET 2") 1000 postgres
    ≡ some (codes "SELECT 'limit 5000' LIMIT 1000 OFFSET 2")
unfolding lower_limit_in_text last_hit last_index_of splice mask_comments_and_strings scan scan_from
    open_span open_literal after_literal exec_from match rounds is_space starts_with text_eq
    value_from
lowered_run = refl

abbrev oracle_statement : Text
oracle_statement = codes "SELECT a FROM t OFFSET 5 ROWS FETCH NEXT 10 ROWS ONLY"

tail_run :
    oracle_fetch_tail oracle_statement
    ≡ some (record {
      text = codes " OFFSET 5 ROWS FETCH NEXT 10 ROWS ONLY";
      head = codes "SELECT a FROM t";
      count = some 10;
    })
unfolding oracle_fetch_tail before_offset exec exec_from match rounds trim_end is_space value_from
tail_run = refl

abbrev resolved : GuardPolicy
resolved = record {
  max_rows = 1000;
  deny_functions = [];
  allow_file_functions = false;
  max_sql_length = 100_000;
  max_depth = 400;
}

resolves : resolve_guard_policy nothing_set ≡ some resolved
unfolding resolve_guard_policy clamp_max_rows
resolves = refl

executable_run : has_mysql_executable_comment (codes "/* it's */ SELECT 1 /*!50000 x */") ≡ true
unfolding has_mysql_executable_comment executes_from after_plain_block
executable_run = refl

hidden_run : has_mysql_executable_comment (codes "SELECT '/*!' -- /*!\n") ≡ false
unfolding has_mysql_executable_comment executes_from after_literal after_line
hidden_run = refl

matched_run :
    rewrite_sqlite_match (codes "a MATCH 'b' and ' match ''c'''")
    ≡ codes "a =     'b' and ' match ''c'''"
unfolding rewrite_sqlite_match rewrite_from contains mask_comments_and_strings scan scan_from
    open_span open_literal after_literal exec_from match rounds is_space starts_with to_lower_case
matched_run = refl

branch_run :
    statement_level_limit (codes "(SELECT 1 LIMIT 2) UNION (SELECT 2) LIMIT 7, 50") mysql
    ≡ some (Limit.number 50)
unfolding statement_level_limit limit_at mask_comments_and_strings scan scan_from open_span
    open_literal exec exec_from match rounds test is_space value_from
branch_run = refl

-- The words in a literal of the SELECT list are replaced, and the limit of the statement is not.
literal_run :
    replace_all thousand 1000 (codes "SELECT 'limit all' FROM t LIMIT ALL") none
    ≡ codes "SELECT 'limit 1000' FROM t LIMIT ALL"
unfolding replace_behind exec exec_from match rounds is_space
literal_run = refl

without_tail_run : without_fetch_tail oracle_statement ≡ codes "SELECT a FROM t"
unfolding without_fetch_tail exec exec_from match rounds is_space
without_tail_run = refl
