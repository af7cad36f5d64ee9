-- ===== src/Sql/Guard.antt =====
-- packages/core/src/guard.ts: the dialect, the rules and the verdict of `guardSql`, and its commands
-- that are allowed without the parser.
pub mod Statement
pub mod Verdict
pub mod Sound
pub mod Closed
use ask_sql.Prelude.{
  ℕ, suc, ◌+◌, Bool, true, false, not, ◌&&◌, ◌||◌, Option, none, some, List, [], ◌∷◌, ◌++◌, Text,
  codes, length, take, drop, ◌-◌, has, text_eq, ltb, if◌then◌else◌, ◌<|>◌, includes, to_lower_case,
}
use ask_sql.Json.{
  Num, whole, Json, null, bool, num, str, arr, obj, Items, nil, cons, Fields, end, get,
}
use ask_sql.Engine.{EngineKind, mysql, sqlite}
use ask_sql.Strip.Scan.{strip_comments_and_strings, mask_comments_and_strings}
use ask_sql.Strip.Trim.{has_multiple_statements, trim_trailing_noise}
use ask_sql.Mongo.Integers.{value}
use ask_sql.Regex.{Regex, Place, exec, test, is_nil, is_some}
use ask_sql.Regex.Build.{captured_of}
use ask_sql.Sql.Types.{sqlite_pragma_read_allowlist}
use ask_sql.Sql.Policy.{GuardPolicy, PartialGuardPolicy, resolve_guard_policy, WalkRule, context_of}
use ask_sql.Sql.Patterns.{
  trailing_semicolon, pragma_start, pragma_command, show_start, show_tail_executes,
  mysql_show_allow, describe_command, explain_start, for_update, lock_in_share_mode, into_file,
}
use ask_sql.Sql.Clauses.{
  with_recursive, limit_word, aggregate_call, group_by, select_distinct, plain_limit, stray_limit,
  fetch_count, limit_all, limit_all_at_start,
}
use ask_sql.Sql.Executable.{has_mysql_executable_comment}
use ask_sql.Sql.Walk.{type_of, walk}
use ask_sql.Sql.Limit.{
  LimitStatus, unlimited, within, nonliteral, high, unbounded, lower_limit_in_text, inspect_limit,
}
use ask_sql.Sql.Rewrite.{
  trim_end, trim, or_nothing, OracleFetchTail, oracle_fetch_tail, replace_behind,
  rewrite_sqlite_match,
}

pub data LimitStyle : Type 0 where
  limit top fetch : LimitStyle

-- The label and the notes of the dialect serve messages only.
pub record DialectInfo : Type 0 where
  pub engine : EngineKind
  pub grammar : Text
  pub quote_char : ℕ
  pub limit_style : LimitStyle

-- The `ruleId` of a refusal.
pub data GuardRule : Type 0 where
  empty_statement too_long mysql_executable_comment multi_statement pragma_denied : GuardRule
  show_expression show_denied limit_unsupported locking_clause into_outfile : GuardRule
  backtick_identifier recursive_no_limit parse_failed limit_unbounded limit_nonliteral : GuardRule
  root_not_allowed : Text → GuardRule
  walk_violation : WalkRule → GuardRule

pub record GuardVerdict : Type 0 where
  pub allowed : Bool
  pub sql : Text
  pub rule_id : Option GuardRule
  pub warnings : List Text
  pub auto_limited : Bool
  pub lowered_limit : Bool
  pub tables : Option (List Text)

abbrev pub blocked : Text → GuardRule → GuardVerdict
blocked sql rule = record {
  allowed = false;
  sql = sql;
  rule_id = some rule;
  warnings = [];
  auto_limited = false;
  lowered_limit = false;
  tables = none;
}

-- A command that is allowed as it is, without a look at a tree.
abbrev pub passed : Text → GuardVerdict
passed body = record {
  allowed = true;
  sql = body;
  rule_id = none;
  warnings = [];
  auto_limited = false;
  lowered_limit = false;
  tables = none;
}

abbrev pub is_sqlite : EngineKind → Bool
is_sqlite sqlite = true
is_sqlite _ = false

abbrev pub is_mysql_engine : EngineKind → Bool
is_mysql_engine mysql = true
is_mysql_engine _ = false

abbrev pub is_fetch : LimitStyle → Bool
is_fetch fetch = true
is_fetch _ = false

unfoldable pub sqlite_recursive_wedge : Text → Bool
sqlite_recursive_wedge s =
    test with_recursive s
    && (not (test limit_word s)
        && (test aggregate_call s || (test group_by s || test select_distinct s)))

-- `stripped.trim().replace(/;\s*$/u, '')`
unfoldable pub without_semicolon : Text → Text
without_semicolon s = elim (exec trailing_semicolon s) [
  | none ↦ s
  | some (skipped, q) ↦ skipped ++ q.rest
]

abbrev pub reads_pragma : Text → Bool
reads_pragma body = elim (exec pragma_command body) [
  | none ↦ false
  | some (_, q) ↦
      has sqlite_pragma_read_allowlist (to_lower_case (or_nothing (captured_of 1 q.groups)))
]

unfoldable pub pragma_verdict : Text → Text → GuardVerdict
pragma_verdict original body =
    if reads_pragma body then passed body else blocked original pragma_denied

unfoldable pub show_verdict : Text → Text → Text → GuardVerdict
show_verdict original stripped body =
    if test show_tail_executes stripped
    then blocked original show_expression
    else if test mysql_show_allow stripped || test describe_command body
    then passed body
    else blocked original show_denied
