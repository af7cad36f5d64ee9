-- ===== src/Execute.antt =====
-- packages/core/src/engine.ts: `executeGuarded`. What the database is asked and what the history is given
-- are effects, in their order; a row that the history refuses is dropped, since it must not change the
-- outcome.
pub mod Accounted
mod Tests
use ask_sql.Prelude.{
  ℕ, suc, min, Bool, true, false, not, ◌&&◌, ◌||◌, Option, none, some, List, [], ◌∷◌, ◌++◌, Text,
  codes, take, leb, ltb, length, if◌then◌else◌, ◌==◌,
}
use ask_sql.Json.{whole, Num}
use ask_sql.Errors.{
  ErrorCode, Thrown, ask_error, other_error, other_value, ask_sql_error, guard_blocked, cancelled,
  db_query_error, db_unreachable, AskSqlError, from, or_else,
}
use ask_sql.Sql.Guard.{DialectInfo, is_fetch, GuardRule, GuardVerdict}

-- The rows of a result are left out.
pub record ResultSet : Type 0 where
  pub row_count : ℕ
  pub truncated : Bool
  pub warnings : List Text

pub record Request : Type 0 where
  pub sql : Text
  pub timeout_ms : ℕ
  pub max_rows : ℕ

pub data Executed : Type 0 where
  returned : ResultSet → Executed
  threw : Thrown → Executed

pub record PriorVerdict : Type 0 where
  pub auto_limited : Bool
  pub lowered_limit : Bool

-- What a caller passes; its row cap is a natural number, and `aborted` is the state of its signal when
-- the database has answered.
pub record ExecuteOptions : Type 0 where
  pub question : Option Text
  pub user_id : Option Text
  pub max_rows : Option ℕ
  pub timeout_ms : Option ℕ
  pub aborted : Bool
  pub prior : Option PriorVerdict

pub data RowStatus : Type 0 where
  ok blocked error : RowStatus

pub data RowCode : Type 0 where
  no_code : RowCode
  rule : Option GuardRule → RowCode
  code : ErrorCode → RowCode

-- What the history gets, without its id and its times.
pub record HistoryRow : Type 0 where
  pub connection_id : Text
  pub user_id : Option Text
  pub question : Option Text
  pub sql : Text
  pub status : RowStatus
  pub error_code : RowCode
  pub row_count : Option ℕ

pub data Effect : Type 0 where
  executes : Request → Effect
  records : HistoryRow → Effect

-- One connection: its connector, and the parts of the engine that serve it.
pub record Connection : Type 0 where
  pub id : Text
  pub dialect : DialectInfo
  pub policy_max_rows : ℕ
  pub connect : Option Thrown
  pub guard_sql : Text → GuardVerdict
  pub execute : Request → Executed
  pub reason : GuardVerdict → Option Text
  pub rule_text : GuardVerdict → Option Text
  pub number_text : Num → Text

abbrev pub default_query_timeout_ms : ℕ
default_query_timeout_ms = 30_000

abbrev pub Ran : Type 0
Ran = List Effect × Executed

abbrev pub is_ask_error : Thrown → Bool
is_ask_error (ask_error e) = true
is_ask_error (other_error name message) = false
is_ask_error (other_value text) = false

abbrev pub prior_auto : Option PriorVerdict → Bool
prior_auto none = false
prior_auto (some p) = p.auto_limited

abbrev pub prior_lowered : Option PriorVerdict → Bool
prior_lowered none = false
prior_lowered (some p) = p.lowered_limit

module _ (conn : Connection) (opts : ExecuteOptions) where
  abbrev pub row : Text → RowStatus → RowCode → Option ℕ → HistoryRow
  row sql status error_code row_count = record {
    connection_id = conn.id;
    user_id = opts.user_id;
    question = opts.question;
    sql = sql;
    status = status;
    error_code = error_code;
    row_count = row_count;
  }

  abbrev pub capped_max : ℕ
  capped_max = min (or_else opts.max_rows conn.policy_max_rows) conn.policy_max_rows

  abbrev pub request : Text → Request
  request sql = record {
    sql = sql;
    timeout_ms = or_else opts.timeout_ms default_query_timeout_ms;
    max_rows = capped_max;
  }

  abbrev pub limit_warnings : Bool → Bool → List Text
  limit_warnings auto lowered =
      let rows = conn.number_text (whole conn.policy_max_rows) in
      (if auto
        then (codes "A row limit of "
            ++ rows
            ++ codes " was added automatically - these are the first rows only.")
          ∷ []
        else [])
      ++ (if lowered then (codes "The row limit was lowered to " ++ rows ++ codes ".") ∷ [] else [])

  -- The result with the caveats of its limit.
  unfoldable pub with_caveats : GuardVerdict → ResultSet → ResultSet
  with_caveats verdict result =
      let auto = verdict.auto_limited || prior_auto opts.prior in
      let lowered = verdict.lowered_limit || prior_lowered opts.prior in
      record {
        row_count = result.row_count;
        truncated = result.truncated || ((auto || lowered) && leb capped_max result.row_count);
        warnings = result.warnings ++ limit_warnings auto lowered;
      }

  -- The error that a database error surfaces as.
  unfoldable pub mapped_error : Thrown → AskSqlError
  mapped_error err =
      from err (if opts.aborted && not (is_ask_error err) then cancelled else db_query_error)

  unfoldable pub after_execute : GuardVerdict → Executed → HistoryRow × Executed
  after_execute verdict (returned result) =
      (row verdict.sql ok no_code (some result.row_count), returned (with_caveats verdict result))
  after_execute verdict (threw err) = (
    row verdict.sql error (code (mapped_error err).code) none,
    threw (ask_error (mapped_error err)),
  )

  abbrev pub blocked_error : Text → GuardVerdict → Thrown
  blocked_error sql verdict = ask_error (
      ask_sql_error guard_blocked (record {
        user_message = some (
            codes "Blocked for safety: "
            ++ or_else (conn.reason verdict) (codes "this statement is not allowed."));
        detail = some (
            codes "ruleId="
            ++ or_else (conn.rule_text verdict) (codes "unknown")
            ++ codes " sql="
            ++ take 300 sql);
        retryable = none;
      }))

  -- The statement of an allowed verdict is executed, and any other is blocked.
  abbrev pub with_verdict : Text → GuardVerdict → Ran
  with_verdict sql verdict =
      if verdict.allowed
      then (let (entry, result) = after_execute verdict (conn.execute (request verdict.sql)) in
          (executes (request verdict.sql) ∷ records entry ∷ [], result))
      else (
        records (row sql blocked (rule verdict.rule_id) none) ∷ [],
        threw (blocked_error sql verdict),
      )

  abbrev pub once_connected : Option Thrown → Text → Ran
  once_connected (some err) sql = ([], threw (ask_error (from err db_unreachable)))
  once_connected none sql = with_verdict sql (conn.guard_sql sql)

  unfoldable pub execute_guarded : Text → Ran
  execute_guarded sql = once_connected conn.connect sql
