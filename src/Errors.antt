-- ===== src/Errors.antt =====
-- packages/core/src/errors.ts: the error that every failure surfaces as.
use ask_sql.Prelude.{Bool, true, false, Option, none, some, ◌++◌, Text, codes}

pub data ErrorCode : Type 0 where
  llm_auth llm_billing llm_rate_limit llm_timeout llm_context_overflow llm_bad_output : ErrorCode
  llm_refusal llm_unreachable llm_unavailable guard_blocked db_auth db_unreachable : ErrorCode
  db_not_found db_query_error db_timeout file_parse wasm_load cancelled server_authz : ErrorCode
  invalid_input config_error : ErrorCode

-- `RETRYABLE`
unfoldable pub is_retryable : ErrorCode → Bool
is_retryable llm_rate_limit = true
is_retryable llm_timeout = true
is_retryable llm_unreachable = true
is_retryable llm_unavailable = true
is_retryable db_unreachable = true
is_retryable db_timeout = true
is_retryable wasm_load = true
is_retryable _ = false

-- `DEFAULT_MESSAGES`
unfoldable pub default_message : ErrorCode → Text
default_message llm_auth =
    codes "The AI provider rejected the configured key. Update it in your AskSQL configuration."
default_message llm_billing =
    codes
      "The AI provider account is out of credits or over its usage quota. Add credits or check the plan and billing settings."
default_message llm_rate_limit =
    codes "The AI provider is rate-limiting requests right now. Wait a moment and try again."
default_message llm_timeout =
    codes "The AI took too long to answer. Local models may still be loading - retry."
default_message llm_context_overflow =
    codes
      "The prompt is larger than this model accepts. Use a model with a bigger context, ask about fewer tables, or start a new conversation."
default_message llm_bad_output =
    codes "Couldn't produce valid SQL for this question. Try rephrasing it."
default_message llm_refusal = codes "The AI model declined to answer this question."
default_message llm_unreachable =
    codes "Can't reach the AI endpoint. Check that it is running and the URL is correct."
default_message llm_unavailable = codes "The AI provider had a temporary problem. Try again."
default_message guard_blocked =
    codes "Blocked for safety: this statement is not allowed in read-only mode."
default_message db_auth =
    codes "The database refused those credentials. Check the username and password."
default_message db_unreachable =
    codes "Can't reach the database. Check that it is running and the host and port are right."
default_message db_not_found =
    codes
      "The server answered, but there is no database with that name on it. Check the database name."
default_message db_query_error = codes "The query failed to run."
default_message db_timeout =
    codes "The query took too long and was stopped. Add filters or narrow the date range."
default_message file_parse =
    codes
      "Couldn't read that file. Check that it is not corrupt and is in the format its extension claims."
default_message wasm_load =
    codes "The local analysis engine failed to load. Check your network and browser settings."
default_message cancelled = codes "Cancelled."
default_message server_authz = codes "You don't have access to this connection."
default_message invalid_input = codes "Please enter a question."
default_message config_error =
    codes "AskSQL is misconfigured. Check its connection and model settings."

-- The `cause`, which serves logs, is left out.
pub record AskSqlErrorOptions : Type 0 where
  pub user_message : Option Text
  pub detail : Option Text
  pub retryable : Option Bool

pub record AskSqlError : Type 0 where
  pub code : ErrorCode
  pub user_message : Text
  pub retryable : Bool
  pub detail : Option Text

abbrev pub or_else {ℓ} : {A : Type ℓ} → Option A → A → A
or_else (some a) b = a
or_else none b = b

-- The constructor.
unfoldable pub ask_sql_error : ErrorCode → AskSqlErrorOptions → AskSqlError
ask_sql_error code opts = record {
  code = code;
  user_message = or_else opts.user_message (default_message code);
  retryable = or_else opts.retryable (is_retryable code);
  detail = opts.detail;
}

-- Anything that may be thrown: an `AskSqlError`, another `Error`, or a value with its text.
pub data Thrown : Type 0 where
  ask_error : AskSqlError → Thrown
  other_error : Text → Text → Thrown
  other_value : Text → Thrown

abbrev pub with_detail : Text → AskSqlErrorOptions
with_detail detail = record { user_message = none; detail = some detail; retryable = none }

-- `AskSqlError.from`
unfoldable pub from : Thrown → ErrorCode → AskSqlError
from (ask_error e) fallback = e
from (other_error name message) fallback =
    ask_sql_error fallback (with_detail (name ++ codes ": " ++ message))
from (other_value text) fallback = ask_sql_error fallback (with_detail text)

-- `toJSON`
pub record WireError : Type 0 where
  pub code : ErrorCode
  pub user_message : Text
  pub retryable : Bool

abbrev pub to_json : AskSqlError → WireError
to_json e = record { code = e.code; user_message = e.user_message; retryable = e.retryable }
