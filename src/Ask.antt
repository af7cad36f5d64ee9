-- ===== src/Ask.antt =====
-- packages/core/src/engine.ts: what the loop of `askImpl` works on. A question is asked of a language
-- model, again and again until its reply passes the guard and the floors behind it. The functions of
-- other files that the loop calls, the model and the database among them, are the record `Calls`, with
-- all that stays the same during one question filled in.
pub mod Texts
pub mod Checks
pub mod Turn
pub mod Loop
pub mod Entry
pub mod Descent
pub mod Bounds
pub mod Good
pub mod Sound
pub mod Safe
pub mod Whole
mod Tests
use ask_sql.Prelude.{ℕ, Bool, Option, List, Text}
use ask_sql.Json.{Num}
use ask_sql.Errors.{Thrown}
use ask_sql.Sql.Guard.{DialectInfo, GuardRule, GuardVerdict}
use ask_sql.Floors.{SchemaCatalog}

-- What one question is asked with.
pub record Setting : Type 0 where
  pub question : Text
  pub connection_id : Text
  pub dialect : DialectInfo
  pub catalog : SchemaCatalog
  pub quotable_names : List Text
  pub quotable_tables : List Text
  pub any_reserved : List Text
  pub engine_reserved : List Text
  pub allow_data_in_prompt : Bool
  pub has_context : Bool

pub record Extraction : Type 0 where
  pub sql : Text
  pub explanation : Text

pub record FanOut : Type 0 where
  pub column : Text
  pub parent : Text
  pub child : Text

pub record EpochMismatch : Type 0 where
  pub column : Text
  pub db_type : Text
  pub compared_to : Text

pub record CodeLiteral : Type 0 where
  pub schema : Option Text
  pub table : Text
  pub column : Text
  pub literal : Num

-- The arguments of `buildRepairUser` that differ from call to call.
pub record RepairRequest : Type 0 where
  pub failed_sql : Text
  pub failure : Text
  pub schema_text : Text
  pub allow_impossible : Bool

-- What the model answers to a prompt: a text and the tokens it took, or an error.
pub data ModelReply : Type 0 where
  replied : Text → ℕ → ℕ → ModelReply
  refused : Thrown → ModelReply

pub record Calls : Type 0 where
  -- the model, at its n-th call during the question
  pub call_model : ℕ → Text → ModelReply
  pub build_repair_user : RepairRequest → Text
  pub extract_sql : Text → Option Extraction
  pub extract_impossible : Text → Option Text
  pub is_model_refusal : Text → Bool
  pub is_metadata_question : Text → Bool
  pub catalog_query_hint : Text
  pub closest_table_name : Text → Option Text
  -- the schema text of the tighter catalog, and the prompt with it
  pub tighter_schema : Text
  pub tighter_prompt : Text
  pub guard_sql : Text → GuardVerdict
  pub reason_of : GuardVerdict → Option Text
  pub rule_text : GuardVerdict → Option Text
  pub table_list : Text → Text → Option (List Text)
  pub column_list : Text → Text → Option (List Text)
  pub ungrouped_aggregate : Text → Option Text
  pub nested_aggregate : Text → Option Text
  pub fan_out_aggregate : Text → Option FanOut
  pub epoch_unit_mismatch : Text → Option EpochMismatch
  pub code_literals : Text → List CodeLiteral
  pub code_values_of : CodeLiteral → Option (List Text)
  pub sanitize_value : Text → Text
  pub number_text : Num → Text
  pub number_of : Text → Num
  pub join_graph : List Text
  pub dangling_reference : Text → Bool → Option Text

-- The variables of the loop.
pub record State : Type 0 where
  pub attempt : ℕ
  pub calls_made : ℕ
  pub user_prompt : Text
  pub schema_text : Text
  pub last_sql : Text
  pub every_reply_empty : Bool
  pub semantic_notes : List Text
  pub context_shrunk : Bool
  pub tried_metadata_repair : Bool
  pub tried_fuzzy_repair : Bool
  pub input_tokens : ℕ
  pub output_tokens : ℕ

pub record AskResult : Type 0 where
  pub sql : Text
  pub explanation : Text
  pub guard : GuardVerdict
  pub connection_id : Text
  pub input_tokens : ℕ
  pub output_tokens : ℕ
  pub repairs : ℕ

-- The row that a blocked statement leaves in the history.
pub record BlockedRow : Type 0 where
  pub question : Text
  pub sql : Text
  pub error_code : Option GuardRule

-- How a question ends: with an answer, or with an error and perhaps a row in the history.
pub data Outcome : Type 0 where
  answered : AskResult → Outcome
  threw : Thrown → Option BlockedRow → Outcome

-- How one round of the loop ends.
pub data Round : Type 0 where
  again : State → Round
  ended : Outcome → Round

abbrev pub max_repairs : ℕ
max_repairs = 2
