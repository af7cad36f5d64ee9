-- ===== src/Mongo/Guard.antt =====
-- packages/core/src/mongo/guard.ts: `guardPipeline`.
pub mod Sound
use ask_sql.Prelude.{ℕ, suc, ◌+◌, Bool, true, false, Option, none, some, List, [], Text, ◌≡◌}
use ask_sql.Json.{Json, arr, Items}
use ask_sql.RowCap.{clamp_max_rows}
use ask_sql.Mongo.Policy.{MongoGuardPolicy, default_max_rows, Rule, parse_failed, integer_unsafe}
use ask_sql.Mongo.Walk.{WalkResult, walk_pipeline}
use ask_sql.Mongo.Cap.{Flags, cap_pipeline}
use ask_sql.Mongo.Integers.{has_unsafe_integer_literal}
use ask_sql.Mongo.Shell.{JsonText, to_strict_pipeline_json}

pub record MongoGuardVerdict : Type 0 where
  pub allowed : Bool
  pub pipeline_json : Text
  pub rule_id : Option Rule
  pub auto_limited : Bool
  pub lowered_limit : Bool
  pub collections : List Text

abbrev pub blocked : Rule → MongoGuardVerdict
blocked rule = record {
  allowed = false;
  pipeline_json = [];
  rule_id = some rule;
  auto_limited = false;
  lowered_limit = false;
  collections = [];
}

-- The cap that `guardPipeline` applies: the policy's, clamped once more.
abbrev pub cap_of : MongoGuardPolicy → ℕ
cap_of policy = clamp_max_rows (some policy.max_rows) default_max_rows

-- `walkPipeline(pipeline, policy, 0, new Set())`
abbrev pub walked : MongoGuardPolicy → Items → WalkResult
walked policy pipeline = walk_pipeline policy (suc policy.max_depth) pipeline []

module _ (json_text : JsonText) where
  -- What follows the walk: the capped pipeline, or the violation.
  unfoldable pub verdict_of : MongoGuardPolicy → Items → MongoGuardVerdict
  verdict_of policy pipeline = elim (walked policy pipeline).violation [
    | some rule ↦ blocked rule
    | none ↦
        let (capped, flags) = cap_pipeline (cap_of policy) pipeline in
        record {
          allowed = true;
          pipeline_json = json_text.stringify (arr capped);
          rule_id = none;
          auto_limited = flags.auto_limited;
          lowered_limit = flags.lowered_limit;
          collections = (walked policy pipeline).collections;
        }
  ]

  unfoldable pub guard_pipeline : Text → MongoGuardPolicy → MongoGuardVerdict
  unfolding verdict_of
  guard_pipeline pipeline_json policy = elim (to_strict_pipeline_json json_text pipeline_json) [
    | none ↦ blocked parse_failed
    | some (json, pipeline) ↦ elim (has_unsafe_integer_literal json) [
      | true ↦ blocked integer_unsafe
      | false ↦ verdict_of policy pipeline
    ]
  ]
