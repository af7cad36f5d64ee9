-- ===== src/Mongo/Policy.antt =====
-- packages/core/src/mongo/guard.ts: the policy, its resolution and the rules of a refusal.
use ask_sql.Prelude.{ℕ, Option, none, some, Text}
use ask_sql.Json.{Num, whole}
use ask_sql.RowCap.{clamp_max_rows}

-- `maxRows` is the untrusted number that the caller sent; the other two are counts.
pub record MongoGuardPolicy : Type 0 where
  pub max_rows : Num
  pub max_depth : ℕ
  pub max_regex_pattern_length : ℕ

abbrev pub default_max_rows : ℕ
default_max_rows = 1000

abbrev pub default_mongo_guard_policy : MongoGuardPolicy
default_mongo_guard_policy = record {
  max_rows = whole default_max_rows;
  max_depth = 400;
  max_regex_pattern_length = 200;
}

-- `Partial<MongoGuardPolicy>`
pub record PartialPolicy : Type 0 where
  pub max_rows : Option Num
  pub max_depth : Option ℕ
  pub max_regex_pattern_length : Option ℕ

-- `{ ...defaults, ...partial }` on one property
abbrev pub spread {ℓ} : {A : Type ℓ} → A → Option A → A
spread d none = d
spread d (some a) = a

unfoldable pub resolve_mongo_guard_policy : PartialPolicy → MongoGuardPolicy
resolve_mongo_guard_policy partial = record {
  max_rows = whole (
      clamp_max_rows (some (spread (default_mongo_guard_policy.max_rows) partial.max_rows))
        default_max_rows);
  max_depth = spread (default_mongo_guard_policy.max_depth) partial.max_depth;
  max_regex_pattern_length =
      spread (default_mongo_guard_policy.max_regex_pattern_length) partial.max_regex_pattern_length;
}

-- The `ruleId` of a violation; the two templates carry the name that they print.
pub data Rule : Type 0 where
  too_deep invalid_stage regex_too_long regex_unsafe regex_opaque unbounded_accumulator : Rule
  parse_failed integer_unsafe : Rule
  stage_denied operator_denied : Text → Rule
