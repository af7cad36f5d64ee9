-- ===== src/Sql/Policy.antt =====
-- packages/core/src/guard.ts: the policy, its resolution, the rules of a refusal, and the context
-- that the walk gets from policy and dialect.
pub mod Resolved
use ask_sql.Prelude.{
  ℕ, Bool, true, false, not, ◌&&◌, Option, none, some, List, [], ◌∷◌, ◌++◌, Text, codes, text_eq,
  map, if◌then◌else◌, to_lower_case,
}
use ask_sql.Json.{Num, whole}
use ask_sql.RowCap.{clamp_max_rows}
use ask_sql.Mongo.Policy.{spread}
use ask_sql.Engine.{EngineKind}
use ask_sql.Sql.Deny.{engine_deny, default_deny_set, universal_deny_prefixes, is_duckdb}
use ask_sql.Sql.Deny.Others.{
  duckdb_deny_suffixes, duckdb_deny_prefixes, duckdb_only_deny, duckdb_file_functions,
}

-- The policy after its resolution: the mode is always read-only, so it is not a field, and the row
-- cap was clamped to a natural number.
pub record GuardPolicy : Type 0 where
  pub max_rows : ℕ
  pub deny_functions : List Text
  pub allow_file_functions : Bool
  pub max_sql_length : ℕ
  pub max_depth : ℕ

abbrev pub default_cap : ℕ
default_cap = 1000

abbrev pub default_guard_policy : GuardPolicy
default_guard_policy = record {
  max_rows = default_cap;
  deny_functions = [];
  allow_file_functions = false;
  max_sql_length = 100_000;
  max_depth = 400;
}

-- `Partial<GuardPolicy>`, with the mode that an untyped caller may send
pub record PartialGuardPolicy : Type 0 where
  pub mode : Option Text
  pub max_rows : Option Num
  pub deny_functions : Option (List Text)
  pub allow_file_functions : Option Bool
  pub max_sql_length : Option ℕ
  pub max_depth : Option ℕ

abbrev pub merged : PartialGuardPolicy → GuardPolicy
merged partial = record {
  max_rows = clamp_max_rows (some (spread (whole default_cap) partial.max_rows)) default_cap;
  deny_functions = default_guard_policy.deny_functions ++ spread [] partial.deny_functions;
  allow_file_functions =
      spread (default_guard_policy.allow_file_functions) partial.allow_file_functions;
  max_sql_length = spread (default_guard_policy.max_sql_length) partial.max_sql_length;
  max_depth = spread (default_guard_policy.max_depth) partial.max_depth;
}

-- `none` is the thrown `CONFIG_ERROR`; an empty mode counts as none.
abbrev pub is_read_only : Option Text → Bool
is_read_only none = true
is_read_only (some []) = true
is_read_only (some (c ∷ s)) = text_eq (c ∷ s) (codes "read-only")

unfoldable pub resolve_guard_policy : PartialGuardPolicy → Option GuardPolicy
resolve_guard_policy partial = if is_read_only partial.mode then some (merged partial) else none

-- The `ruleId` of a violation that the walk finds.
pub data WalkRule : Type 0 where
  too_deep select_into file_relation : WalkRule
  statement_not_allowed sequence_pseudo_column function_denied : Text → WalkRule

pub record WalkContext : Type 0 where
  pub deny_set : List Text
  pub deny_suffixes : List Text
  pub deny_prefixes : List Text
  pub engine : EngineKind

abbrev pub is_empty {ℓ} : {A : Type ℓ} → List A → Bool
is_empty [] = true
is_empty (x ∷ xs) = false

abbrev pub duckdb_deny : Bool → List Text
duckdb_deny allow_file_functions =
    duckdb_only_deny ++ (if allow_file_functions then [] else duckdb_file_functions)

unfoldable pub deny_set_of : GuardPolicy → EngineKind → List Text
deny_set_of policy engine =
    if is_empty policy.deny_functions && not policy.allow_file_functions
    then default_deny_set engine
    else map to_lower_case (
        engine_deny engine
        ++ ((if is_duckdb engine then duckdb_deny policy.allow_file_functions else [])
            ++ policy.deny_functions))

unfoldable pub context_of : GuardPolicy → EngineKind → WalkContext
context_of policy engine = record {
  deny_set = deny_set_of policy engine;
  deny_suffixes = if is_duckdb engine then duckdb_deny_suffixes else [];
  deny_prefixes =
      if is_duckdb engine && not policy.allow_file_functions
      then universal_deny_prefixes ++ duckdb_deny_prefixes
      else universal_deny_prefixes;
  engine = engine;
}
