-- ===== src/Engine.antt =====
-- packages/core/src/types.ts: the engines that a guarded statement may be meant for.
use ask_sql.Prelude.{Text}

pub data EngineKind : Type 0 where
  postgres mysql sqlite duckdb oracle mongodb : EngineKind
  other : Text → EngineKind
