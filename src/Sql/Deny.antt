-- ===== src/Sql/Deny.antt =====
-- packages/core/src/guard.ts: the denylists of functions, per engine and policy.
pub mod Postgres
pub mod Others
use ask_sql.Prelude.{Bool, true, false, List, [], ◌∷◌, ◌++◌, Text, map, to_lower_case}
use ask_sql.Engine.{EngineKind, postgres, mysql, sqlite, duckdb, oracle}
use ask_sql.Sql.Deny.Postgres.{pg_deny_functions, pg_deny_prefixes}
use ask_sql.Sql.Deny.Others.{
  mysql_deny_functions, sqlite_deny_functions, duckdb_deny_always, duckdb_deny_suffixes,
  duckdb_deny_prefixes, duckdb_only_deny, duckdb_file_functions, oracle_deny_functions,
  oracle_deny_prefixes,
}

unfoldable pub universal_deny : List Text
universal_deny =
    pg_deny_functions ++ mysql_deny_functions ++ sqlite_deny_functions ++ duckdb_deny_always
    ++ oracle_deny_functions

unfoldable pub engine_deny : EngineKind → List Text
engine_deny postgres = universal_deny
engine_deny mysql = universal_deny
engine_deny sqlite = universal_deny
engine_deny duckdb = universal_deny
engine_deny oracle = universal_deny
engine_deny _ = []

unfoldable pub universal_deny_prefixes : List Text
universal_deny_prefixes = pg_deny_prefixes ++ oracle_deny_prefixes

abbrev pub is_duckdb : EngineKind → Bool
is_duckdb duckdb = true
is_duckdb _ = false

-- `DEFAULT_DENY_SETS[engine] ?? new Set()`
unfoldable pub default_deny_set : EngineKind → List Text
default_deny_set postgres = universal_deny ++ []
default_deny_set mysql = universal_deny ++ []
default_deny_set sqlite = universal_deny ++ []
default_deny_set duckdb = universal_deny ++ (duckdb_file_functions ++ duckdb_only_deny)
default_deny_set oracle = universal_deny ++ []
default_deny_set _ = []
