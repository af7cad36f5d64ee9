-- ===== src/CatalogCache/Steps.antt =====
-- packages/core/src/engine.ts: the end of a read of the catalog, and the steps of the store.
use ask_sql.Prelude.{
  ℕ, Bool, true, Option, none, some, List, [], ◌∷◌, ◌++◌, Text, codes, take, ◌==◌, if◌then◌else◌,
  Member,
}
use ask_sql.Errors.{Thrown, db_query_error, ask_error, ask_sql_error}
use ask_sql.CatalogCache.{
  TableInfo, SchemaCatalog, CacheEntry, Read, Store, catalog_ttl_ms, warned_catalog_ttl_ms,
  ensure_connected, connect_ended, get_catalog,
}
use ask_sql.CatalogCache.Sampled.{strip_sampled_values}

-- What `introspect` gives: a catalog, or an error.
pub data Introspected : Type 0 where
  catalog : SchemaCatalog → Introspected
  failed : Thrown → Introspected

-- `warnings.join('; ')`
unfoldable pub join_warnings : List Text → Text
join_warnings [] = []
join_warnings (w ∷ []) = w
join_warnings (w ∷ v ∷ ws) = w ++ codes "; " ++ join_warnings (v ∷ ws)

abbrev pub no_schema : List Text → Thrown
no_schema warnings = ask_error (
    ask_sql_error db_query_error (record {
      user_message = some (
          codes
            "Could not read this database's schema. Check the connection's permissions, then try again.");
      detail = some (
          codes "introspection returned no tables with warnings: "
          ++ take 500 (join_warnings warnings));
      retryable = some true;
    }))

-- What the read gives: no tables with warnings are a failure, not an empty database.
abbrev pub with_warnings : SchemaCatalog → List Text → Introspected
with_warnings c [] = catalog c
with_warnings c (w ∷ ws) = failed (no_schema c.warnings)

abbrev pub with_tables : SchemaCatalog → List TableInfo → Introspected
with_tables c (t ∷ ts) = catalog c
with_tables c [] = with_warnings c c.warnings

unfoldable pub checked : Introspected → Bool → Introspected
checked (failed err) allowed = failed err
checked (catalog c) allowed =
    let stripped = strip_sampled_values c allowed in with_tables stripped stripped.tables

abbrev pub ttl_of : SchemaCatalog → ℕ
ttl_of c = elim c.warnings [ [] ↦ catalog_ttl_ms | w ∷ ws ↦ warned_catalog_ttl_ms ]

-- The entry that a read leaves in the cache: only the newest read may write it.
unfoldable pub write_back : ℕ → Read → Introspected → Store → Option CacheEntry
write_back now r (failed err) s = s.cached
write_back now r (catalog c) s =
    if s.generation == r.generation
    then some (record { catalog = c; at = now; ttl = ttl_of c })
    else s.cached

-- `if (inflight.get(conn.id) === p) inflight.delete(conn.id)`
unfoldable pub without_inflight : ℕ → Option ℕ → Option ℕ
without_inflight p none = none
without_inflight p (some q) = if q == p then none else some q

unfoldable pub without_read : ℕ → List Read → List Read
without_read p [] = []
without_read p (r ∷ rs) = if p == r.promise then rs else r ∷ without_read p rs

-- The end of a read.
unfoldable pub read_ended : Bool → ℕ → Read → Introspected → Store → Introspected × Store
read_ended allowed now r result s =
    let given = checked result allowed in
    (
      given,
      record s {
        cached = write_back now r given s;
        inflight = without_inflight r.promise s.inflight;
        reads = without_read r.promise s.reads;
      },
    )

-- One step of the store; the time is that of the step.
pub data Step (allowed : Bool) (s : Store) : Store → Type 0 where
  connects : Step allowed s (ensure_connected s).1
  connected :
      (p : ℕ) (err : Option Thrown) → Member p s.connects → Step allowed s (connect_ended p err s).1
  asks : (now : ℕ) (refresh : Bool) → Step allowed s (get_catalog now refresh s).1
  ends :
      (now : ℕ) (r : Read) (result : Introspected)
      → Member r s.reads
      → Step allowed s (read_ended allowed now r result s).1

pub data Steps (allowed : Bool) (s : Store) : Store → Type 0 where
  here : Steps allowed s s
  then_step : {t u : Store} → Steps allowed s t → Step allowed t u → Steps allowed s u
