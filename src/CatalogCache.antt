-- ===== src/CatalogCache.antt =====
-- packages/core/src/engine.ts: the cache of catalogs and the connecting of a connection. The maps of the
-- engine are keyed by the id of the connection, so this is their part for one connection. A promise is a
-- number; the connector's `connect` and `introspect` return one, so that a start and its end are two
-- steps, and what comes between them is arbitrary.
pub mod Sampled
pub mod Steps
pub mod Shape
pub mod Newest
pub mod Fresh
pub mod Stale
mod Tests
use ask_sql.Prelude.{
  ℕ, zero, suc, ◌+◌, Bool, true, false, not, ◌&&◌, ◌||◌, Option, none, some, List, [], ◌∷◌, ◌++◌,
  Text, codes, ltb, ◌==◌, if◌then◌else◌,
}
use ask_sql.Errors.{Thrown, ask_error, ErrorCode, db_unreachable, from, or_else}

pub record ColumnInfo : Type 0 where
  pub name : Text
  pub enum_values : Option (List Text)
  pub sampled_values : Option (List Text)

pub record TableInfo : Type 0 where
  pub name : Text
  pub columns : List ColumnInfo

-- What is read of a catalog here.
pub record SchemaCatalog : Type 0 where
  pub tables : List TableInfo
  pub warnings : List Text

-- `STALE_REFRESH_COOLDOWN_MS`, `CATALOG_TTL_MS` and `WARNED_CATALOG_TTL_MS`
abbrev pub stale_refresh_cooldown_ms : ℕ
stale_refresh_cooldown_ms = 30_000

abbrev pub catalog_ttl_ms : ℕ
catalog_ttl_ms = 300_000

abbrev pub warned_catalog_ttl_ms : ℕ
warned_catalog_ttl_ms = 30_000

-- `mayRefreshForStaleness`: the answer, and the entry of `staleRefreshAt` behind it.
unfoldable pub may_refresh_for_staleness : ℕ → Option ℕ → Bool × Option ℕ
may_refresh_for_staleness now last =
    if ltb now (or_else last 0 + stale_refresh_cooldown_ms) then (false, last) else (true, some now)

pub record CacheEntry : Type 0 where
  pub catalog : SchemaCatalog
  pub at : ℕ
  pub ttl : ℕ

-- A read of the catalog that has begun and not ended, with the generation that it began in.
pub record Read : Type 0 where
  pub promise : ℕ
  pub generation : ℕ

pub record Store : Type 0 where
  pub cached : Option CacheEntry
  pub inflight : Option ℕ
  pub generation : ℕ
  pub reads : List Read
  pub connected : Bool
  pub connecting : Option ℕ
  -- the connects that have begun and not ended
  pub connects : List ℕ
  pub next_promise : ℕ

abbrev pub empty_store : Store
empty_store = record {
  cached = none;
  inflight = none;
  generation = 0;
  reads = [];
  connected = false;
  connecting = none;
  connects = [];
  next_promise = 0;
}

-- What a call of `ensureConnected` waits for.
pub data Waiting : Type 0 where
  nothing : Waiting
  promise : ℕ → Waiting

abbrev pub wait_or_connect : Option ℕ → Store → Waiting × Store
wait_or_connect (some p) s = (promise p, s)
wait_or_connect none s = (
  promise s.next_promise,
  record s {
    connecting = some s.next_promise;
    connects = s.next_promise ∷ s.connects;
    next_promise = suc s.next_promise;
  },
)

unfoldable pub ensure_connected : Store → Waiting × Store
ensure_connected s = if s.connected then (nothing, s) else wait_or_connect s.connecting s

unfoldable pub without_connect : ℕ → List ℕ → List ℕ
without_connect p [] = []
without_connect p (q ∷ qs) = if p == q then qs else q ∷ without_connect p qs

-- The end of a connect, with the error that it threw if there is one.
unfoldable pub connect_ended : ℕ → Option Thrown → Store → Option Thrown × Store
connect_ended p none s = (
  none,
  record s { connected = true; connecting = none; connects = without_connect p s.connects },
)
connect_ended p (some err) s = (
  some (ask_error (from err db_unreachable)),
  record s { connecting = none; connects = without_connect p s.connects },
)

-- What a call of `getCatalog` gives once it is connected.
pub data Given : Type 0 where
  at_hand : SchemaCatalog → Given
  promised : ℕ → Given

abbrev pub is_fresh : ℕ → CacheEntry → Bool
is_fresh now entry = ltb now (entry.at + entry.ttl)

-- A new read, in the generation that is current or, for a refresh, in a new one.
unfoldable pub start_read : Bool → Store → Given × Store
start_read refresh s =
    let generation = if refresh then suc s.generation else s.generation in
    (
      promised s.next_promise,
      record s {
        generation = generation;
        inflight = some s.next_promise;
        reads = record { promise = s.next_promise; generation = generation } ∷ s.reads;
        next_promise = suc s.next_promise;
      },
    )

abbrev pub join_or_start : Option ℕ → Store → Given × Store
join_or_start (some p) s = (promised p, s)
join_or_start none s = start_read false s

abbrev pub unless_cached : ℕ → Option CacheEntry → Store → Given × Store
unless_cached now none s = join_or_start s.inflight s
unless_cached now (some entry) s =
    if is_fresh now entry then (at_hand entry.catalog, s) else join_or_start s.inflight s

unfoldable pub get_catalog : ℕ → Bool → Store → Given × Store
get_catalog now true s = start_read true s
get_catalog now false s = unless_cached now s.cached s
