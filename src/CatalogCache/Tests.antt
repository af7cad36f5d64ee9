-- ===== src/CatalogCache/Tests.antt =====
-- Runs of the store: a read that a refresh overtakes, and the theorems at it.
use ask_sql.Prelude.{true, false, none, some, [], ◌∷◌, Text, codes, at_head, ◌≡◌, refl}
use ask_sql.CatalogCache.{
  SchemaCatalog, Read, Store, empty_store, may_refresh_for_staleness, start_read, get_catalog,
}
use ask_sql.CatalogCache.Sampled.{some_samples, any_samples, strip_sampled_values}
use ask_sql.CatalogCache.Steps.{
  catalog, checked, write_back, read_ended, asks, ends, Steps, here, then_step,
}
use ask_sql.CatalogCache.Shape.{IsSound}
use ask_sql.CatalogCache.Newest.{store-IsSound}
use ask_sql.CatalogCache.Fresh.{view, play, view-play}
use ask_sql.CatalogCache.Stale.{stale_read-kept}

abbrev one_table : Text → SchemaCatalog
one_table name = record {
  tables =
      record {
        name = name;
        columns =
            record {
              name = codes "state";
              enum_values = none;
              sampled_values = some (codes "secret" ∷ []);
            }
            ∷ [];
      }
      ∷ [];
  warnings = [];
}

abbrev old_read : Read
old_read = record { promise = 0; generation = 0 }

abbrev new_read : Read
new_read = record { promise = 1; generation = 1 }

-- A question starts a read.
abbrev asked : Store
asked = (get_catalog 0 false empty_store).1

asked-Steps : Steps false empty_store asked
asked-Steps = then_step here (asks 0 false)

-- A refresh starts another, which ends first.
abbrev refreshed : Store
refreshed = (get_catalog 5 true asked).1

abbrev ended : Store
ended = (read_ended false 10 new_read (catalog (one_table (codes "new"))) refreshed).1

refreshed-Steps : Steps false refreshed ended
unfolding get_catalog start_read
refreshed-Steps =
    then_step here (ends 10 new_read (catalog (one_table (codes "new"))) (at_head refl))

ended-Steps : Steps false empty_store ended
unfolding get_catalog start_read
ended-Steps =
    then_step (then_step asked-Steps (asks 5 true))
      (ends 10 new_read (catalog (one_table (codes "new"))) (at_head refl))

-- The entry is the catalog of the refresh, without its sampled values.
ended_run :
    ended.cached
    ≡ some (record {
      catalog = strip_sampled_values (one_table (codes "new")) false;
      at = 10;
      ttl = 300_000;
    })
unfolding read_ended write_back checked get_catalog start_read strip_sampled_values any_samples
    some_samples
ended_run = refl

cooldown_run :
    (may_refresh_for_staleness 40_000 (some 10_001) ≡ (false, some 10_001))
    × (may_refresh_for_staleness 40_001 (some 10_001) ≡ (true, some 40_001))
unfolding may_refresh_for_staleness
cooldown_run = (refl, refl)

store-IsSound_example : IsSound false ended
store-IsSound_example = store-IsSound false ended-Steps

view-play_example : view ended ≡ play false ended-Steps (view empty_store)
view-play_example = view-play false ended-Steps

stale_read-kept_example :
    (read_ended false 20 old_read (catalog (one_table (codes "old"))) ended).1.cached ≡ ended.cached
unfolding get_catalog start_read
stale_read-kept_example =
    stale_read-kept false 5 20 old_read (catalog (one_table (codes "old"))) asked-Steps
      (at_head refl) refreshed-Steps
