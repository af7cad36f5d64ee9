-- ===== src/CatalogCache/Stale.antt =====
-- The reads that a refresh leaves behind.
use ask_sql.Prelude.{
  ℕ, suc, ◌≤◌, Bool, true, false, Option, none, some, ◌==◌, if◌then◌else◌, Member, ◌≡◌, refl, arith,
}
use ask_sql.CatalogCache.{
  CacheEntry, Read, Store, nothing, at_hand, empty_store, wait_or_connect, ensure_connected,
  connect_ended, is_fresh, start_read, join_or_start, unless_cached, get_catalog,
}
use ask_sql.CatalogCache.Steps.{
  Introspected, catalog, failed, checked, write_back, read_ended, Step, connects, connected, asks,
  ends, Steps, here, then_step,
}
use ask_sql.CatalogCache.Shape.{IsOld-member, refreshed}
use ask_sql.CatalogCache.Newest.{store-IsSound}

module _ (allowed : Bool) where
  start_read-later :
      (refresh : Bool) (s : Store) → s.generation ≤ (start_read refresh s).1.generation
  unfolding start_read
  start_read-later true s = omega arith
  start_read-later false s = omega arith

  join_or_start-later : (o : Option ℕ) (s : Store) → s.generation ≤ (join_or_start o s).1.generation
  join_or_start-later (some p) s = omega arith
  join_or_start-later none s = start_read-later false s

  unless_cached-later :
      (now : ℕ) (o : Option CacheEntry) (s : Store)
      → s.generation ≤ (unless_cached now o s).1.generation
  unless_cached-later now none s = join_or_start-later s.inflight s
  unless_cached-later now (some entry) s =
      either_given (is_fresh now entry) (join_or_start-later s.inflight s)
    where
      either_given :
          (b : Bool)
          → s.generation ≤ (join_or_start s.inflight s).1.generation
          → s.generation
            ≤ (if b then (at_hand entry.catalog, s) else join_or_start s.inflight s).1.generation
      either_given true h = omega arith
      either_given false h = h

  ensure_connected-generation : (s : Store) → (ensure_connected s).1.generation ≡ s.generation
  unfolding ensure_connected
  ensure_connected-generation s = either_way s.connected s.connecting
    where
      either_way :
          (b : Bool) (o : Option ℕ)
          → (if b then (nothing, s) else wait_or_connect o s).1.generation ≡ s.generation
      either_way true o = refl
      either_way false (some p) = refl
      either_way false none = refl

  Step-later : {s t : Store} → Step allowed s t → s.generation ≤ t.generation
  unfolding read_ended get_catalog connect_ended
  Step-later {s} connects = let same = ensure_connected-generation s in omega arith
  Step-later {s} (connected p none m) = omega arith
  Step-later {s} (connected p (some err) m) = omega arith
  Step-later {s} (asks now true) = start_read-later true s
  Step-later {s} (asks now false) = unless_cached-later now s.cached s
  Step-later {s} (ends now r result m) = omega arith

  Steps-later : {s t : Store} → Steps allowed s t → s.generation ≤ t.generation
  Steps-later here = omega arith
  Steps-later (then_step rest step) =
      let a = Steps-later rest in let b = Step-later step in omega arith

  write_back-old :
      (now : ℕ) (r : Read) (given : Introspected) (u : Store)
      → (u.generation == r.generation) ≡ false
      → write_back now r given u ≡ u.cached
  unfolding write_back
  write_back-old now r (failed err) u old = refl
  write_back-old now r (catalog c) u old = rw (old, write_back) refl

  -- After a refresh, a read that was running before it ends without a change of the cache, whenever that
  -- is and whatever it has read: no catalog from before the refresh comes back.
  pub stale_read-kept :
      {s u : Store} (asked now : ℕ) (r : Read) (result : Introspected)
      → Steps allowed empty_store s
      → Member r s.reads
      → Steps allowed (get_catalog asked true s).1 u
      → (read_ended allowed now r result u).1.cached ≡ u.cached
  unfolding read_ended get_catalog start_read
  stale_read-kept {s} {u} asked now r result before m after =
      let shaped = (store-IsSound allowed before).shaped in
      let (less, _) =
        IsOld-member (suc s.generation) s.next_promise r s.reads
          (refreshed s.inflight s.generation s.next_promise s.reads shaped) m in
      let later = Steps-later after in
      let old : (u.generation == r.generation) ≡ false = ground arith in
      write_back-old now r (checked result allowed) u old
