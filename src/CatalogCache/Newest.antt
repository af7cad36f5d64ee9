-- ===== src/CatalogCache/Newest.antt =====
-- Every step of the store keeps its shape.
use ask_sql.Prelude.{
  ℕ, suc, Bool, true, false, Option, none, some, List, [], ◌∷◌, Text, ◌==◌, if◌then◌else◌, Member,
  at_head, further, ◌≡◌, ◌⊎◌, refl, sym, ap, ◌∙◌, inl, inr, arith,
}
use mathlib.Core.Path
use ask_sql.Errors.{Thrown}
use ask_sql.CatalogCache.{
  TableInfo, SchemaCatalog, CacheEntry, Read, Store, Waiting, Given, at_hand, empty_store,
  wait_or_connect, ensure_connected, without_connect, connect_ended, is_fresh, start_read,
  join_or_start, unless_cached, get_catalog,
}
use ask_sql.CatalogCache.Sampled.{
  HasNoSamples, strip_sampled_values, strip_sampled_values-HasNoSamples,
}
use ask_sql.CatalogCache.Steps.{
  Introspected, catalog, failed, no_schema, with_warnings, with_tables, checked, write_back,
  read_ended, Step, connects, connected, asks, ends, Steps, here, then_step,
}
use ask_sql.CatalogCache.Shape.{
  IsShaped, only_of, IsClean, IsSound, IsOld-mono, ends-IsShaped, refreshed,
}

module _ (allowed : Bool) where
  refresh-IsSound : (s : Store) → IsSound allowed s → IsSound allowed (start_read true s).1
  unfolding start_read
  refresh-IsSound s h = record {
    shaped = (
      s.reads,
      refl,
      omega arith,
      refreshed s.inflight s.generation s.next_promise s.reads h.shaped,
    );
    one_connect = h.one_connect;
    clean = h.clean;
  }

  join_or_start-IsSound :
      (o : Option ℕ) (s : Store)
      → s.inflight ≡ o
      → IsSound allowed s
      → IsSound allowed (join_or_start o s).1
  unfolding start_read
  join_or_start-IsSound (some p) s e h = h
  join_or_start-IsSound none s e h = record {
    shaped = (
      s.reads,
      refl,
      omega arith,
      Path.subst (λ o. IsShaped o s.generation s.next_promise s.reads) e h.shaped,
    );
    one_connect = h.one_connect;
    clean = h.clean;
  }

  either_given :
      (b : Bool) (x y : Given × Store)
      → IsSound allowed x.1
      → IsSound allowed y.1
      → IsSound allowed (if b then x else y).1
  either_given true x y h k = h
  either_given false x y h k = k

  unless_cached-IsSound :
      (now : ℕ) (o : Option CacheEntry) (s : Store)
      → IsSound allowed s
      → IsSound allowed (unless_cached now o s).1
  unless_cached-IsSound now none s h = join_or_start-IsSound s.inflight s refl h
  unless_cached-IsSound now (some entry) s h =
      either_given (is_fresh now entry) (at_hand entry.catalog, s) _ h
        (join_or_start-IsSound s.inflight s refl h)

  get_catalog-IsSound :
      (now : ℕ) (refresh : Bool) (s : Store)
      → IsSound allowed s
      → IsSound allowed (get_catalog now refresh s).1
  unfolding get_catalog
  get_catalog-IsSound now true s h = refresh-IsSound s h
  get_catalog-IsSound now false s h = unless_cached-IsSound now s.cached s h

  IsShaped-later :
      (inflight : Option ℕ) (g n : ℕ) (reads : List Read)
      → IsShaped inflight g n reads
      → IsShaped inflight g (suc n) reads
  IsShaped-later none g n reads h = IsOld-mono reads (omega arith) (omega arith) h
  IsShaped-later (some p) g n reads (rest, same, less, old) = (rest, same, omega arith, old)

  wait_or_connect-IsSound :
      (o : Option ℕ) (s : Store)
      → s.connecting ≡ o
      → IsSound allowed s
      → IsSound allowed (wait_or_connect o s).1
  wait_or_connect-IsSound (some p) s e h = h
  wait_or_connect-IsSound none s e h = record {
    shaped = IsShaped-later s.inflight s.generation s.next_promise s.reads h.shaped;
    one_connect = ap (λ ps. s.next_promise ∷ ps) (h.one_connect ∙ ap only_of e);
    clean = h.clean;
  }

  unless_connected :
      (b : Bool) (s : Store) (x : Waiting × Store)
      → IsSound allowed s
      → IsSound allowed x.1
      → IsSound allowed (if b then (Waiting.nothing, s) else x).1
  unless_connected true s x h k = h
  unless_connected false s x h k = k

  ensure_connected-IsSound :
      (s : Store) → IsSound allowed s → IsSound allowed (ensure_connected s).1
  unfolding ensure_connected
  ensure_connected-IsSound s h =
      unless_connected s.connected s (wait_or_connect s.connecting s) h
        (wait_or_connect-IsSound s.connecting s refl h)

  only_one-ended :
      (connecting : Option ℕ) (p : ℕ) (ps : List ℕ)
      → Member p ps
      → ps ≡ only_of connecting
      → without_connect p ps ≡ []
  unfolding without_connect
  only_one-ended none p ps m e = absurd (nobody p (Path.subst (Member p) e m))
    where
      nobody : (p : ℕ) → Member p [] → ⊥
      nobody p m = elim m [ ]
  only_one-ended (some q) p ps m e =
      let same = only_member p q (Path.subst (Member p) e m) in rw (e, same) (only_removed q)
    where
      only_member : (p q : ℕ) → Member p (q ∷ []) → p ≡ q
      only_member p q (at_head e) = sym e
      only_member p q (further m) = elim m [ ]

      only_removed : (q : ℕ) → without_connect q (q ∷ []) ≡ []
      only_removed q = ground arith

  connect_ended-IsSound :
      (p : ℕ) (err : Option Thrown) (s : Store)
      → Member p s.connects
      → IsSound allowed s
      → IsSound allowed (connect_ended p err s).1
  unfolding connect_ended
  connect_ended-IsSound p none s m h = record {
    shaped = h.shaped;
    one_connect = only_one-ended s.connecting p s.connects m h.one_connect;
    clean = h.clean;
  }
  connect_ended-IsSound p (some err) s m h = record {
    shaped = h.shaped;
    one_connect = only_one-ended s.connecting p s.connects m h.one_connect;
    clean = h.clean;
  }

  checked-cases :
      (c : SchemaCatalog)
      → (checked (catalog c) allowed ≡ catalog (strip_sampled_values c allowed))
        ⊎ ((err : Thrown) × (checked (catalog c) allowed ≡ failed err))
  unfolding checked
  checked-cases c = by_tables (strip_sampled_values c allowed) _ refl
    where
      by_tables :
          (d : SchemaCatalog) (ts : List TableInfo)
          → d.tables ≡ ts
          → (with_tables d ts ≡ catalog d) ⊎ ((err : Thrown) × (with_tables d ts ≡ failed err))
      by_tables d (t ∷ ts) e = inl refl
      by_tables d [] e = by_warnings d d.warnings
        where
          by_warnings :
              (d : SchemaCatalog) (ws : List Text)
              → (with_warnings d ws ≡ catalog d)
                ⊎ ((err : Thrown) × (with_warnings d ws ≡ failed err))
          by_warnings d [] = inl refl
          by_warnings d (w ∷ ws) = inr (no_schema d.warnings, refl)

  IsClean-write :
      (b : Bool) (cached : Option CacheEntry) (c : SchemaCatalog) (now ttl : ℕ)
      → IsClean allowed cached
      → IsClean allowed (
          if b
          then some (record { catalog = strip_sampled_values c allowed; at = now; ttl = ttl })
          else cached)
  IsClean-write true cached c now ttl h = λ e same off.
      let from : strip_sampled_values c allowed ≡ e.catalog = cc in
      Path.subst HasNoSamples from (
        Path.subst (λ a. HasNoSamples (strip_sampled_values c a)) (sym off)
          (strip_sampled_values-HasNoSamples c))
  IsClean-write false cached c now ttl h = h

  write_back-IsClean :
      (now : ℕ) (r : Read) (result : Introspected) (s : Store)
      → IsClean allowed s.cached
      → IsClean allowed (write_back now r (checked result allowed) s)
  unfolding write_back checked
  write_back-IsClean now r (failed err) s h = h
  write_back-IsClean now r (catalog c) s h = elim (checked-cases c) [
    | inl e ↦ rw e (IsClean-write (s.generation == r.generation) s.cached c now _ h)
    | inr (err, e) ↦ rw e h
  ]

  read_ended-IsSound :
      (now : ℕ) (r : Read) (result : Introspected) (s : Store)
      → IsSound allowed s
      → IsSound allowed (read_ended allowed now r result s).1
  unfolding read_ended
  read_ended-IsSound now r result s h = record {
    shaped = ends-IsShaped s.inflight s.generation s.next_promise r.promise s.reads h.shaped;
    one_connect = h.one_connect;
    clean = write_back-IsClean now r result s h.clean;
  }

  pub Step-IsSound : {s t : Store} → Step allowed s t → IsSound allowed s → IsSound allowed t
  Step-IsSound {s} connects h = ensure_connected-IsSound s h
  Step-IsSound {s} (connected p err m) h = connect_ended-IsSound p err s m h
  Step-IsSound {s} (asks now refresh) h = get_catalog-IsSound now refresh s h
  Step-IsSound {s} (ends now r result m) h = read_ended-IsSound now r result s h

  pub Steps-IsSound : {s t : Store} → Steps allowed s t → IsSound allowed s → IsSound allowed t
  Steps-IsSound here h = h
  Steps-IsSound (then_step rest step) h = Step-IsSound step (Steps-IsSound rest h)

  -- Whatever starts and ends in whatever order from the empty store on: at most one connect runs at a
  -- time; at most one of the running reads is of the newest generation, and it is the one in flight;
  -- and without leave to show data the cache holds no value of a cell.
  pub store-IsSound : {s : Store} → Steps allowed empty_store s → IsSound allowed s
  store-IsSound steps =
      Steps-IsSound steps (record { shaped = tt; one_connect = refl; clean = λ e same. cc })
