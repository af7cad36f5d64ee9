-- ===== src/CatalogCache/Fresh.antt =====
-- The generations of the cache against a store without them: the read in flight is the one that writes.
use ask_sql.Prelude.{
  ℕ, Bool, true, false, Option, none, some, List, ◌∷◌, ◌==◌, if◌then◌else◌, All, Member, at_head,
  further, Bool-cases, ◌≡◌, refl, ap, ◌∙◌, inl, inr, arith,
}
use mathlib.Core.Path
use ask_sql.Errors.{Thrown}
use ask_sql.CatalogCache.{
  CacheEntry, Read, Store, nothing, at_hand, empty_store, wait_or_connect, ensure_connected,
  connect_ended, is_fresh, start_read, join_or_start, unless_cached, get_catalog,
}
use ask_sql.CatalogCache.Steps.{
  Introspected, catalog, failed, checked, ttl_of, write_back, without_inflight, read_ended, Step,
  connects, connected, asks, ends, Steps, here, then_step,
}
use ask_sql.CatalogCache.Shape.{IsOld, IsShaped, IsSound, IsOld-member}
use ask_sql.CatalogCache.Newest.{Steps-IsSound, store-IsSound}

-- What a store shows: the entry, and the read in flight.
pub record View : Type 0 where
  pub entry : Option CacheEntry
  pub running : Option ℕ

abbrev pub view : Store → View
view s = record { entry = s.cached; running = s.inflight }

-- A store with one read at a time and no generations. A question is answered by a fresh entry or joins
-- the read that runs, and begins one where none runs; a refresh puts a new read in the place of the one
-- that runs.
abbrev join_read : ℕ → Option ℕ → Option CacheEntry → View
join_read p (some q) entry = record { entry = entry; running = some q }
join_read p none entry = record { entry = entry; running = some p }

abbrev answered_by : ℕ → ℕ → Option ℕ → Option CacheEntry → View
answered_by now p running none = join_read p running none
answered_by now p running (some e) =
    if is_fresh now e
    then record { entry = some e; running = running }
    else join_read p running (some e)

abbrev pub asked_view : ℕ → ℕ → Bool → View → View
asked_view now p true v = record { entry = v.entry; running = some p }
asked_view now p false v = answered_by now p v.running v.entry

abbrev is_running : ℕ → Option ℕ → Bool
is_running p none = false
is_running p (some q) = q == p

-- The entry behind a read: what it gave, or the one before if it failed.
abbrev pub written : ℕ → Introspected → Option CacheEntry → Option CacheEntry
written now (failed err) entry = entry
written now (catalog c) entry = some (record { catalog = c; at = now; ttl = ttl_of c })

-- The end of the read that runs writes the entry; the end of any other does nothing.
abbrev pub ended_view : ℕ → ℕ → Introspected → View → View
ended_view now p given v =
    if is_running p v.running
    then record { entry = written now given v.entry; running = none }
    else v

-- What that store does for a step: the connects do nothing to it.
abbrev pub play_step : (allowed : Bool) {s t : Store} → Step allowed s t → View → View
play_step allowed connects v = v
play_step allowed (connected p err m) v = v
play_step allowed {s} (asks now refresh) v = asked_view now s.next_promise refresh v
play_step allowed (ends now r result m) v = ended_view now r.promise (checked result allowed) v

abbrev pub play : (allowed : Bool) {s t : Store} → Steps allowed s t → View → View
play allowed here v = v
play allowed (then_step steps step) v = play_step allowed step (play allowed steps v)

-- A running read has the current generation when it is the one in flight, and else it has not.
abbrev IsNewestOrOld : Option ℕ → ℕ → Read → Type 0
IsNewestOrOld inflight g r = (g == r.generation) ≡ is_running r.promise inflight

newest_or_old :
    (p g n : ℕ) (rest : List Read) (r : Read)
    → All (IsOld g p) rest
    → Member r (record { promise = p; generation = g } ∷ rest)
    → IsNewestOrOld (some p) g r
newest_or_old p g n rest r old (at_head e) =
    let here : (g == g) ≡ (p == p) = ground arith in Path.subst (IsNewestOrOld (some p) g) e here
newest_or_old p g n rest r old (further m) =
    let (less, before) = IsOld-member g p r rest old m in
    let other : (p == r.promise) ≡ false = ground arith in
    let past : (g == r.generation) ≡ false = ground arith in rw (other, past) refl

running-IsNewestOrOld :
    (inflight : Option ℕ) (g n : ℕ) (reads : List Read) (r : Read)
    → IsShaped inflight g n reads
    → Member r reads
    → IsNewestOrOld inflight g r
running-IsNewestOrOld none g n reads r h m =
    let (less, _) = IsOld-member g n r reads h m in
    let past : (g == r.generation) ≡ false = ground arith in past
running-IsNewestOrOld (some p) g n reads r (rest, same, less, old) m =
    newest_or_old p g n rest r old (Path.subst (Member r) same m)

without_inflight_running :
    (p : ℕ) (o : Option ℕ) → is_running p o ≡ true → without_inflight p o ≡ none
unfolding without_inflight
without_inflight_running p none h = refl
without_inflight_running p (some q) h = rw h refl

without_inflight_other : (p : ℕ) (o : Option ℕ) → is_running p o ≡ false → without_inflight p o ≡ o
unfolding without_inflight
without_inflight_other p none h = refl
without_inflight_other p (some q) h = rw h refl

write_back_newest :
    (now : ℕ) (r : Read) (given : Introspected) (s : Store)
    → (s.generation == r.generation) ≡ true
    → write_back now r given s ≡ written now given s.cached
unfolding write_back
write_back_newest now r (failed err) s h = refl
write_back_newest now r (catalog c) s h = rw h refl

write_back_old :
    (now : ℕ) (r : Read) (given : Introspected) (s : Store)
    → (s.generation == r.generation) ≡ false
    → write_back now r given s ≡ s.cached
unfolding write_back
write_back_old now r (failed err) s h = refl
write_back_old now r (catalog c) s h = rw h refl

module _ (allowed : Bool) where
  ended-view :
      (now : ℕ) (r : Read) (given : Introspected) (s : Store)
      → IsNewestOrOld s.inflight s.generation r
      → record { entry = write_back now r given s; running = without_inflight r.promise s.inflight }
        ≡ ended_view now r.promise given (view s)
  ended-view now r given s same = elim (Bool-cases (is_running r.promise s.inflight)) [
    | inl runs ↦
        rw
          (
            runs,
            without_inflight_running r.promise s.inflight runs,
            write_back_newest now r given s (same ∙ runs),
          )
          refl
    | inr other ↦
        rw
          (
            other,
            without_inflight_other r.promise s.inflight other,
            write_back_old now r given s (same ∙ other),
          )
          refl
  ]

  join_or_start-view :
      (o : Option ℕ) (s : Store)
      → s.inflight ≡ o
      → view (join_or_start o s).1 ≡ join_read s.next_promise o s.cached
  unfolding start_read
  join_or_start-view (some p) s e = rw e refl
  join_or_start-view none s e = refl

  unless_cached-view :
      (now : ℕ) (o : Option CacheEntry) (s : Store)
      → s.cached ≡ o
      → view (unless_cached now o s).1 ≡ answered_by now s.next_promise s.inflight o
  unless_cached-view now none s e =
      join_or_start-view s.inflight s refl ∙ ap (join_read s.next_promise s.inflight) e
  unless_cached-view now (some entry) s e =
      either_way (is_fresh now entry)
        (join_or_start-view s.inflight s refl ∙ ap (join_read s.next_promise s.inflight) e)
    where
      either_way :
          (b : Bool)
          → view (join_or_start s.inflight s).1 ≡ join_read s.next_promise s.inflight (some entry)
          → view (if b then (at_hand entry.catalog, s) else join_or_start s.inflight s).1 ≡ (
              if b
              then record { entry = some entry; running = s.inflight }
              else join_read s.next_promise s.inflight (some entry))
      either_way true h = ap (λ c. record { entry = c; running = s.inflight }) e
      either_way false h = h

  asked-view :
      (now : ℕ) (refresh : Bool) (s : Store)
      → view (get_catalog now refresh s).1 ≡ asked_view now s.next_promise refresh (view s)
  unfolding get_catalog start_read
  asked-view now true s = refl
  asked-view now false s = unless_cached-view now s.cached s refl

  wait_or_connect-view : (o : Option ℕ) (s : Store) → view (wait_or_connect o s).1 ≡ view s
  wait_or_connect-view (some p) s = refl
  wait_or_connect-view none s = refl

  ensure_connected-view : (s : Store) → view (ensure_connected s).1 ≡ view s
  unfolding ensure_connected
  ensure_connected-view s = either_way s.connected (wait_or_connect-view s.connecting s)
    where
      either_way :
          (b : Bool)
          → view (wait_or_connect s.connecting s).1 ≡ view s
          → view (if b then (nothing, s) else wait_or_connect s.connecting s).1 ≡ view s
      either_way true e = refl
      either_way false e = e

  connect_ended-view :
      (p : ℕ) (err : Option Thrown) (s : Store) → view (connect_ended p err s).1 ≡ view s
  unfolding connect_ended
  connect_ended-view p none s = refl
  connect_ended-view p (some err) s = refl

  Step-view :
      {s t : Store} (step : Step allowed s t)
      → IsSound allowed s
      → view t ≡ play_step allowed step (view s)
  unfolding read_ended
  Step-view {s} connects h = ensure_connected-view s
  Step-view {s} (connected p err m) h = connect_ended-view p err s
  Step-view {s} (asks now refresh) h = asked-view now refresh s
  Step-view {s} (ends now r result m) h =
      ended-view now r (checked result allowed) s
        (running-IsNewestOrOld s.inflight s.generation s.next_promise s.reads r h.shaped m)

  Steps-view :
      {s t : Store} (steps : Steps allowed s t)
      → IsSound allowed s
      → view t ≡ play allowed steps (view s)
  Steps-view here h = refl
  Steps-view (then_step rest step) h =
      Step-view step (Steps-IsSound allowed rest h)
      ∙ ap (play_step allowed step) (Steps-view rest h)

  -- The store with its generations shows, after any run, what a store without them shows: there a
  -- question is answered by a fresh entry, joins the read in flight or begins one, a refresh puts a new
  -- read in its place, the end of the read in flight writes what it gave (or leaves the entry where it
  -- failed) and clears it, and the end of any other read does nothing.
  pub view-play :
      {s : Store} (steps : Steps allowed empty_store s)
      → view s ≡ play allowed steps (view empty_store)
  view-play steps = Steps-view steps (store-IsSound allowed here)
