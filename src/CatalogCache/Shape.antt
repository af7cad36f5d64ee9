-- ===== src/CatalogCache/Shape.antt =====
-- The shape of the reads that run: at most one is of the newest generation, the one in flight.
use ask_sql.Prelude.{
  ℕ, suc, ◌<◌, ◌≤◌, Bool, true, false, Option, none, some, List, [], ◌∷◌, ◌==◌, All, Member,
  at_head, further, Bool-cases, ◌≡◌, refl, sym, inl, inr, arith,
}
use mathlib.Core.Path
use ask_sql.CatalogCache.{CacheEntry, Read, Store}
use ask_sql.CatalogCache.Sampled.{HasNoSamples}
use ask_sql.CatalogCache.Steps.{without_inflight, without_read}

-- A read of an older generation, with an older promise.
abbrev pub IsOld : ℕ → ℕ → Read → Type 0
IsOld generation next r = (r.generation < generation) × (r.promise < next)

abbrev pub IsShaped : Option ℕ → ℕ → ℕ → List Read → Type 0
IsShaped none generation next reads = All (IsOld generation next) reads
IsShaped (some p) generation next reads =
    (rest : List Read) × (reads ≡ record { promise = p; generation = generation } ∷ rest)
    × (p < next)
    × All (IsOld generation p) rest

abbrev pub only_of : Option ℕ → List ℕ
only_of none = []
only_of (some p) = p ∷ []

-- What a catalog in the cache has passed.
abbrev pub IsClean : Bool → Option CacheEntry → Type 0
IsClean allowed cached =
    (e : CacheEntry) → cached ≡ some e → allowed ≡ false → HasNoSamples e.catalog

pub record IsSound (allowed : Bool) (s : Store) : Type 0 where
  pub shaped : IsShaped s.inflight s.generation s.next_promise s.reads
  pub one_connect : s.connects ≡ only_of s.connecting
  pub clean : IsClean allowed s.cached

pub IsOld-mono :
    {g h n m : ℕ} (rs : List Read) → g ≤ h → n ≤ m → All (IsOld g n) rs → All (IsOld h m) rs
IsOld-mono [] a b h = tt
IsOld-mono (r ∷ rs) a b ((less, before), h) = ((omega arith, omega arith), IsOld-mono rs a b h)

pub IsOld-member :
    (g n : ℕ) (r : Read) (rs : List Read) → All (IsOld g n) rs → Member r rs → IsOld g n r
IsOld-member g n r [] h m = elim m [ ]
IsOld-member g n r (q ∷ rs) (h, hs) (at_head e) = Path.subst (IsOld g n) e h
IsOld-member g n r (q ∷ rs) (h, hs) (further m) = IsOld-member g n r rs hs m

without_read-IsOld :
    (g n p : ℕ) (rs : List Read) → All (IsOld g n) rs → All (IsOld g n) (without_read p rs)
unfolding without_read
without_read-IsOld g n p [] h = tt
without_read-IsOld g n p (r ∷ rs) (h, hs) = elim (Bool-cases (p == r.promise)) [
  | inl e ↦ rw (e, without_read) hs
  | inr e ↦ rw (e, without_read) (h, without_read-IsOld g n p rs hs)
]

newest_or_not :
    (p q g n : ℕ) (rest : List Read)
    → p < n
    → All (IsOld g p) rest
    → IsShaped
        (without_inflight q (some p))
        g
        n
        (without_read q (record { promise = p; generation = g } ∷ rest))
unfolding without_read without_inflight
newest_or_not p q g n rest less old = elim (Bool-cases (p == q)) [
  | inl e ↦
      let back : (q == p) ≡ true = ground arith in
      rw (e, back, without_inflight, without_read) (IsOld-mono rest (omega arith) (omega arith) old)
  | inr e ↦
      let back : (q == p) ≡ false = ground arith in
      rw (e, back, without_inflight, without_read)
        (without_read q rest, refl, less, without_read-IsOld g p q rest old)
]

pub ends-IsShaped :
    (inflight : Option ℕ) (g n q : ℕ) (reads : List Read)
    → IsShaped inflight g n reads
    → IsShaped (without_inflight q inflight) g n (without_read q reads)
unfolding without_inflight
ends-IsShaped none g n q reads h = without_read-IsOld g n q reads h
ends-IsShaped (some p) g n q reads (rest, same, less, old) =
    Path.subst (λ rs. IsShaped (without_inflight q (some p)) g n (without_read q rs)) (sym same)
      (newest_or_not p q g n rest less old)

-- All running reads of a refresh's past are older than it.
pub refreshed :
    (inflight : Option ℕ) (g n : ℕ) (reads : List Read)
    → IsShaped inflight g n reads
    → All (IsOld (suc g) n) reads
refreshed none g n reads h = IsOld-mono reads (omega arith) (omega arith) h
refreshed (some p) g n reads (rest, same, less, old) =
    Path.subst (All (IsOld (suc g) n)) (sym same)
      ((omega arith, less), IsOld-mono rest (omega arith) (omega arith) old)
