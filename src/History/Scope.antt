-- ===== src/History/Scope.antt =====
-- Retention and isolation: a bucket holds the newest entries of its own scope, up to the cap.
use ask_sql.Prelude.{
  ℕ, zero, suc, ◌≤◌, true, false, some, List, [], ◌∷◌, Text, length, length-take, take, All,
  text_eq, text_eq_iff, Bool-cases, ◌≡◌, ◌≢◌, refl, inl, inr, arith,
}
use ask_sql.History.{HistoryEntry, Buckets, key_of, bucket, set_bucket, entries, add}

-- The stores that additions to an empty store lead to.
pub data Reachable (cap : ℕ) : Buckets → Type 0 where
  initial : Reachable cap []
  added : {bs : Buckets} (e : HistoryEntry) → Reachable cap bs → Reachable cap (add cap e bs)

-- A bucket is within the cap, and its entries are of its scope.
abbrev pub IsScoped : ℕ → Text → List HistoryEntry → Type 0
IsScoped cap k es = (length es ≤ cap) × All (λ e. key_of e ≡ k) es

text_eq_refl : (k : Text) → text_eq k k ≡ true
text_eq_refl k = (text_eq_iff k k).1 refl

text_eq_other : {j k : Text} → j ≢ k → text_eq j k ≡ false
text_eq_other {j} {k} n = elim (Bool-cases (text_eq j k)) [
  | inl e ↦ absurd (n ((text_eq_iff j k).0 e))
  | inr e ↦ e
]

bucket-set_bucket :
    (k : Text) (es : List HistoryEntry) (bs : Buckets) → bucket k (set_bucket k es bs) ≡ some es
unfolding bucket set_bucket
bucket-set_bucket k es [] = rw (text_eq_refl k) refl
bucket-set_bucket k es ((j, ds) ∷ bs) = elim (Bool-cases (text_eq j k)) [
  | inl e ↦ rw (e, set_bucket, bucket) (rw e refl)
  | inr e ↦ rw (e, set_bucket, bucket) (rw e (bucket-set_bucket k es bs))
]

bucket-set_bucket_other :
    (k j : Text) (es : List HistoryEntry) (bs : Buckets)
    → k ≢ j
    → bucket j (set_bucket k es bs) ≡ bucket j bs
unfolding bucket set_bucket
bucket-set_bucket_other k j es [] n = rw (text_eq_other n) refl
bucket-set_bucket_other k j es ((i, ds) ∷ bs) n = elim (Bool-cases (text_eq i k)) [
  | inl e ↦
      let p = (text_eq_iff i k).0 e in
      let q : text_eq i j ≡ false = rw p (text_eq_other n) in rw (e, set_bucket, bucket) (rw q refl)
  | inr e ↦ elim (Bool-cases (text_eq i j)) [
    | inl f ↦ rw (e, set_bucket, bucket) (rw f refl)
    | inr f ↦ rw (e, set_bucket, bucket) (rw f (bucket-set_bucket_other k j es bs n))
  ]
]

take-All :
    (P : HistoryEntry → Type 0) (n : ℕ) (es : List HistoryEntry) → All P es → All P (take n es)
take-All P zero es h = tt
take-All P (suc n) [] h = tt
take-All P (suc n) (e ∷ es) h = (h.0, take-All P n es h.1)

-- In every store that additions lead to, the bucket of a key holds no more entries than the cap, and
-- only entries of that key.
pub entries-IsScoped :
    {cap : ℕ} {bs : Buckets} (k : Text) → Reachable cap bs → IsScoped cap k (entries (bucket k bs))
unfolding bucket add
entries-IsScoped k initial = (omega arith, tt)
entries-IsScoped {cap} k (added {bs} e r) = elim (Bool-cases (text_eq (key_of e) k)) [
  | inl same ↦
      let p = (text_eq_iff (key_of e) k).0 same in
      let old = entries-IsScoped (key_of e) r in
      let new = e ∷ entries (bucket (key_of e) bs) in
      rw (← p) (
        rw (bucket-set_bucket (key_of e) (take cap new) bs) (
          omega (arith, length-take cap new),
          take-All (λ d. key_of d ≡ key_of e) cap new (refl, old.1),
        ))
  | inr other ↦
      let n : key_of e ≢ k = λ p. let q = (text_eq_iff (key_of e) k).1 p in cc in
      rw (bucket-set_bucket_other (key_of e) k _ bs n) (entries-IsScoped k r)
]

-- The entry that was added last is the newest of its scope, and no other scope changes: its entries
-- neither grow nor are evicted.
pub bucket-add :
    (cap : ℕ) (e : HistoryEntry) (bs : Buckets)
    → (bucket (key_of e) (add (suc cap) e bs)
        ≡ some (e ∷ take cap (entries (bucket (key_of e) bs))))
      × ((k : Text) → key_of e ≢ k → bucket k (add (suc cap) e bs) ≡ bucket k bs)
unfolding add
bucket-add cap e bs =
    (bucket-set_bucket (key_of e) _ bs, λ k n. bucket-set_bucket_other (key_of e) k _ bs n)
