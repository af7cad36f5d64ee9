-- ===== src/History.antt =====
-- packages/core/src/history.ts: `MemoryHistoryStore`. A bucket map lists its keys in the order of
-- insertion, with one bucket for each key.
pub mod Scope
pub mod Page
mod Tests
use ask_sql.Prelude.{
  ℕ, zero, suc, ◌+◌, min, Bool, true, false, Option, none, some, List, [], ◌∷◌, ◌++◌, Text, length,
  take, drop, text_eq, if◌then◌else◌, ltb, ◌==◌, ◌<|>◌,
}
use Prim.Native.Nat.{max}

-- What the store reads of an entry; the question, the statement and its outcome are carried along
-- in `payload`.
pub record HistoryEntry : Type 0 where
  pub at : Text
  pub connection_id : Text
  pub user_id : Option Text
  pub payload : Text

abbrev pub Buckets : Type 0
Buckets = List (Text × List HistoryEntry)

abbrev pub or_empty : Option Text → Text
or_empty none = []
or_empty (some t) = t

-- The two ids with a zero code unit between them.
unfoldable pub key : Text → Option Text → Text
key connection_id user_id = connection_id ++ 0 ∷ or_empty user_id

abbrev pub key_of : HistoryEntry → Text
key_of e = key e.connection_id e.user_id

-- `Map.prototype.get` and `Map.prototype.set`
unfoldable pub bucket : Text → Buckets → Option (List HistoryEntry)
bucket k [] = none
bucket k ((j, es) ∷ bs) = if text_eq j k then some es else bucket k bs

unfoldable pub set_bucket : Text → List HistoryEntry → Buckets → Buckets
set_bucket k es [] = (k, es) ∷ []
set_bucket k es ((j, ds) ∷ bs) = if text_eq j k then (j, es) ∷ bs else (j, ds) ∷ set_bucket k es bs

abbrev pub entries : Option (List HistoryEntry) → List HistoryEntry
entries none = []
entries (some es) = es

-- `add`, with the cap of the constructor
unfoldable pub add : ℕ → HistoryEntry → Buckets → Buckets
add cap_per_scope entry buckets =
    set_bucket (key_of entry) (take cap_per_scope (entry ∷ entries (bucket (key_of entry) buckets)))
      buckets

-- An integer that a caller may send: a natural number, or one below zero.
pub data ℤ : Type 0 where
  pos : ℕ → ℤ
  negsuc : ℕ → ℤ

abbrev pub limit_of : Option ℤ → ℕ
limit_of none = 50
limit_of (some (pos n)) = max 1 (min n 200)
limit_of (some (negsuc n)) = 1

abbrev pub offset_of : Option ℤ → ℕ
offset_of (some (pos n)) = n
offset_of _ = 0

-- `a.at < b.at` on strings
unfoldable pub text_lt : Text → Text → Bool
text_lt a [] = false
text_lt [] (d ∷ t) = true
text_lt (c ∷ s) (d ∷ t) = let rest = text_lt s t in if c == d then rest else ltb c d

-- The stable sort, the newest first: an entry goes behind those that are not older than it.
unfoldable pub insert : HistoryEntry → List HistoryEntry → List HistoryEntry
insert e [] = e ∷ []
insert e (d ∷ ds) = let rest = insert e ds in if text_lt e.at d.at then d ∷ rest else e ∷ d ∷ ds

unfoldable pub sort : List HistoryEntry → List HistoryEntry
sort [] = []
sort (e ∷ es) = insert e (sort es)

unfoldable pub of_connection : Text → List HistoryEntry → List HistoryEntry
of_connection connection_id [] = []
of_connection connection_id (e ∷ es) =
    let rest = of_connection connection_id es in
    if text_eq e.connection_id connection_id then e ∷ rest else rest

unfoldable pub all_of : Text → Buckets → List HistoryEntry
all_of connection_id [] = []
all_of connection_id ((k, es) ∷ bs) = of_connection connection_id es ++ all_of connection_id bs

unfoldable pub rows : Text → Option Text → Buckets → List HistoryEntry
rows connection_id (some user) buckets = entries (bucket (key connection_id (some user)) buckets)
rows connection_id none buckets = sort (all_of connection_id buckets)

pub record HistoryPage : Type 0 where
  pub items : List HistoryEntry
  pub total : ℕ

unfoldable pub list_page : Text → Option ℤ → Option ℤ → Option Text → Buckets → HistoryPage
list_page connection_id limit offset user_id buckets = record {
  items = take (limit_of limit) (drop (offset_of offset) (rows connection_id user_id buckets));
  total = length (rows connection_id user_id buckets);
}
