-- ===== src/History/Tests.antt =====
-- Runs of the history store, and its theorems at a concrete store.
use ask_sql.Prelude.{
  none, some, List, [], ◌∷◌, Text, codes, includes, text_eq, Member, at_head, false, ◌≡◌, ◌⊎◌, refl,
}
use ask_sql.History.{
  HistoryEntry, key, key_of, bucket, set_bucket, entries, add, rows, list_page, sort, insert,
  text_lt, of_connection, all_of,
}
use ask_sql.History.Scope.{Reachable, initial, added, IsScoped, entries-IsScoped}
use ask_sql.History.Page.{list_page-Member}

abbrev entry_of : Text → Text → Text → HistoryEntry
entry_of at connection user = record {
  at = at;
  connection_id = connection;
  user_id = some user;
  payload = [];
}

abbrev first_entry : HistoryEntry
first_entry = entry_of (codes "2025-01-01") (codes "db") (codes "ann")

abbrev second_entry : HistoryEntry
second_entry = entry_of (codes "2025-01-02") (codes "db") (codes "bob")

abbrev store : List (Text × List HistoryEntry)
store = add 1 second_entry (add 1 first_entry [])

abbrev store_reachable : Reachable 1 store
store_reachable = added second_entry (added first_entry initial)

user_run : (list_page (codes "db") none none (some (codes "ann")) store).items ≡ first_entry ∷ []
unfolding list_page rows add bucket set_bucket key text_eq
user_run = refl

-- A row without a user stands in the page of the empty user.
abbrev local_entry : HistoryEntry
local_entry = record { at = []; connection_id = codes "db"; user_id = none; payload = [] }

shared_bucket_run :
    (list_page (codes "db") none none (some []) (add 1 local_entry [])).items ≡ local_entry ∷ []
unfolding list_page rows add bucket set_bucket key text_eq
shared_bucket_run = refl

newest_run : rows (codes "db") none store ≡ second_entry ∷ first_entry ∷ []
unfolding rows add bucket set_bucket key text_eq sort insert text_lt of_connection all_of
newest_run = refl

there : Member first_entry (list_page (codes "db") none none (some (codes "ann")) store).items
unfolding list_page rows add bucket set_bucket key text_eq
there = at_head refl

no_zero : includes 0 (codes "db") ≡ false
unfolding includes
no_zero = refl

entries-IsScoped_example :
    IsScoped 1 (key_of first_entry) (entries (bucket (key_of first_entry) store))
entries-IsScoped_example = entries-IsScoped (key_of first_entry) store_reachable

list_page-Member_example :
    (codes "db" ≡ codes "db")
    × ((some (codes "ann") ≡ some (codes "ann"))
        ⊎ ((codes "ann" ≡ []) × (some (codes "ann") ≡ none)))
list_page-Member_example =
    list_page-Member (codes "db") (codes "ann") none none store_reachable no_zero no_zero there
