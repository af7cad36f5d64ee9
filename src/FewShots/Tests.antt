-- ===== src/FewShots/Tests.antt =====
-- Runs of the store of examples, and its theorems at a concrete store.
use ask_sql.Prelude.{
  false, includes, none, List, [], ◌∷◌, Text, codes, take, text_eq, has, Member, to_lower_case,
  skip_space, is_space, ◌≡◌, ◌↔◌, refl,
}
use ask_sql.Sql.Rewrite.{trim_end}
use ask_sql.History.{key}
use ask_sql.FewShots.{
  FewShotExample, Examples, pieces, new_terms, terms, overlap, examples_of, set_examples,
  without_question, add_example, scored, insert_scored, sort_scored, retrieve,
}
use ask_sql.FewShots.Distinct.{Kept, empty_store, added, IsKept, examples_of-IsKept}
use ask_sql.FewShots.Added.{WasAdded}
use ask_sql.FewShots.Retrieval.{HasShared, IsRanked, retrieve-IsRanked}

abbrev example : Text → Text → FewShotExample
example question sql = record { question = question; sql = sql }

abbrev total_sales : FewShotExample
total_sales = example (codes "Total sales per region") (codes "SELECT 1")

abbrev newest_orders : FewShotExample
newest_orders = example (codes "Newest orders") (codes "SELECT 2")

abbrev total_again : FewShotExample
total_again = example (codes " total SALES per region ") (codes "SELECT 3")

abbrev store : Examples
store =
    add_example 5 (codes "db") total_again none (
      add_example 5 (codes "db") newest_orders none
        (add_example 5 (codes "db") total_sales none []))

abbrev store_kept : Kept 5 store
store_kept =
    added (codes "db") total_again none
      (added (codes "db") newest_orders none (added (codes "db") total_sales none empty_store))

store_run : examples_of (key (codes "db") none) store ≡ total_again ∷ newest_orders ∷ []
unfolding examples_of add_example set_examples without_question key text_eq to_lower_case skip_space
    trim_end is_space
store_run = refl

terms_run :
    terms (codes "Show the TOTAL sales, total by day")
    ≡ codes "total" ∷ codes "sales" ∷ codes "day" ∷ []
unfolding terms pieces new_terms to_lower_case has text_eq
terms_run = refl

retrieve_run :
    retrieve (codes "db") (codes "orders by sales region") 4 none store
    ≡ total_again ∷ newest_orders ∷ []
unfolding retrieve examples_of add_example set_examples without_question key text_eq to_lower_case
    skip_space trim_end is_space terms pieces new_terms has overlap scored insert_scored sort_scored
retrieve_run = refl

examples_of-IsKept_example : IsKept 5 (examples_of (key (codes "db") none) store)
examples_of-IsKept_example = examples_of-IsKept (key (codes "db") none) store_kept

no_zero : includes 0 (codes "db") ≡ false
unfolding includes
no_zero = refl

retrieve-IsRanked_example :
    (ranking : List FewShotExample) × (retrieve
        (codes "db")
        (codes "orders by sales region")
        4
        none
        store
      ≡ take 4 ranking)
    × IsRanked (codes "orders by sales region") ranking
    × ((e : FewShotExample)
        → Member e ranking ↔ (
            Member e (examples_of (key (codes "db") none) store)
            × HasShared (codes "orders by sales region") e))
    × ((e : FewShotExample) → Member e ranking → WasAdded store_kept (codes "db") none e)
retrieve-IsRanked_example =
    retrieve-IsRanked store_kept (codes "db") (codes "orders by sales region") 4 none
      (no_zero, (no_zero, (no_zero, tt))) no_zero
