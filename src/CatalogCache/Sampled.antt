-- ===== src/CatalogCache/Sampled.antt =====
-- packages/core/src/engine.ts: `stripSampledValues`, which keeps the values of cells out of a catalog.
use ask_sql.Prelude.{
  Bool, true, false, not, ◌||◌, none, some, List, [], ◌∷◌, if◌then◌else◌, map, Bool-cases, ◌≡◌,
  refl, inl, inr,
}
use ask_sql.CatalogCache.{ColumnInfo, TableInfo, SchemaCatalog}

abbrev pub has_samples : ColumnInfo → Bool
has_samples c = elim c.sampled_values [ none ↦ false | some [] ↦ false | some (v ∷ vs) ↦ true ]

unfoldable pub some_samples : List ColumnInfo → Bool
some_samples [] = false
some_samples (c ∷ cs) = has_samples c || some_samples cs

unfoldable pub any_samples : List TableInfo → Bool
any_samples [] = false
any_samples (t ∷ ts) = some_samples t.columns || any_samples ts

abbrev pub bare_column : ColumnInfo → ColumnInfo
bare_column c = record c { sampled_values = none }

abbrev pub bare_table : TableInfo → TableInfo
bare_table t = record t { columns = map bare_column t.columns }

unfoldable pub strip_sampled_values : SchemaCatalog → Bool → SchemaCatalog
strip_sampled_values catalog allowed =
    if allowed || not (any_samples catalog.tables)
    then catalog
    else record catalog { tables = map bare_table catalog.tables }

-- A catalog that holds no value of a cell.
abbrev pub HasNoSamples : SchemaCatalog → Type 0
HasNoSamples catalog = any_samples catalog.tables ≡ false

some_samples-map : (cs : List ColumnInfo) → some_samples (map bare_column cs) ≡ false
unfolding some_samples
some_samples-map [] = refl
some_samples-map (c ∷ cs) = some_samples-map cs

any_samples-map : (ts : List TableInfo) → any_samples (map bare_table ts) ≡ false
unfolding any_samples
any_samples-map [] = refl
any_samples-map (t ∷ ts) = rw (some_samples-map t.columns) (any_samples-map ts)

-- Without leave to show data, no value of a cell is left in the catalog.
pub strip_sampled_values-HasNoSamples :
    (catalog : SchemaCatalog) → HasNoSamples (strip_sampled_values catalog false)
unfolding strip_sampled_values
strip_sampled_values-HasNoSamples catalog = elim (Bool-cases (any_samples catalog.tables)) [
  | inl e ↦ rw (e, strip_sampled_values) (any_samples-map catalog.tables)
  | inr e ↦ rw (e, strip_sampled_values) e
]
