-- ===== src/Floors/Known.antt =====
-- What stands behind a statement that both floors pass.
use ask_sql.Prelude.{
  Bool, true, false, not, ◌&&◌, ◌||◌, Option, none, some, List, [], ◌∷◌, ◌++◌, Text, codes, has,
  has→Member, Member, at_head, further, All, starts_with, to_lower_case, Bool-cases, Option-cases,
  ◌≡◌, ◌⊎◌, refl, inl, inr, arith,
}
use mathlib.Core.Path
use ask_sql.Regex.{is_nil}
use ask_sql.Sql.Rewrite.{without_fetch_tail}
use ask_sql.Floors.{
  TableInfo, SchemaCatalog, system_schemas, split_entry, second_part, third_part, collect_cte_names,
  collect_select_aliases, table_names, known_tables, schema_part, qualified, is_unknown_table,
  unknown_table_in, first_unknown_table, last_segment, columns_of,
}
use ask_sql.Floors.Columns.{
  is_absent, is_wildcard, is_implicit, table_of_ref, column_of_ref, qualified_column_error,
  ref_error, unknown_ref, scope_of, first_unknown_column,
}

-- The name of a table of the catalog, bare or behind its schema, in lower case.
pub data IsNameOf (t : TableInfo) : Text → Type 0 where
  bare : IsNameOf t (to_lower_case t.name)
  behind_schema :
      {s : Text} → t.schema ≡ some s → IsNameOf t (to_lower_case s ++ b'.' ∷ to_lower_case t.name)

-- A relation that a statement may name: in the catalog, by the name that stands there or by its last
-- part, or a CTE of the statement, or a relation of the database system.
pub data IsKnownTable (catalog : SchemaCatalog) (ctes : List Text) (schema name : Text)
    : Type 0 where
  nameless : name ≡ [] → IsKnownTable catalog ctes schema name
  is_cte : Member name ctes → IsKnownTable catalog ctes schema name
  in_catalog :
      (t : TableInfo)
      → Member t catalog.tables
      → IsNameOf t (qualified schema name) ⊎ IsNameOf t name
      → IsKnownTable catalog ctes schema name
  in_system : Member schema system_schemas → IsKnownTable catalog ctes schema name
  by_prefix :
      starts_with (codes "sqlite_") name || starts_with (codes "pg_") name ≡ true
      → IsKnownTable catalog ctes schema name

abbrev pub IsKnownEntry : SchemaCatalog → Text → Text → Type 0
IsKnownEntry catalog sql entry =
    IsKnownTable catalog (collect_cte_names sql) (schema_part (second_part (split_entry entry)))
      (to_lower_case (third_part (split_entry entry)))

Member-cases :
    (xs : List Text) {x : Text} {ys : List Text} → Member x (xs ++ ys) → Member x xs ⊎ Member x ys
Member-cases [] m = inr m
Member-cases (w ∷ xs) (at_head p) = inl (at_head p)
Member-cases (w ∷ xs) (further m) = elim (Member-cases xs m) [
  | inl there ↦ inl (further there)
  | inr there ↦ inr there
]

table_names-IsNameOf :
    (t : TableInfo) (schema : Option Text) {k : Text}
    → t.schema ≡ schema
    → Member k (table_names schema t.name)
    → IsNameOf t k
table_names-IsNameOf t none e (at_head p) = Path.subst (IsNameOf t) p bare
table_names-IsNameOf t none e (further m) = elim m [ ]
table_names-IsNameOf t (some []) e (at_head p) = Path.subst (IsNameOf t) p bare
table_names-IsNameOf t (some []) e (further m) = elim m [ ]
table_names-IsNameOf t (some (c ∷ s)) e (at_head p) = Path.subst (IsNameOf t) p bare
table_names-IsNameOf t (some (c ∷ s)) e (further (at_head p)) =
    Path.subst (IsNameOf t) p (behind_schema e)
table_names-IsNameOf t (some (c ∷ s)) e (further (further m)) = elim m [ ]

known_tables-IsNameOf :
    (ts : List TableInfo) {k : Text}
    → Member k (known_tables ts)
    → (t : TableInfo) × Member t ts × IsNameOf t k
unfolding known_tables
known_tables-IsNameOf [] m = elim m [ ]
known_tables-IsNameOf (t ∷ ts) m = elim (Member-cases (table_names t.schema t.name) m) [
  | inl there ↦ (t, at_head refl, table_names-IsNameOf t t.schema refl there)
  | inr there ↦ let (u, found, named) = known_tables-IsNameOf ts there in (u, further found, named)
]

in_known :
    (catalog : SchemaCatalog) (ctes : List Text) (schema name : Text)
    → has (known_tables catalog.tables) (qualified schema name)
        || has (known_tables catalog.tables) name
      ≡ true
    → IsKnownTable catalog ctes schema name
in_known catalog ctes schema name h =
    let known = known_tables catalog.tables in
    elim (Bool-cases (has known (qualified schema name))) [
      | inl e ↦
          let (t, there, named) =
            known_tables-IsNameOf catalog.tables (has→Member known (qualified schema name) e) in
          in_catalog t there (inl named)
      | inr e ↦
          let h' : has known name ≡ true = ground arith in
          let (t, there, named) = known_tables-IsNameOf catalog.tables (has→Member known name h') in
          in_catalog t there (inr named)
    ]

is_unknown_table-IsKnownTable :
    (catalog : SchemaCatalog) (ctes : List Text) (schema name : Text)
    → is_unknown_table (known_tables catalog.tables) ctes schema name ≡ false
    → IsKnownTable catalog ctes schema name
is_unknown_table-IsKnownTable catalog ctes schema name h =
    let known = known_tables catalog.tables in
    elim (Bool-cases (is_nil name)) [
      | inl e ↦ nameless (is_nil_true name e)
      | inr e ↦ elim (Bool-cases (has ctes name)) [
        | inl f ↦ is_cte (has→Member ctes name f)
        | inr f ↦ elim (Bool-cases (has known (qualified schema name) || has known name)) [
          | inl g ↦ in_known catalog ctes schema name g
          | inr g ↦ elim (Bool-cases (has system_schemas schema)) [
            | inl k ↦ in_system (has→Member system_schemas schema k)
            | inr k ↦ by_prefix (
                last_test (is_nil name) (has ctes name) _ (is_nil schema)
                  (has system_schemas schema) _ h e f g k)
          ]
        ]
      ]
    ]
  where
    is_nil_true : (s : Text) → is_nil s ≡ true → s ≡ []
    is_nil_true [] h = refl
    is_nil_true (c ∷ s) h = cc

    last_test :
        (a b c d e f : Bool)
        → (not a && (not b && (not c && (not (not d && e) && not f)))) ≡ false
        → a ≡ false
        → b ≡ false
        → c ≡ false
        → e ≡ false
        → f ≡ true
    last_test a b c d e f h p q r s = ground arith

unknown_table_in-IsKnownTable :
    (catalog : SchemaCatalog) (sql : Text) (entries : List Text)
    → unknown_table_in (known_tables catalog.tables) (collect_cte_names sql) entries ≡ none
    → All (IsKnownEntry catalog sql) entries
unfolding unknown_table_in
unknown_table_in-IsKnownTable catalog sql [] h = tt
unknown_table_in-IsKnownTable catalog sql (entry ∷ entries) h =
    let schema = schema_part (second_part (split_entry entry)) in
    let name = to_lower_case (third_part (split_entry entry)) in
    let ctes = collect_cte_names sql in
    elim (Bool-cases (is_unknown_table (known_tables catalog.tables) ctes schema name)) [
      | inl e ↦ cc (rw (e, unknown_table_in) at h)
      | inr e ↦ (
        is_unknown_table-IsKnownTable catalog ctes schema name e,
        unknown_table_in-IsKnownTable catalog sql entries (rw (e, unknown_table_in) at h),
      )
    ]

-- Where `firstUnknownTable` finds nothing in a list of tables, each of them is known.
pub first_unknown_table-IsKnownEntry :
    (table_list : Text → Text → Option (List Text)) (sql : Text) (catalog : SchemaCatalog)
    (grammar : Text) (entries : List Text)
    → first_unknown_table table_list sql catalog grammar (some entries) ≡ none
    → All (IsKnownEntry catalog sql) entries
unfolding first_unknown_table
first_unknown_table-IsKnownEntry table_list sql catalog grammar entries h =
    unknown_table_in-IsKnownTable catalog sql entries h

-- A column that is read of a table: if the table is one of the catalog (and no CTE and no schema of the
-- system), then a table of that name has the column, or SQLite has it in every table.
abbrev pub IsKnownRef : SchemaCatalog → List Text → Text → Type 0
IsKnownRef catalog ctes ref =
    (columns : List Text)
    → is_wildcard (column_of_ref ref) ≡ false
    → is_absent (table_of_ref ref) ≡ false
    → has ctes (last_segment (table_of_ref ref)) ≡ false
    → has system_schemas (last_segment (table_of_ref ref)) ≡ false
    → columns_of (last_segment (table_of_ref ref)) catalog.tables ≡ some columns
    → Member (column_of_ref ref) columns ⊎ (is_implicit catalog.engine (column_of_ref ref) ≡ true)

ref_error-IsKnownRef :
    (catalog : SchemaCatalog) (ctes aliases query_tables : List Text) (attributable : Bool)
    (ref : Text)
    → ref_error catalog ctes aliases query_tables attributable ref ≡ none
    → IsKnownRef catalog ctes ref
unfolding ref_error qualified_column_error
ref_error-IsKnownRef catalog ctes aliases query_tables attributable ref h columns w a c s e =
    let column = column_of_ref ref in
    let h' = rw (w, a, c, s, e, ref_error, qualified_column_error) at h in
    elim (Bool-cases (has columns column)) [
      | inl f ↦ inl (has→Member columns column f)
      | inr f ↦ elim (Bool-cases (is_implicit catalog.engine column)) [
        | inl g ↦ inr g
        | inr g ↦ cc (rw (f, g) at h')
      ]
    ]

unknown_ref-IsKnownRef :
    (catalog : SchemaCatalog) (ctes aliases query_tables : List Text) (attributable : Bool)
    (refs : List Text)
    → unknown_ref catalog ctes aliases query_tables attributable refs ≡ none
    → All (IsKnownRef catalog ctes) refs
unfolding unknown_ref
unknown_ref-IsKnownRef catalog ctes aliases query_tables attributable [] h = tt
unknown_ref-IsKnownRef catalog ctes aliases query_tables attributable (ref ∷ refs) h =
    elim (Option-cases (ref_error catalog ctes aliases query_tables attributable ref)) [
      | inr (u, e) ↦ cc (rw (e, unknown_ref) at h)
      | inl e ↦ (
        ref_error-IsKnownRef catalog ctes aliases query_tables attributable ref e,
        unknown_ref-IsKnownRef catalog ctes aliases query_tables attributable refs
            (rw (e, unknown_ref) at h),
      )
    ]

-- Where `firstUnknownColumn` finds nothing, every column that the parser reads of a table of the
-- catalog is known.
pub first_unknown_column-IsKnownRef :
    (table_list column_list : Text → Text → Option (List Text)) (sql : Text)
    (catalog : SchemaCatalog) (grammar : Text) (refs : List Text)
    → first_unknown_column table_list column_list sql catalog grammar ≡ none
    → column_list (without_fetch_tail sql) grammar ≡ some refs
    → All (IsKnownRef catalog (collect_cte_names sql)) refs
unfolding first_unknown_column
first_unknown_column-IsKnownRef table_list column_list sql catalog grammar refs h e =
    let scope = scope_of table_list column_list sql catalog grammar in
    unknown_ref-IsKnownRef catalog (collect_cte_names sql) (collect_select_aliases sql) scope.0
      scope.1 refs (rw (e, first_unknown_column) at h)
