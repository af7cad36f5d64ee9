-- ===== src/Floors/Columns.antt =====
-- packages/core/src/engine.ts: `ambiguousColumn` and `firstUnknownColumn`.
use ask_sql.Prelude.{
  Bool, true, false, not, ◌&&◌, ◌||◌, Option, none, some, List, [], ◌∷◌, ◌++◌, Text, codes, length,
  text_eq, has, if◌then◌else◌, ltb, to_lower_case,
}
use ask_sql.Engine.{EngineKind}
use ask_sql.Regex.{Regex, boundary, test, is_nil}
use ask_sql.Regex.Build.{word, unit_is, spaces_or_none, in_order, any_word}
use ask_sql.Sql.Guard.{is_sqlite}
use ask_sql.Sql.Rewrite.{without_fetch_tail}
use ask_sql.History.{text_lt}
use ask_sql.IdentifierCase.{without_literals_and_comments}
use ask_sql.Floors.{
  ColumnInfo, TableInfo, SchemaCatalog, system_schemas, split_entry, second_part, third_part,
  collect_cte_names, collect_select_aliases, sqlite_implicit_columns, last_segment, columns_of,
  owns,
}

-- `/\b(using|natural)\b/iu`, `/\(\s*select\b/iu` and `/\b(union|intersect|except)\b/iu`
abbrev pub using_word : Regex
using_word =
    in_order
      (boundary true ∷ any_word true (codes "using") (codes "natural" ∷ []) ∷ boundary true ∷ [])

abbrev pub subquery : Regex
subquery =
    in_order (unit_is b'(' ∷ spaces_or_none ∷ word true (codes "select") ∷ boundary true ∷ [])

abbrev pub set_operation : Regex
set_operation = in_order (
    boundary true
    ∷ any_word true (codes "union") (codes "intersect" ∷ codes "except" ∷ [])
    ∷ boundary true
    ∷ [])

-- One scope and one column list only.
unfoldable pub is_single_scope : Text → Bool
is_single_scope code = not (test subquery code) && not (test set_operation code)

unfoldable pub has_using : Text → Bool
has_using code = test using_word code

abbrev pub is_absent : Text → Bool
is_absent name = is_nil name || text_eq name (codes "null")

abbrev pub table_of_entry : Text → Text
table_of_entry entry = to_lower_case (third_part (split_entry entry))

abbrev pub table_of_ref : Text → Text
table_of_ref ref = to_lower_case (second_part (split_entry ref))

abbrev pub column_of_ref : Text → Text
column_of_ref ref = to_lower_case (third_part (split_entry ref))

abbrev pub is_wildcard : Text → Bool
is_wildcard column = is_nil column || text_eq column (codes "(.*)")

abbrev pub is_table : List TableInfo → Text → Bool
is_table tables name = elim (columns_of name tables) [ none ↦ false | some cs ↦ true ]

-- The tables of the query; none where one is no table of the catalog.
unfoldable pub all_known : List TableInfo → List Text → List Text → Option (List Text)
all_known tables ctes [] = some []
all_known tables ctes (entry ∷ entries) =
    let name = table_of_entry entry in
    let bare = last_segment name in
    let rest = all_known tables ctes entries in
    if is_absent name
    then rest
    else if has ctes bare || (has system_schemas bare || not (is_table tables bare))
    then none
    else elim rest [ none ↦ none | some names ↦ some (bare ∷ names) ]

abbrev pub owners : List TableInfo → Text → List Text → List Text
owners tables column [] = []
owners tables column (t ∷ ts) =
    if owns tables column t then t ∷ owners tables column ts else owners tables column ts

unfoldable pub ambiguous_ref : List TableInfo → List Text → List Text → List Text → Option Text
ambiguous_ref tables aliases query_tables [] = none
ambiguous_ref tables aliases query_tables (ref ∷ refs) =
    let column = column_of_ref ref in
    let rest = ambiguous_ref tables aliases query_tables refs in
    if is_wildcard column
      || (not (is_absent (table_of_ref ref))
          || (has aliases column || not (ltb 1 (length (owners tables column query_tables)))))
    then rest
    else some column

-- What is reported of a column that no table has.
pub record UnknownColumn : Type 0 where
  pub table : Text
  pub column : Text
  pub available : List Text

-- The last table of that name gives the spelling.
unfoldable pub real_name : Text → List TableInfo → Option Text
real_name name [] = none
real_name name (t ∷ ts) = elim (real_name name ts) [
  | some n ↦ some n
  | none ↦ if text_eq (to_lower_case t.name) name then some t.name else none
]

abbrev pub spelled_names : List ColumnInfo → List Text
spelled_names [] = []
spelled_names (c ∷ cs) = c.name ∷ spelled_names cs

unfoldable pub real_columns : Text → List TableInfo → List Text
real_columns name [] = []
real_columns name (t ∷ ts) =
    let rest = real_columns name ts in
    if text_eq (to_lower_case t.name) name then spelled_names t.columns ++ rest else rest

-- `t.columns.some((c) => c.name.toLowerCase() === column)`
abbrev pub lower_names_have : Text → List ColumnInfo → Bool
lower_names_have column [] = false
lower_names_have column (c ∷ cs) =
    text_eq (to_lower_case c.name) column || lower_names_have column cs

-- `[...new Set(names)].sort()`
unfoldable pub put_sorted : Text → List Text → List Text
put_sorted n [] = n ∷ []
put_sorted n (m ∷ ms) =
    let rest = put_sorted n ms in
    if text_eq n m then m ∷ ms else if text_lt n m then n ∷ m ∷ ms else m ∷ rest

unfoldable pub sorted_set : List Text → List Text
sorted_set [] = []
sorted_set (n ∷ ns) = put_sorted n (sorted_set ns)

unfoldable pub columns_of_all : List TableInfo → List Text → List Text
columns_of_all tables [] = []
columns_of_all tables (t ∷ ts) = real_columns t tables ++ columns_of_all tables ts

-- `queryTables`, and whether every base table of the query is known.
unfoldable pub query_tables_of : List TableInfo → List Text → List Text → List Text × Bool
query_tables_of tables ctes [] = ([], true)
query_tables_of tables ctes (entry ∷ entries) =
    let name = table_of_entry entry in
    let bare = last_segment name in
    let rest = query_tables_of tables ctes entries in
    if is_absent name || (has ctes bare || has system_schemas bare)
    then rest
    else if is_table tables bare
    then (bare ∷ rest.0, rest.1)
    else (rest.0, false)

abbrev pub any_owns : List TableInfo → Text → List Text → Bool
any_owns tables column [] = false
any_owns tables column (t ∷ ts) = owns tables column t || any_owns tables column ts

abbrev pub head_or_none : List Text → Option Text
head_or_none [] = none
head_or_none (t ∷ ts) = some t

abbrev pub is_implicit : EngineKind → Text → Bool
is_implicit engine column = is_sqlite engine && has sqlite_implicit_columns column

-- A column without a table: flagged only where every base table is known and none has it.
unfoldable pub bare_column_error :
    SchemaCatalog → List Text → List Text → Bool → Text → Option UnknownColumn
bare_column_error catalog aliases query_tables attributable column =
    elim (head_or_none query_tables) [
      | none ↦ none
      | some owner ↦
          if not attributable
            || (has aliases column
                || (is_implicit catalog.engine column
                    || any_owns catalog.tables column query_tables))
          then none
          else some (record {
            table = elim (real_name owner catalog.tables) [ some n ↦ n | none ↦ owner ];
            column = column;
            available = sorted_set (columns_of_all catalog.tables query_tables);
          })
    ]

-- A column with a table: flagged where the table is in the catalog without it.
unfoldable pub qualified_column_error :
    SchemaCatalog → List Text → Text → Text → Option UnknownColumn
qualified_column_error catalog ctes table column =
    let bare = last_segment table in
    if has ctes bare || has system_schemas bare
    then none
    else elim (columns_of bare catalog.tables) [
      | none ↦ none
      | some known ↦
          if has known column || is_implicit catalog.engine column
          then none
          else some (record { table = bare; column = column; available = sorted_set known })
    ]

unfoldable pub ref_error :
    SchemaCatalog → List Text → List Text → List Text → Bool → Text → Option UnknownColumn
ref_error catalog ctes aliases query_tables attributable ref =
    let table = table_of_ref ref in
    let column = column_of_ref ref in
    if is_wildcard column
    then none
    else if is_absent table
    then bare_column_error catalog aliases query_tables attributable column
    else qualified_column_error catalog ctes table column

unfoldable pub unknown_ref :
    SchemaCatalog → List Text → List Text → List Text → Bool → List Text → Option UnknownColumn
unknown_ref catalog ctes aliases query_tables attributable [] = none
unknown_ref catalog ctes aliases query_tables attributable (ref ∷ refs) =
    elim (ref_error catalog ctes aliases query_tables attributable ref) [
      | some u ↦ some u
      | none ↦ unknown_ref catalog ctes aliases query_tables attributable refs
    ]

module _ (table_list column_list : Text → Text → Option (List Text)) where
  unfoldable pub ambiguous_column : Text → SchemaCatalog → Text → Option Text
  ambiguous_column sql catalog grammar =
      let code = without_literals_and_comments sql in
      let text = without_fetch_tail sql in
      if has_using code || not (is_single_scope code)
      then none
      else elim (column_list text grammar) [
        | none ↦ none
        | some refs ↦ elim (table_list text grammar) [
          | none ↦ none
          | some names ↦ elim (all_known catalog.tables (collect_cte_names sql) names) [
            | none ↦ none
            | some query_tables ↦
                if ltb (length query_tables) 2
                then none
                else ambiguous_ref catalog.tables (collect_select_aliases sql) query_tables refs
          ]
        ]
      ]

  -- The tables of the query and whether its bare columns can be attributed to them.
  abbrev pub scope_of : Text → SchemaCatalog → Text → List Text × Bool
  scope_of sql catalog grammar = elim (table_list (without_fetch_tail sql) grammar) [
    | none ↦ ([], false)
    | some entries ↦
        let (tables, known) = query_tables_of catalog.tables (collect_cte_names sql) entries in
        (tables, is_single_scope (without_literals_and_comments sql) && known)
  ]

  unfoldable pub first_unknown_column : Text → SchemaCatalog → Text → Option UnknownColumn
  first_unknown_column sql catalog grammar = elim (column_list (without_fetch_tail sql) grammar) [
    | none ↦ none
    | some refs ↦
        unknown_ref catalog (collect_cte_names sql) (collect_select_aliases sql)
          (scope_of sql catalog grammar).0 (scope_of sql catalog grammar).1 refs
  ]
