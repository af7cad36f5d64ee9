-- ===== src/Floors.antt =====
-- packages/core/src/engine.ts: the tables and columns of a statement that the catalog does not have.
-- The parser's lists are arguments: `table_list` and `column_list` are none where it throws.
pub mod Columns
pub mod Known
pub mod Unqualified
pub mod Stray
pub mod Ambiguous
mod Tests
use ask_sql.Prelude.{
  ℕ, zero, suc, ◌-◌, Bool, true, false, not, ◌&&◌, ◌||◌, Option, none, some, List, [], ◌∷◌, ◌++◌,
  Text, codes, length, take, drop, text_eq, has, map, if◌then◌else◌, ltb, ◌==◌, includes,
  starts_with, to_lower_case, is_letter, is_word,
}
use ask_sql.Engine.{EngineKind, sqlite}
use ask_sql.Regex.{
  Regex, Place, start, boundary, unit, many, group, either, then_, empty, exec_from, test, is_nil,
}
use ask_sql.Regex.Build.{
  word, class, unit_is, optional, spaces, spaces_or_none, in_order, any_word, captured_of,
}
use ask_sql.Sql.Rewrite.{or_nothing, without_fetch_tail}
use ask_sql.IdentifierCase.{without_literals_and_comments}
use ask_sql.IdentifierCase.Names.{name_group}

pub record ColumnInfo : Type 0 where
  pub name : Text
  pub db_type : Text

pub record TableInfo : Type 0 where
  pub schema : Option Text
  pub name : Text
  pub columns : List ColumnInfo

-- What is read of a catalog here.
pub record SchemaCatalog : Type 0 where
  pub engine : EngineKind
  pub tables : List TableInfo

-- `SYSTEM_SCHEMAS`
abbrev pub system_schemas : List Text
system_schemas =
    codes "information_schema"
    ∷ codes "pg_catalog"
    ∷ codes "mysql"
    ∷ codes "performance_schema"
    ∷ codes "sys"
    ∷ []

-- `entry.split('::')`
unfoldable pub split_entry : Text → List Text
split_entry [] = [] ∷ []
split_entry (c ∷ []) = (c ∷ []) ∷ []
split_entry (c ∷ d ∷ s) =
    let behind = split_entry s in
    let rest = split_entry (d ∷ s) in if c == b':' && d == b':' then [] ∷ behind else onto c rest
  where
    onto : ℕ → List Text → List Text
    onto c [] = (c ∷ []) ∷ []
    onto c (w ∷ ws) = (c ∷ w) ∷ ws

-- `parts[1]` and `parts[2]`, where a missing part is like an empty one.
abbrev pub second_part : List Text → Text
second_part (a ∷ b ∷ ws) = b
second_part _ = []

abbrev pub third_part : List Text → Text
third_part (a ∷ b ∷ c ∷ ws) = c
third_part _ = []

-- The captures of group 1 in all matches, in lower case: `sql.matchAll(…)`. No match is empty.
unfoldable pub matches_from : Regex → ℕ → Option ℕ → Text → List Text
matches_from r zero before s = []
matches_from r (suc fuel) before s = elim (exec_from r before s) [
  | none ↦ []
  | some (skipped, q) ↦
      to_lower_case (or_nothing (captured_of 1 q.groups)) ∷ matches_from r fuel q.before q.rest
]

abbrev pub all_matches : Regex → Text → List Text
all_matches r s = matches_from r (suc (length s)) none s

abbrev pub is_identifier_start : ℕ → Bool
is_identifier_start c = is_letter c || c == b'_'

-- `([A-Za-z_][A-Za-z0-9_]*)` with the flags `i` and `u`, as group 1
abbrev pub identifier : Regex
identifier = group 1 (then_ (class true is_identifier_start) (many (class true is_word)))

abbrev pub with_word : Regex
with_word = in_order (boundary true ∷ word true (codes "with") ∷ boundary true ∷ [])

abbrev pub cte_name : Regex
cte_name = in_order (
    optional (unit (λ c. c == b'"' || (c == b'`' || c == b'[')))
    ∷ identifier
    ∷ optional (unit (λ c. c == b'"' || (c == b'`' || c == b']')))
    ∷ spaces
    ∷ word true (codes "as")
    ∷ spaces_or_none
    ∷ unit_is b'('
    ∷ [])

unfoldable pub collect_cte_names : Text → List Text
collect_cte_names sql = if not (test with_word sql) then [] else all_matches cte_name sql

abbrev pub quote_or_none : Regex
quote_or_none = optional (unit (λ c. c == b'"' || (c == b'\'' || c == b'`')))

abbrev pub select_alias : Regex
select_alias = in_order (
    boundary true
    ∷ word true (codes "as")
    ∷ spaces
    ∷ quote_or_none
    ∷ identifier
    ∷ quote_or_none
    ∷ [])

unfoldable pub collect_select_aliases : Text → List Text
collect_select_aliases sql = all_matches select_alias sql

-- `SQLITE_IMPLICIT_COLUMNS`
abbrev pub sqlite_implicit_columns : List Text
sqlite_implicit_columns =
    codes "rowid" ∷ codes "oid" ∷ codes "_rowid_" ∷ codes "docid" ∷ codes "rank" ∷ []

-- What one table is known by: its name, and its schema and name.
abbrev pub table_names : Option Text → Text → List Text
table_names (some (c ∷ s)) name =
    to_lower_case name ∷ (to_lower_case (c ∷ s) ++ b'.' ∷ to_lower_case name) ∷ []
table_names _ name = to_lower_case name ∷ []

-- `known`
unfoldable pub known_tables : List TableInfo → List Text
known_tables [] = []
known_tables (t ∷ ts) = table_names t.schema t.name ++ known_tables ts

-- `parts[1] && parts[1] !== 'null' ? parts[1].toLowerCase() : null`, with empty for null
abbrev pub schema_part : Text → Text
schema_part s = if text_eq s (codes "null") then [] else to_lower_case s

abbrev pub qualified : Text → Text → Text
qualified [] name = name
qualified (c ∷ schema) name = c ∷ schema ++ b'.' ∷ name

-- An entry that is no table of the catalog, no CTE and no relation of the system.
abbrev pub is_unknown_table : List Text → List Text → Text → Text → Bool
is_unknown_table known ctes schema name =
    not (is_nil name)
    && (not (has ctes name)
        && (not (has known (qualified schema name) || has known name)
            && (not (not (is_nil schema) && has system_schemas schema)
                && not (starts_with (codes "sqlite_") name || starts_with (codes "pg_") name))))

unfoldable pub unknown_table_in : List Text → List Text → List Text → Option Text
unknown_table_in known ctes [] = none
unknown_table_in known ctes (entry ∷ rest) =
    let parts = split_entry entry in
    let schema = schema_part (second_part parts) in
    let name = to_lower_case (third_part parts) in
    let later = unknown_table_in known ctes rest in
    if is_unknown_table known ctes schema name then some (qualified schema name) else later

-- `list` is the list that is at hand, or the parser's.
unfoldable pub first_unknown_table :
    (Text → Text → Option (List Text))
    → Text
    → SchemaCatalog
    → Text
    → Option (List Text)
    → Option Text
first_unknown_table table_list sql catalog grammar precomputed =
    let search : List Text → Option Text =
      unknown_table_in (known_tables catalog.tables) (collect_cte_names sql) in
    elim precomputed [
      | some list ↦ search list
      | none ↦ elim (table_list (without_fetch_tail sql) grammar) [
        | none ↦ none
        | some list ↦ search list
      ]
    ]

-- `name.slice(name.lastIndexOf('.') + 1)`
unfoldable pub last_segment : Text → Text
last_segment [] = []
last_segment (c ∷ s) = let rest = last_segment s in if includes b'.' (c ∷ s) then rest else c ∷ s

abbrev pub lower_names : List ColumnInfo → List Text
lower_names [] = []
lower_names (c ∷ cs) = to_lower_case c.name ∷ lower_names cs

-- `byTable.get(name)`: the columns of all tables of that name; none where there is no such table.
unfoldable pub columns_of : Text → List TableInfo → Option (List Text)
columns_of name [] = none
columns_of name (t ∷ ts) =
    let rest = columns_of name ts in
    if text_eq (to_lower_case t.name) name
    then some (lower_names t.columns ++ elim rest [ none ↦ [] | some cs ↦ cs ])
    else rest

abbrev pub owns : List TableInfo → Text → Text → Bool
owns tables column name = elim (columns_of name tables) [ none ↦ false | some cs ↦ has cs column ]
