-- ===== src/Ask/Checks.antt =====
-- packages/core/src/engine.ts: what the loop of `askImpl` computes of a statement.
use ask_sql.Prelude.{
  ℕ, suc, ◌*◌, Bool, true, false, not, ◌&&◌, ◌||◌, Option, none, some, List, [], ◌∷◌, ◌++◌, Text,
  codes, take, text_eq, has, if◌then◌else◌, ◌==◌, ◌<|>◌, to_lower_case, is_word,
}
use ask_sql.Json.{Num, infinite, ratio}
use ask_sql.Errors.{or_else}
use ask_sql.Regex.{Regex, start, finish, boundary, unit, many, either, test}
use ask_sql.Regex.Build.{
  word, unit_is, optional, one_or_more, spaces, spaces_or_none, digits, in_order,
}
use ask_sql.Sql.Guard.{GuardVerdict}
use ask_sql.Sql.Rewrite.{trim, contains}
use ask_sql.IdentifierCase.Names.{non_empty, quote_catalog_identifiers, quote_reserved_aliases}
use ask_sql.Floors.{TableInfo, SchemaCatalog}
use ask_sql.Floors.Columns.{UnknownColumn, lower_names_have}
use ask_sql.Ask.{Setting, Calls, CodeLiteral}

-- The verdict on a text, if there is one and the guard allows it.
abbrev pub allowed_verdict : (Text → GuardVerdict) → Option Text → Option GuardVerdict
allowed_verdict guard none = none
allowed_verdict guard (some t) = if (guard t).allowed then some (guard t) else none

abbrev pub is_same_text : Text → Option Text → Bool
is_same_text t none = false
is_same_text t (some u) = text_eq t u

-- `quotedNames && quotedNames !== normalised`
abbrev pub names_only : Option Text → Option Text → Option Text
names_only none normalised = none
names_only (some q) normalised = if is_same_text q normalised then none else non_empty (some q)

-- The statement with names and aliases quoted, else with names quoted, else as the model wrote it.
unfoldable pub chosen_verdict : Setting → Calls → Text → GuardVerdict
chosen_verdict setting calls sql =
    let quote = setting.dialect.quote_char in
    let quoted_names =
      quote_catalog_identifiers setting.any_reserved sql setting.quotable_names quote
        setting.quotable_tables in
    let with_aliases =
      quote_reserved_aliases setting.engine_reserved (or_else quoted_names sql) quote in
    let normalised = with_aliases <|> quoted_names in
    or_else
      (allowed_verdict calls.guard_sql (non_empty normalised)
        <|> allowed_verdict calls.guard_sql (names_only quoted_names normalised))
      (calls.guard_sql sql)

-- `/\bwithin\s+group\b/i`
abbrev pub within_group : Regex
within_group = in_order (
    boundary false
    ∷ word false (codes "within")
    ∷ spaces
    ∷ word false (codes "group")
    ∷ boundary false
    ∷ [])

-- `/IMPOSSIBLE/i` and `LITERAL_STRING_ANSWER_RE`
abbrev pub impossible_word : Regex
impossible_word = word false (codes "impossible")

abbrev pub literal_string_answer : Regex
literal_string_answer = in_order (
    start
    ∷ word false (codes "select")
    ∷ spaces
    ∷ unit_is b'\''
    ∷ many (either (unit (λ c. not (c == b'\''))) (in_order (unit_is b'\'' ∷ unit_is b'\'' ∷ [])))
    ∷ unit_is b'\''
    ∷ spaces_or_none
    ∷ optional (in_order (word false (codes "as") ∷ spaces ∷ one_or_more (unit is_word) ∷ []))
    ∷ spaces_or_none
    ∷ optional (in_order (word false (codes "limit") ∷ spaces ∷ digits ∷ []))
    ∷ spaces_or_none
    ∷ optional (unit_is b';')
    ∷ spaces_or_none
    ∷ finish
    ∷ [])

abbrev pub has_no_table : Option (List Text) → Bool
has_no_table (some (t ∷ ts)) = false
has_no_table _ = true

-- A hardcoded string that touches no table.
unfoldable pub is_literal_answer : GuardVerdict → Bool
is_literal_answer verdict =
    has_no_table verdict.tables
    && (test impossible_word verdict.sql || test literal_string_answer (trim verdict.sql))

-- The tables that have the column, other than the one that it was looked for in.
unfoldable pub owners_of : Text → Text → List TableInfo → List Text
owners_of table column [] = []
owners_of table column (t ∷ ts) =
    let rest = owners_of table column ts in
    if not (text_eq (to_lower_case t.name) table) && lower_names_have column t.columns
    then t.name ∷ rest
    else rest

-- The first edge of the join graph between two tables.
unfoldable pub edge_between : Text → Text → List Text → Option Text
edge_between table owner [] = none
edge_between table owner (e ∷ es) =
    let rest = edge_between table owner es in
    let line = to_lower_case e in
    if contains (table ++ (b'.' ∷ [])) line && contains (to_lower_case owner ++ (b'.' ∷ [])) line
    then some e
    else rest

unfoldable pub reachable_owner : Text → List Text → List Text → Option (Text × Text)
reachable_owner table graph [] = none
reachable_owner table graph (o ∷ os) = elim (edge_between table o graph) [
  | some edge ↦ some (o, edge)
  | none ↦ reachable_owner table graph os
]

abbrev pub is_a_column_of : Text → Text → Text
is_a_column_of column owner = codes " " ++ column ++ codes " is a column of " ++ owner ++ codes "."

abbrev pub first_owner : Text → List Text → Text
first_owner column [] = []
first_owner column (o ∷ os) = is_a_column_of column o

unfoldable pub where_it_lives : UnknownColumn → SchemaCatalog → List Text → Text
where_it_lives u catalog graph =
    let table = to_lower_case u.table in
    let owners = owners_of table (to_lower_case u.column) catalog.tables in
    elim (reachable_owner table graph owners) [
      | some (owner, edge) ↦
          is_a_column_of u.column owner ++ codes " Reach it with: " ++ edge ++ codes "."
      | none ↦ first_owner u.column owners
    ]

-- `===` on numbers
unfoldable pub same_number : Num → Num → Bool
same_number (infinite s) (infinite t) = if s then t else not t
same_number (ratio s m d) (ratio t n e) =
    m * suc e == n * suc d && (m == 0 || (if s then t else not t))
same_number _ _ = false

abbrev pub code_key : CodeLiteral → Text
code_key c = to_lower_case (or_else c.schema [] ++ b'.' ∷ c.table ++ b'.' ∷ c.column)

-- The first literal of each column.
unfoldable pub first_per_column : List Text → List CodeLiteral → List CodeLiteral
first_per_column seen [] = []
first_per_column seen (c ∷ cs) =
    let skip = first_per_column seen cs in
    let keep = first_per_column (code_key c ∷ seen) cs in
    if has seen (code_key c) then skip else c ∷ keep

abbrev pub code_max_probes : ℕ
code_max_probes = 2

unfoldable pub holds_value : Calls → Num → List Text → Bool
holds_value calls literal [] = false
holds_value calls literal (v ∷ vs) =
    (text_eq v (calls.number_text literal) || same_number (calls.number_of v) literal)
    || holds_value calls literal vs

-- A code that no row has, with the values that the column holds.
pub record ImpossibleCode : Type 0 where
  pub column : Text
  pub literal : Num
  pub values : List Text

unfoldable pub impossible_in : Calls → List CodeLiteral → Option ImpossibleCode
impossible_in calls [] = none
impossible_in calls (c ∷ cs) =
    let rest = impossible_in calls cs in
    elim (calls.code_values_of c) [
      | none ↦ rest
      | some values ↦
          if holds_value calls c.literal values
          then rest
          else some
              (record { column = c.table ++ b'.' ∷ c.column; literal = c.literal; values = values })
    ]

unfoldable pub impossible_code : Calls → Text → Option ImpossibleCode
impossible_code calls sql =
    impossible_in calls (take code_max_probes (first_per_column [] (calls.code_literals sql)))
