-- ===== src/Floors/Unqualified.antt =====
-- What stands behind a statement that both floors pass, for the columns that are read without a table:
-- none is a stray one, and none is of two tables.
use ask_sql.Prelude.{
  Bool, true, false, ◌||◌, some, List, [], ◌∷◌, ◌++◌, Text, text_eq, text_eq_iff, has, has→Member,
  Member→has, Member, at_head, further, Member-append_left, Member-append_right, All, to_lower_case,
  Bool-cases, Option-cases, ◌≡◌, ◌⊎◌, refl, sym, inl, inr,
}
use mathlib.Core.Path
use ask_sql.IdentifierCase.{without_literals_and_comments}
use ask_sql.Floors.{
  ColumnInfo, TableInfo, SchemaCatalog, system_schemas, collect_cte_names, collect_select_aliases,
  last_segment, lower_names, columns_of, owns,
}
use ask_sql.Floors.Columns.{
  is_single_scope, has_using, is_absent, is_wildcard, is_implicit, is_table, table_of_entry,
  table_of_ref, column_of_ref,
}

-- The name of a table in the parser's list, without its qualifier.
abbrev pub bare_of : Text → Text
bare_of entry = last_segment (table_of_entry entry)

-- A table of the catalog has that name, in lower case.
abbrev pub IsNamed : List TableInfo → Text → Type 0
IsNamed tables name = (t : TableInfo) × Member t tables × (to_lower_case t.name ≡ name)

-- A table of the catalog of that name has that column, both in lower case.
abbrev pub HasColumn : List TableInfo → Text → Text → Type 0
HasColumn tables name column =
    (t : TableInfo) × Member t tables
    × (to_lower_case t.name ≡ name)
    × (c : ColumnInfo) × Member c t.columns
    × (to_lower_case c.name ≡ column)

-- An entry that is no base table: it has no name, or it is a CTE or of the system.
abbrev pub is_other : List Text → Text → Bool
is_other ctes entry =
    is_absent (table_of_entry entry)
    || (has ctes (bare_of entry) || has system_schemas (bare_of entry))

abbrev pub IsAccounted : List TableInfo → List Text → Text → Type 0
IsAccounted tables ctes entry = (is_other ctes entry ≡ true) ⊎ IsNamed tables (bare_of entry)

-- The column of an item of the parser's list that stands without a table and is no wildcard.
pub record IsBareRef (ref : Text) : Type 0 where
  pub named : is_wildcard (column_of_ref ref) ≡ false
  pub bare : is_absent (table_of_ref ref) ≡ true

-- A stray column: in a statement with one scope, all of whose base tables the catalog has and which has
-- one, a column without a table that is no alias, that SQLite does not have in every table, and that no
-- base table has.
pub record IsStray (catalog : SchemaCatalog) (sql : Text) (entries : List Text) (ref : Text)
    : Type 0 where
  pub bare : IsBareRef ref
  pub single : is_single_scope (without_literals_and_comments sql) ≡ true
  pub known : All (IsAccounted catalog.tables (collect_cte_names sql)) entries
  pub base : (e : Text) × Member e entries × (is_other (collect_cte_names sql) e ≡ false)
  pub no_alias : Member (column_of_ref ref) (collect_select_aliases sql) → ⊥
  pub not_implicit : is_implicit catalog.engine (column_of_ref ref) ≡ false
  pub unowned :
      (e : Text) → Member e entries → HasColumn catalog.tables (bare_of e) (column_of_ref ref) → ⊥

-- Two places of a list.
pub data Once (P : Text → Type 0) : List Text → Type 0 where
  at_this : {e : Text} {es : List Text} → P e → Once P (e ∷ es)
  behind : {e : Text} {es : List Text} → Once P es → Once P (e ∷ es)

pub data Twice (P : Text → Type 0) : List Text → Type 0 where
  at_both : {e : Text} {es : List Text} → P e → Once P es → Twice P (e ∷ es)
  later : {e : Text} {es : List Text} → Twice P es → Twice P (e ∷ es)

abbrev pub IsOwner : List TableInfo → Text → Text → Type 0
IsOwner tables column entry =
    (is_absent (table_of_entry entry) ≡ false) × HasColumn tables (bare_of entry) column

-- An entry without a name, or a table of the catalog that is no CTE and not of the system.
abbrev pub IsPlainTable : List TableInfo → List Text → Text → Type 0
IsPlainTable tables ctes entry =
    (is_absent (table_of_entry entry) ≡ true)
    ⊎ ((is_other ctes entry ≡ false) × IsNamed tables (bare_of entry))

-- An ambiguous column: in a statement with one scope and no USING or NATURAL, all of whose tables the
-- catalog has, a column without a table that is no alias and that the tables at two places have.
pub record IsAmbiguous (catalog : SchemaCatalog) (sql : Text) (entries : List Text) (ref : Text)
    : Type 0 where
  pub bare : IsBareRef ref
  pub single : is_single_scope (without_literals_and_comments sql) ≡ true
  pub no_using : has_using (without_literals_and_comments sql) ≡ false
  pub known : All (IsPlainTable catalog.tables (collect_cte_names sql)) entries
  pub no_alias : Member (column_of_ref ref) (collect_select_aliases sql) → ⊥
  pub owned : Twice (IsOwner catalog.tables (column_of_ref ref)) entries

lower_names-Member :
    (cs : List ColumnInfo) (column : Text)
    → Member column (lower_names cs)
    → (c : ColumnInfo) × Member c cs × (to_lower_case c.name ≡ column)
lower_names-Member [] column m = elim m [ ]
lower_names-Member (c ∷ cs) column (at_head p) = (c, at_head refl, p)
lower_names-Member (c ∷ cs) column (further m) =
    let (d, there, p) = lower_names-Member cs column m in (d, further there, p)

Member-lower_names :
    (cs : List ColumnInfo) (c : ColumnInfo)
    → Member c cs
    → Member (to_lower_case c.name) (lower_names cs)
Member-lower_names [] c m = elim m [ ]
Member-lower_names (d ∷ cs) c (at_head p) =
    at_head (Path.subst (λ x. to_lower_case d.name ≡ to_lower_case x.name) p refl)
Member-lower_names (d ∷ cs) c (further m) = further (Member-lower_names cs c m)

Member-cases :
    (xs : List Text) {x : Text} {ys : List Text} → Member x (xs ++ ys) → Member x xs ⊎ Member x ys
Member-cases [] m = inr m
Member-cases (w ∷ xs) (at_head p) = inl (at_head p)
Member-cases (w ∷ xs) (further m) = elim (Member-cases xs m) [
  | inl there ↦ inl (further there)
  | inr there ↦ inr there
]

-- A table of a longer catalog.
HasColumn-cons :
    (t : TableInfo) (ts : List TableInfo) (name column : Text)
    → HasColumn ts name column
    → HasColumn (t ∷ ts) name column
HasColumn-cons t ts name column (u, there, p, c, found, q) = (u, further there, p, c, found, q)

columns_of-HasColumn :
    (name column : Text) (ts : List TableInfo) (cs : List Text)
    → columns_of name ts ≡ some cs
    → Member column cs
    → HasColumn ts name column
unfolding columns_of
columns_of-HasColumn name column [] cs h m = cc
columns_of-HasColumn name column (t ∷ ts) cs h m =
    elim (Bool-cases (text_eq (to_lower_case t.name) name)) [
      | inr e ↦
          HasColumn-cons t ts name column
            (columns_of-HasColumn name column ts cs (rw (e, columns_of) at h) m)
      | inl e ↦
          let here : Member column (lower_names t.columns) → HasColumn (t ∷ ts) name column = λ n.
            let (c, there, p) = lower_names-Member t.columns column n in
            (t, at_head refl, (text_eq_iff (to_lower_case t.name) name).0 e, c, there, p) in
          elim (Option-cases (columns_of name ts)) [
            | inl f ↦
                let h' : some (lower_names t.columns ++ []) ≡ some cs =
                  rw (e, f, columns_of) at h in
                let same : cs ≡ lower_names t.columns ++ [] = cc in
                elim (Member-cases (lower_names t.columns) (Path.subst (Member column) same m)) [
                  | inl n ↦ here n
                  | inr n ↦ elim n [ ]
                ]
            | inr (ds, f) ↦
                let h' : some (lower_names t.columns ++ ds) ≡ some cs =
                  rw (e, f, columns_of) at h in
                let same : cs ≡ lower_names t.columns ++ ds = cc in
                elim (Member-cases (lower_names t.columns) (Path.subst (Member column) same m)) [
                  | inl n ↦ here n
                  | inr n ↦
                      HasColumn-cons t ts name column (columns_of-HasColumn name column ts ds f n)
                ]
          ]
    ]

columns_of_named :
    (name : Text) (ts : List TableInfo)
    → IsNamed ts name
    → (cs : List Text) × (columns_of name ts ≡ some cs)
unfolding columns_of
columns_of_named name [] (t, m, p) = elim m [ ]
columns_of_named name (t ∷ ts) (u, at_head same, p) =
    let named : to_lower_case t.name ≡ name =
      Path.subst (λ (x : TableInfo). to_lower_case x.name ≡ name) (sym same) p in
    let e = (text_eq_iff (to_lower_case t.name) name).1 named in rw (e, columns_of) (_, refl)
columns_of_named name (t ∷ ts) (u, further m, p) =
    let (cs, f) = columns_of_named name ts (u, m, p) in
    elim (Bool-cases (text_eq (to_lower_case t.name) name)) [
      | inl e ↦ rw (e, columns_of) (_, refl)
      | inr e ↦ rw (e, columns_of) (cs, f)
    ]

HasColumn-columns_of :
    (name column : Text) (ts : List TableInfo)
    → HasColumn ts name column
    → (cs : List Text) × (columns_of name ts ≡ some cs) × Member column cs
unfolding columns_of
HasColumn-columns_of name column [] (t, m, p, c, found, q) = elim m [ ]
HasColumn-columns_of name column (t ∷ ts) (u, at_head same, p, c, there, q) =
    let named : to_lower_case t.name ≡ name =
      Path.subst (λ (x : TableInfo). to_lower_case x.name ≡ name) (sym same) p in
    let here : Member c t.columns =
      Path.subst (λ (x : TableInfo). Member c x.columns) (sym same) there in
    let found : Member column (lower_names t.columns) =
      Path.subst (λ x. Member x (lower_names t.columns)) q (Member-lower_names t.columns c here) in
    let e = (text_eq_iff (to_lower_case t.name) name).1 named in
    rw (e, columns_of) (_, refl, Member-append_left _ found)
HasColumn-columns_of name column (t ∷ ts) (u, further m, p, c, there, q) =
    let (cs, f, found) = HasColumn-columns_of name column ts (u, m, p, c, there, q) in
    elim (Bool-cases (text_eq (to_lower_case t.name) name)) [
      | inr e ↦ rw (e, columns_of) (cs, f, found)
      | inl e ↦
          rw (e, f, columns_of)
            (lower_names t.columns ++ cs, refl, Member-append_right (lower_names t.columns) found)
    ]

pub is_table-IsNamed :
    (ts : List TableInfo) (name : Text) → IsNamed ts name → is_table ts name ≡ true
is_table-IsNamed ts name h = let (cs, e) = columns_of_named name ts h in rw (e, is_table) refl

pub owns-HasColumn :
    (ts : List TableInfo) (column name : Text)
    → HasColumn ts name column
    → owns ts column name ≡ true
owns-HasColumn ts column name h =
    let (cs, e, m) = HasColumn-columns_of name column ts h in rw (e, owns) (Member→has m)

pub HasColumn-owns :
    (ts : List TableInfo) (column name : Text)
    → owns ts column name ≡ true
    → HasColumn ts name column
HasColumn-owns ts column name h = elim (Option-cases (columns_of name ts)) [
  | inl e ↦ cc (rw (e, owns) at h)
  | inr (cs, e) ↦
      let found : has cs column ≡ true = rw (e, owns) at h in
      columns_of-HasColumn name column ts cs e (has→Member cs column found)
]
