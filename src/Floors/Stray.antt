-- ===== src/Floors/Stray.antt =====
-- packages/core/src/engine.ts: where `firstUnknownColumn` finds nothing, no column that is read without
-- a table is a stray one.
use ask_sql.Prelude.{
  Bool, true, false, ◌&&◌, Option, none, some, List, [], ◌∷◌, Text, has, has→Member, Member,
  at_head, further, All, Bool-cases, Option-cases, ◌≡◌, ◌⊎◌, refl, inl, inr, arith,
}
use ask_sql.Sql.Rewrite.{without_fetch_tail}
use ask_sql.IdentifierCase.{without_literals_and_comments}
use ask_sql.Floors.{TableInfo, SchemaCatalog, collect_cte_names, collect_select_aliases, owns}
use ask_sql.Floors.Columns.{
  is_single_scope, is_table, column_of_ref, query_tables_of, any_owns, head_or_none,
  bare_column_error, ref_error, unknown_ref, scope_of, first_unknown_column,
}
use ask_sql.Floors.Unqualified.{
  bare_of, is_other, IsAccounted, IsStray, is_table-IsNamed, HasColumn-owns,
}

-- The tables of the query are all known where each of them is accounted for.
query_tables_of-known :
    (tables : List TableInfo) (ctes entries : List Text)
    → All (IsAccounted tables ctes) entries
    → (query_tables_of tables ctes entries).1 ≡ true
unfolding query_tables_of
query_tables_of-known tables ctes [] h = refl
query_tables_of-known tables ctes (entry ∷ entries) (h, hs) =
    let rest = query_tables_of-known tables ctes entries hs in
    elim (Bool-cases (is_other ctes entry)) [
      | inl other ↦ rw (other, query_tables_of) rest
      | inr base ↦ elim h [
        | inl other ↦ cc
        | inr named ↦ rw (base, is_table-IsNamed tables (bare_of entry) named, query_tables_of) rest
      ]
    ]

-- A base table is among the tables of the query.
query_tables_of-Member :
    (tables : List TableInfo) (ctes entries : List Text) (e : Text)
    → All (IsAccounted tables ctes) entries
    → Member e entries
    → is_other ctes e ≡ false
    → Member (bare_of e) (query_tables_of tables ctes entries).0
unfolding query_tables_of
query_tables_of-Member tables ctes [] e h m base = elim m [ ]
query_tables_of-Member tables ctes (entry ∷ entries) e (h, hs) (at_head same) base =
    let here : is_other ctes entry ≡ false = rw same base in
    elim h [
      | inl other ↦ cc
      | inr named ↦
          rw (here, is_table-IsNamed tables (bare_of entry) named, query_tables_of)
            (at_head (rw same refl))
    ]
query_tables_of-Member tables ctes (entry ∷ entries) e (h, hs) (further m) base =
    let rest = query_tables_of-Member tables ctes entries e hs m base in
    elim (Bool-cases (is_other ctes entry)) [
      | inl other ↦ rw (other, query_tables_of) rest
      | inr here ↦ elim h [
        | inl other ↦ cc
        | inr named ↦
            rw (here, is_table-IsNamed tables (bare_of entry) named, query_tables_of) (further rest)
      ]
    ]

Member-head : {x w : Text} {ws : List Text} → Member x (w ∷ ws) → (w ≡ x) ⊎ Member x ws
Member-head (at_head p) = inl p
Member-head (further m) = inr m

-- A table of the query comes from an entry of the parser's list.
Member-query_tables_of :
    (tables : List TableInfo) (ctes entries : List Text) (name : Text)
    → Member name (query_tables_of tables ctes entries).0
    → (e : Text) × Member e entries × (bare_of e ≡ name)
unfolding query_tables_of
Member-query_tables_of tables ctes [] name m = elim m [ ]
Member-query_tables_of tables ctes (entry ∷ entries) name m =
    let behind : Member name (query_tables_of tables ctes entries).0
        → (e : Text) × Member e (entry ∷ entries) × (bare_of e ≡ name) =
      λ n.
        let (e, there, p) = Member-query_tables_of tables ctes entries name n in
        (e, further there, p) in
    elim (Bool-cases (is_other ctes entry)) [
      | inl other ↦ behind (rw (other, query_tables_of) at m)
      | inr here ↦ elim (Bool-cases (is_table tables (bare_of entry))) [
        | inr other ↦ behind (rw (here, other, query_tables_of) at m)
        | inl table ↦ elim (Member-head (rw (here, table, query_tables_of) at m)) [
          | inl p ↦ (entry, at_head refl, p)
          | inr n ↦ behind n
        ]
      ]
    ]

any_owns-HasColumn :
    (tables : List TableInfo) (column : Text) (names : List Text)
    → any_owns tables column names ≡ true
    → (name : Text) × Member name names × (owns tables column name ≡ true)
any_owns-HasColumn tables column [] h = cc
any_owns-HasColumn tables column (t ∷ ts) h = elim (Bool-cases (owns tables column t)) [
  | inl e ↦ (t, at_head refl, e)
  | inr e ↦
      let h' : any_owns tables column ts ≡ true = ground arith in
      let (name, there, p) = any_owns-HasColumn tables column ts h' in (name, further there, p)
]

head_or_none-Member :
    {x : Text} (xs : List Text) → Member x xs → (y : Text) × (head_or_none xs ≡ some y)
head_or_none-Member [] m = elim m [ ]
head_or_none-Member (w ∷ xs) m = (w, refl)

module _ (catalog : SchemaCatalog) (sql : Text) (entries : List Text) where
  abbrev ctes : List Text
  ctes = collect_cte_names sql

  abbrev query_tables : List Text
  query_tables = (query_tables_of catalog.tables ctes entries).0

  abbrev attributable : Bool
  attributable =
      is_single_scope (without_literals_and_comments sql)
      && (query_tables_of catalog.tables ctes entries).1

  is_attributable : {ref : Text} → IsStray catalog sql entries ref → attributable ≡ true
  is_attributable h = rw (h.single, query_tables_of-known catalog.tables ctes entries h.known) refl

  no_owner :
      {ref : Text}
      → IsStray catalog sql entries ref
      → any_owns catalog.tables (column_of_ref ref) query_tables ≡ false
  no_owner {ref} h = elim (Bool-cases (any_owns catalog.tables (column_of_ref ref) query_tables)) [
    | inr e ↦ e
    | inl e ↦
        let (name, there, owned) =
          any_owns-HasColumn catalog.tables (column_of_ref ref) query_tables e in
        let (entry, found, p) = Member-query_tables_of catalog.tables ctes entries name there in
        absurd (
          h.unowned entry found
            (HasColumn-owns catalog.tables (column_of_ref ref) (bare_of entry) (rw p owned)))
  ]

  not_alias :
      (ref : Text)
      → (Member (column_of_ref ref) (collect_select_aliases sql) → ⊥)
      → has (collect_select_aliases sql) (column_of_ref ref) ≡ false
  not_alias ref free = elim (Bool-cases (has (collect_select_aliases sql) (column_of_ref ref))) [
    | inr e ↦ e
    | inl e ↦ absurd (free (has→Member (collect_select_aliases sql) (column_of_ref ref) e))
  ]

  -- The test reports a stray column.
  ref_error-IsStray :
      (ref : Text)
      → IsStray catalog sql entries ref
      → ref_error catalog ctes (collect_select_aliases sql) query_tables attributable ref ≡ none
      → ⊥
  unfolding ref_error bare_column_error
  ref_error-IsStray ref h none_there =
      let (e, there, base) = h.base in
      let (owner, head) =
        head_or_none-Member query_tables
          (query_tables_of-Member catalog.tables ctes entries e h.known there base) in
      cc (
        rw
          (
            h.bare.named,
            h.bare.bare,
            head,
            is_attributable h,
            not_alias ref h.no_alias,
            h.not_implicit,
            no_owner h,
            ref_error,
            bare_column_error,
          )
          at none_there)

  unknown_ref-IsStray :
      (refs : List Text)
      → unknown_ref catalog ctes (collect_select_aliases sql) query_tables attributable refs ≡ none
      → All (λ ref. IsStray catalog sql entries ref → ⊥) refs
  unfolding unknown_ref
  unknown_ref-IsStray [] h = tt
  unknown_ref-IsStray (ref ∷ refs) h =
      elim (Option-cases
        (ref_error catalog ctes (collect_select_aliases sql) query_tables attributable ref)) [
          | inr (u, e) ↦ cc (rw (e, unknown_ref) at h)
          | inl e ↦ (
            λ stray. ref_error-IsStray ref stray e,
            unknown_ref-IsStray refs (rw (e, unknown_ref) at h),
          )
        ]

-- Where `firstUnknownColumn` finds nothing, none of the parser's columns is a stray one.
pub first_unknown_column-IsStray :
    (table_list column_list : Text → Text → Option (List Text)) (sql : Text)
    (catalog : SchemaCatalog) (grammar : Text) (refs entries : List Text)
    → first_unknown_column table_list column_list sql catalog grammar ≡ none
    → column_list (without_fetch_tail sql) grammar ≡ some refs
    → table_list (without_fetch_tail sql) grammar ≡ some entries
    → All (λ ref. IsStray catalog sql entries ref → ⊥) refs
unfolding first_unknown_column
first_unknown_column-IsStray table_list column_list sql catalog grammar refs entries h e f =
    unknown_ref-IsStray catalog sql entries refs (rw (e, f, first_unknown_column, scope_of) at h)
