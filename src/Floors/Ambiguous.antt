-- ===== src/Floors/Ambiguous.antt =====
-- packages/core/src/engine.ts: where `ambiguousColumn` finds nothing, no column that is read without a
-- table is ambiguous.
use ask_sql.Prelude.{
  ◌≤◌, true, false, not, ◌||◌, Option, none, some, List, [], ◌∷◌, Text, length, has, has→Member,
  Member, at_head, further, All, ltb, if◌then◌else◌, Bool-cases, ◌≡◌, refl, sym, inl, inr, arith,
}
use mathlib.Core.Path
use ask_sql.Sql.Rewrite.{without_fetch_tail}
use ask_sql.Floors.{
  TableInfo, SchemaCatalog, system_schemas, collect_cte_names, collect_select_aliases, owns,
}
use ask_sql.Floors.Columns.{
  is_absent, is_wildcard, is_table, table_of_entry, table_of_ref, column_of_ref, all_known, owners,
  ambiguous_ref, ambiguous_column,
}
use ask_sql.Floors.Unqualified.{
  bare_of, Once, at_this, behind, Twice, at_both, later, IsOwner, IsPlainTable, IsAmbiguous,
  is_table-IsNamed, owns-HasColumn,
}

-- The names of the entries that have one, without their qualifiers.
abbrev bares : List Text → List Text
bares [] = []
bares (e ∷ es) = if is_absent (table_of_entry e) then bares es else bare_of e ∷ bares es

all_known-bares :
    (tables : List TableInfo) (ctes entries : List Text)
    → All (IsPlainTable tables ctes) entries
    → all_known tables ctes entries ≡ some (bares entries)
unfolding all_known
all_known-bares tables ctes [] h = refl
all_known-bares tables ctes (e ∷ es) (h, hs) =
    let rest = all_known-bares tables ctes es hs in
    elim (Bool-cases (is_absent (table_of_entry e))) [
      | inl absent ↦ rw (absent, all_known) rest
      | inr there ↦ elim h [
        | inl absent ↦ cc
        | inr (base, named) ↦
            let table = is_table-IsNamed tables (bare_of e) named in
            let base' : has ctes (bare_of e) || has system_schemas (bare_of e) ≡ false =
              ground arith in
            let is_base : (has ctes (bare_of e)
                  || (has system_schemas (bare_of e) || not (is_table tables (bare_of e))))
                ≡ false =
              ground arith in
            rw (there, is_base, rest, all_known) refl
      ]
    ]

length-owners :
    (tables : List TableInfo) (column : Text) (names : List Text)
    → length (owners tables column names) ≤ length names
length-owners tables column [] = omega arith
length-owners tables column (t ∷ ts) =
    let rest = length-owners tables column ts in
    elim (Bool-cases (owns tables column t)) [
      | inl e ↦ rw (e, owners, length) (omega (arith, rest))
      | inr e ↦ rw (e, owners, length) (omega (arith, rest))
    ]

owners-Once :
    (tables : List TableInfo) (column : Text) (entries : List Text)
    → Once (IsOwner tables column) entries
    → 1 ≤ length (owners tables column (bares entries))
owners-Once tables column [] h = elim h [ ]
owners-Once tables column (e ∷ es) (at_this (there, has_it)) =
    let owned = owns-HasColumn tables column (bare_of e) has_it in
    rw (there, owned, owners, length) (omega arith)
owners-Once tables column (e ∷ es) (behind h) =
    let rest = owners-Once tables column es h in
    elim (Bool-cases (is_absent (table_of_entry e))) [
      | inl absent ↦ rw absent rest
      | inr there ↦ elim (Bool-cases (owns tables column (bare_of e))) [
        | inl owned ↦ rw (there, owned, owners, length) (omega (arith, rest))
        | inr free ↦ rw (there, free, owners) rest
      ]
    ]

owners-Twice :
    (tables : List TableInfo) (column : Text) (entries : List Text)
    → Twice (IsOwner tables column) entries
    → 2 ≤ length (owners tables column (bares entries))
owners-Twice tables column [] h = elim h [ ]
owners-Twice tables column (e ∷ es) (at_both (there, has_it) h) =
    let owned = owns-HasColumn tables column (bare_of e) has_it in
    let rest = owners-Once tables column es h in
    rw (there, owned, owners, length) (omega (arith, rest))
owners-Twice tables column (e ∷ es) (later h) =
    let rest = owners-Twice tables column es h in
    elim (Bool-cases (is_absent (table_of_entry e))) [
      | inl absent ↦ rw absent rest
      | inr there ↦ elim (Bool-cases (owns tables column (bare_of e))) [
        | inl owned ↦ rw (there, owned, owners, length) (omega (arith, rest))
        | inr free ↦ rw (there, free, owners) rest
      ]
    ]

module _ (catalog : SchemaCatalog) (sql : Text) (entries : List Text) where
  abbrev aliases : List Text
  aliases = collect_select_aliases sql

  abbrev ctes : List Text
  ctes = collect_cte_names sql

  not_alias : (column : Text) → (Member column aliases → ⊥) → has aliases column ≡ false
  not_alias column free = elim (Bool-cases (has aliases column)) [
    | inr e ↦ e
    | inl e ↦ absurd (free (has→Member aliases column e))
  ]

  many_owners :
      {ref : Text}
      → IsAmbiguous catalog sql entries ref
      → ltb 1 (length (owners catalog.tables (column_of_ref ref) (bares entries))) ≡ true
  many_owners {ref} h =
      let two = owners-Twice catalog.tables (column_of_ref ref) entries h.owned in ground arith

  -- The search stops at an ambiguous column at the latest.
  ambiguous_ref-IsAmbiguous :
      (refs : List Text) (ref : Text)
      → Member ref refs
      → IsAmbiguous catalog sql entries ref
      → ambiguous_ref catalog.tables aliases (bares entries) refs ≡ none
      → ⊥
  unfolding ambiguous_ref
  ambiguous_ref-IsAmbiguous [] ref m h none_there = elim m [ ]
  ambiguous_ref-IsAmbiguous (r ∷ refs) ref (at_head same) h none_there =
      let here : IsAmbiguous catalog sql entries r =
        Path.subst (IsAmbiguous catalog sql entries) (sym same) h in
      cc (
        rw
          (
            here.bare.named,
            here.bare.bare,
            not_alias (column_of_ref r) here.no_alias,
            many_owners here,
            ambiguous_ref,
          )
          at none_there)
  ambiguous_ref-IsAmbiguous (r ∷ refs) ref (further m) h none_there =
      let rest = ambiguous_ref-IsAmbiguous refs ref m h in
      elim (Bool-cases (
        is_wildcard (column_of_ref r)
        || (not (is_absent (table_of_ref r))
            || (has aliases (column_of_ref r)
                || not
                    (ltb 1 (length (owners catalog.tables (column_of_ref r) (bares entries)))))))) [
                      | inl e ↦ rest (rw (e, ambiguous_ref) at none_there)
                      | inr e ↦ cc (rw (e, ambiguous_ref) at none_there)
                    ]

-- Where `ambiguousColumn` finds nothing, none of the parser's columns is ambiguous.
pub ambiguous_column-IsAmbiguous :
    (table_list column_list : Text → Text → Option (List Text)) (sql : Text)
    (catalog : SchemaCatalog) (grammar : Text) (refs entries : List Text)
    → ambiguous_column table_list column_list sql catalog grammar ≡ none
    → column_list (without_fetch_tail sql) grammar ≡ some refs
    → table_list (without_fetch_tail sql) grammar ≡ some entries
    → (ref : Text) → Member ref refs
    → IsAmbiguous catalog sql entries ref
    → ⊥
unfolding ambiguous_column
ambiguous_column-IsAmbiguous table_list column_list sql catalog grammar refs entries h e f ref m a =
    let known = all_known-bares catalog.tables (collect_cte_names sql) entries a.known in
    let two = owners-Twice catalog.tables (column_of_ref ref) entries a.owned in
    let few = length-owners catalog.tables (column_of_ref ref) (bares entries) in
    let enough : ltb (length (bares entries)) 2 ≡ false = ground (arith, two, few) in
    ambiguous_ref-IsAmbiguous catalog sql entries refs ref m a
      (rw (a.no_using, a.single, e, f, known, enough, ambiguous_column) at h)
