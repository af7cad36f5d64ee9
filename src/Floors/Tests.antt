-- ===== src/Floors/Tests.antt =====
-- Runs of the tests for tables and columns on the lists of a parser.
use ask_sql.Prelude.{
  Option, none, some, List, [], ◌∷◌, Text, codes, has, text_eq, to_lower_case, starts_with,
  includes, is_space, skip_space, ◌≡◌, refl,
}
use ask_sql.Engine.{postgres}
use ask_sql.Regex.{rounds, match, exec_from, exec, test}
use ask_sql.Sql.Rewrite.{without_fetch_tail}
use ask_sql.History.{text_lt}
use ask_sql.IdentifierCase.{
  index_of, up_to, tag_end, dollar_tag, literal_rest, is_line_comment, is_block_comment, skip_to,
  pass, reverse_onto, scan_code, rewrite_code, without_literals_and_comments,
}
use ask_sql.Floors.{
  TableInfo, SchemaCatalog, split_entry, matches_from, collect_cte_names, collect_select_aliases,
  known_tables, unknown_table_in, first_unknown_table, last_segment, columns_of,
}
use ask_sql.Floors.Columns.{
  is_single_scope, has_using, all_known, ambiguous_ref, query_tables_of, bare_column_error,
  qualified_column_error, ref_error, unknown_ref, real_name, real_columns, put_sorted, sorted_set,
  columns_of_all, ambiguous_column, first_unknown_column,
}

abbrev table_of : Text → Text → Text → TableInfo
table_of name first second = record {
  schema = some (codes "Shop");
  name = name;
  columns =
      record { name = first; db_type = codes "int" }
      ∷ record { name = second; db_type = codes "int" }
      ∷ [];
}

abbrev shop : SchemaCatalog
shop = record {
  engine = postgres;
  tables =
      table_of (codes "Orders") (codes "Id") (codes "Total")
      ∷ table_of (codes "Users") (codes "Id") (codes "Name")
      ∷ [];
}

abbrev both_tables : Text → Text → Option (List Text)
both_tables text grammar = some (codes "select::null::orders" ∷ codes "select::null::users" ∷ [])

-- A table of a CTE is known, and one of another schema is not.
table_run :
    (first_unknown_table both_tables
        (codes "WITH big AS (SELECT 1) SELECT * FROM big")
        shop
        (codes "Postgresql")
        (some (codes "select::null::big" ∷ codes "select::shop::Users" ∷ []))
      ≡ none)
    × (first_unknown_table both_tables
          (codes "SELECT * FROM old.users, x.y")
          shop
          (codes "Postgresql")
          (some (codes "select::pg_catalog::anything" ∷ codes "select::old::items" ∷ []))
        ≡ some (codes "old.items"))
unfolding first_unknown_table unknown_table_in known_tables collect_cte_names matches_from
    split_entry exec_from exec match rounds test to_lower_case text_eq has starts_with includes
    is_space skip_space
table_run = (refl, refl)

-- `id` stands in both tables of the join, and `total` in one.
ambiguous_run :
    (ambiguous_column both_tables
        (λ text grammar. some (codes "select::null::id" ∷ []))
        (codes "SELECT id FROM orders JOIN users ON true")
        shop
        (codes "Postgresql")
      ≡ some (codes "id"))
    × (ambiguous_column both_tables
          (λ text grammar. some (codes "select::null::total" ∷ []))
          (codes "SELECT total FROM orders JOIN users ON true")
          shop
          (codes "Postgresql")
        ≡ none)
unfolding ambiguous_column ambiguous_ref all_known has_using is_single_scope columns_of last_segment
    without_fetch_tail without_literals_and_comments rewrite_code scan_code skip_to dollar_tag
    tag_end index_of up_to literal_rest is_line_comment is_block_comment pass reverse_onto
    collect_cte_names collect_select_aliases matches_from split_entry exec_from exec match rounds
    test to_lower_case text_eq has starts_with includes is_space skip_space
ambiguous_run = (refl, refl)

-- A column that no table of the query has, with what the tables have.
column_run :
    first_unknown_column both_tables
      (λ text grammar. some (codes "select::null::price" ∷ []))
      (codes "SELECT price FROM orders, users")
      shop
      (codes "Postgresql")
    ≡ some (record {
      table = codes "Orders";
      column = codes "price";
      available = codes "Id" ∷ codes "Name" ∷ codes "Total" ∷ [];
    })
unfolding first_unknown_column unknown_ref ref_error qualified_column_error bare_column_error
    real_name real_columns put_sorted sorted_set columns_of_all query_tables_of is_single_scope
    columns_of last_segment without_fetch_tail without_literals_and_comments rewrite_code scan_code
    skip_to dollar_tag tag_end index_of up_to literal_rest is_line_comment is_block_comment pass
    reverse_onto collect_cte_names collect_select_aliases matches_from split_entry exec_from exec
    match rounds test to_lower_case text_eq text_lt has starts_with includes is_space skip_space
column_run = refl
