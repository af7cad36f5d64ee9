-- ===== src/IdentifierCase/Tests.antt =====
-- Runs of the rewriters on statements, and the theorem on them at one.
use ask_sql.Prelude.{
  true, false, none, some, List, [], ◌∷◌, codes, length, starts_with, to_lower_case, text_eq, has,
  skip_space, is_space, ◌≡◌, refl,
}
use ask_sql.Regex.{match, rounds, exec_from, exec, test}
use ask_sql.IdentifierCase.{
  index_of, up_to, tag_end, dollar_tag, literal_rest, is_line_comment, is_block_comment, skip_to,
  pass, reverse_onto, scan_code, rewrite_code, without_literals_and_comments, unterminated_from,
  has_unterminated_literal,
}
use ask_sql.IdentifierCase.Names.{
  replace_from, replace, spelling, put_spelling, spellings_from, lower, correct_table_case,
  past_unit, skip_quoted, quote_catalog_identifiers, replace_first, quote_reserved_aliases,
  looks_like_unknown_table,
}
use ask_sql.IdentifierCase.Pieces.{Piece, joined, IsCut}
use ask_sql.IdentifierCase.Kept.{
  IsKept, blanked, quote_catalog_identifiers-IsKept, without_literals_and_comments-blanked,
}

blanked_run :
    without_literals_and_comments (codes "a 'it''s' -- x\n$t$ q $t$ \"b\"")
    ≡ codes "a             \n          \"b\""
unfolding without_literals_and_comments rewrite_code scan_code skip_to dollar_tag tag_end index_of
    up_to literal_rest is_line_comment is_block_comment pass reverse_onto starts_with
blanked_run = refl

unterminated_run :
    (has_unterminated_literal (codes "SELECT 'O'Brien'") false ≡ true)
    × (has_unterminated_literal (codes "SELECT 'O''Brien' -- it's") false ≡ false)
unfolding unterminated_from dollar_tag tag_end index_of up_to is_line_comment is_block_comment
    starts_with
unterminated_run = (refl, refl)

quoted_run :
    quote_catalog_identifiers
      (codes "order" ∷ [])
      (codes "SELECT Name, 'Name' FROM Users u ORDER BY u.Name")
      (codes "Name" ∷ codes "Users" ∷ codes "Order" ∷ [])
      b'"'
      (codes "Users" ∷ [])
    ≡ some (codes "SELECT \"Name\", 'Name' FROM \"Users\" u ORDER BY u.\"Name\"")
unfolding quote_catalog_identifiers rewrite_code scan_code skip_to dollar_tag tag_end index_of up_to
    literal_rest is_line_comment is_block_comment pass reverse_onto starts_with replace replace_from
    spelling put_spelling spellings_from past_unit skip_quoted to_lower_case text_eq has skip_space
    is_space match rounds exec_from exec test
quoted_run = refl

corrected_run :
    (correct_table_case (codes "select * from users") (codes "Users" ∷ []) b'"' lower
      ≡ some (codes "select * from \"Users\""))
    × (correct_table_case (codes "select * from prod.users.x") (codes "Users" ∷ []) b'"' lower
        ≡ none)
unfolding correct_table_case rewrite_code scan_code skip_to dollar_tag tag_end index_of up_to
    literal_rest is_line_comment is_block_comment pass reverse_onto starts_with replace replace_from
    spelling put_spelling spellings_from to_lower_case text_eq skip_space is_space match rounds
    exec_from
corrected_run = (refl, refl)

alias_run :
    (quote_reserved_aliases
        (codes "rank" ∷ codes "date" ∷ [])
        (codes "SELECT 1 AS rank, CAST(x AS DATE) FROM t")
        b'`'
      ≡ some (codes "SELECT 1 AS `rank`, CAST(x AS DATE) FROM t"))
    × (looks_like_unknown_table (codes "ERROR: relation \"x\" does not exist") ≡ true)
unfolding quote_reserved_aliases rewrite_code scan_code skip_to dollar_tag tag_end index_of up_to
    literal_rest is_line_comment is_block_comment pass reverse_onto starts_with replace replace_from
    past_unit skip_quoted to_lower_case text_eq has skip_space is_space match rounds exec_from exec
    test replace_first
alias_run = (refl, refl)

quote_catalog_identifiers-IsKept_example :
    IsKept
      (skip_quoted b'"')
      (codes "SELECT Name, 'Name' FROM Users u ORDER BY u.Name")
      (codes "SELECT \"Name\", 'Name' FROM \"Users\" u ORDER BY u.\"Name\"")
quote_catalog_identifiers-IsKept_example =
    quote_catalog_identifiers-IsKept (codes "order" ∷ [])
      (codes "SELECT Name, 'Name' FROM Users u ORDER BY u.Name")
      (codes "Name" ∷ codes "Users" ∷ codes "Order" ∷ []) b'"' (codes "Users" ∷ []) quoted_run

without_literals_and_comments-blanked_example :
    (ps : List Piece) × (codes "a 'b' -- c" ≡ joined ps)
    × IsCut (skip_to false false) [] ps
    × (without_literals_and_comments (codes "a 'b' -- c") ≡ blanked ps)
    × (length (without_literals_and_comments (codes "a 'b' -- c")) ≡ length (codes "a 'b' -- c"))
without_literals_and_comments-blanked_example =
    without_literals_and_comments-blanked (codes "a 'b' -- c")
