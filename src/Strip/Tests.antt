-- ===== src/Strip/Tests.antt =====
-- Runs of the scan and of the two checks on the text, and their theorems at concrete statements.
use ask_sql.Prelude.{
  starts_with, true, false, none, some, Text, codes, ◌++◌, length, ◌≡◌, refl, ◌↔◌, List, is_space,
}
use ask_sql.Engine.{postgres, mysql, duckdb}
use ask_sql.Strip.Spans.{
  after_line, after_block, after_literal, after_first, tag_of, after_tag, dollar_quoted,
  open_literal, open_span,
}
use ask_sql.Strip.Scan.{
  scan_from, scan_flags, scan, strip_comments_and_strings, mask_comments_and_strings,
}
use ask_sql.Strip.Trim.{
  end_from, has_separator, has_multiple_statements, last_real, trim_flags, trim_trailing_noise,
}
use ask_sql.Strip.Trim.Single.{IsSingle, has_multiple_statements_iff}
use ask_sql.Strip.Trim.Kept.{SplitEnd, trim_trailing_noise-SplitEnd}
use ask_sql.Strip.Pieces.{Piece, Cut, raw, blanked, stripped, mask_strip_pieces}
use ask_sql.Strip.Pieces.Mask.{
  Aligned, IsInert, mask_comments_and_strings-Aligned, mask_comments_and_strings-IsInert,
}

abbrev statement : Text
statement = codes "SELECT 'a;b' -- c\n;"

stripped_run : strip_comments_and_strings statement (some postgres) ≡ codes "SELECT    \n;"
unfolding strip_comments_and_strings scan scan_from open_span open_literal after_literal after_line
stripped_run = refl

masked_run : mask_comments_and_strings statement (some postgres) ≡ codes "SELECT           \n;"
unfolding mask_comments_and_strings scan scan_from open_span open_literal after_literal after_line
masked_run = refl

trimmed_run : trim_trailing_noise statement (some postgres) ≡ codes "SELECT 'a;b'"
unfolding trim_trailing_noise last_real open_span open_literal after_literal after_line is_space
trimmed_run = refl

nested_run : strip_comments_and_strings (codes "a /* b /* c */ d */ e") none ≡ codes "a   e"
unfolding strip_comments_and_strings scan scan_from open_span open_literal after_block
nested_run = refl

dollar_run : strip_comments_and_strings (codes "a $t$ ; $$ $t$ [b] \"c\"") none ≡ codes "a      \" "
unfolding strip_comments_and_strings scan scan_from open_span open_literal dollar_quoted after_first
    starts_with tag_of after_tag after_literal
dollar_run = refl

-- A MySQL literal with an escaped quote is one literal for the scan, but `trimTrailingNoise` ends
-- it at the escaped quote, and takes what follows `--` off the text.
abbrev escaped : Text
escaped = codes "SELECT 'a\\'b -- c'"

escaped_scan : strip_comments_and_strings escaped (some mysql) ≡ codes "SELECT  "
unfolding strip_comments_and_strings scan scan_from open_span open_literal after_literal
escaped_scan = refl

escaped_trim : trim_trailing_noise escaped (some mysql) ≡ codes "SELECT 'a\\'b"
unfolding trim_trailing_noise last_real open_span open_literal after_literal after_line is_space
escaped_trim = refl

several_run : has_multiple_statements (codes "SELECT 1; SELECT 2;") ≡ true
unfolding has_multiple_statements end_from has_separator is_space
several_run = refl

single_run : has_multiple_statements (codes "SELECT 1 ; ") ≡ false
unfolding has_multiple_statements end_from has_separator is_space
single_run = refl

has_multiple_statements_iff_example :
    (has_multiple_statements (codes "SELECT 1 ; ") ≡ false) ↔ IsSingle (codes "SELECT 1 ; ")
has_multiple_statements_iff_example = has_multiple_statements_iff (codes "SELECT 1 ; ")

trim_trailing_noise-SplitEnd_example :
    (pieces front back : List Piece) × Cut (trim_flags (some postgres)) none statement pieces
    × SplitEnd pieces front back
    × (statement ≡ raw front ++ raw back)
    × (trim_trailing_noise statement (some postgres) ≡ raw front)
trim_trailing_noise-SplitEnd_example = trim_trailing_noise-SplitEnd statement (some postgres)

mask_comments_and_strings-Aligned_example :
    (length (mask_comments_and_strings statement (some duckdb)) ≡ length statement)
    × Aligned (mask_comments_and_strings statement (some duckdb)) statement
mask_comments_and_strings-Aligned_example =
    mask_comments_and_strings-Aligned statement (some duckdb)

mask_comments_and_strings-IsInert_example :
    IsInert (scan_flags none) (mask_comments_and_strings statement none)
mask_comments_and_strings-IsInert_example = mask_comments_and_strings-IsInert statement none

mask_strip_pieces_example :
    (pieces : List Piece) × Cut (scan_flags (some duckdb)) none statement pieces
    × (raw pieces ≡ statement)
    × (mask_comments_and_strings statement (some duckdb) ≡ blanked pieces)
    × (strip_comments_and_strings statement (some duckdb) ≡ stripped pieces)
mask_strip_pieces_example = mask_strip_pieces statement (some duckdb)
