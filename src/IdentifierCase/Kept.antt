-- ===== src/IdentifierCase/Kept.antt =====
-- The rewriters leave every literal, comment and quoted identifier as it is.
use ask_sql.Prelude.{
  ℕ, suc, ◌≤◌, true, false, not, Option, some, List, [], ◌∷◌, ◌++◌, Text, length, length-append,
  length-replicate, to_lower_case, map, ◌==◌, Bool-cases, ◌≡◌, refl, sym, ap, ◌∙◌, inl, inr, arith,
}
use ask_sql.IdentifierCase.{
  Edited, skip_to, rewrite_code, if_changed, blanks, without_literals_and_comments,
}
use ask_sql.IdentifierCase.Skip.{skip_to-bound}
use ask_sql.IdentifierCase.Pieces.{
  Piece, code, kept, joined, IsCut, IsSkip, rewritten, rewrite_code-Run,
}
use ask_sql.IdentifierCase.Names.{
  Folding, closing, past_unit, replace, skip_by_quote, skip_quoted, bare_identifier, fix_name,
  spellings_from, table_position, fix_table, correct_table_case, quote_catalog_identifiers,
}

-- The text is made of the pieces: those that are kept as they are, and something for each piece of
-- code.
pub data Keeps : List Piece → Text → Type 0 where
  done : Keeps [] []
  new_code :
      {s : Text} {ps : List Piece} {out : Text} (t : Text)
      → Keeps ps out
      → Keeps (code s ∷ ps) (t ++ out)
  same_literal :
      {s : Text} {ps : List Piece} {out : Text} → Keeps ps out → Keeps (kept s ∷ ps) (s ++ out)

rewritten-Keeps :
    (fix : Text → Text → Edited) (ps : List Piece) → Keeps ps (rewritten fix (λ s. s) ps).0
unfolding rewritten
rewritten-Keeps fix [] = done
rewritten-Keeps fix (code s ∷ ps) = new_code (fix s (joined ps)).0 (rewritten-Keeps fix ps)
rewritten-Keeps fix (kept s ∷ ps) = same_literal (rewritten-Keeps fix ps)

if_changed-some : (e : Edited) {out : Text} → if_changed e ≡ some out → e.0 ≡ out
if_changed-some (s, true) h = cc
if_changed-some (s, false) h = cc

past_unit-le : (c : ℕ) (s : Text) → past_unit c s ≤ length s
unfolding past_unit
past_unit-le c [] = omega arith
past_unit-le c (d ∷ s) = let rest = past_unit-le c s in ground arith

skip_quoted-IsSkip : (quote : ℕ) → IsSkip (skip_quoted quote)
unfolding skip_quoted
skip_quoted-IsSkip quote before [] n h = cc
skip_quoted-IsSkip quote before (c ∷ s) n h = elim (Bool-cases (c == quote)) [
  | inl e ↦
      let p : suc (past_unit (closing quote) s) ≡ n = cc (rw (e, skip_quoted) at h) in
      let rest = past_unit-le (closing quote) s in (omega arith, omega arith)
  | inr e ↦
      skip_to-bound (not (quote == b'"')) (quote == b'`') before (c ∷ s) n
        (rw (e, skip_quoted) at h)
]

-- What a rewriter that changes code only makes of a statement.
abbrev pub IsKept : (Text → Text → Option ℕ) → Text → Text → Type 0
IsKept skip sql out = (ps : List Piece) × (sql ≡ joined ps) × IsCut skip [] ps × Keeps ps out

rewrite_code-IsKept :
    (skip : Text → Text → Option ℕ) (fix : Text → Text → Edited) (sql out : Text)
    → IsSkip skip
    → if_changed (rewrite_code skip fix (λ s. s) sql) ≡ some out
    → IsKept skip sql out
rewrite_code-IsKept skip fix sql out is_skip h =
    let (ps, split, cut, same) = rewrite_code-Run skip is_skip fix (λ s. s) sql in
    let text = if_changed-some (rewrite_code skip fix (λ s. s) sql) h in
    (ps, split, cut, rw (← text, same) (rewritten-Keeps fix ps))

-- Where `quoteCatalogIdentifiers` changes a statement, the statement is a sequence of code, literals,
-- comments and quoted identifiers, one wherever it begins in the code, and only code is changed: all
-- else stands in the new statement as it was, in its order.
pub quote_catalog_identifiers-IsKept :
    (reserved : List Text) (sql : Text) (names : List Text) (quote : ℕ) (table_names : List Text)
    {out : Text}
    → quote_catalog_identifiers reserved sql names quote table_names ≡ some out
    → IsKept (skip_quoted quote) sql out
unfolding quote_catalog_identifiers
quote_catalog_identifiers-IsKept reserved sql [] quote table_names h = cc
quote_catalog_identifiers-IsKept reserved sql (n ∷ ns) quote table_names {out} h =
    let known = spellings_from [] (n ∷ ns) in
    let tables = map to_lower_case table_names in
    rewrite_code-IsKept (skip_quoted quote)
      (λ code behind. replace bare_identifier (fix_name reserved known tables quote behind) code)
      sql out (skip_quoted-IsSkip quote) h

-- The same for `correctTableCase`, to which quoted identifiers are code.
pub correct_table_case-IsKept :
    (sql : Text) (table_names : List Text) (quote : ℕ) (folding : Folding) {out : Text}
    → correct_table_case sql table_names quote folding ≡ some out
    → IsKept (skip_by_quote quote) sql out
unfolding correct_table_case
correct_table_case-IsKept sql table_names quote folding {out} h =
    let known = spellings_from [] table_names in
    rewrite_code-IsKept (skip_by_quote quote)
      (λ code behind. replace table_position (fix_table known quote folding) code) sql out
      (λ before s n e. skip_to-bound (not (quote == b'"')) (quote == b'`') before s n e) h

-- The text with blanks for what is kept.
unfoldable pub blanked : List Piece → Text
blanked [] = []
blanked (code s ∷ ps) = s ++ blanked ps
blanked (kept s ∷ ps) = blanks s ++ blanked ps

rewritten-blanked :
    (ps : List Piece) → (rewritten (λ s behind. (s, false)) blanks ps).0 ≡ blanked ps
unfolding rewritten blanked
rewritten-blanked [] = refl
rewritten-blanked (code s ∷ ps) = ap (λ t. s ++ t) (rewritten-blanked ps)
rewritten-blanked (kept s ∷ ps) = ap (λ t. blanks s ++ t) (rewritten-blanked ps)

length-blanked : (ps : List Piece) → length (blanked ps) ≡ length (joined ps)
unfolding blanked joined
length-blanked [] = refl
length-blanked (code s ∷ ps) =
    let rest = length-blanked ps in
    omega (arith, length-append s (blanked ps), length-append s (joined ps))
length-blanked (kept s ∷ ps) =
    let rest = length-blanked ps in
    omega (
      arith,
      length-append (blanks s) (blanked ps),
      length-append s (joined ps),
      length-replicate {A = ℕ} (length s) b' ',
    )

-- `withoutLiteralsAndComments` cuts the statement into code and literals or comments, one wherever it
-- begins in the code, and leaves the code with as many blanks for each of the others as it has
-- characters: every character of code keeps its place.
pub without_literals_and_comments-blanked :
    (sql : Text)
    → (ps : List Piece) × (sql ≡ joined ps)
      × IsCut (skip_to false false) [] ps
      × (without_literals_and_comments sql ≡ blanked ps)
      × (length (without_literals_and_comments sql) ≡ length sql)
unfolding without_literals_and_comments
without_literals_and_comments-blanked sql =
    let (ps, split, cut, same) =
      rewrite_code-Run (skip_to false false) (skip_to-bound false false) (λ s behind. (s, false))
        blanks sql in
    let text = ap (λ (e : Edited). e.0) same ∙ rewritten-blanked ps in
    (ps, split, cut, text, ap length text ∙ length-blanked ps ∙ ap length (sym split))
