-- ===== src/IdentifierCase/Names.antt =====
-- packages/core/src/identifier-case.ts: the three rewriters. The reserved words are read from a
-- generated table, so they are an argument.
use ask_sql.Prelude.{
  ℕ, zero, suc, ◌+◌, ◌-◌, Bool, true, false, not, ◌&&◌, ◌||◌, Option, none, some, List, [], ◌∷◌,
  ◌++◌, Text, codes, length, take, drop, text_eq, has, map, if◌then◌else◌, leb, ◌==◌, begins_with,
  skip_space, is_space, to_lower_case, is_letter, is_word,
}
use ask_sql.Engine.{EngineKind, postgres, oracle}
use ask_sql.Regex.{
  Regex, start, finish, boundary, unit, many, group, either, ahead, then_, exec_from, test, is_nil,
}
use ask_sql.Regex.Build.{
  word, unit_is, optional, spaces, spaces_or_none, in_order, any_word, any_of, captured_of,
}
use ask_sql.Sql.Rewrite.{or_nothing}
use ask_sql.IdentifierCase.{Edited, ◌<+>◌, skip_to, index_of, rewrite_code, if_changed}

-- `CLOSING[quoteChar] ?? quoteChar`
abbrev pub closing : ℕ → ℕ
closing quote = if quote == b'[' then b']' else quote

abbrev pub quoted : Text → ℕ → Text
quoted name quote = quote ∷ name ++ (closing quote ∷ [])

-- `text.replace(re, …)` with a callback, which gets the groups, the text before the match, the match
-- and the text behind it. No expression here matches an empty text.
unfoldable pub replace_from :
    Regex → (List (ℕ × Text) → Text → Text → Text → Edited) → ℕ → Option ℕ → Text → Text → Edited
replace_from r f zero last before s = (s, false)
replace_from r f (suc fuel) last before s = elim (exec_from r last s) [
  | none ↦ (s, false)
  | some (skipped, q) ↦
      let matched = take (length s - length skipped - length q.rest) (drop (length skipped) s) in
      (skipped, false)
      <+> f q.groups (before ++ skipped) matched q.rest
      <+> replace_from r f fuel q.before (before ++ skipped ++ matched) q.rest
]

unfoldable pub replace : Regex → (List (ℕ × Text) → Text → Text → Text → Edited) → Text → Edited
replace r f s = replace_from r f (suc (length s)) none [] s

-- `byLower`: the spelling of each name, empty where there is more than one.
abbrev pub Spellings : Type 0
Spellings = List (Text × Text)

unfoldable pub spelling : Text → Spellings → Option Text
spelling lower [] = none
spelling lower ((k, v) ∷ ks) = if text_eq k lower then some v else spelling lower ks

unfoldable pub put_spelling : Text → Text → Spellings → Spellings
put_spelling lower name [] = (lower, name) ∷ []
put_spelling lower name ((k, v) ∷ ks) =
    if text_eq k lower
    then (k, if text_eq v name then v else []) ∷ ks
    else (k, v) ∷ put_spelling lower name ks

unfoldable pub spellings_from : Spellings → List Text → Spellings
spellings_from known [] = known
spellings_from known (n ∷ ns) = spellings_from (put_spelling (to_lower_case n) n known) ns

abbrev pub non_empty : Option Text → Option Text
non_empty (some (c ∷ s)) = some (c ∷ s)
non_empty _ = none

abbrev pub canonical : Spellings → Text → Option Text
canonical known token = non_empty (spelling (to_lower_case token) known)

pub data Folding : Type 0 where
  lower upper unfolded : Folding

abbrev pub folding_for : EngineKind → Folding
folding_for postgres = lower
folding_for oracle = upper
folding_for _ = unfolded

-- `toUpperCase` on the names that the expressions match, which are ASCII
abbrev pub upper_letter : ℕ → ℕ
upper_letter c = if leb b'a' c && leb c b'z' then c - 32 else c

abbrev pub fold_name : Text → Folding → Text
fold_name name lower = to_lower_case name
fold_name name upper = map upper_letter name
fold_name name unfolded = name

abbrev pub is_name_unit : ℕ → Bool
is_name_unit c = is_word c || c == b'$'

abbrev pub is_name_start : ℕ → Bool
is_name_start c = is_letter c || c == b'_'

-- `([A-Za-z_][\w$]*)` as group `i`
abbrev pub name_group : ℕ → Regex
name_group i = group i (then_ (unit is_name_start) (many (unit is_name_unit)))

-- ``([`"[]?)`` as group `i`, and ``[`"\]]?``
abbrev pub opening_quote : ℕ → Regex
opening_quote i = group i (optional (unit (λ c. c == b'`' || (c == b'"' || c == b'['))))

abbrev pub closing_quote : Regex
closing_quote = optional (unit (λ c. c == b'`' || (c == b'"' || c == b']')))

-- `TABLE_POSITION`, with its seven groups
abbrev pub table_position : Regex
table_position = in_order (
    boundary false
    ∷ group 1 (any_word false (codes "from") (codes "join" ∷ codes "update" ∷ codes "into" ∷ []))
    ∷ group 2 spaces
    ∷ opening_quote 3
    ∷ name_group 4
    ∷ closing_quote
    ∷ optional (
        group 5 (
          in_order (
            spaces_or_none
            ∷ unit_is b'.'
            ∷ spaces_or_none
            ∷ opening_quote 6
            ∷ name_group 7
            ∷ closing_quote
            ∷ [])))
    ∷ [])

abbrev pub chosen : Option Text → Text → (Text → Text) → Text
chosen none first f = first
chosen (some t) first f = f t

abbrev pub requoted : Text → Text → Text
requoted name [] = name
requoted name (o ∷ _) = quoted name o

-- The callback of `correctTableCase`.
abbrev pub fix_table : Spellings → ℕ → Folding → List (ℕ × Text) → Text → Text → Text → Edited
fix_table known quote folding groups before matched after =
    let first = or_nothing (captured_of 4 groups) in
    let second = captured_of 7 groups in
    let unqualified = or_nothing (captured_of 3 groups) in
    let qualifier_quote = or_nothing (captured_of 6 groups) in
    let target = chosen second first (λ t. t) in
    let open_quote = chosen second unqualified (λ t. qualifier_quote) in
    let resolves_to = if is_nil open_quote then fold_name target folding else target in
    let lead = or_nothing (captured_of 1 groups) ++ or_nothing (captured_of 2 groups) in
    elim (canonical known target) [
      | none ↦ (matched, false)
      | some name ↦
          if begins_with b'.' (skip_space after) || text_eq resolves_to name
          then (matched, false)
          else elim second [
            | none ↦ (lead ++ quoted name quote, true)
            | some _ ↦ (lead ++ requoted first unqualified ++ b'.' ∷ quoted name quote, true)
          ]
    ]

-- `quoteChar !== '"'` and ``quoteChar === '`'``
abbrev pub skip_by_quote : ℕ → Text → Text → Option ℕ
skip_by_quote quote before s = skip_to (not (quote == b'"')) (quote == b'`') before s

unfoldable pub correct_table_case : Text → List Text → ℕ → Folding → Option Text
correct_table_case sql table_names quote folding =
    let known = spellings_from [] table_names in
    if_changed (
      rewrite_code (skip_by_quote quote)
        (λ code behind. replace table_position (fix_table known quote folding) code)
        (λ literal. literal) sql)

-- The index behind the quote that closes an identifier.
unfoldable pub past_unit : ℕ → Text → ℕ
past_unit c [] = 0
past_unit c (d ∷ s) = if d == c then 1 else suc (past_unit c s)

-- An identifier that is quoted already is passed over like a literal.
unfoldable pub skip_quoted : ℕ → Text → Text → Option ℕ
skip_quoted quote before [] = none
skip_quoted quote before (c ∷ s) =
    if c == quote
    then some (suc (past_unit (closing quote) s))
    else skip_by_quote quote before (c ∷ s)

-- `BARE_IDENTIFIER`
abbrev pub bare_identifier : Regex
bare_identifier = in_order (
    name_group 1
    ∷ group 2 (then_ spaces_or_none (optional (unit (λ c. c == b'.' || c == b'('))))
    ∷ [])

abbrev pub lead_in : Regex
lead_in = any_of (then_ (boundary false) (word false (codes "from"))) (
    then_ (boundary false) (word false (codes "join"))
    ∷ then_ (boundary false) (word false (codes "update"))
    ∷ then_ (boundary false) (word false (codes "into"))
    ∷ [])

-- `NAME_POSITION`, `QUALIFIER_POSITION` and `KEYWORD_ARGUMENT`
abbrev pub name_position : Regex
name_position = in_order (either lead_in (unit_is b'.') ∷ spaces_or_none ∷ finish ∷ [])

abbrev pub qualifier_position : Regex
qualifier_position = in_order (lead_in ∷ spaces ∷ finish ∷ [])

abbrev pub keyword_argument : Regex
keyword_argument = in_order (
    boundary false
    ∷ any_word false (codes "extract")
        (codes "trim" ∷ codes "position" ∷ codes "overlay" ∷ codes "substring" ∷ [])
    ∷ spaces_or_none
    ∷ unit_is b'('
    ∷ spaces_or_none
    ∷ finish
    ∷ [])

-- The tests of the callback of `quoteCatalogIdentifiers` that leave a token as it is.
abbrev pub is_left_alone : List Text → List Text → Text → Text → Text → Text → Bool
is_left_alone reserved tables token tail before behind =
    let lowered = to_lower_case token in
    test keyword_argument before
    || (begins_with b'\'' (skip_space behind)
        || ((begins_with b'.' (skip_space tail)
              && (test qualifier_position before || not (has tables lowered)))
            || (has reserved lowered && not (test name_position before))))

abbrev pub fix_name :
    List Text → Spellings → List Text → ℕ → Text → List (ℕ × Text) → Text → Text → Text → Edited
fix_name reserved known tables quote rest groups before matched after =
    let token = or_nothing (captured_of 1 groups) in
    let tail = or_nothing (captured_of 2 groups) in
    if begins_with b'(' (skip_space tail) then (matched, false) else elim (canonical known token) [
      | none ↦ (matched, false)
      | some name ↦
          if is_left_alone reserved tables token tail before (tail ++ after ++ rest)
          then (matched, false)
          else (quoted name quote ++ tail, true)
    ]

-- `names` and `tableNames` of the catalog; `reserved` are the words reserved in any engine.
unfoldable pub quote_catalog_identifiers :
    List Text → Text → List Text → ℕ → List Text → Option Text
quote_catalog_identifiers reserved sql [] quote table_names = none
quote_catalog_identifiers reserved sql (n ∷ ns) quote table_names =
    let known = spellings_from [] (n ∷ ns) in
    let tables = map to_lower_case table_names in
    if_changed (
      rewrite_code (skip_quoted quote)
        (λ code behind. replace bare_identifier (fix_name reserved known tables quote behind) code)
        (λ literal. literal) sql)

-- `RESERVED_ALIAS` and `CLAUSE_KEYWORD`
abbrev pub reserved_alias : Regex
reserved_alias = in_order (
    boundary false
    ∷ word false (codes "as")
    ∷ spaces
    ∷ name_group 1
    ∷ spaces_or_none
    ∷ ahead (either (unit (λ c. c == b',' || c == b')')) (either finish (unit is_space)))
    ∷ [])

abbrev pub clause_keyword : Regex
clause_keyword = in_order (
    start
    ∷ spaces
    ∷ any_word false (codes "from") (
        codes "where"
        ∷ codes "group"
        ∷ codes "order"
        ∷ codes "having"
        ∷ codes "limit"
        ∷ codes "offset"
        ∷ codes "union"
        ∷ codes "join"
        ∷ codes "on"
        ∷ codes "window"
        ∷ codes "fetch"
        ∷ codes "into"
        ∷ [])
    ∷ boundary false
    ∷ [])

-- `/^\s+[A-Za-z_]/`
abbrev pub bare_word_next : Regex
bare_word_next = in_order (start ∷ spaces ∷ unit is_name_start ∷ [])

-- `whole.replace(alias, quoted)`: the first place of the alias, which need not be the alias itself.
unfoldable pub replace_first : Text → Text → Text → Text
replace_first t new s = elim (index_of t s) [
  | none ↦ s
  | some i ↦ take i s ++ new ++ drop (i + length t) s
]

-- The callback of `quoteReservedAliases`: the type of a cast is left alone.
abbrev pub fix_alias : List Text → ℕ → List (ℕ × Text) → Text → Text → Text → Edited
fix_alias reserved quote groups before matched after =
    let alias = or_nothing (captured_of 1 groups) in
    if not (has reserved (to_lower_case alias))
      || (begins_with b')' (skip_space after)
          || (test bare_word_next after && not (test clause_keyword after)))
    then (matched, false)
    else (replace_first alias (quoted alias quote) matched, true)

-- `reserved` are the words reserved in the engine.
unfoldable pub quote_reserved_aliases : List Text → Text → ℕ → Option Text
quote_reserved_aliases reserved sql quote = if_changed (
    rewrite_code (skip_quoted quote)
      (λ code behind. replace reserved_alias (fix_alias reserved quote) code) (λ literal. literal)
      sql)

-- `looksLikeUnknownTable`
abbrev pub unknown_table_wording : Regex
unknown_table_wording = in_order (
    boundary false
    ∷ any_word false (codes "doesn't exist") (
        codes "does not exist"
        ∷ codes "not found"
        ∷ codes "unknown table"
        ∷ codes "invalid object name"
        ∷ codes "undefined table"
        ∷ codes "no such table"
        ∷ codes "table or view does not exist"
        ∷ [])
    ∷ boundary false
    ∷ [])

abbrev pub looks_like_unknown_table : Text → Bool
looks_like_unknown_table = test unknown_table_wording
