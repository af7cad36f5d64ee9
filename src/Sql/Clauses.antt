-- ===== src/Sql/Clauses.antt =====
-- packages/core/src/guard.ts: the regular expressions for recursion, for row limits and for MATCH.
use ask_sql.Prelude.{true, false, not, [], ◌∷◌, codes, ◌==◌, is_space, is_word}
use ask_sql.Regex.{Regex, start, finish, boundary, unit, many, ahead, group, then_, either}
use ask_sql.Regex.Build.{
  word, class, unit_is, one_or_more, optional, spaces, spaces_or_none, digits, in_order, any_word,
  any_of,
}

abbrev pub with_recursive : Regex
with_recursive = in_order (
    boundary true
    ∷ word true (codes "with")
    ∷ spaces
    ∷ word true (codes "recursive")
    ∷ boundary true
    ∷ [])

abbrev pub limit_word : Regex
limit_word = in_order (boundary true ∷ word true (codes "limit") ∷ boundary true ∷ [])

-- `/\b(count|sum|avg|min|max|total|group_concat)\s*\(/iu`
abbrev pub aggregate_call : Regex
aggregate_call = in_order (
    boundary true
    ∷ any_word true (codes "count") (
        codes "sum"
        ∷ codes "avg"
        ∷ codes "min"
        ∷ codes "max"
        ∷ codes "total"
        ∷ codes "group_concat"
        ∷ [])
    ∷ spaces_or_none
    ∷ unit_is b'('
    ∷ [])

abbrev pub group_by : Regex
group_by = in_order (
    boundary true
    ∷ word true (codes "group")
    ∷ spaces
    ∷ word true (codes "by")
    ∷ boundary true
    ∷ [])

abbrev pub select_distinct : Regex
select_distinct = in_order (
    boundary true
    ∷ word true (codes "select")
    ∷ spaces
    ∷ word true (codes "distinct")
    ∷ boundary true
    ∷ [])

-- `/\blimit\s+(\d+)\s*(?=;?\s*$)/iu`
abbrev pub plain_limit : Regex
plain_limit = in_order (
    boundary true
    ∷ word true (codes "limit")
    ∷ spaces
    ∷ group 1 digits
    ∷ spaces_or_none
    ∷ ahead (in_order (optional (unit_is b';') ∷ spaces_or_none ∷ finish ∷ []))
    ∷ [])

-- `/\blimit\s+(?:\d+|:\w+|\?)\s*(?:offset\s+\d+\s*)?;?\s*$/iu`
abbrev pub stray_limit : Regex
stray_limit = in_order (
    boundary true
    ∷ word true (codes "limit")
    ∷ spaces
    ∷ any_of digits (then_ (unit_is b':') (one_or_more (class true is_word)) ∷ unit_is b'?' ∷ [])
    ∷ spaces_or_none
    ∷ optional (in_order (word true (codes "offset") ∷ spaces ∷ digits ∷ spaces_or_none ∷ []))
    ∷ optional (unit_is b';')
    ∷ spaces_or_none
    ∷ finish
    ∷ [])

abbrev first_or_next : Regex
first_or_next = any_word false (codes "first") (codes "next" ∷ [])

abbrev row_or_rows : Regex
row_or_rows = then_ (word false (codes "row")) (optional (word false (codes "s")))

-- `ORACLE_FETCH_CLAUSE`
abbrev pub oracle_fetch_clause : Regex
oracle_fetch_clause = in_order (
    boundary false
    ∷ word false (codes "fetch")
    ∷ spaces
    ∷ first_or_next
    ∷ spaces
    ∷ optional (then_ (group 1 digits) spaces)
    ∷ optional (group 2 (then_ (word false (codes "percent")) spaces))
    ∷ row_or_rows
    ∷ spaces
    ∷ either (word false (codes "only"))
        (in_order (word false (codes "with") ∷ spaces ∷ word false (codes "ties") ∷ []))
    ∷ spaces_or_none
    ∷ finish
    ∷ [])

-- `ORACLE_OFFSET_BEFORE`
abbrev pub oracle_offset_before : Regex
oracle_offset_before = in_order (
    boundary false
    ∷ word false (codes "offset")
    ∷ spaces
    ∷ digits
    ∷ spaces
    ∷ row_or_rows
    ∷ finish
    ∷ [])

-- `/(FETCH\s+(?:FIRST|NEXT)\s+)(\d+)/i`
abbrev pub fetch_count : Regex
fetch_count =
    then_ (group 1 (in_order (word false (codes "fetch") ∷ spaces ∷ first_or_next ∷ spaces ∷ [])))
      (group 2 digits)

-- `/\blimit\s+(\d+)\s*(,\s*(\d+))?/gi`
abbrev pub limit_count : Regex
limit_count = in_order (
    boundary false
    ∷ word false (codes "limit")
    ∷ spaces
    ∷ group 1 digits
    ∷ spaces_or_none
    ∷ optional (group 2 (in_order (unit_is b',' ∷ spaces_or_none ∷ group 3 digits ∷ [])))
    ∷ [])

-- `/(\blimit\s+)all\b/i`, and the same at the start of the text
abbrev pub limit_all : Regex
limit_all = in_order (
    group 1 (in_order (boundary false ∷ word false (codes "limit") ∷ spaces ∷ []))
    ∷ word false (codes "all")
    ∷ boundary false
    ∷ [])

abbrev pub limit_all_at_start : Regex
limit_all_at_start = in_order (
    start
    ∷ group 1 (in_order (word false (codes "limit") ∷ spaces ∷ []))
    ∷ word false (codes "all")
    ∷ boundary false
    ∷ [])

-- `/^limit\b/iu`, `/^limit\s+all\b/iu` and `/^limit\s+(\d+)\s*(?:,\s*(\d+))?/iu`
abbrev pub starts_limit : Regex
starts_limit = in_order (start ∷ word true (codes "limit") ∷ boundary true ∷ [])

abbrev pub starts_limit_all : Regex
starts_limit_all =
    in_order
      (start ∷ word true (codes "limit") ∷ spaces ∷ word true (codes "all") ∷ boundary true ∷ [])

abbrev pub starts_limit_count : Regex
starts_limit_count = in_order (
    start
    ∷ word true (codes "limit")
    ∷ spaces
    ∷ group 1 digits
    ∷ spaces_or_none
    ∷ optional (in_order (unit_is b',' ∷ spaces_or_none ∷ group 2 digits ∷ []))
    ∷ [])

-- `SQLITE_MATCH_RE`
abbrev pub sqlite_match : Regex
sqlite_match = in_order (
    group 1 (unit is_space)
    ∷ word true (codes "match")
    ∷ group 2 (
        in_order (
          spaces
          ∷ unit_is b'\''
          ∷ many (either (unit (λ c. not (c == b'\''))) (then_ (unit_is b'\'') (unit_is b'\'')))
          ∷ unit_is b'\''
          ∷ []))
    ∷ [])

-- `FETCH_TAIL_RE` of packages/core/src/strip.ts:
-- `/\s+(?:offset\s+\d+\s+rows?\s*)?fetch\s+(?:first|next)\b[\s\S]*$/iu`
abbrev pub fetch_tail : Regex
fetch_tail = in_order (
    spaces
    ∷ optional (
        in_order (
          word true (codes "offset")
          ∷ spaces
          ∷ digits
          ∷ spaces
          ∷ word true (codes "row")
          ∷ optional (word true (codes "s"))
          ∷ spaces_or_none
          ∷ []))
    ∷ word true (codes "fetch")
    ∷ spaces
    ∷ any_word true (codes "first") (codes "next" ∷ [])
    ∷ boundary true
    ∷ many (unit (λ c. true))
    ∷ finish
    ∷ [])
