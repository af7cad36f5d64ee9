-- ===== src/Sql/Rewrite.antt =====
-- packages/core/src/guard.ts: the rewritings of the text, for Oracle's FETCH clause, LIMIT ALL and
-- SQLite's MATCH.
pub mod Tail
use ask_sql.Prelude.{
  ℕ, zero, suc, ◌+◌, ◌-◌, Bool, true, Option, none, some, List, [], ◌∷◌, ◌++◌, Text, codes, length,
  take, drop, ltb, if◌then◌else◌, is_space, skip_space, starts_with, to_lower_case,
}
use ask_sql.Strip.Scan.{mask_comments_and_strings}
use ask_sql.Mongo.Integers.{value}
use ask_sql.Regex.{Regex, exec, exec_from, is_nil}
use ask_sql.Regex.Build.{captured_of}
use ask_sql.Sql.Clauses.{fetch_tail, oracle_fetch_clause, oracle_offset_before, sqlite_match}

-- The text without its trailing whitespace, and `trim`.
unfoldable pub trim_end : Text → Text
trim_end [] = []
trim_end (c ∷ s) =
    let rest = trim_end s in if is_nil rest then (if is_space c then [] else c ∷ []) else c ∷ rest

abbrev pub trim : Text → Text
trim s = trim_end (skip_space s)

abbrev pub or_nothing : Option Text → Text
or_nothing none = []
or_nothing (some t) = t

-- The text before the tail stands for its index.
pub record OracleFetchTail : Type 0 where
  pub text : Text
  pub head : Text
  pub count : Option ℕ

abbrev pub percent_or_count : List (ℕ × Text) → Option ℕ
percent_or_count groups = elim (captured_of 1 groups) [
  | some t ↦ elim (captured_of 2 groups) [ none ↦ some (value t) | some p ↦ none ]
  | none ↦ none
]

-- Where the tail starts: an OFFSET clause behind whitespace joins it.
unfoldable pub before_offset : Text → Text
before_offset head = elim (exec oracle_offset_before head) [
  | none ↦ head
  | some (skipped, q) ↦
      if ltb (length (trim_end skipped)) (length skipped) then trim_end skipped else head
]

unfoldable pub oracle_fetch_tail : Text → Option OracleFetchTail
oracle_fetch_tail inner = elim (exec oracle_fetch_clause inner) [
  | none ↦ none
  | some (skipped, q) ↦
      if ltb (length (trim_end skipped)) (length skipped)
      then some (record {
        text = drop (length (before_offset (trim_end skipped))) inner;
        head = before_offset (trim_end skipped);
        count = percent_or_count q.groups;
      })
      else none
]

-- `s.replace(re, …)` with one match, which is replaced by its first group and the new text
unfoldable pub replace_behind : Regex → Text → Text → Text
replace_behind re new s = elim (exec re s) [
  | none ↦ s
  | some (skipped, q) ↦ skipped ++ or_nothing (captured_of 1 q.groups) ++ new ++ q.rest
]

-- `s.toLowerCase().includes(t)`
unfoldable pub contains : Text → Text → Bool
contains t [] = starts_with t []
contains t (c ∷ s) = if starts_with t (c ∷ s) then true else contains t s

-- What replaces one match, which is given by its text, its groups and its part of the mask.
abbrev pub match_as_comparison : Text → List (ℕ × Text) → Text → Text
match_as_comparison text groups masked =
    if contains (codes "match") (to_lower_case masked)
    then or_nothing (captured_of 1 groups) ++ codes "=    " ++ or_nothing (captured_of 2 groups)
    else text

-- The global replacement; the mask is read along with the text.
unfoldable pub rewrite_from : ℕ → Option ℕ → Text → Text → Text
rewrite_from zero before s masked = s
rewrite_from (suc fuel) before s masked = elim (exec_from sqlite_match before s) [
  | none ↦ s
  | some (skipped, q) ↦
      let at = length skipped in
      let n = length s - at - length q.rest in
      skipped
      ++ match_as_comparison (take n (drop at s)) q.groups (take n (drop at masked))
      ++ rewrite_from fuel q.before q.rest (drop (at + n) masked)
]

-- `rewriteSqliteMatch(sql).rewritten`
unfoldable pub rewrite_sqlite_match : Text → Text
rewrite_sqlite_match sql = rewrite_from (length sql) none sql (mask_comments_and_strings sql none)

-- `withoutFetchTail` of packages/core/src/strip.ts
unfoldable pub without_fetch_tail : Text → Text
without_fetch_tail sql = elim (exec fetch_tail sql) [
  | none ↦ sql
  | some (skipped, q) ↦ skipped ++ q.rest
]
