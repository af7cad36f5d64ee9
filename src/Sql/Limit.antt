-- ===== src/Sql/Limit.antt =====
-- packages/core/src/guard.ts: the row limit, in the syntax tree and in the text. Offsets are counts
-- of code units, as in the code; `number_text` is what `String` writes for a number.
use ask_sql.Prelude.{
  ℕ, zero, suc, ◌+◌, ◌-◌, Bool, true, false, ◌&&◌, ◌||◌, Option, none, some, List, [], ◌∷◌, ◌++◌,
  Text, codes, length, take, drop, text_eq, ◌==◌, leb, ltb, if◌then◌else◌, is_space, starts_with,
  to_lower_case,
}
use ask_sql.Json.{
  Num, whole, Json, bool, num, str, arr, obj, Items, nil, cons, Fields, end, field, get, exceeds,
}
use ask_sql.Engine.{EngineKind}
use ask_sql.Strip.Scan.{mask_comments_and_strings}
use ask_sql.Mongo.Integers.{value}
use ask_sql.Regex.{Regex, exec, exec_from, test}
use ask_sql.Regex.Build.{captured_of}
use ask_sql.Sql.Clauses.{limit_count, starts_limit, starts_limit_all, starts_limit_count}
use ask_sql.Sql.Names.{prop, string_of}

pub data LimitStatus : Type 0 where
  unlimited within nonliteral high : LimitStatus
  unbounded : Option ℕ → LimitStatus

-- One match of a global search: where it begins, its text, and its groups.
pub record Hit : Type 0 where
  pub index : ℕ
  pub text : Text
  pub groups : List (ℕ × Text)

-- The last match of a global search. Each match must consume something, so one round for each code
-- unit is enough.
unfoldable pub last_hit : Regex → ℕ → ℕ → Option ℕ → Text → Option Hit → Option Hit
last_hit re zero offset before s last = last
last_hit re (suc fuel) offset before s last = elim (exec_from re before s) [
  | none ↦ last
  | some (skipped, q) ↦
      let at = offset + length skipped in
      let n = length s - length skipped - length q.rest in
      last_hit re fuel (at + n) q.before q.rest
        (some (record { index = at; text = take n (drop (length skipped) s); groups = q.groups }))
]

-- `s.lastIndexOf(t)`, where `t` occurs in `s`
unfoldable pub last_index_of : Text → Text → Option ℕ
last_index_of t [] = if starts_with t [] then some 0 else none
last_index_of t (c ∷ s) = elim (last_index_of t s) [
  | some i ↦ some (suc i)
  | none ↦ if starts_with t (c ∷ s) then some 0 else none
]

-- `last[3] ?? last[1]!`
abbrev pub count_text : Hit → Text
count_text hit = elim (captured_of 3 hit.groups) [
  | some t ↦ t
  | none ↦ elim (captured_of 1 hit.groups) [ some t ↦ t | none ↦ [] ]
]

abbrev pub or_zero : Option ℕ → ℕ
or_zero none = 0
or_zero (some n) = n

abbrev pub count_start : Hit → ℕ
count_start hit = hit.index + or_zero (last_index_of (count_text hit) hit.text)

-- The rest of `lowerLimitInText` once the last match is known.
unfoldable pub splice : (Num → Text) → Text → ℕ → Text → ℕ → Option Text
splice number_text sql max_rows count at =
    if leb (value count) max_rows
    then none
    else if text_eq (take (length count) (drop at sql)) count
    then some (take at sql ++ number_text (whole max_rows) ++ drop (at + length count) sql)
    else none

unfoldable pub lower_limit_in_text : (Num → Text) → Text → ℕ → EngineKind → Option Text
lower_limit_in_text number_text sql max_rows engine =
    let masked = mask_comments_and_strings sql (some engine) in
    elim (last_hit limit_count (length masked) 0 none masked none) [
      | none ↦ none
      | some hit ↦ splice number_text sql max_rows (count_text hit) (count_start hit)
    ]

pub data StatementLimit : Type 0 where
  number : ℕ → StatementLimit
  all : ℕ → StatementLimit
  other : StatementLimit

-- `i === 0 || /[\s)]/u.test(masked[i - 1])`
abbrev pub may_stand : Option ℕ → Bool
may_stand none = true
may_stand (some c) = is_space c || c == b')'

-- The loop over the masked text: the depth is the parentheses opened less those closed.
unfoldable pub limit_at : ℕ → ℕ → Option ℕ → ℕ → Option ℕ → Text → Option ℕ
limit_at opened closed before i at [] = at
limit_at opened closed before i at (c ∷ s) =
    if c == b'(' then limit_at (suc opened) closed (some c) (suc i) at s else elim (c == b')') [
      | true ↦ limit_at opened (suc closed) (some c) (suc i) at s
      | false ↦
          limit_at opened closed (some c) (suc i)
            (if opened == closed
                && (c == b'l' || c == b'L')
                && test starts_limit (take 6 (c ∷ s))
                && may_stand before
              then some i
              else at)
            s
    ]

abbrev pub second_or_first : List (ℕ × Text) → ℕ
second_or_first groups = elim (captured_of 2 groups) [
  | some t ↦ value t
  | none ↦ elim (captured_of 1 groups) [ some t ↦ value t | none ↦ 0 ]
]

unfoldable pub statement_level_limit : Text → EngineKind → Option StatementLimit
statement_level_limit sql engine =
    let masked = mask_comments_and_strings sql (some engine) in
    elim (limit_at 0 0 none 0 none masked) [
      | none ↦ none
      | some at ↦
          if test starts_limit_all (drop at masked)
          then some (all at)
          else elim (exec starts_limit_count (drop at masked)) [
            | some (_, q) ↦ some (number (second_or_first q.groups))
            | none ↦ some other
          ]
    ]

-- The loop along `_next`: the fields of the last SELECT, and whether the loop moved. An array has
-- none of the properties that are read.
unfoldable pub last_select : Fields → Fields → Fields
last_select target end = target
last_select target (field key (obj gs) fs) =
    let here = last_select gs gs in
    let later = last_select target fs in if text_eq (codes "_next") key then here else later
last_select target (field key (arr xs) fs) =
    let later = last_select target fs in if text_eq (codes "_next") key then end else later
last_select target (field key v fs) =
    let later = last_select target fs in if text_eq (codes "_next") key then target else later

abbrev pub has_next : Fields → Bool
has_next ast = elim (get (codes "_next") ast) [
  | some (obj gs) ↦ true
  | some (arr xs) ↦ true
  | _ ↦ false
]

abbrev pub is_parenthesised : Fields → Bool
is_parenthesised target = elim (get (codes "parentheses_symbol") target) [
  | some (bool b) ↦ b
  | _ ↦ false
]

abbrev pub status_of : ℕ → Option StatementLimit → LimitStatus
status_of max_rows none = unlimited
status_of max_rows (some (all at)) = unbounded (some at)
status_of max_rows (some other) = nonliteral
status_of max_rows (some (number n)) = if ltb max_rows n then high else within

abbrev pub is_text : Text → Option Json → Bool
is_text t v = elim v [ some (str s) ↦ text_eq s t | _ ↦ false ]

abbrev pub is_single : Items → Bool
is_single (cons x nil) = true
is_single _ = false

abbrev pub is_pair : Items → Bool
is_pair (cons x (cons y nil)) = true
is_pair _ = false

abbrev pub item_at : ℕ → Items → Option Json
item_at i nil = none
item_at zero (cons x xs) = some x
item_at (suc i) (cons x xs) = item_at i xs

-- `value[1]` in `LIMIT offset, count`, and else `value[0]`
abbrev pub count_node : Option Json → Items → Option Json
count_node separator values =
    item_at (if is_text (codes ",") separator && is_pair values then 1 else 0) values

abbrev pub number_of : Option Json → Option Num
number_of (some (num n)) = some n
number_of _ = none

module _ (number_text : Num → Text) where
  -- `String(v).toLowerCase() === 'all'`
  abbrev pub is_all : Option Json → Bool
  is_all none = false
  is_all (some v) = text_eq (to_lower_case (string_of number_text v)) (codes "all")

  unfoldable pub count_status : ℕ → Option Json → LimitStatus
  count_status max_rows node =
      if is_text (codes "origin") (prop (codes "type") node) && is_all (prop (codes "value") node)
      then unbounded none
      else elim (number_of (prop (codes "value") node)) [
        | some n ↦
            if is_text (codes "number") (prop (codes "type") node)
            then (if exceeds n max_rows then high else within)
            else nonliteral
        | none ↦ nonliteral
      ]

  unfoldable pub tree_status : ℕ → Option Json → LimitStatus
  tree_status max_rows existing = elim (prop (codes "value") existing) [
    | some (arr (cons x xs)) ↦
        let separator = prop (codes "seperator") existing in
        if is_text (codes "offset") separator && is_single (cons x xs)
        then unlimited
        else count_status max_rows (count_node separator (cons x xs))
    | _ ↦ unlimited
  ]

  unfoldable pub inspect_limit : Fields → ℕ → Text → EngineKind → LimitStatus
  inspect_limit ast max_rows sql engine =
      let target = last_select ast ast in
      if has_next ast && is_parenthesised target
      then status_of max_rows (statement_level_limit sql engine)
      else tree_status max_rows (get (codes "limit") target)
