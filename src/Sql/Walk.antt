-- ===== src/Sql/Walk.antt =====
-- packages/core/src/guard.ts: `walk`, the search for a violation anywhere in the syntax tree. As in
-- the MongoDB guard, `room` is `maxDepth + 1 - depth`. A property that holds undefined is absent.
pub mod Node
pub mod Sound
pub mod Denied
use ask_sql.Prelude.{
  ℕ, zero, suc, Bool, true, false, ◌&&◌, ◌||◌, Option, none, some, List, [], ◌∷◌, Text, codes,
  text_eq, has, if◌then◌else◌, ◌<|>◌, starts_with, ends_with, includes, ◌==◌, to_lower_case,
}
use ask_sql.Json.{
  Num, Json, null, bool, num, str, arr, obj, Items, nil, cons, Fields, end, field, get,
}
use ask_sql.Engine.{EngineKind, oracle}
use ask_sql.Sql.Types.{write_types}
use ask_sql.Sql.Deny.Others.{oracle_sequence_pseudo_columns}
use ask_sql.Sql.Policy.{
  WalkContext, WalkRule, too_deep, select_into, file_relation, statement_not_allowed,
  sequence_pseudo_column, function_denied,
}
use ask_sql.Sql.Names.{prop, lower_text, column_name_of, looks_like_file_or_url, function_name_of}

-- `typeof node['type'] === 'string' ? node['type'].toLowerCase() : null`
abbrev pub type_of : Fields → Option Text
type_of node = lower_text (get (codes "type") node)

abbrev pub is_type : Text → Fields → Bool
is_type t node = elim (type_of node) [ none ↦ false | some u ↦ text_eq t u ]

-- `v !== null && v !== undefined`
abbrev pub is_present : Option Json → Bool
is_present none = false
is_present (some null) = false
is_present (some v) = true

abbrev pub writes_into : Fields → Bool
writes_into node =
    let into = get (codes "into") node in
    is_present (prop (codes "position") into) || is_present (prop (codes "expr") into)

-- The relation that the node names, where it is a text.
abbrev pub table_of : Fields → Option Text
table_of node = elim (get (codes "table") node) [ some (str s) ↦ some s | _ ↦ none ]

abbrev pub is_oracle : EngineKind → Bool
is_oracle oracle = true
is_oracle _ = false

abbrev pub is_call : Fields → Bool
is_call node =
    is_type (codes "function") node
    || is_type (codes "aggr_func") node
    || is_type (codes "method") node
    || is_type (codes "tablefunc") node

-- The segment behind the last point.
unfoldable pub last_segment : Text → Text
last_segment [] = []
last_segment (c ∷ s) = if includes b'.' s then last_segment s else if c == b'.' then s else c ∷ s

unfoldable pub any_prefix : List Text → Text → Bool
any_prefix [] s = false
any_prefix (t ∷ ts) s = starts_with t s || any_prefix ts s

unfoldable pub any_suffix : List Text → Text → Bool
any_suffix [] s = false
any_suffix (t ∷ ts) s = ends_with t s || any_suffix ts s

unfoldable pub is_denied : WalkContext → Text → Bool
is_denied ctx name =
    let last = last_segment name in
    has ctx.deny_set name
    || has ctx.deny_set last
    || any_suffix ctx.deny_suffixes last
    || any_prefix ctx.deny_prefixes name
    || any_prefix ctx.deny_prefixes last

-- The tests of `walk` on one node, each of which refuses or lets the node pass.
unfoldable pub type_violation : Fields → Option WalkRule
type_violation node = elim (type_of node) [
  | some t ↦ if has write_types t then some (statement_not_allowed t) else none
  | none ↦ none
]

unfoldable pub into_violation : Fields → Option WalkRule
into_violation node =
    if is_type (codes "select") node && writes_into node then some select_into else none

unfoldable pub file_violation : Fields → Option WalkRule
file_violation node = elim (table_of node) [
  | some s ↦ if looks_like_file_or_url s then some file_relation else none
  | none ↦ none
]

unfoldable pub sequence_violation : EngineKind → Fields → Option WalkRule
sequence_violation engine node =
    if is_type (codes "column_ref") node && is_oracle engine
    then elim (column_name_of node) [
      | some col ↦
          if is_present (get (codes "table") node) && has oracle_sequence_pseudo_columns col
          then some (sequence_pseudo_column col)
          else none
      | none ↦ none
    ]
    else none

module _ (number_text : Num → Text) where
  -- The name that is looked up: an empty one is none.
  abbrev pub called : Fields → Option Text
  called node = elim (function_name_of number_text node) [
    | some [] ↦ none
    | some (c ∷ s) ↦ some (c ∷ s)
    | none ↦ none
  ]

module _ (number_text : Num → Text) (ctx : WalkContext) where
  unfoldable pub call_violation : Fields → Option WalkRule
  call_violation node =
      if is_call node
      then elim (called number_text node) [
        | some name ↦
            if is_denied ctx name then some (function_denied (last_segment name)) else none
        | none ↦ none
      ]
      else none

  unfoldable pub node_violation : Fields → Option WalkRule
  unfolding call_violation
  node_violation node =
      type_violation node
      <|> into_violation node
      <|> file_violation node
      <|> sequence_violation ctx.engine node
      <|> call_violation node

  unfoldable mutual
    unfolding node_violation

    pub walk : ℕ → Json → Option WalkRule
    walk zero v = some too_deep
    walk (suc room) (arr xs) = walk_items room xs
    walk (suc room) (obj fs) = node_violation fs <|> walk_fields room fs
    walk (suc room) null = none
    walk (suc room) (bool b) = none
    walk (suc room) (num n) = none
    walk (suc room) (str s) = none

    pub walk_items : ℕ → Items → Option WalkRule
    walk_items room nil = none
    walk_items room (cons x xs) = walk room x <|> walk_items room xs

    pub walk_fields : ℕ → Fields → Option WalkRule
    walk_fields room end = none
    walk_fields room (field key v fs) = walk room v <|> walk_fields room fs
