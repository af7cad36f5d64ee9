-- ===== src/Sql/Names.antt =====
-- packages/core/src/guard.ts: the names that the walk reads off a node of the syntax tree.
use ask_sql.Prelude.{
  ℕ, Bool, true, false, ◌&&◌, ◌||◌, Option, none, some, List, [], ◌∷◌, ◌++◌, Text, codes, ◌==◌,
  if◌then◌else◌, ◌<|>◌, has, is_letter, is_decimal, starts_with, includes, begins_with,
  lower_letter, to_lower_case, map,
}
use ask_sql.Json.{Num, Json, null, bool, num, str, arr, obj, Items, nil, cons, Fields, get}

-- `v?.[key]` where `v` is an object; no array has one of the properties that are read here.
abbrev pub prop : Text → Option Json → Option Json
prop key (some (obj fs)) = get key fs
prop key _ = none

-- `typeof v === 'string' ? v.toLowerCase() : null`
abbrev pub lower_text : Option Json → Option Text
lower_text (some (str s)) = some (to_lower_case s)
lower_text _ = none

unfoldable pub column_name_of : Fields → Option Text
column_name_of node =
    let col = get (codes "column") node in
    lower_text col
    <|> lower_text (prop (codes "value") (prop (codes "expr") col))
    <|> lower_text (prop (codes "value") col)

-- `/[/\\]/`
abbrev pub has_path_separator : Text → Bool
has_path_separator s = includes b'/' s || includes b'\\' s

abbrev pub is_scheme_unit : ℕ → Bool
is_scheme_unit c = is_letter c || is_decimal c || c == b'+' || c == b'.' || c == b'-'

unfoldable pub scheme_tail : Text → Bool
scheme_tail [] = false
scheme_tail (c ∷ s) = if is_scheme_unit c then scheme_tail s else starts_with (codes "://") (c ∷ s)

-- `/^[a-z][a-z0-9+.-]*:\/\//i`
abbrev pub has_scheme : Text → Bool
has_scheme [] = false
has_scheme (c ∷ s) = is_letter c && scheme_tail s

-- `/^[a-zA-Z]:[\\/]/`
abbrev pub has_drive : Text → Bool
has_drive (c ∷ d ∷ e ∷ s) = is_letter c && (d == b':' && (e == b'\\' || e == b'/'))
has_drive _ = false

abbrev pub data_extensions : List Text
data_extensions =
    codes "csv"
    ∷ codes "tsv"
    ∷ codes "txt"
    ∷ codes "parquet"
    ∷ codes "json"
    ∷ codes "ndjson"
    ∷ codes "jsonl"
    ∷ codes "xlsx"
    ∷ codes "xls"
    ∷ codes "arrow"
    ∷ codes "avro"
    ∷ codes "orc"
    ∷ codes "feather"
    ∷ codes "db"
    ∷ codes "duckdb"
    ∷ codes "sqlite"
    ∷ []

abbrev pub compressions : List Text
compressions =
    codes "gz"
    ∷ codes "gzip"
    ∷ codes "zst"
    ∷ codes "zstd"
    ∷ codes "bz2"
    ∷ codes "xz"
    ∷ codes "br"
    ∷ codes "lz4"
    ∷ codes "snappy"
    ∷ []

-- `(ext)(\.(comp))?$` behind a point: an extension, or one that a second point and a compression
-- follow. No extension holds a point, so the first one ends it.
unfoldable pub before_dot : Text → Text
before_dot [] = []
before_dot (c ∷ s) = if c == b'.' then [] else c ∷ before_dot s

unfoldable pub behind_dot : Text → Option Text
behind_dot [] = none
behind_dot (c ∷ s) = if c == b'.' then some s else behind_dot s

abbrev pub is_extension : Text → Bool
unfolding before_dot behind_dot
is_extension s =
    has data_extensions (before_dot s)
    && elim (behind_dot s) [ none ↦ true | some compression ↦ has compressions compression ]

unfoldable pub ends_in_extension : Text → Bool
unfolding before_dot behind_dot
ends_in_extension [] = false
ends_in_extension (c ∷ s) = (c == b'.' && is_extension s) || ends_in_extension s

unfoldable pub looks_like_file_or_url : Text → Bool
unfolding ends_in_extension
looks_like_file_or_url name =
    has_path_separator name
    || has_scheme name
    || begins_with b'~' name
    || has_drive name
    || ends_in_extension (map lower_letter name)

-- `String(v)`; what it writes for a number is an argument. An element of an array that is null is
-- written as nothing.
module _ (number_text : Num → Text) where
  unfoldable mutual
    pub string_of : Json → Text
    string_of null = codes "null"
    string_of (bool true) = codes "true"
    string_of (bool false) = codes "false"
    string_of (num n) = number_text n
    string_of (str s) = s
    string_of (obj fs) = codes "[object Object]"
    string_of (arr nil) = []
    string_of (arr (cons x xs)) = element_text x ++ rest_text xs

    pub element_text : Json → Text
    element_text null = []
    element_text (bool b) = if b then codes "true" else codes "false"
    element_text (num n) = number_text n
    element_text (str s) = s
    element_text (obj fs) = codes "[object Object]"
    element_text (arr nil) = []
    element_text (arr (cons x xs)) = element_text x ++ rest_text xs

    pub rest_text : Items → Text
    rest_text nil = []
    rest_text (cons x xs) = b',' ∷ element_text x ++ rest_text xs

  -- `String(v ?? '')`
  abbrev pub string_or_empty : Option Json → Text
  string_or_empty none = []
  string_or_empty (some null) = []
  string_or_empty (some v) = string_of v

  -- One segment of a function's name.
  abbrev pub segment : Json → Text
  segment (obj fs) = string_or_empty (get (codes "value") fs)
  segment (arr xs) = []
  segment v = string_of v

  abbrev pub segments : Items → List Text
  segments nil = []
  segments (cons x xs) = segment x ∷ segments xs

  -- `.filter(Boolean)`
  abbrev pub non_empty : List Text → List Text
  non_empty [] = []
  non_empty ([] ∷ ts) = non_empty ts
  non_empty ((c ∷ t) ∷ ts) = (c ∷ t) ∷ non_empty ts

  -- `.join('.')`
  abbrev pub join_dots : List Text → Text
  join_dots [] = []
  join_dots (t ∷ []) = t
  join_dots (t ∷ u ∷ ts) = t ++ b'.' ∷ join_dots (u ∷ ts)

  abbrev pub schema_name : Option Json → Text
  schema_name (some (obj fs)) = string_or_empty (get (codes "value") fs)
  schema_name _ = []

  -- The name that is written in parts, behind its schema; `none` where no part is left.
  abbrev pub qualified_name : Text → List Text → Option Text
  qualified_name schema [] = none
  qualified_name schema (t ∷ ts) = some (to_lower_case (join_dots (non_empty (schema ∷ t ∷ ts))))

  abbrev pub parts_name : Option Json → Option Json → Option Text
  parts_name (some (arr xs)) schema = qualified_name (schema_name schema) (non_empty (segments xs))
  parts_name _ schema = none

  abbrev pub name_in : Fields → Option Text
  name_in raw =
      parts_name (get (codes "name") raw) (get (codes "schema") raw)
      <|> lower_text (get (codes "value") raw)

  unfoldable pub function_name_of : Fields → Option Text
  function_name_of node = elim (get (codes "name") node) [
    | some (str s) ↦ some (to_lower_case s)
    | some (obj raw) ↦ name_in raw
    | _ ↦ none
  ]
