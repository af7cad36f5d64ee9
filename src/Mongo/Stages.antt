-- ===== src/Mongo/Stages.antt =====
-- packages/core/src/mongo/guard.ts: the allowlist of stages and what the walk reads of one stage.
use ask_sql.Prelude.{
  Bool, false, ◌||◌, Option, none, some, List, [], ◌∷◌, ◌++◌, Text, codes, text_eq, has,
  if◌then◌else◌,
}
use ask_sql.Json.{
  Json, null, bool, num, str, arr, obj, Items, nil, cons, Fields, end, field, get, is_num,
}

abbrev pub allowed_stages : List Text
allowed_stages =
    codes "$match"
    ∷ codes "$project"
    ∷ codes "$group"
    ∷ codes "$sort"
    ∷ codes "$limit"
    ∷ codes "$skip"
    ∷ codes "$unwind"
    ∷ codes "$lookup"
    ∷ codes "$facet"
    ∷ codes "$count"
    ∷ codes "$sample"
    ∷ codes "$addFields"
    ∷ codes "$set"
    ∷ codes "$replaceRoot"
    ∷ codes "$replaceWith"
    ∷ codes "$bucket"
    ∷ codes "$bucketAuto"
    ∷ codes "$sortByCount"
    ∷ codes "$graphLookup"
    ∷ codes "$unionWith"
    ∷ codes "$geoNear"
    ∷ codes "$redact"
    ∷ codes "$unset"
    ∷ codes "$setWindowFields"
    ∷ codes "$densify"
    ∷ codes "$fill"
    ∷ codes "$documents"
    ∷ codes "$search"
    ∷ codes "$searchMeta"
    ∷ []

abbrev pub array_accumulators : List Text
array_accumulators = codes "$push" ∷ codes "$addToSet" ∷ []

unfoldable mutual
  pub has_array_accumulator : Json → Bool
  has_array_accumulator (arr xs) = some_array_accumulator xs
  has_array_accumulator (obj fs) = field_array_accumulator fs
  has_array_accumulator null = false
  has_array_accumulator (bool b) = false
  has_array_accumulator (num n) = false
  has_array_accumulator (str s) = false

  pub some_array_accumulator : Items → Bool
  some_array_accumulator nil = false
  some_array_accumulator (cons x xs) = has_array_accumulator x || some_array_accumulator xs

  pub field_array_accumulator : Fields → Bool
  field_array_accumulator end = false
  field_array_accumulator (field k v fs) =
      has array_accumulators k || (has_array_accumulator v || field_array_accumulator fs)

abbrev pub is_some_num : Option Json → Bool
is_some_num none = false
is_some_num (some v) = is_num v

abbrev sized : Json → Bool
sized (obj fs) = is_some_num (get (codes "size") fs)
sized _ = false

unfoldable pub bounds_row_count : Text → Json → Bool
bounds_row_count name spec =
    if text_eq (codes "$limit") name
    then is_num spec
    else if text_eq (codes "$sample") name
    then sized spec
    else false

-- `Set.prototype.add`: a set lists its members in the order of insertion.
unfoldable pub add : Text → List Text → List Text
add k out = if has out k then out else out ++ k ∷ []

abbrev pub add_text : Option Json → List Text → List Text
add_text (some (str s)) out = add s out
add_text _ out = out

-- `isDoc(spec)`, and `spec[key]`
abbrev pub doc_field : Text → Json → Option Json
doc_field key (obj fs) = get key fs
doc_field key _ = none

abbrev pub is_join : Text → Bool
is_join name = text_eq (codes "$lookup") name || text_eq (codes "$graphLookup") name

-- The collection name that a stage refers to, where it has one that is text.
abbrev pub union_target : Json → Option Json
union_target (str s) = some (str s)
union_target spec = doc_field (codes "coll") spec

unfoldable pub collect_refs : Text → Json → List Text → List Text
collect_refs name spec out =
    if is_join name
    then add_text (doc_field (codes "from") spec) out
    else if text_eq (codes "$unionWith") name
    then add_text (union_target spec) out
    else out

abbrev array_of : Option Json → List Items
array_of (some (arr xs)) = xs ∷ []
array_of _ = []

-- `Object.values(spec)`, those that are arrays
unfoldable pub array_values : Fields → List Items
array_values end = []
array_values (field k v fs) = array_of (some v) ++ array_values fs

abbrev pub carries_pipeline : Text → Bool
carries_pipeline name = text_eq (codes "$lookup") name || text_eq (codes "$unionWith") name

abbrev pub branches : Json → List Items
branches (obj fs) = array_values fs
branches _ = []

unfoldable pub sub_pipelines : Text → Json → List Items
sub_pipelines name spec =
    (if carries_pipeline name then array_of (doc_field (codes "pipeline") spec) else [])
    ++ (if text_eq (codes "$facet") name then branches spec else [])
