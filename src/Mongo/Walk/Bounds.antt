-- ===== src/Mongo/Walk/Bounds.antt =====
-- Array accumulators: in a pipeline that passed, a stage before each of them bounds the documents.
use ask_sql.Prelude.{
  ℕ, zero, suc, Bool, true, false, not, ◌&&◌, Option, none, some, Text, codes, text_eq, text_eq_iff,
  has, Member, Member→has, List, Bool-cases, ◌≡◌, refl, ◌⊎◌, inl, inr, arith, sym,
}
use ask_sql.Json.{
  Json, arr, obj, num, Num, Items, cons, Fields, end, field, get, Has, first, later, In, head, tail,
}
use ask_sql.Mongo.Policy.{MongoGuardPolicy}
use ask_sql.Mongo.Scan.Sound.{Occurs, here, in_item, in_field}
use ask_sql.Mongo.Stages.{
  array_accumulators, has_array_accumulator, some_array_accumulator, field_array_accumulator,
  bounds_row_count, is_some_num,
}
use ask_sql.Mongo.Walk.{WalkResult, walk_stages, walk_pipeline}
use ask_sql.Mongo.Walk.Sound.{
  stage_parts_shape, SubOf, walk_stages_inv, stage_violation_inv, walk_stages-Stood, Stood-SubOf,
}

-- `q` is the pipeline, or a pipeline nested in it at any depth.
pub data PipelineWithin (q : Items) : Items → Type 0 where
  itself : PipelineWithin q q
  nested :
      {p r : Items} {name : Text} {spec : Json}
      → In (obj (field name spec end)) p
      → SubOf name r spec
      → PipelineWithin q r
      → PipelineWithin q p

-- `x` stands before an occurrence of `y`.
pub data Before (x y : Json) : Items → Type 0 where
  found : {xs : Items} → In y xs → Before x y (cons x xs)
  further : {z : Json} {xs : Items} → Before x y xs → Before x y (cons z xs)

-- A stage that bounds the number of documents: a numeric `$limit`, or a `$sample` of a numeric size.
pub data BoundsRows (name : Text) : Json → Type 0 where
  limit : {n : Num} → name ≡ codes "$limit" → BoundsRows name (num n)
  sample :
      {fs : Fields} {n : Num}
      → name ≡ codes "$sample"
      → get (codes "size") fs ≡ some (num n)
      → BoundsRows name (obj fs)

-- The specification accumulates an array: `$push` or `$addToSet` is a key in it, at some depth.
pub data Accumulates (spec : Json) : Type 0 where
  accumulates :
      {k : Text} {v : Json} → Member k array_accumulators → Occurs k v spec → Accumulates spec

is_some_num-some : (o : Option Json) → is_some_num o ≡ true → (n : Num) × (o ≡ some (num n))
is_some_num-some (some (num n)) h = (n, refl)
is_some_num-some (some (arr xs)) h = cc
is_some_num-some _ h = cc

bounds_row_count-num :
    (name : Text) (n : Num) → bounds_row_count name (num n) ≡ true → BoundsRows name (num n)
unfolding bounds_row_count
bounds_row_count-num name n h = elim (Bool-cases (text_eq (codes "$limit") name)) [
  | inl e ↦ limit (sym ((text_eq_iff _ _).0 e))
  | inr e ↦ absurd (ground arith)
]

bounds_row_count-obj :
    (name : Text) (fs : Fields) → bounds_row_count name (obj fs) ≡ true → BoundsRows name (obj fs)
unfolding bounds_row_count
bounds_row_count-obj name fs h =
    let size = is_some_num-some (get (codes "size") fs) (ground arith) in
    sample (sym ((text_eq_iff _ _).0 (ground arith))) size.1

bounds_row_count-BoundsRows :
    (name : Text) (spec : Json) → bounds_row_count name spec ≡ true → BoundsRows name spec
bounds_row_count-BoundsRows name (num n) h = bounds_row_count-num name n h
bounds_row_count-BoundsRows name (obj fs) h = bounds_row_count-obj name fs h
bounds_row_count-BoundsRows name _ h = absurd (unfold bounds_row_count in ground arith)

some_array_accumulator-In :
    {x : Json} {xs : Items}
    → In x xs
    → has_array_accumulator x ≡ true
    → some_array_accumulator xs ≡ true
unfolding has_array_accumulator
some_array_accumulator-In head h = ground arith
some_array_accumulator-In (tail i) h = ground (arith, some_array_accumulator-In i h)

field_array_accumulator-Has :
    {k : Text} {v : Json} {fs : Fields}
    → Has k v fs
    → (has array_accumulators k ≡ true) ⊎ (has_array_accumulator v ≡ true)
    → field_array_accumulator fs ≡ true
unfolding has_array_accumulator
field_array_accumulator-Has first h = ground arith
field_array_accumulator-Has (later m) h = ground (arith, field_array_accumulator-Has m h)

has_array_accumulator-Occurs :
    {k : Text} {v j : Json}
    → Member k array_accumulators
    → Occurs k v j
    → has_array_accumulator j ≡ true
unfolding has_array_accumulator
has_array_accumulator-Occurs m (here h) = field_array_accumulator-Has h (inl (Member→has m))
has_array_accumulator-Occurs m (in_item i o) =
    some_array_accumulator-In i (has_array_accumulator-Occurs m o)
has_array_accumulator-Occurs m (in_field h o) =
    field_array_accumulator-Has h (inr (has_array_accumulator-Occurs m o))

module _ (policy : MongoGuardPolicy) (room : ℕ) (walk : Items → List Text → WalkResult) where
  -- The loop meets an accumulating `$group` only once a stage has bounded the documents.
  walk_stages-Before :
      {spec : Json} {p : Items} (bounded : Bool) (out : List Text)
      → In (obj (field (codes "$group") spec end)) p
      → has_array_accumulator spec ≡ true
      → (walk_stages policy room walk p bounded out).violation ≡ none
      → (bounded ≡ true)
        ⊎ ((name : Text) × (earlier : Json) × Before
              (obj (field name earlier end))
              (obj (field (codes "$group") spec end))
              p
            × BoundsRows name earlier)
  walk_stages-Before {spec} bounded out (head {xs}) a h =
      let s =
        walk_stages_inv policy room walk (obj (field (codes "$group") spec end)) xs bounded out h in
      let same : (s.name ≡ codes "$group") × (s.spec ≡ spec) = ground (arith, s.parts) in
      inl (
        group_bounded s.name s.spec same.0 (rw (same.1) a)
          (stage_violation_inv policy room bounded s.name s.spec s.fine).2)
    where
      group_bounded :
          (name : Text) (x : Json)
          → name ≡ codes "$group"
          → has_array_accumulator x ≡ true
          → (text_eq (codes "$group") name && not bounded && has_array_accumulator x) ≡ false
          → bounded ≡ true
      group_bounded name x e a t =
          let g : text_eq (codes "$group") name ≡ true = (text_eq_iff _ _).1 (sym e) in ground arith
  walk_stages-Before {spec} bounded out (tail {y} {xs} i) a h =
      let s = walk_stages_inv policy room walk y xs bounded out h in
      elim (walk_stages-Before _ _ i a (rw (s.goes_on) at h)) [
        | inl e ↦ elim (Bool-cases bounded) [
          | inl b ↦ inl b
          | inr b ↦ inr (
            s.name,
            s.spec,
            rw (← stage_parts_shape y s.parts) (found i),
            bounds_row_count-BoundsRows s.name s.spec (ground (arith, e)),
          )
        ]
        | inr (name, earlier, before, bounds) ↦ inr (name, earlier, further before, bounds)
      ]

walk_pipeline-PipelineWithin :
    (policy : MongoGuardPolicy) {q : Items} (room : ℕ) {p : Items} (out : List Text)
    → PipelineWithin q p
    → (walk_pipeline policy room p out).violation ≡ none
    → (room' : ℕ) × (out' : List Text) × ((walk_pipeline policy room' q out').violation ≡ none)
unfolding walk_pipeline
walk_pipeline-PipelineWithin policy room out itself h = (room, out, h)
walk_pipeline-PipelineWithin policy zero out (nested i sub w) h = cc
walk_pipeline-PipelineWithin policy (suc room) out (nested i sub w) h =
    let s = walk_stages-Stood policy room (walk_pipeline policy room) false out i h in
    let (out', passed) = Stood-SubOf policy room (walk_pipeline policy room) s sub in
    walk_pipeline-PipelineWithin policy room out' w passed

first_pipeline :
    (policy : MongoGuardPolicy) (room : ℕ) {spec : Json} {p : Items} (out : List Text)
    → In (obj (field (codes "$group") spec end)) p
    → has_array_accumulator spec ≡ true
    → (walk_pipeline policy room p out).violation ≡ none
    → (name : Text) × (earlier : Json) × Before
        (obj (field name earlier end))
        (obj (field (codes "$group") spec end))
        p
      × BoundsRows name earlier
unfolding walk_pipeline
first_pipeline policy zero out i a h = cc
first_pipeline policy (suc room) out i a h =
    elim (walk_stages-Before policy room (walk_pipeline policy room) false out i a h) [
      | inl e ↦ cc
      | inr before ↦ before
    ]

-- If the walk finds no violation, then in the pipeline, and in every pipeline nested in it at any
-- depth, a `$group` with `$push` or `$addToSet` anywhere in its specification stands behind a
-- numeric `$limit` or a `$sample` of numeric size in the same pipeline.
pub walk_pipeline-accumulators_bounded :
    (policy : MongoGuardPolicy) (room : ℕ) {spec : Json} {q p : Items} (out : List Text)
    → (walk_pipeline policy room p out).violation ≡ none
    → PipelineWithin q p
    → In (obj (field (codes "$group") spec end)) q
    → Accumulates spec
    → (name : Text) × (earlier : Json) × Before
        (obj (field name earlier end))
        (obj (field (codes "$group") spec end))
        q
      × BoundsRows name earlier
walk_pipeline-accumulators_bounded policy room out h w i (accumulates m o) =
    let (room', out', passed) = walk_pipeline-PipelineWithin policy room out w h in
    first_pipeline policy room' out' i (has_array_accumulator-Occurs m o) passed
