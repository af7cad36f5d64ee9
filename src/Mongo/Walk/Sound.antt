-- ===== src/Mongo/Walk/Sound.antt =====
-- What `walkPipeline` accepts, at every depth of nested sub-pipelines.
use ask_sql.Prelude.{
  ℕ, zero, suc, Bool, true, false, not, ◌&&◌, ◌||◌, none, some, List, ◌∷◌, Text, codes, text_eq,
  has, has→Member, Member, at_head, further, Member-append_right, <|>_none, Bool-cases,
  Option-cases, ◌≡◌, refl, ◌⊎◌, inl, inr, arith,
}
use ask_sql.Json.{
  Json, arr, obj, Items, cons, Fields, end, field, get, Has, first, later, In, head, tail,
}
use ask_sql.Mongo.Policy.{MongoGuardPolicy}
use ask_sql.Mongo.Scan.{scan_value}
use ask_sql.Mongo.Scan.Sound.{Occurs, IsHarmless, scan_value-IsHarmless}
use ask_sql.Mongo.Stages.{
  allowed_stages, has_array_accumulator, bounds_row_count, collect_refs, array_values,
  sub_pipelines,
}
use ask_sql.Mongo.Walk.{
  WalkResult, stage_parts, stage_violation, walk_subs, walk_stages, walk_pipeline,
}

-- `q` is a pipeline inside the specification of a stage called `name`.
pub data SubOf (name : Text) (q : Items) : Json → Type 0 where
  joined :
      {fs : Fields}
      → (name ≡ codes "$lookup") ⊎ (name ≡ codes "$unionWith")
      → get (codes "pipeline") fs ≡ some (arr q)
      → SubOf name q (obj fs)
  faceted :
      {k : Text} {fs : Fields} → name ≡ codes "$facet" → Has k (arr q) fs → SubOf name q (obj fs)

-- The stage stands in the pipeline, or in a pipeline nested in it at any depth.
pub data Within (stage : Json) : Items → Type 0 where
  own : {p : Items} → In stage p → Within stage p
  nested :
      {p q : Items} {name : Text} {spec : Json}
      → In (obj (field name spec end)) p
      → SubOf name q spec
      → Within stage q
      → Within stage p

-- One operator, on the allowlist, that runs no server-side code and no unsafe regular expression.
pub record IsReadOnly (policy : MongoGuardPolicy) (stage : Json) : Type 0 where
  pub name : Text
  pub spec : Json
  pub shape : stage ≡ obj (field name spec end)
  pub allowed : Member name allowed_stages
  pub harmless : (k : Text) (v : Json) → Occurs k v spec → IsHarmless policy k v

array_values-Has :
    {k : Text} {q : Items} {fs : Fields} → Has k (arr q) fs → Member q (array_values fs)
unfolding array_values
array_values-Has first = at_head refl
array_values-Has (later m) = Member-append_right _ (array_values-Has m)

pub sub_pipelines-SubOf :
    {name : Text} {q : Items} {spec : Json} → SubOf name q spec → Member q (sub_pipelines name spec)
unfolding sub_pipelines text_eq
sub_pipelines-SubOf (joined (inl e) g) = rw (e, g) (at_head refl)
sub_pipelines-SubOf (joined (inr e) g) = rw (e, g) (at_head refl)
sub_pipelines-SubOf (faceted e m) = rw e (array_values-Has m)

pub stage_parts_shape :
    (stage : Json) {name : Text} {spec : Json}
    → stage_parts stage ≡ some (name, spec)
    → stage ≡ obj (field name spec end)
stage_parts_shape (obj (field k v end)) h = ground arith
stage_parts_shape (obj (field k v (field j w fs))) h = ground arith
stage_parts_shape (obj end) h = ground arith
stage_parts_shape _ h = ground arith

-- The first of several sub-pipelines passed, and so did the others.
pub walk_subs_inv :
    (walk : Items → List Text → WalkResult) (sub : Items) (subs : List Items) (out : List Text)
    → (walk_subs walk (sub ∷ subs) out).violation ≡ none
    → ((walk sub out).violation ≡ none)
      × (walk_subs walk (sub ∷ subs) out ≡ walk_subs walk subs (walk sub out).collections)
unfolding walk_subs
walk_subs_inv walk sub subs out h = elim (Option-cases (walk sub out).violation) [
  | inl e ↦ (e, rw (e, walk_subs))
  | inr (rule, e) ↦ cc (rw (e, walk_subs) at h)
]

walk_subs-Member :
    (walk : Items → List Text → WalkResult) {q : Items} {subs : List Items} (out : List Text)
    → Member q subs
    → (walk_subs walk subs out).violation ≡ none
    → (out' : List Text) × ((walk q out').violation ≡ none)
walk_subs-Member walk out (at_head {w} {ws} e) h = (out, rw e at (walk_subs_inv walk w ws out h).0)
walk_subs-Member walk out (further {w} {ws} m) h =
    walk_subs-Member walk (walk w out).collections m (rw ((walk_subs_inv walk w ws out h).1) at h)

module _ (policy : MongoGuardPolicy) (room : ℕ) (walk : Items → List Text → WalkResult) where
  -- A stage that passed, and the walk of the stages behind it.
  pub record Passed (stage : Json) (rest : Items) (bounded : Bool) (out : List Text) : Type 0 where
    pub name : Text
    pub spec : Json
    pub parts : stage_parts stage ≡ some (name, spec)
    pub fine : stage_violation policy room bounded name spec ≡ none
    pub subs_fine :
        (walk_subs walk (sub_pipelines name spec) (collect_refs name spec out)).violation ≡ none
    pub goes_on :
        walk_stages policy room walk (cons stage rest) bounded out
        ≡ walk_stages policy room walk rest
            (bounds_row_count name spec || bounded)
            (walk_subs walk (sub_pipelines name spec) (collect_refs name spec out)).collections

  pub walk_stages_inv :
      (stage : Json) (rest : Items) (bounded : Bool) (out : List Text)
      → (walk_stages policy room walk (cons stage rest) bounded out).violation ≡ none
      → Passed stage rest bounded out
  unfolding walk_stages
  walk_stages_inv stage rest bounded out h = elim (Option-cases (stage_parts stage)) [
    | inl e ↦ cc (rw (e, walk_stages) at h)
    | inr ((name, spec), e) ↦ elim (Option-cases (stage_violation policy room bounded name spec)) [
      | inr (rule, f) ↦ cc (rw (e, f, walk_stages) at h)
      | inl f ↦
          let r = walk_subs walk (sub_pipelines name spec) (collect_refs name spec out) in
          elim (Option-cases (r.violation)) [
            | inr (rule, g) ↦ cc (rw (g) at (rw (e, f, g, walk_stages) at h))
            | inl g ↦ record {
              name = name;
              spec = spec;
              parts = e;
              fine = f;
              subs_fine = g;
              goes_on = rw (e, f, g, walk_stages);
            }
          ]
    ]
  ]

pub stage_violation_inv :
    (policy : MongoGuardPolicy) (room : ℕ) (bounded : Bool) (name : Text) (spec : Json)
    → stage_violation policy room bounded name spec ≡ none
    → (has allowed_stages name ≡ true)
      × (scan_value policy room spec ≡ none)
      × ((text_eq (codes "$group") name && not bounded && has_array_accumulator spec) ≡ false)
unfolding stage_violation
stage_violation_inv policy room bounded name spec h = elim (Bool-cases (has allowed_stages name)) [
  | inr e ↦ cc (rw e at h)
  | inl e ↦
      let (scan, last) = <|>_none (scan_value policy room spec) _ (rw e at h) in
      (e, scan, ground (arith, last))
]

module _ (policy : MongoGuardPolicy) (room : ℕ) (walk : Items → List Text → WalkResult) where
  -- What the walk has tested of one stage of a pipeline that passed.
  pub record Stood (stage : Json) : Type 0 where
    pub name : Text
    pub spec : Json
    pub out : List Text
    pub bounded : Bool
    pub parts : stage_parts stage ≡ some (name, spec)
    pub fine : stage_violation policy room bounded name spec ≡ none
    pub subs_fine : (walk_subs walk (sub_pipelines name spec) out).violation ≡ none

  pub walk_stages-Stood :
      {stage : Json} {p : Items} (bounded : Bool) (out : List Text)
      → In stage p
      → (walk_stages policy room walk p bounded out).violation ≡ none
      → Stood stage
  walk_stages-Stood {stage} bounded out (head {xs}) h =
      let passed = walk_stages_inv policy room walk stage xs bounded out h in
      record {
        name = passed.name;
        spec = passed.spec;
        out = collect_refs passed.name passed.spec out;
        bounded = bounded;
        parts = passed.parts;
        fine = passed.fine;
        subs_fine = passed.subs_fine;
      }
  walk_stages-Stood bounded out (tail {y} {xs} i) h =
      let passed = walk_stages_inv policy room walk y xs bounded out h in
      walk_stages-Stood _ _ i (rw (passed.goes_on) at h)

  Stood-IsReadOnly : {stage : Json} → Stood stage → IsReadOnly policy stage
  Stood-IsReadOnly {stage} s =
      let (known, scan, _) = stage_violation_inv policy room s.bounded s.name s.spec s.fine in
      record {
        name = s.name;
        spec = s.spec;
        shape = stage_parts_shape stage s.parts;
        allowed = has→Member allowed_stages s.name known;
        harmless = λ k v o. scan_value-IsHarmless policy room o scan;
      }

  pub Stood-SubOf :
      {name : Text} {spec : Json} {q : Items}
      → Stood (obj (field name spec end))
      → SubOf name q spec
      → (out : List Text) × ((walk q out).violation ≡ none)
  Stood-SubOf {name} {spec} {q} s sub =
      let same : (s.name ≡ name) × (s.spec ≡ spec) = ground (arith, s.parts) in
      walk_subs-Member walk s.out (rw (same.0, same.1) (sub_pipelines-SubOf sub)) s.subs_fine

-- If the walk finds no violation, then every stage of the pipeline, and of the pipelines nested in
-- it at any depth, is a single operator from the allowlist in whose specification no property, at
-- any depth, runs server-side code or carries an unreadable or unsafe regular expression.
pub walk_pipeline-IsReadOnly :
    (policy : MongoGuardPolicy) (room : ℕ) {stage : Json} {p : Items} (out : List Text)
    → Within stage p
    → (walk_pipeline policy room p out).violation ≡ none
    → IsReadOnly policy stage
unfolding walk_pipeline
walk_pipeline-IsReadOnly policy zero out w h = cc
walk_pipeline-IsReadOnly policy (suc room) out (own i) h =
    Stood-IsReadOnly policy room (walk_pipeline policy room)
      (walk_stages-Stood policy room (walk_pipeline policy room) false out i h)
walk_pipeline-IsReadOnly policy (suc room) out (nested i sub w) h =
    let s = walk_stages-Stood policy room (walk_pipeline policy room) false out i h in
    let (out', passed) = Stood-SubOf policy room (walk_pipeline policy room) s sub in
    walk_pipeline-IsReadOnly policy room out' w passed
