-- ===== src/Mongo/Walk.antt =====
-- packages/core/src/mongo/guard.ts: `walkPipeline`. As in the scan, `room` is `maxDepth + 1 - depth`,
-- so the recursion into sub-pipelines ends by the code's own test of the depth.
pub mod Sound
pub mod Bounds
pub mod Refs
use ask_sql.Prelude.{
  ℕ, zero, suc, Bool, false, not, ◌&&◌, ◌||◌, Option, none, some, List, [], ◌∷◌, Text, codes,
  text_eq, has, if◌then◌else◌, ◌<|>◌,
}
use ask_sql.Json.{Json, obj, Items, nil, cons, end, field}
use ask_sql.Mongo.Policy.{
  MongoGuardPolicy, Rule, too_deep, invalid_stage, stage_denied, unbounded_accumulator,
}
use ask_sql.Mongo.Scan.{scan_value}
use ask_sql.Mongo.Stages.{
  allowed_stages, has_array_accumulator, bounds_row_count, collect_refs, sub_pipelines,
}

-- `WalkResult`; the set of collections is the one that the caller handed in, as the walk left it.
pub record WalkResult : Type 0 where
  pub violation : Option Rule
  pub collections : List Text

-- The single operator of a stage, and its specification; `none` for anything else.
abbrev pub stage_parts : Json → Option (Text × Json)
stage_parts (obj (field name spec end)) = some (name, spec)
stage_parts _ = none

-- The tests on one stage up to the accumulator, in their order.
unfoldable pub stage_violation : MongoGuardPolicy → ℕ → Bool → Text → Json → Option Rule
stage_violation policy room bounded name spec =
    if not (has allowed_stages name)
    then some (stage_denied name)
    else scan_value policy room spec
      <|> (if text_eq (codes "$group") name && not bounded && has_array_accumulator spec
          then some unbounded_accumulator
          else none)

-- `for (const sub of subPipelines(name, spec))`, with the walk of one sub-pipeline as an argument
unfoldable pub walk_subs : (Items → List Text → WalkResult) → List Items → List Text → WalkResult
walk_subs walk [] out = record { violation = none; collections = out }
walk_subs walk (sub ∷ subs) out =
    let r = walk sub out in
    elim r.violation [
      | some rule ↦ record { violation = some rule; collections = r.collections }
      | none ↦ walk_subs walk subs r.collections
    ]

-- The loop over the stages of one pipeline; `room` is that of the values inside a stage.
unfoldable pub walk_stages :
    MongoGuardPolicy → ℕ → (Items → List Text → WalkResult) → Items → Bool → List Text → WalkResult
walk_stages policy room walk nil bounded out = record { violation = none; collections = out }
walk_stages policy room walk (cons stage rest) bounded out = elim (stage_parts stage) [
  | none ↦ record { violation = some invalid_stage; collections = out }
  | some (name, spec) ↦ elim (stage_violation policy room bounded name spec) [
    | some rule ↦ record { violation = some rule; collections = out }
    | none ↦
        let r = walk_subs walk (sub_pipelines name spec) (collect_refs name spec out) in
        elim r.violation [
          | some rule ↦ r
          | none ↦
              walk_stages policy room walk rest (bounds_row_count name spec || bounded)
                r.collections
        ]
  ]
]

unfoldable pub walk_pipeline : MongoGuardPolicy → ℕ → Items → List Text → WalkResult
walk_pipeline policy zero pipeline out = record { violation = some too_deep; collections = out }
walk_pipeline policy (suc room) pipeline out =
    walk_stages policy room (walk_pipeline policy room) pipeline false out
