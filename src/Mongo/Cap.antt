-- ===== src/Mongo/Cap.antt =====
-- packages/core/src/mongo/guard.ts: `limitDecision` and `capPipeline`. The code edits the arrays in
-- place and reports two flags; here the capped pipeline is returned beside them.
pub mod Ends
pub mod Bounded
pub mod Idempotent
pub mod Run
use ask_sql.Prelude.{
  ℕ, Bool, true, false, ◌||◌, Option, none, some, Text, codes, text_eq, if◌then◌else◌,
}
use ask_sql.Json.{
  Num, whole, Json, null, bool, num, str, arr, obj, Items, nil, cons, Fields, end, field, get,
  exceeds,
}

pub data LimitDecision : Type 0 where
  no_limit high ok : LimitDecision

-- `pipeline[pipeline.length - 1]`
unfoldable pub last : Items → Option Json
last nil = none
last (cons x nil) = some x
last (cons x (cons y ys)) = last (cons y ys)

-- The `$limit` of a stage that has no other operator, where it is a number.
unfoldable pub limit_of : Json → Option Num
limit_of (obj (field k (num n) end)) = if text_eq (codes "$limit") k then some n else none
limit_of _ = none

unfoldable pub limit_decision : Items → ℕ → LimitDecision
limit_decision pipeline max_rows = elim (last pipeline) [
  | none ↦ no_limit
  | some stage ↦ elim (limit_of stage) [
    | none ↦ no_limit
    | some n ↦ if exceeds n max_rows then high else ok
  ]
]

pub record Flags : Type 0 where
  pub auto_limited : Bool
  pub lowered_limit : Bool

abbrev pub unflagged : Flags
unflagged = record { auto_limited = false; lowered_limit = false }

-- `autoLimited ||= r.autoLimited; loweredLimit ||= r.loweredLimit`
abbrev pub join : Flags → Flags → Flags
join f r = record {
  auto_limited = f.auto_limited || r.auto_limited;
  lowered_limit = f.lowered_limit || r.lowered_limit;
}

-- `{ $limit: maxRows }`
abbrev pub limit_stage : ℕ → Json
limit_stage max_rows = obj (field (codes "$limit") (num (whole max_rows)) end)

-- `pipeline.push(stage)`
unfoldable pub push : Items → Json → Items
push nil stage = cons stage nil
push (cons x xs) stage = cons x (push xs stage)

-- `pipeline[pipeline.length - 1] = stage`
unfoldable pub set_last : Items → Json → Items
set_last nil stage = nil
set_last (cons x nil) stage = cons stage nil
set_last (cons x (cons y ys)) stage = cons x (set_last (cons y ys) stage)

-- The end of `capPipeline`, after the loop over the stages has set the flags.
unfoldable pub close : ℕ → Items × Flags → Items × Flags
close max_rows (pipeline, flags) = elim (limit_decision pipeline max_rows) [
  | no_limit ↦ (
    push pipeline (limit_stage max_rows),
    record { auto_limited = true; lowered_limit = flags.lowered_limit },
  )
  | high ↦ (
    set_last pipeline (limit_stage max_rows),
    record { auto_limited = flags.auto_limited; lowered_limit = true },
  )
  | ok ↦ (pipeline, flags)
]

-- Each function of the block returns its part of the pipeline with the flags that it raised.
unfoldable mutual
  -- the loop over the stages
  pub cap_stages : ℕ → Items → Items × Flags
  cap_stages max_rows nil = (nil, unflagged)
  cap_stages max_rows (cons stage rest) =
      let (stage', f) = cap_stage max_rows stage in
      let (rest', g) = cap_stages max_rows rest in (cons stage' rest', join f g)

  -- `isDoc(stage) && isDoc(stage['$facet'])`
  pub cap_stage : ℕ → Json → Json × Flags
  cap_stage max_rows (obj fs) = let (fs', f) = cap_facet max_rows fs in (obj fs', f)
  cap_stage max_rows (arr xs) = (arr xs, unflagged)
  cap_stage max_rows null = (null, unflagged)
  cap_stage max_rows (bool b) = (bool b, unflagged)
  cap_stage max_rows (num n) = (num n, unflagged)
  cap_stage max_rows (str s) = (str s, unflagged)

  pub cap_facet : ℕ → Fields → Fields × Flags
  cap_facet max_rows end = (end, unflagged)
  cap_facet max_rows (field k v fs) =
      let (v', f) = cap_facet_value max_rows v in
      let (fs', g) = cap_facet max_rows fs in
      if text_eq (codes "$facet") k then (field k v' fs, f) else (field k v fs', g)

  pub cap_facet_value : ℕ → Json → Json × Flags
  cap_facet_value max_rows (obj fs) = let (fs', f) = cap_branches max_rows fs in (obj fs', f)
  cap_facet_value max_rows (arr xs) = (arr xs, unflagged)
  cap_facet_value max_rows null = (null, unflagged)
  cap_facet_value max_rows (bool b) = (bool b, unflagged)
  cap_facet_value max_rows (num n) = (num n, unflagged)
  cap_facet_value max_rows (str s) = (str s, unflagged)

  -- `for (const branch of Object.values(facet))`
  pub cap_branches : ℕ → Fields → Fields × Flags
  cap_branches max_rows end = (end, unflagged)
  cap_branches max_rows (field k v fs) =
      let (v', f) = cap_branch max_rows v in
      let (fs', g) = cap_branches max_rows fs in (field k v' fs', join f g)

  -- the recursive call, on a branch that is an array
  pub cap_branch : ℕ → Json → Json × Flags
  cap_branch max_rows (arr xs) =
      let (xs', f) = close max_rows (cap_stages max_rows xs) in (arr xs', f)
  cap_branch max_rows (obj fs) = (obj fs, unflagged)
  cap_branch max_rows null = (null, unflagged)
  cap_branch max_rows (bool b) = (bool b, unflagged)
  cap_branch max_rows (num n) = (num n, unflagged)
  cap_branch max_rows (str s) = (str s, unflagged)

unfoldable pub cap_pipeline : ℕ → Items → Items × Flags
cap_pipeline max_rows pipeline = close max_rows (cap_stages max_rows pipeline)
