-- ===== src/Mongo/Tests.antt =====
-- Runs of the MongoDB guard, and its theorems at concrete pipelines.
use ask_sql.Prelude.{
  ℕ, suc, ◌≤◌, ◌/◌, ◌*◌, true, false, Option, none, some, List, [], ◌∷◌, Text, codes, text_eq, has,
  All, length, take, length-take, if◌then◌else◌, ◌≡◌, refl, ◌↔◌, arith, at_head,
}
use ask_sql.Json.{
  Num, infinite, nan, whole, ratio, Json, null, num, str, arr, obj, Items, nil, cons, Fields, end,
  field, get, exceeds, first, later, head, tail,
}
use ask_sql.RowCap.{max_row_cap}
use ask_sql.Mongo.Policy.{MongoGuardPolicy, default_mongo_guard_policy}
use ask_sql.Mongo.Pattern.{check_pattern, nested_quantifier, Repeats, nested_quantifier_iff}
use ask_sql.Mongo.Scan.{scan_value, scan_field, regex_pattern_of, inspect_regex}
use ask_sql.Json.Depth.{depth}
use ask_sql.Mongo.Scan.Sound.{Occurs, here, IsHarmless, scan_value_iff}
use ask_sql.Mongo.Stages.{
  has_array_accumulator, bounds_row_count, add, collect_refs, sub_pipelines, array_values,
}
use ask_sql.Mongo.Walk.{walk_pipeline, walk_stages, walk_subs, stage_violation}
use ask_sql.Mongo.Walk.Sound.{Within, IsReadOnly, walk_pipeline-IsReadOnly}
use ask_sql.Mongo.Walk.Bounds.{
  itself, Before, BoundsRows, accumulates, walk_pipeline-accumulators_bounded,
}
use ask_sql.Mongo.Cap.{
  unflagged, cap_pipeline, cap_stages, close, limit_decision, limit_of, last, push, set_last,
}
use ask_sql.Mongo.Cap.Ends.{EndsCapped}
use ask_sql.Mongo.Cap.Bounded.{FacetWithin, cap_pipeline-bounded}
use ask_sql.Mongo.Cap.Bounded
use ask_sql.Mongo.Cap.Idempotent.{cap_pipeline_idem}
use ask_sql.Mongo.Cap.Run.{Server, run, length-run-cap_pipeline}
use ask_sql.Mongo.Integers.{is_digit, digits_of, value_from, has_unsafe_integer_literal}
use ask_sql.Mongo.Integers.Fraction.{has_unsafe_integer_literal-fraction}
use ask_sql.Mongo.Integers.Sound.{Literal, Safe, has_unsafe_integer_literal_iff}
use ask_sql.Mongo.Shell.{relax_shell_json, JsonText, to_strict_pipeline_json}
use ask_sql.Mongo.Guard.{cap_of, verdict_of, guard_pipeline}
use ask_sql.Mongo.Guard.Sound.{
  Refuses, Writes, guard_pipeline-IsReadOnly, guard_pipeline-bounded, guard_pipeline-fail_closed,
}

abbrev doc : Text → Json → Json
doc k v = obj (field k v end)

abbrev regex_stage : Json
regex_stage = doc (codes "$match") (doc (codes "a") (doc (codes "$regex") (str (codes "^P"))))

abbrev group_spec : Json
group_spec =
    obj (field (codes "_id") null (field (codes "x") (doc (codes "$push") (str (codes "$a"))) end))

abbrev group_stage : Json
group_stage = doc (codes "$group") group_spec

abbrev limit_5 : Json
limit_5 = doc (codes "$limit") (num (whole 5))

abbrev lookup_spec : Fields
lookup_spec =
    field (codes "from") (str (codes "orders"))
      (field (codes "pipeline") (arr (cons limit_5 nil)) end)

abbrev lookup_stage : Json
lookup_stage = doc (codes "$lookup") (obj lookup_spec)

abbrev facet_stage : Json
facet_stage =
    doc (codes "$facet")
      (doc (codes "all") (arr (cons (doc (codes "$limit") (num (whole 5000))) nil)))

-- A regular expression, a bounded accumulator, a join and a facet.
abbrev sample : Items
sample =
    cons regex_stage (cons limit_5 (cons group_stage (cons lookup_stage (cons facet_stage nil))))

abbrev policy : MongoGuardPolicy
policy = default_mongo_guard_policy

sample_passes : (walk_pipeline policy 401 sample []).violation ≡ none
unfolding walk_pipeline walk_stages walk_subs stage_violation scan_value scan_field inspect_regex
    regex_pattern_of check_pattern nested_quantifier has_array_accumulator bounds_row_count add
    collect_refs sub_pipelines array_values text_eq has get
sample_passes = refl

nested_quantifier_iff_example :
    (nested_quantifier (codes "^(a+)+$") ≡ true) ↔ Repeats (codes "^(a+)+$")
nested_quantifier_iff_example = nested_quantifier_iff (codes "^(a+)+$")

scan_value_iff_example : (scan_value policy 400 regex_stage ≡ none) ↔ (
    (depth regex_stage ≤ 400)
    × ((k : Text) (v : Json) → Occurs k v regex_stage → IsHarmless policy k v))
scan_value_iff_example = scan_value_iff policy 400 regex_stage

walk_pipeline-IsReadOnly_example : IsReadOnly policy regex_stage
walk_pipeline-IsReadOnly_example =
    walk_pipeline-IsReadOnly policy 401 [] (Within.own {p = sample} head) sample_passes

walk_pipeline-accumulators_bounded_example :
    (name : Text) × (earlier : Json) × Before (obj (field name earlier end)) group_stage sample
    × BoundsRows name earlier
walk_pipeline-accumulators_bounded_example =
    walk_pipeline-accumulators_bounded policy 401 [] sample_passes itself (tail (tail head))
      (accumulates (at_head refl) (Occurs.in_field (later first) (here first)))

lookup_from : get (codes "from") lookup_spec ≡ some (str (codes "orders"))
unfolding get text_eq
lookup_from = refl

capped_facet : cap_pipeline 1000 (cons facet_stage nil) ≡ (
  cons
      (doc
        (codes "$facet")
        (doc (codes "all") (arr (cons (doc (codes "$limit") (num (whole 1000))) nil))))
      (cons (doc (codes "$limit") (num (whole 1000))) nil),
  record { auto_limited = true; lowered_limit = true },
)
unfolding cap_pipeline cap_stages close limit_decision limit_of last push set_last exceeds text_eq
capped_facet = refl

cap_pipeline-bounded_example : EndsCapped 1000 (cap_pipeline 1000 sample).0
cap_pipeline-bounded_example = cap_pipeline-bounded 1000 sample Bounded.itself

rounded : has_unsafe_integer_literal (codes "[{\"$limit\": 9007199254740993}]") ≡ true
unfolding has_unsafe_integer_literal
rounded = refl

in_string :
    has_unsafe_integer_literal (codes "[{\"a\": \"9007199254740993\", \"b\": -12.5}]") ≡ false
unfolding has_unsafe_integer_literal
in_string = refl

has_unsafe_integer_literal_iff_example :
    (has_unsafe_integer_literal (codes "[{\"a\": -12}]") ≡ false)
    ↔ ((digits next : Text) → Literal digits next false (codes "[{\"a\": -12}]") → Safe digits next)
has_unsafe_integer_literal_iff_example = has_unsafe_integer_literal_iff (codes "[{\"a\": -12}]")

digits_04 : All (λ c. is_digit c ≡ true) (codes "30000000000000004")
digits_04 = ground arith

-- 0.30000000000000004
has_unsafe_integer_literal-fraction_example :
    has_unsafe_integer_literal (codes "0.30000000000000004}") ≡ true
has_unsafe_integer_literal-fraction_example =
    has_unsafe_integer_literal-fraction b'0' [] b'3' (codes "0000000000000004") (codes "}")
      (refl, tt) digits_04 (unfold digits_of in refl) refl (unfold value_from in omega arith)

relaxed :
    relax_shell_json (codes "[{$match: {a: 'it\\'s \"x\"', b: true,},},]")
    ≡ codes "[{\"$match\": {\"a\": \"it's \\\"x\\\"\", \"b\": true}}]"
unfolding relax_shell_json
relaxed = refl

-- A reader that knows two texts.
abbrev table : JsonText
table = record {
  parse = λ t.
      if text_eq t (codes "[sample]")
      then some (arr sample)
      else if text_eq t (codes "[write]")
      then some (arr (cons (doc (codes "$out") (str (codes "t"))) nil))
      else none;
  stringify = λ j. codes "[capped]";
}

-- A server on which `$limit` works and every other stage returns what it is given.
floor : Num → ℕ
floor (ratio false m d) = m / suc d
floor _ = 0

abbrev limit_only : Option Num → List ℕ → List ℕ
limit_only none documents = documents
limit_only (some n) documents = take (floor n) documents

floor-le : (n : Num) (k : ℕ) → exceeds n k ≡ false → floor n ≤ k
unfolding exceeds floor
floor-le (ratio false m d) k h = let e : m ≤ k * suc d = ground arith in grind arith
floor-le (ratio true m d) k h = omega arith
floor-le nan k h = omega arith
floor-le (infinite b) k h = omega arith

limit_only_law :
    (stage : Json) (n : Num) (k : ℕ) (documents : List ℕ)
    → limit_of stage ≡ some n
    → exceeds n k ≡ false
    → length (limit_only (limit_of stage) documents) ≤ k
limit_only_law stage n k documents e h =
    rw e (omega (arith, length-take (floor n) documents, floor-le n k h))

abbrev server : Server ℕ
server = record {
  run_stage = λ stage documents. limit_only (limit_of stage) documents;
  limit_law = limit_only_law;
}

length-run-cap_pipeline_example :
    length (run server (cap_pipeline 2 (cons regex_stage nil)).0 (1 ∷ 2 ∷ 3 ∷ [])) ≤ 2
length-run-cap_pipeline_example =
    length-run-cap_pipeline server 2 (cons regex_stage nil) (1 ∷ 2 ∷ 3 ∷ [])

sample_strict : to_strict_pipeline_json table (codes "[sample]") ≡ some (codes "[sample]", sample)
unfolding to_strict_pipeline_json text_eq
sample_strict = refl

sample_allowed : (guard_pipeline table (codes "[sample]") policy).allowed ≡ true
unfolding guard_pipeline has_unsafe_integer_literal
sample_allowed = rw (sample_strict, sample_passes, guard_pipeline, verdict_of)

guard_pipeline-IsReadOnly_example :
    (json : Text) × (pipeline : Items) × (to_strict_pipeline_json table (codes "[sample]")
      ≡ some (json, pipeline))
    × ((stage : Json)
        → Within stage pipeline
        → (read : IsReadOnly policy stage) × (¬ Writes read.name))
guard_pipeline-IsReadOnly_example =
    guard_pipeline-IsReadOnly table (codes "[sample]") policy sample_allowed

guard_pipeline-bounded_example :
    (output : Items) × ((guard_pipeline table (codes "[sample]") policy).pipeline_json
      ≡ table.stringify (arr output))
    × (1 ≤ cap_of policy)
    × (cap_of policy ≤ max_row_cap)
    × ((q : Items) → FacetWithin q output → EndsCapped (cap_of policy) q)
    × ((documents : List ℕ) → length (run server output documents) ≤ cap_of policy)
guard_pipeline-bounded_example =
    guard_pipeline-bounded table (codes "[sample]") policy server sample_allowed

guard_pipeline-fail_closed_example :
    ((guard_pipeline table (codes "[write]") policy).allowed ≡ false
      → Refuses (guard_pipeline table (codes "[write]") policy))
    × ((guard_pipeline table (codes "[write]") policy).allowed ≡ true
        → (guard_pipeline table (codes "[write]") policy).rule_id ≡ none)
guard_pipeline-fail_closed_example = guard_pipeline-fail_closed table (codes "[write]") policy

cap_pipeline_idem_example :
    cap_pipeline 1000 (cap_pipeline 1000 sample).0 ≡ ((cap_pipeline 1000 sample).0, unflagged)
cap_pipeline_idem_example = cap_pipeline_idem 1000 sample
