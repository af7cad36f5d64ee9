-- ===== src/Mongo/Guard/Sound.antt =====
-- What an allowed verdict of `guardPipeline` promises.
use ask_sql.Prelude.{
  suc, ◌≤◌, true, false, none, some, List, [], Text, ◌≡◌, refl, Bool-cases, Option-cases, inl, inr,
  arith, length, ◌⊎◌, codes, text_eq, has, Member, Member→has,
}
use ask_sql.Json.{Json, arr, Items}
use ask_sql.RowCap.{clamp_max_rows_bounds, max_row_cap}
use ask_sql.Mongo.Policy.{MongoGuardPolicy, default_max_rows, Rule, parse_failed, integer_unsafe}
use ask_sql.Mongo.Walk.Sound.{Within, IsReadOnly, walk_pipeline-IsReadOnly}
use ask_sql.Mongo.Cap.{cap_pipeline}
use ask_sql.Mongo.Cap.Ends.{EndsCapped}
use ask_sql.Mongo.Cap.Bounded.{FacetWithin, cap_pipeline-bounded}
use ask_sql.Mongo.Cap.Run.{Server, run, length-run-cap_pipeline}
use ask_sql.Mongo.Integers.{has_unsafe_integer_literal}
use ask_sql.Mongo.Shell.{JsonText, to_strict_pipeline_json}
use ask_sql.Mongo.Stages.{allowed_stages}
use ask_sql.Mongo.Guard.{MongoGuardVerdict, cap_of, walked, verdict_of, guard_pipeline}

module _ (json_text : JsonText) (text : Text) (policy : MongoGuardPolicy) where
  -- What the guard has found of the text that it allows.
  pub record Passed : Type 0 where
    pub json : Text
    pub pipeline : Items
    pub strict : to_strict_pipeline_json json_text text ≡ some (json, pipeline)
    pub integers : has_unsafe_integer_literal json ≡ false
    pub walk_passes : (walked policy pipeline).violation ≡ none
    pub output :
        (guard_pipeline json_text text policy).pipeline_json
        ≡ json_text.stringify (arr (cap_pipeline (cap_of policy) pipeline).0)

  pub allowed-Passed : (guard_pipeline json_text text policy).allowed ≡ true → Passed
  unfolding guard_pipeline
  allowed-Passed h = elim (Option-cases (to_strict_pipeline_json json_text text)) [
    | inl e ↦ cc (rw (e, guard_pipeline) at h)
    | inr ((json, pipeline), e) ↦ elim (Bool-cases (has_unsafe_integer_literal json)) [
      | inl u ↦ cc (rw (e, u, guard_pipeline) at h)
      | inr u ↦ elim (Option-cases (walked policy pipeline).violation) [
        | inr (rule, w) ↦ cc (rw (e, u, w, guard_pipeline, verdict_of) at h)
        | inl w ↦ record {
          json = json;
          pipeline = pipeline;
          strict = e;
          integers = u;
          walk_passes = w;
          output = rw (e, u, w, guard_pipeline, verdict_of);
        }
      ]
    ]
  ]

-- A blocked verdict names its rule and carries no pipeline and no flag.
abbrev pub Refuses : MongoGuardVerdict → Type 0
Refuses v =
    (v.pipeline_json ≡ [])
    × (v.auto_limited ≡ false)
    × (v.lowered_limit ≡ false)
    × ((rule : Rule) × (v.rule_id ≡ some rule))

-- Fail closed: a verdict that is not allowed names a rule and carries no pipeline text and no flag,
-- and one that is allowed names no rule.
pub guard_pipeline-fail_closed :
    (json_text : JsonText) (text : Text) (policy : MongoGuardPolicy)
    → ((guard_pipeline json_text text policy).allowed ≡ false
        → Refuses (guard_pipeline json_text text policy))
      × ((guard_pipeline json_text text policy).allowed ≡ true
          → (guard_pipeline json_text text policy).rule_id ≡ none)
unfolding guard_pipeline
guard_pipeline-fail_closed json_text text policy =
    elim (Option-cases (to_strict_pipeline_json json_text text)) [
      | inl e ↦ rw (e, guard_pipeline) (λ h. (refl, refl, refl, (parse_failed, refl)), λ h. cc)
      | inr ((json, pipeline), e) ↦ elim (Bool-cases (has_unsafe_integer_literal json)) [
        | inl u ↦
            rw (e, u, guard_pipeline) (λ h. (refl, refl, refl, (integer_unsafe, refl)), λ h. cc)
        | inr u ↦ elim (Option-cases (walked policy pipeline).violation) [
          | inr (rule, w) ↦
              rw (e, u, w, guard_pipeline, verdict_of)
                (λ h. (refl, refl, refl, (rule, refl)), λ h. cc)
          | inl w ↦ rw (e, u, w, guard_pipeline, verdict_of) (λ h. cc, λ h. refl)
        ]
      ]
    ]

-- The two stages that write.
abbrev pub Writes : Text → Type 0
Writes name = (name ≡ codes "$out") ⊎ (name ≡ codes "$merge")

allowed_stages-not_Writes : {name : Text} → Member name allowed_stages → ¬ Writes name
unfolding has text_eq
allowed_stages-not_Writes m (inl e) = cc (rw e at (Member→has m))
allowed_stages-not_Writes m (inr e) = cc (rw e at (Member→has m))

-- If the guard allows a text, then the text reads as a pipeline in which every stage, at any depth of
-- sub-pipelines, is one operator from the allowlist, is neither `$out` nor `$merge`, and has a
-- specification in which no property, at any depth, runs server-side code or carries an unreadable
-- or unsafe regular expression.
pub guard_pipeline-IsReadOnly :
    (json_text : JsonText) (text : Text) (policy : MongoGuardPolicy)
    → (guard_pipeline json_text text policy).allowed ≡ true
    → (json : Text) × (pipeline : Items) × (to_strict_pipeline_json json_text text
        ≡ some (json, pipeline))
      × ((stage : Json)
          → Within stage pipeline
          → (read : IsReadOnly policy stage) × (¬ Writes read.name))
guard_pipeline-IsReadOnly json_text text policy h =
    let p = allowed-Passed json_text text policy h in
    (
      p.json,
      p.pipeline,
      p.strict,
      λ stage w.
          let read = walk_pipeline-IsReadOnly policy (suc policy.max_depth) [] w p.walk_passes in
          (read, allowed_stages-not_Writes read.allowed),
    )

-- If the guard allows a text, then its output is the text of a pipeline that, with every branch of a
-- `$facet` in it at any depth, ends in a `$limit` of at most the cap; the cap is at least 1 and at
-- most 100000 whatever number the policy holds; and a server on which `$limit` works returns no
-- more documents than the cap for it.
pub guard_pipeline-bounded {ℓ} :
    (json_text : JsonText) (text : Text) (policy : MongoGuardPolicy) {D : Type ℓ}
    (server : Server D)
    → (guard_pipeline json_text text policy).allowed ≡ true
    → (output : Items) × ((guard_pipeline json_text text policy).pipeline_json
        ≡ json_text.stringify (arr output))
      × (1 ≤ cap_of policy)
      × (cap_of policy ≤ max_row_cap)
      × ((q : Items) → FacetWithin q output → EndsCapped (cap_of policy) q)
      × ((documents : List D) → length (run server output documents) ≤ cap_of policy)
guard_pipeline-bounded json_text text policy server h =
    let p = allowed-Passed json_text text policy h in
    let bounds =
      clamp_max_rows_bounds (some policy.max_rows) default_max_rows (omega arith) (omega arith) in
    (
      (cap_pipeline (cap_of policy) p.pipeline).0,
      p.output,
      bounds.0,
      bounds.1,
      λ q w. cap_pipeline-bounded (cap_of policy) p.pipeline w,
      λ documents. length-run-cap_pipeline server (cap_of policy) p.pipeline documents,
    )
