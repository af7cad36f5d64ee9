-- ===== src/Mongo/Walk/Refs.antt =====
-- The collections that the walk gathers, for the check against the database's real collections.
use ask_sql.Prelude.{
  ℕ, zero, suc, Bool, false, Option, none, some, List, [], ◌∷◌, Text, codes, text_eq, has,
  has→Member, Member, at_head, further, Member-append_left, Member-append_right, Bool-cases,
  Option-cases, ◌≡◌, refl, ◌⊎◌, inl, inr, arith,
}
use ask_sql.Json.{
  Json, arr, obj, null, bool, str, num, Items, nil, cons, Fields, end, field, get, In, head, tail,
}
use ask_sql.Mongo.Policy.{MongoGuardPolicy}
use ask_sql.Mongo.Stages.{
  add, add_text, collect_refs, sub_pipelines, doc_field, union_target, is_join,
}
use ask_sql.Mongo.Walk.{
  WalkResult, stage_parts, stage_violation, walk_subs, walk_stages, walk_pipeline,
}
use ask_sql.Mongo.Walk.Sound.{SubOf, sub_pipelines-SubOf, walk_subs_inv, walk_stages_inv}

-- A stage called `name` with this specification refers to the collection `c`.
pub data RefersTo (c name : Text) : Json → Type 0 where
  joins :
      {fs : Fields}
      → (name ≡ codes "$lookup") ⊎ (name ≡ codes "$graphLookup")
      → get (codes "from") fs ≡ some (str c)
      → RefersTo c name (obj fs)
  unites : name ≡ codes "$unionWith" → RefersTo c name (str c)
  unites_spec :
      {fs : Fields}
      → name ≡ codes "$unionWith"
      → get (codes "coll") fs ≡ some (str c)
      → RefersTo c name (obj fs)

-- A stage of the pipeline, or of a pipeline nested in it at any depth, refers to `c`.
pub data Mentions (c : Text) : Items → Type 0 where
  own :
      {p : Items} {name : Text} {spec : Json}
      → In (obj (field name spec end)) p
      → RefersTo c name spec
      → Mentions c p
  nested :
      {p q : Items} {name : Text} {spec : Json}
      → In (obj (field name spec end)) p
      → SubOf name q spec
      → Mentions c q
      → Mentions c p

Member-add_self : (c : Text) (out : List Text) → Member c (add c out)
unfolding add
Member-add_self c out = elim (Bool-cases (has out c)) [
  | inl e ↦ rw e (has→Member out c e)
  | inr e ↦ rw e (Member-append_right out (at_head refl))
]

Member-add : (c k : Text) (out : List Text) → Member c out → Member c (add k out)
unfolding add
Member-add c k out m = elim (Bool-cases (has out k)) [
  | inl e ↦ rw e m
  | inr e ↦ rw e (Member-append_left (k ∷ []) m)
]

Member-add_text :
    (c : Text) (o : Option Json) (out : List Text) → Member c out → Member c (add_text o out)
Member-add_text c (some (str k)) out m = Member-add c k out m
Member-add_text c none out m = m
Member-add_text c (some null) out m = m
Member-add_text c (some (bool b)) out m = m
Member-add_text c (some (num n)) out m = m
Member-add_text c (some (arr xs)) out m = m
Member-add_text c (some (obj fs)) out m = m

Member-collect_refs :
    (c name : Text) (spec : Json) (out : List Text)
    → Member c out
    → Member c (collect_refs name spec out)
unfolding collect_refs
Member-collect_refs c name spec out m = elim (Bool-cases (is_join name)) [
  | inl e ↦ rw e (Member-add_text c (doc_field (codes "from") spec) out m)
  | inr e ↦ rw e (elim (Bool-cases (text_eq (codes "$unionWith") name)) [
    | inl u ↦ rw u (Member-add_text c (union_target spec) out m)
    | inr u ↦ rw u m
  ])
]

collect_refs-RefersTo :
    {c name : Text} {spec : Json} (out : List Text)
    → RefersTo c name spec
    → Member c (collect_refs name spec out)
unfolding collect_refs text_eq
collect_refs-RefersTo out (joins (inl e) g) = rw (e, g) (Member-add_self _ out)
collect_refs-RefersTo out (joins (inr e) g) = rw (e, g) (Member-add_self _ out)
collect_refs-RefersTo out (unites e) = rw e (Member-add_self _ out)
collect_refs-RefersTo out (unites_spec e g) = rw (e, g) (Member-add_self _ out)

-- A walk loses no collection that it was handed.
abbrev Keeps : (Items → List Text → WalkResult) → Type 0
Keeps walk =
    (q : Items) (c : Text) (out : List Text) → Member c out → Member c (walk q out).collections

module _ (walk : Items → List Text → WalkResult) (keeps : Keeps walk) where
  walk_subs-keeps :
      (c : Text) (subs : List Items) (out : List Text)
      → Member c out
      → Member c (walk_subs walk subs out).collections
  unfolding walk_subs
  walk_subs-keeps c [] out m = m
  walk_subs-keeps c (q ∷ qs) out m = elim (Option-cases (walk q out).violation) [
    | inl e ↦ rw (e, walk_subs) (walk_subs-keeps c qs (walk q out).collections (keeps q c out m))
    | inr (rule, e) ↦ rw (e, walk_subs) (keeps q c out m)
  ]

  module _ (policy : MongoGuardPolicy) (room : ℕ) where
    walk_stages-keeps :
        (c : Text) (p : Items) (bounded : Bool) (out : List Text)
        → Member c out
        → Member c (walk_stages policy room walk p bounded out).collections
    unfolding walk_stages
    walk_stages-keeps c nil bounded out m = m
    walk_stages-keeps c (cons stage rest) bounded out m = elim (Option-cases (stage_parts stage)) [
      | inl e ↦ rw (e, walk_stages) m
      | inr ((name, spec), e) ↦
          elim (Option-cases (stage_violation policy room bounded name spec)) [
            | inr (rule, f) ↦ rw (e, f, walk_stages) m
            | inl f ↦
                let r = walk_subs walk (sub_pipelines name spec) (collect_refs name spec out) in
                let m' =
                  walk_subs-keeps c (sub_pipelines name spec) (collect_refs name spec out)
                    (Member-collect_refs c name spec out m) in
                elim (Option-cases (r.violation)) [
                  | inr (rule, g) ↦ rw (e, f, g, walk_stages) m'
                  | inl g ↦ rw (e, f, g, walk_stages) (walk_stages-keeps c rest _ r.collections m')
                ]
          ]
    ]

    walk_subs-gathers :
        (c : Text) {q : Items} {subs : List Items} (out : List Text)
        → Member q subs
        → ((out' : List Text) → (walk q out').violation ≡ none → Member c (walk q out').collections)
        → (walk_subs walk subs out).violation ≡ none
        → Member c (walk_subs walk subs out).collections
    walk_subs-gathers c out (at_head {w} {ws} e) g h =
        let (first, rest) = walk_subs_inv walk w ws out h in
        let m : Member c (walk w out).collections = rw e (g out (rw e at first)) in
        rw rest (walk_subs-keeps c ws (walk w out).collections m)
    walk_subs-gathers c out (further {w} {ws} m) g h =
        let (first, rest) = walk_subs_inv walk w ws out h in
        rw rest (walk_subs-gathers c (walk w out).collections m g (rw rest at h))

    walk_stages-gathers :
        (c : Text) {name : Text} {spec : Json} {p : Items} (bounded : Bool) (out : List Text)
        → In (obj (field name spec end)) p
        → ((out' : List Text)
            → (walk_subs walk (sub_pipelines name spec) (collect_refs name spec out')).violation
              ≡ none
            → Member c
                (walk_subs walk
                  (sub_pipelines name spec)
                  (collect_refs name spec out')).collections)
        → (walk_stages policy room walk p bounded out).violation ≡ none
        → Member c (walk_stages policy room walk p bounded out).collections
    walk_stages-gathers c {name} {spec} bounded out (head {xs}) g h =
        let s = walk_stages_inv policy room walk (obj (field name spec end)) xs bounded out h in
        let same : (s.name ≡ name) × (s.spec ≡ spec) = ground (arith, s.parts) in
        rw (s.goes_on) (
          walk_stages-keeps c xs _ _
            (rw (same.0, same.1) (g out (rw (same.0, same.1) at s.subs_fine))))
    walk_stages-gathers c bounded out (tail {y} {xs} i) g h =
        let s = walk_stages_inv policy room walk y xs bounded out h in
        rw (s.goes_on) (walk_stages-gathers c _ _ i g (rw (s.goes_on) at h))

walk_pipeline-Keeps : (policy : MongoGuardPolicy) (room : ℕ) → Keeps (walk_pipeline policy room)
unfolding walk_pipeline
walk_pipeline-Keeps policy zero q c out m = m
walk_pipeline-Keeps policy (suc room) q c out m =
    walk_stages-keeps (walk_pipeline policy room) (walk_pipeline-Keeps policy room) policy room c q
      false out m

-- If the walk finds no violation, then its set holds every collection that a `$lookup`,
-- `$graphLookup` or `$unionWith` refers to by name, in the pipeline or in one nested in it at any
-- depth.
pub walk_pipeline-Mentions :
    (policy : MongoGuardPolicy) (c : Text) (room : ℕ) {p : Items} (out : List Text)
    → Mentions c p
    → (walk_pipeline policy room p out).violation ≡ none
    → Member c (walk_pipeline policy room p out).collections
unfolding walk_pipeline
walk_pipeline-Mentions policy c zero out m h = cc
walk_pipeline-Mentions policy c (suc room) out (own {name} {spec} i r) h =
    let keeps = walk_pipeline-Keeps policy room in
    walk_stages-gathers (walk_pipeline policy room) keeps policy room c false out i
      (λ out' _.
        walk_subs-keeps (walk_pipeline policy room) keeps c (sub_pipelines name spec) _
          (collect_refs-RefersTo out' r))
      h
walk_pipeline-Mentions policy c (suc room) out (nested {name} {spec} i sub m) h =
    let keeps = walk_pipeline-Keeps policy room in
    walk_stages-gathers (walk_pipeline policy room) keeps policy room c false out i
      (λ out' passed.
        walk_subs-gathers (walk_pipeline policy room) keeps policy room c _
          (sub_pipelines-SubOf sub)
          (λ out'' fine. walk_pipeline-Mentions policy c room out'' m fine) passed)
      h
