-- ===== src/Mongo/Cap/Bounded.antt =====
-- What `capPipeline` leaves: the pipeline, and every branch of a `$facet` at any depth, ends capped.
use ask_sql.Prelude.{ℕ, some, Text, codes, text_eq, Bool-cases, ◌≡◌, refl, inl, inr, arith}
use ask_sql.Json.{
  whole, Json, arr, obj, null, bool, num, str, Items, nil, cons, Fields, end, field, get, Has,
  first, later, In, head, tail,
}
use ask_sql.Mongo.Cap.{
  limit_stage, cap_stages, cap_stage, cap_facet, cap_facet_value, cap_branches, cap_branch,
  cap_pipeline,
}
use ask_sql.Mongo.Cap.Ends.{EndsCapped, close-EndsCapped, In-close}

-- `q` is a branch of a `$facet` in the pipeline.
pub record BranchOf (q p : Items) : Type 0 where
  pub stage : Fields
  pub facet : Fields
  pub name : Text
  pub holds : In (obj stage) p
  pub is_facet : get (codes "$facet") stage ≡ some (obj facet)
  pub branch : Has name (arr q) facet

-- `q` is the pipeline, or a branch in it at any depth of nested facets.
pub data FacetWithin (q : Items) : Items → Type 0 where
  itself : FacetWithin q q
  nested : {p r : Items} → BranchOf r p → FacetWithin q r → FacetWithin q p

cap_stages-In :
    (m : ℕ) (p : Items) {x : Json} → In x (cap_stages m p).0 → (y : Json) × (x ≡ (cap_stage m y).0)
unfolding cap_stages
cap_stages-In m nil i = elim i [ ]
cap_stages-In m (cons y ys) head = (y, refl)
cap_stages-In m (cons y ys) (tail i) = cap_stages-In m ys i

cap_stage-obj :
    (m : ℕ) (x : Json) {fs : Fields}
    → obj fs ≡ (cap_stage m x).0
    → (gs : Fields) × (fs ≡ (cap_facet m gs).0)
unfolding cap_stages
cap_stage-obj m (obj gs) h = (gs, cc)
cap_stage-obj m (arr xs) h = cc
cap_stage-obj m null h = cc
cap_stage-obj m (bool b) h = cc
cap_stage-obj m (num n) h = cc
cap_stage-obj m (str s) h = cc

get-cap_facet :
    (m : ℕ) (fs : Fields) {w : Json}
    → get (codes "$facet") (cap_facet m fs).0 ≡ some w
    → (v : Json) × (w ≡ (cap_facet_value m v).0)
unfolding cap_stages get
get-cap_facet m end h = cc
get-cap_facet m (field k v fs) {w} h = elim (Bool-cases (text_eq (codes "$facet") k)) [
  | inl e ↦ (v, ground arith)
  | inr e ↦ get-cap_facet m fs (ground arith)
]

cap_facet_value-obj :
    (m : ℕ) (x : Json) {fs : Fields}
    → obj fs ≡ (cap_facet_value m x).0
    → (gs : Fields) × (fs ≡ (cap_branches m gs).0)
unfolding cap_stages
cap_facet_value-obj m (obj gs) h = (gs, cc)
cap_facet_value-obj m (arr xs) h = cc
cap_facet_value-obj m null h = cc
cap_facet_value-obj m (bool b) h = cc
cap_facet_value-obj m (num n) h = cc
cap_facet_value-obj m (str s) h = cc

cap_branches-Has :
    (m : ℕ) (fs : Fields) {k : Text} {w : Json}
    → Has k w (cap_branches m fs).0
    → (v : Json) × (w ≡ (cap_branch m v).0)
unfolding cap_stages
cap_branches-Has m end h = elim h [ ]
cap_branches-Has m (field k v fs) first = (v, refl)
cap_branches-Has m (field k v fs) (later h) = cap_branches-Has m fs h

cap_branch-arr :
    (m : ℕ) (x : Json) {q : Items}
    → arr q ≡ (cap_branch m x).0
    → (r : Items) × (q ≡ (cap_pipeline m r).0)
unfolding cap_stages cap_pipeline
cap_branch-arr m (arr xs) h = (xs, cc)
cap_branch-arr m (obj fs) h = cc
cap_branch-arr m null h = cc
cap_branch-arr m (bool b) h = cc
cap_branch-arr m (num n) h = cc
cap_branch-arr m (str s) h = cc

cap_stage-branch :
    (m : ℕ) (x : Json) {fs bs : Fields} {k : Text} {q : Items}
    → obj fs ≡ (cap_stage m x).0
    → get (codes "$facet") fs ≡ some (obj bs)
    → Has k (arr q) bs
    → (r : Items) × (q ≡ (cap_pipeline m r).0)
cap_stage-branch m x h g b =
    let (gs, e₁) = cap_stage-obj m x h in
    let (v, e₂) = get-cap_facet m gs (rw e₁ at g) in
    let (hs, e₃) = cap_facet_value-obj m v e₂ in
    let (w, e₄) = cap_branches-Has m hs (rw e₃ at b) in cap_branch-arr m w e₄

limit_stage-no_facet :
    (m : ℕ) {fs : Fields} {v : Json} → obj fs ≡ limit_stage m → get (codes "$facet") fs ≡ some v → ⊥
unfolding get text_eq
limit_stage-no_facet m {fs} e g =
    let e' : fs ≡ field (codes "$limit") (num (whole m)) end = cc in cc (rw e' at g)

-- A branch of a capped pipeline is itself a capped pipeline.
cap_pipeline-BranchOf :
    (m : ℕ) (p : Items) {q : Items}
    → BranchOf q (cap_pipeline m p).0
    → (r : Items) × (q ≡ (cap_pipeline m r).0)
unfolding cap_pipeline
cap_pipeline-BranchOf m p b = elim (In-close m (cap_stages m p).0 (cap_stages m p).1 (b.holds)) [
  | inl e ↦ absurd (limit_stage-no_facet m e b.is_facet)
  | inr i ↦ let (x, e) = cap_stages-In m p i in cap_stage-branch m x e b.is_facet b.branch
]

cap_pipeline-EndsCapped : (m : ℕ) (p : Items) → EndsCapped m (cap_pipeline m p).0
unfolding cap_pipeline
cap_pipeline-EndsCapped m p = close-EndsCapped m (cap_stages m p).0 (cap_stages m p).1

FacetWithin-EndsCapped :
    (m : ℕ) {q p' : Items} (p : Items)
    → p' ≡ (cap_pipeline m p).0
    → FacetWithin q p'
    → EndsCapped m q
FacetWithin-EndsCapped m p e itself = rw e (cap_pipeline-EndsCapped m p)
FacetWithin-EndsCapped m p e (nested b w) =
    let (r, e') = cap_pipeline-BranchOf m p (rw e at b) in FacetWithin-EndsCapped m r e' w

-- After capping, the pipeline and every branch of a `$facet` in it, at any depth of nested facets,
-- end in a `$limit` whose count is a number no higher than the cap.
pub cap_pipeline-bounded :
    (m : ℕ) (p : Items) {q : Items} → FacetWithin q (cap_pipeline m p).0 → EndsCapped m q
cap_pipeline-bounded m p = FacetWithin-EndsCapped m p refl
