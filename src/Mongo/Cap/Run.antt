-- ===== src/Mongo/Cap/Run.antt =====
-- The row cap seen from the server: what a capped pipeline can return. How MongoDB runs a stage is
-- not part of this code, so it is a parameter, with the documented effect of `$limit` as its law.
use ask_sql.Prelude.{ℕ, ◌≤◌, some, List, length, ◌≡◌, false}
use ask_sql.Json.{Num, Json, Items, nil, cons, exceeds}
use ask_sql.Mongo.Cap.{last, limit_of, cap_pipeline}
use ask_sql.Mongo.Cap.Bounded.{cap_pipeline-bounded, itself}

-- A server: the documents that a stage returns for those that it is given. A stage
-- `{ $limit: n }` returns at most `n` documents.
pub record Server {ℓ} (D : Type ℓ) : Type ℓ where
  pub run_stage : Json → List D → List D
  pub limit_law :
      (stage : Json) (n : Num) (k : ℕ) (documents : List D)
      → limit_of stage ≡ some n
      → exceeds n k ≡ false
      → length (run_stage stage documents) ≤ k

module _ {ℓ} {D : Type ℓ} (server : Server D) where
  open server use {run_stage, limit_law}

  -- The stages run in order, each on what the one before it returned.
  pub run : Items → List D → List D
  run nil documents = documents
  run (cons stage rest) documents = run rest (run_stage stage documents)

  run-last :
      (p : Items) (stage : Json) (documents : List D)
      → last p ≡ some stage
      → (input : List D) × (run p documents ≡ run_stage stage input)
  unfolding run last
  run-last nil stage documents h = cc
  run-last (cons x nil) stage documents h = (documents, cc)
  run-last (cons x (cons y ys)) stage documents h =
      run-last (cons y ys) stage (run_stage x documents) h

  -- Whatever the stages do, a capped pipeline returns no more documents than the cap.
  pub length-run-cap_pipeline :
      (max_rows : ℕ) (p : Items) (documents : List D)
      → length (run (cap_pipeline max_rows p).0 documents) ≤ max_rows
  length-run-cap_pipeline m p documents =
      let c = cap_pipeline-bounded m p itself in
      let (input, e) = run-last (cap_pipeline m p).0 c.stage documents c.ends in
      rw e (limit_law c.stage c.count m input c.limits c.within)
