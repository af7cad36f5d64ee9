-- ===== src/FewShots/Retrieval.antt =====
-- What `retrieve` finds: the best matches of the scope, the best first.
use ask_sql.Prelude.{ℕ, ◌≤◌, false, includes, Option, List, [], ◌∷◌, Text, take, Member, ◌≡◌, ◌↔◌}
use ask_sql.History.{key}
use ask_sql.FewShots.Ranking.{score_of, IsByScore, retrieve-IsByScore}
use ask_sql.FewShots.Distinct.{Kept}
use ask_sql.FewShots.Shared.{Shares, overlap-Shares, overlap-Member}
use ask_sql.FewShots.Added.{WasAdded, HasPlainIds, examples_of-WasAdded}
use ask_sql.FewShots.{FewShotExample, Examples, terms, examples_of, retrieve}

-- The one shares at least as many words with the question as the other.
abbrev pub IsNoWorse : Text → FewShotExample → FewShotExample → Type 0
IsNoWorse question e d = (m : ℕ) × (n : ℕ) × (n ≤ m) × Shares question e m × Shares question d n

abbrev pub IsRanked : Text → List FewShotExample → Type 0
IsRanked question [] = Unit
IsRanked question (e ∷ []) = Unit
IsRanked question (e ∷ d ∷ es) = IsNoWorse question e d × IsRanked question (d ∷ es)

-- A word of the question is one of the example.
abbrev pub HasShared : Text → FewShotExample → Type 0
HasShared question e = (w : Text) × Member w (terms question) × Member w (terms e.question)

IsByScore-IsRanked :
    (question : Text) (es : List FewShotExample) → IsByScore question es → IsRanked question es
IsByScore-IsRanked question [] h = tt
IsByScore-IsRanked question (e ∷ []) h = tt
IsByScore-IsRanked question (e ∷ d ∷ es) (less, h) = (
  (
    score_of question e,
    score_of question d,
    less,
    overlap-Shares question e,
    overlap-Shares question d,
  ),
  IsByScore-IsRanked question (d ∷ es) h,
)

-- In a store that additions lead to, where no connection id holds a zero code unit, the examples that
-- are retrieved are the first ones, as many as asked for, of a ranking by the number of words shared
-- with the question. The ranking holds exactly the examples of the bucket that share a word with it,
-- and each of them was added for that connection and that user (no user counts as the empty one).
pub retrieve-IsRanked :
    {cap : ℕ} {bs : Examples} (k : Kept cap bs) (connection_id question : Text) (limit : ℕ)
    (user_id : Option Text)
    → HasPlainIds k
    → includes 0 connection_id ≡ false
    → (ranking : List FewShotExample) × (retrieve connection_id question limit user_id bs
        ≡ take limit ranking)
      × IsRanked question ranking
      × ((e : FewShotExample)
          → Member e ranking
            ↔ (Member e (examples_of (key connection_id user_id) bs) × HasShared question e))
      × ((e : FewShotExample) → Member e ranking → WasAdded k connection_id user_id e)
retrieve-IsRanked {bs} k connection_id question limit user_id plain free =
    let (ranking, shown, sorted, exact) =
      retrieve-IsByScore connection_id question limit user_id bs in
    (
      ranking,
      shown,
      IsByScore-IsRanked question ranking sorted,
      λ e.
          let shares = overlap-Member (terms question) (terms e.question) in
          (
            λ m. let (held, positive) = (exact e).0 m in (held, shares.0 positive),
            λ m. (exact e).1 (m.0, shares.1 m.1),
          ),
      λ e m. examples_of-WasAdded k connection_id user_id e plain free ((exact e).0 m).0,
    )
