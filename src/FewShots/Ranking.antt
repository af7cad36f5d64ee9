-- ===== src/FewShots/Ranking.antt =====
-- `retrieve` takes the first examples of a ranking by `overlap`.
use ask_sql.Prelude.{
  ℕ, zero, suc, ◌≤◌, ◌<◌, true, Option, List, [], ◌∷◌, Text, take, ltb, Member, at_head, further,
  Bool-cases, ◌≡◌, ◌↔◌, ◌⊎◌, refl, inl, inr, ap, arith,
}
use mathlib.Core.Path
use ask_sql.History.{key}
use ask_sql.FewShots.{
  FewShotExample, Examples, Scored, terms, overlap, examples_of, scored, insert_scored, sort_scored,
  unscored, retrieve,
}

abbrev pub score_of : Text → FewShotExample → ℕ
score_of question e = overlap (terms question) (terms e.question)

abbrev IsSorted : List Scored → Type 0
IsSorted [] = Unit
IsSorted (e ∷ []) = Unit
IsSorted (e ∷ d ∷ es) = (d.1 ≤ e.1) × IsSorted (d ∷ es)

insert_scored-IsSorted :
    (e : Scored) (es : List Scored) → IsSorted es → IsSorted (insert_scored e es)
unfolding insert_scored
insert_scored-IsSorted e [] h = tt
insert_scored-IsSorted e (d ∷ []) h = elim (Bool-cases (ltb e.1 d.1)) [
  | inl s ↦ rw (s, insert_scored) (ground arith, tt)
  | inr s ↦ rw (s, insert_scored) (ground arith, tt)
]
insert_scored-IsSorted e (d ∷ c ∷ es) h = elim (Bool-cases (ltb e.1 d.1)) [
  | inr s ↦ rw (s, insert_scored) (ground arith, h)
  | inl s ↦
      let rest = insert_scored-IsSorted e (c ∷ es) h.1 in
      elim (Bool-cases (ltb e.1 c.1)) [
        | inl f ↦
            let rest' : IsSorted (c ∷ insert_scored e es) = rw (f, insert_scored) at rest in
            rw (s, f, insert_scored) (h.0, rest')
        | inr f ↦
            let rest' : IsSorted (e ∷ c ∷ es) = rw (f, insert_scored) at rest in
            rw (s, f, insert_scored) (ground arith, rest')
      ]
]

sort_scored-IsSorted : (es : List Scored) → IsSorted (sort_scored es)
unfolding sort_scored
sort_scored-IsSorted [] = tt
sort_scored-IsSorted (e ∷ es) = insert_scored-IsSorted e (sort_scored es) (sort_scored-IsSorted es)

Member-insert_scored :
    {x : Scored} (e : Scored) (es : List Scored) → Member x (insert_scored e es) ↔ Member x (e ∷ es)
unfolding insert_scored
Member-insert_scored e [] = (λ m. m, λ m. m)
Member-insert_scored {x = x} e (d ∷ ds) = elim (Bool-cases (ltb e.1 d.1)) [
  | inr s ↦ rw (s, insert_scored) (λ m. m, λ m. m)
  | inl s ↦
      let rest = Member-insert_scored {x = x} e ds in
      rw (s, insert_scored) (swap_in rest.0, swap_out rest.1)
]
  where
    swap_in :
        {x e d : Scored} {ds es : List Scored}
        → (Member x es → Member x (e ∷ ds))
        → Member x (d ∷ es)
        → Member x (e ∷ d ∷ ds)
    swap_in f (at_head p) = further (at_head p)
    swap_in f (further m) = under (f m)
      where
        under : {x e d : Scored} {ds : List Scored} → Member x (e ∷ ds) → Member x (e ∷ d ∷ ds)
        under (at_head p) = at_head p
        under (further m) = further (further m)

    swap_out :
        {x e d : Scored} {ds es : List Scored}
        → (Member x (e ∷ ds) → Member x es)
        → Member x (e ∷ d ∷ ds)
        → Member x (d ∷ es)
    swap_out f (at_head p) = further (f (at_head p))
    swap_out f (further (at_head p)) = at_head p
    swap_out f (further (further m)) = further (f (further m))

-- Every entry carries the score of its example.
abbrev HasScores : Text → List Scored → Type 0
HasScores question [] = Unit
HasScores question (e ∷ es) = (e.1 ≡ score_of question e.0) × HasScores question es

scored-HasScores :
    (question : Text) (es : List FewShotExample) → HasScores question (scored (terms question) es)
unfolding scored
scored-HasScores question [] = tt
scored-HasScores question (e ∷ es) = elim (Bool-cases (ltb 0 (score_of question e))) [
  | inl s ↦ rw s (refl, scored-HasScores question es)
  | inr s ↦ rw s (scored-HasScores question es)
]

insert_scored-HasScores :
    (question : Text) (e : Scored) (es : List Scored)
    → HasScores question (e ∷ es)
    → HasScores question (insert_scored e es)
unfolding insert_scored
insert_scored-HasScores question e [] h = h
insert_scored-HasScores question e (d ∷ ds) (h, (k, ks)) = elim (Bool-cases (ltb e.1 d.1)) [
  | inr s ↦ rw (s, insert_scored) (h, (k, ks))
  | inl s ↦ rw (s, insert_scored) (k, insert_scored-HasScores question e ds (h, ks))
]

sort_scored-HasScores :
    (question : Text) (es : List Scored)
    → HasScores question es
    → HasScores question (sort_scored es)
unfolding sort_scored
sort_scored-HasScores question [] h = tt
sort_scored-HasScores question (e ∷ es) (h, hs) =
    insert_scored-HasScores question e (sort_scored es) (h, sort_scored-HasScores question es hs)

Member-sort_scored : {x : Scored} (es : List Scored) → Member x (sort_scored es) ↔ Member x es
unfolding sort_scored
Member-sort_scored [] = (λ m. m, λ m. m)
Member-sort_scored {x = x} (e ∷ es) =
    let inserted = Member-insert_scored {x = x} e (sort_scored es) in
    let sorted = Member-sort_scored {x = x} es in
    (λ m. under sorted.0 (inserted.0 m), λ m. inserted.1 (under sorted.1 m))
  where
    under :
        {x e : Scored} {ds es : List Scored}
        → (Member x ds → Member x es)
        → Member x (e ∷ ds)
        → Member x (e ∷ es)
    under f (at_head p) = at_head p
    under f (further m) = further (f m)

Member-scored :
    (question : Text) (e : FewShotExample) (es : List FewShotExample)
    → Member e es
    → 0 < score_of question e
    → Member (e, score_of question e) (scored (terms question) es)
unfolding scored
Member-scored question e [] m positive = elim m [ ]
Member-scored question e (d ∷ ds) (at_head p) positive =
    let there : ltb 0 (score_of question d) ≡ true =
      rw p (let t : ltb 0 (score_of question e) ≡ true = ground arith in t) in
    rw there (at_head (ap (λ x. (x, score_of question x)) p))
Member-scored question e (d ∷ ds) (further m) positive =
    elim (Bool-cases (ltb 0 (score_of question d))) [
      | inl s ↦ rw s (further (Member-scored question e ds m positive))
      | inr s ↦ rw s (Member-scored question e ds m positive)
    ]

Member-cases : {x w : Scored} {ws : List Scored} → Member x (w ∷ ws) → (w ≡ x) ⊎ Member x ws
Member-cases (at_head p) = inl p
Member-cases (further m) = inr m

scored-Member :
    (question : Text) (x : Scored) (es : List FewShotExample)
    → Member x (scored (terms question) es)
    → Member x.0 es × (0 < score_of question x.0)
unfolding scored
scored-Member question x [] m = elim m [ ]
scored-Member question x (d ∷ ds) m = elim (Bool-cases (ltb 0 (score_of question d))) [
  | inr s ↦
      let (there, positive) = scored-Member question x ds (rw s at m) in (further there, positive)
  | inl s ↦ elim (Member-cases (rw s at m)) [
    | inl p ↦
        let same : d ≡ x.0 = ap (λ (y : Scored). y.0) p in
        let positive : 0 < score_of question d = ground arith in
        (at_head same, Path.subst (λ y. 0 < score_of question y) same positive)
    | inr there ↦
        let (found, positive) = scored-Member question x ds there in (further found, positive)
  ]
]

-- No example scores less than the next one.
abbrev pub IsByScore : Text → List FewShotExample → Type 0
IsByScore question [] = Unit
IsByScore question (e ∷ []) = Unit
IsByScore question (e ∷ d ∷ es) =
    (score_of question d ≤ score_of question e) × IsByScore question (d ∷ es)

unscored-IsByScore :
    (question : Text) (es : List Scored)
    → HasScores question es
    → IsSorted es
    → IsByScore question (unscored es)
unscored-IsByScore question [] h s = tt
unscored-IsByScore question (e ∷ []) h s = tt
unscored-IsByScore question (e ∷ d ∷ es) (h, (k, ks)) (less, s) =
    (rw (← h, ← k) less, unscored-IsByScore question (d ∷ es) (k, ks) s)

unscored-take : (n : ℕ) (es : List Scored) → unscored (take n es) ≡ take n (unscored es)
unscored-take zero es = refl
unscored-take (suc n) [] = refl
unscored-take (suc n) (e ∷ es) = ap (◌∷◌ e.0) (unscored-take n es)

Member-unscored : {x : Scored} (es : List Scored) → Member x es → Member x.0 (unscored es)
Member-unscored [] m = elim m [ ]
Member-unscored (e ∷ es) (at_head p) = at_head (ap (λ (y : Scored). y.0) p)
Member-unscored (e ∷ es) (further m) = further (Member-unscored es m)

unscored-Member :
    {e : FewShotExample} (es : List Scored)
    → Member e (unscored es)
    → (x : Scored) × (x.0 ≡ e) × Member x es
unscored-Member [] m = elim m [ ]
unscored-Member (d ∷ es) (at_head p) = (d, p, at_head refl)
unscored-Member (d ∷ es) (further m) =
    let (x, p, there) = unscored-Member es m in (x, p, further there)

pub retrieve-IsByScore :
    (connection_id question : Text) (limit : ℕ) (user_id : Option Text) (examples : Examples)
    → (ranking : List FewShotExample) × (retrieve connection_id question limit user_id examples
        ≡ take limit ranking)
      × IsByScore question ranking
      × ((e : FewShotExample)
          → Member e ranking ↔ (
              Member e (examples_of (key connection_id user_id) examples)
              × (0 < score_of question e)))
unfolding retrieve
retrieve-IsByScore connection_id question limit user_id examples =
    let held = examples_of (key connection_id user_id) examples in
    let found = scored (terms question) held in
    (
      unscored (sort_scored found),
      unscored-take limit (sort_scored found),
      unscored-IsByScore question (sort_scored found)
          (sort_scored-HasScores question found (scored-HasScores question held))
          (sort_scored-IsSorted found),
      λ e. (
        λ m.
            let (x, p, there) = unscored-Member (sort_scored found) m in
            let both = scored-Member question x held ((Member-sort_scored found).0 there) in
            Path.subst (λ y. Member y held × (0 < score_of question y)) p both,
        λ m.
            Member-unscored (sort_scored found)
              ((Member-sort_scored found).1 (Member-scored question e held m.0 m.1)),
      ),
    )
