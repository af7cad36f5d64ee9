-- ===== src/FewShots/Distinct.antt =====
-- A question is kept once in its scope, and no scope grows past the cap.
use ask_sql.Prelude.{
  ℕ, zero, suc, ◌≤◌, false, Option, List, [], ◌∷◌, Text, length, length-take, take, All, text_eq,
  text_eq_iff, Bool-cases, ◌≡◌, ◌≢◌, refl, inl, inr, arith,
}
use ask_sql.History.{key}
use ask_sql.FewShots.{
  FewShotExample, Examples, examples_of, set_examples, normal_question, without_question,
  add_example,
}

-- The stores that additions to an empty store lead to.
pub data Kept (cap : ℕ) : Examples → Type 0 where
  empty_store : Kept cap []
  added :
      {bs : Examples} (connection_id : Text) (e : FewShotExample) (user_id : Option Text)
      → Kept cap bs
      → Kept cap (add_example cap connection_id e user_id bs)

-- No later example asks the same, up to case and outer whitespace.
abbrev pub IsOther : FewShotExample → FewShotExample → Type 0
IsOther e d = normal_question d ≢ normal_question e

abbrev pub IsDistinct : List FewShotExample → Type 0
IsDistinct [] = Unit
IsDistinct (e ∷ es) = All (IsOther e) es × IsDistinct es

abbrev pub IsKept : ℕ → List FewShotExample → Type 0
IsKept cap es = (length es ≤ cap) × IsDistinct es

pub not_same : (a b : Text) → text_eq a b ≡ false → a ≢ b
not_same a b h e = let t = (text_eq_iff a b).1 e in cc

-- What holds of all examples holds of those that are left.
without_question-All :
    (P : FewShotExample → Type 0) (q : Text) (es : List FewShotExample)
    → All P es
    → All P (without_question q es)
unfolding without_question
without_question-All P q [] h = tt
without_question-All P q (e ∷ es) (h, hs) = elim (Bool-cases (text_eq (normal_question e) q)) [
  | inl s ↦ rw s hs
  | inr s ↦ rw s (h, without_question-All P q es hs)
]

without_question-IsDistinct :
    (q : Text) (es : List FewShotExample) → IsDistinct es → IsDistinct (without_question q es)
unfolding without_question
without_question-IsDistinct q [] h = tt
without_question-IsDistinct q (e ∷ es) (h, hs) = elim (Bool-cases (text_eq (normal_question e) q)) [
  | inl s ↦ rw s hs
  | inr s ↦ rw s (without_question-All (IsOther e) q es h, without_question-IsDistinct q es hs)
]

-- In a list of distinct questions, taking the first match out takes all of them out.
without_question-other :
    (q : Text) (es : List FewShotExample)
    → IsDistinct es
    → All (λ d. normal_question d ≢ q) (without_question q es)
unfolding without_question
without_question-other q [] h = tt
without_question-other q (e ∷ es) (h, hs) = elim (Bool-cases (text_eq (normal_question e) q)) [
  | inl s ↦ let same = (text_eq_iff (normal_question e) q).0 s in rw s (rw (← same) h)
  | inr s ↦ rw s (not_same (normal_question e) q s, without_question-other q es hs)
]

take-All :
    (P : FewShotExample → Type 0) (n : ℕ) (es : List FewShotExample) → All P es → All P (take n es)
take-All P zero es h = tt
take-All P (suc n) [] h = tt
take-All P (suc n) (e ∷ es) h = (h.0, take-All P n es h.1)

take-IsDistinct : (n : ℕ) (es : List FewShotExample) → IsDistinct es → IsDistinct (take n es)
take-IsDistinct zero es h = tt
take-IsDistinct (suc n) [] h = tt
take-IsDistinct (suc n) (e ∷ es) (h, hs) = (take-All (IsOther e) n es h, take-IsDistinct n es hs)

pub examples_of-set_examples :
    (k : Text) (es : List FewShotExample) (bs : Examples)
    → examples_of k (set_examples k es bs) ≡ es
unfolding examples_of set_examples
examples_of-set_examples k es [] = rw ((text_eq_iff k k).1 refl) refl
examples_of-set_examples k es ((j, ds) ∷ bs) = elim (Bool-cases (text_eq j k)) [
  | inl e ↦ rw (e, set_examples, examples_of) (rw e refl)
  | inr e ↦ rw (e, set_examples, examples_of) (rw e (examples_of-set_examples k es bs))
]

text_eq_other : {j k : Text} → j ≢ k → text_eq j k ≡ false
text_eq_other {j} {k} n = elim (Bool-cases (text_eq j k)) [
  | inl e ↦ absurd (n ((text_eq_iff j k).0 e))
  | inr e ↦ e
]

pub examples_of-set_examples_other :
    (k j : Text) (es : List FewShotExample) (bs : Examples)
    → k ≢ j
    → examples_of j (set_examples k es bs) ≡ examples_of j bs
unfolding examples_of set_examples
examples_of-set_examples_other k j es [] n = rw (text_eq_other n) refl
examples_of-set_examples_other k j es ((i, ds) ∷ bs) n = elim (Bool-cases (text_eq i k)) [
  | inl e ↦
      let p = (text_eq_iff i k).0 e in
      let q : text_eq i j ≡ false = rw p (text_eq_other n) in
      rw (e, set_examples, examples_of) (rw q refl)
  | inr e ↦ elim (Bool-cases (text_eq i j)) [
    | inl f ↦ rw (e, set_examples, examples_of) (rw f refl)
    | inr f ↦ rw (e, set_examples, examples_of) (rw f (examples_of-set_examples_other k j es bs n))
  ]
]

-- In every store that additions lead to, the examples of a scope are no more than the cap, and no two
-- of them ask the same question, up to case and outer whitespace.
pub examples_of-IsKept :
    {cap : ℕ} {bs : Examples} (k : Text) → Kept cap bs → IsKept cap (examples_of k bs)
unfolding examples_of add_example
examples_of-IsKept k empty_store = (omega arith, tt)
examples_of-IsKept {cap} k (added {bs} connection_id e user_id r) =
    let here = key connection_id user_id in
    let old = examples_of here bs in
    let left = without_question (normal_question e) old in
    elim (Bool-cases (text_eq here k)) [
      | inl same ↦
          let p = (text_eq_iff here k).0 same in
          let (_, distinct) = examples_of-IsKept here r in
          let new : IsDistinct (e ∷ left) = (
            without_question-other (normal_question e) old distinct,
            without_question-IsDistinct (normal_question e) old distinct,
          ) in
          rw (← p) (
            rw (examples_of-set_examples here (take cap (e ∷ left)) bs)
              (omega (arith, length-take cap (e ∷ left)), take-IsDistinct cap (e ∷ left) new))
      | inr other ↦
          rw
            (examples_of-set_examples_other here k (take cap (e ∷ left)) bs (not_same here k other))
            (examples_of-IsKept k r)
    ]
