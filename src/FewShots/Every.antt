-- ===== src/FewShots/Every.antt =====
-- A predicate on all examples of the store, of whatever connection and user.
use ask_sql.Prelude.{
  ℕ, zero, suc, Option, List, [], ◌∷◌, Text, take, text_eq, All, Bool-cases, inl, inr,
}
use ask_sql.History.{key}
use ask_sql.FewShots.{
  FewShotExample, Examples, examples_of, set_examples, without_question, normal_question,
  add_example,
}

module _ (P : FewShotExample → Type 0) where
  abbrev pub Every : Examples → Type 0
  Every [] = Unit
  Every ((k, es) ∷ bs) = All P es × Every bs

  All-take : (n : ℕ) (es : List FewShotExample) → All P es → All P (take n es)
  All-take zero es h = tt
  All-take (suc n) [] h = tt
  All-take (suc n) (e ∷ es) (p, h) = (p, All-take n es h)

  All-without_question :
      (q : Text) (es : List FewShotExample) → All P es → All P (without_question q es)
  unfolding without_question
  All-without_question q [] h = tt
  All-without_question q (e ∷ es) (p, h) = elim (Bool-cases (text_eq (normal_question e) q)) [
    | inl f ↦ rw (f, without_question) h
    | inr f ↦ rw (f, without_question) (p, All-without_question q es h)
  ]

  All-examples_of : (k : Text) (bs : Examples) → Every bs → All P (examples_of k bs)
  unfolding examples_of
  All-examples_of k [] h = tt
  All-examples_of k ((j, es) ∷ bs) (h, hs) = elim (Bool-cases (text_eq j k)) [
    | inl f ↦ rw (f, examples_of) h
    | inr f ↦ rw (f, examples_of) (All-examples_of k bs hs)
  ]

  Every-set_examples :
      (k : Text) (es : List FewShotExample) (bs : Examples)
      → All P es
      → Every bs
      → Every (set_examples k es bs)
  unfolding set_examples
  Every-set_examples k es [] p h = (p, tt)
  Every-set_examples k es ((j, ds) ∷ bs) p (h, hs) = elim (Bool-cases (text_eq j k)) [
    | inl f ↦ rw (f, set_examples) (p, hs)
    | inr f ↦ rw (f, set_examples) (h, Every-set_examples k es bs p hs)
  ]

  pub Every-add_example :
      (cap : ℕ) (connection_id : Text) (e : FewShotExample) (user_id : Option Text) (bs : Examples)
      → P e
      → Every bs
      → Every (add_example cap connection_id e user_id bs)
  unfolding add_example
  Every-add_example cap connection_id e user_id bs p h =
      let k = key connection_id user_id in
      let rest =
        All-without_question (normal_question e) (examples_of k bs) (All-examples_of k bs h) in
      Every-set_examples k _ bs
        (All-take cap (e ∷ without_question (normal_question e) (examples_of k bs)) (p, rest)) h
