-- ===== src/FewShots/Added.antt =====
-- Whose examples a bucket holds: those that were added for its connection and user.
use ask_sql.Prelude.{
  ℕ, zero, suc, false, Option, none, some, List, [], ◌∷◌, Text, includes, take, text_eq,
  text_eq_iff, Member, at_head, further, Bool-cases, ◌≡◌, ◌⊎◌, refl, sym, ap, inl, inr,
}
use mathlib.Core.Path
use ask_sql.History.{key, or_empty}
use ask_sql.History.Page.{key_split}
use ask_sql.FewShots.{
  FewShotExample, Examples, examples_of, set_examples, normal_question, without_question,
  add_example,
}
use ask_sql.FewShots.Distinct.{
  Kept, empty_store, added, not_same, examples_of-set_examples, examples_of-set_examples_other,
}

-- The same user: the store does not tell no user from the empty text.
abbrev pub IsSameUser : Option Text → Option Text → Type 0
IsSameUser u v = (u ≡ v) ⊎ ((or_empty u ≡ []) × (or_empty v ≡ []))

-- The example was added for that connection and user.
abbrev pub WasAdded :
    {cap : ℕ} {bs : Examples} → Kept cap bs → Text → Option Text → FewShotExample → Type 0
WasAdded empty_store connection_id user_id e = ⊥
WasAdded (added c d u rest) connection_id user_id e =
    ((c ≡ connection_id) × IsSameUser u user_id × (d ≡ e)) ⊎ WasAdded rest connection_id user_id e

-- No connection id of the additions holds a zero code unit.
abbrev pub HasPlainIds : {cap : ℕ} {bs : Examples} → Kept cap bs → Type 0
HasPlainIds empty_store = Unit
HasPlainIds (added c d u rest) = (includes 0 c ≡ false) × HasPlainIds rest

or_empty-IsSameUser : (u v : Option Text) → or_empty u ≡ or_empty v → IsSameUser u v
or_empty-IsSameUser none none h = inl refl
or_empty-IsSameUser none (some v) h = inr (refl, sym h)
or_empty-IsSameUser (some u) none h = inr (h, refl)
or_empty-IsSameUser (some u) (some v) h = inl (ap some h)

Member-take :
    {e : FewShotExample} (n : ℕ) (es : List FewShotExample) → Member e (take n es) → Member e es
Member-take zero es m = elim m [ ]
Member-take (suc n) [] m = elim m [ ]
Member-take (suc n) (d ∷ es) (at_head p) = at_head p
Member-take (suc n) (d ∷ es) (further m) = further (Member-take n es m)

Member-head :
    {x w : FewShotExample} {ws : List FewShotExample} → Member x (w ∷ ws) → (w ≡ x) ⊎ Member x ws
Member-head (at_head p) = inl p
Member-head (further m) = inr m

Member-without_question :
    {e : FewShotExample} (q : Text) (es : List FewShotExample)
    → Member e (without_question q es)
    → Member e es
unfolding without_question
Member-without_question q [] m = elim m [ ]
Member-without_question q (d ∷ es) m = elim (Bool-cases (text_eq (normal_question d) q)) [
  | inl s ↦ further (rw s at m)
  | inr s ↦ elim (Member-head (rw s at m)) [
    | inl p ↦ at_head p
    | inr n ↦ further (Member-without_question q es n)
  ]
]

-- What a bucket holds was added for its connection and user.
pub examples_of-WasAdded :
    {cap : ℕ} {bs : Examples} (k : Kept cap bs) (connection_id : Text) (user_id : Option Text)
    (e : FewShotExample)
    → HasPlainIds k
    → includes 0 connection_id ≡ false
    → Member e (examples_of (key connection_id user_id) bs)
    → WasAdded k connection_id user_id e
unfolding examples_of add_example key
examples_of-WasAdded empty_store connection_id user_id e plain free m = elim m [ ]
examples_of-WasAdded {cap} (added {bs} c d u rest) connection_id user_id e (here_free, plain) free
      m =
    let here = key c u in
    let there = key connection_id user_id in
    let new = take cap (d ∷ without_question (normal_question d) (examples_of here bs)) in
    elim (Bool-cases (text_eq here there)) [
      | inr other ↦ inr (
          examples_of-WasAdded rest connection_id user_id e plain free (
            Path.subst (Member e)
              (examples_of-set_examples_other here there new bs (not_same here there other)) m))
      | inl same ↦
          let p : here ≡ there = (text_eq_iff here there).0 same in
          let (connection, user) =
            key_split c connection_id (or_empty u) (or_empty user_id) here_free free p in
          let m' : Member e new =
            Path.subst (Member e) (examples_of-set_examples here new bs)
              (Path.subst (λ k. Member e (examples_of k (set_examples here new bs))) (sym p) m) in
          elim (Member-head (Member-take cap _ m')) [
            | inl q ↦ inl (connection, or_empty-IsSameUser u user_id user, q)
            | inr n ↦ inr (
                examples_of-WasAdded rest connection_id user_id e plain free (
                  Path.subst (λ k. Member e (examples_of k bs)) p
                    (Member-without_question (normal_question d) _ n)))
          ]
    ]
