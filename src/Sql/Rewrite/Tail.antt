-- ===== src/Sql/Rewrite/Tail.antt =====
-- The FETCH clause of Oracle is taken off, not changed.
use ask_sql.Prelude.{
  ℕ, Option, none, some, [], ◌∷◌, ◌++◌, Text, length, drop, ltb, is_space, Bool-cases, Option-cases,
  append_assoc, append-nil, ◌∙◌, ◌≡◌, refl, ap, sym, inl, inr,
}
use ask_sql.Regex.{Regex, Place, match, exec_from, exec, is_nil}
use ask_sql.Regex.Sound.{place}
use ask_sql.Sql.Clauses.{oracle_fetch_clause, oracle_offset_before}
use ask_sql.Sql.Rewrite.{
  trim_end, OracleFetchTail, percent_or_count, before_offset, oracle_fetch_tail,
}

-- The one text begins with the other.
abbrev pub Begins : Text → Text → Type 0
Begins s t = (rest : Text) × (s ≡ t ++ rest)

Begins-trans : (s t u : Text) → Begins s t → Begins t u → Begins s u
Begins-trans s t u (a, e) (b, f) = (b ++ a, e ∙ ap (λ z. z ++ a) f ∙ append_assoc u b a)

trim_end-Begins : (s : Text) → Begins s (trim_end s)
unfolding trim_end
trim_end-Begins [] = ([], refl)
trim_end-Begins (c ∷ s) = elim (Bool-cases (is_nil (trim_end s))) [
  | inr e ↦ let (rest, split) = trim_end-Begins s in rw (e, trim_end) (rest, ap (◌∷◌ c) split)
  | inl e ↦ elim (Bool-cases (is_space c)) [
    | inl f ↦ rw (e, f, trim_end) (c ∷ s, refl)
    | inr f ↦ rw (e, f, trim_end) (s, refl)
  ]
]

exec_from-Begins :
    (r : Regex) (before : Option ℕ) (s : Text) {skipped : Text} {q : Place}
    → exec_from r before s ≡ some (skipped, q)
    → Begins s skipped
unfolding exec_from
exec_from-Begins r before [] {skipped} h = elim (Option-cases (match r some (place before []))) [
  | inl e ↦ cc (rw (e, exec_from) at h)
  | inr (x, e) ↦ let p : [] ≡ skipped = cc (rw (e, exec_from) at h) in rw (← p) ([], refl)
]
exec_from-Begins r before (c ∷ s) {skipped} h =
    elim (Option-cases (match r some (place before (c ∷ s)))) [
      | inr (x, e) ↦ let p : [] ≡ skipped = cc (rw (e, exec_from) at h) in rw (← p) (c ∷ s, refl)
      | inl e ↦ elim (Option-cases (exec_from r (some c) s)) [
        | inl f ↦ cc (rw (e, f, exec_from) at h)
        | inr ((k, x), f) ↦
            let p : c ∷ k ≡ skipped = cc (rw (e, f, exec_from) at h) in
            let (rest, split) = exec_from-Begins r (some c) s f in rw (← p) (rest, ap (◌∷◌ c) split)
      ]
    ]

before_offset-Begins : (head : Text) → Begins head (before_offset head)
unfolding before_offset exec
before_offset-Begins head = elim (Option-cases (exec_from oracle_offset_before none head)) [
  | inl e ↦ rw (e, before_offset) ([], sym (append-nil head))
  | inr ((skipped, q), e) ↦ elim (Bool-cases (ltb (length (trim_end skipped)) (length skipped))) [
    | inl f ↦
        rw (e, f, before_offset)
          (Begins-trans head skipped (trim_end skipped)
            (exec_from-Begins oracle_offset_before none head e) (trim_end-Begins skipped))
    | inr f ↦ rw (e, f, before_offset) ([], sym (append-nil head))
  ]
]

drop-append : (t rest : Text) → drop (length t) (t ++ rest) ≡ rest
drop-append [] rest = refl
drop-append (c ∷ t) rest = drop-append t rest

Begins-drop : (s t : Text) → Begins s t → t ++ drop (length t) s ≡ s
Begins-drop s t (rest, e) = rw e (rw (drop-append t rest) refl)

-- The tail that `oracleFetchTail` finds, and the text before it, are the text.
pub oracle_fetch_tail-split :
    (inner : Text) {t : OracleFetchTail}
    → oracle_fetch_tail inner ≡ some t
    → t.head ++ t.text ≡ inner
unfolding oracle_fetch_tail exec
oracle_fetch_tail-split inner {t} h =
    elim (Option-cases (exec_from oracle_fetch_clause none inner)) [
      | inl e ↦ cc (rw (e, oracle_fetch_tail) at h)
      | inr ((skipped, q), e) ↦
          elim (Bool-cases (ltb (length (trim_end skipped)) (length skipped))) [
            | inr f ↦ cc (rw (e, f, oracle_fetch_tail) at h)
            | inl f ↦
                let begins =
                  Begins-trans inner (trim_end skipped) (before_offset (trim_end skipped))
                    (Begins-trans inner skipped (trim_end skipped)
                      (exec_from-Begins oracle_fetch_clause none inner e) (trim_end-Begins skipped))
                    (before_offset-Begins (trim_end skipped)) in
                let same : record {
                  text = drop (length (before_offset (trim_end skipped))) inner;
                  head = before_offset (trim_end skipped);
                  count = percent_or_count q.groups;
                }
                    ≡ t =
                  cc (rw (e, f, oracle_fetch_tail) at h) in
                rw (← same) (Begins-drop inner (before_offset (trim_end skipped)) begins)
          ]
    ]
