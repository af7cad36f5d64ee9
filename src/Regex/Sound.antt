-- ===== src/Regex/Sound.antt =====
-- The matcher finds a match exactly where there is one, by the rules of the expressions.
use ask_sql.Prelude.{
  ℕ, zero, suc, ◌≤◌, ◌<◌, Bool, true, false, Option, none, some, [], ◌∷◌, ◌++◌, Text, length, ltb,
  if◌then◌else◌, <|>_none, <|>_some, Option-cases, ◌≡◌, refl, sym, ap, ◌↔◌, inl, inr, arith,
}
use mathlib.Core.Path
use ask_sql.Strip.Scan.{last_of}
use ask_sql.Regex.{
  Regex, empty, start, finish, boundary, unit, many, ahead, group, then_, either, Place,
  at_boundary, is_start, is_nil, capture, step, and_then, rounds, match, exec_from, exec, is_some,
  test,
}

-- `q` is a place at which the expression may end when it begins at the first one.
pub data Match : Regex → Place → Place → Type 0 where
  nothing : {p : Place} → Match empty p p
  at_start : {p : Place} → is_start p.before ≡ true → Match start p p
  at_finish : {p : Place} → is_nil p.rest ≡ true → Match finish p p
  between_words :
      {folds : Bool} {p : Place} → at_boundary folds p ≡ true → Match (boundary folds) p p
  one : {class : ℕ → Bool} {p q : Place} → step class p ≡ some q → Match (unit class) p q
  no_more : {r : Regex} {p : Place} → Match (many r) p p
  once_more :
      {r : Regex} {p q t : Place}
      → Match r p q
      → length q.rest < length p.rest
      → Match (many r) q t
      → Match (many r) p t
  seen : {r : Regex} {p q : Place} → Match r p q → Match (ahead r) p p
  captured : {i : ℕ} {r : Regex} {p q : Place} → Match r p q → Match (group i r) p (capture i p q)
  both : {r s : Regex} {p q t : Place} → Match r p q → Match s q t → Match (then_ r s) p t
  this : {r s : Regex} {p q : Place} → Match r p q → Match (either r s) p q
  that : {r s : Regex} {p q : Place} → Match s p q → Match (either r s) p q

-- A result of the matcher comes from a match and what the continuation makes of its end.
abbrev Found : Regex → (Place → Option Place) → Place → Place → Type 0
Found r k p x = (q : Place) × Match r p q × (k q ≡ some x)

guarded :
    {x : Place} (b : Bool) (o : Option Place)
    → (if b then o else none) ≡ some x
    → (b ≡ true) × (o ≡ some x)
guarded true o h = (refl, h)
guarded false o h = cc

rounds-Found :
    (r : Regex) (k : Place → Option Place)
    → ((k : Place → Option Place) (p x : Place) → match r k p ≡ some x → Found r k p x)
    → (n : ℕ) (p : Place) {x : Place} → rounds (match r) n k p ≡ some x
    → Found (many r) k p x
unfolding rounds
rounds-Found r k ih zero p h = (p, no_more, h)
rounds-Found r k ih (suc n) p h =
    let next : Place → Option Place =
      λ q. if ltb (length q.rest) (length p.rest) then rounds (match r) n k q else none in
    elim (<|>_some (match r next p) (k p) h) [
      | inr g ↦ (p, no_more, g)
      | inl g ↦
          let (q, m, g') = ih next p _ g in
          let (less, g'') = guarded (ltb (length q.rest) (length p.rest)) _ g' in
          let (t, m', found) = rounds-Found r k ih n q g'' in
          (t, once_more m (ground arith) m', found)
    ]

match-Found :
    (r : Regex) (k : Place → Option Place) (p : Place) {x : Place}
    → match r k p ≡ some x
    → Found r k p x
unfolding match
match-Found empty k p h = (p, nothing, h)
match-Found start k p h = let (e, g) = guarded (is_start p.before) _ h in (p, at_start e, g)
match-Found finish k p h = let (e, g) = guarded (is_nil p.rest) _ h in (p, at_finish e, g)
match-Found (boundary folds) k p h =
    let (e, g) = guarded (at_boundary folds p) _ h in (p, between_words e, g)
match-Found (unit class) k p h = elim (Option-cases (step class p)) [
  | inl e ↦ cc (rw e at h)
  | inr (q, e) ↦ (q, one e, rw e at h)
]
match-Found (many r) k p h = rounds-Found r k (λ k p x h. match-Found r k p h) (length p.rest) p h
match-Found (ahead r) k p h = elim (Option-cases (match r some p)) [
  | inl e ↦ cc (rw e at h)
  | inr (q, e) ↦ let (t, m, _) = match-Found r some p e in (p, seen m, rw e at h)
]
match-Found (group i r) k p h =
    let (q, m, g) = match-Found r (λ q. k (capture i p q)) p h in (capture i p q, captured m, g)
match-Found (then_ r s) k p h =
    let (q, m, g) = match-Found r (match s k) p h in
    let (t, m', g') = match-Found s k q g in (t, both m m', g')
match-Found (either r s) k p h = elim (<|>_some (match r k p) (match s k p) h) [
  | inl g ↦ let (q, m, g') = match-Found r k p g in (q, this m, g')
  | inr g ↦ let (q, m, g') = match-Found s k p g in (q, that m, g')
]

unguarded : (b : Bool) (o : Option Place) → b ≡ true → (if b then o else none) ≡ none → o ≡ none
unguarded true o e h = h
unguarded false o e h = cc

rounds_stop :
    (m : (Place → Option Place) → Place → Option Place) (n : ℕ) (k : Place → Option Place)
    (p : Place)
    → rounds m n k p ≡ none
    → k p ≡ none
unfolding rounds
rounds_stop m zero k p h = h
rounds_stop m (suc n) k p h =
    (<|>_none (m (λ q. if ltb (length q.rest) (length p.rest) then rounds m n k q else none) p)
      (k p) h).1

-- The first round, where one is left.
rounds_open :
    (m : (Place → Option Place) → Place → Option Place) (n : ℕ) (k : Place → Option Place)
    (p : Place)
    → 0 < n
    → rounds m n k p ≡ none
    → (l : ℕ) × (n ≡ suc l)
      × (m (λ q. if ltb (length q.rest) (length p.rest) then rounds m l k q else none) p ≡ none)
unfolding rounds
rounds_open m zero k p pos h = absurd (omega arith)
rounds_open m (suc n) k p pos h = (
  n,
  refl,
  (<|>_none (m (λ q. if ltb (length q.rest) (length p.rest) then rounds m n k q else none) p) (k p)
      h).0,
)

-- Where the matcher finds nothing, the continuation fails at the end of every match.
mutual
  unfolding match

  match-none :
      {r : Regex} {p q : Place} (k : Place → Option Place)
      → Match r p q
      → match r k p ≡ none
      → k q ≡ none
  match-none k nothing h = h
  match-none k (at_start e) h = unguarded _ (k _) e h
  match-none k (at_finish e) h = unguarded _ (k _) e h
  match-none k (between_words e) h = unguarded _ (k _) e h
  match-none k (one {class} {p} e) h = let h' : and_then (step class p) k ≡ none = h in rw e at h'
  match-none k (no_more {r} {p}) h = rounds_stop (match r) (length p.rest) k p h
  match-none k (once_more {r} {p} m less ms) h =
      let (l, e, first) = rounds_open (match r) (length p.rest) k p (omega arith) h in
      let second = match-none _ m first in
      rounds-none l k (omega arith) ms (unguarded _ _ (ground arith) second)
  match-none k (seen {r} {p} m) h = elim (Option-cases (match r some p)) [
    | inl e ↦ cc (match-none some m e)
    | inr (x, e) ↦ rw e at h
  ]
  match-none k (captured {i} {p} m) h = match-none (λ q. k (capture i p q)) m h
  match-none k (both {s} m m') h = match-none k m' (match-none (match s k) m h)
  match-none k (this m) h = match-none k m (<|>_none _ _ h).0
  match-none k (that m) h = match-none k m (<|>_none _ _ h).1

  rounds-none :
      {r : Regex} {p q : Place} (n : ℕ) (k : Place → Option Place)
      → length p.rest ≤ n
      → Match (many r) p q
      → rounds (match r) n k p ≡ none
      → k q ≡ none
  rounds-none n k bound (no_more {r} {p}) h = rounds_stop (match r) n k p h
  rounds-none n k bound (once_more {r} {p} m less ms) h =
      let (l, e, first) = rounds_open (match r) n k p (omega arith) h in
      let second = match-none _ m first in
      rounds-none l k (omega arith) ms (unguarded _ _ (ground arith) second)

abbrev pub place : Option ℕ → Text → Place
place before rest = record { before = before; rest = rest; groups = [] }

-- Somewhere in the text, which stands behind `before`, the expression matches.
abbrev pub Finds : Regex → Option ℕ → Text → Type 0
Finds r before s =
    (skipped rest : Text) × (q : Place) × (s ≡ skipped ++ rest)
    × Match r (place (last_of before skipped) rest) q

found_here :
    (r : Regex) (before : Option ℕ) (s : Text) {q : Place}
    → match r some (place before s) ≡ some q
    → Finds r before s
found_here r before s {q} h =
    let (t, m, _) = match-Found r some (place before s) h in ([], s, t, refl, m)

found_later :
    (r : Regex) (before : Option ℕ) (c : ℕ) (s : Text) → Finds r (some c) s → Finds r before (c ∷ s)
found_later r before c s (skipped, rest, q, split, m) = (c ∷ skipped, rest, q, ap (◌∷◌ c) split, m)

exec_from-Finds :
    (r : Regex) (before : Option ℕ) (s : Text)
    → is_some (exec_from r before s) ≡ true
    → Finds r before s
unfolding exec_from
exec_from-Finds r before [] h = elim (Option-cases (match r some (place before []))) [
  | inl e ↦ cc (rw (e, exec_from) at h)
  | inr (q, e) ↦ found_here r before [] e
]
exec_from-Finds r before (c ∷ s) h = elim (Option-cases (match r some (place before (c ∷ s)))) [
  | inr (q, e) ↦ found_here r before (c ∷ s) e
  | inl e ↦ elim (Option-cases (exec_from r (some c) s)) [
    | inl f ↦ cc (rw (e, f, exec_from) at h)
    | inr (x, f) ↦ found_later r before c s (exec_from-Finds r (some c) s (rw f refl))
  ]
]

exec_from_first :
    (r : Regex) (before : Option ℕ) (s : Text)
    → exec_from r before s ≡ none
    → match r some (place before s) ≡ none
unfolding exec_from
exec_from_first r before [] h = elim (Option-cases (match r some (place before []))) [
  | inl e ↦ e
  | inr (q, e) ↦ cc (rw (e, exec_from) at h)
]
exec_from_first r before (c ∷ s) h = elim (Option-cases (match r some (place before (c ∷ s)))) [
  | inl e ↦ e
  | inr (q, e) ↦ cc (rw (e, exec_from) at h)
]

exec_from_next :
    (r : Regex) (before : Option ℕ) (c : ℕ) (s : Text)
    → exec_from r before (c ∷ s) ≡ none
    → exec_from r (some c) s ≡ none
unfolding exec_from
exec_from_next r before c s h = elim (Option-cases (exec_from r (some c) s)) [
  | inl e ↦ e
  | inr (x, f) ↦ let e = exec_from_first r before (c ∷ s) h in cc (rw (e, f, exec_from) at h)
]

no_match : {r : Regex} {p q : Place} → match r some p ≡ none → Match r p q → ⊥
no_match h m = cc (match-none some m h)

Finds-exec_from :
    (r : Regex) (before : Option ℕ) (s : Text) → exec_from r before s ≡ none → Finds r before s → ⊥
Finds-exec_from r before s h ([], rest, q, split, m) =
    no_match (exec_from_first r before s h)
      (Path.subst (λ t. Match r (place before t) q) (sym split) m)
Finds-exec_from r before [] h (d ∷ skipped, rest, q, split, m) = cc
Finds-exec_from r before (c ∷ s) h (d ∷ skipped, rest, q, split, m) =
    let head : c ≡ d = cc in
    let tail : s ≡ skipped ++ rest = cc in
    let m' : Match r (place (last_of (some c) skipped) rest) q = rw head m in
    Finds-exec_from r (some c) s (exec_from_next r before c s h) (skipped, rest, q, tail, m')

-- The matcher answers yes exactly where the expression matches at some place of the text, by the
-- rules of the expressions. Its fuel for repetitions is always enough.
pub test_iff : (r : Regex) (s : Text) → (test r s ≡ true) ↔ Finds r none s
unfolding test exec
test_iff r s = (
  λ h. exec_from-Finds r none s h,
  λ found. elim (Option-cases (exec_from r none s)) [
    | inl e ↦ absurd (Finds-exec_from r none s e found)
    | inr (x, e) ↦ rw e refl
  ],
)
