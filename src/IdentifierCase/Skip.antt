-- ===== src/IdentifierCase/Skip.antt =====
-- A literal or comment takes at least one character, and ends within the statement.
use ask_sql.Prelude.{
  ℕ, suc, ◌+◌, ◌≤◌, Bool, true, false, ◌||◌, some, [], ◌∷◌, Text, codes, length, length-drop,
  length-take, take, drop, ◌==◌, starts_with, is_letter, is_word, Bool-cases, Option-cases, &&_true,
  ◌≡◌, refl, inl, inr, arith,
}
use ask_sql.IdentifierCase.{
  index_of, up_to, or_all, tag_end, dollar_tag, is_escape_prefix, literal_rest, literal_length,
  is_line_comment, is_block_comment, opens_literal, skip_to,
}

starts_with-length : (t s : Text) → starts_with t s ≡ true → length t ≤ length s
unfolding starts_with
starts_with-length [] s h = omega arith
starts_with-length (x ∷ t) [] h = cc
starts_with-length (x ∷ t) (c ∷ s) h =
    let (_, b) = &&_true (x == c) (starts_with t s) h in
    let rest = starts_with-length t s b in omega arith

index_of-bound : (t s : Text) {i : ℕ} → index_of t s ≡ some i → i + length t ≤ length s
unfolding index_of
index_of-bound t [] {i} h = elim (Bool-cases (starts_with t [])) [
  | inl e ↦ let p : 0 ≡ i = cc (rw e at h) in let fits = starts_with-length t [] e in omega arith
  | inr e ↦ cc (rw e at h)
]
index_of-bound t (c ∷ s) {i} h = elim (Bool-cases (starts_with t (c ∷ s))) [
  | inl e ↦
      let p : 0 ≡ i = cc (rw (e, index_of) at h) in
      let fits = starts_with-length t (c ∷ s) e in omega arith
  | inr e ↦ elim (Option-cases (index_of t s)) [
    | inl f ↦ cc (rw (e, f, index_of) at h)
    | inr (j, f) ↦
        let p : suc j ≡ i = cc (rw (e, f, index_of) at h) in
        let rest = index_of-bound t s f in omega arith
  ]
]

up_to-bound :
    (from : ℕ) (t s : Text) {i : ℕ}
    → from ≤ length s
    → up_to from t s ≡ some i
    → (from ≤ i) × (i + length t ≤ length s)
unfolding up_to
up_to-bound from t s {i} within h = elim (Option-cases (index_of t (drop from s))) [
  | inl e ↦ cc (rw (e, up_to) at h)
  | inr (j, e) ↦
      let p : from + j ≡ i = cc (rw (e, up_to) at h) in
      let rest = index_of-bound t (drop from s) e in
      let left = length-drop from s in (omega arith, omega arith)
]

-- Up to a closing mark of `behind` characters, or to the end.
or_all-bound :
    (from behind : ℕ) (t s : Text)
    → from ≤ length s
    → 1 ≤ length s
    → 1 ≤ from + behind
    → behind ≤ length t
    → (1 ≤ or_all (up_to from t s) behind s) × (or_all (up_to from t s) behind s ≤ length s)
or_all-bound from behind t s within some_text forward fits = elim (Option-cases (up_to from t s)) [
  | inl e ↦ rw e (some_text, omega arith)
  | inr (i, e) ↦ let (low, high) = up_to-bound from t s within e in rw e (omega arith, omega arith)
]

tag_end-bound : (s : Text) {n : ℕ} → tag_end s ≡ some n → (1 ≤ n) × (n ≤ length s)
unfolding tag_end
tag_end-bound [] h = cc
tag_end-bound (c ∷ s) {n} h = elim (Bool-cases (c == b'$')) [
  | inl e ↦ let p : 1 ≡ n = cc (rw (e, tag_end) at h) in (omega arith, omega arith)
  | inr e ↦ elim (Bool-cases (is_word c)) [
    | inr f ↦ cc (rw (e, f, tag_end) at h)
    | inl f ↦ elim (Option-cases (tag_end s)) [
      | inl g ↦ cc (rw (e, f, g, tag_end) at h)
      | inr (m, g) ↦
          let p : suc m ≡ n = cc (rw (e, f, g, tag_end) at h) in
          let (_, rest) = tag_end-bound s g in (omega arith, omega arith)
    ]
  ]
]

dollar_tag-bound : (s : Text) {n : ℕ} → dollar_tag s ≡ some n → (2 ≤ n) × (n ≤ length s)
unfolding dollar_tag
dollar_tag-bound [] h = cc
dollar_tag-bound (c ∷ []) h = cc
dollar_tag-bound (c ∷ d ∷ s) {n} h = elim (Bool-cases (c == b'$')) [
  | inr e ↦ cc (rw e at h)
  | inl e ↦ elim (Bool-cases (d == b'$')) [
    | inl f ↦ let p : 2 ≡ n = cc (rw (e, f) at h) in (omega arith, omega arith)
    | inr f ↦ elim (Bool-cases (is_letter d || d == b'_')) [
      | inr g ↦ cc (rw (e, f, g) at h)
      | inl g ↦ elim (Option-cases (tag_end s)) [
        | inl k ↦ cc (rw (e, f, g, k) at h)
        | inr (m, k) ↦
            let p : 2 + m ≡ n = cc (rw (e, f, g, k) at h) in
            let (_, rest) = tag_end-bound s k in (omega arith, omega arith)
      ]
    ]
  ]
]

literal_rest-bound :
    (escaped : Bool) (quote : ℕ) (s : Text) → literal_rest escaped quote s ≤ length s
unfolding literal_rest
literal_rest-bound escaped quote [] = omega arith
literal_rest-bound escaped quote (c ∷ []) = omega arith
literal_rest-bound escaped quote (c ∷ d ∷ s) =
    let two_on = literal_rest-bound escaped quote s in
    let one_on = literal_rest-bound escaped quote (d ∷ s) in ground arith

index_of_pos :
    (t : Text) (c : ℕ) (s : Text) {i : ℕ}
    → starts_with t (c ∷ s) ≡ false
    → index_of t (c ∷ s) ≡ some i
    → 1 ≤ i
unfolding index_of
index_of_pos t c s {i} n h = elim (Option-cases (index_of t s)) [
  | inl f ↦ cc (rw (n, f, index_of) at h)
  | inr (j, f) ↦ let p : suc j ≡ i = cc (rw (n, f, index_of) at h) in omega arith
]

-- A line comment ends before the line break, which is not its first character.
line_comment-bound :
    (s : Text)
    → is_line_comment s ≡ true
    → (1 ≤ or_all (up_to 0 (10 ∷ []) s) 0 s) × (or_all (up_to 0 (10 ∷ []) s) 0 s ≤ length s)
unfolding is_line_comment up_to starts_with
line_comment-bound [] h = cc
line_comment-bound (c ∷ []) h = cc
line_comment-bound (c ∷ d ∷ s) h =
    let (dash, _) = &&_true (c == b'-') (d == b'-') h in
    let other : (10 == c) ≡ false = ground arith in
    elim (Option-cases (index_of (10 ∷ []) (c ∷ d ∷ s))) [
      | inl e ↦ rw (e, or_all, up_to) (omega arith, omega arith)
      | inr (i, e) ↦
          let low = index_of_pos (10 ∷ []) c (d ∷ s) (rw other refl) e in
          let high = index_of-bound (10 ∷ []) (c ∷ d ∷ s) e in
          rw (e, or_all, up_to) (omega arith, omega arith)
    ]

block_comment-length : (s : Text) → is_block_comment s ≡ true → 2 ≤ length s
unfolding is_block_comment
block_comment-length [] h = cc
block_comment-length (c ∷ []) h = cc
block_comment-length (c ∷ d ∷ s) h = omega arith

opens_literal-length : (d : Bool) (s : Text) → opens_literal d s ≡ true → 1 ≤ length s
opens_literal-length d [] h = cc
opens_literal-length d (c ∷ s) h = omega arith

literal_length-bound :
    (b : Bool) (before s : Text)
    → 1 ≤ length s
    → (1 ≤ literal_length b before s) × (literal_length b before s ≤ length s)
literal_length-bound b before [] h = absurd (omega arith)
literal_length-bound b before (c ∷ s) h =
    let rest = literal_rest-bound (b || is_escape_prefix before) c s in (omega arith, omega arith)

pub skip_to-bound :
    (double_quote backslash : Bool) (before s : Text) (n : ℕ)
    → skip_to double_quote backslash before s ≡ some n
    → (1 ≤ n) × (n ≤ length s)
unfolding skip_to
skip_to-bound double_quote backslash before s n h = elim (Option-cases (dollar_tag s)) [
  | inr (m, e) ↦
      let p : or_all (up_to m (take m s) s) m s ≡ n = cc (rw (e, skip_to) at h) in
      let (two, within) = dollar_tag-bound s e in
      let size = length-take m s in
      rw (← p) (or_all-bound m m (take m s) s within (omega arith) (omega arith) (omega arith))
  | inl e ↦ elim (Bool-cases (is_line_comment s)) [
    | inl f ↦
        let p : or_all (up_to 0 (10 ∷ []) s) 0 s ≡ n = cc (rw (e, f, skip_to) at h) in
        rw (← p) (line_comment-bound s f)
    | inr f ↦ elim (Bool-cases (is_block_comment s)) [
      | inl g ↦
          let p : or_all (up_to 2 (codes "*/") s) 2 s ≡ n = cc (rw (e, f, g, skip_to) at h) in
          let two = block_comment-length s g in
          rw (← p) (or_all-bound 2 2 (codes "*/") s two (omega arith) (omega arith) (omega arith))
      | inr g ↦ elim (Bool-cases (opens_literal double_quote s)) [
        | inr k ↦ cc (rw (e, f, g, k, skip_to) at h)
        | inl k ↦
            let p : literal_length backslash before s ≡ n = cc (rw (e, f, g, k, skip_to) at h) in
            rw (← p)
              (literal_length-bound backslash before s (opens_literal-length double_quote s k))
      ]
    ]
  ]
]
