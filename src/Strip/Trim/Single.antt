-- ===== src/Strip/Trim/Single.antt =====
-- What `hasMultipleStatements` finds: a separator before the trailing noise.
use ask_sql.Prelude.{
  ℕ, zero, suc, ◌-◌, ◌+◌, ◌≤◌, ◌<◌, Bool, true, false, ◌&&◌, [], ◌∷◌, ◌++◌, Text, length, take,
  drop, get_elem?, leb, ◌==◌, begins_with, Bool-cases, ==_iff, ◌≡◌, refl, ap, ◌↔◌, inl, inr, arith,
}
use ask_sql.Strip.Trim.{is_noise, is_noise_at, end_from, has_separator, has_multiple_statements}

abbrev pub all_noise : Text → Bool
all_noise [] = true
all_noise (c ∷ s) = is_noise c && all_noise s

-- One statement, behind which only separators and whitespace stand.
abbrev pub IsSingle : Text → Type 0
IsSingle s =
    (begins_with b';' s ≡ false)
    × ((body tail : Text) × (s ≡ body ++ tail)
        × (has_separator body ≡ false)
        × (all_noise tail ≡ true))

end_from-bound : (k : ℕ) (s : Text) → end_from k s ≤ k
unfolding end_from
end_from-bound zero s = omega arith
end_from-bound (suc k) s = elim (Bool-cases (is_noise_at (get_elem? s k))) [
  | inl e ↦ rw e (omega (arith, end_from-bound k s))
  | inr e ↦ rw e (omega arith)
]

end_from-noise :
    (k : ℕ) (s : Text) (i : ℕ) → end_from k s ≤ i → i < k → is_noise_at (get_elem? s i) ≡ true
unfolding end_from
end_from-noise zero s i lo hi = absurd (omega arith)
end_from-noise (suc k) s i lo hi = elim (Bool-cases (is_noise_at (get_elem? s k))) [
  | inr e ↦ let q : suc k ≤ i = rw e at lo in absurd (omega arith)
  | inl e ↦
      let q : end_from k s ≤ i = rw e at lo in
      elim (Bool-cases (i == k)) [
        | inl same ↦ let p : i ≡ k = (==_iff i k).0 same in rw p e
        | inr other ↦ end_from-noise k s i q (grind (arith, ==_iff))
      ]
]

end_from-last :
    (k : ℕ) (s : Text) {j : ℕ} → end_from k s ≡ suc j → is_noise_at (get_elem? s j) ≡ false
unfolding end_from
end_from-last zero s h = absurd (omega arith)
end_from-last (suc k) s {j} h = elim (Bool-cases (is_noise_at (get_elem? s k))) [
  | inl e ↦ end_from-last k s (rw e at h)
  | inr e ↦ let q : suc k ≡ suc j = rw e at h in let p : k ≡ j = omega arith in rw (← p) e
]

drop-all_noise :
    (n : ℕ) (s : Text)
    → ((i : ℕ) → n ≤ i → i < length s → is_noise_at (get_elem? s i) ≡ true)
    → all_noise (drop n s) ≡ true
drop-all_noise zero [] h = refl
drop-all_noise zero (c ∷ s) h =
    let here : is_noise c ≡ true = h 0 (omega arith) (omega arith) in
    let rest = drop-all_noise zero s (λ i lo hi. h (suc i) (omega arith) (omega arith)) in
    rw (here, rest) refl
drop-all_noise (suc n) [] h = refl
drop-all_noise (suc n) (c ∷ s) h =
    drop-all_noise n s (λ i lo hi. h (suc i) (omega arith) (omega arith))

take-drop : (n : ℕ) (s : Text) → s ≡ take n s ++ drop n s
take-drop zero s = refl
take-drop (suc n) [] = refl
take-drop (suc n) (c ∷ s) = ap (◌∷◌ c) (take-drop n s)

tail-noise :
    (body tail : Text) (j : ℕ)
    → all_noise tail ≡ true
    → length body ≤ j
    → j < length (body ++ tail)
    → is_noise_at (get_elem? (body ++ tail) j) ≡ true
tail-noise [] [] j h lo hi = absurd (omega arith)
tail-noise [] (c ∷ tail) zero h lo hi = ground arith
tail-noise [] (c ∷ tail) (suc j) h lo hi =
    tail-noise [] tail j (ground arith) (omega arith) (omega arith)
tail-noise (c ∷ body) tail zero h lo hi = absurd (omega arith)
tail-noise (c ∷ body) tail (suc j) h lo hi = tail-noise body tail j h (omega arith) (omega arith)

take-has_separator :
    (n : ℕ) (body tail : Text)
    → n ≤ length body
    → has_separator body ≡ false
    → has_separator (take n (body ++ tail)) ≡ false
unfolding has_separator
take-has_separator zero body tail h k = refl
take-has_separator (suc n) [] tail h k = absurd (omega arith)
take-has_separator (suc n) (c ∷ body) tail h k =
    let rest = take-has_separator n body tail (omega arith) (ground arith) in ground (arith, rest)

take-begins :
    (n : ℕ) (s : Text) → has_separator (take (suc n) s) ≡ false → begins_with b';' s ≡ false
unfolding has_separator
take-begins n [] h = refl
take-begins n (c ∷ s) h = ground arith

begins-take : (s : Text) → begins_with b';' s ≡ false → has_separator (take 1 s) ≡ false
unfolding has_separator
begins-take [] h = refl
begins-take (c ∷ s) h = ground arith

take-has_separator_le :
    (a b : ℕ) (s : Text)
    → a ≤ b
    → has_separator (take b s) ≡ false
    → has_separator (take a s) ≡ false
unfolding has_separator
take-has_separator_le zero b s le h = refl
take-has_separator_le (suc a) zero s le h = absurd (omega arith)
take-has_separator_le (suc a) (suc b) [] le h = refl
take-has_separator_le (suc a) (suc b) (c ∷ s) le h =
    let rest = take-has_separator_le a b s (omega arith) (ground arith) in ground (arith, rest)

searched_suc : (n : ℕ) → n - 1 + 1 ≡ suc (n - 1)
searched_suc n = omega arith

-- No end of the backward loop lies in the trailing noise.
searched-has_separator :
    (body tail : Text) (e : ℕ)
    → end_from (length (body ++ tail)) (body ++ tail) ≡ e
    → begins_with b';' (body ++ tail) ≡ false
    → has_separator body ≡ false
    → all_noise tail ≡ true
    → has_separator (take (e - 1 + 1) (body ++ tail)) ≡ false
searched-has_separator body tail zero h first hb ht = begins-take (body ++ tail) first
searched-has_separator body tail (suc j) h first hb ht =
    let s = body ++ tail in
    let bound : suc j ≤ length s = rw (← h) (end_from-bound (length s) s) in
    let is_end = end_from-last (length s) s h in
    let le : suc j ≤ length body = elim (Bool-cases (leb (length body) j)) [
      | inl in_tail ↦ let noise = tail-noise body tail j ht (ground arith) bound in cc
      | inr before ↦ ground arith
    ] in
    let same : suc j - 1 + 1 ≡ suc j = omega arith in
    rw same (take-has_separator (suc j) body tail le hb)

-- A text has no further statement exactly where it is one statement with trailing noise and does
-- not begin with a separator: the code's `lastIndexOf` looks at the first character even where
-- nothing but noise is left.
pub has_multiple_statements_iff : (s : Text) → (has_multiple_statements s ≡ false) ↔ IsSingle s
unfolding has_multiple_statements
has_multiple_statements_iff s =
    let n = end_from (length s) s in
    (
      λ h.
          let g : has_separator (take (suc (n - 1)) s) ≡ false = rw (← searched_suc n) h in
          (
            take-begins (n - 1) s g,
            (
              take n s,
              drop n s,
              take-drop n s,
              take-has_separator_le n (suc (n - 1)) s (omega arith) g,
              drop-all_noise n s (λ i lo hi. end_from-noise (length s) s i lo hi),
            ),
          ),
      λ (first, (body, tail, split, hb, ht)).
          let whole = searched-has_separator body tail _ refl (rw (← split) first) hb ht in
          rw split whole,
    )
