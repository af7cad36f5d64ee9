-- ===== src/Connections/Authority.antt =====
-- How the helpers of `mongoUriHosts` cut a text that is put together from parts.
use ask_sql.Prelude.{
  ℕ, Bool, true, false, ◌||◌, List, [], ◌∷◌, ◌++◌, Text, ◌==◌, All, Member, at_head, further,
  includes, is_space, skip_space, to_lower_case, map, lower_unit, Bool-cases, ◌≡◌, ◌≢◌, refl, inl,
  inr, ap, arith,
}
use ask_sql.Regex.{is_nil}
use ask_sql.Sql.Rewrite.{trim, trim_end}
use ask_sql.Connections.Address.{split}
use ask_sql.Connections.Uri.{before, after_last, not_empty}

-- Text without a stop, and what stands before it.
unfoldable pub IsFree : (ℕ → Bool) → Text → Type 0
IsFree p s = All (λ c. p c ≡ false) s

pub before-IsFree :
    (p : ℕ → Bool) (s t : Text) → IsFree p s → (before p t ≡ []) → before p (s ++ t) ≡ s
unfolding before IsFree
before-IsFree p [] t h e = e
before-IsFree p (c ∷ s) t (h, hs) e = rw (h, before-IsFree p s t hs e) refl

pub IsFree-imp :
    (P : ℕ → Type 0) (p : ℕ → Bool) (f : (c : ℕ) → P c → p c ≡ false) (s : Text)
    → All P s
    → IsFree p s
unfolding IsFree
IsFree-imp P p f [] h = tt
IsFree-imp P p f (c ∷ s) (h, hs) = (f c h, IsFree-imp P p f s hs)

pub IsFree-append : (p : ℕ → Bool) (s t : Text) → IsFree p s → IsFree p t → IsFree p (s ++ t)
unfolding IsFree
IsFree-append p [] t h k = k
IsFree-append p (c ∷ s) t (h, hs) k = (h, IsFree-append p s t hs k)

pub IsFree-cons : (p : ℕ → Bool) (c : ℕ) (s : Text) → p c ≡ false → IsFree p s → IsFree p (c ∷ s)
unfolding IsFree
IsFree-cons p c s h hs = (h, hs)

includes-IsFree : (c : ℕ) (s : Text) → IsFree (λ d. d == c) s → includes c s ≡ false
unfolding includes IsFree
includes-IsFree c [] h = refl
includes-IsFree c (d ∷ s) (h, hs) = rw (h, includes-IsFree c s hs) refl

pub after_last-IsFree : (c : ℕ) (s : Text) → IsFree (λ d. d == c) s → after_last c s ≡ s
unfolding after_last IsFree
after_last-IsFree c [] h = refl
after_last-IsFree c (d ∷ s) (h, hs) = rw (h, includes-IsFree c s hs) refl

includes-append : (c : ℕ) (u s : Text) → includes c (u ++ c ∷ s) ≡ true
unfolding includes
includes-append c [] s = let same : (c == c) ≡ true = ground arith in rw same refl
includes-append c (d ∷ u) s = let rest = includes-append c u s in ground (arith, rest)

pub after_last-append :
    (c : ℕ) (u s : Text) → IsFree (λ d. d == c) s → after_last c (u ++ c ∷ s) ≡ s
unfolding after_last
after_last-append c [] s h =
    let same : (c == c) ≡ true = ground arith in rw same (after_last-IsFree c s h)
after_last-append c (d ∷ u) s h =
    let stop : (d == c || includes c (u ++ c ∷ s)) ≡ true =
      let there = includes-append c u s in ground (arith, there) in
    rw stop (after_last-append c u s h)

-- The first part of a text that is split.
pub split-first :
    (c : ℕ) (w s : Text) → IsFree (λ d. d == c) w → split c (w ++ c ∷ s) ≡ w ∷ split c s
unfolding split IsFree
split-first c [] s h = let same : (c == c) ≡ true = ground arith in rw same refl
split-first c (d ∷ w) s (h, hs) = rw (h, split-first c w s hs) refl

pub split-whole : (c : ℕ) (w : Text) → IsFree (λ d. d == c) w → split c w ≡ w ∷ []
unfolding split IsFree
split-whole c [] h = refl
split-whole c (d ∷ w) (h, hs) = rw (h, split-whole c w hs) refl

skip_space-IsFree : (s : Text) → IsFree is_space s → skip_space s ≡ s
unfolding skip_space IsFree
skip_space-IsFree [] h = refl
skip_space-IsFree (c ∷ s) (h, hs) = rw h refl

trim_end-IsFree : (s : Text) → IsFree is_space s → trim_end s ≡ s
unfolding trim_end IsFree
trim_end-IsFree [] h = refl
trim_end-IsFree (c ∷ []) (h, hs) = rw h refl
trim_end-IsFree (c ∷ d ∷ s) (h, hs) = rw (trim_end-IsFree (d ∷ s) hs, trim_end) refl

pub trim-IsFree : (s : Text) → IsFree is_space s → trim s ≡ s
trim-IsFree s h = rw (skip_space-IsFree s h) (trim_end-IsFree s h)

pub Member-map :
    (f : Text → Text) {w : Text} (ws : List Text) → Member w ws → Member (f w) (map f ws)
Member-map f [] m = elim m [ ]
Member-map f (v ∷ ws) (at_head p) = at_head (ap f p)
Member-map f (v ∷ ws) (further m) = further (Member-map f ws m)

pub Member-not_empty :
    {w : Text} (ws : List Text) → is_nil w ≡ false → Member w ws → Member w (not_empty ws)
unfolding not_empty
Member-not_empty [] h m = elim m [ ]
Member-not_empty (v ∷ ws) h (at_head p) =
    let filled : is_nil v ≡ false = rw p h in rw filled (at_head p)
Member-not_empty (v ∷ ws) h (further m) = elim (Bool-cases (is_nil v)) [
  | inl e ↦ rw e (Member-not_empty ws h m)
  | inr e ↦ rw e (further (Member-not_empty ws h m))
]

is_nil-lower : (c : ℕ) (t : Text) → is_nil (lower_unit c ++ t) ≡ false
is_nil-lower c t = elim (Bool-cases (c == 0x212a)) [
  | inl e ↦ rw e refl
  | inr e ↦ elim (Bool-cases (c == 0x130)) [ inl f ↦ rw (e, f) refl | inr f ↦ rw (e, f) refl ]
]

pub is_nil-to_lower_case : (s : Text) → s ≢ [] → is_nil (to_lower_case s) ≡ false
unfolding to_lower_case
is_nil-to_lower_case [] h = absurd (h refl)
is_nil-to_lower_case (c ∷ s) h = is_nil-lower c (to_lower_case s)
