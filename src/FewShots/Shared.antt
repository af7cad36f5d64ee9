-- ===== src/FewShots/Shared.antt =====
-- What `overlap` counts: the words that two questions share, each once.
use ask_sql.Prelude.{
  ℕ, suc, ◌<◌, true, false, not, ◌&&◌, List, [], ◌∷◌, Text, length, has, has→Member, Member→has,
  Member, at_head, further, All, if◌then◌else◌, Bool-cases, ◌≡◌, ◌↔◌, ◌⊎◌, refl, sym, inl, inr, ap,
  arith,
}
use mathlib.Core.Path
use ask_sql.FewShots.{FewShotExample, is_term, new_terms, terms, overlap}

abbrev pub IsUnrepeated : List Text → Type 0
IsUnrepeated [] = Unit
IsUnrepeated (w ∷ ws) = (Member w ws → ⊥) × IsUnrepeated ws

-- A question and an example share so many words: a list without repeats holds exactly those that both
-- have, and is so long.
abbrev pub Shares : Text → FewShotExample → ℕ → Type 0
Shares question e n =
    (shared : List Text) × IsUnrepeated shared
    × ((w : Text) → Member w shared ↔ (Member w (terms question) × Member w (terms e.question)))
    × (length shared ≡ n)

All-Member : (P : Text → Type 0) {w : Text} (ws : List Text) → All P ws → Member w ws → P w
All-Member P [] h m = elim m [ ]
All-Member P (v ∷ ws) h (at_head p) = Path.subst P p h.0
All-Member P (v ∷ ws) h (further m) = All-Member P ws h.1 m

All-imp : (P Q : Text → Type 0) (f : (w : Text) → P w → Q w) (ws : List Text) → All P ws → All Q ws
All-imp P Q f [] h = tt
All-imp P Q f (w ∷ ws) h = (f w h.0, All-imp P Q f ws h.1)

has-false : (w v : Text) (seen : List Text) → has (w ∷ seen) v ≡ false → has seen v ≡ false
unfolding has
has-false w v seen h = ground arith

-- The words of a text are new ones.
new_terms-fresh : (seen ws : List Text) → All (λ v. has seen v ≡ false) (new_terms seen ws)
unfolding new_terms
new_terms-fresh seen [] = tt
new_terms-fresh seen (w ∷ ws) = elim (Bool-cases (is_term w && not (has seen w))) [
  | inr e ↦ rw (e, new_terms) (new_terms-fresh seen ws)
  | inl e ↦
      let fresh : has seen w ≡ false = ground arith in
      rw (e, new_terms)
        (
          fresh,
          All-imp _ _ (λ v h. has-false w v seen h) (new_terms (w ∷ seen) ws)
              (new_terms-fresh (w ∷ seen) ws),
        )
]

new_terms-IsUnrepeated : (seen ws : List Text) → IsUnrepeated (new_terms seen ws)
unfolding new_terms
new_terms-IsUnrepeated seen [] = tt
new_terms-IsUnrepeated seen (w ∷ ws) = elim (Bool-cases (is_term w && not (has seen w))) [
  | inr e ↦ rw (e, new_terms) (new_terms-IsUnrepeated seen ws)
  | inl e ↦
      rw (e, new_terms)
        (
          λ m.
              let later : has (w ∷ seen) w ≡ false =
                All-Member (λ v. has (w ∷ seen) v ≡ false) (new_terms (w ∷ seen) ws)
                  (new_terms-fresh (w ∷ seen) ws) m in
              let there : has (w ∷ seen) w ≡ true = Member→has (at_head refl) in cc,
          new_terms-IsUnrepeated (w ∷ seen) ws,
        )
]

-- The words of the one list that the other has.
abbrev both : List Text → List Text → List Text
both [] b = []
both (t ∷ ts) b = if has b t then t ∷ both ts b else both ts b

overlap-length : (ts b : List Text) → overlap ts b ≡ length (both ts b)
unfolding overlap
overlap-length [] b = refl
overlap-length (t ∷ ts) b = elim (Bool-cases (has b t)) [
  | inl e ↦ rw (e, overlap, length) (ap suc (overlap-length ts b))
  | inr e ↦ rw (e, overlap, length) (overlap-length ts b)
]

both-Member : {w : Text} (ts b : List Text) → Member w (both ts b) → Member w ts × Member w b
both-Member [] b m = elim m [ ]
both-Member {w} (t ∷ ts) b m = elim (Bool-cases (has b t)) [
  | inr e ↦ let (there, and_there) = both-Member ts b (rw e at m) in (further there, and_there)
  | inl e ↦ elim (Member-head (rw e at m)) [
    | inl p ↦ (at_head p, Path.subst (λ x. Member x b) p (has→Member b t e))
    | inr n ↦ let (there, and_there) = both-Member ts b n in (further there, and_there)
  ]
]
  where
    Member-head : {x w : Text} {ws : List Text} → Member x (w ∷ ws) → (w ≡ x) ⊎ Member x ws
    Member-head (at_head p) = inl p
    Member-head (further m) = inr m

Member-both : {w : Text} (ts b : List Text) → Member w ts → Member w b → Member w (both ts b)
Member-both [] b m n = elim m [ ]
Member-both {w} (t ∷ ts) b (at_head p) n =
    let there : has b t ≡ true = rw p (Member→has n) in rw there (at_head p)
Member-both (t ∷ ts) b (further m) n = elim (Bool-cases (has b t)) [
  | inl e ↦ rw e (further (Member-both ts b m n))
  | inr e ↦ rw e (Member-both ts b m n)
]

both-IsUnrepeated : (ts b : List Text) → IsUnrepeated ts → IsUnrepeated (both ts b)
both-IsUnrepeated [] b h = tt
both-IsUnrepeated (t ∷ ts) b (h, hs) = elim (Bool-cases (has b t)) [
  | inl e ↦ rw e (λ m. h (both-Member ts b m).0, both-IsUnrepeated ts b hs)
  | inr e ↦ rw e (both-IsUnrepeated ts b hs)
]

pub overlap-Shares :
    (question : Text) (e : FewShotExample)
    → Shares question e (overlap (terms question) (terms e.question))
unfolding terms
overlap-Shares question e =
    let ts = terms question in
    let us = terms e.question in
    (
      both ts us,
      both-IsUnrepeated ts us (new_terms-IsUnrepeated [] _),
      λ w. (λ m. both-Member ts us m, λ m. Member-both ts us m.0 m.1),
      sym (overlap-length ts us),
    )

-- The overlap is positive where a word is shared.
pub overlap-Member :
    (ts b : List Text) → (0 < overlap ts b) ↔ ((w : Text) × Member w ts × Member w b)
overlap-Member ts b = (
  λ h. some_word ts b (rw (overlap-length ts b) at h),
  λ m. rw (overlap-length ts b) (positive (both ts b) (Member-both ts b m.1 m.2)),
)
  where
    positive : {w : Text} (ws : List Text) → Member w ws → 0 < length ws
    positive [] m = elim m [ ]
    positive (w ∷ ws) m = omega arith

    first : (ws : List Text) → 0 < length ws → (w : Text) × Member w ws
    first [] h = absurd (omega arith)
    first (w ∷ ws) h = (w, at_head refl)

    some_word : (ts b : List Text) → 0 < length (both ts b) → (w : Text) × Member w ts × Member w b
    some_word ts b h =
        let (w, m) = first (both ts b) h in
        let (here, there) = both-Member ts b m in (w, here, there)
