-- ===== src/ReasoningFilter/Suffix.antt =====
-- What the filter shows is the end of the reply.
use ask_sql.Prelude.{
  Bool, true, false, Option, none, some, List, [], ◌∷◌, ◌++◌, Text, length, leb, ◌==◌, lower_letter,
  Bool-cases, Option-cases, ◌≡◌, refl, sym, ap, ◌∙◌, inl, inr, append_assoc, append-nil,
}
use mathlib.Core.Path
use ask_sql.Regex.{is_nil}
use ask_sql.Sql.Rewrite.{trim}
use ask_sql.ReasoningFilter.{
  Phase, leading, narrating, passthrough, FilterState, initial, behind_tag, behind_any, open_tags,
  close_tags, longest_tag, find_tag, from_last_bracket, held_back, narrate, hold_or_pass, lead_in,
  filter_chunk, filter_all,
}

abbrev EndsIn : Text → Text → Type 0
EndsIn t s = (hidden : Text) × (s ≡ hidden ++ t)

behind_tag-EndsIn : (tag s : Text) {rest : Text} → behind_tag tag s ≡ some rest → EndsIn rest s
unfolding behind_tag
behind_tag-EndsIn [] s h = ([], cc)
behind_tag-EndsIn (t ∷ ts) [] h = cc
behind_tag-EndsIn (t ∷ ts) (c ∷ s) {rest} h = elim (Bool-cases (lower_letter c == t)) [
  | inl e ↦
      let (hidden, split) = behind_tag-EndsIn ts s (rw (e, behind_tag) at h) in
      (c ∷ hidden, ap (λ x. c ∷ x) split)
  | inr e ↦ cc (rw (e, behind_tag) at h)
]

behind_any-EndsIn :
    (tags : List Text) (s : Text) {rest : Text} → behind_any tags s ≡ some rest → EndsIn rest s
unfolding behind_any
behind_any-EndsIn [] s h = cc
behind_any-EndsIn (t ∷ ts) s {rest} h = elim (Option-cases (behind_tag t s)) [
  | inl e ↦ behind_any-EndsIn ts s (rw (e, behind_any) at h)
  | inr (r, e) ↦ behind_tag-EndsIn t s (e ∙ (rw (e, behind_any) at h))
]

find_tag-EndsIn :
    (tags : List Text) (s : Text) {before rest : Text}
    → find_tag tags s ≡ some (before, rest)
    → EndsIn rest s
unfolding find_tag
find_tag-EndsIn tags [] h = cc
find_tag-EndsIn tags (c ∷ s) {before} {rest} h = elim (Option-cases (behind_any tags (c ∷ s))) [
  | inr (r, e) ↦
      let same : r ≡ rest = cc (rw (e, find_tag) at h) in
      behind_any-EndsIn tags (c ∷ s) (e ∙ ap some same)
  | inl e ↦ elim (Option-cases (find_tag tags s)) [
    | inl f ↦ cc (rw (e, f, find_tag) at h)
    | inr ((b, r), f) ↦
        let same : r ≡ rest = cc (rw (e, f, find_tag) at h) in
        let (hidden, split) = find_tag-EndsIn tags s f in
        (c ∷ hidden, ap (λ x. c ∷ x) (split ∙ ap (λ x. hidden ++ x) same))
  ]
]

from_last_bracket-EndsIn : (s : Text) {t : Text} → from_last_bracket s ≡ some t → EndsIn t s
unfolding from_last_bracket
from_last_bracket-EndsIn [] h = cc
from_last_bracket-EndsIn (c ∷ s) {t} h = elim (Option-cases (from_last_bracket s)) [
  | inr (u, e) ↦
      let same : u ≡ t = cc (rw (e, from_last_bracket) at h) in
      let (hidden, split) = from_last_bracket-EndsIn s e in
      (c ∷ hidden, ap (λ x. c ∷ x) (split ∙ ap (λ x. hidden ++ x) same))
  | inl e ↦ elim (Bool-cases (c == b'<')) [
    | inl f ↦ let same : (c ∷ s) ≡ t = cc (rw (e, f, from_last_bracket) at h) in ([], same)
    | inr f ↦ cc (rw (e, f, from_last_bracket) at h)
  ]
]

held_back-EndsIn : (buffer : Text) → EndsIn (held_back (from_last_bracket buffer)) buffer
held_back-EndsIn buffer = elim (Option-cases (from_last_bracket buffer)) [
  | inl e ↦ rw e (buffer, sym (append-nil buffer))
  | inr (t, e) ↦ rw e (elim (Bool-cases (leb (length t) longest_tag)) [
    | inl f ↦ rw f (from_last_bracket-EndsIn buffer e)
    | inr f ↦ rw f (buffer, sym (append-nil buffer))
  ])
]

abbrev passing : FilterState
passing = record { phase = passthrough; carry = [] }

-- What a step makes of the buffer: it hides the front and holds the rest back, or it shows the rest and
-- lets all pass from then on.
data IsStep (buffer : Text) : Text × FilterState → Type 0 where
  hides : (t : FilterState) → EndsIn t.carry buffer → IsStep buffer ([], t)
  shows : (shown : Text) → EndsIn shown buffer → IsStep buffer (shown, passing)

narrate-IsStep : (buffer : Text) → IsStep buffer (narrate buffer)
unfolding narrate
narrate-IsStep buffer = elim (Option-cases (find_tag close_tags buffer)) [
  | inl e ↦ rw (e, narrate) (hides _ (held_back-EndsIn buffer))
  | inr ((before, rest), e) ↦ rw (e, narrate) (shows rest (find_tag-EndsIn close_tags buffer e))
]

hold_or_pass-IsStep : (b : Bool) (buffer : Text) → IsStep buffer (hold_or_pass b buffer)
hold_or_pass-IsStep true buffer = hides _ ([], refl)
hold_or_pass-IsStep false buffer = shows buffer ([], refl)

IsStep-behind : {t s : Text} (r : Text × FilterState) → EndsIn t s → IsStep t r → IsStep s r
IsStep-behind r (front, split) (hides t (hidden, more)) =
    hides t
      (front ++ hidden, split ∙ ap (λ x. front ++ x) more ∙ sym (append_assoc front hidden t.carry))
IsStep-behind r (front, split) (shows shown (hidden, more)) =
    shows shown
      (front ++ hidden, split ∙ ap (λ x. front ++ x) more ∙ sym (append_assoc front hidden shown))

lead_in-IsStep :
    (o : Option (Text × Text)) (buffer : Text)
    → find_tag open_tags buffer ≡ o
    → IsStep buffer (lead_in o buffer)
lead_in-IsStep none buffer e = hold_or_pass-IsStep _ buffer
lead_in-IsStep (some (before, rest)) buffer e = elim (Bool-cases (is_nil (trim before))) [
  | inl f ↦
      rw f (IsStep-behind (narrate rest) (find_tag-EndsIn open_tags buffer e) (narrate-IsStep rest))
  | inr f ↦ rw f (hold_or_pass-IsStep _ buffer)
]

filter_chunk-IsStep :
    (s : FilterState) (chunk : Text) → IsStep (s.carry ++ chunk) (filter_chunk s chunk)
unfolding filter_chunk
filter_chunk-IsStep s chunk = by_phase s.phase
  where
    buffer : Text
    buffer = s.carry ++ chunk

    by_phase :
        (p : Phase)
        → IsStep buffer (elim p as (λ q. Text × FilterState) [
          | leading ↦ lead_in (find_tag open_tags buffer) buffer
          | narrating ↦ narrate buffer
          | passthrough ↦ (buffer, passing)
        ])
    by_phase leading = lead_in-IsStep (find_tag open_tags buffer) buffer refl
    by_phase narrating = narrate-IsStep buffer
    by_phase passthrough = shows buffer ([], refl)

unfoldable pub joined : List Text → Text
joined [] = []
joined (chunk ∷ chunks) = chunk ++ joined chunks

filter_all-passing : (chunks : List Text) → filter_all passing chunks ≡ (joined chunks, passing)
unfolding filter_all filter_chunk joined
filter_all-passing [] = refl
filter_all-passing (chunk ∷ chunks) = rw (filter_all-passing chunks) refl

-- After a step, whatever is left of the chunks.
filter_rest-EndsIn :
    (buffer : Text) (r : Text × FilterState) (chunks : List Text)
    → IsStep buffer r
    → EndsIn
        ((filter_all r.1 chunks).0 ++ (filter_all r.1 chunks).1.carry)
        (r.1.carry ++ joined chunks)
    → EndsIn
        (r.0 ++ (filter_all r.1 chunks).0 ++ (filter_all r.1 chunks).1.carry)
        (buffer ++ joined chunks)
filter_rest-EndsIn buffer r chunks (hides t (hidden, split)) (more, rest) = (
  hidden ++ more,
  ap (λ x. x ++ joined chunks) split
      ∙ append_assoc hidden t.carry (joined chunks)
      ∙ ap (λ x. hidden ++ x) rest
      ∙ sym (append_assoc hidden more _),
)
filter_rest-EndsIn buffer r chunks (shows shown (hidden, split)) rest =
    rw (filter_all-passing chunks) (
      hidden,
      ap (λ x. x ++ joined chunks) split
          ∙ append_assoc hidden shown (joined chunks)
          ∙ ap (λ x. hidden ++ x) (sym (append-nil (shown ++ joined chunks))),
    )

filter_all-EndsIn :
    (s : FilterState) (chunks : List Text)
    → EndsIn ((filter_all s chunks).0 ++ (filter_all s chunks).1.carry) (s.carry ++ joined chunks)
unfolding filter_all joined
filter_all-EndsIn s [] = ([], append-nil s.carry)
filter_all-EndsIn s (chunk ∷ chunks) =
    let r = filter_chunk s chunk in
    Path.subst (EndsIn _) (append_assoc s.carry chunk (joined chunks)) (
      filter_rest-EndsIn (s.carry ++ chunk) r chunks (filter_chunk-IsStep s chunk)
        (filter_all-EndsIn r.1 chunks))

-- Whatever the chunks of a reply are, what has been shown of it and what is held back are together the
-- end of what has come: the filter hides nothing behind the first shown character, and adds nothing.
pub filter_all-shown :
    (chunks : List Text)
    → (hidden : Text) × (joined chunks
        ≡ hidden ++ ((filter_all initial chunks).0 ++ (filter_all initial chunks).1.carry))
filter_all-shown chunks = filter_all-EndsIn initial chunks
