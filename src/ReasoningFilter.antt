-- ===== src/ReasoningFilter.antt =====
-- packages/core/src/extract.ts: `createReasoningFilter`, which hides the narration of a reasoning model
-- while its reply streams in. The closure's two variables are the state, and a chunk is a step.
pub mod Suffix
mod Tests
use ask_sql.Prelude.{
  ℕ, Bool, true, false, not, ◌&&◌, ◌||◌, Option, none, some, List, [], ◌∷◌, ◌++◌, Text, codes,
  length, ltb, leb, ◌==◌, ◌<|>◌, if◌then◌else◌, begins_with, skip_space, lower_letter,
}
use ask_sql.Regex.{is_nil}
use ask_sql.Sql.Rewrite.{trim}

pub data Phase : Type 0 where
  leading narrating passthrough : Phase

pub record FilterState : Type 0 where
  pub phase : Phase
  pub carry : Text

abbrev pub initial : FilterState
initial = record { phase = leading; carry = [] }

-- The rest behind a tag at the front, whose letters are compared whatever their case.
unfoldable pub behind_tag : Text → Text → Option Text
behind_tag [] s = some s
behind_tag (t ∷ ts) [] = none
behind_tag (t ∷ ts) (c ∷ s) =
    let rest = behind_tag ts s in if lower_letter c == t then rest else none

unfoldable pub behind_any : List Text → Text → Option Text
behind_any [] s = none
behind_any (t ∷ ts) s = behind_tag t s <|> behind_any ts s

-- `OPEN` and `CLOSE`
abbrev pub open_tags : List Text
open_tags = codes "<think>" ∷ codes "<thinking>" ∷ codes "<reasoning>" ∷ []

abbrev pub close_tags : List Text
close_tags = codes "</think>" ∷ codes "</thinking>" ∷ codes "</reasoning>" ∷ []

-- `LONGEST_TAG`
abbrev pub longest_tag : ℕ
longest_tag = 12

-- The first tag: what stands before it and behind it.
unfoldable pub find_tag : List Text → Text → Option (Text × Text)
find_tag tags [] = none
find_tag tags (c ∷ s) =
    let later = find_tag tags s in
    elim (behind_any tags (c ∷ s)) [
      | some rest ↦ some ([], rest)
      | none ↦ elim later [ none ↦ none | some (before, rest) ↦ some (c ∷ before, rest) ]
    ]

-- `buffer.slice(buffer.lastIndexOf('<'))`
unfoldable pub from_last_bracket : Text → Option Text
from_last_bracket [] = none
from_last_bracket (c ∷ s) =
    let later = from_last_bracket s in later <|> (if c == b'<' then some (c ∷ s) else none)

abbrev pub held_back : Option Text → Text
held_back none = []
held_back (some s) = if leb (length s) longest_tag then s else []

-- What a chunk gives in each phase, from the buffer.
unfoldable pub narrate : Text → Text × FilterState
narrate buffer = elim (find_tag close_tags buffer) [
  | none ↦ ([], record { phase = narrating; carry = held_back (from_last_bracket buffer) })
  | some (before, rest) ↦ (rest, record { phase = passthrough; carry = [] })
]

-- An opening tag that may still come.
abbrev pub may_open : Text → Bool
may_open buffer = begins_with b'<' (skip_space buffer) && ltb (length buffer) longest_tag

abbrev pub hold_or_pass : Bool → Text → Text × FilterState
hold_or_pass true buffer = ([], record { phase = leading; carry = buffer })
hold_or_pass false buffer = (buffer, record { phase = passthrough; carry = [] })

abbrev pub lead_in : Option (Text × Text) → Text → Text × FilterState
lead_in none buffer = hold_or_pass (is_nil (trim buffer) || may_open buffer) buffer
lead_in (some (before, rest)) buffer =
    if is_nil (trim before) then narrate rest else hold_or_pass (is_nil (trim buffer)) buffer

unfoldable pub filter_chunk : FilterState → Text → Text × FilterState
filter_chunk s chunk =
    let buffer = s.carry ++ chunk in
    elim s.phase [
      | leading ↦ lead_in (find_tag open_tags buffer) buffer
      | narrating ↦ narrate buffer
      | passthrough ↦ (buffer, record { phase = passthrough; carry = [] })
    ]

-- All chunks of a reply: what has been shown, and the state at the end.
unfoldable pub filter_all : FilterState → List Text → Text × FilterState
filter_all s [] = ([], s)
filter_all s (chunk ∷ chunks) =
    let (shown, t) = filter_chunk s chunk in
    let (rest, u) = filter_all t chunks in (shown ++ rest, u)
