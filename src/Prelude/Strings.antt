-- ===== src/Prelude/Strings.antt =====
-- JavaScript strings as lists of UTF-16 code units, and the sets of strings that the code tests.
use Prim.Native.Nat.{ℕ, ◌+◌}
use Prim.Native.Char.{code}
use Prim.Native.String.{String}
use mathlib.Core.Path.{◌≡◌}
use mathlib.Core.Logic.{◌↔◌, inl, inr}
use mathlib.Core.Bool.{Bool, true, false, ◌&&◌, ◌||◌}
use mathlib.Core.List.{List, [], ◌∷◌, ◌++◌}
use native.Mathlib.Omega.{arith}
use ask_sql.Prelude.Lists.{Member, at_head, further}
use ask_sql.Prelude.Tests.{◌==◌, leb, if◌then◌else◌, Bool-cases}

abbrev pub Text : Type 0
Text = List ℕ

-- The code units of a literal, which is ASCII wherever it is used.
abbrev pub codes : String → Text
codes String.[] = []
codes (String.◌∷◌ c s) = code c ∷ codes s

-- `===` on strings
unfoldable pub text_eq : Text → Text → Bool
text_eq [] [] = true
text_eq (x ∷ xs) (y ∷ ys) = x == y && text_eq xs ys
text_eq _ _ = false

pub text_eq_iff : (a b : Text) → (text_eq a b ≡ true) ↔ (a ≡ b)
unfolding text_eq
text_eq_iff [] [] = ground arith
text_eq_iff (x ∷ xs) (y ∷ ys) = ground (arith, text_eq_iff xs ys)
text_eq_iff [] (y ∷ ys) = ground arith
text_eq_iff (x ∷ xs) [] = ground arith

-- `Set.prototype.has`
unfoldable pub has : List Text → Text → Bool
has [] k = false
has (w ∷ ws) k = text_eq w k || has ws k

pub has→Member : (ws : List Text) (k : Text) → has ws k ≡ true → Member k ws
unfolding has
has→Member [] k h = cc
has→Member (w ∷ ws) k h = elim (Bool-cases (text_eq w k)) [
  | inl same ↦ at_head ((text_eq_iff w k).0 same)
  | inr other ↦ further (has→Member ws k (ground arith))
]

-- `/\s/` on one code unit
unfoldable pub is_space : ℕ → Bool
is_space c =
    (leb 9 c && leb c 13)
    || c == 32
    || c == 160
    || c == 0x1680
    || (leb 0x2000 c && leb c 0x200a)
    || c == 0x2028
    || c == 0x2029
    || c == 0x202f
    || c == 0x205f
    || c == 0x3000
    || c == 0xfeff

-- `/[A-Za-z]/`, `/[0-9]/` and `/\w/` on one code unit
abbrev pub is_letter : ℕ → Bool
is_letter c = (leb b'a' c && leb c b'z') || (leb b'A' c && leb c b'Z')

abbrev pub is_decimal : ℕ → Bool
is_decimal c = leb b'0' c && leb c b'9'

abbrev pub is_word : ℕ → Bool
is_word c = is_letter c || is_decimal c || c == b'_'

-- The text behind its leading whitespace.
unfoldable pub skip_space : Text → Text
skip_space [] = []
skip_space (c ∷ s) = if is_space c then skip_space s else c ∷ s

-- `text[0] === c`, where the text may be empty
abbrev pub begins_with : ℕ → Text → Bool
begins_with c [] = false
begins_with c (d ∷ s) = d == c

pub Member→has : {k : Text} {ws : List Text} → Member k ws → has ws k ≡ true
unfolding has
Member→has {k} (at_head {w} e) = let h = (text_eq_iff w k).1 e in rw h
Member→has {k} (further {w} m) = let h = Member→has m in ground arith

-- `s.startsWith(t)`
unfoldable pub starts_with : Text → Text → Bool
starts_with [] s = true
starts_with (t ∷ ts) [] = false
starts_with (t ∷ ts) (c ∷ s) = t == c && starts_with ts s

-- `s.endsWith(t)`
unfoldable pub ends_with : Text → Text → Bool
ends_with t [] = text_eq t []
ends_with t (c ∷ s) = text_eq t (c ∷ s) || ends_with t s

-- `s.includes(c)` for one code unit
unfoldable pub includes : ℕ → Text → Bool
includes c [] = false
includes c (d ∷ s) = d == c || includes c s

-- The ASCII letter in lower case, as a regular expression with the flag `i` compares it.
abbrev pub lower_letter : ℕ → ℕ
lower_letter c = if leb b'A' c && leb c b'Z' then c + 32 else c

-- `toLowerCase`, as far as ASCII can see it: the capital letters, the Kelvin sign and the dotted
-- capital I are the code units whose lower case holds an ASCII letter. Other letters, whose lower
-- case is outside ASCII like themselves, are left as they are.
abbrev pub lower_unit : ℕ → Text
lower_unit c =
    if c == 0x212a then b'k' ∷ [] else if c == 0x130 then b'i' ∷ 0x307 ∷ [] else lower_letter c ∷ []

unfoldable pub to_lower_case : Text → Text
to_lower_case [] = []
to_lower_case (c ∷ s) = lower_unit c ++ to_lower_case s
