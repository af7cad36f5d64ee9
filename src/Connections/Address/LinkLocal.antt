-- ===== src/Connections/Address/LinkLocal.antt =====
-- `isLinkLocal` knows a metadata address however it is spelled.
use ask_sql.Prelude.{
  ℕ, ◌≤◌, ◌<◌, Bool, true, false, ◌&&◌, ◌||◌, none, some, List, [], ◌∷◌, Text, codes, text_eq,
  text_eq_iff, leb, ◌==◌, ==_iff, &&_true, is_decimal, is_space, skip_space, starts_with,
  to_lower_case, Bool-cases, ◌≡◌, ◌⊎◌, ◌↔◌, refl, inl, inr, ap, arith,
}
use ask_sql.Sql.Rewrite.{trim_end}
use ask_sql.Connections.Address.{
  every, without_open, without_close, unmapped, is_metadata, is_link_local_literal, is_link_local,
  ipv4_octets,
}
use ask_sql.Connections.Address.Spelling.{
  IsDigit, figure, small, capital, IsNumeral, Spells, in_hexadecimal, in_octal, in_decimal, Address,
  last, dot, every-append, IsNumeral-every, Address-to_lower_case,
}
use ask_sql.Connections.Address.RoundTrip.{Groups, ipv4_octets-Groups}

-- What a spelling is made of: digits, the letters up to f, the mark x and dots.
abbrev is_plain : ℕ → Bool
is_plain c =
    is_decimal c
    || ((leb b'a' c && leb c b'f')
        || ((leb b'A' c && leb c b'F') || (c == b'x' || (c == b'X' || c == b'.'))))

IsDigit-is_plain : (base c d : ℕ) → base ≤ 16 → IsDigit base c d → is_plain c ≡ true
IsDigit-is_plain base c d sixteen (figure e ten fits) = ground arith
IsDigit-is_plain base c d sixteen (small e fits) = ground arith
IsDigit-is_plain base c d sixteen (capital e fits) = ground arith

IsNumeral-is_plain :
    {base n : ℕ} {s : Text} → base ≤ 16 → IsNumeral base s n → every is_plain s ≡ true
IsNumeral-is_plain {base} sixteen h =
    IsNumeral-every is_plain (λ c d. IsDigit-is_plain base c d sixteen) h

mark-is_plain : (x : ℕ) → (x ≡ b'x') ⊎ (x ≡ b'X') → is_plain x ≡ true
mark-is_plain x (inl e) = ground arith
mark-is_plain x (inr e) = ground arith

Spells-is_plain : {w : Text} {n : ℕ} → Spells w n → every is_plain w ≡ true
unfolding every
Spells-is_plain (in_hexadecimal {x} mark h) =
    rw (mark-is_plain x mark, IsNumeral-is_plain (omega arith) h) refl
Spells-is_plain (in_octal h) = IsNumeral-is_plain (omega arith) h
Spells-is_plain (in_decimal h alone) = IsNumeral-is_plain (omega arith) h

Address-is_plain : {s : Text} {ns : List ℕ} → Address s ns → every is_plain s ≡ true
unfolding every
Address-is_plain (last h) = Spells-is_plain h
Address-is_plain (dot {w} {s} h rest) =
    every-append is_plain w (b'.' ∷ s) (Spells-is_plain h) (Address-is_plain rest)

is_plain_not_space : (c : ℕ) → is_plain c ≡ true → is_space c ≡ false
unfolding is_space
is_plain_not_space c h = ground arith

skip_space-plain : (s : Text) → every is_plain s ≡ true → skip_space s ≡ s
unfolding skip_space every
skip_space-plain [] h = refl
skip_space-plain (c ∷ s) h =
    let (a, _) = &&_true (is_plain c) (every is_plain s) h in rw (is_plain_not_space c a) refl

trim_end-plain : (s : Text) → every is_plain s ≡ true → trim_end s ≡ s
unfolding trim_end every
trim_end-plain [] h = refl
trim_end-plain (c ∷ []) h =
    let (a, _) = &&_true (is_plain c) true h in rw (is_plain_not_space c a) refl
trim_end-plain (c ∷ d ∷ s) h =
    let (_, b) = &&_true (is_plain c) (every is_plain (d ∷ s)) h in
    rw (trim_end-plain (d ∷ s) b, trim_end) refl

without_open-plain : (s : Text) → every is_plain s ≡ true → without_open s ≡ s
unfolding every
without_open-plain [] h = refl
without_open-plain (c ∷ s) h =
    let (a, _) = &&_true (is_plain c) (every is_plain s) h in
    let other : (c == b'[') ≡ false = ground arith in rw other refl

without_close-plain : (s : Text) → every is_plain s ≡ true → without_close s ≡ s
unfolding without_close every
without_close-plain [] h = refl
without_close-plain (c ∷ []) h =
    let (a, _) = &&_true (is_plain c) true h in
    let other : (c == b']') ≡ false = ground arith in rw other refl
without_close-plain (c ∷ d ∷ s) h =
    let (_, b) = &&_true (is_plain c) (every is_plain (d ∷ s)) h in
    ap (◌∷◌ c) (without_close-plain (d ∷ s) b)

second_false : (x y : Bool) → x ≡ true → (x && y) ≡ false → y ≡ false
second_false x y h k = ground arith

-- What a plain text begins with is plain.
starts_with-plain :
    (t s : Text) → every is_plain s ≡ true → every is_plain t ≡ false → starts_with t s ≡ false
unfolding starts_with every
starts_with-plain [] s h k = cc
starts_with-plain (x ∷ t) [] h k = refl
starts_with-plain (x ∷ t) (c ∷ s) h k = elim (Bool-cases (x == c)) [
  | inr e ↦ rw e refl
  | inl e ↦
      let same = (==_iff x c).0 e in
      let (a, b) = &&_true (is_plain c) (every is_plain s) h in
      let a' : is_plain x ≡ true = rw same a in
      rw e (starts_with-plain t s b (second_false (is_plain x) (every is_plain t) a' k))
]

text_eq-plain :
    (s t : Text) → every is_plain s ≡ true → every is_plain t ≡ false → text_eq s t ≡ false
text_eq-plain s t h k = elim (Bool-cases (text_eq s t)) [
  | inl e ↦ let same = (text_eq_iff s t).0 e in cc (ap (every is_plain) same)
  | inr e ↦ e
]

-- A plain text comes out of the clean-up in lower case.
is_link_local-plain :
    (s : Text)
    → every is_plain s ≡ true
    → every is_plain (to_lower_case s) ≡ true
    → is_link_local s
      ≡ elim (ipv4_octets (to_lower_case s)) [ none ↦ false | some octets ↦ is_metadata octets ]
unfolding is_link_local is_link_local_literal unmapped
is_link_local-plain s h k =
    let lower = to_lower_case s in
    rw
      (
        skip_space-plain s h,
        trim_end-plain s h,
        text_eq-plain lower (codes "metadata.google.internal") k (unfold every in refl),
        without_open-plain lower k,
        without_close-plain lower k,
        starts_with-plain (codes "::ffff:") lower k (unfold every in refl),
        text_eq-plain lower (codes "::1") k (unfold every in refl),
        text_eq-plain lower (codes "0:0:0:0:0:0:0:1") k (unfold every in refl),
        starts_with-plain (codes "fe80:") lower k (unfold every in refl),
      )
      refl

pub is_link_local_iff :
    {a b c d : ℕ} {s : Text} {ns : List ℕ}
    → Address s ns
    → Groups a b c d ns
    → a < 256
    → b < 256
    → c < 256
    → d < 256
    → (is_link_local s ≡ true) ↔ ((a ≡ 169) × (b ≡ 254))
is_link_local_iff {a} {b} {s = s} h g ha hb hc hd =
    let lowered = Address-to_lower_case h in
    rw
      (
        is_link_local-plain s (Address-is_plain h) (Address-is_plain lowered),
        ipv4_octets-Groups lowered g ha hb hc hd,
      )
      (ground arith)
