-- ===== src/Connections/Address.antt =====
-- packages/server/src/dynamicConnections.ts: the numbers that an IPv4 literal may be spelled with, and
-- the addresses that are refused. A part of a literal whose number is not exact in a double is far
-- above every bound, here as there.
pub mod Spelling
pub mod RoundTrip
pub mod LinkLocal
use ask_sql.Prelude.{
  ℕ, zero, suc, ◌+◌, ◌-◌, ◌*◌, ◌/◌, ◌%◌, ◌^◌, Bool, true, false, not, ◌&&◌, ◌||◌, Option, none,
  some, List, [], ◌∷◌, ◌++◌, Text, codes, length, drop, text_eq, if◌then◌else◌, ltb, leb, ◌==◌,
  starts_with, to_lower_case, is_decimal, lower_letter,
}
use ask_sql.Sql.Rewrite.{trim}

abbrev pub onto_first : ℕ → List Text → List Text
onto_first c [] = (c ∷ []) ∷ []
onto_first c (w ∷ ws) = (c ∷ w) ∷ ws

-- `text.split(c)` for one code unit
unfoldable pub split : ℕ → Text → List Text
split c [] = [] ∷ []
split c (d ∷ s) = let rest = split c s in if d == c then [] ∷ rest else onto_first d rest

abbrev pub is_hex : ℕ → Bool
is_hex c = is_decimal c || (leb b'a' (lower_letter c) && leb (lower_letter c) b'f')

abbrev pub is_octal : ℕ → Bool
is_octal c = leb b'0' c && leb c b'7'

unfoldable pub every : (ℕ → Bool) → Text → Bool
every p [] = true
every p (c ∷ s) = p c && every p s

-- `/^0[xX][0-9a-fA-F]+$/`, `/^0[0-7]+$/` and `/^[0-9]+$/`
unfoldable pub is_hex_literal : Text → Bool
is_hex_literal (c ∷ x ∷ d ∷ s) = c == b'0' && ((x == b'x' || x == b'X') && every is_hex (d ∷ s))
is_hex_literal _ = false

unfoldable pub is_octal_literal : Text → Bool
is_octal_literal (c ∷ d ∷ s) = c == b'0' && every is_octal (d ∷ s)
is_octal_literal _ = false

unfoldable pub is_decimal_literal : Text → Bool
is_decimal_literal (d ∷ s) = every is_decimal (d ∷ s)
is_decimal_literal [] = false

unfoldable pub digit_value : ℕ → ℕ
digit_value c = if is_decimal c then c - b'0' else lower_letter c - b'a' + 10

-- `Number.parseInt(text, base)` of digits, continued from the value of those before
unfoldable pub parse_int : ℕ → ℕ → Text → ℕ
parse_int base n [] = n
parse_int base n (c ∷ s) = parse_int base (n * base + digit_value c) s

-- The number of one part, none where the text is not an IPv4 literal.
unfoldable pub part_value : Text → Option ℕ
part_value part =
    if is_hex_literal part
    then some (parse_int 16 0 (drop 2 part))
    else if is_octal_literal part
    then some (parse_int 8 0 (drop 1 part))
    else if is_decimal_literal part
    then some (parse_int 10 0 part)
    else none

unfoldable pub part_values : List Text → Option (List ℕ)
part_values [] = some []
part_values (w ∷ ws) = elim (part_value w) [
  | none ↦ none
  | some n ↦ elim (part_values ws) [ none ↦ none | some ns ↦ some (n ∷ ns) ]
]

-- `(last >>> (8 * i)) & 0xff`, for `i` from the given number down to 0
unfoldable pub octets_below : ℕ → ℕ → List ℕ
octets_below zero last = []
octets_below (suc i) last = last / 2 ^ (8 * i) % 256 ∷ octets_below i last

unfoldable pub exceeds_octet : List ℕ → Bool
exceeds_octet [] = false
exceeds_octet (n ∷ ns) = ltb 255 n || exceeds_octet ns

-- The values before the last one, and it; no values are never split.
unfoldable pub pop : List ℕ → List ℕ × ℕ
pop [] = ([], 0)
pop (n ∷ []) = ([], n)
pop (n ∷ m ∷ ns) = let (front, last) = pop (m ∷ ns) in (n ∷ front, last)

-- The last part stands for the octets that are left.
unfoldable pub octets_of : List ℕ → Option (List ℕ)
octets_of values =
    let (front, last) = pop values in
    if leb (2 ^ (8 * (4 - length front))) last
    then none
    else if exceeds_octet front
    then none
    else some (front ++ octets_below (4 - length front) last)

unfoldable pub ipv4_octets : Text → Option (List ℕ)
ipv4_octets text =
    let parts = split b'.' text in
    if ltb 4 (length parts)
    then none
    else elim (part_values parts) [ none ↦ none | some values ↦ octets_of values ]

-- `lower.replace(/^\[|\]$/g, '')`
abbrev pub without_open : Text → Text
without_open [] = []
without_open (c ∷ s) = if c == b'[' then s else c ∷ s

unfoldable pub without_close : Text → Text
without_close [] = []
without_close (c ∷ []) = if c == b']' then [] else c ∷ []
without_close (c ∷ d ∷ s) = c ∷ without_close (d ∷ s)

-- `.` in a regular expression
abbrev pub is_dot : ℕ → Bool
is_dot c = not (c == 10) && (not (c == 13) && (not (c == 0x2028) && not (c == 0x2029)))

-- `/^::ffff:(.+)$/`: what is mapped, or the text itself.
unfoldable pub unmapped : Text → Text
unmapped s =
    let mapped = drop 7 s in
    if starts_with (codes "::ffff:") s && (ltb 0 (length mapped) && every is_dot mapped)
    then mapped
    else s

abbrev pub is_metadata : List ℕ → Bool
is_metadata (a ∷ b ∷ s) = a == 169 && b == 254
is_metadata _ = false

unfoldable pub is_link_local_literal : Text → Bool
is_link_local_literal lower =
    if text_eq lower (codes "::1") || text_eq lower (codes "0:0:0:0:0:0:0:1")
    then false
    else if starts_with (codes "fe80:") lower
    then true
    else elim (ipv4_octets lower) [ none ↦ false | some octets ↦ is_metadata octets ]

unfoldable pub is_link_local : Text → Bool
unfolding is_link_local_literal
is_link_local host =
    let lower = to_lower_case (trim host) in
    if text_eq lower (codes "metadata.google.internal")
    then true
    else is_link_local_literal (unmapped (without_close (without_open lower)))
