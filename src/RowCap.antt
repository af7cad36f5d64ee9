-- ===== src/RowCap.antt =====
-- packages/core/src/row-cap.ts: the clamp that both guards put on a requested row cap.
use ask_sql.Prelude.{
  ℕ, suc, ◌/◌, ◌≤◌, min, Bool, true, false, ◌&&◌, Option, none, some, if◌then◌else◌, leb, ◌≡◌,
  arith,
}
use ask_sql.Json.{Num, ratio}

abbrev pub max_row_cap : ℕ
max_row_cap = 100_000

-- `Number.isFinite`
abbrev is_finite : Num → Bool
is_finite (ratio negative m d) = true
is_finite _ = false

-- `x >= 1` on a finite number
abbrev at_least_one : Num → Bool
at_least_one (ratio false m d) = leb (suc d) m
at_least_one _ = false

-- `Math.floor` on a finite number that is at least 1
abbrev floor : Num → ℕ
floor (ratio negative m d) = m / suc d
floor _ = 0

unfoldable pub clamp_max_rows : Option Num → ℕ → ℕ
clamp_max_rows none fallback = fallback
clamp_max_rows (some requested) fallback =
    if is_finite requested && at_least_one requested
    then min (floor requested) max_row_cap
    else fallback

-- With a fallback in range the cap is a positive integer and at most `max_row_cap`, whatever number
-- was requested, NaN, an infinity, a fraction and a negative number included.
pub clamp_max_rows_bounds :
    (requested : Option Num) (fallback : ℕ)
    → 1 ≤ fallback
    → fallback ≤ max_row_cap
    → (1 ≤ clamp_max_rows requested fallback) × (clamp_max_rows requested fallback ≤ max_row_cap)
unfolding clamp_max_rows
clamp_max_rows_bounds none fallback low high = (low, high)
clamp_max_rows_bounds (some requested) fallback low high = ground arith

-- A requested whole number in range is the cap itself.
pub clamp_max_rows_whole :
    (n fallback : ℕ)
    → 1 ≤ n
    → n ≤ max_row_cap
    → clamp_max_rows (some (ratio false n 0)) fallback ≡ n
unfolding clamp_max_rows
clamp_max_rows_whole n fallback low high = ground arith
