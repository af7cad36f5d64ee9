-- ===== src/Sql/Policy/Resolved.antt =====
-- What the resolution of a policy guarantees, whatever the caller sent.
use ask_sql.Prelude.{◌≤◌, true, some, [], Text, Bool-cases, Member, ◌≡◌, inl, inr, arith}
use ask_sql.Json.{whole}
use ask_sql.RowCap.{max_row_cap, clamp_max_rows_bounds}
use ask_sql.Mongo.Policy.{spread}
use ask_sql.Sql.Policy.{
  GuardPolicy, PartialGuardPolicy, default_cap, merged, is_read_only, resolve_guard_policy,
}

resolve_guard_policy-merged :
    (partial : PartialGuardPolicy) {policy : GuardPolicy}
    → resolve_guard_policy partial ≡ some policy
    → (is_read_only partial.mode ≡ true) × (merged partial ≡ policy)
unfolding resolve_guard_policy
resolve_guard_policy-merged partial h = elim (Bool-cases (is_read_only partial.mode)) [
  | inl e ↦ (e, cc (rw (e, resolve_guard_policy) at h))
  | inr e ↦ cc (rw (e, resolve_guard_policy) at h)
]

-- A policy that resolves asked for no mode but the read-only one; its row cap is between 1 and
-- 100000 whatever number was sent; and it denies every function that the caller added.
pub resolve_guard_policy-bounds :
    (partial : PartialGuardPolicy) {policy : GuardPolicy}
    → resolve_guard_policy partial ≡ some policy
    → (is_read_only partial.mode ≡ true)
      × (1 ≤ policy.max_rows)
      × (policy.max_rows ≤ max_row_cap)
      × ((f : Text) → Member f (spread [] partial.deny_functions) → Member f policy.deny_functions)
resolve_guard_policy-bounds partial h =
    let (mode, same) = resolve_guard_policy-merged partial h in
    let (low, high) =
      clamp_max_rows_bounds (some (spread (whole default_cap) partial.max_rows)) default_cap
        (omega arith) (omega arith) in
    rw (← same) (mode, low, high, λ f m. m)
