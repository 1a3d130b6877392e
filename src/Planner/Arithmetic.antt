-- ===== src/Planner/Arithmetic.antt =====
-- The 32-bit arithmetic of the planner: `segment_soft_limit` and `append_token_estimate`.
use attemory.Base.{◌-◌, ◌/◌, ◌+◌, ◌*◌, ℕ, ◌≤◌, ◌<◌, ◌≡◌, arith, ltb, if◌then◌else◌}
use attemory.Base.Int.{pos, ◌+ℤ◌, ◌-ℤ◌, ◌≤ℤ◌, ◌<ℤ◌, wrap}
use attemory.Core.{Core}
use attemory.Planner.{segment_soft_limit, append_token_estimate}

-- For a context of 1 to 25264513 tokens the soft limit is 85 percent of it, rounded down, or 1
-- where that is 0; so it is at least 1 and at most the context.
segment_soft_limit_lem :
    (core : Core) (n : ℕ)
    → core.context_length ≡ pos n
    → 0 < n
    → n ≤ 25264513
    → (segment_soft_limit core ≡ pos (if ltb n 2 then 1 else n * 85 / 100))
      × (pos 1 ≤ℤ segment_soft_limit core)
      × (segment_soft_limit core ≤ℤ core.context_length)
unfolding segment_soft_limit
segment_soft_limit_lem core n e positive fits = rw e (ground arith, ground arith, ground arith)

-- The product with 85 leaves 32 bits for every context of 25264514 to 50529027 tokens, and the
-- soft limit is then 1.
pub segment_soft_limit_overflow :
    (core : Core) (n : ℕ)
    → core.context_length ≡ pos n
    → 25264513 < n
    → n ≤ 50529027
    → segment_soft_limit core ≡ pos 1
unfolding segment_soft_limit
segment_soft_limit_overflow core n e large fits = rw e (ground arith)

-- With counts that are not negative, and a difference of the two counts at most 2147483643, the
-- estimate is the current count, plus the difference but at least 1, plus 4, cut at the largest
-- 32-bit integer.
pub append_token_estimate_lem :
    (current empty single : ℕ)
    → current ≤ 2147483647
    → empty ≤ 2147483647
    → single ≤ 2147483647
    → single ≤ empty + 2147483643
    → append_token_estimate (pos current) (pos empty) (pos single) ≡ (
        let total = current + (if ltb (empty + 1) single then single - empty else 1) + 4 in
        pos (if ltb 2147483647 total then 2147483647 else total))
unfolding append_token_estimate ◌+ℤ◌ ◌-ℤ◌ wrap
append_token_estimate_lem current empty single hc he hs hd = ground arith

-- Where the difference is larger, the margin of 4 is added in 32 bits before the sum is widened,
-- and the estimate falls below the current count.
pub append_token_estimate_overflow :
    (current empty single : ℕ)
    → current ≤ 2147483647
    → empty + 2147483643 < single
    → single ≤ 2147483647
    → append_token_estimate (pos current) (pos empty) (pos single) <ℤ pos current
unfolding append_token_estimate ◌+ℤ◌ ◌-ℤ◌ wrap
append_token_estimate_overflow current empty single hc hd hs = ground arith
