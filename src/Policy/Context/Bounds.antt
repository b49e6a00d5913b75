-- ===== src/Policy/Context/Bounds.antt =====
-- The estimates of a request, as bounds that admission can rely on.
use burnban.Prelude.{ℕ, ◌+◌, ◌≡◌, if◌then◌else◌, arith}
use burnban.Prelude.Int.{pos, pos_part, add64, sub64, wrap64, ◌+ℤ◌, ◌-ℤ◌, IsInt64}
use burnban.Policy.Types.{Context}
use burnban.Policy.Counters.{clamp}
use burnban.Policy.Context.{estimated_tokens}

-- The declared output bound, if there is one.
abbrev pub declared_output : Context → ℕ
declared_output c = if c.output_bound_present then pos_part c.output_bound else 0

-- For int64 fields the estimate is the exact sum of the input and the declared output, each at least
-- zero, clamped at the largest int64: it never wraps.
pub estimated_tokens_exact :
    (c : Context)
    → IsInt64 c.estimated_input
    → IsInt64 c.output_bound
    → estimated_tokens c ≡ pos (clamp (pos_part c.estimated_input + declared_output c))
unfolding estimated_tokens add64 sub64 wrap64 ◌+ℤ◌ ◌-ℤ◌
estimated_tokens_exact c h k = ground arith
