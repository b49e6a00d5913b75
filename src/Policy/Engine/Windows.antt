-- ===== src/Policy/Engine/Windows.antt =====
-- internal/policy/engine.go, `windowStart`: where a window that holds the present begins.
use native.Mathlib.Nat.{mod-lt, div-add-mod}
use burnban.Prelude.{ℕ, ◌+◌, ◌-◌, ◌*◌, ◌/◌, ◌%◌, ◌≤◌, ◌<◌, ◌≡◌, sym, ap, subst, ◌∙◌, arith}
use burnban.Prelude.Int.{pos, ◌≤ℤ◌, ◌<ℤ◌, ◌+ℤ◌, ◌-ℤ◌}
use burnban.Policy.Types.{fixed}
use burnban.Policy.Engine.State.{window_start, remainder}

minus : (n r : ℕ) → r ≤ n → pos n -ℤ pos r ≡ pos (n - r)
unfolding ◌-ℤ◌
minus n r h = ground arith

holds : (n r d : ℕ) → r ≤ n → r < d → (pos (n - r) ≤ℤ pos n) × (pos n <ℤ pos (n - r) +ℤ pos d)
unfolding ◌+ℤ◌
holds n r d h k = ground arith

-- From 1970 on, a fixed window begins at the last multiple of its duration that is not after now, and
-- ends after now: consecutive windows share no instant and leave none out.
pub window_start-fixed :
    (now duration : ℕ)
    → 0 < duration
    → let start = window_start (pos now) (pos duration) fixed in
      (start ≡ pos (duration * (now / duration)))
      × (start ≤ℤ pos now)
      × (pos now <ℤ start +ℤ pos duration)
unfolding window_start remainder
window_start-fixed now duration h =
    let r = now % duration in
    let below : r < duration = mod-lt now h in
    let whole : duration * (now / duration) + r ≡ now = div-add-mod now duration in
    let small : r ≤ now = omega (arith, whole) in
    let q = minus now r small in
    let (before, after) = holds now r duration small below in
    (
      q ∙ ap pos (omega (arith, whole)),
      subst (λ s. s ≤ℤ pos now) (sym q) before,
      subst (λ s. pos now <ℤ s +ℤ pos duration) (sym q) after,
    )
