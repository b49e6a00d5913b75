-- ===== src/Policy/Replay.antt =====
-- internal/policy/simulate.go, `simUint128`, the prefixes of a replay and the window between two of them.
pub mod Exact
use burnban.Prelude.{
  ℕ, ◌+◌, ◌-◌, ◌*◌, ◌%◌, ◌≤◌, ◌<◌, Bool, true, false, not, ◌||◌, ◌&&◌, List, [], ◌∷◌, ltb, leb,
  ◌==◌, if◌then◌else◌,
}
use burnban.Prelude.Int.{ℤ, pos, pos_part, leb_ℤ, ltb_ℤ, max_int64, int64_range}
use burnban.Policy.Types.{TokenKind}
use burnban.Policy.Decision.{token_limit_kind}

pub record SimUint128 : Type 0 where
  pub hi : ℕ
  pub lo : ℕ

-- Both words are uint64.
unfoldable pub add_int64 : SimUint128 → ℤ → SimUint128
add_int64 n value =
    let lo = (n.lo + pos_part value) % int64_range in
    if leb_ℤ value (pos 0)
    then n
    else record { hi = if ltb lo n.lo then (n.hi + 1) % int64_range else n.hi; lo = lo }

unfoldable pub sub : SimUint128 → SimUint128 → SimUint128
sub n other = record {
  hi =
      (n.hi + int64_range + int64_range - other.hi - (if ltb n.lo other.lo then 1 else 0))
      % int64_range;
  lo = (n.lo + int64_range - other.lo) % int64_range;
}

unfoldable pub greater_than_int64 : SimUint128 → ℤ → Bool
greater_than_int64 n value = ltb_ℤ value (pos 0) || not (n.hi == 0) || ltb (pos_part value) n.lo

unfoldable pub clamped_int64 : SimUint128 → ℤ
clamped_int64 n = if not (n.hi == 0) || ltb max_int64 n.lo then pos max_int64 else pos n.lo
