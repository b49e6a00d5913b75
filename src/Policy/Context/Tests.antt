-- ===== src/Policy/Context/Tests.antt =====
-- Runs of the estimates on concrete inputs.
use burnban.Prelude.{◌*◌, ◌^◌, ◌≡◌, refl, some}
use burnban.Prelude.Int.{pos, negsuc, max_int64}
use burnban.Float.{fin}
use burnban.Policy.Context.{micro_usd_from_usd}

-- 1.5 dollars.
micro_usd_runs : micro_usd_from_usd (fin (pos (3 * 2 ^ 1073))) ≡ some (pos 1500000)
unfolding micro_usd_from_usd
micro_usd_runs = refl

-- The largest amount that the guard lets pass: the product rounds up to 2^63, which no int64 holds.
micro_usd_overflows :
    micro_usd_from_usd (fin (pos (4722366482869645 * 2 ^ 1065))) ≡ some (negsuc max_int64)
unfolding micro_usd_from_usd
micro_usd_overflows = refl
