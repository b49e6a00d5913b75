-- ===== src/Policy/Engine/Prepare/Guards.antt =====
-- internal/policy/engine.go, `Prepare`: its guards and the refresh before the judgement.
use burnban.Prelude.{◌≡◌, String, Bool, ◌||◌, Option, arith, Bool-cases, inl, inr, ap}
use burnban.Prelude.Int.{ℤ, pos, ltb_ℤ, ◌≤ℤ◌}
use burnban.Float
use burnban.Float.{fin}
use burnban.Policy.Types.{Context}
use burnban.Policy.Engine.State.{Compiled, Engine}
use burnban.Policy.Engine.Evaluate.{EngineError, ok, err}
use burnban.Store.PolicyDecisions.{Ledger}
use burnban.Policy.Engine.Prepare.{Row, Turn, Prepared, refresh_locked, judge, prepare}

not_err :
    {x : EngineError} {p : Prepared} {e e' : Engine} {db db' : Ledger}
    → ◌≡◌ {A = Turn} (err x, e, db) (ok p, e', db')
    → ⊥
not_err h = cc (ap (λ (t : Turn). t.0) h)

-- A call that returns without an error had estimates that are not negative, and gave the judgement by
-- the refreshed policy.
pub prepare_judges :
    (answers : Bool) (parse : String → Option Compiled) (row : Row) (now : ℤ) (context : Context)
    (e e0 : Engine) (db : Ledger) (p : Prepared) (e' : Engine) (db' : Ledger)
    → refresh_locked parse row e ≡ ok e0
    → prepare answers parse row now context e db ≡ (ok p, e', db')
    → (pos 0 ≤ℤ context.estimated_input)
      × (pos 0 ≤ℤ context.output_bound)
      × (judge answers now context e0.active e0 db ≡ (ok p, e', db'))
unfolding prepare
prepare_judges answers parse row now context e e0 db p e' db' f h =
    elim (Bool-cases
      (Float.is_nan context.estimated_cost_usd || Float.is_inf context.estimated_cost_usd)) [
        | inl x ↦ absurd (not_err (rw x at h))
        | inr x ↦ elim (Bool-cases negative) [
          | inl y ↦ absurd (not_err (rw (x, y) at h))
          | inr y ↦ (ground arith, ground arith, rw (x, y, f) at h)
        ]
      ]
  where
    negative : Bool
    negative =
        ltb_ℤ context.estimated_input (pos 0)
        || ltb_ℤ context.output_bound (pos 0)
        || Float.lt context.estimated_cost_usd (fin (pos 0))
