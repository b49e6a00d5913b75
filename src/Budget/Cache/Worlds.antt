-- ===== src/Budget/Cache/Worlds.antt =====
-- internal/store/store.go: the sequence lock of the request table.
use burnban.Prelude.{◌+◌, ◌%◌, ◌≤◌, ◌<◌, List, ◌∷◌, ◌≡◌, refl, sym, ap, ◌∙◌, subst, arith}
use burnban.Budget.Cache.{LedgerRow, World}

-- A mutation makes the revision odd, changes the rows, and makes it even.
pub data Step : World → World → Type 0 where
  begins : {w : World} → w.revision % 2 ≡ 0 → Step w (record w { revision = w.revision + 1 })
  commits :
      {w : World} (rows : List LedgerRow) → w.revision % 2 ≡ 1 → Step w (record w { rows = rows })
  ends : {w : World} → w.revision % 2 ≡ 1 → Step w (record w { revision = w.revision + 1 })

-- What other goroutines do to the table between two readings.
pub data Evolves (w : World) : World → Type 0 where
  here : Evolves w w
  next : {v x : World} → Evolves w v → Step v x → Evolves w x

pub Evolves-trans : {w v x : World} → Evolves w v → Evolves v x → Evolves w x
Evolves-trans e here = e
Evolves-trans e (next f s) = next (Evolves-trans e f) s

Step-le : {w v : World} → Step w v → w.revision ≤ v.revision
Step-le (begins h) = omega arith
Step-le (commits rows h) = omega arith
Step-le (ends h) = omega arith

pub Evolves-le : {w v : World} → Evolves w v → w.revision ≤ v.revision
Evolves-le here = omega arith
Evolves-le (next e s) = omega (arith, Evolves-le e, Step-le s)

-- From an even revision every step raises it.
Step-lt : {w v : World} → Step w v → w.revision % 2 ≡ 0 → w.revision < v.revision
Step-lt (begins h) e = omega arith
Step-lt (commits rows h) e = absurd (omega arith)
Step-lt (ends h) e = absurd (omega arith)

-- An even revision that has not changed shows that nothing has.
pub Evolves-still :
    {w v : World} → Evolves w v → w.revision % 2 ≡ 0 → v.revision ≡ w.revision → v ≡ w
Evolves-still here h q = refl
Evolves-still {w} (next {v} e s) h q =
    let before = Evolves-le e in
    let after = Step-le s in
    let same : v ≡ w = Evolves-still e h (omega arith) in
    let even : v.revision % 2 ≡ 0 = subst (λ (x : World). x.revision % 2 ≡ 0) (sym same) h in
    absurd (omega (arith, Step-lt s even, ap (λ (x : World). x.revision) same))

-- The table after an insert of one row.
abbrev pub inserted : LedgerRow → World → World
inserted row w = record { revision = w.revision + 2; rows = row ∷ w.rows }

-- Where the revision rises by two round an insert, the insert is all that happened.
pub inserted_alone :
    (row : LedgerRow) {w v x : World}
    → Evolves w v
    → v.revision % 2 ≡ 0
    → Evolves (inserted row v) x
    → w.revision % 2 ≡ 0
    → x.revision ≡ w.revision + 2
    → x ≡ inserted row w
inserted_alone row {w} {v} before e after h q =
    let low = Evolves-le before in
    let high = Evolves-le after in
    let same : v ≡ w = Evolves-still before h (omega arith) in
    Evolves-still after (omega arith) (omega arith) ∙ ap (inserted row) same
