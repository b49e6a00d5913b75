-- ===== src/Prelude/Results.antt =====
-- Results that may be an error: the early returns of a Go function, and what a success says of them.
use mathlib.Core.Path.{◌≡◌, refl}
use mathlib.Core.Bool.{Bool, true, false, not, ◌&&◌}
use mathlib.Core.Option.{Option, none, some}

-- `if !test { return error }`, and then the rest.
abbrev pub guard {ℓ} : {A : Type ℓ} → Bool → Option A → Option A
guard true o = o
guard false o = none

-- `x, err := call; if err != nil { return err }`, and then the rest.
abbrev pub chain {ℓ κ} : {A : Type ℓ} {B : Type κ} → Option A → (A → Option B) → Option B
chain none f = none
chain (some a) f = f a

pub guard-some {ℓ} :
    {A : Type ℓ} (b : Bool) (o : Option A) (a : A) → guard b o ≡ some a → (b ≡ true) × (o ≡ some a)
guard-some true o a h = (refl, h)
guard-some false o a h = cc

pub chain-some {ℓ} :
    {A B : Type ℓ} (o : Option A) (f : A → Option B) (b : B)
    → chain o f ≡ some b
    → (a : A) × (o ≡ some a) × (f a ≡ some b)
chain-some none f b h = cc
chain-some (some a) f b h = (a, refl, h)

pub and_true : (a b : Bool) → (a && b) ≡ true → (a ≡ true) × (b ≡ true)
and_true true b h = (refl, h)
and_true false b h = cc

pub not-true : (b : Bool) → not b ≡ true → b ≡ false
not-true true h = cc
not-true false h = refl

pub some_inj {ℓ} : {A : Type ℓ} {a b : A} → some a ≡ some b → a ≡ b
some_inj h = cc
