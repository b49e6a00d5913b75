-- ===== src/Policy/Scope/Applies.antt =====
-- Tests of all the dimensions of a request.
use burnban.Prelude.{Bool, true, ◌≡◌, List, [], ◌∷◌, all, arith, refl, ap, fun_ext}
use burnban.Policy.Types.{Dimension}
use burnban.Policy.Scope.{dimensions}

pub every : (p : Dimension → Bool) (d : Dimension) → all p dimensions ≡ true → p d ≡ true
every p Dimension.organization h = ground arith
every p _ h = ground arith

pub all_intro {ℓ} :
    {A : Type ℓ} (p : A → Bool) (xs : List A) → ((x : A) → p x ≡ true) → all p xs ≡ true
all_intro p [] h = refl
all_intro p (x ∷ xs) h = ground (arith, h x, all_intro p xs h)

pub all_ext {ℓ} :
    {A : Type ℓ} {p q : A → Bool} (xs : List A) → ((x : A) → p x ≡ q x) → all p xs ≡ all q xs
all_ext xs h = ap (λ p. all p xs) (fun_ext h)
