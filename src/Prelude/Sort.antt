-- ===== src/Prelude/Sort.antt =====
-- `sort.SliceStable` with a Boolean order: a stable sort has one result, that of insertion.
use mathlib.Core.Path.{◌≡◌, refl}
use mathlib.Core.Bool.{Bool, true, false}
use mathlib.Core.List.{List, [], ◌∷◌, Memᴰ}
use mathlib.Core.List.Memᴰ
use mathlib.Core.Logic.{inl, inr}
use native.Mathlib.Omega.{arith}
use burnban.Prelude.Lists.{All}
use burnban.Prelude.Tests.{Bool-cases}

module _ {ℓ} {A : Type ℓ} (less : A → A → Bool) where
  unfoldable pub insert_by : A → List A → List A
  insert_by x [] = x ∷ []
  insert_by x (y ∷ ys) =
      let behind = insert_by x ys in elim (less y x) [ true ↦ y ∷ behind | false ↦ x ∷ y ∷ ys ]

  unfoldable pub sort_by : List A → List A
  unfolding insert_by
  sort_by [] = []
  sort_by (x ∷ xs) = insert_by x (sort_by xs)

module _ {ℓ} {A : Type ℓ} (less : A → A → Bool) where
  insert_by-ne-nil : (x : A) (xs : List A) → ¬ (insert_by less x xs ≡ [])
  unfolding insert_by
  insert_by-ne-nil x [] h = cc
  insert_by-ne-nil x (y ∷ ys) h = ground arith

  pub sort_by-eq-nil : (xs : List A) → sort_by less xs ≡ [] → xs ≡ []
  unfolding sort_by
  sort_by-eq-nil [] h = refl
  sort_by-eq-nil (x ∷ xs) h = absurd (insert_by-ne-nil x (sort_by less xs) h)

  module _ {κ} (P : A → Type κ) where
    pub All-insert_by : (x : A) (xs : List A) → P x → All P xs → All P (insert_by less x xs)
    unfolding insert_by
    All-insert_by x [] p h = (p, tt)
    All-insert_by x (y ∷ ys) p h = ground (arith, All-insert_by x ys p h.1)

    pub All-sort_by : (xs : List A) → All P xs → All P (sort_by less xs)
    unfolding sort_by
    All-sort_by [] h = tt
    All-sort_by (x ∷ xs) h = All-insert_by x (sort_by less xs) h.0 (All-sort_by xs h.1)

    All-of_insert_by : (x : A) (xs : List A) → All P (insert_by less x xs) → P x × All P xs
    unfolding insert_by
    All-of_insert_by x [] h = h
    All-of_insert_by x (y ∷ ys) h = ground (arith, All-of_insert_by x ys)

    -- Sorting loses no element.
    pub All-of_sort_by : (xs : List A) → All P (sort_by less xs) → All P xs
    unfolding sort_by
    All-of_sort_by [] h = tt
    All-of_sort_by (x ∷ xs) h =
        let (p, rest) = All-of_insert_by x (sort_by less xs) h in (p, All-of_sort_by xs rest)

  Memᴰ-insert_by : (a x : A) (xs : List A) → Memᴰ a (x ∷ xs) → Memᴰ a (insert_by less x xs)
  unfolding insert_by
  Memᴰ-insert_by a x [] m = m
  Memᴰ-insert_by a x (y ∷ ys) m = elim (Bool-cases (less y x)) [
    | inl e ↦
        rw (e, insert_by)
          (elim (Memᴰ.cases_cons m) [
            | inl h ↦ Memᴰ.tail (Memᴰ-insert_by a x ys (Memᴰ.head h))
            | inr t ↦ elim (Memᴰ.cases_cons t) [
              | inl h ↦ Memᴰ.head h
              | inr l ↦ Memᴰ.tail (Memᴰ-insert_by a x ys (Memᴰ.tail l))
            ]
          ])
    | inr e ↦ rw (e, insert_by) m
  ]

  pub Memᴰ-sort_by : (a : A) (xs : List A) → Memᴰ a xs → Memᴰ a (sort_by less xs)
  unfolding sort_by
  Memᴰ-sort_by a [] m = m
  Memᴰ-sort_by a (x ∷ xs) m =
      Memᴰ-insert_by a x (sort_by less xs)
        (elim (Memᴰ.cases_cons m) [ inl h ↦ Memᴰ.head h | inr t ↦ Memᴰ.tail (Memᴰ-sort_by a xs t) ])
