-- ===== src/Prelude/SortKeys.antt =====
-- Sorting by a text that no two elements share.
use mathlib.Core.Path.{◌≡◌, refl, sym, ap, ◌∙◌, subst}
use mathlib.Core.Logic.{inl, inr, ◌⊎◌}
use mathlib.Core.Bool.{Bool, true, false, not, ◌&&◌}
use mathlib.Core.List.{List, [], ◌∷◌, ◌++◌, map}
use Prim.Native.String.{String}
use native.Mathlib.Omega.{arith}
use burnban.Prelude.Tests.{Bool-cases}
use burnban.Prelude.Lists.{All, all, keep}
use burnban.Prelude.Text.{str_lt}
use burnban.Prelude.TextOrder.{str_lt_trans, str_lt_asym}
use burnban.Prelude.Sort.{insert_by, sort_by}

module _ {ℓ} {A : Type ℓ} where
  keep-true : (p : A → Bool) (x : A) (xs : List A) → p x ≡ true → keep p (x ∷ xs) ≡ x ∷ keep p xs
  keep-true p x xs h = ground arith

  keep-false : (p : A → Bool) (x : A) (xs : List A) → p x ≡ false → keep p (x ∷ xs) ≡ keep p xs
  keep-false p x xs h = ground arith

  insert_by_behind :
      (less : A → A → Bool) (x y : A) (ys : List A)
      → less y x ≡ true
      → insert_by less x (y ∷ ys) ≡ y ∷ insert_by less x ys
  unfolding insert_by
  insert_by_behind less x y ys h = ground arith

  insert_by_front :
      (less : A → A → Bool) (x y : A) (ys : List A)
      → less y x ≡ false
      → insert_by less x (y ∷ ys) ≡ x ∷ y ∷ ys
  unfolding insert_by
  insert_by_front less x y ys h = ground arith

module _ {ℓ} {A : Type ℓ} (key : A → String) where
  abbrev pub by_key : A → A → Bool
  by_key x y = str_lt (key x) (key y)

  -- Two keys that differ are in one order or the other.
  abbrev pub Differ : A → A → Type 0
  Differ x y = (by_key x y ≡ true) ⊎ (by_key y x ≡ true)

  insert_swap_lt :
      (x y : A) (xs : List A)
      → by_key x y ≡ true
      → insert_by by_key x (insert_by by_key y xs) ≡ insert_by by_key y (insert_by by_key x xs)
  unfolding insert_by
  insert_swap_lt x y [] h = ground (arith, str_lt_asym (key x) (key y))
  insert_swap_lt x y (z ∷ xs) h = ground (
    arith,
    str_lt_asym (key x) (key y),
    str_lt_trans (key z) (key x) (key y),
    insert_swap_lt x y xs,
  )

  insert_swap :
      (x y : A) (xs : List A)
      → Differ x y
      → insert_by by_key x (insert_by by_key y xs) ≡ insert_by by_key y (insert_by by_key x xs)
  insert_swap x y xs (inl h) = insert_swap_lt x y xs h
  insert_swap x y xs (inr h) = sym (insert_swap_lt y x xs h)

  sort_by-middle :
      (xs ys : List A) (x : A)
      → All (λ y. Differ y x) xs
      → sort_by by_key (xs ++ (x ∷ ys)) ≡ insert_by by_key x (sort_by by_key (xs ++ ys))
  unfolding sort_by
  sort_by-middle [] ys x h = refl
  sort_by-middle (y ∷ xs) ys x h =
      ap (insert_by by_key y) (sort_by-middle xs ys x h.1)
      ∙ insert_swap y x (sort_by by_key (xs ++ ys)) h.0

  -- Each element differs from the later ones.
  abbrev pub AllDiffer : List A → Type 0
  AllDiffer [] = Unit
  AllDiffer (x ∷ xs) = All (λ y. Differ y x) xs × AllDiffer xs

  All-keep : (p : A → Bool) (P : A → Type 0) (xs : List A) → All P xs → All P (keep p xs)
  All-keep p P [] h = tt
  All-keep p P (x ∷ xs) h = elim (Bool-cases (p x)) [
    | inl e ↦ subst (All P) (sym (keep-true p x xs e)) (h.0, All-keep p P xs h.1)
    | inr e ↦ subst (All P) (sym (keep-false p x xs e)) (All-keep p P xs h.1)
  ]

  -- The elements that pass and those that do not, one behind the other, sort as the whole list.
  pub sort_by-keep :
      (p : A → Bool) (xs : List A)
      → AllDiffer xs
      → sort_by by_key (keep p xs ++ keep (λ x. not (p x)) xs) ≡ sort_by by_key xs
  unfolding sort_by
  sort_by-keep p [] h = refl
  sort_by-keep p (x ∷ xs) h = elim (Bool-cases (p x)) [
    | inl e ↦
        rw (keep-true p x xs e, keep-false (λ y. not (p y)) x xs (ap not e))
          (ap (insert_by by_key x) (sort_by-keep p xs h.1))
    | inr e ↦
        rw (keep-false p x xs e, keep-true (λ y. not (p y)) x xs (ap not e))
          (sort_by-middle (keep p xs) (keep (λ y. not (p y)) xs) x
              (All-keep p (λ y. Differ y x) xs h.0)
            ∙ ap (insert_by by_key x) (sort_by-keep p xs h.1))
  ]

  module _ (f : A → A) (same : (x : A) → key (f x) ≡ key x) where
    map-insert_by :
        (x : A) (xs : List A) → insert_by by_key (f x) (map f xs) ≡ map f (insert_by by_key x xs)
    unfolding insert_by
    map-insert_by x [] = refl
    map-insert_by x (y ∷ xs) = elim (Bool-cases (by_key y x)) [
      | inl e ↦
          rw
            (
              insert_by_behind by_key x y xs e,
              insert_by_behind by_key (f x) (f y) (map f xs) (rw (same x, same y) e),
            )
            (ap (λ l. f y ∷ l) (map-insert_by x xs))
      | inr e ↦
          rw
            (
              insert_by_front by_key x y xs e,
              insert_by_front by_key (f x) (f y) (map f xs) (rw (same x, same y) e),
            )
            refl
    ]

    -- A change that keeps the keys may come before or after the sort.
    pub sort_by-map : (xs : List A) → sort_by by_key (map f xs) ≡ map f (sort_by by_key xs)
    unfolding sort_by
    sort_by-map [] = refl
    sort_by-map (x ∷ xs) =
        ap (insert_by by_key (f x)) (sort_by-map xs) ∙ map-insert_by x (sort_by by_key xs)

    Differ-map : (x y : A) → Differ x y → Differ (f x) (f y)
    Differ-map x y h = rw (same x, same y) h

    All-Differ-map :
        (x : A) (xs : List A) → All (λ y. Differ y x) xs → All (λ y. Differ y (f x)) (map f xs)
    All-Differ-map x [] h = tt
    All-Differ-map x (y ∷ xs) h = (Differ-map y x h.0, All-Differ-map x xs h.1)

    pub AllDiffer-map : (xs : List A) → AllDiffer xs → AllDiffer (map f xs)
    AllDiffer-map [] h = tt
    AllDiffer-map (x ∷ xs) h = (All-Differ-map x xs h.0, AllDiffer-map xs h.1)

  all-insert_by :
      (p : A → Bool) (x : A) (xs : List A) → all p (insert_by by_key x xs) ≡ (p x && all p xs)
  unfolding insert_by
  all-insert_by p x [] = refl
  all-insert_by p x (y ∷ xs) = ground (arith, all-insert_by p x xs)

  pub all-sort_by : (p : A → Bool) (xs : List A) → all p (sort_by by_key xs) ≡ all p xs
  unfolding sort_by
  all-sort_by p [] = refl
  all-sort_by p (x ∷ xs) =
      all-insert_by p x (sort_by by_key xs) ∙ ap (λ b. p x && b) (all-sort_by p xs)
