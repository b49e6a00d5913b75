-- ===== src/Pricing/Load/Loaded.antt =====
-- internal/pricing/pricing.go, `Load`: what a loaded table holds.
use burnban.Prelude.{
  String, Bool, true, false, not, ◌||◌, none, some, [], ◌∷◌, ◌++◌, all, is_empty, str_eq, eq_iff,
  guard-some, some_inj, Bool-cases, if◌then◌else◌, ◌≡◌, inl, inr, refl, sym, subst, and_true,
  not-true, arith,
}
use burnban.Pricing.Types.{Price, Models, Table, Go}
use burnban.Pricing.Validate.{validate_metadata, validate_models, model_ok}
use burnban.Pricing.Contracts.{validate_contracts, contracts_ok, is_unambiguous}
use burnban.Prelude.Sort.{sort_by}
use burnban.Pricing.Lookup.{find}
use burnban.Pricing.Load.{
  OverrideFile, missing, unreadable, contents, put, put_all, overlay_ok, overlaid, with_overrides,
  embedded_ok, load,
}

find-put :
    (k key : String) (p : Price) (models : Models)
    → find k (put key p models) ≡ (if str_eq k key then some p else find k models)
unfolding find put
find-put k key p [] = refl
find-put k key p ((j, q) ∷ rest) =
    ground (arith, eq_iff k key, eq_iff key j, eq_iff k j, find-put k key p rest)

module _ (go : Go) where
  all-put :
      (key : String) (p : Price) (models : Models)
      → model_ok go (key, p) ≡ true
      → all (model_ok go) models ≡ true
      → all (model_ok go) (put key p models) ≡ true
  unfolding put
  all-put key p [] h k = rw h refl
  all-put key p ((j, q) ∷ rest) h k =
      let (here, there) = and_true (model_ok go (j, q)) (all (model_ok go) rest) k in
      elim (Bool-cases (str_eq key j)) [
        | inl e ↦ rw (e, h, there) refl
        | inr e ↦ rw (e, here, all-put key p rest h there) refl
      ]

  all-put_all :
      (more models : Models)
      → all (model_ok go) more ≡ true
      → all (model_ok go) models ≡ true
      → all (model_ok go) (put_all more models) ≡ true
  unfolding put_all
  all-put_all [] models h k = k
  all-put_all ((key, p) ∷ rest) models h k =
      let (here, there) = and_true (model_ok go (key, p)) (all (model_ok go) rest) h in
      all-put_all rest (put key p models) there (all-put key p models here k)

put-not_empty : (key : String) (p : Price) (models : Models) → is_empty (put key p models) ≡ false
unfolding put
put-not_empty key p [] = refl
put-not_empty key p ((j, q) ∷ rest) = ground arith

put_all-not_empty :
    (more models : Models) → is_empty models ≡ false → is_empty (put_all more models) ≡ false
unfolding put_all
put_all-not_empty [] models h = h
put_all-not_empty ((key, p) ∷ rest) models h =
    put_all-not_empty rest (put key p models) (put-not_empty key p models)

-- What the other parts rely on.
pub record IsLoaded (go : Go) (t : Table) : Type 0 where
  pub metadata : validate_metadata go t.metadata true ≡ true
  pub models : validate_models go t.models ≡ true
  pub contracts : validate_contracts go t.contracts ≡ true

module _ (go : Go) where
  no_contracts : validate_contracts go [] ≡ true
  unfolding validate_contracts contracts_ok is_unambiguous sort_by
  no_contracts = refl

  put_all-validate_models :
      (more models : Models)
      → (is_empty more || validate_models go more) ≡ true
      → validate_models go models ≡ true
      → validate_models go (put_all more models) ≡ true
  unfolding validate_models put_all
  put_all-validate_models [] models h k = k
  put_all-validate_models (e ∷ rest) models h k =
      let (n, each) = and_true (not (is_empty models)) (all (model_ok go) models) k in
      rw
        (
          put_all-not_empty (e ∷ rest) models (not-true _ n),
          all-put_all go (e ∷ rest) models h each,
        )
        refl

  overlaid-IsLoaded :
      (base overlay : Table)
      → base.contracts ≡ []
      → embedded_ok go base ≡ true
      → overlay_ok go overlay ≡ true
      → IsLoaded go (overlaid base overlay)
  unfolding overlay_ok overlaid
  overlaid-IsLoaded base overlay none_yet b o =
      let (m, v) =
        and_true (validate_metadata go base.metadata true) (validate_models go base.models) b in
      let (mo, c) =
        and_true (is_empty overlay.models || validate_models go overlay.models)
          (validate_contracts go overlay.contracts) (and_true _ _ o).1 in
      record {
        metadata = m;
        models = put_all-validate_models overlay.models base.models mo v;
        contracts =
            subst (λ l. validate_contracts go (l ++ overlay.contracts) ≡ true) (sym none_yet) c;
      }

  base-IsLoaded :
      (base t : Table) → base.contracts ≡ [] → embedded_ok go base ≡ true → base ≡ t → IsLoaded go t
  base-IsLoaded base t none_yet b e =
      let (m, v) =
        and_true (validate_metadata go base.metadata true) (validate_models go base.models) b in
      subst (IsLoaded go) e (record {
        metadata = m;
        models = v;
        contracts = subst (λ l. validate_contracts go l ≡ true) (sym none_yet) no_contracts;
      })

  overrides-IsLoaded :
      (base : Table) (file : OverrideFile) (t : Table)
      → base.contracts ≡ []
      → embedded_ok go base ≡ true
      → with_overrides go base file ≡ some t
      → IsLoaded go t
  unfolding with_overrides
  overrides-IsLoaded base missing t n b h = base-IsLoaded base t n b (some_inj h)
  overrides-IsLoaded base unreadable t n b h = cc
  overrides-IsLoaded base (contents none) t n b h = cc
  overrides-IsLoaded base (contents (some overlay)) t n b h =
      let (o, e) = guard-some (overlay_ok go overlay) (some (overlaid base overlay)) t h in
      subst (IsLoaded go) (some_inj e) (overlaid-IsLoaded base overlay n b o)

  -- A table that `load` returns has valid metadata, models and contracts, whatever the file in the home
  -- directory holds, where the embedded table holds no contracts.
  pub load-IsLoaded :
      (base : Table) (home : Bool) (file : OverrideFile) (t : Table)
      → base.contracts ≡ []
      → load go (some base) home file ≡ some t
      → IsLoaded go t
  unfolding load
  load-IsLoaded base true file t n h =
      let (b, e) = guard-some (embedded_ok go base) (with_overrides go base file) t h in
      overrides-IsLoaded base file t n b e
  load-IsLoaded base false file t n h =
      let (b, e) = guard-some (embedded_ok go base) (some base) t h in
      base-IsLoaded base t n b (some_inj e)
