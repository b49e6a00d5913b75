-- ===== src/Downshift/Runtime/Fresh.antt =====
-- internal/downshift/runtime.go: the cache is never seen.
use burnban.Prelude.{
  String, true, ◌&&◌, Option, none, some, List, [], ◌∷◌, Memᴰ, map, str_eq, All, Bool-cases,
  Option-cases, and_true, ◌≡◌, ◌⊎◌, inl, inr, refl, sym, ap, ◌∙◌, subst, arith,
}
use burnban.Prelude.Int.{ℤ, eqb_ℤ}
use burnban.Downshift.Config.{Compiled}
use burnban.Downshift.Runtime.{
  DocumentRecord, Answer, failed, no_document, document, Active, refused, config, Runtime,
  new_runtime, cached, accept, install, serve, active, run,
}

-- Documents are never rewritten: two answers with one id are the same record.
abbrev pub AreStable : List Answer → Type 0
AreStable answers =
    (r s : DocumentRecord)
    → Memᴰ (document r) answers
    → Memᴰ (document s) answers
    → r.id ≡ s.id
    → r ≡ s

eqb_ℤ-eq : (a b : ℤ) → eqb_ℤ a b ≡ true → a ≡ b
eqb_ℤ-eq a b h = ground arith

module _ (parse : String → Option Compiled) where
  -- What a runtime without a cache returns.
  pub fresh : Answer → Active
  fresh a = (active parse new_runtime a).1

  of_accept : Option Compiled → Active
  of_accept none = refused
  of_accept (some c) = config c

  install-result :
      (rt : Runtime) (r : DocumentRecord) (o : Option Compiled)
      → (install parse rt r o).1 ≡ of_accept o
  unfolding install of_accept
  install-result rt r none = refl
  install-result rt r (some c) = refl

  fresh_lem : (r : DocumentRecord) → fresh (document r) ≡ of_accept (accept parse r)
  unfolding fresh active serve cached
  fresh_lem r = install-result new_runtime r (accept parse r)

  -- The cached configuration is that of a document that was answered.
  abbrev IsCached : List Answer → Runtime → Type 0
  IsCached seen rt =
      (rt.active ≡ none)
      ⊎ ((r : DocumentRecord) × (c : Compiled) × (rt.active ≡ some c)
          × Memᴰ (document r) seen
          × (r.id ≡ rt.active_id)
          × (accept parse r ≡ some c))

  cached-some :
      (rt : Runtime) (r : DocumentRecord) (c : Compiled)
      → cached rt r ≡ some c
      → (rt.active ≡ some c) × (rt.active_id ≡ r.id)
  unfolding cached
  cached-some rt r c h = elim (Option-cases rt.active) [
    | inl e ↦ cc (rw (cached, e) at h)
    | inr (d, e) ↦ elim (Bool-cases (eqb_ℤ rt.active_id r.id && str_eq d.digest r.digest)) [
      | inl t ↦ (
        e ∙ rw (cached, e, t) at h,
        eqb_ℤ-eq rt.active_id r.id
            (and_true (eqb_ℤ rt.active_id r.id) (str_eq d.digest r.digest) t).0,
      )
      | inr f ↦ cc (rw (cached, e, f) at h)
    ]
  ]

  module _ (answers : List Answer) (stable : AreStable answers) where
    hit :
        (rt : Runtime) (r : DocumentRecord) (c : Compiled)
        → IsCached answers rt
        → Memᴰ (document r) answers
        → cached rt r ≡ some c
        → accept parse r ≡ some c
    hit rt r c (inl e) m h = cc (e, (cached-some rt r c h).0)
    hit rt r c (inr (s, d, e, n, i, a)) m h =
        let (x, y) = cached-some rt r c h in
        let same : s ≡ r = stable s r n m (i ∙ y) in
        subst (λ t. accept parse t ≡ some c) same (a ∙ sym e ∙ x)

    install-IsCached :
        (rt : Runtime) (r : DocumentRecord) (o : Option Compiled)
        → accept parse r ≡ o
        → IsCached answers rt
        → Memᴰ (document r) answers
        → IsCached answers (install parse rt r o).0
    unfolding install
    install-IsCached rt r none a k m = k
    install-IsCached rt r (some c) a k m = inr (r, c, refl, m, refl, a)

    serve-IsCached :
        (rt : Runtime) (r : DocumentRecord) (o : Option Compiled)
        → cached rt r ≡ o
        → IsCached answers rt
        → Memᴰ (document r) answers
        → IsCached answers (serve parse rt r o).0 × ((serve parse rt r o).1 ≡ fresh (document r))
    unfolding serve of_accept
    serve-IsCached rt r (some c) h k m =
        (k, ap of_accept (sym (hit rt r c k m h)) ∙ sym (fresh_lem r))
    serve-IsCached rt r none h k m = (
      install-IsCached rt r (accept parse r) refl k m,
      install-result rt r (accept parse r) ∙ sym (fresh_lem r),
    )

    active-IsCached :
        (rt : Runtime) (a : Answer)
        → IsCached answers rt
        → Memᴰ a answers
        → IsCached answers (active parse rt a).0 × ((active parse rt a).1 ≡ fresh a)
    unfolding active fresh
    active-IsCached rt failed k m = (k, refl)
    active-IsCached rt no_document k m = (inl refl, refl)
    active-IsCached rt (document r) k m = serve-IsCached rt r (cached rt r) refl k m

    run_from :
        (rt : Runtime) (rest : List Answer)
        → IsCached answers rt
        → All (λ a. Memᴰ a answers) rest
        → run parse rt rest ≡ map fresh rest
    unfolding run
    run_from rt [] k m = refl
    run_from rt (a ∷ rest) k m =
        let (k', e) = active-IsCached rt a k m.0 in
        λ i. e i ∷ run_from (active parse rt a).0 rest k' m.1 i

  all_listed : (xs : List Answer) → All (λ a. Memᴰ a xs) xs
  all_listed xs = grow xs xs (λ a m. m)
    where
      grow :
          (ys xs : List Answer) → ((a : Answer) → Memᴰ a ys → Memᴰ a xs) → All (λ a. Memᴰ a xs) ys
      grow [] xs f = tt
      grow (y ∷ ys) xs f = (f y (Memᴰ.head refl), grow ys xs (λ a m. f a (Memᴰ.tail m)))

  -- Over any sequence of calls the cache is never seen: each call returns what it would return with no
  -- cache, so that a revision takes effect at the next call, a malformed document is refused each time,
  -- and nothing of it outlives the answer, where documents are never rewritten.
  pub run-fresh :
      (answers : List Answer)
      → AreStable answers
      → run parse new_runtime answers ≡ map fresh answers
  run-fresh answers stable =
      run_from answers stable new_runtime answers (inl refl) (all_listed answers)
