-- ===== src/Budget/Cache/Settled.antt =====
-- internal/budget/budget.go: the cache across a settlement.
use burnban.Prelude.{
  ℕ, ◌+◌, ◌%◌, ◌≤◌, ◌<◌, Bool, true, false, not, ◌&&◌, ◌||◌, List, [], ◌∷◌, ◌==◌, length, All, keep,
  str_eq, eq_iff, Bool-cases, and_true, not-true, if◌then◌else◌, ◌≡◌, ◌⊎◌, inl, inr, refl, sym, ap,
  ◌∙◌, subst, arith,
}
use burnban.Prelude.Int.{ℤ, pos, add64, ltb_ℤ, add64_exact, max_int64, ◌+ℤ◌}
use burnban.Budget.Positions.{BudgetUsage}
use burnban.Budget.Cache.{
  LedgerRow, World, Key, Entries, Cache, applies, count_unsafe, invalidate, bumped, is_visited,
  add_settled, settle_cache,
}
use burnban.Budget.Cache.Worlds.{Evolves, inserted, inserted_alone}
use burnban.Budget.Cache.Entries.{key_eq_self}
use burnban.Budget.Cache.Coherent.{Agrees, Belongs, IsCoherent}

count_unsafe-le : (rows : List LedgerRow) → count_unsafe rows ≤ length rows
count_unsafe-le [] = omega arith
count_unsafe-le (row ∷ rows) = ground (arith, count_unsafe-le rows)

keep-le : (p : LedgerRow → Bool) (rows : List LedgerRow) → length (keep p rows) ≤ length rows
keep-le p [] = omega arith
keep-le p (row ∷ rows) = ground (arith, keep-le p rows)

sum_pos : (n : ℕ) → pos n +ℤ pos 1 ≡ pos (n + 1)
unfolding ◌+ℤ◌
sum_pos n = ground arith

count64 : (n : ℕ) → n < max_int64 → add64 (pos n) (pos 1) ≡ pos (n + 1)
count64 n h = add64_exact (pos n) (pos 1) (rw (sum_pos n) (omega arith, omega arith)) ∙ sum_pos n

gaps64 :
    (b : Bool) (g : ℤ) (n : ℕ)
    → n < max_int64
    → g ≡ pos n
    → (if b then add64 g (pos 1) else g) ≡ pos ((if b then 1 else 0) + n)
gaps64 true g n h e = ap (λ x. add64 x (pos 1)) e ∙ count64 n h ∙ ap pos (omega arith)
gaps64 false g n h e = e ∙ ap pos (omega arith)

-- An entry that the row does not apply to agrees as it did.
Agrees-apart :
    (row : LedgerRow) (rows : List LedgerRow) (e : Key × BudgetUsage)
    → applies e.0 row ≡ false
    → Agrees rows e
    → Agrees (row ∷ rows) e
Agrees-apart row rows e f h = rw (f, keep) h

-- Adding a row to an entry that it applies to.
Agrees-bumped :
    (row : LedgerRow) (rows : List LedgerRow) (k : Key) (u : BudgetUsage)
    → length rows < max_int64
    → applies k row ≡ true
    → Agrees rows (k, u)
    → Agrees (row ∷ rows) (k, bumped row u)
unfolding bumped
Agrees-bumped row rows k u room t (g, r) =
    let L = keep (applies k) rows in
    let long = keep-le (applies k) rows in
    let gaps =
      gaps64 row.is_unsafe u.enforcement_gaps (count_unsafe L)
        (omega (arith, count_unsafe-le L, long)) g in
    let here_too : keep (applies k) (row ∷ rows) ≡ row ∷ L = rw (keep, t) refl in
    (
      gaps ∙ ap (λ l. pos (count_unsafe l)) (sym here_too),
      elim r [
        | inl f ↦ inl f
        | inr q ↦ inr (
            ap (λ x. add64 x (pos 1)) q
            ∙ count64 (length L) (omega (arith, long))
            ∙ ap pos (omega arith)
            ∙ ap (λ (l : List LedgerRow). pos (length l)) (sym here_too))
      ],
    )

-- The agent's entries are of the reservation's day, or the row lies before the day they are of.
abbrev pub IsDay : Cache → Key → LedgerRow → Type 0
IsDay c own row = (own.start ≡ c.agent_day) ⊎ (ltb_ℤ row.ts c.agent_day ≡ true)

applies-parts :
    (k : Key) (row : LedgerRow)
    → applies k row ≡ true
    → (ltb_ℤ row.ts k.start ≡ false) × ((str_eq k.agent "" || str_eq k.agent row.agent) ≡ true)
unfolding applies
applies-parts k row h =
    let (a, b) =
      and_true (not (ltb_ℤ row.ts k.start)) (str_eq k.agent "" || str_eq k.agent row.agent) h in
    (not-true (ltb_ℤ row.ts k.start) a, b)

visited_self : (c : Cache) (k : Key) → str_eq k.agent "" ≡ false → is_visited c k k ≡ true
unfolding is_visited
visited_self c k g = rw (g, key_eq_self k) refl

visited :
    (c : Cache) (own : Key) (row : LedgerRow) (k : Key)
    → own.agent ≡ row.agent
    → IsDay c own row
    → Belongs c k
    → applies k row ≡ true
    → is_visited c own k ≡ true
unfolding is_visited
visited c own row k n d (inl (g, act)) t = rw (g, act) refl
visited c own row k n (inl s) (inr (g, b, z)) t =
    let a : k.agent ≡ row.agent =
      (eq_iff k.agent row.agent).0 (rw g at (applies-parts k row t).1) in
    let same : k ≡ own = λ i. record { start = (b ∙ sym s) i; agent = (a ∙ sym n) i } in
    subst (λ x. is_visited c x k ≡ true) same (visited_self c k g)
visited c own row k n (inr l) (inr (g, b, z)) t = absurd (cc (l, rw b at (applies-parts k row t).0))

not_both : (a b : Bool) → b ≡ false → (a && b) ≡ false
not_both true b h = h
not_both false b h = refl

add_settled-Agrees :
    (c : Cache) (own : Key) (row : LedgerRow) (rows : List LedgerRow) (es : Entries)
    → length rows < max_int64
    → own.agent ≡ row.agent
    → IsDay c own row
    → All (λ e. Belongs c e.0) es
    → All (Agrees rows) es
    → All (Agrees (row ∷ rows)) (add_settled c own row es)
unfolding add_settled
add_settled-Agrees c own row rows [] room n d b h = tt
add_settled-Agrees c own row rows ((k, u) ∷ es) room n d b h =
    let rest = add_settled-Agrees c own row rows es room n d b.1 h.1 in
    elim (Bool-cases (applies k row)) [
      | inl t ↦
          rw (add_settled, t, visited c own row k n d b.0 t)
            (Agrees-bumped row rows k u room t h.0, rest)
      | inr f ↦
          let g : (is_visited c own k && applies k row) ≡ false =
            not_both (is_visited c own k) (applies k row) f in
          rw (add_settled, g) (Agrees-apart row rows (k, u) f h.0, rest)
    ]

add_settled-Belongs :
    (c : Cache) (own : Key) (row : LedgerRow) (es : Entries)
    → All (λ e. Belongs c e.0) es
    → All (λ e. Belongs c e.0) (add_settled c own row es)
unfolding add_settled
add_settled-Belongs c own row [] b = tt
add_settled-Belongs c own row ((k, u) ∷ es) b = (b.0, add_settled-Belongs c own row es b.1)

-- A settlement reads the revision at `w`, inserts its row at `v` and reads the revision again at `x`,
-- while other goroutines may change the table before and after. Where the cache was coherent, it is
-- coherent with the table at `x`: it has counted the row exactly, or it is empty. The row is of the
-- reservation's agent, the table has room for one more, and the row lies before the day that the cache
-- keeps agents of, unless that day is the reservation's own.
pub settle_cache-IsCoherent :
    (c : Cache) (own : Key) (row : LedgerRow) {w v x : World}
    → IsCoherent c w
    → Evolves w v
    → v.revision % 2 ≡ 0
    → Evolves (inserted row v) x
    → length w.rows < max_int64
    → own.agent ≡ row.agent
    → IsDay c own row
    → IsCoherent (settle_cache w.revision x.revision own row c) x
unfolding settle_cache invalidate
settle_cache-IsCoherent c own row {w} {v} {x} h before even after room n d =
    let safe =
      c.is_warm
      && w.revision % 2 == 0
      && c.revision == w.revision
      && x.revision == w.revision + 2 in
    elim (Bool-cases safe) [
      | inr f ↦
          rw (settle_cache, f) (record { stable = inr refl; agrees = inr (refl, tt); belongs = tt })
      | inl t ↦ elim h.agrees [
        | inl l ↦ absurd (ground (arith, t, l))
        | inr (q, a) ↦
            let s : w.revision % 2 ≡ 0 = ground (arith, t) in
            let two : x.revision ≡ w.revision + 2 = ground (arith, t) in
            let table : x ≡ inserted row w = inserted_alone row before even after s two in
            rw (settle_cache, t)
              (record {
                stable = inl (omega arith);
                agrees = inr (
                  refl,
                  subst (λ (y : World). All (Agrees y.rows) (add_settled c own row c.entries))
                      (sym table)
                      (add_settled-Agrees c own row w.rows c.entries room n d h.belongs a),
                );
                belongs = add_settled-Belongs c own row c.entries h.belongs;
              })
      ]
    ]
