-- ===== src/Export/Pool/Complete.antt =====
-- export/run.go, copyTables: a pool that ends without an error has one entry for each planned table.
use pg_snapshot.Base.{◌≢◌, ℕ, suc, ◌+◌, ◌≡◌, refl, ap, Bool, false, List, [], ◌∷◌, ◌++◌}
use pg_snapshot.Base.{◌⊎◌, inl, inr, arith, count, count-append, count-middle}
use pg_snapshot.Base.{Option, none, some}
use pg_snapshot.Export.Pool.{
  Pool, start_pool, collect, Step, feed, feed_done, feed_cancelled, copied,
}
use pg_snapshot.Export.Pool.{report, give_up, leave, stop, IsFinal}
use pg_snapshot.Export.Pool.Runs.{Steps, halt, then_step}

module _ {J X E : Type 0} where
  -- How many tables that pass a test are somewhere in the pool.
  abbrev held : (J → Bool) → Pool J X E → ℕ
  held p s =
      count p s.todo + count p s.busy + count (λ r. p r.0) s.reports + count (λ r. p r.0) s.entries

  -- While nobody has cancelled and no error has come, no table is lost or copied twice.
  abbrev IsWhole : List J → Pool J X E → Type 0
  IsWhole plan s =
      s.stopped ≡ false
      → s.first_err ≡ none
      → (s.cancelled ≡ false)
        × (s.feeding ≡ false → s.todo ≡ [])
        × ((p : J → Bool) → held p s ≡ count p plan)

  -- An error is not forgotten.
  collect-first_err : (j : J) (e : E) (s : Pool J X E) → (collect j (inl e) s).first_err ≢ none
  unfolding collect
  collect-first_err j e s = from s.first_err refl
    where
      from : (o : Option E) → s.first_err ≡ o → (collect j (inl e) s).first_err ≢ none
      from none is h = ground arith
      from (some first) is h = ground arith

  step-IsWhole : (plan : List J) (s t : Pool J X E) → Step s t → IsWhole plan s → IsWhole plan t
  unfolding collect
  step-IsWhole plan s t (feed j rest n on is idle) h g e =
      let (c, f, k) = h g e in (c, λ off. cc, λ p. ground (arith, k p, ap (count p) is))
  step-IsWhole plan s t (feed_done on is) h g e = let (c, f, k) = h g e in (c, λ off. is, k)
  step-IsWhole plan s t (feed_cancelled on bad) h g e = let (c, f, k) = h g e in cc
  step-IsWhole plan s t (copied before j after r is) h g e =
      let (c, f, k) = h g e in
      (c, f, λ p. ground (arith, k p, ap (count p) is, count-middle p before j after))
  step-IsWhole plan s t (report before j (inr x) after is) h g e =
      let (c, f, k) = h g e in
      (
        c,
        f,
        λ p. ground (
          arith,
          k p,
          ap (count (λ (r : J × (E ⊎ X)). p r.0)) is,
          count-middle (λ (r : J × (E ⊎ X)). p r.0) before (j, inr x) after,
          count-append (λ (r : J × X). p r.0) s.entries ((j, x) ∷ []),
        ),
      )
  step-IsWhole plan s t (report before j (inl e') after is) h g e =
      absurd (collect-first_err j e' (record s { reports = before ++ after; idle = suc s.idle }) e)
  step-IsWhole plan s t (give_up before j r after bad is) h g e = let (c, f, k) = h g e in cc
  step-IsWhole plan s t (leave n off idle) h g e = h g e
  step-IsWhole plan s t (stop on) h g e = cc

  pub Steps-IsWhole :
      (plan : List J) (workers n : ℕ) (s : Pool J X E)
      → Steps n (start_pool plan workers) s
      → IsWhole plan s
  unfolding start_pool
  Steps-IsWhole plan workers n s halt = λ g e. (refl, λ off. cc, λ p. omega arith)
  Steps-IsWhole plan workers n s (then_step h k) =
      step-IsWhole plan _ s k (Steps-IsWhole plan workers _ _ h)

-- If the caller does not cancel and the pool ends without an error, then for every test on tables there
-- are as many entries of tables that pass it as there are planned tables that do: the entries are
-- those of the planned tables, each once, in whatever order the workers ran.
pub pool_complete :
    {J X E : Type 0} (plan : List J) (workers n : ℕ) (s : Pool J X E)
    → Steps n (start_pool plan workers) s
    → IsFinal s
    → s.stopped ≡ false
    → s.first_err ≡ none
    → (p : J → Bool) → count (λ r. p r.0) s.entries ≡ count p plan
pool_complete plan workers n s h (off, idle, busy, reports) calm fine p =
    let (_, f, k) = Steps-IsWhole plan workers n s h calm fine in
    ground (arith, k p, ap (count p) (f off), ap (count p) busy, ap (count (λ r. p r.0)) reports)
