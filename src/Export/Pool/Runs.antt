-- ===== src/Export/Pool/Runs.antt =====
-- export/run.go, copyTables: sequences of steps, and the bound on their number.
use pg_snapshot.Base.{ℕ, suc, ◌+◌, ◌*◌, ◌-◌, ◌≤◌, ◌≡◌, refl, ap, Bool, true, false, List, ◌∷◌, ◌++◌}
use pg_snapshot.Base.{◌⊎◌, inl, inr, arith, length, length-append, Option, none, some}
use pg_snapshot.Export.Pool.{
  Pool, start_pool, collect, Step, feed, feed_done, feed_cancelled, copied,
}
use pg_snapshot.Export.Pool.{report, give_up, leave, stop}

abbrev flag : Bool → ℕ
flag true = 1
flag false = 0

pub length-middle :
    {A : Type 0} (xs : List A) (y : A) (zs : List A)
    → length (xs ++ y ∷ zs) ≡ suc (length (xs ++ zs))
length-middle xs y zs = omega (arith, length-append xs (y ∷ zs), length-append xs zs)

module _ {J X E : Type 0} where
  -- A run of `n` steps.
  pub data Steps : ℕ → Pool J X E → Pool J X E → Type 0 where
    halt : {s : Pool J X E} → Steps 0 s s
    then_step : {n : ℕ} {s t u : Pool J X E} → Steps n s t → Step t u → Steps (suc n) s u

  -- What is left to do at most: four steps for a table, three for one that is being copied, two for a
  -- report, one for a worker, one for the feeder and one for the caller.
  abbrev pub left : Pool J X E → ℕ
  left s =
      4 * length s.todo
      + 3 * length s.busy
      + 2 * length s.reports
      + s.idle
      + flag s.feeding
      + (1 - flag s.stopped)

  left-collect : (j : J) (r : E ⊎ X) (s : Pool J X E) → left (collect j r s) ≡ left s
  unfolding collect
  left-collect j (inr x) s = refl
  left-collect j (inl e) s = from s.first_err
    where
      from :
          (o : Option E)
          → left
              (elim o [ none ↦ record s { first_err = some e; cancelled = true } | some first ↦ s ])
            ≡ left s
      from none = refl
      from (some first) = refl

  step_left : (s t : Pool J X E) → Step s t → suc (left t) ≤ left s
  step_left s t (feed j rest n on is idle) = ground (arith, is, idle)
  step_left s t (feed_done on is) = ground arith
  step_left s t (feed_cancelled on c) = ground arith
  step_left s t (copied before j after r is) =
      ground (arith, ap length is, length-middle before j after)
  step_left s t (report before j r after is) = omega (
    arith,
    left-collect j r (record s { reports = before ++ after; idle = suc s.idle }),
    ap length is,
    length-middle before (j, r) after,
  )
  step_left s t (give_up before j r after c is) =
      ground (arith, ap length is, length-middle before (j, r) after)
  step_left s t (leave n off idle) = ground arith
  step_left s t (stop on) = ground arith

  -- However the goroutines are scheduled, whatever fails and whenever the caller cancels, a run of
  -- `copyTables` on `workers` workers ends within four steps for each planned table, one for each
  -- worker, and two more.
  pub Steps-bounded :
      (plan : List J) (workers n : ℕ) (s : Pool J X E)
      → Steps n (start_pool plan workers) s
      → n ≤ 4 * length plan + workers + 2
  unfolding start_pool
  Steps-bounded plan workers n s h = omega (arith, bounded n (start_pool plan workers) s h)
    where
      bounded : (n : ℕ) (s t : Pool J X E) → Steps n s t → n + left t ≤ left s
      bounded n s t halt = omega arith
      bounded n s t (then_step h k) = omega (arith, bounded _ _ _ h, step_left _ _ k)
