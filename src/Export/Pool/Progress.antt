-- ===== src/Export/Pool/Progress.antt =====
-- export/run.go, copyTables: the goroutines never wait for each other forever.
use pg_snapshot.Base.{ℕ, zero, suc, ◌+◌, ◌<◌, ◌≡◌, refl, ap, Bool, true, false, List, [], ◌∷◌}
use pg_snapshot.Base.{◌⊎◌, inl, inr, arith, length, Option, none, some}
use pg_snapshot.Export.Pool.{
  Pool, start_pool, collect, Step, feed, feed_done, feed_cancelled, copied,
}
use pg_snapshot.Export.Pool.{report, give_up, leave, stop, IsFinal}
use pg_snapshot.Export.Pool.Runs.{Steps, halt, then_step, length-middle}

module _ {J X E : Type 0} where
  -- While the feeder is at work and nothing is cancelled, no worker has left.
  abbrev IsStaffed : ℕ → Pool J X E → Type 0
  IsStaffed workers s =
      s.feeding ≡ true → s.cancelled ≡ false → s.idle + length s.busy + length s.reports ≡ workers

  collect-staff :
      (workers : ℕ) (j : J) (r : E ⊎ X) (s : Pool J X E)
      → IsStaffed workers s
      → IsStaffed workers (collect j r s)
  unfolding collect
  collect-staff workers j (inr x) s h = h
  collect-staff workers j (inl e) s h = from s.first_err
    where
      from :
          (o : Option E)
          → IsStaffed workers
              (elim o [ none ↦ record s { first_err = some e; cancelled = true } | some first ↦ s ])
      from none = λ on c. cc
      from (some first) = h

  step-IsStaffed :
      (workers : ℕ) (s t : Pool J X E) → Step s t → IsStaffed workers s → IsStaffed workers t
  step-IsStaffed workers s t (feed j rest n on is idle) h = λ f c. ground (arith, h f c, idle)
  step-IsStaffed workers s t (feed_done on is) h = λ f c. cc
  step-IsStaffed workers s t (feed_cancelled on bad) h = λ f c. cc
  step-IsStaffed workers s t (copied before j after r is) h =
      λ f c. ground (arith, h f c, ap length is, length-middle before j after)
  step-IsStaffed workers s t (report before j r after is) h =
      collect-staff workers j r _
        (λ f c. ground (arith, h f c, ap length is, length-middle before (j, r) after))
  step-IsStaffed workers s t (give_up before j r after bad is) h = λ f c. cc
  step-IsStaffed workers s t (leave n off idle) h = λ f c. cc
  step-IsStaffed workers s t (stop on) h = λ f c. cc

  Steps-IsStaffed :
      (plan : List J) (workers n : ℕ) (s : Pool J X E)
      → Steps n (start_pool plan workers) s
      → IsStaffed workers s
  unfolding start_pool
  Steps-IsStaffed plan workers n s halt = λ f c. omega arith
  Steps-IsStaffed plan workers n s (then_step h k) =
      step-IsStaffed workers _ s k (Steps-IsStaffed plan workers _ _ h)

  collect-stopped : (j : J) (r : E ⊎ X) (s : Pool J X E) → (collect j r s).stopped ≡ s.stopped
  unfolding collect
  collect-stopped j (inr x) s = refl
  collect-stopped j (inl e) s = ground arith

  -- Some goroutine can go on, unless all are done. `r` is what the next copy to end may return.
  next_step :
      (workers : ℕ) (s : Pool J X E) (r : E ⊎ X)
      → 0 < workers
      → IsStaffed workers s
      → IsFinal s ⊎ ((t : Pool J X E) × Step s t × (t.stopped ≡ s.stopped))
  next_step workers s r enough h = at_busy s.busy refl
    where
      at_todo :
          (todo : List J) (idle : ℕ) (cancelled : Bool)
          → s.busy ≡ []
          → s.reports ≡ []
          → s.feeding ≡ true
          → s.todo ≡ todo
          → s.idle ≡ idle
          → s.cancelled ≡ cancelled
          → IsFinal s ⊎ ((t : Pool J X E) × Step s t × (t.stopped ≡ s.stopped))
      at_todo [] idle cancelled b q f is k c = inr (_, feed_done f is, refl)
      at_todo (j ∷ rest) (suc n) cancelled b q f is k c = inr (_, feed j rest n f is k, refl)
      at_todo (j ∷ rest) zero true b q f is k c = inr (_, feed_cancelled f c, refl)
      at_todo (j ∷ rest) zero false b q f is k c =
          absurd (ground (arith, h f c, ap length b, ap length q))

      at_feeder :
          (feeding : Bool) (idle : ℕ)
          → s.busy ≡ []
          → s.reports ≡ []
          → s.feeding ≡ feeding
          → s.idle ≡ idle
          → IsFinal s ⊎ ((t : Pool J X E) × Step s t × (t.stopped ≡ s.stopped))
      at_feeder true idle b q f k = at_todo s.todo s.idle s.cancelled b q f refl refl refl
      at_feeder false zero b q f k = inl (f, k, b, q)
      at_feeder false (suc n) b q f k = inr (_, leave n f k, refl)

      at_reports :
          (reports : List (J × (E ⊎ X)))
          → s.busy ≡ []
          → s.reports ≡ reports
          → IsFinal s ⊎ ((t : Pool J X E) × Step s t × (t.stopped ≡ s.stopped))
      at_reports [] b q = at_feeder s.feeding s.idle b q refl refl
      at_reports ((j, r') ∷ rest) b q = inr (_, report [] j r' rest q, collect-stopped j r' _)

      at_busy :
          (busy : List J)
          → s.busy ≡ busy
          → IsFinal s ⊎ ((t : Pool J X E) × Step s t × (t.stopped ≡ s.stopped))
      at_busy [] b = at_reports s.reports b refl
      at_busy (j ∷ rest) b = inr (_, copied [] j rest r b, refl)

-- With at least one worker, a pool that has not ended can always go on by a step of its own, whatever
-- has failed and whether or not the caller has cancelled, as long as each copy under way returns.
pub pool_progress :
    {J X E : Type 0} (plan : List J) (workers n : ℕ) (s : Pool J X E) (r : E ⊎ X)
    → 0 < workers
    → Steps n (start_pool plan workers) s
    → IsFinal s ⊎ ((t : Pool J X E) × Step s t × (t.stopped ≡ s.stopped))
pool_progress plan workers n s r enough h =
    next_step workers s r enough (Steps-IsStaffed plan workers n s h)
