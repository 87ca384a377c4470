-- ===== src/Tests/Pools.antt =====
-- The theorems of export/run.go on a pool of one worker and two tables.
use pg_snapshot.Base.{ℕ, ◌+◌, ◌*◌, ◌≤◌, ◌≡◌, refl, ◌⊎◌, inr, true, false, List, [], ◌∷◌, none}
use pg_snapshot.Base.{count, length, arith}
use pg_snapshot.Export.Pool.{
  Pool, start_pool, collect, Step, feed, feed_done, copied, report, leave,
}
use pg_snapshot.Export.Pool.{IsFinal}
use pg_snapshot.Export.Pool.Runs.{Steps, halt, then_step, Steps-bounded}
use pg_snapshot.Export.Pool.Complete.{pool_complete}
use pg_snapshot.Export.Pool.Progress.{pool_progress}

abbrev two_tables : List ℕ
two_tables = 5 ∷ 6 ∷ []

abbrev ended : Pool ℕ ℕ ℕ
ended = record {
  todo = [];
  feeding = false;
  idle = 0;
  busy = [];
  reports = [];
  entries = (5, 50) ∷ (6, 60) ∷ [];
  first_err = none;
  cancelled = false;
  stopped = false;
}

-- The worker copies the first table, then the second one, and leaves.
whole_run : Steps 8 (start_pool two_tables 1) ended
unfolding start_pool collect
whole_run =
    then_step
      (then_step
        (then_step
          (then_step
            (then_step
              (then_step
                (then_step (then_step halt (feed 5 (6 ∷ []) 0 refl refl refl))
                  (copied [] 5 [] (inr 50) refl))
                (report [] 5 (inr 50) [] refl))
              (feed 6 [] 0 refl refl refl))
            (copied [] 6 [] (inr 60) refl))
          (report [] 6 (inr 60) [] refl))
        (feed_done refl refl))
      (leave 0 refl refl)

Steps-bounded_example : 8 ≤ 4 * length two_tables + 1 + 2
Steps-bounded_example = Steps-bounded two_tables 1 8 ended whole_run

pool_complete_example :
    count (λ (r : ℕ × ℕ). true) ended.entries ≡ count (λ (j : ℕ). true) two_tables
pool_complete_example =
    pool_complete two_tables 1 8 ended whole_run (refl, refl, refl, refl) refl refl (λ j. true)

pool_progress_example :
    IsFinal (start_pool {X = ℕ} {E = ℕ} two_tables 1)
    ⊎ ((t : Pool ℕ ℕ ℕ) × Step (start_pool two_tables 1) t
        × (t.stopped ≡ Pool.stopped (start_pool {X = ℕ} {E = ℕ} two_tables 1)))
pool_progress_example =
    pool_progress two_tables 1 0 (start_pool two_tables 1) (inr 50) (omega arith) halt
