-- ===== src/Export/Pool.antt =====
-- export/run.go, copyTables: a feeder, workers and a collector on two channels without buffers, and a
-- context that the collector cancels at the first error. `J` is a planned table, `X` the entry of one,
-- `E` an error. A step is one communication, or the end of one goroutine's work.
pub mod Runs
pub mod Complete
pub mod Progress
use pg_snapshot.Base.{
  ℕ, zero, suc, ◌+◌, ◌≡◌, Bool, true, false, List, [], ◌∷◌, ◌++◌, Option, none, some,
}
use pg_snapshot.Base.{◌⊎◌, inl, inr, map, if◌then◌else◌}
use pg_snapshot.Base.Int.{ℤ, pos, ltb_ℤ}
use pg_snapshot.Base.Bytes.{Bytes}
use pg_snapshot.Base.Sort.{less}
use pg_snapshot.Export.Manifest.{TableEntry, qualified}

-- `idle` workers wait for a job, `busy` are the tables being copied, `reports` the results that wait to
-- be collected. `feeding` holds until the feeder closes the channel of jobs, `cancelled` is the context
-- and `stopped` whether the caller cancelled it.
pub record Pool (J X E : Type 0) : Type 0 where
  pub todo : List J
  pub feeding : Bool
  pub idle : ℕ
  pub busy : List J
  pub reports : List (J × (E ⊎ X))
  pub entries : List (J × X)
  pub first_err : Option E
  pub cancelled : Bool
  pub stopped : Bool

-- Before anything has happened.
unfoldable pub start_pool : {J X E : Type 0} → List J → ℕ → Pool J X E
start_pool plan workers = record {
  todo = plan;
  feeding = true;
  idle = workers;
  busy = [];
  reports = [];
  entries = [];
  first_err = none;
  cancelled = false;
  stopped = false;
}

-- One round of the collector's loop.
unfoldable pub collect : {J X E : Type 0} → J → E ⊎ X → Pool J X E → Pool J X E
collect j (inr x) s = record s { entries = s.entries ++ (j, x) ∷ [] }
collect j (inl e) s = elim s.first_err [
  | none ↦ record s { first_err = some e; cancelled = true }
  | some first ↦ s
]

module _ {J X E : Type 0} where
  pub data Step : Pool J X E → Pool J X E → Type 0 where
    feed :
        {s : Pool J X E} (j : J) (rest : List J) (n : ℕ)
        → s.feeding ≡ true
        → s.todo ≡ j ∷ rest
        → s.idle ≡ suc n
        → Step s (record s { todo = rest; idle = n; busy = j ∷ s.busy })
    feed_done :
        {s : Pool J X E} → s.feeding ≡ true → s.todo ≡ [] → Step s (record s { feeding = false })
    feed_cancelled :
        {s : Pool J X E}
        → s.feeding ≡ true
        → s.cancelled ≡ true
        → Step s (record s { feeding = false })
    copied :
        {s : Pool J X E} (before : List J) (j : J) (after : List J) (r : E ⊎ X)
        → s.busy ≡ before ++ j ∷ after
        → Step s (record s { busy = before ++ after; reports = (j, r) ∷ s.reports })
    report :
        {s : Pool J X E} (before : List (J × (E ⊎ X))) (j : J) (r : E ⊎ X)
        (after : List (J × (E ⊎ X)))
        → s.reports ≡ before ++ (j, r) ∷ after
        → Step s (collect j r (record s { reports = before ++ after; idle = suc s.idle }))
    give_up :
        {s : Pool J X E} (before : List (J × (E ⊎ X))) (j : J) (r : E ⊎ X)
        (after : List (J × (E ⊎ X)))
        → s.cancelled ≡ true
        → s.reports ≡ before ++ (j, r) ∷ after
        → Step s (record s { reports = before ++ after })
    leave :
        {s : Pool J X E} (n : ℕ)
        → s.feeding ≡ false
        → s.idle ≡ suc n
        → Step s (record s { idle = n })
    stop :
        {s : Pool J X E}
        → s.stopped ≡ false
        → Step s (record s { cancelled = true; stopped = true })

  -- All workers have left, which closes the channel of results.
  abbrev pub IsFinal : Pool J X E → Type 0
  IsFinal s = (s.feeding ≡ false) × (s.idle ≡ 0) × (s.busy ≡ []) × (s.reports ≡ [])

-- `sortEntries`: each entry in front of the first that does not come before it.
unfoldable pub insert_entry : TableEntry → List TableEntry → List TableEntry
unfolding less
insert_entry e [] = e ∷ []
insert_entry e (d ∷ es) =
    let rest = insert_entry e es in
    if less (qualified d) (qualified e) then d ∷ rest else e ∷ d ∷ es

unfoldable pub sort_entries : List TableEntry → List TableEntry
unfolding insert_entry
sort_entries [] = []
sort_entries (e ∷ es) = insert_entry e (sort_entries es)

-- What `copyTables` returns at the end.
unfoldable pub pool_result : {J E : Type 0} → Pool J TableEntry E → E ⊎ List TableEntry
unfolding sort_entries
pool_result s = elim s.first_err [
  | some e ↦ inl e
  | none ↦ inr (sort_entries (map (λ r. r.1) s.entries))
]
