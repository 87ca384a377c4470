-- ===== src/Restore/Run/Count.antt =====
-- restore/run.go: the number of phases that a successful run goes through is the one it announces.
use pg_snapshot.Base.{ℕ, suc, ◌+◌, ◌≡◌, refl, sym, ◌∙◌, ap, ◌⊎◌, inl, inr, Bool, true, false}
use pg_snapshot.Base.{List, if◌then◌else◌, arith, is_nil, subst}
use pg_snapshot.Base.Int.{pos, add64}
use pg_snapshot.Base.Bytes.{Bytes}
use pg_snapshot.Base.Act.{◌>>=◌, ◌>>◌, give, throw, bind-inr, defer, settle_act}
use pg_snapshot.Pg.Tools.{start}
use pg_snapshot.Export.Manifest.{Manifest}
use pg_snapshot.Restore.Server.{Server}
use pg_snapshot.Restore.State.{classify, expired_backups}
use pg_snapshot.Restore.Database.{
  Result, ok, err, M, recover, inspect, drop_all, create, drop, swap,
}
use pg_snapshot.Restore.Slots.{Slot}
use pg_snapshot.Restore.World.{World, Work, RunError, Go, phase, outside, admin, from_admin}
use pg_snapshot.Restore.World.{already_running}
use pg_snapshot.Restore.Run.{Options, RunResult, Do, recover_phase, resolve_snapshot, with_defaults}
use pg_snapshot.Restore.Run.{total_phases, admin_database, require_idle}
use pg_snapshot.Restore.Run.Body.{fill_and_swap, swap_phase, rebind_phase, swapped}
use pg_snapshot.Restore.Run.Body.{restore_into, or_discard, replace, name_staging}
use pg_snapshot.Restore.Run.Body.{run_locked, run_with, run, url_for}
use pg_snapshot.Restore.Run.Away.{IsAway, give-IsAway, raise-IsAway, counted, counted-add}
use pg_snapshot.Restore.Run.Fill.{fill-IsAway, fill_phases, prepare-IsAway}
use pg_snapshot.Restore.Run.Fill.{resolve_snapshot-IsAway, name_staging-IsAway}

-- If the step succeeds it has counted `n` phases.
pub record Counts {C W A : Type 0} (n : ℕ) (m : Go C W A) : Type 0 where
  pub phases_of : (w : World C W) (a : A) → (m w).0 ≡ inr a → (m w).1.phases ≡ counted n w.phases

module _ {C W : Type 0} where
  of_away : {A : Type 0} {n : ℕ} {m : Go C W A} → IsAway n m → Counts n m
  of_away h = record { phases_of = h.counts }

  bind-Counts :
      {A B : Type 0} {n k : ℕ} {m : Go C W A} {g : A → Go C W B}
      → Counts n m
      → ((a : A) → Counts k (g a))
      → Counts (n + k) (m >>= g)
  bind-Counts {n = n} {k = k} {m = m} {g = g} first second = record {
    phases_of = λ w b h.
        let (a, is, e) = bind-inr m g w b h in
        ap (λ x. x.1.phases) e
        ∙ ((second a).phases_of (m w).1 b (sym (ap (λ x. x.0) e) ∙ h)
            ∙ (ap (counted k) (first.phases_of w a is) ∙ sym (counted-add n k w.phases)));
  }

  phase-Counts : {A : Type 0} {n : ℕ} {m : Go C W A} → Counts n m → Counts (suc n) (phase m)
  unfolding counted
  phase-Counts h = record {
    phases_of = λ w. h.phases_of (record w { phases = (start w.phases).0 });
  }

  admin-Counts : {A : Type 0} (m : M C A) → Counts {W = W} 0 (admin m)
  unfolding counted
  admin-Counts {A = A} m = record { phases_of = λ w a h. same w (m w.catalog) }
    where
      same : (w : World C W) (x : Result A × C) → (from_admin w x).1.phases ≡ w.phases
      same w (ok a, c) = refl
      same w (err e, c) = refl

  if-Counts :
      {A : Type 0} {n k : ℕ} {m r : Go C W A} (b : Bool)
      → Counts n m
      → Counts k r
      → Counts (if b then n else k) (if b then m else r)
  if-Counts true h g = h
  if-Counts false h g = g

  recount-Counts : {A : Type 0} {n k : ℕ} {m : Go C W A} → Counts n m → n ≡ k → Counts k m
  recount-Counts {m = m} h e = subst (λ j. Counts j m) e h

  step-Counts :
      {A : Type 0} {m : Go C W A}
      → ((w : World C W) (a : A) → (m w).0 ≡ inr a → (m w).1.phases ≡ w.phases)
      → Counts 0 m
  unfolding counted
  step-Counts h = record { phases_of = h }

-- The phases of a run, from the carried default privileges on.
abbrev restore_phases : Options → ℕ
restore_phases o = 1 + (fill_phases o + (1 + (if o.replication then 1 else 0)))

module _ (S : Server) {W Body : Type 0} (K : Work W Body) (o : Options) where
  rebind_phase-Counts :
      (target_url : Bytes) (slots : List Slot) → Counts 0 (rebind_phase S K target_url slots)
  unfolding rebind_phase
  rebind_phase-Counts target_url slots = step-Counts (λ w a h. refl)

  swap_phase-Counts : (staging : Bytes) → Counts 0 (swap_phase S K o staging)
  unfolding swap_phase counted
  swap_phase-Counts staging = record {
    phases_of = λ w.
        (admin-Counts
            (λ c. swapped S K (swap S o.target staging (K.stamp w.outside).0 c))).phases_of
          (record w { outside = (K.stamp w.outside).1 });
  }

  fill_and_swap-Counts :
      (m : Manifest) (snapshot staging url target_url path : Bytes)
      → Counts
          (fill_phases o + (1 + (if o.replication then 1 else 0)))
          (fill_and_swap S K o m snapshot staging url target_url path)
  unfolding fill_and_swap
  fill_and_swap-Counts m snapshot staging url target_url path =
      recount-Counts
        (bind-Counts (of_away (fill-IsAway S K o m staging url target_url path)) (λ slots.
          bind-Counts (phase-Counts (swap_phase-Counts staging)) (λ backup.
            bind-Counts
              (if-Counts o.replication (phase-Counts (rebind_phase-Counts target_url slots))
                (of_away (give-IsAway tt)))
              (λ _. of_away (give-IsAway _)))))
        (omega arith)

  restore_into-Counts :
      (m : Manifest) (snapshot staging : Bytes)
      → Counts (restore_phases o) (restore_into S K o m snapshot staging)
  unfolding restore_into
  restore_into-Counts m snapshot staging =
      bind-Counts (of_away (prepare-IsAway S K o m snapshot staging)) (λ p. record {
        phases_of = (fill_and_swap-Counts m snapshot staging p.0 p.1 p.3).phases_of;
      })

  or_discard-Counts :
      (staging : Bytes) (n : ℕ) (m : Do S K RunResult)
      → Counts n m
      → Counts n (or_discard S K staging m)
  unfolding or_discard
  or_discard-Counts staging n m h = record { phases_of = λ w r. from w r (m w) (h.phases_of w r) }
    where
      from :
          (w : World S.Catalog W) (r : RunResult) (x : (RunError ⊎ RunResult) × World S.Catalog W)
          → (x.0 ≡ inr r → x.1.phases ≡ counted n w.phases)
          → let y = settle_act x (λ e w'. (inl e, (admin (drop S staging) w').1)) give in
            y.0 ≡ inr r → y.1.phases ≡ counted n w.phases
      from w r (inl e, w') h k = cc
      from w r (inr a, w') h k = h k

  recover_phase-Counts : Counts 0 (recover_phase S K o)
  unfolding recover_phase
  recover_phase-Counts = bind-Counts (admin-Counts (recover S o.target)) (λ _.
      bind-Counts (admin-Counts (inspect S o.target)) (λ set.
        bind-Counts (of_away (raise-IsAway (require_idle o.target set (classify set))))
          (λ _. admin-Counts (drop_all S (expired_backups set o.backup_retention)))))

  -- The chain that `run_locked` runs from the announced phases.
  locked_steps-Counts : Counts (2 + restore_phases o) (do
    phase (recover_phase S K o)
    chosen ← phase (resolve_snapshot S K o)
    staging ← name_staging S K
    replace S K o chosen.0 chosen.1 staging)
  unfolding replace
  locked_steps-Counts =
      recount-Counts
        (bind-Counts (phase-Counts recover_phase-Counts) (λ _.
          bind-Counts (phase-Counts (of_away (resolve_snapshot-IsAway S K o))) (λ chosen.
            bind-Counts (of_away (name_staging-IsAway S K)) (λ staging.
              bind-Counts (admin-Counts (create S staging o.owner)) (λ _.
                or_discard-Counts staging (restore_phases o) _
                  (restore_into-Counts chosen.0 chosen.1 staging))))))
        (omega arith)

-- The announced number is the one that is counted.
announced :
    (o : Options)
    → counted (2 + restore_phases o) (record { total = total_phases o; n = pos 0 })
      ≡ record { total = total_phases o; n = total_phases o }
unfolding counted total_phases start add64
announced o = cases (is_nil o.migrate_command) o.replication
  where
    cases :
        (b again : Bool)
        → counted
            (2
              + (1
                  + ((5 + ((if b then 0 else 1) + (if again then 1 else 0)))
                      + (1 + (if again then 1 else 0)))))
            (record {
              total =
                  add64
                    (if b then pos 9 else add64 (pos 9) (pos 1))
                    (if again then pos 2 else pos 0);
              n = pos 0;
            })
          ≡ record {
            total =
                add64 (if b then pos 9 else add64 (pos 9) (pos 1)) (if again then pos 2 else pos 0);
            n = add64 (if b then pos 9 else add64 (pos 9) (pos 1)) (if again then pos 2 else pos 0);
          }
    cases true true = refl
    cases true false = refl
    cases false true = refl
    cases false false = refl

-- A run that returns a result has gone through as many phases as it announced at its start.
pub run_phases :
    (S : Server) {W Body : Type 0} (K : Work W Body) (o : Options) (w : World S.Catalog W)
    (r : RunResult)
    → (run S K o w).0 ≡ inr r
    → (run S K o w).1.phases ≡ record { total = total_phases o; n = total_phases o }
unfolding run run_with run_locked with_defaults total_phases
run_phases S {W} K o w r h =
    let (url, _, e) = bind-inr (url_for S K (with_defaults o) admin_database) _ w r h in
    let w1 = (url_for S K (with_defaults o) admin_database w).1 in
    let (u, _, e') =
      bind-inr (outside (K.open_pool url (pos 2))) _ w1 r (sym (ap (λ x. x.0) e) ∙ h) in
    let w2 = (outside (K.open_pool url (pos 2)) w1).1 in
    let (locked, _, e'') =
      bind-inr (outside (K.try_lock o.target)) _ w2 r (sym (ap (λ x. x.0) (e ∙ e')) ∙ h) in
    ap (λ x. x.1.phases) (e ∙ e' ∙ e'')
    ∙ guarded locked (outside (K.try_lock o.target) w2).1 (sym (ap (λ x. x.0) (e ∙ e' ∙ e'')) ∙ h)
  where
    guarded :
        (locked : Bool) (w' : World S.Catalog W)
        → let x =
            (if locked
                then defer
                    (λ v. record v { outside = K.unlock o.target v.outside })
                    (run_locked S K (with_defaults o))
                else throw (already_running o.target))
              w' in
          x.0 ≡ inr r → x.1.phases ≡ record { total = total_phases o; n = total_phases o }
    guarded true w' k =
        (locked_steps-Counts S K (with_defaults o)).phases_of
          (record w' { phases = record { total = total_phases o; n = pos 0 } }) r k
        ∙ announced (with_defaults o)
    guarded false w' k = cc
