-- ===== src/Restore/Run/Chosen.antt =====
-- restore/run.go: what a successful run has restored.
use pg_snapshot.Base.{
  ◌≡◌, refl, sym, ◌∙◌, ap, subst, ◌⊎◌, inl, inr, Bool, true, false, if◌then◌else◌,
}
use mathlib.Core.Path.{Path}
use pg_snapshot.Base.Int.{pos}
use pg_snapshot.Base.Bytes.{Bytes}
use pg_snapshot.Base.Act.{◌>>=◌, ◌>>◌, give, throw, raise, bind-inr, defer, settle_act}
use pg_snapshot.Pg.Tools.{start}
use pg_snapshot.Export.Manifest.{Manifest, total_rows}
use pg_snapshot.Restore.Server.{Server}
use pg_snapshot.Restore.Database.{create, drop}
use pg_snapshot.Restore.World.{World, Work, RunError, Go, phase, admin, already_running}
use pg_snapshot.Restore.Run.{Options, RunResult, Do, recover_phase, resolve_snapshot, with_defaults}
use pg_snapshot.Restore.Run.{admin_database}
use pg_snapshot.Restore.Run.{total_phases}
use pg_snapshot.Restore.Run.Resolved.{IsResolved, result_rule, outside_rule, resolve_snapshot_end}
use pg_snapshot.Restore.Run.Away.{admin_rule}
use pg_snapshot.Base.{List}
use pg_snapshot.Restore.State.{classify, expired_backups}
use pg_snapshot.Restore.Database.{drop_all, recover, inspect, Result, ok, err}
use pg_snapshot.Restore.Run.{require_idle}
use pg_snapshot.Restore.World.{from_admin}
use pg_snapshot.Pg.Conn.{with_database}
use pg_snapshot.Restore.Run.Body.{
  fill, fill_and_swap, swap_phase, rebind_phase, prepare, restore_into,
}
use pg_snapshot.Restore.Run.Body.{or_discard, replace, name_staging, run_locked, run_with, run}

-- Every result of the step has a property.
pub record Gives {C W A : Type 0} (P : A → Type 0) (m : Go C W A) : Type 0 where
  pub result_of : (w : World C W) (a : A) → (m w).0 ≡ inr a → P a

module _ {C W : Type 0} where
  give-Gives : {A : Type 0} {P : A → Type 0} (a : A) → P a → Gives {C = C} {W = W} P (give a)
  give-Gives {A = A} {P = P} a p = record { result_of = λ w b h. subst P (inr_inj a b h) p }
    where
      inr_inj : (a b : A) → Path (RunError ⊎ A) (inr a) (inr b) → a ≡ b
      inr_inj a b h = cc

  -- Behind any first step.
  bind-Gives :
      {A B : Type 0} {P : B → Type 0} (m : Go C W A) {g : A → Go C W B}
      → ((a : A) → Gives P (g a))
      → Gives P (m >>= g)
  bind-Gives m {g = g} second = record {
    result_of = λ w b h.
        let (a, is, e) = bind-inr m g w b h in
        (second a).result_of (m w).1 b (sym (ap (λ x. x.0) e) ∙ h);
  }

module _ (S : Server) {W Body : Type 0} (K : Work W Body) (o : Options) where
  open S use {Catalog}

  -- What a result says of the manifest and the names that it was made from.
  abbrev IsFrom : Manifest → Bytes → Bytes → RunResult → Type 0
  IsFrom m snapshot staging r =
      (r.snapshot ≡ snapshot) × (r.staging ≡ staging) × (r.rows ≡ total_rows m)

  fill_and_swap-Gives :
      (m : Manifest) (snapshot staging url target_url path : Bytes)
      → Gives
          (IsFrom m snapshot staging)
          (fill_and_swap S K o m snapshot staging url target_url path)
  unfolding fill_and_swap
  fill_and_swap-Gives m snapshot staging url target_url path =
      bind-Gives (fill S K o m staging url target_url path) (λ slots.
        bind-Gives (phase (swap_phase S K o staging)) (λ backup.
          bind-Gives (if o.replication then phase (rebind_phase S K target_url slots) else give tt)
            (λ _. give-Gives _ (refl, refl, refl))))

  or_discard-Gives :
      (P : RunResult → Type 0) (staging : Bytes) (m : Do S K RunResult)
      → Gives P m
      → Gives P (or_discard S K staging m)
  unfolding or_discard
  or_discard-Gives P staging m h = record { result_of = λ w r. from r (m w) (h.result_of w r) }
    where
      from :
          (r : RunResult) (x : (RunError ⊎ RunResult) × World Catalog W)
          → (x.0 ≡ inr r → P r)
          → (settle_act x (λ e w'. (inl e, (admin (drop S staging) w').1)) give).0 ≡ inr r
          → P r
      from r (inl e, w') h k = cc
      from r (inr a, w') h k = h k

  replace-Gives :
      (m : Manifest) (snapshot staging : Bytes)
      → Gives (IsFrom m snapshot staging) (replace S K o m snapshot staging)
  unfolding replace restore_into
  replace-Gives m snapshot staging = bind-Gives (admin (create S staging o.owner)) (λ _.
      or_discard-Gives (IsFrom m snapshot staging) staging _ (
        bind-Gives (prepare S K o m snapshot staging) (λ p. record {
          result_of = (fill_and_swap-Gives m snapshot staging p.0 p.1 p.3).result_of;
        })))

  -- The outside once `Run` has connected to the url and taken the lock.
  abbrev pub at_lock : Bytes → W → W
  at_lock url v = (K.try_lock o.target (K.open_pool url (pos 2) v).1).1

  -- The result of a run that has begun with the outside as it is in `v`, and the manifest behind it.
  pub record IsRestored (v : W) (r : RunResult) : Type 0 where
    pub url : Bytes
    pub connected : with_database K.parse_url o.admin_url admin_database ≡ inr url
    pub manifest : Manifest
    pub resolved : IsResolved K o (at_lock url v) manifest r.snapshot
    pub rows : r.rows ≡ total_rows manifest

  -- The phase leaves the outside as it is.
  recover_phase_outside : (w : World Catalog W) → (recover_phase S K o w).1.outside ≡ w.outside
  unfolding recover_phase
  recover_phase_outside w =
      admin_rule (λ x. x.1.outside ≡ w.outside) (recover S o.target) _ w (λ e h. refl)
        (λ u h.
          admin_rule (λ x. x.1.outside ≡ w.outside) (inspect S o.target) _
            (record w { catalog = (recover S o.target w.catalog).1 }) (λ e k. refl)
            (λ set k.
              dropped (require_idle o.target set (classify set))
                (expired_backups set o.backup_retention) _ refl))
    where
      dropped :
          (x : RunError ⊎ Unit {0}) (l : List Bytes) (w' : World Catalog W)
          → w'.outside ≡ w.outside
          → ((raise x >> admin (drop_all S l)) w').1.outside ≡ w.outside
      dropped (inl e) l w' h = h
      dropped (inr u) l w' h = from (drop_all S l w'.catalog)
        where
          from : (y : Result (Unit {0}) × Catalog) → (from_admin w' y).1.outside ≡ w.outside
          from (ok a, c) = h
          from (err e, c) = h

  run_locked_end :
      (w : World Catalog W) (r : RunResult)
      → (run_locked S K o w).0 ≡ inr r
      → (m : Manifest) × IsResolved K o w.outside m r.snapshot × (r.rows ≡ total_rows m)
  unfolding run_locked
  run_locked_end w r = result_rule (phase (recover_phase S K o)) _ w1 r (λ u done.
      result_rule (phase (resolve_snapshot S K o)) _ w2 r (λ chosen is.
        result_rule (name_staging S K) _ _ r (λ staging named h.
          let (snapshot, _, rows) = (replace-Gives chosen.0 chosen.1 staging).result_of _ r h in
          (
            chosen.0,
            subst2 chosen.0 (recover_phase_outside (started w1)) (sym snapshot)
                (resolve_snapshot_end S K o (started w2) chosen is),
            rows,
          ))))
    where
      w1 : World Catalog W
      w1 = record w { phases = record { total = total_phases o; n = pos 0 } }

      started : World Catalog W → World Catalog W
      started v = record v { phases = (start v.phases).0 }

      w2 : World Catalog W
      w2 = (phase (recover_phase S K o) w1).1

      subst2 :
          (m : Manifest) {a b : W} {s t : Bytes}
          → a ≡ b
          → s ≡ t
          → IsResolved K o a m s
          → IsResolved K o b m t
      subst2 m {a} {b} {s} e f h =
          subst (λ x. IsResolved K o b m x) f (subst (λ v. IsResolved K o v m s) e h)

  run_with_end :
      (w : World Catalog W) (r : RunResult) → (run_with S K o w).0 ≡ inr r → IsRestored w.outside r
  unfolding run_with
  run_with_end w r =
      outside_rule (raise (with_database K.parse_url o.admin_url admin_database)) _ w r
        (λ url connected. outside_rule (K.open_pool url (pos 2)) _ w r (λ u opened.
          outside_rule (K.try_lock o.target) _ _ r
            (λ locked is h. guarded url connected locked _ refl h)))
    where
      guarded :
          (url : Bytes)
          → with_database K.parse_url o.admin_url admin_database ≡ inr url
          → (locked : Bool) (w' : World Catalog W) → w'.outside ≡ at_lock url w.outside
          → ((if locked
                then defer
                    (λ v. record v { outside = K.unlock o.target v.outside })
                    (run_locked S K o)
                else throw (already_running o.target))
              w').0
            ≡ inr r
          → IsRestored w.outside r
      guarded url connected true w' e h =
          let (m, resolved, rows) = run_locked_end w' r h in
          record {
            url = url;
            connected = connected;
            manifest = m;
            resolved = subst (λ v. IsResolved K o v m r.snapshot) e resolved;
            rows = rows;
          }
      guarded url connected false w' e h = absurd (cc h)

-- A run that returns a result has connected to the admin database and taken the lock. From there on its
-- snapshot is the pinned one, or else the newest of the listing; the manifest is the one then read at
-- that snapshot's key, and `Validate` accepts it for the major version that the server then answers.
-- The rows of the result are that manifest's.
pub run-IsRestored :
    (S : Server) {W Body : Type 0} (K : Work W Body) (o : Options) (w : World S.Catalog W)
    (r : RunResult)
    → (run S K o w).0 ≡ inr r
    → IsRestored S K (with_defaults o) w.outside r
unfolding run
run-IsRestored S K o w r h = run_with_end S K (with_defaults o) w r h
