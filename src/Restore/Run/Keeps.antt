-- ===== src/Restore/Run/Keeps.antt =====
-- restore/run.go: what becomes of the target's database in a whole run.
use pg_snapshot.Base.{ℕ, ◌≡◌, refl, ◌∙◌, ap, ◌⊎◌, inl, inr, Bool, true, false, Option}
use pg_snapshot.Base.{some, is_some, subst, if◌then◌else◌, arith}
use pg_snapshot.Base.Int.{pos}
use pg_snapshot.Base.Bytes.{Bytes, =?_iff, =?_refl}
use pg_snapshot.Base.Act.{◌>>=◌, throw, settle_act_rule, defer}
use pg_snapshot.Export.Manifest.{Manifest}
use pg_snapshot.Restore.State.{is_backup_of}
use pg_snapshot.Restore.Server.{Server, IsLawful, Entry}
use pg_snapshot.Restore.Database.Ends.{oid_of, Names}
use pg_snapshot.Restore.World.{World, Work, RunError, phase, outside, already_running}
use pg_snapshot.Restore.Run.{Options, RunResult, Do, recover_phase, resolve_snapshot, with_defaults}
use pg_snapshot.Restore.Run.{admin_database}
use pg_snapshot.Restore.Run.Body.{replace, name_staging, run_locked, run_with, run, url_for}
use pg_snapshot.Restore.Run.Away.{phase-IsAway}
use pg_snapshot.Restore.Run.Fill.{
  name_staging-IsAway, url_for-IsAway, call-IsAway, resolve_snapshot-IsAway,
}
use pg_snapshot.Restore.Run.Replace.{RestoreEnd, Replaced, replace_end}
use pg_snapshot.Restore.Run.Recovered.{recover_phase_keeps}

-- What a run leaves of the database that the target's name stood for. With a result it is the backup,
-- and the target accepts connections; with an error it is the target, or a backup of it.
abbrev pub TargetEnd : Bytes → Option Entry → RunError ⊎ RunResult → Names → Type 0
TargetEnd target old (inr r) new =
    (is_backup_of target r.backup ≡ true)
    × (oid_of (new r.backup) ≡ oid_of old)
    × ((e : Entry) × (new target ≡ some e) × (e.accepts ≡ true))
TargetEnd target old (inl e) new =
    (oid_of (new target) ≡ oid_of old)
    ⊎ ((b : Bytes) × (is_backup_of target b ≡ true) × (oid_of (new b) ≡ oid_of old))

Replaced-backup :
    (target staging b : Bytes) (made : Option ℕ) (old new : Names)
    → is_some (old target) ≡ true
    → Replaced target staging b made old new
    → oid_of (new b) ≡ oid_of (old target)
Replaced-backup target staging b made old new there (kind, free, other, is, f) =
    ground (arith, f b, =?_refl b, =?_iff b target)

RestoreEnd-TargetEnd :
    (target staging : Bytes) (made : Option ℕ) (old new : Names) (r : RunError ⊎ RunResult)
    → is_some (old target) ≡ true
    → RestoreEnd target staging made old r new
    → TargetEnd target (old target) r new
RestoreEnd-TargetEnd target staging made old new (inr r) there (sw, gone, accepting) =
    (sw.0, Replaced-backup target staging r.backup made old new there sw, accepting)
RestoreEnd-TargetEnd target staging made old new (inl e) there (inl (kept, k)) = inl k
RestoreEnd-TargetEnd target staging made old new (inl e) there
      (inr (inl (b, cause, is, (kind, free, other, f)))) =
    inr (b, kind, ground (arith, f b, =?_refl b))
RestoreEnd-TargetEnd target staging made old new (inl e) there (inr (inr (b, sw))) =
    inr (b, sw.0, Replaced-backup target staging b made old new there sw)

module _ (S : Server) (L : IsLawful S) {W Body : Type 0} (K : Work W Body) (o : Options)
    (old : Option Entry) (there : is_some old ≡ true) where
  open S use {Catalog, entry}

  -- The end of a step, seen from a catalog where the target is `old`.
  abbrev RunEnds : (RunError ⊎ RunResult) × World Catalog W → Type 0
  RunEnds x = TargetEnd o.target old x.0 (entry x.1.catalog)

  -- A step that leaves the target alone, and then one that ends well from there.
  away-RunEnds :
      {A : Type 0} (m : Do S K A) (g : A → Do S K RunResult) (w : World Catalog W)
      → entry (m w).1.catalog o.target ≡ old
      → ((a : A) (w' : World Catalog W) → entry w'.catalog o.target ≡ old → RunEnds (g a w'))
      → RunEnds ((m >>= g) w)
  away-RunEnds m g w same later =
      settle_act_rule RunEnds (m w) _ g (λ e h. inl (ap oid_of same)) (λ a h. later a _ same)

  replaced_RunEnds :
      (m : Manifest) (snapshot staging : Bytes) (w : World Catalog W)
      → entry w.catalog o.target ≡ old
      → RunEnds (replace S K o m snapshot staging w)
  replaced_RunEnds m snapshot staging w e =
      let r = replace S K o m snapshot staging w in
      subst (λ x. TargetEnd o.target x r.0 (entry r.1.catalog)) e
        (RestoreEnd-TargetEnd o.target staging _ (entry w.catalog) (entry r.1.catalog) r.0
          (ap is_some e ∙ there) (replace_end S L K o m snapshot staging w (ap is_some e ∙ there)))

  run_locked-RunEnds :
      (w : World Catalog W) → entry w.catalog o.target ≡ old → RunEnds (run_locked S K o w)
  unfolding run_locked
  run_locked-RunEnds w e =
      away-RunEnds (phase (recover_phase S K o)) _ _
        (recover_phase_keeps S L K o _ (ap is_some e ∙ there) ∙ e)
        (λ u w1 e1.
          away-RunEnds (phase (resolve_snapshot S K o)) _ w1
            (ap (λ c. entry c o.target) ((phase-IsAway (resolve_snapshot-IsAway S K o)).stays w1)
              ∙ e1)
            (λ chosen w2 e2.
              away-RunEnds (name_staging S K) _ w2
                (ap (λ c. entry c o.target) ((name_staging-IsAway S K).stays w2) ∙ e2)
                (λ staging w3 e3. replaced_RunEnds chosen.0 chosen.1 staging w3 e3)))

  run_with-RunEnds :
      (w : World Catalog W) → entry w.catalog o.target ≡ old → RunEnds (run_with S K o w)
  unfolding run_with
  run_with-RunEnds w e =
      away-RunEnds (url_for S K o admin_database) _ w
        (ap (λ c. entry c o.target) ((url_for-IsAway S K o admin_database).stays w) ∙ e)
        (λ url w1 e1.
          away-RunEnds (outside (K.open_pool url (pos 2))) _ w1
            (ap (λ c. entry c o.target) ((call-IsAway S K (K.open_pool url (pos 2))).stays w1) ∙ e1)
            (λ u w2 e2.
              away-RunEnds (outside (K.try_lock o.target)) _ w2
                (ap (λ c. entry c o.target) ((call-IsAway S K (K.try_lock o.target)).stays w2) ∙ e2)
                (λ locked w3 e3. guarded locked w3 e3)))
    where
      guarded :
          (locked : Bool) (w' : World Catalog W)
          → entry w'.catalog o.target ≡ old
          → RunEnds (
              (if locked
                  then defer
                      (λ x. record x { outside = K.unlock o.target x.outside })
                      (run_locked S K o)
                  else throw (already_running o.target))
                w')
      guarded true w' k = run_locked-RunEnds w' k
      guarded false w' k = inl (ap oid_of k)

-- A whole run, from a catalog where the target exists, however any call fails. If it returns a result,
-- the target's name stands for a database that accepts connections, and the database that it stood for
-- is the backup of the result. If it returns an error, that database still has the target's name or the
-- name of a backup of the target: no run loses it.
pub run_end :
    (S : Server) (L : IsLawful S) {W Body : Type 0} (K : Work W Body) (o : Options)
    (w : World S.Catalog W)
    → is_some (S.entry w.catalog o.target) ≡ true
    → let r = run S K o w in
      TargetEnd o.target (S.entry w.catalog o.target) r.0 (S.entry r.1.catalog)
unfolding run with_defaults
run_end S L K o w there =
    run_with-RunEnds S L K (with_defaults o) (S.entry w.catalog o.target) there w refl
