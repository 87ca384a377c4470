-- ===== src/Restore/Run/Retained.antt =====
-- restore/run.go: which databases a "recover" phase that succeeds drops, and which backups it retains.
use mathlib.Core.List.{Perm}
use pg_snapshot.Base.{◌≡◌, sym, subst, refl, inl, inr, ◌⊎◌, true, false, ◌||◌, none, is_some}
use pg_snapshot.Base.{List, ◌++◌, if◌then◌else◌, arith, All, length, min, ◌&&◌, Option}
use pg_snapshot.Base.Int.{ℤ, pos_part}
use pg_snapshot.Base.Bytes.{Bytes}
use pg_snapshot.Base.Sort.{less}
use pg_snapshot.Base.Dict.{contains}
use pg_snapshot.Base.Act.{◌>>◌, raise}
use pg_snapshot.Restore.State.{DatabaseSet, classify, expired_backups}
use pg_snapshot.Restore.State.Backups.{expired_backups_split}
use pg_snapshot.Restore.Server.{Server, IsLawful, Entry}
use pg_snapshot.Restore.Database.{M, Result, ok, err, drop_all, recover, inspect}
use pg_snapshot.Restore.Database.Calls.{inspect-Same}
use pg_snapshot.Restore.Database.Inspect.{backup_of, left_over, inspect-backups}
use pg_snapshot.Restore.Database.Recover.{drop_all-Without, recover_existing}
use pg_snapshot.Restore.World.{World, Work, RunError, admin, from_admin}
use pg_snapshot.Restore.Run.Away.{admin_rule}
use pg_snapshot.Restore.Run.{Options, recover_phase, require_idle}

-- The backups of the target are split: the dropped ones and, if there are enough, `keep` others, none
-- of which comes before a dropped one. The dropped ones and the left-over names are gone, and every
-- other name is as it was.
pub record Retention (target : Bytes) (keep : ℤ) (old new : Bytes → Option Entry) : Type 0 where
  pub backups : List Bytes
  pub dropped : List Bytes
  pub kept : List Bytes
  pub listed : (n : Bytes) → contains n backups ≡ (is_some (old n) && backup_of target n)
  pub split : Perm (dropped ++ kept) backups
  pub many : length kept ≡ min (pos_part keep) (length backups)
  pub oldest : All (λ gone. All (λ name. less name gone ≡ false) kept) dropped
  pub remains :
      (n : Bytes) → new n ≡ (if left_over target n || contains n dropped then none else old n)

-- A call of `Admin` that succeeds.
admin_ok :
    {C W A : Type 0} (m : M C A) (w : World C W) (a : A)
    → (admin m w).0 ≡ inr a
    → ((m w.catalog).0 ≡ ok a) × ((admin m w).1.catalog ≡ (m w.catalog).1)
admin_ok {C} {W} {A} m w a = from (m w.catalog)
  where
    from :
        (x : Result A × C)
        → (from_admin w x).0 ≡ inr a
        → (x.0 ≡ ok a) × ((from_admin w x).1.catalog ≡ x.1)
    from (ok b, c) h = (cc, refl)
    from (err e, c) h = cc

module _ (S : Server) (L : IsLawful S) {W Body : Type 0} (K : Work W Body) (o : Options) where
  open S use {Catalog, entry}

  backup-kept : (n : Bytes) → backup_of o.target n ≡ true → left_over o.target n ≡ false
  unfolding backup_of left_over
  backup-kept n h = ground arith

  -- A recovery, an inspection and the drops that succeed.
  drops-Retention :
      (c : Catalog) (set : DatabaseSet)
      → is_some (entry c o.target) ≡ true
      → let d = (recover S o.target c).1 in
        let l = expired_backups set o.backup_retention in
        (recover S o.target c).0 ≡ ok tt
        → (inspect S o.target d).0 ≡ ok set
        → (drop_all S l (inspect S o.target d).1).0 ≡ ok tt
        → Retention o.target o.backup_retention
            (entry c)
            (entry (drop_all S l (inspect S o.target d).1).1)
  drops-Retention c set alive first seen last =
      let d = (recover S o.target c).1 in
      let l = expired_backups set o.backup_retention in
      let (kept, split, many, oldest) = expired_backups_split set o.backup_retention in
      let gone = recover_existing S L o.target c alive first in
      record {
        backups = set.backups;
        dropped = l;
        kept = kept;
        listed =
            λ n. ground (arith, inspect-backups S L o.target d set seen n, gone n, backup-kept n);
        split = split;
        many = many;
        oldest = oldest;
        remains = λ n. ground (
          arith,
          drop_all-Without S L l (inspect S o.target d).1 last n,
          inspect-Same S L o.target d n,
          gone n,
        );
      }

  -- From a catalog where the target exists, a phase that succeeds drops the backups that come first by
  -- name and retains as many as the option asks for (none if it is negative, all if there are no
  -- more), drops the names that look like staging databases, and leaves every other name as it is.
  pub recover_phase_retains :
      (w : World Catalog W)
      → is_some (entry w.catalog o.target) ≡ true
      → (recover_phase S K o w).0 ≡ inr tt
      → Retention o.target o.backup_retention
          (entry w.catalog)
          (entry (recover_phase S K o w).1.catalog)
  unfolding recover_phase
  recover_phase_retains w alive =
      admin_rule (λ x. x.0 ≡ inr tt → Ends x.1) (recover S o.target) _ w
        (λ e h bad. absurd (cc bad))
        (λ u h.
          let c = (recover S o.target w.catalog).1 in
          admin_rule (λ x. x.0 ≡ inr tt → Ends x.1) (inspect S o.target) _
            (record w { catalog = c }) (λ e k bad. absurd (cc bad))
            (λ set k. checked u set h k (require_idle o.target set (classify set))))
    where
      Ends : World Catalog W → Type 0
      Ends w' = Retention o.target o.backup_retention (entry w.catalog) (entry w'.catalog)

      checked :
          (u : Unit {0}) (set : DatabaseSet)
          → let c = (recover S o.target w.catalog).1 in
            let l = expired_backups set o.backup_retention in
            let w' = record w { catalog = (inspect S o.target c).1 } in
            (recover S o.target w.catalog).0 ≡ ok u
            → (inspect S o.target c).0 ≡ ok set
            → (r : RunError ⊎ Unit {0}) → ((raise r >> admin (drop_all S l)) w').0 ≡ inr tt
            → Ends ((raise r >> admin (drop_all S l)) w').1
      checked u set first seen (inl e) bad = absurd (cc bad)
      checked u set first seen (inr v) h =
          let c = (recover S o.target w.catalog).1 in
          let l = expired_backups set o.backup_retention in
          let w' = record w { catalog = (inspect S o.target c).1 } in
          let (last, e) = admin_ok (drop_all S l) w' tt h in
          subst (λ d. Retention o.target o.backup_retention (entry w.catalog) (entry d)) (sym e)
            (drops-Retention w.catalog set alive first seen last)
