-- ===== src/Restore/Run.antt =====
-- restore/run.go: the order of the steps of a restore, and what a failure undoes. Closing pools is left
-- out: a session is not part of the model. Log lines are left out too.
pub mod Body
pub mod Away
pub mod Fill
pub mod End
pub mod Replace
pub mod Recovered
pub mod Retained
pub mod Keeps
pub mod Count
pub mod Resolved
pub mod Chosen
use pg_snapshot.Base.{Bool, true, false, not, List, [], ◌∷◌, ◌++◌, keep, is_nil, inl, inr, ◌⊎◌}
use pg_snapshot.Base.{if◌then◌else◌, Option, none, some}
use pg_snapshot.Base.Int.{ℤ, pos, ltb_ℤ, add64}
use pg_snapshot.Base.Bytes.{Bytes, codes, ◌=?◌}
use pg_snapshot.Base.Dict.{contains}
use pg_snapshot.Base.Act.{Act, ◌>>=◌, ◌>>◌, give, throw, raise, settle_act, defer}
use pg_snapshot.Blobstore.{
  Found, snapshots, Latest, latest, no_snapshots, not_listed, latest_snapshot,
}
use pg_snapshot.Blobstore.{Layout, manifest_key, schema_dump_key}
use pg_snapshot.Pg.Tools.{Phases, start, RestoreOptions, restore_section_args, analyze_args}
use pg_snapshot.Pg.Tools.{archive_lines, section_pre_data, section_post_data}
use pg_snapshot.Pg.Toc.{archive_extensions}
use pg_snapshot.Pg.Conn.{with_database, database_of}
use pg_snapshot.Export.Manifest.{Manifest, Refusal, validate, TableEntry, qualified, total_rows}
use pg_snapshot.Restore.State.{DatabaseSet, State, idle, classify, expired_backups, staging_name}
use pg_snapshot.Restore.State.{orphaned_staging, crashed_mid_swap, missing}
use pg_snapshot.Restore.Server.{Server}
use pg_snapshot.Restore.Database.{Error, Result, ok, err, M, inspect, create, drop, drop_all}
use pg_snapshot.Restore.Database.{recover, swap}
use pg_snapshot.Restore.Filter.{SchemaFilter, plan_schema_filter, Plan}
use pg_snapshot.Restore.Loader.{pending, load_one, apply_sequences, LoadCalls}
use pg_snapshot.Restore.Slots.{Slot, rebind}
use pg_snapshot.Restore.World.{World, Work, RunError, Go, outside, outside_as, admin, phase}
use pg_snapshot.Restore.World.{calling, administering, loading_data, already_running, not_idle}
use pg_snapshot.Restore.World.{nothing_to_restore, refused, no_random_bytes}

abbrev pub admin_database : Bytes
admin_database = codes "postgres"

pub record Options : Type 0 where
  pub admin_url : Bytes
  pub target : Bytes
  pub owner : Bytes
  pub source : Bytes
  pub snapshot : Bytes
  pub workers : ℤ
  pub backup_retention : ℤ
  pub migrate_command : Bytes
  pub replication : Bool

pub record RunResult : Type 0 where
  pub snapshot : Bytes
  pub staging : Bytes
  pub backup : Bytes
  pub rows : ℤ

-- The first two tests of `Run`.
unfoldable pub with_defaults : Options → Options
with_defaults o = record o {
  workers = if ltb_ℤ o.workers (pos 1) then pos 4 else o.workers;
  backup_retention = if ltb_ℤ o.backup_retention (pos 0) then pos 0 else o.backup_retention;
}

-- The number of phases that `Run` announces.
unfoldable pub total_phases : Options → ℤ
unfolding add64
total_phases o =
    add64 (if is_nil o.migrate_command then pos 9 else add64 (pos 9) (pos 1))
      (if o.replication then pos 2 else pos 0)

-- The database whose snapshots are looked at in `resolveSnapshot`.
unfoldable pub snapshot_database : Options → Bytes → Bytes
snapshot_database o url_database =
    if not (is_nil o.source)
    then o.source
    else if not (is_nil o.target)
    then o.target
    else url_database

-- What a listing and `LatestSnapshot` amount to.
unfoldable pub newest_listed : Bytes → Bytes ⊎ List Bytes → RunError ⊎ Bytes
unfolding latest_snapshot
newest_listed database listed = elim (latest_snapshot (λ _. found listed) database) [
  | latest s ↦ inr s
  | no_snapshots d ↦ inl (nothing_to_restore d)
  | not_listed e ↦ inl (calling e)
]
  where
    found : Bytes ⊎ List Bytes → Found
    found (inl e) = Found.failed e
    found (inr l) = snapshots l

unfoldable pub accepted : Manifest → ℤ → RunError ⊎ Unit {0}
unfolding validate
accepted m major = elim (validate m major) [ none ↦ inr tt | some r ↦ inl (refused r) ]

unfoldable pub require_idle : Bytes → DatabaseSet → State → RunError ⊎ Unit {0}
require_idle target set idle = inr tt
require_idle target set orphaned_staging = inl (not_idle target orphaned_staging set)
require_idle target set crashed_mid_swap = inl (not_idle target crashed_mid_swap set)
require_idle target set missing = inl (not_idle target missing set)

module _ (S : Server) {W Body : Type 0} (K : Work W Body) where
  abbrev pub Do : Type 0 → Type 0
  Do A = Go S.Catalog W A

  -- The end of `resolveSnapshot`: whether the manifest may be restored here.
  unfoldable pub accept_manifest : Manifest → Do (Unit {0})
  unfolding accepted
  accept_manifest m = do major ← outside K.server_major; raise (accepted m major)

  -- `LatestSnapshot` on the store.
  unfoldable pub list_newest : Bytes → Do Bytes
  unfolding newest_listed
  list_newest database w =
      let (listed, later) = K.list_prefixes (database ++ codes "/") w.outside in
      (newest_listed database listed, record w { outside = later })

  unfoldable pub choose_snapshot : Options → Bytes → Do Bytes
  unfolding list_newest
  choose_snapshot o database =
      if not (is_nil o.snapshot) then give o.snapshot else list_newest database

  unfoldable pub resolve_snapshot : Options → Do (Manifest × Bytes)
  unfolding choose_snapshot accept_manifest snapshot_database database_of manifest_key
  resolve_snapshot o = do
    url_database ← outside (raise (database_of K.parse_url o.admin_url))
    snapshot ← choose_snapshot o (snapshot_database o url_database)
    m ← outside (
        K.read_manifest (
          manifest_key
            (record { database = snapshot_database o url_database; timestamp = snapshot })))
    accept_manifest m
    give (m, snapshot)

  -- An error behind the creation of the temporary directory removes it.
  unfoldable pub or_remove : Bytes → Act W Bytes (Unit {0}) → Act W Bytes (Unit {0})
  or_remove dir m o = settle_act (m o) (λ e o'. (inl e, K.remove_all dir o')) give

  -- `fetchSchema`: the temporary directory, and the path of the archive in it.
  unfoldable pub fetch_schema : Layout → Do (Bytes × Bytes)
  unfolding or_remove schema_dump_key
  fetch_schema l = do
    dir ← outside K.temp_dir
    outside (
        or_remove dir (
          K.get_object (schema_dump_key l) >>= λ body.
          (K.create_file (dir ++ codes "/schema.dump")
            >> K.copy_to (dir ++ codes "/schema.dump") body)))
    give (dir, dir ++ codes "/schema.dump")

  -- The "recover" phase.
  unfoldable pub recover_phase : Options → Do (Unit {0})
  unfolding recover inspect require_idle classify expired_backups drop_all
  recover_phase o = do
    admin (recover S o.target)
    set ← admin (inspect S o.target)
    raise (require_idle o.target set (classify set))
    admin (drop_all S (expired_backups set o.backup_retention))
