-- ===== src/Restore/Run/Body.antt =====
-- restore/run.go: the steps between the choice of a snapshot and the end of `Run`, and `Run` itself.
use pg_snapshot.Base.{not, List, [], ◌∷◌, ◌++◌, keep, is_nil, inl, inr, ◌⊎◌}
use pg_snapshot.Base.{if◌then◌else◌, Option, none, some}
use pg_snapshot.Base.Int.{pos}
use pg_snapshot.Base.Bytes.{Bytes, codes}
use pg_snapshot.Base.Dict.{contains}
use pg_snapshot.Base.Act.{◌>>=◌, ◌>>◌, give, throw, raise, settle_act, defer}
use pg_snapshot.Pg.Tools.{RestoreOptions, restore_section_args, analyze_args}
use pg_snapshot.Pg.Tools.{archive_lines, section_pre_data, section_post_data}
use pg_snapshot.Pg.Toc.{archive_extensions}
use pg_snapshot.Pg.Conn.{with_database}
use pg_snapshot.Export.Manifest.{Manifest, qualified, total_rows}
use pg_snapshot.Restore.State.{staging_name}
use pg_snapshot.Restore.Server.{Server}
use pg_snapshot.Restore.Database.{Error, Result, ok, err, create, drop}
use pg_snapshot.Restore.Database.{swap}
use pg_snapshot.Restore.Filter.{SchemaFilter, plan_schema_filter, Plan}
use pg_snapshot.Restore.Loader.{load_workers, pending, load_one, apply_sequences}
use pg_snapshot.Restore.Slots.{Slot, rebind}
use pg_snapshot.Restore.World.{World, Work, outside, outside_as, admin, phase}
use pg_snapshot.Restore.World.{calling, loading_data, already_running}
use pg_snapshot.Restore.World.{no_random_bytes}
use pg_snapshot.Restore.Run.{admin_database, Options, RunResult, with_defaults, total_phases, Do}
use pg_snapshot.Restore.Run.{resolve_snapshot, fetch_schema, recover_phase}

module _ (S : Server) {W Body : Type 0} (K : Work W Body) where
  abbrev pub url_for : Options → Bytes → Do S K Bytes
  url_for o database = outside (raise (with_database K.parse_url o.admin_url database))

  -- `RestoreSection`
  unfoldable pub restore_section : Bytes → Bytes → RestoreOptions → Do S K (Unit {0})
  unfolding restore_section_args
  restore_section url path opts =
      outside (K.tool (codes "pg_restore") (restore_section_args url path opts)) >> give tt

  -- `unsupportedExtensions` asks only where extensions are wanted.
  abbrev pub ask_available : List Bytes → Do S K (List Bytes)
  ask_available [] = give []
  ask_available (name ∷ wanted) = outside K.available_extensions

  abbrev pub planned : Bytes ⊎ Plan → Do S K SchemaFilter
  planned (inl e) w = (inl (calling e), w)
  planned (inr (filter, files)) w =
      (inr filter, record w { outside = K.write_files files w.outside })

  -- `PlanSchemaFilter` with its readings and the files it writes.
  unfoldable pub filter_schema : Bytes → Do S K SchemaFilter
  unfolding archive_lines archive_extensions plan_schema_filter
  filter_schema path = do
    out ← outside (K.tool (codes "pg_restore") (codes "--list" ∷ path ∷ []))
    available ← ask_available (archive_extensions (archive_lines out))
    (λ w.
        planned
          (plan_schema_filter (K.write_error w.outside) path (inr (archive_lines out))
            (inr available))
          w)

  -- The "restore schema" phase.
  unfoldable pub restore_schema : Options → Bytes → Bytes → SchemaFilter → Do S K (Unit {0})
  unfolding restore_section
  restore_schema o url path filter = do
    (if is_nil filter.extensions_list_path
        then give tt
        else restore_section url path (record {
          section = section_pre_data;
          list_path = filter.extensions_list_path;
          jobs = pos 0;
          role = [];
        }))
    restore_section url path (record {
      section = section_pre_data;
      list_path = filter.list_path;
      jobs = pos 0;
      role = o.owner;
    })

  -- The "load data" phase.
  unfoldable pub load_data : Options → Bytes → Manifest → Do S K (Unit {0})
  unfolding contains pending load_one load_workers apply_sequences
  load_data o url m = do
    owned ← outside (K.extension_tables url)
    outside_as loading_data (
        K.load_all (load_one (K.loader url) K.quote_ident K.quote_literal) (load_workers o.workers)
          (pending (keep (λ e. not (contains (qualified e) owned)) m.tables)))
    outside_as loading_data
        (apply_sequences (K.loader url) K.quote_ident K.quote_literal m.sequences)

  -- The "restore constraints and indexes" phase.
  unfoldable pub restore_constraints : Options → Bytes → Bytes → SchemaFilter → Do S K (Unit {0})
  unfolding restore_section
  restore_constraints o url path filter = restore_section url path (record {
    section = section_post_data;
    list_path = filter.list_path;
    jobs = o.workers;
    role = o.owner;
  })

  -- `Migrator.Run`: the command, and what is added to its environment.
  unfoldable pub migrate : Bytes → Bytes → Bytes → Do S K (Unit {0})
  migrate command url owner =
      if is_nil command
      then give tt
      else outside (
          K.shell command (
            (codes "POSTGRES_URL=" ++ url)
            ∷ (codes "DATABASE_URL=" ++ url)
            ∷ (codes "OWNER_ROLE=" ++ owner)
            ∷ []))

  abbrev pub warn_unless_creatable : List Slot → Do S K (Unit {0})
  warn_unless_creatable [] = give tt
  warn_unless_creatable (slot ∷ slots) = outside K.can_create_slots >> give tt

  -- The "carry publications" phase, and the slots that it captures.
  unfoldable pub carry_replication : Options → Bytes → Bytes → Do S K (List Slot)
  carry_replication o target_url url = do
    outside (K.carry_publications target_url url)
    outside (K.report_drift url)
    slots ← outside (K.capture_slots o.target)
    warn_unless_creatable slots
    give slots

  -- The steps from the filter to the statistics, and the slots captured on the way.
  unfoldable pub fill : Options → Manifest → Bytes → Bytes → Bytes → Bytes → Do S K (List Slot)
  unfolding filter_schema restore_schema load_data restore_constraints migrate carry_replication
      analyze_args
  fill o m staging url target_url path = do
    filter ← filter_schema path
    phase (restore_schema o url path filter)
    phase (load_data o url m)
    phase (restore_constraints o url path filter)
    (if is_nil o.migrate_command then give tt else phase (migrate o.migrate_command url o.owner))
    phase (do
      outside (K.carry_settings o.target staging)
      outside (K.carry_privileges target_url url))
    slots ← (if o.replication then phase (carry_replication o target_url url) else give [])
    phase (outside (K.tool (codes "vacuumdb") (analyze_args url o.workers)))
    give slots

  abbrev pub swapped : (Bytes × Option Error) × S.Catalog → Result Bytes × S.Catalog
  swapped ((backup, none), c) = (ok backup, c)
  swapped ((backup, some e), c) = (err e, c)

  -- The "swap" phase.
  unfoldable pub swap_phase : Options → Bytes → Do S K Bytes
  unfolding swap
  swap_phase o staging w =
      let (now, later) = K.stamp w.outside in
      admin (λ c. swapped (swap S o.target staging now c)) (record w { outside = later })

  -- The "rebind replication slots" phase, which returns no error.
  unfoldable pub rebind_phase : Bytes → List Slot → Do S K (Unit {0})
  unfolding rebind
  rebind_phase target_url slots w =
      (inr tt, record w { outside = (rebind K.slot_calls target_url slots w.outside).1 })

  -- The steps behind the download of the archive.
  unfoldable pub fill_and_swap :
      Options → Manifest → Bytes → Bytes → Bytes → Bytes → Bytes → Do S K RunResult
  unfolding fill swap_phase rebind_phase total_rows
  fill_and_swap o m snapshot staging url target_url path = do
    slots ← fill o m staging url target_url path
    backup ← phase (swap_phase o staging)
    (if o.replication then phase (rebind_phase target_url slots) else give tt)
    give (record { snapshot = snapshot; staging = staging; backup = backup; rows = total_rows m })

  abbrev pub remove_dir : Bytes → World S.Catalog W → World S.Catalog W
  remove_dir dir w = record w { outside = K.remove_all dir w.outside }

  -- The steps up to the download of the archive: the urls of both databases, the temporary directory
  -- and the archive's path.
  unfoldable pub prepare :
      Options → Manifest → Bytes → Bytes → Do S K (Bytes × Bytes × Bytes × Bytes)
  unfolding fetch_schema with_database
  prepare o m snapshot staging = do
    url ← url_for o staging
    outside (K.open_pool url o.workers)
    target_url ← url_for o o.target
    outside (K.open_pool target_url (pos 1))
    phase (outside (K.carry_defaults target_url url))
    archive ← fetch_schema S K (record { database = m.source.database; timestamp = snapshot })
    give (url, target_url, archive.0, archive.1)

  -- The steps behind the creation of the staging database.
  unfoldable pub restore_into : Options → Manifest → Bytes → Bytes → Do S K RunResult
  unfolding prepare fill_and_swap
  restore_into o m snapshot staging = do
    p ← prepare o m snapshot staging
    defer (remove_dir p.2) (fill_and_swap o m snapshot staging p.0 p.1 p.3)

  -- The deferred function of `Run`: an error drops the staging database.
  unfoldable pub or_discard : Bytes → Do S K RunResult → Do S K RunResult
  unfolding drop
  or_discard staging m w = settle_act (m w) (λ e w'. (inl e, (admin (drop S staging) w').1)) give

  unfoldable pub name_staging : Do S K Bytes
  unfolding staging_name
  name_staging w =
      let (random, later) = K.random w.outside in
      (
        elim (staging_name random) [ none ↦ inl no_random_bytes | some name ↦ inr name ],
        record w { outside = later },
      )

  -- `Run` once a staging database is named.
  unfoldable pub replace : Options → Manifest → Bytes → Bytes → Do S K RunResult
  unfolding create or_discard restore_into
  replace o m snapshot staging = do
    admin (create S staging o.owner)
    or_discard staging (restore_into o m snapshot staging)

  -- `Run` under the lock.
  unfoldable pub run_locked : Options → Do S K RunResult
  unfolding total_phases recover_phase resolve_snapshot name_staging replace
  run_locked o w =
      (do
        phase (recover_phase S K o)
        chosen ← phase (resolve_snapshot S K o)
        staging ← name_staging
        replace o chosen.0 chosen.1 staging)
        (record w { phases = record { total = total_phases o; n = pos 0 } })

  -- `Run`
  unfoldable pub run_with : Options → Do S K RunResult
  unfolding run_locked with_database
  run_with o = do
    url ← url_for o admin_database
    outside (K.open_pool url (pos 2))
    locked ← outside (K.try_lock o.target)
    (if locked
        then defer (λ w. record w { outside = K.unlock o.target w.outside }) (run_locked o)
        else throw (already_running o.target))

  unfoldable pub run : Options → Do S K RunResult
  unfolding with_defaults run_with
  run o = run_with (with_defaults o)
