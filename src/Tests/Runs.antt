-- ===== src/Tests/Runs.antt =====
-- The theorems of restore/run.go and restore/slots.go on a small instance.
use pg_snapshot.Base.{◌≡◌, refl, inr, Bool, true, false, List, [], ◌∷◌, Option, none, some}
use pg_snapshot.Base.{if◌then◌else◌}
use pg_snapshot.Base.Int.{pos}
use pg_snapshot.Base.Bytes.{Bytes, codes, ◌=?◌}
use pg_snapshot.Base.Act.{Act}
use pg_snapshot.Base.Dict.{lookup, contains}
use pg_snapshot.Pg.Conn.{ConnConfig}
use pg_snapshot.Export.Manifest.{Manifest}
use pg_snapshot.Restore.Loader.{LoadCalls}
use pg_snapshot.Restore.Slots.{Slot, SlotCalls, Session, admin_session, target_session}
use pg_snapshot.Restore.Slots.{rebind}
use pg_snapshot.Restore.Slots.Rebound.{Held, IsCluster, Rebound, rebind_end}
use pg_snapshot.Restore.State.{backup_name}
use pg_snapshot.Restore.Database.{
  set_allow_connections, terminate_connections, rename, unique_backup_name, drop, create,
}
use pg_snapshot.Restore.World.{World, Work}
use pg_snapshot.Restore.Run.{with_defaults, Options, RunResult, total_phases, recover_phase}
use pg_snapshot.Restore.Run.Retained.{Retention, recover_phase_retains}
use pg_snapshot.Restore.Run.Body.{run, replace}
use pg_snapshot.Restore.Run.Replace.{RestoreEnd, replace_end}
use pg_snapshot.Restore.Run.Keeps.{TargetEnd, run_end}
use pg_snapshot.Restore.Run.Count.{run_phases}
use pg_snapshot.Restore.Run.Chosen.{IsRestored, run-IsRestored}
use pg_snapshot.Tests.Instance.{
  execute, perform, Instance, instance_server, instance_server-IsLawful,
}

-- A cluster is its slots by name.
abbrev Cluster : Type 0
Cluster = Bytes → Option Held

abbrev activity : Option Held → Option Bool
activity none = none
activity (some h) = some h.active

-- The database of a session is the one that its url names.
abbrev named : Session → Bytes
named admin_session = codes "postgres"
named (target_session url) = url

abbrev cluster_calls : SlotCalls Cluster
cluster_calls = record {
  connect = λ url c. (inr tt, c);
  find_slot = λ z n c. (inr (activity (c n)), c);
  drop_slot = λ z n c. (inr tt, λ k. if k =? n then none else c k);
  create_slot = λ z n p t c. (
    inr tt,
    λ k.
        if k =? n
        then some (record { active = false; plugin = p; two_phase = t; database = named z })
        else c k,
  );
}

abbrev cluster_calls-IsCluster : IsCluster cluster_calls
cluster_calls-IsCluster = record {
  slot_at = λ c. c;
  database_at = named;
  connect_same = λ url c k. refl;
  find_same = λ z n c k. refl;
  drop_failed = λ z n c e h k. cc;
  drop_done = λ z n c u h k. refl;
  create_failed = λ z n p t c e h k. cc;
  create_done = λ z n p t c u h k. refl;
}

abbrev two_slots : List Slot
two_slots =
    record { name = codes "a"; plugin = codes "pgoutput"; two_phase = false }
    ∷ record { name = codes "b"; plugin = codes "pgoutput"; two_phase = true }
    ∷ []

-- One slot is an orphan, the other is still in use.
abbrev two_held : Cluster
two_held n =
    if n =? codes "a"
    then some (record {
      active = false;
      plugin = codes "pgoutput";
      two_phase = false;
      database = codes "app";
    })
    else if n =? codes "b"
    then some (record {
      active = true;
      plugin = codes "pgoutput";
      two_phase = true;
      database = codes "app";
    })
    else none

rebind_end_example :
    Rebound cluster_calls cluster_calls-IsCluster
      (codes "app")
      two_slots
      two_held
      (rebind cluster_calls (codes "app") two_slots two_held)
unfolding contains ◌=?◌
rebind_end_example =
    rebind_end cluster_calls cluster_calls-IsCluster (codes "app") two_slots two_held (λ h. cc)
      (refl, (refl, tt))

-- An outside where every call answers at once.
abbrev small_manifest : Manifest
small_manifest = record {
  version = pos 1;
  source = record { server_major = pos 16; database = codes "app" };
  scrubbed = true;
  fk_mode = [];
  tables = [];
  sequences = [];
}

abbrev local_config : ConnConfig
local_config = record {
  user = codes "u";
  password = [];
  host = codes "h";
  port = 5432;
  database = codes "postgres";
}

abbrev done : Act Cluster Bytes (Unit {0})
done c = (inr tt, c)

abbrev quiet_loader : LoadCalls Cluster Bytes
quiet_loader = record {
  acquire = done;
  run_sql = λ q. done;
  get = λ k c. (inr [], c);
  gunzip = λ b c. (inr b, c);
  copy_from = λ b q c. (inr (pos 0), c);
}

abbrev quiet : Work Cluster Bytes
quiet = record {
  parse_url = λ url. inr local_config;
  open_pool = λ url n. done;
  try_lock = λ t c. (inr true, c);
  unlock = λ t c. c;
  random = λ c. (some (1 ∷ 2 ∷ 3 ∷ 4 ∷ []), c);
  stamp = λ c. (codes "20260101000000", c);
  list_prefixes = λ p c. (inr [], c);
  read_manifest = λ k c. (inr small_manifest, c);
  server_major = λ c. (inr (pos 16), c);
  temp_dir = λ c. (inr (codes "/tmp/x"), c);
  remove_all = λ d c. c;
  get_object = λ k c. (inr [], c);
  create_file = λ p. done;
  copy_to = λ p b. done;
  tool = λ n args c. (inr [], c);
  available_extensions = λ c. (inr [], c);
  write_error = λ c p l. none;
  write_files = λ d c. c;
  shell = λ q env. done;
  extension_tables = λ url c. (inr [], c);
  loader = λ url. quiet_loader;
  load_all = λ one n l c. (inr tt, c);
  carry_defaults = λ f t. done;
  carry_privileges = λ f t. done;
  carry_settings = λ f t. done;
  carry_publications = λ f t. done;
  report_drift = λ url. done;
  capture_slots = λ d c. (inr two_slots, c);
  can_create_slots = λ c. (inr true, c);
  slot_calls = cluster_calls;
  quote_ident = λ s. s;
  quote_literal = λ s. s;
}

abbrev small_options : Options
small_options = record {
  admin_url = [];
  target = codes "app";
  owner = [];
  source = [];
  snapshot = codes "s1";
  workers = pos 0;
  backup_retention = pos 1;
  migrate_command = [];
  replication = true;
}

abbrev before_run : World Instance Cluster
before_run = record {
  catalog = record {
    databases = (codes "app", record { oid = 1; accepts = true }) ∷ [];
    faults = [];
  };
  outside = two_held;
  phases = record { total = pos 0; n = pos 0 };
}

replace_end_example :
    let r =
      replace instance_server quiet small_options small_manifest
        (codes "s1")
        (codes "restored_01")
        before_run in
    RestoreEnd
      (codes "app")
      (codes "restored_01")
      (some 9)
      (instance_server.entry before_run.catalog)
      r.0
      (instance_server.entry r.1.catalog)
unfolding lookup ◌=?◌ create execute
replace_end_example =
    replace_end instance_server instance_server-IsLawful quiet small_options small_manifest
      (codes "s1") (codes "restored_01") before_run refl

run_end_example :
    let r = run instance_server quiet small_options before_run in
    TargetEnd
      (codes "app")
      (instance_server.entry before_run.catalog (codes "app"))
      r.0
      (instance_server.entry r.1.catalog)
unfolding lookup ◌=?◌
run_end_example =
    run_end instance_server instance_server-IsLawful quiet small_options before_run refl

-- Two backups of the target, one more than the option retains, and a left-over staging database.
abbrev before_recovery : World Instance Cluster
before_recovery = record before_run {
  catalog = record {
    databases =
        (codes "app", record { oid = 1; accepts = true })
        ∷ (codes "app_backup_20260101000000", record { oid = 2; accepts = false })
        ∷ (codes "app_backup_20250101000000", record { oid = 3; accepts = false })
        ∷ (codes "restored_1", record { oid = 4; accepts = true })
        ∷ [];
    faults = [];
  };
}

recover_phase_retains_example :
    Retention (codes "app") (pos 1) (instance_server.entry before_recovery.catalog) (
      instance_server.entry
        (recover_phase instance_server quiet small_options before_recovery).1.catalog)
unfolding lookup recover_phase execute perform drop
recover_phase_retains_example =
    recover_phase_retains instance_server instance_server-IsLawful quiet small_options
      before_recovery refl refl

abbrev small_result : RunResult
small_result = record {
  snapshot = codes "s1";
  staging = codes "restored_01020304";
  backup = codes "app_backup_20260101000000";
  rows = pos 0;
}

run_succeeds : (run instance_server quiet small_options before_run).0 ≡ inr small_result
unfolding run execute set_allow_connections terminate_connections unique_backup_name rename
    backup_name
run_succeeds = refl

run_phases_example :
    (run instance_server quiet small_options before_run).1.phases
    ≡ record { total = total_phases small_options; n = total_phases small_options }
run_phases_example =
    run_phases instance_server quiet small_options before_run small_result run_succeeds

run-IsRestored_example :
    IsRestored instance_server quiet (with_defaults small_options) two_held small_result
run-IsRestored_example =
    run-IsRestored instance_server quiet small_options before_run small_result run_succeeds
