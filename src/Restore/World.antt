-- ===== src/Restore/World.antt =====
-- restore/run.go: what a run acts on. A world is the server's catalog of databases, everything else
-- outside the program, and the phases counted so far. `Work` is the outside: a call of it changes only
-- that part of the world, since no call but those of `Admin` renames, creates or drops a database.
use pg_snapshot.Base.{Bool, List, Option, ◌⊎◌, inl, inr}
use pg_snapshot.Base.Int.{ℤ}
use pg_snapshot.Base.Bytes.{Bytes}
use pg_snapshot.Base.Dict.{Dict}
use pg_snapshot.Base.Act.{Act}
use pg_snapshot.Pg.Tools.{Phases, start}
use pg_snapshot.Pg.Conn.{ConnConfig}
use pg_snapshot.Export.Manifest.{Manifest, Refusal, TableEntry}
use pg_snapshot.Restore.State.{DatabaseSet, State}
use pg_snapshot.Restore.Database.{Error, Result, ok, err, M}
use pg_snapshot.Restore.Loader.{LoadCalls, LoadError}
use pg_snapshot.Restore.Slots.{Slot, SlotCalls}

pub record World (C W : Type 0) : Type 0 where
  pub catalog : C
  pub outside : W
  pub phases : Phases

-- The errors of `Run`, with what their messages interpolate.
pub data RunError : Type 0 where
  calling : Bytes → RunError
  administering : Error → RunError
  loading_data : LoadError → RunError
  already_running : Bytes → RunError
  not_idle : Bytes → State → DatabaseSet → RunError
  nothing_to_restore : Bytes → RunError
  refused : Refusal → RunError
  no_random_bytes : RunError

-- The calls of the standard library, of the drivers and of subprocesses, and of the parts of the
-- program that work inside one database. `load_all` is the pool of workers of `Load`, which is given
-- `loadOne`; the calls that take a url first work on
-- the pool opened with it; `stamp` is the clock in `BackupTimestampFormat`; `read_manifest` gets, reads and decodes.
pub record Work (W Body : Type 0) : Type 0 where
  pub parse_url : Bytes → Bytes ⊎ ConnConfig
  pub open_pool : Bytes → ℤ → Act W Bytes (Unit {0})
  pub try_lock : Bytes → Act W Bytes Bool
  pub unlock : Bytes → W → W
  pub random : W → Option Bytes × W
  pub stamp : W → Bytes × W
  pub list_prefixes : Bytes → Act W Bytes (List Bytes)
  pub read_manifest : Bytes → Act W Bytes Manifest
  pub server_major : Act W Bytes ℤ
  pub temp_dir : Act W Bytes Bytes
  pub remove_all : Bytes → W → W
  pub get_object : Bytes → Act W Bytes Body
  pub create_file : Bytes → Act W Bytes (Unit {0})
  pub copy_to : Bytes → Body → Act W Bytes (Unit {0})
  pub tool : Bytes → List Bytes → Act W Bytes Bytes
  pub available_extensions : Act W Bytes (List Bytes)
  pub write_error : W → Bytes → List Bytes → Option Bytes
  pub write_files : Dict (List Bytes) → W → W
  pub shell : Bytes → List Bytes → Act W Bytes (Unit {0})
  pub extension_tables : Bytes → Act W Bytes (List Bytes)
  pub loader : Bytes → LoadCalls W Body
  pub load_all :
      (TableEntry → Act W LoadError (Unit {0})) → ℤ → List TableEntry → Act W LoadError (Unit {0})
  pub carry_defaults : Bytes → Bytes → Act W Bytes (Unit {0})
  pub carry_privileges : Bytes → Bytes → Act W Bytes (Unit {0})
  pub carry_settings : Bytes → Bytes → Act W Bytes (Unit {0})
  pub carry_publications : Bytes → Bytes → Act W Bytes (Unit {0})
  pub report_drift : Bytes → Act W Bytes (Unit {0})
  pub capture_slots : Bytes → Act W Bytes (List Slot)
  pub can_create_slots : Act W Bytes Bool
  pub slot_calls : SlotCalls W
  pub quote_ident : Bytes → Bytes
  pub quote_literal : Bytes → Bytes

abbrev pub Go : Type 0 → Type 0 → Type 0 → Type 0
Go C W A = Act (World C W) RunError A

module _ {C W : Type 0} where
  abbrev pub from_outside :
      {E A : Type 0} → (E → RunError) → World C W → (E ⊎ A) × W → (RunError ⊎ A) × World C W
  from_outside wrap w (inl e, o) = (inl (wrap e), record w { outside = o })
  from_outside wrap w (inr a, o) = (inr a, record w { outside = o })

  -- A call of the outside, with its error wrapped.
  abbrev pub outside_as : {E A : Type 0} → (E → RunError) → Act W E A → Go C W A
  outside_as wrap m w = from_outside wrap w (m w.outside)

  abbrev pub outside : {A : Type 0} → Act W Bytes A → Go C W A
  outside m = outside_as calling m

  abbrev pub from_admin : {A : Type 0} → World C W → Result A × C → (RunError ⊎ A) × World C W
  from_admin w (err e, c) = (inl (administering e), record w { catalog = c })
  from_admin w (ok a, c) = (inr a, record w { catalog = c })

  -- A call of `Admin`.
  abbrev pub admin : {A : Type 0} → M C A → Go C W A
  admin m w = from_admin w (m w.catalog)

  -- `Phases.Run`: the error of the step is returned as it is.
  abbrev pub phase : {A : Type 0} → Go C W A → Go C W A
  phase m w = m (record w { phases = (start w.phases).0 })
