-- ===== src/Restore/Run/Fill.antt =====
-- restore/run.go: the steps that fill the staging database leave the catalog of databases as it is.
use pg_snapshot.Base.{not, List, [], ◌∷◌, ◌++◌, keep, is_nil, inl, inr, ◌⊎◌}
use pg_snapshot.Base.{if◌then◌else◌}
use pg_snapshot.Base.Int.{pos}
use pg_snapshot.Base.Bytes.{Bytes, codes}
use pg_snapshot.Base.Dict.{contains}
use pg_snapshot.Base.Act.{Act, ◌>>=◌, ◌>>◌, give, raise}
use pg_snapshot.Blobstore.{Layout, manifest_key, schema_dump_key}
use pg_snapshot.Pg.Tools.{RestoreOptions, restore_section_args, analyze_args}
use pg_snapshot.Pg.Tools.{archive_lines, section_pre_data, section_post_data}
use pg_snapshot.Pg.Toc.{archive_extensions}
use pg_snapshot.Pg.Conn.{with_database, database_of}
use pg_snapshot.Export.Manifest.{Manifest, qualified}
use pg_snapshot.Restore.Server.{Server}
use pg_snapshot.Restore.Filter.{SchemaFilter, plan_schema_filter, Plan}
use pg_snapshot.Restore.Loader.{load_workers, pending, load_one, apply_sequences, LoadError}
use pg_snapshot.Restore.Slots.{Slot}
use pg_snapshot.Restore.World.{World, Work, outside, outside_as, phase}
use pg_snapshot.Restore.World.{calling, loading_data}
use pg_snapshot.Restore.Run.{Options}
use pg_snapshot.Restore.Run.{
  fetch_schema, or_remove, choose_snapshot, list_newest, accept_manifest, accepted,
}
use pg_snapshot.Restore.Run.{resolve_snapshot, snapshot_database}
use pg_snapshot.Restore.Run.Body.{prepare, name_staging}
use pg_snapshot.Base.{ℕ, ◌+◌, ◌≡◌, refl, arith}
use pg_snapshot.Restore.Run.Body.{restore_section, ask_available, filter_schema, restore_schema}
use pg_snapshot.Restore.Run.Body.{load_data, restore_constraints, migrate, carry_replication, fill}
use pg_snapshot.Restore.Run.Body.{planned, warn_unless_creatable, url_for}
use pg_snapshot.Restore.Run.Away.{IsAway, give-IsAway, raise-IsAway, bind-IsAway, outside-IsAway}
use pg_snapshot.Restore.Run.Away.{phase-IsAway, recount, if-IsAway, either-IsAway, counted}

-- The phases between the carried default privileges and the swap.
abbrev pub fill_phases : Options → ℕ
fill_phases o = 5 + ((if is_nil o.migrate_command then 0 else 1) + (if o.replication then 1 else 0))

module _ (S : Server) {W Body : Type 0} (K : Work W Body) where
  pub call-IsAway : {A : Type 0} (m : Act W Bytes A) → IsAway {C = S.Catalog} 0 (outside m)
  call-IsAway m = outside-IsAway calling m

  load : {A : Type 0} (m : Act W LoadError A) → IsAway {C = S.Catalog} 0 (outside_as loading_data m)
  load m = outside-IsAway loading_data m

  pub url_for-IsAway : (o : Options) (database : Bytes) → IsAway 0 (url_for S K o database)
  url_for-IsAway o database = call-IsAway (raise (with_database K.parse_url o.admin_url database))

  restore_section-IsAway :
      (url path : Bytes) (opts : RestoreOptions) → IsAway 0 (restore_section S K url path opts)
  unfolding restore_section
  restore_section-IsAway url path opts =
      bind-IsAway (call-IsAway (K.tool (codes "pg_restore") (restore_section_args url path opts)))
        (λ _. give-IsAway tt)

  ask_available-IsAway : (wanted : List Bytes) → IsAway 0 (ask_available S K wanted)
  ask_available-IsAway [] = give-IsAway []
  ask_available-IsAway (name ∷ wanted) = call-IsAway K.available_extensions

  planned-IsAway : (p : World S.Catalog W → Bytes ⊎ Plan) → IsAway 0 (λ w. planned S K (p w) w)
  unfolding counted
  planned-IsAway p = record { stays = λ w. catalog w (p w); counts = λ w a h. phases w (p w) }
    where
      catalog : (w : World S.Catalog W) (p : Bytes ⊎ Plan) → (planned S K p w).1.catalog ≡ w.catalog
      catalog w (inl e) = refl
      catalog w (inr (filter, files)) = refl

      phases : (w : World S.Catalog W) (p : Bytes ⊎ Plan) → (planned S K p w).1.phases ≡ w.phases
      phases w (inl e) = refl
      phases w (inr (filter, files)) = refl

  filter_schema-IsAway : (path : Bytes) → IsAway 0 (filter_schema S K path)
  unfolding filter_schema
  filter_schema-IsAway path =
      bind-IsAway (call-IsAway (K.tool (codes "pg_restore") (codes "--list" ∷ path ∷ []))) (λ out.
        bind-IsAway (ask_available-IsAway (archive_extensions (archive_lines out))) (λ available.
          planned-IsAway (λ w.
            plan_schema_filter (K.write_error w.outside) path (inr (archive_lines out))
              (inr available))))

  restore_schema-IsAway :
      (o : Options) (url path : Bytes) (filter : SchemaFilter)
      → IsAway 0 (restore_schema S K o url path filter)
  unfolding restore_schema
  restore_schema-IsAway o url path filter =
      bind-IsAway
        (either-IsAway (is_nil filter.extensions_list_path) (give-IsAway tt) (
          restore_section-IsAway url path (record {
            section = section_pre_data;
            list_path = filter.extensions_list_path;
            jobs = pos 0;
            role = [];
          })))
        (λ _. restore_section-IsAway url path (record {
          section = section_pre_data;
          list_path = filter.list_path;
          jobs = pos 0;
          role = o.owner;
        }))

  load_data-IsAway : (o : Options) (url : Bytes) (m : Manifest) → IsAway 0 (load_data S K o url m)
  unfolding load_data
  load_data-IsAway o url m = bind-IsAway (call-IsAway (K.extension_tables url)) (λ owned.
      bind-IsAway
        (load (
          K.load_all (load_one (K.loader url) K.quote_ident K.quote_literal)
            (load_workers o.workers)
            (pending (keep (λ e. not (contains (qualified e) owned)) m.tables))))
        (λ _. load (apply_sequences (K.loader url) K.quote_ident K.quote_literal m.sequences)))

  migrate-IsAway : (command url owner : Bytes) → IsAway 0 (migrate S K command url owner)
  unfolding migrate
  migrate-IsAway command url owner = either-IsAway (is_nil command) (give-IsAway tt) (
      call-IsAway (
        K.shell command (
          (codes "POSTGRES_URL=" ++ url)
          ∷ (codes "DATABASE_URL=" ++ url)
          ∷ (codes "OWNER_ROLE=" ++ owner)
          ∷ [])))

  carry_replication-IsAway :
      (o : Options) (target_url url : Bytes) → IsAway 0 (carry_replication S K o target_url url)
  unfolding carry_replication
  carry_replication-IsAway o target_url url =
      bind-IsAway (call-IsAway (K.carry_publications target_url url)) (λ _.
        bind-IsAway (call-IsAway (K.report_drift url)) (λ _.
          bind-IsAway (call-IsAway (K.capture_slots o.target))
            (λ slots. bind-IsAway (warned slots) (λ _. give-IsAway slots))))
    where
      warned : (slots : List Slot) → IsAway 0 (warn_unless_creatable S K slots)
      warned [] = give-IsAway tt
      warned (slot ∷ slots) = bind-IsAway (call-IsAway K.can_create_slots) (λ _. give-IsAway tt)

  -- The last steps of `fill`, from the privileges on.
  carries-IsAway :
      (o : Options) (staging url target_url : Bytes)
      → IsAway (2 + (if o.replication then 1 else 0)) (do
        phase (do
          outside (K.carry_settings o.target staging)
          outside (K.carry_privileges target_url url))
        slots ← (if o.replication then phase (carry_replication S K o target_url url) else give [])
        phase (outside (K.tool (codes "vacuumdb") (analyze_args url o.workers)))
        give slots)
  carries-IsAway o staging url target_url =
      recount
        (bind-IsAway
          (phase-IsAway (
            bind-IsAway (call-IsAway (K.carry_settings o.target staging))
              (λ _. call-IsAway (K.carry_privileges target_url url))))
          (λ _.
            bind-IsAway
              (if-IsAway o.replication (phase-IsAway (carry_replication-IsAway o target_url url))
                (give-IsAway []))
              (λ slots.
                bind-IsAway
                  (phase-IsAway
                    (call-IsAway (K.tool (codes "vacuumdb") (analyze_args url o.workers))))
                  (λ _. give-IsAway slots))))
        (omega arith)

  pub fill-IsAway :
      (o : Options) (m : Manifest) (staging url target_url path : Bytes)
      → IsAway (fill_phases o) (fill S K o m staging url target_url path)
  unfolding fill restore_constraints
  fill-IsAway o m staging url target_url path =
      recount
        (bind-IsAway (filter_schema-IsAway path) (λ filter.
          bind-IsAway (phase-IsAway (restore_schema-IsAway o url path filter)) (λ _.
            bind-IsAway (phase-IsAway (load_data-IsAway o url m)) (λ _.
              bind-IsAway (phase-IsAway (constraints filter)) (λ _.
                bind-IsAway
                  (if-IsAway (is_nil o.migrate_command) (give-IsAway tt)
                    (phase-IsAway (migrate-IsAway o.migrate_command url o.owner)))
                  (λ _. carries-IsAway o staging url target_url))))))
        (omega arith)
    where
      constraints : (filter : SchemaFilter) → IsAway 0 (restore_constraints S K o url path filter)
      constraints filter = restore_section-IsAway url path (record {
        section = section_post_data;
        list_path = filter.list_path;
        jobs = o.workers;
        role = o.owner;
      })

  fetch_schema-IsAway : (l : Layout) → IsAway 0 (fetch_schema S K l)
  unfolding fetch_schema
  fetch_schema-IsAway l = bind-IsAway (call-IsAway K.temp_dir) (λ dir.
      bind-IsAway
        (call-IsAway (
          or_remove S K dir (
            K.get_object (schema_dump_key l) >>= λ body.
            (K.create_file (dir ++ codes "/schema.dump")
              >> K.copy_to (dir ++ codes "/schema.dump") body))))
        (λ _. give-IsAway (dir, dir ++ codes "/schema.dump")))

  pub prepare-IsAway :
      (o : Options) (m : Manifest) (snapshot staging : Bytes)
      → IsAway 1 (prepare S K o m snapshot staging)
  unfolding prepare
  prepare-IsAway o m snapshot staging = bind-IsAway (url_for-IsAway o staging) (λ url.
      bind-IsAway (call-IsAway (K.open_pool url o.workers)) (λ _.
        bind-IsAway (url_for-IsAway o o.target) (λ target_url.
          bind-IsAway (call-IsAway (K.open_pool target_url (pos 1))) (λ _.
            bind-IsAway (phase-IsAway (call-IsAway (K.carry_defaults target_url url))) (λ _.
              bind-IsAway
                (fetch_schema-IsAway
                  (record { database = m.source.database; timestamp = snapshot }))
                (λ archive. give-IsAway (url, target_url, archive.0, archive.1)))))))

  list_newest-IsAway : (database : Bytes) → IsAway 0 (list_newest S K database)
  unfolding list_newest counted
  list_newest-IsAway database = record { stays = λ w. refl; counts = λ w a h. refl }

  choose_snapshot-IsAway :
      (o : Options) (database : Bytes) → IsAway 0 (choose_snapshot S K o database)
  unfolding choose_snapshot
  choose_snapshot-IsAway o database =
      either-IsAway (not (is_nil o.snapshot)) (give-IsAway o.snapshot) (list_newest-IsAway database)

  accept_manifest-IsAway : (m : Manifest) → IsAway 0 (accept_manifest S K m)
  unfolding accept_manifest
  accept_manifest-IsAway m =
      bind-IsAway (call-IsAway K.server_major) (λ major. raise-IsAway (accepted m major))

  pub resolve_snapshot-IsAway : (o : Options) → IsAway 0 (resolve_snapshot S K o)
  unfolding resolve_snapshot
  resolve_snapshot-IsAway o =
      bind-IsAway (call-IsAway (raise (database_of K.parse_url o.admin_url))) (λ url_database.
        bind-IsAway (choose_snapshot-IsAway o (snapshot_database o url_database)) (λ snapshot.
          bind-IsAway
            (call-IsAway (
              K.read_manifest (
                manifest_key
                  (record { database = snapshot_database o url_database; timestamp = snapshot }))))
            (λ m. bind-IsAway (accept_manifest-IsAway m) (λ _. give-IsAway (m, snapshot)))))

  pub name_staging-IsAway : IsAway 0 (name_staging S K)
  unfolding name_staging counted
  name_staging-IsAway = record { stays = λ w. refl; counts = λ w a h. refl }
