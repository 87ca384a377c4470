-- ===== src/Restore/Publications.antt =====
-- restore/publications.go: the target's publications, created again in the staging database. The two
-- sessions are a parameter; `quote_ident` and `quote_literal` are lib/pq's. Log lines are left out.
pub mod Memberships
use pg_snapshot.Base.{
  Bool, true, false, List, [], ◌∷◌, ◌++◌, Option, none, some, ◌⊎◌, inl, inr, map, is_nil,
}
use pg_snapshot.Base.{if◌then◌else◌}
use pg_snapshot.Base.Bytes.{Bytes, codes, join}
use pg_snapshot.Base.Sort.{sort}
use pg_snapshot.Base.Dict.{add}
use pg_snapshot.Base.Act.{Act, settle_act, ◌>>=◌, ◌>>◌, give, throw, wrapped}
use pg_snapshot.Restore.Tempgrant.{
  RoleCalls, Membership, BorrowError, Borrowed, borrow_roles, release,
}

pub record PublicationTable : Type 0 where
  pub schema : Bytes
  pub name : Bytes
  pub columns : List Bytes
  pub row_filter : Bytes

pub record Publication : Type 0 where
  pub name : Bytes
  pub all_tables : Bool
  pub schemas : List Bytes
  pub tables : List PublicationTable
  pub publish : Bytes
  pub via_root : Bool

-- A row of `publicationsSql`.
pub record PublicationRow : Type 0 where
  pub name : Bytes
  pub all_tables : Bool
  pub inserts : Bool
  pub updates : Bool
  pub deletes : Bool
  pub truncates : Bool
  pub via_root : Bool

-- The loop of `publishList` over the names that are on.
unfoldable pub publish_list : Bool → Bool → Bool → Bool → Bytes
unfolding join
publish_list inserts updates deletes truncates =
    join
      ((if inserts then codes "insert" ∷ [] else [])
        ++ ((if updates then codes "update" ∷ [] else [])
            ++ ((if deletes then codes "delete" ∷ [] else [])
                ++ (if truncates then codes "truncate" ∷ [] else []))))
      (codes ", ")

-- The distinct schemas of the tables of a publication, sorted.
unfoldable pub table_schemas : List PublicationTable → List Bytes
unfolding add
table_schemas [] = []
table_schemas (t ∷ tables) = add t.schema (table_schemas tables)

module _ (quote_ident quote_literal : Bytes → Bytes) where
  unfoldable pub table_quoted : PublicationTable → Bytes
  table_quoted t =
      if is_nil t.schema
      then quote_ident t.name
      else quote_ident t.schema ++ (codes "." ++ quote_ident t.name)

  -- `definition` of a table.
  unfoldable pub table_definition : PublicationTable → Bytes
  unfolding table_quoted join
  table_definition t =
      table_quoted t
      ++ ((if is_nil t.columns
            then []
            else codes " (" ++ (join (map quote_ident t.columns) (codes ", ") ++ codes ")"))
          ++ (if is_nil t.row_filter then [] else codes " WHERE (" ++ (t.row_filter ++ codes ")")))

  -- What the statement publishes.
  unfoldable pub published_objects : Publication → Bytes
  unfolding table_definition join
  published_objects p =
      if p.all_tables
      then codes " FOR ALL TABLES"
      else if is_nil p.tables
      then (if is_nil p.schemas
          then []
          else codes " FOR TABLES IN SCHEMA " ++ join (map quote_ident p.schemas) (codes ", "))
      else codes " FOR "
        ++ join
            ((codes "TABLE " ++ join (map table_definition p.tables) (codes ", "))
              ∷ (if is_nil p.schemas
                  then []
                  else (codes "TABLES IN SCHEMA " ++ join (map quote_ident p.schemas) (codes ", "))
                    ∷ []))
            (codes ", ")

  unfoldable pub create_publication_sql : Publication → Bytes
  unfolding published_objects join
  create_publication_sql p =
      codes "CREATE PUBLICATION "
      ++ (quote_ident p.name
          ++ (published_objects p
              ++ (codes " WITH ("
                  ++ (join
                        ((codes "publish = " ++ quote_literal p.publish)
                          ∷ (if p.via_root
                              then codes "publish_via_partition_root = true" ∷ []
                              else []))
                        (codes ", ")
                      ++ codes ")"))))

pub data PublicationError : Type 0 where
  reading_publications : Bytes → PublicationError
  reading_schemas reading_tables : Bytes → Bytes → PublicationError
  reading_identity reading_owner : Bytes → PublicationError
  reading_relation_owners : Bytes → Bytes → PublicationError
  not_acquired : Bytes → Bytes → BorrowError → PublicationError
  cannot_act : Bytes → List Bytes → Bytes → PublicationError
  creating_publication : Bytes → Bytes → PublicationError

-- The queries on the two databases, and the statements on the staging one.
pub record PublicationCalls (W : Type 0) : Type 0 where
  pub list_publications : Act W Bytes (List PublicationRow)
  pub schemas_of : Bytes → Act W Bytes (List Bytes)
  pub tables_of : Bytes → Act W Bytes (List PublicationTable)
  pub conn_info : Act W Bytes (Bytes × Bool)
  pub database_owner : Act W Bytes Bytes
  pub relation_owners : Bytes → Act W Bytes (List Bytes)
  pub exec_sql : Bytes → Act W Bytes (Unit {0})
  pub role_calls : RoleCalls W

module _ {W : Type 0} (calls : PublicationCalls W) (quote_ident quote_literal : Bytes → Bytes) where
  open calls use {list_publications, schemas_of, tables_of, conn_info, database_owner}
  open calls use {relation_owners, exec_sql, role_calls}

  abbrev pub with_parts : PublicationRow → List Bytes → List PublicationTable → Publication
  unfolding publish_list
  with_parts r schemas tables = record {
    name = r.name;
    all_tables = r.all_tables;
    schemas = schemas;
    tables = tables;
    publish = publish_list r.inserts r.updates r.deletes r.truncates;
    via_root = r.via_root;
  }

  -- The second loop of `ReadPublications`.
  unfoldable pub read_parts : List PublicationRow → Act W PublicationError (List Publication)
  read_parts [] = give []
  read_parts (r ∷ rows) =
      let rest = read_parts rows in
      (wrapped (reading_schemas r.name) (schemas_of r.name) >>= λ schemas.
      (wrapped (reading_tables r.name) (tables_of r.name) >>= λ tables.
      (rest >>= λ out. give (with_parts r schemas tables ∷ out))))

  unfoldable pub read_publications : Act W PublicationError (List Publication)
  unfolding read_parts
  read_publications = wrapped reading_publications list_publications >>= λ rows. read_parts rows

  unfoldable pub owners_in : List Bytes → Act W PublicationError (List Bytes)
  owners_in [] = give []
  owners_in (schema ∷ schemas) =
      let rest = owners_in schemas in
      (wrapped (reading_relation_owners schema) (relation_owners schema) >>= λ owners.
      (rest >>= λ out. give (owners ++ out)))

  unfoldable pub publication_owners : Publication → Act W PublicationError (List Bytes)
  unfolding owners_in table_schemas sort
  publication_owners p = wrapped reading_owner database_owner >>= λ owner.
      (owners_in (sort (table_schemas p.tables)) >>= λ owners. give (owner ∷ owners))

  unfoldable pub exec_create : Publication → Act W PublicationError (Unit {0})
  unfolding create_publication_sql
  exec_create p =
      wrapped (creating_publication p.name)
        (exec_sql (create_publication_sql quote_ident quote_literal p))

  -- `create` behind `borrowRoles`, with its deferred release.
  abbrev pub create_with : Bytes → Publication → Borrowed W → (PublicationError ⊎ Unit {0}) × W
  create_with user p ((held, some e), w) =
      (inl (not_acquired user p.name e), release role_calls held w)
  create_with user p ((held, none), w) =
      if is_nil held.unavailable
      then ((exec_create p w).0, release role_calls held (exec_create p w).1)
      else (inl (cannot_act user held.unavailable p.name), release role_calls held w)

  -- `create`
  unfoldable pub create_publication : Publication → Act W PublicationError (Unit {0})
  unfolding publication_owners exec_create borrow_roles release
  create_publication p = wrapped reading_identity conn_info >>= λ info.
      (if info.1
        then exec_create p
        else (publication_owners p >>= λ owners.
            λ w. create_with info.0 p (borrow_roles role_calls info.0 owners w)))

  unfoldable pub create_all : List Publication → Act W PublicationError (Unit {0})
  unfolding create_publication
  create_all [] = give tt
  create_all (p ∷ publications) = let rest = create_all publications in create_publication p >> rest

  -- `Carry`
  unfoldable pub carry_publications : Act W PublicationError (Unit {0})
  unfolding read_publications create_all
  carry_publications = read_publications >>= λ publications. create_all publications
