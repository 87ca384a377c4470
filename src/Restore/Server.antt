-- ===== src/Restore/Server.antt =====
-- The database server behind `pg.Querier`, as far as restore/database.go uses it: a parameter of the
-- model. `Admin` reads the list of databases and runs five kinds of statement; each may fail.
use pg_snapshot.Base.{ℕ, ◌≡◌, Bool, true, false, List, [], ◌∷◌, ◌++◌, Option, none, some, is_some}
use pg_snapshot.Base.{if◌then◌else◌}
use pg_snapshot.Base.Bytes.{Bytes, codes, ◌=?◌}
use pg_snapshot.Base.Dict.{contains}

pub data Statement : Type 0 where
  create_database : Bytes → Bytes → Statement
  drop_database : Bytes → Statement
  allow_connections : Bytes → Bool → Statement
  terminate_backends : Bytes → Statement
  rename_database : Bytes → Bytes → Statement

-- A database, whatever its name: its identity, and ALLOW_CONNECTIONS.
pub record Entry : Type 0 where
  pub oid : ℕ
  pub accepts : Bool

-- What the server says to a statement: nothing, or its error.
pub data Answer : Type 0 where
  done : Answer
  failed : Bytes → Answer

pub data Listing : Type 0 where
  names : List Bytes → Listing
  unlisted : Bytes → Listing

-- `entry` is what the catalog holds under a name; the program never calls it.
pub record Server : Type 1 where
  pub Catalog : Type 0
  pub entry : Catalog → Bytes → Option Entry
  pub list_databases : Catalog → Listing × Catalog
  pub exec : Statement → Catalog → Answer × Catalog

abbrev pub with_accepts : Bool → Option Entry → Option Entry
with_accepts allow none = none
with_accepts allow (some e) = some (record e { accepts = allow })

-- What a statement that succeeds has done, as the documentation of postgres describes it. A rename
-- needs the old name to exist and the new one to be free. `DROP DATABASE IF EXISTS` removes the name.
-- Terminating sessions does not touch the catalog.
abbrev pub AfterStatement : Statement → (Bytes → Option Entry) → (Bytes → Option Entry) → Type 0
AfterStatement (create_database name owner) old new =
    (old name ≡ none)
    × (is_some (new name) ≡ true)
    × ((n : Bytes) → n =? name ≡ false → new n ≡ old n)
AfterStatement (drop_database name) old new =
    (n : Bytes) → new n ≡ (if n =? name then none else old n)
AfterStatement (allow_connections name allow) old new =
    (is_some (old name) ≡ true)
    × ((n : Bytes) → new n ≡ (if n =? name then with_accepts allow (old n) else old n))
AfterStatement (terminate_backends name) old new = (n : Bytes) → new n ≡ old n
AfterStatement (rename_database from to) old new =
    (is_some (old from) ≡ true)
    × (old to ≡ none)
    × ((n : Bytes) → new n ≡ (if n =? to then old from else if n =? from then none else old n))

-- The documented behaviour of the server: the listing is the names that exist, a query and a failed
-- statement change nothing, and a statement that succeeds does what it says. Only the program changes
-- the set of databases while it runs. Names have at most 63 bytes: a longer one is truncated by
-- postgres, which is not modelled.
pub record IsLawful (S : Server) : Type 0 where
  pub entry-list : (c : S.Catalog) (n : Bytes) → S.entry (S.list_databases c).1 n ≡ S.entry c n
  pub names-list :
      (c : S.Catalog) (l : List Bytes)
      → (S.list_databases c).0 ≡ names l
      → (n : Bytes) → contains n l ≡ is_some (S.entry c n)
  pub entry-failed :
      (q : Statement) (c : S.Catalog) (e : Bytes)
      → (S.exec q c).0 ≡ failed e
      → (n : Bytes) → S.entry (S.exec q c).1 n ≡ S.entry c n
  pub entry-done :
      (q : Statement) (c : S.Catalog)
      → (S.exec q c).0 ≡ done
      → AfterStatement q (S.entry c) (S.entry (S.exec q c).1)

-- The text of a statement and its arguments. `quote` is `pq.QuoteIdentifier`.
module _ (quote : Bytes → Bytes) where
  pub statement_sql : Statement → Bytes × List Bytes
  statement_sql (create_database name []) = (codes "CREATE DATABASE " ++ quote name, [])
  statement_sql (create_database name (c ∷ owner)) =
      (codes "CREATE DATABASE " ++ (quote name ++ (codes " OWNER " ++ quote (c ∷ owner))), [])
  statement_sql (drop_database name) =
      (codes "DROP DATABASE IF EXISTS " ++ (quote name ++ codes " WITH (FORCE)"), [])
  statement_sql (allow_connections name allow) = (
    codes "ALTER DATABASE "
        ++ (quote name
            ++ (codes " WITH ALLOW_CONNECTIONS "
                ++ (if allow then codes "true" else codes "false"))),
    [],
  )
  statement_sql (terminate_backends name) = (
    codes
        "\nSELECT pg_catalog.pg_terminate_backend(pid)\nFROM pg_catalog.pg_stat_activity\nWHERE datname = $1 AND pid <> pg_catalog.pg_backend_pid()",
    name ∷ [],
  )
  statement_sql (rename_database from to) =
      (codes "ALTER DATABASE " ++ (quote from ++ (codes " RENAME TO " ++ quote to)), [])
