-- ===== src/Lib.antt =====
-- A verification library of pg-snapshot, which exports a scrubbed snapshot of a postgres database to
-- a bucket and restores it over an environment by swapping databases on the same instance.
--
-- The parts, and how they work together:
-- * scrub reads the rules of a configuration and plans, per table, which columns are exported and
--   through which SQL expression. `Scrub.Config` is scrub/config.go, `Scrub.Transform` the builtin
--   transforms of scrub/transform.go, and `Scrub.Projection` the plan of scrub/projection.go.
-- * export runs the plans. `Export.Tail` is the window that export/tail.go reads of a table,
--   `Export.Manifest` the description of an artifact in export/manifest.go, `Export.Preflight` the
--   checks before a run of export/preflight.go, `Export.Sequences` the positions that
--   export/sequences.go reads. `Export.Pool` is copyTables of export/run.go: its goroutines take steps
--   in any order, and a run is a sequence of steps. `Catalog` is catalog/types.go.
-- * blobstore stores the artifact: `Blobstore` is blobstore/store.go.
-- * pg runs the client binaries: `Pg.Toc` is the table of contents of an archive and `Pg.Tools` the
--   arguments, both of pg/tools.go, with the numbering of pg/phase.go. `Pg.Conn` is pg/conn.go.
-- * restore loads an artifact into a staging database and swaps it with the target. `Restore.State` is
--   restore/state.go, `Restore.Database` restore/database.go, `Restore.Filter` restore/filter.go.
--   `Restore.Acl` parses an ACL and renders grants, and `Restore.Privileges` plans them; both are
--   restore/privileges.go, with the splitting of a grantee in restore/carryover.go.
--   `Restore.Loader` is restore/loader.go without its pool of workers, `Restore.Slots`
--   restore/slots.go, `Restore.Tempgrant` the borrowed memberships of restore/tempgrant.go and
--   `Restore.Publications` restore/publications.go, which borrows them. `Restore.Run` composes them
--   all as restore/run.go does.
--   `Restore.Server` is the interface to the server: a record of two operations, with its documented
--   behaviour as the record `IsLawful`.
-- * cmd/pgsnap runs both: `Commands` is its configuration, cmd/pgsnap/config.go.
-- Functions keep the names of the source in snake case, and methods take their receiver first. A
-- branch or a loop of a long function is a function of its own, named above its declaration.
--
-- `Base` holds what the parts share. Strings are lists of bytes; what is used of package strings is
-- written for ASCII. A map is an association list, and where the program ranges over a map it sorts
-- the keys first. An int or int64 is an integer that wraps around at 64 bits. Errors are constructors
-- that carry what their messages interpolate; the texts and all logging are left out. The quoting
-- functions of lib/pq are parameters.
--
-- The catalog of `Restore.Server` is the set of databases that are not templates; nobody else creates,
-- drops or renames one while the program runs, which the restore's advisory lock is for. Names are kept
-- in full: one of more than 63 bytes, which postgres would truncate, is outside the model. `Restore.World`
-- is what a whole run acts on: that catalog, the phases counted, and the rest, which the record `Work`
-- of functions stands for. By their types those functions leave the catalog alone, so a migration
-- command that renames databases is outside the model. They may fail at any call.
-- The only bounded loop is that of the 99 suffixes of a backup's name, as in
-- the source; all other loops are structural recursion, and there is no fuel but in the printing of
-- numbers, which is given one unit more than the number.
--
-- Not modelled: YAML and JSON decoding, the queries' texts, the streaming of data, the
-- clients of the buckets, the wiring of the commands, and the plan of privileges over two catalogs. The
-- parts of restore that work inside one database are calls of `Work`.
pub mod Base
pub mod Catalog
pub mod Blobstore
pub mod Pg
pub mod Scrub
pub mod Export
pub mod Restore
pub mod Commands
pub mod Tests
