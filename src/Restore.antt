-- ===== src/Restore.antt =====
-- Package restore: `State` for restore/state.go, `Database` for restore/database.go over the server
-- interface of `Server`, `Filter` for restore/filter.go, `Loader` for restore/loader.go, `Slots` for
-- restore/slots.go, `Tempgrant` for restore/tempgrant.go, `Publications` for restore/publications.go,
-- `Acl` and `Privileges` for restore/privileges.go, and `Run` for restore/run.go and restore/migrate.go
-- over the outside of `World`.
pub mod State
pub mod Server
pub mod Database
pub mod Filter
pub mod Loader
pub mod Slots
pub mod Tempgrant
pub mod Publications
pub mod World
pub mod Run
pub mod Acl
pub mod Privileges
