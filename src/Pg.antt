-- ===== src/Pg.antt =====
-- Package pg: connection urls, the table of contents of an archive, and the calls of the client
-- binaries of postgres.
pub mod Conn
pub mod Toc
pub mod Tools
