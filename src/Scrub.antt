-- ===== src/Scrub.antt =====
-- Package scrub: the configuration, the builtin transforms, and the export plan of a table.
pub mod Config
pub mod Transform
pub mod Projection
