-- ===== src/Export.antt =====
-- Package export: the window of a sampled table, the positions of sequences, the manifest, the workers
-- that copy tables, and the preflight.
pub mod Tail
pub mod Sequences
pub mod Manifest
pub mod Pool
pub mod Preflight
