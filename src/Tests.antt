-- ===== src/Tests.antt =====
-- Runs of the development at concrete inputs.
mod Instance
mod Databases
mod Plans
mod Grants
mod Storage
mod Runs
mod Sequences
mod Pools
mod Roles
