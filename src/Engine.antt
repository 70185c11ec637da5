-- ===== src/Engine.antt =====
-- internal/engine: how mutants are found, applied to the source, and tested.
pub mod Mappings
pub mod Node
pub mod Snippet
pub mod TokenMutator
pub mod Workdir
pub mod Executor
pub mod Pool
pub mod PkgName
pub mod Walk
pub mod Locks
pub mod Totals
pub mod Workers
pub mod Process
pub mod Run
