-- ===== src/Tests.antt =====
-- The theorems at concrete inputs, with concrete functions for what the program does not implement.
mod Toy
mod Sources
mod Reports
mod Mutants
mod Names
mod Pools
mod Workers
mod Commands
mod Processes
mod Runs
mod Programs
