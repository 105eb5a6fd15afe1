-- ===== src/Tests.antt =====
-- The theorems at concrete inputs, and tests of the definitions.
mod Retention
mod Tools
mod Texts
mod Registries
mod Runs
mod Paths
mod Sorting
mod Searches
mod Outer
