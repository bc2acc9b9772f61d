-- ===== src/Hashes.antt =====
-- scripts/build_hashes.py: the fingerprints of the build inputs.
pub mod GoBuild
pub mod Command
pub mod Result
pub mod Digest
pub mod Files
pub mod Trees
pub mod Closure
pub mod Directives
pub mod Includes
pub mod Report
