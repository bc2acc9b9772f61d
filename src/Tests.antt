-- ===== src/Tests.antt =====
-- Runs at concrete inputs, and the theorems at such inputs.
mod Streams
mod Waiting
mod Calls
mod Tools
mod Provenance
mod Fixture
mod Hashing
mod Lines
mod Closures
mod Builds
mod Hosts
mod Upgrades
mod Adapters
mod Spans
