-- ===== src/Transform.antt =====
-- transform/: the instrumentation of source files, and the schema applications that it reports.
pub mod Clang
pub mod Types
pub mod Documents
pub mod Places
pub mod Locations
pub mod Components
pub mod Arguments
pub mod Expressions
pub mod RoundTrip
pub mod Settings
pub mod Schema
pub mod Applications
pub mod Steps
pub mod Recorded
pub mod Pipeline
pub mod Eventually
pub mod Profile
pub mod Patch
