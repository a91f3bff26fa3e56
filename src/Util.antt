-- ===== src/Util.antt =====
-- repair/Util.cpp: operators by their text and as text, the builders of expressions, texts about patches,
-- paths, and the environment.
pub mod Operators
pub mod Builders
pub mod Messages
pub mod Printable
pub mod Paths
pub mod Environment
