-- ===== src/Synthesis.antt =====
-- repair/Synthesis.cpp, namespace `synthesis`: the modifications that are tried in place of an
-- expression.
pub mod Operators
pub mod Depth
pub mod Candidates
pub mod Keeping
pub mod Types
pub mod Abstract
pub mod Shapes
pub mod Sparse
