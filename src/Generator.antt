-- ===== src/Generator.antt =====
-- repair/Synthesis.cpp, namespace `generator`: the search space, and the runtime that evaluates its
-- candidates, written line by line.
pub mod Names
pub mod Semantics
pub mod Dispatch
pub mod Instances
pub mod Concrete
pub mod Order
pub mod Runtime
pub mod SearchSpace
