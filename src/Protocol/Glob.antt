-- ===== src/Protocol/Glob.antt =====
-- shared/protocol/src/scope.ts: the glob compiler and the overlap test, with their proofs below.
pub mod Regexp
pub mod Compile
pub mod Literal
pub mod Prefix
pub mod Overlap
pub mod Missed
