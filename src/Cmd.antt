-- ===== src/Cmd.antt =====
-- cmd/: what the two programs do with the components.
pub mod Setup
pub mod Listen
pub mod TaskRun
pub mod CommandLine
