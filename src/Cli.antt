-- ===== src/Cli.antt =====
-- src/cli: the gate before a run against production, the run command and the exit codes.
pub mod Gate
pub mod ExitCodes
pub mod Run
