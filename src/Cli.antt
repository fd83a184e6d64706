-- ===== src/Cli.antt =====
-- internal/cli: the mapping of a run onto a process status.
pub mod Exit
