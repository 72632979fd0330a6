-- ===== src/Cmd.antt =====
-- cmd/oba-validator/main.go: the command.
pub mod Secrets
pub mod Overrides
pub mod Run
mod Tests
