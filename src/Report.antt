-- ===== src/Report.antt =====
-- The package report/: what a run prints.
pub mod Document
pub mod Render
pub mod Lines
mod Tests
