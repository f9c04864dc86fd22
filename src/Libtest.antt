-- ===== src/Libtest.antt =====
-- src/libtest: the harness that runs the repository's test suites.
pub mod Assert
pub mod Run
pub mod Rounds
pub mod Laws
pub mod EarlyExit
pub mod Signal
mod Tests
