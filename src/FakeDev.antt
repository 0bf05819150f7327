-- ===== src/FakeDev.antt =====
-- internal/h3c/fakedev: the simulated switch that the tests run against.
pub mod Wire
pub mod Rules
pub mod Commands
pub mod Session
pub mod Guarded
