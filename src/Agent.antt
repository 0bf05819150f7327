-- ===== src/Agent.antt =====
-- The agent, cmd/aclagent: the only program that speaks to the switch.
pub mod Config
pub mod Credentials
pub mod Guard
pub mod Faults
pub mod Run
