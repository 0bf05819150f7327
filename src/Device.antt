-- ===== src/Device.antt =====
-- The session with the switch: internal/h3c/device.
pub mod Telnet
pub mod Render
pub mod Text
pub mod Session
pub mod Quiet
pub mod Ops
