-- ===== src/Input.antt =====
-- Input: the daemon that merges the input devices and switches virtual terminals (inputd).
pub mod Vt
pub mod Scheme
pub mod Write
pub mod Daemon
pub mod Ps2
mod Tests
