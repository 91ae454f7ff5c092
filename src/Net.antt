-- ===== src/Net.antt =====
-- Network drivers: the scheme that every adapter is served through (driver-network).
pub mod Scheme
mod Tests
