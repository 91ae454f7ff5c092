-- ===== src/Storage.antt =====
-- The storage drivers: byte-wise reads over whole blocks, and the NVMe queues and commands.
pub mod Block
pub mod Queues
pub mod Commands
pub mod Disks
pub mod Namespace
pub mod Scsi
mod Tests
