-- ===== src/Pci.antt =====
-- The PCI daemon (pcid): which driver serves a function, and message interrupts.
pub mod Config
pub mod Msix
mod Tests
