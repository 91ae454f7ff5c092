-- ===== src/Acpi.antt =====
-- The ACPI daemon (acpid): the system description tables.
pub mod Sdt
