-- ===== src/Pci/Msix.antt =====
-- pcid/src/driver_interface/msi.rs and bar.rs: the table of message interrupts of a function, and
-- the address and the data of a message.
pub mod Inside
pub mod Messages
use drivers.Base.{
  ℕ, ◌+◌, ◌-◌, ◌*◌, ◌/◌, ◌%◌, ◌^◌, bit_and, bit_or, bit, Bool, true, false, ◌||◌, Option, none,
  some, List, ltb, leb, ◌==◌, if◌then◌else◌, get_elem?,
}
use drivers.Base.Outcome.{Outcome, ok, err, panicked, unwrap, ◌>>=◌}

pub data PciBar : Type 0 where
  no_bar : PciBar
  memory32 : (addr size : ℕ) → PciBar
  memory64 : (addr size : ℕ) → PciBar
  port : ℕ → PciBar

abbrev pub is_none : PciBar → Bool
is_none no_bar = true
is_none (memory32 addr size) = false
is_none (memory64 addr size) = false
is_none (port p) = false

abbrev pub expect_port : PciBar → Outcome ℕ
expect_port no_bar = panicked
expect_port (memory32 addr size) = panicked
expect_port (memory64 addr size) = panicked
expect_port (port p) = ok p

-- The address and the size
unfoldable pub expect_mem : PciBar → Outcome (ℕ × ℕ)
expect_mem no_bar = panicked
expect_mem (memory32 addr size) = ok (addr, size)
expect_mem (memory64 addr size) = ok (addr, size)
expect_mem (port p) = panicked

pub record MsixInfo : Type 0 where
  pub table_bar : ℕ
  pub table_offset : ℕ
  pub table_size : ℕ
  pub pba_bar : ℕ
  pub pba_offset : ℕ

-- `panic!` unless the test holds
abbrev pub ensure : Bool → Outcome (Unit {0})
ensure true = ok tt
ensure false = panicked

-- `MsixInfo::validate`, with the six BARs of the function. The length of the table wraps.
unfoldable pub validate : MsixInfo → List PciBar → Outcome (Unit {0})
unfolding expect_mem
validate info bars = do
  _ ← ensure (leb info.table_bar 5)
  _ ← ensure (leb info.pba_bar 5)
  table ← unwrap (get_elem? bars info.table_bar)
  (table_addr, table_bar_size) ← expect_mem table
  pba ← unwrap (get_elem? bars info.pba_bar)
  (pba_addr, pba_bar_size) ← expect_mem pba
  _ ← ensure (ltb (info.table_offset + info.table_size * 16 % 2 ^ 16) table_bar_size)
  ensure (ltb (info.pba_offset + (info.table_size + 7) / 8) pba_bar_size)

-- `x86::message_address` and `x86::message_data`
unfoldable pub message_address : (destination_id : ℕ) → (redirect_hint dest_mode_logical : Bool) → ℕ
message_address destination_id redirect_hint dest_mode_logical =
    bit_or (bit_or (bit_or 0xfee00000 (destination_id * 2 ^ 12)) (bit redirect_hint * 2 ^ 3))
      (bit dest_mode_logical * 2 ^ 2)

pub data TriggerMode : Type 0 where
  edge level : TriggerMode

pub data LevelTriggerMode : Type 0 where
  deassert assert : LevelTriggerMode

pub data DeliveryMode : Type 0 where
  fixed lowest_priority smi nmi init ext_init : DeliveryMode

abbrev pub trigger_code : TriggerMode → ℕ
trigger_code edge = 0
trigger_code level = 1

abbrev pub level_code : LevelTriggerMode → ℕ
level_code deassert = 0
level_code assert = 1

abbrev pub delivery_code : DeliveryMode → ℕ
delivery_code fixed = 0
delivery_code lowest_priority = 1
delivery_code smi = 2
delivery_code nmi = 4
delivery_code init = 5
delivery_code ext_init = 7

unfoldable pub message_data : TriggerMode → LevelTriggerMode → DeliveryMode → (vector : ℕ) → ℕ
message_data trigger_mode level_trigger_mode delivery_mode vector =
    bit_or
      (bit_or (bit_or (trigger_code trigger_mode * 2 ^ 15) (level_code level_trigger_mode * 2 ^ 14))
        (delivery_code delivery_mode * 2 ^ 8))
      vector

abbrev pub message_data_level_triggered : LevelTriggerMode → DeliveryMode → (vector : ℕ) → ℕ
message_data_level_triggered level_trigger_mode delivery_mode vector =
    message_data level level_trigger_mode delivery_mode vector

abbrev pub message_data_edge_triggered : DeliveryMode → (vector : ℕ) → ℕ
message_data_edge_triggered delivery_mode vector = message_data edge deassert delivery_mode vector

-- `MsixTableEntry`, and `MsiAddrAndData`
pub record MsixTableEntry : Type 0 where
  pub addr_lo : ℕ
  pub addr_hi : ℕ
  pub msg_data : ℕ
  pub vec_ctl : ℕ

pub record MsiAddrAndData : Type 0 where
  pub addr : ℕ
  pub data_word : ℕ

unfoldable pub addr_of : MsixTableEntry → ℕ
addr_of e = bit_or e.addr_lo (e.addr_hi * 2 ^ 32)

-- `set_masked`: bit 0 of the vector control
unfoldable pub set_masked : Bool → MsixTableEntry → MsixTableEntry
set_masked masked e = record e {
  vec_ctl = if masked then bit_or e.vec_ctl 1 else e.vec_ctl - bit_and e.vec_ctl 1;
}

abbrev pub mask : MsixTableEntry → MsixTableEntry
mask e = set_masked true e

abbrev pub unmask : MsixTableEntry → MsixTableEntry
unmask e = set_masked false e

unfoldable pub write_addr_and_data : MsiAddrAndData → MsixTableEntry → MsixTableEntry
write_addr_and_data entry e = record e {
  addr_lo = entry.addr % 2 ^ 32;
  addr_hi = entry.addr / 2 ^ 32 % 2 ^ 32;
  msg_data = entry.data_word;
}
