-- ===== src/Xhci/Trb.antt =====
-- xhcid/src/xhci/trb.rs: a transfer request block (TRB), its builders and its readers. A register
-- is the number it holds; `as` casts and shifts drop what does not fit.
pub mod Build
pub mod Fields
pub mod Commands
pub mod Transfers
use drivers.Base.{
  ℕ, ◌*◌, ◌/◌, ◌%◌, ◌^◌, bit_and, bit_or, Bool, true, false, ◌||◌, Option, none, some, ◌==◌,
  if◌then◌else◌,
}

pub data TransferKind : Type 0 where
  no_data reserved_kind out in_ : TransferKind

abbrev pub transfer_kind_code : TransferKind → ℕ
transfer_kind_code no_data = 0
transfer_kind_code reserved_kind = 1
transfer_kind_code out = 2
transfer_kind_code in_ = 3

pub record Trb : Type 0 where
  pub data_low : ℕ
  pub data_high : ℕ
  pub status : ℕ
  pub control : ℕ

-- `x << k` on `u32`
infixl 75 ◌<<<◌
abbrev pub ◌<<<◌ : ℕ → ℕ → ℕ
x <<< k = x * 2 ^ k % 2 ^ 32

-- `|`, grouped to the left as in the source
infixl 60 ◌|||◌
abbrev pub ◌|||◌ : ℕ → ℕ → ℕ
◌|||◌ = bit_or

-- `Trb::set` writes all four registers, so nothing of the old block is left.
unfoldable pub set_trb : ℕ → ℕ → ℕ → Trb
set_trb payload status control = record {
  data_low = payload % 2 ^ 32;
  data_high = payload / 2 ^ 32 % 2 ^ 32;
  status = status;
  control = control;
}

unfoldable pub read_data : Trb → ℕ
read_data t = t.data_low ||| t.data_high * 2 ^ 32

unfoldable pub completion_code : Trb → ℕ
completion_code t = t.status / 2 ^ 24 % 2 ^ 8

unfoldable pub completion_param : Trb → ℕ
completion_param t = bit_and t.status 0x00ff_ffff

-- False for RingUnderrun, RingOverrun and VfEventRingFull.
unfoldable pub has_completion_trb_pointer : Trb → Bool
has_completion_trb_pointer t =
    if completion_code t == 0x0e || completion_code t == 0x0f
    then false
    else if completion_code t == 0x10
    then false
    else true

unfoldable pub event_slot : Trb → ℕ
event_slot t = t.control / 2 ^ 24 % 2 ^ 8

unfoldable pub transfer_length : Trb → ℕ
transfer_length t = bit_and t.status 0x00ff_ffff

unfoldable pub event_data_bit : Trb → Bool
event_data_bit t = bit_and t.control 4 == 4

unfoldable pub endpoint_id : Trb → ℕ
endpoint_id t = bit_and t.control 0x001f_0000 / 2 ^ 16 % 2 ^ 8

unfoldable pub trb_type : Trb → ℕ
trb_type t = bit_and t.control 0x0000_fc00 / 2 ^ 10 % 2 ^ 8

unfoldable pub trb_cycle : Trb → Bool
trb_cycle t = bit_and t.control 0x01 == 0x01

-- The readers that return `Some` only when the completion code lets the pointer be read. Their
-- `debug_assert_eq!` on the type is compiled only into debug builds and is left out.
unfoldable pub completion_trb_pointer : Trb → Option ℕ
completion_trb_pointer t = if has_completion_trb_pointer t then some (read_data t) else none

unfoldable pub transfer_event_trb_pointer : Trb → Option ℕ
transfer_event_trb_pointer t = if has_completion_trb_pointer t then some (read_data t) else none

unfoldable pub port_status_change_port_id : Trb → Option ℕ
port_status_change_port_id t =
    if has_completion_trb_pointer t
    then some (bit_and (read_data t / 2 ^ 24) 0xff % 2 ^ 8)
    else none

unfoldable pub event_data : Trb → Option ℕ
event_data t = if event_data_bit t then some (read_data t) else none
