-- ===== src/Xhci/Setup.antt =====
-- xhcid/src/usb/setup.rs: the eight-byte setup packet of a USB control transfer, its standard
-- requests and the check that guards requests that come in over the scheme.
pub mod Guard
use drivers.Base.{ℕ, ◌+◌, ◌*◌, ◌/◌, ◌%◌, ◌^◌, bit_and, bit_or, Bool, ◌||◌, ◌==◌, if◌then◌else◌}

pub record Setup : Type 0 where
  pub kind : ℕ
  pub request : ℕ
  pub value : ℕ
  pub index : ℕ
  pub length : ℕ

pub data ReqDirection : Type 0 where
  host_to_device device_to_host : ReqDirection

pub data ReqType : Type 0 where
  standard class vendor reserved : ReqType

abbrev pub req_type_code : ReqType → ℕ
req_type_code ReqType.standard = 0
req_type_code ReqType.class = 1
req_type_code ReqType.vendor = 2
req_type_code ReqType.reserved = 3

unfoldable pub direction : Setup → ReqDirection
direction s =
    if bit_and s.kind 0x80 == 0 then ReqDirection.host_to_device else ReqDirection.device_to_host

unfoldable pub req_ty : Setup → ℕ
req_ty s = bit_and s.kind 0x60 / 2 ^ 5

unfoldable pub req_recipient : Setup → ℕ
req_recipient s = bit_and s.kind 0x1f / 2 ^ 0

unfoldable pub is_allowed_from_api : Setup → Bool
is_allowed_from_api s =
    req_ty s == req_type_code ReqType.class || req_ty s == req_type_code ReqType.vendor

abbrev packet : ℕ → ℕ → ℕ → ℕ → ℕ → Setup
packet k r v i l = record { kind = k; request = r; value = v; index = i; length = l }

unfoldable pub get_status : Setup
get_status = packet 0x80 0x00 0 0 2

unfoldable pub clear_feature : ℕ → Setup
clear_feature feature = packet 0x00 0x01 feature 0 0

unfoldable pub set_feature : ℕ → Setup
set_feature feature = packet 0x00 0x03 feature 0 0

unfoldable pub set_address : ℕ → Setup
set_address address = packet 0x00 0x05 address 0 0

-- `((kind as u16) << 8) | (index as u16)`
abbrev descriptor_value : ℕ → ℕ → ℕ
descriptor_value kind index = bit_or (kind * 2 ^ 8 % 2 ^ 16) index

unfoldable pub get_descriptor : ℕ → ℕ → ℕ → ℕ → Setup
get_descriptor kind index language length =
    packet 0x80 0x06 (descriptor_value kind index) language length

unfoldable pub set_descriptor : ℕ → ℕ → ℕ → ℕ → Setup
set_descriptor kind index language length =
    packet 0x00 0x07 (descriptor_value kind index) language length

unfoldable pub get_configuration : Setup
get_configuration = packet 0x80 0x08 0 0 1

unfoldable pub set_configuration : ℕ → Setup
set_configuration value = packet 0x00 0x09 value 0 0

unfoldable pub set_interface : ℕ → ℕ → Setup
set_interface interface alternate_setting = packet 0x01 0x0b alternate_setting interface 0

-- `mem::transmute::<Setup, u64>` of the packed record on a little-endian machine
unfoldable pub to_u64 : Setup → ℕ
to_u64 s = s.kind + s.request * 2 ^ 8 + s.value * 2 ^ 16 + s.index * 2 ^ 32 + s.length * 2 ^ 48
