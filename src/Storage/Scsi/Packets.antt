-- ===== src/Storage/Scsi/Packets.antt =====
-- storage/usbscsid/src/protocol: the packets of the bulk-only transport, how its calls end, and
-- the endpoints, which xhcid serves and which are a parameter.
use drivers.Base.{
  ℕ, ◌-◌, Bool, true, false, Option, none, some, List, [], ◌∷◌, ◌++◌, ltb, ◌==◌, if◌then◌else◌,
  length, get_or, take, drop, replicate,
}
use drivers.Base.Endian.{le_bytes, from_le}
pub use drivers.Xhci.Ports.{
  PortTransferStatusKind, success, short_packet, stalled, unknown, PortTransferStatus,
}

-- `ProtocolError`, with an error of xhcid by a number, and the overflow error of `Scsi`
pub data ProtocolError : Type 0 where
  too_large_command_block : ℕ → ProtocolError
  xhci_error : ℕ → ProtocolError
  recovery_failed : ProtocolError
  not_reset invalid_but_recovered phase_error : ProtocolError
  unknown_transfer_status overflow : ProtocolError

-- How a call ends; `unfinished` if it runs out of fuel
pub data Result (A : Type 0) : Type 0 where
  ok : A → Result A
  err : ProtocolError → Result A
  panicked unfinished : Result A

-- Calls that change the endpoints, one after the other
abbrev pub Call : Type 0 → Type 0 → Type 0
Call E A = E → Result A × E

abbrev pub after : {A B E : Type 0} → Result A × E → (A → Call E B) → Result B × E
after (ok a, e) f = f a e
after (err x, e) f = (err x, e)
after (panicked, e) f = (panicked, e)
after (unfinished, e) f = (unfinished, e)

infixl 5 ◌>>=◌
abbrev pub ◌>>=◌ : {A B E : Type 0} → Call E A → (A → Call E B) → Call E B
(call >>= f) e = after (call e) f

abbrev pub give : {A E : Type 0} → Result A → Call E A
give r e = (r, e)

-- The two bulk endpoints with the device's own requests. A read comes with the bytes of the buffer.
pub record Endpoints (E : Type 0) : Type 0 where
  pub write_out : List ℕ → Call E PortTransferStatus
  pub read_in : List ℕ → Call E (PortTransferStatus × List ℕ)
  pub halted_in : Call E Bool
  pub halted_out : Call E Bool
  pub reset_in : Call E (Unit {0})
  pub reset_out : Call E (Unit {0})
  pub clear_halt_in : Call E (Unit {0})
  pub clear_halt_out : Call E (Unit {0})
  pub mass_storage_reset : ℕ → Call E (Unit {0})

-- The transport: its tag, and the endpoints
pub record BulkOnlyTransport (E : Type 0) : Type 0 where
  pub current_tag : ℕ
  pub endpoints : E

-- `CommandBlockWrapper::new`, as the 31 bytes that are sent
unfoldable pub wrapper :
    (tag data_transfer_len : ℕ) → (inwards : Bool) → (lun : ℕ) → List ℕ → Result (List ℕ)
wrapper tag data_transfer_len inwards lun cb =
    if ltb 16 (length cb)
    then err (too_large_command_block (length cb))
    else ok (
        le_bytes 4 0x43425355
        ++ le_bytes 4 tag
        ++ le_bytes 4 data_transfer_len
        ++ (if inwards then 0x80 else 0) ∷ lun ∷ length cb ∷ cb
        ++ replicate (16 - length cb) 0)

-- `CommandStatusWrapper`
pub record StatusWrapper : Type 0 where
  pub signature : ℕ
  pub tag : ℕ
  pub data_residue : ℕ
  pub status : ℕ

-- The 13 bytes of one
abbrev pub status_wrapper : List ℕ → StatusWrapper
status_wrapper bytes = record {
  signature = from_le (take 4 bytes);
  tag = from_le (take 4 (drop 4 bytes));
  data_residue = from_le (take 4 (drop 8 bytes));
  status = get_or bytes 12 0;
}

abbrev pub is_valid : StatusWrapper → Bool
is_valid csw = csw.signature == 0x53425355

pub data Data : Type 0 where
  in_data : List ℕ → Data
  out_data : List ℕ → Data
  no_data : Data

abbrev pub data_len : Data → ℕ
data_len (in_data buffer) = length buffer
data_len (out_data buffer) = length buffer
data_len no_data = 0

-- `DeviceReqData::direction`; a command with no data goes outwards.
abbrev pub goes_in : Data → Bool
goes_in (in_data buffer) = true
goes_in (out_data buffer) = false
goes_in no_data = false

abbrev pub buffer_of : Data → List ℕ
buffer_of (in_data buffer) = buffer
buffer_of (out_data buffer) = buffer
buffer_of no_data = []

pub data SendCommandStatusKind : Type 0 where
  passed failed : SendCommandStatusKind

pub record SendCommandStatus : Type 0 where
  pub residue : Option ℕ
  pub kind : SendCommandStatusKind

-- `NonZeroU32::new`
abbrev pub non_zero : ℕ → Option ℕ
non_zero n = if n == 0 then none else some n
