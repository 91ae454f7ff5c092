-- ===== src/Xhci/Trb/Build.antt =====
-- xhcid/src/xhci/trb.rs: the builders. Each writes a whole block, so it returns the new one; an
-- `assert_eq!` on an argument is an `assert`.
use drivers.Base.{ℕ, ◌*◌, bit_and, bit_or, Bool, false, ◌||◌, bit, ◌==◌, List, [], ◌∷◌}
use drivers.Base.Outcome.{Outcome, ok, ◌>>=◌, assert}
use drivers.Xhci.Setup.{Setup, to_u64}
use drivers.Xhci.TrbType.{TrbType, trb_type_code}
use drivers.Xhci.Trb.{Trb, TransferKind, transfer_kind_code, ◌<<<◌, ◌|||◌, set_trb, trb_type}

-- `(t as u32) << 10`
abbrev pub type_field : TrbType → ℕ
type_field t = trb_type_code t <<< 10

unfoldable pub reserved : Bool → Trb
unfolding set_trb
reserved cycle = set_trb 0 0 (type_field TrbType.reserved ||| bit cycle)

unfoldable pub link : ℕ → Bool → Bool → Trb
unfolding set_trb
link address toggle cycle =
    set_trb address 0 (type_field TrbType.link ||| bit toggle <<< 1 ||| bit cycle)

unfoldable pub no_op_cmd : Bool → Trb
unfolding set_trb
no_op_cmd cycle = set_trb 0 0 (type_field TrbType.no_op_cmd ||| bit cycle)

unfoldable pub enable_slot : ℕ → Bool → Trb
unfolding set_trb
enable_slot slot_type cycle =
    set_trb 0 0 (bit_and slot_type 0x1f <<< 16 ||| type_field TrbType.enable_slot ||| bit cycle)

unfoldable pub disable_slot : ℕ → Bool → Trb
unfolding set_trb
disable_slot slot cycle =
    set_trb 0 0 (slot <<< 24 ||| type_field TrbType.disable_slot ||| bit cycle)

-- The check that an input context pointer is aligned to 16 bytes.
abbrev aligned : ℕ → Outcome (Unit {0})
aligned ptr = assert (bit_and ptr 0xffff_ffff_ffff_fff0 == ptr)

-- The check that an endpoint number fits its field of five bits.
abbrev five_bits : ℕ → Outcome (Unit {0})
five_bits n = assert (bit_and n 0x1f == n)

unfoldable pub address_device : ℕ → ℕ → Bool → Bool → Outcome Trb
unfolding set_trb
address_device slot_id input_ctx_ptr bsr cycle = do
  _ ← aligned input_ctx_ptr
  ok (
      set_trb input_ctx_ptr 0
        (slot_id <<< 24 ||| type_field TrbType.address_device ||| bit bsr <<< 9 ||| bit cycle))

unfoldable pub configure_endpoint : ℕ → ℕ → Bool → Outcome Trb
unfolding set_trb
configure_endpoint slot_id input_ctx_ptr cycle = do
  _ ← aligned input_ctx_ptr
  ok (
      set_trb input_ctx_ptr 0
        (slot_id <<< 24 ||| type_field TrbType.configure_endpoint ||| bit cycle))

unfoldable pub evaluate_context : ℕ → ℕ → Bool → Bool → Outcome Trb
unfolding set_trb
evaluate_context slot_id input_ctx_ptr bsr cycle = do
  _ ← aligned input_ctx_ptr
  ok (
      set_trb input_ctx_ptr 0
        (slot_id <<< 24 ||| type_field TrbType.evaluate_context ||| bit bsr <<< 9 ||| bit cycle))

unfoldable pub reset_endpoint : ℕ → ℕ → Bool → Bool → Outcome Trb
unfolding set_trb
reset_endpoint slot_id endp_num_xhc tsp cycle = do
  _ ← five_bits endp_num_xhc
  ok (
      set_trb 0 0 (
        slot_id <<< 24
        ||| endp_num_xhc <<< 16
        ||| type_field TrbType.reset_endpoint
        ||| bit tsp <<< 9
        ||| bit cycle))

-- The stream context type is given by its code.
unfoldable pub set_tr_deque_ptr : ℕ → Bool → ℕ → ℕ → ℕ → ℕ → Outcome Trb
unfolding set_trb
set_tr_deque_ptr deque_ptr cycle sct stream_id endp_num_xhc slot = do
  _ ← assert (bit_and deque_ptr 0xffff_ffff_ffff_fff1 == deque_ptr)
  _ ← five_bits endp_num_xhc
  ok (
      set_trb (bit_or deque_ptr (sct * 2)) (stream_id <<< 16) (
        slot <<< 24
        ||| endp_num_xhc <<< 16
        ||| type_field TrbType.set_tr_dequeue_pointer
        ||| bit cycle))

unfoldable pub stop_endpoint : ℕ → ℕ → Bool → Bool → Outcome Trb
unfolding set_trb
stop_endpoint slot_id endp_num_xhc suspend cycle = do
  _ ← five_bits endp_num_xhc
  ok (
      set_trb 0 0 (
        slot_id <<< 24
        ||| bit suspend <<< 23
        ||| endp_num_xhc <<< 16
        ||| type_field TrbType.stop_endpoint
        ||| bit cycle))

unfoldable pub reset_device : ℕ → Bool → Trb
unfolding set_trb
reset_device slot_id cycle =
    set_trb 0 0 (slot_id <<< 24 ||| type_field TrbType.reset_device ||| bit cycle)

unfoldable pub transfer_no_op : ℕ → Bool → Bool → Bool → Bool → Trb
unfolding set_trb
transfer_no_op interrupter ent ch ioc cycle =
    set_trb 0 (interrupter <<< 22)
      (type_field TrbType.no_op ||| bit ioc <<< 5 ||| bit ch <<< 4 ||| bit ent <<< 1 ||| bit cycle)

unfoldable pub setup : Setup → TransferKind → Bool → Trb
unfolding set_trb to_u64
setup packet transfer cycle =
    set_trb (to_u64 packet) 8
      (transfer_kind_code transfer <<< 16 ||| type_field TrbType.setup_stage ||| 0x40 ||| bit cycle)

-- `Trb::data`
unfoldable pub data_trb : ℕ → ℕ → Bool → Bool → Trb
unfolding set_trb
data_trb buffer length input cycle =
    set_trb buffer length (bit input <<< 16 ||| type_field TrbType.data_stage ||| bit cycle)

-- `Trb::status`
unfoldable pub status_trb : ℕ → Bool → Bool → Bool → Bool → Bool → Trb
unfolding set_trb
status_trb interrupter input ioc ch ent cycle = set_trb 0 (interrupter <<< 22) (
    bit input <<< 16
    ||| type_field TrbType.status_stage
    ||| bit ioc <<< 5
    ||| bit ch <<< 4
    ||| bit ent <<< 1
    ||| bit cycle)

-- The flags of `Trb::normal`, in the order of its arguments.
pub record NormalFlags : Type 0 where
  pub ent : Bool
  pub isp : Bool
  pub chain : Bool
  pub ioc : Bool
  pub idt : Bool
  pub bei : Bool

unfoldable pub normal : ℕ → ℕ → Bool → ℕ → ℕ → NormalFlags → Outcome Trb
unfolding set_trb
normal buffer len cycle estimated_td_size interrupter f = do
  _ ← five_bits estimated_td_size
  ok (
      set_trb buffer (len ||| estimated_td_size <<< 17 ||| interrupter <<< 22) (
        bit cycle
        ||| bit f.ent <<< 1
        ||| bit f.isp <<< 2
        ||| bit f.chain <<< 4
        ||| bit f.ioc <<< 5
        ||| bit f.idt <<< 6
        ||| bit f.bei <<< 9
        ||| type_field TrbType.normal))

abbrev pub valid_trb_types : List TrbType
valid_trb_types =
    TrbType.no_op_cmd ∷ TrbType.enable_slot ∷ TrbType.disable_slot ∷ TrbType.address_device
    ∷ TrbType.configure_endpoint ∷ TrbType.evaluate_context ∷ TrbType.reset_endpoint
    ∷ TrbType.stop_endpoint ∷ TrbType.set_tr_dequeue_pointer ∷ TrbType.reset_device
    ∷ TrbType.force_event ∷ TrbType.negotiate_bandwidth ∷ TrbType.set_latency_tolerance_value
    ∷ TrbType.get_port_bandwidth ∷ TrbType.force_header ∷ TrbType.get_extended_property
    ∷ TrbType.set_extended_property ∷ []

unfoldable pub contains : List TrbType → ℕ → Bool
contains [] t = false
contains (u ∷ us) t = trb_type_code u == t || contains us t

unfoldable pub is_command_trb : Trb → Bool
unfolding contains
is_command_trb t = contains valid_trb_types (trb_type t)

abbrev pub transfer_trb_types : List TrbType
transfer_trb_types =
    TrbType.normal ∷ TrbType.setup_stage ∷ TrbType.data_stage ∷ TrbType.status_stage ∷ TrbType.isoch
    ∷ TrbType.no_op ∷ []

unfoldable pub is_transfer_trb : Trb → Bool
unfolding contains
is_transfer_trb t = contains transfer_trb_types (trb_type t)
