-- ===== src/Xhci/Ports.antt =====
-- xhcid/src/xhci/mod.rs: the state of a port, its endpoints and their rings; and
-- xhcid/src/driver_interface.rs: the descriptor of an endpoint.
use drivers.Base.{
  ℕ, ◌+◌, ◌*◌, ◌%◌, ◌^◌, bit_and, bit_or, Bool, true, false, Option, none, some, List, [], ◌∷◌,
  ◌++◌, ◌==◌, if◌then◌else◌, get_elem?,
}
use drivers.Base.Map.{Map, lookup}
use drivers.Base.Outcome.{Outcome, ok, err, panicked}
use drivers.Xhci.Ring.{Ring}

pub record SuperSpeedCmp : Type 0 where
  pub max_burst : ℕ
  pub attributes : ℕ
  pub bytes_per_interval : ℕ

pub record SuperSpeedPlusIsochCmp : Type 0 where
  pub bytes_per_interval : ℕ

pub record EndpDesc : Type 0 where
  pub address : ℕ
  pub attributes : ℕ
  pub max_packet_size : ℕ
  pub interval : ℕ
  pub ssc : Option SuperSpeedCmp
  pub sspc : Option SuperSpeedPlusIsochCmp

pub data EndpointTy : Type 0 where
  ctrl isoch bulk interrupt : EndpointTy

pub data EndpDirection : Type 0 where
  out in_ bidirectional : EndpDirection

-- `EndpDesc::ty`, on the two low bits
unfoldable pub ty : EndpDesc → EndpointTy
ty d =
    if bit_and d.attributes 3 == 0
    then ctrl
    else if bit_and d.attributes 3 == 1
    then isoch
    else if bit_and d.attributes 3 == 2
    then bulk
    else interrupt

unfoldable pub is_control : EndpDesc → Bool
unfolding ty
is_control d = elim (ty d) [ ctrl ↦ true | _ ↦ false ]

unfoldable pub is_isoch : EndpDesc → Bool
unfolding ty
is_isoch d = elim (ty d) [ isoch ↦ true | _ ↦ false ]

unfoldable pub direction : EndpDesc → EndpDirection
unfolding is_control
direction d =
    if is_control d then bidirectional else if bit_and d.address 0x80 == 0 then out else in_

-- `Xhci::endp_num_to_dci`: the number of the endpoint in the device's context, on `u8`
unfoldable pub endp_num_to_dci : ℕ → EndpDesc → Outcome ℕ
unfolding is_control direction
endp_num_to_dci endp_num desc =
    if endp_num == 0
    then panicked
    else if is_control desc
    then ok ((endp_num * 2 + 1) % 2 ^ 8)
    else elim (direction desc) [
      | in_ ↦ ok ((endp_num * 2 + 1) % 2 ^ 8)
      | out ↦ ok (endp_num * 2 % 2 ^ 8)
      | bidirectional ↦ panicked
    ]

unfoldable pub endp_doorbell : ℕ → EndpDesc → ℕ → Outcome ℕ
unfolding endp_num_to_dci
endp_doorbell endp_num desc stream_id = elim (endp_num_to_dci endp_num desc) [
  | ok db_target ↦ ok (bit_or (stream_id * 2 ^ 16 % 2 ^ 32) db_target)
  | err e ↦ err e
  | panicked ↦ panicked
]

-- The descriptors of a device, as far as the configuration of its endpoints needs them
pub record IfDesc : Type 0 where
  pub endpoints : List EndpDesc

pub record ConfDesc : Type 0 where
  pub configuration_value : ℕ
  pub interface_descs : List IfDesc

pub record DevDesc : Type 0 where
  pub usb : ℕ
  pub config_descs : List ConfDesc

pub data PortTransferStatusKind : Type 0 where
  success short_packet stalled unknown : PortTransferStatusKind

pub record PortTransferStatus : Type 0 where
  pub kind : PortTransferStatusKind
  pub bytes_transferred : ℕ

pub data XhciEndpCtlDirection : Type 0 where
  out in_ no_data : XhciEndpCtlDirection

-- What a driver has asked of an endpoint: `WaitingForDataPipe` with its direction, the bytes
-- transferred and those to transfer.
pub data EndpIfState : Type 0 where
  init : EndpIfState
  waiting_for_data_pipe :
      XhciEndpCtlDirection → (bytes_transferred bytes_to_transfer : ℕ) → EndpIfState
  waiting_for_status : EndpIfState
  waiting_for_transfer_result : PortTransferStatus → EndpIfState

-- `RingOrStreams`; of a stream context array the rings by their stream numbers
pub data RingOrStreams : Type 0 where
  one : Ring → RingOrStreams
  streams : Map Ring → RingOrStreams

pub record EndpointState : Type 0 where
  pub transfer : RingOrStreams
  pub driver_if_state : EndpIfState

pub record PortState : Type 0 where
  pub slot : ℕ
  pub cfg_idx : Option ℕ
  pub dev_desc : Option DevDesc
  pub endpoint_states : Map EndpointState

infixl 5 ◌>>=◌
abbrev pub ◌>>=◌ : {A B : Type 0} → Option A → (A → Option B) → Option B
none >>= f = none
some a >>= f = f a

-- The two loops of `get_endp_desc`, the count on `u8`
unfoldable pub endpoints_of : List IfDesc → List EndpDesc
endpoints_of [] = []
endpoints_of (i ∷ is) = i.endpoints ++ endpoints_of is

unfoldable pub find_endp : (endp_idx endp_count : ℕ) → List EndpDesc → Option EndpDesc
find_endp endp_idx endp_count [] = none
find_endp endp_idx endp_count (d ∷ ds) =
    let later = find_endp endp_idx ((endp_count + 1) % 2 ^ 8) ds in
    if endp_idx == endp_count then some d else later

unfoldable pub get_endp_desc : PortState → ℕ → Option EndpDesc
unfolding endpoints_of find_endp
get_endp_desc p endp_idx = do
  cfg_idx ← p.cfg_idx
  dev_desc ← p.dev_desc
  config_desc ← get_elem? dev_desc.config_descs cfg_idx
  find_endp endp_idx 0 (endpoints_of config_desc.interface_descs)

-- `EndpointState::ring`
unfoldable pub ring : EndpointState → Option Ring
ring s = elim s.transfer [ one r ↦ some r | streams rings ↦ none ]

pub record RingId : Type 0 where
  pub port : ℕ
  pub endpoint_num : ℕ
  pub stream_id : ℕ

abbrev pub default_control_pipe : ℕ → RingId
default_control_pipe port = record { port = port; endpoint_num = 0; stream_id = 0 }

-- `Xhci::with_ring`, which looks the ring up and applies a function to it
unfoldable pub ring_of : RingOrStreams → ℕ → Option Ring
ring_of (one r) stream_id = some r
ring_of (streams rings) stream_id = lookup stream_id rings

unfoldable pub with_ring : {A : Type 0} → Map PortState → RingId → (Ring → A) → Option A
unfolding ring_of
with_ring port_states id function = do
  slot_state ← lookup id.port port_states
  endpoint_state ← lookup id.endpoint_num slot_state.endpoint_states
  r ← ring_of endpoint_state.transfer id.stream_id
  some (function r)
