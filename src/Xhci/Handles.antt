-- ===== src/Xhci/Handles.antt =====
-- xhcid/src/xhci/scheme.rs: the handles of the scheme, and the state of the driver with them.
-- xhcid/src/driver_interface.rs: what a driver asks of a port.
use drivers.Base.{ℕ, Bool, List, ◌==◌, if◌then◌else◌, length}
use drivers.Base.Map.{Map}
use drivers.Xhci.Calls.{Result, ok, panicked, Call}
use drivers.Xhci.Setup.{Setup, ReqType, req_type_code}
use drivers.Xhci.Control.{Xhci}

pub data PortReqDirection : Type 0 where
  host_to_device device_to_host : PortReqDirection

pub data PortReqTy : Type 0 where
  class vendor standard : PortReqTy

pub data PortReqRecipient : Type 0 where
  device interface endpoint other vendor_specific : PortReqRecipient

pub record PortReq : Type 0 where
  pub direction : PortReqDirection
  pub req_type : PortReqTy
  pub req_recipient : PortReqRecipient
  pub request : ℕ
  pub value : ℕ
  pub index : ℕ
  pub length : ℕ
  pub transfers_data : Bool

-- `ReqDirection::from`, `ReqType::from` and `ReqRecipient::from`, as the numbers that they stand for
abbrev pub direction_code : PortReqDirection → ℕ
direction_code PortReqDirection.host_to_device = 0
direction_code PortReqDirection.device_to_host = 1

abbrev pub ty_code : PortReqTy → ℕ
ty_code class = req_type_code ReqType.class
ty_code vendor = req_type_code ReqType.vendor
ty_code standard = req_type_code ReqType.standard

abbrev pub recipient_code : PortReqRecipient → ℕ
recipient_code device = 0
recipient_code interface = 1
recipient_code endpoint = 2
recipient_code other = 3
recipient_code vendor_specific = 31

-- A buffer in DMA memory
pub record Buffer : Type 0 where
  pub bytes : List ℕ
  pub physical : ℕ

pub data PortReqState : Type 0 where
  init : PortReqState
  waiting_for_device_bytes waiting_for_host_bytes : Buffer → Setup → PortReqState
  tmp_setup : Setup → PortReqState
  tmp : PortReqState

pub data EndpointHandleTy : Type 0 where
  data_ ctl : EndpointHandleTy
  root : (offset : ℕ) → (content : List ℕ) → EndpointHandleTy

pub data Handle : Type 0 where
  top_level : (offset : ℕ) → (contents : List ℕ) → Handle
  port port_desc endpoints : (port_num offset : ℕ) → (contents : List ℕ) → Handle
  port_state : (port_num offset : ℕ) → Handle
  port_req : (port_num : ℕ) → PortReqState → Handle
  endpoint : (port_num endp_num : ℕ) → EndpointHandleTy → Handle
  configure_endpoints : (port_num : ℕ) → Handle

-- The driver with the handles that are open
pub record Scheme (X : Type 0) : Type 0 where
  pub xhci : Xhci X
  pub handles : Map Handle
  pub next_handle : ℕ

-- A call of the driver below the scheme
abbrev pub below : {X A : Type 0} → Call (Xhci X) A → Call (Scheme X) A
below call s =
    let (r, x) = call s.xhci in
    (r, record { xhci = x; handles = s.handles; next_handle = s.next_handle })

-- `a.copy_from_slice(b)`, which wants as many bytes
abbrev pub copy_from_slice : List ℕ → List ℕ → Result (List ℕ)
copy_from_slice buf bytes = if length buf == length bytes then ok bytes else panicked
