-- ===== src/Xhci/Requests.antt =====
-- xhcid/src/xhci/scheme.rs: the control transfers that a driver asks for through the `request` file
-- of a port. Parsing a request from JSON and the address of a new DMA buffer are parameters.
mod Tests
pub mod Stuck
pub mod Sessions
use drivers.Base.{
  ℕ, ◌+◌, ◌*◌, ◌%◌, ◌^◌, bit_or, Bool, true, false, not, Option, none, some, List, [], ◌∷◌, ◌==◌,
  if◌then◌else◌, length, replicate,
}
use drivers.Base.Map.{Map, lookup, insert}
use drivers.Base.Outcome.{Outcome, ebadf, ebadmsg, einval}
use drivers.Xhci.Calls.{
  Result, ok, err, panicked, hangs, lift, then_, Call, after, ◌>>=◌, give, get, modify, demand,
}
use drivers.Xhci.Setup.{Setup}
use drivers.Xhci.Trb.{Trb, TransferKind, no_data, reserved_kind, out, in_}
use drivers.Xhci.Trb.Build.{data_trb}
use drivers.Xhci.Control.{Xhci, Await, is_in, execute_control_transfer}
use drivers.Xhci.Handles.{
  PortReq, PortReqDirection, direction_code, ty_code, recipient_code, Buffer, PortReqState, init,
  waiting_for_device_bytes, waiting_for_host_bytes, tmp_setup, tmp, Handle, port_req, Scheme, below,
  copy_from_slice,
}

abbrev pub transfer_kind_of : PortReq → TransferKind
transfer_kind_of req = if not req.transfers_data then no_data else elim req.direction [
  | PortReqDirection.device_to_host ↦ in_
  | PortReqDirection.host_to_device ↦ out
]

-- The setup packet of a request, its first byte on `u8`
unfoldable pub setup_of : PortReq → Setup
setup_of req = record {
  kind =
      bit_or
        (bit_or (direction_code req.direction * 2 ^ 7 % 2 ^ 8)
          (ty_code req.req_type * 2 ^ 5 % 2 ^ 8))
        (recipient_code req.req_recipient * 2 ^ 0 % 2 ^ 8);
  request = req.request;
  value = req.value;
  index = req.index;
  length = req.length;
}

-- `alloc` gives the address of zeroed DMA memory of a length.
unfoldable pub port_req_init_st : (ℕ → Outcome ℕ) → PortReq → Result PortReqState
port_req_init_st alloc req =
    then_
      (if req.transfers_data
        then then_ (lift (alloc req.length))
            (λ physical. ok (some (record { bytes = replicate req.length 0; physical = physical })))
        else ok none)
      (λ data_buffer_opt. elim (transfer_kind_of req) [
        | in_ ↦ elim data_buffer_opt [
          | none ↦ err einval
          | some buffer ↦ ok (waiting_for_device_bytes buffer (setup_of req))
        ]
        | out ↦ elim data_buffer_opt [
          | none ↦ err einval
          | some buffer ↦ ok (waiting_for_host_bytes buffer (setup_of req))
        ]
        | no_data ↦ ok (tmp_setup (setup_of req))
        | reserved_kind ↦ panicked
      ])

-- `mem::replace(st, Tmp)` and the storing of the state at the end
abbrev pub put_state : {X : Type 0} → (fd : ℕ) → PortReqState → Call (Scheme X) (Unit {0})
put_state fd st s = elim (lookup fd s.handles) [
  | none ↦ (err ebadf, s)
  | some (port_req port_num old) ↦ (
    ok tt,
    record {
      xhci = s.xhci;
      handles = insert fd (port_req port_num st) s.handles;
      next_handle = s.next_handle;
    },
  )
  | some _ ↦ (panicked, s)
]

abbrev pub physical_of : Option Buffer → ℕ
physical_of none = 0
physical_of (some buffer) = buffer.physical

abbrev pub bytes_of : Option Buffer → List ℕ
bytes_of none = []
bytes_of (some buffer) = buffer.bytes

module _ {X : Type 0} (await : Await X) where
  -- What is in the buffer after the transfer
  unfoldable pub port_req_transfer :
      (port_num : ℕ) → Option Buffer → Setup → TransferKind → Call (Xhci X) (List ℕ)
  port_req_transfer port_num data_buffer packet transfer_kind = do
    (event, bytes') ←
        execute_control_transfer await port_num packet transfer_kind
          (λ cycle. data_trb (physical_of data_buffer) packet.length (is_in transfer_kind) cycle)
          (bytes_of data_buffer)
    give (ok bytes')

module _ {X : Type 0} (await : Await X) (alloc : ℕ → Outcome ℕ)
    (parse_req : List ℕ → Option PortReq) where
  -- `handle_port_req_write` up to the storing of the state
  unfoldable pub req_write_step :
      (port_num : ℕ) → PortReqState → List ℕ → Call (Scheme X) PortReqState
  req_write_step port_num init buf = do
    req ← demand ebadmsg (parse_req buf)
    st ← give (port_req_init_st alloc req)
    elim st [
      | tmp_setup packet ↦ do
        _ ← below (port_req_transfer await port_num none packet no_data)
        give (ok init)
      | other ↦ give (ok other)
    ]
  req_write_step port_num (waiting_for_host_bytes dma_buffer packet) buf =
      if length buf == length dma_buffer.bytes
      then (do
        _ ←
            below (
              port_req_transfer await port_num (some (record dma_buffer { bytes = buf })) packet
                out)
        give (ok init))
      else give (err einval)
  req_write_step port_num (waiting_for_device_bytes dma_buffer packet) buf = give (err ebadf)
  req_write_step port_num (tmp_setup packet) buf = give panicked
  req_write_step port_num tmp buf = give panicked

  unfoldable pub handle_port_req_write :
      (fd port_num : ℕ) → PortReqState → List ℕ → Call (Scheme X) ℕ
  handle_port_req_write fd port_num st buf = do
    st' ← req_write_step port_num st buf
    _ ← put_state fd st'
    give (ok (length buf))

  -- `handle_port_req_read` up to the storing of the state: what is put into the buffer
  unfoldable pub req_read_step : (port_num : ℕ) → PortReqState → List ℕ → Call (Scheme X) (List ℕ)
  req_read_step port_num (waiting_for_device_bytes dma_buffer packet) buf =
      if length buf == length dma_buffer.bytes
      then (do
        bytes ← below (port_req_transfer await port_num (some dma_buffer) packet in_)
        give (copy_from_slice buf bytes))
      else give (err einval)
  req_read_step port_num init buf = give (err ebadf)
  req_read_step port_num (waiting_for_host_bytes dma_buffer packet) buf = give (err ebadf)
  req_read_step port_num (tmp_setup packet) buf = give panicked
  req_read_step port_num tmp buf = give panicked

  unfoldable pub handle_port_req_read :
      (fd port_num : ℕ) → PortReqState → List ℕ → Call (Scheme X) (ℕ × List ℕ)
  handle_port_req_read fd port_num st buf = do
    bytes ← req_read_step port_num st buf
    _ ← put_state fd init
    give (ok (length buf, bytes))

  -- The branches of `write` and `read` for a `request` file
  unfoldable pub write_request : (fd port_num : ℕ) → PortReqState → List ℕ → Call (Scheme X) ℕ
  write_request fd port_num st buf = do
    _ ← put_state fd tmp
    handle_port_req_write fd port_num st buf

  unfoldable pub read_request :
      (fd port_num : ℕ) → PortReqState → List ℕ → Call (Scheme X) (ℕ × List ℕ)
  read_request fd port_num st buf = do _ ← put_state fd tmp; handle_port_req_read fd port_num st buf
