-- ===== src/Xhci/Endpoints.antt =====
-- xhcid/src/xhci/scheme.rs: the `ctl` and `data` files of an endpoint, over which a driver starts
-- transfers, moves their bytes and asks for their results. Requests and answers are JSON, whose
-- parsing and printing are parameters.
mod Tests
pub mod Pipes
pub mod Protocol
pub mod Deadlocks
use drivers.Base.{
  ℕ, ◌+◌, ◌-◌, ◌*◌, ◌%◌, ◌^◌, bit_and, Bool, true, false, not, ◌&&◌, ◌||◌, Option, none, some, List,
  [], ◌∷◌, ltb, ◌==◌, if◌then◌else◌, length, get_elem?,
}
use drivers.Base.Map.{lookup, insert}
use drivers.Base.Outcome as O
use drivers.Base.Outcome.{Errno, Outcome, ebadf, ebadfd, ebadmsg, eio, eproto, einval}
use drivers.Xhci.Calls.{
  Result, ok, err, panicked, hangs, lift, then_, Call, after, ◌>>=◌, give, get, modify, demand,
}
use drivers.Xhci.Setup.{Setup}
use drivers.Xhci.Trb.Build.{reset_endpoint, set_tr_deque_ptr, transfer_no_op}
use drivers.Xhci.Ring.{Ring, register}
use drivers.Xhci.Ring.Push.{push}
use drivers.Xhci.Ports.{
  EndpDesc, DevDesc, PortState, EndpointState, EndpIfState, init, waiting_for_data_pipe,
  waiting_for_status, waiting_for_transfer_result, XhciEndpCtlDirection, PortTransferStatus,
  PortTransferStatusKind, success, short_packet, stalled, unknown, get_endp_desc, endp_num_to_dci,
  endp_doorbell, endpoints_of,
}
use drivers.Xhci.Control.{
  Xhci, Await, with_port, with_transfer, read_port, lock_port, execute_command, device_req_no_data,
  handle_event_trb, doorbell_at,
}
use drivers.Xhci.Transfers.{
  transfer_ring, put_ring, has_streams, transfer, transfer_read, transfer_write,
}

pub data EndpointStatus : Type 0 where
  disabled enabled halted stopped error : EndpointStatus

-- `XhciEndpCtlReq` and `XhciEndpCtlRes`
pub data CtlReq : Type 0 where
  transfer_req : XhciEndpCtlDirection → (count : ℕ) → CtlReq
  reset : (no_clear_feature : Bool) → CtlReq
  status : CtlReq

pub data CtlRes : Type 0 where
  status_is : EndpointStatus → CtlRes
  transfer_result_is : PortTransferStatus → CtlRes
  pending idle : CtlRes

-- An endpoint's number less one, on `u8`
abbrev pub index_of : ℕ → ℕ
index_of endp_num = (endp_num + 255) % 2 ^ 8

-- The first interface of the first configuration
unfoldable pub first_endp : DevDesc → ℕ → Errno → Errno → Result EndpDesc
first_endp dev_desc i no_interface no_endpoint = elim (get_elem? dev_desc.config_descs 0) [
  | none ↦ err no_interface
  | some c ↦ elim (get_elem? c.interface_descs 0) [
    | none ↦ err no_interface
    | some f ↦ elim (get_elem? f.endpoints i) [ none ↦ err no_endpoint | some d ↦ ok d ]
  ]
]

abbrev pub unwrap : {A X : Type 0} → Option A → Call X A
unwrap none x = (panicked, x)
unwrap (some a) x = (ok a, x)

unfoldable pub status_of : ℕ → Result EndpointStatus
status_of raw =
    if raw == 0
    then ok disabled
    else if raw == 1
    then ok enabled
    else if raw == 2
    then ok halted
    else if raw == 3
    then ok stopped
    else if raw == 4
    then ok error
    else err eio

abbrev pub is_halted : EndpointStatus → Bool
is_halted s = elim s [ halted ↦ true | _ ↦ false ]

-- `(endp_num as usize) - 1`; of 0 it is out of every list.
abbrev pub below_one : ℕ → ℕ
below_one n = (n + (2 ^ 64 - 1)) % 2 ^ 64

unfoldable pub get_endp_status :
    {X : Type 0} → (port_num endp_num : ℕ) → Call (Xhci X) EndpointStatus
unfolding first_endp status_of
get_endp_status port_num endp_num = do
  port_state ← read_port ebadfd port_num
  dev_desc ← unwrap port_state.dev_desc
  endp_desc ← give (first_endp dev_desc (below_one endp_num) eio ebadfd)
  endp_num_xhc ← give (if endp_num == 0 then ok 1 else lift (endp_num_to_dci endp_num endp_desc))
  x ← get
  context ← demand ebadfd (get_elem? x.contexts port_state.slot)
  word ← demand ebadfd (get_elem? context.endpoints (below_one endp_num_xhc))
  give (status_of (bit_and word 0x7))

-- `transfer_result`
unfoldable pub transfer_result : (completion_code bytes_transferred : ℕ) → PortTransferStatus
transfer_result code n = record {
  kind =
      if code == 0x01
      then success
      else if code == 0x0d
      then short_packet
      else if code == 0x06
      then stalled
      else unknown;
  bytes_transferred = n;
}

-- Another state of what a driver asks of an endpoint
abbrev pub put_if_state :
    {X : Type 0}
    → (port_num endp_num : ℕ) → PortState
    → EndpointState
    → EndpIfState
    → Call (Xhci X) (Unit {0})
put_if_state port_num endp_num p s st = modify (
    with_port port_num (record p {
      endpoint_states =
          insert endp_num (record { transfer = s.transfer; driver_if_state = st })
            p.endpoint_states;
    }))

module _ {X : Type 0} (await : Await X) where
  unfoldable pub reset_endpoint_of :
      (port_num endp_num : ℕ) → (tsp : Bool) → Call (Xhci X) (Unit {0})
  unfolding handle_event_trb
  reset_endpoint_of port_num endp_num tsp = if endp_num == 0 then give (err eio) else do
    port_state ← read_port ebadfd port_num
    endp_desc ← demand ebadfd (get_endp_desc port_state (endp_num - 1))
    endp_num_xhc ← give (lift (endp_num_to_dci endp_num endp_desc))
    again ← read_port ebadf port_num
    (event_trb, command_trb) ←
        execute_command await (λ cycle. reset_endpoint again.slot endp_num_xhc tsp cycle)
    give (handle_event_trb event_trb)

  unfoldable pub set_deque_ptr_of :
      (port_num endp_num deque_ptr_and_cycle : ℕ) → Call (Xhci X) (Unit {0})
  unfolding handle_event_trb
  set_deque_ptr_of port_num endp_num deque_ptr_and_cycle =
      if endp_num == 0 then give (err eio) else do
        port_state ← read_port ebadfd port_num
        endp_desc ← demand ebadfd (get_endp_desc port_state (endp_num - 1))
        endp_num_xhc ← give (lift (endp_num_to_dci endp_num endp_desc))
        (event_trb, command_trb) ←
            execute_command await
              (λ cycle. set_tr_deque_ptr deque_ptr_and_cycle cycle 1 1 endp_num_xhc port_state.slot)
        give (handle_event_trb event_trb)

  -- The guard of the port lives to the end of the call.
  unfoldable pub restart_endpoint : (port_num endp_num : ℕ) → Call (Xhci X) (Unit {0})
  unfolding first_endp
  restart_endpoint port_num endp_num = lock_port ebadfd port_num (λ port_state. do
    endpoint_state ← demand ebadfd (lookup endp_num port_state.endpoint_states)
    r ← demand ebadfd (transfer_ring endpoint_state.transfer)
    (i, r') ← give (push r (λ cycle. O.ok (transfer_no_op 0 false false false cycle)))
    _ ← modify (
        with_port port_num
          (with_transfer port_state endp_num endpoint_state (put_ring endpoint_state.transfer r')))
    dev_desc ← unwrap port_state.dev_desc
    endp_desc ← give (first_endp dev_desc (below_one endp_num) eio ebadfd)
    doorbell ← give (
        if endp_num == 0
        then ok 1
        else lift (
            endp_doorbell endp_num endp_desc
              (if has_streams endpoint_state.transfer then 1 else 0)))
    _ ← modify (λ x. record x { doorbells = doorbell_at port_state.slot doorbell ∷ x.doorbells })
    set_deque_ptr_of port_num endp_num (register r'))

  unfoldable pub on_req_reset_device :
      (port_num endp_num : ℕ) → (clear_feature : Bool) → Call (Xhci X) (Unit {0})
  on_req_reset_device port_num endp_num clear_feature = do
    endp_status ← get_endp_status port_num endp_num
    if is_halted endp_status
        then (do
          _ ← reset_endpoint_of port_num endp_num false
          _ ← restart_endpoint port_num endp_num
          if clear_feature
              then device_req_no_data await port_num
                  (record { kind = 0x02; request = 0x01; value = 0; index = 0; length = 0 })
              else give (ok tt))
        else give (err eproto)
