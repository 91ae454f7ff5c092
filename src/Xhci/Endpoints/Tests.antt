-- ===== src/Xhci/Endpoints/Tests.antt =====
-- The theorems on the files of an endpoint at concrete inputs.
use drivers.Base.{
  ℕ, ◌==◌, if◌then◌else◌, ◌≡◌, refl, false, Option, none, some, List, [], ◌∷◌, arith, inl,
}
use drivers.Base.Map.{lookup, insert}
use drivers.Xhci.Calls.{ok, hangs}
use drivers.Xhci.Ports.{
  PortState, EndpointState, init, waiting_for_data_pipe, XhciEndpCtlDirection, endp_doorbell,
  get_endp_desc, is_isoch,
}
use drivers.Xhci.Control.{Xhci, lock_port}
use drivers.Xhci.Transfers.{
  transfer_write, execute_transfer, place_transfer, transfer, transfer_ring, buffer_field,
  estimated_td_size, normal_block, transfer_outcome,
}
use drivers.Xhci.Endpoints.{
  CtlReq, transfer_req, reset, status, CtlRes, status_is, transfer_result_is, pending, idle,
  transfer_result,
}
use drivers.Xhci.Endpoints.Pipes.{on_write_endp_data, on_write_endp_ctl, on_read_endp_ctl}
use drivers.Xhci.Endpoints.Protocol.{Asks, asking, transfer_out}
use drivers.Xhci.Endpoints.Deadlocks.{ctl_deadlocks}
use drivers.Xhci.Samples.{idle_endpoint, port_1, controller, await, alloc}
use drivers.Xhci.Ring.Push.{push}
use drivers.Xhci.Ring.{next, next_index, trb_phys_ptr}
use drivers.Xhci.Trb.Build.{is_transfer_trb, normal}
use drivers.Xhci.Reactor.Futures.{next_transfer_event_trb}
use drivers.Xhci.Trb.{completion_code, transfer_length, trb_type}

-- Texts of one byte
abbrev parse_ctl : List ℕ → Option CtlReq
parse_ctl [] = none
parse_ctl (b ∷ bs) =
    if b == 0
    then some (transfer_req XhciEndpCtlDirection.out 2)
    else if b == 1
    then some status
    else if b == 2
    then some (reset false)
    else some (transfer_req XhciEndpCtlDirection.no_data 0)

abbrev print_ctl : CtlRes → List ℕ
print_ctl (transfer_result_is r) = 1 ∷ r.bytes_transferred ∷ []
print_ctl (status_is s) = 0 ∷ []
print_ctl pending = 0 ∷ []
print_ctl idle = 0 ∷ []

abbrev or_else : {A : Type 0} → Option A → A → A
or_else none b = b
or_else (some a) b = a

-- The driver after two bytes have gone to the device
abbrev sent : Xhci ℕ
sent =
    (transfer_write await alloc 1 0 (5 ∷ 6 ∷ []) (
      asking 1 1 port_1 idle_endpoint (waiting_for_data_pipe XhciEndpCtlDirection.out 0 2)
        controller)).1

abbrev port_sent : PortState
port_sent = or_else (lookup 1 sent.hci.port_states) port_1

abbrev endpoint_sent : EndpointState
endpoint_sent = or_else (lookup 1 port_sent.endpoint_states) idle_endpoint

idle-Asks : Asks 1 1 port_1 idle_endpoint init controller
unfolding lookup
idle-Asks = record { unlocked = refl; at_port = refl; at_endp = refl; state_is = refl }

sent-Asks :
    Asks 1 1 port_sent endpoint_sent (waiting_for_data_pipe XhciEndpCtlDirection.out 0 2) sent
unfolding transfer_write transfer lock_port lookup insert get_endp_desc is_isoch execute_transfer
    endp_doorbell transfer_ring place_transfer push next next_index normal_block normal
    estimated_td_size next_transfer_event_trb is_transfer_trb trb_type buffer_field trb_phys_ptr
    transfer_outcome completion_code transfer_length
sent-Asks = record { unlocked = refl; at_port = refl; at_endp = refl; state_is = refl }

transfer_write-sent :
    transfer_write await alloc 1 0 (5 ∷ 6 ∷ []) (
      asking 1 1 port_1 idle_endpoint
        (waiting_for_data_pipe XhciEndpCtlDirection.out 0 2)
        controller)
    ≡ (ok (1, 2), sent)
unfolding transfer_write transfer lock_port lookup insert get_endp_desc is_isoch execute_transfer
    endp_doorbell transfer_ring place_transfer push next next_index normal_block normal
    estimated_td_size next_transfer_event_trb is_transfer_trb trb_type buffer_field trb_phys_ptr
    transfer_outcome completion_code transfer_length
transfer_write-sent = refl

transfer_out_example :
    (x1 : Xhci ℕ) × (x3 : Xhci ℕ) × (x4 : Xhci ℕ) × (p4 : PortState) × (s4 : EndpointState)
    × (on_write_endp_ctl await parse_ctl 1 1 (0 ∷ []) controller ≡ (ok 1, x1))
    × (on_write_endp_data await alloc 1 1 (5 ∷ 6 ∷ []) x1 ≡ (ok 2, x3))
    × (on_read_endp_ctl print_ctl 1 1 (0 ∷ 0 ∷ 0 ∷ []) x3
        ≡ (ok (2, print_ctl (transfer_result_is (transfer_result 1 2))), x4))
    × Asks 1 1 p4 s4 init x4
transfer_out_example =
    transfer_out await alloc parse_ctl print_ctl 1 1 (0 ∷ []) (5 ∷ 6 ∷ []) (0 ∷ 0 ∷ 0 ∷ []) port_1
      port_sent idle_endpoint endpoint_sent controller sent 1 2 idle-Asks refl (omega arith)
      (omega arith) (inl refl) transfer_write-sent sent-Asks (omega arith)

ctl_deadlocks_example :
    (x1 : Xhci ℕ) × (on_write_endp_ctl await parse_ctl 1 1 (1 ∷ []) controller ≡ (ok 1, x1))
    × ((on_read_endp_ctl print_ctl 1 1 (0 ∷ []) x1).0 ≡ hangs)
    × ((on_write_endp_ctl await parse_ctl 1 1 (2 ∷ []) controller).0 ≡ hangs)
    × ((on_write_endp_ctl await parse_ctl 1 1 (3 ∷ []) controller).0 ≡ hangs)
ctl_deadlocks_example =
    ctl_deadlocks await parse_ctl print_ctl 1 1 (1 ∷ []) (2 ∷ []) (3 ∷ []) (0 ∷ []) port_1
      idle_endpoint controller false 0 idle-Asks refl refl refl
