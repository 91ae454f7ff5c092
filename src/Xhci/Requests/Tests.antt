-- ===== src/Xhci/Requests/Tests.antt =====
-- The theorems on requests at concrete inputs.
use drivers.Base.{ℕ, ◌==◌, if◌then◌else◌, ◌≡◌, refl, true, Option, none, some, List, [], ◌∷◌, inl}
use drivers.Base.Map.{lookup, insert}
use drivers.Base.Outcome.{ebadmsg}
use drivers.Xhci.Calls.{ok, err, panicked}
use drivers.Xhci.Trb.{completion_code, in_, out, trb_type}
use drivers.Xhci.Trb.Build.{is_transfer_trb, status_trb}
use drivers.Xhci.Ring.{next, next_index, trb_phys_ptr}
use drivers.Xhci.Ports.{ring}
use drivers.Xhci.Control.{
  Xhci, control_result, execute_control_transfer, handle_transfer_event_trb, lock_port,
  place_control,
}
use drivers.Xhci.Handles.{
  PortReq, PortReqTy, PortReqRecipient, PortReqDirection, PortReqState, init, tmp, port_req, Scheme,
}
use drivers.Xhci.Samples.{controller, await, alloc}
use drivers.Xhci.Requests.{
  setup_of, port_req_transfer, write_request, read_request, handle_port_req_write, req_write_step,
}
use drivers.Xhci.Requests.Sessions.{new_buffer, request_reads, request_writes}
use drivers.Xhci.Requests.Stuck.{refused_request_sticks}
use drivers.Xhci.Ring.Push.{push}
use drivers.Xhci.Reactor.Futures.{next_transfer_event_trb}

abbrev ask : PortReqDirection → PortReq
ask direction = record {
  direction = direction;
  req_type = PortReqTy.class;
  req_recipient = PortReqRecipient.interface;
  request = 1;
  value = 0x100;
  index = 2;
  length = 2;
  transfers_data = true;
}

-- A text of one byte
abbrev parse_req : List ℕ → Option PortReq
parse_req [] = none
parse_req (b ∷ bs) =
    some (ask (if b == 0 then PortReqDirection.host_to_device else PortReqDirection.device_to_host))

abbrev scheme : Scheme ℕ
scheme = record { xhci = controller; handles = (3, port_req 1 init) ∷ []; next_handle = 4 }

abbrev after_in : Xhci ℕ
after_in =
    (port_req_transfer await 1 (some (new_buffer (ask PortReqDirection.device_to_host) 0x9000))
      (setup_of (ask PortReqDirection.device_to_host)) in_ controller).1

abbrev after_out : Xhci ℕ
after_out =
    (port_req_transfer await 1 (some (record { bytes = 5 ∷ 6 ∷ []; physical = 0x9000 }))
      (setup_of (ask PortReqDirection.host_to_device)) out controller).1

request_reads_example :
    (st : PortReqState) × (s1 : Scheme ℕ) × (s2 : Scheme ℕ) × (write_request await alloc parse_req 3
        1 init
        (1 ∷ [])
        scheme
      ≡ (ok 1, s1))
    × (s1.xhci ≡ controller)
    × (lookup 3 s1.handles ≡ some (port_req 1 st))
    × (read_request await alloc parse_req 3 1 st (0 ∷ 0 ∷ []) s1 ≡ (ok (2, 7 ∷ 8 ∷ []), s2))
    × (s2.xhci ≡ after_in)
    × (lookup 3 s2.handles ≡ some (port_req 1 init))
unfolding port_req_transfer lookup execute_control_transfer lock_port ring place_control push next
    next_index next_transfer_event_trb is_transfer_trb trb_type status_trb trb_phys_ptr
    control_result handle_transfer_event_trb completion_code
request_reads_example =
    request_reads await alloc parse_req 3 1 (1 ∷ []) (ask PortReqDirection.device_to_host) 0x9000
      (0 ∷ 0 ∷ []) (7 ∷ 8 ∷ []) scheme after_in refl refl refl refl refl refl refl refl

request_writes_example :
    (st : PortReqState) × (s1 : Scheme ℕ) × (s2 : Scheme ℕ) × (write_request await alloc parse_req 3
        1 init
        (0 ∷ [])
        scheme
      ≡ (ok 1, s1))
    × (s1.xhci ≡ controller)
    × (lookup 3 s1.handles ≡ some (port_req 1 st))
    × (write_request await alloc parse_req 3 1 st (5 ∷ 6 ∷ []) s1 ≡ (ok 2, s2))
    × (s2.xhci ≡ after_out)
    × (lookup 3 s2.handles ≡ some (port_req 1 init))
unfolding port_req_transfer lookup execute_control_transfer lock_port ring place_control push next
    next_index next_transfer_event_trb is_transfer_trb trb_type status_trb trb_phys_ptr
    control_result handle_transfer_event_trb completion_code
request_writes_example =
    request_writes await alloc parse_req 3 1 (0 ∷ []) (ask PortReqDirection.host_to_device) 0x9000
      (5 ∷ 6 ∷ []) (7 ∷ 8 ∷ []) scheme after_out refl refl refl refl refl refl refl

-- A text that is no request
abbrev refused : Scheme ℕ
refused = record scheme { handles = (3, port_req 1 tmp) ∷ [] }

empty_refused : write_request await alloc parse_req 3 1 init [] scheme ≡ (err ebadmsg, refused)
unfolding write_request lookup handle_port_req_write req_write_step insert
empty_refused = refl

refused_request_sticks_example :
    (lookup 3 refused.handles ≡ some (port_req 1 tmp))
    × ((write_request await alloc parse_req 3 1 tmp (1 ∷ []) refused).0 ≡ panicked)
    × ((read_request await alloc parse_req 3 1 tmp (1 ∷ []) refused).0 ≡ panicked)
unfolding lookup
refused_request_sticks_example =
    refused_request_sticks await alloc parse_req 3 1 init [] scheme refused ebadmsg refl
      (inl empty_refused) (1 ∷ [])
