-- ===== src/Xhci/Endpoints/Pipes.antt =====
-- xhcid/src/xhci/scheme.rs: reading and writing the `ctl` and `data` files of an endpoint.
use drivers.Base.{
  ℕ, ◌+◌, ◌-◌, ◌%◌, ◌^◌, Bool, true, false, not, ◌||◌, Option, none, some, List, ltb, ◌==◌,
  if◌then◌else◌, length,
}
use drivers.Base.Map.{lookup}
use drivers.Base.Outcome.{Errno, Outcome, ebadf, ebadfd, ebadmsg, eio, einval}
use drivers.Xhci.Calls.{ok, err, panicked, Call, ◌>>=◌, give, demand}
use drivers.Xhci.Ports.{
  PortState, EndpointState, EndpIfState, init, waiting_for_data_pipe, waiting_for_status,
  waiting_for_transfer_result, XhciEndpCtlDirection,
}
use drivers.Xhci.Control.{Xhci, Await, lock_port}
use drivers.Xhci.Transfers.{transfer, transfer_read, transfer_write}
use drivers.Xhci.Endpoints.{
  CtlReq, transfer_req, reset, status, CtlRes, status_is, transfer_result_is, pending, idle,
  index_of, get_endp_status, transfer_result, put_if_state, on_req_reset_device,
}

-- The bytes that are still to come, on `usize`
abbrev pub still : (total done : ℕ) → ℕ
still total done = (total + (2 ^ 64 - done)) % 2 ^ 64

abbrev pub is_out : XhciEndpCtlDirection → Bool
is_out d = elim d [ XhciEndpCtlDirection.out ↦ true | _ ↦ false ]

abbrev pub is_in : XhciEndpCtlDirection → Bool
is_in d = elim d [ XhciEndpCtlDirection.in_ ↦ true | _ ↦ false ]

-- Of a pipe that waits in the direction: the bytes transferred and to transfer
abbrev pub pipe_of : (XhciEndpCtlDirection → Bool) → EndpIfState → Option (ℕ × ℕ)
pipe_of right init = none
pipe_of right (waiting_for_data_pipe d done total) = if right d then some (done, total) else none
pipe_of right waiting_for_status = none
pipe_of right (waiting_for_transfer_result r) = none

-- The state after a transfer of `n` more bytes, the sum on `u32`
unfoldable pub advanced : XhciEndpCtlDirection → (done total code n : ℕ) → EndpIfState
advanced d done total code n =
    if (done + n) % 2 ^ 32 == total || not (code == 0x01)
    then waiting_for_transfer_result (transfer_result code n)
    else waiting_for_data_pipe d ((done + n) % 2 ^ 32) total

-- The check before a transfer, and the change of the state after it; `e` is the error without a port
-- or endpoint.
unfoldable pub check_pipe :
    {X : Type 0}
    → Errno
    → (XhciEndpCtlDirection → Bool)
    → (port_num endp_num len : ℕ) → Call (Xhci X) (Unit {0})
check_pipe e right port_num endp_num len = lock_port e port_num (λ port_state. do
  endpoint_state ← demand e (lookup endp_num port_state.endpoint_states)
  (done, total) ← demand ebadf (pipe_of right endpoint_state.driver_if_state)
  give (if ltb (still total done) len then err einval else ok tt))

abbrev pub put_advanced :
    {X : Type 0}
    → XhciEndpCtlDirection
    → (port_num endp_num code n : ℕ) → PortState
    → EndpointState
    → Option (ℕ × ℕ)
    → Call (Xhci X) (Unit {0})
put_advanced direction port_num endp_num code n p s none = give panicked
put_advanced direction port_num endp_num code n p s (some (done, total)) =
    put_if_state port_num endp_num p s (advanced direction done total code n)

unfoldable pub advance_pipe :
    {X : Type 0}
    → Errno
    → (XhciEndpCtlDirection → Bool)
    → XhciEndpCtlDirection
    → (port_num endp_num code n : ℕ) → Call (Xhci X) (Unit {0})
advance_pipe e right direction port_num endp_num code n = lock_port e port_num (λ port_state. do
  endpoint_state ← demand e (lookup endp_num port_state.endpoint_states)
  put_advanced direction port_num endp_num code n port_state endpoint_state
      (pipe_of right endpoint_state.driver_if_state))

module _ {X : Type 0} (await : Await X) (alloc : ℕ → Outcome ℕ) where
  unfoldable pub on_write_endp_data : (port_num endp_num : ℕ) → List ℕ → Call (Xhci X) ℕ
  on_write_endp_data port_num endp_num buf = do
    _ ← check_pipe ebadfd is_out port_num endp_num (length buf)
    (code, n) ← transfer_write await alloc port_num (index_of endp_num) buf
    _ ← advance_pipe ebadfd is_out XhciEndpCtlDirection.out port_num endp_num code n
    give (ok n)

  -- What is put into the buffer comes last.
  unfoldable pub on_read_endp_data : (port_num endp_num : ℕ) → List ℕ → Call (Xhci X) (ℕ × List ℕ)
  on_read_endp_data port_num endp_num buf = do
    _ ← check_pipe ebadf is_in port_num endp_num (length buf)
    (code, n, buf') ← transfer_read await alloc port_num (index_of endp_num) buf
    _ ← advance_pipe ebadf is_in XhciEndpCtlDirection.in_ port_num endp_num code n
    give (ok (n, buf'))

module _ {X : Type 0} (await : Await X) where
  -- What a request does to an endpoint in its state
  unfoldable pub serve_ctl :
      (port_num endp_num : ℕ)
      → PortState
      → EndpointState
      → EndpIfState
      → CtlReq
      → Call (Xhci X) (Unit {0})
  serve_ctl port_num endp_num p s init status =
      put_if_state port_num endp_num p s waiting_for_status
  serve_ctl port_num endp_num p s init (reset no_clear_feature) =
      on_req_reset_device await port_num endp_num (not no_clear_feature)
  serve_ctl port_num endp_num p s init (transfer_req XhciEndpCtlDirection.no_data count) = do
    (code, n, _) ← transfer await port_num (index_of endp_num) none
    _ ← if n == 0 then give (ok tt) else give (err eio)
    lock_port ebadf port_num (λ new_port. do
      new_endpoint ← demand ebadf (lookup endp_num new_port.endpoint_states)
      put_if_state port_num endp_num new_port new_endpoint
          (waiting_for_transfer_result (transfer_result code 0)))
  serve_ctl port_num endp_num p s init (transfer_req XhciEndpCtlDirection.out count) =
      put_if_state port_num endp_num p s (waiting_for_data_pipe XhciEndpCtlDirection.out 0 count)
  serve_ctl port_num endp_num p s init (transfer_req XhciEndpCtlDirection.in_ count) =
      put_if_state port_num endp_num p s (waiting_for_data_pipe XhciEndpCtlDirection.in_ 0 count)
  serve_ctl port_num endp_num p s (waiting_for_data_pipe d done total) req = give (err ebadf)
  serve_ctl port_num endp_num p s waiting_for_status req = give (err ebadf)
  serve_ctl port_num endp_num p s (waiting_for_transfer_result r) req = give (err ebadf)

  -- The guard of the port lives to the end of the call.
  unfoldable pub on_write_endp_ctl :
      (parse_ctl : List ℕ → Option CtlReq) → (port_num endp_num : ℕ) → List ℕ → Call (Xhci X) ℕ
  on_write_endp_ctl parse_ctl port_num endp_num buf = lock_port ebadf port_num (λ port_state. do
    endpoint_state ← demand ebadf (lookup endp_num port_state.endpoint_states)
    req ← demand ebadmsg (parse_ctl buf)
    _ ← serve_ctl port_num endp_num port_state endpoint_state endpoint_state.driver_if_state req
    give (ok (length buf)))

-- The printed answer has to fit into the buffer; the count and what is written come back.
unfoldable pub on_read_endp_ctl :
    {X : Type 0}
    → (print_ctl : CtlRes → List ℕ) → (port_num endp_num : ℕ) → List ℕ
    → Call (Xhci X) (ℕ × List ℕ)
on_read_endp_ctl print_ctl port_num endp_num buf = lock_port ebadf port_num (λ port_state. do
  endpoint_state ← demand ebadf (lookup endp_num port_state.endpoint_states)
  res ← elim endpoint_state.driver_if_state [
    | init ↦ give (ok idle)
    | waiting_for_status ↦ do
      _ ← put_if_state port_num endp_num port_state endpoint_state init
      endp_status ← get_endp_status port_num endp_num
      give (ok (status_is endp_status))
    | waiting_for_data_pipe direction done total ↦ give (ok pending)
    | waiting_for_transfer_result r ↦ do
      _ ← put_if_state port_num endp_num port_state endpoint_state init
      give (ok (transfer_result_is r))
  ]
  give (
      if ltb (length buf) (length (print_ctl res))
      then err eio
      else ok (length (print_ctl res), print_ctl res)))
