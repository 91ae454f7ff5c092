-- ===== src/Xhci/Endpoints/Protocol.antt =====
-- A transfer over the files of an endpoint, from the request to its result.
use drivers.Base.{
  ℕ, ◌^◌, ◌<◌, ◌≤◌, ◌≡◌, ◌≢◌, refl, ◌∙◌, ◌⊎◌, inl, inr, Bool, true, false, some, Option, List, ◌∷◌,
  ltb, length, arith,
}
use drivers.Base.Map.{lookup, insert, lookup-insert_self}
use drivers.Base.Outcome.{Errno, Outcome, ebadf, ebadfd}
use drivers.Xhci.Calls.{ok, Call}
use drivers.Xhci.Ports.{
  PortState, EndpointState, EndpIfState, init, waiting_for_data_pipe, waiting_for_transfer_result,
  XhciEndpCtlDirection, PortTransferStatus,
}
use drivers.Xhci.Control.{Xhci, Await, holds, lock_port, with_port}
use drivers.Xhci.Transfers.{transfer_write}
use drivers.Xhci.Endpoints.{
  CtlReq, transfer_req, CtlRes, transfer_result_is, index_of, transfer_result,
}
use drivers.Xhci.Endpoints.Pipes.{
  still, is_out, is_in, pipe_of, advanced, check_pipe, advance_pipe, on_write_endp_data, serve_ctl,
  on_write_endp_ctl, on_read_endp_ctl,
}

-- The driver with another state of what is asked of an endpoint
abbrev pub asking :
    {X : Type 0} → (port endp : ℕ) → PortState → EndpointState → EndpIfState → Xhci X → Xhci X
asking port endp p s st x =
    with_port port
      (record p {
        endpoint_states =
            insert endp (record { transfer = s.transfer; driver_if_state = st }) p.endpoint_states;
      })
      x

-- An endpoint of an unlocked port, with what is asked of it
pub record Asks {X : Type 0} (port endp : ℕ) (p : PortState) (s : EndpointState) (st : EndpIfState)
    (x : Xhci X) : Type 0 where
  pub unlocked : holds x.locked port ≡ false
  pub at_port : lookup port x.hci.port_states ≡ some p
  pub at_endp : lookup endp p.endpoint_states ≡ some s
  pub state_is : s.driver_if_state ≡ st

module _ {X : Type 0} where
  pub lock_port_lem :
      {A : Type 0} (e : Errno) (port : ℕ) (p : PortState) (body : PortState → Call (Xhci X) A)
      → (x : Xhci X) → holds x.locked port ≡ false
      → lookup port x.hci.port_states ≡ some p
      → lock_port e port body x ≡ (
          let (r, x') = body p (record x { locked = port ∷ x.locked }) in
          (r, record x' { locked = x.locked }))
  unfolding lock_port
  lock_port_lem e port p body x free at = rw (free, at) refl

  pub asking-Asks :
      (port endp : ℕ) (p : PortState) (s : EndpointState) (st : EndpIfState) (x : Xhci X)
      → holds x.locked port ≡ false
      → Asks port endp
          (record p {
            endpoint_states =
                insert endp
                  (record { transfer = s.transfer; driver_if_state = st })
                  p.endpoint_states;
          })
          (record { transfer = s.transfer; driver_if_state = st })
          st
          (asking port endp p s st x)
  asking-Asks port endp p s st x free = record {
    unlocked = free;
    at_port = lookup-insert_self port _ x.hci.port_states;
    at_endp = lookup-insert_self endp _ p.endpoint_states;
    state_is = refl;
  }

-- The bytes of the pipe that is asked for
check_pipe_lem :
    {X : Type 0} (e : Errno) (right : XhciEndpCtlDirection → Bool) (d : XhciEndpCtlDirection)
    → (port endp len total : ℕ) (p : PortState) (s : EndpointState) (x : Xhci X)
    → Asks port endp p s (waiting_for_data_pipe d 0 total) x
    → right d ≡ true
    → len ≡ total
    → len < 2 ^ 32
    → check_pipe e right port endp len x ≡ (ok tt, x)
unfolding check_pipe
check_pipe_lem e right d port endp len total p s x a r same small =
    let fits : ltb (still total 0) len ≡ false = ground arith in
    lock_port_lem e port p _ x a.unlocked a.at_port ∙ rw (a.at_endp, a.state_is, r, fits) refl

advance_pipe_lem :
    {X : Type 0} (e : Errno) (right : XhciEndpCtlDirection → Bool) (d : XhciEndpCtlDirection)
    → (port endp total code n : ℕ) (p : PortState) (s : EndpointState) (x : Xhci X)
    → Asks port endp p s (waiting_for_data_pipe d 0 total) x
    → right d ≡ true
    → advance_pipe e right d port endp code n x
      ≡ (ok tt, asking port endp p s (advanced d 0 total code n) x)
unfolding advance_pipe
advance_pipe_lem e right d port endp total code n p s x a r =
    let pipe : pipe_of right s.driver_if_state ≡ some (0, total) = rw (a.state_is, r) refl in
    lock_port_lem e port p _ x a.unlocked a.at_port ∙ rw (a.at_endp, pipe) refl

-- A transfer that is done, or that did not succeed
advanced-done :
    (d : XhciEndpCtlDirection) (total code n : ℕ)
    → n < 2 ^ 32
    → (n ≡ total) ⊎ (code ≢ 1)
    → advanced d 0 total code n ≡ waiting_for_transfer_result (transfer_result code n)
unfolding advanced
advanced-done d total code n small (inl e) = ground arith
advanced-done d total code n small (inr ne) = ground arith

-- What a driver reads from the ctl file after that
result_is_read :
    {X : Type 0} (print_ctl : CtlRes → List ℕ) (port endp : ℕ) (answer : List ℕ)
    → (p : PortState) (s : EndpointState) (r : PortTransferStatus) (x : Xhci X)
    → Asks port endp p s (waiting_for_transfer_result r) x
    → length (print_ctl (transfer_result_is r)) ≤ length answer
    → on_read_endp_ctl print_ctl port endp answer x ≡ (
      ok (length (print_ctl (transfer_result_is r)), print_ctl (transfer_result_is r)),
      asking port endp p s init x,
    )
unfolding on_read_endp_ctl
result_is_read print_ctl port endp answer p s r x a fits =
    let room : ltb (length answer) (length (print_ctl (transfer_result_is r))) ≡ false =
      ground arith in
    lock_port_lem ebadf port p _ x a.unlocked a.at_port ∙ rw (a.at_endp, a.state_is, room) refl

-- The request of a transfer with data
request_is_taken :
    {X : Type 0} (await : Await X) (parse_ctl : List ℕ → Option CtlReq) (port endp count : ℕ)
    → (d : XhciEndpCtlDirection) (json : List ℕ) (p : PortState) (s : EndpointState) (x : Xhci X)
    → Asks port endp p s init x
    → parse_ctl json ≡ some (transfer_req d count)
    → (is_out d ≡ true) ⊎ (is_in d ≡ true)
    → on_write_endp_ctl await parse_ctl port endp json x
      ≡ (ok (length json), asking port endp p s (waiting_for_data_pipe d 0 count) x)
unfolding on_write_endp_ctl serve_ctl
request_is_taken await parse_ctl port endp count XhciEndpCtlDirection.out json p s x a parsed way =
    lock_port_lem ebadf port p _ x a.unlocked a.at_port ∙ rw (a.at_endp, parsed, a.state_is) refl
request_is_taken await parse_ctl port endp count XhciEndpCtlDirection.in_ json p s x a parsed way =
    lock_port_lem ebadf port p _ x a.unlocked a.at_port ∙ rw (a.at_endp, parsed, a.state_is) refl
request_is_taken await parse_ctl port endp count XhciEndpCtlDirection.no_data json p s x a parsed
      (inl o) =
    cc
request_is_taken await parse_ctl port endp count XhciEndpCtlDirection.no_data json p s x a parsed
      (inr o) =
    cc

module _ {X : Type 0} (await : Await X) (alloc : ℕ → Outcome ℕ) (parse_ctl : List ℕ → Option CtlReq)
    (print_ctl : CtlRes → List ℕ) (port endp : ℕ) where
  -- A transfer of bytes to a device over the files of an endpoint that is idle: the request on ctl
  -- makes it wait for as many bytes; when these are written to data, they go to the device in one
  -- transfer, whose count the write returns; then ctl gives the result, by its completion code and
  -- count, and the endpoint is idle again. This is for a transfer that moves all bytes or does not
  -- succeed, that leaves the endpoint waiting, and for an answer that fits the driver's buffer.
  pub transfer_out :
      (json buf answer : List ℕ) (p p2 : PortState) (s s2 : EndpointState) (x x2 : Xhci X)
      → (code n : ℕ) → Asks port endp p s init x
      → parse_ctl json ≡ some (transfer_req XhciEndpCtlDirection.out (length buf))
      → length buf < 2 ^ 32
      → n < 2 ^ 32
      → (n ≡ length buf) ⊎ (code ≢ 1)
      → transfer_write await alloc port
          (index_of endp)
          buf
          (asking port endp p s (waiting_for_data_pipe XhciEndpCtlDirection.out 0 (length buf)) x)
        ≡ (ok (code, n), x2)
      → Asks port endp p2 s2 (waiting_for_data_pipe XhciEndpCtlDirection.out 0 (length buf)) x2
      → length (print_ctl (transfer_result_is (transfer_result code n))) ≤ length answer
      → (x1 : Xhci X) × (x3 : Xhci X) × (x4 : Xhci X) × (p4 : PortState) × (s4 : EndpointState)
        × (on_write_endp_ctl await parse_ctl port endp json x ≡ (ok (length json), x1))
        × (on_write_endp_data await alloc port endp buf x1 ≡ (ok n, x3))
        × (on_read_endp_ctl print_ctl port endp answer x3 ≡ (
          ok (
            length (print_ctl (transfer_result_is (transfer_result code n))),
            print_ctl (transfer_result_is (transfer_result code n)),
          ),
          x4,
        ))
        × Asks port endp p4 s4 init x4
  unfolding on_write_endp_data
  transfer_out json buf answer p p2 s s2 x x2 code n a parsed small less done moved waits fits =
      let d = XhciEndpCtlDirection.out in
      let asked = asking-Asks port endp p s (waiting_for_data_pipe d 0 (length buf)) x a.unlocked in
      let result = waiting_for_transfer_result (transfer_result code n) in
      let over = asking-Asks port endp p2 s2 result x2 waits.unlocked in
      let p3 = record p2 {
        endpoint_states =
            insert endp (record { transfer = s2.transfer; driver_if_state = result })
              p2.endpoint_states;
      } in
      let s3 : EndpointState = record { transfer = s2.transfer; driver_if_state = result } in
      let x3 = asking port endp p2 s2 result x2 in
      (
        asking port endp p s (waiting_for_data_pipe d 0 (length buf)) x,
        x3,
        asking port endp p3 s3 init x3,
        _,
        _,
        request_is_taken await parse_ctl port endp (length buf) d json p s x a parsed (inl refl),
        rw
            (
              check_pipe_lem ebadfd is_out d port endp (length buf) (length buf) _ _ _ asked refl
                  refl small,
              moved,
              advance_pipe_lem ebadfd is_out d port endp (length buf) code n p2 s2 x2 waits refl,
              advanced-done d (length buf) code n less done,
            )
            refl,
        result_is_read print_ctl port endp answer p3 s3 (transfer_result code n) x3 over fits,
        asking-Asks port endp p3 s3 init x3 over.unlocked,
      )
