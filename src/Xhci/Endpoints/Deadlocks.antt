-- ===== src/Xhci/Endpoints/Deadlocks.antt =====
-- Requests that wait for a lock which the call itself holds.
use drivers.Base.{
  ℕ, ◌≡◌, refl, ◌∙◌, ap, Bool, true, false, none, some, Option, List, ◌∷◌, length, ==_iff,
}
use drivers.Base.Map.{lookup, lookup-insert_self}
use drivers.Base.Outcome.{Errno, ebadf}
use drivers.Xhci.Calls.{Result, ok, err, panicked, hangs, Call, after}
use drivers.Xhci.Ports.{PortState, EndpointState, init, waiting_for_status, XhciEndpCtlDirection}
use drivers.Xhci.Control.{Xhci, Await, holds, lock_port, read_port}
use drivers.Xhci.Transfers.{transfer}
use drivers.Xhci.Endpoints.{
  CtlReq, transfer_req, reset, status, CtlRes, get_endp_status, on_req_reset_device, index_of,
}
use drivers.Xhci.Endpoints.Pipes.{serve_ctl, on_write_endp_ctl, on_read_endp_ctl}
use drivers.Xhci.Endpoints.Protocol.{Asks, asking, lock_port_lem, asking-Asks}

holds_self : (port : ℕ) (locked : List ℕ) → holds (port ∷ locked) port ≡ true
holds_self port locked = rw ((==_iff port port).1 refl) refl

module _ {X : Type 0} where
  get_endp_status_waits :
      (port endp : ℕ) (x : Xhci X)
      → holds x.locked port ≡ true
      → (get_endp_status port endp x).0 ≡ hangs
  unfolding get_endp_status read_port
  get_endp_status_waits port endp x h = rw h refl

  transfer_waits :
      (await : Await X) (port i : ℕ) (x : Xhci X)
      → holds x.locked port ≡ true
      → (transfer await port i none x).0 ≡ hangs
  unfolding transfer lock_port
  transfer_waits await port i x h = rw h refl

  locked_ends :
      {A : Type 0} (e : Errno) (port : ℕ) (p : PortState) (body : PortState → Call (Xhci X) A)
      → (x : Xhci X) → holds x.locked port ≡ false
      → lookup port x.hci.port_states ≡ some p
      → (body p (record x { locked = port ∷ x.locked })).0 ≡ hangs
      → (lock_port e port body x).0 ≡ hangs
  locked_ends e port p body x free at h = ap (λ r. r.0) (lock_port_lem e port p body x free at) ∙ h

  after-hangs :
      {A B : Type 0} (r : Result A × Xhci X) (f : A → Call (Xhci X) B)
      → r.0 ≡ hangs
      → (after r f).0 ≡ hangs
  after-hangs (ok a, x) f h = cc
  after-hangs (err e, x) f h = cc
  after-hangs (panicked, x) f h = cc
  after-hangs (hangs, x) f h = refl

module _ {X : Type 0} (await : Await X) (parse_ctl : List ℕ → Option CtlReq)
    (print_ctl : CtlRes → List ℕ) (port endp : ℕ) where
  -- On an endpoint that is idle the driver waits for itself, for ever: a request for the status is
  -- taken, but the read of its answer never returns; and requests for a reset and for a transfer
  -- without data never return. Each asks for the entry of the port again, whose lock it holds.
  pub ctl_deadlocks :
      (json again empty answer : List ℕ) (p : PortState) (s : EndpointState) (x : Xhci X)
      → (no_clear_feature : Bool) (count : ℕ) → Asks port endp p s init x
      → parse_ctl json ≡ some status
      → parse_ctl again ≡ some (reset no_clear_feature)
      → parse_ctl empty ≡ some (transfer_req XhciEndpCtlDirection.no_data count)
      → (x1 : Xhci X) × (on_write_endp_ctl await parse_ctl port endp json x
          ≡ (ok (length json), x1))
        × ((on_read_endp_ctl print_ctl port endp answer x1).0 ≡ hangs)
        × ((on_write_endp_ctl await parse_ctl port endp again x).0 ≡ hangs)
        × ((on_write_endp_ctl await parse_ctl port endp empty x).0 ≡ hangs)
  unfolding on_write_endp_ctl on_read_endp_ctl serve_ctl on_req_reset_device
  ctl_deadlocks json again empty answer p s x no_clear_feature count a is_status is_reset is_empty =
      let asked = asking-Asks port endp p s waiting_for_status x a.unlocked in
      let held = holds_self port x.locked in
      (
        asking port endp p s waiting_for_status x,
        lock_port_lem ebadf port p _ x a.unlocked a.at_port
            ∙ rw (a.at_endp, is_status, a.state_is) refl,
        locked_ends ebadf port _ _ _ asked.unlocked asked.at_port (
            rw
              (lookup-insert_self endp
                (record { transfer = s.transfer; driver_if_state = waiting_for_status })
                p.endpoint_states)
              (after-hangs _ _ (after-hangs _ _ (get_endp_status_waits port endp _ held)))),
        locked_ends ebadf port p _ x a.unlocked a.at_port (
            rw (a.at_endp, is_reset, a.state_is)
              (after-hangs _ _ (after-hangs _ _ (get_endp_status_waits port endp _ held)))),
        locked_ends ebadf port p _ x a.unlocked a.at_port (
            rw (a.at_endp, is_empty, a.state_is)
              (after-hangs _ _
                (after-hangs _ _ (transfer_waits await port (index_of endp) _ held)))),
      )
