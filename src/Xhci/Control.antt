-- ===== src/Xhci/Control.antt =====
-- xhcid/src/xhci/scheme.rs: commands to the controller and control transfers to a device. Waiting
-- for a future is a parameter, the executor with the reactor and the controller behind it; the
-- buffer that a transfer is given stands in DMA memory at an address of its own, and the waiting
-- gives what is in it afterwards.
mod Tests
pub mod Stages
use drivers.Base.{
  ℕ, ◌-◌, ◌+◌, ◌*◌, ◌%◌, ◌^◌, bit_and, Bool, true, false, not, ◌||◌, Option, none, some, List, [],
  ◌∷◌, ◌++◌, ◌==◌, if◌then◌else◌, get_elem?,
}
use drivers.Base.Map.{Map, lookup, insert}
use drivers.Base.Outcome as O
use drivers.Base.Outcome.{Errno, Outcome, ebadf, ebadfd, eio, eproto, unwrap}
use drivers.Xhci.Calls.{
  Result, ok, err, panicked, hangs, lift, then_, Call, after, ◌>>=◌, give, get, modify, demand,
}
use drivers.Xhci.Setup.{Setup, set_configuration, set_interface}
use drivers.Xhci.Trb.{
  Trb, TransferKind, no_data, reserved_kind, out, in_, trb_type, completion_code,
}
use drivers.Xhci.Trb.Build.{
  setup, status_trb, data_trb, transfer_no_op, reset_endpoint, set_tr_deque_ptr,
}
use drivers.Xhci.TrbType.{TrbType, trb_type_code}
use drivers.Xhci.Ring.{Ring, register}
use drivers.Xhci.Ring.Push.{push}
use drivers.Xhci.Ports
use drivers.Xhci.Ports.{
  PortState, EndpointState, EndpDesc, RingOrStreams, one, streams, default_control_pipe, ring,
  get_endp_desc, endp_num_to_dci, endp_doorbell,
}
use drivers.Xhci.Reactor.{Hci, NextEventTrb, with_cmd}
use drivers.Xhci.Reactor.Futures.{
  EventTrbFuture, EventDoorbell, next_transfer_event_trb, next_command_completion_event_trb,
}

-- The first word of each endpoint context of a device, and the state of its slot, which the
-- controller writes
pub record DeviceContext : Type 0 where
  pub slot_state : ℕ
  pub endpoints : List ℕ

-- The driver, with the ports whose entry in `port_states` is locked, the doorbells that it rang
-- itself, a number for the next message cell, and everything outside. `port_states` is a map of
-- the chashmap library: a guard locks its entry until it is dropped, and whoever asks for a locked
-- entry waits.
pub record Xhci (X : Type 0) : Type 0 where
  pub hci : Hci
  pub contexts : List DeviceContext
  pub locked : List ℕ
  pub doorbells : List EventDoorbell
  pub cells : ℕ
  pub outside : X

-- Awaiting a future whose transfer has a buffer
abbrev pub Await : Type 0 → Type 0
Await X = EventTrbFuture → List ℕ → Call (Xhci X) (NextEventTrb × List ℕ)

abbrev pub is_no_data : TransferKind → Bool
is_no_data no_data = true
is_no_data reserved_kind = false
is_no_data out = false
is_no_data in_ = false

abbrev pub is_in : TransferKind → Bool
is_in in_ = true
is_in no_data = false
is_in reserved_kind = false
is_in out = false

-- The blocks of a control transfer, and the indices of the first and the last. The closures that
-- write the data stage write one block each.
unfoldable pub place_control : Ring → Setup → TransferKind → (Bool → Trb) → Result (ℕ × ℕ × Ring)
place_control r packet tk block =
    then_ (push r (λ cycle. O.ok (setup packet tk cycle))) (λ (first, r').
      then_ (if is_no_data tk then ok (first, r') else push r' (λ cycle. O.ok (block cycle)))
        (λ (_, r'').
          then_ (push r'' (λ cycle. O.ok (status_trb 0 (not (is_in tk)) true false false cycle)))
            (λ (last, q). ok (first, last, q))))

-- `handle_event_trb` and `handle_transfer_event_trb`
unfoldable pub handle_event_trb : Trb → Result (Unit {0})
handle_event_trb event_trb = if completion_code event_trb == 0x01 then ok tt else err eio

unfoldable pub handle_transfer_event_trb : Trb → Result (Unit {0})
handle_transfer_event_trb event_trb =
    if completion_code event_trb == 0x01 || completion_code event_trb == 0x0d
    then ok tt
    else err eio

-- The state of a port with another ring of an endpoint, and the driver with such a port
abbrev pub with_transfer : PortState → (endp_num : ℕ) → EndpointState → RingOrStreams → PortState
with_transfer p endp_num s transfer = record p {
  endpoint_states =
      insert endp_num (record { transfer = transfer; driver_if_state = s.driver_if_state })
        p.endpoint_states;
}

abbrev pub with_port : {X : Type 0} → (port_num : ℕ) → PortState → Xhci X → Xhci X
with_port port_num p x = record x {
  hci = record {
    ac64 = x.hci.ac64;
    cmd = x.hci.cmd;
    port_states = insert port_num p x.hci.port_states;
  };
}

abbrev pub with_command_ring : {X : Type 0} → Ring → Xhci X → Xhci X
with_command_ring r x = record x { hci = with_cmd x.hci r }

abbrev pub holds : List ℕ → ℕ → Bool
holds [] n = false
holds (m ∷ ms) n = m == n || holds ms n

-- `self.port_states.get(&port_num).ok_or(e)?`, the guard dropped at once
unfoldable pub read_port : {X : Type 0} → Errno → (port_num : ℕ) → Call (Xhci X) PortState
read_port e port_num x =
    if holds x.locked port_num then (hangs, x) else demand e (lookup port_num x.hci.port_states) x

-- `self.port_states.get_mut(&port_num).ok_or(e)?`, with what is done before the guard is dropped,
-- at the end of the block or on an early return
unfoldable pub lock_port :
    {X A : Type 0} → Errno → (port_num : ℕ) → (PortState → Call (Xhci X) A) → Call (Xhci X) A
lock_port e port_num body x =
    if holds x.locked port_num then (hangs, x) else elim (lookup port_num x.hci.port_states) [
      | none ↦ (err e, x)
      | some port_state ↦
          let (result, x') = body port_state (record x { locked = port_num ∷ x.locked }) in
          (result, record x' { locked = x.locked })
    ]

-- A future with a new message cell
abbrev pub new_future :
    {X : Type 0} → (Bool → ℕ → Outcome EventTrbFuture) → Call (Xhci X) EventTrbFuture
new_future make x = (lift (make x.hci.ac64 x.cells), record x { cells = x.cells + 1 })

abbrev pub doorbell_at : ℕ → ℕ → EventDoorbell
doorbell_at index value = record { index = index; value = value }

-- What `execute_control_transfer` makes of the message
unfoldable pub control_result : {X : Type 0} → NextEventTrb × List ℕ → Call (Xhci X) (Trb × List ℕ)
control_result (trbs, buffer) = do
  status_trb ← demand eio trbs.src_trb
  _ ← give (handle_transfer_event_trb trbs.event_trb)
  give (ok (trbs.event_trb, buffer))

module _ {X : Type 0} (await : Await X) where
  unfoldable pub execute_control_transfer :
      (port_num : ℕ) → Setup → TransferKind → (Bool → Trb) → List ℕ → Call (Xhci X) (Trb × List ℕ)
  execute_control_transfer port_num packet tk block buffer = do
    future ← lock_port ebadf port_num (λ port_state. do
      endpoint_state ← demand eio (lookup 0 port_state.endpoint_states)
      r ← demand eio (ring endpoint_state)
      (first, last, r') ← give (place_control r packet tk block)
      _ ← modify (with_port port_num (with_transfer port_state 0 endpoint_state (one r')))
      new_future (λ ac64 cell.
          next_transfer_event_trb ac64 cell (default_control_pipe (port_num % 2 ^ 8)) r' first last
            (doorbell_at port_state.slot 1)))
    message ← await future buffer
    control_result message

  -- The closure of `device_req_no_data` is never called.
  unfoldable pub device_req_no_data : ℕ → Setup → Call (Xhci X) (Unit {0})
  device_req_no_data port req = do
    _ ← execute_control_transfer port req no_data (λ cycle. setup req no_data cycle) []
    give (ok tt)

  -- The event and the command's block
  unfoldable pub execute_command : (Bool → Outcome Trb) → Call (Xhci X) (Trb × Trb)
  execute_command f = do
    x ← get
    (cmd_index, r') ← give (push x.hci.cmd f)
    _ ← modify (with_command_ring r')
    future ←
        new_future
          (λ ac64 cell. next_command_completion_event_trb ac64 cell r' cmd_index (doorbell_at 0 0))
    (trbs, _) ← await future []
    command_trb ← give (lift (unwrap trbs.src_trb))
    if trb_type trbs.event_trb == trb_type_code TrbType.command_completion
        then give (ok (trbs.event_trb, command_trb))
        else give panicked
