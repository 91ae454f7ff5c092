-- ===== src/Xhci/Reactor/Futures.antt =====
-- xhcid/src/xhci/irq_reactor.rs: the futures that commands and transfers wait on. A block is named
-- by its index in its ring.
use drivers.Base.{
  ℕ, ◌+◌, ◌*◌, Bool, false, Option, none, some, List, [], ◌∷◌, ◌++◌, ◌==◌, get_elem?,
}
use drivers.Base.Outcome.{Outcome, ok, panicked, unwrap, assert, ◌>>=◌}
use drivers.Xhci.Ports.{RingId}
use drivers.Xhci.Ring.{Ring, trb_phys_ptr}
use drivers.Xhci.Trb.{trb_type}
use drivers.Xhci.Trb.Build.{contains, is_command_trb, is_transfer_trb}
use drivers.Xhci.TrbType.{TrbType, trb_type_code}
use drivers.Xhci.Reactor.{State, command_completion, transfer, other, NextEventTrb}

-- `EventDoorbell`: which doorbell is rung with what
pub record EventDoorbell : Type 0 where
  pub index : ℕ
  pub value : ℕ

pub data EventTrbFuture : Type 0 where
  pending : State → Option EventDoorbell → EventTrbFuture
  finished : EventTrbFuture

-- What a poll does to others: it sends a state to the reactor, or rings a doorbell.
pub data Effect : Type 0 where
  send : State → Effect
  ring : EventDoorbell → Effect

-- What a poll does: the future after it, the message if it is ready, and its effects in order.
pub record Polled : Type 0 where
  pub future : EventTrbFuture
  pub ready : Option NextEventTrb
  pub effects : List Effect

-- `EventDoorbell::ring` of the doorbell that the future still has, which is taken from it
abbrev pub ring_once : Option EventDoorbell → List Effect
ring_once none = []
ring_once (some doorbell) = ring doorbell ∷ []

-- `Future::poll`, with what the message cell holds
unfoldable pub poll : EventTrbFuture → Option NextEventTrb → Outcome Polled
poll (pending state doorbell_opt) (some message) =
    ok (record { future = finished; ready = some message; effects = [] })
poll (pending state doorbell_opt) none = ok (record {
  future = pending state none;
  ready = none;
  effects = (send state ∷ []) ++ ring_once doorbell_opt;
})
poll finished message = panicked

-- The address of a block of a ring that the driver holds a reference to
abbrev pub phys_ptr_of : Bool → Ring → ℕ → Outcome ℕ
phys_ptr_of ac64 r i = trb_phys_ptr r ac64 (r.virtual + i * 16)

-- A new future, whose message cell has the number `message`
unfoldable pub next_transfer_event_trb :
    Bool → (message : ℕ) → RingId → Ring → (first last : ℕ) → EventDoorbell → Outcome EventTrbFuture
next_transfer_event_trb ac64 message ring_id r first last doorbell = do
  last_trb ← unwrap (get_elem? r.trbs last)
  _ ← assert (is_transfer_trb last_trb)
  first_phys_ptr ← phys_ptr_of ac64 r first
  last_phys_ptr ← phys_ptr_of ac64 r last
  ok (
      pending
        (record {
          message = message;
          kind = transfer first_phys_ptr last_phys_ptr ring_id;
          is_isoch_or_vf = trb_type last_trb == trb_type_code TrbType.isoch;
        })
        (some doorbell))

unfoldable pub next_command_completion_event_trb :
    Bool → (message : ℕ) → Ring → (index : ℕ) → EventDoorbell → Outcome EventTrbFuture
next_command_completion_event_trb ac64 message command_ring index doorbell = do
  trb ← unwrap (get_elem? command_ring.trbs index)
  _ ← assert (is_command_trb trb)
  phys_ptr ← phys_ptr_of ac64 command_ring index
  ok (
      pending
        (record { message = message; kind = command_completion phys_ptr; is_isoch_or_vf = false })
        (some doorbell))

abbrev pub misc_trb_types : List TrbType
misc_trb_types =
    TrbType.port_status_change ∷ TrbType.bandwidth_request ∷ TrbType.doorbell
    ∷ TrbType.host_controller ∷ TrbType.device_notification ∷ TrbType.mfindex_wrap ∷ []

unfoldable pub next_misc_event_trb : (message : ℕ) → TrbType → Outcome EventTrbFuture
next_misc_event_trb message trb_type = do
  _ ← assert (contains misc_trb_types (trb_type_code trb_type))
  ok (pending (record { message = message; kind = other trb_type; is_isoch_or_vf = false }) none)
