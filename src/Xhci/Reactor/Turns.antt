-- ===== src/Xhci/Reactor/Turns.antt =====
-- xhcid/src/xhci/irq_reactor.rs: the body of the loop over the event ring in `run_polling`, which
-- the loop with an interrupt file shares up to where it stops. Ports are counted, since of their
-- registers only the cleared changes matter.
use drivers.Base.{
  ℕ, ◌-◌, bit_and, Bool, false, not, ◌&&◌, ◌||◌, none, some, List, [], ◌∷◌, ◌++◌, ltb, ◌==◌,
  if◌then◌else◌, get_elem?,
}
use drivers.Base.Outcome.{Outcome, ok, panicked, unwrap, assert, ◌>>=◌}
use drivers.Xhci.Ring.{with_block, Ring, EventRing, erdp, next_index}
use drivers.Xhci.Trb.{Trb, trb_type, completion_code, port_status_change_port_id}
use drivers.Xhci.Trb.Build.{reserved}
use drivers.Xhci.TrbType.{TrbType, trb_type_code}
use drivers.Xhci.Reactor.{State, IrqReactor, acknowledge}

-- The reactor's loop: the futures that have been sent to it since, the ring with the index of the
-- event that comes next, how many ports there are, the requests to the device enumerator, the
-- ports whose connect status change was cleared, and the dequeue pointer that the controller knows.
pub record EventLoop : Type 0 where
  pub reactor : IrqReactor
  pub received : List State
  pub event_ring : EventRing
  pub event_trb_index : ℕ
  pub ports : ℕ
  pub enumerations : List ℕ
  pub cleared : List ℕ
  pub dequeue_pointer : ℕ

-- `handle_requests`, on the states
unfoldable pub handle_requests : IrqReactor → List State → IrqReactor
handle_requests r received = record {
  hci = r.hci;
  states = r.states ++ received;
  finished = r.finished;
}

-- `handle_port_status_change`: port 0, or one past the last, is an index out of bounds.
unfoldable pub handle_port_status_change : EventLoop → Trb → Outcome EventLoop
handle_port_status_change l trb = elim (port_status_change_port_id trb) [
  | some port_num ↦
      if port_num == 0 || not (ltb (port_num - 1) l.ports)
      then panicked
      else ok (record l {
        enumerations = l.enumerations ++ port_num ∷ [];
        cleared = l.cleared ++ port_num ∷ [];
      })
  | none ↦ ok l
]

-- `check_event_ring_full`; growing the ring is not implemented.
unfoldable pub check_event_ring_full : Trb → Bool
check_event_ring_full t =
    trb_type t == trb_type_code TrbType.host_controller && completion_code t == 0x15

-- `update_erdp`: the pointer that is written to the register, in two halves
unfoldable pub update_erdp : EventRing → Outcome ℕ
update_erdp e =
    let pointer = bit_and (erdp e) 0xffff_ffff_ffff_fffe in
    assert (bit_and pointer 0xffff_ffff_ffff_fff0 == pointer) >>= λ _. ok pointer

abbrev pub with_ring_of : EventRing → Ring → EventRing
with_ring_of e r = record {
  address_low = e.address_low;
  address_high = e.address_high;
  size = e.size;
  ring = r;
}

-- What an event does before it is taken off the ring
unfoldable pub serve : EventLoop → Trb → Outcome EventLoop
unfolding handle_port_status_change handle_requests
serve l t =
    let asked = handle_requests l.reactor l.received in
    if trb_type t == trb_type_code TrbType.port_status_change
    then handle_port_status_change (record l { reactor = asked; received = [] }) t
    else acknowledge t asked >>= λ r. ok (record l { reactor = r; received = [] })

-- `event_trb.reserved(false)`, `update_erdp` and `next_index`, which never waits on an event ring.
unfoldable pub take_off : EventLoop → Outcome EventLoop
unfolding update_erdp
take_off l = do
  let ring = with_block l.event_ring.ring l.event_trb_index (reserved false)
  pointer ← update_erdp (with_ring_of l.event_ring ring)
  (index, ring') ← elim (next_index 2 ring) [ none ↦ panicked | some taken ↦ taken ]
  ok (record l {
    event_ring = with_ring_of l.event_ring ring';
    event_trb_index = index;
    dequeue_pointer = pointer;
  })

-- A turn of the loop
unfoldable pub turn : EventLoop → Outcome EventLoop
turn l = do
  t ← unwrap (get_elem? l.event_ring.ring.trbs l.event_trb_index)
  if completion_code t == 0 || check_event_ring_full t then ok l else serve l t >>= take_off
