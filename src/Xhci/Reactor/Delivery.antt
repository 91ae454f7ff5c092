-- ===== src/Xhci/Reactor/Delivery.antt =====
-- A command from its future's first poll to its last, through the reactor's loop.
use drivers.Base.{
  ℕ, zero, suc, ◌+◌, ◌-◌, ◌*◌, ◌/◌, ◌%◌, ◌^◌, ◌<◌, ◌≡◌, ◌≢◌, refl, ap, bit_and, true, false, none,
  some, List, [], ◌∷◌, ◌++◌, length, get_elem?, arith, Bool-cases, leb, inl, inr,
}
use mathlib.Core.List.{append-nil}
use drivers.Base.Bits.{and_shifted, and_mask}
use drivers.Base.Outcome.{ok}
use drivers.Xhci.Trb.{Trb, trb_type, completion_code, completion_trb_pointer}
use drivers.Xhci.Trb.Build.{reserved, is_command_trb}
use drivers.Xhci.Ring.{
  with_block, Ring, EventRing, erdp, register, next_index, phys_base, phys_addr_to_index,
  trb_phys_ptr,
}
use drivers.Xhci.Reactor.{State, command_completion, IrqReactor, with_cmd}
use drivers.Xhci.Reactor.Futures.{
  EventTrbFuture, EventDoorbell, Polled, send, ring, pending, poll, finished,
  next_command_completion_event_trb,
}
use drivers.Xhci.Reactor.Turns.{
  EventLoop, turn, serve, take_off, update_erdp, handle_requests, check_event_ring_full,
  with_ring_of,
}
use drivers.Xhci.Reactor.Matching.{AllElsewhere, acknowledge_command}

-- The address that `erdp` gives is a multiple of 16, so the assertion holds.
aligned : (v : ℕ) → v < 2 ^ 64 → v % 16 ≡ 0 → bit_and v 0xffff_ffff_ffff_fff0 ≡ v
aligned v h e = omega (arith, and_shifted 4 v (2 ^ 60 - 1), and_mask 60 (v / 2 ^ 4))

even : (v : ℕ) → v < 2 ^ 64 → v % 16 ≡ 0 → bit_and v 0xffff_ffff_ffff_fffe ≡ v
even v h e = omega (arith, and_shifted 1 v (2 ^ 63 - 1), and_mask 63 (v / 2 ^ 1))

erdp-aligned : (e : EventRing) → (erdp e < 2 ^ 64) × (erdp e % 16 ≡ 0)
unfolding erdp
erdp-aligned e = (
  omega
      (arith, and_shifted 4 (register e.ring) (2 ^ 60 - 1), and_mask 60 (register e.ring / 2 ^ 4)),
  omega
      (arith, and_shifted 4 (register e.ring) (2 ^ 60 - 1), and_mask 60 (register e.ring / 2 ^ 4)),
)

update_erdp_lem : (e : EventRing) → update_erdp e ≡ ok (erdp e)
unfolding update_erdp
update_erdp_lem e = ground (arith, erdp-aligned e, even (erdp e), aligned (erdp e))

-- An event ring has no link block to write, so its index always moves on at once.
next_index_event :
    (r : Ring) → r.link_ring ≡ false → (i : ℕ) × (r' : Ring) × (next_index 2 r ≡ some (ok (i, r')))
unfolding next_index
next_index_event r h = elim (Bool-cases (leb (length r.trbs) (r.i + 1))) [
  | inl last ↦ (r.i, record r { i = 0 }, ground arith)
  | inr more ↦ (r.i, record r { i = r.i + 1 }, ground arith)
]

take_off-total :
    (l : EventLoop)
    → l.event_ring.ring.link_ring ≡ false
    → (l' : EventLoop) × (take_off l ≡ ok l') × (l'.reactor ≡ l.reactor)
unfolding take_off
take_off-total l h =
    let ring = with_block l.event_ring.ring l.event_trb_index (reserved false) in
    let (i, r', e) = next_index_event ring h in
    let l' = record l {
      event_ring = with_ring_of l.event_ring r';
      event_trb_index = i;
      dequeue_pointer = erdp (with_ring_of l.event_ring ring);
    } in
    (l', rw (update_erdp_lem (with_ring_of l.event_ring ring), e) refl, refl)

-- The reactor when the command's future has been woken
woken : EventLoop → (message index : ℕ) → (block t : Trb) → IrqReactor
woken l message index block t = record {
  hci = with_cmd l.reactor.hci (with_block l.reactor.hci.cmd index (reserved false));
  states = l.reactor.states;
  finished =
      l.reactor.finished ++ (message, some (record { event_trb = t; src_trb = some block })) ∷ [];
}

-- A new command that waits on the last of the states
command_state : ℕ → ℕ → State
command_state message phys_ptr = record {
  message = message;
  kind = command_completion phys_ptr;
  is_isoch_or_vf = false;
}

serve_command :
    (l : EventLoop) (message phys_ptr index : ℕ) (block t : Trb)
    → l.received ≡ command_state message phys_ptr ∷ []
    → trb_type t ≡ 33
    → completion_trb_pointer t ≡ some phys_ptr
    → phys_addr_to_index l.reactor.hci.cmd l.reactor.hci.ac64 phys_ptr ≡ ok (some index)
    → get_elem? l.reactor.hci.cmd.trbs index ≡ some block
    → AllElsewhere l.reactor.hci phys_ptr l.reactor.states
    → serve l t ≡ ok (record l { reactor = woken l message index block t; received = [] })
unfolding serve handle_requests command_state woken
serve_command l message phys_ptr index block t received type pointer found here h =
    let done =
      acknowledge_command t l.reactor.hci l.reactor.states (command_state message phys_ptr) []
        l.reactor.finished phys_ptr index block type pointer refl found here h in
    rw (type, received, done, append-nil l.reactor.states) refl

turn_command :
    (l : EventLoop) (message phys_ptr index : ℕ) (block t : Trb)
    → get_elem? l.event_ring.ring.trbs l.event_trb_index ≡ some t
    → l.event_ring.ring.link_ring ≡ false
    → l.received ≡ command_state message phys_ptr ∷ []
    → trb_type t ≡ 33
    → completion_code t ≢ 0
    → completion_trb_pointer t ≡ some phys_ptr
    → phys_addr_to_index l.reactor.hci.cmd l.reactor.hci.ac64 phys_ptr ≡ ok (some index)
    → get_elem? l.reactor.hci.cmd.trbs index ≡ some block
    → AllElsewhere l.reactor.hci phys_ptr l.reactor.states
    → (l' : EventLoop) × (turn l ≡ ok l') × (l'.reactor ≡ woken l message index block t)
unfolding turn check_event_ring_full
turn_command l message phys_ptr index block t at event received type code pointer found here h =
    let served = record l { reactor = woken l message index block t; received = [] } in
    let (l', e, same) = take_off-total served event in
    let done = serve_command l message phys_ptr index block t received type pointer found here h in
    (l', rw (at, done) (ground arith), same)

get_elem?-lt : (xs : List Trb) (i : ℕ) (t : Trb) → get_elem? xs i ≡ some t → i < length xs
get_elem?-lt [] i t h = cc
get_elem?-lt (x ∷ xs) zero t h = omega arith
get_elem?-lt (x ∷ xs) (suc i) t h = omega (arith, get_elem?-lt xs i t h)

-- A command's future from its first poll to its last. The first poll sends the state to the reactor
-- and then rings the doorbell, in this order; when an event for the command's block comes while no other future
-- waits for that block, the reactor's next turn gives the future the event with a copy of the block
-- and leaves the other futures as they were, and the next poll is ready with that message.
pub command_completes :
    (l : EventLoop) (k message : ℕ) (block t : Trb) (doorbell : EventDoorbell)
    → get_elem? l.reactor.hci.cmd.trbs k ≡ some block
    → is_command_trb block ≡ true
    → get_elem? l.event_ring.ring.trbs l.event_trb_index ≡ some t
    → l.event_ring.ring.link_ring ≡ false
    → trb_type t ≡ 33
    → completion_code t ≢ 0
    → completion_trb_pointer t ≡ some (phys_base l.reactor.hci.cmd l.reactor.hci.ac64 + k * 16)
    → AllElsewhere l.reactor.hci
        (phys_base l.reactor.hci.cmd l.reactor.hci.ac64 + k * 16)
        l.reactor.states
    → (future : EventTrbFuture) × (first : Polled) × (s : State) × (l' : EventLoop)
      × (next_command_completion_event_trb l.reactor.hci.ac64 message l.reactor.hci.cmd k doorbell
          ≡ ok future)
      × (poll future none ≡ ok first)
      × (first.effects ≡ send s ∷ ring doorbell ∷ [])
      × (first.ready ≡ none)
      × (turn (record l { received = s ∷ [] }) ≡ ok l')
      × (l'.reactor.states ≡ l.reactor.states)
      × (l'.reactor.finished
          ≡ l.reactor.finished
            ++ (message, some (record { event_trb = t; src_trb = some block })) ∷ [])
      × (poll first.future (some (record { event_trb = t; src_trb = some block }))
          ≡ ok (record {
            future = finished;
            ready = some (record { event_trb = t; src_trb = some block });
            effects = [];
          }))
unfolding next_command_completion_event_trb trb_phys_ptr phys_addr_to_index poll command_state woken
command_completes l k message block t doorbell here command at event type code pointer h =
    let paddr = phys_base l.reactor.hci.cmd l.reactor.hci.ac64 + k * 16 in
    let inside = get_elem?-lt l.reactor.hci.cmd.trbs k block here in
    let s = command_state message paddr in
    let (l', e, same) =
      turn_command (record l { received = s ∷ [] }) message paddr k block t at event refl type code
        pointer (ground arith) here h in
    (
      pending s (some doorbell),
      record { future = pending s none; ready = none; effects = send s ∷ ring doorbell ∷ [] },
      s,
      l',
      rw (here, command) (ground arith),
      refl,
      refl,
      refl,
      e,
      ap (λ r. r.states) same,
      ap (λ r. r.finished) same,
      refl,
    )
