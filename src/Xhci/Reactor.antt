-- ===== src/Xhci/Reactor.antt =====
-- xhcid/src/xhci/irq_reactor.rs: the thread that takes events from the event ring and wakes the
-- futures that wait for them. A future's message cell and waker are told apart by a number; the
-- receiving end of the channel is a list, and so are the messages left in cells. Log output is left
-- out, and a port's status register is the list of changes that were cleared.
mod Tests
pub mod Futures
pub mod Turns
pub mod Delivery
pub mod Failures
pub mod Waiting
pub mod Matching
use drivers.Base.{
  ℕ, zero, suc, ◌-◌, ◌*◌, ◌+◌, bit_and, Bool, true, false, not, ◌&&◌, ◌||◌, Option, none, some,
  List, [], ◌∷◌, ◌++◌, ltb, leb, ◌==◌, if◌then◌else◌, length, get_elem?, set,
}
use drivers.Base.Map.{Map}
use drivers.Base.Outcome.{Outcome, ok, err, panicked, unwrap, ◌>>=◌}
use drivers.Xhci.Ports.{PortState, RingId, with_ring}
use drivers.Xhci.Ring.{Ring, with_block, phys_addr_to_index, phys_addr_to_entry}
use drivers.Xhci.Trb.{Trb, trb_type, completion_trb_pointer, transfer_event_trb_pointer}
use drivers.Xhci.Trb.Build.{reserved}
use drivers.Xhci.TrbType.{TrbType, trb_type_code}

pub data StateKind : Type 0 where
  command_completion : (phys_ptr : ℕ) → StateKind
  transfer : (first_phys_ptr last_phys_ptr : ℕ) → RingId → StateKind
  other : TrbType → StateKind

-- A future that waits, by the number of its message cell
pub record State : Type 0 where
  pub message : ℕ
  pub kind : StateKind
  pub is_isoch_or_vf : Bool

pub record NextEventTrb : Type 0 where
  pub event_trb : Trb
  pub src_trb : Option Trb

-- A call of `State::finish`: whose cell, and the message that is put there
abbrev pub Finish : Type 0
Finish = ℕ × Option NextEventTrb

-- The part of `Xhci` that the reactor uses
pub record Hci : Type 0 where
  pub ac64 : Bool
  pub cmd : Ring
  pub port_states : Map PortState

pub record IrqReactor : Type 0 where
  pub hci : Hci
  pub states : List State
  pub finished : List Finish

abbrev pub finish : State → Option NextEventTrb → Finish
finish s message = (s.message, message)

-- `Xhci::get_transfer_trb`; reading a block can panic.
unfoldable pub get_transfer_trb : Hci → ℕ → RingId → Outcome (Option Trb)
get_transfer_trb hci paddr id =
    elim (with_ring hci.port_states id (λ r. phys_addr_to_entry r hci.ac64 paddr)) [
      | none ↦ ok none
      | some found ↦ found
    ]

abbrev pub with_cmd : Hci → Ring → Hci
with_cmd hci cmd = record { ac64 = hci.ac64; cmd = cmd; port_states = hci.port_states }

-- What a turn of the loop of `acknowledge` does with a state
pub data Verdict : Type 0 where
  -- the next index
  pass : Verdict
  -- removed and woken, and the loop returns
  found : Hci → Option NextEventTrb → Verdict
  -- removed and woken, and the loop goes on
  dead : NextEventTrb → Verdict
  -- removed and forgotten, and the loop goes on
  forgotten : Verdict
  -- `acknowledge_failed_transfer_trbs`, and the loop returns
  failed_transfers : Verdict

-- The command block is copied and then overwritten.
unfoldable pub fetch_command : Hci → Trb → ℕ → Outcome Verdict
fetch_command hci trb phys_ptr = phys_addr_to_index hci.cmd hci.ac64 phys_ptr >>= λ at. elim at [
  | none ↦ ok forgotten
  | some index ↦ unwrap (get_elem? hci.cmd.trbs index) >>= λ block. ok (
      found (with_cmd hci (with_block hci.cmd index (reserved false)))
        (some (record { event_trb = trb; src_trb = some block })))
]

abbrev pub is_some_at : Option ℕ → ℕ → Bool
is_some_at none n = false
is_some_at (some m) n = m == n

-- Whether an address lies among the blocks of a transfer, which may go round the end of the ring
abbrev pub among : (first last phys_ptr : ℕ) → Bool
among first last phys_ptr =
    if leb first last
    then leb first phys_ptr && leb phys_ptr last
    else leb first phys_ptr || leb phys_ptr last

-- The check for a transfer on a ring that is gone
unfoldable pub dead_or_pass : Hci → Trb → RingId → Verdict
dead_or_pass hci trb ring_id = elim (with_ring {A = Unit {0}} hci.port_states ring_id (λ r. tt)) [
  | none ↦ dead (record { event_trb = trb; src_trb = none })
  | some _ ↦ pass
]

unfoldable pub judge : Hci → Trb → StateKind → Outcome Verdict
unfolding fetch_command dead_or_pass get_transfer_trb
judge hci trb (command_completion phys_ptr) =
    if trb_type trb == trb_type_code TrbType.command_completion
      && is_some_at (completion_trb_pointer trb) phys_ptr
    then fetch_command hci trb phys_ptr
    else ok pass
judge hci trb (transfer first last ring_id) =
    if trb_type trb == trb_type_code TrbType.transfer
    then elim (transfer_event_trb_pointer trb) [
      | none ↦ ok failed_transfers
      | some phys_ptr ↦
          if among first last phys_ptr
          then (do
            src_trb ← get_transfer_trb hci phys_ptr ring_id
            ok (found hci (some (record { event_trb = trb; src_trb = src_trb }))))
          else ok (dead_or_pass hci trb ring_id)
    ]
    else ok (dead_or_pass hci trb ring_id)
judge hci trb (other trb_type') =
    ok (if trb_type_code trb_type' == trb_type trb then found hci none else pass)

-- The states that stay and the calls of `finish`, one after the other. The list is indexed without
-- a check after a removal, and with one after a step.
unfoldable pub acknowledge_failed : Trb → List State → Outcome (List State × List Finish)
acknowledge_failed trb [] = panicked
acknowledge_failed trb (s ∷ rest) =
    let later = acknowledge_failed trb rest in
    elim s.is_isoch_or_vf [
      | true ↦ later >>= λ (kept, finished).
          ok (kept, finish s (some (record { event_trb = trb; src_trb = none })) ∷ finished)
      | false ↦ elim rest [
        | [] ↦ ok (s ∷ [], [])
        | _ ∷ _ ↦ later >>= λ (kept, finished). ok (s ∷ kept, finished)
      ]
    ]

-- The loop of `acknowledge`: `kept` is what lies before the index.
unfoldable pub walk : Trb → Hci → (kept states : List State) → List Finish → Outcome IrqReactor
unfolding judge acknowledge_failed
walk trb hci kept [] finished = ok (record { hci = hci; states = kept; finished = finished })
walk trb hci kept (s ∷ rest) finished = judge hci trb s.kind >>= λ verdict. elim verdict [
  | pass ↦ walk trb hci (kept ++ s ∷ []) rest finished
  | found hci' message ↦
      ok
        (record { hci = hci'; states = kept ++ rest; finished = finished ++ finish s message ∷ [] })
  | dead message ↦ walk trb hci kept rest (finished ++ finish s (some message) ∷ [])
  | forgotten ↦ walk trb hci kept rest finished
  | failed_transfers ↦ acknowledge_failed trb (kept ++ s ∷ rest) >>= λ (states, woken).
      ok (record { hci = hci; states = states; finished = finished ++ woken })
]

unfoldable pub acknowledge : Trb → IrqReactor → Outcome IrqReactor
unfolding walk
acknowledge trb r = walk trb r.hci [] r.states r.finished
