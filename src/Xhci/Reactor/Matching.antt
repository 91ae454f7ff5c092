-- ===== src/Xhci/Reactor/Matching.antt =====
-- Which of the futures that wait an event wakes.
use drivers.Base.{
  ℕ, ◌≡◌, ◌≢◌, refl, ◌∙◌, ap, sym, true, false, Option, some, List, [], ◌∷◌, ◌++◌, ◌==◌, arith,
  get_elem?, ==_iff,
}
use mathlib.Core.List.{append_assoc, append-nil}
use drivers.Base.Outcome.{ok}
use drivers.Xhci.Ports.{RingId, with_ring}
use drivers.Xhci.Ring.{with_block, phys_addr_to_index}
use drivers.Xhci.Trb.{Trb, trb_type, completion_trb_pointer}
use drivers.Xhci.Trb.Build.{reserved}
use drivers.Xhci.TrbType.{trb_type_code}
use drivers.Xhci.Reactor.{
  State, StateKind, command_completion, transfer, other, Hci, Finish, NextEventTrb, pass, found,
  judge, fetch_command, dead_or_pass, walk, acknowledge, finish, with_cmd,
}

-- None of the states is for the event.
abbrev pub Passes : Hci → Trb → List State → Type 0
Passes hci trb [] = Unit {0}
Passes hci trb (s ∷ rest) = (judge hci trb s.kind ≡ ok pass) × Passes hci trb rest

walk-append :
    (trb : Trb) (hci : Hci) (kept before rest : List State) (finished : List Finish)
    → Passes hci trb before
    → walk trb hci kept (before ++ rest) finished ≡ walk trb hci (kept ++ before) rest finished
unfolding walk
walk-append trb hci kept [] rest finished h =
    ap (λ k. walk trb hci k rest finished) (sym (append-nil kept))
walk-append trb hci kept (s ∷ before) rest finished h = rw h.0 (
    walk-append trb hci (kept ++ s ∷ []) before rest finished h.1
    ∙ ap (λ k. walk trb hci k rest finished) (append_assoc kept (s ∷ []) before))

-- The first state that the event is for is woken and removed; the others stay in their order.
pub acknowledge-found :
    (trb : Trb) (hci hci' : Hci) (before : List State) (s : State) (after : List State)
    → (finished : List Finish) (message : Option NextEventTrb) → Passes hci trb before
    → judge hci trb s.kind ≡ ok (found hci' message)
    → acknowledge trb (record { hci = hci; states = before ++ s ∷ after; finished = finished })
      ≡ ok (record {
        hci = hci';
        states = before ++ after;
        finished = finished ++ finish s message ∷ [];
      })
unfolding acknowledge walk
acknowledge-found trb hci hci' before s after finished message h e =
    walk-append trb hci [] before (s ∷ after) finished h ∙ rw e refl

==-refl : (n : ℕ) → (n == n) ≡ true
==-refl n = (==_iff n n).1 refl

-- A state that waits for something else than the completion of the command at an address, on a
-- ring that is there
abbrev pub IsElsewhere : Hci → ℕ → StateKind → Type 0
IsElsewhere hci phys_ptr (command_completion p) = p ≢ phys_ptr
IsElsewhere hci phys_ptr (transfer first last id) =
    with_ring {A = Unit {0}} hci.port_states id (λ r. tt) ≡ some tt
IsElsewhere hci phys_ptr (other t) = trb_type_code t ≢ 33

abbrev pub AllElsewhere : Hci → ℕ → List State → Type 0
AllElsewhere hci phys_ptr [] = Unit {0}
AllElsewhere hci phys_ptr (s ∷ rest) =
    IsElsewhere hci phys_ptr s.kind × AllElsewhere hci phys_ptr rest

dead_or_pass-live :
    (trb : Trb) (hci : Hci) (id : RingId)
    → with_ring {A = Unit {0}} hci.port_states id (λ r. tt) ≡ some tt
    → dead_or_pass hci trb id ≡ pass
unfolding dead_or_pass
dead_or_pass-live trb hci id h = rw (dead_or_pass, h) refl

judge-pass :
    (trb : Trb) (hci : Hci) (phys_ptr : ℕ) (kind : StateKind)
    → trb_type trb ≡ 33
    → completion_trb_pointer trb ≡ some phys_ptr
    → IsElsewhere hci phys_ptr kind
    → judge hci trb kind ≡ ok pass
unfolding judge
judge-pass trb hci phys_ptr (command_completion p) t c h = ground arith
judge-pass trb hci phys_ptr (transfer first last id) t c h =
    rw (t, dead_or_pass-live trb hci id h) refl
judge-pass trb hci phys_ptr (other u) t c h = ground arith

AllElsewhere-Passes :
    (trb : Trb) (hci : Hci) (phys_ptr : ℕ) (states : List State)
    → trb_type trb ≡ 33
    → completion_trb_pointer trb ≡ some phys_ptr
    → AllElsewhere hci phys_ptr states
    → Passes hci trb states
AllElsewhere-Passes trb hci phys_ptr [] t c h = tt
AllElsewhere-Passes trb hci phys_ptr (s ∷ rest) t c h =
    (judge-pass trb hci phys_ptr s.kind t c h.0, AllElsewhere-Passes trb hci phys_ptr rest t c h.1)

-- A command completion event for the block at an index of the command ring wakes the first future
-- that waits for that command, gives it the event with a copy of the block, and clears the block.
-- Everything else stays: the futures before and after it, in their order, when those before it
-- wait for other things and no ring they wait on is gone.
pub acknowledge_command :
    (trb : Trb) (hci : Hci) (before : List State) (s : State) (after : List State)
    → (finished : List Finish) (phys_ptr index : ℕ) (block : Trb) → trb_type trb ≡ 33
    → completion_trb_pointer trb ≡ some phys_ptr
    → s.kind ≡ command_completion phys_ptr
    → phys_addr_to_index hci.cmd hci.ac64 phys_ptr ≡ ok (some index)
    → get_elem? hci.cmd.trbs index ≡ some block
    → AllElsewhere hci phys_ptr before
    → acknowledge trb (record { hci = hci; states = before ++ s ∷ after; finished = finished })
      ≡ ok (record {
        hci = with_cmd hci (with_block hci.cmd index (reserved false));
        states = before ++ after;
        finished =
            finished ++ finish s (some (record { event_trb = trb; src_trb = some block })) ∷ [];
      })
unfolding judge fetch_command
acknowledge_command trb hci before s after finished phys_ptr index block t c k a b h =
    acknowledge-found trb hci _ before s after finished _
      (AllElsewhere-Passes trb hci phys_ptr before t c h)
      (rw (k, t, c, ==-refl phys_ptr, a, b) refl)
