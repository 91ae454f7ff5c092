-- ===== src/Xhci/Reactor/Waiting.antt =====
-- No future that waits is lost, and none is woken twice.
use drivers.Base.{ℕ, ◌+◌, ◌≡◌, ◌≢◌, refl, some, List, [], ◌∷◌, ◌++◌, ◌==◌, bit, arith}
use drivers.Base.Outcome.{ok, err, panicked, ◌>>=◌}
use drivers.Xhci.Trb.{Trb}
use drivers.Xhci.Ring.{phys_addr_to_index}
use drivers.Xhci.Reactor.Failures.{regular, isochronous, acknowledge_failed_lem}
use drivers.Xhci.Reactor.{
  State, StateKind, command_completion, transfer, other, Hci, IrqReactor, Finish, pass, found, dead,
  forgotten, failed_transfers, judge, fetch_command, dead_or_pass, get_transfer_trb, walk,
  acknowledge, acknowledge_failed, finish,
}

-- How many of the states wait on a message cell, and how often `finish` was called for it
abbrev pub waiting : ℕ → List State → ℕ
waiting m [] = 0
waiting m (s ∷ rest) = bit (s.message == m) + waiting m rest

abbrev pub answered : ℕ → List Finish → ℕ
answered m [] = 0
answered m ((n, message) ∷ rest) = bit (n == m) + answered m rest

waiting-append : (m : ℕ) (xs ys : List State) → waiting m (xs ++ ys) ≡ waiting m xs + waiting m ys
waiting-append m [] ys = omega arith
waiting-append m (x ∷ xs) ys = omega (arith, waiting-append m xs ys)

answered-append :
    (m : ℕ) (xs ys : List Finish) → answered m (xs ++ ys) ≡ answered m xs + answered m ys
answered-append m [] ys = omega arith
answered-append m (x ∷ xs) ys = omega (arith, answered-append m xs ys)

-- The states that wait for a command have the address of a block of the command ring.
abbrev pub InRing : Hci → StateKind → Type 0
InRing hci (command_completion p) = (i : ℕ) × (phys_addr_to_index hci.cmd hci.ac64 p ≡ ok (some i))
InRing hci (transfer first last id) = Unit {0}
InRing hci (other t) = Unit {0}

abbrev pub AllInRing : Hci → List State → Type 0
AllInRing hci [] = Unit {0}
AllInRing hci (s ∷ rest) = InRing hci s.kind × AllInRing hci rest

failed_conserves :
    (m : ℕ) (trb : Trb) (states : List State)
    → waiting m (regular states) + answered m (isochronous trb states) ≡ waiting m states
failed_conserves m trb [] = refl
failed_conserves m trb (s ∷ rest) = ground (arith, failed_conserves m trb rest)

-- No address of a waiting command is unknown, so no state is forgotten.
judge-remembers :
    (hci : Hci) (trb : Trb) (kind : StateKind) → InRing hci kind → judge hci trb kind ≢ ok forgotten
unfolding judge fetch_command dead_or_pass get_transfer_trb
judge-remembers hci trb (command_completion p) (i, e) h = ground arith
judge-remembers hci trb (transfer first last id) t h = ground arith
judge-remembers hci trb (other u) t h = ground arith

walk_conserves :
    (m : ℕ) (trb : Trb) (hci : Hci) (kept states : List State) (finished : List Finish)
    → (r : IrqReactor) → AllInRing hci states
    → walk trb hci kept states finished ≡ ok r
    → waiting m r.states + answered m r.finished
      ≡ waiting m kept + waiting m states + answered m finished
unfolding walk
walk_conserves m trb hci kept [] finished r h e = ground arith
walk_conserves m trb hci kept (s ∷ rest) finished r h e =
    elim (judge hci trb s.kind)
        as (λ v.
          judge hci trb s.kind ≡ v
          → (v >>= λ verdict. elim verdict [
            | pass ↦ walk trb hci (kept ++ s ∷ []) rest finished
            | found hci' message ↦ ok (record {
              hci = hci';
              states = kept ++ rest;
              finished = finished ++ finish s message ∷ [];
            })
            | dead message ↦ walk trb hci kept rest (finished ++ finish s (some message) ∷ [])
            | forgotten ↦ walk trb hci kept rest finished
            | failed_transfers ↦ acknowledge_failed trb (kept ++ s ∷ rest) >>= λ (states, woken).
                ok (record { hci = hci; states = states; finished = finished ++ woken })
          ])
            ≡ ok r
          → waiting m r.states + answered m r.finished
            ≡ waiting m kept + (bit (s.message == m) + waiting m rest) + answered m finished) [
              | ok pass ↦ λ j e'. omega (
                arith,
                waiting-append m kept (s ∷ []),
                walk_conserves m trb hci (kept ++ s ∷ []) rest finished r h.1 e',
              )
              | ok (found hci' message) ↦ λ j e'. ground (
                arith,
                waiting-append m kept rest,
                answered-append m finished (finish s message ∷ []),
              )
              | ok (dead message) ↦ λ j e'. omega (
                arith,
                answered-append m finished (finish s (some message) ∷ []),
                walk_conserves m trb hci kept rest (finished ++ finish s (some message) ∷ []) r h.1
                    e',
              )
              | ok forgotten ↦ λ j e'. absurd (judge-remembers hci trb s.kind h.0 j)
              | ok failed_transfers ↦ λ j e'. ground (
                arith,
                acknowledge_failed_lem trb (kept ++ s ∷ rest),
                failed_conserves m trb (kept ++ s ∷ rest),
                waiting-append m kept (s ∷ rest),
                answered-append m finished (isochronous trb (kept ++ s ∷ rest)),
              )
              | err x ↦ λ j e'. cc
              | panicked ↦ λ j e'. cc
            ]
      refl e

-- An event loses no future that waits and wakes none twice: where every waiting command is in the
-- command ring and acknowledge does not panic, each future waits afterwards as often as before, less
-- the number of times that it is woken.
pub acknowledge_conserves :
    (trb : Trb) (r r' : IrqReactor)
    → AllInRing r.hci r.states
    → acknowledge trb r ≡ ok r'
    → (m : ℕ)
    → waiting m r'.states + answered m r'.finished ≡ waiting m r.states + answered m r.finished
unfolding acknowledge
acknowledge_conserves trb r r' h e m =
    omega (arith, walk_conserves m trb r.hci [] r.states r.finished r' h e)
