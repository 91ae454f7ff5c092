-- ===== src/Xhci/Control/Stages.antt =====
-- The blocks of a control transfer in the ring of the default control pipe.
use drivers.Base.{
  ℕ, suc, ◌+◌, ◌*◌, ◌/◌, ◌%◌, ◌^◌, ◌≤◌, ◌<◌, ◌≡◌, ◌≢◌, refl, ◌∙◌, sym, Bool, true, false, not, some,
  List, length, get_elem?, arith,
}
use drivers.Base.Laps.{lap_cycle, div-mod_inside, div-mod_wraps}
use drivers.Base.Map.{lookup}
use drivers.Base.Outcome as O
use drivers.Base.Outcome.{ebadf, eio}
use native.Mathlib.Decide.{dec_lt}
use native.Mathlib.Nat.{mod-lt}
use drivers.Xhci.Calls.{ok, after}
use drivers.Xhci.Setup.{Setup}
use drivers.Xhci.Trb.{Trb, TransferKind, trb_type}
use drivers.Xhci.Trb.Build.{setup, status_trb, is_transfer_trb}
use drivers.Xhci.Ring.{Ring, phys_base, trb_phys_ptr}
use drivers.Xhci.Ring.Push.{IsAfter, push_lem}
use drivers.Xhci.Ports.{PortState, EndpointState, one, default_control_pipe, ring}
use drivers.Xhci.Reactor.{State, transfer}
use drivers.Xhci.Reactor.Futures.{pending, next_transfer_event_trb}
use drivers.Xhci.Control.{
  Xhci, Await, is_no_data, is_in, place_control, holds, with_transfer, with_port, doorbell_at,
  execute_control_transfer, control_result, lock_port,
}

-- Two blocks in a row have different indices, and so have three in a ring of three or more.
apart_one : (n k : ℕ) → k % n < n → 2 ≤ n → suc k % n ≢ k % n
apart_one n k h two e = elim (dec_lt (suc (k % n)) n) [
  | yes lt ↦ absurd (omega (arith, (div-mod_inside n k lt).1))
  | no ge ↦
      let wraps : suc (k % n) ≡ n = omega arith in
      absurd (omega (arith, (div-mod_wraps n k wraps).1))
]

apart_two : (n k : ℕ) → k % n < n → 3 ≤ n → suc (suc k) % n ≢ k % n
apart_two n k h three e = elim (dec_lt (suc (k % n)) n) [
  | yes lt ↦ elim (dec_lt (suc (suc k % n)) n) [
    | yes lt' ↦ absurd (omega (arith, (div-mod_inside n k lt).1, (div-mod_inside n (suc k) lt').1))
    | no ge ↦
        let next = (div-mod_inside n k lt).1 in
        let wraps : suc (suc k % n) ≡ n = omega arith in
        absurd (omega (arith, next, (div-mod_wraps n (suc k) wraps).1))
  ]
  | no ge ↦
      let wraps : suc (k % n) ≡ n = omega arith in
      let next = (div-mod_wraps n k wraps).1 in
      let lt' : suc (suc k % n) < n = omega arith in
      absurd (omega (arith, next, (div-mod_inside n (suc k) lt').1))
]

-- The three stages in a ring's blocks from its k-th on
pub record HasStages (n k : ℕ) (packet : Setup) (tk : TransferKind) (block : Bool → Trb) (r : Ring)
    : Type 0 where
  pub setup_stage : get_elem? r.trbs (k % n) ≡ some (setup packet tk (lap_cycle (k / n)))
  pub data_stage : get_elem? r.trbs (suc k % n) ≡ some (block (lap_cycle (suc k / n)))
  pub status_stage :
      get_elem? r.trbs (suc (suc k) % n)
      ≡ some (status_trb 0 (not (is_in tk)) true false false (lap_cycle (suc (suc k) / n)))
  pub next_free : IsAfter n (suc (suc (suc k))) r

place_control-HasStages :
    (n k : ℕ) (r : Ring) (packet : Setup) (tk : TransferKind) (block : Bool → Trb)
    → IsAfter n k r
    → 3 ≤ n
    → is_no_data tk ≡ false
    → (r' : Ring) × (place_control r packet tk block ≡ ok (k % n, suc (suc k) % n, r'))
      × HasStages n k packet tk block r'
      × (r'.physical ≡ r.physical)
unfolding place_control
place_control-HasStages n k r packet tk block h three has =
    let (r1, p1) = push_lem n k r (λ c. O.ok (setup packet tk c)) _ h refl in
    let (r2, p2) = push_lem n (suc k) r1 (λ c. O.ok (block c)) _ p1.is_after refl in
    let (r3, p3) =
      push_lem n (suc (suc k)) r2 (λ c. O.ok (status_trb 0 (not (is_in tk)) true false false c)) _
        p2.is_after refl in
    let one_two = apart_one n k h.within (omega arith) in
    let two_three = apart_one n (suc k) p1.is_after.within (omega arith) in
    let one_three = apart_two n k h.within three in
    (
      r3,
      rw (p1.pushed, has, p2.pushed, p3.pushed) refl,
      record {
        setup_stage =
            p3.others (k % n) h.within (λ e. one_three (sym e))
            ∙ p2.others (k % n) h.within (λ e. one_two (sym e))
            ∙ p1.written;
        data_stage = p3.others (suc k % n) p1.is_after.within (λ e. two_three (sym e)) ∙ p2.written;
        status_stage = p3.written;
        next_free = p3.is_after;
      },
      p3.physical_is ∙ p2.physical_is ∙ p1.physical_is,
    )

status_trb-is_transfer :
    (input c : Bool) → is_transfer_trb (status_trb 0 input true false false c) ≡ true
unfolding is_transfer_trb status_trb trb_type
status_trb-is_transfer true true = refl
status_trb-is_transfer true false = refl
status_trb-is_transfer false true = refl
status_trb-is_transfer false false = refl

status_trb-type : (input c : Bool) → trb_type (status_trb 0 input true false false c) ≡ 4
unfolding status_trb trb_type
status_trb-type true true = refl
status_trb-type true false = refl
status_trb-type false true = refl
status_trb-type false false = refl

block_address :
    (r r' : Ring) (ac64 : Bool) (i : ℕ)
    → r'.physical ≡ r.physical
    → i < length r'.trbs
    → trb_phys_ptr r' ac64 (r'.virtual + i * 16) ≡ O.ok (phys_base r ac64 + i * 16)
unfolding trb_phys_ptr phys_base
block_address r r' ac64 i e h = rw (← e) (ground arith)

-- The future that a control transfer waits for: the event of any of its blocks
abbrev pub control_state : Ring → Bool → (message port n k : ℕ) → State
control_state r ac64 message port n k = record {
  message = message;
  kind =
      transfer (phys_base r ac64 + k % n * 16) (phys_base r ac64 + suc (suc k) % n * 16)
        (default_control_pipe (port % 2 ^ 8));
  is_isoch_or_vf = false;
}

new_control_future :
    (n k : ℕ) (packet : Setup) (tk : TransferKind) (block : Bool → Trb) (r r' : Ring)
    → (ac64 : Bool) (message port slot : ℕ) → HasStages n k packet tk block r'
    → r'.physical ≡ r.physical
    → k % n < n
    → next_transfer_event_trb ac64 message
        (default_control_pipe (port % 2 ^ 8))
        r'
        (k % n)
        (suc (suc k) % n)
        (doorbell_at slot 1)
      ≡ O.ok (pending (control_state r ac64 message port n k) (some (doorbell_at slot 1)))
unfolding next_transfer_event_trb
new_control_future n k packet tk block r r' ac64 message port slot h e inside =
    let c = lap_cycle (suc (suc k) / n) in
    let first = block_address r r' ac64 (k % n) e (omega (arith, h.next_free.room)) in
    let last =
      block_address r r' ac64 (suc (suc k) % n) e
        (omega (arith, h.next_free.room, mod-lt (suc (suc k)) {m = n} (omega arith))) in
    rw
      (
        h.status_stage,
        status_trb-is_transfer (not (is_in tk)) c,
        first,
        last,
        status_trb-type (not (is_in tk)) c,
      )
      refl

-- A control transfer with data on an unlocked port whose default control pipe has a ring of three
-- usable blocks or more, its k-th block next: the setup, data and status blocks go to the next three
-- blocks of the ring, each with the cycle bit of its pass, and the call waits for the event of any
-- of them after its doorbell is rung, the port no longer locked.
pub control_transfer_waits :
    {X : Type 0} (await : Await X) (x : Xhci X) (port n k : ℕ) (p : PortState) (s : EndpointState)
    → (r : Ring) (packet : Setup) (tk : TransferKind) (block : Bool → Trb) (buffer : List ℕ)
    → holds x.locked port ≡ false
    → lookup port x.hci.port_states ≡ some p
    → lookup 0 p.endpoint_states ≡ some s
    → s.transfer ≡ one r
    → IsAfter n k r
    → 3 ≤ n
    → is_no_data tk ≡ false
    → (r' : Ring) × HasStages n k packet tk block r'
      × (execute_control_transfer await port packet tk block buffer x
          ≡ after
              (await
                (pending
                  (control_state r x.hci.ac64 x.cells port n k)
                  (some (doorbell_at p.slot 1)))
                buffer
                (record (with_port port (with_transfer p 0 s (one r')) x) { cells = x.cells + 1 }))
              control_result)
unfolding execute_control_transfer lock_port ring
control_transfer_waits await x port n k p s r packet tk block buffer free at pipe is at_k three
      has =
    let (r', placed, stages, same) = place_control-HasStages n k r packet tk block at_k three has in
    let waits =
      new_control_future n k packet tk block r r' x.hci.ac64 x.cells port p.slot stages same
        at_k.within in
    (r', stages, rw (free, at, pipe, is, placed, waits) refl)
