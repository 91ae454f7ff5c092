-- ===== src/Xhci/Transfers/Blocks.antt =====
-- The blocks of a transfer in the ring of its endpoint.
use drivers.Base.{
  ℕ, zero, suc, ◌+◌, ◌-◌, ◌*◌, ◌/◌, ◌%◌, ◌<◌, ◌≡◌, refl, min, inl, inr, Bool, true, false, bit_and,
  some, ◌==◌, get_elem?, arith, Bool-cases,
}
use drivers.Base.Bits.{and_mask}
use drivers.Base.Laps.{lap_cycle}
use drivers.Base.Outcome as O
use drivers.Base.Outcome.{Outcome, ◌>>=◌}
use drivers.Xhci.Calls.{Result, ok}
use drivers.Xhci.Trb.{Trb}
use drivers.Xhci.Trb.Build.{normal}
use drivers.Xhci.Ring.{Ring}
use drivers.Xhci.Ring.Push.{IsAfter, push_lem}
use drivers.Xhci.Transfers.{normal_block, place_transfer, estimated_td_size, turns_of}

asserted-ok : (t : Bool) (b : Trb) → t ≡ true → (x : Trb) × ((O.assert t >>= λ _. O.ok b) ≡ O.ok x)
asserted-ok true b h = (b, refl)
asserted-ok false b h = cc

-- A block can be built whatever is left.
normal_block-ok :
    (buffer td_size : ℕ) (idt : Bool) (left : ℕ) (cycle : Bool)
    → td_size < 32
    → (b : Trb) × (normal_block buffer td_size idt left cycle ≡ O.ok b)
unfolding normal_block normal
normal_block-ok buffer td_size idt left cycle h =
    let fits : (bit_and td_size 0x1f == td_size) ≡ true = ground (arith, and_mask 5 td_size) in
    asserted-ok _ _ fits

-- What the loop does, with the number of the last block's place and the bytes that are left for it
record Ends (n last left buffer td_size : ℕ) (idt : Bool) (done : Result (ℕ × Ring)) : Type 0 where
  ring : Ring
  block : Trb
  placed : done ≡ ok (last % n, ring)
  made : normal_block buffer td_size idt left (lap_cycle (last / n)) ≡ O.ok block
  written : get_elem? ring.trbs (last % n) ≡ some block
  next_free : IsAfter n (suc last) ring

place_transfer-Ends :
    (fuel n k last left rest : ℕ) (r : Ring) (buffer td_size : ℕ) (idt : Bool)
    → IsAfter n k r
    → td_size < 32
    → left / 65536 < fuel
    → last ≡ k + (left - 1) / 65536
    → rest ≡ left - (left - 1) / 65536 * 65536
    → Ends n last rest buffer td_size idt (place_transfer fuel r buffer td_size idt left)
unfolding place_transfer
place_transfer-Ends zero n k last left rest r buffer td_size idt h small enough el er =
    absurd (omega arith)
place_transfer-Ends (suc fuel) n k last left rest r buffer td_size idt h small enough el er =
    let (b, e) = normal_block-ok buffer td_size idt left (lap_cycle (k / n)) small in
    let (r1, p) = push_lem n k r (normal_block buffer td_size idt left) b h e in
    elim (Bool-cases ((left - min left 65536) == 0)) [
      | inl z ↦
          let here : last ≡ k = ground arith in
          let all : rest ≡ left = ground arith in
          rw (here, all)
            (record {
              ring = r1;
              block = b;
              placed = rw (p.pushed, z) refl;
              made = e;
              written = p.written;
              next_free = p.is_after;
            })
      | inr nz ↦
          let more : 65536 < left = ground arith in
          let later =
            place_transfer-Ends fuel n (suc k) last (left - min left 65536) rest r1 buffer td_size
              idt p.is_after small (omega arith) (omega arith) (omega arith) in
          record {
            ring = later.ring;
            block = later.block;
            placed = rw (p.pushed, nz) later.placed;
            made = later.made;
            written = later.written;
            next_free = later.next_free;
          }
    ]

estimated_td_size-lt : (len : ℕ) → estimated_td_size len < 32
unfolding estimated_td_size
estimated_td_size-lt len = omega arith

-- The loop of a transfer ends within its turns, for a ring that is at its k-th block and a buffer of
-- any length: one block for each 64 KiB of it, or for a part at its end, and one for an empty buffer.
-- The last of them is for what is left of the buffer by then, with the cycle bit of its pass; it has
-- the address of the buffer's start. The ring is at the block after it.
pub place_transfer_ends :
    (n k len : ℕ) (r : Ring) (buffer : ℕ) (idt : Bool)
    → IsAfter n k r
    → (let m = (len - 1) / 65536 in
        (r' : Ring) × (b : Trb) × (place_transfer
            (turns_of len)
            r
            buffer
            (estimated_td_size len)
            idt
            len
          ≡ ok ((k + m) % n, r'))
        × (normal_block buffer
              (estimated_td_size len)
              idt
              (len - m * 65536)
              (lap_cycle ((k + m) / n))
            ≡ O.ok b)
        × (get_elem? r'.trbs ((k + m) % n) ≡ some b)
        × IsAfter n (suc (k + m)) r')
place_transfer_ends n k len r buffer idt h =
    let e =
      place_transfer-Ends (turns_of len) n k (k + (len - 1) / 65536) len
        (len - (len - 1) / 65536 * 65536) r buffer (estimated_td_size len) idt h
        (estimated_td_size-lt len) (omega arith) refl refl in
    (e.ring, e.block, e.placed, e.made, e.written, e.next_free)
