-- ===== src/Storage/Tests.antt =====
-- The storage theorems at concrete inputs.
use drivers.Base.{
  ℕ, ◌+◌, ◌*◌, ◌/◌, ◌%◌, ◌<◌, ◌≡◌, refl, ◌⊎◌, Bool, true, false, none, some, List, [], ◌∷◌, ltb,
  if◌then◌else◌, bit, arith,
}
use drivers.Base.Laps.{lap_cycle}
use drivers.Base.Outcome.{Outcome, ok, err, eio}
use drivers.Storage.Block.{block_read}
use drivers.Storage.Block.Bytes.{bytes, expected, Ends, block_read_stores}
use drivers.Storage.Queues.{
  NvmeCmd, NvmeComp, NvmeCompQueue, NvmeCmdQueue, zeroed, phase_bit, complete, submit_unchecked,
}
use drivers.Storage.Queues.Completion.{HasRead, posted, posted-Holds, complete_delivers}
use drivers.Storage.Queues.Spin.{Waits}
use drivers.Storage.Queues.Submission.{IsValid}
use drivers.Storage.Commands.{identify_controller, io_read}

-- A disk of two blocks of four bytes, which counts its reads
abbrev content : ℕ → ℕ
content i = i + 10

abbrev count_read : ℕ → ℕ → ℕ
count_read b s = s + 1

abbrev read_fn : ℕ → List ℕ → ℕ → Outcome (Unit {0}) × List ℕ × ℕ
read_fn b block_bytes s =
    if ltb b 2 then (ok tt, bytes content (b * 4) 4, count_read b s) else (err eio, block_bytes, s)

block_read_stores_example :
    let (o, stored) = expected content 4 2 eio 3 3 in
    Ends (block_read read_fn 4 3 3 (0 ∷ 0 ∷ 0 ∷ 0 ∷ []) 0) o stored
block_read_stores_example =
    block_read_stores read_fn content 4 2 eio count_read (λ b block_bytes s. refl) (omega arith) 3 3
      (0 ∷ 0 ∷ 0 ∷ 0 ∷ []) 0 (omega arith)

-- A completion log: command i is completed with the phase of its pass over two slots.
abbrev completion : ℕ → NvmeComp
completion i = record {
  command_specific = 0;
  sq_head = 0;
  sq_id = 1;
  cid = i;
  status = bit (lap_cycle (i / 2));
}

abbrev two_slots : NvmeCompQueue
two_slots = record { entries = completion 0 ∷ zeroed ∷ []; head = 0; phase = true }

abbrev wanted : NvmeCmd
wanted = identify_controller 0 0x1000

reads_first :
    complete (some (1, wanted)) two_slots
    ≡ ok (some (1, completion 0), record { entries = two_slots.entries; head = 1; phase = true })
unfolding complete identify_controller
reads_first = refl

phase_bit-bit :
    (i : ℕ) (b : Bool)
    → phase_bit (record { command_specific = 0; sq_head = 0; sq_id = 1; cid = i; status = bit b })
      ≡ b
phase_bit-bit i true = refl
phase_bit-bit i false = refl

-- The same log over the 256 slots that the driver allocates
abbrev long_log : ℕ → NvmeComp
long_log i = record {
  command_specific = 0;
  sq_head = 0;
  sq_id = 1;
  cid = i;
  status = bit (lap_cycle (i / 256));
}

abbrev one_posted : NvmeCompQueue
one_posted = record { entries = posted long_log 1; head = 0; phase = true }

complete_delivers_example :
    ((0 < 1)
      × ((q' : NvmeCompQueue) × (complete none one_posted ≡ ok (some (1 % 256, long_log 0), q'))
          × (q'.entries ≡ one_posted.entries)
          × HasRead 256 1 q'))
    ⊎ ((◌≡◌ {A = ℕ} 0 1) × (complete none one_posted ≡ ok (none, one_posted)))
complete_delivers_example =
    complete_delivers 256 0 1 long_log one_posted
      (posted-Holds long_log 1 (λ i. phase_bit-bit i (lap_cycle (i / 256))))
      (record { head_is = refl; phase_is = refl }) (omega arith) (omega arith) (omega arith)
      (omega arith)

-- Three places, the tail on the first or on the last
abbrev places : ℕ → NvmeCmdQueue
places tail = record { entries = wanted ∷ wanted ∷ wanted ∷ []; tail = tail; head = 0 }

places-IsValid : (tail : ℕ) → tail < 3 → IsValid (places tail)
places-IsValid tail h = record { tail_in = h; head_in = omega arith; small = omega arith }

abbrev submitted : NvmeCmd
submitted = io_read 7 1 0x1_0000_0002 7 0x2000 0

abbrev after_first : NvmeCmdQueue
after_first = record { entries = submitted ∷ wanted ∷ wanted ∷ []; tail = 1; head = 0 }

submit_first : submit_unchecked (places 0) submitted ≡ ok (1, after_first)
unfolding submit_unchecked
submit_first = refl

abbrev unread : NvmeCompQueue
unread = record { entries = []; head = 0; phase = true }

one_idle : Waits 256 0 long_log (posted long_log 0 ∷ [])
unfolding Waits
one_idle = (posted-Holds long_log 0 (λ i. phase_bit-bit i (lap_cycle (i / 256))), tt)
