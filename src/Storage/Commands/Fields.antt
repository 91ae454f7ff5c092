-- ===== src/Storage/Commands/Fields.antt =====
-- What the controller reads in the commands of storage/nvmed/src/nvme/cmd.rs.
use drivers.Base.{ℕ, ◌+◌, ◌*◌, ◌/◌, ◌%◌, ◌^◌, ◌<◌, ◌≡◌, refl, bit_or, Option, none, some, arith}
use drivers.Base.Bits.{or_below, or_above}
use drivers.Storage.Queues.{NvmeCmd}
use drivers.Storage.Commands.{
  create_io_completion_queue, create_io_submission_queue, io_read, io_write,
}

-- The halves of a dword
abbrev low16 : ℕ → ℕ
low16 w = w % 2 ^ 16

abbrev high16 : ℕ → ℕ
high16 w = w / 2 ^ 16

-- Bit 1 of dword 11 enables the interrupt, whose vector is the high half.
abbrev pub Interrupts : NvmeCmd → Option ℕ → Type 0
Interrupts c none = (c.cdw11 / 2 % 2 ≡ 0) × (high16 c.cdw11 ≡ 0)
Interrupts c (some iv) = (c.cdw11 / 2 % 2 ≡ 1) × (high16 c.cdw11 ≡ iv)

-- The vector of a completion queue is 16 bits wide.
abbrev pub Vector : Option ℕ → Type 0
Vector none = Unit {0}
Vector (some iv) = iv < 2 ^ 16

halves : (h l : ℕ) → h < 2 ^ 16 → l < 2 ^ 16 → bit_or (h * 2 ^ 16 % 2 ^ 32) l ≡ h * 2 ^ 16 + l
halves h l hh hl = omega (arith, or_below 16 l {a = h * 2 ^ 16 % 2 ^ 32} refl (omega arith) hl)

completion_dword :
    (iv : ℕ) → iv < 2 ^ 16 → bit_or 1 (bit_or 2 (iv * 2 ^ 16 % 2 ^ 32)) ≡ iv * 2 ^ 16 + 3
completion_dword iv h =
    let two : bit_or 2 (iv * 2 ^ 16 % 2 ^ 32) ≡ 2 + iv * 2 ^ 16 % 2 ^ 32 =
      or_above 2 (iv * 2 ^ 16 % 2 ^ 32) {a = 2} refl (omega arith) (omega arith) in
    rw two (
      omega (arith, or_above 1 (2 + iv * 2 ^ 16 % 2 ^ 32) {a = 1} refl (omega arith) (omega arith)))

-- The commands that make a queue name it, in the low half of dword 10, its size, in the high
-- half, that it is physically contiguous, in bit 0 of dword 11, and there the completion queue's
-- interrupt, or the submission queue's completion queue. All these numbers are 16 bits wide.
create-Queues :
    (cid qid ptr size cqid : ℕ) (iv : Option ℕ)
    → qid < 2 ^ 16
    → size < 2 ^ 16
    → cqid < 2 ^ 16
    → Vector iv
    → let made = create_io_completion_queue cid qid ptr size iv in
      let asked = create_io_submission_queue cid qid ptr size cqid in
      (low16 made.cdw10 ≡ qid)
      × (high16 made.cdw10 ≡ size)
      × (made.cdw11 % 2 ≡ 1)
      × Interrupts made iv
      × (low16 asked.cdw10 ≡ qid)
      × (high16 asked.cdw10 ≡ size)
      × (low16 asked.cdw11 ≡ 1)
      × (high16 asked.cdw11 ≡ cqid)
unfolding create_io_completion_queue create_io_submission_queue
create-Queues cid qid ptr size cqid none hq hs hc hv = (
  omega (arith, halves size qid hs hq),
  omega (arith, halves size qid hs hq),
  refl,
  (refl, refl),
  omega (arith, halves size qid hs hq),
  omega (arith, halves size qid hs hq),
  omega (arith, halves cqid 1 hc (omega arith)),
  omega (arith, halves cqid 1 hc (omega arith)),
)
create-Queues cid qid ptr size cqid (some iv) hq hs hc hv = (
  omega (arith, halves size qid hs hq),
  omega (arith, halves size qid hs hq),
  omega (arith, completion_dword iv hv),
  (omega (arith, completion_dword iv hv), omega (arith, completion_dword iv hv)),
  omega (arith, halves size qid hs hq),
  omega (arith, halves size qid hs hq),
  omega (arith, halves cqid 1 hc (omega arith)),
  omega (arith, halves cqid 1 hc (omega arith)),
)

-- A read or write of any block of the disk puts its 64-bit number whole into dwords 10 and 11, each
-- of which is 32 bits wide, and the two commands differ in their opcode.
pub io-lba :
    (cid nsid lba blocks_1 ptr0 ptr1 : ℕ)
    → lba < 2 ^ 64
    → let r = io_read cid nsid lba blocks_1 ptr0 ptr1 in
      let w = io_write cid nsid lba blocks_1 ptr0 ptr1 in
      (r.cdw10 + r.cdw11 * 2 ^ 32 ≡ lba)
      × (r.cdw10 < 2 ^ 32)
      × (r.cdw11 < 2 ^ 32)
      × (w ≡ record r { opcode = 1 })
      × (r.opcode ≡ 2)
unfolding io_read io_write
io-lba cid nsid lba blocks_1 ptr0 ptr1 h = (omega arith, omega arith, omega arith, refl, refl)
