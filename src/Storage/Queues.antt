-- ===== src/Storage/Queues.antt =====
-- storage/nvmed/src/nvme/queues.rs: the completion queue, which the controller writes and the
-- driver reads, and the submission queue. An unchecked access out of bounds is `panicked`.
pub mod Completion
pub mod Submission
pub mod Spin
use drivers.Base.{
  ℕ, zero, suc, ◌+◌, ◌%◌, ◌^◌, Bool, true, false, not, ◌||◌, Option, none, some, List, bit_and,
  same, ltb, ◌==◌, if◌then◌else◌, length, get_elem?, set, replicate,
}
use drivers.Base.Outcome.{Outcome, ok, panicked, unwrap, ◌>>=◌}

-- `_rsvd` is always 0 and left out.
pub record NvmeCmd : Type 0 where
  pub opcode : ℕ
  pub flags : ℕ
  pub cid : ℕ
  pub nsid : ℕ
  pub mptr : ℕ
  pub dptr : ℕ × ℕ
  pub cdw10 : ℕ
  pub cdw11 : ℕ
  pub cdw12 : ℕ
  pub cdw13 : ℕ
  pub cdw14 : ℕ
  pub cdw15 : ℕ

pub record NvmeComp : Type 0 where
  pub command_specific : ℕ
  pub sq_head : ℕ
  pub sq_id : ℕ
  pub cid : ℕ
  pub status : ℕ

pub record NvmeCompQueue : Type 0 where
  pub entries : List NvmeComp
  pub head : ℕ
  pub phase : Bool

abbrev pub zeroed : NvmeComp
zeroed = record { command_specific = 0; sq_head = 0; sq_id = 0; cid = 0; status = 0 }

-- `NvmeCompQueue::new`, where the allocation succeeds
unfoldable pub new_completion : NvmeCompQueue
new_completion = record { entries = replicate 256 zeroed; head = 0; phase = true }

-- The entry is not the one that the caller waits for.
abbrev mismatch : Option (ℕ × NvmeCmd) → NvmeComp → Bool
mismatch none entry = false
mismatch (some (sq_id, cmd)) entry = not (entry.sq_id == sq_id) || not (entry.cid == cmd.cid)

abbrev pub phase_bit : NvmeComp → Bool
phase_bit entry = bit_and entry.status 1 == 1

-- The head moves on, and a head back at 0 flips the phase.
abbrev advance : NvmeCompQueue → NvmeCompQueue
advance q =
    let head = (q.head + 1) % (length q.entries % 2 ^ 16) in
    record { entries = q.entries; head = head; phase = if head == 0 then not q.phase else q.phase }

-- `NvmeCompQueue::complete`: the new head with the entry, or `none` with the queue as it was.
unfoldable pub complete :
    Option (ℕ × NvmeCmd) → NvmeCompQueue → Outcome (Option (ℕ × NvmeComp) × NvmeCompQueue)
complete cmd_opt q = do
  entry ← unwrap (get_elem? q.entries q.head)
  if mismatch cmd_opt entry
      then ok (none, q)
      else if same (phase_bit entry) q.phase
      then ok (some ((advance q).head, entry), advance q)
      else ok (none, q)

-- `complete_spin` on fuel: each round reads the queue afresh. What the controller writes between
-- two rounds is the list `memory`, one state of the entries for each round.
unfoldable pub complete_spin :
    Option (ℕ × NvmeCmd)
    → NvmeCompQueue
    → List (List NvmeComp)
    → Option (Outcome ((ℕ × NvmeComp) × NvmeCompQueue))
unfolding complete
complete_spin cmd_opt q List.[] = none
complete_spin cmd_opt q (List.◌∷◌ entries memory) =
    let rest = complete_spin cmd_opt q memory in
    elim (complete cmd_opt (record { entries = entries; head = q.head; phase = q.phase })) [
      | ok (none, q') ↦ rest
      | ok (some found, q') ↦ some (ok (found, q'))
      | Outcome.err e ↦ some (Outcome.err e)
      | panicked ↦ some panicked
    ]

pub record NvmeCmdQueue : Type 0 where
  pub entries : List NvmeCmd
  pub tail : ℕ
  pub head : ℕ

unfoldable pub is_empty : NvmeCmdQueue → Bool
is_empty q = q.head == q.tail

unfoldable pub is_full : NvmeCmdQueue → Bool
is_full q = q.head == (q.tail + 1) % 2 ^ 16

-- `submit_unchecked`: the new tail and the queue. The index of the write is checked.
unfoldable pub submit_unchecked : NvmeCmdQueue → NvmeCmd → Outcome (ℕ × NvmeCmdQueue)
submit_unchecked q entry =
    let tail = (q.tail + 1) % (length q.entries % 2 ^ 16) in
    if ltb q.tail (length q.entries)
    then ok (tail, record { entries = set q.entries q.tail entry; tail = tail; head = q.head })
    else panicked
