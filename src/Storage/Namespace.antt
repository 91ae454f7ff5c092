-- ===== src/Storage/Namespace.antt =====
-- storage/nvmed/src/nvme/mod.rs: the reads and writes of a namespace, through a buffer that the
-- controller reads and writes. The executor that submits a command and waits for its completion is
-- a parameter, with the controller behind it.
pub mod Blocks
pub mod Overlay
pub mod Reads
pub mod Writes
mod Tests
use drivers.Base.{
  ℕ, zero, suc, ◌+◌, ◌-◌, ◌*◌, ◌/◌, ◌%◌, ◌^◌, Bool, true, false, ◌||◌, Option, none, some, List, [],
  ◌∷◌, ◌++◌, ltb, leb, ◌==◌, if◌then◌else◌, length, get_or, take, drop,
}
use drivers.Base.Outcome.{Outcome, ok, err, panicked, eio, ◌>>=◌}
use drivers.Storage.Queues.{NvmeCmd, NvmeComp}
use drivers.Storage.Commands.{io_read, io_write}

-- `NvmeNamespace`
pub record Namespace : Type 0 where
  pub id : ℕ
  pub blocks : ℕ
  pub block_size : ℕ

-- `buffer_prp`: the addresses of the pages of the buffer, and the table's own address
pub record BufferPrp : Type 0 where
  pub entries : List ℕ
  pub physical : ℕ

-- The buffer, and the state of the controller and its disk
pub record State (D : Type 0) : Type 0 where
  pub buffer : List ℕ
  pub device : D

-- `submit_and_complete_command`, which gives the command its identifier
abbrev pub Submit : Type 0 → Type 0
Submit D = (ℕ → NvmeCmd) → State D → NvmeComp × State D

-- The pages of a transfer: one, two, or one and the rest of the table
abbrev pub data_pointer : BufferPrp → ℕ → ℕ × ℕ
data_pointer prp byte_count =
    if leb byte_count 4096
    then (get_or prp.entries 0 0, 0)
    else if leb byte_count 8192
    then (get_or prp.entries 0 0, get_or prp.entries 1 0)
    else (get_or prp.entries 0 0, (prp.physical + 8) % 2 ^ 64)

-- The blocks that a chunk takes, rounded up
abbrev pub blocks_of : ℕ → ℕ → ℕ
blocks_of len block_size = (len + block_size + (2 ^ 64 - 1)) % 2 ^ 64 / block_size

module _ {D : Type 0} (submit : Submit D) (prp : BufferPrp) (ns : Namespace) (nsid : ℕ) where
  unfoldable pub namespace_rw : (lba blocks_1 : ℕ) → Bool → State D → Outcome (Unit {0}) × State D
  namespace_rw lba blocks_1 write s =
      let (ptr0, ptr1) = data_pointer prp ((blocks_1 + 1) * ns.block_size % 2 ^ 64) in
      let (comp, s') =
        submit
          (λ cid.
            if write
            then io_write cid nsid lba blocks_1 ptr0 ptr1
            else io_read cid nsid lba blocks_1 ptr0 ptr1)
          s in
      (if comp.status / 2 == 0 then ok tt else err eio, s')

  -- The loop over `buf.chunks_mut(8192)`, on the length of the buffer: what of the buffer is
  -- filled, and the rest of it as it was.
  unfoldable pub read_chunks :
      (fuel lba : ℕ) → List ℕ → State D → Outcome (Unit {0}) × List ℕ × State D
  read_chunks zero lba buf s = (ok tt, buf, s)
  read_chunks (suc fuel) lba buf s =
      let chunk_len = length (take 8192 buf) in
      let blocks = blocks_of chunk_len ns.block_size in
      let (r, s') = namespace_rw lba ((blocks - 1) % 2 ^ 16) false s in
      let (r', filled, s'') = read_chunks fuel ((lba + blocks) % 2 ^ 64) (drop 8192 buf) s' in
      if length buf == 0
      then (ok tt, buf, s)
      else if ns.block_size == 0 || blocks == 0 || ltb 0x10000 blocks
      then (panicked, buf, s)
      else elim r [
        | err e ↦ (err e, buf, s')
        | panicked ↦ (panicked, buf, s')
        | ok _ ↦
            if ltb (length s'.buffer) chunk_len
            then (panicked, buf, s')
            else (r', take chunk_len s'.buffer ++ filled, s'')
      ]

  unfoldable pub namespace_read :
      (lba : ℕ) → List ℕ → State D → Outcome (Option ℕ) × List ℕ × State D
  unfolding read_chunks
  namespace_read lba buf s =
      let (r, filled, s') = read_chunks (length buf) lba buf s in
      (r >>= λ _. ok (some (length buf)), filled, s')

  -- The loop over `buf.chunks(8192)`: each chunk goes over the front of the buffer.
  unfoldable pub write_chunks : (fuel lba : ℕ) → List ℕ → State D → Outcome (Unit {0}) × State D
  write_chunks zero lba buf s = (ok tt, s)
  write_chunks (suc fuel) lba buf s =
      let chunk = take 8192 buf in
      let blocks = blocks_of (length chunk) ns.block_size in
      let copied = record s { buffer = chunk ++ drop (length chunk) s.buffer } in
      let (r, s') = namespace_rw lba ((blocks - 1) % 2 ^ 16) true copied in
      let rest = write_chunks fuel ((lba + blocks) % 2 ^ 64) (drop 8192 buf) s' in
      if length buf == 0
      then (ok tt, s)
      else if ns.block_size == 0 || blocks == 0 || ltb 0x10000 blocks
      then (panicked, s)
      else if ltb (length s.buffer) (length chunk)
      then (panicked, s)
      else elim r [ err e ↦ (err e, s') | panicked ↦ (panicked, s') | ok _ ↦ rest ]

  unfoldable pub namespace_write : (lba : ℕ) → List ℕ → State D → Outcome (Option ℕ) × State D
  unfolding write_chunks
  namespace_write lba buf s =
      let (r, s') = write_chunks (length buf) lba buf s in (r >>= λ _. ok (some (length buf)), s')
