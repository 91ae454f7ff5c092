-- ===== src/Storage/Namespace/Blocks.antt =====
-- How many blocks a chunk of storage/nvmed/src/nvme/mod.rs takes, and what a controller does.
use drivers.Base.{
  ℕ, zero, suc, ◌+◌, ◌-◌, ◌*◌, ◌/◌, ◌%◌, ◌^◌, ◌≤◌, ◌<◌, ◌≡◌, List, ◌++◌, leb, if◌then◌else◌, length,
  get_or, take, drop, ltb, ◌&&◌, ◌||◌, ◌==◌, false, arith,
}
use native.Mathlib.Decide.{dec_le}
use native.Mathlib.Nat.{div-add-mod'}
use drivers.Storage.Block.Bytes.{bytes}
use drivers.Storage.Queues.{NvmeComp}
use drivers.Storage.Commands.{io_read, io_write}
use drivers.Storage.Namespace.{BufferPrp, State, Submit, blocks_of, data_pointer}

-- Blocks of `bs` bytes, a whole number of which are 8192 bytes
pub record Divides (bs per : ℕ) : Type 0 where
  pub some_bytes : 0 < bs
  pub whole : per * bs ≡ 8192

mul_le : (a b c : ℕ) → a ≤ b → a * c ≤ b * c
mul_le a b zero h = omega arith
mul_le a b (suc c) h = omega (arith, mul_le a b c h)

pub mul_lt : (a b c : ℕ) → a < b → a * c + c ≤ b * c
mul_lt a b c h = omega (arith, mul_le (suc a) b c h)

cancel_le : (a b c : ℕ) → a * c < b * c + c → a ≤ b
cancel_le a b c h = elim (dec_le a b) [
  | yes le ↦ le
  | no more ↦ absurd (omega (arith, mul_lt b a c (omega arith)))
]

rounded :
    (len bs : ℕ)
    → 0 < bs
    → bs ≤ 8192
    → 0 < len
    → len ≤ 8192
    → (len ≤ blocks_of len bs * bs) × (blocks_of len bs * bs < len + bs)
rounded len bs b small some_len h =
    let e : (len + bs + (2 ^ 64 - 1)) % 2 ^ 64 ≡ len + bs - 1 = omega arith in
    rw e
      (omega (arith, div-add-mod' (len + bs - 1) bs), omega (arith, div-add-mod' (len + bs - 1) bs))

-- The blocks of a chunk hold it, with no block more than it takes, and are 8192 bytes at most.
pub record Rounds (bs per len : ℕ) : Type 0 where
  pub holds : len ≤ blocks_of len bs * bs
  pub tight : blocks_of len bs * bs < len + bs
  pub in_buffer : blocks_of len bs * bs ≤ 8192
  pub at_least : 1 ≤ blocks_of len bs
  pub no_more : blocks_of len bs ≤ len

small_block : (bs per : ℕ) → per * bs ≡ 8192 → bs ≤ 8192
small_block bs zero e = absurd (omega arith)
small_block bs (suc n) e = omega arith

not_none : (q bs len : ℕ) → len ≤ q * bs → 0 < len → 1 ≤ q
not_none zero bs len h some_len = absurd (omega arith)
not_none (suc q) bs len h some_len = omega arith

pub blocks_of-Rounds : (bs per len : ℕ) → Divides bs per → 0 < len → len ≤ 8192 → Rounds bs per len
blocks_of-Rounds bs per len d some_len h =
    let q = blocks_of len bs in
    let (holds, tight) = rounded len bs d.some_bytes (small_block bs per d.whole) some_len h in
    let fits : q ≤ per = cancel_le q per bs (omega (arith, tight, d.whole)) in
    let longer : 1 * len ≤ bs * len = mul_le 1 bs len d.some_bytes in
    record {
      holds = holds;
      tight = tight;
      in_buffer = omega (arith, mul_le q per bs fits, d.whole);
      at_least = not_none q bs len holds some_len;
      no_more = cancel_le q len bs (omega (arith, tight, longer));
    }

-- A chunk of whole blocks takes those blocks.
pub blocks_of-whole :
    (bs per len n : ℕ)
    → Divides bs per
    → 0 < len
    → len ≤ 8192
    → len ≡ n * bs
    → blocks_of len bs * bs ≡ len
blocks_of-whole bs per len n d some_len h e =
    let r = blocks_of-Rounds bs per len d some_len h in
    let most : blocks_of len bs ≤ n = cancel_le (blocks_of len bs) n bs (omega (arith, r.tight)) in
    omega (arith, r.holds, mul_le (blocks_of len bs) n bs most)

-- The assertions of the loops
pub asserts_lem :
    (bs q : ℕ) → 0 < bs → 1 ≤ q → q ≤ 8192 → (bs == 0 || q == 0 || ltb 0x10000 q) ≡ false
asserts_lem bs q b some_blocks h = ground arith

pub long_enough : (a b : ℕ) → b ≤ a → ltb a b ≡ false
long_enough a b h = ground arith

-- The rules of a PRP: the first page, the second one if there are two, or the rest of the table.
pub record Describes (prp : BufferPrp) (byte_count : ℕ) (ptrs : ℕ × ℕ) : Type 0 where
  pub first : ptrs.0 ≡ get_or prp.entries 0 0
  pub second : 4096 < byte_count → byte_count ≤ 8192 → ptrs.1 ≡ get_or prp.entries 1 0
  pub others : 8192 < byte_count → ptrs.1 ≡ (prp.physical + 8) % 2 ^ 64

pub data_pointer-Describes :
    (prp : BufferPrp) (byte_count : ℕ) → Describes prp byte_count (data_pointer prp byte_count)
data_pointer-Describes prp byte_count = ground arith

-- What a disk holds once `written` is written from `at` on
abbrev pub overlay : ℕ → List ℕ → (ℕ → ℕ) → ℕ → ℕ
overlay at written content k =
    if leb at k && ltb k (at + length written) then get_or written (k - at) 0 else content k

-- A controller over a disk that holds bytes. A command with pointers that describe the buffer, for
-- no more bytes than it has, succeeds: a read stores the blocks at the front of the buffer and
-- leaves the disk, a write stores the front of the buffer in the blocks and leaves the buffer.
pub record Controller {D : Type 0} (submit : Submit D) (prp : BufferPrp) (bs nsid : ℕ)
    : Type 0 where
  pub stored : D → ℕ → ℕ
  pub reads :
      (lba n : ℕ) (ptrs : ℕ × ℕ) (s : State D)
      → lba < 2 ^ 64
      → n < 2 ^ 16
      → (n + 1) * bs ≤ length s.buffer
      → Describes prp ((n + 1) * bs) ptrs
      → (comp : NvmeComp) × (d : D) × (submit (λ cid. io_read cid nsid lba n ptrs.0 ptrs.1) s ≡ (
        comp,
        record {
          buffer =
              bytes (stored s.device) (lba * bs) ((n + 1) * bs) ++ drop ((n + 1) * bs) s.buffer;
          device = d;
        },
      ))
        × (comp.status / 2 ≡ 0)
        × (stored d ≡ stored s.device)
  pub writes :
      (lba n : ℕ) (ptrs : ℕ × ℕ) (s : State D)
      → lba < 2 ^ 64
      → n < 2 ^ 16
      → (n + 1) * bs ≤ length s.buffer
      → Describes prp ((n + 1) * bs) ptrs
      → (comp : NvmeComp) × (d : D) × (submit (λ cid. io_write cid nsid lba n ptrs.0 ptrs.1) s
          ≡ (comp, record s { device = d }))
        × (comp.status / 2 ≡ 0)
        × (stored d ≡ overlay (lba * bs) (take ((n + 1) * bs) s.buffer) (stored s.device))
