-- ===== src/Storage/Namespace/Tests.antt =====
-- The theorems on namespaces at concrete inputs.
use drivers.Base.{
  ℕ, ◌+◌, ◌*◌, ◌%◌, ◌/◌, ◌^◌, ◌≤◌, ◌<◌, ◌≡◌, refl, ap, some, List, [], ◌∷◌, ◌++◌, ◌==◌,
  if◌then◌else◌, length, take, drop, replicate, length-replicate, arith,
}
use drivers.Base.Outcome.{ok}
use drivers.Storage.Block.Bytes.{bytes}
use drivers.Storage.Queues.{NvmeCmd, zeroed}
use drivers.Storage.Commands.{io_read, io_write}
use drivers.Storage.Namespace.{BufferPrp, Namespace, State, Submit, namespace_read, namespace_write}
use drivers.Storage.Namespace.Blocks.{Controller, Divides, overlay}
use drivers.Storage.Namespace.Reads.{namespace_read-stores}
use drivers.Storage.Namespace.Writes.{namespace_write-stores}

abbrev prp : BufferPrp
prp = record { entries = 0x10000 ∷ 0x11000 ∷ 0x12000 ∷ []; physical = 0x20000 }

abbrev ns : Namespace
ns = record { id = 1; blocks = 100; block_size = 512 }

-- The block number in a command, and the bytes it carries
abbrev lba_of : NvmeCmd → ℕ
lba_of cmd = cmd.cdw10 + cmd.cdw11 * 2 ^ 32

abbrev carries : NvmeCmd → ℕ
carries cmd = (cmd.cdw12 + 1) * 512

-- A controller that carries a command out on a disk that is its content
abbrev serve : NvmeCmd → State (ℕ → ℕ) → State (ℕ → ℕ)
serve cmd s =
    if cmd.opcode == 2
    then record s {
      buffer = bytes s.device (lba_of cmd * 512) (carries cmd) ++ drop (carries cmd) s.buffer;
    }
    else record s { device = overlay (lba_of cmd * 512) (take (carries cmd) s.buffer) s.device }

abbrev submit : Submit (ℕ → ℕ)
submit cmd_init s = (zeroed, serve (cmd_init 0) s)

halves : (lba : ℕ) → lba < 2 ^ 64 → lba % 2 ^ 32 + lba / 2 ^ 32 % 2 ^ 32 * 2 ^ 32 ≡ lba
halves lba small = omega arith

controller : Controller submit prp 512 1
unfolding io_read io_write
controller = record {
  stored = λ content. content;
  reads = λ lba n ptrs s small few room describes. (
    zeroed,
    s.device,
    ap
        (λ (k : ℕ). (
          zeroed,
          record s {
            buffer = bytes s.device (k * 512) ((n + 1) * 512) ++ drop ((n + 1) * 512) s.buffer;
          },
        ))
        (halves lba small),
    refl,
    refl,
  );
  writes = λ lba n ptrs s small few room describes. (
    zeroed,
    overlay (lba * 512) (take ((n + 1) * 512) s.buffer) s.device,
    ap
        (λ (k : ℕ). (
          zeroed,
          record s { device = overlay (k * 512) (take ((n + 1) * 512) s.buffer) s.device },
        ))
        (halves lba small),
    refl,
    refl,
  );
}

sixteen-Divides : Divides 512 16
sixteen-Divides = record { some_bytes = omega arith; whole = omega arith }

-- A disk whose byte number k is k, and a buffer of two pages
abbrev start : State (ℕ → ℕ)
start = record { buffer = replicate 8192 0; device = λ k. k }

abbrev two_blocks : List ℕ
two_blocks = replicate 1024 7

room : 8192 ≤ length start.buffer
room = omega (arith, length-replicate {A = ℕ} 8192 0)

namespace_read-stores_example :
    (s' : State (ℕ → ℕ)) × (namespace_read submit prp ns 1 3 (1 ∷ 2 ∷ 3 ∷ []) start
      ≡ (ok (some 3), bytes start.device (3 * 512) 3, s'))
    × (s'.device ≡ start.device)
    × (8192 ≤ length s'.buffer)
unfolding controller
namespace_read-stores_example =
    namespace_read-stores submit prp ns 1 16 controller sixteen-Divides 3 (1 ∷ 2 ∷ 3 ∷ []) start
      (omega arith) room

namespace_write-stores_example :
    (s' : State (ℕ → ℕ)) × (namespace_write submit prp ns 1 3 two_blocks start
      ≡ (ok (some (length two_blocks)), s'))
    × (s'.device ≡ overlay (3 * 512) two_blocks start.device)
    × (8192 ≤ length s'.buffer)
unfolding controller
namespace_write-stores_example =
    namespace_write-stores submit prp ns 1 16 controller sixteen-Divides 2 3 two_blocks start
      (length-replicate {A = ℕ} 1024 7) (omega (arith, length-replicate {A = ℕ} 1024 7)) room
