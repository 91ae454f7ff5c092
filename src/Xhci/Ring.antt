-- ===== src/Xhci/Ring.antt =====
-- xhcid/src/xhci/ring.rs and event.rs: a ring of TRBs in DMA memory. A command or transfer ring
-- (`link`) keeps its last entry for a link block; an event ring hands out every entry.
pub mod Laps
pub mod Addresses
pub mod Push
use drivers.Base.{
  ℕ, zero, suc, ◌+◌, ◌-◌, ◌*◌, ◌/◌, ◌%◌, ◌^◌, bit_and, bit_or, Bool, true, false, not, ◌||◌, Option,
  none, some, List, [], ◌∷◌, bit, ltb, leb, ◌==◌, if◌then◌else◌, length, get_elem?, set,
}
use drivers.Base.Outcome.{Outcome, ok, err, panicked, unwrap, assert, ◌>>=◌}
use drivers.Xhci.Trb.{Trb}
use drivers.Xhci.Trb.Build.{link}

-- `Dma<[Trb]>`: the blocks, and the physical and virtual address of the first.
pub record Dma : Type 0 where
  pub trbs : List Trb
  pub physical : ℕ
  pub virtual : ℕ

pub record Ring : Type 0 where
  pub link_ring : Bool
  pub dma : Dma
  pub open dma use *
  pub i : ℕ
  pub cycle : Bool

abbrev pub trb_size : ℕ
trb_size = 16

-- `alloc` is the allocation of zeroed DMA memory, which asks the kernel.
unfoldable pub new_ring : (Bool → ℕ → Outcome Dma) → Bool → ℕ → Bool → Outcome Ring
new_ring alloc ac64 len is_link = do
  dma ← alloc ac64 len
  ok (record { link_ring = is_link; dma = dma; i = 0; cycle = is_link })

-- `base.offset(i) as u64 | cycle`
unfoldable pub register : Ring → ℕ
register r = bit_or ((r.physical + r.i * trb_size) % 2 ^ 64) (bit r.cycle)

-- A turn of the loop of `next_index` at the end of a link ring: the link block is written with the
-- cycle bit, which is then toggled. The index is checked.
unfoldable pub wrap_link : Ring → ℕ → Outcome Ring
wrap_link r i =
    if ltb i (length r.trbs)
    then ok (record {
      link_ring = r.link_ring;
      dma = record {
        trbs = set r.trbs i (link r.physical true r.cycle);
        physical = r.physical;
        virtual = r.virtual;
      };
      i = 0;
      cycle = not r.cycle;
    })
    else panicked

abbrev at : Ring → ℕ → Ring
at r j = record { link_ring = r.link_ring; dma = r.dma; i = j; cycle = r.cycle }

-- The `loop` on fuel: `none` means that the fuel ran out.
unfoldable pub next_index : ℕ → Ring → Option (Outcome (ℕ × Ring))
next_index zero r = none
next_index (suc fuel) r = elim (leb (length r.trbs) (r.i + 1)) [
  | false ↦ some (ok (r.i, at r (r.i + 1)))
  | true ↦ elim r.link_ring [
    | false ↦ some (ok (r.i, at r 0))
    | true ↦ elim (wrap_link r r.i) [
      | ok r' ↦ next_index fuel r'
      | err e ↦ some (err e)
      | panicked ↦ some panicked
    ]
  ]
]

-- A write of a block
abbrev pub with_block : Ring → ℕ → Trb → Ring
with_block r i t = record {
  link_ring = r.link_ring;
  dma = record { trbs = set r.trbs i t; physical = r.physical; virtual = r.virtual };
  i = r.i;
  cycle = r.cycle;
}

-- `Ring::next`: the index of the block that is handed out, the cycle bit to write in it, and the
-- ring. The block itself is `trbs[i]`, whose index is checked.
unfoldable pub next : ℕ → Ring → Option (Outcome (ℕ × Bool × Ring))
next fuel r = elim (next_index fuel r) [
  | none ↦ none
  | some (ok (i, r')) ↦ some (if ltb i (length r'.trbs) then ok (i, r'.cycle, r') else panicked)
  | some (err e) ↦ some (err e)
  | some panicked ↦ some panicked
]

-- `Iter::next`, with the iterator's index as the state.
unfoldable pub iter_next : Ring → ℕ → Outcome (Trb × ℕ)
iter_next r i = do
  _ ← assert (not (length r.trbs == 0))
  t ← unwrap (get_elem? r.trbs i)
  ok (t, (i + 1) % length r.trbs)

-- A 32-bit controller sees only the low half of an address.
abbrev pub dma_mask : Bool → ℕ
dma_mask true = 0xffff_ffff_ffff_ffff
dma_mask false = 0xffff_ffff

unfoldable pub phys_base : Ring → Bool → ℕ
phys_base r ac64 = bit_and r.physical (dma_mask ac64)

unfoldable pub phys_addr_to_index : Ring → Bool → ℕ → Outcome (Option ℕ)
unfolding phys_base
phys_addr_to_index r ac64 paddr = if ltb paddr (phys_base r ac64) then ok none else do
  _ ← assert ((paddr - phys_base r ac64) % trb_size == 0)
  if ltb (length r.trbs) ((paddr - phys_base r ac64) / trb_size)
      then ok none
      else ok (some ((paddr - phys_base r ac64) / trb_size))

-- The three accessors differ only in how they hand the block out.
unfoldable pub phys_addr_to_entry : Ring → Bool → ℕ → Outcome (Option Trb)
phys_addr_to_entry r ac64 paddr = phys_addr_to_index r ac64 paddr >>= λ found. elim found [
  | none ↦ ok none
  | some index ↦ unwrap (get_elem? r.trbs index) >>= λ t. ok (some t)
]

-- `trb` is the address of a block; the sum is not checked against the address space.
unfoldable pub trb_phys_ptr : Ring → Bool → ℕ → Outcome ℕ
unfolding phys_base
trb_phys_ptr r ac64 trb =
    if ltb trb r.virtual || ltb (r.virtual + length r.trbs * trb_size) trb
    then panicked
    else ok (phys_base r ac64 + (trb - r.virtual))

unfoldable pub start_virt_addr : Ring → ℕ
start_virt_addr r = r.virtual

unfoldable pub end_virt_addr : Ring → ℕ
end_virt_addr r = r.virtual + length r.trbs * trb_size

-- `EventRing`: the segment table entry that names the ring's memory, and the ring.
pub record EventRing : Type 0 where
  pub address_low : ℕ
  pub address_high : ℕ
  pub size : ℕ
  pub ring : Ring

unfoldable pub new_event_ring : (Bool → ℕ → Outcome Dma) → Bool → Outcome EventRing
unfolding new_ring
new_event_ring alloc ac64 = do
  r ← new_ring alloc ac64 256 false
  ok (record {
    address_low = r.physical % 2 ^ 32;
    address_high = r.physical / 2 ^ 32 % 2 ^ 32;
    size = length r.trbs % 2 ^ 16;
    ring = r;
  })

unfoldable pub erdp : EventRing → ℕ
unfolding register
erdp e = bit_and (register e.ring) 0xffff_ffff_ffff_fff0
