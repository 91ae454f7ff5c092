-- ===== src/Xhci/Ring/Addresses.antt =====
-- Physical addresses of a ring's blocks.
use drivers.Base.{
  ℕ, ◌+◌, ◌-◌, ◌*◌, ◌/◌, ◌%◌, ◌^◌, ◌<◌, ◌≡◌, Bool, bit, none, some, arith, length, get_elem?,
  get_elem?-some, get_elem?-none, if◌then◌else◌, leb,
}
use drivers.Base.Bits.{or_sum, and_shifted, and_mask}
use drivers.Base.Outcome.{ok, panicked}
use drivers.Xhci.Trb.{Trb}
use drivers.Xhci.Trb.Fields.{bit-lt}
use drivers.Xhci.Ring.{
  Ring, EventRing, register, erdp, phys_base, phys_addr_to_index, phys_addr_to_entry, trb_phys_ptr,
}

-- The address of a block goes to the controller and comes back in an event: `trb_phys_ptr` turns
-- block number k of the ring into a physical address, which `phys_addr_to_index` turns back into
-- k, and `phys_addr_to_entry` into the block.
pub phys_addr-round_trip :
    (r : Ring) (ac64 : Bool) (k : ℕ)
    → k < length r.trbs
    → (paddr : ℕ) × (trb_phys_ptr r ac64 (r.virtual + k * 16) ≡ ok paddr)
      × (phys_addr_to_index r ac64 paddr ≡ ok (some k))
      × ((t : Trb) × (get_elem? r.trbs k ≡ some t)
          × (phys_addr_to_entry r ac64 paddr ≡ ok (some t)))
unfolding trb_phys_ptr phys_addr_to_index phys_addr_to_entry
phys_addr-round_trip r ac64 k h =
    let (t, e) = get_elem?-some r.trbs k h in
    (phys_base r ac64 + k * 16, ground arith, ground arith, (t, e, ground arith))

-- Which addresses `phys_addr_to_index` takes: the aligned ones from the ring's base up to the one
-- just past its last block, that one included.
pub phys_addr_to_index_accepts :
    (r : Ring) (ac64 : Bool) (off : ℕ)
    → phys_addr_to_index r ac64 (phys_base r ac64 + off * 16)
      ≡ ok (if leb off (length r.trbs) then some off else none)
unfolding phys_addr_to_index
phys_addr_to_index_accepts r ac64 off = ground arith

-- The address just past the last block passes the check of `phys_addr_to_index`, so the access of
-- `phys_addr_to_entry` is out of bounds and panics, where `None` is documented.
pub phys_addr_to_entry_past_end :
    (r : Ring) (ac64 : Bool)
    → phys_addr_to_entry r ac64 (phys_base r ac64 + length r.trbs * 16) ≡ panicked
unfolding phys_addr_to_entry phys_addr_to_index
phys_addr_to_entry_past_end r ac64 = ground (arith, get_elem?-none r.trbs (length r.trbs))

-- For a ring in 16-byte aligned memory that ends below 2^64, `register` is the address of the
-- current block with the cycle bit in bit 0, and `erdp` is the address alone.
pub register-erdp :
    (e : EventRing)
    → e.ring.physical % 16 ≡ 0
    → e.ring.physical + e.ring.i * 16 < 2 ^ 64
    → (register e.ring ≡ e.ring.physical + e.ring.i * 16 + bit e.ring.cycle)
      × (erdp e ≡ e.ring.physical + e.ring.i * 16)
unfolding register erdp
register-erdp e al h =
    let reg : register e.ring ≡ e.ring.physical + e.ring.i * 16 + bit e.ring.cycle = omega (
      arith,
      or_sum 4 ((e.ring.physical + e.ring.i * 16) % 2 ^ 64) (bit e.ring.cycle) (omega arith)
          (omega (arith, bit-lt e.ring.cycle)),
    ) in
    (
      reg,
      omega (
        arith,
        reg,
        bit-lt e.ring.cycle,
        and_shifted 4 (register e.ring) (2 ^ 60 - 1),
        and_mask 60 (register e.ring / 2 ^ 4),
      ),
    )
