-- ===== src/Virtio/Queue/Building.antt =====
-- `ChainBuilder` in virtio-core/src/spec/split_virtqueue.rs.
use drivers.Base.{
  ℕ, ◌-◌, ◌/◌, ◌≡◌, refl, ◌∙◌, ap, sym, List, [], ◌∷◌, ◌++◌, true, false, bit_and, bit_or, arith,
}
use mathlib.Core.List.{append_assoc, append-nil}
use drivers.Base.Bits.{or_low, or_zero, and_bit}
use drivers.Base.Outcome.{ok}
use drivers.Virtio.Queue.{Buffer, has_next, chain, build}
use drivers.Virtio.Queue.Requests.{Linked}

-- The calls of `chain` for a list of buffers, one after the other
unfoldable pub chain_all : List Buffer → List Buffer → List Buffer
unfolding chain
chain_all acc [] = acc
chain_all acc (b ∷ bs) = chain_all (chain acc b) bs

-- The same memory, whatever the flags
unfoldable pub SameMemory : List Buffer → List Buffer → Type 0
SameMemory [] [] = Unit {0}
SameMemory [] (c ∷ cs) = ⊥
SameMemory (b ∷ bs) [] = ⊥
SameMemory (b ∷ bs) (c ∷ cs) = (b.buffer ≡ c.buffer) × (b.size ≡ c.size) × SameMemory bs cs

abbrev with_next : Buffer → Buffer
with_next b = record b { flags = bit_or b.flags 1 }

abbrev map_next : List Buffer → List Buffer
map_next [] = []
map_next (b ∷ bs) = with_next b ∷ map_next bs

abbrev off : ℕ → ℕ
off flags = flags - bit_and flags 1

next_on : (flags : ℕ) → has_next (bit_or flags 1) ≡ true
next_on flags = ground (arith, or_low flags 1, or_zero (flags / 2), and_bit 0 (bit_or flags 1))

next_off : (flags : ℕ) → has_next (off flags) ≡ false
next_off flags = ground (arith, and_bit 0 flags, and_bit 0 (off flags))

chain_all-map : (bs acc : List Buffer) → chain_all acc bs ≡ acc ++ map_next bs
unfolding chain_all chain
chain_all-map [] acc = sym (append-nil acc)
chain_all-map (b ∷ bs) acc =
    chain_all-map bs (acc ++ with_next b ∷ []) ∙ append_assoc acc (with_next b ∷ []) (map_next bs)

map-build :
    (b : Buffer) (bs : List Buffer)
    → (c : Buffer) × (cs : List Buffer) × (build (map_next (b ∷ bs)) ≡ ok (c ∷ cs))
      × Linked (c ∷ cs)
      × SameMemory (b ∷ bs) (c ∷ cs)
unfolding build Linked SameMemory
map-build b [] = (
  record b { flags = off (bit_or b.flags 1) },
  [],
  refl,
  next_off (bit_or b.flags 1),
  (refl, refl, tt),
)
map-build b (d ∷ bs) =
    let (c, cs, built, linked, same) = map-build d bs in
    (with_next b, c ∷ cs, rw built refl, (next_on b.flags, linked), (refl, refl, same))

-- A chain that is built of at least one buffer has the buffers in their order, `NEXT` on all but
-- the last and not on the last, whatever flags they came with.
build-Linked :
    (b : Buffer) (bs : List Buffer)
    → (c : Buffer) × (cs : List Buffer) × (build (chain_all [] (b ∷ bs)) ≡ ok (c ∷ cs))
      × Linked (c ∷ cs)
      × SameMemory (b ∷ bs) (c ∷ cs)
build-Linked b bs =
    let (c, cs, built, linked, same) = map-build b bs in
    (c, cs, ap build (chain_all-map (b ∷ bs) []) ∙ built, linked, same)
