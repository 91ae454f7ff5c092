-- ===== src/Xhci/Ring/Laps.antt =====
-- The order in which a ring hands its blocks out.
use drivers.Base.{
  ℕ, zero, suc, ◌+◌, ◌/◌, ◌%◌, ◌<◌, ◌≡◌, refl, ◌⊎◌, inl, inr, ◌∙◌, Bool, true, false, not, Option,
  none, some, arith, length, set, length-set, ap,
}
use drivers.Base.Laps.{lap_cycle, div-mod_inside, div-mod_wraps}
use drivers.Base.Outcome.{Outcome, ok, err, panicked}
use native.Mathlib.Decide.{dec_lt}
use native.Mathlib.Nat.{div-eq_of_lt, mod-eq_of_lt}
use drivers.Xhci.Trb.Build.{link}
use drivers.Xhci.Ring.{Dma, Ring, new_ring, wrap_link, next_index, next}

-- A link ring of `n + 1` blocks that is about to hand out block `slot` of pass `lap`. At the end
-- of a pass the index still stands on the link block, and the cycle bit is the last pass's.
pub record IsAt (n lap slot : ℕ) (r : Ring) : Type 0 where
  pub is_link : r.link_ring ≡ true
  pub room : length r.trbs ≡ n + 1
  pub within : slot < n
  pub here :
      ((r.i ≡ slot) × (r.cycle ≡ lap_cycle lap))
      ⊎ ((prev : ℕ) × (lap ≡ suc prev) × (slot ≡ 0) × (r.i ≡ n) × (r.cycle ≡ lap_cycle prev))

-- What one `next` of such a ring does. Nothing is written but the link block, at the start of a
-- pass after the first.
pub record HandsOut (n lap slot : ℕ) (r r' : Ring) : Type 0 where
  pub hands_out : next 2 r ≡ some (ok (slot, lap_cycle lap, r'))
  pub linked : (r'.trbs ≡ r.trbs) ⊎ (r'.trbs ≡ set r.trbs n (link r.physical true r.cycle))
  pub index : r'.i ≡ slot + 1
  pub cycle_is : r'.cycle ≡ lap_cycle lap
  pub same_link : r'.link_ring ≡ r.link_ring
  pub same_memory : r'.physical ≡ r.physical

-- Inside a pass the index moves up by one and nothing is written.
next_inside :
    (n lap slot : ℕ) (r : Ring)
    → length r.trbs ≡ n + 1
    → slot < n
    → r.i ≡ slot
    → r.cycle ≡ lap_cycle lap
    → HandsOut n lap slot r (record r { i = r.i + 1 })
unfolding next next_index
next_inside n lap slot r room within ei ec = record {
  hands_out = ground arith;
  linked = inl refl;
  index = omega arith;
  cycle_is = ec;
  same_link = refl;
  same_memory = refl;
}

-- The ring after the wrap: the link block is written and block 0 is handed out.
wrapped : ℕ → Ring → Ring
wrapped n r = record {
  link_ring = r.link_ring;
  dma = record {
    trbs = set r.trbs n (link r.physical true r.cycle);
    physical = r.physical;
    virtual = r.virtual;
  };
  i = 1;
  cycle = not r.cycle;
}

next_wraps :
    (n prev : ℕ) (r : Ring)
    → r.link_ring ≡ true
    → length r.trbs ≡ n + 1
    → 0 < n
    → r.i ≡ n
    → r.cycle ≡ lap_cycle prev
    → HandsOut n (suc prev) 0 r (wrapped n r)
unfolding next next_index wrap_link wrapped
next_wraps n prev r is_link room within ei ec = record {
  hands_out = ground (arith, length-set r.trbs n (link r.physical true r.cycle));
  linked = inr refl;
  index = refl;
  cycle_is = ground arith;
  same_link = refl;
  same_memory = refl;
}

pub next-HandsOut :
    (n lap slot : ℕ) (r : Ring) → IsAt n lap slot r → (r' : Ring) × HandsOut n lap slot r r'
next-HandsOut n lap slot r h = elim h.here [
  | inl (ei, ec) ↦ (_, next_inside n lap slot r h.room h.within ei ec)
  | inr (prev, el, es, ei, ec) ↦
      rw (el, es) (wrapped n r, next_wraps n prev r h.is_link h.room (omega arith) ei ec)
]

-- Writing the link block keeps the ring's length.
pub room_kept :
    (n lap slot : ℕ) (r r' : Ring)
    → IsAt n lap slot r
    → HandsOut n lap slot r r'
    → length r'.trbs ≡ n + 1
room_kept n lap slot r r' h o = elim o.linked [
  | inl e ↦ ap length e ∙ h.room
  | inr e ↦ ap length e ∙ length-set r.trbs n _ ∙ h.room
]

-- The position after a call: the next slot, or slot 0 of the next pass.
next-IsAt_inside :
    (n lap slot : ℕ) (r r' : Ring)
    → IsAt n lap slot r
    → HandsOut n lap slot r r'
    → suc slot < n
    → IsAt n lap (suc slot) r'
next-IsAt_inside n lap slot r r' h o lt = record {
  is_link = o.same_link ∙ h.is_link;
  room = room_kept n lap slot r r' h o;
  within = lt;
  here = inl (omega (arith, o.index), o.cycle_is);
}

next-IsAt_wraps :
    (n lap slot : ℕ) (r r' : Ring)
    → IsAt n lap slot r
    → HandsOut n lap slot r r'
    → suc slot ≡ n
    → IsAt n (suc lap) 0 r'
next-IsAt_wraps n lap slot r r' h o e = record {
  is_link = o.same_link ∙ h.is_link;
  room = room_kept n lap slot r r' h o;
  within = omega (arith, h.within);
  here = inr (lap, refl, refl, omega (arith, o.index), o.cycle_is);
}

pub next-IsAt :
    (n k : ℕ) (r r' : Ring)
    → IsAt n (k / n) (k % n) r
    → HandsOut n (k / n) (k % n) r r'
    → IsAt n (suc k / n) (suc k % n) r'
next-IsAt n k r r' h o = elim (dec_lt (suc (k % n)) n) [
  | yes lt ↦
      let (ed, em) = div-mod_inside n k lt in
      rw (ed, em) (next-IsAt_inside n (k / n) (k % n) r r' h o lt)
  | no ge ↦
      let e : suc (k % n) ≡ n = omega (arith, h.within) in
      let (ed, em) = div-mod_wraps n k e in
      rw (ed, em) (next-IsAt_wraps n (k / n) (k % n) r r' h o e)
]

-- The ring after `k` calls of `next`, what they hand out dropped.
pub after : ℕ → Ring → Option (Outcome Ring)
after zero r = some (ok r)
after (suc k) r = elim (after k r) [
  | none ↦ none
  | some panicked ↦ some panicked
  | some (err e) ↦ some (err e)
  | some (ok q) ↦ elim (next 2 q) [
    | none ↦ none
    | some panicked ↦ some panicked
    | some (err e) ↦ some (err e)
    | some (ok (i, c, q')) ↦ some (ok q')
  ]
]

after-IsAt :
    (n k : ℕ) (r : Ring)
    → IsAt n 0 0 r
    → (q : Ring) × (after k r ≡ some (ok q)) × IsAt n (k / n) (k % n) q
unfolding after
after-IsAt n zero r h = (r, refl, rw (div-eq_of_lt h.within, mod-eq_of_lt h.within) h)
after-IsAt n (suc k) r h =
    let (q, e, at_q) = after-IsAt n k r h in
    let (q', o) = next-HandsOut n (k / n) (k % n) q at_q in
    (q', rw (e, o.hands_out), next-IsAt n k q q' at_q o)

new-IsAt :
    (alloc : Bool → ℕ → Outcome Dma) (ac64 : Bool) (n : ℕ) (dma : Dma) (r : Ring)
    → alloc ac64 (n + 1) ≡ ok dma
    → length dma.trbs ≡ n + 1
    → 0 < n
    → new_ring alloc ac64 (n + 1) true ≡ ok r
    → IsAt n 0 0 r
unfolding new_ring
new-IsAt alloc ac64 n dma r ea len pos e = record {
  is_link = ground arith;
  room = ground arith;
  within = pos;
  here = inl (ground arith, ground arith);
}

-- A new link ring of n + 1 blocks hands out its first n blocks in order, over and over: call
-- number k (from 0) returns index k mod n, with the cycle bit of pass k div n, which starts set and
-- is toggled from pass to pass. No call panics or needs a third turn of the loop. `alloc` is
-- assumed to return as many blocks as it was asked for.
pub next_order :
    (alloc : Bool → ℕ → Outcome Dma) (ac64 : Bool) (n k : ℕ) (dma : Dma) (r : Ring)
    → alloc ac64 (n + 1) ≡ ok dma
    → length dma.trbs ≡ n + 1
    → 0 < n
    → new_ring alloc ac64 (n + 1) true ≡ ok r
    → (q : Ring) × (q' : Ring) × (after k r ≡ some (ok q))
      × (next 2 q ≡ some (ok (k % n, lap_cycle (k / n), q')))
next_order alloc ac64 n k dma r ea len pos e =
    let (q, eq, at_q) = after-IsAt n k r (new-IsAt alloc ac64 n dma r ea len pos e) in
    let (q', o) = next-HandsOut n (k / n) (k % n) q at_q in (q, q', eq, o.hands_out)

-- A ring without a link block, the event ring: each call hands out the index and moves it up
-- modulo the length, in one turn of the loop; the cycle bit and the blocks never change.
pub next_event :
    (fuel : ℕ) (r : Ring)
    → r.link_ring ≡ false
    → r.i < length r.trbs
    → next (suc fuel) r ≡ some (ok (r.i, r.cycle, record r { i = (r.i + 1) % length r.trbs }))
unfolding next next_index
next_event fuel r no_link within = elim (dec_lt (r.i + 1) (length r.trbs)) [
  | yes lt ↦ ground (arith, mod-eq_of_lt lt)
  | no ge ↦ let e : (r.i + 1) % length r.trbs ≡ 0 = grind arith in ground (arith, e)
]

-- The ring after a turn of the loop that wraps.
abbrev around : Ring → Ring
around r = record {
  link_ring = r.link_ring;
  dma = record {
    trbs = set r.trbs r.i (link r.physical true r.cycle);
    physical = r.physical;
    virtual = r.virtual;
  };
  i = 0;
  cycle = not r.cycle;
}

-- A link ring of a single block never hands anything out: `next_index` loops for ever.
pub next_index_alone :
    (fuel : ℕ) (r : Ring)
    → r.link_ring ≡ true
    → length r.trbs ≡ 1
    → r.i ≡ 0
    → next_index fuel r ≡ none
unfolding next_index wrap_link
next_index_alone zero r is_link one start = refl
next_index_alone (suc fuel) r is_link one start =
    let again = next_index_alone fuel (around r) is_link (length-set r.trbs r.i _ ∙ one) refl in
    ground (arith, again)
