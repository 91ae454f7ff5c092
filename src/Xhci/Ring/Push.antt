-- ===== src/Xhci/Ring/Push.antt =====
-- Writing blocks to a ring, one after the other, as commands and transfers do.
use drivers.Base.{
  ℕ, suc, ◌/◌, ◌%◌, ◌<◌, ◌≡◌, ◌≢◌, refl, ◌∙◌, ap, sym, Bool, some, arith, length-set, get_elem?,
  get_elem?-set_self, get_elem?-set_ne, inl, inr,
}
use drivers.Base.Laps.{lap_cycle}
use drivers.Base.Outcome.{Outcome}
use drivers.Base.Outcome as O
use drivers.Xhci.Trb.{Trb}
use drivers.Xhci.Ring.{Ring, next, with_block}
use drivers.Xhci.Ring.Laps.{IsAt, HandsOut, next-HandsOut, next-IsAt, room_kept}
use drivers.Xhci.Calls.{Result, ok, turns, lift, then_}

-- `ring.next()`, and the block that is written with its cycle bit, which can be refused by an
-- assertion: its index, and the ring
unfoldable pub push : Ring → (Bool → Outcome Trb) → Result (ℕ × Ring)
push r block =
    then_ (turns (next 2 r))
      (λ (i, cycle, r'). then_ (lift (block cycle)) (λ b. ok (i, with_block r' i b)))

-- A link ring of `n + 1` blocks that is about to hand out its k-th block since it was new
abbrev pub IsAfter : (n k : ℕ) → Ring → Type 0
IsAfter n k r = IsAt n (k / n) (k % n) r

-- What `push` of a block does at such a place
pub record Pushes (n k : ℕ) (r : Ring) (block : Bool → Outcome Trb) (b : Trb) (r' : Ring)
    : Type 0 where
  pub pushed : push r block ≡ ok (k % n, r')
  pub is_after : IsAfter n (suc k) r'
  pub written : get_elem? r'.trbs (k % n) ≡ some b
  pub others : (j : ℕ) → j < n → j ≢ k % n → get_elem? r'.trbs j ≡ get_elem? r.trbs j
  pub physical_is : r'.physical ≡ r.physical

-- Writing the link block changes no other.
others_kept :
    (n k j : ℕ) (r r' : Ring)
    → HandsOut n (k / n) (k % n) r r'
    → j < n
    → get_elem? r'.trbs j ≡ get_elem? r.trbs j
others_kept n k j r r' o h = elim o.linked [
  | inl e ↦ ap (λ ts. get_elem? ts j) e
  | inr e ↦
      ap (λ ts. get_elem? ts j) e ∙ get_elem?-set_ne r.trbs n j _ (λ same. absurd (omega arith))
]

pub push_lem :
    (n k : ℕ) (r : Ring) (block : Bool → Outcome Trb) (b : Trb)
    → IsAfter n k r
    → block (lap_cycle (k / n)) ≡ O.ok b
    → (r' : Ring) × Pushes n k r block b r'
unfolding push
push_lem n k r block b h e =
    let (q, o) = next-HandsOut n (k / n) (k % n) r h in
    let at = next-IsAt n k r q h o in
    let room = room_kept n (k / n) (k % n) r q h o in
    (
      with_block q (k % n) b,
      record {
        pushed = rw (o.hands_out, e) refl;
        is_after = record {
          is_link = at.is_link;
          room = length-set q.trbs (k % n) b ∙ room;
          within = at.within;
          here = at.here;
        };
        written = get_elem?-set_self q.trbs (k % n) b (omega (arith, h.within));
        others = λ j jn ne.
            get_elem?-set_ne q.trbs (k % n) j b (λ e. ne (sym e)) ∙ others_kept n k j r q o jn;
        physical_is = o.same_memory;
      },
    )
