-- ===== src/Xhci/Trb/Fields.antt =====
-- The fields of a built block, read back.
use drivers.Base.{ℕ, ◌+◌, ◌*◌, ◌/◌, ◌%◌, ◌^◌, ◌<◌, ◌≡◌, refl, Bool, true, false, bit, arith}
use drivers.Base.Bits.{or_above, field_at, and_mask}
use drivers.Xhci.TrbType.{TrbType, trb_type_code}
use drivers.Xhci.Trb.{Trb, set_trb, trb_type, trb_cycle, event_slot, endpoint_id, read_data}

-- The fields of a control word that a reader of a command or an event looks at, and the payload.
pub record Fields (trb : Trb) (t : TrbType) (slot ep payload : ℕ) (c : Bool) : Type 0 where
  pub type_is : trb_type trb ≡ trb_type_code t
  pub cycle_is : trb_cycle trb ≡ c
  pub slot_is : event_slot trb ≡ slot
  pub endpoint_is : endpoint_id trb ≡ ep
  pub payload_is : read_data trb ≡ payload

pub bit-lt : (c : Bool) → bit c < 2
bit-lt true = omega arith
bit-lt false = omega arith

pub code-lt : (t : TrbType) → trb_type_code t < 64
code-lt TrbType.reserved = omega arith
code-lt _ = omega arith

-- What `set` stores as two halves is read back whole.
pub read_data-set_trb : (p s c : ℕ) → p < 2 ^ 64 → read_data (set_trb p s c) ≡ p
unfolding read_data set_trb
read_data-set_trb p s c h = omega (
  arith,
  or_above 32 (p / 2 ^ 32 % 2 ^ 32 * 2 ^ 32) {a = p % 2 ^ 32} refl (omega arith) (omega arith),
)

-- The readers of a control word whose fields are known. `f` is bit 23, `m` bits 1 to 9.
pub Fields-of :
    (p s w slot f ep m : ℕ) (t : TrbType) (c : Bool)
    → p < 2 ^ 64
    → slot < 256
    → f < 2
    → ep < 32
    → m < 512
    → w ≡ slot * 2 ^ 24 + f * 2 ^ 23 + ep * 2 ^ 16 + trb_type_code t * 2 ^ 10 + m * 2 + bit c
    → Fields (set_trb p s w) t slot ep p c
unfolding trb_type trb_cycle event_slot endpoint_id set_trb
Fields-of p s w slot f ep m t c hp hs hf he hm e = record {
  type_is = omega (arith, field_at 6 10 w, code-lt t, bit-lt c);
  cycle_is = ground (arith, and_mask 1 w);
  slot_is = omega (arith, code-lt t, bit-lt c);
  endpoint_is = omega (arith, field_at 5 16 w, code-lt t, bit-lt c);
  payload_is = read_data-set_trb p s w hp;
}
