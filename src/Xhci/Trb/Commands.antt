-- ===== src/Xhci/Trb/Commands.antt =====
-- The command blocks: every builder writes the fields that the controller reads.
use drivers.Base.{
  ℕ, ◌+◌, ◌-◌, ◌*◌, ◌/◌, ◌%◌, ◌^◌, ◌<◌, bit_and, bit_or, ◌≡◌, refl, Bool, true, bit, ◌==◌, arith,
  ==_iff,
}
use drivers.Base.Bits.{or_below, or_sum, or_low, and_low, and_mask, and_shifted}
use drivers.Base.Outcome.{Outcome, ok}
use drivers.Xhci.TrbType.{TrbType, trb_type_code}
use drivers.Xhci.Trb.{Trb, ◌<<<◌, ◌|||◌, set_trb}
use drivers.Xhci.Trb.Build.{
  type_field, no_op_cmd, enable_slot, disable_slot, address_device, configure_endpoint,
  evaluate_context, reset_endpoint, set_tr_deque_ptr, stop_endpoint, reset_device, is_command_trb,
  contains, valid_trb_types,
}
use drivers.Xhci.Trb.Fields.{Fields, Fields-of, bit-lt, code-lt}

-- One more operand of the chain, below what is there: the type, the flag at bit 9, the cycle bit.
with_type :
    {a : ℕ} (s : ℕ) (t : TrbType)
    → a ≡ s
    → s % 2 ^ 16 ≡ 0
    → a ||| type_field t ≡ s + trb_type_code t * 2 ^ 10
with_type s t e low =
    omega (arith, code-lt t, or_below 16 (type_field t) e low (omega (arith, code-lt t)))

with_flag :
    {a : ℕ} (s : ℕ) (f : Bool) → a ≡ s → s % 2 ^ 10 ≡ 0 → a ||| bit f <<< 9 ≡ s + bit f * 2 ^ 9
with_flag s f e low =
    omega (arith, bit-lt f, or_below 10 (bit f <<< 9) e low (omega (arith, bit-lt f)))

pub with_cycle : {a : ℕ} (s : ℕ) (c : Bool) → a ≡ s → s % 2 ≡ 0 → a ||| bit c ≡ s + bit c
with_cycle s c e low = or_below 1 (bit c) e low (omega (arith, bit-lt c))

module _ (slot ep : ℕ) (t : TrbType) (f c : Bool) (hs : slot < 256) (he : ep < 32) where
  slot_ep : slot <<< 24 ||| ep <<< 16 ≡ slot * 2 ^ 24 + ep * 2 ^ 16
  slot_ep =
      omega (arith, or_below 24 (ep <<< 16) {a = slot <<< 24} refl (omega arith) (omega arith))

  slot_word :
      slot <<< 24 ||| type_field t ||| bit c ≡ slot * 2 ^ 24 + trb_type_code t * 2 ^ 10 + bit c
  slot_word =
      with_cycle _ c (with_type {a = slot <<< 24} (slot * 2 ^ 24) t (omega arith) (omega arith))
        (omega arith)

  slot_flag_word :
      slot <<< 24 ||| type_field t ||| bit f <<< 9 ||| bit c
      ≡ slot * 2 ^ 24 + trb_type_code t * 2 ^ 10 + bit f * 2 ^ 9 + bit c
  slot_flag_word =
      with_cycle _ c
        (with_flag _ f (with_type {a = slot <<< 24} (slot * 2 ^ 24) t (omega arith) (omega arith))
          (omega arith))
        (omega arith)

  endpoint_word :
      slot <<< 24 ||| ep <<< 16 ||| type_field t ||| bit c
      ≡ slot * 2 ^ 24 + ep * 2 ^ 16 + trb_type_code t * 2 ^ 10 + bit c
  endpoint_word = with_cycle _ c (with_type _ t slot_ep (omega arith)) (omega arith)

  endpoint_flag_word :
      slot <<< 24 ||| ep <<< 16 ||| type_field t ||| bit f <<< 9 ||| bit c
      ≡ slot * 2 ^ 24 + ep * 2 ^ 16 + trb_type_code t * 2 ^ 10 + bit f * 2 ^ 9 + bit c
  endpoint_flag_word =
      with_cycle _ c (with_flag _ f (with_type _ t slot_ep (omega arith)) (omega arith))
        (omega arith)

  suspend_word :
      slot <<< 24 ||| bit f <<< 23 ||| ep <<< 16 ||| type_field t ||| bit c
      ≡ slot * 2 ^ 24 + bit f * 2 ^ 23 + ep * 2 ^ 16 + trb_type_code t * 2 ^ 10 + bit c
  suspend_word =
      with_cycle _ c (with_type _ t (omega (arith, bit-lt f, two)) (omega arith)) (omega arith)
    where
      one : slot <<< 24 ||| bit f <<< 23 ≡ slot * 2 ^ 24 + bit f * 2 ^ 23
      one = omega (
        arith,
        bit-lt f,
        or_below 24 (bit f <<< 23) {a = slot <<< 24} refl (omega arith) (omega (arith, bit-lt f)),
      )

      two :
          slot <<< 24 ||| bit f <<< 23 ||| ep <<< 16 ≡ slot * 2 ^ 24 + bit f * 2 ^ 23 + ep * 2 ^ 16
      two = omega (arith, or_below 23 (ep <<< 16) one (omega arith) (omega arith))

-- A mask that keeps a value is an assertion that passes.
pub five_bits_ok : (n : ℕ) → n < 32 → (bit_and n 0x1f == n) ≡ true
five_bits_ok n h = (==_iff _ _).1 (omega (arith, and_mask 5 n))

aligned_ok : (p : ℕ) → p < 2 ^ 64 → p % 16 ≡ 0 → (bit_and p 0xffff_ffff_ffff_fff0 == p) ≡ true
aligned_ok p h e =
    (==_iff _ _).1 (omega (arith, and_shifted 4 p (2 ^ 60 - 1), and_mask 60 (p / 2 ^ 4)))

-- A command that the driver builds: no assertion fails, and the fields read back.
abbrev pub Builds : Outcome Trb → TrbType → ℕ → ℕ → ℕ → Bool → Type 0
Builds o t slot ep payload c =
    (trb : Trb) × (o ≡ ok trb) × Fields trb t slot ep payload c × (is_command_trb trb ≡ true)

-- `o` builds a block whose control word `w` is the sum of its fields.
Builds-of :
    (o : Outcome Trb) (p s w slot f ep m : ℕ) (t : TrbType) (c : Bool)
    → contains valid_trb_types (trb_type_code t) ≡ true
    → p < 2 ^ 64
    → slot < 256
    → f < 2
    → ep < 32
    → m < 512
    → o ≡ ok (set_trb p s w)
    → w ≡ slot * 2 ^ 24 + f * 2 ^ 23 + ep * 2 ^ 16 + trb_type_code t * 2 ^ 10 + m * 2 + bit c
    → Builds o t slot ep p c
unfolding is_command_trb
Builds-of o p s w slot f ep m t c valid hp hs hf he hm built e =
    let fields = Fields-of p s w slot f ep m t c hp hs hf he hm e in
    (set_trb p s w, built, fields, rw fields.type_is valid)

-- The shapes of the source's control words.
module _ (o : Outcome Trb) (slot ep p s : ℕ) (t : TrbType) (f c : Bool)
    (valid : contains valid_trb_types (trb_type_code t) ≡ true) (hs : slot < 256) (he : ep < 32)
    (hp : p < 2 ^ 64) where
  slot_Builds :
      o ≡ ok (set_trb p s (slot <<< 24 ||| type_field t ||| bit c)) → Builds o t slot 0 p c
  slot_Builds built =
      Builds-of o p s _ slot 0 0 0 t c valid hp hs (omega arith) (omega arith) (omega arith) built
        (omega (arith, slot_word slot ep t f c hs he))

  slot_flag_Builds :
      o ≡ ok (set_trb p s (slot <<< 24 ||| type_field t ||| bit f <<< 9 ||| bit c))
      → Builds o t slot 0 p c
  slot_flag_Builds built =
      Builds-of o p s _ slot 0 0 (bit f * 2 ^ 8) t c valid hp hs (omega arith) (omega arith)
        (omega (arith, bit-lt f)) built (omega (arith, slot_flag_word slot ep t f c hs he))

  endpoint_Builds :
      o ≡ ok (set_trb p s (slot <<< 24 ||| ep <<< 16 ||| type_field t ||| bit c))
      → Builds o t slot ep p c
  endpoint_Builds built =
      Builds-of o p s _ slot 0 ep 0 t c valid hp hs (omega arith) he (omega arith) built
        (omega (arith, endpoint_word slot ep t f c hs he))

  endpoint_flag_Builds :
      o ≡ ok (set_trb p s (slot <<< 24 ||| ep <<< 16 ||| type_field t ||| bit f <<< 9 ||| bit c))
      → Builds o t slot ep p c
  endpoint_flag_Builds built =
      Builds-of o p s _ slot 0 ep (bit f * 2 ^ 8) t c valid hp hs (omega arith) he
        (omega (arith, bit-lt f)) built (omega (arith, endpoint_flag_word slot ep t f c hs he))

  suspend_Builds :
      o ≡ ok (set_trb p s (slot <<< 24 ||| bit f <<< 23 ||| ep <<< 16 ||| type_field t ||| bit c))
      → Builds o t slot ep p c
  suspend_Builds built =
      Builds-of o p s _ slot (bit f) ep 0 t c valid hp hs (bit-lt f) he (omega arith) built
        (omega (arith, suspend_word slot ep t f c hs he))

module _ (deque sct : ℕ) (hd : deque < 2 ^ 64) (low : deque % 16 < 2) (hc : sct < 8) where
  deque_ok : (bit_and deque 0xffff_ffff_ffff_fff1 == deque) ≡ true
  deque_ok = (==_iff _ _).1 (
      omega (
        arith,
        and_low deque 0xffff_ffff_ffff_fff1,
        and_shifted 3 (deque / 2) (2 ^ 60 - 1),
        and_mask 60 (deque / 2 / 2 ^ 3),
      ))

  or-deque : bit_or deque (sct * 2) ≡ deque + sct * 2
  or-deque = omega (
    arith,
    or_low deque (sct * 2),
    or_sum 3 (deque / 2) (sct * 2 / 2) (omega arith) (omega arith),
  )

enable_word :
    (slot : ℕ) (c : Bool)
    → bit_and slot 0x1f <<< 16 ||| type_field TrbType.enable_slot ||| bit c
      ≡ slot % 32 * 2 ^ 16 + 9 * 2 ^ 10 + bit c
enable_word slot c =
    with_cycle _ c
      (with_type (slot % 32 * 2 ^ 16) TrbType.enable_slot (omega (arith, and_mask 5 slot))
        (omega arith))
      (omega arith)

-- Every command builder, called within its ranges, passes its assertions and writes a command
-- block in which the controller reads the builder's type, slot, endpoint, payload and cycle bit.
-- `enable_slot` puts the slot type, cut to five bits, in the endpoint's place. The input context
-- is aligned to 16 bytes, and the dequeue pointer has no bit set but bit 0 below its bit 4.
pub commands-Builds :
    (slot ep ptr deque sct stream : ℕ) (f c : Bool)
    → slot < 256
    → ep < 32
    → ptr < 2 ^ 64
    → ptr % 16 ≡ 0
    → deque < 2 ^ 64
    → deque % 16 < 2
    → sct < 8
    → Builds (ok (no_op_cmd c)) TrbType.no_op_cmd 0 0 0 c
      × Builds (ok (enable_slot slot c)) TrbType.enable_slot 0 (slot % 32) 0 c
      × Builds (ok (disable_slot slot c)) TrbType.disable_slot slot 0 0 c
      × Builds (address_device slot ptr f c) TrbType.address_device slot 0 ptr c
      × Builds (configure_endpoint slot ptr c) TrbType.configure_endpoint slot 0 ptr c
      × Builds (evaluate_context slot ptr f c) TrbType.evaluate_context slot 0 ptr c
      × Builds (reset_endpoint slot ep f c) TrbType.reset_endpoint slot ep 0 c
      × Builds
          (set_tr_deque_ptr deque c sct stream ep slot)
          TrbType.set_tr_dequeue_pointer
          slot
          ep
          (deque + sct * 2)
          c
      × Builds (stop_endpoint slot ep f c) TrbType.stop_endpoint slot ep 0 c
      × Builds (ok (reset_device slot c)) TrbType.reset_device slot 0 0 c
unfolding no_op_cmd enable_slot disable_slot address_device configure_endpoint evaluate_context
    reset_endpoint set_tr_deque_ptr stop_endpoint reset_device contains
commands-Builds slot ep ptr deque sct stream f c hs he hp low hd dlow hc = (
  Builds-of _ 0 0 _ 0 0 0 0 _ c refl (omega arith) (omega arith) (omega arith) (omega arith)
      (omega arith) refl
      (with_cycle {a = type_field TrbType.no_op_cmd} (23 * 2 ^ 10) c refl (omega arith)),
  Builds-of _ 0 0 _ 0 0 (slot % 32) 0 _ c refl (omega arith) (omega arith) (omega arith)
      (omega arith) (omega arith) refl (omega (arith, enable_word slot c)),
  slot_Builds _ slot 0 0 0 _ f c refl hs (omega arith) (omega arith) refl,
  slot_flag_Builds _ slot 0 ptr 0 _ f c refl hs (omega arith) hp (rw (aligned_ok ptr hp low)),
  slot_Builds _ slot 0 ptr 0 _ f c refl hs (omega arith) hp (rw (aligned_ok ptr hp low)),
  slot_flag_Builds _ slot 0 ptr 0 _ f c refl hs (omega arith) hp (rw (aligned_ok ptr hp low)),
  endpoint_flag_Builds _ slot ep 0 0 _ f c refl hs he (omega arith) (rw (five_bits_ok ep he)),
  endpoint_Builds _ slot ep (deque + sct * 2) (stream <<< 16) _ f c refl hs he (omega arith)
      (rw (deque_ok deque sct hd dlow hc, five_bits_ok ep he, or-deque deque sct hd dlow hc)),
  suspend_Builds _ slot ep 0 0 _ f c refl hs he (omega arith) (rw (five_bits_ok ep he)),
  slot_Builds _ slot 0 0 0 _ f c refl hs (omega arith) (omega arith) refl,
)
