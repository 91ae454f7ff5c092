-- ===== src/Xhci/Trb/Transfers.antt =====
-- The link block and the blocks of transfers.
use drivers.Base.{ℕ, ◌+◌, ◌*◌, ◌%◌, ◌^◌, ◌<◌, ◌≡◌, refl, ◌∙◌, Bool, bit, arith}
use drivers.Base.Bits.{or_below, or_above}
use drivers.Base.Outcome.{ok}
use drivers.Xhci.Setup.{Setup, to_u64}
use drivers.Xhci.TrbType.{TrbType, trb_type_code}
use drivers.Xhci.Trb.{
  Trb, TransferKind, no_data, reserved_kind, out, in_, transfer_kind_code, ◌<<<◌, ◌|||◌, set_trb,
  trb_type, trb_cycle, read_data,
}
use drivers.Xhci.Trb.Build.{
  type_field, NormalFlags, link, transfer_no_op, setup, data_trb, status_trb, normal,
}
use drivers.Xhci.Trb.Fields.{Fields-of, bit-lt, code-lt}
use drivers.Xhci.Trb.Commands.{five_bits_ok, with_cycle}

-- What the controller reads of a transfer block: type, cycle bit, payload, status word.
pub record Transfer (trb : Trb) (t : TrbType) (payload status : ℕ) (c : Bool) : Type 0 where
  pub type_is : trb_type trb ≡ trb_type_code t
  pub cycle_is : trb_cycle trb ≡ c
  pub payload_is : read_data trb ≡ payload
  pub status_is : trb.status ≡ status

-- A control word is its cycle bit, `m` in bits 1 to 9, the type, and `h` from bit 16 on.
Transfer-of :
    (p s w h m : ℕ) {status : ℕ} (t : TrbType) (c : Bool)
    → s ≡ status
    → p < 2 ^ 64
    → h < 32
    → m < 512
    → w ≡ h * 2 ^ 16 + trb_type_code t * 2 ^ 10 + m * 2 + bit c
    → Transfer (set_trb p s w) t p status c
unfolding set_trb
Transfer-of p s w h m t c st hp hh hm e =
    let f = Fields-of p s w 0 0 h m t c hp (omega arith) (omega arith) hh hm (omega arith) in
    record { type_is = f.type_is; cycle_is = f.cycle_is; payload_is = f.payload_is; status_is = st }

-- The flags that a no-op and a status stage share.
stage_flags :
    {a : ℕ} (s : ℕ) (ioc ch ent c : Bool)
    → a ≡ s
    → s % 2 ^ 10 ≡ 0
    → a ||| bit ioc <<< 5 ||| bit ch <<< 4 ||| bit ent <<< 1 ||| bit c
      ≡ s + bit ioc * 32 + bit ch * 16 + bit ent * 2 + bit c
stage_flags {a} s ioc ch ent c e low = omega (
  arith,
  bit-lt ioc,
  bit-lt ch,
  bit-lt ent,
  or_below 1 (bit c) three (omega (arith, bit-lt ent)) (bit-lt c),
)
  where
    one : a ||| bit ioc <<< 5 ≡ s + bit ioc * 32
    one =
        omega (
          arith,
          bit-lt ioc,
          or_below 6 (bit ioc <<< 5) e (omega arith) (omega (arith, bit-lt ioc)),
        )

    two : a ||| bit ioc <<< 5 ||| bit ch <<< 4 ≡ s + bit ioc * 32 + bit ch * 16
    two =
        omega
          (arith, bit-lt ch, or_below 5 (bit ch <<< 4) one (omega arith) (omega (arith, bit-lt ch)))

    three :
        a ||| bit ioc <<< 5 ||| bit ch <<< 4 ||| bit ent <<< 1
        ≡ s + bit ioc * 32 + bit ch * 16 + bit ent * 2
    three = omega (
      arith,
      bit-lt ent,
      or_below 2 (bit ent <<< 1) two (omega arith) (omega (arith, bit-lt ent)),
    )

upper_type :
    (h : ℕ) (t : TrbType)
    → h < 2 ^ 16
    → h <<< 16 ||| type_field t ≡ h * 2 ^ 16 + trb_type_code t * 2 ^ 10
upper_type h t hh = omega (
  arith,
  code-lt t,
  or_below 16 (type_field t) {a = h <<< 16} refl (omega arith) (omega (arith, code-lt t)),
)

link_word :
    (toggle c : Bool)
    → type_field TrbType.link ||| bit toggle <<< 1 ||| bit c ≡ 6 * 2 ^ 10 + bit toggle * 2 + bit c
link_word toggle c = omega (arith, or_below 1 (bit c) one (omega arith) (bit-lt c))
  where
    one : type_field TrbType.link ||| bit toggle <<< 1 ≡ 6 * 2 ^ 10 + bit toggle * 2
    one = omega (
      arith,
      bit-lt toggle,
      or_below 10 (bit toggle <<< 1) {a = type_field TrbType.link} refl (omega arith)
          (omega (arith, bit-lt toggle)),
    )

setup_word :
    (h : ℕ) (c : Bool)
    → h < 4
    → h <<< 16 ||| type_field TrbType.setup_stage ||| 0x40 ||| bit c
      ≡ h * 2 ^ 16 + 2 * 2 ^ 10 + 0x40 + bit c
setup_word h c hh =
    or_below 6 (bit c)
      (or_below 10 0x40 (upper_type h TrbType.setup_stage (omega arith)) (omega arith)
        (omega arith))
      (omega arith) (omega (arith, bit-lt c))

kind-lt : (k : TransferKind) → transfer_kind_code k < 4
kind-lt no_data = omega arith
kind-lt reserved_kind = omega arith
kind-lt out = omega arith
kind-lt in_ = omega arith

-- The flags of a normal block, from the cycle bit up.
module _ (c : Bool) (f : NormalFlags) where
  abbrev pub normal_flags : ℕ
  normal_flags =
      bit f.ent
      + bit f.isp * 2
      + bit f.chain * 8
      + bit f.ioc * 16
      + bit f.idt * 32
      + bit f.bei * 256

  above_ent : bit c ||| bit f.ent <<< 1 ≡ bit c + bit f.ent * 2
  above_ent = omega (
    arith,
    bit-lt c,
    bit-lt f.ent,
    or_above 1 (bit f.ent <<< 1) {a = bit c} {s = bit c} refl (omega (arith, bit-lt c))
        (omega (arith, bit-lt f.ent)),
  )

  above_isp : bit c ||| bit f.ent <<< 1 ||| bit f.isp <<< 2 ≡ bit c + bit f.ent * 2 + bit f.isp * 4
  above_isp = omega (
    arith,
    bit-lt c,
    bit-lt f.ent,
    bit-lt f.isp,
    or_above 2 (bit f.isp <<< 2) above_ent (omega (arith, bit-lt c, bit-lt f.ent))
        (omega (arith, bit-lt f.isp)),
  )

  above_chain :
      bit c ||| bit f.ent <<< 1 ||| bit f.isp <<< 2 ||| bit f.chain <<< 4
      ≡ bit c + bit f.ent * 2 + bit f.isp * 4 + bit f.chain * 16
  above_chain = omega (
    arith,
    bit-lt c,
    bit-lt f.ent,
    bit-lt f.isp,
    bit-lt f.chain,
    or_above 4 (bit f.chain <<< 4) above_isp (omega (arith, bit-lt c, bit-lt f.ent, bit-lt f.isp))
        (omega (arith, bit-lt f.chain)),
  )

  above_ioc :
      bit c ||| bit f.ent <<< 1 ||| bit f.isp <<< 2 ||| bit f.chain <<< 4 ||| bit f.ioc <<< 5
      ≡ bit c + bit f.ent * 2 + bit f.isp * 4 + bit f.chain * 16 + bit f.ioc * 32
  above_ioc = omega (
    arith,
    bit-lt c,
    bit-lt f.ent,
    bit-lt f.isp,
    bit-lt f.chain,
    bit-lt f.ioc,
    or_above 5 (bit f.ioc <<< 5) above_chain
        (omega (arith, bit-lt c, bit-lt f.ent, bit-lt f.isp, bit-lt f.chain))
        (omega (arith, bit-lt f.ioc)),
  )

  above_idt :
      bit c
        ||| bit f.ent <<< 1
        ||| bit f.isp <<< 2
        ||| bit f.chain <<< 4
        ||| bit f.ioc <<< 5
        ||| bit f.idt <<< 6
      ≡ bit c + bit f.ent * 2 + bit f.isp * 4 + bit f.chain * 16 + bit f.ioc * 32 + bit f.idt * 64
  above_idt = omega (
    arith,
    bit-lt c,
    bit-lt f.ent,
    bit-lt f.isp,
    bit-lt f.chain,
    bit-lt f.ioc,
    bit-lt f.idt,
    or_above 6 (bit f.idt <<< 6) above_ioc
        (omega (arith, bit-lt c, bit-lt f.ent, bit-lt f.isp, bit-lt f.chain, bit-lt f.ioc))
        (omega (arith, bit-lt f.idt)),
  )

  above_bei :
      bit c
        ||| bit f.ent <<< 1
        ||| bit f.isp <<< 2
        ||| bit f.chain <<< 4
        ||| bit f.ioc <<< 5
        ||| bit f.idt <<< 6
        ||| bit f.bei <<< 9
      ≡ bit c
        + bit f.ent * 2
        + bit f.isp * 4
        + bit f.chain * 16
        + bit f.ioc * 32
        + bit f.idt * 64
        + bit f.bei * 512
  above_bei = omega (
    arith,
    bit-lt c,
    bit-lt f.ent,
    bit-lt f.isp,
    bit-lt f.chain,
    bit-lt f.ioc,
    bit-lt f.idt,
    bit-lt f.bei,
    or_above 9 (bit f.bei <<< 9) above_idt
        (omega
          (arith, bit-lt c, bit-lt f.ent, bit-lt f.isp, bit-lt f.chain, bit-lt f.ioc, bit-lt f.idt))
        (omega (arith, bit-lt f.bei)),
  )

  normal_word :
      bit c
        ||| bit f.ent <<< 1
        ||| bit f.isp <<< 2
        ||| bit f.chain <<< 4
        ||| bit f.ioc <<< 5
        ||| bit f.idt <<< 6
        ||| bit f.bei <<< 9
        ||| type_field TrbType.normal
      ≡ normal_flags * 2 + 2 ^ 10 + bit c
  normal_word = omega (
    arith,
    or_above 10 (type_field TrbType.normal) above_bei
        (omega (
          arith,
          bit-lt c,
          bit-lt f.ent,
          bit-lt f.isp,
          bit-lt f.chain,
          bit-lt f.ioc,
          bit-lt f.idt,
          bit-lt f.bei,
        ))
        (omega arith),
  )

  normal_flags-lt : normal_flags < 512
  normal_flags-lt = omega (
    arith,
    bit-lt c,
    bit-lt f.ent,
    bit-lt f.isp,
    bit-lt f.chain,
    bit-lt f.ioc,
    bit-lt f.idt,
    bit-lt f.bei,
  )

normal_status :
    (len td interrupter : ℕ)
    → len < 2 ^ 17
    → td < 32
    → interrupter < 256
    → len ||| td <<< 17 ||| interrupter <<< 22 ≡ len + td * 2 ^ 17 + interrupter * 2 ^ 22
normal_status len td interrupter hl ht hi =
    omega (arith, or_above 22 (interrupter <<< 22) one (omega arith) (omega arith))
  where
    one : len ||| td <<< 17 ≡ len + td * 2 ^ 17
    one = omega (arith, or_above 17 (td <<< 17) {a = len} {s = len} refl hl (omega arith))

-- A setup packet in range fits its 64 bits.
unfoldable pub IsPacket : Setup → Type 0
IsPacket p =
    (p.kind < 2 ^ 8)
    × (p.request < 2 ^ 8)
    × (p.value < 2 ^ 16)
    × (p.index < 2 ^ 16)
    × (p.length < 2 ^ 16)

-- The blocks that the driver puts on a transfer ring, and the link block of a ring: in each the
-- controller reads the builder's type, payload, status word and cycle bit, and `normal` passes its
-- assertion. The interrupter is below 2^8 and the length below 2^16,
-- so that nothing is shifted out and no two fields overlap.
pub transfers_lem :
    (ptr len td interrupter : ℕ) (p : Setup) (k : TransferKind) (x ioc ch ent c : Bool)
    (f : NormalFlags)
    → ptr < 2 ^ 64
    → len < 2 ^ 16
    → td < 32
    → interrupter < 256
    → IsPacket p
    → Transfer (link ptr x c) TrbType.link ptr 0 c
      × Transfer (transfer_no_op interrupter ent ch ioc c) TrbType.no_op 0 (interrupter * 2 ^ 22) c
      × Transfer (setup p k c) TrbType.setup_stage (to_u64 p) 8 c
      × Transfer (data_trb ptr len x c) TrbType.data_stage ptr len c
      × Transfer
          (status_trb interrupter x ioc ch ent c)
          TrbType.status_stage
          0
          (interrupter * 2 ^ 22)
          c
      × ((trb : Trb) × (normal ptr len c td interrupter f ≡ ok trb)
          × Transfer trb TrbType.normal ptr (len + td * 2 ^ 17 + interrupter * 2 ^ 22) c)
unfolding link transfer_no_op setup data_trb status_trb normal to_u64 IsPacket
transfers_lem ptr len td interrupter p k x ioc ch ent c f hp hl ht hi hk = (
  Transfer-of ptr 0 _ 0 (bit x) TrbType.link c refl hp (omega arith) (omega (arith, bit-lt x))
      (omega (arith, link_word x c)),
  Transfer-of 0 (interrupter <<< 22) _ 0 (bit ioc * 16 + bit ch * 8 + bit ent) TrbType.no_op c
      (omega arith) (omega arith) (omega arith) (omega (arith, bit-lt ioc, bit-lt ch, bit-lt ent))
      (omega (
        arith,
        stage_flags {a = type_field TrbType.no_op} (8 * 2 ^ 10) ioc ch ent c refl (omega arith),
      )),
  Transfer-of (to_u64 p) 8 _ (transfer_kind_code k) 0x20 TrbType.setup_stage c refl (omega arith)
      (omega (arith, kind-lt k)) (omega arith)
      (omega (arith, setup_word (transfer_kind_code k) c (kind-lt k))),
  Transfer-of ptr len _ (bit x) 0 TrbType.data_stage c refl hp (omega (arith, bit-lt x))
      (omega arith)
      (with_cycle _ c (upper_type (bit x) TrbType.data_stage (omega (arith, bit-lt x)))
          (omega arith)
        ∙ omega arith),
  Transfer-of 0 (interrupter <<< 22) _ (bit x) (bit ioc * 16 + bit ch * 8 + bit ent)
      TrbType.status_stage c (omega arith) (omega arith) (omega (arith, bit-lt x))
      (omega (arith, bit-lt ioc, bit-lt ch, bit-lt ent))
      (omega (
        arith,
        stage_flags _ ioc ch ent c
            (upper_type (bit x) TrbType.status_stage (omega (arith, bit-lt x))) (omega arith),
      )),
  (
    _,
    rw (five_bits_ok td ht),
    Transfer-of ptr _ _ 0 (normal_flags c f) TrbType.normal c
        (normal_status len td interrupter (omega arith) ht hi) hp (omega arith)
        (normal_flags-lt c f) (normal_word c f ∙ omega arith),
  ),
)
