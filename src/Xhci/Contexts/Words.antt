-- ===== src/Xhci/Contexts/Words.antt =====
-- The words of an endpoint's context, read by the places of their fields.
use drivers.Base.{ℕ, ◌+◌, ◌*◌, ◌/◌, ◌%◌, ◌^◌, ◌<◌, ◌≡◌, refl, bit, bit_and, Bool, not, ◌==◌, arith}
use drivers.Base.Bits.{or_above, field_at}
use drivers.Xhci.Trb.{◌<<<◌}
use drivers.Xhci.Contexts.{EndpointFields, endpoint_context}

-- Each field fits its place.
pub record Fits (f : EndpointFields) : Type 0 where
  pub mult : f.mult < 4
  pub streams : f.streams < 32
  pub interval : f.interval < 256
  pub max_esit_payload : f.max_esit_payload < 2 ^ 24
  pub ep_ty : f.ep_ty < 8
  pub max_burst_size : f.max_burst_size < 256
  pub max_packet_size : f.max_packet_size < 2 ^ 16
  pub trb_len : f.trb_len < 2 ^ 16

bit-lt : (b : Bool) → bit b < 2
bit-lt b = ground arith

first_word :
    (f : EndpointFields) (ring_ptr : ℕ)
    → Fits f
    → (endpoint_context f ring_ptr).a
      ≡ f.mult * 2 ^ 8
        + f.streams * 2 ^ 10
        + bit (not (f.streams == 0)) * 2 ^ 15
        + f.interval * 2 ^ 16
        + f.max_esit_payload / 2 ^ 16 * 2 ^ 24
unfolding endpoint_context
first_word f ring_ptr h =
    let hi = field_at 8 16 f.max_esit_payload in
    let linear = bit-lt (not (f.streams == 0)) in
    let e0 : f.mult <<< 8 ≡ f.mult * 2 ^ 8 = omega (arith, h.mult) in
    let e1 = or_above 10 (f.streams <<< 10) e0 (omega (arith, h.mult)) (omega arith) in
    let e2 =
      or_above 15 (bit (not (f.streams == 0)) <<< 15) e1 (omega (arith, h.mult, h.streams))
        (omega arith) in
    let e3 =
      or_above 16 (f.interval <<< 16) e2 (omega (arith, h.mult, h.streams, linear)) (omega arith) in
    let e4 =
      or_above 24 ((bit_and f.max_esit_payload 0x00ff_0000 / 2 ^ 16) <<< 24) e3
        (omega (arith, h.mult, h.streams, h.interval, linear)) (omega arith) in
    omega (arith, e4, hi, h.mult, h.streams, h.interval, h.max_esit_payload, linear)

second_word :
    (f : EndpointFields) (ring_ptr : ℕ)
    → Fits f
    → (endpoint_context f ring_ptr).b
      ≡ 6 + f.ep_ty * 2 ^ 3 + f.max_burst_size * 2 ^ 8 + f.max_packet_size * 2 ^ 16
unfolding endpoint_context
second_word f ring_ptr h =
    let e1 = or_above 3 (f.ep_ty <<< 3) {a = 3 <<< 1} {s = 6} refl (omega arith) (omega arith) in
    let e2 = or_above 7 (0 <<< 7) e1 (omega (arith, h.ep_ty)) refl in
    let e3 = or_above 8 (f.max_burst_size <<< 8) e2 (omega (arith, h.ep_ty)) (omega arith) in
    let e4 =
      or_above 16 (f.max_packet_size <<< 16) e3 (omega (arith, h.ep_ty, h.max_burst_size))
        (omega arith) in
    omega (arith, e4, h.ep_ty, h.max_burst_size, h.max_packet_size)

third_word :
    (f : EndpointFields) (ring_ptr : ℕ)
    → Fits f
    → (endpoint_context f ring_ptr).c ≡ f.trb_len + f.max_esit_payload % 2 ^ 16 * 2 ^ 16
unfolding endpoint_context
third_word f ring_ptr h =
    let e : f.trb_len ≡ f.trb_len = refl in
    let e1 = or_above 16 ((f.max_esit_payload % 2 ^ 16) <<< 16) e h.trb_len (omega arith) in
    omega (arith, e1)

-- What the controller reads in the context of an endpoint, by the places of its fields
abbrev pub Reads : EndpointFields → (ring_ptr : ℕ) → Type 0
Reads f ring_ptr =
    let w = endpoint_context f ring_ptr in
    (w.a / 2 ^ 8 % 2 ^ 2 ≡ f.mult)
    × (w.a / 2 ^ 10 % 2 ^ 5 ≡ f.streams)
    × (w.a / 2 ^ 15 % 2 ≡ bit (not (f.streams == 0)))
    × (w.a / 2 ^ 16 % 2 ^ 8 ≡ f.interval)
    × (w.a / 2 ^ 24 * 2 ^ 16 + w.c / 2 ^ 16 ≡ f.max_esit_payload)
    × (w.c % 2 ^ 16 ≡ f.trb_len)
    × (w.b / 2 % 2 ^ 2 ≡ 3)
    × (w.b / 2 ^ 3 % 2 ^ 3 ≡ f.ep_ty)
    × (w.b / 2 ^ 8 % 2 ^ 8 ≡ f.max_burst_size)
    × (w.b / 2 ^ 16 ≡ f.max_packet_size)
    × (w.trh * 2 ^ 32 + w.trl ≡ ring_ptr)

pub endpoint_context-decodes :
    (f : EndpointFields) (ring_ptr : ℕ) → Fits f → ring_ptr < 2 ^ 64 → Reads f ring_ptr
endpoint_context-decodes f ring_ptr h small =
    let a = first_word f ring_ptr h in
    let b = second_word f ring_ptr h in
    let c = third_word f ring_ptr h in
    let linear = bit-lt (not (f.streams == 0)) in
    (
      omega (arith, a, h.mult, h.streams, linear),
      omega (arith, a, h.mult, h.streams, linear),
      omega (arith, a, h.mult, h.streams, linear),
      omega (arith, a, h.mult, h.streams, h.interval, linear),
      omega (arith, a, c, h.mult, h.streams, h.interval, linear, h.trb_len),
      omega (arith, c, h.trb_len),
      omega (arith, b),
      omega (arith, b, h.ep_ty),
      omega (arith, b, h.ep_ty, h.max_burst_size),
      omega (arith, b, h.ep_ty, h.max_burst_size),
      unfold endpoint_context in omega arith,
    )
