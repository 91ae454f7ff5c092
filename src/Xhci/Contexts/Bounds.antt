-- ===== src/Xhci/Contexts/Bounds.antt =====
-- What is computed for an endpoint fits its places in the context.
use drivers.Base.{ℕ, ◌+◌, ◌^◌, ◌<◌, ◌≡◌, refl, bit_and, Bool, not, Option, none, some, ◌==◌, arith}
use drivers.Base.Bits.{and_mask, and_shifted}
use drivers.Base.Outcome.{Outcome, ok, err, panicked, assert, ◌>>=◌}
use drivers.Xhci.Ports.{SuperSpeedCmp, SuperSpeedPlusIsochCmp, EndpDesc, DevDesc}
use drivers.Xhci.Contexts.{
  ProtocolSpeed, EndpointFields, endpoint_fields, log_max_streams, primary_streams, isoch_mult,
  endp_ctx_max_packet_size, endp_ctx_max_burst, endp_ctx_max_esit_payload, endp_ctx_interval,
  xhci_ep_type, avg_trb_len, max_burst,
}
use drivers.Xhci.Contexts.Words.{Fits, Reads, endpoint_context-decodes}
use native.Mathlib.Nat.{mul-le-mul}

-- The fields of the companions, 0 without one
abbrev pub attributes_of : Option SuperSpeedCmp → ℕ
attributes_of none = 0
attributes_of (some c) = c.attributes

abbrev pub bytes_of : Option SuperSpeedCmp → ℕ
bytes_of none = 0
bytes_of (some c) = c.bytes_per_interval

abbrev pub plus_bytes_of : Option SuperSpeedPlusIsochCmp → ℕ
plus_bytes_of none = 0
plus_bytes_of (some c) = c.bytes_per_interval

-- Their sizes; of the payload of the second one a context has 24 bits.
pub record IsSized (d : EndpDesc) : Type 0 where
  pub max_burst : max_burst d < 2 ^ 8
  pub bytes : bytes_of d.ssc < 2 ^ 16
  pub plus_bytes : plus_bytes_of d.sspc < 2 ^ 24

isoch_mult-lt : (d : EndpDesc) (lec : Bool) → isoch_mult d lec < 4
unfolding isoch_mult
isoch_mult-lt d lec = ground (arith, and_mask 2 (attributes_of d.ssc))

streams-lt : (d : EndpDesc) (psa : ℕ) → primary_streams (log_max_streams d) psa < 32
unfolding primary_streams log_max_streams
streams-lt d psa = ground (arith, and_mask 5 (attributes_of d.ssc))

interval-lt : (s : ProtocolSpeed) (d : EndpDesc) → endp_ctx_interval s d < 256
unfolding endp_ctx_interval
interval-lt s d = ground arith

packet-lt : (d : EndpDesc) → endp_ctx_max_packet_size d < 2048
unfolding endp_ctx_max_packet_size
packet-lt d = omega (arith, and_mask 11 d.max_packet_size)

ep_type-lt : (d : EndpDesc) (e : ℕ) → xhci_ep_type d ≡ ok e → e < 8
unfolding xhci_ep_type
ep_type-lt d e h = ground arith

trb_len-lt : (d : EndpDesc) (n : ℕ) → avg_trb_len d ≡ ok n → n < 2 ^ 16
unfolding avg_trb_len
trb_len-lt d n h = ground arith

burst-lt :
    (s : ProtocolSpeed) (dev : DevDesc) (d : EndpDesc) (n : ℕ)
    → IsSized d
    → endp_ctx_max_burst s dev d ≡ ok n
    → n < 256
unfolding endp_ctx_max_burst max_burst
burst-lt s dev d n sized h = ground (arith, sized.max_burst, and_shifted 11 d.max_packet_size 1)

payload-lt :
    (s : ProtocolSpeed) (dev : DevDesc) (d : EndpDesc) (packet burst n : ℕ)
    → IsSized d
    → packet < 2048
    → burst < 256
    → endp_ctx_max_esit_payload s dev d packet burst ≡ ok n
    → n < 2 ^ 24
unfolding endp_ctx_max_esit_payload
payload-lt s dev d packet burst n sized p b h =
    let product =
      mul-le-mul {n₁ = packet} {m₁ = burst + 1} {n₂ = 2047} {m₂ = 256} (omega arith)
        (omega arith) in
    ground (arith, product, sized.bytes, sized.plus_bytes)

-- Where a value comes from that ends a chain of calls
bind-ok :
    {A B : Type 0} (o : Outcome A) (f : A → Outcome B) (b : B)
    → (o >>= f) ≡ ok b
    → (a : A) × (o ≡ ok a) × (f a ≡ ok b)
bind-ok (ok a) f b h = (a, refl, h)
bind-ok (err e) f b h = cc
bind-ok panicked f b h = cc

-- What is computed for an endpoint fits its places, when the fields of its companions have their sizes.
endpoint_fields-Fits :
    (s : ProtocolSpeed) (dev : DevDesc) (d : EndpDesc) (lec : Bool) (psa : ℕ) (f : EndpointFields)
    → IsSized d
    → endpoint_fields s dev d lec psa ≡ ok f
    → Fits f
unfolding endpoint_fields
endpoint_fields-Fits s dev d lec psa f sized h =
    let (burst, eb, h1) = bind-ok (endp_ctx_max_burst s dev d) _ f h in
    let (payload, ep, h2) =
      bind-ok (endp_ctx_max_esit_payload s dev d (endp_ctx_max_packet_size d) burst) _ f h1 in
    let (ep_ty, et, h3) = bind-ok (xhci_ep_type d) _ f h2 in
    let (trb_len, el, h4) = bind-ok (avg_trb_len d) _ f h3 in
    let (_, e5, h5) = bind-ok (assert (bit_and ep_ty 0x7 == ep_ty)) _ f h4 in
    let (_, e6, h6) =
      bind-ok (assert (bit_and (isoch_mult d lec) 0x3 == isoch_mult d lec)) _ f h5 in
    let (_, e7, h7) = bind-ok (assert (not (ep_ty == 0))) _ f h6 in
    let nb = burst-lt s dev d burst sized eb in
    record {
      mult = ground (arith, h7, isoch_mult-lt d lec);
      streams = ground (arith, h7, streams-lt d psa);
      interval = ground (arith, h7, interval-lt s d);
      max_esit_payload = ground (
        arith,
        h7,
        payload-lt s dev d (endp_ctx_max_packet_size d) burst payload sized (packet-lt d) nb ep,
      );
      ep_ty = ground (arith, h7, ep_type-lt d ep_ty et);
      max_burst_size = ground (arith, h7, nb);
      max_packet_size = ground (arith, h7, packet-lt d);
      trb_len = ground (arith, h7, trb_len-lt d trb_len el);
    }

-- The context of an endpoint reads back, by the places of its fields, as what was computed for it: the
-- fields one by one, the payload put together from its two parts, an error count of 3, and the address
-- of the ring from its halves. No field spills into another, for every descriptor for which the
-- computation does not fail and whose companions' fields have their sizes, a payload below 2 ^ 24.
pub endpoint_context-Reads :
    (s : ProtocolSpeed) (dev : DevDesc) (d : EndpDesc) (lec : Bool) (psa : ℕ) (f : EndpointFields)
    → (ring_ptr : ℕ) → IsSized d
    → endpoint_fields s dev d lec psa ≡ ok f
    → ring_ptr < 2 ^ 64
    → Reads f ring_ptr
endpoint_context-Reads s dev d lec psa f ring_ptr sized h small =
    endpoint_context-decodes f ring_ptr (endpoint_fields-Fits s dev d lec psa f sized h) small
