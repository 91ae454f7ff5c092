-- ===== src/Xhci/Contexts.antt =====
-- xhcid/src/xhci/scheme.rs: the context that the controller is given for an endpoint; with the other
-- readers of the descriptors in xhcid/src/driver_interface.rs, and those of a port's speed in
-- xhcid/src/xhci/extended.rs.
mod Tests
pub mod Payload
pub mod Words
pub mod Bounds
use drivers.Base.{
  ℕ, ◌+◌, ◌-◌, ◌*◌, ◌/◌, ◌%◌, ◌^◌, min, bit_and, bit_or, bit, Bool, true, false, not, ◌&&◌, ◌||◌,
  Option, none, some, leb, ◌==◌, if◌then◌else◌,
}
use drivers.Base.Outcome.{Outcome, ok, err, panicked, einval, eio, assert, unwrap, ◌>>=◌}
use drivers.Xhci.Trb.{◌<<<◌, ◌|||◌}
use drivers.Xhci.Ports.{
  SuperSpeedCmp, SuperSpeedPlusIsochCmp, EndpDesc, EndpointTy, ctrl, isoch, bulk, interrupt, ty,
  is_isoch, out, in_, bidirectional, direction, DevDesc,
}

-- `ProtocolSpeed`, by its register
pub record ProtocolSpeed : Type 0 where
  pub a : ℕ

abbrev pub psim : ProtocolSpeed → ℕ
psim s = s.a / 2 ^ 16 % 2 ^ 16

abbrev pub psie : ProtocolSpeed → ℕ
psie s = bit_and s.a 0x30 / 2 ^ 4

abbrev pub pfd : ProtocolSpeed → Bool
pfd s = bit_and s.a 0x100 == 0x100

-- Kilobits are the exponent 1, megabits 2.
unfoldable pub is_lowspeed : ProtocolSpeed → Bool
is_lowspeed s = psim s == 1500 && psie s == 1 && not (pfd s)

unfoldable pub is_fullspeed : ProtocolSpeed → Bool
is_fullspeed s = psim s == 12 && psie s == 2 && not (pfd s)

unfoldable pub is_highspeed : ProtocolSpeed → Bool
is_highspeed s = psim s == 480 && psie s == 2 && not (pfd s)

unfoldable pub is_interrupt : EndpDesc → Bool
unfolding ty
is_interrupt d = elim (ty d) [ interrupt ↦ true | _ ↦ false ]

unfoldable pub is_bulk : EndpDesc → Bool
unfolding ty
is_bulk d = elim (ty d) [ bulk ↦ true | _ ↦ false ]

unfoldable pub xhci_ep_type : EndpDesc → Outcome ℕ
unfolding ty direction
xhci_ep_type d = elim (direction d) [
  | out ↦ elim (ty d) [ isoch ↦ ok 1 | bulk ↦ ok 2 | interrupt ↦ ok 3 | ctrl ↦ err einval ]
  | bidirectional ↦ elim (ty d) [ ctrl ↦ ok 4 | _ ↦ err einval ]
  | in_ ↦ elim (ty d) [ isoch ↦ ok 5 | bulk ↦ ok 6 | interrupt ↦ ok 7 | ctrl ↦ err einval ]
]

unfoldable pub is_superspeed : EndpDesc → Bool
is_superspeed d = elim d.ssc [ none ↦ false | some c ↦ true ]

-- It is not implemented.
abbrev pub is_superspeedplus : EndpDesc → Bool
is_superspeedplus d = false

unfoldable pub interrupt_usage_bits : EndpDesc → Outcome ℕ
unfolding is_interrupt
interrupt_usage_bits d = assert (is_interrupt d) >>= λ _. ok (bit_and d.attributes 0x20 / 2 ^ 4)

-- 0 is `Periodic`.
unfoldable pub is_periodic : EndpDesc → Outcome Bool
unfolding is_interrupt is_isoch interrupt_usage_bits
is_periodic d =
    if is_interrupt d then (interrupt_usage_bits d >>= λ bits. ok (bits == 0)) else ok (is_isoch d)

abbrev non_zero : ℕ → Option ℕ
non_zero n = if n == 0 then none else some n

unfoldable pub log_max_streams : EndpDesc → Option ℕ
unfolding is_bulk
log_max_streams d = elim d.ssc [
  | none ↦ none
  | some c ↦ if is_bulk d then non_zero (bit_and c.attributes 0x1f) else none
]

unfoldable pub isoch_mult : EndpDesc → (lec : Bool) → ℕ
unfolding is_isoch
isoch_mult d lec =
    if not lec && is_isoch d then elim d.ssc [ none ↦ 0 | some c ↦ bit_and c.attributes 0x3 ] else 0

unfoldable pub max_burst : EndpDesc → ℕ
max_burst d = elim d.ssc [ none ↦ 0 | some c ↦ c.max_burst ]

unfoldable pub has_ssp_companion : EndpDesc → Bool
has_ssp_companion d = elim d.ssc [ none ↦ false | some c ↦ not (bit_and c.attributes 0x80 == 0) ]

unfoldable pub major_version : DevDesc → ℕ
major_version d = bit_and d.usb 0xff00 / 2 ^ 8 % 2 ^ 8

-- `8 - interval.leading_zeros()`
abbrev pub last_power_of_two : ℕ → ℕ
last_power_of_two n =
    if leb 128 n
    then 8
    else if leb 64 n
    then 7
    else if leb 32 n
    then 6
    else if leb 16 n
    then 5
    else if leb 8 n
    then 4
    else if leb 4 n
    then 3
    else if leb 2 n
    then 2
    else if leb 1 n
    then 1
    else 0

-- On `u8`: an interval of 0 wraps round.
unfoldable pub endp_ctx_interval : ProtocolSpeed → EndpDesc → ℕ
unfolding is_lowspeed is_fullspeed is_interrupt is_isoch is_superspeed
endp_ctx_interval speed_id d =
    if (is_lowspeed speed_id || is_fullspeed speed_id) && is_interrupt d
    then (last_power_of_two d.interval + 255 + 3) % 2 ^ 8
    else if is_fullspeed speed_id && is_isoch d
    then (d.interval + 255 + 3) % 2 ^ 8
    else if (is_fullspeed speed_id || is_superspeed d || is_superspeedplus d)
        && (is_interrupt d || is_isoch d)
    then (d.interval + 255) % 2 ^ 8
    else 0

unfoldable pub endp_ctx_max_burst : ProtocolSpeed → DevDesc → EndpDesc → Outcome ℕ
unfolding is_highspeed is_interrupt is_isoch is_superspeed max_burst major_version
endp_ctx_max_burst speed_id dev_desc d =
    if is_highspeed speed_id && (is_interrupt d || is_isoch d)
    then (assert (major_version dev_desc == 2) >>= λ _.
        ok (bit_and d.max_packet_size 0x0c00 / 2 ^ 11 % 2 ^ 8))
    else if is_superspeed d
    then ok (max_burst d)
    else ok 0

unfoldable pub endp_ctx_max_packet_size : EndpDesc → ℕ
endp_ctx_max_packet_size d = bit_and d.max_packet_size 0x07ff

-- What comes after the third branch is never reached.
unfoldable pub endp_ctx_max_esit_payload :
    ProtocolSpeed → DevDesc → EndpDesc → (max_packet_size max_burst_size : ℕ) → Outcome ℕ
unfolding major_version is_periodic has_ssp_companion
endp_ctx_max_esit_payload speed_id dev_desc d max_packet_size max_burst_size = do
  periodic ← if major_version dev_desc == 2 then is_periodic d else ok false
  if periodic
      then ok (max_packet_size * (max_burst_size + 1) % 2 ^ 32)
      else if not (has_ssp_companion d)
      then (unwrap d.ssc >>= λ c. ok c.bytes_per_interval)
      else unwrap d.sspc >>= λ c. ok c.bytes_per_interval

-- `EndpointContext`
pub record EndpointContext : Type 0 where
  pub a : ℕ
  pub b : ℕ
  pub trl : ℕ
  pub trh : ℕ
  pub c : ℕ

unfoldable pub primary_streams : (log_max_streams : Option ℕ) → (log_max_psa_size : ℕ) → ℕ
primary_streams none log_max_psa_size = 0
primary_streams (some log) log_max_psa_size =
    if log_max_psa_size == 0 then 0 else min log (log_max_psa_size + 1) - 1

-- Control endpoints are refused.
unfoldable pub avg_trb_len : EndpDesc → Outcome ℕ
unfolding ty
avg_trb_len d = elim (ty d) [
  | ctrl ↦ err eio
  | bulk ↦ ok 3072
  | isoch ↦ ok 3072
  | interrupt ↦ ok 1024
]

-- What goes into the context of an endpoint beside the address of its ring
pub record EndpointFields : Type 0 where
  pub mult : ℕ
  pub streams : ℕ
  pub interval : ℕ
  pub max_esit_payload : ℕ
  pub ep_ty : ℕ
  pub max_burst_size : ℕ
  pub max_packet_size : ℕ
  pub trb_len : ℕ

-- With the assertions; the error count is 3.
unfoldable pub endpoint_fields :
    ProtocolSpeed
    → DevDesc
    → EndpDesc
    → (lec : Bool) → (log_max_psa_size : ℕ) → Outcome EndpointFields
unfolding log_max_streams primary_streams isoch_mult endp_ctx_max_packet_size endp_ctx_max_burst
    endp_ctx_max_esit_payload endp_ctx_interval xhci_ep_type avg_trb_len
endpoint_fields speed_id dev_desc d lec log_max_psa_size = do
  let mult = isoch_mult d lec
  let max_packet_size = endp_ctx_max_packet_size d
  max_burst_size ← endp_ctx_max_burst speed_id dev_desc d
  max_esit_payload ← endp_ctx_max_esit_payload speed_id dev_desc d max_packet_size max_burst_size
  ep_ty ← xhci_ep_type d
  trb_len ← avg_trb_len d
  _ ← assert (bit_and ep_ty 0x7 == ep_ty)
  _ ← assert (bit_and mult 0x3 == mult)
  _ ← assert (not (ep_ty == 0))
  ok (record {
    mult = mult;
    streams = primary_streams (log_max_streams d) log_max_psa_size;
    interval = endp_ctx_interval speed_id d;
    max_esit_payload = max_esit_payload;
    ep_ty = ep_ty;
    max_burst_size = max_burst_size;
    max_packet_size = max_packet_size;
    trb_len = trb_len;
  })

-- The words of the context; the last of its fields for a host that starts transfers is 0.
unfoldable pub endpoint_context : EndpointFields → (ring_ptr : ℕ) → EndpointContext
endpoint_context f ring_ptr = record {
  a =
      f.mult <<< 8
      ||| f.streams <<< 10
      ||| bit (not (f.streams == 0)) <<< 15
      ||| f.interval <<< 16
      ||| (bit_and f.max_esit_payload 0x00ff_0000 / 2 ^ 16) <<< 24;
  b = 3 <<< 1 ||| f.ep_ty <<< 3 ||| 0 <<< 7 ||| f.max_burst_size <<< 8 ||| f.max_packet_size <<< 16;
  trl = ring_ptr % 2 ^ 32;
  trh = ring_ptr / 2 ^ 32 % 2 ^ 32;
  c = bit_or f.trb_len ((f.max_esit_payload % 2 ^ 16) <<< 16);
}
