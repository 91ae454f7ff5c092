-- ===== src/Xhci/Requests/Sessions.antt =====
-- Requests from the first write to the last read or write.
use drivers.Base.{
  ℕ, ◌+◌, ◌*◌, ◌%◌, ◌^◌, ◌<◌, ◌≡◌, refl, ◌∙◌, sym, bit_or, true, Option, some, List, ◌==◌, length,
  length-replicate, replicate, arith, ==_iff,
}
use drivers.Base.Bits.{or_below, and_mask, field_at, and_bit}
use drivers.Base.Map.{lookup}
use drivers.Base.Outcome as O
use drivers.Base.Outcome.{Outcome}
use drivers.Xhci.Setup
use drivers.Xhci.Setup.{Setup, ReqDirection}
use drivers.Xhci.Trb.{out, in_}
use drivers.Xhci.Calls.{ok}
use drivers.Xhci.Control.{Xhci, Await}
use drivers.Xhci.Handles.{
  PortReq, PortReqDirection, direction_code, ty_code, recipient_code, Buffer, PortReqState, init,
  waiting_for_device_bytes, waiting_for_host_bytes, tmp, port_req, Scheme,
}
use drivers.Xhci.Requests.{
  setup_of, port_req_init_st, port_req_transfer, req_write_step, req_read_step,
  handle_port_req_write, handle_port_req_read, write_request, read_request,
}
use drivers.Xhci.Requests.Stuck.{
  with_state, put_state_lem, state-put, write_request_lem, read_request_lem,
}

-- A new buffer of a request
abbrev pub new_buffer : PortReq → ℕ → Buffer
new_buffer req physical = record { bytes = replicate req.length 0; physical = physical }

init_in :
    (alloc : ℕ → Outcome ℕ) (req : PortReq) (physical : ℕ)
    → req.transfers_data ≡ true
    → req.direction ≡ PortReqDirection.device_to_host
    → alloc req.length ≡ O.ok physical
    → port_req_init_st alloc req
      ≡ ok (waiting_for_device_bytes (new_buffer req physical) (setup_of req))
unfolding port_req_init_st
init_in alloc req physical d i a = ground arith

init_out :
    (alloc : ℕ → Outcome ℕ) (req : PortReq) (physical : ℕ)
    → req.transfers_data ≡ true
    → req.direction ≡ PortReqDirection.host_to_device
    → alloc req.length ≡ O.ok physical
    → port_req_init_st alloc req
      ≡ ok (waiting_for_host_bytes (new_buffer req physical) (setup_of req))
unfolding port_req_init_st
init_out alloc req physical d i a = ground arith

-- The state in the handle after a step that is not refused
abbrev after_step : {X : Type 0} → (fd p : ℕ) → PortReqState → Scheme X → Xhci X → Scheme X
after_step fd p st s x = with_state fd p st (record (with_state fd p tmp s) { xhci = x })

module _ {X : Type 0} (await : Await X) (alloc : ℕ → Outcome ℕ)
    (parse_req : List ℕ → Option PortReq) where
  write_ends :
      (fd p : ℕ) (st st' : PortReqState) (buf : List ℕ) (s : Scheme X) (x : Xhci X)
      → lookup fd s.handles ≡ some (port_req p st)
      → req_write_step await alloc parse_req p st buf (with_state fd p tmp s)
        ≡ (ok st', record (with_state fd p tmp s) { xhci = x })
      → write_request await alloc parse_req fd p st buf s
        ≡ (ok (length buf), after_step fd p st' s x)
  unfolding handle_port_req_write
  write_ends fd p st st' buf s x h e =
      let there = state-put fd p tmp s in
      write_request_lem await alloc parse_req fd p st buf s h
      ∙ rw e
          (rw (put_state_lem fd p tmp st' (record (with_state fd p tmp s) { xhci = x }) there) refl)

  read_ends :
      (fd p : ℕ) (st : PortReqState) (buf bytes : List ℕ) (s : Scheme X) (x : Xhci X)
      → lookup fd s.handles ≡ some (port_req p st)
      → req_read_step await alloc parse_req p st buf (with_state fd p tmp s)
        ≡ (ok bytes, record (with_state fd p tmp s) { xhci = x })
      → read_request await alloc parse_req fd p st buf s
        ≡ (ok (length buf, bytes), after_step fd p init s x)
  unfolding handle_port_req_read
  read_ends fd p st buf bytes s x h e =
      let there = state-put fd p tmp s in
      read_request_lem await alloc parse_req fd p st buf s h
      ∙ rw e (
          rw (put_state_lem fd p tmp init (record (with_state fd p tmp s) { xhci = x }) there) refl)

  -- A request for bytes of the device: the write of the request is taken whole and asks the device
  -- for nothing yet; a read of as many bytes as the request names makes the one control transfer with
  -- the packet of the request, gives the bytes that it left in the buffer, and the handle is ready for
  -- the next request. This is for a transfer that succeeds.
  pub request_reads :
      (fd p : ℕ) (json : List ℕ) (req : PortReq) (physical : ℕ) (buf bytes : List ℕ)
      → (s : Scheme X) (x : Xhci X) → lookup fd s.handles ≡ some (port_req p init)
      → parse_req json ≡ some req
      → req.transfers_data ≡ true
      → req.direction ≡ PortReqDirection.device_to_host
      → alloc req.length ≡ O.ok physical
      → length buf ≡ req.length
      → length bytes ≡ req.length
      → port_req_transfer await p (some (new_buffer req physical)) (setup_of req) in_ s.xhci
        ≡ (ok bytes, x)
      → (st : PortReqState) × (s1 : Scheme X) × (s2 : Scheme X) × (write_request await alloc
            parse_req fd p init json s
          ≡ (ok (length json), s1))
        × (s1.xhci ≡ s.xhci)
        × (lookup fd s1.handles ≡ some (port_req p st))
        × (read_request await alloc parse_req fd p st buf s1 ≡ (ok (length buf, bytes), s2))
        × (s2.xhci ≡ x)
        × (lookup fd s2.handles ≡ some (port_req p init))
  unfolding req_write_step req_read_step
  request_reads fd p json req physical buf bytes s x h parsed d i a lb ly t =
      let st = waiting_for_device_bytes (new_buffer req physical) (setup_of req) in
      let s1 = after_step fd p st s s.xhci in
      let fits : (length buf == length {A = ℕ} (replicate req.length 0)) ≡ true =
        (==_iff _ _).1 (lb ∙ sym (length-replicate req.length 0)) in
      let same : (length buf == length bytes) ≡ true = (==_iff _ _).1 (lb ∙ sym ly) in
      (
        st,
        s1,
        after_step fd p init s1 x,
        write_ends fd p init st json s s.xhci h
            (rw (parsed, init_in alloc req physical d i a) refl),
        refl,
        state-put fd p st (record (with_state fd p tmp s) { xhci = s.xhci }),
        read_ends fd p st buf bytes s1 x
            (state-put fd p st (record (with_state fd p tmp s) { xhci = s.xhci }))
            (rw (fits, t, same) refl),
        refl,
        state-put fd p init (record (with_state fd p tmp s1) { xhci = x }),
      )

  -- A request that sends bytes to the device: after the write of the request, a write of as many
  -- bytes as it names makes the one control transfer, of just these bytes with the packet of the
  -- request, and the handle is ready for the next request. This is for a transfer that succeeds.
  pub request_writes :
      (fd p : ℕ) (json : List ℕ) (req : PortReq) (physical : ℕ) (buf bytes : List ℕ)
      → (s : Scheme X) (x : Xhci X) → lookup fd s.handles ≡ some (port_req p init)
      → parse_req json ≡ some req
      → req.transfers_data ≡ true
      → req.direction ≡ PortReqDirection.host_to_device
      → alloc req.length ≡ O.ok physical
      → length buf ≡ req.length
      → port_req_transfer await p
          (some (record { bytes = buf; physical = physical }))
          (setup_of req)
          out
          s.xhci
        ≡ (ok bytes, x)
      → (st : PortReqState) × (s1 : Scheme X) × (s2 : Scheme X) × (write_request await alloc
            parse_req fd p init json s
          ≡ (ok (length json), s1))
        × (s1.xhci ≡ s.xhci)
        × (lookup fd s1.handles ≡ some (port_req p st))
        × (write_request await alloc parse_req fd p st buf s1 ≡ (ok (length buf), s2))
        × (s2.xhci ≡ x)
        × (lookup fd s2.handles ≡ some (port_req p init))
  unfolding req_write_step
  request_writes fd p json req physical buf bytes s x h parsed d o a lb t =
      let st = waiting_for_host_bytes (new_buffer req physical) (setup_of req) in
      let s1 = after_step fd p st s s.xhci in
      let here = state-put fd p st (record (with_state fd p tmp s) { xhci = s.xhci }) in
      let fits : (length buf == length {A = ℕ} (replicate req.length 0)) ≡ true =
        (==_iff _ _).1 (lb ∙ sym (length-replicate req.length 0)) in
      (
        st,
        s1,
        after_step fd p init s1 x,
        write_ends fd p init st json s s.xhci h
            (rw (parsed, init_out alloc req physical d o a) refl),
        refl,
        here,
        write_ends fd p st init buf s1 x here (rw (fits, t) refl),
        refl,
        state-put fd p init (record (with_state fd p tmp s1) { xhci = x }),
      )

kind_sum :
    (d t r : ℕ)
    → d < 2
    → t < 4
    → r < 32
    → bit_or (bit_or (d * 2 ^ 7 % 2 ^ 8) (t * 2 ^ 5 % 2 ^ 8)) (r * 2 ^ 0 % 2 ^ 8)
      ≡ d * 128 + t * 32 + r
kind_sum d t r hd ht hr =
    let first : d * 2 ^ 7 % 2 ^ 8 ≡ d * 128 = omega arith in
    let second = or_below 7 (t * 2 ^ 5 % 2 ^ 8) first (omega arith) (omega arith) in
    let third = or_below 5 (r * 2 ^ 0 % 2 ^ 8) second (omega arith) (omega arith) in
    omega (arith, third)

codes-lt :
    (req : PortReq)
    → (direction_code req.direction < 2)
      × (ty_code req.req_type < 4)
      × (recipient_code req.req_recipient < 32)
codes-lt req = ground arith

-- The first byte of the packet
kind_lem :
    (req : PortReq)
    → (setup_of req).kind
      ≡ direction_code req.direction * 128
        + ty_code req.req_type * 32
        + recipient_code req.req_recipient
unfolding setup_of
kind_lem req =
    let (hd, ht, hr) = codes-lt req in
    kind_sum (direction_code req.direction) (ty_code req.req_type)
      (recipient_code req.req_recipient) hd ht hr

-- The packet of a request reads back, by the fields of its first byte, as the direction, type and
-- recipient that were asked for; the other fields are the request's own.
setup_of-decodes :
    (req : PortReq)
    → (Setup.req_ty (setup_of req) ≡ ty_code req.req_type)
      × (Setup.req_recipient (setup_of req) ≡ recipient_code req.req_recipient)
      × (Setup.direction (setup_of req) ≡ elim req.direction [
        | PortReqDirection.host_to_device ↦ ReqDirection.host_to_device
        | PortReqDirection.device_to_host ↦ ReqDirection.device_to_host
      ])
      × ((setup_of req).length ≡ req.length)
unfolding Setup.req_ty Setup.req_recipient Setup.direction
setup_of-decodes req =
    let kind = (setup_of req).kind in
    (
      omega (arith, kind_lem req, codes-lt req, field_at 2 5 kind),
      omega (arith, kind_lem req, codes-lt req, and_mask 5 kind),
      ground (arith, kind_lem req, codes-lt req, and_bit 7 kind),
      unfold setup_of in refl,
    )
