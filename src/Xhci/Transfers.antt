-- ===== src/Xhci/Transfers.antt =====
-- xhcid/src/xhci/scheme.rs: transfers on the bulk and interrupt endpoints of a device.
mod Tests
pub mod Blocks
use drivers.Base.{
  ℕ, zero, suc, ◌+◌, ◌-◌, ◌*◌, ◌/◌, ◌%◌, ◌^◌, min, Bool, true, false, not, ◌&&◌, Option, none, some,
  List, [], ◌++◌, ltb, leb, ◌==◌, if◌then◌else◌, length, replicate,
}
use drivers.Base.Endian.{from_le}
use drivers.Base.Map.{lookup, insert}
use drivers.Base.Outcome.{Outcome, ebadf, ebadfd, eio, enosys, einval}
use drivers.Xhci.Calls.{Result, ok, err, hangs, lift, then_, Call, ◌>>=◌, give, modify, demand}
use drivers.Xhci.Trb.{Trb, completion_code, transfer_length}
use drivers.Xhci.Trb.Build.{normal}
use drivers.Xhci.Ring.{Ring}
use drivers.Xhci.Ring.Push.{push}
use drivers.Xhci.Ports.{
  EndpDirection, out, in_, bidirectional, direction, is_isoch, RingOrStreams, one, streams,
  get_endp_desc, endp_doorbell,
}
use drivers.Xhci.Reactor.{NextEventTrb}
use drivers.Xhci.Reactor.Futures.{next_transfer_event_trb}
use drivers.Xhci.Control.{
  Xhci, Await, with_port, with_transfer, lock_port, new_future, doorbell_at,
  handle_transfer_event_trb,
}
use drivers.Xhci.Handles.{Buffer, copy_from_slice}

abbrev pub max_transfer_size : ℕ
max_transfer_size = 65536

unfoldable pub div_round_up : ℕ → ℕ → ℕ
div_round_up a b = if a % b == 0 then a / b else a / b + 1

-- `u8::try_from(n).ok().unwrap_or(0x1F)`, and the smaller of that and 0x1F
unfoldable pub estimated_td_size : (len : ℕ) → ℕ
unfolding div_round_up
estimated_td_size len =
    let bytes = div_round_up len max_transfer_size * 16 in
    min (if ltb bytes 256 then bytes else 0x1f) 0x1f

-- The closure of `transfer`: the block for the bytes that are left
unfoldable pub normal_block :
    (buffer td_size : ℕ) → (idt : Bool) → (bytes_left : ℕ) → Bool → Outcome Trb
normal_block buffer td_size idt bytes_left cycle =
    let ioc = leb bytes_left max_transfer_size in
    normal buffer (min bytes_left max_transfer_size) cycle td_size 0
      (record { ent = false; isp = true; chain = not ioc; ioc = ioc; idt = idt; bei = false })

-- The loop of `execute_transfer` with that closure: the index of the last block, and the ring
unfoldable pub place_transfer :
    (fuel : ℕ) → Ring → (buffer td_size : ℕ) → (idt : Bool) → (bytes_left : ℕ) → Result (ℕ × Ring)
place_transfer zero r buffer td_size idt bytes_left = hangs
place_transfer (suc fuel) r buffer td_size idt bytes_left =
    then_ (push r (normal_block buffer td_size idt bytes_left)) (λ (last, r').
      let left = bytes_left - min bytes_left max_transfer_size in
      elim (left == 0) [
        | true ↦ ok (last, r')
        | false ↦ place_transfer fuel r' buffer td_size idt left
      ])

-- A turn for each block
abbrev pub turns_of : ℕ → ℕ
turns_of len = suc (len / max_transfer_size)

-- The ring of an endpoint that transfers go to; with streams the first
unfoldable pub transfer_ring : RingOrStreams → Option Ring
transfer_ring (one r) = some r
transfer_ring (streams rings) = lookup 1 rings

unfoldable pub put_ring : RingOrStreams → Ring → RingOrStreams
put_ring (one old) r = one r
put_ring (streams rings) r = streams (insert 1 r rings)

abbrev pub has_streams : RingOrStreams → Bool
has_streams (one r) = false
has_streams (streams rings) = true

-- What `execute_transfer` makes of the message
unfoldable pub transfer_outcome :
    {X : Type 0} → NextEventTrb × List ℕ → Call (Xhci X) (Trb × List ℕ)
unfolding handle_transfer_event_trb
transfer_outcome (trbs, bytes) = do
  transfer_trb ← demand eio trbs.src_trb
  _ ← give (handle_transfer_event_trb trbs.event_trb)
  if not (completion_code trbs.event_trb == 0x0d) && not (transfer_length trbs.event_trb == 0)
      then give (err eio)
      else give (ok (trbs.event_trb, bytes))

-- Whether the bytes go into the block itself, and what goes into its address field
abbrev pub immediate : (len max_packet_size : ℕ) → EndpDirection → Bool
immediate len max_packet_size dir =
    leb len 8
    && leb 8 max_packet_size
    && elim dir [ in_ ↦ false | out ↦ true | bidirectional ↦ true ]

abbrev pub dma_len : Option Buffer → ℕ
dma_len none = 0
dma_len (some b) = length b.bytes

unfoldable pub buffer_field : Option Buffer → (idt : Bool) → ℕ × Bool
buffer_field none idt = (0, false)
buffer_field (some b) true = (from_le (b.bytes ++ replicate (8 - length b.bytes) 0), true)
buffer_field (some b) false = (b.physical, false)

module _ {X : Type 0} (await : Await X) where
  -- `execute_transfer` with the closure of `transfer`
  unfoldable pub execute_transfer :
      (port_num endp_num stream_id buffer td_size : ℕ)
      → (idt : Bool) → List ℕ
      → Call (Xhci X) (Trb × List ℕ)
  execute_transfer port_num endp_num stream_id buffer td_size idt bytes =
      if endp_num == 0 then give (err eio) else do
        future ← lock_port ebadf port_num (λ port_state. do
          endp_desc ← demand ebadfd (get_endp_desc port_state (endp_num - 1))
          data_stream ← give (lift (endp_doorbell endp_num endp_desc stream_id))
          data_no_stream ← give (lift (endp_doorbell endp_num endp_desc 0))
          endp_state ← demand ebadf (lookup endp_num port_state.endpoint_states)
          r ← demand ebadf (transfer_ring endp_state.transfer)
          (last, r') ←
              give (place_transfer (turns_of (length bytes)) r buffer td_size idt (length bytes))
          _ ← modify (
              with_port port_num
                (with_transfer port_state endp_num endp_state (put_ring endp_state.transfer r')))
          new_future (λ ac64 cell.
              next_transfer_event_trb ac64 cell
                (record { port = port_num % 2 ^ 8; endpoint_num = endp_num; stream_id = stream_id })
                r' last last
                (doorbell_at port_state.slot
                  (if has_streams endp_state.transfer then data_stream else data_no_stream))))
        message ← await future bytes
        transfer_outcome message

  -- The completion code, the number of bytes, and what is in the buffer
  unfoldable pub transfer : (port_num endp_idx : ℕ) → Option Buffer → Call (Xhci X) (ℕ × ℕ × List ℕ)
  transfer port_num endp_idx dma_buf = do
    endp_desc ← lock_port ebadfd port_num (λ port_state. do
      endp_desc ← demand ebadfd (get_endp_desc port_state endp_idx)
      if is_isoch endp_desc then give (err enosys) else give (ok endp_desc))
    let len = dma_len dma_buf
    let field = buffer_field dma_buf (immediate len endp_desc.max_packet_size (direction endp_desc))
    (event, bytes) ←
        execute_transfer port_num ((endp_idx + 1) % 2 ^ 8) 1 field.0 (estimated_td_size len) field.1
          (elim dma_buf [ none ↦ [] | some b ↦ b.bytes ])
    give (
        ok (
          completion_code event,
          elim dma_buf [
            | none ↦ 0
            | some b ↦ (length b.bytes + (2 ^ 32 - transfer_length event)) % 2 ^ 32
          ],
          bytes,
        ))

-- `alloc` gives the address of zeroed DMA memory of a length.
module _ {X : Type 0} (await : Await X) (alloc : ℕ → Outcome ℕ) where
  -- What is put into the buffer comes last.
  unfoldable pub transfer_read : (port_num endp_idx : ℕ) → List ℕ → Call (Xhci X) (ℕ × ℕ × List ℕ)
  transfer_read port_num endp_idx buf = if length buf == 0 then give (err einval) else do
    physical ← give (lift (alloc (length buf)))
    (completion_code, bytes_transferred, bytes) ←
        transfer await port_num endp_idx
          (some (record { bytes = replicate (length buf) 0; physical = physical }))
    buf' ← give (copy_from_slice buf bytes)
    give (ok (completion_code, bytes_transferred, buf'))

  unfoldable pub transfer_write : (port_num endp_idx : ℕ) → List ℕ → Call (Xhci X) (ℕ × ℕ)
  transfer_write port_num endp_idx sbuf = if length sbuf == 0 then give (err einval) else do
    physical ← give (lift (alloc (length sbuf)))
    (completion_code, bytes_transferred, bytes) ←
        transfer await port_num endp_idx (some (record { bytes = sbuf; physical = physical }))
    give (ok (completion_code, bytes_transferred))
