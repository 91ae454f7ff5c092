-- ===== src/Storage/Scsi/Transfers.antt =====
-- A read through `Scsi::read` and the bulk-only transport, in storage/usbscsid/src.
use drivers.Base.{
  ℕ, zero, suc, ◌+◌, ◌-◌, ◌*◌, ◌/◌, ◌%◌, ◌^◌, ◌≤◌, ◌<◌, ◌≡◌, refl, ap, true, false, none, List, [],
  ◌∷◌, ◌++◌, length, length-append, length-take, length-replicate, take, drop, replicate, leb, ◌==◌,
  arith,
}
use native.Mathlib.Nat.{div-add-mod'}
use drivers.Base.Endian.{le_bytes, from_le, from_le-four}
use drivers.Storage.Block.Bytes.{bytes}
use drivers.Storage.Scsi.{Scsi, resize, bytes_transferred, read16, read}
use drivers.Storage.Scsi.Bot.{
  send_wrapper, transfer_data, read_csw_raw, judge, exchange, send_command,
}
use drivers.Storage.Scsi.Packets.{
  ok, Endpoints, BulkOnlyTransport, PortTransferStatus, success, passed, in_data, wrapper,
  status_wrapper,
}
use drivers.Storage.Scsi.Wire.{wrapper-read16}

abbrev pub whole : ℕ → PortTransferStatus
whole n = record { kind = success; bytes_transferred = n }

-- The status of a command that has passed, with no residue
abbrev pub status_bytes : ℕ → List ℕ
status_bytes tag = le_bytes 4 0x53425355 ++ le_bytes 4 tag ++ le_bytes 4 0 ++ 0 ∷ []

-- A device with that content carries out the read that the bytes ask for, and says so.
pub record Serves {E : Type 0} (endpoints : Endpoints E) (content : ℕ → ℕ) (block_size : ℕ)
    : Type 0 where
  pub takes : (cbw_bytes : List ℕ) → E → E
  pub sends : (buffer : List ℕ) → E → E
  pub ends : E → E
  pub wrapped :
      (cbw_bytes : List ℕ) (e : E)
      → length cbw_bytes ≡ 31
      → endpoints.write_out cbw_bytes e ≡ (ok (whole 31), takes cbw_bytes e)
  pub content_sent :
      (tag lba n : ℕ) (cbw_bytes buffer : List ℕ) (e : E)
      → tag < 2 ^ 32
      → lba < 2 ^ 64
      → n < 2 ^ 32
      → n * block_size < 2 ^ 32
      → wrapper tag (n * block_size) true 0 (read16 lba n 0) ≡ ok cbw_bytes
      → length buffer ≡ n * block_size
      → endpoints.read_in buffer (takes cbw_bytes e) ≡ (
        ok (whole (n * block_size), bytes content (lba * block_size) (n * block_size)),
        sends buffer (takes cbw_bytes e),
      )
  pub status_sent :
      (tag lba n : ℕ) (cbw_bytes buffer : List ℕ) (e : E)
      → tag < 2 ^ 32
      → lba < 2 ^ 64
      → n < 2 ^ 32
      → n * block_size < 2 ^ 32
      → wrapper tag (n * block_size) true 0 (read16 lba n 0) ≡ ok cbw_bytes
      → endpoints.read_in (replicate 13 0) (sends buffer (takes cbw_bytes e))
        ≡ (ok (whole 13, status_bytes tag), ends (sends buffer (takes cbw_bytes e)))

same_tag : (tag : ℕ) → tag < 2 ^ 32 → (from_le (le_bytes 4 tag) == tag) ≡ true
same_tag tag small = ground (arith, from_le-four tag small)

le_times : (n k : ℕ) → 0 < k → n ≤ n * k
le_times n zero h = absurd (omega arith)
le_times n (suc k) h = omega arith

not_zero : (n : ℕ) → 0 < n → (n == 0) ≡ false
not_zero n h = ground arith

not_many : (n : ℕ) → n < 2 ^ 32 → leb (2 ^ 32) n ≡ false
not_many n h = ground arith

module _ {E : Type 0} (endpoints : Endpoints E) (interface_num fuel : ℕ) where
  judged_lem :
      (tag : ℕ) (e : E)
      → tag < 2 ^ 32
      → judge endpoints interface_num tag none (status_wrapper (status_bytes tag)) e
        ≡ (ok (record { residue = none; kind = passed }), e)
  unfolding judge
  judged_lem tag e small =
      let same : (from_le (le_bytes 4 tag) == tag) ≡ true = same_tag tag small in rw same refl

  exchanged_lem :
      (tag n : ℕ) (cbw_bytes buffer data_bytes : List ℕ) (e e1 e2 e3 : E)
      → tag < 2 ^ 32
      → endpoints.write_out cbw_bytes e ≡ (ok (whole 31), e1)
      → endpoints.read_in buffer e1 ≡ (ok (whole n, data_bytes), e2)
      → endpoints.read_in (replicate 13 0) e2 ≡ (ok (whole 13, status_bytes tag), e3)
      → exchange endpoints interface_num (suc fuel) tag cbw_bytes (in_data buffer) e
        ≡ (ok (record { residue = none; kind = passed }, data_bytes), e3)
  unfolding exchange send_wrapper transfer_data read_csw_raw
  exchanged_lem tag n cbw_bytes buffer data_bytes e e1 e2 e3 small out in_ status =
      rw (out, in_, status, judged_lem tag e3 small) refl

  sent_lem :
      (content : ℕ → ℕ) (bs lba n : ℕ) (buffer : List ℕ) (bot : BulkOnlyTransport E)
      → Serves endpoints content bs
      → lba < 2 ^ 64
      → n < 2 ^ 32
      → n * bs < 2 ^ 32
      → length buffer ≡ n * bs
      → (e : E) × (send_command endpoints interface_num
            (suc fuel)
            (read16 lba n 0)
            (in_data buffer)
            bot
          ≡ (
            ok (record { residue = none; kind = passed }),
            bytes content (lba * bs) (n * bs),
            record { current_tag = (bot.current_tag + 1) % 2 ^ 32; endpoints = e },
          ))
  unfolding send_command
  sent_lem content bs lba n buffer bot d small_lba small_n small_len buffer_is =
      let tag = (bot.current_tag + 1) % 2 ^ 32 in
      let small : tag < 2 ^ 32 = omega arith in
      let (cbw, made, wrapped, opcode, at_lba, blocks) =
        wrapper-read16 tag (n * bs) lba n small small_len small_lba small_n in
      let e1 = d.takes cbw bot.endpoints in
      let e2 = d.sends buffer e1 in
      let len : length buffer % 2 ^ 32 ≡ n * bs = omega (arith, buffer_is) in
      let exchanged =
        exchanged_lem tag (n * bs) cbw buffer (bytes content (lba * bs) (n * bs)) bot.endpoints e1
          e2 (d.ends e2) small (d.wrapped cbw bot.endpoints wrapped.size)
          (d.content_sent tag lba n cbw buffer bot.endpoints small small_lba small_n small_len made
            buffer_is)
          (d.status_sent tag lba n cbw buffer bot.endpoints small small_lba small_n small_len
            made) in
      (d.ends e2, rw (send_command, len, made, exchanged) (rw exchanged refl))

  length-resize : (n : ℕ) (xs : List ℕ) → length (resize n xs) ≡ n
  length-resize n xs = omega (
    arith,
    length-append (take n xs) (replicate (n - length xs) 0),
    length-take n xs,
    length-replicate {A = ℕ} (n - length xs) 0,
  )

  take_whole : (content : ℕ → ℕ) (at n : ℕ) → take n (bytes content at n) ≡ bytes content at n
  unfolding bytes
  take_whole content at zero = refl
  take_whole content at (suc n) = ap (λ xs. content at ∷ xs) (take_whole content (suc at) n)

  -- A read from a device that answers fills the front of the buffer, as many whole blocks as go
  -- into it, with the bytes of the device from block `lba` on, leaves the rest of the buffer as it
  -- was, and returns the number of those bytes. One turn of the loop for the status is enough.
  pub read-fills :
      (content : ℕ → ℕ) (lba : ℕ) (buffer : List ℕ) (scsi : Scsi) (bot : BulkOnlyTransport E)
      → Serves endpoints content scsi.block_size
      → lba < 2 ^ 64
      → 0 < scsi.block_size
      → length buffer < 2 ^ 32
      → let n = length buffer / scsi.block_size * scsi.block_size in
        (e : E) × (read endpoints interface_num (suc fuel) lba buffer scsi bot ≡ (
          ok n,
          bytes content (lba * scsi.block_size) n ++ drop n buffer,
          record scsi { data_buffer = bytes content (lba * scsi.block_size) n },
          record { current_tag = (bot.current_tag + 1) % 2 ^ 32; endpoints = e },
        ))
  unfolding read
  read-fills content lba buffer scsi bot d small_lba some_bytes small =
      let n = length buffer / scsi.block_size in
      let total = n * scsi.block_size in
      let within : total ≤ length buffer =
        omega (arith, div-add-mod' (length buffer) scsi.block_size) in
      let few : n ≤ length buffer = omega (arith, le_times n scsi.block_size some_bytes) in
      let (e, sent) =
        sent_lem content scsi.block_size lba n (resize total scsi.data_buffer) bot d small_lba
          (omega arith) (omega arith) (length-resize total scsi.data_buffer) in
      let divides : (scsi.block_size == 0) ≡ false = not_zero scsi.block_size some_bytes in
      let fits : leb (2 ^ 32) n ≡ false = not_many n (omega arith) in
      let same : total % 2 ^ 32 ≡ total = omega arith in
      (
        e,
        rw (divides, fits, sent)
            (rw (sent, same, take_whole content (lba * scsi.block_size) total) refl),
      )
