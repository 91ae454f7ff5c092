-- ===== src/Storage/Scsi/Tests.antt =====
-- The theorems on SCSI commands at concrete inputs.
use drivers.Base.{
  zero, suc, ℕ, ◌+◌, ◌*◌, ◌/◌, ◌%◌, ◌^◌, ◌<◌, ◌≡◌, refl, ◌∙◌, ap, sym, true, false, List, [], ◌∷◌,
  ◌++◌, get_or, take, drop, replicate, arith,
}
use drivers.Base.Endian.{from_le, from_be}
use drivers.Storage.Block.Bytes.{bytes}
use drivers.Storage.Scsi.{Scsi, read16, read, bytes_transferred}
use drivers.Storage.Scsi.Packets.{
  Result, ok, Endpoints, BulkOnlyTransport, PortTransferStatus, short_packet, wrapper,
}
use drivers.Storage.Scsi.Wire.{Wrapped, wrapper-read16}
use drivers.Storage.Scsi.Transfers.{whole, status_bytes, Serves, read-fills}

wrapper-read16_example :
    (cbw : List ℕ) × (wrapper 7 1024 true 0 (read16 0x1_0000_0000 2 0) ≡ ok cbw)
    × Wrapped cbw 7 1024 0x80 16
    × (get_or cbw 15 0 ≡ 0x88)
    × (from_be (take 8 (drop 17 cbw)) ≡ 0x1_0000_0000)
    × (from_be (take 4 (drop 25 cbw)) ≡ 2)
wrapper-read16_example =
    wrapper-read16 7 1024 0x1_0000_0000 2 (omega arith) (omega arith) (omega arith) (omega arith)

-- A device whose byte number k is k % 256. Its state is the wrapper that it was sent, and whether
-- the data are sent.
abbrev content : ℕ → ℕ
content k = k % 256

data Stage : Type 0 where
  waits : Stage
  has_command : List ℕ → Stage
  has_sent : List ℕ → Stage

abbrev lba_of : List ℕ → ℕ
lba_of cbw = from_be (take 8 (drop 17 cbw))

abbrev blocks_in : List ℕ → ℕ
blocks_in cbw = from_be (take 4 (drop 25 cbw))

abbrev answer : List ℕ → Stage → Result (PortTransferStatus × List ℕ) × Stage
answer buffer waits = (Result.panicked, waits)
answer buffer (has_command cbw) = (
  ok (whole (blocks_in cbw * 512), bytes content (lba_of cbw * 512) (blocks_in cbw * 512)),
  has_sent cbw,
)
answer buffer (has_sent cbw) = (ok (whole 13, status_bytes (from_le (take 4 (drop 4 cbw)))), waits)

abbrev device : Endpoints Stage
device = record {
  write_out = λ cbw e. (ok (whole 31), has_command cbw);
  read_in = answer;
  halted_in = λ e. (ok false, e);
  halted_out = λ e. (ok false, e);
  reset_in = λ e. (ok tt, e);
  reset_out = λ e. (ok tt, e);
  clear_halt_in = λ e. (ok tt, e);
  clear_halt_out = λ e. (ok tt, e);
  mass_storage_reset = λ interface_num e. (ok tt, e);
}

ok_eq : (a b : List ℕ) → ok a ≡ ok b → a ≡ b
ok_eq a b e = cc

-- What the device reads in the wrapper of a read
decoded :
    (tag lba n : ℕ) (cbw : List ℕ)
    → tag < 2 ^ 32
    → lba < 2 ^ 64
    → n < 2 ^ 32
    → n * 512 < 2 ^ 32
    → wrapper tag (n * 512) true 0 (read16 lba n 0) ≡ ok cbw
    → (lba_of cbw ≡ lba) × (blocks_in cbw ≡ n) × (from_le (take 4 (drop 4 cbw)) ≡ tag)
decoded tag lba n cbw small small_lba small_n len made =
    let (sent, wraps, fields, opcode, at_lba, blocks) =
      wrapper-read16 tag (n * 512) lba n small len small_lba small_n in
    let same : sent ≡ cbw = ok_eq sent cbw (sym wraps ∙ made) in
    (
      ap lba_of (sym same) ∙ at_lba,
      ap blocks_in (sym same) ∙ blocks,
      ap (λ b. from_le (take 4 (drop 4 b))) (sym same) ∙ fields.tagged,
    )

device-Serves : Serves device content 512
device-Serves = record {
  takes = λ cbw e. has_command cbw;
  sends =
      λ buffer e. elim e [ waits ↦ waits | has_command cbw ↦ has_sent cbw | has_sent cbw ↦ waits ];
  ends = λ e. waits;
  wrapped = λ cbw e size. refl;
  content_sent = λ tag lba n cbw buffer e small small_lba small_n len made fits.
      let (at, blocks, tagged) = decoded tag lba n cbw small small_lba small_n len made in
      rw (at, blocks) refl;
  status_sent = λ tag lba n cbw buffer e small small_lba small_n len made.
      let (at, blocks, tagged) = decoded tag lba n cbw small small_lba small_n len made in
      rw tagged refl;
}

abbrev scsi : Scsi
scsi = record { block_size = 512; data_buffer = [] }

abbrev transport : BulkOnlyTransport Stage
transport = record { current_tag = 0; endpoints = waits }

-- One block, and 88 bytes that stay
read-fills_example :
    let n = 600 / 512 * 512 in
    (e : Stage) × (read device 0 1 3 (replicate 600 9) scsi transport ≡ (
      ok n,
      bytes content (3 * 512) n ++ drop n (replicate 600 9),
      record scsi { data_buffer = bytes content (3 * 512) n },
      record { current_tag = (0 + 1) % 2 ^ 32; endpoints = e },
    ))
read-fills_example =
    read-fills device 0 0 content 3 (replicate 600 9) scsi transport device-Serves (omega arith)
      (omega arith) (omega arith)

-- A device that sends two bytes of eight
abbrev short_device : Endpoints ℕ
short_device = record {
  write_out = λ cbw e. (ok (whole 31), 1);
  read_in = λ buffer e. elim e [
    | zero ↦ (ok (whole 13, status_bytes 7), 0)
    | suc n ↦ (ok (record { kind = short_packet; bytes_transferred = 2 }, 1 ∷ 2 ∷ []), 0)
  ];
  halted_in = λ e. (ok false, e);
  halted_out = λ e. (ok false, e);
  reset_in = λ e. (ok tt, e);
  reset_out = λ e. (ok tt, e);
  clear_halt_in = λ e. (ok tt, e);
  clear_halt_out = λ e. (ok tt, e);
  mass_storage_reset = λ interface_num e. (ok tt, e);
}
