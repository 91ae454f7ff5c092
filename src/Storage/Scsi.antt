-- ===== src/Storage/Scsi.antt =====
-- storage/usbscsid/src/scsi: the commands that read and write blocks (cmds.rs) and `Scsi::read` and
-- `Scsi::write` (mod.rs), over the bulk-only transport. Packed structures are their bytes; the
-- machine's byte order is the low byte first.
pub mod Packets
pub mod Bot
pub mod Wire
pub mod Transfers
mod Tests
use drivers.Base.{
  ℕ, ◌+◌, ◌-◌, ◌*◌, ◌/◌, ◌%◌, ◌^◌, min, Bool, true, false, ◌||◌, Option, none, some, List, [], ◌∷◌,
  ◌++◌, ltb, leb, ◌==◌, if◌then◌else◌, length, take, drop, replicate,
}
use drivers.Base.Endian.{le_bytes, be_bytes}
use drivers.Storage.Scsi.Bot.{send_command}
use drivers.Storage.Scsi.Packets.{
  Result, ok, err, panicked, unfinished, overflow, Endpoints, BulkOnlyTransport, Data, in_data,
  out_data, SendCommandStatus,
}

-- `Read16::new` and `Write16::new`
unfoldable pub read16 : (lba transfer_len control : ℕ) → List ℕ
read16 lba transfer_len control =
    0x88 ∷ 0 ∷ be_bytes 8 lba ++ be_bytes 4 transfer_len ++ 0 ∷ control ∷ []

unfoldable pub write16 : (lba transfer_len control : ℕ) → List ℕ
write16 lba transfer_len control =
    0x8a ∷ 0 ∷ le_bytes 8 lba ++ le_bytes 4 transfer_len ++ 0 ∷ control ∷ []

-- The part of `Scsi` that reads and writes use
pub record Scsi : Type 0 where
  pub block_size : ℕ
  pub data_buffer : List ℕ

-- `data_buffer.resize(n, 0)`
abbrev pub resize : ℕ → List ℕ → List ℕ
resize n bytes = take n bytes ++ replicate (n - length bytes) 0

-- `SendCommandStatus::bytes_transferred`
abbrev pub bytes_transferred : SendCommandStatus → ℕ → ℕ
bytes_transferred status transfer_len = elim status.residue [
  | none ↦ transfer_len
  | some residue ↦ (transfer_len + (2 ^ 32 - residue)) % 2 ^ 32
]

module _ {E : Type 0} (endpoints : Endpoints E) (interface_num fuel : ℕ) where
  -- The buffer of the caller, which a read fills, the driver's own, and the transport come back.
  unfoldable pub read :
      (lba : ℕ)
      → List ℕ
      → Scsi
      → BulkOnlyTransport E
      → Result ℕ × List ℕ × Scsi × BulkOnlyTransport E
  unfolding read16
  read lba buffer scsi bot =
      let blocks_to_read = length buffer / scsi.block_size in
      let bytes_to_read = blocks_to_read * scsi.block_size in
      let data_buffer = resize bytes_to_read scsi.data_buffer in
      let (r, filled, bot') =
        send_command endpoints interface_num fuel (read16 lba blocks_to_read 0)
          (in_data data_buffer) bot in
      let scsi' = record scsi { data_buffer = filled } in
      if scsi.block_size == 0
      then (panicked, buffer, scsi, bot)
      else if leb (2 ^ 32) blocks_to_read
      then (err overflow, buffer, scsi, bot)
      else elim r [
        | ok status ↦ (
          ok (bytes_transferred status (bytes_to_read % 2 ^ 32)),
          take bytes_to_read filled ++ drop bytes_to_read buffer,
          scsi',
          bot',
        )
        | err e ↦ (err e, buffer, scsi', bot')
        | panicked ↦ (panicked, buffer, scsi', bot')
        | unfinished ↦ (unfinished, buffer, scsi', bot')
      ]

  unfoldable pub write :
      (lba : ℕ) → List ℕ → Scsi → BulkOnlyTransport E → Result ℕ × Scsi × BulkOnlyTransport E
  unfolding write16
  write lba buffer scsi bot =
      let blocks_to_write = length buffer / scsi.block_size in
      let bytes_to_write = blocks_to_write * scsi.block_size in
      let scsi' = record scsi { data_buffer = take bytes_to_write buffer } in
      let (r, kept, bot') =
        send_command endpoints interface_num fuel (write16 lba blocks_to_write 0)
          (out_data (take bytes_to_write buffer)) bot in
      if scsi.block_size == 0
      then (panicked, scsi, bot)
      else if leb (2 ^ 32) blocks_to_write
      then (err overflow, scsi, bot)
      else elim r [
        | ok status ↦ (ok (bytes_transferred status (bytes_to_write % 2 ^ 32)), scsi', bot')
        | err e ↦ (err e, scsi', bot')
        | panicked ↦ (panicked, scsi', bot')
        | unfinished ↦ (unfinished, scsi', bot')
      ]
