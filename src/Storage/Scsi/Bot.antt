-- ===== src/Storage/Scsi/Bot.antt =====
-- storage/usbscsid/src/protocol/bot.rs: the bulk-only transport of commands to a mass storage
-- device. The endpoints, which xhcid serves, are a parameter.
use drivers.Base.{
  ℕ, zero, suc, ◌+◌, ◌%◌, ◌^◌, Bool, true, false, not, ◌||◌, Option, none, some, List, [], ◌==◌,
  if◌then◌else◌, replicate,
}
use drivers.Storage.Scsi.Packets.{
  BulkOnlyTransport, Call, Data, Endpoints, PortTransferStatus, Result, SendCommandStatus,
  StatusWrapper, buffer_of, data_len, err, failed, give, goes_in, in_data, invalid_but_recovered,
  is_valid, no_data, non_zero, not_reset, ok, out_data, panicked, passed, phase_error,
  recovery_failed, short_packet, stalled, status_wrapper, success, unfinished, unknown,
  unknown_transfer_status, wrapper, ◌>>=◌,
}

module _ {E : Type 0} (endpoints : Endpoints E) where
  abbrev clear_stall : Call E Bool → Call E (Unit {0}) → Call E (Unit {0}) → Call E (Unit {0})
  clear_stall halted reset clear_halt = do
    stall ← halted
    if stall then (reset >>= λ _. clear_halt) else give (ok tt)

  unfoldable pub clear_stall_in : Call E (Unit {0})
  clear_stall_in = clear_stall endpoints.halted_in endpoints.reset_in endpoints.clear_halt_in

  unfoldable pub clear_stall_out : Call E (Unit {0})
  clear_stall_out = clear_stall endpoints.halted_out endpoints.reset_out endpoints.clear_halt_out

  -- Whether one of the endpoints is halted; the second one is asked if the first one is not.
  unfoldable pub either_halted : Call E Bool
  either_halted = do
    stall ← endpoints.halted_in
    if stall then give (ok true) else endpoints.halted_out

  unfoldable pub reset_recovery : ℕ → Call E (Unit {0})
  unfolding clear_stall_in clear_stall_out either_halted
  reset_recovery interface_num = do
    _ ← endpoints.mass_storage_reset interface_num
    _ ← clear_stall_in
    _ ← clear_stall_out
    stall ← either_halted
    give (if stall then err recovery_failed else ok tt)

  -- `read_csw_raw` on fuel: the status is read again after a stall.
  unfoldable pub read_csw_raw : (interface_num fuel : ℕ) → Bool → List ℕ → Call E (List ℕ)
  unfolding reset_recovery clear_stall_in
  read_csw_raw interface_num zero already csw_buffer = give unfinished
  read_csw_raw interface_num (suc fuel) already csw_buffer = do
    (status, bytes) ← endpoints.read_in csw_buffer
    elim status.kind [
      | stalled ↦ do
        _ ← if already then reset_recovery interface_num else give (ok tt)
        _ ← clear_stall_in
        read_csw_raw interface_num fuel true bytes
      | short_packet ↦ give (if status.bytes_transferred == 13 then ok bytes else panicked)
      | success ↦ give (ok bytes)
      | unknown ↦ give (ok bytes)
    ]

  -- What a data transfer tells: the number of bytes of a short packet. It is taken for a residue.
  abbrev pub early_residue : PortTransferStatus → Result (Option ℕ)
  early_residue status = elim status.kind [
    | success ↦ ok none
    | short_packet ↦ ok (non_zero status.bytes_transferred)
    | stalled ↦ panicked
    | unknown ↦ err unknown_transfer_status
  ]

  -- The data of a command: the early residue, and the buffer as it is then
  unfoldable pub transfer_data : Data → Call E (Option ℕ × List ℕ)
  transfer_data (in_data buffer) = do
    (status, bytes) ← endpoints.read_in buffer
    residue ← give (early_residue status)
    give (ok (residue, bytes))
  transfer_data (out_data buffer) = do
    status ← endpoints.write_out buffer
    residue ← give (early_residue status)
    give (ok (residue, buffer))
  transfer_data no_data = give (ok (none, []))

  -- The command block wrapper goes out whole or the driver panics.
  unfoldable pub send_wrapper : List ℕ → Call E (Unit {0})
  send_wrapper bytes = do
    status ← endpoints.write_out bytes
    give (elim status.kind [
      | stalled ↦ panicked
      | success ↦ if status.bytes_transferred == 31 then ok tt else panicked
      | short_packet ↦ if status.bytes_transferred == 31 then ok tt else panicked
      | unknown ↦ if status.bytes_transferred == 31 then ok tt else panicked
    ])

  -- What a status wrapper says of the command with that tag
  unfoldable pub judge :
      (interface_num tag : ℕ) → Option ℕ → StatusWrapper → Call E SendCommandStatus
  unfolding reset_recovery either_halted
  judge interface_num tag early csw =
      let residue : Option ℕ = elim early [ none ↦ non_zero csw.data_residue | some n ↦ some n ] in
      if not (is_valid csw) || not (csw.tag == tag)
      then (do
        _ ← reset_recovery interface_num
        stall ← either_halted
        give (err (if stall then not_reset else invalid_but_recovered)))
      else if csw.status == 0
      then give (ok (record { residue = residue; kind = passed }))
      else if csw.status == 1
      then give (ok (record { residue = residue; kind = failed }))
      else give (err phase_error)

  -- From the wrapper on: the status of the command, and the data
  unfoldable pub exchange :
      (interface_num fuel tag : ℕ) → List ℕ → Data → Call E (SendCommandStatus × List ℕ)
  unfolding send_wrapper transfer_data read_csw_raw judge
  exchange interface_num fuel tag cbw_bytes data_of = do
    _ ← send_wrapper cbw_bytes
    (early, bytes) ← transfer_data data_of
    csw_buffer ← read_csw_raw interface_num fuel false (replicate 13 0)
    status ← judge interface_num tag early (status_wrapper csw_buffer)
    give (ok (status, bytes))

  -- `send_command`: the status, the buffer of the command, and the transport. After an error the
  -- buffer stands as it was before; nothing reads it then.
  unfoldable pub send_command :
      (interface_num fuel : ℕ)
      → List ℕ
      → Data
      → BulkOnlyTransport E
      → Result SendCommandStatus × List ℕ × BulkOnlyTransport E
  unfolding wrapper exchange
  send_command interface_num fuel cb data_of bot =
      let tag = (bot.current_tag + 1) % 2 ^ 32 in
      let buffer = buffer_of data_of in
      elim (wrapper tag (data_len data_of % 2 ^ 32) (goes_in data_of) 0 cb) [
        | err x ↦ (err x, buffer, record bot { current_tag = tag })
        | panicked ↦ (panicked, buffer, record bot { current_tag = tag })
        | unfinished ↦ (unfinished, buffer, record bot { current_tag = tag })
        | ok cbw_bytes ↦
            let (r, e) = exchange interface_num fuel tag cbw_bytes data_of bot.endpoints in
            let bot' = record bot { current_tag = tag; endpoints = e } in
            elim r [
              | ok (status, bytes) ↦ (ok status, bytes, bot')
              | err x ↦ (err x, buffer, bot')
              | panicked ↦ (panicked, buffer, bot')
              | unfinished ↦ (unfinished, buffer, bot')
            ]
      ]
