-- ===== src/Storage/Scsi/Wire.antt =====
-- The bytes of a command as the device takes them, in storage/usbscsid/src.
use drivers.Base.{ℕ, ◌*◌, ◌^◌, ◌<◌, ◌≡◌, ◌≢◌, refl, true, List, length, get_or, take, drop, arith}
use drivers.Base.Endian.{
  from_le, from_be, from_le-four, from_be-four, from_be-eight, from_be-reversed,
}
use drivers.Storage.Scsi.{read16, write16}
use drivers.Storage.Scsi.Packets.{ok, wrapper}

-- The fields of a command block wrapper, as the transport's standard places them
pub record Wrapped (bytes : List ℕ) (tag len direction cb_len : ℕ) : Type 0 where
  pub size : length bytes ≡ 31
  pub signature : from_le (take 4 bytes) ≡ 0x43425355
  pub tagged : from_le (take 4 (drop 4 bytes)) ≡ tag
  pub transfer : from_le (take 4 (drop 8 bytes)) ≡ len
  pub direction_is : get_or bytes 12 0 ≡ direction
  pub lun_is : get_or bytes 13 0 ≡ 0
  pub cb_len_is : get_or bytes 14 0 ≡ cb_len

-- The wrapper of a read tells the device its tag, the number of bytes that are to come in, and the
-- read command with the block number and the number of blocks, high byte first.
pub wrapper-read16 :
    (tag len lba n : ℕ)
    → tag < 2 ^ 32
    → len < 2 ^ 32
    → lba < 2 ^ 64
    → n < 2 ^ 32
    → (bytes : List ℕ) × (wrapper tag len true 0 (read16 lba n 0) ≡ ok bytes)
      × Wrapped bytes tag len 0x80 16
      × (get_or bytes 15 0 ≡ 0x88)
      × (from_be (take 8 (drop 17 bytes)) ≡ lba)
      × (from_be (take 4 (drop 25 bytes)) ≡ n)
unfolding wrapper read16
wrapper-read16 tag len lba n small_tag small_len small_lba small_n = (
  _,
  refl,
  record {
    size = refl;
    signature = refl;
    tagged = from_le-four tag small_tag;
    transfer = from_le-four len small_len;
    direction_is = refl;
    lun_is = refl;
    cb_len_is = refl;
  },
  refl,
  from_be-eight lba small_lba,
  from_be-four n small_n,
)

-- A write command carries its block number with the low byte first: the device, which takes the
-- high byte first, is told another block for every number from 1 to 255.
write16_swaps :
    (lba n : ℕ)
    → 0 < lba
    → lba < 256
    → (from_be (take 8 (drop 2 (read16 lba n 0))) ≡ lba)
      × (from_be (take 8 (drop 2 (write16 lba n 0))) ≡ lba * 2 ^ 56)
      × (lba * 2 ^ 56 ≢ lba)
unfolding read16 write16
write16_swaps lba n some small =
    (from_be-eight lba (omega arith), from_be-reversed lba small, λ e. omega arith)
