-- ===== src/Storage/Block.antt =====
-- storage/driver-block/src/lib.rs: `block_read`, a byte-wise read split into reads of whole blocks.
pub mod Bytes
use drivers.Base.{
  ℕ, zero, suc, ◌+◌, ◌-◌, ◌/◌, ◌%◌, ◌^◌, min, Bool, ◌||◌, Option, none, some, List, [], ◌++◌, ltb,
  ◌==◌, if◌then◌else◌, length, take, drop,
}
use drivers.Base.Outcome.{Outcome, ok, err, panicked}

-- How a read ended, the bytes that it stored at the front of the buffer, the scratch block, and
-- the state that `read_fn` captures.
pub record Read (S : Type 0) : Type 0 where
  pub outcome : Outcome ℕ
  pub stored : List ℕ
  pub block_bytes : List ℕ
  pub device : S

-- The slice `block_bytes[blk_offset..][..to_copy]`, whose bounds are checked.
abbrev pub chunk : List ℕ → ℕ → ℕ → List ℕ
chunk block_bytes blk_offset to_copy = take to_copy (drop blk_offset block_bytes)

-- `offset.saturating_add(buf.len()) - offset`: the buffer is cut at the end of the u64 range.
abbrev pub to_copy_of : ℕ → ℕ → ℕ
to_copy_of offset len = min (offset + len) (2 ^ 64 - 1) - offset

module _ {S : Type 0} (read_fn : ℕ → List ℕ → S → Outcome (Unit {0}) × List ℕ × S)
    (blksize : ℕ) where
  -- The `while` loop on fuel, `none` if it runs out: `left` bytes of the buffer are still to be
  -- filled, from `curr_offset` on. A block size of 0 is a division by zero.
  unfoldable pub read_loop :
      (fuel curr_offset left total_read : ℕ) → List ℕ → List ℕ → S → Option (Read S)
  read_loop zero curr_offset left total_read stored block_bytes s =
      if left == 0
      then some (record {
        outcome = ok total_read;
        stored = stored;
        block_bytes = block_bytes;
        device = s;
      })
      else none
  read_loop (suc fuel) curr_offset left total_read stored block_bytes s =
      let blk_offset = curr_offset % blksize in
      let to_copy = min left (blksize - blk_offset) in
      let (r, block, s') = read_fn (curr_offset / blksize) block_bytes s in
      let rest =
        read_loop fuel (curr_offset + to_copy) (left - to_copy) (total_read + to_copy)
          (stored ++ chunk block blk_offset to_copy) block s' in
      if left == 0
      then some (record {
        outcome = ok total_read;
        stored = stored;
        block_bytes = block_bytes;
        device = s;
      })
      else if blksize == 0
      then some
          (record { outcome = panicked; stored = stored; block_bytes = block_bytes; device = s })
      else elim r [
        | err e ↦
            some (record { outcome = err e; stored = stored; block_bytes = block; device = s' })
        | panicked ↦
            some (record { outcome = panicked; stored = stored; block_bytes = block; device = s' })
        | ok _ ↦
            if ltb (length block) (blk_offset + to_copy)
            then some
                (record { outcome = panicked; stored = stored; block_bytes = block; device = s' })
            else rest
      ]

  unfoldable pub block_read : (offset len : ℕ) → List ℕ → S → Option (Read S)
  unfolding read_loop
  block_read offset len block_bytes s =
      if len == 0
      then some (record { outcome = ok 0; stored = []; block_bytes = block_bytes; device = s })
      else read_loop len offset (to_copy_of offset len) 0 [] block_bytes s
