-- ===== src/Storage/Disks/Bounds.antt =====
-- Which blocks of the disk a handle on a partition reaches, in storage/ahcid/src/scheme.rs.
use drivers.Base.{
  ℕ, ◌+◌, ◌/◌, ◌^◌, ◌≤◌, ◌<◌, ◌≡◌, ◌≢◌, ◌⊎◌, inl, inr, some, List, leb, if◌then◌else◌, get_elem?,
  arith, Bool-cases,
}
use drivers.Base.Outcome.{ok, err, eoverflow}
use drivers.Base.Map.{lookup}
use drivers.Storage.Disks.{DiskOps, Partition, DiskWrapper, partition, DiskScheme}
use drivers.Storage.Disks.Handlers.{
  read, write, access_disk, write_blocks_kept, abs_block, find_partition, put_disk,
}

module _ {D : Type 0} (ops : DiskOps D) (s : DiskScheme D) (w : DiskWrapper D) (id i p : ℕ)
    (parts : List Partition) (part : Partition) (blksize : ℕ) (d : D) where
  -- Handle `id` is open on partition `p` of disk `i`, whose table has it, and the disk tells a
  -- block length other than 0.
  pub record Opened : Type 0 where
    pub handle_is : lookup id s.handles ≡ some (partition i p)
    pub disk_is : get_elem? s.disks i ≡ some w
    pub table_is : w.pt ≡ some parts
    pub part_is : get_elem? parts p ≡ some part
    pub length_is : ops.block_length w.inner ≡ (ok blksize, d)
    pub some_bytes : blksize ≢ 0
    pub fits : part.start_lba + part.size < 2 ^ 64

  located :
      (offset : ℕ)
      → Opened
      → abs_block offset blksize (find_partition w p) ≡ (
          if leb part.size (offset / blksize)
          then err eoverflow
          else ok (part.start_lba + offset / blksize))
  unfolding abs_block
  located offset o = rw (o.table_is, o.part_is) (ground (arith, o.some_bytes, o.fits))

  -- The first block that a read or write accesses: for an offset in the partition, the start of
  -- the partition plus the offset divided by the block length, which is a block of the partition.
  -- For an offset from the end of the partition on, the access is refused by EOVERFLOW, and the
  -- disk is neither read nor written. Only the first block is bounded, for a buffer of any length:
  -- how far the buffer reaches is not looked at.
  pub partition_access :
      (buf : List ℕ) (offset : ℕ)
      → Opened
      → let block = part.start_lba + offset / blksize in
        ((offset / blksize < part.size)
          × (block < part.start_lba + part.size)
          × (read ops id buf offset s
              ≡ (let (r, buf', d') = ops.read_blocks block buf d in (r, buf', put_disk i w d' s)))
          × (write ops id buf offset s
              ≡ (let (r, d') = ops.write_blocks block buf d in (r, buf, put_disk i w d' s))))
        ⊎ ((part.size ≤ offset / blksize)
            × (read ops id buf offset s ≡ (err eoverflow, buf, put_disk i w d s))
            × (write ops id buf offset s ≡ (err eoverflow, buf, put_disk i w d s)))
  unfolding read write access_disk write_blocks_kept
  partition_access buf offset o = elim (Bool-cases (leb part.size (offset / blksize))) [
    | inl past ↦ inr (
      ground arith,
      ground (arith, o.handle_is, o.disk_is, o.length_is, located offset o, past),
      ground (arith, o.handle_is, o.disk_is, o.length_is, located offset o, past),
    )
    | inr inside ↦ inl (
      ground arith,
      ground arith,
      ground (arith, o.handle_is, o.disk_is, o.length_is, located offset o, inside),
      ground (arith, o.handle_is, o.disk_is, o.length_is, located offset o, inside),
    )
  ]
