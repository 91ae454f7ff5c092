-- ===== src/Storage/Disks/Tests.antt =====
-- The theorems on the disk scheme at concrete inputs.
use drivers.Base.{
  ℕ, zero, suc, ◌+◌, ◌^◌, ◌*◌, ◌/◌, ◌≤◌, ◌<◌, ◌≡◌, refl, ◌⊎◌, some, List, [], ◌∷◌, length,
  get_elem?, arith,
}
use drivers.Base.Decimal.{decimal}
use drivers.Base.Map.{lookup}
use drivers.Base.Outcome.{ok, err, eoverflow}
use drivers.Storage.Disks.{
  new_scheme, list, enter, DiskOps, Partition, partition, DiskScheme, DiskWrapper, Constants, xopen,
}
use drivers.Storage.Disks.Handlers.{put_disk, read, write}
use drivers.Storage.Disks.Locks.{Exclusive}
use drivers.Storage.Disks.Calls.{
  Call, call_xopen, call_read, call_close, after_calls, calls-Exclusive,
}
use drivers.Storage.Disks.Bounds.{Opened, partition_access}
use drivers.Storage.Disks.Listing.{disks_from, lines}
use drivers.Storage.Disks.Paths.{All, Opens, xopen_named}

-- A disk of blocks of 512 bytes that counts its accesses
abbrev disk_ops : DiskOps ℕ
disk_ops = record {
  block_length = λ d. (ok 512, d);
  size = λ d. (512 * 100, d);
  read_blocks = λ block buf d. (ok (some (length buf)), 1 ∷ [], d + 1);
  write_blocks = λ block buf d. (ok (some (length buf)), d + 1);
}

abbrev consts : Constants
consts = record { o_directory = 1; o_stat = 2; mode_dir = 4; mode_file = 8 }

abbrev first_part : Partition
first_part = record { start_lba = 34; size = 10 }

abbrev parts : List Partition
parts = record { start_lba = 2; size = 32 } ∷ first_part ∷ []

abbrev a_disk : DiskWrapper ℕ
a_disk = record { inner = 0; pt = some parts }

-- Opening a partition of disk 0, the disk, which is refused, and reading the partition
abbrev some_calls : List Call
some_calls =
    call_xopen (b'0' ∷ b'p' ∷ b'1' ∷ []) 0 0
    ∷ call_xopen (b'0' ∷ []) 0 0
    ∷ call_read 0 (0 ∷ []) 512
    ∷ call_xopen (b'0' ∷ b'p' ∷ b'0' ∷ []) 0 0
    ∷ call_close 0
    ∷ []

calls-Exclusive_example :
    let s = after_calls disk_ops consts some_calls (new_scheme [] (a_disk ∷ [])) in
    Exclusive s.handles s.next_id
calls-Exclusive_example = calls-Exclusive disk_ops consts [] (a_disk ∷ []) some_calls

abbrev opened_one : DiskScheme ℕ
opened_one = record {
  scheme_name = [];
  disks = a_disk ∷ [];
  handles = (0, partition 0 1) ∷ [];
  next_id = 1;
}

opened_one-Opened : Opened disk_ops opened_one a_disk 0 0 1 parts first_part 512 0
unfolding lookup
opened_one-Opened = record {
  handle_is = refl;
  disk_is = refl;
  table_is = refl;
  part_is = refl;
  length_is = refl;
  some_bytes = omega arith;
  fits = omega arith;
}

-- The bytes from 1024 on are in block 2 of the partition, block 36 of the disk.
partition_access_example :
    let block = 34 + 1024 / 512 in
    ((1024 / 512 < 10)
      × (block < 34 + 10)
      × (read disk_ops 0 (0 ∷ []) 1024 opened_one ≡ (
          let (r, buf', d') = disk_ops.read_blocks block (0 ∷ []) 0 in
          (r, buf', put_disk 0 a_disk d' opened_one)))
      × (write disk_ops 0 (0 ∷ []) 1024 opened_one ≡ (
          let (r, d') = disk_ops.write_blocks block (0 ∷ []) 0 in
          (r, 0 ∷ [], put_disk 0 a_disk d' opened_one))))
    ⊎ ((10 ≤ 1024 / 512)
        × (read disk_ops 0 (0 ∷ []) 1024 opened_one
            ≡ (err eoverflow, 0 ∷ [], put_disk 0 a_disk 0 opened_one))
        × (write disk_ops 0 (0 ∷ []) 1024 opened_one
            ≡ (err eoverflow, 0 ∷ [], put_disk 0 a_disk 0 opened_one)))
partition_access_example =
    partition_access disk_ops opened_one a_disk 0 0 1 parts first_part 512 0 (0 ∷ []) 1024
      opened_one-Opened

few_parts :
    (k : ℕ) (w : DiskWrapper ℕ) (table : List Partition)
    → get_elem? opened_one.disks k ≡ some w
    → w.pt ≡ some table
    → length table ≤ 2 ^ 32
few_parts zero w table here tabled = ground arith
few_parts (suc k) w table here tabled = ground arith

xopen_named_example :
    let listed = disks_from 0 opened_one.disks in
    (xopen consts [] 1 0 opened_one ≡ (ok 1, enter (list (lines listed)) opened_one))
    × All (Opens consts 0 opened_one) listed
xopen_named_example = xopen_named consts 1 0 opened_one refl (omega arith) few_parts

-- Disk 0 has two partitions, and partition 1 is open.
listing :
    lines (disks_from 0 opened_one.disks)
    ≡ b'0' ∷ b'\n' ∷ b'0' ∷ b'p' ∷ b'0' ∷ b'\n' ∷ b'0' ∷ b'p' ∷ b'1' ∷ b'\n' ∷ []
unfolding decimal
listing = refl
