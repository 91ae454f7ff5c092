-- ===== src/Storage/Disks/Handlers.antt =====
-- storage/ahcid/src/scheme.rs: the handlers of an open handle.
use drivers.Base.{
  ℕ, ◌+◌, ◌*◌, ◌/◌, ◌%◌, ◌^◌, min, Option, none, some, List, [], ◌++◌, leb, ◌==◌, if◌then◌else◌,
  length, get_elem?, set, take, drop,
}
use drivers.Base.Outcome.{Outcome, ok, err, panicked, ebadf, eoverflow, ok_or, ◌>>=◌}
use drivers.Base.Decimal.{decimal}
use drivers.Base.Map.{lookup, remove}
use drivers.Net.Scheme.{fill, put_colon}
use drivers.Storage.Disks.{
  DiskOps, Partition, DiskWrapper, Handle, list, disk, partition, DiskScheme, Constants,
  partition_name,
}

pub record Stat : Type 0 where
  pub st_mode : ℕ
  pub st_size : ℕ
  pub st_blksize : ℕ
  pub st_blocks : ℕ

-- `&data[o..]`, empty if it starts past the end
abbrev pub from_offset : ℕ → List ℕ → List ℕ
from_offset offset bytes = if leb offset (length bytes) then drop offset bytes else []

-- A buffer with the front of `src` over it, as much as fits, and the number of bytes
abbrev pub copy_front : List ℕ → List ℕ → List ℕ × ℕ
copy_front src buf =
    let count = min (length src) (length buf) in (take count src ++ drop count buf, count)

-- The partition, if the disk has a table and the table has it
abbrev pub find_partition : {D : Type 0} → DiskWrapper D → ℕ → Outcome Partition
find_partition w p = ok_or ebadf w.pt >>= λ parts. ok_or ebadf (get_elem? parts p)

-- The text of a handle's own part of its path
abbrev pub path_of : Handle → List ℕ
path_of (list entries) = []
path_of (disk number) = decimal number []
path_of (partition disk_num part_num) = partition_name disk_num part_num []

-- The block that an offset lies in; a block length of 0 is a division by zero.
abbrev pub block_at : ℕ → ℕ → Outcome ℕ
block_at offset blksize = if blksize == 0 then panicked else ok (offset / blksize)

-- The block of the disk for an offset in a partition. The sum wraps; the check of the block
-- against the partition comes after it.
unfoldable pub abs_block : ℕ → ℕ → Outcome Partition → Outcome ℕ
abs_block offset blksize found = do
  rel_block ← block_at offset blksize
  part ← found
  if leb part.size rel_block then err eoverflow else ok ((part.start_lba + rel_block) % 2 ^ 64)

module _ {D : Type 0} where
  abbrev pub put_disk : ℕ → DiskWrapper D → D → DiskScheme D → DiskScheme D
  put_disk i w d s = record s { disks = set s.disks i (record { inner = d; pt = w.pt }) }

  -- `self.disks.get_mut(number).ok_or(Error::new(EBADF))?`, and then the rest
  abbrev pub with_disk {ℓ} :
      {B : Type ℓ}
      → ℕ
      → DiskScheme D
      → B
      → (DiskWrapper D → Outcome (Option ℕ) × B × DiskScheme D)
      → Outcome (Option ℕ) × B × DiskScheme D
  with_disk i s b body = elim (get_elem? s.disks i) [ none ↦ (err ebadf, b, s) | some w ↦ body w ]

  unfoldable pub fpath : ℕ → List ℕ → DiskScheme D → Outcome (Option ℕ) × List ℕ × DiskScheme D
  unfolding fill
  fpath id buf s = elim (lookup id s.handles) [
    | none ↦ (err ebadf, buf, s)
    | some handle ↦
        let (named, i) = fill buf 0 s.scheme_name in
        let (marked, k) = put_colon named i in
        let (full, n) = fill marked k (path_of handle) in (ok (some n), full, s)
  ]

  unfoldable pub close : ℕ → DiskScheme D → Outcome (Option ℕ) × DiskScheme D
  close id s = elim (lookup id s.handles) [
    | none ↦ (err ebadf, s)
    | some handle ↦ (ok (some 0), record s { handles = remove id s.handles })
  ]

module _ {D : Type 0} (ops : DiskOps D) where
  -- The block number that `find` gives for the block length, and the access to the disk there
  unfoldable pub access_disk :
      (ℕ → List ℕ → D → Outcome (Option ℕ) × List ℕ × D)
      → (ℕ → Outcome ℕ)
      → ℕ
      → List ℕ
      → DiskWrapper D
      → DiskScheme D
      → Outcome (Option ℕ) × List ℕ × DiskScheme D
  access_disk operation find i buf w s =
      let (blksize, d) = ops.block_length w.inner in
      elim (blksize >>= find) [
        | err e ↦ (err e, buf, put_disk i w d s)
        | panicked ↦ (panicked, buf, put_disk i w d s)
        | ok block ↦ let (r, buf', d') = operation block buf d in (r, buf', put_disk i w d' s)
      ]

  unfoldable pub read : ℕ → List ℕ → ℕ → DiskScheme D → Outcome (Option ℕ) × List ℕ × DiskScheme D
  unfolding access_disk abs_block
  read id buf offset s = elim (lookup id s.handles) [
    | none ↦ (err ebadf, buf, s)
    | some (list entries) ↦
        let (buf', count) = copy_front (from_offset offset entries) buf in
        (ok (some count), buf', s)
    | some (disk number) ↦
        with_disk number s buf
          (λ w. access_disk ops.read_blocks (λ blksize. block_at offset blksize) number buf w s)
    | some (partition disk_num part_num) ↦ with_disk disk_num s buf (λ w.
        access_disk ops.read_blocks
          (λ blksize. abs_block offset blksize (find_partition w part_num)) disk_num buf w s)
  ]

  -- The buffer is only read.
  unfoldable pub write_blocks_kept : ℕ → List ℕ → D → Outcome (Option ℕ) × List ℕ × D
  write_blocks_kept block buf d = let (r, d') = ops.write_blocks block buf d in (r, buf, d')

  unfoldable pub write : ℕ → List ℕ → ℕ → DiskScheme D → Outcome (Option ℕ) × List ℕ × DiskScheme D
  unfolding access_disk abs_block write_blocks_kept
  write id buf offset s = elim (lookup id s.handles) [
    | none ↦ (err ebadf, buf, s)
    | some (list entries) ↦ (err ebadf, buf, s)
    | some (disk number) ↦
        with_disk number s buf
          (λ w. access_disk write_blocks_kept (λ blksize. block_at offset blksize) number buf w s)
    | some (partition disk_num part_num) ↦ with_disk disk_num s buf (λ w.
        access_disk write_blocks_kept
          (λ blksize. abs_block offset blksize (find_partition w part_num)) disk_num buf w s)
  ]

  unfoldable pub fsize : ℕ → DiskScheme D → Outcome (Option ℕ) × Unit {0} × DiskScheme D
  fsize id s = elim (lookup id s.handles) [
    | none ↦ (err ebadf, tt, s)
    | some (list entries) ↦ (ok (some (length entries)), tt, s)
    | some (disk number) ↦
        with_disk number s tt
          (λ w. let (size, d) = ops.size w.inner in (ok (some size), tt, put_disk number w d s))
    | some (partition disk_num part_num) ↦ with_disk disk_num s tt (λ w.
        elim (find_partition w part_num) [
          | err e ↦ (err e, tt, s)
          | panicked ↦ (panicked, tt, s)
          | ok part ↦
              let (blksize, d) = ops.block_length w.inner in
              (blksize >>= λ b. ok (some (b * part.size % 2 ^ 64)), tt, put_disk disk_num w d s)
        ])
  ]

module _ {D : Type 0} (ops : DiskOps D) (consts : Constants) where
  -- What is written before an error stays written.
  unfoldable pub stat_disk :
      ℕ → Stat → DiskWrapper D → DiskScheme D → Outcome (Option ℕ) × Stat × DiskScheme D
  stat_disk number stat w s =
      let (size, d) = ops.size w.inner in
      let (blksize, d') = ops.block_length d in
      let sized = record stat { st_mode = consts.mode_file; st_size = size } in
      elim blksize [
        | ok b ↦ (ok (some 0), record sized { st_blksize = b }, put_disk number w d' s)
        | err e ↦ (err e, sized, put_disk number w d' s)
        | panicked ↦ (panicked, sized, put_disk number w d' s)
      ]

  -- The block length is asked for twice.
  unfoldable pub stat_partition :
      ℕ → Stat → Partition → DiskWrapper D → DiskScheme D → Outcome (Option ℕ) × Stat × DiskScheme D
  stat_partition disk_id stat part w s =
      let (first, d) = ops.block_length w.inner in
      let (second, d') = ops.block_length d in
      let moded = record stat { st_mode = consts.mode_file } in
      elim first [
        | err e ↦ (err e, moded, put_disk disk_id w d s)
        | panicked ↦ (panicked, moded, put_disk disk_id w d s)
        | ok b ↦
            let sized = record moded { st_size = part.size * b % 2 ^ 64 } in
            elim second [
              | err e ↦ (err e, sized, put_disk disk_id w d' s)
              | panicked ↦ (panicked, sized, put_disk disk_id w d' s)
              | ok b' ↦ (
                ok (some 0),
                record sized { st_blksize = b'; st_blocks = part.size },
                put_disk disk_id w d' s,
              )
            ]
      ]

  unfoldable pub fstat : ℕ → Stat → DiskScheme D → Outcome (Option ℕ) × Stat × DiskScheme D
  unfolding stat_disk stat_partition
  fstat id stat s = elim (lookup id s.handles) [
    | none ↦ (err ebadf, stat, s)
    | some (list entries) ↦
        (ok (some 0), record stat { st_mode = consts.mode_dir; st_size = length entries }, s)
    | some (disk number) ↦ with_disk number s stat (λ w. stat_disk number stat w s)
    | some (partition disk_id part_num) ↦ with_disk disk_id s stat (λ w.
        elim (find_partition w part_num) [
          | err e ↦ (err e, stat, s)
          | panicked ↦ (panicked, stat, s)
          | ok part ↦ stat_partition disk_id stat part w s
        ])
  ]
