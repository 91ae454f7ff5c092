-- ===== src/Storage/Disks.antt =====
-- storage/ahcid/src/scheme.rs: the scheme of the disks of one controller and of their partitions.
-- A disk is a parameter, the `Disk` trait of storage/driver-block/src/lib.rs; so are the constants
-- of the system call interface. Paths are bytes of ASCII text.
pub mod Handlers
pub mod Locks
pub mod Calls
pub mod Bounds
pub mod Listing
pub mod Names
pub mod Paths
mod Tests
use drivers.Base.{
  ℕ, suc, ◌+◌, ◌^◌, bit_and, Bool, true, false, not, ◌&&◌, Option, none, some, List, [], ◌∷◌, ◌++◌,
  ◌==◌, if◌then◌else◌, length, get_elem?,
}
use drivers.Base.Outcome.{Outcome, ok, err, Errno, eacces, eisdir, enoent, enolck, ok_or, ◌>>=◌}
use drivers.Base.Decimal.{decimal, parse_below, split_at}
use drivers.Base.Map.{Map, insert}

-- `trait Disk`. Reading stores in the buffer; `ok none` means that the disk is busy.
pub record DiskOps (D : Type 0) : Type 0 where
  pub block_length : D → Outcome ℕ × D
  pub size : D → ℕ × D
  pub read_blocks : ℕ → List ℕ → D → Outcome (Option ℕ) × List ℕ × D
  pub write_blocks : ℕ → List ℕ → D → Outcome (Option ℕ) × D

pub record Partition : Type 0 where
  pub start_lba : ℕ
  pub size : ℕ

-- A disk with its partitions, if it has a partition table.
pub record DiskWrapper (D : Type 0) : Type 0 where
  pub inner : D
  pub pt : Option (List Partition)

pub data Handle : Type 0 where
  list : List ℕ → Handle
  disk : ℕ → Handle
  partition : ℕ → ℕ → Handle

-- The state, but for the registers of the controller.
pub record DiskScheme (D : Type 0) : Type 0 where
  pub scheme_name : List ℕ
  pub disks : List (DiskWrapper D)
  pub handles : Map Handle
  pub next_id : ℕ

-- `DiskScheme::new`, once `DiskWrapper::new` has read the partition tables
unfoldable pub new_scheme : {D : Type 0} → List ℕ → List (DiskWrapper D) → DiskScheme D
new_scheme name disks = record { scheme_name = name; disks = disks; handles = []; next_id = 0 }

pub record Constants : Type 0 where
  pub o_directory : ℕ
  pub o_stat : ℕ
  pub mode_dir : ℕ
  pub mode_file : ℕ

-- `trim_matches('/')`
unfoldable pub trim_start : List ℕ → List ℕ
trim_start [] = []
trim_start (x ∷ xs) = let rest = trim_start xs in if x == b'/' then rest else x ∷ xs

unfoldable pub trim_end : List ℕ → List ℕ
trim_end [] = []
trim_end (x ∷ xs) = elim (trim_end xs) [
  | [] ↦ if x == b'/' then [] else x ∷ []
  | y ∷ ys ↦ x ∷ y ∷ ys
]

-- Whether a handle on a disk, or on a partition of it, conflicts with an open handle
abbrev pub conflicts : ℕ → Option ℕ → Handle → Bool
conflicts disk_i part_i_opt (list entries) = false
conflicts disk_i part_i_opt (disk i) = disk_i == i
conflicts disk_i none (partition i p) = disk_i == i
conflicts disk_i (some part_i) (partition i p) = disk_i == i && part_i == p

unfoldable pub check_locks : ℕ → Option ℕ → Map Handle → Outcome (Unit {0})
check_locks disk_i part_i_opt [] = ok tt
check_locks disk_i part_i_opt ((k, h) ∷ m) =
    let rest = check_locks disk_i part_i_opt m in
    if conflicts disk_i part_i_opt h then err enolck else rest

-- The name of a partition, and a line of the listing
abbrev pub partition_name : ℕ → ℕ → List ℕ → List ℕ
partition_name i p tail = decimal i (b'p' ∷ decimal p tail)

abbrev newline : List ℕ
newline = b'\n' ∷ []

-- The lines of the partitions from number `p` on, and of the disks from number `i` on
unfoldable pub list_partitions : ℕ → ℕ → List Partition → List ℕ
list_partitions i p [] = []
list_partitions i p (part ∷ parts) = partition_name i p newline ++ list_partitions i (suc p) parts

unfoldable pub list_disks : {D : Type 0} → ℕ → List (DiskWrapper D) → List ℕ
unfolding list_partitions
list_disks i [] = []
list_disks i (w ∷ ws) =
    let partitions : List ℕ = elim w.pt [ none ↦ [] | some parts ↦ list_partitions i 0 parts ] in
    decimal i newline ++ partitions ++ list_disks (suc i) ws

-- Whether the disk has that partition
abbrev pub has_partition : {D : Type 0} → DiskWrapper D → ℕ → Bool
has_partition w p = elim w.pt [
  | none ↦ false
  | some parts ↦ elim (get_elem? parts p) [ none ↦ false | some part ↦ true ]
]

module _ {D : Type 0} where
  open_disk : List ℕ → DiskScheme D → Outcome Handle
  unfolding check_locks
  open_disk path s = do
    i ← ok_or enoent (parse_below (2 ^ 64) path)
    _ ← ok_or enoent (get_elem? s.disks i)
    _ ← check_locks i none s.handles
    ok (disk i)

  open_partition : List ℕ → List ℕ → DiskScheme D → Outcome Handle
  unfolding check_locks
  open_partition disk_id part_id s = if length part_id == 0 then err enoent else do
    i ← ok_or enoent (parse_below (2 ^ 64) disk_id)
    p ← ok_or enoent (parse_below (2 ^ 32) part_id)
    w ← ok_or enoent (get_elem? s.disks i)
    if has_partition w p
        then (check_locks i (some p) s.handles >>= λ _. ok (partition i p))
        else err enoent

  abbrev pub enter : Handle → DiskScheme D → DiskScheme D
  enter handle s = record s { next_id = s.next_id + 1; handles = insert s.next_id handle s.handles }

module _ {D : Type 0} (consts : Constants) where
  open_list : ℕ → DiskScheme D → Outcome Handle
  unfolding list_disks
  open_list flags s =
      if not (bit_and flags consts.o_directory == consts.o_directory)
        && not (bit_and flags consts.o_stat == consts.o_stat)
      then err eisdir
      else ok (list (list_disks 0 s.disks))

  -- The handle that a path stands for
  unfoldable pub resolve : List ℕ → ℕ → DiskScheme D → Outcome Handle
  unfolding trim_start trim_end open_list open_disk open_partition
  resolve path flags s =
      let path_str = trim_end (trim_start path) in
      if length path_str == 0 then open_list flags s else elim (split_at b'p' path_str) [
        | none ↦ open_disk path_str s
        | some (disk_id, part_id) ↦ open_partition disk_id part_id s
      ]

  -- `xopen`: the number of the new handle
  unfoldable pub xopen : List ℕ → ℕ → ℕ → DiskScheme D → Outcome ℕ × DiskScheme D
  unfolding resolve
  xopen path flags uid s = if not (uid == 0) then (err eacces, s) else elim (resolve path flags s) [
    | ok handle ↦ (ok s.next_id, enter handle s)
    | err e ↦ (err e, s)
    | Outcome.panicked ↦ (Outcome.panicked, s)
  ]
