-- ===== src/Storage/Disks/Paths.antt =====
-- What is listed in storage/ahcid/src/scheme.rs can be opened by its path.
use drivers.Base.{
  ℕ, suc, ◌+◌, ◌^◌, ◌≤◌, ◌<◌, ◌≡◌, refl, ◌∙◌, ap, sym, Bool, true, false, ◌||◌, none, some, List,
  [], ◌∷◌, ◌++◌, if◌then◌else◌, bit_and, length, get_elem?, arith, Bool-cases, Option-cases, inl,
  inr,
}
use drivers.Base.Outcome.{Outcome, ok, err, enolck}
use drivers.Base.Map.{Map}
use drivers.Base.Decimal.{decimal, decimal-append}
use drivers.Storage.Disks.{
  Handle, list, disk, partition, DiskScheme, DiskWrapper, Partition, Constants, check_locks,
  has_partition, open_list, trim_start, trim_end, resolve, enter, xopen,
}
use drivers.Storage.Disks.Locks.{overlap}
use drivers.Storage.Disks.Names.{unless_locked, xopen_disk, xopen_partition}
use drivers.Storage.Disks.Listing.{
  partitions_from, partitions_of, disks_from, path_of, lines, list_disks_lem,
}

-- Whether an open handle overlaps this one
abbrev pub is_busy : Handle → Map Handle → Bool
is_busy new [] = false
is_busy new ((k, h) ∷ m) = overlap new h || is_busy new m

check_locks-disk :
    (i : ℕ) (m : Map Handle)
    → check_locks i none m ≡ (if is_busy (disk i) m then err enolck else ok tt)
unfolding check_locks
check_locks-disk i [] = refl
check_locks-disk i ((k, h) ∷ m) = ground (arith, check_locks-disk i m)

check_locks-partition :
    (i p : ℕ) (m : Map Handle)
    → check_locks i (some p) m ≡ (if is_busy (partition i p) m then err enolck else ok tt)
unfolding check_locks
check_locks-partition i p [] = refl
check_locks-partition i p ((k, h) ∷ m) = ground (arith, check_locks-partition i p m)

same_place :
    {A : Type 0} (xs : List A) (j k : ℕ) (x : A)
    → k ≡ 0 + j
    → get_elem? xs j ≡ some x
    → get_elem? xs k ≡ some x
same_place xs j k x e found = let same : k ≡ j = omega arith in ap (get_elem? xs) same ∙ found

has_place :
    {D : Type 0} (w : DiskWrapper D) (parts : List Partition) (k : ℕ) (q : Partition)
    → w.pt ≡ some parts
    → get_elem? parts k ≡ some q
    → has_partition w k ≡ true
has_place w parts k q table found = ground (arith, table, found)

abbrev pub All : (Handle → Type 0) → List Handle → Type 0
All P [] = Unit
All P (h ∷ hs) = P h × All P hs

All-append : (P : Handle → Type 0) (hs gs : List Handle) → All P hs → All P gs → All P (hs ++ gs)
All-append P [] gs all more = more
All-append P (h ∷ hs) gs (here, all) more = (here, All-append P hs gs all more)

module _ {D : Type 0} (consts : Constants) (flags : ℕ) (s : DiskScheme D) where
  -- Opening the path of that handle as root gives it the next number, unless it is busy.
  abbrev pub Opens : Handle → Type 0
  Opens h =
      xopen consts (path_of h) flags 0 s
      ≡ (if is_busy h s.handles then (err enolck, s) else (ok s.next_id, enter h s))

  unless_busy :
      (h : Handle) (locks : Outcome (Unit {0}))
      → locks ≡ (if is_busy h s.handles then err enolck else ok tt)
      → unless_locked locks h s
        ≡ (if is_busy h s.handles then (err enolck, s) else (ok s.next_id, enter h s))
  unless_busy h locks e = elim (Bool-cases (is_busy h s.handles)) [
    | inl busy ↦ rw (e, busy) refl
    | inr free ↦ rw (e, free) refl
  ]

  disk-Opens :
      (i : ℕ) (w : DiskWrapper D) → i < 2 ^ 64 → get_elem? s.disks i ≡ some w → Opens (disk i)
  disk-Opens i w small there =
      xopen_disk consts flags s w i small there
      ∙ unless_busy (disk i) (check_locks i none s.handles) (check_locks-disk i s.handles)

  partition-Opens :
      (i p : ℕ) (w : DiskWrapper D)
      → i < 2 ^ 64
      → p < 2 ^ 32
      → get_elem? s.disks i ≡ some w
      → has_partition w p ≡ true
      → Opens (partition i p)
  partition-Opens i p w small_i small_p there has =
      rw (sym (decimal-append i [] (b'p' ∷ decimal p []))) (
        xopen_partition consts flags s w i p small_i small_p there has
        ∙ unless_busy (partition i p) (check_locks i (some p) s.handles)
            (check_locks-partition i p s.handles))

  partitions-Opens :
      (i p : ℕ) (w : DiskWrapper D) (parts : List Partition)
      → i < 2 ^ 64
      → get_elem? s.disks i ≡ some w
      → p + length parts ≤ 2 ^ 32
      → ((j k : ℕ) (part : Partition)
          → k ≡ p + j
          → get_elem? parts j ≡ some part
          → has_partition w k ≡ true)
      → All Opens (partitions_from i p parts)
  partitions-Opens i p w [] small there few has = tt
  partitions-Opens i p w (part ∷ parts) small there few has =
      let rest =
        partitions-Opens i (suc p) w parts small there (omega arith)
          (λ j k q e. has (suc j) k q (omega arith)) in
      (partition-Opens i p w small (omega arith) there (has 0 p part (omega arith) refl), rest)

  table-Opens :
      (i : ℕ) (w : DiskWrapper D)
      → i < 2 ^ 64
      → get_elem? s.disks i ≡ some w
      → ((parts : List Partition) → w.pt ≡ some parts → length parts ≤ 2 ^ 32)
      → All Opens (partitions_of i w)
  table-Opens i w small there few = elim (Option-cases w.pt) [
    | inl no_table ↦ rw no_table tt
    | inr (parts, table) ↦ rw table (
        partitions-Opens i 0 w parts small there (omega (arith, few parts table))
          (λ j k q e found. has_place w parts k q table (same_place parts j k q e found)))
  ]

  disks-Opens :
      (i : ℕ) (ws : List (DiskWrapper D))
      → i + length ws ≤ 2 ^ 64
      → ((j k : ℕ) (w : DiskWrapper D)
          → k ≡ i + j
          → get_elem? ws j ≡ some w
          → get_elem? s.disks k ≡ some w)
      → ((k : ℕ) (w : DiskWrapper D) (parts : List Partition)
          → get_elem? s.disks k ≡ some w
          → w.pt ≡ some parts
          → length parts ≤ 2 ^ 32)
      → All Opens (disks_from i ws)
  disks-Opens i [] few at short = tt
  disks-Opens i (w ∷ ws) few at short =
      let there = at 0 i w (omega arith) refl in
      (
        disk-Opens i w (omega arith) there,
        All-append Opens (partitions_of i w) (disks_from (suc i) ws)
            (table-Opens i w (omega arith) there (λ parts. short i w parts there))
            (disks-Opens (suc i) ws (omega arith) (λ j k v e. at (suc j) k v (omega arith)) short),
      )

-- What root sees in a directory and what it can open. Opening the empty path as a directory gives
-- the next number a list of a line for each disk, its place, and one for each partition, the
-- disk's place, the letter p and the partition's. Each of these paths, opened, stands for that
-- disk or that partition: it is refused with ENOLCK if an open handle is on the same disk or
-- partition, or one of the two is the disk of the other's partition, and is else given the next
-- number. There are at most 2 ^ 64 disks, of at most 2 ^ 32 partitions each.
pub xopen_named :
    {D : Type 0} (consts : Constants) (as_directory flags : ℕ) (s : DiskScheme D)
    → bit_and as_directory consts.o_directory ≡ consts.o_directory
    → length s.disks ≤ 2 ^ 64
    → ((k : ℕ) (w : DiskWrapper D) (parts : List Partition)
        → get_elem? s.disks k ≡ some w
        → w.pt ≡ some parts
        → length parts ≤ 2 ^ 32)
    → let listed = disks_from 0 s.disks in
      (xopen consts [] as_directory 0 s ≡ (ok s.next_id, enter (list (lines listed)) s))
      × All (Opens consts flags s) listed
unfolding xopen resolve open_list trim_start trim_end
xopen_named consts as_directory flags s directory few short = (
  ground (arith, directory, list_disks_lem 0 s.disks),
  disks-Opens consts flags s 0 s.disks (omega arith)
      (λ j k w e found. same_place s.disks j k w e found) short,
)
