-- ===== src/Storage/Disks/Locks.antt =====
-- Who may have a disk or a partition open, in storage/ahcid/src/scheme.rs.
use drivers.Base.{
  ℕ, ◌+◌, ◌^◌, ◌≤◌, ◌≡◌, ◌≢◌, refl, Bool, false, ◌&&◌, Option, none, some, List, [], ◌∷◌, ◌==◌,
  length, arith, Bool-cases, inl, inr, Option-cases,
}
use drivers.Base.Decimal.{parse_below, split_at}
use drivers.Base.Outcome.{ok}
use drivers.Base.Map.{
  Map, lookup, insert, remove, lookup-insert, lookup-remove, IsOrdered, insert-IsOrdered,
  remove-IsOrdered,
}
use drivers.Storage.Disks.{
  Handle, list, disk, partition, DiskScheme, Constants, conflicts, check_locks, open_list,
  open_disk, open_partition, trim_start, trim_end, resolve,
}

-- Both handles reach some block in common: a disk overlaps itself and its partitions.
abbrev pub overlap : Handle → Handle → Bool
overlap (list a) h = false
overlap (disk i) (list a) = false
overlap (disk i) (disk j) = i == j
overlap (disk i) (partition j q) = i == j
overlap (partition i p) (list a) = false
overlap (partition i p) (disk j) = i == j
overlap (partition i p) (partition j q) = i == j && p == q

-- No two open handles overlap, and the numbers from `next` on are free.
pub record Exclusive (m : Map Handle) (next : ℕ) : Type 0 where
  pub ordered : IsOrdered m
  pub unused : (k : ℕ) → next ≤ k → lookup k m ≡ none
  pub apart :
      (k l : ℕ) (h h' : Handle)
      → k ≢ l
      → lookup k m ≡ some h
      → lookup l m ≡ some h'
      → overlap h h' ≡ false

check_locks-conflicts :
    (i : ℕ) (po : Option ℕ) (m : Map Handle) (k : ℕ) (h : Handle)
    → check_locks i po m ≡ ok tt
    → lookup k m ≡ some h
    → conflicts i po h ≡ false
unfolding check_locks lookup
check_locks-conflicts i po [] k h free found = cc
check_locks-conflicts i po ((j, g) ∷ m) k h free found =
    ground (arith, check_locks-conflicts i po m k h)

-- No open handle overlaps this one.
abbrev pub Free : Handle → Map Handle → Type 0
Free new m = (k : ℕ) (h : Handle) → lookup k m ≡ some h → overlap new h ≡ false

disk-Free : (i : ℕ) (m : Map Handle) → check_locks i none m ≡ ok tt → Free (disk i) m
disk-Free i m free k (list a) found = refl
disk-Free i m free k (disk j) found = check_locks-conflicts i none m k (disk j) free found
disk-Free i m free k (partition j q) found =
    check_locks-conflicts i none m k (partition j q) free found

partition-Free :
    (i p : ℕ) (m : Map Handle) → check_locks i (some p) m ≡ ok tt → Free (partition i p) m
partition-Free i p m free k (list a) found = refl
partition-Free i p m free k (disk j) found =
    check_locks-conflicts i (some p) m k (disk j) free found
partition-Free i p m free k (partition j q) found =
    check_locks-conflicts i (some p) m k (partition j q) free found

module _ {D : Type 0} (consts : Constants) (s : DiskScheme D) (new : Handle) where
  open_list-Free : (flags : ℕ) → open_list consts flags s ≡ ok new → Free new s.handles
  unfolding open_list
  open_list-Free flags e k h found = ground arith

  open_disk-Free : (path : List ℕ) → open_disk path s ≡ ok new → Free new s.handles
  unfolding open_disk
  open_disk-Free path e k h found = elim (Option-cases (parse_below (2 ^ 64) path)) [
    | inl bad ↦ ground (arith, bad)
    | inr (i, parsed) ↦ ground (arith, parsed, check_locks-conflicts i none s.handles k h)
  ]

  open_partition-Free :
      (disk_id part_id : List ℕ) → open_partition disk_id part_id s ≡ ok new → Free new s.handles
  unfolding open_partition
  open_partition-Free disk_id part_id e k h found =
      elim (Option-cases (parse_below (2 ^ 64) disk_id)) [
        | inl bad ↦ ground (arith, bad)
        | inr (i, parsed) ↦ elim (Option-cases (parse_below (2 ^ 32) part_id)) [
          | inl bad ↦ ground (arith, parsed, bad)
          | inr (p, part) ↦
              ground (arith, parsed, part, check_locks-conflicts i (some p) s.handles k h)
        ]
      ]

  pub resolve-Free :
      (path : List ℕ) (flags : ℕ) → resolve consts path flags s ≡ ok new → Free new s.handles
  unfolding resolve
  resolve-Free path flags e = elim (Bool-cases (length (trim_end (trim_start path)) == 0)) [
    | inl empty ↦ open_list-Free flags (rw (empty, resolve) at e)
    | inr full ↦ elim (Option-cases (split_at b'p' (trim_end (trim_start path)))) [
      | inl whole ↦ open_disk-Free _ (rw (full, whole, resolve) at e)
      | inr ((a, b), parted) ↦ open_partition-Free a b (rw (full, parted, resolve) at e)
    ]
  ]

overlap-sym : (a b : Handle) → overlap a b ≡ overlap b a
overlap-sym a b = ground arith

pub insert-Exclusive :
    (new : Handle) (m : Map Handle) (n : ℕ)
    → Exclusive m n
    → Free new m
    → Exclusive (insert n new m) (n + 1)
insert-Exclusive new m n v free = record {
  ordered = insert-IsOrdered n new m v.ordered;
  unused = λ k le. ground (arith, lookup-insert n k new m, v.unused k);
  apart = λ k l h h' ne at_k at_l. ground (
    arith,
    lookup-insert n k new m,
    lookup-insert n l new m,
    v.apart k l h h',
    free k h,
    free l h',
    overlap-sym h new,
  );
}

pub remove-Exclusive : (id : ℕ) (m : Map Handle) (n : ℕ) → Exclusive m n → Exclusive (remove id m) n
remove-Exclusive id m n v = record {
  ordered = remove-IsOrdered id m v.ordered;
  unused = λ k le. ground (arith, lookup-remove id k m v.ordered, v.unused k);
  apart = λ k l h h' ne at_k at_l.
      ground
        (arith, lookup-remove id k m v.ordered, lookup-remove id l m v.ordered, v.apart k l h h');
}
