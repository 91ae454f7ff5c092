-- ===== src/Storage/Disks/Listing.antt =====
-- The listing of disks and partitions in storage/ahcid/src/scheme.rs.
use mathlib.Core.List.{append_assoc}
use drivers.Base.{
  ℕ, suc, ◌≡◌, refl, ◌∙◌, ap, sym, none, some, List, [], ◌∷◌, ◌++◌, Option-cases, inl, inr,
}
use drivers.Base.Decimal.{decimal, decimal-append}
use drivers.Storage.Disks.{
  Handle, list, disk, partition, DiskWrapper, Partition, partition_name, list_partitions,
  list_disks,
}

-- What there is to open: each disk by its place, before its partitions by theirs
abbrev pub partitions_from : (i p : ℕ) → List Partition → List Handle
partitions_from i p [] = []
partitions_from i p (part ∷ parts) = partition i p ∷ partitions_from i (suc p) parts

abbrev pub partitions_of : {D : Type 0} → ℕ → DiskWrapper D → List Handle
partitions_of i w = elim w.pt [ none ↦ [] | some parts ↦ partitions_from i 0 parts ]

abbrev pub disks_from : {D : Type 0} → ℕ → List (DiskWrapper D) → List Handle
disks_from i [] = []
disks_from i (w ∷ ws) = disk i ∷ (partitions_of i w ++ disks_from (suc i) ws)

-- The path of a disk is its number, that of a partition the disk's, the letter p and its own.
abbrev pub path_of : Handle → List ℕ
path_of (list entries) = []
path_of (disk i) = decimal i []
path_of (partition i p) = decimal i [] ++ (b'p' ∷ decimal p [])

-- The paths, each with the end of its line
abbrev pub lines : List Handle → List ℕ
lines [] = []
lines (h ∷ hs) = path_of h ++ (b'\n' ∷ lines hs)

lines-append : (hs gs : List Handle) → lines (hs ++ gs) ≡ lines hs ++ lines gs
lines-append [] gs = refl
lines-append (h ∷ hs) gs =
    rw (lines-append hs gs) (sym (append_assoc (path_of h) (b'\n' ∷ lines hs) (lines gs)))

partition_name-append :
    (i p : ℕ) (tail : List ℕ) → partition_name i p tail ≡ path_of (partition i p) ++ tail
partition_name-append i p tail =
    decimal-append i [] (b'p' ∷ decimal p tail)
    ∙ ap (λ (t : List ℕ). decimal i [] ++ (b'p' ∷ t)) (decimal-append p [] tail)
    ∙ sym (append_assoc (decimal i []) (b'p' ∷ decimal p []) tail)

list_partitions_lem :
    (i p : ℕ) (parts : List Partition)
    → list_partitions i p parts ≡ lines (partitions_from i p parts)
unfolding list_partitions
list_partitions_lem i p [] = refl
list_partitions_lem i p (part ∷ parts) =
    let rest = lines (partitions_from i (suc p) parts) in
    rw (list_partitions_lem i (suc p) parts, partition_name-append i p (b'\n' ∷ []))
      (append_assoc (path_of (partition i p)) (b'\n' ∷ []) rest)

list_partitions_of :
    {D : Type 0} (i : ℕ) (w : DiskWrapper D)
    → elim w.pt [ none ↦ [] | some parts ↦ list_partitions i 0 parts ] ≡ lines (partitions_of i w)
list_partitions_of i w = elim (Option-cases w.pt) [
  | inl no_table ↦ rw no_table refl
  | inr (parts, table) ↦ rw table (list_partitions_lem i 0 parts)
]

pub list_disks_lem :
    {D : Type 0} (i : ℕ) (ws : List (DiskWrapper D)) → list_disks i ws ≡ lines (disks_from i ws)
unfolding list_disks
list_disks_lem i [] = refl
list_disks_lem i (w ∷ ws) =
    let parts = partitions_of i w in
    let rest = disks_from (suc i) ws in
    rw
      (
        list_disks_lem (suc i) ws,
        list_partitions_of i w,
        decimal-append i [] (b'\n' ∷ []),
        lines-append parts rest,
      )
      (append_assoc (decimal i [] ++ (b'\n' ∷ [])) (lines parts) (lines rest)
        ∙ append_assoc (decimal i []) (b'\n' ∷ []) (lines parts ++ lines rest))
