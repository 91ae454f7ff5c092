-- ===== src/Storage/Disks/Calls.antt =====
-- All sequences of calls of storage/ahcid/src/scheme.rs.
use drivers.Base.{ℕ, ◌≡◌, refl, List, [], ◌∷◌, ◌==◌, arith, Bool-cases, inl, inr, Option-cases}
use drivers.Base.Outcome.{Outcome-cases}
use drivers.Base.Map.{lookup}
use drivers.Storage.Disks.{new_scheme, DiskOps, DiskScheme, DiskWrapper, Constants, resolve, xopen}
use drivers.Storage.Disks.Handlers.{
  Stat, read, write, fstat, fpath, fsize, close, access_disk, stat_disk, stat_partition,
  write_blocks_kept,
}
use drivers.Storage.Disks.Locks.{Exclusive, insert-Exclusive, remove-Exclusive, resolve-Free}

-- The calls of a scheme's clients
pub data Call : Type 0 where
  call_xopen : (path : List ℕ) (flags uid : ℕ) → Call
  call_read : (id : ℕ) (buf : List ℕ) (offset : ℕ) → Call
  call_write : (id : ℕ) (buf : List ℕ) (offset : ℕ) → Call
  call_fstat : ℕ → Stat → Call
  call_fpath : ℕ → List ℕ → Call
  call_fsize call_close : ℕ → Call

module _ {D : Type 0} (ops : DiskOps D) (consts : Constants) where
  -- The state after a call, and after a sequence of calls
  pub after_call : Call → DiskScheme D → DiskScheme D
  after_call (call_xopen path flags uid) s = (xopen consts path flags uid s).1
  after_call (call_read id buf offset) s = (read ops id buf offset s).2
  after_call (call_write id buf offset) s = (write ops id buf offset s).2
  after_call (call_fstat id stat) s = (fstat ops consts id stat s).2
  after_call (call_fpath id buf) s = (fpath id buf s).2
  after_call (call_fsize id) s = (fsize ops id s).2
  after_call (call_close id) s = (close id s).1

  pub after_calls : List Call → DiskScheme D → DiskScheme D
  after_calls [] s = s
  after_calls (c ∷ cs) s = after_calls cs (after_call c s)

  abbrev IsExclusive : DiskScheme D → Type 0
  IsExclusive s = Exclusive s.handles s.next_id

  xopen-Exclusive :
      (path : List ℕ) (flags uid : ℕ) (s : DiskScheme D)
      → IsExclusive s
      → IsExclusive (xopen consts path flags uid s).1
  unfolding xopen
  xopen-Exclusive path flags uid s v = elim (Bool-cases (uid == 0)) [
    | inr user ↦ rw (user, xopen) v
    | inl root ↦ elim (Outcome-cases (resolve consts path flags s)) [
      | inl (new, found) ↦
          rw (root, found, xopen)
            (insert-Exclusive new s.handles s.next_id v
              (resolve-Free consts s new path flags found))
      | inr refused ↦ elim refused [
        | inl (e, failed) ↦ rw (root, failed, xopen) v
        | inr failed ↦ rw (root, failed, xopen) v
      ]
    ]
  ]

  -- No other call changes the handles.
  abbrev Kept : DiskScheme D → DiskScheme D → Type 0
  Kept s s' = (s'.handles ≡ s.handles) × (s'.next_id ≡ s.next_id)

  Kept-IsExclusive : (s s' : DiskScheme D) → Kept s s' → IsExclusive s → IsExclusive s'
  Kept-IsExclusive s s' (e, f) v = rw (e, f) v

  read-Kept :
      (id offset : ℕ) (buf : List ℕ) (s : DiskScheme D) → Kept s (read ops id buf offset s).2
  unfolding read access_disk
  read-Kept id offset buf s = ground arith

  write-Kept :
      (id offset : ℕ) (buf : List ℕ) (s : DiskScheme D) → Kept s (write ops id buf offset s).2
  unfolding write access_disk write_blocks_kept
  write-Kept id offset buf s = ground arith

  fstat-Kept : (id : ℕ) (stat : Stat) (s : DiskScheme D) → Kept s (fstat ops consts id stat s).2
  unfolding fstat stat_disk stat_partition
  fstat-Kept id stat s = ground arith

  fsize-Kept : (id : ℕ) (s : DiskScheme D) → Kept s (fsize ops id s).2
  unfolding fsize
  fsize-Kept id s = ground arith

  fpath-Kept : (id : ℕ) (buf : List ℕ) (s : DiskScheme D) → Kept s (fpath id buf s).2
  unfolding fpath
  fpath-Kept id buf s = ground arith

  close-Exclusive : (id : ℕ) (s : DiskScheme D) → IsExclusive s → IsExclusive (close id s).1
  unfolding close
  close-Exclusive id s v = elim (Option-cases (lookup id s.handles)) [
    | inl closed ↦ rw (closed, close) v
    | inr (h, found) ↦ rw (found, close) (remove-Exclusive id s.handles s.next_id v)
  ]

  pub after_call-IsExclusive :
      (c : Call) (s : DiskScheme D) → IsExclusive s → IsExclusive (after_call c s)
  unfolding after_call
  after_call-IsExclusive (call_xopen path flags uid) s v = xopen-Exclusive path flags uid s v
  after_call-IsExclusive (call_read id buf offset) s v =
      Kept-IsExclusive s (read ops id buf offset s).2 (read-Kept id offset buf s) v
  after_call-IsExclusive (call_write id buf offset) s v =
      Kept-IsExclusive s (write ops id buf offset s).2 (write-Kept id offset buf s) v
  after_call-IsExclusive (call_fstat id stat) s v =
      Kept-IsExclusive s (fstat ops consts id stat s).2 (fstat-Kept id stat s) v
  after_call-IsExclusive (call_fpath id buf) s v =
      Kept-IsExclusive s (fpath id buf s).2 (fpath-Kept id buf s) v
  after_call-IsExclusive (call_fsize id) s v =
      Kept-IsExclusive s (fsize ops id s).2 (fsize-Kept id s) v
  after_call-IsExclusive (call_close id) s v = close-Exclusive id s v

  kept-IsExclusive :
      (cs : List Call) (s : DiskScheme D) → IsExclusive s → IsExclusive (after_calls cs s)
  unfolding after_calls
  kept-IsExclusive [] s v = v
  kept-IsExclusive (c ∷ cs) s v =
      kept-IsExclusive cs (after_call c s) (after_call-IsExclusive c s v)

  -- Whatever calls a new scheme serves, no two open handles ever overlap: a disk is open once and
  -- none of its partitions beside it, and a partition is open once. The numbers from the next one
  -- on are free.
  pub calls-Exclusive :
      (name : List ℕ) (disks : List (DiskWrapper D)) (cs : List Call)
      → let s = after_calls cs (new_scheme name disks) in Exclusive s.handles s.next_id
  unfolding new_scheme lookup
  calls-Exclusive name disks cs =
      kept-IsExclusive cs (new_scheme name disks)
        (record { ordered = tt; unused = λ k le. refl; apart = λ k l h h' ne a b. cc })
