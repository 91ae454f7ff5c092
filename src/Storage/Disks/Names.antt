-- ===== src/Storage/Disks/Names.antt =====
-- The names of disks and partitions in storage/ahcid/src/scheme.rs: the numbers in a
-- path are read as they are printed.
use drivers.Base.{
  ℕ, ◌^◌, ◌<◌, ◌≡◌, refl, true, false, none, some, List, [], ◌∷◌, ◌==◌, get_elem?, arith,
}
use drivers.Base.Outcome.{Outcome, ok, err, panicked}
use drivers.Base.Decimal.{
  decimal, length-decimal, parse-decimal, split_at, decimal-split_none, split_at-decimal,
}
use drivers.Storage.Disks.{
  Handle, disk, partition, DiskScheme, DiskWrapper, Constants, check_locks, partition_name,
  has_partition, trim_start, trim_end, open_disk, open_partition, resolve, enter, xopen,
}

-- A text with no slash is left alone by the trimming.
trim_start-none : (xs : List ℕ) → split_at b'/' xs ≡ none → trim_start xs ≡ xs
unfolding trim_start split_at
trim_start-none [] e = refl
trim_start-none (x ∷ xs) e = ground arith

trim_end-none : (xs : List ℕ) → split_at b'/' xs ≡ none → trim_end xs ≡ xs
unfolding trim_end split_at
trim_end-none [] e = refl
trim_end-none (x ∷ xs) e = ground (arith, trim_end-none xs)

trim_none : (xs : List ℕ) → split_at b'/' xs ≡ none → trim_end (trim_start xs) ≡ xs
trim_none xs e = rw (trim_start-none xs e) (trim_end-none xs e)

split_cons_none :
    (c x : ℕ) (xs : List ℕ) → split_at c xs ≡ none → (x == c) ≡ false → split_at c (x ∷ xs) ≡ none
unfolding split_at
split_cons_none c x xs e ne = ground arith

-- How an open ends that is refused only for another handle's sake
abbrev pub unless_locked :
    {D : Type 0} → Outcome (Unit {0}) → Handle → DiskScheme D → Outcome ℕ × DiskScheme D
unless_locked locks handle s = elim locks [
  | ok _ ↦ (ok s.next_id, enter handle s)
  | err e ↦ (err e, s)
  | panicked ↦ (panicked, s)
]

module _ {D : Type 0} (consts : Constants) (flags : ℕ) (s : DiskScheme D) (w : DiskWrapper D)
    (i : ℕ) where
  pub xopen_disk :
      i < 2 ^ 64
      → get_elem? s.disks i ≡ some w
      → xopen consts (decimal i []) flags 0 s
        ≡ unless_locked (check_locks i none s.handles) (disk i) s
  unfolding xopen resolve open_disk
  xopen_disk small_i there =
      let no_slash : split_at b'/' (decimal i []) ≡ none =
        decimal-split_none b'/' i [] refl (unfold split_at in refl) in
      let no_p : split_at b'p' (decimal i []) ≡ none =
        decimal-split_none b'p' i [] refl (unfold split_at in refl) in
      rw (trim_none (decimal i []) no_slash, length-decimal i [], no_p, xopen, resolve)
        (rw (trim_none (decimal i []) no_slash, parse-decimal (2 ^ 64) i small_i, there, open_disk)
          (ground arith))

  pub xopen_partition :
      (p : ℕ)
      → i < 2 ^ 64
      → p < 2 ^ 32
      → get_elem? s.disks i ≡ some w
      → has_partition w p ≡ true
      → xopen consts (partition_name i p []) flags 0 s
        ≡ unless_locked (check_locks i (some p) s.handles) (partition i p) s
  unfolding xopen resolve open_partition
  xopen_partition p small_i small_p there has =
      let named : split_at b'/' (partition_name i p []) ≡ none =
        decimal-split_none b'/' i (b'p' ∷ decimal p []) refl (
          split_cons_none b'/' b'p' (decimal p [])
            (decimal-split_none b'/' p [] refl (unfold split_at in refl)) refl) in
      let parted : split_at b'p' (partition_name i p []) ≡ some (decimal i [], decimal p []) =
        split_at-decimal b'p' i (decimal p []) refl in
      rw
        (
          trim_none (partition_name i p []) named,
          length-decimal i (b'p' ∷ decimal p []),
          parted,
          length-decimal p [],
          parse-decimal (2 ^ 64) i small_i,
          parse-decimal (2 ^ 32) p small_p,
          there,
          has,
          xopen,
          resolve,
          open_partition,
        )
        (ground arith)
