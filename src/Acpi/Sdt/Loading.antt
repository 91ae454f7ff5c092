-- ===== src/Acpi/Sdt/Loading.antt =====
-- What is loaded from physical memory, in acpid/src/acpi.rs.
use drivers.Base.{
  ℕ, zero, suc, ◌+◌, ◌-◌, ◌*◌, ◌/◌, ◌%◌, min, ◌≤◌, ◌<◌, ◌≡◌, refl, ◌∙◌, ap, true, false, Option,
  some, List, ◌++◌, ltb, ◌==◌, length, take, drop, arith, ◌⊎◌, inl, inr, Bool-cases,
}
use native.Mathlib.Decide.{dec_le}
use drivers.Base.Endian.{from_le}
use drivers.Storage.Block.Bytes.{bytes, length-bytes, bytes_add, chunk-bytes, drop-bytes}
use drivers.Acpi.Sdt.{new, header_length, pages_for, load_rest, load_pages, load_from_physical}

none_left : (n : ℕ) → (n == 0) ≡ true → n ≡ 0
none_left n e = ground arith

some_left : (n : ℕ) → (n == 0) ≡ false → 0 < n
some_left n e = ground arith

long_enough : (a b : ℕ) → b ≤ a → ltb a b ≡ false
long_enough a b h = ground arith

next_place :
    (left at so_far offset : ℕ)
    → offset ≡ at + so_far
    → offset % 4096 ≡ 0
    → let n = min left (4096 * 4) in
      (left - n ≡ 0) ⊎ ((offset + n ≡ at + (so_far + n)) × ((offset + n) % 4096 ≡ 0))
next_place left at so_far offset at_is aligned = elim (dec_le left 16384) [
  | yes last ↦ inl (omega arith)
  | no further ↦ inr (omega arith, omega arith)
]

first_place :
    (total m physaddr start count : ℕ)
    → m ≡ count * 4096 - physaddr % 4096
    → start ≡ physaddr / 4096 * 4096
    → physaddr % 4096 ≤ count * 4096
    → (total - min total m ≡ 0)
      ⊎ ((start + count * 4096 ≡ physaddr + min total m) × ((start + count * 4096) % 4096 ≡ 0))
first_place total m physaddr start count e f g = elim (dec_le total m) [
  | yes last ↦ inl (omega arith)
  | no further ↦ inr (omega arith, omega arith)
]

enough_room : (page_offset : ℕ) → ltb (4096 - page_offset) 36 ≡ false → 36 ≤ 1 * 4096 - page_offset
enough_room page_offset e = ground arith

module _ (physmap : (page page_count : ℕ) → Option (List ℕ)) (memory : ℕ → ℕ)
    (maps : (page page_count : ℕ)
      → page % 4096 ≡ 0
      → physmap page page_count ≡ some (bytes memory page (page_count * 4096))) where
  turn_lem :
      (fuel left at so_far offset : ℕ)
      → 0 < left
      → offset ≡ at + so_far
      → offset % 4096 ≡ 0
      → load_rest physmap (suc fuel) left offset (bytes memory at so_far)
        ≡ load_rest physmap fuel
            (left - min left (4096 * 4))
            (offset + min left (4096 * 4))
            (bytes memory at (so_far + min left (4096 * 4)))
  unfolding load_rest
  turn_lem fuel left at so_far offset more at_is aligned =
      let n = min left (4096 * 4) in
      let count = pages_for n * 4096 in
      let pages = bytes memory offset count in
      let more' : (left == 0) ≡ false = ground arith in
      let fits : ltb (length pages) n ≡ false =
        long_enough (length pages) n (omega (arith, length-bytes memory offset count)) in
      let taken : take n pages ≡ bytes memory offset n =
        chunk-bytes memory offset 0 n count offset (omega arith) (omega arith) in
      let joined : bytes memory at so_far ++ bytes memory offset n ≡ bytes memory at (so_far + n) =
        bytes_add memory at so_far n offset (so_far + n) at_is refl in
      rw (more', maps offset (pages_for n) aligned, fits, taken, joined) refl

  load_rest-bytes :
      (fuel left at so_far offset : ℕ)
      → left ≤ fuel
      → (left ≡ 0) ⊎ ((offset ≡ at + so_far) × (offset % 4096 ≡ 0))
      → load_rest physmap fuel left offset (bytes memory at so_far)
        ≡ new (bytes memory at (so_far + left))
  unfolding load_rest
  load_rest-bytes zero left at so_far offset enough place =
      let nothing : left ≡ 0 = omega arith in
      let whole : so_far ≡ so_far + left = omega arith in
      rw nothing (ap (λ k. new (bytes memory at k)) (whole ∙ ap (λ k. so_far + k) nothing))
  load_rest-bytes (suc fuel) left at so_far offset enough place = elim (Bool-cases (left == 0)) [
    | inl done ↦
        let nothing : left ≡ 0 = none_left left done in
        let whole : so_far ≡ so_far + left = omega arith in
        rw done (ap (λ k. new (bytes memory at k)) whole)
    | inr more ↦
        let n = min left (4096 * 4) in
        let left_over = some_left left more in
        let sum : so_far + n + (left - n) ≡ so_far + left = omega arith in
        elim place [
          | inl nothing ↦ absurd (omega arith)
          | inr (at_is, aligned) ↦
              turn_lem fuel left at so_far offset left_over at_is aligned
              ∙ load_rest-bytes fuel (left - n) at (so_far + n) (offset + n) (omega arith)
                  (next_place left at so_far offset at_is aligned)
              ∙ ap (λ k. new (bytes memory at k)) sum
        ]
  ]

  header_lem :
      (physaddr m : ℕ)
      → 36 ≤ m
      → header_length (take 36 (bytes memory physaddr m)) ≡ from_le (bytes memory (physaddr + 4) 4)
  header_lem physaddr m room =
      let first : take 36 (bytes memory physaddr m) ≡ bytes memory physaddr 36 =
        chunk-bytes memory physaddr 0 36 m physaddr (omega arith) (omega arith) in
      let second : take 4 (drop 4 (bytes memory physaddr 36)) ≡ bytes memory (physaddr + 4) 4 =
        chunk-bytes memory physaddr 4 4 36 (physaddr + 4) refl (omega arith) in
      ap header_length first ∙ ap from_le second

  load_pages-bytes :
      (fuel physaddr count : ℕ)
      → 36 ≤ count * 4096 - physaddr % 4096
      → from_le (bytes memory (physaddr + 4) 4) ≤ fuel
      → load_pages physmap fuel
          (physaddr % 4096)
          (physaddr / 4096 * 4096 + count * 4096)
          (bytes memory (physaddr / 4096 * 4096) (count * 4096))
        ≡ new (bytes memory physaddr (from_le (bytes memory (physaddr + 4) 4)))
  unfolding load_pages
  load_pages-bytes fuel physaddr count room enough =
      let start = physaddr / 4096 * 4096 in
      let m = count * 4096 - physaddr % 4096 in
      let total = from_le (bytes memory (physaddr + 4) 4) in
      let base = min total m in
      let len : length (bytes memory physaddr m) ≡ m = length-bytes memory physaddr m in
      let dropped : drop (physaddr % 4096) (bytes memory start (count * 4096))
          ≡ bytes memory physaddr m =
        drop-bytes memory start (physaddr % 4096) (count * 4096) physaddr m (omega arith)
          (omega arith) in
      let whole : ltb (length (bytes memory start (count * 4096))) 36 ≡ false =
        long_enough _ 36 (omega (arith, length-bytes memory start (count * 4096))) in
      let fits : ltb m 36 ≡ false = long_enough m 36 room in
      let front : take base (bytes memory physaddr m) ≡ bytes memory physaddr base =
        chunk-bytes memory physaddr 0 base m physaddr (omega arith) (omega arith) in
      let sum : base + (total - base) ≡ total = omega arith in
      rw (whole, dropped, len, header_lem physaddr m room, fits, front)
        (load_rest-bytes fuel (total - base) physaddr base (start + count * 4096) (omega arith)
            (first_place total m physaddr start count refl refl (omega arith))
          ∙ ap (λ k. new (bytes memory physaddr k)) sum)

  -- Reading a table at any physical address gives what the check makes of exactly the bytes from
  -- that address on, as many as the table's own length says: the bytes, or that they are too few
  -- or have the wrong sum. The mapping of pages never fails; as many turns of the loop as the
  -- table has bytes are enough.
  pub load_from_physical-bytes :
      (fuel physaddr : ℕ)
      → let total_length = from_le (bytes memory (physaddr + 4) 4) in
        total_length ≤ fuel
        → load_from_physical physmap fuel physaddr ≡ new (bytes memory physaddr total_length)
  unfolding load_from_physical
  load_from_physical-bytes fuel physaddr enough =
      let start = physaddr / 4096 * 4096 in
      let aligned : start % 4096 ≡ 0 = omega arith in
      elim (Bool-cases (ltb (4096 - physaddr % 4096) 36)) [
        | inl two ↦
            rw (load_from_physical, two, maps start 2 aligned)
              (rw two (load_pages-bytes fuel physaddr 2 (omega arith) enough))
        | inr one ↦
            rw (load_from_physical, one, maps start 1 aligned)
              (rw one (load_pages-bytes fuel physaddr 1 (enough_room (physaddr % 4096) one) enough))
      ]
