-- ===== src/Pci/Msix/Inside.antt =====
-- What `MsixInfo::validate` in pcid/src/driver_interface/msi.rs makes sure of.
use drivers.Base.{
  ℕ, ◌+◌, ◌*◌, ◌/◌, ◌%◌, ◌^◌, ◌≤◌, ◌<◌, ◌≡◌, refl, ◌⊎◌, inl, inr, true, false, some, List, ltb, leb,
  get_elem?, arith, Bool-cases,
}
use drivers.Base.Outcome.{ok, panicked}
use drivers.Pci.Msix.{PciBar, expect_mem, MsixInfo, validate}

-- A table of the function: BAR number `bar` is memory of that size.
abbrev pub HasMemory : List PciBar → (bar addr size : ℕ) → Type 0
HasMemory bars bar addr size =
    (b : PciBar) × (get_elem? bars bar ≡ some b) × (expect_mem b ≡ ok (addr, size))

is_below : (a b : ℕ) → ltb a b ≡ true → a < b
is_below a b e = ground arith

not_below : (a b : ℕ) → ltb a b ≡ false → b ≤ a
not_below a b e = ground arith

low_index : (n : ℕ) → n ≤ 5 → leb n 5 ≡ true
low_index n h = ground arith

-- Where both BARs are memory and the table has no more entries than a function may have, 2048, the
-- check either passes, and then every entry of the table and every byte of the pending bits lies
-- in its BAR, or it is a panic, and then one of them reaches the end of its BAR or goes past it.
pub validate-Inside :
    (info : MsixInfo) (bars : List PciBar) (table_addr table_len pba_addr pba_len : ℕ)
    → info.table_size ≤ 2048
    → info.table_bar ≤ 5
    → info.pba_bar ≤ 5
    → HasMemory bars info.table_bar table_addr table_len
    → HasMemory bars info.pba_bar pba_addr pba_len
    → ((validate info bars ≡ ok tt)
        × ((k : ℕ) → k < info.table_size → info.table_offset + k * 16 + 16 ≤ table_len)
        × ((k : ℕ) → k < info.table_size → info.pba_offset + k / 8 < pba_len))
      ⊎ ((validate info bars ≡ panicked)
          × ((table_len ≤ info.table_offset + info.table_size * 16)
              ⊎ (pba_len ≤ info.pba_offset + (info.table_size + 7) / 8)))
unfolding validate
validate-Inside info bars table_addr table_len pba_addr pba_len few low_table low_pba
      (t, at_t, mem_t) (p, at_p, mem_p) =
    let table_end = info.table_offset + info.table_size * 16 % 2 ^ 16 in
    let pba_end = info.pba_offset + (info.table_size + 7) / 8 in
    let first : leb info.table_bar 5 ≡ true = low_index info.table_bar low_table in
    let second : leb info.pba_bar 5 ≡ true = low_index info.pba_bar low_pba in
    elim (Bool-cases (ltb table_end table_len)) [
      | inr long ↦ inr (
        rw (first, second, at_t, mem_t, at_p, mem_p, long) refl,
        inl (omega (arith, not_below table_end table_len long)),
      )
      | inl fits ↦ elim (Bool-cases (ltb pba_end pba_len)) [
        | inr far ↦ inr (
          rw (first, second, at_t, mem_t, at_p, mem_p, fits, far) refl,
          inr (not_below pba_end pba_len far),
        )
        | inl near ↦ inl (
          rw (first, second, at_t, mem_t, at_p, mem_p, fits, near) refl,
          λ k inside. omega (arith, is_below table_end table_len fits),
          λ k inside. omega (arith, is_below pba_end pba_len near),
        )
      ]
    ]
