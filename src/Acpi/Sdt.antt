-- ===== src/Acpi/Sdt.antt =====
-- acpid/src/acpi.rs: a system description table is read from physical memory and checked. The
-- mapping of pages is a parameter; a page has 4096 bytes.
pub mod Loading
mod Tests
use drivers.Base.{
  ℕ, zero, suc, ◌+◌, ◌-◌, ◌*◌, ◌/◌, ◌%◌, ◌^◌, min, Bool, true, false, not, Option, none, some, List,
  [], ◌∷◌, ◌++◌, ltb, leb, ◌==◌, if◌then◌else◌, length, take, drop,
}
use drivers.Base.Endian.{from_le}

-- `TablePhysLoadError`
pub data SdtError : Type 0 where
  io invalid_size bad_checksum : SdtError

-- How a load ends: a table, an error, a panic, or no end on the fuel given
pub data Load : Type 0 where
  loaded : List ℕ → Load
  err : SdtError → Load
  panicked unfinished : Load

-- `SdtHeader::length`, of the header's 36 bytes
abbrev pub header_length : List ℕ → ℕ
header_length header = from_le (take 4 (drop 4 header))

-- The sum of the bytes, which wraps
unfoldable pub checksum : ℕ → List ℕ → ℕ
checksum current_sum [] = current_sum
checksum current_sum (item ∷ items) = checksum ((current_sum + item) % 2 ^ 8) items

-- `Sdt::new`
unfoldable pub new : List ℕ → Load
unfolding checksum
new slice =
    if ltb (length slice) 36
    then err invalid_size
    else if not (header_length (take 36 slice) == length slice)
    then err invalid_size
    else if not (checksum 0 slice == 0)
    then err bad_checksum
    else loaded slice

-- `n.div_ceil(PAGE_SIZE)`
abbrev pub pages_for : ℕ → ℕ
pages_for n = (n + 4095) / 4096

module _ (physmap : (page page_count : ℕ) → Option (List ℕ)) where
  -- The loop over the pages after the first ones, four at a time, on fuel
  unfoldable pub load_rest : (fuel left offset : ℕ) → List ℕ → Load
  unfolding new
  load_rest zero left offset bytes_so_far = if left == 0 then new bytes_so_far else unfinished
  load_rest (suc fuel) left offset bytes_so_far =
      let to_copy = min left (4096 * 4) in
      if left == 0 then new bytes_so_far else elim (physmap offset (pages_for to_copy)) [
        | none ↦ err io
        | some additional_pages ↦
            let rest =
              load_rest fuel (left - to_copy) (offset + to_copy)
                (bytes_so_far ++ take to_copy additional_pages) in
            if ltb (length additional_pages) to_copy then panicked else rest
      ]

  -- What `load_from_physical` does with the first pages; the next one is at `next_page`.
  unfoldable pub load_pages : (fuel page_offset next_page : ℕ) → List ℕ → Load
  unfolding load_rest
  load_pages fuel page_offset next_page pages =
      let sdt_mem = drop page_offset pages in
      let total_length = header_length (take 36 sdt_mem) in
      let base_length = min total_length (length sdt_mem) in
      if ltb (length pages) 36
      then panicked
      else if ltb (length sdt_mem) 36
      then panicked
      else load_rest fuel (total_length - base_length) next_page (take base_length sdt_mem)

  -- `Sdt::load_from_physical`
  unfoldable pub load_from_physical : (fuel physaddr : ℕ) → Load
  load_from_physical fuel physaddr =
      let start_page = physaddr / 4096 * 4096 in
      let page_offset = physaddr % 4096 in
      let page_count = if ltb (4096 - page_offset) 36 then 2 else 1 in
      elim (physmap start_page page_count) [
        | none ↦ err io
        | some pages ↦ load_pages fuel page_offset (start_page + page_count * 4096) pages
      ]
