-- ===== src/Acpi/Sdt/Tests.antt =====
-- The theorem on system description tables at a concrete table.
use drivers.Base.{ℕ, ◌+◌, ◌-◌, ◌*◌, ◌≡◌, refl, Option, some, List, ◌∷◌, replicate, get_or, arith}
use drivers.Base.Endian.{from_le}
use drivers.Storage.Block.Bytes.{bytes}
use drivers.Acpi.Sdt.{loaded, checksum, new, load_from_physical}
use drivers.Acpi.Sdt.Loading.{load_from_physical-bytes}

-- Signature, length 37, revision, a sum that comes to 0 modulo 256, and 27 further bytes
abbrev table : List ℕ
table = 70 ∷ 65 ∷ 67 ∷ 80 ∷ 37 ∷ 0 ∷ 0 ∷ 0 ∷ 1 ∷ 192 ∷ replicate 27 0

-- It lies across the end of the first page.
abbrev memory : ℕ → ℕ
memory k = get_or table (k - 4090) 0

abbrev physmap : ℕ → ℕ → Option (List ℕ)
physmap page page_count = some (bytes memory page (page_count * 4096))

length_is : from_le (bytes memory (4090 + 4) 4) ≡ 37
unfolding bytes
length_is = refl

load_from_physical-bytes_example :
    load_from_physical physmap 37 4090
    ≡ new (bytes memory 4090 (from_le (bytes memory (4090 + 4) 4)))
load_from_physical-bytes_example =
    load_from_physical-bytes physmap memory (λ page page_count aligned. refl) 37 4090
      (omega (arith, length_is))

sum_is_zero : checksum 0 table ≡ 0
unfolding checksum
sum_is_zero = refl

table_is_loaded : new table ≡ loaded table
unfolding new
table_is_loaded = refl
