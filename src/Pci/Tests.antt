-- ===== src/Pci/Tests.antt =====
-- The theorems on PCI functions at concrete inputs.
use drivers.Base.{
  ℕ, ◌+◌, ◌*◌, ◌/◌, ◌%◌, ◌≤◌, ◌<◌, ◌≡◌, refl, ◌⊎◌, Bool, true, none, some, List, [], ◌∷◌, arith,
}
use drivers.Base.Outcome.{ok, panicked}
use drivers.Pci.Config.{
  FullDeviceId, DriverConfig, match_function, parse_vendor, hex_digits, hex_digit, trim_prefix,
}
use drivers.Pci.Config.Matching.{Tells, Matches, Named, match_function-Matches}
use drivers.Pci.Msix.{
  PciBar, memory32, no_bar, MsixInfo, expect_mem, validate, MsixTableEntry, MsiAddrAndData, addr_of,
  mask, unmask, write_addr_and_data,
}
use drivers.Pci.Msix.Inside.{validate-Inside}
use drivers.Pci.Msix.Messages.{write_addr_and_data-unmask}

-- An e1000 network card, and the entry of its driver
abbrev card : FullDeviceId
card = record {
  vendor_id = 0x8086;
  device_id = 0x100e;
  class = 2;
  subclass = 0;
  interface = 0;
  revision = 3;
}

abbrev ids : List (List ℕ × List ℕ)
ids = (b'0' ∷ b'x' ∷ b'8' ∷ b'0' ∷ b'8' ∷ b'6' ∷ [], 0x1004 ∷ 0x100e ∷ []) ∷ []

abbrev e1000d : DriverConfig
e1000d = record {
  class = some 2;
  subclass = none;
  interface = none;
  ids = some ids;
  vendor = none;
  device = none;
  device_id_range = none;
}

ids-Named : Named ids
unfolding Named parse_vendor trim_prefix hex_digits hex_digit
ids-Named = ((0x8086, refl), tt)

match_function-Matches_example :
    (b : Bool) × (match_function e1000d card ≡ ok b) × Tells b (Matches e1000d card)
match_function-Matches_example = match_function-Matches e1000d card ids-Named

matched : match_function e1000d card ≡ ok true
unfolding match_function
matched = refl

-- A function with a table of ten entries and its pending bits in one BAR
abbrev bars : List PciBar
bars = memory32 0xf000_0000 0x4000 ∷ no_bar ∷ no_bar ∷ no_bar ∷ no_bar ∷ no_bar ∷ []

abbrev info : MsixInfo
info = record {
  table_bar = 0;
  table_offset = 0x2000;
  table_size = 10;
  pba_bar = 0;
  pba_offset = 0x3000;
}

memory_is : expect_mem (memory32 0xf000_0000 0x4000) ≡ ok (0xf000_0000, 0x4000)
unfolding expect_mem
memory_is = refl

validate-Inside_example :
    ((validate info bars ≡ ok tt)
      × ((k : ℕ) → k < 10 → 0x2000 + k * 16 + 16 ≤ 0x4000)
      × ((k : ℕ) → k < 10 → 0x3000 + k / 8 < 0x4000))
    ⊎ ((validate info bars ≡ panicked)
        × ((0x4000 ≤ 0x2000 + 10 * 16) ⊎ (0x4000 ≤ 0x3000 + (10 + 7) / 8)))
validate-Inside_example =
    validate-Inside info bars 0xf000_0000 0x4000 0xf000_0000 0x4000 (omega arith) (omega arith)
      (omega arith) (memory32 0xf000_0000 0x4000, refl, memory_is)
      (memory32 0xf000_0000 0x4000, refl, memory_is)

abbrev message : MsiAddrAndData
message = record { addr = 0x1_fee0_3000; data_word = 0x31 }

abbrev blank : MsixTableEntry
blank = record { addr_lo = 0; addr_hi = 0; msg_data = 0; vec_ctl = 7 }

write_addr_and_data-unmask_example :
    let e' = unmask (write_addr_and_data message (mask blank)) in
    (addr_of e' ≡ 0x1_fee0_3000)
    × (e'.msg_data ≡ 0x31)
    × (e'.vec_ctl % 2 ≡ 0)
    × (e'.vec_ctl / 2 ≡ 7 / 2)
write_addr_and_data-unmask_example = write_addr_and_data-unmask message blank (omega arith)
