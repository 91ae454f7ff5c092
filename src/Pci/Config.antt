-- ===== src/Pci/Config.antt =====
-- pcid/src/config.rs: whether a driver's configuration asks for a PCI function.
pub mod Matching
use drivers.Base.{
  ℕ, zero, suc, ◌+◌, ◌-◌, ◌*◌, ◌%◌, ◌^◌, Bool, true, false, not, ◌&&◌, ◌||◌, Option, none, some,
  List, [], ◌∷◌, ltb, leb, ◌==◌, if◌then◌else◌,
}
use drivers.Base.Outcome.{Outcome, ok, err, panicked, unwrap, ◌>>=◌}

pub record FullDeviceId : Type 0 where
  pub vendor_id : ℕ
  pub device_id : ℕ
  pub class : ℕ
  pub subclass : ℕ
  pub interface : ℕ
  pub revision : ℕ

-- `DriverConfig`, without the name and the command that it starts. The map of `ids` has its
-- entries in the order of their keys, which are texts.
pub record DriverConfig : Type 0 where
  pub class : Option ℕ
  pub subclass : Option ℕ
  pub interface : Option ℕ
  pub ids : Option (List (List ℕ × List ℕ))
  pub vendor : Option ℕ
  pub device : Option ℕ
  pub device_id_range : Option (ℕ × ℕ)

-- `trim_start_matches("0x")`
unfoldable pub trim_prefix : List ℕ → List ℕ
trim_prefix [] = []
trim_prefix (x ∷ []) = x ∷ []
trim_prefix (x ∷ y ∷ xs) =
    let rest = trim_prefix xs in if x == b'0' && y == b'x' then rest else x ∷ y ∷ xs

-- The value of a hexadecimal digit
unfoldable pub hex_digit : ℕ → Option ℕ
hex_digit x =
    if leb b'0' x && leb x b'9'
    then some (x - b'0')
    else if leb b'a' x && leb x b'f'
    then some (x - b'a' + 10)
    else if leb b'A' x && leb x b'F'
    then some (x - b'A' + 10)
    else none

-- The number that hexadecimal digits stand for, below a limit
unfoldable pub hex_digits : (limit acc : ℕ) → List ℕ → Option ℕ
hex_digits limit acc [] = some acc
hex_digits limit acc (x ∷ xs) = elim (hex_digit x) [
  | none ↦ none
  | some d ↦
      let next = acc * 16 + d in
      let rest = hex_digits limit next xs in if ltb next limit then rest else none
]

-- `i64::from_str_radix(text, 16)` as a u16: a sign is allowed, and a negative number wraps.
unfoldable pub parse_vendor : List ℕ → Option ℕ
unfolding hex_digits hex_digit
parse_vendor [] = none
parse_vendor (x ∷ xs) =
    let positive = hex_digits (2 ^ 63) 0 xs in
    let negative = hex_digits (2 ^ 63 + 1) 0 xs in
    let whole = hex_digits (2 ^ 63) 0 (x ∷ xs) in
    let low : Option ℕ → Option ℕ = λ o. elim o [ none ↦ none | some n ↦ some (n % 2 ^ 16) ] in
    let opposite : Option ℕ → Option ℕ =
      λ o. elim o [ none ↦ none | some n ↦ some ((2 ^ 16 - n % 2 ^ 16) % 2 ^ 16) ] in
    elim xs [
      | [] ↦ low whole
      | y ∷ ys ↦
          if x == b'+' then low positive else if x == b'-' then opposite negative else low whole
    ]

unfoldable pub contains : ℕ → List ℕ → Bool
contains d [] = false
contains d (x ∷ xs) = let rest = contains d xs in x == d || rest

-- The loop over `ids`: every vendor's name is read, and a name that is no number is a panic.
unfoldable pub device_found : FullDeviceId → List (List ℕ × List ℕ) → Outcome Bool
unfolding trim_prefix parse_vendor contains
device_found id [] = ok false
device_found id ((vendor, devices) ∷ ids) = unwrap (parse_vendor (trim_prefix vendor)) >>= λ v.
    device_found id ids >>= λ rest. ok (v == id.vendor_id && contains id.device_id devices || rest)

-- A criterion that is given holds.
abbrev pub agrees : Option ℕ → ℕ → Bool
agrees none actual = true
agrees (some wanted) actual = wanted == actual

abbrev pub in_range : Option (ℕ × ℕ) → ℕ → Bool
in_range none d = true
in_range (some (start, end)) d = not (ltb d start || leb end d)

unfoldable pub match_function : DriverConfig → FullDeviceId → Outcome Bool
unfolding device_found
match_function config id =
    let ranged = in_range config.device_id_range id.device_id in
    if not (agrees config.class id.class)
    then ok false
    else if not (agrees config.subclass id.subclass)
    then ok false
    else if not (agrees config.interface id.interface)
    then ok false
    else elim config.ids [
      | some ids ↦ device_found id ids >>= λ found. ok (if found then ranged else false)
      | none ↦
          if not (agrees config.vendor id.vendor_id)
          then ok false
          else if not (agrees config.device id.device_id)
          then ok false
          else ok ranged
    ]
