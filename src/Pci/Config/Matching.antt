-- ===== src/Pci/Config/Matching.antt =====
-- What it is that a driver's configuration asks for, in pcid/src/config.rs.
use drivers.Base.{
  ℕ, ◌≤◌, ◌<◌, ◌≡◌, refl, ◌∙◌, sym, ◌⊎◌, inl, inr, Bool, true, false, not, ◌&&◌, ◌||◌, Option, none,
  some, List, [], ◌∷◌, ◌==◌, if◌then◌else◌, Option-cases, arith,
}
use drivers.Base.Outcome.{ok}
use drivers.Pci.Config.{
  FullDeviceId, DriverConfig, trim_prefix, parse_vendor, contains, device_found, agrees, in_range,
  match_function,
}

-- The test tells whether the statement holds.
abbrev pub Tells : Bool → Type 0 → Type 0
Tells b P = ((b ≡ true) × P) ⊎ ((b ≡ false) × (¬ P))

Tells-and : {P Q : Type 0} (b c : Bool) → Tells b P → Tells c Q → Tells (b && c) (P × Q)
Tells-and b c (inl (e, p)) (inl (f, q)) = inl (rw (e, f) refl, (p, q))
Tells-and b c (inl (e, p)) (inr (f, n)) = inr (rw (e, f) refl, λ pq. n pq.1)
Tells-and b c (inr (e, n)) t = inr (rw e refl, λ pq. n pq.0)

Tells-or : {P Q : Type 0} (b c : Bool) → Tells b P → Tells c Q → Tells (b || c) (P ⊎ Q)
Tells-or b c (inl (e, p)) t = inl (rw e refl, inl p)
Tells-or b c (inr (e, n)) (inl (f, q)) = inl (rw (e, f) refl, inr q)
Tells-or b c (inr (e, n)) (inr (f, m)) =
    inr (rw (e, f) refl, λ pq. elim pq [ inl p ↦ n p | inr q ↦ m q ])

-- A number that is given is the one of the function.
abbrev pub Agrees : Option ℕ → ℕ → Type 0
Agrees none actual = Unit {0}
Agrees (some wanted) actual = wanted ≡ actual

abbrev pub InRange : Option (ℕ × ℕ) → ℕ → Type 0
InRange none d = Unit {0}
InRange (some (start, end)) d = (start ≤ d) × (d < end)

unfoldable pub Among : ℕ → List ℕ → Type 0
Among d [] = ⊥
Among d (x ∷ xs) = (x ≡ d) ⊎ Among d xs

-- The list has an entry for the vendor with the device among its numbers.
unfoldable pub Listed : FullDeviceId → List (List ℕ × List ℕ) → Type 0
Listed id [] = ⊥
Listed id ((vendor, devices) ∷ ids) =
    ((parse_vendor (trim_prefix vendor) ≡ some id.vendor_id) × Among id.device_id devices)
    ⊎ Listed id ids

-- Every vendor's name is a hexadecimal number.
unfoldable pub Named : List (List ℕ × List ℕ) → Type 0
Named [] = Unit {0}
Named ((vendor, devices) ∷ ids) =
    ((v : ℕ) × (parse_vendor (trim_prefix vendor) ≡ some v)) × Named ids

abbrev pub Readable : Option (List (List ℕ × List ℕ)) → Type 0
Readable none = Unit {0}
Readable (some ids) = Named ids

-- Vendor and device: by the list, if there is one
abbrev pub Identified : DriverConfig → FullDeviceId → Type 0
Identified config id = elim config.ids [
  | none ↦ Agrees config.vendor id.vendor_id × Agrees config.device id.device_id
  | some ids ↦ Listed id ids
]

abbrev pub Matches : DriverConfig → FullDeviceId → Type 0
Matches config id =
    Agrees config.class id.class
    × (Agrees config.subclass id.subclass
        × (Agrees config.interface id.interface
            × (Identified config id × InRange config.device_id_range id.device_id)))

equal-Tells : (a b : ℕ) → Tells (a == b) (a ≡ b)
equal-Tells a b = ground arith

agrees-Tells : (o : Option ℕ) (n : ℕ) → Tells (agrees o n) (Agrees o n)
agrees-Tells none n = inl (refl, tt)
agrees-Tells (some w) n = equal-Tells w n

in_range-Tells : (o : Option (ℕ × ℕ)) (d : ℕ) → Tells (in_range o d) (InRange o d)
in_range-Tells none d = inl (refl, tt)
in_range-Tells (some (s, e)) d = ground arith

contains-Tells : (d : ℕ) (xs : List ℕ) → Tells (contains d xs) (Among d xs)
unfolding contains Among
contains-Tells d [] = inr (refl, λ h. h)
contains-Tells d (x ∷ xs) =
    Tells-or (x == d) (contains d xs) (equal-Tells x d) (contains-Tells d xs)

some_eq : (a b : ℕ) → some a ≡ some b → a ≡ b
some_eq a b e = cc

parsed-Tells :
    (text : List ℕ) (v w : ℕ)
    → parse_vendor (trim_prefix text) ≡ some v
    → Tells (v == w) (parse_vendor (trim_prefix text) ≡ some w)
parsed-Tells text v w e = elim (equal-Tells v w) [
  | inl (same, p) ↦ inl (same, rw (e, p) refl)
  | inr (other, n) ↦ inr (other, λ f. n (some_eq v w (sym e ∙ f)))
]

device_found-Tells :
    (id : FullDeviceId) (ids : List (List ℕ × List ℕ))
    → Named ids
    → (b : Bool) × (device_found id ids ≡ ok b) × Tells b (Listed id ids)
unfolding device_found Named Listed
device_found-Tells id [] named = (false, refl, inr (refl, λ h. h))
device_found-Tells id ((vendor, devices) ∷ ids) ((v, parsed), named) =
    let (rest, runs, tells) = device_found-Tells id ids named in
    let here = v == id.vendor_id && contains id.device_id devices in
    (
      here || rest,
      rw (parsed, runs) refl,
      Tells-or here rest
          (Tells-and (v == id.vendor_id) (contains id.device_id devices)
            (parsed-Tells vendor v id.vendor_id parsed) (contains-Tells id.device_id devices))
          tells,
    )

-- The tests of `match_function` one after the other
tests_lem :
    (a b c d e : Bool)
    → (if not a
        then ok false
        else if not b
        then ok false
        else if not c
        then ok false
        else ok (if d then e else false))
      ≡ ok (a && (b && (c && (d && e))))
tests_lem false b c d e = refl
tests_lem true false c d e = refl
tests_lem true true false d e = refl
tests_lem true true true false e = refl
tests_lem true true true true e = refl

pair_lem :
    (v d r : Bool)
    → (if not v then ok false else if not d then ok false else ok r)
      ≡ ok (if v && d then r else false)
pair_lem false d r = refl
pair_lem true false r = refl
pair_lem true true r = refl

identified_lem :
    (config : DriverConfig) (id : FullDeviceId)
    → Readable config.ids
    → let ranged = in_range config.device_id_range id.device_id in
      (d : Bool) × (match_function config id ≡ (
        if not (agrees config.class id.class)
        then ok false
        else if not (agrees config.subclass id.subclass)
        then ok false
        else if not (agrees config.interface id.interface)
        then ok false
        else ok (if d then ranged else false)))
      × Tells d (Identified config id)
unfolding match_function
identified_lem config id readable = elim (Option-cases config.ids) [
  | inl absent ↦
      let v = agrees config.vendor id.vendor_id in
      let d = agrees config.device id.device_id in
      (
        v && d,
        rw (absent, pair_lem v d (in_range config.device_id_range id.device_id)) refl,
        rw absent (
            Tells-and v d (agrees-Tells config.vendor id.vendor_id)
              (agrees-Tells config.device id.device_id)),
      )
  | inr (ids, given) ↦
      let (b, runs, tells) = device_found-Tells id ids (rw given at readable) in
      (b, rw (given, runs) refl, rw given tells)
]

-- If the vendors' names in the list are numbers, a configuration is asked about a function without
-- a panic, and the answer is yes exactly if class, subclass and interface agree where they are
-- given, the device is in the range if there is one, and the device is identified: by the list if
-- there is one, whatever vendor and device are given beside it, and without a list by vendor and
-- device, which agree where they are given.
pub match_function-Matches :
    (config : DriverConfig) (id : FullDeviceId)
    → Readable config.ids
    → (b : Bool) × (match_function config id ≡ ok b) × Tells b (Matches config id)
match_function-Matches config id readable =
    let (d, runs, tells) = identified_lem config id readable in
    let ranged = in_range config.device_id_range id.device_id in
    let a = agrees config.class id.class in
    let b = agrees config.subclass id.subclass in
    let c = agrees config.interface id.interface in
    (
      a && (b && (c && (d && ranged))),
      runs ∙ tests_lem a b c d ranged,
      Tells-and a (b && (c && (d && ranged))) (agrees-Tells config.class id.class) (
          Tells-and b (c && (d && ranged)) (agrees-Tells config.subclass id.subclass) (
            Tells-and c (d && ranged) (agrees-Tells config.interface id.interface)
              (Tells-and d ranged tells (in_range-Tells config.device_id_range id.device_id)))),
    )
