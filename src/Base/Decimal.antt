-- ===== src/Base/Decimal.antt =====
-- Decimal numbers in paths: what `format!("{}", n)` prints and what `parse` reads, as bytes.
use Prim.Native.Nat.{ℕ, zero, suc, ◌+◌, ◌-◌, ◌*◌, ◌/◌, ◌%◌, ◌≤◌, ◌<◌}
use mathlib.Core.Path.{◌≡◌, refl, ◌∙◌}
use mathlib.Core.Bool.{false, ◌&&◌}
use mathlib.Core.Option.{Option, none, some}
use mathlib.Core.List.{List, [], ◌∷◌, ◌++◌}
use native.Mathlib.Omega.{arith}
use drivers.Base.Lists.{length}
use drivers.Base.Tests.{◌==◌, ltb, leb, if◌then◌else◌}

-- `parse` to an unsigned type of that many values: decimal digits, after a sign `+` at most.
unfoldable pub digits : (limit acc : ℕ) → List ℕ → Option ℕ
digits limit acc [] = some acc
digits limit acc (x ∷ xs) =
    let next = acc * 10 + (x - b'0') in
    let rest = digits limit next xs in
    if leb b'0' x && leb x b'9' && ltb next limit then rest else none

unfoldable pub parse_below : (limit : ℕ) → List ℕ → Option ℕ
unfolding digits
parse_below limit [] = none
parse_below limit (x ∷ []) = digits limit 0 (x ∷ [])
parse_below limit (x ∷ y ∷ xs) =
    if x == b'+' then digits limit 0 (y ∷ xs) else digits limit 0 (x ∷ y ∷ xs)

-- The digits of `n` before `tail`, on fuel
unfoldable pub decimal_loop : (fuel n : ℕ) → List ℕ → List ℕ
decimal_loop zero n tail = tail
decimal_loop (suc fuel) n tail =
    let rest = decimal_loop fuel (n / 10) ((b'0' + n % 10) ∷ tail) in
    if ltb n 10 then (b'0' + n) ∷ tail else rest

-- `format!("{}", n)`, before a text that follows it
unfoldable pub decimal : ℕ → List ℕ → List ℕ
unfolding decimal_loop
decimal n tail = decimal_loop (suc n) n tail

-- The first byte is a digit.
abbrev pub StartsDigit : List ℕ → Type 0
StartsDigit [] = ⊥
StartsDigit (x ∷ xs) = (b'0' ≤ x) × (x ≤ b'9')

loop-StartsDigit : (f n : ℕ) (tail : List ℕ) → n ≤ f → StartsDigit (decimal_loop (suc f) n tail)
unfolding decimal_loop
loop-StartsDigit zero n tail h = ground arith
loop-StartsDigit (suc f) n tail h =
    ground (arith, loop-StartsDigit f (n / 10) ((b'0' + n % 10) ∷ tail))

StartsDigit-length : (xs : List ℕ) → StartsDigit xs → (length xs == 0) ≡ false
StartsDigit-length [] h = absurd h
StartsDigit-length (x ∷ xs) h = ground arith

digits-loop :
    (limit f n : ℕ) (tail : List ℕ)
    → n ≤ f
    → n < limit
    → digits limit 0 (decimal_loop (suc f) n tail) ≡ digits limit n tail
unfolding digits decimal_loop
digits-loop limit zero n tail h lt = ground arith
digits-loop limit (suc f) n tail h lt =
    ground (arith, digits-loop limit f (n / 10) ((b'0' + n % 10) ∷ tail))

parse-digits : (limit : ℕ) (xs : List ℕ) → StartsDigit xs → parse_below limit xs ≡ digits limit 0 xs
unfolding parse_below
parse-digits limit [] h = absurd h
parse-digits limit (x ∷ []) h = refl
parse-digits limit (x ∷ y ∷ xs) h = ground arith

-- What is printed is read back.
pub parse-decimal : (limit n : ℕ) → n < limit → parse_below limit (decimal n []) ≡ some n
unfolding decimal digits
parse-decimal limit n lt =
    parse-digits limit (decimal_loop (suc n) n []) (loop-StartsDigit n n [] (omega arith))
    ∙ digits-loop limit n n [] (omega arith) lt

-- The text before the first byte `c`, and the one after it
unfoldable pub split_at : ℕ → List ℕ → Option (List ℕ × List ℕ)
split_at c [] = none
split_at c (x ∷ xs) =
    let rest = split_at c xs in
    if x == c then some ([], xs) else elim rest [ none ↦ none | some (u, v) ↦ some (x ∷ u, v) ]

-- No byte of a number is another one, so looking for it goes on behind the number.
loop-split_none :
    (c f n : ℕ) (tail : List ℕ)
    → (leb b'0' c && leb c b'9') ≡ false
    → n ≤ f
    → split_at c tail ≡ none
    → split_at c (decimal_loop (suc f) n tail) ≡ none
unfolding decimal_loop split_at
loop-split_none c zero n tail big h e = ground arith
loop-split_none c (suc f) n tail big h e =
    ground (arith, loop-split_none c f (n / 10) ((b'0' + n % 10) ∷ tail))

loop-split_some :
    (c f n : ℕ) (tail u v : List ℕ)
    → (leb b'0' c && leb c b'9') ≡ false
    → n ≤ f
    → split_at c tail ≡ some (u, v)
    → split_at c (decimal_loop (suc f) n tail) ≡ some (decimal_loop (suc f) n u, v)
unfolding decimal_loop split_at
loop-split_some c zero n tail u v big h e = ground arith
loop-split_some c (suc f) n tail u v big h e =
    ground (arith, loop-split_some c f (n / 10) ((b'0' + n % 10) ∷ tail) ((b'0' + n % 10) ∷ u) v)

pub decimal-split_none :
    (c n : ℕ) (tail : List ℕ)
    → (leb b'0' c && leb c b'9') ≡ false
    → split_at c tail ≡ none
    → split_at c (decimal n tail) ≡ none
unfolding decimal
decimal-split_none c n tail other e = loop-split_none c n n tail other (omega arith) e

pub split_at-decimal :
    (c n : ℕ) (rest : List ℕ)
    → (leb b'0' c && leb c b'9') ≡ false
    → split_at c (decimal n (c ∷ rest)) ≡ some (decimal n [], rest)
unfolding decimal split_at
split_at-decimal c n rest other =
    loop-split_some c n n (c ∷ rest) [] rest other (omega arith) (ground arith)

loop-append : (f n : ℕ) (xs ys : List ℕ) → decimal_loop f n (xs ++ ys) ≡ decimal_loop f n xs ++ ys
unfolding decimal_loop
loop-append zero n xs ys = refl
loop-append (suc f) n xs ys = ground (arith, loop-append f (n / 10) ((b'0' + n % 10) ∷ xs) ys)

pub decimal-append : (n : ℕ) (xs ys : List ℕ) → decimal n (xs ++ ys) ≡ decimal n xs ++ ys
unfolding decimal
decimal-append n xs ys = loop-append (suc n) n xs ys

-- A number has at least one digit.
pub length-decimal : (n : ℕ) (tail : List ℕ) → (length (decimal n tail) == 0) ≡ false
unfolding decimal
length-decimal n tail =
    StartsDigit-length (decimal_loop (suc n) n tail) (loop-StartsDigit n n tail (omega arith))
