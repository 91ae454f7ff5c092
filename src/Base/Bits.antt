-- ===== src/Base/Bits.antt =====
-- Bit operations at variables: `|` of disjoint fields is a sum, `&` with a low mask a remainder.
use Prim.Native.Nat.{ℕ, zero, suc, ◌+◌, ◌-◌, ◌*◌, ◌/◌, ◌%◌, ◌^◌, ◌≤◌, ◌<◌, min, max}
use Prim.Native.Nat.{bit_and, bit_or, digits, bit_and-bitwise, bit_or-bitwise}
use mathlib.Core.Path.{◌≡◌, refl, ap, ◌∙◌}
use native.Mathlib.Omega.{arith}
use native.Mathlib.Nat.{pow-suc, one-le-pow, div-div-eq-div-mul, div-add-mod, mul-div_cancel}

-- Enough fuel gives the same digits.
digits_enough :
    (z : ℕ → ℕ) (f : ℕ → ℕ → ℕ) (n m a b : ℕ) → a ≤ n → a ≤ m → digits z f n a b ≡ digits z f m a b
digits_enough z f zero zero a b p q = refl
digits_enough z f zero (suc m) zero b p q = refl
digits_enough z f zero (suc m) (suc a) b p q = absurd (omega arith)
digits_enough z f (suc n) zero zero b p q = refl
digits_enough z f (suc n) zero (suc a) b p q = absurd (omega arith)
digits_enough z f (suc n) (suc m) zero b p q = refl
digits_enough z f (suc n) (suc m) (suc a) b p q =
    let ih = digits_enough z f n m (suc a / 2) (b / 2) (omega arith) (omega arith) in rw ih

-- One step of each operation, on the lowest bit.
pub or_low : (a b : ℕ) → bit_or a b ≡ bit_or (a / 2) (b / 2) * 2 + max (a % 2) (b % 2)
or_low zero b = omega (arith, bit_or-bitwise 0 b, bit_or-bitwise 0 (b / 2))
or_low (suc a) b = omega (
  arith,
  bit_or-bitwise (suc a) b,
  bit_or-bitwise (suc a / 2) (b / 2),
  digits_enough (λ y. y) max a (suc a / 2) (suc a / 2) (b / 2) (omega arith) (omega arith),
)

pub and_low : (a b : ℕ) → bit_and a b ≡ bit_and (a / 2) (b / 2) * 2 + min (a % 2) (b % 2)
and_low zero b = omega (arith, bit_and-bitwise 0 b, bit_and-bitwise 0 (b / 2))
and_low (suc a) b = omega (
  arith,
  bit_and-bitwise (suc a) b,
  bit_and-bitwise (suc a / 2) (b / 2),
  digits_enough (λ y. 0) min a (suc a / 2) (suc a / 2) (b / 2) (omega arith) (omega arith),
)

or_zero_below : (n a : ℕ) → a ≤ n → bit_or a 0 ≡ a
or_zero_below n zero h = refl
or_zero_below zero (suc a) h = absurd (omega arith)
or_zero_below (suc n) (suc a) h =
    omega (arith, or_low (suc a) 0, or_zero_below n (suc a / 2) (omega arith))

and_zero_below : (n a : ℕ) → a ≤ n → bit_and a 0 ≡ 0
and_zero_below n zero h = refl
and_zero_below zero (suc a) h = absurd (omega arith)
and_zero_below (suc n) (suc a) h =
    omega (arith, and_low (suc a) 0, and_zero_below n (suc a / 2) (omega arith))

pub or_zero : (a : ℕ) → bit_or a 0 ≡ a
or_zero a = or_zero_below a a (omega arith)

pub and_zero : (a : ℕ) → bit_and a 0 ≡ 0
and_zero a = and_zero_below a a (omega arith)

shifted : (q k : ℕ) → q * 2 ^ suc k ≡ 2 * (q * 2 ^ k)
shifted q k = omega (arith, ap (λ (t : ℕ). q * t) (pow-suc 2 k))

-- `(q << k) | r`, where `r` fits in `k` bits
pub or_disjoint : (k q r : ℕ) → r < 2 ^ k → bit_or (q * 2 ^ k) r ≡ q * 2 ^ k + r
or_disjoint zero q r h = ground (arith, or_zero q)
or_disjoint (suc k) q r h =
    ground (arith, or_low (q * 2 ^ suc k) r, shifted q k, pow-suc 2 k, or_disjoint k q (r / 2))

-- The quotient by `2 ^ k` is masked away.
pub and_remainder : (k q r : ℕ) → r < 2 ^ k → bit_and (q * 2 ^ k + r) (2 ^ k - 1) ≡ r
and_remainder zero q r h = omega (arith, and_zero (q * 2 ^ 0 + r))
and_remainder (suc k) q r h =
    let low = and_remainder k q (r / 2) (omega (arith, pow-suc 2 k)) in
    ground (arith, low, and_low (q * 2 ^ suc k + r) (2 ^ suc k - 1), shifted q k, pow-suc 2 k)

-- `a & (2^k - 1)`
pub and_mask : (k a : ℕ) → bit_and a (2 ^ k - 1) ≡ a % 2 ^ k
and_mask k a = ground (arith, one-le-pow k 2, and_remainder k (a / 2 ^ k) (a % 2 ^ k))

halved : (k a : ℕ) → a / 2 / 2 ^ k ≡ a / 2 ^ suc k
halved k a = div-div-eq-div-mul a 2 (2 ^ k) ∙ ap (λ (t : ℕ). a / t) (omega (arith, pow-suc 2 k))

-- `a & (m << k)` is `((a >> k) & m) << k`.
pub and_shifted : (k a m : ℕ) → bit_and a (m * 2 ^ k) ≡ bit_and (a / 2 ^ k) m * 2 ^ k
and_shifted zero a m = ground (arith)
and_shifted (suc k) a m = ground (
  arith,
  and_low a (m * 2 ^ suc k),
  shifted m k,
  and_shifted k (a / 2) m,
  halved k a,
  shifted (bit_and (a / 2 ^ suc k) m) k,
)

-- `a & (1 << k)` is that power of two or 0, by the k-th bit.
pub and_bit : (k a : ℕ) → bit_and a (2 ^ k) ≡ (a / 2 ^ k) % 2 * 2 ^ k
and_bit k a = ground (arith, and_shifted k a 1, and_low (a / 2 ^ k) 1, and_zero (a / 2 ^ k / 2))

-- `x | r` where the low bits of `x` are free for `r`
pub or_sum : (k x r : ℕ) → x % 2 ^ k ≡ 0 → r < 2 ^ k → bit_or x r ≡ x + r
or_sum k x r e h =
    let exact : x / 2 ^ k * 2 ^ k ≡ x = ground (arith, div-add-mod x (2 ^ k)) in
    rw exact at (or_disjoint k (x / 2 ^ k) r h)

-- `(a & (2^w - 1) << k) >> k`, the field of `w` bits at bit `k`
pub field_at : (w k a : ℕ) → bit_and a ((2 ^ w - 1) * 2 ^ k) / 2 ^ k ≡ (a / 2 ^ k) % 2 ^ w
field_at w k a =
    rw (and_shifted k a (2 ^ w - 1), and_mask w (a / 2 ^ k))
      (mul-div_cancel (a / 2 ^ k % 2 ^ w) (one-le-pow k 2 (omega arith)))

or_comm_below : (n a b : ℕ) → a ≤ n → bit_or a b ≡ bit_or b a
or_comm_below n zero b h = omega (arith, bit_or-bitwise 0 b, or_zero b)
or_comm_below zero (suc a) b h = absurd (omega arith)
or_comm_below (suc n) (suc a) b h =
    omega
      (arith, or_low (suc a) b, or_low b (suc a), or_comm_below n (suc a / 2) (b / 2) (omega arith))

pub or_comm : (a b : ℕ) → bit_or a b ≡ bit_or b a
or_comm a b = or_comm_below a a b (omega arith)

-- A chain of `|` is built up from the left: `s` is what the chain so far is equal to. The next
-- operand stands below it ...
pub or_below : (k r : ℕ) {a s : ℕ} → a ≡ s → s % 2 ^ k ≡ 0 → r < 2 ^ k → bit_or a r ≡ s + r
or_below k r {s = s} e low h = rw e (or_sum k s r low h)

-- ... or above it.
pub or_above : (k r : ℕ) {a s : ℕ} → a ≡ s → s < 2 ^ k → r % 2 ^ k ≡ 0 → bit_or a r ≡ s + r
or_above k r {s = s} e h low = rw (e, or_comm s r) (omega (arith, or_sum k r s low h))
