-- ===== src/Base/Endian.antt =====
-- Numbers as bytes, the low byte first or the high byte first.
use Prim.Native.Nat.{ℕ, zero, suc, ◌+◌, ◌*◌, ◌/◌, ◌%◌, ◌^◌, ◌<◌}
use mathlib.Core.Path.{◌≡◌}
use mathlib.Core.List.{List, [], ◌∷◌, ◌++◌}
use native.Mathlib.Omega.{arith}

-- `n.to_le_bytes()` and `n.to_be_bytes()` of `k` bytes
abbrev pub le_bytes : (k n : ℕ) → List ℕ
le_bytes zero n = []
le_bytes (suc k) n = n % 256 ∷ le_bytes k (n / 256)

abbrev pub be_bytes : (k n : ℕ) → List ℕ
be_bytes zero n = []
be_bytes (suc k) n = be_bytes k (n / 256) ++ n % 256 ∷ []

-- What such bytes stand for
abbrev pub from_le : List ℕ → ℕ
from_le [] = 0
from_le (x ∷ xs) = x + from_le xs * 256

abbrev pub from_be_after : ℕ → List ℕ → ℕ
from_be_after acc [] = acc
from_be_after acc (x ∷ xs) = from_be_after (acc * 256 + x) xs

abbrev pub from_be : List ℕ → ℕ
from_be xs = from_be_after 0 xs

-- Words of four and of eight bytes
pub from_le-four : (n : ℕ) → n < 2 ^ 32 → from_le (le_bytes 4 n) ≡ n
from_le-four n h = omega arith

pub from_be-four : (n : ℕ) → n < 2 ^ 32 → from_be (be_bytes 4 n) ≡ n
from_be-four n h = omega arith

pub from_be-eight : (n : ℕ) → n < 2 ^ 64 → from_be (be_bytes 8 n) ≡ n
from_be-eight n h = omega arith

-- The low byte first, read with the high byte first
pub from_be-reversed : (n : ℕ) → n < 256 → from_be (le_bytes 8 n) ≡ n * 2 ^ 56
from_be-reversed n h = omega arith
