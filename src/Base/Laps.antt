-- ===== src/Base/Laps.antt =====
-- Position number k of a ring with n slots: slot k mod n of pass k div n.
use Prim.Native.Nat.{ℕ, zero, suc, ◌/◌, ◌%◌, ◌<◌, ◌+◌}
use mathlib.Core.Path.{◌≡◌}
use mathlib.Core.Bool.{Bool, true, not}
use native.Mathlib.Omega.{arith}

-- The bit that the producer of a ring writes on its n-th pass, counted from 0.
abbrev pub lap_cycle : ℕ → Bool
lap_cycle zero = true
lap_cycle (suc lap) = not (lap_cycle lap)

pub div-mod_inside : (n k : ℕ) → suc (k % n) < n → (suc k / n ≡ k / n) × (suc k % n ≡ suc (k % n))
div-mod_inside n k h = grind arith

pub div-mod_wraps : (n k : ℕ) → suc (k % n) ≡ n → (suc k / n ≡ suc (k / n)) × (suc k % n ≡ 0)
div-mod_wraps n k h = grind arith

-- A pass later the slot is the same.
pub div-mod_add : (n k : ℕ) → 0 < n → ((k + n) / n ≡ suc (k / n)) × ((k + n) % n ≡ k % n)
div-mod_add n k h = grind arith
