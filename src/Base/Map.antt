-- ===== src/Base/Map.antt =====
-- `BTreeMap<usize, V>` as an association list in ascending key order.
use Prim.Native.Nat.{ℕ, suc, ◌<◌}
use mathlib.Core.Path.{◌≡◌, refl}
use mathlib.Core.Bool.{Bool, true, false}
use mathlib.Core.Option.{Option, none, some}
use mathlib.Core.List.{List, [], ◌∷◌}
use native.Mathlib.Omega.{arith}
use drivers.Base.Tests.{◌==◌, ==_iff, ltb, if◌then◌else◌}

abbrev pub Map {ℓ} : Type ℓ → Type ℓ
Map V = List (ℕ × V)

module _ {ℓ} {V : Type ℓ} where
  unfoldable pub lookup : ℕ → Map V → Option V
  lookup k [] = none
  lookup k ((j, v) ∷ m) = if j == k then some v else lookup k m

  unfoldable pub insert : ℕ → V → Map V → Map V
  insert k v [] = (k, v) ∷ []
  insert k v ((j, w) ∷ m) =
      let rest = insert k v m in
      if j == k then (k, v) ∷ m else if ltb k j then (k, v) ∷ (j, w) ∷ m else (j, w) ∷ rest

  unfoldable pub remove : ℕ → Map V → Map V
  remove k [] = []
  remove k ((j, w) ∷ m) = let rest = remove k m in if j == k then m else (j, w) ∷ rest

  unfoldable pub contains_key : ℕ → Map V → Bool
  contains_key k [] = false
  contains_key k ((j, v) ∷ m) = if j == k then true else contains_key k m

  -- Every key is greater than `n`, and the keys ascend.
  abbrev pub Above : ℕ → Map V → Type 0
  Above n [] = Unit {0}
  Above n ((j, v) ∷ m) = (n < j) × Above j m

  abbrev pub IsOrdered : Map V → Type 0
  IsOrdered [] = Unit {0}
  IsOrdered ((j, v) ∷ m) = Above j m

  pub lookup-insert :
      (k sought : ℕ) (v : V) (m : Map V)
      → lookup sought (insert k v m) ≡ (if k == sought then some v else lookup sought m)
  unfolding lookup insert
  lookup-insert k sought v [] = refl
  lookup-insert k sought v ((first, u) ∷ m) = ground (arith, lookup-insert k sought v m)

  pub lookup-insert_self : (k : ℕ) (v : V) (m : Map V) → lookup k (insert k v m) ≡ some v
  lookup-insert_self k v m = ground (arith, lookup-insert k k v m, (==_iff k k).1 refl)

  pub lookup-Above : (k n : ℕ) (m : Map V) → Above n m → k < suc n → lookup k m ≡ none
  unfolding lookup
  lookup-Above k n [] h lt = refl
  lookup-Above k n ((i, w) ∷ m) h lt = ground (arith, lookup-Above k i m h.1)

  Above-lookup-remove :
      (k j n : ℕ) (m : Map V)
      → Above n m
      → lookup j (remove k m) ≡ (if k == j then none else lookup j m)
  unfolding lookup remove
  Above-lookup-remove k j n [] h = ground arith
  Above-lookup-remove k j n ((i, w) ∷ m) h =
      ground (arith, Above-lookup-remove k j i m h.1, lookup-Above j i m h.1)

  pub lookup-remove :
      (k j : ℕ) (m : Map V)
      → IsOrdered m
      → lookup j (remove k m) ≡ (if k == j then none else lookup j m)
  unfolding lookup remove
  lookup-remove k j [] h = ground arith
  lookup-remove k j ((i, w) ∷ m) h =
      ground (arith, Above-lookup-remove k j i m h, lookup-Above j i m h)

  pub Above-mono : (i n : ℕ) (m : Map V) → i < suc n → Above n m → Above i m
  Above-mono i n [] lt h = tt
  Above-mono i n ((j, v) ∷ m) lt h = (omega arith, h.1)

  pub Above-insert : (n k : ℕ) (v : V) (m : Map V) → n < k → Above n m → Above n (insert k v m)
  unfolding insert
  Above-insert n k v [] lt h = (lt, tt)
  Above-insert n k v ((j, w) ∷ m) lt h = ground (arith, Above-insert j k v m, Above-mono k j m)

  pub insert-IsOrdered : (k : ℕ) (v : V) (m : Map V) → IsOrdered m → IsOrdered (insert k v m)
  unfolding insert
  insert-IsOrdered k v [] h = tt
  insert-IsOrdered k v ((j, w) ∷ m) h = ground (arith, Above-insert j k v m)

  Above-remove : (n k : ℕ) (m : Map V) → Above n m → Above n (remove k m)
  unfolding remove
  Above-remove n k [] h = tt
  Above-remove n k ((j, w) ∷ m) h = ground (arith, Above-remove j k m h.1, Above-mono n j m)

  pub remove-IsOrdered : (k : ℕ) (m : Map V) → IsOrdered m → IsOrdered (remove k m)
  unfolding remove
  remove-IsOrdered k [] h = tt
  remove-IsOrdered k ((j, w) ∷ []) h = ground arith
  remove-IsOrdered k ((j, w) ∷ (i, u) ∷ m) h = ground (arith, Above-remove j k ((i, u) ∷ m) h)
