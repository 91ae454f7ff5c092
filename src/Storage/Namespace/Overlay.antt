-- ===== src/Storage/Namespace/Overlay.antt =====
-- Bytes that are written over others, for the writes of storage/nvmed/src/nvme/mod.rs.
use drivers.Base.{
  ℕ, zero, suc, ◌+◌, ◌-◌, ◌*◌, ◌%◌, ◌^◌, ◌<◌, min, ◌≡◌, refl, ◌∙◌, ap, List, [], ◌∷◌, ◌++◌, length,
  get_or, length-append, take, drop, arith,
}
use native.Mathlib.Decide.{dec_le}
use native.Mathlib.Nat.{mul-sub}
use drivers.Storage.Namespace.Blocks.{Divides, overlay}

pub take_all : (xs : List ℕ) → take (length xs) xs ≡ xs
take_all [] = refl
take_all (x ∷ xs) = ap (λ zs. x ∷ zs) (take_all xs)

pub take-drop : (n : ℕ) (xs : List ℕ) → take n xs ++ drop n xs ≡ xs
take-drop zero xs = refl
take-drop (suc n) [] = refl
take-drop (suc n) (x ∷ xs) = ap (λ zs. x ∷ zs) (take-drop n xs)

get_or-append_left :
    (xs ys : List ℕ) (i : ℕ) → i < length xs → get_or (xs ++ ys) i 0 ≡ get_or xs i 0
get_or-append_left [] ys i h = absurd (omega arith)
get_or-append_left (x ∷ xs) ys zero h = refl
get_or-append_left (x ∷ xs) ys (suc i) h = get_or-append_left xs ys i (omega arith)

get_or-append_right : (xs ys : List ℕ) (i : ℕ) → get_or (xs ++ ys) (length xs + i) 0 ≡ get_or ys i 0
get_or-append_right [] ys i = let e : 0 + i ≡ i = omega arith in ap (λ k. get_or ys k 0) e
get_or-append_right (x ∷ xs) ys i =
    let e : suc (length xs) + i ≡ suc (length xs + i) = omega arith in
    ap (λ k. get_or (x ∷ (xs ++ ys)) k 0) e ∙ get_or-append_right xs ys i

-- Nothing written changes nothing, and two writes one after the other are one.
pub overlay-nothing : (at : ℕ) (content : ℕ → ℕ) → overlay at [] content ≡ content
overlay-nothing at content = λ i k. pointwise k i
  where
    pointwise : (k : ℕ) → overlay at [] content k ≡ content k
    pointwise k = ground arith

pub overlay-append :
    (at next : ℕ) (xs ys : List ℕ) (content : ℕ → ℕ)
    → next ≡ at + length xs
    → overlay next ys (overlay at xs content) ≡ overlay at (xs ++ ys) content
overlay-append at next xs ys content e = λ i k. pointwise k i
  where
    pointwise :
        (k : ℕ) → overlay next ys (overlay at xs content) k ≡ overlay at (xs ++ ys) content k
    pointwise k = ground (
      arith,
      length-append xs ys,
      e,
      get_or-append_left xs ys (k - at),
      get_or-append_right xs ys (k - next),
    )

pub next_block :
    (bs lba q len : ℕ) → lba + q < 2 ^ 64 → q * bs ≡ len → (lba + q) % 2 ^ 64 * bs ≡ lba * bs + len
next_block bs lba q len small e =
    let next : (lba + q) % 2 ^ 64 ≡ lba + q = omega arith in
    ap (λ k. k * bs) next ∙ omega (arith, e)

-- Whole blocks split at 8192 bytes are whole blocks on both sides.
pub split_blocks :
    (bs per n len : ℕ)
    → Divides bs per
    → len ≡ n * bs
    → (m m' : ℕ) × (min 8192 len ≡ m * bs) × (len - 8192 ≡ m' * bs)
split_blocks bs per n len d whole = elim (dec_le len 8192) [
  | yes last ↦ (n, 0, omega arith, omega arith)
  | no further ↦ (per, n - per, omega (arith, d.whole), omega (arith, d.whole, mul-sub bs n per))
]
