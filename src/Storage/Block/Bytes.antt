-- ===== src/Storage/Block/Bytes.antt =====
-- What `block_read` stores, over a disk that returns its content.
use drivers.Base.{
  ℕ, zero, suc, ◌+◌, ◌-◌, ◌*◌, ◌/◌, ◌%◌, ◌^◌, ◌≤◌, ◌<◌, min, ◌≡◌, refl, ◌∙◌, ap, sym, Option, some,
  List, [], ◌∷◌, ◌++◌, arith, ltb, ◌==◌, if◌then◌else◌, length, take, drop, Bool-cases, inl, inr,
  leb, ◌||◌,
}
use mathlib.Core.Path.{ap₂}
use mathlib.Core.List.{append_assoc, append-nil}
use native.Mathlib.Decide.{dec_le}
use native.Mathlib.Nat.{div-add-mod'}
use drivers.Base.Outcome.{Outcome, ok, err, Errno}
use drivers.Storage.Block.{Read, read_loop, to_copy_of, block_read}

-- The `n` bytes of a disk from `offset` on.
unfoldable pub bytes : (ℕ → ℕ) → ℕ → ℕ → List ℕ
bytes content offset zero = []
bytes content offset (suc n) = content offset ∷ bytes content (suc offset) n

module _ (content : ℕ → ℕ) where
  pub length-bytes : (offset n : ℕ) → length (bytes content offset n) ≡ n
  unfolding bytes
  length-bytes offset zero = refl
  length-bytes offset (suc n) = ap suc (length-bytes (suc offset) n)

  pub bytes_add :
      (offset m n k t : ℕ)
      → k ≡ offset + m
      → t ≡ m + n
      → bytes content offset m ++ bytes content k n ≡ bytes content offset t
  unfolding bytes
  bytes_add offset zero n k t e f = ap₂ (bytes content) (omega arith) (omega arith)
  bytes_add offset (suc m) n k zero e f = absurd (omega arith)
  bytes_add offset (suc m) n k (suc t) e f =
      rw (bytes_add (suc offset) m n k t (omega arith) (omega arith))

  take-bytes : (offset c n : ℕ) → c ≤ n → take c (bytes content offset n) ≡ bytes content offset c
  unfolding bytes
  take-bytes offset zero n h = refl
  take-bytes offset (suc c) zero h = absurd (omega arith)
  take-bytes offset (suc c) (suc n) h = rw (take-bytes (suc offset) c n (omega arith))

  pub drop-bytes :
      (offset d n k m : ℕ)
      → k ≡ offset + d
      → m + d ≡ n
      → drop d (bytes content offset n) ≡ bytes content k m
  unfolding bytes
  drop-bytes offset zero n k m e f = ap₂ (bytes content) (omega arith) (omega arith)
  drop-bytes offset (suc d) zero k m e f = absurd (omega arith)
  drop-bytes offset (suc d) (suc n) k m e f =
      drop-bytes (suc offset) d n k m (omega arith) (omega arith)

  -- The part of block `b` that a byte read takes.
  pub chunk-bytes :
      (start d c n offset : ℕ)
      → offset ≡ start + d
      → d + c ≤ n
      → take c (drop d (bytes content start n)) ≡ bytes content offset c
  chunk-bytes start d c n offset e h =
      rw (drop-bytes start d n offset (n - d) e (omega arith))
        (take-bytes offset c (n - d) (omega arith))

module _ {S : Type 0} (read_fn : ℕ → List ℕ → S → Outcome (Unit {0}) × List ℕ × S) (content : ℕ → ℕ)
    (blksize limit : ℕ) (e : Errno) where
  -- A disk of `limit` blocks with that content: reading one of them fills the scratch block and
  -- moves the disk's state on by `then_`, and reading past them is the error `e`.
  abbrev pub Serves : (ℕ → S → S) → Type 0
  Serves then_ =
      (b : ℕ) (block_bytes : List ℕ) (s : S)
      → read_fn b block_bytes s ≡ (
          if ltb b limit
          then (ok tt, bytes content (b * blksize) blksize, then_ b s)
          else (err e, block_bytes, s))

module _ {S : Type 0} where
  -- A read ended by `o` with these bytes stored.
  abbrev pub Ends : Option (Read S) → Outcome ℕ → List ℕ → Type 0
  Ends r o stored =
      (block : List ℕ) × (s : S) × (r
        ≡ some (record { outcome = o; stored = stored; block_bytes = block; device = s }))

  Ends-cast :
      {r r' : Option (Read S)} {o o' : Outcome ℕ} {xs xs' : List ℕ}
      → r ≡ r'
      → o ≡ o'
      → xs ≡ xs'
      → Ends r' o' xs'
      → Ends r o xs
  Ends-cast er eo ex (block, s, h) = (block, s, rw (er, eo, ex) h)

module _ {S : Type 0} (read_fn : ℕ → List ℕ → S → Outcome (Unit {0}) × List ℕ × S) (content : ℕ → ℕ)
    (blksize limit : ℕ) (e : Errno) (then_ : ℕ → S → S)
    (serves : Serves read_fn content blksize limit e then_) (pos : 0 < blksize) where
  block_in : (offset : ℕ) → offset < limit * blksize → offset / blksize < limit
  block_in offset h = grind arith

  -- One round of the loop inside the disk.
  round_lem :
      (fuel offset left total : ℕ) (stored block_bytes : List ℕ) (s : S)
      → 0 < left
      → offset < limit * blksize
      → (block : List ℕ) × (s' : S) × (read_loop read_fn blksize
            (suc fuel)
            offset
            left
            total
            stored
            block_bytes
            s
          ≡ read_loop read_fn blksize fuel
              (offset + min left (blksize - offset % blksize))
              (left - min left (blksize - offset % blksize))
              (total + min left (blksize - offset % blksize))
              (stored ++ bytes content offset (min left (blksize - offset % blksize)))
              block
              s')
  unfolding read_loop
  round_lem fuel offset left total stored block_bytes s some_left inside =
      let b_in = block_in offset inside in
      let start = offset / blksize * blksize in
      let aligned : offset ≡ start + offset % blksize = sym (div-add-mod' offset blksize) in
      let d_lt : offset % blksize < blksize = omega arith in
      let copied =
        chunk-bytes content start (offset % blksize) (min left (blksize - offset % blksize)) blksize
          offset aligned (omega arith) in
      (
        bytes content start blksize,
        then_ (offset / blksize) s,
        ground (
          arith,
          serves (offset / blksize) block_bytes s,
          copied,
          length-bytes content start blksize,
        ),
      )

  block_end :
      (offset : ℕ)
      → offset < limit * blksize
      → offset + (blksize - offset % blksize) ≤ limit * blksize
  block_end offset h = grind (arith, block_in offset h, div-add-mod' offset blksize)

  -- Past the end of the disk a round ends the loop with the error of `read_fn`.
  round_past :
      (fuel offset left total : ℕ) (stored block_bytes : List ℕ) (s : S)
      → 0 < left
      → limit * blksize ≤ offset
      → read_loop read_fn blksize (suc fuel) offset left total stored block_bytes s
        ≡ some (record { outcome = err e; stored = stored; block_bytes = block_bytes; device = s })
  unfolding read_loop
  round_past fuel offset left total stored block_bytes s some_left past =
      let outside : limit ≤ offset / blksize = grind arith in
      ground (arith, serves (offset / blksize) block_bytes s)

  -- The loop at its end.
  loop_done :
      (fuel offset total : ℕ) (stored block_bytes : List ℕ) (s : S)
      → Ends (read_loop read_fn blksize fuel offset 0 total stored block_bytes s) (ok total) stored
  unfolding read_loop
  loop_done zero offset total stored block_bytes s = (block_bytes, s, refl)
  loop_done (suc fuel) offset total stored block_bytes s = (block_bytes, s, refl)

  -- A loop whose blocks are all on the disk, with a round of fuel for each byte.
  read_loop_fills :
      (fuel offset left total : ℕ) (stored block_bytes : List ℕ) (s : S)
      → left ≤ fuel
      → offset + left ≤ limit * blksize
      → Ends
          (read_loop read_fn blksize fuel offset left total stored block_bytes s)
          (ok (total + left))
          (stored ++ bytes content offset left)
  unfolding bytes
  read_loop_fills fuel offset zero total stored block_bytes s enough inside =
      Ends-cast refl (ap ok (omega arith)) (append-nil stored)
        (loop_done fuel offset total stored block_bytes s)
  read_loop_fills zero offset (suc left) total stored block_bytes s enough inside =
      absurd (omega arith)
  read_loop_fills (suc fuel) offset (suc left) total stored block_bytes s enough inside =
      let c = min (suc left) (blksize - offset % blksize) in
      let c_pos : 0 < c = omega arith in
      let (block, s', once) =
        round_lem fuel offset (suc left) total stored block_bytes s (omega arith) (omega arith) in
      Ends-cast once (ap ok (omega arith))
        (ap (◌++◌ stored) (
            sym (
              bytes_add content offset c (suc left - c) (offset + c) (suc left) refl (omega arith)))
          ∙ sym (append_assoc stored (bytes content offset c) _))
        (read_loop_fills fuel (offset + c) (suc left - c) (total + c)
          (stored ++ bytes content offset c) block s' (omega arith) (omega arith))

  -- A loop that needs a block past the end of the disk.
  read_loop_fails :
      (fuel offset left total : ℕ) (stored block_bytes : List ℕ) (s : S)
      → left ≤ fuel
      → 0 < left
      → limit * blksize < offset + left
      → Ends
          (read_loop read_fn blksize fuel offset left total stored block_bytes s)
          (err e)
          (stored ++ bytes content offset (limit * blksize - offset))
  read_loop_fails zero offset left total stored block_bytes s enough some_left past =
      absurd (omega arith)
  read_loop_fails (suc fuel) offset left total stored block_bytes s enough some_left past =
      elim (dec_le (limit * blksize) offset) [
        | yes out ↦
            let none_left : limit * blksize - offset ≡ 0 = omega arith in
            Ends-cast (round_past fuel offset left total stored block_bytes s some_left out) refl
              (rw none_left (unfold bytes in append-nil stored)) (block_bytes, s, refl)
        | no inside ↦
            let c = min left (blksize - offset % blksize) in
            let c_pos : 0 < c = omega arith in
            let within : offset + (blksize - offset % blksize) ≤ limit * blksize =
              block_end offset (omega arith) in
            let (block, s', once) =
              round_lem fuel offset left total stored block_bytes s some_left (omega arith) in
            Ends-cast once refl
              (ap (◌++◌ stored) (
                  sym (
                    bytes_add content offset c (limit * blksize - (offset + c)) (offset + c)
                      (limit * blksize - offset) refl (omega arith)))
                ∙ sym (append_assoc stored (bytes content offset c) _))
              (read_loop_fails fuel (offset + c) (left - c) (total + c)
                (stored ++ bytes content offset c) block s' (omega arith) (omega arith)
                (omega arith))
      ]

  -- Below 2^64 the buffer is not cut.
  block_read-read_loop :
      (offset len : ℕ) (block_bytes : List ℕ) (s : S)
      → offset + len < 2 ^ 64
      → block_read read_fn blksize offset len block_bytes s
        ≡ read_loop read_fn blksize len offset len 0 [] block_bytes s
  unfolding block_read read_loop
  block_read-read_loop offset zero block_bytes s fits = refl
  block_read-read_loop offset (suc len) block_bytes s fits =
      let uncut : to_copy_of offset (suc len) ≡ suc len = omega arith in ground (arith, uncut)

-- What a read of `len` bytes at `offset` comes to: all the bytes, or the bytes up to the end of the
-- disk and the error.
abbrev pub expected : (ℕ → ℕ) → (blksize limit : ℕ) → Errno → (offset len : ℕ) → Outcome ℕ × List ℕ
expected content blksize limit e offset len =
    if len == 0 || leb (offset + len) (limit * blksize)
    then (ok len, bytes content offset len)
    else (err e, bytes content offset (limit * blksize - offset))

-- A read of `len` bytes at `offset`, on a disk whose reads fill a whole block (`Serves`), stores
-- exactly those bytes and returns `len` if they all lie on the disk. If not, it stores the bytes up
-- to the end of the disk and fails with the error of the first block past it. The buffer ends
-- below 2^64, so it is not cut. Fuel for one round a byte is always enough.
pub block_read_stores :
    {S : Type 0} (read_fn : ℕ → List ℕ → S → Outcome (Unit {0}) × List ℕ × S) (content : ℕ → ℕ)
    (blksize limit : ℕ) (e : Errno) (then_ : ℕ → S → S)
    → Serves read_fn content blksize limit e then_
    → 0 < blksize
    → (offset len : ℕ) (block_bytes : List ℕ) (s : S) → offset + len < 2 ^ 64
    → let (o, stored) = expected content blksize limit e offset len in
      Ends (block_read read_fn blksize offset len block_bytes s) o stored
unfolding bytes
block_read_stores read_fn content blksize limit e then_ serves pos offset zero block_bytes s fits =
    Ends-cast
      (block_read-read_loop read_fn content blksize limit e then_ serves pos offset 0 block_bytes s
        fits)
      refl refl
      (loop_done read_fn content blksize limit e then_ serves pos 0 offset 0 [] block_bytes s)
block_read_stores read_fn content blksize limit e then_ serves pos offset (suc n) block_bytes s
      fits =
    let looped =
      block_read-read_loop read_fn content blksize limit e then_ serves pos offset (suc n)
        block_bytes s fits in
    elim (Bool-cases (leb (offset + suc n) (limit * blksize))) [
      | inl inside ↦
          let all : expected content blksize limit e offset (suc n)
              ≡ (ok (suc n), bytes content offset (suc n)) =
            ground arith in
          rw all (
            Ends-cast looped (ap ok (omega arith)) refl (
              read_loop_fills read_fn content blksize limit e then_ serves pos (suc n) offset
                (suc n) 0 [] block_bytes s (omega arith) (ground arith)))
      | inr past ↦
          let cut : expected content blksize limit e offset (suc n)
              ≡ (err e, bytes content offset (limit * blksize - offset)) =
            ground arith in
          rw cut (
            Ends-cast looped refl refl (
              read_loop_fails read_fn content blksize limit e then_ serves pos (suc n) offset
                (suc n) 0 [] block_bytes s (omega arith) (omega arith) (ground arith)))
    ]
