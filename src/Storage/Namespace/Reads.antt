-- ===== src/Storage/Namespace/Reads.antt =====
-- What a read of a namespace returns, in storage/nvmed/src/nvme/mod.rs.
use drivers.Base.{
  ℕ, zero, suc, ◌+◌, ◌-◌, ◌*◌, ◌/◌, ◌%◌, ◌^◌, ◌≤◌, ◌<◌, min, ◌≡◌, refl, ◌∙◌, ap, sym, true, false,
  ◌||◌, some, List, [], ◌∷◌, ◌++◌, ltb, ◌==◌, length, length-append, length-take, length-drop, take,
  drop, arith, ◌⊎◌, Bool-cases, inl, inr,
}
use mathlib.Core.List.{append-nil}
use native.Mathlib.Decide.{dec_le}
use drivers.Base.Outcome.{ok}
use drivers.Storage.Block.Bytes.{bytes, length-bytes, bytes_add, chunk-bytes}
use drivers.Storage.Queues.{NvmeComp}
use drivers.Storage.Commands.{io_read}
use drivers.Storage.Namespace.{
  BufferPrp, Namespace, State, Submit, blocks_of, data_pointer, namespace_rw, read_chunks,
  namespace_read,
}
use drivers.Storage.Namespace.Blocks.{
  Controller, Divides, Rounds, blocks_of-Rounds, blocks_of-whole, data_pointer-Describes,
  asserts_lem, long_enough,
}

pub take-append : (n : ℕ) (xs ys : List ℕ) → n ≤ length xs → take n (xs ++ ys) ≡ take n xs
take-append zero xs ys h = refl
take-append (suc n) [] ys h = absurd (omega arith)
take-append (suc n) (x ∷ xs) ys h = ap (λ zs. x ∷ zs) (take-append n xs ys (omega arith))

-- A read in two parts, the second of which may be empty
bytes_join :
    (content : ℕ → ℕ) (at len rest next total : ℕ)
    → (rest ≡ 0) ⊎ (next ≡ at + len)
    → total ≡ len + rest
    → bytes content at len ++ bytes content next rest ≡ bytes content at total
unfolding bytes
bytes_join content at len rest next total (inl e) f =
    let whole : len ≡ total = omega arith in
    ap (λ k. bytes content at len ++ bytes content next k) e
    ∙ append-nil (bytes content at len)
    ∙ ap (bytes content at) whole
bytes_join content at len rest next total (inr e) f = bytes_add content at len rest next total e f

pub empty_lem : (buf : List ℕ) → (length buf == 0) ≡ true → buf ≡ []
empty_lem [] e = refl
empty_lem (x ∷ xs) e = ground arith

module _ {D : Type 0} (submit : Submit D) (prp : BufferPrp) (ns : Namespace) (nsid per : ℕ)
    (c : Controller submit prp ns.block_size nsid) (d : Divides ns.block_size per) where
  abbrev read_into : ℕ → ℕ → State D → D → State D
  read_into lba n s e = record {
    buffer = bytes (c.stored s.device) (lba * ns.block_size) n ++ drop n s.buffer;
    device = e;
  }

  read_runs :
      (lba n : ℕ) (s s' : State D) (comp : NvmeComp)
      → (let (p0, p1) = data_pointer prp ((n + 1) * ns.block_size % 2 ^ 64) in
          submit (λ cid. io_read cid nsid lba n p0 p1) s ≡ (comp, s'))
      → comp.status / 2 ≡ 0
      → namespace_rw submit prp ns nsid lba n false s ≡ (ok tt, s')
  unfolding namespace_rw
  read_runs lba n s s' comp runs done = rw (runs, done) refl

  -- One command for the blocks of a chunk of `len` bytes
  one_read :
      (lba len : ℕ) (s : State D)
      → lba < 2 ^ 64
      → 0 < len
      → len ≤ 8192
      → 8192 ≤ length s.buffer
      → (e : D) × (namespace_rw submit prp ns nsid lba
            ((blocks_of len ns.block_size - 1) % 2 ^ 16)
            false
            s
          ≡ (ok tt, read_into lba (blocks_of len ns.block_size * ns.block_size) s e))
        × (c.stored e ≡ c.stored s.device)
  one_read lba len s small some_len h room =
      let q = blocks_of len ns.block_size in
      let r = blocks_of-Rounds ns.block_size per len d some_len h in
      let n = (q - 1) % 2 ^ 16 in
      let again : n + 1 ≡ q = omega (arith, r.at_least, r.no_more) in
      let whole : (n + 1) * ns.block_size % 2 ^ 64 ≡ (n + 1) * ns.block_size =
        rw again (omega (arith, r.in_buffer)) in
      let ptrs = data_pointer prp ((n + 1) * ns.block_size % 2 ^ 64) in
      let (comp, e, runs, done, kept) =
        c.reads lba n ptrs s small (omega arith) (rw again (omega (arith, r.in_buffer)))
          (rw whole (data_pointer-Describes prp ((n + 1) * ns.block_size))) in
      (
        e,
        read_runs lba n s (read_into lba ((n + 1) * ns.block_size) s e) comp runs done
            ∙ ap (λ (k : ℕ). (ok tt, read_into lba (k * ns.block_size) s e)) again,
        kept,
      )

  -- The front of the buffer is what the chunk of `len` bytes gets.
  front_lem :
      (lba len k : ℕ) (s : State D) (e : D)
      → len ≤ k
      → take len (read_into lba k s e).buffer ≡ bytes (c.stored s.device) (lba * ns.block_size) len
  front_lem lba len k s e h =
      let b = bytes (c.stored s.device) (lba * ns.block_size) k in
      take-append len b (drop k s.buffer)
        (omega (arith, length-bytes (c.stored s.device) (lba * ns.block_size) k))
      ∙ chunk-bytes (c.stored s.device) (lba * ns.block_size) 0 len k (lba * ns.block_size)
          (omega arith) (omega (arith, h))

  room_lem :
      (lba k : ℕ) (s : State D) (e : D)
      → 8192 ≤ length s.buffer
      → 8192 ≤ length (read_into lba k s e).buffer
  room_lem lba k s e h =
      let b = bytes (c.stored s.device) (lba * ns.block_size) k in
      omega (
        arith,
        length-append b (drop k s.buffer),
        length-drop k s.buffer,
        length-bytes (c.stored s.device) (lba * ns.block_size) k,
      )

  none_left :
      (fuel lba : ℕ) (s : State D) → read_chunks submit prp ns nsid fuel lba [] s ≡ (ok tt, [], s)
  unfolding read_chunks
  none_left zero lba s = refl
  none_left (suc fuel) lba s = refl

  -- One turn of the loop
  turn_lem :
      (fuel lba : ℕ) (buf filled : List ℕ) (s s1 s2 : State D)
      → let len = length (take 8192 buf) in
        let q = blocks_of len ns.block_size in
        (length buf == 0) ≡ false
        → Rounds ns.block_size per len
        → len ≤ 8192
        → len ≤ length s1.buffer
        → namespace_rw submit prp ns nsid lba ((q - 1) % 2 ^ 16) false s ≡ (ok tt, s1)
        → read_chunks submit prp ns nsid fuel ((lba + q) % 2 ^ 64) (drop 8192 buf) s1
          ≡ (ok tt, filled, s2)
        → read_chunks submit prp ns nsid (suc fuel) lba buf s
          ≡ (ok tt, take len s1.buffer ++ filled, s2)
  unfolding read_chunks
  turn_lem fuel lba buf filled s s1 s2 more r le room run rest =
      let q = blocks_of (length (take 8192 buf)) ns.block_size in
      let tests : (ns.block_size == 0 || q == 0 || ltb 0x10000 q) ≡ false =
        asserts_lem ns.block_size q d.some_bytes r.at_least (omega (arith, r.no_more)) in
      let fits : ltb (length s1.buffer) (length (take 8192 buf)) ≡ false =
        long_enough _ _ (omega arith) in
      rw (more, tests, run) (rw (run, fits, rest) refl)

  joined_lem :
      (lba : ℕ) (buf : List ℕ) (s : State D) (e : D)
      → let len = length (take 8192 buf) in
        let q = blocks_of len ns.block_size in
        0 < length buf
        → lba + length buf < 2 ^ 64
        → c.stored e ≡ c.stored s.device
        → take len (read_into lba (q * ns.block_size) s e).buffer
            ++ bytes (c.stored e) ((lba + q) % 2 ^ 64 * ns.block_size) (length (drop 8192 buf))
          ≡ bytes (c.stored s.device) (lba * ns.block_size) (length buf)
  joined_lem lba buf s e some_left small kept =
      let len = length (take 8192 buf) in
      let q = blocks_of len ns.block_size in
      let len_is : len ≡ min 8192 (length buf) = length-take 8192 buf in
      let left_is : length (drop 8192 buf) ≡ length buf - 8192 = length-drop 8192 buf in
      let r = blocks_of-Rounds ns.block_size per len d (omega arith) (omega arith) in
      let lba' : (lba + q) % 2 ^ 64 ≡ lba + q = omega (arith, r.no_more) in
      rw (front_lem lba len (q * ns.block_size) s e r.holds, kept, lba')
        (bytes_join (c.stored s.device) (lba * ns.block_size) len (length (drop 8192 buf))
          ((lba + q) * ns.block_size) (length buf)
          (elim (dec_le (length buf) 8192) [
            | yes last ↦ inl (omega arith)
            | no further ↦ inr (
                omega (
                  arith,
                  blocks_of-whole ns.block_size per len per d (omega arith) (omega arith)
                      (omega (arith, d.whole)),
                ))
          ])
          (omega arith))

  read_chunks-stores :
      (fuel lba : ℕ) (buf : List ℕ) (s : State D)
      → length buf ≤ fuel
      → lba + length buf < 2 ^ 64
      → 8192 ≤ length s.buffer
      → (s' : State D) × (read_chunks submit prp ns nsid fuel lba buf s
          ≡ (ok tt, bytes (c.stored s.device) (lba * ns.block_size) (length buf), s'))
        × (c.stored s'.device ≡ c.stored s.device)
        × (8192 ≤ length s'.buffer)
  unfolding bytes
  read_chunks-stores zero lba [] s enough small room = (s, none_left zero lba s, refl, room)
  read_chunks-stores zero lba (x ∷ xs) s enough small room = absurd (omega arith)
  read_chunks-stores (suc fuel) lba buf s enough small room = elim (Bool-cases (length buf == 0)) [
    | inl done ↦
        let e : buf ≡ [] = empty_lem buf done in
        (
          s,
          ap (λ b. read_chunks submit prp ns nsid (suc fuel) lba b s) e
              ∙ none_left (suc fuel) lba s
              ∙ ap (λ b. (ok tt, bytes (c.stored s.device) (lba * ns.block_size) (length b), s))
                  (sym e),
          refl,
          room,
        )
    | inr more ↦
        let len = length (take 8192 buf) in
        let q = blocks_of len ns.block_size in
        let len_is : len ≡ min 8192 (length buf) = length-take 8192 buf in
        let some_left : 0 < length buf = ground arith in
        let r = blocks_of-Rounds ns.block_size per len d (omega arith) (omega arith) in
        let (e, run, kept) = one_read lba len s (omega arith) (omega arith) (omega arith) room in
        let next = read_into lba (q * ns.block_size) s e in
        let (s', runs, keeps, roomy) =
          read_chunks-stores fuel ((lba + q) % 2 ^ 64) (drop 8192 buf) next
            (omega (arith, length-drop 8192 buf)) (omega (arith, r.no_more, length-drop 8192 buf))
            (room_lem lba (q * ns.block_size) s e room) in
        let taken = take len next.buffer in
        let turn =
          turn_lem fuel lba buf _ s next s' more r (omega arith)
            (omega (arith, room_lem lba (q * ns.block_size) s e room)) run runs in
        (
          s',
          turn
              ∙ ap (λ (xs : List ℕ). (ok tt, xs, s')) (joined_lem lba buf s e some_left small kept),
          keeps ∙ kept,
          roomy,
        )
  ]

  -- A read of any length from block `lba` on fills the buffer with the bytes of the disk from that
  -- block on and returns the buffer's length; the disk is not changed. The disk has blocks of a
  -- length that divides 8192, the controller carries commands out, and the driver's own buffer
  -- holds 8192 bytes at least.
  pub namespace_read-stores :
      (lba : ℕ) (buf : List ℕ) (s : State D)
      → lba + length buf < 2 ^ 64
      → 8192 ≤ length s.buffer
      → (s' : State D) × (namespace_read submit prp ns nsid lba buf s ≡ (
        ok (some (length buf)),
        bytes (c.stored s.device) (lba * ns.block_size) (length buf),
        s',
      ))
        × (c.stored s'.device ≡ c.stored s.device)
        × (8192 ≤ length s'.buffer)
  unfolding namespace_read
  namespace_read-stores lba buf s small room =
      let (s', run, kept, roomy) =
        read_chunks-stores (length buf) lba buf s (omega arith) small room in
      (s', rw run refl, kept, roomy)
