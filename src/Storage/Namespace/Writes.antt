-- ===== src/Storage/Namespace/Writes.antt =====
-- What a write to a namespace leaves on the disk, in storage/nvmed/src/nvme/mod.rs.
use drivers.Base.{
  ℕ, zero, suc, ◌+◌, ◌-◌, ◌*◌, ◌/◌, ◌%◌, ◌^◌, ◌≤◌, ◌<◌, min, ◌≡◌, refl, ◌∙◌, ap, sym, true, false,
  ◌||◌, some, List, [], ◌∷◌, ◌++◌, ltb, ◌==◌, length, length-append, length-take, length-drop, take,
  drop, arith, Bool-cases, inl, inr,
}
use drivers.Base.Outcome.{ok}
use drivers.Storage.Queues.{NvmeComp}
use drivers.Storage.Commands.{io_write}
use drivers.Storage.Namespace.{
  BufferPrp, Namespace, State, Submit, blocks_of, data_pointer, namespace_rw, write_chunks,
  namespace_write,
}
use drivers.Storage.Namespace.Blocks.{
  Controller, Divides, Rounds, overlay, blocks_of-Rounds, blocks_of-whole, data_pointer-Describes,
  asserts_lem, long_enough,
}
use drivers.Storage.Namespace.Reads.{empty_lem, take-append}
use drivers.Storage.Namespace.Overlay.{
  next_block, overlay-append, overlay-nothing, split_blocks, take-drop, take_all,
}

module _ {D : Type 0} (submit : Submit D) (prp : BufferPrp) (ns : Namespace) (nsid per : ℕ)
    (c : Controller submit prp ns.block_size nsid) (d : Divides ns.block_size per) where
  -- The driver's buffer with a chunk over its front
  abbrev copied : List ℕ → State D → State D
  copied chunk s = record s { buffer = chunk ++ drop (length chunk) s.buffer }

  write_runs :
      (lba n : ℕ) (s s' : State D) (comp : NvmeComp)
      → (let (p0, p1) = data_pointer prp ((n + 1) * ns.block_size % 2 ^ 64) in
          submit (λ cid. io_write cid nsid lba n p0 p1) s ≡ (comp, s'))
      → comp.status / 2 ≡ 0
      → namespace_rw submit prp ns nsid lba n true s ≡ (ok tt, s')
  unfolding namespace_rw
  write_runs lba n s s' comp runs done = rw (runs, done) refl

  copied_room :
      (chunk : List ℕ) (s : State D)
      → length chunk ≤ 8192
      → 8192 ≤ length s.buffer
      → 8192 ≤ length (copied chunk s).buffer
  copied_room chunk s h room = omega (
    arith,
    length-append chunk (drop (length chunk) s.buffer),
    length-drop (length chunk) s.buffer,
  )

  -- One command for a chunk of `n` whole blocks
  one_write :
      (lba n : ℕ) (chunk : List ℕ) (s : State D)
      → lba < 2 ^ 64
      → 0 < length chunk
      → length chunk ≤ 8192
      → length chunk ≡ n * ns.block_size
      → 8192 ≤ length s.buffer
      → (e : D) × (namespace_rw submit prp ns nsid lba
            ((blocks_of (length chunk) ns.block_size - 1) % 2 ^ 16)
            true
            (copied chunk s)
          ≡ (ok tt, record (copied chunk s) { device = e }))
        × (c.stored e ≡ overlay (lba * ns.block_size) chunk (c.stored s.device))
  one_write lba n chunk s small some_len h whole_blocks room =
      let q = blocks_of (length chunk) ns.block_size in
      let r = blocks_of-Rounds ns.block_size per (length chunk) d some_len h in
      let i = (q - 1) % 2 ^ 16 in
      let again : i + 1 ≡ q = omega (arith, r.at_least, r.no_more) in
      let exact : (i + 1) * ns.block_size ≡ length chunk =
        rw again (blocks_of-whole ns.block_size per (length chunk) n d some_len h whole_blocks) in
      let whole : (i + 1) * ns.block_size % 2 ^ 64 ≡ (i + 1) * ns.block_size =
        omega (arith, exact) in
      let ptrs = data_pointer prp ((i + 1) * ns.block_size % 2 ^ 64) in
      let front : take ((i + 1) * ns.block_size) (copied chunk s).buffer ≡ chunk =
        ap (λ k. take k (copied chunk s).buffer) exact
        ∙ take-append (length chunk) chunk (drop (length chunk) s.buffer) (omega arith)
        ∙ take_all chunk in
      let (comp, e, runs, done, kept) =
        c.writes lba i ptrs (copied chunk s) small (omega arith)
          (omega (arith, exact, copied_room chunk s h room))
          (rw whole (data_pointer-Describes prp ((i + 1) * ns.block_size))) in
      (
        e,
        write_runs lba i (copied chunk s) _ comp runs done,
        kept ∙ ap (λ xs. overlay (lba * ns.block_size) xs (c.stored s.device)) front,
      )

  nothing_left :
      (fuel lba : ℕ) (s : State D) → write_chunks submit prp ns nsid fuel lba [] s ≡ (ok tt, s)
  unfolding write_chunks
  nothing_left zero lba s = refl
  nothing_left (suc fuel) lba s = refl

  -- One turn of the loop
  turn_lem :
      (fuel lba : ℕ) (buf : List ℕ) (s s1 s2 : State D)
      → let chunk = take 8192 buf in
        let q = blocks_of (length chunk) ns.block_size in
        (length buf == 0) ≡ false
        → Rounds ns.block_size per (length chunk)
        → length chunk ≤ 8192
        → 8192 ≤ length s.buffer
        → namespace_rw submit prp ns nsid lba ((q - 1) % 2 ^ 16) true (copied chunk s) ≡ (ok tt, s1)
        → write_chunks submit prp ns nsid fuel ((lba + q) % 2 ^ 64) (drop 8192 buf) s1 ≡ (ok tt, s2)
        → write_chunks submit prp ns nsid (suc fuel) lba buf s ≡ (ok tt, s2)
  unfolding write_chunks
  turn_lem fuel lba buf s s1 s2 more r le room run rest =
      let q = blocks_of (length (take 8192 buf)) ns.block_size in
      let tests : (ns.block_size == 0 || q == 0 || ltb 0x10000 q) ≡ false =
        asserts_lem ns.block_size q d.some_bytes r.at_least (omega (arith, r.no_more)) in
      let fits : ltb (length s.buffer) (length (take 8192 buf)) ≡ false =
        long_enough _ _ (omega arith) in
      rw (more, tests, fits, run) (rw (run, rest) refl)

  write_chunks-stores :
      (fuel n lba : ℕ) (buf : List ℕ) (s : State D)
      → length buf ≤ fuel
      → length buf ≡ n * ns.block_size
      → lba + length buf < 2 ^ 64
      → 8192 ≤ length s.buffer
      → (s' : State D) × (write_chunks submit prp ns nsid fuel lba buf s ≡ (ok tt, s'))
        × (c.stored s'.device ≡ overlay (lba * ns.block_size) buf (c.stored s.device))
        × (8192 ≤ length s'.buffer)
  write_chunks-stores zero n lba [] s enough whole small room = (
    s,
    nothing_left zero lba s,
    sym (overlay-nothing (lba * ns.block_size) (c.stored s.device)),
    room,
  )
  write_chunks-stores zero n lba (x ∷ xs) s enough whole small room = absurd (omega arith)
  write_chunks-stores (suc fuel) n lba buf s enough whole small room =
      elim (Bool-cases (length buf == 0)) [
        | inl done ↦
            let e = empty_lem buf done in
            (
              s,
              ap (λ b. write_chunks submit prp ns nsid (suc fuel) lba b s) e
                  ∙ nothing_left (suc fuel) lba s,
              sym (overlay-nothing (lba * ns.block_size) (c.stored s.device))
                  ∙ ap (λ b. overlay (lba * ns.block_size) b (c.stored s.device)) (sym e),
              room,
            )
        | inr more ↦
            let chunk = take 8192 buf in
            let len = length chunk in
            let q = blocks_of len ns.block_size in
            let len_is : len ≡ min 8192 (length buf) = length-take 8192 buf in
            let some_left : 0 < length buf = ground arith in
            let r = blocks_of-Rounds ns.block_size per len d (omega arith) (omega arith) in
            let (m, m', blocks_are, rest_are) =
              split_blocks ns.block_size per n (length buf) d whole in
            let exact : q * ns.block_size ≡ len =
              blocks_of-whole ns.block_size per len m d (omega arith) (omega arith) (omega arith) in
            let (e, run, kept) =
              one_write lba m chunk s (omega arith) (omega arith) (omega arith) (omega arith)
                room in
            let next = record (copied chunk s) { device = e } in
            let (s', runs, keeps, roomy) =
              write_chunks-stores fuel m' ((lba + q) % 2 ^ 64) (drop 8192 buf) next
                (omega (arith, length-drop 8192 buf)) (omega (arith, length-drop 8192 buf))
                (omega (arith, r.no_more, length-drop 8192 buf))
                (copied_room chunk s (omega arith) room) in
            let lba' : (lba + q) % 2 ^ 64 * ns.block_size ≡ lba * ns.block_size + len =
              next_block ns.block_size lba q len (omega (arith, r.no_more)) exact in
            (
              s',
              turn_lem fuel lba buf s next s' more r (omega arith) room run runs,
              keeps
                  ∙ ap (overlay ((lba + q) % 2 ^ 64 * ns.block_size) (drop 8192 buf)) kept
                  ∙ overlay-append (lba * ns.block_size) ((lba + q) % 2 ^ 64 * ns.block_size) chunk
                      (drop 8192 buf) (c.stored s.device) lba'
                  ∙ ap (λ b. overlay (lba * ns.block_size) b (c.stored s.device))
                      (take-drop 8192 buf),
              roomy,
            )
      ]

  -- A write of whole blocks from block `lba` on leaves on the disk the bytes of the buffer in those
  -- blocks and everything else as it was, and returns the buffer's length. The disk has blocks of a
  -- length that divides 8192, the controller carries commands out, and the driver's own buffer
  -- holds 8192 bytes at least.
  pub namespace_write-stores :
      (n lba : ℕ) (buf : List ℕ) (s : State D)
      → length buf ≡ n * ns.block_size
      → lba + length buf < 2 ^ 64
      → 8192 ≤ length s.buffer
      → (s' : State D) × (namespace_write submit prp ns nsid lba buf s
          ≡ (ok (some (length buf)), s'))
        × (c.stored s'.device ≡ overlay (lba * ns.block_size) buf (c.stored s.device))
        × (8192 ≤ length s'.buffer)
  unfolding namespace_write
  namespace_write-stores n lba buf s whole small room =
      let (s', run, kept, roomy) =
        write_chunks-stores (length buf) n lba buf s (omega arith) whole small room in
      (s', rw run refl, kept, roomy)
