-- ===== src/Virtio/Queue/Requests.antt =====
-- A request from `send` to `PendingRequest::poll`, in virtio-core/src/transport.rs.
use drivers.Base.{
  ℕ, zero, suc, ◌+◌, ◌-◌, ◌%◌, ◌^◌, ◌<◌, ◌≡◌, ◌≢◌, refl, ◌∙◌, ap, sym, none, some, List, [], ◌∷◌,
  ◌++◌, ◌==◌, true, false, length, length-set, get_elem?, get_elem?-some, get_elem?-set_ne, set,
  arith,
}
use mathlib.Core.List.{append_assoc}
use drivers.Base.Outcome.{ok}
use drivers.Base.Map.{insert, remove}
use drivers.Virtio.Queue.{
  Descriptor, Buffer, UsedElement, Queue, has_next, fill_in, link_last, link_buffer, link_buffers,
  or_first, send, recycle, poll,
}
use drivers.Virtio.Queue.Chains.{
  Chain, Fresh, Free, update-some, set-some, linking, Free-length, rest_lem,
}

-- `NEXT` is on every buffer but the last.
unfoldable pub Linked : List Buffer → Type 0
Linked [] = ⊥
Linked (b ∷ []) = has_next b.flags ≡ false
Linked (b ∷ c ∷ bs) = (has_next b.flags ≡ true) × Linked (c ∷ bs)

-- The queue once a request at descriptor `i` is sent
abbrev pub sent : List Descriptor → List ℕ → ℕ → Queue → Queue
sent ds rest i q = record q {
  descriptor = ds;
  descriptor_stack = rest;
  available = set q.available (q.available_head % length q.available) i;
  available_head = (q.available_head + 1) % 2 ^ 16;
  rung = q.rung + 1;
}

first_lem :
    (bs : List Buffer) (b : Buffer) (i : ℕ) (stack : List ℕ) (d : Descriptor) (ds : List Descriptor)
    → get_elem? ds i ≡ some d
    → link_buffers (b ∷ bs) (record {
      descriptor = ds;
      descriptor_stack = i ∷ stack;
      first_descriptor = none;
      last_descriptor = none;
    })
      ≡ link_buffers bs (linking (set ds i (fill_in b d)) stack i i)
unfolding link_buffers link_buffer link_last or_first
first_lem bs b i stack d ds at_i = rw (update-some ds i d (fill_in b) at_i) refl

-- With enough free descriptors a request is put in the first of them, each linked to the next, and
-- its first one in the available ring. No other descriptor is changed.
pub send-Chain :
    (b : Buffer) (bs : List Buffer) (i : ℕ) (is rest : List ℕ) (q : Queue)
    → q.descriptor_stack ≡ i ∷ (is ++ rest)
    → Free (length q.descriptor) (i ∷ is)
    → length is ≡ length bs
    → (ds : List Descriptor) × (send (b ∷ bs) q ≡ ok (i, sent ds rest i q))
      × Chain ds i is (b ∷ bs)
      × (length ds ≡ length q.descriptor)
      × ((k : ℕ) → i ≢ k → Fresh k is → get_elem? ds k ≡ get_elem? q.descriptor k)
unfolding send Free
send-Chain b bs i is rest q stack_is (inside, small, fresh, free) e =
    let (d, at_i) = get_elem?-some q.descriptor i inside in
    let filled = set q.descriptor i (fill_in b d) in
    let (ds, run, chained, len, kept) =
      rest_lem bs is rest i i b d.next filled (set-some q.descriptor i d (fill_in b d) at_i) fresh
        (Free-length (length q.descriptor) (length filled) is
          (sym (length-set q.descriptor i (fill_in b d))) free)
        e in
    let low : i % 2 ^ 16 ≡ i = omega arith in
    (
      ds,
      rw (stack_is, first_lem bs b i (is ++ rest) d q.descriptor at_i, run, low) refl,
      chained,
      len ∙ length-set q.descriptor i (fill_in b d),
      λ k other others. kept k other others ∙ get_elem?-set_ne q.descriptor i k (fill_in b d) other,
    )

-- The chain of a request goes back to the free descriptors in its order.
recycle-Chain :
    (fuel i : ℕ) (is : List ℕ) (bs : List Buffer) (ds : List Descriptor) (stack : List ℕ)
    → Chain ds i is bs
    → Linked bs
    → Free (length ds) (i ∷ is)
    → length is < fuel
    → recycle fuel i ds stack ≡ some (ok (stack ++ i ∷ is))
unfolding recycle Chain Linked Free
recycle-Chain zero i is bs ds stack chained linked free enough = absurd (omega arith)
recycle-Chain (suc fuel) i is [] ds stack chained linked free enough = absurd chained
recycle-Chain (suc fuel) i [] (b ∷ []) ds stack chained linked free enough =
    let low : i % 2 ^ 16 ≡ i = omega (arith, free.1) in rw (recycle, chained, linked, low) refl
recycle-Chain (suc fuel) i [] (b ∷ c ∷ bs) ds stack chained linked free enough = absurd chained
recycle-Chain (suc fuel) i (j ∷ is) (b ∷ []) ds stack chained linked free enough = absurd chained.1
recycle-Chain (suc fuel) i (j ∷ is) (b ∷ c ∷ bs) ds stack chained linked free enough =
    let low : i % 2 ^ 16 ≡ i = omega (arith, free.1) in
    rw
      (
        recycle,
        chained.0,
        linked.0,
        low,
        recycle-Chain fuel j is (c ∷ bs) ds (stack ++ i ∷ []) chained.1 linked.1 free.3
            (omega arith),
      )
      (ap (λ (xs : List ℕ). some (ok xs)) (append_assoc stack (i ∷ []) (j ∷ is)))

-- Where the driver looks in the used ring
abbrev pub last_used : Queue → ℕ
last_used q = (q.used_ring_head + (2 ^ 16 - 1)) % 2 ^ 16 % length q.used

-- The queue once the device has written its used ring
abbrev pub completed : List UsedElement → ℕ → Queue → Queue
completed used head q = record q { used = used; used_ring_head = head }

-- The queue once a request at descriptor `i` is seen completed
abbrev pub received : List ℕ → (i waker : ℕ) → Queue → Queue
received stack i waker q = record q {
  descriptor_stack = stack;
  waker = remove i (insert i waker q.waker);
  used_head = q.used_ring_head;
}

poll-received :
    (fuel i waker written : ℕ) (is : List ℕ) (bs : List Buffer) (q : Queue)
    → (q.used_ring_head == q.used_head) ≡ false
    → get_elem? q.used (last_used q) ≡ some (record { table_index = i; written = written })
    → Chain q.descriptor i is bs
    → Linked bs
    → Free (length q.descriptor) (i ∷ is)
    → length is < fuel
    → poll fuel i waker q
      ≡ some (ok (some written, received (q.descriptor_stack ++ i ∷ is) i waker q))
unfolding poll
poll-received fuel i waker written is bs q new found chained linked free enough =
    let same : (i == i) ≡ true = ground arith in
    rw
      (
        new,
        found,
        same,
        recycle-Chain fuel i is bs q.descriptor q.descriptor_stack chained linked free enough,
      )
      refl

-- A request that is sent and then completed by the device, and that is the last one of the used
-- ring when it is polled, gives what the device wrote, and all its descriptors are free again, in
-- their order behind the others. As many turns of the loop as it has buffers are enough.
pub request_returns :
    (b : Buffer) (bs : List Buffer) (i : ℕ) (is rest : List ℕ) (used : List UsedElement)
    (head waker written fuel : ℕ) (q : Queue)
    → q.descriptor_stack ≡ i ∷ (is ++ rest)
    → Free (length q.descriptor) (i ∷ is)
    → length is ≡ length bs
    → Linked (b ∷ bs)
    → length bs < fuel
    → (head == q.used_head) ≡ false
    → get_elem? used ((head + (2 ^ 16 - 1)) % 2 ^ 16 % length used)
      ≡ some (record { table_index = i; written = written })
    → (q' : Queue) × (send (b ∷ bs) q ≡ ok (i, q'))
      × (poll fuel i waker (completed used head q')
          ≡ some (ok (some written, received (rest ++ i ∷ is) i waker (completed used head q'))))
      × (q'.descriptor_stack ≡ rest)
request_returns b bs i is rest used head waker written fuel q stack_is free e linked enough new
      found =
    let (ds, run, chained, len, kept) = send-Chain b bs i is rest q stack_is free e in
    let q' = sent ds rest i q in
    (
      q',
      run,
      poll-received fuel i waker written is (b ∷ bs) (completed used head q') new found chained
          linked (Free-length (length q.descriptor) (length ds) (i ∷ is) (sym len) free)
          (omega arith),
      refl,
    )

-- When two requests are completed before either is polled, only the last one in the used ring is
-- ever seen: polled first, it is received, and the other one then stays pending as long as the
-- device writes nothing more.
pub poll_misses :
    (fuel i j waker waker' written : ℕ) (is : List ℕ) (bs : List Buffer) (q : Queue)
    → (q.used_ring_head == q.used_head) ≡ false
    → get_elem? q.used (last_used q) ≡ some (record { table_index = i; written = written })
    → Chain q.descriptor i is bs
    → Linked bs
    → Free (length q.descriptor) (i ∷ is)
    → length is < fuel
    → let q' = received (q.descriptor_stack ++ i ∷ is) i waker q in
      (poll fuel i waker q ≡ some (ok (some written, q')))
      × (poll fuel j waker' q' ≡ some (ok (none, record q' { waker = insert j waker' q'.waker })))
unfolding poll
poll_misses fuel i j waker waker' written is bs q new found chained linked free enough =
    let same : (q.used_ring_head == q.used_ring_head) ≡ true = ground arith in
    (poll-received fuel i waker written is bs q new found chained linked free enough, rw same refl)
