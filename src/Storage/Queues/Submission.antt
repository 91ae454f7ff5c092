-- ===== src/Storage/Queues/Submission.antt =====
-- The submission queue.
use drivers.Base.{
  ℕ, suc, ◌+◌, ◌%◌, ◌^◌, ◌<◌, ◌≡◌, refl, true, false, some, arith, length, get_elem?, set,
  get_elem?-set_self, length-set,
}
use drivers.Base.Outcome.{ok}
use drivers.Storage.Queues.{NvmeCmd, NvmeCmdQueue, is_empty, is_full, submit_unchecked}

-- Both indices lie in the queue, whose length fits 16 bits.
pub record IsValid (q : NvmeCmdQueue) : Type 0 where
  pub tail_in : q.tail < length q.entries
  pub head_in : q.head < length q.entries
  pub small : length q.entries < 2 ^ 16

-- On a valid queue `submit_unchecked` never panics: it stores the command at the old tail, moves
-- the tail on round the queue, returns the new tail, leaves the head alone and keeps the queue valid.
submit-IsValid :
    (q : NvmeCmdQueue) (c : NvmeCmd)
    → IsValid q
    → (q' : NvmeCmdQueue) × (submit_unchecked q c ≡ ok (q'.tail, q'))
      × IsValid q'
      × (q'.tail ≡ (q.tail + 1) % length q.entries)
      × (q'.head ≡ q.head)
      × (q'.entries ≡ set q.entries q.tail c)
      × (get_elem? q'.entries q.tail ≡ some c)
unfolding submit_unchecked
submit-IsValid q c v =
    let same_size = length-set q.entries q.tail c in
    let modulus : length q.entries % 2 ^ 16 ≡ length q.entries = omega arith in
    (
      record {
        entries = set q.entries q.tail c;
        tail = (q.tail + 1) % (length q.entries % 2 ^ 16);
        head = q.head;
      },
      ground (arith),
      record {
        tail_in = rw (same_size, modulus) (omega arith);
        head_in = rw same_size v.head_in;
        small = rw same_size v.small;
      },
      rw modulus,
      refl,
      refl,
      get_elem?-set_self q.entries q.tail c v.tail_in,
    )

-- While the tail is not on the last entry, `is_full` holds exactly if one more submission would
-- make the queue look empty.
pub is_full_inside :
    (q q' : NvmeCmdQueue) (c : NvmeCmd) (tail : ℕ)
    → IsValid q
    → suc q.tail < length q.entries
    → submit_unchecked q c ≡ ok (tail, q')
    → is_full q ≡ is_empty q'
unfolding is_full is_empty submit_unchecked
is_full_inside q q' c tail v lt e =
    let modulus : (q.tail + 1) % (length q.entries % 2 ^ 16) ≡ q.tail + 1 = grind arith in
    let next : (q.tail + 1) % 2 ^ 16 ≡ q.tail + 1 = grind arith in ground (arith, modulus, next)

-- With the tail on the last entry and the head at 0 the queue is full, but `is_full` says no, and
-- one more submission makes it look empty: the test does not wrap round as the tail does.
pub is_full_misses_wrap :
    (q : NvmeCmdQueue) (c : NvmeCmd)
    → IsValid q
    → suc q.tail ≡ length q.entries
    → q.head ≡ 0
    → (is_full q ≡ false)
      × ((q' : NvmeCmdQueue) × (submit_unchecked q c ≡ ok (0, q')) × (is_empty q' ≡ true))
unfolding is_full is_empty submit_unchecked
is_full_misses_wrap q c v last start =
    let modulus : (q.tail + 1) % (length q.entries % 2 ^ 16) ≡ 0 = grind arith in
    let next : (q.tail + 1) % 2 ^ 16 ≡ q.tail + 1 = grind arith in
    (
      ground (arith, next),
      (
        record { entries = set q.entries q.tail c; tail = 0; head = q.head },
        ground (arith, modulus),
        ground arith,
      ),
    )
