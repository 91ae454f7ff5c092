-- ===== src/Virtio/Queue.antt =====
-- virtio-core/src/transport.rs and src/spec/split_virtqueue.rs: a queue of requests that driver and
-- device share. Atomic cells hold plain numbers; the memory behind the rings, the wakers and the
-- bell of the device are parameters or lists.
pub mod Chains
pub mod Requests
pub mod Building
mod Tests
use drivers.Base.{
  ℕ, zero, suc, ◌+◌, ◌-◌, ◌%◌, ◌^◌, bit_and, bit_or, Option, none, some, List, [], ◌∷◌, ◌++◌, ◌==◌,
  if◌then◌else◌, Bool, true, false, length, get_elem?, set,
}
use drivers.Base.Outcome.{Outcome, ok, err, panicked, unwrap, ◌>>=◌}
use drivers.Base.Map.{Map, insert, remove}

pub record Descriptor : Type 0 where
  pub address : ℕ
  pub size : ℕ
  pub flags : ℕ
  pub next : ℕ

-- `DescriptorFlags::NEXT`
abbrev pub has_next : ℕ → Bool
has_next flags = bit_and flags 1 == 1

pub record Buffer : Type 0 where
  pub buffer : ℕ
  pub size : ℕ
  pub flags : ℕ

-- `ChainBuilder`: `NEXT` on every buffer, and off the last one.
unfoldable pub chain : List Buffer → Buffer → List Buffer
chain buffers b = buffers ++ (record b { flags = bit_or b.flags 1 } ∷ [])

unfoldable pub build : List Buffer → Outcome (List Buffer)
build [] = panicked
build (b ∷ []) = ok (record b { flags = b.flags - bit_and b.flags 1 } ∷ [])
build (b ∷ c ∷ bs) = build (c ∷ bs) >>= λ rest. ok (b ∷ rest)

pub record UsedElement : Type 0 where
  pub table_index : ℕ
  pub written : ℕ

-- The queue. `available` and `used` are the elements of the two rings, with their head indices;
-- the device writes `used`. `rung` counts the notifications.
pub record Queue : Type 0 where
  pub descriptor : List Descriptor
  pub available : List ℕ
  pub available_head : ℕ
  pub used : List UsedElement
  pub used_ring_head : ℕ
  pub used_head : ℕ
  pub descriptor_stack : List ℕ
  pub waker : Map ℕ
  pub rung : ℕ

-- The numbers from `i` on
unfoldable pub count_from : (i n : ℕ) → List ℕ
count_from i zero = []
count_from i (suc n) = i ∷ count_from (suc i) n

-- `Queue::new`, and the rings as they were allocated
unfoldable pub new_queue : List Descriptor → (available : List ℕ) → List UsedElement → Queue
unfolding count_from
new_queue descriptor available used = record {
  descriptor = descriptor;
  available = available;
  available_head = 0;
  used = used;
  used_ring_head = 0;
  used_head = 0;
  descriptor_stack = count_from 0 (length descriptor % 2 ^ 16);
  waker = [];
  rung = 0;
}

-- `reinit`
unfoldable pub reinit : Queue → Queue
unfolding count_from
reinit q = record q {
  used_head = 0;
  available_head = 0;
  descriptor_stack = count_from 0 (length q.descriptor % 2 ^ 16);
}

-- A write to the descriptor at an index, which is checked
unfoldable pub update : List Descriptor → ℕ → (Descriptor → Descriptor) → Outcome (List Descriptor)
update ds i f = elim (get_elem? ds i) [ none ↦ panicked | some d ↦ ok (set ds i (f d)) ]

abbrev pub fill_in : Buffer → Descriptor → Descriptor
fill_in b d = record d { address = b.buffer; flags = b.flags; size = b.size % 2 ^ 32 }

abbrev pub set_next : ℕ → Descriptor → Descriptor
set_next i d = record d { next = i }

-- What the loop of `send` works on: the descriptors and the free ones, the first and the last of
-- the chain
pub record Linking : Type 0 where
  pub descriptor : List Descriptor
  pub descriptor_stack : List ℕ
  pub first_descriptor : Option ℕ
  pub last_descriptor : Option ℕ

unfoldable pub or_first : Option ℕ → ℕ → ℕ
or_first none i = i
or_first (some first) i = first

unfoldable pub link_last : Option ℕ → ℕ → List Descriptor → Outcome (List Descriptor)
unfolding update
link_last none i ds = ok ds
link_last (some last) i ds = update ds last (set_next (i % 2 ^ 16))

-- A turn of the loop: a free descriptor for the buffer, and the link to it
unfoldable pub link_buffer : Buffer → Linking → Outcome Linking
unfolding or_first
link_buffer b l = elim l.descriptor_stack [
  | [] ↦ panicked
  | i ∷ stack ↦ update l.descriptor i (fill_in b) >>= λ filled.
      link_last l.last_descriptor i filled >>= λ linked. ok (record {
        descriptor = linked;
        descriptor_stack = stack;
        first_descriptor = some (or_first l.first_descriptor i);
        last_descriptor = some i;
      })
]

unfoldable pub link_buffers : List Buffer → Linking → Outcome Linking
link_buffers [] l = ok l
link_buffers (b ∷ bs) l = link_buffer b l >>= λ l'. link_buffers bs l'

-- The end of the chain, once the loop has linked it: its first descriptor, the descriptors, and
-- those that are free
abbrev pub end_chain : Linking → Outcome (ℕ × List Descriptor × List ℕ)
end_chain l = unwrap l.last_descriptor >>= λ last. unwrap l.first_descriptor >>= λ first.
    update l.descriptor last (set_next 0) >>= λ ended. ok (first, ended, l.descriptor_stack)

-- `send`: the descriptor that stands for the request. The size of the ring is not 0.
unfoldable pub send : List Buffer → Queue → Outcome (ℕ × Queue)
unfolding update
send bufs q =
    link_buffers bufs (record {
      descriptor = q.descriptor;
      descriptor_stack = q.descriptor_stack;
      first_descriptor = none;
      last_descriptor = none;
    })
    >>= end_chain
    >>= λ (first, descriptor, stack). ok (
      first,
      record q {
        descriptor = descriptor;
        descriptor_stack = stack;
        available = set q.available (q.available_head % length q.available) (first % 2 ^ 16);
        available_head = (q.available_head + 1) % 2 ^ 16;
        rung = q.rung + 1;
      },
    )

-- The loop of `PendingRequest::poll` on fuel, `none` if it runs out: the chain goes back to the
-- free descriptors.
unfoldable pub recycle :
    (fuel table_index : ℕ) → List Descriptor → List ℕ → Option (Outcome (List ℕ))
recycle zero table_index ds stack = none
recycle (suc fuel) table_index ds stack = elim (get_elem? ds table_index) [
  | none ↦ some panicked
  | some d ↦
      let pushed = stack ++ (table_index % 2 ^ 16 ∷ []) in
      let rest = recycle fuel d.next ds pushed in
      if has_next d.flags then rest else some (ok pushed)
]

-- `PendingRequest::poll` of the request at a descriptor: what was written, once it is completed.
-- The index of the last used element wraps below 0.
unfoldable pub poll :
    (fuel first_descriptor waker : ℕ) → Queue → Option (Outcome (Option ℕ × Queue))
unfolding recycle
poll fuel first_descriptor waker q =
    let waiting = record q { waker = insert first_descriptor waker q.waker } in
    let last = (q.used_ring_head + (2 ^ 16 - 1)) % 2 ^ 16 % length q.used in
    if q.used_ring_head == q.used_head
    then some (ok (none, waiting))
    else elim (get_elem? q.used last) [
      | none ↦ some panicked
      | some element ↦
          if element.table_index == first_descriptor
          then elim (recycle fuel element.table_index q.descriptor q.descriptor_stack) [
            | none ↦ none
            | some (ok stack) ↦ some (
                ok (
                  some element.written,
                  record q {
                    descriptor_stack = stack;
                    waker = remove first_descriptor waiting.waker;
                    used_head = q.used_ring_head;
                  },
                ))
            | some (err e) ↦ some (err e)
            | some panicked ↦ some panicked
          ]
          else some (ok (none, waiting))
    ]
