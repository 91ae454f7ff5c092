-- ===== src/Virtio/Queue/Tests.antt =====
-- The theorems on queues of requests at concrete inputs.
use drivers.Base.{ℕ, ◌≡◌, ◌≢◌, refl, none, some, List, [], ◌∷◌, ◌++◌, length, get_elem?, arith}
use drivers.Base.Outcome.{ok}
use drivers.Base.Map.{insert}
use drivers.Virtio.Queue.{Descriptor, Buffer, UsedElement, Queue, new_queue, count_from, send, poll}
use drivers.Virtio.Queue.Chains.{Chain, Fresh, Free, as_descriptor}
use drivers.Virtio.Queue.Requests.{
  Linked, sent, completed, received, send-Chain, request_returns, poll_misses,
}

abbrev blank : Descriptor
blank = record { address = 0; size = 0; flags = 0; next = 0 }

abbrev unused : UsedElement
unused = record { table_index = 0xffffffff; written = 0 }

abbrev queue : Queue
queue =
    new_queue (blank ∷ blank ∷ blank ∷ blank ∷ []) (0 ∷ 0 ∷ 0 ∷ 0 ∷ [])
      (unused ∷ unused ∷ unused ∷ unused ∷ [])

-- A request of two buffers: a header, and 512 bytes that the device writes
abbrev header : Buffer
header = record { buffer = 0x1000; size = 16; flags = 1 }

abbrev data_buffer : Buffer
data_buffer = record { buffer = 0x2000; size = 512; flags = 2 }

request-Linked : Linked (header ∷ data_buffer ∷ [])
unfolding Linked
request-Linked = (refl, refl)

two-Free : Free 4 (0 ∷ 1 ∷ [])
unfolding Free Fresh
two-Free = (omega arith, omega arith, ((λ e. omega arith), tt), (omega arith, omega arith, tt, tt))

stack_is : queue.descriptor_stack ≡ 0 ∷ 1 ∷ 2 ∷ 3 ∷ []
unfolding new_queue count_from
stack_is = refl

length_is : length queue.descriptor ≡ 4
unfolding new_queue
length_is = refl

queue-Free : Free (length queue.descriptor) (0 ∷ 1 ∷ [])
queue-Free = rw length_is two-Free

send-Chain_example :
    (ds : List Descriptor) × (send (header ∷ data_buffer ∷ []) queue
      ≡ ok (0, sent ds (2 ∷ 3 ∷ []) 0 queue))
    × Chain ds 0 (1 ∷ []) (header ∷ data_buffer ∷ [])
    × (length ds ≡ length queue.descriptor)
    × ((k : ℕ) → 0 ≢ k → Fresh k (1 ∷ []) → get_elem? ds k ≡ get_elem? queue.descriptor k)
send-Chain_example =
    send-Chain header (data_buffer ∷ []) 0 (1 ∷ []) (2 ∷ 3 ∷ []) queue stack_is queue-Free refl

-- The device completes the request as the first one of its ring.
abbrev first_done : List UsedElement
first_done = record { table_index = 0; written = 513 } ∷ unused ∷ unused ∷ unused ∷ []

request_returns_example :
    (q' : Queue) × (send (header ∷ data_buffer ∷ []) queue ≡ ok (0, q'))
    × (poll 2 0 7 (completed first_done 1 q')
        ≡ some (ok (some 513, received (2 ∷ 3 ∷ 0 ∷ 1 ∷ []) 0 7 (completed first_done 1 q'))))
    × (q'.descriptor_stack ≡ 2 ∷ 3 ∷ [])
request_returns_example =
    request_returns header (data_buffer ∷ []) 0 (1 ∷ []) (2 ∷ 3 ∷ []) first_done 1 7 513 2 queue
      stack_is queue-Free refl request-Linked (omega arith) (unfold new_queue in refl) refl

-- Two requests of one buffer each, at descriptors 1 and 0, both completed
abbrev lone : Buffer
lone = record { buffer = 0x3000; size = 8; flags = 0 }

abbrev both_done : Queue
both_done = record {
  descriptor = as_descriptor lone 0 ∷ as_descriptor lone 0 ∷ [];
  available = 1 ∷ 0 ∷ [];
  available_head = 2;
  used = record { table_index = 1; written = 4 } ∷ record { table_index = 0; written = 5 } ∷ [];
  used_ring_head = 2;
  used_head = 0;
  descriptor_stack = [];
  waker = [];
  rung = 2;
}

lone-Chain : Chain both_done.descriptor 0 [] (lone ∷ [])
unfolding Chain
lone-Chain = refl

lone-Linked : Linked (lone ∷ [])
unfolding Linked
lone-Linked = refl

lone-Free : Free 2 (0 ∷ [])
unfolding Free Fresh
lone-Free = (omega arith, omega arith, tt, tt)

poll_misses_example :
    let q' = received (both_done.descriptor_stack ++ 0 ∷ []) 0 7 both_done in
    (poll 1 0 7 both_done ≡ some (ok (some 5, q')))
    × (poll 1 1 8 q' ≡ some (ok (none, record q' { waker = insert 1 8 q'.waker })))
poll_misses_example =
    poll_misses 1 0 1 7 8 5 [] (lone ∷ []) both_done refl refl lone-Chain lone-Linked lone-Free
      (omega arith)
