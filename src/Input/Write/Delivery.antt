-- ===== src/Input/Write/Delivery.antt =====
-- inputd/src/main.rs: where the bytes that a producer writes go, and how a consumer reads them.
use drivers.Base.{
  ℕ, zero, suc, length-take, ◌≡◌, ap, refl, true, false, ◌&&◌, none, some, List, ◌∷◌, [], ◌++◌, ltb,
  ◌==◌, if◌then◌else◌, length, take, drop, get_or, min, arith,
}
use drivers.Base.Outcome.{ok, panicked}
use drivers.Base.Map.{Map, lookup, insert, lookup-insert}
use drivers.Input.Vt.{Consumer, Handle, producer, control, consumer, display, InputScheme}
use drivers.Input.Vt.Switch.{map_option}
use drivers.Input.Write.{Event, handle_events, deliver, write_producer, write}
use drivers.Input.Scheme.{read}

-- What the delivery makes of one handle: a consumer of the VT gets the bytes, no other changes.
abbrev pub delivered : ℕ → List ℕ → Handle → Handle
delivered vt buf producer = producer
delivered vt buf control = control
delivered vt buf (display d) = display d
delivered vt buf (consumer c) =
    consumer (if c.vt == vt then record c { pending = c.pending ++ buf; notified = false } else c)

lookup-deliver :
    (vt : ℕ) (buf : List ℕ) (k : ℕ) (m : Map Handle)
    → lookup k (deliver vt buf m) ≡ map_option (delivered vt buf) (lookup k m)
unfolding lookup deliver
lookup-deliver vt buf k [] = refl
lookup-deliver vt buf k ((j, producer) ∷ m) = ground (arith, lookup-deliver vt buf k m)
lookup-deliver vt buf k ((j, control) ∷ m) = ground (arith, lookup-deliver vt buf k m)
lookup-deliver vt buf k ((j, display d) ∷ m) = ground (arith, lookup-deliver vt buf k m)
lookup-deliver vt buf k ((j, consumer c) ∷ m) = ground (arith, lookup-deliver vt buf k m)

-- The state in which the events of a write are handled.
abbrev pub marked : InputScheme → InputScheme
marked s = record s { has_new_events = true }

-- A producer's write, other than the one-byte write that is answered at once, succeeds if its
-- events are handled and a VT is active then: every consumer of that VT has the bytes after what it
-- had pending, and no other handle changes.
write_delivers :
    (decode : List ℕ → List Event) (id vt : ℕ) (buf : List ℕ) (s handled : InputScheme)
    → lookup id s.handles ≡ some producer
    → (length buf == 1 && ltb 0xf4 (get_or buf 0 0)) ≡ false
    → handle_events (decode buf) (marked s) ≡ ok handled
    → handled.active_vt ≡ some vt
    → (s' : InputScheme) × (write decode id buf s ≡ ok (length buf, s'))
      × ((j : ℕ) → lookup j s'.handles ≡ map_option (delivered vt buf) (lookup j handled.handles))
unfolding write write_producer
write_delivers decode id vt buf s handled found long run active = (
  record handled { handles = deliver vt buf handled.handles },
  ground (arith, found, long, run, active),
  λ j. lookup-deliver vt buf j handled.handles,
)

-- A producer's write, other than the one-byte write that is answered at once, panics if no VT is
-- active once its events are handled.
pub write_panics :
    (decode : List ℕ → List Event) (id : ℕ) (buf : List ℕ) (s handled : InputScheme)
    → lookup id s.handles ≡ some producer
    → (length buf == 1 && ltb 0xf4 (get_or buf 0 0)) ≡ false
    → handle_events (decode buf) (marked s) ≡ ok handled
    → handled.active_vt ≡ none
    → write decode id buf s ≡ panicked
unfolding write write_producer
write_panics decode id buf s handled found long run inactive =
    ground (arith, found, long, run, inactive)

take_append-drop : (n : ℕ) (xs : List ℕ) → take n xs ++ drop n xs ≡ xs
take_append-drop zero xs = refl
take_append-drop (suc n) [] = refl
take_append-drop (suc n) (x ∷ xs) = ap (λ l. x ∷ l) (take_append-drop n xs)

-- A consumer that is not to hand off reads what is pending from the front, as much as fits; what it
-- does not read stays pending, in order.
read_drains :
    (id len : ℕ) (c : Consumer) (s : InputScheme)
    → lookup id s.handles ≡ some (consumer c)
    → c.needs_handoff ≡ false
    → (bytes : List ℕ) × (c' : Consumer) × (s' : InputScheme) × (read id len s
        ≡ (record { outcome = ok (length bytes); bytes = bytes; drained = [] }, s'))
      × (length bytes ≡ min (length c.pending) len)
      × (bytes ++ c'.pending ≡ c.pending)
      × (lookup id s'.handles ≡ some (consumer c'))
unfolding read
read_drains id len c s found stays = (
  take (min (length c.pending) len) c.pending,
  record c { pending = drop (min (length c.pending) len) c.pending },
  record s {
    handles =
        insert id (consumer (record c { pending = drop (min (length c.pending) len) c.pending }))
          s.handles;
  },
  ground (arith, found, stays, length-take (min (length c.pending) len) c.pending),
  ground (arith, length-take (min (length c.pending) len) c.pending),
  take_append-drop (min (length c.pending) len) c.pending,
  ground (
    arith,
    lookup-insert id id
        (consumer (record c { pending = drop (min (length c.pending) len) c.pending })) s.handles,
  ),
)
