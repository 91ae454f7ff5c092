-- ===== src/Input/Scheme.antt =====
-- inputd/src/main.rs: the handlers of the input scheme.
use drivers.Base.{
  ℕ, ◌+◌, ◌*◌, ◌/◌, ◌%◌, ◌^◌, min, Bool, true, false, Option, none, some, List, [], ◌∷◌, ◌++◌, ◌==◌,
  if◌then◌else◌, length, take, drop,
}
use drivers.Base.Outcome.{Outcome, ok, err, einval, estale}
use drivers.Base.Decimal.{parse_below}
pub use drivers.Base.Text.{codes}
use drivers.Base.Map.{lookup, insert}
use drivers.Input.Vt.{
  VtEvent, activate, Consumer, Display, Handle, producer, control, consumer, display, InputScheme,
  name_eq, vt_event,
}

-- `path.split('/')`: the first part, and the others.
unfoldable pub split : List ℕ → List ℕ × List (List ℕ)
split [] = ([], [])
split (x ∷ xs) =
    let (part, parts) = split xs in if x == b'/' then ([], part ∷ parts) else (x ∷ part, parts)

-- `parts.join(".")`
unfoldable pub join : List (List ℕ) → List ℕ
join [] = []
join (p ∷ []) = p
join (p ∷ q ∷ ps) = p ++ (b'.' ∷ join (q ∷ ps))

abbrev pub new_consumer : ℕ → Handle
new_consumer vt =
    consumer (record { events = 0; pending = []; needs_handoff = false; notified = false; vt = vt })

abbrev pub new_display : List ℕ → Bool → List VtEvent → Handle
new_display device early pending = display (record {
  events = 0;
  pending = pending;
  notified = false;
  device = device;
  is_earlyfb = early;
})

-- The handle under the next number.
abbrev pub enter : InputScheme → Handle → Outcome ℕ × InputScheme
enter s h =
    (ok s.next_id, record s { handles = insert s.next_id h s.handles; next_id = s.next_id + 1 })

-- A failed open has used up its number.
abbrev pub refuse : InputScheme → Outcome ℕ × InputScheme
refuse s = (err einval, record s { next_id = s.next_id + 1 })

abbrev pub initial_events : Option ℕ → List VtEvent
initial_events none = []
initial_events (some vt) = vt_event activate vt 0 0 ∷ []

open_consumer : InputScheme → List (List ℕ) → Outcome ℕ × InputScheme
open_consumer s [] = refuse s
open_consumer s (target ∷ parts) = elim (parse_below (2 ^ 64) target) [
  | none ↦ refuse s
  | some vt ↦ enter s (new_consumer vt)
]

-- `open`, by the first part of the path.
open_parts : InputScheme → List ℕ → List (List ℕ) → Outcome ℕ × InputScheme
unfolding open_consumer
open_parts s command parts =
    if name_eq command (codes "producer")
    then enter s producer
    else if name_eq command (codes "consumer")
    then open_consumer s parts
    else if name_eq command (codes "handle_early")
    then enter s (new_display (join parts) true [])
    else if name_eq command (codes "handle")
    then enter (record s { maybe_perform_handoff_to = some (join parts) })
        (new_display (join parts) false (initial_events s.active_vt))
    else if name_eq command (codes "control")
    then enter s control
    else refuse s

unfoldable pub open_path : List ℕ → InputScheme → Outcome ℕ × InputScheme
unfolding open_parts
open_path path s = let (command, parts) = split path in open_parts s command parts

-- A read returns a count, and the bytes or the events that it drained.
pub record ReadBack : Type 0 where
  pub outcome : Outcome ℕ
  pub bytes : List ℕ
  pub drained : List VtEvent

abbrev pub back : Outcome ℕ → ReadBack
back o = record { outcome = o; bytes = []; drained = [] }

read_consumer : ℕ → Consumer → ℕ → InputScheme → ReadBack × InputScheme
read_consumer id c len s =
    let copy = min (length c.pending) len in
    if c.needs_handoff
    then (
      back (err estale),
      record s { handles = insert id (consumer (record c { needs_handoff = false })) s.handles },
    )
    else (
      record { outcome = ok copy; bytes = take copy c.pending; drained = [] },
      record s {
        handles = insert id (consumer (record c { pending = drop copy c.pending })) s.handles;
      },
    )

-- `size_of::<VtEvent>()`: two words of 8 bytes and three of 4, padded to a multiple of 8
abbrev pub event_size : ℕ
event_size = 32

-- An empty read of a display makes a VT; another drains whole events.
read_display : ℕ → Display → ℕ → InputScheme → ReadBack × InputScheme
read_display id d len s =
    let copy = min (length d.pending) (len / event_size) in
    if len == 0
    then (
      back (ok s.next_vt_id),
      record s { next_vt_id = s.next_vt_id + 1; vts = insert s.next_vt_id d.device s.vts },
    )
    else if len % event_size == 0
    then (
      record { outcome = ok (copy * event_size); bytes = []; drained = take copy d.pending },
      record s {
        handles = insert id (display (record d { pending = drop copy d.pending })) s.handles;
      },
    )
    else (back (err einval), s)

-- `len` is the length of the caller's buffer.
unfoldable pub read : ℕ → ℕ → InputScheme → ReadBack × InputScheme
unfolding read_consumer read_display
read id len s = elim (lookup id s.handles) [
  | none ↦ (back (err einval), s)
  | some producer ↦ (back (err einval), s)
  | some control ↦ (back (err einval), s)
  | some (consumer c) ↦ read_consumer id c len s
  | some (display d) ↦ read_display id d len s
]

unfoldable pub fevent : ℕ → ℕ → InputScheme → Outcome ℕ × InputScheme
fevent id flags s = elim (lookup id s.handles) [
  | none ↦ (err einval, s)
  | some producer ↦ (err einval, s)
  | some control ↦ (err einval, s)
  | some (consumer c) ↦ (
    ok 0,
    record s {
      handles = insert id (consumer (record c { events = flags; notified = false })) s.handles;
    },
  )
  | some (display d) ↦ (
    ok 0,
    record s {
      handles = insert id (display (record d { events = flags; notified = false })) s.handles;
    },
  )
]

-- `close` forgets nothing: the handle stays in the table.
unfoldable pub close : ℕ → InputScheme → Outcome ℕ × InputScheme
close id s = (ok 0, s)
