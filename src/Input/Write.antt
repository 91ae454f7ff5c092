-- ===== src/Input/Write.antt =====
-- inputd/src/main.rs: `write`, by which a producer hands its events over and the control handle
-- switches the VT. The decoding of the bytes into events is the orbclient library's.
pub mod Delivery
use drivers.Base.{
  ℕ, ◌+◌, ◌-◌, ◌*◌, Bool, true, false, not, ◌&&◌, ◌||◌, Option, none, some, List, [], ◌∷◌, ◌++◌,
  ltb, leb, ◌==◌, if◌then◌else◌, length, get_or,
}
use drivers.Base.Outcome.{Outcome, ok, err, panicked, einval, ◌>>=◌}
use drivers.Base.Map.{Map, lookup}
use drivers.Input.Vt.{
  VtEvent, VtEventKind, resize, Consumer, Display, Handle, producer, control, consumer, display,
  InputScheme, name_eq, vt_event, push_event, map_displays, any_display, switch_vt,
}

-- `event.to_option()`
pub data Event : Type 0 where
  key : ℕ → Bool → Event
  resized : ℕ → ℕ → Event
  other : Event

-- The VT that a key asks for: F1 to F12 with the super key held.
unfoldable pub vt_of_key : Bool → ℕ → Option ℕ
vt_of_key super scancode =
    if super && leb 0x3b scancode && leb scancode 0x44
    then some (scancode - 0x3a)
    else if super && scancode == 0x57
    then some 11
    else if super && scancode == 0x58
    then some 12
    else none

resize_display : ℕ → List ℕ → ℕ → ℕ → Display → Display
resize_display vt name w h d =
    if name_eq name d.device then push_event (vt_event resize vt w h) d else d

-- A new size goes to the displays of the active VT; with a display at hand that VT is unwrapped.
unfoldable pub resize_all : ℕ → ℕ → InputScheme → Outcome InputScheme
unfolding resize_display
resize_all w h s = if not (any_display s.handles) then ok s else elim s.active_vt [
  | none ↦ panicked
  | some vt ↦ elim (lookup vt s.vts) [
    | none ↦ panicked
    | some name ↦ ok (record s { handles = map_displays (resize_display vt name w h) s.handles })
  ]
]

-- One event. Only the super key's own event changes whether it is held.
unfoldable pub handle_event : Event → InputScheme → Outcome InputScheme
unfolding vt_of_key
handle_event (key scancode pressed) s = elim (vt_of_key s.super_key scancode) [
  | some vt ↦ switch_vt vt s
  | none ↦ ok (if scancode == 0x5b then record s { super_key = pressed } else s)
]
handle_event (resized w h) s = resize_all w h s
handle_event other s = ok s

unfoldable pub handle_events : List Event → InputScheme → Outcome InputScheme
handle_events [] s = ok s
handle_events (e ∷ es) s = handle_event e s >>= λ s'. handle_events es s'

-- The bytes go to every consumer that listens to VT `vt`.
unfoldable pub deliver : ℕ → List ℕ → Map Handle → Map Handle
deliver vt buf [] = []
deliver vt buf ((k, consumer c) ∷ m) =
    let c' = record c { pending = c.pending ++ buf; notified = false } in
    (k, consumer (if c.vt == vt then c' else c)) ∷ deliver vt buf m
deliver vt buf ((k, producer) ∷ m) = (k, producer) ∷ deliver vt buf m
deliver vt buf ((k, control) ∷ m) = (k, control) ∷ deliver vt buf m
deliver vt buf ((k, display d) ∷ m) = (k, display d) ∷ deliver vt buf m

-- What a producer writes: the events are acted on, and then the bytes are delivered. No event
-- takes a handle away or changes its kind, so the handle is still a producer afterwards.
unfoldable pub write_producer : List ℕ → List Event → InputScheme → Outcome (ℕ × InputScheme)
write_producer buf events s = if length buf == 1 && ltb 0xf4 (get_or buf 0 0) then ok (1, s) else do
  s' ← handle_events events s
  elim s'.active_vt [
    | none ↦ panicked
    | some vt ↦ ok (length buf, record s' { handles = deliver vt buf s'.handles })
  ]

-- The `usize` that a `VtActivate` is, least byte first
unfoldable pub little_endian : List ℕ → ℕ
little_endian [] = 0
little_endian (x ∷ xs) = x + 256 * little_endian xs

write_control : List ℕ → InputScheme → Outcome (ℕ × InputScheme)
unfolding little_endian
write_control buf s =
    if length buf == 8
    then (switch_vt (little_endian buf) s >>= λ s'. ok (length buf, s'))
    else err einval

-- `write`. Any write asks for a round of notifications, also one that is refused. An error leaves
-- the state as that mark leaves it.
unfoldable pub write : (List ℕ → List Event) → ℕ → List ℕ → InputScheme → Outcome (ℕ × InputScheme)
unfolding write_control
write decode id buf s =
    let s' = record s { has_new_events = true } in
    elim (lookup id s.handles) [
      | none ↦ err einval
      | some (consumer c) ↦ err einval
      | some (display d) ↦ err einval
      | some control ↦ write_control buf s'
      | some producer ↦ write_producer buf (decode buf) s'
    ]
