-- ===== src/Input/Tests.antt =====
-- The input theorems at concrete inputs.
use drivers.Base.{ℕ, ◌≡◌, ◌≢◌, refl, false, true, none, some, List, [], ◌∷◌, ◌++◌, arith}
use drivers.Base.Outcome.{ok}
use drivers.Base.Map.{lookup, Map}
use drivers.Input.Vt.{
  Consumer, Display, Handle, producer, consumer, display, InputScheme, new_input, switch_vt,
}
use drivers.Input.Vt.Switch.{IsValid, sent_to, leaving, switch_vt_sends}
use drivers.Input.Write.{Event, other, handle_event, handle_events}
use drivers.Input.Daemon.{has_name, early_displays, notify}
use drivers.Input.Daemon.Rounds.{due, told, notify_settles}

abbrev screen : List ℕ
screen = b'v' ∷ []

abbrev listener : ℕ → List ℕ → Consumer
listener vt pending = record {
  events = 1;
  pending = pending;
  needs_handoff = false;
  notified = false;
  vt = vt;
}

abbrev shown : Display
shown = record { events = 1; pending = []; notified = false; device = screen; is_earlyfb = false }

-- A producer, a consumer of VT 1 with two bytes to read, one of VT 2, and a display of both VTs
abbrev handles : Map Handle
handles =
    (0, producer)
    ∷ (1, consumer (listener 1 (7 ∷ 8 ∷ [])))
    ∷ (2, consumer (listener 2 []))
    ∷ (3, display shown)
    ∷ []

abbrev active_one : InputScheme
active_one = record new_input {
  handles = handles;
  next_id = 4;
  next_vt_id = 3;
  active_vt = some 1;
  vts = (1, screen) ∷ (2, screen) ∷ [];
}

found : (lookup 1 active_one.vts ≡ some screen) × (lookup 2 active_one.vts ≡ some screen)
unfolding lookup new_input
found = (refl, refl)

some_eq : (a b : ℕ) → some a ≡ some b → a ≡ b
some_eq a b e = cc

active_one-IsValid : IsValid active_one
active_one-IsValid vt active = (screen, ground (arith, found.0, some_eq 1 vt active))

held :
    (lookup 0 active_one.handles ≡ some producer)
    × (lookup 1 active_one.handles ≡ some (consumer (listener 1 (7 ∷ 8 ∷ []))))
    × (lookup 3 active_one.handles ≡ some (display shown))
unfolding lookup new_input
held = (refl, refl, refl)

one_is_active : active_one.active_vt ≢ some 2
one_is_active e = ground (arith, some_eq 1 2 e)

switch_vt_sends_example :
    (s' : InputScheme) × (switch_vt 2 active_one ≡ ok s')
    × IsValid s'
    × (s'.active_vt ≡ some 2)
    × ((d' : Display) × (lookup 3 s'.handles ≡ some (display d'))
        × (d'.pending ≡ shown.pending ++ sent_to (leaving active_one) 2 screen shown))
switch_vt_sends_example =
    switch_vt_sends 2 screen 3 shown active_one active_one-IsValid one_is_active found.1 held.2

abbrev decode : List ℕ → List Event
decode buf = other ∷ []

decode_other : (s : InputScheme) → handle_events (decode []) s ≡ ok s
unfolding handle_events handle_event
decode_other s = refl

abbrev inactive : InputScheme
inactive = record new_input { handles = (0, producer) ∷ []; next_id = 1 }

inactive_producer : lookup 0 inactive.handles ≡ some producer
unfolding lookup new_input
inactive_producer = refl

none_active : inactive.active_vt ≡ none
unfolding new_input
none_active = refl

notify_settles_example :
    (notify 1 (some 1) handles ≡ ok (due 1 1 handles, told 1 1 handles))
    × (notify 1 (some 1) (told 1 1 handles) ≡ ok ([], told 1 1 handles))
notify_settles_example = notify_settles 1 1 handles

abbrev early : Display
early = record { events = 1; pending = []; notified = false; device = screen; is_earlyfb = true }

-- A display "w" has opened its handle while VT 1 shows the early display "v".
abbrev taking_over : InputScheme
taking_over = record {
  handles = (1, consumer (listener 1 [])) ∷ (2, display early) ∷ [];
  next_id = 3;
  next_vt_id = 2;
  vts = (1, screen) ∷ [];
  super_key = false;
  active_vt = some 1;
  has_new_events = false;
  maybe_perform_handoff_to = some (b'w' ∷ []);
}

waits :
    (lookup 1 taking_over.handles ≡ some (consumer (listener 1 [])))
    × (lookup 1 taking_over.vts ≡ some screen)
    × (has_name screen (early_displays taking_over.handles) ≡ true)
unfolding lookup early_displays
waits = (refl, refl, refl)
