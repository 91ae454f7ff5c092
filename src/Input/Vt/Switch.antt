-- ===== src/Input/Vt/Switch.antt =====
-- What `switch_vt` does, and that it does not panic.
use drivers.Base.{
  ℕ, ◌≡◌, ◌≢◌, refl, ◌∙◌, ap, Option, none, some, List, [], ◌∷◌, ◌++◌, arith, if◌then◌else◌,
  Option-cases, inl, inr, ◌⊎◌,
}
use mathlib.Core.Path.{sym}
use mathlib.Core.List.{append_assoc, append-nil}
use drivers.Base.Outcome.{ok}
use drivers.Base.Map.{Map, lookup}
use drivers.Input.Vt.{
  switched, switch_to, VtEvent, activate, deactivate, Display, Handle, producer, control, consumer,
  display, InputScheme, name_eq, vt_event, switch_display, map_displays, switch_vt,
}

-- The active VT, if any, exists.
abbrev pub IsValid : InputScheme → Type 0
IsValid s = (vt : ℕ) → s.active_vt ≡ some vt → (name : List ℕ) × (lookup vt s.vts ≡ some name)

abbrev pub on_display : (Display → Display) → Handle → Handle
on_display f producer = producer
on_display f control = control
on_display f (consumer c) = consumer c
on_display f (display d) = display (f d)

abbrev pub map_option : (Handle → Handle) → Option Handle → Option Handle
map_option f none = none
map_option f (some h) = some (f h)

pub lookup-map_displays :
    (f : Display → Display) (k : ℕ) (m : Map Handle)
    → lookup k (map_displays f m) ≡ map_option (on_display f) (lookup k m)
unfolding lookup map_displays
lookup-map_displays f k [] = refl
lookup-map_displays f k ((j, producer) ∷ m) = ground (arith, lookup-map_displays f k m)
lookup-map_displays f k ((j, control) ∷ m) = ground (arith, lookup-map_displays f k m)
lookup-map_displays f k ((j, consumer c) ∷ m) = ground (arith, lookup-map_displays f k m)
lookup-map_displays f k ((j, display d) ∷ m) = ground (arith, lookup-map_displays f k m)

-- The events that a display is sent, in order: that its own VT goes, and that one of its own comes.
abbrev pub sent_to : Option (ℕ × List ℕ) → ℕ → List ℕ → Display → List VtEvent
sent_to old new_active new_display d =
    elim old [
      | none ↦ []
      | some (vt, name) ↦ if name_eq name d.device then vt_event deactivate vt 0 0 ∷ [] else []
    ]
    ++ (if name_eq new_display d.device then vt_event activate new_active 0 0 ∷ [] else [])

-- The VT that a switch leaves, with its display.
abbrev pub leaving : InputScheme → Option (ℕ × List ℕ)
leaving s = elim s.active_vt [
  | none ↦ none
  | some vt ↦ elim (lookup vt s.vts) [ none ↦ none | some name ↦ some (vt, name) ]
]

sent-pending :
    (old : Option (ℕ × List ℕ)) (n : ℕ) (name : List ℕ) (d : Display)
    → (switch_display old n name d).pending ≡ d.pending ++ sent_to old n name d
unfolding switch_display
sent-pending none n name d = ground (arith, append-nil d.pending)
sent-pending (some (vt, gone)) n name d = ground (
  arith,
  append-nil d.pending,
  append_assoc d.pending (vt_event deactivate vt 0 0 ∷ []) (vt_event activate n 0 0 ∷ []),
)

-- A switch to the active VT or to one that does not exist changes nothing.
pub switch_vt_stays :
    (new_active : ℕ) (s : InputScheme)
    → (s.active_vt ≡ some new_active) ⊎ (lookup new_active s.vts ≡ none)
    → switch_vt new_active s ≡ ok s
unfolding switch_vt
switch_vt_stays new_active s (inl active) = ground (arith, active)
switch_vt_stays new_active s (inr missing) = ground (arith, missing)

switch_vt-switched :
    (new_active : ℕ) (name : List ℕ) (s : InputScheme)
    → IsValid s
    → s.active_vt ≢ some new_active
    → lookup new_active s.vts ≡ some name
    → switch_vt new_active s ≡ ok (switched s new_active (leaving s) name)
unfolding switch_vt switch_to
switch_vt-switched new_active name s valid other found = elim (Option-cases s.active_vt) [
  | inl inactive ↦ ground (arith, inactive, found)
  | inr (vt, active) ↦
      let (gone, there) = valid vt active in
      let differ : new_active ≢ vt = λ same. other (active ∙ ap (λ v. some v) (sym same)) in
      ground (arith, active, found, there, differ)
]

-- On a valid state a switch to another VT that exists does not panic: the VT becomes the active
-- one, the state stays valid, and every display is sent, after what it has pending, that its VT
-- goes if it was active, and that one of its own comes.
pub switch_vt_sends :
    (new_active : ℕ) (name : List ℕ) (id : ℕ) (d : Display) (s : InputScheme)
    → IsValid s
    → s.active_vt ≢ some new_active
    → lookup new_active s.vts ≡ some name
    → lookup id s.handles ≡ some (display d)
    → (s' : InputScheme) × (switch_vt new_active s ≡ ok s')
      × IsValid s'
      × (s'.active_vt ≡ some new_active)
      × ((d' : Display) × (lookup id s'.handles ≡ some (display d'))
          × (d'.pending ≡ d.pending ++ sent_to (leaving s) new_active name d))
unfolding switch_vt switched
switch_vt_sends new_active name id d s valid other found held = (
  switched s new_active (leaving s) name,
  switch_vt-switched new_active name s valid other found,
  (λ vt active. (name, ground (arith, active, found))),
  refl,
  (
    switch_display (leaving s) new_active name d,
    lookup-map_displays (switch_display (leaving s) new_active name) id s.handles
        ∙ ap (map_option (on_display (switch_display (leaving s) new_active name))) held,
    sent-pending (leaving s) new_active name d,
  ),
)
