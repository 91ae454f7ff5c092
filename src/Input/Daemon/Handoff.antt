-- ===== src/Input/Daemon/Handoff.antt =====
-- The handoff of inputd/src/main.rs from the early displays to a new display.
use drivers.Base.{
  ℕ, ◌≡◌, ◌≢◌, refl, true, false, none, some, List, [], ◌∷◌, ◌==◌, if◌then◌else◌, arith, Bool-cases,
  inl, inr,
}
use drivers.Base.Map.{Map, lookup}
use drivers.Input.Vt.{Consumer, Handle, producer, control, consumer, display, InputScheme}
use drivers.Input.Vt.Switch.{map_option}
use drivers.Input.Daemon.{
  has_name, has_number, is_empty, early_displays, replace_displays, ask_handoff, perform_handoff,
}

-- What the handoff of these VTs makes of one handle.
abbrev asked_of : List ℕ → Handle → Handle
asked_of ids producer = producer
asked_of ids control = control
asked_of ids (display d) = display d
asked_of ids (consumer c) =
    consumer
      (if has_number c.vt ids then record c { needs_handoff = true; notified = false } else c)

lookup-ask_handoff :
    (ids : List ℕ) (k : ℕ) (m : Map Handle)
    → lookup k (ask_handoff ids m) ≡ map_option (asked_of ids) (lookup k m)
unfolding lookup ask_handoff
lookup-ask_handoff ids k [] = refl
lookup-ask_handoff ids k ((j, producer) ∷ m) = ground (arith, lookup-ask_handoff ids k m)
lookup-ask_handoff ids k ((j, control) ∷ m) = ground (arith, lookup-ask_handoff ids k m)
lookup-ask_handoff ids k ((j, display d) ∷ m) = ground (arith, lookup-ask_handoff ids k m)
lookup-ask_handoff ids k ((j, consumer c) ∷ m) = ground (arith, lookup-ask_handoff ids k m)

-- A VT of an early display is taken over and listed.
replaced :
    (new name : List ℕ) (early : List (List ℕ)) (k : ℕ) (m : Map (List ℕ))
    → lookup k m ≡ some name
    → has_name name early ≡ true
    → (lookup k (replace_displays new early m).0 ≡ some new)
      × (has_number k (replace_displays new early m).1 ≡ true)
unfolding lookup replace_displays
replaced new name early k [] found is_early = cc
replaced new name early k ((j, other) ∷ m) found is_early = elim (Bool-cases (j == k)) [
  | inl eq ↦
      let here : j ≡ k = ground arith in
      let hit : other ≡ name = ground (arith, found, here) in
      let kept : has_name other early ≡ true = rw hit is_early in
      (ground (arith, here, kept), ground (arith, here, kept))
  | inr ne ↦
      let there : j ≢ k = ground arith in
      let (ih_vt, ih_listed) =
        replaced new name early k m (ground (arith, found, there)) is_early in
      elim (Bool-cases (has_name other early)) [
        | inl kept ↦ (ground (arith, kept, ih_vt, there), ground (arith, kept, ih_listed, there))
        | inr left ↦ (ground (arith, left, ih_vt, there), ground (arith, left, ih_listed, there))
      ]
]

listed-some : (k : ℕ) (ids : List ℕ) → has_number k ids ≡ true → is_empty ids ≡ false
listed-some k [] h = cc
listed-some k (i ∷ ids) h = refl

-- When a display opens its handle, a consumer of a VT that an early display shows is to hand off
-- and is not told yet, the VT shows the new display, there is something to tell, and the request
-- is done with.
handoff_asks :
    (new name : List ℕ) (id : ℕ) (c : Consumer) (s : InputScheme)
    → s.maybe_perform_handoff_to ≡ some new
    → lookup id s.handles ≡ some (consumer c)
    → lookup c.vt s.vts ≡ some name
    → has_name name (early_displays s.handles) ≡ true
    → let s' = perform_handoff s in
      (lookup c.vt s'.vts ≡ some new)
      × (lookup id s'.handles
          ≡ some (consumer (record c { needs_handoff = true; notified = false })))
      × (s'.has_new_events ≡ true)
      × (s'.maybe_perform_handoff_to ≡ none)
unfolding perform_handoff
handoff_asks new name id c s wanted found shows is_early =
    let (vt_is, listed) = replaced new name (early_displays s.handles) c.vt s.vts shows is_early in
    let ids = (replace_displays new (early_displays s.handles) s.vts).1 in
    (
      ground (arith, wanted, vt_is),
      ground (arith, wanted, lookup-ask_handoff ids id s.handles, found, listed),
      ground (arith, wanted, listed-some c.vt ids listed),
      ground (arith, wanted),
    )
