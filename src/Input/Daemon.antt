-- ===== src/Input/Daemon.antt =====
-- inputd/src/main.rs: what the daemon's loop does after each request: the handoff of the early
-- displays' VTs to a new display, and the notifications. The socket and the dispatch of a request
-- are library code; `event_read` is the bit of `EVENT_READ`, and every write to the socket succeeds.
pub mod Rounds
pub mod Handoff
use drivers.Base.{
  ℕ, bit_and, Bool, true, false, not, ◌&&◌, ◌||◌, Option, none, some, List, [], ◌∷◌, ◌==◌,
  if◌then◌else◌,
}
use drivers.Base.Outcome.{Outcome, ok, err, panicked, ◌>>=◌}
use drivers.Base.Map.{Map}
use drivers.Input.Vt.{
  Consumer, Display, Handle, producer, control, consumer, display, InputScheme, name_eq,
}

-- `contains` on a list of names, and on a list of numbers
abbrev pub has_name : List ℕ → List (List ℕ) → Bool
has_name n [] = false
has_name n (m ∷ ms) = if name_eq n m then true else has_name n ms

abbrev pub has_number : ℕ → List ℕ → Bool
has_number n [] = false
has_number n (m ∷ ms) = if n == m then true else has_number n ms

-- The devices of the early displays
unfoldable pub early_displays : Map Handle → List (List ℕ)
early_displays [] = []
early_displays ((k, display d) ∷ m) =
    let rest = early_displays m in if d.is_earlyfb then d.device ∷ rest else rest
early_displays ((k, producer) ∷ m) = early_displays m
early_displays ((k, control) ∷ m) = early_displays m
early_displays ((k, consumer c) ∷ m) = early_displays m

-- The VTs of those devices get the new display, and the numbers of those that did.
unfoldable pub replace_displays : List ℕ → List (List ℕ) → Map (List ℕ) → Map (List ℕ) × List ℕ
replace_displays new early [] = ([], [])
replace_displays new early ((i, name) ∷ m) =
    let (rest, ids) = replace_displays new early m in
    elim (has_name name early) [
      | true ↦ ((i, new) ∷ rest, i ∷ ids)
      | false ↦ ((i, name) ∷ rest, ids)
    ]

-- The consumers of those VTs are to hand off.
unfoldable pub ask_handoff : List ℕ → Map Handle → Map Handle
ask_handoff ids [] = []
ask_handoff ids ((k, consumer c) ∷ m) =
    let c' = record c { needs_handoff = true; notified = false } in
    (k, consumer (if has_number c.vt ids then c' else c)) ∷ ask_handoff ids m
ask_handoff ids ((k, producer) ∷ m) = (k, producer) ∷ ask_handoff ids m
ask_handoff ids ((k, control) ∷ m) = (k, control) ∷ ask_handoff ids m
ask_handoff ids ((k, display d) ∷ m) = (k, display d) ∷ ask_handoff ids m

abbrev pub is_empty {ℓ} : {A : Type ℓ} → List A → Bool
is_empty [] = true
is_empty (x ∷ xs) = false

unfoldable pub perform_handoff : InputScheme → InputScheme
unfolding early_displays replace_displays ask_handoff
perform_handoff s = elim s.maybe_perform_handoff_to [
  | none ↦ s
  | some new ↦
      let (vts', ids) = replace_displays new (early_displays s.handles) s.vts in
      record s {
        vts = vts';
        handles = ask_handoff ids s.handles;
        has_new_events = s.has_new_events || not (is_empty ids);
        maybe_perform_handoff_to = none;
      }
]

module _ (event_read : ℕ) where
  -- A consumer is told if it is to hand off, or if it has bytes and its VT is active. The active
  -- VT is unwrapped before it is compared.
  unfoldable pub tell_consumer : Option ℕ → Consumer → Outcome Bool
  tell_consumer active_vt c =
      if (not c.needs_handoff && is_empty c.pending)
        || c.notified
        || not (bit_and c.events event_read == event_read)
      then ok false
      else elim active_vt [
        | none ↦ panicked
        | some vt ↦ ok (not (not c.needs_handoff && not (vt == c.vt)))
      ]

  unfoldable pub tell_display : Display → Bool
  tell_display d =
      not (is_empty d.pending || d.notified || not (bit_and d.events event_read == event_read))

  -- The numbers of the handles that are told, in order, and the handles, marked as told.
  unfoldable pub notify : Option ℕ → Map Handle → Outcome (List ℕ × Map Handle)
  unfolding tell_consumer tell_display
  notify active_vt [] = ok ([], [])
  notify active_vt ((k, producer) ∷ m) =
      notify active_vt m >>= λ (posted, m'). ok (posted, (k, producer) ∷ m')
  notify active_vt ((k, control) ∷ m) =
      notify active_vt m >>= λ (posted, m'). ok (posted, (k, control) ∷ m')
  notify active_vt ((k, consumer c) ∷ m) =
      let rest = notify active_vt m in
      tell_consumer active_vt c >>= λ told. rest >>= λ (posted, m'). elim told [
        | true ↦ ok (k ∷ posted, (k, consumer (record c { notified = true })) ∷ m')
        | false ↦ ok (posted, (k, consumer c) ∷ m')
      ]
  notify active_vt ((k, display d) ∷ m) = notify active_vt m >>= λ (posted, m').
      elim (tell_display d) [
        | true ↦ ok (k ∷ posted, (k, display (record d { notified = true })) ∷ m')
        | false ↦ ok (posted, (k, display d) ∷ m')
      ]

  -- What follows a request in the loop: the events that are posted and the state.
  unfoldable pub after_request : InputScheme → Outcome (List ℕ × InputScheme)
  unfolding perform_handoff notify
  after_request s =
      let s' = perform_handoff s in
      if s'.has_new_events
      then (notify s'.active_vt s'.handles >>= λ (posted, m').
          ok (posted, record s' { handles = m' }))
      else ok ([], s')
