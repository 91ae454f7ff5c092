-- ===== src/Input/Vt.antt =====
-- inputd/src/main.rs: the handles and virtual terminals (VTs) of the input scheme, its state and
-- `switch_vt`. A display's name is a list of bytes.
pub mod Switch
use drivers.Base.{
  ℕ, ◌+◌, Bool, true, false, ◌||◌, Option, none, some, List, [], ◌∷◌, ◌++◌, ◌==◌, if◌then◌else◌,
}
use drivers.Base.Outcome.{Outcome, ok, panicked}
use drivers.Base.Map.{Map, lookup, contains_key}

pub data VtEventKind : Type 0 where
  activate deactivate resize : VtEventKind

pub record VtEvent : Type 0 where
  pub kind : VtEventKind
  pub vt : ℕ
  pub width : ℕ
  pub height : ℕ
  pub stride : ℕ

pub record Consumer : Type 0 where
  pub events : ℕ
  pub pending : List ℕ
  pub needs_handoff : Bool
  pub notified : Bool
  pub vt : ℕ

pub record Display : Type 0 where
  pub events : ℕ
  pub pending : List VtEvent
  pub notified : Bool
  pub device : List ℕ
  pub is_earlyfb : Bool

pub data Handle : Type 0 where
  producer control : Handle
  consumer : Consumer → Handle
  display : Display → Handle

-- A `Vt` is the name of its display.
pub record InputScheme : Type 0 where
  pub handles : Map Handle
  pub next_id : ℕ
  pub next_vt_id : ℕ
  pub vts : Map (List ℕ)
  pub super_key : Bool
  pub active_vt : Option ℕ
  pub has_new_events : Bool
  pub maybe_perform_handoff_to : Option (List ℕ)

unfoldable pub new_input : InputScheme
new_input = record {
  handles = [];
  next_id = 0;
  next_vt_id = 1;
  vts = [];
  super_key = false;
  active_vt = none;
  has_new_events = false;
  maybe_perform_handoff_to = none;
}

-- `==` on names
abbrev pub name_eq : List ℕ → List ℕ → Bool
name_eq [] [] = true
name_eq [] (y ∷ ys) = false
name_eq (x ∷ xs) [] = false
name_eq (x ∷ xs) (y ∷ ys) = if x == y then name_eq xs ys else false

abbrev pub vt_event : VtEventKind → ℕ → ℕ → ℕ → VtEvent
vt_event kind vt width height = record {
  kind = kind;
  vt = vt;
  width = width;
  height = height;
  stride = width;
}

-- `pending.push(event); *notified = false`
abbrev pub push_event : VtEvent → Display → Display
push_event event d = record d { pending = d.pending ++ (event ∷ []); notified = false }

-- The body of the loop for one display: `old` is the active VT with its display, if any.
unfoldable pub switch_display : Option (ℕ × List ℕ) → ℕ → List ℕ → Display → Display
switch_display old new_active new_display d =
    let d' : Display = elim old [
      | none ↦ d
      | some (vt, name) ↦
          if name_eq name d.device then push_event (vt_event deactivate vt 0 0) d else d
    ] in
    if name_eq new_display d.device then push_event (vt_event activate new_active 0 0) d' else d'

-- A loop over `handles.values_mut()` that changes only the displays.
unfoldable pub map_displays : (Display → Display) → Map Handle → Map Handle
map_displays f [] = []
map_displays f ((k, display d) ∷ m) = (k, display (f d)) ∷ map_displays f m
map_displays f ((k, producer) ∷ m) = (k, producer) ∷ map_displays f m
map_displays f ((k, control) ∷ m) = (k, control) ∷ map_displays f m
map_displays f ((k, consumer c) ∷ m) = (k, consumer c) ∷ map_displays f m

-- Some handle is a display, so that the loop body runs and `self.vts[..]` is indexed.
unfoldable pub any_display : Map Handle → Bool
any_display [] = false
any_display ((k, display d) ∷ m) = true
any_display ((k, producer) ∷ m) = any_display m
any_display ((k, control) ∷ m) = any_display m
any_display ((k, consumer c) ∷ m) = any_display m

unfoldable pub switched : InputScheme → ℕ → Option (ℕ × List ℕ) → List ℕ → InputScheme
switched s new_active old new_display = record s {
  handles = map_displays (switch_display old new_active new_display) s.handles;
  active_vt = some new_active;
}

-- The switch itself. Indexing `vts` by an active VT that is not in it panics in the loop.
unfoldable pub switch_to : InputScheme → ℕ → List ℕ → Outcome InputScheme
unfolding switched
switch_to s new_active new_display = elim s.active_vt [
  | none ↦ ok (switched s new_active none new_display)
  | some vt ↦ elim (lookup vt s.vts) [
    | some name ↦ ok (switched s new_active (some (vt, name)) new_display)
    | none ↦
        if any_display s.handles then panicked else ok (record s { active_vt = some new_active })
  ]
]

-- Nothing happens if the VT is active already or does not exist.
unfoldable pub switch_vt : ℕ → InputScheme → Outcome InputScheme
unfolding switch_to
switch_vt new_active s =
    let switch : Outcome InputScheme = elim (lookup new_active s.vts) [
      | none ↦ ok s
      | some new_display ↦ switch_to s new_active new_display
    ] in
    elim s.active_vt [ none ↦ switch | some active ↦ if new_active == active then ok s else switch ]
