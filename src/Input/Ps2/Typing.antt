-- ===== src/Input/Ps2/Typing.antt =====
-- Pressing and letting go of a key, in input/ps2d/src/state.rs.
use drivers.Base.{
  ℕ, ◌+◌, ◌-◌, ◌<◌, ◌≡◌, ◌≢◌, refl, ◌∙◌, ap, Bool, true, false, not, ◌&&◌, ◌||◌, List, [], ◌∷◌,
  ◌++◌, leb, ◌==◌, if◌then◌else◌, arith,
}
use drivers.Input.Ps2.{Event, key_event, Ps2d, scancode_of, shift_keys, handle_keyboard}
use drivers.Input.Ps2.Keys.{Key, k_left_shift, k_right_shift}

-- The tests that the driver makes of a key's byte
low_byte_tests : (sc : ℕ) → sc < 0x80 → (leb 0x80 sc ≡ false) × ((sc == 0xe0) ≡ false)
low_byte_tests sc small = (ground arith, ground arith)

high_byte_tests :
    (sc : ℕ)
    → sc < 0x80
    → sc ≢ 0x60
    → (leb 0x80 (sc + 0x80) ≡ true) × ((sc + 0x80 == 0xe0) ≡ false) × (sc + 0x80 - 0x80 ≡ sc)
high_byte_tests sc small ne = (ground arith, ground arith, omega arith)

-- The prefix of an extended key
abbrev pub prefix : Bool → List ℕ → List ℕ
prefix x bytes = if x then 0xe0 ∷ bytes else bytes

module _ (code : Key → ℕ) (get_char : ℕ → Bool → ℕ) where
  -- The bytes of the keyboard one after the other
  unfoldable pub handle_keys : List ℕ → Ps2d → Ps2d × List Event
  handle_keys [] s = (s, [])
  handle_keys (b ∷ bs) s =
      let (s', events) = handle_keyboard code get_char b s in
      let (s'', more) = handle_keys bs s' in (s'', events ++ more)

  -- The event of a key, with the shift keys as they are after it
  abbrev typed : (sc : ℕ) → (pressed : Bool) → (scancode : ℕ) → Ps2d → Event
  typed sc pressed scancode s = key_event (get_char sc (s.lshift || s.rshift)) scancode pressed

  -- The state after a key, and what comes of it
  abbrev after_key : (scancode : ℕ) → (pressed : Bool) → Ps2d → Ps2d
  after_key scancode pressed s =
      shift_keys code get_char scancode pressed (record s { extended = false })

  press_lem :
      (sc : ℕ) (s : Ps2d)
      → sc < 0x80
      → (scancode_of code get_char s.extended sc == 0) ≡ false
      → let scancode = scancode_of code get_char s.extended sc in
        handle_keyboard code get_char sc s
        ≡ (after_key scancode true s, typed sc true scancode (after_key scancode true s) ∷ [])
  unfolding handle_keyboard
  press_lem sc s small known =
      let (low, other) = low_byte_tests sc small in rw (low, other, known) refl

  release_lem :
      (sc : ℕ) (s : Ps2d)
      → sc < 0x80
      → sc ≢ 0x60
      → (scancode_of code get_char s.extended sc == 0) ≡ false
      → let scancode = scancode_of code get_char s.extended sc in
        handle_keyboard code get_char (sc + 0x80) s
        ≡ (after_key scancode false s, typed sc false scancode (after_key scancode false s) ∷ [])
  unfolding handle_keyboard
  release_lem sc s small ne known =
      let (high, other, back) = high_byte_tests sc small ne in rw (high, other, back, known) refl

  prefix_lem :
      (x : Bool) (bytes : List ℕ) (s : Ps2d)
      → s.extended ≡ false
      → handle_keys (prefix x bytes) s ≡ handle_keys bytes (record s { extended = x })
  unfolding handle_keys handle_keyboard
  prefix_lem true bytes s e = refl
  prefix_lem false bytes s e = ap (handle_keys bytes) (ground (arith, e))

  after_key-extended :
      (c : ℕ) (pressed : Bool) (s : Ps2d) → (after_key c pressed s).extended ≡ false
  after_key-extended c pressed s = ground arith

  start_lem :
      (c : ℕ) (pressed x : Bool) (s : Ps2d)
      → after_key c pressed (record s { extended = x }) ≡ after_key c pressed s
  start_lem c pressed x s = ground arith

  again_lem :
      (c : ℕ) (x : Bool) (s : Ps2d)
      → after_key c false (record (after_key c true (record s { extended = x })) { extended = x })
        ≡ after_key c false s
  again_lem c x s = ground arith

  typed_again :
      (x : Bool) (sc : ℕ) (s : Ps2d)
      → s.extended ≡ false
      → sc < 0x80
      → sc ≢ 0x60
      → (scancode_of code get_char x sc == 0) ≡ false
      → let scancode = scancode_of code get_char x sc in
        let down = after_key scancode true s in
        let up = after_key scancode false s in
        handle_keys (prefix x (sc ∷ prefix x ((sc + 0x80) ∷ []))) s
        ≡ (up, typed sc true scancode down ∷ typed sc false scancode up ∷ [])
  unfolding handle_keys
  typed_again x sc s plain small ne known =
      let c = scancode_of code get_char x sc in
      let start = record s { extended = x } in
      let middle = record (after_key c true start) { extended = x } in
      let ends : after_key c false middle ≡ after_key c false s = again_lem c x s in
      rw
        (
          prefix_lem x (sc ∷ prefix x ((sc + 0x80) ∷ [])) s plain,
          press_lem sc start small known,
          prefix_lem x ((sc + 0x80) ∷ []) (after_key c true start)
              (after_key-extended c true start),
          release_lem sc middle small ne known,
          ends,
        )
        (rw (start_lem c true x s) refl)

  -- Whether the key of that number is the left shift key, and whether it is the right one
  abbrev pub is_left : ℕ → Bool
  is_left c = c == code k_left_shift

  abbrev pub is_right : ℕ → Bool
  is_right c = not (is_left c) && c == code k_right_shift

  after_key_lem :
      (c : ℕ) (pressed : Bool) (s : Ps2d)
      → s.extended ≡ false
      → after_key c pressed s ≡ record s {
        lshift = if is_left c then pressed else s.lshift;
        rshift = if is_right c then pressed else s.rshift;
      }
  after_key_lem c pressed s plain = ground (arith, plain)

  down_lem :
      (left right l r : Bool)
      → ((if left then true else l) || (if right then true else r)) ≡ (left || right || l || r)
  down_lem left right l r = ground arith

  events_lem :
      (sc c : ℕ) (s : Ps2d)
      → s.extended ≡ false
      → let shift_down = is_left c || is_right c || s.lshift || s.rshift in
        let left_up = if is_left c then false else s.lshift in
        let right_up = if is_right c then false else s.rshift in
        ◌≡◌ {A = Ps2d × List Event}
          (
            after_key c false s,
            typed sc true c (after_key c true s) ∷ typed sc false c (after_key c false s) ∷ [],
          )
          (
            record s { lshift = left_up; rshift = right_up },
            key_event (get_char sc shift_down) c true
                ∷ key_event (get_char sc (left_up || right_up)) c false
                ∷ [],
          )
  events_lem sc c s plain =
      rw
        (
          after_key_lem c true s plain,
          after_key_lem c false s plain,
          down_lem (is_left c) (is_right c) s.lshift s.rshift,
        )
        refl

  -- A key of the tables, with the prefix 0xE0 or without one, that is pressed and let go: two
  -- events with the key's one number, the first pressed and the second not, each with the character
  -- for whether a shift key is down at that time. A shift key counts as down from its press to its
  -- release; after it that shift key is up, and all else of the driver is as it was. The key is not
  -- number 0x60, whose release is the prefix.
  pub typed_key :
      (x : Bool) (sc : ℕ) (s : Ps2d)
      → s.extended ≡ false
      → sc < 0x80
      → sc ≢ 0x60
      → (scancode_of code get_char x sc == 0) ≡ false
      → let c = scancode_of code get_char x sc in
        let shift_down = is_left c || is_right c || s.lshift || s.rshift in
        let left_up = if is_left c then false else s.lshift in
        let right_up = if is_right c then false else s.rshift in
        handle_keys (prefix x (sc ∷ prefix x ((sc + 0x80) ∷ []))) s ≡ (
          record s { lshift = left_up; rshift = right_up },
          key_event (get_char sc shift_down) c true
              ∷ key_event (get_char sc (left_up || right_up)) c false
              ∷ [],
        )
  typed_key x sc s plain small ne known =
      let c = scancode_of code get_char x sc in
      typed_again x sc s plain small ne known ∙ events_lem sc c s plain
