-- ===== src/Input/Ps2.antt =====
-- input/ps2d/src/state.rs: what the driver makes of the bytes of a keyboard and of a mouse. The
-- events go to the input daemon, and every write of one succeeds; they are a list here.
pub mod Keys
pub mod Packets
pub mod Moves
pub mod Typing
mod Tests
use drivers.Base.{
  ℕ, zero, suc, ◌+◌, ◌-◌, ◌%◌, ◌^◌, bit_and, Bool, true, false, not, ◌&&◌, ◌||◌, Option, none, some,
  List, [], ◌∷◌, ◌++◌, ltb, leb, same, ◌==◌, if◌then◌else◌, length, get_or, set,
}
use drivers.Base.Outcome.{Outcome, ok, err, panicked}
use drivers.Base.Integer.{ℤ, pos, negsuc, sub, is_zero, same_int, as_i32, neg_i32}
use drivers.Input.Ps2.Keys.{Key, k_left_shift, k_right_shift, extended_keys, plain_keys, find_key}

-- What is written to the input daemon
pub data Event : Type 0 where
  key_event : (character scancode : ℕ) → (pressed : Bool) → Event
  mouse_event : (x y : ℤ) → Event
  mouse_relative_event : (dx dy : ℤ) → Event
  scroll_event : (x y : ℤ) → Event
  button_event : (left middle right : Bool) → Event

pub record Ps2d : Type 0 where
  pub vmmouse : Bool
  pub vmmouse_relative : Bool
  pub extended : Bool
  pub lshift : Bool
  pub rshift : Bool
  pub mouse_x : ℤ
  pub mouse_y : ℤ
  pub mouse_left : Bool
  pub mouse_middle : Bool
  pub mouse_right : Bool
  pub packets : List ℕ
  pub packet_i : ℕ
  pub extra_packet : Bool

abbrev pub no_packets : List ℕ
no_packets = 0 ∷ 0 ∷ 0 ∷ 0 ∷ []

-- `Ps2d::new`: whether the mouse sends a fourth byte, and whether there is a VM's mouse
unfoldable pub new_ps2d : (extra_packet vmmouse : Bool) → Ps2d
new_ps2d extra_packet vmmouse = record {
  vmmouse = vmmouse;
  vmmouse_relative = false;
  extended = false;
  lshift = false;
  rshift = false;
  mouse_x = pos 0;
  mouse_y = pos 0;
  mouse_left = false;
  mouse_middle = false;
  mouse_right = false;
  packets = no_packets;
  packet_i = 0;
  extra_packet = extra_packet;
}

-- `flags.contains(..)` of a flag of one bit
abbrev pub has_flag : ℕ → ℕ → Bool
has_flag flags flag = bit_and flags flag == flag

-- A button event is written when a button has changed.
unfoldable pub press_buttons : (left middle right : Bool) → Ps2d → Ps2d × List Event
press_buttons left middle right s =
    if same left s.mouse_left && same middle s.mouse_middle && same right s.mouse_right
    then (s, [])
    else (
      record s { mouse_left = left; mouse_middle = middle; mouse_right = right },
      button_event left middle right ∷ [],
    )

-- A whole packet: movement, scrolling and buttons. A packet that tells an overflow says nothing.
unfoldable pub whole_packet : Ps2d → Ps2d × List Event
whole_packet s =
    let flags = get_or s.packets 0 0 in
    let dx = sub (get_or s.packets 1 0) (if has_flag flags 16 then 0x100 else 0) in
    let dy = sub (if has_flag flags 32 then 0x100 else 0) (get_or s.packets 2 0) in
    let scroll = bit_and (get_or s.packets 3 0) 0xf in
    let dz = if s.extra_packet then sub (if has_flag scroll 8 then 16 else 0) scroll else pos 0 in
    let (s', buttons) = press_buttons (has_flag flags 1) (has_flag flags 4) (has_flag flags 2) s in
    if not (has_flag flags 64) && not (has_flag flags 128)
    then (
      s',
      (if is_zero dx && is_zero dy then [] else mouse_relative_event dx dy ∷ [])
          ++ ((if is_zero dz then [] else scroll_event (pos 0) dz ∷ []) ++ buttons),
    )
    else (s, [])

abbrev pub reset_packets : Ps2d → Ps2d
reset_packets s = record s { packets = no_packets; packet_i = 0 }

-- A byte of the mouse. The index of the write is checked.
unfoldable pub handle_mouse : ℕ → Ps2d → Outcome (Ps2d × List Event)
handle_mouse byte s =
    let stored = record s { packets = set s.packets s.packet_i byte; packet_i = s.packet_i + 1 } in
    let (s', events) = whole_packet stored in
    if leb (length s.packets) s.packet_i
    then panicked
    else if not (has_flag (get_or stored.packets 0 0) 8)
    then ok (reset_packets stored, [])
    else if leb (length stored.packets) stored.packet_i
        || (not s.extra_packet && leb 3 stored.packet_i)
    then ok (reset_packets s', events)
    else ok (stored, [])

module _ (code : Key → ℕ) (get_char : ℕ → Bool → ℕ) where
  -- The number of the key that a scancode stands for; 0 if it stands for none.
  abbrev pub scancode_of : Bool → ℕ → ℕ
  scancode_of extended ps2_scancode =
      elim (find_key (if extended then extended_keys else plain_keys) ps2_scancode) [
        | none ↦ 0
        | some key ↦ code key
      ]

  abbrev pub shift_keys : (scancode : ℕ) → (pressed : Bool) → Ps2d → Ps2d
  shift_keys scancode pressed s =
      if scancode == code k_left_shift
      then record s { lshift = pressed }
      else if scancode == code k_right_shift
      then record s { rshift = pressed }
      else s

  -- A byte of the keyboard: the prefix 0xE0, or a scancode with the release in its top bit
  unfoldable pub handle_keyboard : ℕ → Ps2d → Ps2d × List Event
  unfolding find_key
  handle_keyboard byte s =
      let ps2_scancode = if leb 0x80 byte then byte - 0x80 else byte in
      let pressed = not (leb 0x80 byte) in
      let scancode = scancode_of s.extended ps2_scancode in
      let s' = shift_keys scancode pressed (record s { extended = false }) in
      if byte == 0xe0 then (record s { extended = true }, []) else (
        s',
        if scancode == 0
            then []
            else key_event (get_char ps2_scancode (s'.lshift || s'.rshift)) scancode pressed ∷ [],
      )

-- What a VM's mouse tells in one turn: the status that holds the length of its queue, and a packet
-- of status and movement. Both are read from the device.
pub record VmTurn : Type 0 where
  pub queue_status : ℕ
  pub status : ℕ
  pub dx : ℕ
  pub dy : ℕ
  pub dz : ℕ

abbrev pub vm_move : VmTurn → Ps2d → Ps2d × List Event
vm_move t s =
    let moved = record s { mouse_x = as_i32 t.dx; mouse_y = as_i32 t.dy } in
    if s.vmmouse_relative
    then (
      s,
      if t.dx == 0 && t.dy == 0 then [] else mouse_relative_event (as_i32 t.dx) (as_i32 t.dy) ∷ [],
    )
    else if same_int (as_i32 t.dx) s.mouse_x && same_int (as_i32 t.dy) s.mouse_y
    then (s, [])
    else (moved, mouse_event (as_i32 t.dx) (as_i32 t.dy) ∷ [])

-- The flags of the buttons in the status of a VM's packet
pub record VmButtons : Type 0 where
  pub left_button : ℕ
  pub middle_button : ℕ
  pub right_button : ℕ

-- The loop over at most `left` turns; turn number `turn` reads `device turn`.
unfoldable pub handle_vmmouse :
    VmButtons → (ℕ → VmTurn) → (left turn : ℕ) → Ps2d → Ps2d × List Event
handle_vmmouse buttons device zero turn s = (s, [])
handle_vmmouse buttons device (suc left) turn s =
    let t = device turn in
    let queue_length = t.queue_status % 2 ^ 16 in
    let (moved, move) = vm_move t s in
    let scroll = if t.dz == 0 then [] else scroll_event (pos 0) (neg_i32 t.dz) ∷ [] in
    let (pressed, press) =
      press_buttons (has_flag t.status buttons.left_button)
        (has_flag t.status buttons.middle_button) (has_flag t.status buttons.right_button) moved in
    let (s', events) = handle_vmmouse buttons device left (turn + 1) pressed in
    if queue_length == 0 || not (queue_length % 4 == 0)
    then (s, [])
    else (s', move ++ (scroll ++ (press ++ events)))

-- `handle`: a byte of the keyboard or of the mouse
unfoldable pub handle :
    (Key → ℕ)
    → (ℕ → Bool → ℕ)
    → VmButtons
    → (ℕ → VmTurn)
    → (keyboard : Bool) → ℕ
    → Ps2d
    → Outcome (Ps2d × List Event)
handle code get_char buttons device keyboard byte s =
    if keyboard
    then ok (handle_keyboard code get_char byte s)
    else if s.vmmouse
    then ok (handle_vmmouse buttons device 256 0 s)
    else handle_mouse byte s
