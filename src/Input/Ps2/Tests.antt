-- ===== src/Input/Ps2/Tests.antt =====
-- The theorems on the PS/2 driver at concrete inputs.
use drivers.Base.{
  ℕ, ◌+◌, ◌<◌, ◌≡◌, refl, ◌⊎◌, Bool, true, false, ◌||◌, List, [], ◌∷◌, length, ◌==◌, if◌then◌else◌,
  arith,
}
use drivers.Base.Integer.{pos, negsuc}
use drivers.Base.Outcome.{ok}
use drivers.Input.Ps2.{
  Event, key_event, Ps2d, new_ps2d, VmButtons, VmTurn, scancode_of, reset_packets,
}
use drivers.Input.Ps2.Keys.{Key, k_left_shift, find_key}
use drivers.Input.Ps2.Moves.{fourth_byte, first_byte, low_byte, handle_bytes, ends_in, packet_moves}
use drivers.Input.Ps2.Packets.{Interrupt, handle_all, handle_all-InRange}
use drivers.Input.Ps2.Typing.{handle_keys, prefix, is_left, is_right, typed_key}

-- A mouse with a wheel; it moves to the left and upwards, and its wheel is turned back.
abbrev wheel : Ps2d
wheel = new_ps2d true false

packet_moves_example :
    let rest = if wheel.extra_packet then fourth_byte 0 (negsuc 1) ∷ [] else [] in
    handle_bytes
      (first_byte true false false (negsuc 4) (pos 7)
        ∷ low_byte (negsuc 4)
        ∷ low_byte (pos 7)
        ∷ rest)
      (reset_packets wheel)
    ≡ ok (ends_in true false false (negsuc 4) (pos 7) (negsuc 1) 0 wheel)
packet_moves_example =
    packet_moves true false false (negsuc 4) (pos 7) (negsuc 1) 0 wheel (omega arith) (omega arith)
      (omega arith)

-- Every key has the number 30.
abbrev code : Key → ℕ
code key = 30

abbrev get_char : ℕ → Bool → ℕ
get_char scancode shift = scancode

abbrev buttons : VmButtons
buttons = record { left_button = 0x20; middle_button = 0x08; right_button = 0x10 }

abbrev idle : ℕ → VmTurn
idle turn = record { queue_status = 0; status = 0; dx = 0; dy = 0; dz = 0 }

-- Bytes of the mouse that are out of step, and one of the keyboard between them
abbrev interrupts : List Interrupt
interrupts =
    record { keyboard = false; byte = 8; device = idle }
    ∷ record { keyboard = true; byte = 30; device = idle }
    ∷ record { keyboard = false; byte = 0; device = idle }
    ∷ record { keyboard = false; byte = 255; device = idle }
    ∷ record { keyboard = false; byte = 1; device = idle }
    ∷ []

handle_all-InRange_example :
    (s : Ps2d) × (events : List Event) × (handle_all code get_char buttons interrupts
        (new_ps2d false false)
      ≡ ok (s, events))
    × (length s.packets ≡ 4)
    × (s.packet_i < 4)
    × ((s.packet_i < 3) ⊎ (s.extra_packet ≡ true))
handle_all-InRange_example = handle_all-InRange code get_char buttons interrupts false false

-- The left shift key, whose number is 42 here
abbrev shift_code : Key → ℕ
shift_code k_left_shift = 42
shift_code key = 30

shift_known : (scancode_of shift_code get_char false 0x2a == 0) ≡ false
unfolding find_key
shift_known = refl

typed_key_example :
    let c = scancode_of shift_code get_char false 0x2a in
    let left = is_left shift_code get_char c in
    let right = is_right shift_code get_char c in
    let left_up = if left then false else wheel.lshift in
    let right_up = if right then false else wheel.rshift in
    handle_keys shift_code get_char (prefix false (0x2a ∷ prefix false ((0x2a + 0x80) ∷ []))) wheel
    ≡ (
      record wheel { lshift = left_up; rshift = right_up },
      key_event (get_char 0x2a (left || right || wheel.lshift || wheel.rshift)) c true
          ∷ key_event (get_char 0x2a (left_up || right_up)) c false
          ∷ [],
    )
typed_key_example =
    typed_key shift_code get_char false 0x2a wheel (unfold new_ps2d in refl) (omega arith)
      (omega arith) shift_known
