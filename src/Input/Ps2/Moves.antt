-- ===== src/Input/Ps2/Moves.antt =====
-- What a mouse's packet means, in input/ps2d/src/state.rs.
use drivers.Base.{
  ℕ, zero, suc, ◌+◌, ◌-◌, ◌*◌, ◌<◌, bit_and, ◌≡◌, refl, ◌∙◌, ap, ◌⊎◌, Bool, true, false, ◌&&◌, List,
  [], ◌∷◌, ◌++◌, bit, same, if◌then◌else◌, length, length-set, get_or, set, arith, Bool-cases, inl,
  inr,
}
use mathlib.Core.List.{append-nil}
use drivers.Base.Bits.{and_bit, and_mask}
use drivers.Base.Integer.{ℤ, pos, negsuc, sub, is_zero}
use drivers.Base.Outcome.{Outcome, ok, err, panicked, ◌>>=◌}
use drivers.Input.Ps2.{
  Event, mouse_relative_event, scroll_event, button_event, Ps2d, has_flag, press_buttons,
  whole_packet, reset_packets, handle_mouse,
}

-- A number of nine bits in two's complement: its sign, and its low byte
abbrev pub is_negative : ℤ → Bool
is_negative (pos n) = false
is_negative (negsuc n) = true

abbrev pub low_byte : ℤ → ℕ
low_byte (pos n) = n
low_byte (negsuc n) = 255 - n

abbrev pub Fits : ℕ → ℤ → Type 0
Fits m (pos n) = n < m
Fits m (negsuc n) = n < m

abbrev pub neg : ℤ → ℤ
neg (pos zero) = pos 0
neg (pos (suc n)) = negsuc n
neg (negsuc n) = pos (suc n)

-- The buttons with the signs of the movement, as the mouse sends them in the first byte
abbrev pub first_byte : (left middle right : Bool) → (mx my : ℤ) → ℕ
first_byte left middle right mx my =
    bit left
    + bit right * 2
    + bit middle * 4
    + 8
    + bit (is_negative mx) * 16
    + bit (is_negative my) * 32

flags_of :
    (l m r x y : Bool)
    → let b = bit l + bit r * 2 + bit m * 4 + 8 + bit x * 16 + bit y * 32 in
      (has_flag b 1 ≡ l)
      × (has_flag b 2 ≡ r)
      × (has_flag b 4 ≡ m)
      × (has_flag b 8 ≡ true)
      × (has_flag b 16 ≡ x)
      × (has_flag b 32 ≡ y)
      × (has_flag b 64 ≡ false)
      × (has_flag b 128 ≡ false)
flags_of l m r x y =
    let b = bit l + bit r * 2 + bit m * 4 + 8 + bit x * 16 + bit y * 32 in
    (
      ground (arith, and_bit 0 b),
      ground (arith, and_bit 1 b),
      ground (arith, and_bit 2 b),
      ground (arith, and_bit 3 b),
      ground (arith, and_bit 4 b),
      ground (arith, and_bit 5 b),
      ground (arith, and_bit 6 b),
      ground (arith, and_bit 7 b),
    )

-- The driver's difference of a byte and the weight of its sign is the number.
signed_lem : (v : ℤ) → Fits 256 v → sub (low_byte v) (if is_negative v then 0x100 else 0) ≡ v
signed_lem (pos n) h = ground arith
signed_lem (negsuc n) h = ground arith

reversed_lem : (v : ℤ) → Fits 256 v → sub (if is_negative v then 0x100 else 0) (low_byte v) ≡ neg v
reversed_lem (pos zero) h = ground arith
reversed_lem (pos (suc n)) h = ground arith
reversed_lem (negsuc n) h = ground arith

-- A number of four bits, and the fourth byte, whose upper half `upper` says something else
abbrev pub low_half : ℤ → ℕ
low_half (pos n) = n
low_half (negsuc n) = 15 - n

abbrev pub fourth_byte : ℕ → ℤ → ℕ
fourth_byte upper mz = upper * 16 + low_half mz

scrolled_lem :
    (upper : ℕ) (v : ℤ)
    → Fits 8 v
    → let scroll = bit_and (fourth_byte upper v) 0xf in
      sub (if has_flag scroll 8 then 16 else 0) scroll ≡ neg v
scrolled_lem upper (pos zero) h = ground (arith, and_mask 4 (fourth_byte upper (pos zero)))
scrolled_lem upper (pos (suc n)) h =
    ground (arith, and_mask 4 (fourth_byte upper (pos (suc n))), and_bit 3 (suc n))
scrolled_lem upper (negsuc n) h =
    ground (arith, and_mask 4 (fourth_byte upper (negsuc n)), and_bit 3 (15 - n))

-- The events of a packet: the mouse's upward movement is the screen's downward.
abbrev pub move_events : ℤ → ℤ → List Event
move_events mx my =
    if is_zero mx && is_zero (neg my) then [] else mouse_relative_event mx (neg my) ∷ []

abbrev pub scroll_events : Bool → ℤ → List Event
scroll_events extra mz =
    if extra then (if is_zero (neg mz) then [] else scroll_event (pos 0) (neg mz) ∷ []) else []

abbrev pub change_events : (left middle right : Bool) → Ps2d → List Event
change_events left middle right s =
    if same left s.mouse_left && same middle s.mouse_middle && same right s.mouse_right
    then []
    else button_event left middle right ∷ []

abbrev pub with_buttons : (left middle right : Bool) → Ps2d → Ps2d
with_buttons left middle right s = record s {
  mouse_left = left;
  mouse_middle = middle;
  mouse_right = right;
}

abbrev pub holding : List ℕ → ℕ → Ps2d → Ps2d
holding bytes i s = record s { packets = bytes; packet_i = i }

-- The bytes of the mouse one after the other
unfoldable pub handle_bytes : List ℕ → Ps2d → Outcome (Ps2d × List Event)
handle_bytes [] s = ok (s, [])
handle_bytes (b ∷ bs) s = handle_mouse b s >>= λ (s', events).
    handle_bytes bs s' >>= λ (s'', more). ok (s'', events ++ more)

press_buttons_lem :
    (l m r : Bool) (s : Ps2d)
    → press_buttons l m r s ≡ (with_buttons l m r s, change_events l m r s)
unfolding press_buttons
press_buttons_lem l m r s = ground arith

-- The state with a byte stored
abbrev stored : ℕ → Ps2d → Ps2d
stored b s = holding (set s.packets s.packet_i b) (s.packet_i + 1) s

abbrev Marked : ℕ → Ps2d → Type 0
Marked b s = has_flag (get_or (set s.packets s.packet_i b) 0 0) 8 ≡ true

-- A byte that does not end a packet is stored.
stored_lem :
    (b : ℕ) (s : Ps2d)
    → Marked b s
    → suc s.packet_i < length s.packets
    → (suc s.packet_i < 3) ⊎ (s.extra_packet ≡ true)
    → handle_mouse b s ≡ ok (stored b s, [])
unfolding handle_mouse
stored_lem b s marked inside more = ground (arith, length-set s.packets s.packet_i b)

-- The last byte of a packet completes it.
ended_lem :
    (b : ℕ) (s : Ps2d)
    → Marked b s
    → s.packet_i < length s.packets
    → (suc s.packet_i ≡ length s.packets) ⊎ ((s.extra_packet ≡ false) × (suc s.packet_i ≡ 3))
    → handle_mouse b s
      ≡ ok (reset_packets (whole_packet (stored b s)).0, (whole_packet (stored b s)).1)
unfolding handle_mouse
ended_lem b s marked inside last = ground (arith, length-set s.packets s.packet_i b)

-- A stored byte adds no event to those that follow.
quiet_lem : (o : Outcome (Ps2d × List Event)) → (o >>= λ (s', more). ok (s', [] ++ more)) ≡ o
quiet_lem (ok p) = refl
quiet_lem (err e) = refl
quiet_lem panicked = refl

module _ (l m r : Bool) (mx my mz : ℤ) (upper : ℕ) (s : Ps2d) where
  -- What the packet's scrolling comes to, whether there is a fourth byte or not
  abbrev dz_of : ℕ → ℤ
  dz_of b3 =
      let scroll = bit_and b3 0xf in
      if s.extra_packet then sub (if has_flag scroll 8 then 16 else 0) scroll else pos 0

  abbrev Sent : ℕ → Type 0
  Sent b3 = dz_of b3 ≡ (if s.extra_packet then neg mz else pos 0)

  abbrev pub ends_in : Ps2d × List Event
  ends_in = (
    with_buttons l m r (reset_packets s),
    move_events mx my ++ (scroll_events s.extra_packet mz ++ change_events l m r s),
  )

  whole_packet_lem :
      (b3 i : ℕ)
      → Fits 256 mx
      → Fits 256 my
      → Sent b3
      → let st = holding (first_byte l m r mx my ∷ low_byte mx ∷ low_byte my ∷ b3 ∷ []) i s in
        (reset_packets (whole_packet st).0, (whole_packet st).1) ≡ ends_in
  unfolding whole_packet
  whole_packet_lem b3 i fx fy fz =
      let (f1, f2, f4, f8, f16, f32, f64, f128) =
        flags_of l m r (is_negative mx) (is_negative my) in
      rw
        (
          f1,
          f2,
          f4,
          f16,
          f32,
          f64,
          f128,
          signed_lem mx fx,
          reversed_lem my fy,
          fz,
          press_buttons_lem,
        )
        (ground arith)

  -- The first bytes are stored one after the other.
  abbrev pub b0 : ℕ
  b0 = first_byte l m r mx my

  marked : has_flag b0 8 ≡ true
  marked = (flags_of l m r (is_negative mx) (is_negative my)).3

  two_stored :
      (bytes : List ℕ)
      → handle_bytes (b0 ∷ low_byte mx ∷ bytes) (reset_packets s)
        ≡ handle_bytes bytes (holding (b0 ∷ low_byte mx ∷ 0 ∷ 0 ∷ []) 2 s)
  unfolding handle_bytes
  two_stored bytes =
      let e0 = stored_lem b0 (reset_packets s) marked (omega arith) (inl (omega arith)) in
      let e1 =
        stored_lem (low_byte mx) (holding (b0 ∷ 0 ∷ 0 ∷ 0 ∷ []) 1 s) marked (omega arith)
          (inl (omega arith)) in
      let o = handle_bytes bytes (holding (b0 ∷ low_byte mx ∷ 0 ∷ 0 ∷ []) 2 s) in
      rw (e0, e1) (rw (quiet_lem o) (quiet_lem o))

  three_bytes :
      Fits 256 mx
      → Fits 256 my
      → s.extra_packet ≡ false
      → handle_bytes (b0 ∷ low_byte mx ∷ low_byte my ∷ []) (reset_packets s) ≡ ok ends_in
  unfolding handle_bytes
  three_bytes fx fy three =
      let e2 =
        ended_lem (low_byte my) (holding (b0 ∷ low_byte mx ∷ 0 ∷ 0 ∷ []) 2 s) marked (omega arith)
          (inr (three, omega arith)) in
      rw (two_stored (low_byte my ∷ []), e2)
        (rw append-nil (
          ap (λ (p : Ps2d × List Event). ok p)
            (whole_packet_lem 0 3 fx fy (ground (arith, three)))))

  four_bytes :
      Fits 256 mx
      → Fits 256 my
      → Fits 8 mz
      → s.extra_packet ≡ true
      → handle_bytes (b0 ∷ low_byte mx ∷ low_byte my ∷ fourth_byte upper mz ∷ []) (reset_packets s)
        ≡ ok ends_in
  unfolding handle_bytes
  four_bytes fx fy fz four =
      let e2 =
        stored_lem (low_byte my) (holding (b0 ∷ low_byte mx ∷ 0 ∷ 0 ∷ []) 2 s) marked (omega arith)
          (inr four) in
      let e3 =
        ended_lem (fourth_byte upper mz) (holding (b0 ∷ low_byte mx ∷ low_byte my ∷ 0 ∷ []) 3 s)
          marked (omega arith) (inl (omega arith)) in
      rw (two_stored (low_byte my ∷ fourth_byte upper mz ∷ []), e2, e3)
        (rw append-nil (
          ap (λ (p : Ps2d × List Event). ok p)
            (whole_packet_lem (fourth_byte upper mz) 4 fx fy
              (ground (arith, four, scrolled_lem upper mz fz)))))

  -- A whole packet that finds the driver between packets, of three bytes or of four as the mouse
  -- has it, moves the pointer by the numbers that the mouse sent, upward movement counted
  -- negative, scrolls by the number of its fourth byte, and tells the buttons if they have changed.
  -- The driver is then between packets again.
  pub packet_moves :
      Fits 256 mx
      → Fits 256 my
      → Fits 8 mz
      → let rest = if s.extra_packet then fourth_byte upper mz ∷ [] else [] in
        handle_bytes (b0 ∷ low_byte mx ∷ low_byte my ∷ rest) (reset_packets s) ≡ ok ends_in
  packet_moves fx fy fz =
      let rest = if s.extra_packet then fourth_byte upper mz ∷ [] else [] in
      let run = λ (bytes : List ℕ).
        handle_bytes (b0 ∷ low_byte mx ∷ low_byte my ∷ bytes) (reset_packets s) in
      elim (Bool-cases s.extra_packet) [
        | inl four ↦
            let whole : rest ≡ fourth_byte upper mz ∷ [] = ground (arith, four) in
            ap run whole ∙ four_bytes fx fy fz four
        | inr three ↦
            let nothing : rest ≡ [] = ground (arith, three) in
            ap run nothing ∙ three_bytes fx fy three
      ]
