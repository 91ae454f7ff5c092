-- ===== src/Input/Ps2/Packets.antt =====
-- No input makes the driver of input/ps2d/src/state.rs panic, and it falls into step again.
use drivers.Base.{
  ℕ, zero, suc, ◌+◌, ◌%◌, ◌^◌, ◌<◌, ◌≡◌, ◌⊎◌, refl, ◌∙◌, Bool, true, false, not, ◌&&◌, ◌||◌, List,
  [], ◌∷◌, ◌++◌, leb, ◌==◌, if◌then◌else◌, length, length-set, get_or, set, arith, Bool-cases, inl,
  inr,
}
use drivers.Base.Outcome.{Outcome, ok, ◌>>=◌}
use drivers.Base.Integer.{pos, neg_i32}
use drivers.Input.Ps2.{
  scroll_event, Event, Ps2d, new_ps2d, has_flag, press_buttons, whole_packet, reset_packets,
  handle_mouse, handle_keyboard, VmButtons, VmTurn, vm_move, handle_vmmouse, handle,
}
use drivers.Input.Ps2.Keys.{Key}

-- The place of the next byte is one of a packet of the mouse.
pub record InRange (s : Ps2d) : Type 0 where
  pub size : length s.packets ≡ 4
  pub inside : s.packet_i < 4
  pub three : s.extra_packet ≡ false → s.packet_i < 3

press_buttons-InRange : (l m r : Bool) (s : Ps2d) → InRange s → InRange (press_buttons l m r s).0
unfolding press_buttons
press_buttons-InRange l m r s v = ground (arith, v.three)

whole_packet-extra : (s : Ps2d) → (whole_packet s).0.extra_packet ≡ s.extra_packet
unfolding whole_packet press_buttons
whole_packet-extra s = ground arith

abbrev Goes : Outcome (Ps2d × List Event) → Type 0
Goes o = (s' : Ps2d) × (events : List Event) × (o ≡ ok (s', events)) × InRange s'

reset-InRange : (s : Ps2d) → InRange (reset_packets s)
reset-InRange s = record { size = refl; inside = omega arith; three = λ e. omega arith }

-- The driver is between packets, or it has begun one.
stored-InRange :
    (byte : ℕ) (s : Ps2d)
    → InRange s
    → (leb (length (set s.packets s.packet_i byte)) (s.packet_i + 1)
        || not s.extra_packet && leb 3 (s.packet_i + 1))
      ≡ false
    → InRange (record s { packets = set s.packets s.packet_i byte; packet_i = s.packet_i + 1 })
stored-InRange byte s v more = record {
  size = length-set s.packets s.packet_i byte ∙ v.size;
  inside = ground (arith, length-set s.packets s.packet_i byte, v.size);
  three = λ e. ground (arith, e, more);
}

handle_mouse-Goes : (byte : ℕ) (s : Ps2d) → InRange s → Goes (handle_mouse byte s)
unfolding handle_mouse
handle_mouse-Goes byte s v =
    let st = record s { packets = set s.packets s.packet_i byte; packet_i = s.packet_i + 1 } in
    let room : leb (length s.packets) s.packet_i ≡ false = ground (arith, v.size, v.inside) in
    elim (Bool-cases (has_flag (get_or st.packets 0 0) 8)) [
      | inr off ↦ (reset_packets st, [], ground (arith, room, off), reset-InRange st)
      | inl on ↦
          elim (Bool-cases
            (leb (length st.packets) st.packet_i || not s.extra_packet && leb 3 st.packet_i)) [
              | inl last ↦ (
                reset_packets (whole_packet st).0,
                (whole_packet st).1,
                rw (room, on, last) refl,
                reset-InRange (whole_packet st).0,
              )
              | inr more ↦ (st, [], rw (room, on, more) refl, stored-InRange byte s v more)
            ]
    ]

vm_move-InRange : (t : VmTurn) (s : Ps2d) → InRange s → InRange (vm_move t s).0
vm_move-InRange t s v = ground (arith, v.three)

either-InRange :
    (b : Bool) (x y : Ps2d × List Event)
    → InRange x.0
    → InRange y.0
    → InRange (if b then x else y).0
either-InRange true x y v w = v
either-InRange false x y v w = w

-- A byte of the keyboard, or one of the mouse with what a VM's mouse tells then
pub record Interrupt : Type 0 where
  pub keyboard : Bool
  pub byte : ℕ
  pub device : ℕ → VmTurn

module _ (code : Key → ℕ) (get_char : ℕ → Bool → ℕ) (buttons : VmButtons) where
  handle_keyboard-InRange :
      (byte : ℕ) (s : Ps2d) → InRange s → InRange (handle_keyboard code get_char byte s).0
  unfolding handle_keyboard
  handle_keyboard-InRange byte s v = ground (arith, v.three)

  handle_vmmouse-InRange :
      (device : ℕ → VmTurn) (left turn : ℕ) (s : Ps2d)
      → InRange s
      → InRange (handle_vmmouse buttons device left turn s).0
  unfolding handle_vmmouse
  handle_vmmouse-InRange device zero turn s v = v
  handle_vmmouse-InRange device (suc left) turn s v =
      let t = device turn in
      let moved = vm_move t s in
      let pressed =
        press_buttons (has_flag t.status buttons.left_button)
          (has_flag t.status buttons.middle_button) (has_flag t.status buttons.right_button)
          moved.0 in
      let rest = handle_vmmouse buttons device left (turn + 1) pressed.0 in
      let scroll = if t.dz == 0 then [] else scroll_event (pos 0) (neg_i32 t.dz) ∷ [] in
      either-InRange (t.queue_status % 2 ^ 16 == 0 || not (t.queue_status % 2 ^ 16 % 4 == 0))
        (s, []) (rest.0, moved.1 ++ (scroll ++ (pressed.1 ++ rest.1))) v
        (handle_vmmouse-InRange device left (turn + 1) pressed.0
          (press_buttons-InRange _ _ _ moved.0 (vm_move-InRange t s v)))

  handle-Goes :
      (device : ℕ → VmTurn) (keyboard : Bool) (byte : ℕ) (s : Ps2d)
      → InRange s
      → Goes (handle code get_char buttons device keyboard byte s)
  unfolding handle
  handle-Goes device true byte s v = (
    (handle_keyboard code get_char byte s).0,
    (handle_keyboard code get_char byte s).1,
    refl,
    handle_keyboard-InRange byte s v,
  )
  handle-Goes device false byte s v = elim (Bool-cases s.vmmouse) [
    | inl vm ↦ (
      (handle_vmmouse buttons device 256 0 s).0,
      (handle_vmmouse buttons device 256 0 s).1,
      ground (arith, vm),
      handle_vmmouse-InRange device 256 0 s v,
    )
    | inr ps2 ↦
        let (s', events, run, v') = handle_mouse-Goes byte s v in
        (s', events, ground (arith, ps2, run), v')
  ]

  -- The interrupts one after the other
  pub handle_all : List Interrupt → Ps2d → Outcome (Ps2d × List Event)
  handle_all [] s = ok (s, [])
  handle_all (i ∷ is) s =
      handle code get_char buttons i.device i.keyboard i.byte s >>= λ (s', events).
      handle_all is s' >>= λ (s'', more). ok (s'', events ++ more)

  handle_all-Goes : (is : List Interrupt) (s : Ps2d) → InRange s → Goes (handle_all is s)
  unfolding handle_all
  handle_all-Goes [] s v = (s, [], refl, v)
  handle_all-Goes (i ∷ is) s v =
      let (s', events, run, v') = handle-Goes i.device i.keyboard i.byte s v in
      let (s'', more, runs, v'') = handle_all-Goes is s' v' in
      (s'', events ++ more, rw (run, runs) refl, v'')

  -- Whatever bytes come from keyboard and mouse, in whatever order, the driver handles them all
  -- with no panic: the index into the packet stays in range, with a mouse of three bytes below 3.
  pub handle_all-InRange :
      (is : List Interrupt) (extra_packet vmmouse : Bool)
      → (s : Ps2d) × (events : List Event) × (handle_all is (new_ps2d extra_packet vmmouse)
          ≡ ok (s, events))
        × (length s.packets ≡ 4)
        × (s.packet_i < 4)
        × ((s.packet_i < 3) ⊎ (s.extra_packet ≡ true))
  unfolding new_ps2d
  handle_all-InRange is extra_packet vmmouse =
      let start : InRange (new_ps2d extra_packet vmmouse) = record {
        size = refl;
        inside = omega arith;
        three = λ e. omega arith;
      } in
      let (s, events, run, v) = handle_all-Goes is (new_ps2d extra_packet vmmouse) start in
      (
        s,
        events,
        run,
        v.size,
        v.inside,
        elim (Bool-cases s.extra_packet) [ inl four ↦ inr four | inr three ↦ inl (v.three three) ],
      )
