-- ===== src/Input/Daemon/Rounds.antt =====
-- The notifications of inputd/src/main.rs: who is told, and that each is told once.
use drivers.Base.{
  ℕ, ◌≡◌, refl, ◌∙◌, Bool, true, false, some, List, [], ◌∷◌, if◌then◌else◌, not, ◌&&◌, ◌||◌,
  bit_and, ◌==◌, arith, inl, inr, Bool-cases,
}
use drivers.Base.Outcome.{ok}
use drivers.Base.Map.{Map}
use drivers.Input.Vt.{Consumer, Display, Handle, producer, control, consumer, display}
use drivers.Input.Daemon.{is_empty, notify, tell_consumer, tell_display}

module _ (event_read vt : ℕ) where
  abbrev listens : ℕ → Bool
  listens events = bit_and events event_read == event_read

  -- Who is due to be told while VT `vt` is active: a consumer that is to hand off, or whose VT is
  -- active and has bytes for it, and a display with events, that listen and were not told yet.
  abbrev pub is_due : Handle → Bool
  is_due producer = false
  is_due control = false
  is_due (consumer c) =
      listens c.events
      && not c.notified
      && (c.needs_handoff || (not (is_empty c.pending) && vt == c.vt))
  is_due (display d) = listens d.events && not d.notified && not (is_empty d.pending)

  -- A handle that was told
  abbrev pub mark : Handle → Handle
  mark producer = producer
  mark control = control
  mark (consumer c) = consumer (record c { notified = true })
  mark (display d) = display (record d { notified = true })

  -- The numbers of the handles that are due, and the handles when these were told
  pub due : Map Handle → List ℕ
  due [] = []
  due ((k, h) ∷ m) = if is_due h then k ∷ due m else due m

  pub told : Map Handle → Map Handle
  told [] = []
  told ((k, h) ∷ m) = (k, if is_due h then mark h else h) ∷ told m

  consumer_lem : (c : Consumer) → tell_consumer event_read (some vt) c ≡ ok (is_due (consumer c))
  unfolding tell_consumer
  consumer_lem c = ground arith

  display_lem : (d : Display) → tell_display event_read d ≡ is_due (display d)
  unfolding tell_display
  display_lem d = ground arith

  first_round : (m : Map Handle) → notify event_read (some vt) m ≡ ok (due m, told m)
  unfolding notify due told
  first_round [] = refl
  first_round ((k, producer) ∷ m) = rw (first_round m, notify) refl
  first_round ((k, control) ∷ m) = rw (first_round m, notify) refl
  first_round ((k, consumer c) ∷ m) = elim (Bool-cases (is_due (consumer c))) [
    | inl is_so ↦ rw (is_so, notify) (rw (consumer_lem c, is_so, first_round m) refl)
    | inr not_so ↦ rw (not_so, notify) (rw (consumer_lem c, not_so, first_round m) refl)
  ]
  first_round ((k, display d) ∷ m) = elim (Bool-cases (is_due (display d))) [
    | inl is_so ↦ rw (is_so, notify) (rw (display_lem d, is_so, first_round m) refl)
    | inr not_so ↦ rw (not_so, notify) (rw (display_lem d, not_so, first_round m) refl)
  ]

  mark_quiet : (h : Handle) → is_due (mark h) ≡ false
  mark_quiet h = ground arith

  told_quiet : (h : Handle) → is_due (if is_due h then mark h else h) ≡ false
  told_quiet h = elim (Bool-cases (is_due h)) [
    | inl is_so ↦ rw is_so (mark_quiet h)
    | inr not_so ↦ rw not_so not_so
  ]

  second_round : (m : Map Handle) → (due (told m) ≡ []) × (told (told m) ≡ told m)
  unfolding due told
  second_round [] = (refl, refl)
  second_round ((k, h) ∷ m) =
      let (nobody, same) = second_round m in
      (rw (told_quiet h, nobody) refl, rw (told_quiet h, same) refl)

  -- While VT `vt` is active a round of notifications does not panic. It posts, in the order of the
  -- handles, to exactly those that are due and marks these: a consumer that listens, was not told,
  -- and is to hand off or has bytes while its VT is active, and a display that listens, was not
  -- told and has events. A second round, with nothing written in between, posts to nobody and
  -- changes nothing.
  pub notify_settles :
      (m : Map Handle)
      → (notify event_read (some vt) m ≡ ok (due m, told m))
        × (notify event_read (some vt) (told m) ≡ ok ([], told m))
  notify_settles m =
      let (nobody, same) = second_round m in
      (first_round m, first_round (told m) ∙ rw (nobody, same) refl)
