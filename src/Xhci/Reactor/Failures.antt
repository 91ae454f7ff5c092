-- ===== src/Xhci/Reactor/Failures.antt =====
-- What happens to the transfers that wait when an event with no pointer comes in.
use drivers.Base.{◌≡◌, refl, Bool, true, some, none, List, [], ◌∷◌, if◌then◌else◌, arith}
use drivers.Base.Outcome.{ok, panicked}
use drivers.Xhci.Trb.{Trb}
use drivers.Xhci.Reactor.{State, Finish, finish, acknowledge_failed}

-- The states that stay, and the calls of `finish` for the others, in their order
abbrev pub regular : List State → List State
regular [] = []
regular (s ∷ rest) = if s.is_isoch_or_vf then regular rest else s ∷ regular rest

abbrev pub isochronous : Trb → List State → List Finish
isochronous trb [] = []
isochronous trb (s ∷ rest) =
    if s.is_isoch_or_vf
    then finish s (some (record { event_trb = trb; src_trb = none })) ∷ isochronous trb rest
    else isochronous trb rest

abbrev pub ends_isochronous : List State → Bool
ends_isochronous [] = true
ends_isochronous (s ∷ []) = s.is_isoch_or_vf
ends_isochronous (s ∷ t ∷ rest) = ends_isochronous (t ∷ rest)

-- acknowledge_failed_transfer_trbs wakes every isochronous state, each with the event, and keeps
-- all others in their order, if the last state of the list is a regular one; if it is isochronous,
-- or there is none, the reactor panics on an index past the end.
pub acknowledge_failed_lem :
    (trb : Trb) (states : List State)
    → acknowledge_failed trb states
      ≡ (if ends_isochronous states then panicked else ok (regular states, isochronous trb states))
unfolding acknowledge_failed
acknowledge_failed_lem trb [] = refl
acknowledge_failed_lem trb (s ∷ []) = ground arith
acknowledge_failed_lem trb (s ∷ t ∷ rest) = ground (arith, acknowledge_failed_lem trb (t ∷ rest))
