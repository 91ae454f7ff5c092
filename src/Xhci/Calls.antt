-- ===== src/Xhci/Calls.antt =====
-- How a call of xhcid's scheme ends, and calls that change a state one after the other.
use drivers.Base.{Option, none, some}
use drivers.Base.Outcome as O
use drivers.Base.Outcome.{Errno, Outcome}

-- `hangs` if a loop runs out of the turns that it is given.
pub data Result (A : Type 0) : Type 0 where
  ok : A → Result A
  err : Errno → Result A
  panicked hangs : Result A

abbrev pub lift : {A : Type 0} → Outcome A → Result A
lift (O.ok a) = ok a
lift (O.err e) = err e
lift O.panicked = panicked

abbrev pub turns : {A : Type 0} → Option (Outcome A) → Result A
turns none = hangs
turns (some o) = lift o

abbrev pub then_ : {A B : Type 0} → Result A → (A → Result B) → Result B
then_ (ok a) f = f a
then_ (err e) f = err e
then_ panicked f = panicked
then_ hangs f = hangs

abbrev pub Call : Type 0 → Type 0 → Type 0
Call S A = S → Result A × S

abbrev pub after : {A B S : Type 0} → Result A × S → (A → Call S B) → Result B × S
after (ok a, s) f = f a s
after (err e, s) f = (err e, s)
after (panicked, s) f = (panicked, s)
after (hangs, s) f = (hangs, s)

infixl 5 ◌>>=◌
abbrev pub ◌>>=◌ : {A B S : Type 0} → Call S A → (A → Call S B) → Call S B
(call >>= f) s = after (call s) f

abbrev pub give : {A S : Type 0} → Result A → Call S A
give r s = (r, s)

abbrev pub get : {S : Type 0} → Call S S
get s = (ok s, s)

abbrev pub modify : {S : Type 0} → (S → S) → Call S (Unit {0})
modify f s = (ok tt, f s)

-- `o.ok_or(Error::new(e))?`
abbrev pub demand : {A S : Type 0} → Errno → Option A → Call S A
demand e none s = (err e, s)
demand e (some a) s = (ok a, s)
