-- ===== src/Net/Scheme/Tick.antt =====
-- net/driver-network/src/lib.rs: `NetworkScheme::tick`. The dispatch of a call to its handler and
-- the socket are library code: `handle` runs a call on the state and either answers it or leaves it
-- blocked, and the requests come as a list that ends where the socket would block.
use drivers.Base.{ℕ, Option, none, some, List, [], ◌∷◌, ◌++◌, ltb, ◌==◌, if◌then◌else◌}
use drivers.Base.Outcome.{Errno, eopnotsupp, eintr}
use drivers.Net.Scheme.{NetworkScheme, Handle}
use drivers.Base.Map.{Map}

-- A call request with the number that a cancellation names it by.
pub record Call (R : Type 0) : Type 0 where
  pub request_id : ℕ
  pub body : R

pub data Request (R : Type 0) : Type 0 where
  call : Call R → Request R
  send_fd : ℕ → Request R
  cancellation : ℕ → Request R

-- What is written to the socket: the answer to a call, or an error for a request.
pub data Answer (P : Type 0) : Type 0 where
  answer : ℕ → P → Answer P
  refusal : ℕ → Errno → Answer P
  read_event : ℕ → Answer P

-- The state, the blocked calls and what was sent so far.
pub record Served (A R P : Type 0) : Type 0 where
  pub scheme : NetworkScheme A
  pub blocked : List (Call R)
  pub sent : List (Answer P)

module _ {A R P : Type 0} (handle : R → NetworkScheme A → Option P × NetworkScheme A) where
  -- The first loop: each blocked call is tried once, in order; an answered one is taken out.
  unfoldable pub retry : List (Call R) → NetworkScheme A → Served A R P
  retry [] s = record { scheme = s; blocked = []; sent = [] }
  retry (c ∷ cs) s =
      let (resp, s') = handle c.body s in
      let rest = retry cs s' in
      elim resp [
        | some p ↦ record {
          scheme = rest.scheme;
          blocked = rest.blocked;
          sent = answer c.request_id p ∷ rest.sent;
        }
        | none ↦ record { scheme = rest.scheme; blocked = c ∷ rest.blocked; sent = rest.sent }
      ]

  -- `iter().position(..)` and `remove`: the first blocked call of that number is taken out.
  unfoldable pub take_blocked : ℕ → List (Call R) → Option (List (Call R))
  take_blocked id [] = none
  take_blocked id (c ∷ cs) =
      let rest = take_blocked id cs in
      if c.request_id == id
      then some cs
      else elim rest [ none ↦ none | some rest' ↦ some (c ∷ rest') ]

  -- One request of the second loop.
  unfoldable pub serve : Request R → NetworkScheme A → List (Call R) → Served A R P
  unfolding take_blocked
  serve (call c) s blocked =
      let (resp, s') = handle c.body s in
      elim resp [
        | some p ↦ record { scheme = s'; blocked = blocked; sent = answer c.request_id p ∷ [] }
        | none ↦ record { scheme = s'; blocked = blocked ++ (c ∷ []); sent = [] }
      ]
  serve (send_fd id) s blocked = record {
    scheme = s;
    blocked = blocked;
    sent = refusal id eopnotsupp ∷ [];
  }
  serve (cancellation id) s blocked = elim (take_blocked id blocked) [
    | none ↦ record { scheme = s; blocked = blocked; sent = [] }
    | some rest ↦ record { scheme = s; blocked = rest; sent = refusal id eintr ∷ [] }
  ]

  unfoldable pub serve_all : List (Request R) → NetworkScheme A → List (Call R) → Served A R P
  serve_all [] s blocked = record { scheme = s; blocked = blocked; sent = [] }
  serve_all (r ∷ rs) s blocked =
      let first = serve r s blocked in
      let rest = serve_all rs first.scheme first.blocked in
      record { scheme = rest.scheme; blocked = rest.blocked; sent = first.sent ++ rest.sent }

unfoldable pub keys : Map Handle → List ℕ
keys [] = []
keys ((k, h) ∷ m) = k ∷ keys m

unfoldable pub notify : {P : Type 0} → List ℕ → List (Answer P)
notify [] = []
notify (k ∷ ks) = read_event k ∷ notify ks

-- The whole of `tick`: blocked calls, new requests, and a read event for every handle if the
-- adapter has a packet to read. Every write to the socket succeeds.
unfoldable pub tick :
    {A R P : Type 0}
    → (R → NetworkScheme A → Option P × NetworkScheme A)
    → (A → ℕ × A)
    → List (Request R)
    → NetworkScheme A
    → List (Call R)
    → Served A R P
unfolding keys notify
tick handle available_for_read requests s blocked =
    let first = retry handle blocked s in
    let second = serve_all handle requests first.scheme first.blocked in
    let (available, a) = available_for_read second.scheme.adapter in
    let last = record second.scheme { adapter = a } in
    record {
      scheme = last;
      blocked = second.blocked;
      sent =
          first.sent
          ++ (second.sent ++ (if ltb 0 available then notify (keys last.handles) else []));
    }
