-- ===== src/Xhci/Requests/Stuck.antt =====
-- What a refused call leaves of a request.
use drivers.Base.{
  ℕ, ◌≡◌, refl, ◌∙◌, ap, sym, ◌⊎◌, inl, inr, Option, some, List, length, arith, ==_iff,
}
use drivers.Base.Map.{lookup, insert, lookup-insert}
use drivers.Base.Outcome.{Errno, Outcome}
use drivers.Xhci.Calls.{Result, ok, err, panicked, hangs, Call, after, ◌>>=◌, give}
use drivers.Xhci.Control.{Await}
use drivers.Xhci.Handles.{
  PortReq, PortReqState, init, waiting_for_device_bytes, waiting_for_host_bytes, tmp_setup, tmp,
  port_req, Scheme,
}
use drivers.Xhci.Requests.{
  put_state, req_write_step, req_read_step, handle_port_req_write, handle_port_req_read,
  write_request, read_request,
}

module _ {X : Type 0} (await : Await X) (alloc : ℕ → Outcome ℕ)
    (parse_req : List ℕ → Option PortReq) where
  write_step_keeps :
      (p : ℕ) (st : PortReqState) (buf : List ℕ) (s : Scheme X)
      → (req_write_step await alloc parse_req p st buf s).1.handles ≡ s.handles
  unfolding req_write_step
  write_step_keeps p init buf s = ground arith
  write_step_keeps p (waiting_for_host_bytes b packet) buf s = ground arith
  write_step_keeps p (waiting_for_device_bytes b packet) buf s = refl
  write_step_keeps p (tmp_setup packet) buf s = refl
  write_step_keeps p tmp buf s = refl

  read_step_keeps :
      (p : ℕ) (st : PortReqState) (buf : List ℕ) (s : Scheme X)
      → (req_read_step await alloc parse_req p st buf s).1.handles ≡ s.handles
  unfolding req_read_step
  read_step_keeps p (waiting_for_device_bytes b packet) buf s = ground arith
  read_step_keeps p init buf s = refl
  read_step_keeps p (waiting_for_host_bytes b packet) buf s = refl
  read_step_keeps p (tmp_setup packet) buf s = refl
  read_step_keeps p tmp buf s = refl

abbrev pub with_state : {X : Type 0} → (fd p : ℕ) → PortReqState → Scheme X → Scheme X
with_state fd p st s = record {
  xhci = s.xhci;
  handles = insert fd (port_req p st) s.handles;
  next_handle = s.next_handle;
}

pub put_state_lem :
    {X : Type 0} (fd p : ℕ) (old st : PortReqState) (s : Scheme X)
    → lookup fd s.handles ≡ some (port_req p old)
    → put_state fd st s ≡ (ok tt, with_state fd p st s)
put_state_lem fd p old st s h = rw (put_state, h) refl

pub state-put :
    {X : Type 0} (fd p : ℕ) (st : PortReqState) (s : Scheme X)
    → lookup fd (with_state fd p st s).handles ≡ some (port_req p st)
state-put fd p st s =
    ground (arith, lookup-insert fd fd (port_req p st) s.handles, (==_iff fd fd).1 refl)

-- Where a call that ends in an error got it from
after-err :
    {A B S : Type 0} (r : Result A × S) (f : A → Call S B) (e : Errno) (s' : S)
    → after r f ≡ (err e, s')
    → ((a : A) × (r.0 ≡ ok a) × (f a r.1 ≡ (err e, s'))) ⊎ (r.1 ≡ s')
after-err (ok a, s) f e s' h = inl (a, refl, h)
after-err (err d, s) f e s' h = inr (ap (λ p. p.1) h)
after-err (panicked, s) f e s' h = cc
after-err (hangs, s) f e s' h = cc

-- Storing the state of an open request does not fail, so the error comes from what went before.
put-err :
    {X B : Type 0} (fd p : ℕ) (old st : PortReqState) (b : B) (s s' : Scheme X) (e : Errno)
    → lookup fd s.handles ≡ some (port_req p old)
    → after (put_state fd st s) (λ _. give (ok b)) ≡ (err e, s')
    → ⊥
put-err fd p old st b s s' e h k = let q = rw (put_state_lem fd p old st s h) at k in cc

module _ {X : Type 0} (await : Await X) (alloc : ℕ → Outcome ℕ)
    (parse_req : List ℕ → Option PortReq) where
  refused_write :
      (fd p : ℕ) (st : PortReqState) (buf : List ℕ) (s s' : Scheme X) (e : Errno)
      → lookup fd s.handles ≡ some (port_req p tmp)
      → handle_port_req_write await alloc parse_req fd p st buf s ≡ (err e, s')
      → s'.handles ≡ s.handles
  unfolding handle_port_req_write
  refused_write fd p st buf s s' e h r =
      let kept = write_step_keeps await alloc parse_req p st buf s in
      let step = req_write_step await alloc parse_req p st buf s in
      elim (after-err step (λ st'. put_state fd st' >>= λ _. give (ok (length buf))) e s' r) [
        | inl (st', _, k) ↦
            absurd (put-err fd p tmp st' (length buf) step.1 s' e (ap (lookup fd) kept ∙ h) k)
        | inr same ↦ ap (λ q. q.handles) (sym same) ∙ kept
      ]

  refused_read :
      (fd p : ℕ) (st : PortReqState) (buf : List ℕ) (s s' : Scheme X) (e : Errno)
      → lookup fd s.handles ≡ some (port_req p tmp)
      → handle_port_req_read await alloc parse_req fd p st buf s ≡ (err e, s')
      → s'.handles ≡ s.handles
  unfolding handle_port_req_read
  refused_read fd p st buf s s' e h r =
      let kept = read_step_keeps await alloc parse_req p st buf s in
      let step = req_read_step await alloc parse_req p st buf s in
      elim (after-err step (λ bytes. put_state fd init >>= λ _. give (ok (length buf, bytes))) e s'
        r) [
          | inl (bytes, _, k) ↦
              absurd
                (put-err fd p tmp init (length buf, bytes) step.1 s' e (ap (lookup fd) kept ∙ h) k)
          | inr same ↦ ap (λ q. q.handles) (sym same) ∙ kept
        ]

  pub write_request_lem :
      (fd p : ℕ) (st : PortReqState) (buf : List ℕ) (s : Scheme X)
      → lookup fd s.handles ≡ some (port_req p st)
      → write_request await alloc parse_req fd p st buf s
        ≡ handle_port_req_write await alloc parse_req fd p st buf (with_state fd p tmp s)
  unfolding write_request
  write_request_lem fd p st buf s h = rw (put_state_lem fd p st tmp s h) refl

  pub read_request_lem :
      (fd p : ℕ) (st : PortReqState) (buf : List ℕ) (s : Scheme X)
      → lookup fd s.handles ≡ some (port_req p st)
      → read_request await alloc parse_req fd p st buf s
        ≡ handle_port_req_read await alloc parse_req fd p st buf (with_state fd p tmp s)
  unfolding read_request
  read_request_lem fd p st buf s h = rw (put_state_lem fd p st tmp s h) refl

  tmp_panics :
      (fd p : ℕ) (buf : List ℕ) (s : Scheme X)
      → lookup fd s.handles ≡ some (port_req p tmp)
      → ((write_request await alloc parse_req fd p tmp buf s).0 ≡ panicked)
        × ((read_request await alloc parse_req fd p tmp buf s).0 ≡ panicked)
  unfolding handle_port_req_write handle_port_req_read req_write_step req_read_step
  tmp_panics fd p buf s h = (
    ap (λ r. r.0) (write_request_lem fd p tmp buf s h),
    ap (λ r. r.0) (read_request_lem fd p tmp buf s h),
  )

  -- A write or read of a request file that is refused, in whatever state the request is and whatever
  -- the reason, leaves the handle without its state: every later write or read on it panics.
  pub refused_request_sticks :
      (fd p : ℕ) (st : PortReqState) (buf : List ℕ) (s s' : Scheme X) (e : Errno)
      → lookup fd s.handles ≡ some (port_req p st)
      → (write_request await alloc parse_req fd p st buf s ≡ (err e, s'))
        ⊎ (read_request await alloc parse_req fd p st buf s ≡ (err e, s'))
      → (buf' : List ℕ)
      → (lookup fd s'.handles ≡ some (port_req p tmp))
        × ((write_request await alloc parse_req fd p tmp buf' s').0 ≡ panicked)
        × ((read_request await alloc parse_req fd p tmp buf' s').0 ≡ panicked)
  refused_request_sticks fd p st buf s s' e h (inl r) buf' =
      let there = state-put fd p tmp s in
      let call = sym (write_request_lem fd p st buf s h) ∙ r in
      let kept = refused_write fd p st buf (with_state fd p tmp s) s' e there call in
      let stuck = ap (lookup fd) kept ∙ there in
      (stuck, (tmp_panics fd p buf' s' stuck).0, (tmp_panics fd p buf' s' stuck).1)
  refused_request_sticks fd p st buf s s' e h (inr r) buf' =
      let there = state-put fd p tmp s in
      let call = sym (read_request_lem fd p st buf s h) ∙ r in
      let kept = refused_read fd p st buf (with_state fd p tmp s) s' e there call in
      let stuck = ap (lookup fd) kept ∙ there in
      (stuck, (tmp_panics fd p buf' s' stuck).0, (tmp_panics fd p buf' s' stuck).1)
