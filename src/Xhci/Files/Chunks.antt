-- ===== src/Xhci/Files/Chunks.antt =====
-- Reading a directory or a descriptor file in chunks.
use drivers.Base.{
  ℕ, ◌+◌, ◌-◌, ◌≡◌, refl, ◌∙◌, min, false, ◌||◌, Option, some, List, ltb, length, arith, take,
}
use drivers.Base.Map.{lookup, insert, lookup-insert_self}
use drivers.Base.Outcome.{Outcome}
use drivers.Xhci.Calls.{ok, Call}
use drivers.Xhci.Control.{Xhci, Await}
use drivers.Xhci.Endpoints.{CtlReq, CtlRes}
use drivers.Xhci.Handles.{
  PortReq, root, data_, ctl, Handle, top_level, port, port_desc, endpoints, port_state, port_req,
  endpoint, configure_endpoints, Scheme,
}
use drivers.Xhci.Files.{with_handles}
use drivers.Xhci.Files.Positions.{fixed, put_offset, bytes_to_read, read_fixed, read_handle, read}

-- The read of fixed contents never panics.
read_fixed_lem :
    {X : Type 0} (fd : ℕ) (h : Handle) (offset : ℕ) (contents : List ℕ) (len : ℕ) (s : Scheme X)
    → (let n = min (length contents) len - offset in
        read_fixed fd h offset contents len s ≡ (
          ok (n, take n contents),
          with_handles s (insert fd (put_offset (offset + n) h) s.handles),
        ))
unfolding read_fixed
read_fixed_lem fd h offset contents len s =
    let n = bytes_to_read offset (length contents) len in
    let e : n ≡ min (length contents) len - offset = unfold bytes_to_read in omega arith in
    let fits : ltb len n || ltb (length contents) n ≡ false = ground (arith, e) in
    rw (← e) (rw fits refl)

fixed-put_offset :
    (h : Handle) (offset new : ℕ) (contents : List ℕ)
    → fixed h ≡ some (offset, contents)
    → fixed (put_offset new h) ≡ some (new, contents)
fixed-put_offset (top_level o cs) offset new contents h = grind arith
fixed-put_offset (port n o cs) offset new contents h = grind arith
fixed-put_offset (port_desc n o cs) offset new contents h = grind arith
fixed-put_offset (endpoints n o cs) offset new contents h = grind arith
fixed-put_offset (endpoint n m (root o cs)) offset new contents h = grind arith
fixed-put_offset (endpoint n m data_) offset new contents h = cc
fixed-put_offset (endpoint n m ctl) offset new contents h = cc
fixed-put_offset (port_state n o) offset new contents h = cc
fixed-put_offset (port_req n st) offset new contents h = cc
fixed-put_offset (configure_endpoints n) offset new contents h = cc

module _ {X : Type 0} (await : Await X) (alloc : ℕ → Outcome ℕ)
    (parse_req : List ℕ → Option PortReq) (parse_ctl : List ℕ → Option CtlReq)
    (print_ctl : CtlRes → List ℕ)
    (configure : (port_num : ℕ) → List ℕ → Call (Xhci X) (Unit {0})) where
  read_handle-fixed :
      (fd : ℕ) (h : Handle) (offset : ℕ) (contents buf : List ℕ) (s : Scheme X)
      → fixed h ≡ some (offset, contents)
      → read_handle await alloc parse_req parse_ctl print_ctl configure fd h buf s
        ≡ read_fixed fd h offset contents (length buf) s
  unfolding read_handle
  read_handle-fixed fd (top_level o cs) offset contents buf s h = ground arith
  read_handle-fixed fd (port n o cs) offset contents buf s h = ground arith
  read_handle-fixed fd (port_desc n o cs) offset contents buf s h = ground arith
  read_handle-fixed fd (endpoints n o cs) offset contents buf s h = ground arith
  read_handle-fixed fd (endpoint n m (root o cs)) offset contents buf s h = ground arith
  read_handle-fixed fd (endpoint n m data_) offset contents buf s h = cc
  read_handle-fixed fd (endpoint n m ctl) offset contents buf s h = cc
  read_handle-fixed fd (port_state n o) offset contents buf s h = cc
  read_handle-fixed fd (port_req n st) offset contents buf s h = cc
  read_handle-fixed fd (configure_endpoints n) offset contents buf s h = cc

  read_lem :
      (fd : ℕ) (h : Handle) (offset n new : ℕ) (contents buf : List ℕ) (s : Scheme X)
      → lookup fd s.handles ≡ some h
      → fixed h ≡ some (offset, contents)
      → n ≡ min (length contents) (length buf) - offset
      → new ≡ offset + n
      → read await alloc parse_req parse_ctl print_ctl configure fd buf s
        ≡ (ok (n, take n contents), with_handles s (insert fd (put_offset new h) s.handles))
  unfolding read
  read_lem fd h offset n new contents buf s at is count moved =
      rw (read, at, moved, count)
        (read_handle-fixed fd h offset contents buf s is
          ∙ read_fixed_lem fd h offset contents (length buf) s)

  -- A directory or descriptor file that is read from the start: the first read gives as many bytes of
  -- the contents as fit. The next one gives the front of the contents again, by as many bytes as its
  -- buffer, or the contents if they are shorter, is longer than what the first gave, and none if it is
  -- not: what did not fit the first buffer is not read on.
  pub second_read :
      (fd : ℕ) (h : Handle) (contents buf again : List ℕ) (s : Scheme X)
      → lookup fd s.handles ≡ some h
      → fixed h ≡ some (0, contents)
      → (let n = min (length contents) (length buf) in
          let m = min (length contents) (length again) - n in
          (s1 : Scheme X) × (s2 : Scheme X) × (read await alloc parse_req parse_ctl print_ctl
              configure fd buf s
            ≡ (ok (n, take n contents), s1))
          × (read await alloc parse_req parse_ctl print_ctl configure fd again s1
              ≡ (ok (m, take m contents), s2)))
  second_read fd h contents buf again s at is =
      let n = min (length contents) (length buf) in
      let h1 = put_offset n h in
      let s1 = with_handles s (insert fd h1 s.handles) in
      let m = min (length contents) (length again) - n in
      (
        s1,
        _,
        read_lem fd h 0 n n contents buf s at is (omega arith) (omega arith),
        read_lem fd h1 n m (n + m) contents again s1 (lookup-insert_self fd h1 s.handles)
            (fixed-put_offset h 0 n contents is) refl refl,
      )
