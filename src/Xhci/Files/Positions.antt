-- ===== src/Xhci/Files/Positions.antt =====
-- xhcid/src/xhci/scheme.rs: `seek`, `read` and `write` of the scheme.
use drivers.Base.{
  ℕ, suc, ◌+◌, ◌-◌, ◌^◌, min, max, ◌||◌, Option, none, some, List, ltb, ◌==◌, if◌then◌else◌, length,
  get_elem?, take,
}
use drivers.Base.Integer.{ℤ, pos, negsuc}
use drivers.Base.Map.{lookup, insert}
use drivers.Base.Outcome.{Outcome, ebadf, einval, espipe}
use drivers.Base.Text.{codes}
use drivers.Xhci.Calls.{Result, ok, err, panicked, hangs, Call, ◌>>=◌, give, get, demand}
use drivers.Xhci.Control.{Xhci, Await, read_port}
use drivers.Xhci.Endpoints.{CtlReq, CtlRes}
use drivers.Xhci.Endpoints.Pipes.{
  on_write_endp_ctl, on_read_endp_ctl, on_write_endp_data, on_read_endp_data,
}
use drivers.Xhci.Handles.{
  PortReq, data_, ctl, root, Handle, top_level, port, port_desc, endpoints, port_state, port_req,
  endpoint, configure_endpoints, Scheme, below,
}
use drivers.Xhci.Requests.{write_request, read_request}
use drivers.Xhci.Files.{with_handles}

-- The handles with fixed contents: the offset and the contents
abbrev pub fixed : Handle → Option (ℕ × List ℕ)
fixed (top_level offset contents) = some (offset, contents)
fixed (port n offset contents) = some (offset, contents)
fixed (port_desc n offset contents) = some (offset, contents)
fixed (endpoints n offset contents) = some (offset, contents)
fixed (endpoint n m (root offset contents)) = some (offset, contents)
fixed (endpoint n m data_) = none
fixed (endpoint n m ctl) = none
fixed (port_state n offset) = none
fixed (port_req n st) = none
fixed (configure_endpoints n) = none

-- `*offset = new`
abbrev pub put_offset : ℕ → Handle → Handle
put_offset new (top_level offset contents) = top_level new contents
put_offset new (port n offset contents) = port n new contents
put_offset new (port_desc n offset contents) = port_desc n new contents
put_offset new (endpoints n offset contents) = endpoints n new contents
put_offset new (endpoint n m (root offset contents)) = endpoint n m (root new contents)
put_offset new (endpoint n m data_) = endpoint n m data_
put_offset new (endpoint n m ctl) = endpoint n m ctl
put_offset new (port_state n offset) = port_state n new
put_offset new (port_req n st) = port_req n st
put_offset new (configure_endpoints n) = configure_endpoints n

pub data Whence : Type 0 where
  seek_set seek_cur seek_end : Whence
  unknown_whence : ℕ → Whence

-- `base + pos` in 64 bits with a sign, held between 0 and `most`
abbrev pub held : (base : ℕ) → ℤ → (most : ℕ) → ℕ
held base (pos n) most = if ltb (base + n) (2 ^ 63) then min (base + n) most else 0
held base (negsuc n) most = min (base - suc n) most

abbrev pub as_usize : ℤ → ℕ
as_usize (pos n) = n
as_usize (negsuc n) = 2 ^ 64 - suc n

unfoldable pub sought : (offset : ℕ) → List ℕ → ℤ → Whence → Result ℕ
sought offset contents p seek_set = ok (held 0 p (length contents))
sought offset contents p seek_cur = ok (held offset p (length contents))
sought offset contents p seek_end = ok (held (length contents) p (length contents))
sought offset contents p (unknown_whence w) = err einval

unfoldable pub sought_state : ℤ → Whence → Result ℕ
sought_state p seek_set = ok (as_usize p)
sought_state p seek_cur = ok (as_usize p)
sought_state p seek_end = ok (as_usize p)
sought_state p (unknown_whence w) = err einval

abbrev pub move_to : {X : Type 0} → (fd : ℕ) → Handle → Result ℕ → Call (Scheme X) ℕ
move_to fd h (ok offset) s = (ok offset, with_handles s (insert fd (put_offset offset h) s.handles))
move_to fd h (err e) s = (err e, s)
move_to fd h panicked s = (panicked, s)
move_to fd h hangs s = (hangs, s)

unfoldable pub seek : {X : Type 0} → (fd : ℕ) → ℤ → Whence → Call (Scheme X) ℕ
seek fd p whence s = elim (lookup fd s.handles) [
  | none ↦ (err ebadf, s)
  | some h ↦ elim (fixed h) [
    | some (offset, contents) ↦ move_to fd h (sought offset contents p whence) s
    | none ↦ elim h [
      | port_state n offset ↦ move_to fd (port_state n offset) (sought_state p whence) s
      | _ ↦ (err espipe, s)
    ]
  ]
]

-- A read of fixed contents, and `write_dyn_string`: how many bytes are copied
unfoldable pub bytes_to_read : (offset src_len buf_len : ℕ) → ℕ
bytes_to_read offset src_len buf_len = max (min src_len buf_len) offset - offset

-- The count, and what is written over the front of the buffer
unfoldable pub read_fixed :
    {X : Type 0}
    → (fd : ℕ) → Handle
    → (offset : ℕ) → (contents : List ℕ) → (buf_len : ℕ) → Call (Scheme X) (ℕ × List ℕ)
unfolding bytes_to_read
read_fixed fd h offset contents buf_len s =
    let n = bytes_to_read offset (length contents) buf_len in
    if ltb buf_len n || ltb (length contents) n
    then (panicked, s)
    else (ok (n, take n contents), with_handles s (insert fd (put_offset (offset + n) h) s.handles))

-- `PortState::as_str`, or "unknown"
unfoldable pub state_name : ℕ → List ℕ
state_name state =
    if state == 0
    then codes "enabled_or_disabled"
    else if state == 1
    then codes "default"
    else if state == 2
    then codes "addressed"
    else if state == 3
    then codes "configured"
    else codes "unknown"

module _ {X : Type 0} (await : Await X) (alloc : ℕ → Outcome ℕ)
    (parse_req : List ℕ → Option PortReq) (parse_ctl : List ℕ → Option CtlReq)
    (print_ctl : CtlRes → List ℕ)
    (configure : (port_num : ℕ) → List ℕ → Call (Xhci X) (Unit {0})) where
  unfoldable pub read_handle : (fd : ℕ) → Handle → List ℕ → Call (Scheme X) (ℕ × List ℕ)
  unfolding read_fixed state_name
  read_handle fd (top_level offset contents) buf =
      read_fixed fd (top_level offset contents) offset contents (length buf)
  read_handle fd (port n offset contents) buf =
      read_fixed fd (port n offset contents) offset contents (length buf)
  read_handle fd (port_desc n offset contents) buf =
      read_fixed fd (port_desc n offset contents) offset contents (length buf)
  read_handle fd (endpoints n offset contents) buf =
      read_fixed fd (endpoints n offset contents) offset contents (length buf)
  read_handle fd (endpoint n m (root offset contents)) buf =
      read_fixed fd (endpoint n m (root offset contents)) offset contents (length buf)
  read_handle fd (endpoint n m ctl) buf = below (on_read_endp_ctl print_ctl n m buf)
  read_handle fd (endpoint n m data_) buf = below (on_read_endp_data await alloc n m buf)
  read_handle fd (configure_endpoints n) buf = give (err ebadf)
  read_handle fd (port_state n offset) buf = do
    ps ← below (read_port ebadf n)
    s ← get
    context ← demand ebadf (get_elem? s.xhci.contexts ps.slot)
    read_fixed fd (port_state n offset) offset (state_name context.slot_state) (length buf)
  read_handle fd (port_req n st) buf = read_request await alloc parse_req fd n st buf

  -- `Scheme::read`: the count, and what is written over the front of the buffer
  unfoldable pub read : (fd : ℕ) → List ℕ → Call (Scheme X) (ℕ × List ℕ)
  read fd buf s = elim (lookup fd s.handles) [
    | none ↦ (err ebadf, s)
    | some h ↦ read_handle fd h buf s
  ]

  unfoldable pub write_handle : (fd : ℕ) → Handle → List ℕ → Call (Scheme X) ℕ
  write_handle fd (configure_endpoints n) buf = do
    _ ← below (configure n buf)
    give (ok (length buf))
  write_handle fd (endpoint n m ctl) buf = below (on_write_endp_ctl await parse_ctl n m buf)
  write_handle fd (endpoint n m data_) buf = below (on_write_endp_data await alloc n m buf)
  write_handle fd (endpoint n m (root offset contents)) buf = give (err ebadf)
  write_handle fd (port_req n st) buf = write_request await alloc parse_req fd n st buf
  write_handle fd (top_level offset contents) buf = give (err ebadf)
  write_handle fd (port n offset contents) buf = give (err ebadf)
  write_handle fd (port_desc n offset contents) buf = give (err ebadf)
  write_handle fd (endpoints n offset contents) buf = give (err ebadf)
  write_handle fd (port_state n offset) buf = give (err ebadf)

  -- `Scheme::write`
  unfoldable pub write : (fd : ℕ) → List ℕ → Call (Scheme X) ℕ
  write fd buf s = elim (lookup fd s.handles) [
    | none ↦ (err ebadf, s)
    | some h ↦ write_handle fd h buf s
  ]
