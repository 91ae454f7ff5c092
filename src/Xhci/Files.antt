-- ===== src/Xhci/Files.antt =====
-- xhcid/src/xhci/scheme.rs: the other calls on the handles of the scheme. The configuration of a
-- device's endpoints is a parameter.
mod Tests
pub mod Positions
pub mod Chunks
use drivers.Base.{
  ℕ, ◌+◌, ◌-◌, ◌*◌, ◌%◌, ◌^◌, min, max, Bool, true, false, not, ◌&&◌, ◌||◌, Option, none, some,
  List, [], ◌∷◌, ◌++◌, ltb, leb, ◌==◌, if◌then◌else◌, length, get_elem?, take, drop,
}
use drivers.Base.Decimal.{decimal}
use drivers.Base.Integer.{ℤ, pos, negsuc, sub}
use drivers.Base.Map.{Map, lookup, insert, remove}
use drivers.Base.Outcome.{Outcome, ebadf, einval, espipe}
use drivers.Base.Text.{codes}
use drivers.Xhci.Calls.{
  Result, ok, err, panicked, hangs, Call, after, ◌>>=◌, give, get, modify, demand,
}
use drivers.Xhci.Control.{Xhci, Await, read_port}
use drivers.Xhci.Endpoints.{CtlReq, CtlRes}
use drivers.Xhci.Endpoints.Pipes.{
  on_write_endp_ctl, on_read_endp_ctl, on_write_endp_data, on_read_endp_data,
}
use drivers.Xhci.Handles.{
  PortReq, PortReqState, init, waiting_for_device_bytes, waiting_for_host_bytes, tmp_setup, tmp,
  EndpointHandleTy, data_, ctl, root, Handle, top_level, port, port_desc, endpoints, port_state,
  port_req, endpoint, configure_endpoints, Scheme, below,
}
use drivers.Xhci.Requests.{write_request, read_request}

abbrev pub port_path : ℕ → List ℕ → List ℕ
port_path n rest = codes "port" ++ decimal n rest

-- `Handle::to_scheme`
unfoldable pub to_scheme : Handle → List ℕ
to_scheme (top_level offset contents) = []
to_scheme (port n offset contents) = port_path n []
to_scheme (port_desc n offset contents) = port_path n (codes "/descriptors")
to_scheme (port_state n offset) = port_path n (codes "/state")
to_scheme (port_req n st) = port_path n (codes "/request")
to_scheme (endpoints n offset contents) = port_path n (codes "/endpoints")
to_scheme (endpoint n m data_) = port_path n (codes "/endpoints/" ++ decimal m (codes "/data"))
to_scheme (endpoint n m ctl) = port_path n (codes "/endpoints/" ++ decimal m (codes "/ctl"))
to_scheme (endpoint n m (root offset content)) = port_path n (codes "/endpoints/" ++ decimal m [])
to_scheme (configure_endpoints n) = port_path n (codes "/configure")

pub data HandleType : Type 0 where
  directory file character : HandleType

-- `unreachable!()` for a request whose state was taken
unfoldable pub get_handle_type : Handle → Result HandleType
get_handle_type (top_level offset contents) = ok directory
get_handle_type (port n offset contents) = ok directory
get_handle_type (endpoints n offset contents) = ok directory
get_handle_type (port_desc n offset contents) = ok file
get_handle_type (port_req n (waiting_for_device_bytes b packet)) = ok character
get_handle_type (port_req n (waiting_for_host_bytes b packet)) = ok character
get_handle_type (port_req n tmp) = panicked
get_handle_type (port_req n (tmp_setup packet)) = panicked
get_handle_type (port_req n init) = ok character
get_handle_type (port_state n offset) = ok character
get_handle_type (configure_endpoints n) = ok character
get_handle_type (endpoint n m data_) = ok character
get_handle_type (endpoint n m ctl) = ok character
get_handle_type (endpoint n m (root offset content)) = ok directory

unfoldable pub get_buf_len : Handle → Option ℕ
get_buf_len (top_level offset contents) = some (length contents)
get_buf_len (port n offset contents) = some (length contents)
get_buf_len (endpoints n offset contents) = some (length contents)
get_buf_len (port_desc n offset contents) = some (length contents)
get_buf_len (port_req n (waiting_for_device_bytes b packet)) = some (length b.bytes)
get_buf_len (port_req n (waiting_for_host_bytes b packet)) = some (length b.bytes)
get_buf_len (port_req n tmp) = none
get_buf_len (port_req n (tmp_setup packet)) = none
get_buf_len (port_req n init) = none
get_buf_len (port_state n offset) = none
get_buf_len (configure_endpoints n) = none
get_buf_len (endpoint n m data_) = none
get_buf_len (endpoint n m ctl) = none
get_buf_len (endpoint n m (root offset content)) = some (length content)

-- `st_mode`, as its type with whether the owner may write, and `st_size`
pub record Stat : Type 0 where
  pub mode : HandleType
  pub writable : Bool
  pub size : ℕ

abbrev pub is_configure : Handle → Bool
is_configure h = elim h [ configure_endpoints n ↦ true | _ ↦ false ]

unfoldable pub fstat : {X : Type 0} → (id : ℕ) → Stat → Call (Scheme X) Stat
unfolding get_handle_type get_buf_len
fstat id stat s = elim (lookup id s.handles) [
  | none ↦ (err ebadf, s)
  | some h ↦ elim (get_handle_type h) [
    | ok mode ↦ (
      ok (record {
        mode = mode;
        writable = is_configure h;
        size = elim (get_buf_len h) [ none ↦ stat.size | some size ↦ size ];
      }),
      s,
    )
    | err e ↦ (err e, s)
    | panicked ↦ (panicked, s)
    | hangs ↦ (hangs, s)
  ]
]

-- `fpath`: what is in the buffer, and the position of the buffer's end, which is returned. A path
-- that does not fit panics.
unfoldable pub fpath : {X : Type 0} → (fd : ℕ) → List ℕ → Call (Scheme X) (ℕ × List ℕ)
unfolding to_scheme
fpath fd buffer s = elim (lookup fd s.handles) [
  | none ↦ (err ebadf, s)
  | some h ↦
      if ltb (length buffer) (length (to_scheme h))
      then (panicked, s)
      else (ok (length buffer, to_scheme h ++ drop (length (to_scheme h)) buffer), s)
]

abbrev pub with_handles : {X : Type 0} → Scheme X → Map Handle → Scheme X
with_handles s handles = record { xhci = s.xhci; handles = handles; next_handle = s.next_handle }

unfoldable pub close : {X : Type 0} → (fd : ℕ) → Call (Scheme X) ℕ
close fd s = elim (lookup fd s.handles) [
  | none ↦ (err ebadf, s)
  | some h ↦ (ok 0, with_handles s (remove fd s.handles))
]
