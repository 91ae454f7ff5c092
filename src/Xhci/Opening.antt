-- ===== src/Xhci/Opening.antt =====
-- xhcid/src/xhci/scheme.rs: opening a path of the scheme. Which of the regular expressions a path
-- matches, and the JSON text of a device's descriptors, are parameters; whether a device is connected
-- to a port is read from the ports' registers.
use drivers.Base.{
  ℕ, suc, ◌+◌, ◌%◌, ◌^◌, Bool, not, ◌&&◌, ◌||◌, Option, none, some, List, [], ◌∷◌, ◌++◌, ◌==◌,
  if◌then◌else◌, get_elem?,
}
use drivers.Base.Decimal.{decimal}
use drivers.Base.Map.{Map, insert, contains_key}
use drivers.Base.Outcome.{eacces, eio, eisdir, enoent, enotdir}
use drivers.Xhci.Calls.{ok, err, panicked, Call, ◌>>=◌, give, get, modify, demand}
use drivers.Xhci.Ports.{DevDesc, EndpointState}
use drivers.Xhci.Control.{read_port}
use drivers.Xhci.Handles.{
  init, EndpointHandleTy, data_, ctl, root, Handle, top_level, port, port_desc, endpoints,
  port_state, port_req, endpoint, configure_endpoints, Scheme, below,
}
use drivers.Base.Text.{codes}

-- `O_DIRECTORY`, `O_STAT`, and whether the access mode is `O_WRONLY`
pub record Flags : Type 0 where
  pub directory : Bool
  pub stat : Bool
  pub write_only : Bool

-- The parameters that a path gives; `String` in the last field of `Endpoint` is one of three
pub data EndpointFile : Type 0 where
  root_file ctl_file data_file : EndpointFile

pub data SchemeParameters : Type 0 where
  top : SchemeParameters
  port_of port_desc_of port_state_of port_req_of endpoints_of configure_of : ℕ → SchemeParameters
  endpoint_of : (port_num endp_num : ℕ) → EndpointFile → SchemeParameters

-- `write!(contents, "{}\n", name)`
abbrev pub line : List ℕ → List ℕ
line name = name ++ 10 ∷ []

-- The ports with a device, by their indices from `index` on
unfoldable pub list_ports : (index : ℕ) → List Bool → List ℕ
list_ports index [] = []
list_ports index (connected ∷ rest) =
    (if connected then line (codes "port" ++ decimal index []) else [])
    ++ list_ports (suc index) rest

unfoldable pub open_handle_top_level : {X : Type 0} → List Bool → Flags → Call (Scheme X) Handle
unfolding list_ports
open_handle_top_level ports flags =
    if flags.directory || flags.stat
    then give (ok (top_level 0 (list_ports 0 ports)))
    else give (err eisdir)

-- Files that are no directories refuse `O_DIRECTORY`, but not with `O_STAT`.
abbrev pub no_directory : {X : Type 0} → Flags → Call (Scheme X) (Unit {0})
no_directory flags = if flags.directory && not flags.stat then give (err enotdir) else give (ok tt)

unfoldable pub open_handle_port_descriptors :
    {X : Type 0}
    → (print_desc : Option DevDesc → Option (List ℕ)) → ℕ
    → Flags
    → Call (Scheme X) Handle
open_handle_port_descriptors print_desc port_num flags = do
  _ ← no_directory flags
  ps ← below (read_port enoent port_num)
  contents ← demand eio (print_desc ps.dev_desc)
  give (ok (port_desc port_num 0 contents))

-- The slot's state is read from an array, whose index is checked; 3 is `Configured`.
unfoldable pub open_handle_port : {X : Type 0} → ℕ → Flags → Call (Scheme X) Handle
open_handle_port port_num flags =
    if flags.directory || flags.stat
    then (do
      ps ← below (read_port enoent port_num)
      s ← get
      elim (get_elem? s.xhci.contexts ps.slot) [
        | none ↦ give panicked
        | some context ↦ give (
            ok (
              port port_num 0 (
                line (codes "descriptors")
                ++ line (codes "endpoints")
                ++ (if context.slot_state == 3 then [] else line (codes "configure")))))
      ])
    else give (err eisdir)

unfoldable pub open_handle_port_state : {X : Type 0} → ℕ → Flags → Call (Scheme X) Handle
open_handle_port_state port_num flags = do _ ← no_directory flags; give (ok (port_state port_num 0))

unfoldable pub list_endpoints : Map EndpointState → List ℕ
list_endpoints [] = []
list_endpoints ((ep_num, s) ∷ rest) = line (decimal ep_num []) ++ list_endpoints rest

unfoldable pub open_handle_port_endpoints : {X : Type 0} → ℕ → Flags → Call (Scheme X) Handle
unfolding list_endpoints
open_handle_port_endpoints port_num flags =
    if not flags.directory && not flags.stat then give (err eisdir) else do
      ps ← below (read_port enoent port_num)
      give (ok (endpoints port_num 0 (list_endpoints ps.endpoint_states)))

unfoldable pub open_handle_endpoint_root :
    {X : Type 0} → (port_num endpoint_num : ℕ) → Flags → Call (Scheme X) Handle
open_handle_endpoint_root port_num endpoint_num flags =
    if not flags.directory && not flags.stat then give (err eisdir) else do
      ps ← below (read_port enoent port_num)
      if contains_key endpoint_num ps.endpoint_states
          then give (
              ok (
                endpoint port_num endpoint_num
                  (root 0 (line (codes "ctl") ++ line (codes "data")))))
          else give (err enoent)

abbrev pub open_pipe :
    {X : Type 0} → (port_num endpoint_num : ℕ) → EndpointHandleTy → Flags → Call (Scheme X) Handle
open_pipe port_num endpoint_num st flags =
    if flags.directory && not flags.stat then give (err eisdir) else do
      ps ← below (read_port enoent port_num)
      if contains_key endpoint_num ps.endpoint_states
          then give (ok (endpoint port_num endpoint_num st))
          else give (err enoent)

unfoldable pub open_handle_single_endpoint :
    {X : Type 0} → (port_num endpoint_num : ℕ) → EndpointFile → Flags → Call (Scheme X) Handle
unfolding open_handle_endpoint_root
open_handle_single_endpoint port_num endpoint_num root_file flags =
    open_handle_endpoint_root port_num endpoint_num flags
open_handle_single_endpoint port_num endpoint_num ctl_file flags =
    open_pipe port_num endpoint_num ctl flags
open_handle_single_endpoint port_num endpoint_num data_file flags =
    open_pipe port_num endpoint_num data_ flags

unfoldable pub open_handle_configure_endpoints : {X : Type 0} → ℕ → Flags → Call (Scheme X) Handle
open_handle_configure_endpoints port_num flags = do
  _ ← no_directory flags
  if not flags.write_only && not flags.stat
      then give (err eacces)
      else give (ok (configure_endpoints port_num))

unfoldable pub open_handle_port_request : {X : Type 0} → ℕ → Flags → Call (Scheme X) Handle
open_handle_port_request port_num flags = do
  _ ← no_directory flags
  give (ok (port_req port_num init))

module _ {X : Type 0} (from_scheme : List ℕ → Option SchemeParameters)
    (print_desc : Option DevDesc → Option (List ℕ)) (ports : List Bool) where
  unfoldable pub open_handle : SchemeParameters → Flags → Call (Scheme X) Handle
  unfolding open_handle_top_level open_handle_port_descriptors open_handle_port
      open_handle_port_state open_handle_port_endpoints open_handle_single_endpoint
      open_handle_configure_endpoints open_handle_port_request
  open_handle top flags = open_handle_top_level ports flags
  open_handle (port_of n) flags = open_handle_port n flags
  open_handle (port_desc_of n) flags = open_handle_port_descriptors print_desc n flags
  open_handle (port_state_of n) flags = open_handle_port_state n flags
  open_handle (port_req_of n) flags = open_handle_port_request n flags
  open_handle (endpoints_of n) flags = open_handle_port_endpoints n flags
  open_handle (endpoint_of n m file) flags = open_handle_single_endpoint n m file flags
  open_handle (configure_of n) flags = open_handle_configure_endpoints n flags

  -- `Scheme::open`; handle numbers are counted up and wrap.
  unfoldable pub open_path : (path : List ℕ) → Flags → (uid : ℕ) → Call (Scheme X) ℕ
  open_path path flags uid = if not (uid == 0) then give (err eacces) else do
    parameters ← demand enoent (from_scheme path)
    handle ← open_handle parameters flags
    s ← get
    _ ← modify (λ s. record s {
      handles = insert s.next_handle handle s.handles;
      next_handle = (s.next_handle + 1) % 2 ^ 64;
    })
    give (ok s.next_handle)
