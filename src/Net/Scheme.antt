-- ===== src/Net/Scheme.antt =====
-- net/driver-network/src/lib.rs: the scheme of a network driver. The adapter is a parameter, and so
-- are the constants of the system call interface.
pub mod Names
pub mod Handles
pub mod Tick
pub mod Accounts
pub mod Delivery
use drivers.Base.{
  ℕ, suc, ◌+◌, ◌<◌, min, Bool, true, false, not, Option, none, some, List, [], ◌∷◌, ◌++◌, bit_or,
  bit_and, ltb, ◌&&◌, ◌==◌, if◌then◌else◌, length, take, drop, set,
}
use drivers.Base.Outcome.{
  Outcome, Errno, ok, err, panicked, eacces, ebadf, einval, ewouldblock, assert, ◌>>=◌,
}
use Prim.Native.String.{String}
use text.Mathlib.Text.{◌==◌ as str_eq}
use drivers.Base.Map.{Map, lookup, insert, remove}

-- `Handle::Data` is `raw`, as `data` is reserved.
pub data Handle : Type 0 where
  raw mac : Handle

-- `trait NetworkAdapter`. A packet read returns what it stored in the buffer.
pub record NetworkAdapter (A : Type 0) : Type 0 where
  pub mac_address : A → List ℕ × A
  pub available_for_read : A → ℕ × A
  pub read_packet : List ℕ → A → Outcome (Option ℕ) × List ℕ × A
  pub write_packet : List ℕ → A → Outcome ℕ × A

pub record Constants : Type 0 where
  pub o_nonblock : ℕ
  pub mode_file : ℕ

-- The state, without the queue of blocked calls, which only `tick` touches.
pub record NetworkScheme (A : Type 0) : Type 0 where
  pub adapter : A
  pub scheme_name : List ℕ
  pub next_id : ℕ
  pub handles : Map Handle

pub record Stat : Type 0 where
  pub st_mode : ℕ
  pub st_size : ℕ

-- A new descriptor; `positioned` is its `NewFdFlags::POSITIONED`.
pub record Opened : Type 0 where
  pub number : ℕ
  pub positioned : Bool

-- `starts_with`
unfoldable pub starts_with : List ℕ → List ℕ → Bool
starts_with [] name = true
starts_with (p ∷ ps) [] = false
starts_with (p ∷ ps) (x ∷ xs) = x == p && starts_with ps xs

-- "network"
abbrev network : List ℕ
network = b'n' ∷ b'e' ∷ b't' ∷ b'w' ∷ b'o' ∷ b'r' ∷ b'k' ∷ []

module _ {A : Type 0} where
  -- `NetworkScheme::new`, once the socket is open
  unfoldable pub new_scheme : A → List ℕ → Outcome (NetworkScheme A)
  unfolding starts_with
  new_scheme adapter name = do
    _ ← assert (starts_with network name)
    ok (record { adapter = adapter; scheme_name = name; next_id = 0; handles = [] })

  open_handle : NetworkScheme A → Handle → Bool → Outcome (Option Opened) × NetworkScheme A
  open_handle s handle positioned =
      let id = s.next_id + 1 in
      (
        ok (some (record { number = id; positioned = positioned })),
        record s { next_id = id; handles = insert id handle s.handles },
      )

  unfoldable pub xopen : String → ℕ → NetworkScheme A → Outcome (Option Opened) × NetworkScheme A
  unfolding open_handle
  xopen path uid s =
      if not (uid == 0)
      then (err eacces, s)
      else if str_eq path ""
      then open_handle s raw false
      else if str_eq path "mac"
      then open_handle s mac true
      else (err einval, s)

  -- `self.handles.get(&id).ok_or(Error::new(EBADF))?`, and then the rest of the handler
  abbrev with_handle {ℓ} :
      {B : Type ℓ}
      → ℕ
      → NetworkScheme A
      → (Handle → Outcome B × NetworkScheme A)
      → Outcome B × NetworkScheme A
  with_handle id s body = elim (lookup id s.handles) [ none ↦ (err ebadf, s) | some h ↦ body h ]

  unfoldable pub fevent : ℕ → NetworkScheme A → Outcome (Option ℕ) × NetworkScheme A
  fevent id s = with_handle id s (λ _. (ok (some 0), s))

  unfoldable pub fsync : ℕ → NetworkScheme A → Outcome (Option ℕ) × NetworkScheme A
  fsync id s = with_handle id s (λ _. (ok (some 0), s))

  unfoldable pub close : ℕ → NetworkScheme A → Outcome (Option ℕ) × NetworkScheme A
  close id s = with_handle id s (λ _. (ok (some 0), record s { handles = remove id s.handles }))

module _ {A : Type 0} (adapter : NetworkAdapter A) (consts : Constants) where
  -- A non-blocking caller is told so; any other call of `none` is kept and tried again.
  read_data : List ℕ → ℕ → NetworkScheme A → Outcome (Option ℕ) × List ℕ × NetworkScheme A
  read_data buf fcntl_flags s =
      let (r, buf', a) = adapter.read_packet buf s.adapter in
      let s' = record s { adapter = a } in
      elim r [
        | ok (some count) ↦ (ok (some count), buf', s')
        | ok none ↦ (
          if not (bit_and fcntl_flags consts.o_nonblock == 0) then err ewouldblock else ok none,
          buf',
          s',
        )
        | err e ↦ (err e, buf', s')
        | panicked ↦ (panicked, buf', s')
      ]

  -- The address from `offset` on; a slice that starts past its end panics.
  read_mac : List ℕ → ℕ → NetworkScheme A → Outcome (Option ℕ) × List ℕ × NetworkScheme A
  read_mac buf offset s =
      let (address, a) = adapter.mac_address s.adapter in
      let s' = record s { adapter = a } in
      let tail = drop offset address in
      let i = min (length buf) (length tail) in
      if ltb (length address) offset
      then (panicked, buf, s')
      else (ok (some i), take i tail ++ drop i buf, s')

  unfoldable pub read :
      ℕ → List ℕ → ℕ → ℕ → NetworkScheme A → Outcome (Option ℕ) × List ℕ × NetworkScheme A
  unfolding read_data read_mac
  read id buf offset fcntl_flags s = elim (lookup id s.handles) [
    | none ↦ (err ebadf, buf, s)
    | some raw ↦ read_data buf fcntl_flags s
    | some mac ↦ read_mac buf offset s
  ]

  unfoldable pub write : ℕ → List ℕ → NetworkScheme A → Outcome (Option ℕ) × NetworkScheme A
  write id buf s = elim (lookup id s.handles) [
    | none ↦ (err ebadf, s)
    | some mac ↦ (err einval, s)
    | some raw ↦
        let (r, a) = adapter.write_packet buf s.adapter in
        (r >>= λ n. ok (some n), record s { adapter = a })
  ]

  -- `st_size` is written for the MAC file only.
  unfoldable pub fstat : ℕ → Stat → NetworkScheme A → Outcome (Option ℕ) × Stat × NetworkScheme A
  fstat id stat s = elim (lookup id s.handles) [
    | none ↦ (err ebadf, stat, s)
    | some raw ↦ (ok (some 0), record stat { st_mode = bit_or consts.mode_file 0o700 }, s)
    | some mac ↦ (ok (some 0), record { st_mode = bit_or consts.mode_file 0o400; st_size = 6 }, s)
  ]

-- A `while i < buf.len() && j < src.len()` loop of `fpath`: the list is `src[j..]`.
unfoldable pub fill : List ℕ → ℕ → List ℕ → List ℕ × ℕ
fill buf i [] = (buf, i)
fill buf i (x ∷ xs) =
    let rest = fill (set buf i x) (i + 1) xs in if ltb i (length buf) then rest else (buf, i)

abbrev pub colon : ℕ
colon = b':'

abbrev pub path_of : Handle → List ℕ
path_of raw = []
path_of mac = b'm' ∷ b'a' ∷ b'c' ∷ []

abbrev pub put_colon : List ℕ → ℕ → List ℕ × ℕ
put_colon buf i = if ltb i (length buf) then (set buf i colon, i + 1) else (buf, i)

unfoldable pub fpath :
    {A : Type 0} → ℕ → List ℕ → NetworkScheme A → Outcome (Option ℕ) × List ℕ × NetworkScheme A
unfolding fill
fpath id buf s = elim (lookup id s.handles) [
  | none ↦ (err ebadf, buf, s)
  | some handle ↦
      let (named, i) = fill buf 0 s.scheme_name in
      let (marked, k) = put_colon named i in
      let (full, n) = fill marked k (path_of handle) in (ok (some n), full, s)
]
