-- ===== src/Net/Scheme/Handles.antt =====
-- The table of open handles.
use drivers.Base.{
  ℕ, ◌+◌, ◌<◌, ◌≡◌, ◌≢◌, ◌⊎◌, refl, ◌∙◌, Option, none, some, List, arith, ◌==◌, if◌then◌else◌, true,
  false,
}
use Prim.Native.String.{String}
use text.Mathlib.Text.{◌==◌ as str_eq}
use drivers.Base.Map.{
  lookup, insert, remove, IsOrdered, lookup-insert, lookup-remove, insert-IsOrdered,
  remove-IsOrdered,
}
use drivers.Base.Outcome.{ok, err, eacces, ebadf, einval}
use drivers.Net.Scheme.{
  NetworkScheme, NetworkAdapter, Constants, Handle, raw, mac, Opened, Stat, new_scheme, xopen, read,
  write, fevent, fpath, fstat, fsync, close,
}

-- The keys ascend, and none is above the last number given out.
pub record IsValid {A : Type 0} (s : NetworkScheme A) : Type 0 where
  pub ordered : IsOrdered s.handles
  pub used : (k : ℕ) → s.next_id < k → lookup k s.handles ≡ none

pub new-IsValid :
    {A : Type 0} (a : A) (name : List ℕ) (s : NetworkScheme A)
    → new_scheme a name ≡ ok s
    → IsValid s
unfolding new_scheme lookup
new-IsValid a name s e = record { ordered = ground arith; used = λ k h. ground arith }

-- The handle that a path stands for, and the answer to any other.
abbrev pub handle_for : String → Option Handle
handle_for path = if str_eq path "" then some raw else if str_eq path "mac" then some mac else none

-- What opening a known path as root does: a number that was never in the table, the handle of the
-- path under it, and no other handle changed. The table stays valid.
pub record Opens {A : Type 0} (path : String) (handle : Handle) (s : NetworkScheme A) : Type 0 where
  pub opened : Opened
  pub after : NetworkScheme A
  pub returns : xopen path 0 s ≡ (ok (some opened), after)
  pub unused : lookup opened.number s.handles ≡ none
  pub entered :
      (j : ℕ)
      → lookup j after.handles ≡ (if opened.number == j then some handle else lookup j s.handles)
  pub valid : IsValid after
  pub same_adapter : after.adapter ≡ s.adapter

-- Opening "" or "mac" as root gives a handle of that kind under a number that no handle had.
xopen-Opens :
    {A : Type 0} (path : String) (handle : Handle) (s : NetworkScheme A)
    → IsValid s
    → handle_for path ≡ some handle
    → Opens path handle s
unfolding xopen
xopen-Opens path handle s v known = record {
  opened = record { number = s.next_id + 1; positioned = elim handle [ raw ↦ false | mac ↦ true ] };
  after = record s { next_id = s.next_id + 1; handles = insert (s.next_id + 1) handle s.handles };
  returns = ground arith;
  unused = v.used (s.next_id + 1) (omega arith);
  entered = λ j. lookup-insert (s.next_id + 1) j handle s.handles;
  valid = record {
    ordered = insert-IsOrdered (s.next_id + 1) handle s.handles v.ordered;
    used = λ k h. lookup-insert (s.next_id + 1) k handle s.handles ∙ ground (arith, v.used k);
  };
  same_adapter = refl;
}

-- Everyone else is refused, and the table is left alone: another user by EACCES, whatever the
-- path, and root on another path by EINVAL.
pub xopen_refuses :
    {A : Type 0} (path : String) (uid : ℕ) (s : NetworkScheme A)
    → (uid ≢ 0) ⊎ (handle_for path ≡ none)
    → xopen path uid s ≡ (err (if uid == 0 then einval else eacces), s)
unfolding xopen
xopen_refuses path uid s h = ground arith

-- `close` of an open handle takes it out of the table and leaves the others, and the table valid.
pub close_removes :
    {A : Type 0} (id : ℕ) (s : NetworkScheme A) (handle : Handle)
    → IsValid s
    → lookup id s.handles ≡ some handle
    → (s' : NetworkScheme A) × (close id s ≡ (ok (some 0), s'))
      × ((j : ℕ) → lookup j s'.handles ≡ (if id == j then none else lookup j s.handles))
      × IsValid s'
unfolding close
close_removes id s handle v found = (
  record s { handles = remove id s.handles },
  ground arith,
  λ j. lookup-remove id j s.handles v.ordered,
  record {
    ordered = remove-IsOrdered id s.handles v.ordered;
    used = λ k h. lookup-remove id k s.handles v.ordered ∙ ground (arith, v.used k);
  },
)

-- Every handler refuses a number that is not open by EBADF: the state, the caller's buffer and
-- its stat record stay as they were, and the adapter is not called.
closed_refused :
    {A : Type 0} (adapter : NetworkAdapter A) (consts : Constants) (id offset flags : ℕ)
    (buf : List ℕ) (stat : Stat) (s : NetworkScheme A)
    → lookup id s.handles ≡ none
    → (read adapter consts id buf offset flags s ≡ (err ebadf, buf, s))
      × (write adapter consts id buf s ≡ (err ebadf, s))
      × (fevent id s ≡ (err ebadf, s))
      × (fpath id buf s ≡ (err ebadf, buf, s))
      × (fstat adapter consts id stat s ≡ (err ebadf, stat, s))
      × (fsync id s ≡ (err ebadf, s))
      × (close id s ≡ (err ebadf, s))
unfolding read write fevent fpath fstat fsync close
closed_refused adapter consts id offset flags buf stat s gone = (
  rw (gone, read),
  rw (gone, write),
  ground arith,
  rw (gone, fpath),
  rw (gone, fstat),
  ground arith,
  ground arith,
)
