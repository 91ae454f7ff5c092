-- ===== src/Net/Tests.antt =====
-- The network scheme's theorems at concrete inputs.
use drivers.Base.{
  ℕ, ◌<◌, ◌≤◌, min, ◌+◌, ◌≡◌, refl, Option, none, some, List, [], ◌∷◌, ◌==◌, if◌then◌else◌, length,
  arith,
}
use drivers.Base.Outcome.{ok, panicked}
use drivers.Base.Map.{lookup}
use drivers.Net.Scheme.{mac, NetworkAdapter, Constants, NetworkScheme, Stat, new_scheme}
use drivers.Net.Scheme.Handles.{IsValid}
use drivers.Net.Scheme.Tick.{
  Call, call, send_fd, cancellation, Request, tick, retry, serve_all, serve, notify,
}
use drivers.Net.Scheme.Accounts.{
  total, is_eintr, is_eopnotsupp, is_other, waits, is_call, is_send_fd, is_cancellation, is_reply,
  is_refusal,
}
use drivers.Net.Scheme.Delivery.{tick_conserves}

-- An adapter whose state is the number of packets that wait
abbrev adapter : NetworkAdapter ℕ
adapter = record {
  mac_address = λ a. (2 ∷ 0 ∷ 0 ∷ 0 ∷ 0 ∷ 1 ∷ [], a);
  available_for_read = λ a. (a, a);
  read_packet = λ buf a. (ok none, buf, a);
  write_packet = λ buf a. (ok (length buf), a + 1);
}

abbrev consts : Constants
consts = record { o_nonblock = 0x40000; mode_file = 0x8000 }

abbrev name : List ℕ
name = b'n' ∷ b'e' ∷ b't' ∷ b'w' ∷ b'o' ∷ b'r' ∷ b'k' ∷ b'.' ∷ b'e' ∷ []

abbrev fresh : NetworkScheme ℕ
fresh = record { adapter = 1; scheme_name = name; next_id = 0; handles = [] }

new_network : new_scheme 1 name ≡ ok fresh
unfolding new_scheme
new_network = refl

not_network : new_scheme {A = ℕ} 1 (b'e' ∷ b't' ∷ b'h' ∷ []) ≡ panicked
unfolding new_scheme
not_network = refl

-- The scheme with its MAC file open under number 1
abbrev with_mac : NetworkScheme ℕ
with_mac = record { adapter = 1; scheme_name = name; next_id = 1; handles = (1, mac) ∷ [] }

mac_open : lookup 1 with_mac.handles ≡ some mac
unfolding lookup
mac_open = refl

mac_alone : (k : ℕ) → 1 < k → lookup k with_mac.handles ≡ none
unfolding lookup
mac_alone k h = ground arith

with_mac-IsValid : IsValid with_mac
with_mac-IsValid = record { ordered = tt; used = mac_alone }

abbrev stat : Stat
stat = record { st_mode = 0; st_size = 0 }

-- A call blocks while nothing waits; the number of the call is its body's.
abbrev handle : ℕ → NetworkScheme ℕ → Option ℕ × NetworkScheme ℕ
handle r s = (if r == 0 then none else some r, s)

abbrev blocked : List (Call ℕ)
blocked = record { request_id = 4; body = 0 } ∷ record { request_id = 5; body = 1 } ∷ []

abbrev requests : List (Request ℕ)
requests = call (record { request_id = 6; body = 0 }) ∷ cancellation 4 ∷ send_fd 7 ∷ []

tick_conserves_example :
    let after = tick handle adapter.available_for_read requests with_mac blocked in
    (total (waits 4) blocked + total (is_call 4) requests
      ≡ total (is_reply 4) after.sent
        + total (is_refusal 4 is_eintr) after.sent
        + total (waits 4) after.blocked)
    × (total (is_refusal 4 is_eintr) after.sent ≤ total (is_cancellation 4) requests)
    × (min (total (is_cancellation 4) requests) (total (waits 4) blocked)
        ≤ total (is_refusal 4 is_eintr) after.sent + total (is_reply 4) after.sent)
    × (total (is_refusal 4 is_eopnotsupp) after.sent ≡ total (is_send_fd 4) requests)
    × (total (is_refusal 4 is_other) after.sent ≡ 0)
tick_conserves_example =
    tick_conserves handle adapter.available_for_read requests with_mac blocked 4

-- The cancelled call is refused once.
cancelled_once :
    total
      (is_refusal 4 is_eintr)
      (tick handle adapter.available_for_read requests with_mac blocked).sent
    ≡ 1
unfolding total is_eintr tick retry serve_all serve notify
cancelled_once = refl
