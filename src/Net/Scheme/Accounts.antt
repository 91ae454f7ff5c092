-- ===== src/Net/Scheme/Accounts.antt =====
-- What `tick` of net/driver-network/src/lib.rs owes about the number of a request, counted.
use drivers.Base.{
  ℕ, ◌+◌, ◌≤◌, ◌≡◌, refl, Bool, true, false, not, ◌||◌, Option, some, List, [], ◌∷◌, ◌++◌, ◌==◌,
  if◌then◌else◌, arith, Option-cases, inl, inr,
}
use drivers.Base.Outcome.{Errno, eintr, eopnotsupp}
use drivers.Net.Scheme.{NetworkScheme}
use drivers.Net.Scheme.Tick.{
  Call, Request, call, send_fd, cancellation, Answer, answer, refusal, read_event, retry,
  take_blocked, serve, serve_all, notify,
}

-- The sum of the weights of a list's entries
unfoldable pub total : {B : Type 0} → (B → ℕ) → List B → ℕ
total w [] = 0
total w (x ∷ xs) = w x + total w xs

unfoldable pub is_eintr : Errno → Bool
is_eintr eintr = true
is_eintr e = false

pub is_eopnotsupp : Errno → Bool
is_eopnotsupp eopnotsupp = true
is_eopnotsupp e = false

pub is_other : Errno → Bool
is_other e = not (is_eintr e || is_eopnotsupp e)

-- Whether a request or a message is one about number `a`, as a number
module _ (a : ℕ) where
  abbrev pub one : ℕ → ℕ
  one id = if id == a then 1 else 0

  abbrev pub waits : {R : Type 0} → Call R → ℕ
  waits c = one c.request_id

  abbrev pub is_call : {R : Type 0} → Request R → ℕ
  is_call (call c) = one c.request_id
  is_call (send_fd id) = 0
  is_call (cancellation id) = 0

  abbrev pub is_send_fd : {R : Type 0} → Request R → ℕ
  is_send_fd (call c) = 0
  is_send_fd (send_fd id) = one id
  is_send_fd (cancellation id) = 0

  abbrev pub is_cancellation : {R : Type 0} → Request R → ℕ
  is_cancellation (call c) = 0
  is_cancellation (send_fd id) = 0
  is_cancellation (cancellation id) = one id

  abbrev pub is_reply : {P : Type 0} → Answer P → ℕ
  is_reply (answer id p) = one id
  is_reply (refusal id e) = 0
  is_reply (read_event k) = 0

  -- A refusal with an errno that passes the test
  abbrev pub is_refusal : {P : Type 0} → (Errno → Bool) → Answer P → ℕ
  is_refusal test (answer id p) = 0
  is_refusal test (refusal id e) = if test e then one id else 0
  is_refusal test (read_event k) = 0

pub total-append :
    {B : Type 0} (w : B → ℕ) (xs ys : List B) → total w (xs ++ ys) ≡ total w xs + total w ys
unfolding total
total-append w [] ys = omega arith
total-append w (x ∷ xs) ys = omega (arith, total-append w xs ys)

-- What is owed about number `a` where `calls` and `fds` come in besides the blocked calls, and
-- the number is cancelled `cancelled` times.
abbrev pub Accounts :
    {R P : Type 0} (a calls fds cancelled : ℕ) (blocked after : List (Call R))
    (sent : List (Answer P))
    → Type 0
Accounts a calls fds cancelled blocked after sent =
    (total (waits a) blocked + calls
      ≡ total (is_reply a) sent + total (is_refusal a is_eintr) sent + total (waits a) after)
    × (total (is_refusal a is_eintr) sent ≤ cancelled)
    × (total (is_refusal a is_eopnotsupp) sent ≡ fds)
    × (total (is_refusal a is_other) sent ≡ 0)

-- Two rounds one after the other
pub both_rounds :
    {R P : Type 0} (a c f x c' f' x' : ℕ) (before middle after : List (Call R))
    (sent more : List (Answer P))
    → Accounts a c f x before middle sent
    → Accounts a c' f' x' middle after more
    → Accounts a (c + c') (f + f') (x + x') before after (sent ++ more)
both_rounds a c f x c' f' x' before middle after sent more (kept, eintr_le, fds, others)
      (kept', eintr_le', fds', others') =
    let replies = total-append (is_reply a) sent more in
    let cancels = total-append (is_refusal a is_eintr) sent more in
    let refusals = total-append (is_refusal a is_eopnotsupp) sent more in
    let rest = total-append (is_refusal a is_other) sent more in
    (
      omega (arith, replies, cancels),
      omega (arith, cancels),
      omega (arith, refusals),
      omega (arith, rest),
    )

notify-Accounts :
    {R : Type 0} (P : Type 0) (a : ℕ) (blocked : List (Call R)) (ks : List ℕ)
    → Accounts {P = P} a 0 0 0 blocked blocked (notify ks)
unfolding total notify
notify-Accounts P a blocked [] = (omega arith, omega arith, refl, refl)
notify-Accounts P a blocked (k ∷ ks) =
    let (kept, le, fds, others) = notify-Accounts P a blocked ks in
    (omega arith, omega arith, omega arith, omega arith)

module _ {A R P : Type 0} (handle : R → NetworkScheme A → Option P × NetworkScheme A) (a : ℕ) where
  pub retry-Accounts :
      (blocked : List (Call R)) (s : NetworkScheme A)
      → Accounts a 0 0 0 blocked (retry handle blocked s).blocked (retry handle blocked s).sent
  unfolding total retry
  retry-Accounts [] s = (refl, omega arith, refl, refl)
  retry-Accounts (c ∷ cs) s =
      let (kept, le, fds, others) = retry-Accounts cs (handle c.body s).1 in
      elim (Option-cases (handle c.body s).0) [
        | inl blocks ↦ rw (blocks, retry) (omega arith, omega arith, omega arith, omega arith)
        | inr (p, replied) ↦
            rw (replied, retry) (omega arith, omega arith, omega arith, omega arith)
      ]

  pub take_blocked_conserves :
      (id : ℕ) (cs rest : List (Call R))
      → take_blocked handle id cs ≡ some rest
      → total (waits a) cs ≡ one a id + total (waits a) rest
  unfolding total take_blocked
  take_blocked_conserves id [] rest e = absurd (ground arith)
  take_blocked_conserves id (c ∷ cs) rest e = elim (Option-cases (take_blocked handle id cs)) [
    | inl no_call ↦ ground (arith, no_call)
    | inr (r, found) ↦ ground (arith, found, take_blocked_conserves id cs r found)
  ]

  serve-Accounts :
      (r : Request R) (s : NetworkScheme A) (blocked : List (Call R))
      → let after = serve handle r s blocked in
        Accounts a
          (is_call a r)
          (is_send_fd a r)
          (is_cancellation a r)
          blocked
          after.blocked
          after.sent
  unfolding total is_eintr is_eopnotsupp is_other serve
  serve-Accounts (call c) s blocked = elim (Option-cases (handle c.body s).0) [
    | inl blocks ↦
        rw (blocks, serve)
          (omega (arith, total-append (waits a) blocked (c ∷ [])), omega arith, refl, refl)
    | inr (p, replied) ↦ rw (replied, serve) (omega arith, omega arith, refl, refl)
  ]
  serve-Accounts (send_fd id) s blocked = (omega arith, omega arith, omega arith, refl)
  serve-Accounts (cancellation id) s blocked =
      elim (Option-cases (take_blocked handle id blocked)) [
        | inl no_call ↦ rw (no_call, serve) (omega arith, omega arith, refl, refl)
        | inr (rest, found) ↦
            rw (found, serve)
              (omega (arith, take_blocked_conserves id blocked rest found), omega arith, refl, refl)
      ]

  pub serve_all-Accounts :
      (rs : List (Request R)) (s : NetworkScheme A) (blocked : List (Call R))
      → let after = serve_all handle rs s blocked in
        Accounts a
          (total (is_call a) rs)
          (total (is_send_fd a) rs)
          (total (is_cancellation a) rs)
          blocked
          after.blocked
          after.sent
  unfolding total serve_all
  serve_all-Accounts [] s blocked = (omega arith, omega arith, refl, refl)
  serve_all-Accounts (r ∷ rs) s blocked =
      let first = serve handle r s blocked in
      let rest = serve_all handle rs first.scheme first.blocked in
      both_rounds a (is_call a r) (is_send_fd a r) (is_cancellation a r) (total (is_call a) rs)
        (total (is_send_fd a) rs) (total (is_cancellation a) rs) blocked first.blocked rest.blocked
        first.sent rest.sent (serve-Accounts r s blocked)
        (serve_all-Accounts rs first.scheme first.blocked)

  pub told-Accounts :
      (some_packet : Bool) (blocked : List (Call R)) (ks : List ℕ)
      → Accounts {P = P} a 0 0 0 blocked blocked (if some_packet then notify ks else [])
  unfolding notify
  told-Accounts true blocked ks = notify-Accounts P a blocked ks
  told-Accounts false blocked ks = notify-Accounts P a blocked []
