-- ===== src/Net/Scheme/Delivery.antt =====
-- What `tick` of net/driver-network/src/lib.rs makes of the requests of a number.
use drivers.Base.{
  ℕ, ◌+◌, ◌≤◌, min, none, ◌⊎◌, ◌≡◌, refl, true, Option, List, [], ◌∷◌, ◌++◌, ◌==◌, if◌then◌else◌,
  arith, Option-cases, inl, inr, Bool-cases, ltb,
}
use drivers.Net.Scheme.{NetworkScheme}
use drivers.Net.Scheme.Tick.{
  Call, Request, call, send_fd, cancellation, retry, take_blocked, serve, serve_all, tick, keys,
  notify,
}
use drivers.Net.Scheme.Accounts.{
  total, is_eintr, is_eopnotsupp, is_other, waits, is_call, is_send_fd, is_cancellation, is_reply,
  is_refusal, total-append, both_rounds, retry-Accounts, take_blocked_conserves, serve_all-Accounts,
  told-Accounts,
}

module _ {A R P : Type 0} (handle : R → NetworkScheme A → Option P × NetworkScheme A) (a : ℕ) where
  take_blocked-none :
      (id : ℕ) (cs : List (Call R))
      → take_blocked handle id cs ≡ none
      → (id == a) ≡ true
      → total (waits a) cs ≡ 0
  unfolding total take_blocked
  take_blocked-none id [] e same = refl
  take_blocked-none id (c ∷ cs) e same = elim (Option-cases (take_blocked handle id cs)) [
    | inl no_call ↦ ground (arith, no_call, take_blocked-none id cs no_call same)
    | inr (rest, found) ↦ ground (arith, found)
  ]

  -- A cancellation of the number is refused, unless no call of that number is blocked.
  serve-cancels :
      (r : Request R) (s : NetworkScheme A) (blocked : List (Call R))
      → let after = serve handle r s blocked in
        let refused = total (is_refusal a is_eintr) after.sent in
        (total (waits a) blocked ≤ total (waits a) after.blocked + refused)
        × ((is_cancellation a r ≤ refused) ⊎ (total (waits a) blocked ≡ 0))
  unfolding total is_eintr serve
  serve-cancels (call c) s blocked = elim (Option-cases (handle c.body s).0) [
    | inl blocks ↦
        rw (blocks, serve)
          (omega (arith, total-append (waits a) blocked (c ∷ [])), inl (omega arith))
    | inr (p, replied) ↦ rw (replied, serve) (omega arith, inl (omega arith))
  ]
  serve-cancels (send_fd id) s blocked = (omega arith, inl (omega arith))
  serve-cancels (cancellation id) s blocked = elim (Option-cases (take_blocked handle id blocked)) [
    | inl no_call ↦
        rw (no_call, serve)
          (
            omega arith,
            elim (Bool-cases (id == a)) [
              | inl same ↦ inr (take_blocked-none id blocked no_call same)
              | inr other ↦ inl (rw other (omega arith))
            ],
          )
    | inr (rest, found) ↦
        rw (found, serve)
          (omega (arith, take_blocked_conserves handle a id blocked rest found), inl (omega arith))
  ]

  serve_all-cancels :
      (rs : List (Request R)) (s : NetworkScheme A) (blocked : List (Call R))
      → min (total (is_cancellation a) rs) (total (waits a) blocked)
        ≤ total (is_refusal a is_eintr) (serve_all handle rs s blocked).sent
  unfolding total serve_all
  serve_all-cancels [] s blocked = omega arith
  serve_all-cancels (r ∷ rs) s blocked =
      let first = serve handle r s blocked in
      let rest = serve_all handle rs first.scheme first.blocked in
      let (kept, refused) = serve-cancels r s blocked in
      let more = serve_all-cancels rs first.scheme first.blocked in
      let sum = total-append (is_refusal a is_eintr) first.sent rest.sent in
      elim refused [ inl some_call ↦ omega arith | inr no_call ↦ omega arith ]

-- What `tick` does about the number of a request: the calls blocked before it and those that come
-- in are, as often as the number occurs, sent a reply, refused with EINTR, or still blocked. It is
-- refused with EINTR no more often than it is cancelled; as many of the calls blocked before as it
-- is cancelled, or all of them if they are fewer, are refused so or sent a reply. It is refused
-- with EOPNOTSUPP as often as it asks to send a descriptor, and with no other errno.
pub tick_conserves :
    {A R P : Type 0} (handle : R → NetworkScheme A → Option P × NetworkScheme A)
    (available : A → ℕ × A) (requests : List (Request R)) (s : NetworkScheme A)
    (blocked : List (Call R)) (a : ℕ)
    → let after = tick handle available requests s blocked in
      (total (waits a) blocked + total (is_call a) requests
        ≡ total (is_reply a) after.sent
          + total (is_refusal a is_eintr) after.sent
          + total (waits a) after.blocked)
      × (total (is_refusal a is_eintr) after.sent ≤ total (is_cancellation a) requests)
      × (min (total (is_cancellation a) requests) (total (waits a) blocked)
          ≤ total (is_refusal a is_eintr) after.sent + total (is_reply a) after.sent)
      × (total (is_refusal a is_eopnotsupp) after.sent ≡ total (is_send_fd a) requests)
      × (total (is_refusal a is_other) after.sent ≡ 0)
unfolding tick
tick_conserves {P = P} handle available requests s blocked a =
    let first = retry handle blocked s in
    let calls = total (is_call a) requests in
    let fds = total (is_send_fd a) requests in
    let cancelled = total (is_cancellation a) requests in
    let second = serve_all handle requests first.scheme first.blocked in
    let some_packet = ltb 0 (available second.scheme.adapter).0 in
    let open_handles = keys second.scheme.handles in
    let told = if some_packet then notify open_handles else [] in
    let rest =
      both_rounds a calls fds cancelled 0 0 0 first.blocked second.blocked second.blocked
        second.sent told (serve_all-Accounts handle a requests first.scheme first.blocked)
        (told-Accounts handle a some_packet second.blocked open_handles) in
    let (kept, le, refused, others) =
      both_rounds a 0 0 0 (calls + 0) (fds + 0) (cancelled + 0) blocked first.blocked second.blocked
        first.sent (second.sent ++ told) (retry-Accounts handle a blocked s) rest in
    let (tried, no_cancel, _, _) = retry-Accounts handle a blocked s in
    let cancels = serve_all-cancels handle a requests first.scheme first.blocked in
    let rest_sent = second.sent ++ told in
    (
      omega arith,
      omega arith,
      omega (
        arith,
        total-append (is_refusal a is_eintr) first.sent rest_sent,
        total-append (is_refusal a is_eintr) second.sent told,
        total-append (is_reply a) first.sent rest_sent,
      ),
      omega arith,
      omega arith,
    )
