-- ===== src/Storage/Queues/Completion.antt =====
-- The completion queue as a stream: the phase bit tells what is new.
use drivers.Base.{
  ℕ, zero, suc, ◌+◌, ◌-◌, ◌/◌, ◌%◌, ◌^◌, ◌≤◌, ◌<◌, ◌≡◌, ◌≢◌, refl, ◌∙◌, ap, ◌⊎◌, inl, inr, Bool,
  true, false, not, none, some, List, arith, same, length, get_elem?, set, get_elem?-set_self,
  get_elem?-set_ne, length-set, sym, length-replicate, replicate, Option-cases,
}
use drivers.Base.Laps.{lap_cycle, div-mod_inside, div-mod_wraps, div-mod_add}
use drivers.Base.Outcome.{ok}
use native.Mathlib.Decide.{dec_lt}
use native.Mathlib.Nat.{mod-eq_of_lt, div-eq_of_lt}
use drivers.Storage.Queues.{
  NvmeCmd, NvmeComp, NvmeCompQueue, zeroed, new_completion, phase_bit, complete, advance,
}

-- The controller has written the completions 0 to k - 1 of `log`, number i in slot i mod n with the
-- phase of pass i div n, over zeroed memory. Of each slot the last entry is left.
pub record Holds (n k : ℕ) (log : ℕ → NvmeComp) (entries : List NvmeComp) : Type 0 where
  pub size : length entries ≡ n
  pub written : (i : ℕ) → i < k → k ≤ i + n → get_elem? entries (i % n) ≡ some (log i)
  pub fresh : (s : ℕ) → k ≤ s → s < n → get_elem? entries s ≡ some zeroed
  pub phases : (i : ℕ) → phase_bit (log i) ≡ lap_cycle (i / n)

-- The driver has read the first j completions.
pub record HasRead (n j : ℕ) (q : NvmeCompQueue) : Type 0 where
  pub head_is : q.head ≡ j % n
  pub phase_is : q.phase ≡ lap_cycle (j / n)

opposite : (b : Bool) → same b (not b) ≡ false
opposite true = refl
opposite false = refl

agree : (b : Bool) → same b b ≡ true
agree true = refl
agree false = refl

-- The head's step, in both cases.
head_inside : (n j : ℕ) → suc (j % n) < n → (j % n + 1) % n ≡ suc (j % n)
head_inside n j lt = mod-eq_of_lt {n = j % n + 1} (omega arith) ∙ omega arith

head_wraps : (n j : ℕ) → suc (j % n) ≡ n → (j % n + 1) % n ≡ 0
head_wraps n j e = grind arith

advance-HasRead :
    (n j : ℕ) (q : NvmeCompQueue)
    → length q.entries ≡ n
    → 0 < n
    → n < 2 ^ 16
    → HasRead n j q
    → HasRead n (suc j) (advance q)
advance-HasRead n j q size pos small h =
    let modulus : length q.entries % 2 ^ 16 ≡ n = omega arith in
    elim (dec_lt (suc (j % n)) n) [
      | yes lt ↦
          let (ed, em) = div-mod_inside n j lt in
          let moved : (q.head + 1) % (length q.entries % 2 ^ 16) ≡ suc (j % n) =
            rw (modulus, h.head_is) (head_inside n j lt) in
          record {
            head_is = moved ∙ sym em;
            phase_is = ground (arith, moved, ap lap_cycle ed, h.phase_is);
          }
      | no ge ↦
          let e : suc (j % n) ≡ n = omega arith in
          let (ed, em) = div-mod_wraps n j e in
          let moved : (q.head + 1) % (length q.entries % 2 ^ 16) ≡ 0 =
            rw (modulus, h.head_is) (head_wraps n j e) in
          record {
            head_is = moved ∙ sym em;
            phase_is = ground (arith, moved, ap lap_cycle ed, h.phase_is);
          }
    ]

-- The slot of an entry that the driver has read keeps the phase of the pass before.
stale :
    (n k : ℕ) (log : ℕ → NvmeComp) (q : NvmeCompQueue)
    → Holds n k log q.entries
    → HasRead n k q
    → 0 < n
    → (entry : NvmeComp) × (get_elem? q.entries q.head ≡ some entry)
      × (same (phase_bit entry) q.phase ≡ false)
stale n k log q m h pos = elim (dec_lt k n) [
  | yes lt ↦ (
    zeroed,
    rw (h.head_is, mod-eq_of_lt lt) (m.fresh k (omega arith) lt),
    rw (h.phase_is, div-eq_of_lt lt) refl,
  )
  | no ge ↦
      let i = k - n in
      let e : i + n ≡ k = omega arith in
      let (ed, em) = div-mod_add n i pos in
      (
        log i,
        rw (h.head_is) (
            ap (λ (t : ℕ). get_elem? q.entries t) (ap (λ (t : ℕ). t % n) (sym e) ∙ em)
            ∙ m.written i (omega arith) (omega arith)),
        rw (h.phase_is, m.phases i)
            (ap (λ (t : ℕ). same (lap_cycle (i / n)) (lap_cycle t))
                (ap (λ (t : ℕ). t / n) (sym e) ∙ ed)
              ∙ opposite (lap_cycle (i / n))),
      )
]

-- A completion queue of n slots over memory that holds the first k completions, of which the
-- driver has read j, not more than n behind: if there is one more, `complete`, asked for no one
-- command, returns it, in order, and the driver has then read j + 1. If not, it returns nothing and leaves the queue as it
-- is, whatever the memory still holds of earlier passes.
pub complete_delivers :
    (n j k : ℕ) (log : ℕ → NvmeComp) (q : NvmeCompQueue)
    → Holds n k log q.entries
    → HasRead n j q
    → 0 < n
    → n < 2 ^ 16
    → j ≤ k
    → k ≤ j + n
    → ((j < k)
        × ((q' : NvmeCompQueue) × (complete none q ≡ ok (some (suc j % n, log j), q'))
            × (q'.entries ≡ q.entries)
            × HasRead n (suc j) q'))
      ⊎ ((j ≡ k) × (complete none q ≡ ok (none, q)))
unfolding complete
complete_delivers n j k log q m h pos small le room = elim (dec_lt j k) [
  | yes lt ↦
      let next = advance-HasRead n j q m.size pos small h in
      let found : get_elem? q.entries q.head ≡ some (log j) = rw h.head_is (m.written j lt room) in
      let new : same (phase_bit (log j)) q.phase ≡ true =
        rw (h.phase_is, m.phases j) (agree (lap_cycle (j / n))) in
      inl (lt, (advance q, rw (found, complete) (rw new (rw (next.head_is))), refl, next))
  | no ge ↦
      let e : j ≡ k = omega arith in
      let (entry, found, old) = stale n k log q m (rw e at h) pos in
      inr (e, rw (found, complete) (rw old))
]

mod_ne : (n i k : ℕ) → i < k → k < i + n → i % n ≢ k % n
mod_ne n i k h l e = grind arith

-- The controller's next write, into slot k mod n, keeps the memory in that form; so does a queue
-- that is just made, which holds none.
pub post-Holds :
    (n k : ℕ) (log : ℕ → NvmeComp) (entries : List NvmeComp)
    → 0 < n
    → Holds n k log entries
    → Holds n (suc k) log (set entries (k % n) (log k))
post-Holds n k log entries pos m = record {
  size = length-set entries (k % n) (log k) ∙ m.size;
  written = λ i h l. elim (dec_lt i k) [
    | yes lt ↦
        get_elem?-set_ne entries (k % n) (i % n) (log k)
          (λ e. mod_ne n i k lt (omega arith) (sym e))
        ∙ m.written i lt (omega arith)
    | no ge ↦
        let e : i ≡ k = omega arith in
        rw e (get_elem?-set_self entries (k % n) (log k) (rw m.size (omega arith)))
  ];
  fresh = λ s h l.
      get_elem?-set_ne entries (k % n) s (log k) (λ e. grind arith) ∙ m.fresh s (omega arith) l;
  phases = m.phases;
}

get_elem?-replicate : (n s : ℕ) (c : NvmeComp) → s < n → get_elem? (replicate n c) s ≡ some c
get_elem?-replicate zero s c h = absurd (omega arith)
get_elem?-replicate (suc n) zero c h = refl
get_elem?-replicate (suc n) (suc s) c h = get_elem?-replicate n s c (omega arith)

new-Holds :
    (log : ℕ → NvmeComp)
    → ((i : ℕ) → phase_bit (log i) ≡ lap_cycle (i / 256))
    → Holds 256 0 log new_completion.entries × HasRead 256 0 new_completion
unfolding new_completion
new-Holds log phases = (
  record {
    size = length-replicate 256 zeroed;
    written = λ i h l. absurd (omega arith);
    fresh = λ s h l. get_elem?-replicate 256 s zeroed l;
    phases = phases;
  },
  record { head_is = refl; phase_is = refl },
)

-- The memory after the controller has written k completions of the log.
pub posted : (ℕ → NvmeComp) → ℕ → List NvmeComp
unfolding new_completion
posted log zero = new_completion.entries
posted log (suc k) = set (posted log k) (k % 256) (log k)

pub posted-Holds :
    (log : ℕ → NvmeComp) (k : ℕ)
    → ((i : ℕ) → phase_bit (log i) ≡ lap_cycle (i / 256))
    → Holds 256 k log (posted log k)
unfolding posted
posted-Holds log zero phases = (new-Holds log phases).0
posted-Holds log (suc k) phases =
    post-Holds 256 k log (posted log k) (omega arith) (posted-Holds log k phases)

same→eq : (a b : Bool) → same a b ≡ true → a ≡ b
same→eq true b h = sym h
same→eq false true h = cc
same→eq false false h = refl

-- `complete` for a given command returns no entry but the one at the head, and that only if it is
-- of that command and queue and its phase is new.
complete_matches :
    (sq_id head : ℕ) (cmd : NvmeCmd) (entry : NvmeComp) (q q' : NvmeCompQueue)
    → complete (some (sq_id, cmd)) q ≡ ok (some (head, entry), q')
    → (get_elem? q.entries q.head ≡ some entry)
      × (entry.sq_id ≡ sq_id)
      × (entry.cid ≡ cmd.cid)
      × (phase_bit entry ≡ q.phase)
      × (head ≡ q'.head)
unfolding complete
complete_matches sq_id head cmd entry q q' e = elim (Option-cases (get_elem? q.entries q.head)) [
  | inl no_entry ↦ absurd (ground (arith))
  | inr (x, found) ↦ ground (arith, found, same→eq (phase_bit x) q.phase)
]
