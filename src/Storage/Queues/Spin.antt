-- ===== src/Storage/Queues/Spin.antt =====
-- `complete_spin` of storage/nvmed/src/nvme/queues.rs ends once the controller has written.
use drivers.Base.{
  ℕ, suc, ◌%◌, ◌^◌, ◌<◌, ◌≡◌, refl, inl, inr, none, some, List, [], ◌∷◌, ◌++◌, arith,
}
use drivers.Base.Outcome.{ok}
use drivers.Storage.Queues.{NvmeComp, NvmeCompQueue, complete_spin}
use drivers.Storage.Queues.Completion.{Holds, HasRead, complete_delivers}

-- The queue as a turn finds it
abbrev pub found_at : NvmeCompQueue → List NvmeComp → NvmeCompQueue
found_at q entries = record { entries = entries; head = q.head; phase = q.phase }

-- In each of these turns the memory holds the first k completions.
unfoldable pub Waits : ℕ → ℕ → (ℕ → NvmeComp) → List (List NvmeComp) → Type 0
Waits n k log [] = Unit {0}
Waits n k log (entries ∷ turns) = Holds n k log entries × Waits n k log turns

module _ (n j : ℕ) (log : ℕ → NvmeComp) (q : NvmeCompQueue) where
  -- However many turns find nothing new, `complete_spin` goes on, and the first turn that finds
  -- completion j written, where the driver has read j of them, returns it and moves the driver on.
  pub complete_spin_ends :
      (idle : List (List NvmeComp)) (entries : List NvmeComp) (later : List (List NvmeComp))
      → HasRead n j q
      → 0 < n
      → n < 2 ^ 16
      → Waits n j log idle
      → Holds n (suc j) log entries
      → (q' : NvmeCompQueue) × (complete_spin none q (idle ++ (entries ∷ later))
          ≡ some (ok ((suc j % n, log j), q')))
        × HasRead n (suc j) q'
  unfolding complete_spin Waits
  complete_spin_ends [] entries later read pos small idle_holds holds =
      elim (complete_delivers n j (suc j) log (found_at q entries) holds
        (record { head_is = read.head_is; phase_is = read.phase_is }) pos small (omega arith)
        (omega arith)) [
          | inl (lt, (q', run, same_entries, moved)) ↦ (q', rw (run, complete_spin) refl, moved)
          | inr (e, run) ↦ absurd (omega arith)
        ]
  complete_spin_ends (e ∷ idle) entries later read pos small (here, idle_holds) holds =
      let (q', run, moved) =
        complete_spin_ends idle entries later read pos small idle_holds holds in
      elim (complete_delivers n j j log (found_at q e) here
        (record { head_is = read.head_is; phase_is = read.phase_is }) pos small (omega arith)
        (omega arith)) [
          | inl (lt, rest) ↦ absurd (omega arith)
          | inr (same, quiet) ↦ (q', rw (quiet, complete_spin) run, moved)
        ]
