-- ===== src/Worker.antt =====
-- src/expiry-worker.ts: the loop that drains the expiry jobs. A job's call returns the number of
-- rows that it expired and the new state, or the error that it throws. The timer, which only
-- starts further cycles, is not modelled.
pub mod Isolation
pub mod Jobs
mod Tests
use the402machine.Base.{
  ℕ, zero, suc, ◌+◌, ◌*◌, ◌≤◌, ◌<◌, String, Bool, true, false, ◌||◌, Option, none, some, List, [],
  ◌∷◌, ◌++◌, ltb, leb, if◌then◌else◌, ◌≡◌, refl, arith, Result, ok, err, inl, inr, Bool-cases,
  get_or,
}

pub record ExpiryJob {ℓ κ} (E : Type ℓ) (S : Type κ) : Type (ℓ ⊔ κ) where
  pub name : String
  pub expire_due : (limit : ℕ) → S → Result E (ℕ × S)

pub record ExpiryWorkerOptions : Type 0 where
  pub batch_size : Option ℕ
  pub max_batches_per_cycle : Option ℕ

-- What `onError` is told.
abbrev pub reported {ℓ} : {E : Type ℓ} → String → Option E → List (String × E)
reported name none = []
reported name (some e) = (name, e) ∷ []

module _ {ℓ κ} {E : Type ℓ} {S : Type κ} where
  -- What follows a batch: an error ends the loop, and so does a batch that is not full.
  unfoldable pub after_batch : ℕ → (S → Option E × S) → S → Result E (ℕ × S) → Option E × S
  after_batch size rest s (err e) = (some e, s)
  after_batch size rest s (ok (n, next)) = if ltb n size then (none, next) else rest next

  -- The loop, with the batches that are left and the number of the batch. `stopped` tells what the
  -- flag holds before each batch.
  unfoldable pub drain : (ℕ → Bool) → ℕ → ExpiryJob E S → (left batch : ℕ) → S → Option E × S
  unfolding after_batch
  drain stopped size job zero batch s = (none, s)
  drain stopped size job (suc left) batch s =
      let rest = drain stopped size job left (suc batch) in
      if stopped batch then (none, s) else after_batch size rest s (job.expire_due size s)

  unfoldable pub run_jobs : (ℕ → Bool) → ℕ → ℕ → List (ExpiryJob E S) → S → List (String × E) × S
  run_jobs stopped size most [] s = ([], s)
  run_jobs stopped size most (job ∷ jobs) s =
      let drained = drain stopped size job most 0 s in
      let rest = run_jobs stopped size most jobs drained.1 in
      (reported job.name drained.0 ++ rest.0, rest.1)

  -- One cycle: none starts while the worker is stopped or another cycle runs.
  unfoldable pub run :
      ExpiryWorkerOptions
      → (is_stopped is_running : Bool) → (ℕ → Bool)
      → List (ExpiryJob E S)
      → S
      → List (String × E) × S
  unfolding run_jobs
  run options is_stopped is_running stopped jobs s =
      if is_stopped || is_running
      then ([], s)
      else run_jobs stopped (get_or options.batch_size 100)
          (get_or options.max_batches_per_cycle 10) jobs s

  -- What a job promises of one measure, such as the number of its due rows.
  pub record Sweeps (job : ExpiryJob E S) (due : S → ℕ) : Type (ℓ ⊔ κ) where
    pub batch :
        (limit : ℕ) (s : S)
        → 1 ≤ limit
        → limit ≤ 1_000
        → (r : ℕ × S) × (job.expire_due limit s ≡ ok r)
          × (due r.1 + r.0 ≤ due s)
          × (r.0 < limit → due r.1 ≡ 0)

  -- The loop of a job that sweeps ends with no error and with nothing due, when the rows that are
  -- due at first fit in the batches of the cycle and nothing stops the worker.
  pub drain_complete :
      (job : ExpiryJob E S) (due : S → ℕ) (stopped : ℕ → Bool) (size left at : ℕ) (s : S)
      → Sweeps job due
      → 1 ≤ size
      → size ≤ 1_000
      → ((n : ℕ) → stopped n ≡ false)
      → due s ≤ left * size
      → ((drain stopped size job left at s).0 ≡ none)
        × (due (drain stopped size job left at s).1 ≡ 0)
  unfolding drain after_batch
  drain_complete job due stopped size zero at s laws lo hi go h = (refl, omega arith)
  drain_complete job due stopped size (suc left) at s laws lo hi go h =
      let b = laws.batch size s lo hi in
      rw (go at, b.1)
        (elim (Bool-cases (ltb b.0.0 size)) [
          | inl t ↦ rw t (refl, b.3 (ground arith))
          | inr t ↦ rw t (
              drain_complete job due stopped size left (suc at) b.0.1 laws lo hi go
                (ground (arith, b.2)))
        ])
