-- ===== src/Worker/Isolation.antt =====
-- src/expiry-worker.ts: a job that fails does not keep the others from their work.
use the402machine.Base.{
  ℕ, zero, suc, ◌*◌, ◌≤◌, Bool, false, Option, List, [], ◌∷◌, ◌++◌, ltb, All, Leaves, ◌≡◌, arith,
  Result, ok, err, inl, inr, Bool-cases,
}
use the402machine.Worker.{ExpiryJob, after_batch, drain, run_jobs, Sweeps, drain_complete}

module _ {ℓ κ} {E : Type ℓ} {S : Type κ} (due : S → ℕ) where
  -- A call of the job adds no due row, whether it throws or not.
  abbrev pub Spares : ExpiryJob E S → Type κ
  Spares job = (limit : ℕ) (s : S) → Leaves (λ next. due next ≤ due s) (job.expire_due limit s)

  module _ (stopped : ℕ → Bool) (size : ℕ) where
    after_batch-Spares :
        (rest : S → Option E × S) (s : S) (r : Result E (ℕ × S))
        → ((t : S) → due (rest t).1 ≤ due t)
        → Leaves (λ next. due next ≤ due s) r
        → due (after_batch size rest s r).1 ≤ due s
    unfolding after_batch
    after_batch-Spares rest s (err e) ih h = omega arith
    after_batch-Spares rest s (ok (n, next)) ih h = elim (Bool-cases (ltb n size)) [
      | inl t ↦ rw t h
      | inr t ↦ rw t (omega (arith, ih next))
    ]

    drain-Spares :
        (job : ExpiryJob E S) (left at : ℕ) (s : S)
        → Spares job
        → due (drain stopped size job left at s).1 ≤ due s
    unfolding drain
    drain-Spares job zero at s h = omega arith
    drain-Spares job (suc left) at s h = elim (Bool-cases (stopped at)) [
      | inl t ↦ rw t (omega arith)
      | inr t ↦ rw t (
          after_batch-Spares (drain stopped size job left (suc at)) s (job.expire_due size s)
            (λ u. drain-Spares job left (suc at) u h) (h size s))
    ]

    run_jobs-Spares :
        (most : ℕ) (jobs : List (ExpiryJob E S)) (s : S)
        → All Spares jobs
        → due (run_jobs stopped size most jobs s).1 ≤ due s
    unfolding run_jobs
    run_jobs-Spares most [] s h = omega arith
    run_jobs-Spares most (job ∷ jobs) s h = omega (
      arith,
      drain-Spares job most 0 s h.0,
      run_jobs-Spares most jobs (drain stopped size job most 0 s).1 h.1,
    )

    -- A cycle leaves nothing due for a job that sweeps, wherever it stands among the jobs and
    -- whichever of the others throw, when its due rows fit in the batches of the cycle, nothing
    -- stops the worker meanwhile and no other job makes rows due for it.
    pub run_jobs_complete :
        (most : ℕ) (before later : List (ExpiryJob E S)) (job : ExpiryJob E S) (s : S)
        → All Spares before
        → All Spares later
        → Sweeps job due
        → 1 ≤ size
        → size ≤ 1_000
        → ((n : ℕ) → stopped n ≡ false)
        → due s ≤ most * size
        → due (run_jobs stopped size most (before ++ job ∷ later) s).1 ≡ 0
    unfolding run_jobs
    run_jobs_complete most [] later job s hb hl laws lo hi go h =
        let swept = drain_complete job due stopped size most 0 s laws lo hi go h in
        omega (arith, swept.1, run_jobs-Spares most later (drain stopped size job most 0 s).1 hl)
    run_jobs_complete most (j ∷ before) later job s hb hl laws lo hi go h =
        run_jobs_complete most before later job (drain stopped size j most 0 s).1 hb.1 hl laws lo hi
          go (omega (arith, drain-Spares j most 0 s hb.0))
