-- ===== src/Worker/Jobs.antt =====
-- src/worker.ts: the four expiry jobs over the tables of their repositories. The repositories read
-- the clock `now`, which stands still during a cycle, and `locked` are the rows that other
-- transactions hold.
use the402machine.Base.{
  ℕ, ◌≤◌, String, Bool, true, false, none, List, [], ◌∷◌, ◌++◌, if◌then◌else◌, ltb, ◌||◌, All, ◌≡◌,
  refl, arith, inl, inr, Result-cases, Result, ok, err, length,
}
use the402machine.Base.Batch.{due_keys, update_in}
use the402machine.Base.Progress.{count, sweep_batch, sweep_clamped}
use the402machine.Worker.{ExpiryJob, ExpiryWorkerOptions, run, run_jobs, Sweeps}
use the402machine.Worker.Isolation.{Spares, run_jobs_complete}
use the402machine.Catch.Model as CatchModel
use the402machine.Catch.Store as CatchStore
use the402machine.Whisper
use the402machine.Pulse
use the402machine.Gate

pub record Tables : Type 0 where
  pub resources : CatchModel.Db
  pub whispers : List Whisper.Whisper
  pub pulses : List Pulse.Pulse
  pub gate : Gate.Db

abbrev pub defaults : ExpiryWorkerOptions
defaults = record { batch_size = none; max_batches_per_cycle = none }

module _ (now : ℕ) (locked : String → Bool) where
  abbrev pub catch_job : ExpiryJob Gate.GateError Tables
  catch_job = record {
    name = "CATCH";
    expire_due = λ limit s.
        let r = CatchStore.expire_due_resources now locked limit s.resources in
        ok (r.0, record s { resources = r.1 });
  }

  abbrev pub whisper_job : ExpiryJob Gate.GateError Tables
  whisper_job = record {
    name = "WHISPER";
    expire_due = λ limit s.
        let r = Whisper.expire_due now locked limit s.whispers in
        ok (r.0, record s { whispers = r.1 });
  }

  abbrev pub pulse_job : ExpiryJob Gate.GateError Tables
  pulse_job = record {
    name = "PULSE";
    expire_due = λ limit s.
        let r = Pulse.expire_due now locked limit s.pulses in ok (r.0, record s { pulses = r.1 });
  }

  abbrev pub in_gate :
      Tables → Result Gate.GateError (ℕ × Gate.Db) → Result Gate.GateError (ℕ × Tables)
  in_gate s (err e) = err e
  in_gate s (ok (n, g)) = ok (n, record s { gate = g })

  abbrev pub gate_job : ExpiryJob Gate.GateError Tables
  gate_job = record {
    name = "GATE";
    expire_due = λ limit s. in_gate s (Gate.expire_due_intents now now locked limit s.gate);
  }

  -- `gateRepository === undefined ? [] : […]`
  abbrev pub gate_part : Bool → List (ExpiryJob Gate.GateError Tables)
  gate_part gate_enabled = if gate_enabled then gate_job ∷ [] else []

  unfoldable pub jobs : Bool → List (ExpiryJob Gate.GateError Tables)
  jobs gate_enabled = catch_job ∷ whisper_job ∷ pulse_job ∷ gate_part gate_enabled

  abbrev pub due_resources : Tables → ℕ
  due_resources s = count (CatchStore.is_due now locked) s.resources.resources

  abbrev pub due_whispers : Tables → ℕ
  due_whispers s = count (Whisper.is_due now locked) s.whispers

  abbrev pub due_pulses : Tables → ℕ
  due_pulses s = count (Pulse.is_due now locked) s.pulses

  abbrev pub due_intents : Tables → ℕ
  due_intents s = count (Gate.is_due now locked) s.gate.intents

  catch_job-Sweeps : Sweeps catch_job due_resources
  unfolding CatchStore.expire_due_resources CatchStore.expired_row
  catch_job-Sweeps = record {
    batch = λ limit s lo hi.
        let b =
          sweep_clamped (λ r. r.id) (λ r. r.expires_at) (CatchStore.is_due now locked)
            (CatchStore.expired_row now) limit s.resources.resources (λ x. refl) lo hi in
        (
          (
            (CatchStore.expire_due_resources now locked limit s.resources).0,
            record s {
              resources = (CatchStore.expire_due_resources now locked limit s.resources).1;
            },
          ),
          refl,
          b.0,
          b.1,
        );
  }

  whisper_job-Sweeps : Sweeps whisper_job due_whispers
  unfolding Whisper.expire_due Whisper.expired_row
  whisper_job-Sweeps = record {
    batch = λ limit s lo hi.
        let b =
          sweep_clamped (λ r. r.id) (λ r. r.expires_at) (Whisper.is_due now locked)
            (Whisper.expired_row now) limit s.whispers (λ x. refl) lo hi in
        (
          (
            (Whisper.expire_due now locked limit s.whispers).0,
            record s { whispers = (Whisper.expire_due now locked limit s.whispers).1 },
          ),
          refl,
          b.0,
          b.1,
        );
  }

  pulse_job-Sweeps : Sweeps pulse_job due_pulses
  unfolding Pulse.expire_due Pulse.swept_row Pulse.expired_row
  pulse_job-Sweeps = record {
    batch = λ limit s lo hi.
        let b =
          sweep_clamped (λ r. r.id) (λ r. r.expires_at) (Pulse.is_due now locked)
            (Pulse.swept_row now) limit s.pulses (λ x. refl) lo hi in
        (
          (
            (Pulse.expire_due now locked limit s.pulses).0,
            record s { pulses = (Pulse.expire_due now locked limit s.pulses).1 },
          ),
          refl,
          b.0,
          b.1,
        );
  }

  gate_job-Sweeps : Sweeps gate_job due_intents
  unfolding Gate.expire_due_intents Gate.expired_row
  gate_job-Sweeps = record {
    batch = λ limit s lo hi.
        let b =
          sweep_batch (λ i. i.id) Gate.due_rank (Gate.is_due now locked) (Gate.expired_row now)
            limit s.gate.intents (λ x. refl) in
        let inside : (ltb limit 1 || ltb 1_000 limit) ≡ false = ground arith in
        let ids =
          due_keys (λ i. i.id) Gate.due_rank (Gate.is_due now locked) limit s.gate.intents in
        (
          (
            length ids,
            record s {
              gate = record (s.gate) {
                intents = update_in (λ i. i.id) ids (Gate.expired_row now) s.gate.intents;
              };
            },
          ),
          rw inside refl,
          b.0,
          b.1,
        );
  }

  gate_job-Spares :
      (due : Tables → ℕ)
      → ((s : Tables) (g : Gate.Db) → due (record s { gate = g }) ≡ due s)
      → Spares due gate_job
  gate_job-Spares due same limit s =
      elim (Result-cases (Gate.expire_due_intents now now locked limit s.gate)) [
        | inl (r, e) ↦ rw e (omega (arith, same s r.1))
        | inr (r, e) ↦ rw e tt
      ]

  gate_part-Spares :
      (due : Tables → ℕ)
      → ((s : Tables) (g : Gate.Db) → due (record s { gate = g }) ≡ due s)
      → (enabled : Bool) → All (Spares due) (gate_part enabled)
  gate_part-Spares due same true = (gate_job-Spares due same, tt)
  gate_part-Spares due same false = tt

  -- In one cycle of the worker with its default options, which finds no other cycle running and
  -- is not stopped, all the CATCH resources, handoffs, monitors and, where GATE is enabled, GATE
  -- intents that are due and not locked expire, when there are at most 1,000 of each and the clock
  -- stands still.
  pub cycle_complete :
      (gate_enabled : Bool) (stopped : ℕ → Bool) (s : Tables)
      → ((n : ℕ) → stopped n ≡ false)
      → due_resources s ≤ 1_000
      → due_whispers s ≤ 1_000
      → due_pulses s ≤ 1_000
      → due_intents s ≤ 1_000
      → let later = (run defaults false false stopped (jobs gate_enabled) s).1 in
        (due_resources later ≡ 0)
        × (due_whispers later ≡ 0)
        × (due_pulses later ≡ 0)
        × (gate_enabled ≡ true → due_intents later ≡ 0)
  unfolding run jobs
  cycle_complete gate_enabled stopped s go hc hw hp hg = (
    all_done due_resources [] (whisper_job ∷ pulse_job ∷ gate_part gate_enabled) catch_job tt
        (
          λ l t. omega arith,
          (λ l t. omega arith, gate_part-Spares due_resources (λ t g. refl) gate_enabled),
        )
        catch_job-Sweeps hc,
    all_done due_whispers (catch_job ∷ []) (pulse_job ∷ gate_part gate_enabled) whisper_job
        (λ l t. omega arith, tt)
        (λ l t. omega arith, gate_part-Spares due_whispers (λ t g. refl) gate_enabled)
        whisper_job-Sweeps hw,
    all_done due_pulses (catch_job ∷ whisper_job ∷ []) (gate_part gate_enabled) pulse_job
        (λ l t. omega arith, (λ l t. omega arith, tt))
        (gate_part-Spares due_pulses (λ t g. refl) gate_enabled) pulse_job-Sweeps hp,
    λ e. rw e (
        all_done due_intents (catch_job ∷ whisper_job ∷ pulse_job ∷ []) [] gate_job
          (λ l t. omega arith, (λ l t. omega arith, (λ l t. omega arith, tt))) tt gate_job-Sweeps
          hg),
  )
    where
      all_done :
          (due : Tables → ℕ) (before later : List (ExpiryJob Gate.GateError Tables))
          (job : ExpiryJob Gate.GateError Tables)
          → All (Spares due) before
          → All (Spares due) later
          → Sweeps job due
          → due s ≤ 1_000
          → due (run_jobs stopped 100 10 (before ++ job ∷ later) s).1 ≡ 0
      all_done due before later job hb hl laws h =
          run_jobs_complete due stopped 100 10 before later job s hb hl laws (omega arith)
            (omega arith) go h
