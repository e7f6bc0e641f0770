-- ===== src/Worker/Tests.antt =====
-- The worker at concrete inputs.
use the402machine.Base.{
  ℕ, ◌-◌, ◌≤◌, String, Bool, true, false, none, [], ◌∷◌, ◌++◌, min, ◌≡◌, refl, arith, ok, err,
}
use the402machine.Domain.Plans.{PlanId}
use the402machine.Whisper
use the402machine.Worker.{ExpiryJob, drain, run, run_jobs, Sweeps, drain_complete}
use the402machine.Worker.Isolation.{run_jobs_complete}
use the402machine.Worker.Jobs.{
  Tables, defaults, jobs, due_resources, due_whispers, due_pulses, due_intents, cycle_complete,
}

-- A job over a number of due rows, and one that always throws.
abbrev counted : ExpiryJob String ℕ
counted = record { name = "counted"; expire_due = λ limit n. ok (min limit n, n - min limit n) }

abbrev broken : ExpiryJob String ℕ
broken = record { name = "broken"; expire_due = λ limit n. err "unavailable" }

abbrev number : ℕ → ℕ
number n = n

abbrev never : ℕ → Bool
never n = false

counted-Sweeps : Sweeps counted number
counted-Sweeps = record {
  batch = λ limit n lo hi. ((min limit n, n - min limit n), refl, omega arith, λ l. omega arith);
}

-- The failure of the first job is reported, and the second one still drains.
one_broken : run_jobs never 10 3 (broken ∷ counted ∷ []) 25 ≡ (("broken", "unavailable") ∷ [], 0)
unfolding run_jobs drain
one_broken = refl

drain_complete_example :
    ((drain never 10 counted 3 0 25).0 ≡ none) × ((drain never 10 counted 3 0 25).1 ≡ 0)
drain_complete_example =
    drain_complete counted number never 10 3 0 25 counted-Sweeps (omega arith) (omega arith)
      (λ n. refl) (omega arith)

run_jobs_complete_example : (run_jobs never 10 3 ((broken ∷ []) ++ counted ∷ []) 25).1 ≡ 0
run_jobs_complete_example =
    run_jobs_complete number never 10 3 (broken ∷ []) [] counted 25 ((λ limit n. tt), tt) tt
      counted-Sweeps (omega arith) (omega arith) (λ n. refl) (omega arith)

abbrev handoff : Whisper.CreateWhisperInput
handoff = record {
  public_id = "whisper_a";
  plan_id = PlanId.standard;
  read_token_hash = "hash";
  ciphertext = 1 ∷ 2 ∷ 3 ∷ [];
  read_limit = 2;
  reveal_at = 100;
  expires_at = 1_000;
}

abbrev tables : Tables
tables = record {
  resources = record { resources = []; events = [] };
  whispers = Whisper.new_whisper 50 "id-a" handoff ∷ [];
  pulses = [];
  gate = record { projects = []; routes = []; intents = []; grants = []; authorizations = [] };
}

abbrev unlocked : String → Bool
unlocked id = false

one_due : due_whispers 2_000 unlocked tables ≤ 1_000
unfolding Whisper.new_whisper
one_due = omega arith

cycle_complete_example :
    let later = (run defaults false false never (jobs 2_000 unlocked true) tables).1 in
    (due_resources 2_000 unlocked later ≡ 0)
    × (due_whispers 2_000 unlocked later ≡ 0)
    × (due_pulses 2_000 unlocked later ≡ 0)
    × (true ≡ true → due_intents 2_000 unlocked later ≡ 0)
cycle_complete_example =
    cycle_complete 2_000 unlocked true never tables (λ n. refl) (omega arith) one_due (omega arith)
      (omega arith)
