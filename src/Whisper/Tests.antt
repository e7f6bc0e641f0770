-- ===== src/Whisper/Tests.antt =====
-- Handoffs at concrete inputs.
use the402machine.Base.{ℕ, ◌+◌, String, List, [], ◌∷◌, ◌≡◌, refl, arith}
use the402machine.Domain.Plans.{PlanId}
use the402machine.Whisper.{Whisper, CreateWhisperInput, new_whisper, consume, consume_locked}
use the402machine.Whisper.Reads.{AllSound, Granted, remaining, run, consume-Granted, run-remaining}

abbrev input : CreateWhisperInput
input = record {
  public_id = "whisper_a";
  plan_id = PlanId.standard;
  read_token_hash = "hash";
  ciphertext = 1 ∷ 2 ∷ 3 ∷ [];
  read_limit = 2;
  reveal_at = 100;
  expires_at = 1_000;
}

abbrev rows : List Whisper
rows = new_whisper 50 "id-a" input ∷ []

-- Before the reveal nothing is delivered; then the two reads are; then none is left.
reads : List (ℕ × String)
reads = (60, "whisper_a") ∷ (100, "whisper_a") ∷ (200, "whisper_a") ∷ (300, "whisper_a") ∷ []

sound : AllSound rows
unfolding new_whisper
sound = (record { held = refl; guarded = refl; room = λ e. omega arith; within = omega arith }, tt)

delivered_twice : (run reads rows).0 ≡ 2
unfolding run reads consume new_whisper consume_locked
delivered_twice = refl

consume-Granted_example : Granted 100 "whisper_a" rows (consume 100 "whisper_a" rows)
consume-Granted_example = consume-Granted 100 "whisper_a" rows (tt, tt) sound

run-remaining_example : (run reads rows).0 + remaining (run reads rows).1 ≡ remaining rows
run-remaining_example = run-remaining reads rows (tt, tt) sound
