-- ===== src/Pulse/Heartbeats.antt =====
-- The answers of `acceptHeartbeat`, and the complete sweep of the expired monitors.
use the402machine.Base.{
  ℕ, ◌+◌, ◌≤◌, ◌<◌, String, Bool, true, false, some, List, leb, ◌≡◌, refl, inl, inr, Bool-cases,
  Option-cases, arith, All, sum, str_eq,
}
use the402machine.Base.Keys.{Distinct, sum-save}
use the402machine.Base.Batch.{clamp_limit, sweep_complete}
use the402machine.Pulse.{
  Pulse, AcceptPulseResult, accepted, rejected, is_active, is_over, lock_resource, expired_row,
  beaten_row, accept_heartbeat, is_due, swept_row, expire_due, store, expire_locked,
}
use the402machine.Pulse.Counts.{IsConsistent, AllConsistent, lock-IsConsistent}

abbrev pub total : List Pulse → ℕ
total rows = sum (λ r. r.heartbeat_count) rows

-- What an answer to a heartbeat says of the rows before and after it.
abbrev pub Counted : ℕ → String → List Pulse → AcceptPulseResult × List Pulse → Type 0
Counted now public_id rows (accepted number at exhausted, rows') =
    (r : Pulse) × (lock_resource public_id rows ≡ some r)
    × (is_active r.status ≡ true)
    × (number ≡ r.heartbeat_count + 1)
    × (number ≤ r.heartbeat_limit)
    × (at ≡ now)
    × (now < r.expires_at)
    × (exhausted ≡ leb r.heartbeat_limit number)
    × (total rows' ≡ total rows + 1)
Counted now public_id rows (rejected reason, rows') = total rows' ≡ total rows

expired-total :
    (now : ℕ) (public_id : String) (rows : List Pulse) (r : Pulse)
    → Distinct (λ x. x.id) rows
    → lock_resource public_id rows ≡ some r
    → total (expire_locked now r rows) ≡ total rows
unfolding expired_row
expired-total now public_id rows r d e = omega (
  arith,
  sum-save (λ x. x.id) (λ x. x.heartbeat_count) (λ x. str_eq x.public_id public_id) r
      (expired_row now r) rows d refl e,
)

beaten-total :
    (now : ℕ) (public_id : String) (rows : List Pulse) (r : Pulse)
    → Distinct (λ x. x.id) rows
    → lock_resource public_id rows ≡ some r
    → total (store (beaten_row now r) rows) ≡ total rows + 1
unfolding beaten_row
beaten-total now public_id rows r d e =
    elim (Bool-cases (leb r.heartbeat_limit (r.heartbeat_count + 1))) [
      | inl t ↦ rw t (omega (arith, moved _ refl))
      | inr t ↦ rw t (omega (arith, moved _ refl))
    ]
  where
    moved :
        (r' : Pulse)
        → r'.id ≡ r.id
        → total (store r' rows) + r.heartbeat_count ≡ total rows + r'.heartbeat_count
    moved r' k =
        sum-save (λ x. x.id) (λ x. x.heartbeat_count) (λ x. str_eq x.public_id public_id) r r' rows
          d k e

-- When no two monitors share an id and the constraints of the table hold, an accepted heartbeat was
-- for an active monitor that had not expired; it has the next number, within the limit, reports
-- exhaustion exactly when that number reaches the limit, and adds one to the counted heartbeats of
-- the table. A refused heartbeat leaves the count of the table as it was.
pub accept_heartbeat-Counted :
    (now : ℕ) (public_id : String) (rows : List Pulse)
    → Distinct (λ x. x.id) rows
    → AllConsistent rows
    → Counted now public_id rows (accept_heartbeat now public_id rows)
unfolding accept_heartbeat
accept_heartbeat-Counted now public_id rows d h =
    elim (Option-cases (lock_resource public_id rows)) [
      | inl e ↦ rw e refl
      | inr (r, e) ↦
          let c : IsConsistent r = lock-IsConsistent public_id rows r e h in
          rw e (elim (Bool-cases (is_over now r)) [
            | inl t ↦ rw t (expired-total now public_id rows r d e)
            | inr t ↦ rw t (elim (Bool-cases (is_active r.status)) [
              | inl u ↦ rw u (
                r,
                e,
                u,
                refl,
                omega (arith, c.room u),
                refl,
                ground arith,
                refl,
                beaten-total now public_id rows r d e,
              )
              | inr u ↦ rw u refl
            ])
          ])
    ]

-- After a sweep that reports fewer expired monitors than its limit, no active or exhausted monitor
-- that is due and not locked is left.
pub expire_due_complete :
    (now : ℕ) (locked : String → Bool) (requested : ℕ) (rows : List Pulse)
    → (expire_due now locked requested rows).0 < clamp_limit requested
    → All (λ r. is_due now locked r ≡ false) (expire_due now locked requested rows).1
unfolding expire_due swept_row expired_row
expire_due_complete now locked requested rows h =
    sweep_complete (λ r. r.id) (λ r. r.expires_at) (is_due now locked) (swept_row now)
      (clamp_limit requested) rows (λ x. refl) h
