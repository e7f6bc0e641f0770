-- ===== src/Whisper/Reads.antt =====
-- src/whisper/whisper-repository.ts: a handoff is read at most as often as its limit allows.
use the402machine.Base.{
  ℕ, ◌+◌, ◌-◌, ◌≤◌, ◌<◌, String, true, false, Option, none, some, List, [], ◌∷◌, leb, if◌then◌else◌,
  is_some, All, sum, ◌≡◌, refl, inl, inr, Bool-cases, Option-cases, arith,
}
use the402machine.Base.Table
use the402machine.Base.Keys.{Distinct, save-Distinct, sum-save}
use the402machine.Whisper.{
  Whisper, is_active, expired_row, read_row, readable, store, consume_locked, consume,
}

pub record IsSound (r : Whisper) : Type 0 where
  pub held : is_some r.ciphertext ≡ is_active r.status
  pub guarded : is_some r.read_token_hash ≡ is_active r.status
  pub room : is_active r.status ≡ true → r.read_count < r.read_limit
  pub within : r.read_count ≤ r.read_limit

abbrev pub AllSound : List Whisper → Type 0
AllSound = All IsSound

-- The reads that are left in the table.
abbrev pub remaining : List Whisper → ℕ
remaining rows = sum (λ r. r.read_limit - r.read_count) rows

expired-IsSound : (now : ℕ) (r : Whisper) → IsSound r → IsSound (expired_row now r)
unfolding expired_row
expired-IsSound now r h = record { held = refl; guarded = refl; room = λ e. cc; within = h.within }

read-IsSound :
    (now : ℕ) (r : Whisper) → is_active r.status ≡ true → IsSound r → IsSound (read_row now r)
unfolding read_row
read-IsSound now r a h = elim (Bool-cases (leb r.read_limit (r.read_count + 1))) [
  | inl t ↦ rw t (record { held = refl; guarded = refl; room = λ e. cc; within = omega arith })
  | inr t ↦ rw t (record {
    held = h.held;
    guarded = h.guarded;
    room = λ e. ground arith;
    within = ground arith;
  })
]

-- What an answer says of the table before and after it.
abbrev pub Granted : ℕ → String → List Whisper → Option (List ℕ) × List Whisper → Type 0
Granted now public_id rows (some bytes, rows') =
    (r : Whisper) × (Table.find (readable now public_id) rows ≡ some r)
    × (r.ciphertext ≡ some bytes)
    × (r.whisper_reveal_at ≤ now)
    × (now < r.expires_at)
    × (remaining rows' + 1 ≡ remaining rows)
Granted now public_id rows (none, rows') = remaining rows' ≡ remaining rows

moved :
    (now : ℕ) (public_id : String) (rows : List Whisper) (r r' : Whisper)
    → Distinct (λ x. x.id) rows
    → Table.find (readable now public_id) rows ≡ some r
    → r'.id ≡ r.id
    → remaining (store r' rows) + (r.read_limit - r.read_count)
      ≡ remaining rows + (r'.read_limit - r'.read_count)
moved now public_id rows r r' d e k =
    sum-save (λ x. x.id) (λ x. x.read_limit - x.read_count) (readable now public_id) r r' rows d k e

read_row-id : (now : ℕ) (r : Whisper) → (read_row now r).id ≡ r.id
unfolding read_row
read_row-id now r = elim (Bool-cases (leb r.read_limit (r.read_count + 1))) [
  | inl t ↦ rw t refl
  | inr t ↦ rw t refl
]

read_row-left :
    (now : ℕ) (r : Whisper)
    → r.read_count < r.read_limit
    → (read_row now r).read_limit - (read_row now r).read_count + 1 ≡ r.read_limit - r.read_count
unfolding read_row
read_row-left now r l = elim (Bool-cases (leb r.read_limit (r.read_count + 1))) [
  | inl t ↦ rw t (ground arith)
  | inr t ↦ rw t (ground arith)
]

read-remaining :
    (now : ℕ) (public_id : String) (rows : List Whisper) (r : Whisper)
    → Distinct (λ x. x.id) rows
    → Table.find (readable now public_id) rows ≡ some r
    → r.read_count < r.read_limit
    → remaining (store (read_row now r) rows) + 1 ≡ remaining rows
read-remaining now public_id rows r d e l = omega (
  arith,
  moved now public_id rows r (read_row now r) d e (read_row-id now r),
  read_row-left now r l,
)

expired-remaining :
    (now : ℕ) (public_id : String) (rows : List Whisper) (r : Whisper)
    → Distinct (λ x. x.id) rows
    → Table.find (readable now public_id) rows ≡ some r
    → remaining (store (expired_row now r) rows) ≡ remaining rows
unfolding expired_row
expired-remaining now public_id rows r d e =
    omega (arith, moved now public_id rows r (expired_row now r) d e refl)

read-Granted :
    (now : ℕ) (public_id : String) (rows : List Whisper) (r : Whisper) (c : Option (List ℕ))
    → Distinct (λ x. x.id) rows
    → Table.find (readable now public_id) rows ≡ some r
    → IsSound r
    → readable now public_id r ≡ true
    → leb r.expires_at now ≡ false
    → r.ciphertext ≡ c
    → Granted now public_id rows (c, store (read_row now r) rows)
read-Granted now public_id rows r none d e s q x n = absurd (let h = s.held in ground arith)
read-Granted now public_id rows r (some bytes) d e s q x n = (
  r,
  e,
  n,
  ground arith,
  ground arith,
  read-remaining now public_id rows r d e (s.room (ground arith)),
)

-- When no two handoffs share an id and each is sound, a delivered ciphertext is the stored one of an
-- active handoff that is revealed and has not expired, and the delivery uses up exactly one of the
-- reads that are left in the table. An answer without a ciphertext uses up none.
pub consume-Granted :
    (now : ℕ) (public_id : String) (rows : List Whisper)
    → Distinct (λ x. x.id) rows
    → AllSound rows
    → Granted now public_id rows (consume now public_id rows)
unfolding consume consume_locked
consume-Granted now public_id rows d h =
    elim (Option-cases (Table.find (readable now public_id) rows)) [
      | inl e ↦ rw e refl
      | inr (r, e) ↦
          let s : IsSound r = Table.find-All IsSound (readable now public_id) rows r e h in
          let q : readable now public_id r ≡ true =
            Table.find-true (readable now public_id) rows r e in
          rw e (elim (Bool-cases (leb r.expires_at now)) [
            | inl t ↦ rw t (expired-remaining now public_id rows r d e)
            | inr t ↦ rw t (read-Granted now public_id rows r r.ciphertext d e s q t refl)
          ])
    ]

consume-AllSound :
    (now : ℕ) (public_id : String) (rows : List Whisper)
    → AllSound rows
    → AllSound (consume now public_id rows).1
unfolding consume consume_locked
consume-AllSound now public_id rows h =
    elim (Option-cases (Table.find (readable now public_id) rows)) [
      | inl e ↦ rw e h
      | inr (r, e) ↦
          let s : IsSound r = Table.find-All IsSound (readable now public_id) rows r e h in
          let q : readable now public_id r ≡ true =
            Table.find-true (readable now public_id) rows r e in
          rw e (elim (Bool-cases (leb r.expires_at now)) [
            | inl t ↦ rw t (
                Table.save-All IsSound (λ x. x.id) (expired_row now r) rows
                  (expired-IsSound now r s) h)
            | inr t ↦ rw t (
                Table.save-All IsSound (λ x. x.id) (read_row now r) rows
                  (read-IsSound now r (ground arith) s) h)
          ])
    ]

consume-Distinct :
    (now : ℕ) (public_id : String) (rows : List Whisper)
    → Distinct (λ x. x.id) rows
    → Distinct (λ x. x.id) (consume now public_id rows).1
unfolding consume consume_locked
consume-Distinct now public_id rows d =
    elim (Option-cases (Table.find (readable now public_id) rows)) [
      | inl e ↦ rw e d
      | inr (r, e) ↦ rw e (elim (Bool-cases (leb r.expires_at now)) [
        | inl t ↦ rw t (save-Distinct (λ x. x.id) (expired_row now r) rows d)
        | inr t ↦ rw t (save-Distinct (λ x. x.id) (read_row now r) rows d)
      ])
    ]

-- A history of reads, each with its clock reading: how many delivered a ciphertext, and the table.
unfoldable pub run : List (ℕ × String) → List Whisper → ℕ × List Whisper
run [] rows = (0, rows)
run (c ∷ cs) rows =
    let out = consume c.0 c.1 rows in
    let rest = run cs out.1 in ((if is_some out.0 then 1 else 0) + rest.0, rest.1)

Granted-count :
    (now : ℕ) (public_id : String) (rows : List Whisper) (out : Option (List ℕ) × List Whisper)
    → Granted now public_id rows out
    → (if is_some out.0 then 1 else 0) + remaining out.1 ≡ remaining rows
Granted-count now public_id rows (some bytes, rows') g =
    let (r, e, c, a, b, m) = g in omega (arith, m)
Granted-count now public_id rows (none, rows') g = omega (arith, g)

-- Over any history of reads, at any times, of a table of sound handoffs with different ids, the
-- delivered reads and the reads that are left are together the reads that were left at the start:
-- no handoff is delivered more often than its limit allows.
pub run-remaining :
    (cs : List (ℕ × String)) (rows : List Whisper)
    → Distinct (λ x. x.id) rows
    → AllSound rows
    → (run cs rows).0 + remaining (run cs rows).1 ≡ remaining rows
unfolding run
run-remaining [] rows d h = omega arith
run-remaining (c ∷ cs) rows d h =
    let out = consume c.0 c.1 rows in
    omega (
      arith,
      run-remaining cs out.1 (consume-Distinct c.0 c.1 rows d) (consume-AllSound c.0 c.1 rows h),
      Granted-count c.0 c.1 rows out (consume-Granted c.0 c.1 rows d h),
    )
