-- ===== src/Gate/Intents.antt =====
-- The CHECK constraints of migrations/0020_gate.sql on the payment intents, as an invariant of the
-- operations that change an intent's state.
use the402machine.Base.{
  ℕ, String, Bool, true, ◌&&◌, ◌||◌, Option, none, some, List, [], ◌∷◌, ◌++◌, is_some, All, any,
  ◌≡◌, refl, inl, inr, Bool-cases, Option-cases, arith, str_eq, after, ltb,
}
use the402machine.Base.Table
use the402machine.Base.Keys.{Distinct, IsNew, save-Distinct, append-Distinct, update_in-Distinct}
use the402machine.Base.Due.{sweep-All}
use the402machine.Base.Batch.{due_keys}
use the402machine.Gate.{
  Intent, IntentState, Db, is_pending, is_issuing, is_issued, is_paid, is_authorized, is_expired,
  CreateIntentInput, new_intent, find_intent, by_key, upsert, same_request, create_intent,
  issuing_row, claim_invoice_issuance, GateInvoice, has_hash, issued_row, attach_invoice,
  uncertain_row, mark_invoice_uncertain, paid_row, in_grace, mark_paid, store_intent, expired_row,
  due_rank, is_due, expire_due_intents,
}
use the402machine.Gate.Authorize.{authorized_row}

-- The states that have an invoice.
abbrev pub has_invoice : IntentState → Bool
has_invoice s = is_issued s || is_paid s || is_authorized s || is_expired s

pub record IsConsistent (i : Intent) : Type 0 where
  pub bare :
      is_pending i.state ≡ true
      → (i.bolt11 ≡ none) × (i.payment_hash ≡ none) × (i.invoice_expires_at ≡ none)
  pub billed :
      has_invoice i.state ≡ true
      → (is_some i.bolt11 ≡ true)
        × (is_some i.payment_hash ≡ true)
        × (is_some i.invoice_expires_at ≡ true)
  pub payment_timed : is_some i.paid_at ≡ is_paid i.state || is_authorized i.state
  pub authorization_timed : is_some i.authorized_at ≡ is_authorized i.state
  pub receipted : is_some i.receipt ≡ is_authorized i.state

-- No two intents share an id, and every intent satisfies the constraints.
pub record Holds (rows : List Intent) : Type 0 where
  pub distinct : Distinct (λ i. i.id) rows
  pub consistent : All IsConsistent rows

abbrev pub AllConsistent : Db → Type 0
AllConsistent db = Holds db.intents

pub found-IsConsistent :
    (id : String) (db : Db) (i : Intent)
    → find_intent id db ≡ some i
    → AllConsistent db
    → IsConsistent i
found-IsConsistent id db i e h =
    Table.find-All IsConsistent (λ x. str_eq x.id id) db.intents i e h.consistent

pub stored :
    (i : Intent) (db : Db) → IsConsistent i → AllConsistent db → AllConsistent (store_intent i db)
stored i db c h = record {
  distinct = save-Distinct (λ x. x.id) i db.intents h.distinct;
  consistent = Table.save-All IsConsistent (λ x. x.id) i db.intents c h.consistent;
}

append-All :
    (i : Intent) (rows : List Intent)
    → IsConsistent i
    → All IsConsistent rows
    → All IsConsistent (rows ++ i ∷ [])
append-All i [] c h = (c, tt)
append-All i (x ∷ xs) c h = (h.0, append-All i xs c h.1)

new-IsConsistent :
    (now : ℕ) (id : String) (input : CreateIntentInput) → IsConsistent (new_intent now id input)
unfolding new_intent
new-IsConsistent now id input = record {
  bare = λ e. (refl, refl, refl);
  billed = λ e. cc;
  payment_timed = refl;
  authorization_timed = refl;
  receipted = refl;
}

upsert-AllConsistent :
    (now : ℕ) (id : String) (input : CreateIntentInput) (db : Db) (found : Option Intent)
    → IsNew (λ i. i.id) id db.intents
    → AllConsistent db
    → AllConsistent (upsert now id input db found).1
unfolding upsert new_intent
upsert-AllConsistent now id input db (some i) n h = h
upsert-AllConsistent now id input db none n h = record {
  distinct = append-Distinct (λ i. i.id) (new_intent now id input) db.intents n h.distinct;
  consistent =
      append-All (new_intent now id input) db.intents (new-IsConsistent now id input) h.consistent;
}

pub create-AllConsistent :
    (now : ℕ) (id : String) (input : CreateIntentInput) (db : Db)
    → IsNew (λ i. i.id) id db.intents
    → AllConsistent db
    → AllConsistent (after db (create_intent now id input db))
unfolding create_intent
create-AllConsistent now id input db n h =
    elim (Bool-cases (same_request (upsert now id input db (by_key input db)).0 input)) [
      | inl t ↦ rw t (upsert-AllConsistent now id input db (by_key input db) n h)
      | inr t ↦ rw t h
    ]

pub claim-AllConsistent :
    (now : ℕ) (id : String) (db : Db)
    → AllConsistent db
    → AllConsistent (claim_invoice_issuance now id db).1
unfolding claim_invoice_issuance issuing_row
claim-AllConsistent now id db h = elim (Option-cases (find_intent id db)) [
  | inl e ↦ rw e h
  | inr (i, e) ↦
      let c : IsConsistent i = found-IsConsistent id db i e h in
      rw e (elim (Bool-cases (is_pending i.state)) [
        | inr t ↦ rw t h
        | inl t ↦ rw t (
            stored (issuing_row now i) db
              (record {
                bare = λ q. cc;
                billed = λ q. cc;
                payment_timed = ground (arith, c.payment_timed);
                authorization_timed = ground (arith, c.authorization_timed);
                receipted = ground (arith, c.receipted);
              })
              h)
      ])
]

pub attach-AllConsistent :
    (now : ℕ) (id : String) (invoice : GateInvoice) (db : Db)
    → AllConsistent db
    → AllConsistent (after db (attach_invoice now id invoice db))
unfolding attach_invoice issued_row
attach-AllConsistent now id invoice db h = elim (Option-cases (find_intent id db)) [
  | inl e ↦ rw e h
  | inr (i, e) ↦
      let c : IsConsistent i = found-IsConsistent id db i e h in
      rw e (elim (Bool-cases (is_issuing i.state)) [
        | inr t ↦ rw t h
        | inl t ↦ rw t (elim (Bool-cases (any (has_hash invoice.payment_hash) db.intents)) [
          | inl u ↦ rw u h
          | inr u ↦ rw u (
              stored (issued_row now invoice i) db
                (record {
                  bare = λ q. cc;
                  billed = λ q. (refl, refl, refl);
                  payment_timed = ground (arith, c.payment_timed);
                  authorization_timed = ground (arith, c.authorization_timed);
                  receipted = ground (arith, c.receipted);
                })
                h)
        ])
      ])
]

pub uncertain-AllConsistent :
    (now : ℕ) (id : String) (db : Db)
    → AllConsistent db
    → AllConsistent (after db (mark_invoice_uncertain now id db))
unfolding mark_invoice_uncertain uncertain_row
uncertain-AllConsistent now id db h = elim (Option-cases (find_intent id db)) [
  | inl e ↦ rw e h
  | inr (i, e) ↦
      let c : IsConsistent i = found-IsConsistent id db i e h in
      rw e (elim (Bool-cases (is_issuing i.state)) [
        | inr t ↦ rw t h
        | inl t ↦ rw t (
            stored (uncertain_row now i) db
              (record {
                bare = λ q. cc;
                billed = λ q. cc;
                payment_timed = ground (arith, c.payment_timed);
                authorization_timed = ground (arith, c.authorization_timed);
                receipted = ground (arith, c.receipted);
              })
              h)
      ])
]

paid-IsConsistent :
    (now paid_at : ℕ) (i : Intent)
    → is_issued i.state || is_expired i.state ≡ true
    → IsConsistent i
    → IsConsistent (paid_row now paid_at i)
unfolding paid_row
paid-IsConsistent now paid_at i t c = record {
  bare = λ q. cc;
  billed = λ q. c.billed (ground arith);
  payment_timed = refl;
  authorization_timed = ground (arith, c.authorization_timed);
  receipted = ground (arith, c.receipted);
}

pub mark_paid-AllConsistent :
    (now : ℕ) (id : String) (paid_at : ℕ) (db : Db)
    → AllConsistent db
    → AllConsistent (mark_paid now id paid_at db).1
unfolding mark_paid
mark_paid-AllConsistent now id paid_at db h = elim (Option-cases (find_intent id db)) [
  | inl e ↦ rw e h
  | inr (i, e) ↦
      rw e
        (elim (Bool-cases
          ((is_issued i.state || is_expired i.state) && in_grace paid_at i.invoice_expires_at)) [
            | inl t ↦ rw t (
                stored (paid_row now paid_at i) db
                  (paid-IsConsistent now paid_at i (ground arith) (found-IsConsistent id db i e h))
                  h)
            | inr t ↦ rw t (elim (Bool-cases (is_paid i.state || is_authorized i.state)) [
              | inl u ↦ rw u h
              | inr u ↦ rw u h
            ])
          ])
]

-- An authorized row, of a paid intent.
pub authorized-IsConsistent :
    (clock now : ℕ) (receipt : String) (i : Intent)
    → is_paid i.state ≡ true
    → IsConsistent i
    → IsConsistent (authorized_row clock now receipt i)
unfolding authorized_row
authorized-IsConsistent clock now receipt i t c = record {
  bare = λ q. cc;
  billed = λ q. c.billed (ground arith);
  payment_timed = refl;
  authorization_timed = refl;
  receipted = refl;
}

expired-IsConsistent :
    (clock : ℕ) (i : Intent)
    → is_issued i.state ≡ true
    → IsConsistent i
    → IsConsistent (expired_row clock i)
unfolding expired_row
expired-IsConsistent clock i t c = record {
  bare = λ q. cc;
  billed = λ q. c.billed (ground arith);
  payment_timed = ground (arith, c.payment_timed);
  authorization_timed = ground (arith, c.authorization_timed);
  receipted = ground (arith, c.receipted);
}

-- The sweep expires only issued intents, so that every expired one has its invoice.
pub expire-AllConsistent :
    (clock now : ℕ) (locked : String → Bool) (limit : ℕ) (db : Db)
    → AllConsistent db
    → AllConsistent (after db (expire_due_intents clock now locked limit db))
unfolding expire_due_intents expired_row
expire-AllConsistent clock now locked limit db h =
    elim (Bool-cases (ltb limit 1 || ltb 1_000 limit)) [
      | inl t ↦ rw t h
      | inr t ↦ rw t (record {
        distinct =
            update_in-Distinct (λ i. i.id) (expired_row clock) (λ x. refl)
              (due_keys (λ i. i.id) due_rank (is_due now locked) limit db.intents) db.intents
              h.distinct;
        consistent =
            sweep-All (λ i. i.id) (is_due now locked) IsConsistent (expired_row clock) due_rank
              limit db.intents (λ x d c. expired-IsConsistent clock x (ground arith) c) h.distinct
              h.consistent;
      })
    ]
