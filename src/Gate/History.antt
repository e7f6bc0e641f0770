-- ===== src/Gate/History.antt =====
-- Histories of calls of `GateRepository` on the payment intents.
use the402machine.Base.{
  ℕ, String, Bool, true, ◌||◌, Option, none, some, List, [], ◌∷◌, ltb, leb, ◌≡◌, refl, sym, subst,
  inl, inr, Bool-cases, Result-cases, str_eq, Leaves, after, Leaves-after,
}
use the402machine.Base.Table
use the402machine.Base.Keys.{IsNew}
use the402machine.Gate.{
  Project, Intent, Db, Source, is_paid, find_intent, CreateIntentInput, create_intent,
  claim_invoice_issuance, GateInvoice, attach_invoice, mark_invoice_uncertain, mark_paid,
  expire_due_intents, Grant, Authorization,
}
use the402machine.Gate.Authorize.{
  GateRuntime, month_of, AuthorizeInput, authorization_for, free_used, first_grant, charge_grant,
  charge, record_authorization, authorize_project, authorize_new, authorize_found, authorize_intent,
  paid_in_time, authorized_row,
}
use the402machine.Gate.Intents.{
  IsConsistent, Holds, AllConsistent, stored, expire-AllConsistent, found-IsConsistent,
  create-AllConsistent, claim-AllConsistent, attach-AllConsistent, uncertain-AllConsistent,
  mark_paid-AllConsistent, authorized-IsConsistent,
}

module _ (rt : GateRuntime) where
  charge_grant-intents :
      (found : Option Grant) (db : Db)
      → Leaves (λ d. d.intents ≡ db.intents) (charge_grant rt found db)
  unfolding charge_grant
  charge_grant-intents none db = tt
  charge_grant-intents (some g) db = refl

  charge-intents :
      (now : ℕ) (project_id : String) (project : Project) (db : Db)
      → Leaves (λ d. d.intents ≡ db.intents) (charge rt now project_id project db)
  unfolding charge
  charge-intents now project_id project db =
      elim (Bool-cases
        (leb project.monthly_free_limit (free_used project_id (month_of rt now) db))) [
          | inl t ↦ rw t (charge_grant-intents (first_grant rt project_id now db.grants) db)
          | inr t ↦ rw t refl
        ]

  record-AllConsistent :
      (clock : ℕ) (input : AuthorizeInput) (i : Intent) (project : Project) (db : Db)
      (out : Source × Db)
      → is_paid i.state ≡ true
      → IsConsistent i
      → AllConsistent db
      → out.1.intents ≡ db.intents
      → Leaves AllConsistent (record_authorization rt clock input i project out)
  unfolding record_authorization
  record-AllConsistent clock input i project db out p c h e = elim (Bool-cases bad) [
    | inl t ↦ rw t tt
    | inr t ↦ rw t (
        stored (authorized_row clock input.now receipt i) out.1
          (authorized-IsConsistent clock input.now receipt i p c) (subst Holds (sym e) h))
  ]
    where
      receipt : String
      receipt = input.create_receipt input.receipt_jti project.public_id

      bad : Bool
      bad = ltb (rt.size receipt) 64 || ltb 8_192 (rt.size receipt)

  project-AllConsistent :
      (clock : ℕ) (input : AuthorizeInput) (i : Intent) (db : Db) (found : Option Project)
      → is_paid i.state ≡ true
      → IsConsistent i
      → AllConsistent db
      → Leaves AllConsistent (authorize_project rt clock input i db found)
  unfolding authorize_project
  project-AllConsistent clock input i db none p c h = tt
  project-AllConsistent clock input i db (some project) p c h =
      elim (Result-cases (charge rt input.now i.project_id project db)) [
        | inl (out, f) ↦ rw f (
            record-AllConsistent clock input i project db out p c h
              (rw f at (charge-intents input.now i.project_id project db)))
        | inr (x, f) ↦ rw f tt
      ]

  found-AllConsistent :
      (clock : ℕ) (input : AuthorizeInput) (db : Db) (found : Option Intent)
      (known : Option Authorization)
      → find_intent input.intent_id db ≡ found
      → AllConsistent db
      → Leaves AllConsistent (authorize_found rt clock input db found known)
  unfolding authorize_found authorize_new
  found-AllConsistent clock input db none known e h = tt
  found-AllConsistent clock input db (some i) (some a) e h = h
  found-AllConsistent clock input db (some i) none e h = elim (Bool-cases (is_paid i.state)) [
    | inr p ↦ rw p tt
    | inl p ↦ rw p (elim (Bool-cases (paid_in_time rt i)) [
      | inr t ↦ rw t tt
      | inl t ↦ rw t (
          project-AllConsistent clock input i db
            (Table.find (λ x. str_eq x.id i.project_id) db.projects) p
            (found-IsConsistent input.intent_id db i e h) h)
    ])
  ]

  -- A call with its clock reading and the id of a new row.
  pub data Call : Type 0 where
    creates : (now : ℕ) (id : String) → CreateIntentInput → Call
    claims : (now : ℕ) (id : String) → Call
    attaches : (now : ℕ) (id : String) → GateInvoice → Call
    loses : (now : ℕ) (id : String) → Call
    pays : (now : ℕ) (id : String) (paid_at : ℕ) → Call
    authorizes : (clock : ℕ) → AuthorizeInput → Call
    expires_due : (clock now : ℕ) (locked : String → Bool) (limit : ℕ) → Call

  unfoldable pub step : Db → Call → Db
  step db (creates now id input) = after db (create_intent now id input db)
  step db (claims now id) = (claim_invoice_issuance now id db).1
  step db (attaches now id invoice) = after db (attach_invoice now id invoice db)
  step db (loses now id) = after db (mark_invoice_uncertain now id db)
  step db (pays now id paid_at) = (mark_paid now id paid_at db).1
  step db (authorizes clock input) = after db (authorize_intent rt clock input db)
  step db (expires_due clock now locked limit) =
      after db (expire_due_intents clock now locked limit db)

  unfoldable pub run : Db → List Call → Db
  run db [] = db
  run db (c ∷ cs) = run (step db c) cs

  -- The database generates a new id for a new intent.
  abbrev pub IsFresh : Db → Call → Type 0
  IsFresh db (creates now id input) = IsNew (λ i. i.id) id db.intents
  IsFresh db _ = Unit

  abbrev pub AllFresh : Db → List Call → Type 0
  AllFresh db [] = Unit
  AllFresh db (c ∷ cs) = IsFresh db c × AllFresh (step db c) cs

  step-AllConsistent :
      (db : Db) (c : Call) → IsFresh db c → AllConsistent db → AllConsistent (step db c)
  unfolding step authorize_intent
  step-AllConsistent db (creates now id input) n h = create-AllConsistent now id input db n h
  step-AllConsistent db (claims now id) n h = claim-AllConsistent now id db h
  step-AllConsistent db (attaches now id invoice) n h = attach-AllConsistent now id invoice db h
  step-AllConsistent db (loses now id) n h = uncertain-AllConsistent now id db h
  step-AllConsistent db (pays now id paid_at) n h = mark_paid-AllConsistent now id paid_at db h
  step-AllConsistent db (authorizes clock input) n h =
      Leaves-after AllConsistent db (authorize_intent rt clock input db) h (
        found-AllConsistent clock input db (find_intent input.intent_id db)
          (authorization_for input.intent_id db) refl h)
  step-AllConsistent db (expires_due clock now locked limit) n h =
      expire-AllConsistent clock now locked limit db h

  -- From intents with distinct ids that satisfy the constraints of the table, and with new ids for
  -- new intents, every history of creations, claims, invoices, uncertain outcomes, payments,
  -- authorizations and expiry sweeps leaves such intents: a pending intent has no invoice; an
  -- issued, paid, authorized or expired one has all of it; the payment time is set exactly while an
  -- intent is paid or authorized, and the authorization time and the receipt exactly while it is
  -- authorized.
  pub run-AllConsistent_gate :
      (db : Db) (cs : List Call) → AllFresh db cs → AllConsistent db → AllConsistent (run db cs)
  unfolding run
  run-AllConsistent_gate db [] f h = h
  run-AllConsistent_gate db (c ∷ cs) f h =
      run-AllConsistent_gate (step db c) cs f.1 (step-AllConsistent db c f.0 h)
