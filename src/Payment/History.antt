-- ===== src/Payment/History.antt =====
-- Histories of calls of `PaymentRepository`, and what holds after each of them.
use the402machine.Base.{ℕ, String, List, [], ◌∷◌, Result, after, Leaves-after}
use the402machine.Base.Keys.{IsNew}
use the402machine.Payment.Delivery.{Platform}
use the402machine.Payment.Tables.{Db}
use the402machine.Payment.Orders.{
  PaymentError, CreateOrderInput, create_order, Invoice, attach_invoice, ensure_invoice, mark_paid,
}
use the402machine.Payment.Dispense.{
  Provisioner, dispense_paid_order, ChallengeInput, consume_payment_challenge_and_dispense,
}
use the402machine.Payment.Bookkeeping.{IsBooked}
use the402machine.Payment.Steps.{
  create_order-IsBooked, attach_invoice-IsBooked, ensure_invoice-IsBooked, mark_paid-IsBooked,
}
use the402machine.Payment.Steps.Dispensing.{dispense_paid_order-IsBooked, consume-IsBooked}

-- A call with its clock readings, the id that the database generates for it, and what its callback
-- returns or throws.
pub data Call : Type 0 where
  creates : (now : ℕ) (id : String) → CreateOrderInput → Call
  attaches : (now : ℕ) (id : String) → Invoice → Call
  ensures : (now : ℕ) (id : String) → Result PaymentError Invoice → Call
  pays : (now : ℕ) (id : String) → Call
  dispenses : (now : ℕ) (resource_id : String) (nonce : List ℕ) → Provisioner → (id : String) → Call
  consumes :
      (now clock : ℕ) (resource_id : String) (nonce : List ℕ) → Provisioner → ChallengeInput → Call

module _ (os : Platform) where
  unfoldable pub step : Db → Call → Db
  step db (creates now id input) = after db (create_order now id input db)
  step db (attaches now id invoice) = after db (attach_invoice now id invoice db)
  step db (ensures now id make) = after db (ensure_invoice now id make db)
  step db (pays now id) = (mark_paid now id db).1
  step db (dispenses now resource_id nonce provision id) =
      after db (dispense_paid_order os now resource_id nonce provision id db)
  step db (consumes now clock resource_id nonce provision input) =
      after db
        (consume_payment_challenge_and_dispense os now clock resource_id nonce provision input db)

  unfoldable pub run : Db → List Call → Db
  run db [] = db
  run db (c ∷ cs) = run (step db c) cs

  -- The id of a new order is new.
  abbrev pub IsFresh : Db → Call → Type 0
  IsFresh db (creates now id input) = IsNew (λ r. r.id) id db.orders
  IsFresh db _ = Unit

  abbrev pub AllFresh : Db → List Call → Type 0
  AllFresh db [] = Unit
  AllFresh db (c ∷ cs) = IsFresh db c × AllFresh (step db c) cs

  step-IsBooked :
      (base : ℕ) (db : Db) (c : Call) → IsFresh db c → IsBooked base db → IsBooked base (step db c)
  unfolding step
  step-IsBooked base db (creates now id input) f b =
      Leaves-after (IsBooked base) db _ b (create_order-IsBooked base now id input db f b)
  step-IsBooked base db (attaches now id invoice) f b =
      Leaves-after (IsBooked base) db _ b (attach_invoice-IsBooked base now id invoice db b)
  step-IsBooked base db (ensures now id make) f b =
      Leaves-after (IsBooked base) db _ b (ensure_invoice-IsBooked base now id make db b)
  step-IsBooked base db (pays now id) f b = mark_paid-IsBooked base now id db b
  step-IsBooked base db (dispenses now resource_id nonce provision id) f b =
      Leaves-after (IsBooked base) db (dispense_paid_order os now resource_id nonce provision id db)
        b (dispense_paid_order-IsBooked os base now resource_id nonce provision id db b)
  step-IsBooked base db (consumes now clock resource_id nonce provision input) f b =
      Leaves-after (IsBooked base) db
        (consume_payment_challenge_and_dispense os now clock resource_id nonce provision input db) b
        (consume-IsBooked os base now clock resource_id nonce provision input db b)

  -- From tables where the invariant holds, and with new ids for new orders, every history of calls
  -- leaves it: every order has its plan's price; it has an invoice once it is past creation and a
  -- payment time once it is paid; a dispensed order has its resource and its stored delivery and no
  -- payload; and the resources beyond the first `base` are as many as the dispensed orders, so that
  -- no order is dispensed twice and no resource is made for an unpaid one.
  pub run-IsBooked :
      (base : ℕ) (db : Db) (cs : List Call)
      → AllFresh db cs
      → IsBooked base db
      → IsBooked base (run db cs)
  unfolding run
  run-IsBooked base db [] f b = b
  run-IsBooked base db (c ∷ cs) f b =
      run-IsBooked base (step db c) cs f.1 (step-IsBooked base db c f.0 b)
