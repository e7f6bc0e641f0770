-- ===== src/Payment/Service.antt =====
-- src/payment/payment-service.ts: the quote and the three ways to fulfil an order. The provider
-- (src/payment/payment-adapter.ts), SHA-256, the invoice decoder and the tests of hexadecimal texts
-- are parameters. A call takes the clock and the generated ids of its transactions.
pub mod Settlement
use the402machine.Base.{
  ℕ, ◌+◌, ◌*◌, min, String, Bool, true, false, not, ◌||◌, Option, none, some, List, leb,
  if◌then◌else◌, get_or, Result, ok, err, ◌>>=◌, ◌>>◌, throw_if, or_throw, str_eq, is_none,
}
use the402machine.Domain.Plans.{PlanId, Product}
use the402machine.Payment.Order.{PaymentOrder, is_invoice_issued, is_paid, is_dispensed, same_text}
use the402machine.Payment.Delivery.{DispensedResource, Platform}
use the402machine.Payment.Tables.{Db, Protocol, map_order, find_order}
use the402machine.Payment.Orders.{
  PaymentError, invalid_invoice, CreateOrderInput, create_order, Invoice, ensure_invoice, mark_paid,
}
use the402machine.Payment.Dispense.{
  Provisioner, dispense_paid_order, ChallengeInput, Refusal, Consumption, consumed, refused,
  consume_payment_challenge_and_dispense,
}
use the402machine.Payment.Dispense
use the402machine.Payment.Bolt11.{Network, ValidatedBolt11}

-- What one call of the provider returns.
pub record Adapter : Type 0 where
  pub find_invoice : (order_id : String) (amount_sats : ℕ) → Option Invoice
  pub create_invoice : (amount_sats : ℕ) (order_id : String) → Result PaymentError Invoice
  pub verify_invoice : (payment_hash : String) (amount_sats : ℕ) → Bool

-- `validateBolt11`, as src/payment/bolt11-validation.ts in Payment/Bolt11 has it.
abbrev pub Decoder : Type 0
Decoder = (bolt11 payment_hash : String) (amount_sats : ℕ) → Result PaymentError ValidatedBolt11

pub record PaymentQuote : Type 0 where
  pub order_id : String
  pub product : Product
  pub plan_id : PlanId
  pub amount_sats : ℕ
  pub bolt11 : String
  pub payment_hash : String
  pub network : Option Network
  pub expires_at : ℕ

abbrev quote_invoice : Option Invoice → Result PaymentError Invoice → Result PaymentError Invoice
quote_invoice none made = made
quote_invoice (some invoice) made = ok invoice

unfoldable pub quote_response :
    ℕ → PaymentOrder → String → Network → ℕ → Result PaymentError PaymentQuote
quote_response clock order bolt11 network invoice_expires_at = do
  hash ← or_throw order.payment_hash invalid_invoice
  ok (record {
    order_id = order.id;
    product = order.product;
    plan_id = order.plan_id;
    amount_sats = order.amount_sats;
    bolt11 = bolt11;
    payment_hash = hash;
    network = some network;
    expires_at = min invoice_expires_at (clock + 10 * 60 * 1_000);
  })

-- The tables after a call that throws: each transaction that returned stays.
abbrev pub Effect : Type 0 → Type 0
Effect A = Result PaymentError A × Db

abbrev pub quote_result : ℕ → Decoder → PaymentOrder → String → Result PaymentError PaymentQuote
quote_result clock decode order bolt11 = do
  invoice ← decode bolt11 (get_or order.payment_hash "") order.amount_sats
  quote_response clock order bolt11 invoice.network invoice.expires_at

quote_ensured :
    ℕ → Decoder → Db → Result PaymentError ((PaymentOrder × String) × Db) → Effect PaymentQuote
unfolding quote_response
quote_ensured clock decode db (err e) = (err e, db)
quote_ensured clock decode db (ok out) = (quote_result clock decode out.0.0 out.0.1, out.1)

quote_created :
    ℕ → ℕ → Adapter → Decoder → Db → Result PaymentError (PaymentOrder × Db) → Effect PaymentQuote
quote_created now clock adapter decode db (err e) = (err e, db)
quote_created now clock adapter decode db (ok out) = quote_ensured clock decode out.1 (
    ensure_invoice now out.0.id
      (quote_invoice (adapter.find_invoice out.0.id out.0.amount_sats)
        (adapter.create_invoice out.0.amount_sats out.0.id))
      out.1)

unfoldable pub quote :
    (now clock : ℕ) (id : String) → Adapter → Decoder → CreateOrderInput → Db → Effect PaymentQuote
unfolding quote_created quote_ensured
quote now clock id adapter decode input db =
    quote_created now clock adapter decode db (create_order now id input db)

-- The fresh values of one call: the database's clock, the id and the nonce of a new resource.
pub record Fresh : Type 0 where
  pub now : ℕ
  pub resource_id : String
  pub nonce : List ℕ

module _ (os : Platform) (provision : Provisioner) where
  dispensed_effect :
      Db → Result PaymentError (Option DispensedResource × Db) → Effect (Option DispensedResource)
  dispensed_effect db (err e) = (err e, db)
  dispensed_effect db (ok out) = (ok out.0, out.1)

  abbrev dispense_now : Fresh → String → Db → Effect (Option DispensedResource)
  dispense_now fresh id db =
      dispensed_effect db
        (dispense_paid_order os fresh.now fresh.resource_id fresh.nonce provision id db)

  fulfill_paid : Fresh → String → Option PaymentOrder × Db → Effect (Option DispensedResource)
  unfolding dispensed_effect
  fulfill_paid fresh id (none, db) = (ok none, db)
  fulfill_paid fresh id (some order, db) = dispense_now fresh id db

  unfoldable pub fulfill_hashed :
      Adapter
      → Fresh
      → String
      → Db
      → PaymentOrder
      → Option String
      → Effect (Option DispensedResource)
  unfolding fulfill_paid dispensed_effect
  fulfill_hashed adapter fresh id db order none = (ok none, db)
  fulfill_hashed adapter fresh id db order (some hash) =
      if is_dispensed order.status
      then dispense_now fresh id db
      else if not (adapter.verify_invoice hash order.amount_sats)
      then (ok none, db)
      else if is_paid order.status
      then fulfill_paid fresh id (some order, db)
      else fulfill_paid fresh id (mark_paid fresh.now id db)

  unfoldable pub fulfill_found :
      Adapter → Fresh → String → Db → Option PaymentOrder → Effect (Option DispensedResource)
  unfolding fulfill_hashed
  fulfill_found adapter fresh id db none = (ok none, db)
  fulfill_found adapter fresh id db (some order) =
      fulfill_hashed adapter fresh id db order order.payment_hash

  -- `getOrder`, without the joined public id of the resource, which no method here reads.
  abbrev pub get_order : String → Db → Option PaymentOrder
  get_order id db = elim (find_order id db) [ none ↦ none | some row ↦ some (map_order none row) ]

  -- `none` is `{ settled: false }`.
  unfoldable pub fulfill : Adapter → Fresh → String → Db → Effect (Option DispensedResource)
  unfolding fulfill_found
  fulfill adapter fresh id db = fulfill_found adapter fresh id db (get_order id db)

  pub data Fulfilment : Type 0 where
    settled : DispensedResource → Fulfilment
    invalid_preimage : Fulfilment
    not_settled : Refusal → Fulfilment

  abbrev fulfilment_of : Effect (Option DispensedResource) → Effect Fulfilment
  fulfilment_of (err e, db) = (err e, db)
  fulfilment_of (ok none, db) = (ok (not_settled Dispense.unsettled), db)
  fulfilment_of (ok (some resource), db) = (ok (settled resource), db)

  -- `digest` is SHA-256 of the bytes of a hexadecimal text, and `is_hex` the match of
  -- `^[a-f0-9]{64}$`.
  module _ (is_hex : String → Bool) (digest : String → String) where
    preimage_found :
        Adapter → Fresh → String → String → Db → Option PaymentOrder → Effect Fulfilment
    preimage_found adapter fresh id preimage db none = (ok (not_settled Dispense.unsettled), db)
    preimage_found adapter fresh id preimage db (some order) =
        if is_none order.payment_hash
        then (ok (not_settled Dispense.unsettled), db)
        else if not (same_text order.payment_hash (some (digest preimage)))
        then (ok invalid_preimage, db)
        else fulfilment_of (fulfill adapter fresh id db)

    unfoldable pub fulfill_with_preimage :
        Adapter → Fresh → String → String → Db → Effect Fulfilment
    unfolding preimage_found
    fulfill_with_preimage adapter fresh id preimage db =
        if not (is_hex preimage)
        then (ok invalid_preimage, db)
        else preimage_found adapter fresh id preimage db (get_order id db)

    consumption_effect : Db → Result PaymentError (Consumption × Db) → Effect Fulfilment
    consumption_effect db (err e) = (err e, db)
    consumption_effect db (ok (consumed resource, db')) = (ok (settled resource), db')
    consumption_effect db (ok (refused reason, db')) = (ok (not_settled reason), db')

    abbrev consume_now : ℕ → Fresh → ChallengeInput → Db → Effect Fulfilment
    consume_now clock fresh input db = consumption_effect db (
        consume_payment_challenge_and_dispense os fresh.now clock fresh.resource_id fresh.nonce
          provision input db)

    agent_found :
        ℕ → Adapter → Fresh → ChallengeInput → String → Db → Option PaymentOrder → Effect Fulfilment
    unfolding consumption_effect
    agent_found clock adapter fresh input preimage db none =
        (ok (not_settled Dispense.mismatch), db)
    agent_found clock adapter fresh input preimage db (some order) =
        if not (same_text order.payment_hash (some input.payment_hash))
        then (ok (not_settled Dispense.mismatch), db)
        else if not (same_text order.payment_hash (some (digest preimage)))
        then (ok invalid_preimage, db)
        else if not (adapter.verify_invoice input.payment_hash order.amount_sats)
        then (ok (not_settled Dispense.unsettled), db)
        else if is_invoice_issued order.status
        then consume_now clock fresh input (mark_paid fresh.now order.id db).1
        else consume_now clock fresh input db

    unfoldable pub fulfill_agent_payment :
        ℕ → Adapter → Fresh → ChallengeInput → String → Db → Effect Fulfilment
    unfolding agent_found
    fulfill_agent_payment clock adapter fresh input preimage db =
        if leb input.expires_at clock
        then (ok (not_settled Dispense.has_expired), db)
        else if not (is_hex preimage)
        then (ok invalid_preimage, db)
        else agent_found clock adapter fresh input preimage db (get_order input.order_id db)
