-- ===== src/Payment/Order.antt =====
-- src/payment/payment-domain.ts: an order and its transitions.
use the402machine.Base.{
  ℕ, String, Bool, true, false, not, Option, none, some, List, Result, ok, ◌>>◌, throw_if, str_eq,
}
use the402machine.Domain.Plans.{PlanId, Product, price_for_product}

pub data PaymentOrderStatus : Type 0 where
  created invoice_issued paid dispensed expired failed : PaymentOrderStatus

pub record PaymentOrder : Type 0 where
  pub id : String
  pub idempotency_key : String
  pub product : Product
  pub plan_id : PlanId
  pub product_payload : Option (List ℕ)
  pub whisper_read_limit : Option ℕ
  pub whisper_reveal_at : Option ℕ
  pub amount_sats : ℕ
  pub status : PaymentOrderStatus
  pub payment_hash : Option String
  pub resource_public_id : Option String
  pub created_at : ℕ
  pub paid_at : Option ℕ
  pub dispensed_at : Option ℕ

pub record CreatePaymentOrder : Type 0 where
  pub id : String
  pub idempotency_key : String
  pub product : Product
  pub plan_id : PlanId
  pub product_payload : Option (List ℕ)
  pub whisper_read_limit : Option ℕ
  pub whisper_reveal_at : Option ℕ
  pub created_at : ℕ

pub data OrderError : Type 0 where
  illegal_transition : (from to : PaymentOrderStatus) → OrderError
  invalid_payment_hash payment_hash_changed : OrderError

abbrev pub is_created : PaymentOrderStatus → Bool
is_created created = true
is_created _ = false

abbrev pub is_invoice_issued : PaymentOrderStatus → Bool
is_invoice_issued invoice_issued = true
is_invoice_issued _ = false

abbrev pub is_paid : PaymentOrderStatus → Bool
is_paid paid = true
is_paid _ = false

abbrev pub is_dispensed : PaymentOrderStatus → Bool
is_dispensed dispensed = true
is_dispensed _ = false

unfoldable pub create_payment_order : CreatePaymentOrder → PaymentOrder
create_payment_order input = record {
  id = input.id;
  idempotency_key = input.idempotency_key;
  product = input.product;
  plan_id = input.plan_id;
  product_payload = input.product_payload;
  whisper_read_limit = input.whisper_read_limit;
  whisper_reveal_at = input.whisper_reveal_at;
  amount_sats = price_for_product input.product input.plan_id;
  status = created;
  payment_hash = none;
  resource_public_id = none;
  created_at = input.created_at;
  paid_at = none;
  dispensed_at = none;
}

-- `a === b` for texts that may be null.
abbrev pub same_text : Option String → Option String → Bool
same_text none none = true
same_text (some a) (some b) = str_eq a b
same_text _ _ = false

-- `is_hash` is the match of `^[a-f0-9]{64}$`.
module _ (is_hash : String → Bool) where
  unfoldable pub mark_payment_order_paid :
      PaymentOrder → String → ℕ → Result OrderError PaymentOrder
  mark_payment_order_paid order payment_hash paid_at = do
    throw_if (not (is_invoice_issued order.status)) (illegal_transition order.status paid)
    throw_if (not (is_hash payment_hash)) invalid_payment_hash
    throw_if (not (same_text order.payment_hash (some payment_hash))) payment_hash_changed
    ok (record order { status = paid; payment_hash = some payment_hash; paid_at = some paid_at })

  unfoldable pub attach_payment_order_invoice :
      PaymentOrder → String → Result OrderError PaymentOrder
  attach_payment_order_invoice order payment_hash = do
    throw_if (not (is_created order.status)) (illegal_transition order.status invoice_issued)
    throw_if (not (is_hash payment_hash)) invalid_payment_hash
    ok (record order { status = invoice_issued; payment_hash = some payment_hash })

unfoldable pub mark_payment_order_dispensed :
    PaymentOrder → String → ℕ → Result OrderError PaymentOrder
mark_payment_order_dispensed order resource_public_id dispensed_at = do
  throw_if (not (is_paid order.status)) (illegal_transition order.status dispensed)
  ok (record order {
    status = dispensed;
    resource_public_id = some resource_public_id;
    dispensed_at = some dispensed_at;
  })
