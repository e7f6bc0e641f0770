-- ===== src/Payment/Orders.antt =====
-- src/payment/payment-repository.ts: the creation of an order, its invoice and its payment. Each
-- operation takes the database's clock and, where it inserts, the generated id; one that throws
-- leaves the tables as they were. A unique violation is modelled for the idempotency key, the
-- payment hash and the challenge's order.
use the402machine.Base.{
  ℕ, String, Bool, true, false, not, ◌&&◌, Option, none, some, List, [], ◌∷◌, ◌++◌, ltb, ◌==◌,
  if◌then◌else◌, get_or, is_some, length, str_eq, any, Result, ok, ◌>>=◌, ◌>>◌, throw_if, or_throw,
}
use the402machine.Base.Table
use the402machine.Domain.Plans.{
  PlanId, Product, catch_plans, whisper_plans, pulse_plans, is_whisper_read_limit,
  max_whisper_ciphertext_bytes, price_for_product,
}
use the402machine.Payment.Order.{
  PaymentOrder, created, invoice_issued, paid, is_created, is_invoice_issued, same_text,
}
use the402machine.Payment.Tables.{
  OrderRow, Db, payment_paid, map_order, find_order, store_order, record_event, same_product,
}

pub data PaymentError : Type 0 where
  plan_not_available unexpected_payload invalid_ciphertext invalid_read_limit : PaymentError
  key_belongs_to_another_purchase : PaymentError
  not_awaiting_invoice order_not_found unique_violation : PaymentError
  delivery_invalid dispensed_incomplete product_mismatch provision_failed : PaymentError
  missing_occurrence invalid_invoice : PaymentError

pub record CreateOrderInput : Type 0 where
  pub idempotency_key : String
  pub product : Option Product
  pub plan_id : PlanId
  pub product_payload : Option (List ℕ)
  pub whisper_read_limit : Option ℕ
  pub whisper_reveal_at : Option ℕ

-- The purchase that an input asks for, with its defaults filled in.
pub record Purchase : Type 0 where
  pub product : Product
  pub plan_id : PlanId
  pub product_payload : Option (List ℕ)
  pub whisper_read_limit : Option ℕ
  pub whisper_reveal_at : Option ℕ

abbrev pub plan_available : Product → PlanId → Bool
plan_available Product.catch p = (catch_plans p).available
plan_available Product.whisper p = (whisper_plans p).available
plan_available Product.pulse p = (pulse_plans p).available

abbrev read_limit_of : Product → PlanId → Option ℕ → Option ℕ
read_limit_of Product.whisper p limit = some (get_or limit (whisper_plans p).read_limit)
read_limit_of _ p limit = none

abbrev reveal_of : Product → Option ℕ → Option ℕ
reveal_of Product.whisper at = at
reveal_of _ at = none

abbrev payload_fits : Option (List ℕ) → Bool
payload_fits none = false
payload_fits (some bytes) =
    not (ltb (length bytes) 30) && not (ltb max_whisper_ciphertext_bytes (length bytes))

abbrev read_limit_fits : PlanId → Option ℕ → Bool
read_limit_fits p none = false
read_limit_fits p (some n) = is_whisper_read_limit p n

-- The checks of the payload and of the read limit.
abbrev pub check_purchase : Product → Purchase → Result PaymentError (Unit {0})
check_purchase Product.whisper w = do
  throw_if (not (payload_fits w.product_payload)) invalid_ciphertext
  throw_if (not (read_limit_fits w.plan_id w.whisper_read_limit)) invalid_read_limit
check_purchase _ w = throw_if (is_some w.product_payload) unexpected_payload

abbrev pub purchase_of : CreateOrderInput → Purchase
purchase_of input = record {
  product = product;
  plan_id = input.plan_id;
  product_payload = input.product_payload;
  whisper_read_limit = read_limit_of product input.plan_id input.whisper_read_limit;
  whisper_reveal_at = reveal_of product input.whisper_reveal_at;
}
  where
    product : Product
    product = get_or input.product Product.catch

abbrev pub same_bytes : List ℕ → List ℕ → Bool
same_bytes [] [] = true
same_bytes (x ∷ xs) (y ∷ ys) = (x == y) && same_bytes xs ys
same_bytes _ _ = false

-- `buffersEqual`
abbrev pub buffers_equal : Option (List ℕ) → Option (List ℕ) → Bool
buffers_equal none none = true
buffers_equal (some a) (some b) = same_bytes a b
buffers_equal _ _ = false

-- `datesEqual`, and `===` on the read limits.
abbrev pub same_number : Option ℕ → Option ℕ → Bool
same_number none none = true
same_number (some a) (some b) = a == b
same_number _ _ = false

abbrev pub same_plan : PlanId → PlanId → Bool
same_plan PlanId.spark PlanId.spark = true
same_plan PlanId.standard PlanId.standard = true
same_plan PlanId.long PlanId.long = true
same_plan _ _ = false

abbrev pub is_purchase : OrderRow → Purchase → Bool
is_purchase row w =
    same_plan row.plan_id w.plan_id
    && same_product row.product w.product
    && same_number row.whisper_read_limit w.whisper_read_limit
    && same_number row.whisper_reveal_at w.whisper_reveal_at
    && buffers_equal row.product_payload w.product_payload

unfoldable pub new_order : ℕ → String → String → Purchase → OrderRow
new_order now id idempotency_key w = record {
  id = id;
  idempotency_key = idempotency_key;
  product = w.product;
  plan_id = w.plan_id;
  product_payload = w.product_payload;
  whisper_read_limit = w.whisper_read_limit;
  whisper_reveal_at = w.whisper_reveal_at;
  amount_sats = price_for_product w.product w.plan_id;
  status = created;
  payment_hash = none;
  bolt11 = none;
  resource_id = none;
  delivery_ciphertext = none;
  created_at = now;
  invoice_issued_at = none;
  paid_at = none;
  dispensed_at = none;
  updated_at = now;
}

-- The order with this idempotency key.
abbrev pub by_key : String → Db → Option OrderRow
by_key key db = Table.find (λ r. str_eq r.idempotency_key key) db.orders

-- `insert … on conflict (idempotency_key) do update`, which keeps the row that is there.
unfoldable pub upsert : ℕ → String → String → Purchase → Db → Option OrderRow → OrderRow × Db
upsert now id key w db (some row) = (row, db)
upsert now id key w db none =
    (new_order now id key w, record db { orders = db.orders ++ new_order now id key w ∷ [] })

unfoldable pub create_order :
    ℕ → String → CreateOrderInput → Db → Result PaymentError (PaymentOrder × Db)
unfolding upsert
create_order now id input db = do
  throw_if (not (plan_available w.product w.plan_id)) plan_not_available
  check_purchase w.product w
  let out = upsert now id input.idempotency_key w db (by_key input.idempotency_key db)
  throw_if (not (is_purchase out.0 w)) key_belongs_to_another_purchase
  ok (map_order none out.0, out.1)
  where
    w : Purchase
    w = purchase_of input

pub record Invoice : Type 0 where
  pub payment_hash : String
  pub bolt11 : String

unfoldable pub invoiced_row : ℕ → Invoice → OrderRow → OrderRow
invoiced_row now invoice row = record row {
  status = invoice_issued;
  payment_hash = some invoice.payment_hash;
  bolt11 = some invoice.bolt11;
  invoice_issued_at = some now;
  updated_at = now;
}

abbrev pub has_hash : String → OrderRow → Bool
has_hash hash row = same_text row.payment_hash (some hash)

-- The update of an order that is `created`; `payment_hash` is unique.
unfoldable pub attach_to : ℕ → Invoice → Db → OrderRow → Result PaymentError (OrderRow × Db)
attach_to now invoice db row = do
  throw_if (not (is_created row.status)) not_awaiting_invoice
  throw_if (any (has_hash invoice.payment_hash) db.orders) unique_violation
  ok (invoiced_row now invoice row, store_order (invoiced_row now invoice row) db)

unfoldable pub attach_invoice : ℕ → String → Invoice → Db → Result PaymentError (PaymentOrder × Db)
unfolding attach_to
attach_invoice now id invoice db = do
  row ← or_throw (find_order id db) not_awaiting_invoice
  out ← attach_to now invoice db row
  ok (map_order none out.0, out.1)

unfoldable pub make_row :
    ℕ → Result PaymentError Invoice → Db → OrderRow → Result PaymentError ((OrderRow × String) × Db)
make_row now make db row = do
  throw_if (not (is_created row.status)) not_awaiting_invoice
  invoice ← make
  out ← attach_to now invoice db row
  ok ((out.0, invoice.bolt11), out.1)

-- The invoice that an order has, or that the callback makes for it.
unfoldable pub ensure_row :
    ℕ
    → Result PaymentError Invoice
    → Db
    → OrderRow
    → Option String
    → Option String
    → Result PaymentError ((OrderRow × String) × Db)
ensure_row now make db row (some hash) (some bolt11) = ok ((row, bolt11), db)
ensure_row now make db row _ _ = make_row now make db row

-- `make` is what the callback of `ensureInvoice` returns or throws.
unfoldable pub ensure_invoice :
    ℕ
    → String
    → Result PaymentError Invoice
    → Db
    → Result PaymentError ((PaymentOrder × String) × Db)
unfolding ensure_row
ensure_invoice now id make db = do
  row ← or_throw (find_order id db) order_not_found
  out ← ensure_row now make db row row.payment_hash row.bolt11
  ok ((map_order none out.0.0, out.0.1), out.1)

unfoldable pub paid_row : ℕ → OrderRow → OrderRow
paid_row now row = record row {
  status = paid;
  paid_at = some (get_or row.paid_at now);
  updated_at = now;
}

unfoldable pub pay_row : ℕ → Db → Option OrderRow → Option PaymentOrder × Db
pay_row now db none = (none, db)
pay_row now db (some row) =
    if is_invoice_issued row.status
    then (
      some (map_order none (paid_row now row)),
      record_event row payment_paid (get_or row.paid_at now) (store_order (paid_row now row) db),
    )
    else (none, db)

unfoldable pub mark_paid : ℕ → String → Db → Option PaymentOrder × Db
unfolding pay_row
mark_paid now id db = pay_row now db (find_order id db)
