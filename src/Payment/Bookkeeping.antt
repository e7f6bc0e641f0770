-- ===== src/Payment/Bookkeeping.antt =====
-- The invariant of the payment tables: the CHECK constraints of migrations/0002_payments.sql, and
-- as many new resources as dispensed orders.
use the402machine.Base.{
  ℕ, ◌+◌, String, Bool, true, ◌||◌, ◌&&◌, none, some, is_some, length, sum, All, str_eq, any,
  if◌then◌else◌, ◌≡◌, refl, sym, inl, inr, subst, arith, Bool-cases, length-append,
}
use the402machine.Base.Table
use the402machine.Base.Keys.{Distinct, save-Distinct, sum-save}
use the402machine.Domain.Plans.{price_for_product}
use the402machine.Payment.Order.{
  PaymentOrderStatus, is_created, is_invoice_issued, is_paid, is_dispensed,
}
use the402machine.Payment.Tables.{
  OrderRow, Db, EventType, AtomicProvision, catch_provision, whisper_provision, pulse_provision,
  insert_product, find_order, record_event, same_event,
}
use the402machine.Catch.Store
use the402machine.Whisper
use the402machine.Pulse

-- The statuses after the invoice.
abbrev pub has_invoice : PaymentOrderStatus → Bool
has_invoice status = is_invoice_issued status || is_paid status || is_dispensed status

pub record IsConsistent (r : OrderRow) : Type 0 where
  pub priced : r.amount_sats ≡ price_for_product r.product r.plan_id
  pub unbilled : is_created r.status ≡ true → (r.payment_hash ≡ none) × (r.bolt11 ≡ none)
  pub billed :
      has_invoice r.status ≡ true → (is_some r.payment_hash ≡ true) × (is_some r.bolt11 ≡ true)
  pub settled : is_paid r.status || is_dispensed r.status ≡ true → is_some r.paid_at ≡ true
  pub delivered :
      is_dispensed r.status ≡ true
      → (is_some r.dispensed_at ≡ true)
        × (is_some r.resource_id ≡ true)
        × (is_some r.delivery_ciphertext ≡ true)
        × (r.product_payload ≡ none)

-- The resources of the three products.
abbrev pub issued : Db → ℕ
issued db = length db.catches.resources + length db.whispers + length db.pulses

abbrev pub weight : OrderRow → ℕ
weight r = if is_dispensed r.status then 1 else 0

abbrev pub dispensed_orders : Db → ℕ
dispensed_orders db = sum weight db.orders

-- `base` resources were there without an order.
pub record IsBooked (base : ℕ) (db : Db) : Type 0 where
  pub distinct : Distinct (λ r. r.id) db.orders
  pub consistent : All IsConsistent db.orders
  pub balanced : issued db ≡ base + dispensed_orders db

pub found-IsConsistent :
    (base : ℕ) (id : String) (db : Db) (row : OrderRow)
    → find_order id db ≡ some row
    → IsBooked base db
    → IsConsistent row
found-IsConsistent base id db row e b =
    Table.find-All IsConsistent (λ r. str_eq r.id id) db.orders row e b.consistent

-- A write of one order, beside the other tables' change.
pub saved-IsBooked :
    (base : ℕ) (id : String) (db db' : Db) (row row' : OrderRow)
    → find_order id db ≡ some row
    → row'.id ≡ row.id
    → IsConsistent row'
    → db'.orders ≡ Table.save (λ r. r.id) row' db.orders
    → issued db' + weight row ≡ issued db + weight row'
    → IsBooked base db
    → IsBooked base db'
saved-IsBooked base id db db' row row' e k c o n b = record {
  distinct =
      subst (Distinct (λ r. r.id)) (sym o) (save-Distinct (λ r. r.id) row' db.orders b.distinct);
  consistent =
      subst (All IsConsistent) (sym o)
        (Table.save-All IsConsistent (λ r. r.id) row' db.orders c b.consistent);
  balanced =
      let moved : dispensed_orders db' + weight row ≡ dispensed_orders db + weight row' =
        rw o
          (sum-save (λ r. r.id) weight (λ r. str_eq r.id id) row row' db.orders b.distinct k e) in
      omega (arith, moved, n, b.balanced);
}

pub record_event-orders :
    (row : OrderRow) (kind : EventType) (at : ℕ) (db : Db)
    → ((record_event row kind at db).orders ≡ db.orders)
      × (issued (record_event row kind at db) ≡ issued db)
unfolding record_event
record_event-orders row kind at db =
    elim (Bool-cases
      (any (λ e. str_eq e.order_id row.id && same_event e.event_type kind) db.events)) [
        | inl t ↦ rw t (refl, refl)
        | inr t ↦ rw t (refl, refl)
      ]

pub insert_product-orders :
    (now : ℕ) (id : String) (input : AtomicProvision) (db : Db)
    → ((insert_product now id input db).orders ≡ db.orders)
      × (issued (insert_product now id input db) ≡ issued db + 1)
unfolding insert_product Store.provision Whisper.create Pulse.create
insert_product-orders now id (catch_provision input _ _) db =
    (refl, omega (arith, length-append db.catches.resources))
insert_product-orders now id (whisper_provision input _) db =
    (refl, omega (arith, length-append db.whispers))
insert_product-orders now id (pulse_provision input _ _) db =
    (refl, omega (arith, length-append db.pulses))
