-- ===== src/Payment/Steps.antt =====
-- The operations on an unpaid order keep the invariant of Payment/Bookkeeping.antt.
pub mod Dispensing
use the402machine.Base.{
  ℕ, String, true, not, ◌||◌, Option, none, some, List, [], ◌∷◌, ◌++◌, is_some, leb, All, ◌≡◌, refl,
  ap, ◌∙◌, inl, inr, arith, Bool-cases, Option-cases, Result, Result-cases, ok, err, Leaves, any,
  sum-append, get_or,
}
use the402machine.Base.Table
use the402machine.Base.Keys.{IsNew, append-Distinct}
use the402machine.Payment.Order.{is_created, is_invoice_issued, is_paid, is_dispensed, same_text}
use the402machine.Payment.Delivery.{Platform, encrypt_delivery}
use the402machine.Payment.Tables.{
  OrderRow, ChallengeRow, Db, AtomicProvision, map_order, find_order, store_order, insert_product,
  product_of, same_product, delivery_of, resource_dispensed, record_event, payment_paid,
}
use the402machine.Payment.Orders.{
  PaymentError, Purchase, purchase_of, CreateOrderInput, new_order, check_purchase, is_purchase,
  plan_available, has_hash, by_key, upsert, attach_to, make_row, ensure_row, pay_row, create_order,
  Invoice, invoiced_row, attach_invoice, ensure_invoice, paid_row, mark_paid,
}
use the402machine.Payment.Dispense.{
  Provisioner, redeliver, consume_paid, consume_with, dispensed_row, deliver, dispense_paid,
  dispense_paid_order, ChallengeInput, claim, find_challenge, same_challenge, store_challenges,
  is_settled, consume_payment_challenge_and_dispense,
}
use the402machine.Payment.Bookkeeping.{
  IsConsistent, IsBooked, weight, found-IsConsistent, saved-IsBooked, record_event-orders,
  insert_product-orders,
}

append-All :
    (r : OrderRow) (rows : List OrderRow)
    → IsConsistent r
    → All IsConsistent rows
    → All IsConsistent (rows ++ r ∷ [])
append-All r [] c h = (c, tt)
append-All r (x ∷ xs) c h = (h.0, append-All r xs c h.1)

created-IsBooked :
    (base now : ℕ) (id key : String) (w : Purchase) (db : Db)
    → IsNew (λ r. r.id) id db.orders
    → IsBooked base db
    → IsBooked base (record db { orders = db.orders ++ new_order now id key w ∷ [] })
unfolding new_order
created-IsBooked base now id key w db n b = record {
  distinct = append-Distinct (λ r. r.id) (new_order now id key w) db.orders n b.distinct;
  consistent =
      append-All (new_order now id key w) db.orders
        (record {
          priced = refl;
          unbilled = λ e. (refl, refl);
          billed = λ e. cc;
          settled = λ e. cc;
          delivered = λ e. cc;
        })
        b.consistent;
  balanced = omega (arith, b.balanced, sum-append weight db.orders (new_order now id key w ∷ []));
}

upsert-IsBooked :
    (base now : ℕ) (id key : String) (w : Purchase) (db : Db) (found : Option OrderRow)
    → IsNew (λ r. r.id) id db.orders
    → IsBooked base db
    → IsBooked base (upsert now id key w db found).1
unfolding upsert
upsert-IsBooked base now id key w db none n b = created-IsBooked base now id key w db n b
upsert-IsBooked base now id key w db (some row) n b = b

-- A new order's id is new.
pub create_order-IsBooked :
    (base now : ℕ) (id : String) (input : CreateOrderInput) (db : Db)
    → IsNew (λ r. r.id) id db.orders
    → IsBooked base db
    → Leaves (IsBooked base) (create_order now id input db)
unfolding create_order
create_order-IsBooked base now id input db n b =
    elim (Result-cases (check_purchase (purchase_of input).product (purchase_of input))) [
      | inl (u, e) ↦ rw e (elim (Bool-cases (is_purchase out.0 (purchase_of input))) [
        | inl t ↦
            rw t (elim (Bool-cases (plan_available (purchase_of input).product input.plan_id)) [
              | inl v ↦ rw v kept
              | inr v ↦ rw v tt
            ])
        | inr t ↦
            rw t (elim (Bool-cases (plan_available (purchase_of input).product input.plan_id)) [
              | inl v ↦ rw v tt
              | inr v ↦ rw v tt
            ])
      ])
      | inr (x, e) ↦
          rw e (elim (Bool-cases (plan_available (purchase_of input).product input.plan_id)) [
            | inl v ↦ rw v tt
            | inr v ↦ rw v tt
          ])
    ]
  where
    out : OrderRow × Db
    out =
        upsert now id input.idempotency_key (purchase_of input) db (by_key input.idempotency_key db)

    kept : IsBooked base out.1
    kept =
        upsert-IsBooked base now id input.idempotency_key (purchase_of input) db
          (by_key input.idempotency_key db) n b

invoiced-IsBooked :
    (base now : ℕ) (id : String) (invoice : Invoice) (row : OrderRow) (db : Db)
    → find_order id db ≡ some row
    → is_created row.status ≡ true
    → IsBooked base db
    → IsBooked base (store_order (invoiced_row now invoice row) db)
unfolding invoiced_row
invoiced-IsBooked base now id invoice row db e s b =
    let c : IsConsistent row = found-IsConsistent base id db row e b in
    saved-IsBooked base id db _ row (invoiced_row now invoice row) e refl
      (record {
        priced = c.priced;
        unbilled = λ q. cc;
        billed = λ q. (refl, refl);
        settled = λ q. cc;
        delivered = λ q. cc;
      })
      refl (ground arith) b

paid-IsBooked :
    (base now at : ℕ) (id : String) (row : OrderRow) (db : Db)
    → find_order id db ≡ some row
    → is_invoice_issued row.status ≡ true
    → IsBooked base db
    → IsBooked base (record_event row payment_paid at (store_order (paid_row now row) db))
unfolding paid_row
paid-IsBooked base now at id row db e s b =
    let c : IsConsistent row = found-IsConsistent base id db row e b in
    let r = record_event-orders row payment_paid at (store_order (paid_row now row) db) in
    saved-IsBooked base id db _ row (paid_row now row) e refl
      (record {
        priced = c.priced;
        unbilled = λ q. cc;
        billed = λ q. c.billed (ground arith);
        settled = λ q. refl;
        delivered = λ q. cc;
      })
      r.0 (ground (arith, r.1)) b

attach_to-IsBooked :
    (base now : ℕ) (id : String) (invoice : Invoice) (row : OrderRow) (db : Db)
    → find_order id db ≡ some row
    → IsBooked base db
    → Leaves (IsBooked base) (attach_to now invoice db row)
unfolding attach_to
attach_to-IsBooked base now id invoice row db e b = elim (Bool-cases (is_created row.status)) [
  | inl t ↦ rw t (elim (Bool-cases (any (has_hash invoice.payment_hash) db.orders)) [
    | inl u ↦ rw u tt
    | inr u ↦ rw u (invoiced-IsBooked base now id invoice row db e t b)
  ])
  | inr t ↦ rw t tt
]

pub attach_invoice-IsBooked :
    (base now : ℕ) (id : String) (invoice : Invoice) (db : Db)
    → IsBooked base db
    → Leaves (IsBooked base) (attach_invoice now id invoice db)
unfolding attach_invoice
attach_invoice-IsBooked base now id invoice db b = elim (Option-cases (find_order id db)) [
  | inl e ↦ rw e tt
  | inr (row, e) ↦ rw e (elim (Result-cases (attach_to now invoice db row)) [
    | inl (out, f) ↦ rw f (rw f at (attach_to-IsBooked base now id invoice row db e b))
    | inr (x, f) ↦ rw f tt
  ])
]

make_row-IsBooked :
    (base now : ℕ) (id : String) (make : Result PaymentError Invoice) (row : OrderRow) (db : Db)
    → find_order id db ≡ some row
    → IsBooked base db
    → Leaves (IsBooked base) (make_row now make db row)
unfolding make_row
make_row-IsBooked base now id (err x) row db e b = elim (Bool-cases (is_created row.status)) [
  | inl t ↦ rw t tt
  | inr t ↦ rw t tt
]
make_row-IsBooked base now id (ok invoice) row db e b = elim (Bool-cases (is_created row.status)) [
  | inl t ↦ rw t (elim (Result-cases (attach_to now invoice db row)) [
    | inl (out, f) ↦ rw f (rw f at (attach_to-IsBooked base now id invoice row db e b))
    | inr (x, f) ↦ rw f tt
  ])
  | inr t ↦ rw t tt
]

ensure_row-IsBooked :
    (base now : ℕ) (id : String) (make : Result PaymentError Invoice) (row : OrderRow) (db : Db)
    (hash bolt11 : Option String)
    → find_order id db ≡ some row
    → IsBooked base db
    → Leaves (IsBooked base) (ensure_row now make db row hash bolt11)
unfolding ensure_row
ensure_row-IsBooked base now id make row db (some hash) (some bolt11) e b = b
ensure_row-IsBooked base now id make row db (some hash) none e b =
    make_row-IsBooked base now id make row db e b
ensure_row-IsBooked base now id make row db none bolt11 e b =
    make_row-IsBooked base now id make row db e b

pub ensure_invoice-IsBooked :
    (base now : ℕ) (id : String) (make : Result PaymentError Invoice) (db : Db)
    → IsBooked base db
    → Leaves (IsBooked base) (ensure_invoice now id make db)
unfolding ensure_invoice
ensure_invoice-IsBooked base now id make db b = elim (Option-cases (find_order id db)) [
  | inl e ↦ rw e tt
  | inr (row, e) ↦
      rw e (elim (Result-cases (ensure_row now make db row row.payment_hash row.bolt11)) [
        | inl (out, f) ↦
            rw f (
              rw f at (ensure_row-IsBooked base now id make row db row.payment_hash row.bolt11 e b))
        | inr (x, f) ↦ rw f tt
      ])
]

pub mark_paid-IsBooked :
    (base now : ℕ) (id : String) (db : Db)
    → IsBooked base db
    → IsBooked base (mark_paid now id db).1
unfolding mark_paid pay_row
mark_paid-IsBooked base now id db b = elim (Option-cases (find_order id db)) [
  | inl e ↦ rw e b
  | inr (row, e) ↦ rw e (elim (Bool-cases (is_invoice_issued row.status)) [
    | inl t ↦ rw t (paid-IsBooked base now (get_or row.paid_at now) id row db e t b)
    | inr t ↦ rw t b
  ])
]
