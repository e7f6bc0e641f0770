-- ===== src/Payment/Service/Settlement.antt =====
-- What a fulfilled order owes to the provider's verification, and the price and expiry of a quote.
use the402machine.Base.{
  ℕ, ◌+◌, ◌≤◌, String, true, Option, none, some, ◌≡◌, refl, inl, inr, ◌⊎◌, arith, Bool-cases,
  Result, ok, err, min, leb, get_or,
}
use the402machine.Payment.Order.{PaymentOrder, is_dispensed}
use the402machine.Payment.Delivery.{DispensedResource, Platform}
use the402machine.Payment.Tables.{OrderRow, Db, map_order, find_order}
use the402machine.Payment.Orders.{PaymentError, CreateOrderInput, create_order}
use the402machine.Payment.Bolt11.{ValidatedBolt11}
use the402machine.Payment.Dispense.{Provisioner}
use the402machine.Payment.Service.{
  Adapter, Decoder, Effect, PaymentQuote, Fresh, fulfill, fulfill_found, fulfill_hashed,
  quote_response, quote_result, quote_ensured, quote_created, quote,
}

-- Why an order may be handed out: it was dispensed before, or the provider says that its hash is
-- settled for its amount.
abbrev pub Justified : Adapter → OrderRow → Type 0
Justified adapter row =
    (is_dispensed row.status ≡ true)
    ⊎ ((hash : String) × (row.payment_hash ≡ some hash)
        × (adapter.verify_invoice hash row.amount_sats ≡ true))

hashed-Justified :
    (os : Platform) (provision : Provisioner) (adapter : Adapter) (fresh : Fresh) (id : String)
    (db db' : Db) (resource : DispensedResource) (row : OrderRow) (hash : Option String)
    → row.payment_hash ≡ hash
    → fulfill_hashed os provision adapter fresh id db (map_order none row) hash
      ≡ (ok (some resource), db')
    → Justified adapter row
unfolding fulfill_hashed map_order
hashed-Justified os provision adapter fresh id db db' resource row none e h = cc
hashed-Justified os provision adapter fresh id db db' resource row (some hash) e h =
    elim (Bool-cases (is_dispensed row.status)) [
      | inl t ↦ inl t
      | inr t ↦ elim (Bool-cases (adapter.verify_invoice hash row.amount_sats)) [
        | inl u ↦ inr (hash, e, u)
        | inr u ↦ absurd (let q = rw (t, u) at h in cc)
      ]
    ]

row-Justified :
    (os : Platform) (provision : Provisioner) (adapter : Adapter) (fresh : Fresh) (id : String)
    (db db' : Db) (resource : DispensedResource) (found : Option OrderRow)
    → find_order id db ≡ found
    → fulfill_found os provision adapter fresh id db
        (elim found [ none ↦ none | some row ↦ some (map_order none row) ])
      ≡ (ok (some resource), db')
    → (row : OrderRow) × (find_order id db ≡ some row) × Justified adapter row
unfolding fulfill_found map_order
row-Justified os provision adapter fresh id db db' resource none e h = cc
row-Justified os provision adapter fresh id db db' resource (some row) e h = (
  row,
  e,
  hashed-Justified os provision adapter fresh id db db' resource row row.payment_hash refl h,
)

-- `fulfil` hands out a resource only for an order that exists and that was dispensed before or whose
-- payment hash the provider reports as settled for exactly the order's amount.
pub fulfill-Justified :
    (os : Platform) (provision : Provisioner) (adapter : Adapter) (fresh : Fresh) (id : String)
    (db db' : Db) (resource : DispensedResource)
    → fulfill os provision adapter fresh id db ≡ (ok (some resource), db')
    → (row : OrderRow) × (find_order id db ≡ some row) × Justified adapter row
unfolding fulfill
fulfill-Justified os provision adapter fresh id db db' resource h =
    row-Justified os provision adapter fresh id db db' resource (find_order id db) refl h

-- What a quote says of the validation of its invoice.
abbrev pub Validated : (clock : ℕ) → Decoder → Effect PaymentQuote → Type 0
Validated clock decode (ok q, db) =
    (invoice : ValidatedBolt11) × (decode q.bolt11 q.payment_hash q.amount_sats ≡ ok invoice)
    × (q.network ≡ some invoice.network)
    × (q.expires_at ≤ invoice.expires_at)
    × (q.expires_at ≤ clock + 600_000)
    × ((q.expires_at ≡ invoice.expires_at) ⊎ (q.expires_at ≡ clock + 600_000))
Validated clock decode (err e, db) = Unit

min-cases : (a b : ℕ) → (min a b ≡ a) ⊎ (min a b ≡ b)
min-cases a b = elim (Bool-cases (leb a b)) [
  | inl t ↦ inl (ground arith)
  | inr t ↦ inr (ground arith)
]

response-Validated :
    (clock : ℕ) (decode : Decoder) (order : PaymentOrder) (bolt11 : String) (db : Db)
    (hash : Option String) (checked : Result PaymentError ValidatedBolt11)
    → order.payment_hash ≡ hash
    → decode bolt11 (get_or hash "") order.amount_sats ≡ checked
    → Validated clock decode (quote_result clock decode order bolt11, db)
unfolding quote_response
response-Validated clock decode order bolt11 db none (err e) h d = rw (h, d) tt
response-Validated clock decode order bolt11 db none (ok invoice) h d = rw (h, d) tt
response-Validated clock decode order bolt11 db (some hash) (err e) h d = rw (h, d) tt
response-Validated clock decode order bolt11 db (some hash) (ok invoice) h d =
    rw (h, d)
      (invoice, d, refl, omega arith, omega arith, min-cases invoice.expires_at (clock + 600_000))

ensured-Validated :
    (clock : ℕ) (decode : Decoder) (db : Db)
    (ensured : Result PaymentError ((PaymentOrder × String) × Db))
    → Validated clock decode (quote_ensured clock decode db ensured)
unfolding quote_ensured
ensured-Validated clock decode db (err e) = tt
ensured-Validated clock decode db (ok ((order, bolt11), left)) =
    response-Validated clock decode order bolt11 left order.payment_hash _ refl refl

created-Validated :
    (now clock : ℕ) (adapter : Adapter) (decode : Decoder) (db : Db)
    (created : Result PaymentError (PaymentOrder × Db))
    → Validated clock decode (quote_created now clock adapter decode db created)
unfolding quote_created
created-Validated now clock adapter decode db (err e) = tt
created-Validated now clock adapter decode db (ok (order, left)) =
    ensured-Validated clock decode left _

-- A quote that is given out carries an invoice that was validated for exactly the payment hash and
-- the amount of the quote, and names its network; it expires with that invoice or ten minutes after
-- the clock, whichever comes first.
pub quote-Validated :
    (now clock : ℕ) (id : String) (adapter : Adapter) (decode : Decoder) (input : CreateOrderInput)
    (db : Db)
    → Validated clock decode (quote now clock id adapter decode input db)
unfolding quote
quote-Validated now clock id adapter decode input db =
    created-Validated now clock adapter decode db (create_order now id input db)
