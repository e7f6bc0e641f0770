-- ===== src/Payment/Laws.antt =====
-- Repeated and refining calls of the payment repository.
use the402machine.Base.{
  ℕ, String, Bool, true, false, not, Option, none, some, List, [], ◌∷◌, ◌++◌, ◌≡◌, refl, ap, ◌∙◌,
  arith, ◌≢◌, eq_iff, Result, ok, err, ◌>>◌, throw_if, str_eq, get_or, eq_refl, subst,
}
use the402machine.Base.Table
use the402machine.Payment.Order.{PaymentOrder, OrderError}
use the402machine.Payment.Tables.{
  OrderRow, Db, map_order, find_order, store_order, payment_paid, record_event,
}
use the402machine.Payment.Orders.{
  PaymentError, plan_not_available, key_belongs_to_another_purchase, CreateOrderInput, Purchase,
  purchase_of, new_order, by_key, upsert, check_purchase, is_purchase, plan_available, create_order,
  paid_row,
}

find_append :
    (p : OrderRow → Bool) (r : OrderRow) (xs : List OrderRow)
    → Table.find p xs ≡ none
    → p r ≡ true
    → Table.find p (xs ++ r ∷ []) ≡ some r
find_append p r [] e h = rw h refl
find_append p r (x ∷ xs) e h = ground (arith, find_append p r xs)

new_order-key :
    (now : ℕ) (id key : String) (w : Purchase)
    → str_eq (new_order now id key w).idempotency_key key ≡ true
unfolding new_order
new_order-key now id key w = eq_refl key

-- After an insert under a key, the key finds the order that the insert returns.
upsert-found :
    (now : ℕ) (id key : String) (w : Purchase) (db : Db) (found : Option OrderRow)
    → by_key key db ≡ found
    → by_key key (upsert now id key w db found).1 ≡ some (upsert now id key w db found).0
unfolding upsert
upsert-found now id key w db (some row) e = e
upsert-found now id key w db none e =
    find_append (λ r. str_eq r.idempotency_key key) (new_order now id key w) db.orders e
      (new_order-key now id key w)

-- What a chain of checks returns when none throws.
checked_ok :
    (a c : Bool) (e e' : PaymentError) (m : Result PaymentError (Unit {0}))
    (r out : PaymentOrder × Db)
    → (throw_if a e >> (m >> (throw_if c e' >> ok r))) ≡ ok out
    → r ≡ out
checked_ok true c e e' m r out h = cc
checked_ok false c e e' (err x) r out h = cc
checked_ok false true e e' (ok u) r out h = cc
checked_ok false false e e' (ok u) r out h = cc

-- A chain of checks that does not throw passes on any other result as well.
checked_pass :
    (a c : Bool) (e e' : PaymentError) (m : Result PaymentError (Unit {0}))
    (r out other : PaymentOrder × Db)
    → (throw_if a e >> (m >> (throw_if c e' >> ok r))) ≡ ok out
    → (throw_if a e >> (m >> (throw_if c e' >> ok other))) ≡ ok other
checked_pass true c e e' m r out other h = cc
checked_pass false c e e' (err x) r out other h = cc
checked_pass false true e e' (ok u) r out other h = cc
checked_pass false false e e' (ok u) r out other h = refl

-- A purchase that is repeated returns the order of the first call and changes no table, at any
-- later time and whatever id is at hand, on any tables where the idempotency key still finds what
-- the first call left under it: other orders, products and events may have changed meanwhile.
pub create_order-again :
    (now later : ℕ) (id other : String) (input : CreateOrderInput) (db db' db'' : Db)
    (order : PaymentOrder)
    → create_order now id input db ≡ ok (order, db')
    → by_key input.idempotency_key db'' ≡ by_key input.idempotency_key db'
    → create_order later other input db'' ≡ ok (order, db'')
unfolding create_order upsert
create_order-again now later id other input db db' db'' order h k =
    let same : (map_order none out.0, out.1) ≡ (order, db') =
      checked_ok (not (plan_available w.product w.plan_id)) (not (is_purchase out.0 w))
        plan_not_available key_belongs_to_another_purchase (check_purchase w.product w)
        (map_order none out.0, out.1) (order, db') h in
    let there : by_key input.idempotency_key db'' ≡ some out.0 =
      k
      ∙ (subst (λ d. by_key input.idempotency_key d ≡ some out.0) {y = db'} (ap (λ r. r.1) same)
          (upsert-found now id input.idempotency_key w db (by_key input.idempotency_key db)
            refl)) in
    let passed =
      checked_pass (not (plan_available w.product w.plan_id)) (not (is_purchase out.0 w))
        plan_not_available key_belongs_to_another_purchase (check_purchase w.product w)
        (map_order none out.0, out.1) (order, db') (map_order none out.0, db'') h in
    rw there (passed ∙ ap (λ o. ok (o, db'')) (ap (λ r. r.0) same))
  where
    w : Purchase
    w = purchase_of input

    out : OrderRow × Db
    out = upsert now id input.idempotency_key w db (by_key input.idempotency_key db)

-- What the outcome of the domain's transition says of the call of the repository.
abbrev pub Refines :
    String → Db → Result OrderError PaymentOrder → Option PaymentOrder × Db → Type 0
Refines id db (ok order) (some answer, db') =
    (answer ≡ order)
    × ((row : OrderRow) × (find_order id db' ≡ some row) × (map_order none row ≡ order))
    × ((other : String) → other ≢ id → find_order other db' ≡ find_order other db)
Refines id db (err e) (none, db') = db' ≡ db
Refines id db _ _ = ⊥

module _ (is_hash : String → Bool) (now : ℕ) (id hash : String) (db : Db) (row : OrderRow)
    (e : find_order id db ≡ some row) where
  abbrev stored : Db
  stored =
      record_event row payment_paid (get_or row.paid_at now) (store_order (paid_row now row) db)

  named : row.id ≡ id
  named = (eq_iff row.id id).0 (Table.find-true (λ r. str_eq r.id id) db.orders row e)
