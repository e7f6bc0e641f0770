-- ===== src/Payment/Steps/Dispensing.antt =====
-- Handing out a resource keeps the invariant of Payment/Bookkeeping.antt.
use the402machine.Base.{
  ℕ, String, true, not, ◌||◌, none, some, List, is_some, leb, ◌≡◌, refl, ap, ◌∙◌, inl, inr, arith,
  Bool-cases, Option-cases, Result-cases, Leaves,
}
use the402machine.Base.Table
use the402machine.Payment.Order.{is_paid, is_dispensed, same_text}
use the402machine.Payment.Delivery.{Platform, encrypt_delivery}
use the402machine.Payment.Tables.{
  OrderRow, ChallengeRow, Db, AtomicProvision, map_order, find_order, store_order, insert_product,
  product_of, same_product, delivery_of, resource_dispensed,
}
use the402machine.Payment.Dispense.{
  Provisioner, redeliver, consume_paid, consume_with, dispensed_row, deliver, dispense_paid,
  dispense_paid_order, ChallengeInput, claim, find_challenge, same_challenge, store_challenges,
  is_settled, consume_payment_challenge_and_dispense,
}
use the402machine.Payment.Bookkeeping.{
  IsConsistent, IsBooked, found-IsConsistent, saved-IsBooked, record_event-orders,
  insert_product-orders,
}

module _ (os : Platform) where
  deliver-IsBooked :
      (base now : ℕ) (resource_id : String) (nonce : List ℕ) (input : AtomicProvision) (id : String)
      (row : OrderRow) (db : Db)
      → find_order id db ≡ some row
      → is_paid row.status ≡ true
      → IsBooked base db
      → IsBooked base (deliver os now resource_id nonce input row db).1
  unfolding deliver dispensed_row
  deliver-IsBooked base now resource_id nonce input id row db e s b =
      let c : IsConsistent row = found-IsConsistent base id db row e b in
      let row' =
        dispensed_row now resource_id (encrypt_delivery os nonce (delivery_of os input)) row in
      let added = insert_product-orders now resource_id input db in
      let r =
        record_event-orders row resource_dispensed now
          (store_order row' (insert_product now resource_id input db)) in
      saved-IsBooked base id db _ row row' e refl
        (record {
          priced = c.priced;
          unbilled = λ q. cc;
          billed = λ q. c.billed (ground arith);
          settled = λ q. c.settled (ground arith);
          delivered = λ q. (refl, refl, refl, refl);
        })
        (r.0 ∙ ap (λ os. Table.save (λ x. x.id) row' os) added.0) (ground (arith, r.1, added.1)) b

  pub dispense_paid-IsBooked :
      (base now : ℕ) (resource_id : String) (nonce : List ℕ) (provision : Provisioner) (id : String)
      (row : OrderRow) (db : Db)
      → find_order id db ≡ some row
      → is_paid row.status ≡ true
      → IsBooked base db
      → Leaves (IsBooked base) (dispense_paid os now resource_id nonce provision row db)
  unfolding dispense_paid
  dispense_paid-IsBooked base now resource_id nonce provision id row db e s b =
      elim (Result-cases (provision (map_order none row))) [
        | inl (input, p) ↦ rw p (elim (Bool-cases (same_product (product_of input) row.product)) [
          | inl t ↦ rw t (deliver-IsBooked base now resource_id nonce input id row db e s b)
          | inr t ↦ rw t tt
        ])
        | inr (x, p) ↦ rw p tt
      ]

  pub dispense_paid_order-IsBooked :
      (base now : ℕ) (resource_id : String) (nonce : List ℕ) (provision : Provisioner) (id : String)
      (db : Db)
      → IsBooked base db
      → Leaves (IsBooked base) (dispense_paid_order os now resource_id nonce provision id db)
  unfolding dispense_paid_order
  dispense_paid_order-IsBooked base now resource_id nonce provision id db b =
      elim (Option-cases (find_order id db)) [
        | inl e ↦ rw e b
        | inr (row, e) ↦ rw e (elim (Bool-cases (is_dispensed row.status)) [
          | inl t ↦
              rw t (elim (Result-cases (redeliver os row.resource_id row.delivery_ciphertext)) [
                | inl (d, f) ↦ rw f b
                | inr (x, f) ↦ rw f tt
              ])
          | inr t ↦ rw t (elim (Bool-cases (is_paid row.status)) [
            | inl u ↦
                rw u
                  (elim (Result-cases (dispense_paid os now resource_id nonce provision row db)) [
                    | inl (out, f) ↦ rw f (
                        rw f at (
                          dispense_paid-IsBooked base now resource_id nonce provision id row db e u
                            b))
                    | inr (x, f) ↦ rw f tt
                  ])
            | inr u ↦ rw u b
          ])
        ])
      ]

  challenges-IsBooked :
      (base : ℕ) (rows : List ChallengeRow) (db : Db)
      → IsBooked base db
      → IsBooked base (store_challenges rows db)
  challenges-IsBooked base rows db b = record {
    distinct = b.distinct;
    consistent = b.consistent;
    balanced = b.balanced;
  }

  consume_with-IsBooked :
      (base now clock : ℕ) (resource_id : String) (nonce : List ℕ) (provision : Provisioner)
      (input : ChallengeInput) (id : String) (row : OrderRow) (db : Db) (c : ChallengeRow)
      (rows : List ChallengeRow)
      → find_order id db ≡ some row
      → is_paid row.status ≡ true
      → IsBooked base db
      → Leaves
          (IsBooked base)
          (consume_with os now clock resource_id nonce provision input row db c rows)
  consume_with-IsBooked base now clock resource_id nonce provision input id row db c rows e s b =
      let kept = challenges-IsBooked base rows db b in
      elim (Bool-cases (same_challenge input c)) [
        | inr t ↦ rw t kept
        | inl t ↦ rw t (elim (Bool-cases (is_some c.consumed_at)) [
          | inl u ↦ rw u kept
          | inr u ↦ rw u (elim (Bool-cases (leb c.expires_at clock)) [
            | inl w ↦ rw w kept
            | inr w ↦
                rw w
                  (elim (Result-cases (
                    dispense_paid os now resource_id nonce provision row
                      (store_challenges rows db))) [
                        | inl (out, f) ↦ rw f (
                            challenges-IsBooked base _ out.1 (
                              rw f at (
                                dispense_paid-IsBooked base now resource_id nonce provision id row
                                  (store_challenges rows db) e s kept)))
                        | inr (x, f) ↦ rw f tt
                      ])
          ])
        ])
      ]

  pub consume-IsBooked :
      (base now clock : ℕ) (resource_id : String) (nonce : List ℕ) (provision : Provisioner)
      (input : ChallengeInput) (db : Db)
      → IsBooked base db
      → Leaves
          (IsBooked base)
          (consume_payment_challenge_and_dispense os now clock resource_id nonce provision input db)
  unfolding consume_payment_challenge_and_dispense consume_paid
  consume-IsBooked base now clock resource_id nonce provision input db b =
      elim (Option-cases (find_order input.order_id db)) [
        | inl e ↦ rw e b
        | inr (row, e) ↦
            rw e
              (elim (Bool-cases (
                not (same_text row.payment_hash (some input.payment_hash))
                || not (is_settled row.status))) [
                  | inl t ↦ rw t b
                  | inr t ↦ rw t (elim (Bool-cases (is_dispensed row.status)) [
                    | inl u ↦ rw u b
                    | inr u ↦
                        rw u
                          (elim (Result-cases (
                            claim input db.challenges
                              (find_challenge input.challenge_id db.challenges))) [
                                | inl (claimed, f) ↦ rw f (
                                    consume_with-IsBooked base now clock resource_id nonce provision
                                      input input.order_id row db claimed.0 claimed.1 e
                                      (ground arith) b)
                                | inr (x, f) ↦ rw f tt
                              ])
                  ])
                ])
      ]
