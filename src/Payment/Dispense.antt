-- ===== src/Payment/Dispense.antt =====
-- src/payment/payment-repository.ts: the dispensing of a paid order, by itself or with a payment
-- challenge that it consumes.
use the402machine.Base.{
  ℕ, String, Bool, not, ◌&&◌, ◌||◌, Option, none, some, List, [], ◌∷◌, ◌++◌, leb, ◌==◌,
  if◌then◌else◌, is_some, str_eq, any, Result, ok, err, ◌>>=◌, ◌>>◌, throw_if,
}
use the402machine.Base.Table
use the402machine.Payment.Order.{
  PaymentOrder, PaymentOrderStatus, dispensed, is_paid, is_dispensed, same_text,
}
use the402machine.Payment.Delivery.{
  DispensedResource, Platform, encrypt_delivery, decrypt_delivery, delivery_resource,
}
use the402machine.Payment.Tables.{
  OrderRow, ChallengeRow, Db, Protocol, same_protocol, resource_dispensed, AtomicProvision,
  product_of, same_product, insert_product, delivery_of, map_order, find_order, store_order,
  record_event,
}
use the402machine.Payment.Orders.{
  PaymentError, dispensed_incomplete, delivery_invalid, product_mismatch, unique_violation,
}

-- `ProductProvisioner`
abbrev pub Provisioner : Type 0
Provisioner = PaymentOrder → Result PaymentError AtomicProvision

unfoldable pub dispensed_row : ℕ → String → List ℕ → OrderRow → OrderRow
dispensed_row now resource_id delivery row = record row {
  status = dispensed;
  resource_id = some resource_id;
  delivery_ciphertext = some delivery;
  product_payload = none;
  dispensed_at = some now;
  updated_at = now;
}

-- The result of a call that the stored delivery decides.
abbrev read_delivery : Platform → String → List ℕ → Result PaymentError DispensedResource
read_delivery os resource_id ciphertext = elim (decrypt_delivery os ciphertext) [
  | ok d ↦ ok (delivery_resource os resource_id d)
  | err e ↦ err delivery_invalid
]

-- A repeated call: the delivery of an order that is dispensed.
unfoldable pub redeliver :
    Platform → Option String → Option (List ℕ) → Result PaymentError DispensedResource
redeliver os (some resource_id) (some ciphertext) = read_delivery os resource_id ciphertext
redeliver os _ _ = err dispensed_incomplete

pub record ChallengeInput : Type 0 where
  pub challenge_id : String
  pub order_id : String
  pub protocol : Protocol
  pub challenge_fingerprint : String
  pub payment_hash : String
  pub expires_at : ℕ

pub data Refusal : Type 0 where
  replayed mismatch has_expired unsettled : Refusal

pub data Consumption : Type 0 where
  consumed : DispensedResource → Consumption
  refused : Refusal → Consumption

abbrev pub find_challenge : String → List ChallengeRow → Option ChallengeRow
find_challenge id rows = Table.find (λ c. str_eq c.challenge_id id) rows

abbrev pub new_challenge : ChallengeInput → ChallengeRow
new_challenge input = record {
  challenge_id = input.challenge_id;
  order_id = input.order_id;
  protocol = input.protocol;
  challenge_fingerprint = input.challenge_fingerprint;
  payment_hash = input.payment_hash;
  expires_at = input.expires_at;
  consumed_at = none;
}

-- `insert … on conflict (challenge_id) do nothing`, with the row that the id then has; an order has
-- at most one challenge.
unfoldable pub claim :
    ChallengeInput
    → List ChallengeRow
    → Option ChallengeRow
    → Result PaymentError (ChallengeRow × List ChallengeRow)
claim input rows (some c) = ok (c, rows)
claim input rows none = do
  throw_if (any (λ c. str_eq c.order_id input.order_id) rows) unique_violation
  ok (new_challenge input, rows ++ new_challenge input ∷ [])

abbrev pub same_challenge : ChallengeInput → ChallengeRow → Bool
same_challenge input c =
    str_eq c.order_id input.order_id
    && same_protocol c.protocol input.protocol
    && str_eq c.challenge_fingerprint input.challenge_fingerprint
    && str_eq c.payment_hash input.payment_hash
    && (c.expires_at == input.expires_at)

abbrev pub consumed_challenge : ℕ → ChallengeRow → ChallengeRow
consumed_challenge now c = record c { consumed_at = some now }

abbrev pub store_challenges : List ChallengeRow → Db → Db
store_challenges rows db = record db { challenges = rows }

-- `order.status === "paid" || order.status === "dispensed"`
abbrev pub is_settled : PaymentOrderStatus → Bool
is_settled status = is_paid status || is_dispensed status

module _ (os : Platform) where
  -- The row of a paid order and the new resource, once the product is provisioned.
  unfoldable pub deliver :
      ℕ → String → List ℕ → AtomicProvision → OrderRow → Db → DispensedResource × Db
  deliver now resource_id nonce input row db =
      let sealed = encrypt_delivery os nonce (delivery_of os input) in
      (
        delivery_resource os resource_id (delivery_of os input),
        record_event row resource_dispensed now (
            store_order (dispensed_row now resource_id sealed row)
              (insert_product now resource_id input db)),
      )

  unfoldable pub dispense_paid :
      ℕ
      → String
      → List ℕ
      → Provisioner
      → OrderRow
      → Db
      → Result PaymentError (DispensedResource × Db)
  dispense_paid now resource_id nonce provision row db = do
    input ← provision (map_order none row)
    throw_if (not (same_product (product_of input) row.product)) product_mismatch
    ok (deliver now resource_id nonce input row db)

  abbrev answer :
      Result PaymentError (DispensedResource × Db)
      → Result PaymentError (Option DispensedResource × Db)
  answer m = do out ← m; ok (some out.0, out.1)

  abbrev answer_stored :
      Result PaymentError DispensedResource
      → Db
      → Result PaymentError (Option DispensedResource × Db)
  answer_stored m db = do resource ← m; ok (some resource, db)

  dispense_locked :
      ℕ
      → String
      → List ℕ
      → Provisioner
      → Db
      → Option OrderRow
      → Result PaymentError (Option DispensedResource × Db)
  dispense_locked now resource_id nonce provision db none = ok (none, db)
  dispense_locked now resource_id nonce provision db (some row) =
      if is_dispensed row.status
      then answer_stored (redeliver os row.resource_id row.delivery_ciphertext) db
      else if is_paid row.status
      then answer (dispense_paid now resource_id nonce provision row db)
      else ok (none, db)

  unfoldable pub dispense_paid_order :
      ℕ
      → String
      → List ℕ
      → Provisioner
      → String
      → Db
      → Result PaymentError (Option DispensedResource × Db)
  unfolding dispense_locked
  dispense_paid_order now resource_id nonce provision order_id db =
      dispense_locked now resource_id nonce provision db (find_order order_id db)

  -- The challenge of a paid order: the checks, the delivery, and the mark that it is consumed.
  abbrev pub consume_with :
      (now clock : ℕ) (resource_id : String) (nonce : List ℕ)
      → Provisioner
      → ChallengeInput
      → OrderRow
      → Db
      → ChallengeRow
      → List ChallengeRow
      → Result PaymentError (Consumption × Db)
  consume_with now clock resource_id nonce provision input row db c rows =
      let claimed = store_challenges rows db in
      let rest = dispense_paid now resource_id nonce provision row claimed in
      if not (same_challenge input c)
      then ok (refused mismatch, claimed)
      else if is_some c.consumed_at
      then ok (refused replayed, claimed)
      else if leb c.expires_at clock
      then ok (refused has_expired, claimed)
      else do
        out ← rest
        ok (
          consumed out.0,
          store_challenges
              (Table.save (λ x. x.challenge_id) (consumed_challenge now c) out.1.challenges) out.1,
        )

  unfoldable pub consume_paid :
      (now clock : ℕ) (resource_id : String) (nonce : List ℕ)
      → Provisioner
      → ChallengeInput
      → OrderRow
      → Db
      → Result PaymentError (Consumption × Db)
  consume_paid now clock resource_id nonce provision input row db = do
    claimed ← claim input db.challenges (find_challenge input.challenge_id db.challenges)
    consume_with now clock resource_id nonce provision input row db claimed.0 claimed.1

  consume_locked :
      (now clock : ℕ) (resource_id : String) (nonce : List ℕ)
      → Provisioner
      → ChallengeInput
      → Db
      → Option OrderRow
      → Result PaymentError (Consumption × Db)
  unfolding consume_paid
  consume_locked now clock resource_id nonce provision input db none = ok (refused unsettled, db)
  consume_locked now clock resource_id nonce provision input db (some row) =
      let rest = consume_paid now clock resource_id nonce provision input row db in
      if not (same_text row.payment_hash (some input.payment_hash)) || not (is_settled row.status)
      then ok (refused unsettled, db)
      else if is_dispensed row.status
      then ok (refused replayed, db)
      else rest

  -- `now` is the database's clock and `clock` the process's.
  unfoldable pub consume_payment_challenge_and_dispense :
      (now clock : ℕ) (resource_id : String) (nonce : List ℕ)
      → Provisioner
      → ChallengeInput
      → Db
      → Result PaymentError (Consumption × Db)
  unfolding consume_locked
  consume_payment_challenge_and_dispense now clock resource_id nonce provision input db =
      consume_locked now clock resource_id nonce provision input db (find_order input.order_id db)
