-- ===== src/Payment/Samples.antt =====
-- A purchase, a provider and a cipher at concrete values.
use the402machine.Base.{ℕ, true, none, some, List, [], ◌∷◌, ok}
use the402machine.Domain.Plans.{PlanId}
use the402machine.Payment.Delivery.{Delivery, catch_delivery, Platform, members}
use the402machine.Payment.Tables.{OrderRow, Db, catch_provision}
use the402machine.Payment.Orders.{CreateOrderInput, purchase_of, new_order, Invoice}
use the402machine.Payment.Dispense.{Provisioner}
use the402machine.Payment.Service.{Adapter, Fresh}

abbrev pub delivery : Delivery
delivery = catch_delivery "catch_a" "owner" "ingest" "1970-01-01T00:00:05.000Z"

abbrev pub zeros : List ℕ
zeros = 0 ∷ 0 ∷ 0 ∷ 0 ∷ 0 ∷ 0 ∷ 0 ∷ 0 ∷ 0 ∷ 0 ∷ 0 ∷ 0 ∷ []

abbrev pub tag : List ℕ
tag = 1 ∷ 2 ∷ 3 ∷ 4 ∷ zeros

-- A cipher that leaves its text as it is, and a printer of one delivery.
abbrev pub os : Platform
os = record {
  print = λ ms. 7 ∷ [];
  parse = λ bytes. some (members delivery);
  seal = λ nonce plain. (tag, plain);
  unseal = λ nonce t plain. some plain;
  to_iso = λ at. "1970-01-01T00:00:05.000Z";
  from_iso = λ s. 5_000;
}

abbrev pub empty : Db
empty = record {
  orders = [];
  challenges = [];
  events = [];
  catches = record { resources = []; events = [] };
  whispers = [];
  pulses = [];
}

abbrev pub input : CreateOrderInput
input = record {
  idempotency_key = "key-0001";
  product = none;
  plan_id = PlanId.standard;
  product_payload = none;
  whisper_read_limit = none;
  whisper_reveal_at = none;
}

abbrev pub invoice : Invoice
invoice = record { payment_hash = "hash"; bolt11 = "lnbc1" }

abbrev pub provision : Provisioner
provision order = ok (
    catch_provision
      (record {
        public_id = "catch_a";
        plan_id = PlanId.standard;
        owner_token_hash = "h1";
        ingest_token_hash = "h2";
        request_limit = 4_020;
        storage_limit_bytes = 20_971_520;
        max_bytes_per_request = 262_144;
        expires_at = 5_000;
      })
      "owner" "ingest")

abbrev pub order : OrderRow
order = new_order 1 "o" "key-0001" (purchase_of input)

abbrev pub adapter : Adapter
adapter = record {
  find_invoice = λ id amount. none;
  create_invoice = λ amount id. ok invoice;
  verify_invoice = λ hash amount. true;
}

abbrev pub fresh : Fresh
fresh = record { now = 4; resource_id = "r"; nonce = zeros }
