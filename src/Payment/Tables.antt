-- ===== src/Payment/Tables.antt =====
-- The tables that src/payment/payment-repository.ts reads and writes, and the inserts of the three
-- products. The database generates an id that no row has.
use the402machine.Base.{
  ℕ, String, Bool, true, false, ◌&&◌, Option, List, [], ◌∷◌, ◌++◌, str_eq, any, if◌then◌else◌,
}
use the402machine.Base.Table
use the402machine.Domain.Plans.{PlanId, Product}
use the402machine.Payment.Order.{PaymentOrder, PaymentOrderStatus}
use the402machine.Payment.Delivery.{
  Delivery, catch_delivery, whisper_delivery, pulse_delivery, Platform,
}
use the402machine.Catch.Model
use the402machine.Catch.Store
use the402machine.Whisper
use the402machine.Pulse

-- A row of `payment_orders`.
pub record OrderRow : Type 0 where
  pub id : String
  pub idempotency_key : String
  pub product : Product
  pub plan_id : PlanId
  pub product_payload : Option (List ℕ)
  pub whisper_read_limit : Option ℕ
  pub whisper_reveal_at : Option ℕ
  pub amount_sats : ℕ
  pub status : PaymentOrderStatus
  pub payment_hash : Option String
  pub bolt11 : Option String
  pub resource_id : Option String
  pub delivery_ciphertext : Option (List ℕ)
  pub created_at : ℕ
  pub invoice_issued_at : Option ℕ
  pub paid_at : Option ℕ
  pub dispensed_at : Option ℕ
  pub updated_at : ℕ

pub data Protocol : Type 0 where
  payment l402 : Protocol

abbrev pub same_protocol : Protocol → Protocol → Bool
same_protocol payment payment = true
same_protocol l402 l402 = true
same_protocol _ _ = false

-- A row of `payment_challenges`.
pub record ChallengeRow : Type 0 where
  pub challenge_id : String
  pub order_id : String
  pub protocol : Protocol
  pub challenge_fingerprint : String
  pub payment_hash : String
  pub expires_at : ℕ
  pub consumed_at : Option ℕ

pub data EventType : Type 0 where
  payment_paid resource_dispensed : EventType

abbrev pub same_event : EventType → EventType → Bool
same_event payment_paid payment_paid = true
same_event resource_dispensed resource_dispensed = true
same_event _ _ = false

-- A row of `platform_events`.
pub record PlatformEvent : Type 0 where
  pub order_id : String
  pub event_type : EventType
  pub product : Product
  pub plan_id : PlanId
  pub amount_sats : ℕ
  pub occurred_at : ℕ

pub record Db : Type 0 where
  pub orders : List OrderRow
  pub challenges : List ChallengeRow
  pub events : List PlatformEvent
  pub catches : Model.Db
  pub whispers : List Whisper.Whisper
  pub pulses : List Pulse.Pulse

-- `AtomicProvision`: the columns of the new resource, and the tokens that its buyer gets.
pub data AtomicProvision : Type 0 where
  catch_provision :
      (input : Model.ProvisionInput) (owner_token ingest_token : String) → AtomicProvision
  whisper_provision : (input : Whisper.CreateWhisperInput) (read_token : String) → AtomicProvision
  pulse_provision :
      (input : Pulse.CreatePulseInput) (owner_token ping_token : String) → AtomicProvision

unfoldable pub product_of : AtomicProvision → Product
product_of (catch_provision _ _ _) = Product.catch
product_of (whisper_provision _ _) = Product.whisper
product_of (pulse_provision _ _ _) = Product.pulse

abbrev pub same_product : Product → Product → Bool
same_product Product.catch Product.catch = true
same_product Product.whisper Product.whisper = true
same_product Product.pulse Product.pulse = true
same_product _ _ = false

-- `insertCatch`, `insertWhisper` or `insertPulse`.
unfoldable pub insert_product : ℕ → String → AtomicProvision → Db → Db
insert_product now id (catch_provision input _ _) db = record db {
  catches = (Store.provision now id input db.catches).1;
}
insert_product now id (whisper_provision input _) db = record db {
  whispers = (Whisper.create now id input db.whispers).1;
}
insert_product now id (pulse_provision input _ _) db = record db {
  pulses = (Pulse.create now id input db.pulses).1;
}

unfoldable pub delivery_of : Platform → AtomicProvision → Delivery
delivery_of os (catch_provision input owner_token ingest_token) =
    catch_delivery input.public_id owner_token ingest_token (os.to_iso input.expires_at)
delivery_of os (whisper_provision input read_token) =
    whisper_delivery input.public_id read_token (os.to_iso input.expires_at)
delivery_of os (pulse_provision input owner_token ping_token) =
    pulse_delivery input.public_id owner_token ping_token (os.to_iso input.expires_at)

-- `mapOrder`, with the public id that the query joins.
unfoldable pub map_order : Option String → OrderRow → PaymentOrder
map_order resource_public_id row = record {
  id = row.id;
  idempotency_key = row.idempotency_key;
  product = row.product;
  plan_id = row.plan_id;
  product_payload = row.product_payload;
  whisper_read_limit = row.whisper_read_limit;
  whisper_reveal_at = row.whisper_reveal_at;
  amount_sats = row.amount_sats;
  status = row.status;
  payment_hash = row.payment_hash;
  resource_public_id = resource_public_id;
  created_at = row.created_at;
  paid_at = row.paid_at;
  dispensed_at = row.dispensed_at;
}

abbrev pub find_order : String → Db → Option OrderRow
find_order id db = Table.find (λ r. str_eq r.id id) db.orders

abbrev pub store_order : OrderRow → Db → Db
store_order r db = record db { orders = Table.save (λ x. x.id) r db.orders }

-- `recordPlatformEvent`, for an order whose time of the event is set.
unfoldable pub record_event : OrderRow → EventType → ℕ → Db → Db
record_event row kind at db =
    if any (λ e. str_eq e.order_id row.id && same_event e.event_type kind) db.events
    then db
    else record db {
      events =
          db.events
          ++ record {
            order_id = row.id;
            event_type = kind;
            product = row.product;
            plan_id = row.plan_id;
            amount_sats = row.amount_sats;
            occurred_at = at;
          }
            ∷ [];
    }
