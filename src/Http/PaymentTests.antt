-- ===== src/Http/PaymentTests.antt =====
-- A purchase with an L402 credential at concrete inputs.
use the402machine.Base.{ℕ, zero, suc, String, true, none, some, List, [], ◌∷◌, all, ◌≡◌, refl}
use the402machine.Domain.Plans.{PlanId, Product}
use the402machine.Gate.Credential as Codec
use the402machine.Payment.L402
use the402machine.Payment.Delivery.{catch_resource, delivery_resource}
use the402machine.Payment.Tables.{Db, map_order, record_event, product_of, delivery_of}
use the402machine.Payment.Orders.{new_order, invoiced_row, mark_paid, paid_row}
use the402machine.Payment.Dispense.{
  consume_payment_challenge_and_dispense, claim, dispense_paid, deliver,
}
use the402machine.Payment.Service.{PaymentQuote}
use the402machine.Payment.Bolt11.{mainnet}
use the402machine.Payment.Samples as Samples
use the402machine.Http.Exchange.{sent}
use the402machine.Http.PaymentRoutes
use the402machine.Http.PaymentRoutes.{
  answer_quote, resource, PaymentRequest, Runtime, PaymentProtocolOptions, Backend,
  payment_protocol_response,
}
use the402machine.Http.PaymentRoutes.Paid.{Paid, payment_protocol_response-Paid}

abbrev digest : String
digest = "aaaaaaaaaaaaaaaaaaaaaaaaaaaaaaaaaaaaaaaaaaaaaaaaaaaaaaaaaaaaaaaa"

abbrev zeros : ℕ → List ℕ
zeros zero = []
zeros (suc n) = 0 ∷ zeros n

abbrev macaroons : L402.Platform
macaroons = record {
  seal = λ identifier location root_key caveats. "macaroon";
  import_macaroon = λ t. some (record {
    identifier = zeros 66;
    caveats =
        "services=the402machine:0" ∷ "the402machine_capabilities=provision" ∷ "product=catch"
        ∷ "plan=standard" ∷ "method=POST" ∷ "path=/a"
        ∷ "body_sha256=aaaaaaaaaaaaaaaaaaaaaaaaaaaaaaaaaaaaaaaaaaaaaaaaaaaaaaaaaaaaaaaa"
        ∷ "valid_until=10" ∷ [];
  });
  verify = λ m root_key satisfied. all satisfied m.caveats;
  sha256_hex = λ body. digest;
  to_hex = λ bytes. digest;
  upper = λ t. "POST";
  show_number = λ n. "10";
  last_colon = λ t. some 8;
}

abbrev codec : Codec.Platform
codec = record {
  hmac_base64url = λ secret t. "signature";
  sha256_hex = λ body. digest;
  sha256_base64 = λ body. "digest";
  to_base64url = λ t. t;
  from_base64url = λ t. t;
  parse_json = λ t. none;
  quote = λ t. t;
  precedes = λ a b. true;
  upper = λ t. "POST";
  show_number = λ n. "402";
  iso_date = λ at. "2030";
  parse_date = λ t. some 1_000;
}

abbrev rt : Runtime
rt = record {
  codec = codec;
  macaroons = macaroons;
  bytes = λ t. [];
  sha256 = λ bytes. zeros 32;
  base64url = λ bytes. "challenge";
  sha256_hex = λ bytes. digest;
}

abbrev options : PaymentProtocolOptions
options = record { realm = "payments"; secret = zeros 32 }

abbrev bk : Backend
bk = record {
  os = Samples.os;
  provision = Samples.provision;
  is_hex = λ t. true;
  digest = λ preimage. digest;
  adapter = Samples.adapter;
  fresh = Samples.fresh;
  clock = 3;
}

abbrev request : PaymentRequest
request = record {
  selected_protocol = some "l402";
  authorization =
      some "L402 macaroon:aaaaaaaaaaaaaaaaaaaaaaaaaaaaaaaaaaaaaaaaaaaaaaaaaaaaaaaaaaaaaaaa";
  method = "post";
  path = "/a";
  body = [];
}

abbrev quoted : PaymentQuote
quoted = record {
  order_id = "o";
  product = Product.catch;
  plan_id = PlanId.standard;
  amount_sats = 402;
  bolt11 = "lnbc1";
  payment_hash = digest;
  network = some mainnet;
  expires_at = 600_000;
}

abbrev db : Db
db = record Samples.empty {
  orders = invoiced_row 2 (record { payment_hash = digest; bolt11 = "lnbc1" }) Samples.order ∷ [];
}

sold :
    (payment_protocol_response rt options bk 500 request quoted db).0
    ≡ sent 200 (resource (catch_resource "r" "catch_a" "owner" "ingest" 5_000))
unfolding payment_protocol_response invoiced_row new_order map_order
    consume_payment_challenge_and_dispense mark_paid record_event paid_row claim dispense_paid
    product_of deliver delivery_resource delivery_of
sold = refl

-- The same request, where no protocol is configured.
offered :
    answer_quote rt none bk 500 request quoted db ≡ (sent 402 (PaymentRoutes.quoted quoted), db)
unfolding answer_quote
offered = refl

payment_protocol_response-Paid_example :
    Paid rt options bk 500 request quoted db
      (payment_protocol_response rt options bk 500 request quoted db)
payment_protocol_response-Paid_example =
    payment_protocol_response-Paid rt options bk 500 request quoted db
