-- ===== src/Http/PaymentRoutes.antt =====
-- src/app.ts, paymentProtocolResponse and l402ProtocolResponse: the answer to a quoted purchase,
-- which a credential of either protocol turns into the resource. A request for another protocol is
-- answered with the quote.
pub mod Paid
use the402machine.Base.{
  ℕ, ◌+◌, String, Bool, true, false, not, ◌||◌, Option, none, some, List, [], ◌∷◌, if◌then◌else◌,
  ◌==◌, str_eq, Result, ok, err,
}
use Prim.Native.Char.{code}
use Prim.Native.String.{◌++◌ as ◌<>◌}
use Prim.Native.String
use the402machine.Gate.Credential.{
  GatePaymentChallenge, Credential, parse_gate_payment_authorization,
}
use the402machine.Gate.Credential as Codec
use the402machine.Payment.Tables.{Db}
use the402machine.Payment.Tables as Tables
use the402machine.Payment.Delivery.{DispensedResource}
use the402machine.Payment.Delivery as Delivery
use the402machine.Payment.Dispense.{
  Provisioner, ChallengeInput, Refusal, replayed, mismatch, has_expired, unsettled,
}
use the402machine.Payment.Service.{
  Adapter, PaymentQuote, Fresh, Effect, Fulfilment, settled, not_settled, fulfill_agent_payment,
}
use the402machine.Payment.Protocol
use the402machine.Payment.L402
use the402machine.Http.Exchange.{Reply, sent, refused, thrown}

-- The `type` of a problem.
pub data Problem : Type 0 where
  malformed_credential invalid_challenge invalid_preimage expired_invoice unknown_challenge :
      Problem

pub data PaymentBody : Type 0 where
  quoted : PaymentQuote → PaymentBody
  challenged : GatePaymentChallenge → PaymentBody
  l402_challenged : (macaroon : String) → PaymentBody
  problem : Problem → PaymentBody
  resource : DispensedResource → PaymentBody

-- What the route reads of the request: the matched path is `routeOptions.url`.
pub record PaymentRequest : Type 0 where
  pub selected_protocol : Option String
  pub authorization : Option String
  pub method : String
  pub path : String
  pub body : List ℕ

pub record Runtime : Type 0 where
  pub codec : Codec.Platform
  pub macaroons : L402.Platform
  pub bytes : String → List ℕ
  pub sha256 : List ℕ → List ℕ
  pub base64url : List ℕ → String
  pub sha256_hex : List ℕ → String

pub record PaymentProtocolOptions : Type 0 where
  pub realm : String
  pub secret : List ℕ

-- `escapeQuoted`
unfoldable pub escape_quoted : String → String
escape_quoted String.[] = ""
escape_quoted (String.◌∷◌ c s) =
    let rest = escape_quoted s in
    if (code c == 92) || (code c == 34) then "\\" <> String.◌∷◌ c rest else String.◌∷◌ c rest

unfoldable pub l402_header : (macaroon bolt11 : String) → String
unfolding escape_quoted
l402_header macaroon bolt11 =
    "L402 macaroon=\"" <> (macaroon <> ("\", invoice=\"" <> (escape_quoted bolt11 <> "\"")))

abbrev pub problem_of : Protocol.PaymentCredentialFailure → Problem
problem_of Protocol.malformed_credential = malformed_credential
problem_of Protocol.invalid_challenge = invalid_challenge
problem_of Protocol.invalid_preimage = Problem.invalid_preimage
problem_of Protocol.expired_invoice = expired_invoice

abbrev refusal_problem : Refusal → Problem
refusal_problem has_expired = expired_invoice
refusal_problem _ = unknown_challenge

-- The provider, the cipher and the clock of `fulfillAgentPayment`. `clock` is read by the service,
-- and `now` by the route.
pub record Backend : Type 0 where
  pub os : Delivery.Platform
  pub provision : Provisioner
  pub is_hex : String → Bool
  pub digest : String → String
  pub adapter : Adapter
  pub fresh : Fresh
  pub clock : ℕ

module _ (rt : Runtime) (options : PaymentProtocolOptions) (bk : Backend) (now : ℕ)
    (request : PaymentRequest) (quote : PaymentQuote) where
  unfoldable pub agent_payment :
      ChallengeInput → String → Db → Effect (Fulfilment bk.os bk.provision)
  unfolding fulfill_agent_payment
  agent_payment input preimage db =
      fulfill_agent_payment bk.os bk.provision bk.is_hex bk.digest bk.clock bk.adapter bk.fresh
        input preimage db

  unfoldable pub payment_challenge : GatePaymentChallenge
  unfolding Protocol.create_payment_challenge
  payment_challenge = Protocol.create_payment_challenge rt.codec (record {
    quote = quote;
    realm = options.realm;
    method = request.method;
    path = request.path;
    body = request.body;
    expires_at = quote.expires_at;
    secret = options.secret;
  })

  abbrev pub payment_problem : Problem → Db → Reply PaymentBody × Db
  payment_problem p db = (sent 402 (problem p), db)

  abbrev pub payment_outcome : Db → Effect (Fulfilment bk.os bk.provision) → Reply PaymentBody × Db
  payment_outcome db (err e, left) = (thrown, left)
  payment_outcome db (ok (settled r), left) = (sent 200 (resource r), left)
  payment_outcome db (ok Fulfilment.invalid_preimage, left) =
      payment_problem Problem.invalid_preimage left
  payment_outcome db (ok (not_settled reason), left) = payment_problem (refusal_problem reason) left

  -- What `fulfillAgentPayment` is asked.
  unfoldable pub payment_input : (payment_hash : String) → ChallengeInput
  unfolding payment_challenge Protocol.payment_challenge_fingerprint
  payment_input payment_hash = record {
    challenge_id = payment_challenge.id;
    order_id = quote.order_id;
    protocol = Tables.payment;
    challenge_fingerprint =
        Protocol.payment_challenge_fingerprint rt.codec rt.bytes payment_challenge;
    payment_hash = payment_hash;
    expires_at = quote.expires_at;
  }

  unfoldable pub settle_payment : String → Option Credential → Db → Reply PaymentBody × Db
  unfolding agent_payment payment_input
  settle_payment payment_hash none db = payment_problem malformed_credential db
  settle_payment payment_hash (some c) db =
      payment_outcome db (agent_payment (payment_input payment_hash) c.preimage db)

  unfoldable pub verified_payment :
      Protocol.Verification → Option String → Db → Reply PaymentBody × Db
  unfolding settle_payment parse_gate_payment_authorization
  verified_payment (Protocol.invalid reason) authorization db =
      payment_problem (problem_of reason) db
  verified_payment (Protocol.valid payment_hash) authorization db =
      settle_payment payment_hash (parse_gate_payment_authorization rt.codec authorization) db

  abbrev pub payment_credential : Protocol.CredentialInput
  payment_credential = record {
    authorization = request.authorization;
    expected = payment_challenge;
    body = request.body;
    secret = options.secret;
    now = now;
  }

  -- The argument is the request's header `authorization`.
  unfoldable pub answer_payment : Option String → Db → Reply PaymentBody × Db
  unfolding verified_payment payment_challenge Protocol.verify_payment_credential
  answer_payment none db = (sent 402 (challenged payment_challenge), db)
  answer_payment (some value) db =
      verified_payment (Protocol.verify_payment_credential rt.codec payment_credential)
        request.authorization db

  abbrev pub l402_context : L402.L402CaveatContext
  l402_context = record {
    product = quote.product;
    plan_id = quote.plan_id;
    method = request.method;
    path = request.path;
    body = request.body;
  }

  abbrev pub l402_refusal : Db → Reply PaymentBody × Db
  l402_refusal db = (refused 401 "invalid L402 credential", db)

  abbrev pub l402_outcome : Effect (Fulfilment bk.os bk.provision) → Reply PaymentBody × Db
  l402_outcome (err e, left) = (thrown, left)
  l402_outcome (ok (settled r), left) = (sent 200 (resource r), left)
  l402_outcome (ok Fulfilment.invalid_preimage, left) = l402_refusal left
  l402_outcome (ok (not_settled reason), left) = l402_refusal left

  unfoldable pub l402_input : (macaroon payment_hash : String) → ChallengeInput
  unfolding l402_header
  l402_input macaroon payment_hash = record {
    challenge_id = rt.base64url (rt.sha256 (rt.bytes macaroon));
    order_id = quote.order_id;
    protocol = Tables.l402;
    challenge_fingerprint = rt.sha256_hex (rt.bytes (l402_header macaroon quote.bolt11));
    payment_hash = payment_hash;
    expires_at = quote.expires_at;
  }

  unfoldable pub settle_l402 :
      String → String → Option L402.L402Credential → Db → Reply PaymentBody × Db
  unfolding agent_payment l402_input
  settle_l402 macaroon payment_hash none db = l402_refusal db
  settle_l402 macaroon payment_hash (some c) db =
      l402_outcome (agent_payment (l402_input macaroon payment_hash) c.preimage db)

  unfoldable pub verified_l402 : String → L402.Verification → Db → Reply PaymentBody × Db
  unfolding settle_l402 L402.parse_l402_authorization
  verified_l402 macaroon (L402.invalid reason) db = l402_refusal db
  verified_l402 macaroon (L402.valid preimage payment_hash) db =
      settle_l402 macaroon payment_hash
        (L402.parse_l402_authorization rt.macaroons request.authorization) db

  abbrev pub l402_authorization : L402.AuthorizationInput
  l402_authorization = record {
    authorization = request.authorization;
    root_key = options.secret;
    expected_payment_hash = quote.payment_hash;
    context = l402_context;
    now = now;
  }

  unfoldable pub l402_challenge : Result L402.L402Error String
  unfolding L402.create_l402_challenge
  l402_challenge = L402.create_l402_challenge rt.macaroons (record {
    payment_hash = quote.payment_hash;
    root_key = options.secret;
    token_id = rt.sha256 (rt.bytes ("l402:" <> quote.order_id));
    location = options.realm;
    context = l402_context;
    expires_at = quote.expires_at;
  })

  unfoldable pub answer_l402 : String → Option String → Db → Reply PaymentBody × Db
  unfolding verified_l402 L402.verify_l402_authorization
  answer_l402 macaroon none db = (sent 402 (l402_challenged macaroon), db)
  answer_l402 macaroon (some value) db =
      verified_l402 macaroon (L402.verify_l402_authorization rt.macaroons l402_authorization) db

  unfoldable pub l402_response : Result L402.L402Error String → Db → Reply PaymentBody × Db
  unfolding answer_l402
  l402_response (err e) db = (thrown, db)
  l402_response (ok macaroon) db = answer_l402 macaroon request.authorization db

  abbrev pub chooses : String → Option String → Bool
  chooses name none = false
  chooses name (some selected) = str_eq selected name

  -- `paymentProtocolResponse`, where the protocols are configured and the service has
  -- `fulfillAgentPayment`.
  unfoldable pub payment_protocol_response : Db → Reply PaymentBody × Db
  unfolding answer_payment l402_response l402_challenge
  payment_protocol_response db =
      if chooses "l402" request.selected_protocol
      then l402_response l402_challenge db
      else if chooses "payment" request.selected_protocol
      then answer_payment request.authorization db
      else (sent 402 (quoted quote), db)

-- `paymentProtocolResponse`: without protocols the answer is the quote.
unfoldable pub answer_quote :
    Runtime
    → Option PaymentProtocolOptions
    → Backend
    → (now : ℕ) → PaymentRequest
    → PaymentQuote
    → Db
    → Reply PaymentBody × Db
unfolding payment_protocol_response
answer_quote rt none bk now request quote db = (sent 402 (quoted quote), db)
answer_quote rt (some options) bk now request quote db =
    payment_protocol_response rt options bk now request quote db
