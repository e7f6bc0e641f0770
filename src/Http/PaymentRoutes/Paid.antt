-- ===== src/Http/PaymentRoutes/Paid.antt =====
-- src/app.ts, paymentProtocolResponse: what a resource is handed out for.
use the402machine.Base.{
  ℕ, String, Option, none, some, Result, ok, err, ◌≡◌, ◌⊎◌, refl, inl, inr, Bool-cases,
}
use the402machine.Payment.Tables.{Db}
use the402machine.Payment.Dispense.{ChallengeInput}
use the402machine.Payment.Service.{PaymentQuote, Effect, Fulfilment, settled, not_settled}
use the402machine.Payment.Protocol
use the402machine.Payment.L402
use the402machine.Gate.Credential.{Credential, parse_gate_payment_authorization}
use the402machine.Http.Exchange.{Reply, sent}
use the402machine.Http.PaymentRoutes.{
  PaymentBody, quoted, challenged, l402_challenged, resource, PaymentRequest, Runtime,
  PaymentProtocolOptions, Backend, agent_payment, payment_credential, payment_outcome,
  payment_input, settle_payment, verified_payment, answer_payment, chooses, l402_outcome,
  l402_input, settle_l402, verified_l402, l402_authorization, l402_challenge, answer_l402,
  l402_response, payment_protocol_response,
}

module _ (rt : Runtime) (options : PaymentProtocolOptions) (bk : Backend) (now : ℕ)
    (request : PaymentRequest) (quote : PaymentQuote) where
  -- The request's credential is valid for this payment hash, in one of the two protocols.
  abbrev pub HasCredential : String → Type 0
  HasCredential payment_hash =
      (Protocol.verify_payment_credential rt.codec
          (payment_credential rt options bk now request quote)
        ≡ Protocol.valid payment_hash)
      ⊎ ((preimage : String) × (L402.verify_l402_authorization rt.macaroons
              (l402_authorization rt options bk now request quote)
            ≡ L402.valid preimage payment_hash))

  -- What an answer says of the tables before it and of those it leaves.
  abbrev pub Paid : Db → Reply PaymentBody × Db → Type 0
  Paid db (sent status (resource r), left) =
      (input : ChallengeInput) × (preimage : String) × (agent_payment rt options bk now request
          quote input preimage db
        ≡ (ok (settled r), left))
      × (input.order_id ≡ quote.order_id)
      × HasCredential input.payment_hash
  Paid db (sent status (quoted q), left) = left ≡ db
  Paid db (sent status (challenged c), left) = left ≡ db
  Paid db (sent status (l402_challenged m), left) = left ≡ db
  Paid db _ = Unit

  payment_outcome-Paid :
      (db : Db) (input : ChallengeInput) (preimage : String)
      (out : Effect (Fulfilment bk.os bk.provision))
      → agent_payment rt options bk now request quote input preimage db ≡ out
      → input.order_id ≡ quote.order_id
      → HasCredential input.payment_hash
      → Paid db (payment_outcome rt options bk now request quote db out)
  payment_outcome-Paid db input preimage (err e, left) a o h = tt
  payment_outcome-Paid db input preimage (ok (settled r), left) a o h = (input, preimage, a, o, h)
  payment_outcome-Paid db input preimage (ok Fulfilment.invalid_preimage, left) a o h = tt
  payment_outcome-Paid db input preimage (ok (not_settled reason), left) a o h = tt

  l402_outcome-Paid :
      (db : Db) (input : ChallengeInput) (preimage : String)
      (out : Effect (Fulfilment bk.os bk.provision))
      → agent_payment rt options bk now request quote input preimage db ≡ out
      → input.order_id ≡ quote.order_id
      → HasCredential input.payment_hash
      → Paid db (l402_outcome rt options bk now request quote out)
  l402_outcome-Paid db input preimage (err e, left) a o h = tt
  l402_outcome-Paid db input preimage (ok (settled r), left) a o h = (input, preimage, a, o, h)
  l402_outcome-Paid db input preimage (ok Fulfilment.invalid_preimage, left) a o h = tt
  l402_outcome-Paid db input preimage (ok (not_settled reason), left) a o h = tt

  settle_payment-Paid :
      (db : Db) (payment_hash : String) (c : Option Credential)
      → HasCredential payment_hash
      → Paid db (settle_payment rt options bk now request quote payment_hash c db)
  unfolding settle_payment payment_input
  settle_payment-Paid db payment_hash none h = tt
  settle_payment-Paid db payment_hash (some c) h =
      payment_outcome-Paid db (payment_input rt options bk now request quote payment_hash)
        c.preimage _ refl refl h

  verified_payment-Paid :
      (db : Db) (v : Protocol.Verification) (authorization : Option String)
      → Protocol.verify_payment_credential rt.codec
          (payment_credential rt options bk now request quote)
        ≡ v
      → Paid db (verified_payment rt options bk now request quote v authorization db)
  unfolding verified_payment
  verified_payment-Paid db (Protocol.invalid reason) authorization e = tt
  verified_payment-Paid db (Protocol.valid payment_hash) authorization e =
      settle_payment-Paid db payment_hash (parse_gate_payment_authorization rt.codec authorization)
        (inl e)

  answer_payment-Paid :
      (db : Db) (authorization : Option String)
      → Paid db (answer_payment rt options bk now request quote authorization db)
  unfolding answer_payment
  answer_payment-Paid db none = refl
  answer_payment-Paid db (some value) =
      verified_payment-Paid db
        (Protocol.verify_payment_credential rt.codec
          (payment_credential rt options bk now request quote))
        request.authorization refl

  settle_l402-Paid :
      (db : Db) (macaroon proof payment_hash : String) (c : Option L402.L402Credential)
      → L402.verify_l402_authorization rt.macaroons
          (l402_authorization rt options bk now request quote)
        ≡ L402.valid proof payment_hash
      → Paid db (settle_l402 rt options bk now request quote macaroon payment_hash c db)
  unfolding settle_l402 l402_input
  settle_l402-Paid db macaroon proof payment_hash none e = tt
  settle_l402-Paid db macaroon proof payment_hash (some c) e =
      l402_outcome-Paid db (l402_input rt options bk now request quote macaroon payment_hash)
        c.preimage _ refl refl (inr (proof, e))

  verified_l402-Paid :
      (db : Db) (macaroon : String) (v : L402.Verification)
      → L402.verify_l402_authorization rt.macaroons
          (l402_authorization rt options bk now request quote)
        ≡ v
      → Paid db (verified_l402 rt options bk now request quote macaroon v db)
  unfolding verified_l402
  verified_l402-Paid db macaroon (L402.invalid reason) e = tt
  verified_l402-Paid db macaroon (L402.valid proof payment_hash) e =
      settle_l402-Paid db macaroon proof payment_hash
        (L402.parse_l402_authorization rt.macaroons request.authorization) e

  answer_l402-Paid :
      (db : Db) (macaroon : String) (authorization : Option String)
      → Paid db (answer_l402 rt options bk now request quote macaroon authorization db)
  unfolding answer_l402
  answer_l402-Paid db macaroon none = refl
  answer_l402-Paid db macaroon (some value) =
      verified_l402-Paid db macaroon
        (L402.verify_l402_authorization rt.macaroons
          (l402_authorization rt options bk now request quote))
        refl

  l402_response-Paid :
      (db : Db) (challenge : Result L402.L402Error String)
      → Paid db (l402_response rt options bk now request quote challenge db)
  unfolding l402_response
  l402_response-Paid db (err e) = tt
  l402_response-Paid db (ok macaroon) = answer_l402-Paid db macaroon request.authorization

  -- A purchase is answered with a resource only when the request's credential was valid in one of the
  -- two protocols, and the service settled the quoted order with the payment hash
  -- of that credential and returned this resource. An answer with a quote or a challenge changes
  -- no table.
  pub payment_protocol_response-Paid :
      (db : Db) → Paid db (payment_protocol_response rt options bk now request quote db)
  unfolding payment_protocol_response
  payment_protocol_response-Paid db =
      elim (Bool-cases (chooses rt options bk now request quote "l402" request.selected_protocol)) [
        | inl t ↦ rw t (l402_response-Paid db (l402_challenge rt options bk now request quote))
        | inr t ↦
            elim (Bool-cases
              (chooses rt options bk now request quote "payment" request.selected_protocol)) [
                | inl u ↦ rw (t, u) (answer_payment-Paid db request.authorization)
                | inr u ↦ rw (t, u) refl
              ]
      ]
