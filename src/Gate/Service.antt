-- ===== src/Gate/Service.antt =====
-- src/gate/gate-service.ts: the quote of a GATE intent, and its authorization by a preimage or by the
-- provider's verification. The provider, SHA-256, the receipt signer and the hexadecimal test are
-- parameters.
pub mod Proof
use the402machine.Base.{
  ℕ, zero, suc, ◌+◌, String, Bool, true, false, not, ◌&&◌, ◌||◌, Option, none, some, List, ltb,
  if◌then◌else◌, is_some, is_none, str_eq, get_or, Result, ok, err, ◌>>=◌, ◌>>◌, throw_if, or_throw,
}
use the402machine.Base.Table
use the402machine.Gate.Domain.{GateMethod, same_method, GateRequestBinding, GateInputError}
use the402machine.Gate.{
  IntentState, Source, Intent, Route, Db, GateError, route_not_found, route_mismatch,
  outcome_uncertain, cannot_issue, still_issuing, incomplete_invoice, provider_refused,
  invalid_preimage, no_payment_hash, not_paid, intent_not_found, missing_ledger_entry, is_issued,
  is_issuing, is_pending, is_uncertain, is_authorized, is_expired, is_paid, CreateIntentInput,
  create_intent, claim_invoice_issuance, GateInvoice, attach_invoice, mark_invoice_uncertain,
  mark_paid, find_intent, settlement_grace, invalid_binding,
}
use the402machine.Gate.Authorize.{
  GateRuntime, GateAuthorization, AuthorizeInput, authorize_intent, authorization_for,
}

pub data Verification : Type 0 where
  payer_preimage url : Verification

pub record GateQuote : Type 0 where
  pub intent_id : String
  pub amount_sats : ℕ
  pub bolt11 : String
  pub payment_hash : String
  pub expires_at : ℕ
  pub verification : Verification

abbrev verification_of : Option String → Verification
verification_of none = payer_preimage
verification_of (some _) = url

quote_of : Intent → Option String → Option String → Option ℕ → Result GateError GateQuote
quote_of i (some bolt11) (some hash) (some at) = ok (record {
  intent_id = i.id;
  amount_sats = i.amount_sats;
  bolt11 = bolt11;
  payment_hash = hash;
  expires_at = at;
  verification = verification_of i.verify_url;
})
quote_of i _ _ _ = err incomplete_invoice

unfoldable pub quote_from_intent : Intent → Result GateError GateQuote
unfolding quote_of
quote_from_intent i = quote_of i i.bolt11 i.payment_hash i.invoice_expires_at

-- One look of `#waitForInvoice`, with what the later looks return.
look : Option Intent → Result GateError GateQuote → Result GateError GateQuote
look none rest = err intent_not_found
look (some i) rest =
    if is_issued i.state
    then quote_from_intent i
    else if is_uncertain i.state
    then err outcome_uncertain
    else if not (is_issuing i.state)
    then err cannot_issue
    else rest

-- The loop: `seen` are the tables at each attempt, which other calls change in between.
unfoldable pub wait_for_invoice :
    (attempts : ℕ) → (seen : ℕ → Db) → String → Result GateError GateQuote
unfolding look
wait_for_invoice zero seen id = err still_issuing
wait_for_invoice (suc n) seen id =
    look (find_intent id (seen zero)) (wait_for_invoice n (λ k. seen (suc k)) id)

-- What the provider does: an invoice, or an error that is ambiguous (a timeout, say) or not.
pub data ProviderAnswer : Type 0 where
  invoiced : GateInvoice → ProviderAnswer
  failed : (is_ambiguous : Bool) → ProviderAnswer

-- The tables after a call; those of its transactions that returned stay when it throws.
abbrev pub Effect : Type 0 → Type 0
Effect A = Result GateError A × Db

abbrev attached_effect : Db → Result GateError (Intent × Db) → Effect GateQuote
attached_effect db (err e) = (err e, db)
attached_effect db (ok out) = (quote_from_intent out.0, out.1)

-- The issue of an invoice by the call that has claimed it.
issue : ℕ → ProviderAnswer → Intent → Db → Effect GateQuote
issue now (invoiced invoice) i db = attached_effect db (attach_invoice now i.id invoice db)
issue now (failed true) i db = elim (mark_invoice_uncertain now i.id db) [
  | ok out ↦ (err outcome_uncertain, out.1)
  | err e ↦ (err e, db)
]
issue now (failed false) i db = (err provider_refused, db)

issue_claimed : ℕ → ProviderAnswer → (ℕ → Db) → Intent → Option Intent × Db → Effect GateQuote
unfolding issue
issue_claimed now answer seen i (none, db) = (wait_for_invoice 50 seen i.id, db)
issue_claimed now answer seen i (some _, db) = issue now answer i db

-- The branches of `quote` on the state of the intent.
unfoldable pub quote_intent : ℕ → ProviderAnswer → (ℕ → Db) → Intent → Db → Effect GateQuote
unfolding issue_claimed
quote_intent now answer seen i db =
    if is_issued i.state
      && is_some i.bolt11
      && is_some i.payment_hash
      && is_some i.invoice_expires_at
    then (quote_from_intent i, db)
    else if is_uncertain i.state
    then (err outcome_uncertain, db)
    else if is_issuing i.state
    then (wait_for_invoice 50 seen i.id, db)
    else if not (is_pending i.state)
    then (err cannot_issue, db)
    else issue_claimed now answer seen i (claim_invoice_issuance now i.id db)

pub record QuoteInput : Type 0 where
  pub public_id : String
  pub project_id : String
  pub route_key : String
  pub idempotency_key : String
  pub binding : Result GateInputError GateRequestBinding
  pub lightning_address : String

abbrev pub intent_input : QuoteInput → Route → GateRequestBinding → CreateIntentInput
intent_input input route b = record {
  public_id = input.public_id;
  project_id = input.project_id;
  route_id = route.id;
  idempotency_key = input.idempotency_key;
  method = b.method;
  path = b.path;
  body_digest = b.body_digest;
  amount_sats = route.price_sats;
  lightning_address = input.lightning_address;
}

quote_created :
    ℕ → ProviderAnswer → (ℕ → Db) → Db → Result GateError (Intent × Db) → Effect GateQuote
quote_created now answer seen db (err e) = (err e, db)
quote_created now answer seen db (ok out) = quote_intent now answer seen out.0 out.1

quote_bound :
    ℕ
    → String
    → ProviderAnswer
    → (ℕ → Db)
    → QuoteInput
    → Db
    → Route
    → Result GateInputError GateRequestBinding
    → Effect GateQuote
unfolding quote_created
quote_bound now id answer seen input db route (err e) = (err invalid_binding, db)
quote_bound now id answer seen input db route (ok b) =
    if not (same_method b.method route.method) || not (str_eq b.path route.path)
    then (err route_mismatch, db)
    else quote_created now answer seen db (create_intent now id (intent_input input route b) db)

-- `getRouteForProject`
abbrev pub find_route : String → String → Db → Option Route
find_route project_id key db =
    Table.find (λ r. str_eq r.project_id project_id && str_eq r.route_key key && r.active) db.routes

quote_route :
    ℕ → String → ProviderAnswer → (ℕ → Db) → QuoteInput → Db → Option Route → Effect GateQuote
unfolding quote_bound
quote_route now id answer seen input db none = (err route_not_found, db)
quote_route now id answer seen input db (some route) =
    quote_bound now id answer seen input db route input.binding

unfoldable pub quote : ℕ → String → ProviderAnswer → (ℕ → Db) → QuoteInput → Db → Effect GateQuote
unfolding quote_route
quote now id answer seen input db =
    quote_route now id answer seen input db (find_route input.project_id input.route_key db)

pub data AuthorizationResult : Type 0 where
  granted : (receipt : String) (source : Source) → AuthorizationResult
  waiting : IntentState → AuthorizationResult

-- The signer, with the random id of the receipt.
pub record Signer : Type 0 where
  pub jti : String
  pub sign : Intent → ℕ → (receipt_jti project_public_id : String) → String

module _ (rt : GateRuntime) (signer : Signer) where
  authorize_paid : (clock now : ℕ) → Option Intent × Db → Effect AuthorizationResult
  authorize_paid clock now (none, db) = (err not_paid, db)
  authorize_paid clock now (some i, db) =
      if is_none i.payment_hash
      then (err not_paid, db)
      else elim (authorize_intent rt clock
          (record {
            intent_id = i.id;
            receipt_jti = signer.jti;
            now = now;
            create_receipt = signer.sign i now;
          })
          db) [ ok out ↦ (ok (granted out.0.receipt out.0.source), out.1) | err e ↦ (err e, db) ]

  -- `#settleAndAuthorize`
  unfoldable pub settle_and_authorize : (clock now : ℕ) → Intent → Db → Effect AuthorizationResult
  unfolding authorize_paid
  settle_and_authorize clock now i db =
      if is_paid i.state
      then authorize_paid clock now (some i, db)
      else authorize_paid clock now (mark_paid clock i.id now db)

  -- `#existingAuthorization`
  existing : Intent → Db → Option String → Effect AuthorizationResult
  existing i db none = (err missing_ledger_entry, db)
  existing i db (some receipt) = elim (authorization_for i.id db) [
    | none ↦ (err missing_ledger_entry, db)
    | some a ↦ (ok (granted receipt a.source), db)
  ]

  unfoldable pub prove_found :
      (digest : String → String)
      → (clock now : ℕ) → String
      → Db
      → Option Intent
      → Effect AuthorizationResult
  unfolding existing
  prove_found digest clock now preimage db none = (err intent_not_found, db)
  prove_found digest clock now preimage db (some i) =
      if is_authorized i.state && is_some i.receipt
      then existing i db i.receipt
      else if is_none i.payment_hash
      then (err no_payment_hash, db)
      else if not (str_eq (digest preimage) (get_or i.payment_hash ""))
      then (err invalid_preimage, db)
      else settle_and_authorize clock now i db

  unfoldable pub prove :
      (is_hex : String → Bool)
      → (digest : String → String) → (clock now : ℕ) → (intent_id preimage : String) → Db
      → Effect AuthorizationResult
  prove is_hex digest clock now intent_id preimage db =
      if not (is_hex preimage)
      then (err invalid_preimage, db)
      else prove_found digest clock now preimage db (find_intent intent_id db)

  -- `expired`, and more than the grace period after the invoice's expiry.
  abbrev is_too_late : ℕ → Intent → Bool
  is_too_late now i =
      is_expired i.state && ltb (get_or i.invoice_expires_at 0 + settlement_grace) now

  poll_found :
      (verify : Intent → Bool) → (clock now : ℕ) → Db → Option Intent → Effect AuthorizationResult
  unfolding existing
  poll_found verify clock now db none = (err intent_not_found, db)
  poll_found verify clock now db (some i) =
      if is_authorized i.state && is_some i.receipt
      then existing i db i.receipt
      else if not (is_issued i.state || is_expired i.state)
          || is_none i.bolt11
          || is_none i.payment_hash
          || is_none i.invoice_expires_at
      then (ok (waiting i.state), db)
      else if is_too_late now i || is_none i.verify_url
      then (ok (waiting i.state), db)
      else if not (verify i)
      then (ok (waiting i.state), db)
      else settle_and_authorize clock now i db

  -- `verify` is the provider's answer for the invoice of an intent.
  unfoldable pub poll :
      (verify : Intent → Bool) → (clock now : ℕ) → String → Db → Effect AuthorizationResult
  unfolding poll_found
  poll verify clock now intent_id db = poll_found verify clock now db (find_intent intent_id db)
