-- ===== src/Gate.antt =====
-- src/gate/gate-repository.ts: the projects, the payment intents and the credits of GATE, as tables.
-- A timestamp is its milliseconds since 1970. Each operation takes the clock readings that it makes
-- and the ids that the database generates.
pub mod Domain
pub mod Authorize
pub mod Intents
pub mod Credits
pub mod History
pub mod Credential
pub mod LightningAddress
mod Tests
pub mod Receipt
mod AdapterTests
mod ReceiptTests
mod CredentialTests
pub mod Projects
pub mod Service
use the402machine.Base.{
  ℕ, ◌+◌, ◌*◌, String, Bool, true, false, not, ◌&&◌, ◌||◌, Option, none, some, List, [], ◌∷◌, ◌++◌,
  leb, ltb, ◌==◌, if◌then◌else◌, length, str_eq, any, Result, ok, err, ◌>>=◌, ◌>>◌, throw_if,
  or_throw,
}
use the402machine.Base.Table
use the402machine.Base.Batch.{due_keys, update_in}
use the402machine.Gate.Domain.{GateMethod, same_method}

pub data IntentState : Type 0 where
  pending_invoice invoice_issuing invoice_issued invoice_uncertain : IntentState
  paid authorized expired failed : IntentState

pub record Project : Type 0 where
  pub id : String
  pub public_id : String
  pub monthly_free_limit : ℕ
  pub active : Bool

pub record Route : Type 0 where
  pub id : String
  pub project_id : String
  pub route_key : String
  pub method : GateMethod
  pub path : String
  pub price_sats : ℕ
  pub active : Bool

pub record Intent : Type 0 where
  pub id : String
  pub public_id : String
  pub project_id : String
  pub route_id : String
  pub idempotency_key : String
  pub method : GateMethod
  pub path : String
  pub body_digest : String
  pub amount_sats : ℕ
  pub lightning_address : String
  pub state : IntentState
  pub bolt11 : Option String
  pub payment_hash : Option String
  pub verify_url : Option String
  pub receipt : Option String
  pub invoice_expires_at : Option ℕ
  pub paid_at : Option ℕ
  pub authorized_at : Option ℕ
  pub created_at : ℕ
  pub updated_at : ℕ

pub record Grant : Type 0 where
  pub id : String
  pub project_id : String
  pub source_order_id : String
  pub total_authorizations : ℕ
  pub remaining_authorizations : ℕ
  pub purchased_at : ℕ
  pub expires_at : ℕ

-- The month of a free authorization, or the grant of a prepaid one.
pub data Source : Type 0 where
  monthly_free : (month : String) → Source
  prepaid_grant : (grant_id : String) → Source

pub record Authorization : Type 0 where
  pub intent_id : String
  pub receipt_jti : String
  pub source : Source
  pub project_id : String

pub record Db : Type 0 where
  pub projects : List Project
  pub routes : List Route
  pub intents : List Intent
  pub grants : List Grant
  pub authorizations : List Authorization

pub data GateError : Type 0 where
  key_belongs_to_another_request not_issuing_invoice not_awaiting_invoice : GateError
  unique_violation limit_out_of_range intent_not_found not_ready exceeded_grace : GateError
  project_not_found no_authorizations invalid_receipt : GateError
  route_not_found route_mismatch outcome_uncertain cannot_issue still_issuing : GateError
  incomplete_invoice provider_refused invalid_preimage no_payment_hash not_paid : GateError
  missing_ledger_entry invalid_binding : GateError

abbrev pub is_pending : IntentState → Bool
is_pending pending_invoice = true
is_pending _ = false

abbrev pub is_issuing : IntentState → Bool
is_issuing invoice_issuing = true
is_issuing _ = false

abbrev pub is_issued : IntentState → Bool
is_issued invoice_issued = true
is_issued _ = false

abbrev pub is_uncertain : IntentState → Bool
is_uncertain invoice_uncertain = true
is_uncertain _ = false

abbrev pub is_paid : IntentState → Bool
is_paid paid = true
is_paid _ = false

abbrev pub is_authorized : IntentState → Bool
is_authorized authorized = true
is_authorized _ = false

abbrev pub is_expired : IntentState → Bool
is_expired expired = true
is_expired _ = false

pub record CreateIntentInput : Type 0 where
  pub public_id : String
  pub project_id : String
  pub route_id : String
  pub idempotency_key : String
  pub method : GateMethod
  pub path : String
  pub body_digest : String
  pub amount_sats : ℕ
  pub lightning_address : String

unfoldable pub new_intent : ℕ → String → CreateIntentInput → Intent
new_intent now id input = record {
  id = id;
  public_id = input.public_id;
  project_id = input.project_id;
  route_id = input.route_id;
  idempotency_key = input.idempotency_key;
  method = input.method;
  path = input.path;
  body_digest = input.body_digest;
  amount_sats = input.amount_sats;
  lightning_address = input.lightning_address;
  state = pending_invoice;
  bolt11 = none;
  payment_hash = none;
  verify_url = none;
  receipt = none;
  invoice_expires_at = none;
  paid_at = none;
  authorized_at = none;
  created_at = now;
  updated_at = now;
}

abbrev pub find_intent : String → Db → Option Intent
find_intent id db = Table.find (λ i. str_eq i.id id) db.intents

abbrev pub store_intent : Intent → Db → Db
store_intent i db = record db { intents = Table.save (λ x. x.id) i db.intents }

abbrev pub by_key : CreateIntentInput → Db → Option Intent
by_key input db =
    Table.find
      (λ i. str_eq i.project_id input.project_id && str_eq i.idempotency_key input.idempotency_key)
      db.intents

unfoldable pub upsert : ℕ → String → CreateIntentInput → Db → Option Intent → Intent × Db
upsert now id input db (some i) = (i, db)
upsert now id input db none =
    (new_intent now id input, record db { intents = db.intents ++ new_intent now id input ∷ [] })

abbrev pub same_request : Intent → CreateIntentInput → Bool
same_request i input =
    str_eq i.route_id input.route_id
    && same_method i.method input.method
    && str_eq i.path input.path
    && str_eq i.body_digest input.body_digest
    && (i.amount_sats == input.amount_sats)
    && str_eq i.lightning_address input.lightning_address

unfoldable pub create_intent : ℕ → String → CreateIntentInput → Db → Result GateError (Intent × Db)
create_intent now id input db =
    let out = upsert now id input db (by_key input db) in
    throw_if (not (same_request out.0 input)) key_belongs_to_another_request >> ok out

unfoldable pub issuing_row : ℕ → Intent → Intent
issuing_row now i = record i { state = invoice_issuing; updated_at = now }

claim_found : ℕ → Db → Option Intent → Option Intent × Db
claim_found now db none = (none, db)
claim_found now db (some i) =
    if is_pending i.state
    then (some (issuing_row now i), store_intent (issuing_row now i) db)
    else (none, db)

unfoldable pub claim_invoice_issuance : ℕ → String → Db → Option Intent × Db
unfolding claim_found
claim_invoice_issuance now id db = claim_found now db (find_intent id db)

pub record GateInvoice : Type 0 where
  pub bolt11 : String
  pub payment_hash : String
  pub expires_at : ℕ
  pub verify_url : Option String

unfoldable pub issued_row : ℕ → GateInvoice → Intent → Intent
issued_row now invoice i = record i {
  state = invoice_issued;
  bolt11 = some invoice.bolt11;
  payment_hash = some invoice.payment_hash;
  invoice_expires_at = some invoice.expires_at;
  verify_url = invoice.verify_url;
  updated_at = now;
}

abbrev pub has_hash : String → Intent → Bool
has_hash hash i = elim i.payment_hash [ none ↦ false | some h ↦ str_eq h hash ]

attach_found : ℕ → GateInvoice → Db → Option Intent → Result GateError (Intent × Db)
attach_found now invoice db none = err not_issuing_invoice
attach_found now invoice db (some i) = do
  throw_if (not (is_issuing i.state)) not_issuing_invoice
  throw_if (any (has_hash invoice.payment_hash) db.intents) unique_violation
  ok (issued_row now invoice i, store_intent (issued_row now invoice i) db)

unfoldable pub attach_invoice : ℕ → String → GateInvoice → Db → Result GateError (Intent × Db)
unfolding attach_found
attach_invoice now id invoice db = attach_found now invoice db (find_intent id db)

unfoldable pub uncertain_row : ℕ → Intent → Intent
uncertain_row now i = record i { state = invoice_uncertain; updated_at = now }

uncertain_found : ℕ → Db → Option Intent → Result GateError (Intent × Db)
uncertain_found now db none = err not_awaiting_invoice
uncertain_found now db (some i) = do
  throw_if (not (is_issuing i.state)) not_awaiting_invoice
  ok (uncertain_row now i, store_intent (uncertain_row now i) db)

unfoldable pub mark_invoice_uncertain : ℕ → String → Db → Result GateError (Intent × Db)
unfolding uncertain_found
mark_invoice_uncertain now id db = uncertain_found now db (find_intent id db)

-- `GATE_SETTLEMENT_GRACE_MINUTES`
abbrev pub settlement_grace : ℕ
settlement_grace = 5 * 60_000

abbrev pub in_grace : ℕ → Option ℕ → Bool
in_grace paid_at none = false
in_grace paid_at (some expires_at) = leb paid_at (expires_at + settlement_grace)

unfoldable pub paid_row : ℕ → ℕ → Intent → Intent
paid_row now paid_at i = record i { state = paid; paid_at = some paid_at; updated_at = now }

-- The update, or else the intent if it was paid before.
pay_found : ℕ → ℕ → Db → Option Intent → Option Intent × Db
pay_found now paid_at db none = (none, db)
pay_found now paid_at db (some i) =
    if (is_issued i.state || is_expired i.state) && in_grace paid_at i.invoice_expires_at
    then (some (paid_row now paid_at i), store_intent (paid_row now paid_at i) db)
    else if is_paid i.state || is_authorized i.state
    then (some i, db)
    else (none, db)

unfoldable pub mark_paid : ℕ → String → ℕ → Db → Option Intent × Db
unfolding pay_found
mark_paid now id paid_at db = pay_found now paid_at db (find_intent id db)

abbrev pub is_due : ℕ → (String → Bool) → Intent → Bool
is_due now locked i =
    is_issued i.state
    && elim i.invoice_expires_at [ none ↦ false | some at ↦ leb at now ]
    && not (locked i.id)

unfoldable pub expired_row : ℕ → Intent → Intent
expired_row now i = record i { state = expired; updated_at = now }

abbrev pub due_rank : Intent → ℕ
due_rank i = elim i.invoice_expires_at [ none ↦ 0 | some at ↦ at ]

-- `clock` is the database's, `now` the argument's. Intents that expire at one time are taken in the
-- order of the table.
unfoldable pub expire_due_intents :
    (clock now : ℕ) → (String → Bool) → ℕ → Db → Result GateError (ℕ × Db)
expire_due_intents clock now locked limit db =
    let ids = due_keys (λ i. i.id) due_rank (is_due now locked) limit db.intents in
    throw_if (ltb limit 1 || ltb 1_000 limit) limit_out_of_range
    >> ok (
      length ids,
      record db { intents = update_in (λ i. i.id) ids (expired_row clock) db.intents },
    )
