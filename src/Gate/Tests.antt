-- ===== src/Gate/Tests.antt =====
-- Intents and credits at concrete inputs.
use the402machine.Base.{
  String, Bool, true, false, none, some, List, [], ◌∷◌, ◌≡◌, ◌⊎◌, refl, ok, arith, eq_iff,
}
use the402machine.Gate.Domain.{post, gate_month_key}
use the402machine.Gate.{
  Intent, prepaid_grant, Db, paid, is_authorized, find_intent, CreateIntentInput, new_intent,
  attach_invoice, claim_invoice_issuance, create_intent, upsert, issuing_row, issued_row,
}
use the402machine.Gate.Authorize.{
  GateRuntime, month_of, AuthorizeInput, authorize_intent, authorize_found, authorize_new,
  authorize_project, charge, charge_grant, first_grant, spent_row, record_authorization,
}
use the402machine.Gate.Credits.{Authorizes, authorize_intent-Authorizes}
use the402machine.Gate.Intents.{AllConsistent}
use the402machine.Gate.History.{
  Call, creates, claims, attaches, expires_due, pays, step, AllFresh, run, run-AllConsistent_gate,
}
use the402machine.Gate.Service.{Signer, granted, prove, prove_found, settle_and_authorize}
use the402machine.Gate.Service.Proof.{prove-Proven}

abbrev rt : GateRuntime
rt = record {
  utc_year = λ now. "2026";
  utc_month = λ now. 0;
  show_number = λ n. "1";
  id_before = λ a b. false;
  size = λ s. 100;
  is_locked = λ id. false;
}

abbrev input : CreateIntentInput
input = record {
  public_id = "gate_intent_a";
  project_id = "p";
  route_id = "route";
  idempotency_key = "key-0001";
  method = post;
  path = "/v1/answer";
  body_digest = "digest";
  amount_sats = 21;
  lightning_address = "shop@example.com";
}

abbrev intent : Intent
intent = record (new_intent 1 "i" input) {
  state = paid;
  bolt11 = some "lnbc1";
  payment_hash = some "hash";
  invoice_expires_at = some 1_000;
  paid_at = some 500;
}

-- A project without free authorizations and with five prepaid credits.
abbrev db : Db
db = record {
  projects =
      record { id = "p"; public_id = "gate_project_a"; monthly_free_limit = 0; active = true } ∷ [];
  routes = [];
  intents = intent ∷ [];
  grants =
      record {
        id = "g";
        project_id = "p";
        source_order_id = "o";
        total_authorizations = 420;
        remaining_authorizations = 5;
        purchased_at = 0;
        expires_at = 10_000;
      }
      ∷ [];
  authorizations = [];
}

abbrev request : AuthorizeInput
request = record {
  intent_id = "i";
  receipt_jti = "jti";
  now = 600;
  create_receipt = λ jti project. "receipt";
}

authorize_intent-Authorizes_example : Authorizes rt request db (authorize_intent rt 601 request db)
authorize_intent-Authorizes_example = authorize_intent-Authorizes rt 601 request db (tt, tt) refl

abbrev empty : Db
empty = record { projects = []; routes = []; intents = []; grants = []; authorizations = [] }

calls : List (Call rt)
calls =
    creates 1 "i" input
    ∷ claims 2 "i"
    ∷ attaches 3 "i"
        (record { bolt11 = "lnbc1"; payment_hash = "hash"; expires_at = 1_000; verify_url = none })
    ∷ creates 3 "j" (record input { idempotency_key = "key-0002" })
    ∷ expires_due 2_001 2_000 (λ id. false) 100
    ∷ pays 4 "i" 500
    ∷ []

fresh_ids : AllFresh rt empty calls
unfolding calls step attach_invoice claim_invoice_issuance create_intent upsert new_intent
    issuing_row issued_row
fresh_ids = (tt, (tt, (tt, ((λ e. ground (arith, eq_iff "i" "j"), tt), (tt, (tt, tt))))))

run-AllConsistent_gate_example : AllConsistent (run rt empty calls)
run-AllConsistent_gate_example =
    run-AllConsistent_gate rt empty calls fresh_ids (record { distinct = tt; consistent = tt })

abbrev signer : Signer
signer = record { jti = "jti"; sign = λ i now jti project. "receipt" }

abbrev digest : String → String
digest preimage = "hash"

abbrev any_hex : String → Bool
any_hex preimage = true

proved : prove rt signer any_hex digest 601 600 "i" "preimage" db ≡ (
  ok (granted "receipt" (prepaid_grant "g")),
  (prove rt signer any_hex digest 601 600 "i" "preimage" db).1,
)
unfolding prove prove_found settle_and_authorize new_intent authorize_intent authorize_found
    authorize_new authorize_project charge charge_grant first_grant spent_row record_authorization
proved = refl

january : month_of rt 600 ≡ "2026-01"
unfolding gate_month_key
january = refl

prove-Proven_example :
    (i : Intent) × (find_intent "i" db ≡ some i)
    × ((is_authorized i.state ≡ true) ⊎ (i.payment_hash ≡ some (digest "preimage")))
prove-Proven_example =
    prove-Proven rt signer any_hex digest 601 600 "i" "preimage" db
      (prove rt signer any_hex digest 601 600 "i" "preimage" db).1 "receipt" (prepaid_grant "g")
      proved
