-- ===== src/Http/CatchTests.antt =====
-- The routes of CATCH at concrete inputs.
use the402machine.Base.{ℕ, ◌+◌, String, true, none, some, [], ◌∷◌, ◌≡◌, refl}
use the402machine.Domain.Plans.{PlanId}
use the402machine.Tokens.{verify_token}
use the402machine.Catch.Model.{Db, ProvisionInput, Runtime, event_bytes}
use the402machine.Catch.Store.{provision, accept_locked}
use the402machine.Catch.Listing.{Texts, CatchEventListOptions}
use the402machine.Http.Exchange.{Request, Served, no_content, bearer_token, outcome}
use the402machine.Http.CatchRoutes.{
  ingest, handle_ingest, get_catch, list_catch_events, delete_catch_event, delete_catch,
}
use the402machine.Http.CatchRoutes.Safety.{
  Ingests, ingest-Ingests, OwnedCatch, catch_owner-OwnerOnly,
}

abbrev same : String → String
same s = s

abbrev rt : Runtime
rt = record {
  header_bytes = λ h. 10;
  address_bytes = λ a. 4;
  location_bytes = λ l. 8;
  upper = same;
}

abbrev tx : Texts
tx = record {
  upper = same;
  lower = same;
  trim = same;
  cut = same;
  size = λ s. 10;
  matches = λ q body. true;
}

abbrev digest : String
digest = "aaaaaaaaaaaaaaaaaaaaaaaaaaaaaaaaaaaaaaaaaaaaaaaaaaaaaaaaaaaaaaaa"

abbrev hmac_hex : String → String → String
hmac_hex pepper message = digest

abbrev plan : ProvisionInput
plan = record {
  public_id = "catch_a";
  plan_id = PlanId.spark;
  owner_token_hash = digest;
  ingest_token_hash = digest;
  request_limit = 2;
  storage_limit_bytes = 100;
  max_bytes_per_request = 50;
  expires_at = 1_000;
}

abbrev served : Served Db
served = record {
  rate_limits = [];
  tables = (provision 1 "r" plan (record { resources = []; events = [] })).1;
}

abbrev request : Request
request = record {
  ip = "1.2.3.4";
  method = "POST";
  authorization = some "Bearer catch_ing_bbbbbbbbbbbbbbbbbbbbbbbbbbbbbbbbbbbbbbbbbbb";
  content_type = some "text/plain";
  content_encoding = none;
  headers = [];
  body = some (1 ∷ 2 ∷ 3 ∷ []);
}

abbrev clock : ℕ → ℕ
clock n = 200 + n

abbrev undisturbed : ℕ → Db → Db
undisturbed n db = db

stored :
    (ingest hmac_hex "pepper" rt tx clock undisturbed "e" request "catch_a" served).0 ≡ no_content
unfolding ingest handle_ingest provision verify_token bearer_token accept_locked event_bytes
stored = refl

ingest-Ingests_example :
    Ingests hmac_hex "pepper" rt tx clock undisturbed "e" "catch_a" request served.tables
      (outcome (ingest hmac_hex "pepper" rt tx clock undisturbed "e" request "catch_a" served))
ingest-Ingests_example =
    ingest-Ingests hmac_hex "pepper" rt tx clock undisturbed "e" "catch_a" request served

abbrev options : CatchEventListOptions
options = record {
  limit = 50;
  cursor = none;
  access = none;
  method = none;
  content_type = none;
  query = none;
}

abbrev owner_request : Request
owner_request = record request {
  authorization = some "Bearer catch_own_bbbbbbbbbbbbbbbbbbbbbbbbbbbbbbbbbbbbbbbbbbb";
}

catch_owner-OwnerOnly_example :
    OwnedCatch hmac_hex "pepper" rt tx clock undisturbed owner_request "catch_a" served.tables
      (outcome (get_catch hmac_hex "pepper" rt tx clock undisturbed owner_request "catch_a" served))
    × OwnedCatch hmac_hex "pepper" rt tx clock undisturbed owner_request "catch_a" served.tables (
        outcome (
          list_catch_events hmac_hex "pepper" rt tx clock undisturbed options owner_request
            "catch_a" served))
    × OwnedCatch hmac_hex "pepper" rt tx clock undisturbed owner_request "catch_a" served.tables (
        outcome (
          delete_catch_event hmac_hex "pepper" rt tx clock undisturbed "e" owner_request "catch_a"
            served))
    × OwnedCatch hmac_hex "pepper" rt tx clock undisturbed owner_request "catch_a" served.tables (
        outcome
          (delete_catch hmac_hex "pepper" rt tx clock undisturbed owner_request "catch_a" served))
catch_owner-OwnerOnly_example =
    catch_owner-OwnerOnly hmac_hex "pepper" rt tx clock undisturbed options "e" owner_request
      "catch_a" served
