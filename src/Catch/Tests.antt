-- ===== src/Catch/Tests.antt =====
-- CATCH resources at concrete inputs.
use the402machine.Base.{
  ◌≤◌, ◌↔◌, min, length, filter, true, some, ◌<◌, String, Bool, false, none, List, [], ◌∷◌, All,
  ◌≡◌, refl, arith, ok,
}
use the402machine.Base.Batch.{clamp_limit, due_keys}
use the402machine.Domain.Plans.{PlanId}
use the402machine.Catch.Model.{
  Resource, Db, ProvisionInput, AcceptEventInput, accepted, Runtime, event_bytes,
}
use the402machine.Catch.Store.{
  provision, new_event, accept_locked, accept_event, is_due, expire_due_resources,
}
use the402machine.Catch.Listing.{
  Texts, CatchEventListOptions, filters_of, selected, page_limit, list_events,
}
use the402machine.Catch.Listing.Pages.{list_events-page}
use the402machine.Catch.Accounting.{IsValid}
use the402machine.Catch.History.{
  Call, provisions, accepts, destroys, after, step, run, AllFresh, run-IsValid, Recorded,
  accept_event-Recorded, expire_due_resources_complete,
}

abbrev rt : Runtime
rt = record {
  header_bytes = λ h. 10;
  address_bytes = λ a. 4;
  location_bytes = λ l. 8;
  upper = λ s. s;
}

abbrev none_yet : Db
none_yet = record { resources = []; events = [] }

abbrev plan : ProvisionInput
plan = record {
  public_id = "catch_a";
  plan_id = PlanId.spark;
  owner_token_hash = "owner";
  ingest_token_hash = "ingest";
  request_limit = 2;
  storage_limit_bytes = 100;
  max_bytes_per_request = 50;
  expires_at = 1_000;
}

abbrev request : AcceptEventInput
request = record {
  public_id = "catch_a";
  method = none;
  authenticated = none;
  source_ip = none;
  content_type = "text/plain";
  headers = [];
  body = 1 ∷ 2 ∷ 3 ∷ [];
}

abbrev provisioned : Db
provisioned = (provision 1 "r" plan none_yet).1

calls : List Call
calls = provisions 1 "r" plan ∷ accepts 2 "e" request ∷ destroys 3 "catch_a" ∷ []

fresh : AllFresh rt none_yet calls
unfolding calls step provision
fresh = ((omega arith, omega arith, tt), (tt, (tt, tt)))

run-IsValid_example : IsValid rt (run rt none_yet calls)
run-IsValid_example = run-IsValid rt none_yet calls fresh (record { sound = tt; distinct = tt })

abbrev unlocked : String → Bool
unlocked id = false

few : (expire_due_resources 2_000 unlocked 100 provisioned).0 < clamp_limit 100
unfolding expire_due_resources provision due_keys
few = omega arith

expire_due_resources_complete_example :
    All
      (λ r. is_due 2_000 unlocked r ≡ false)
      (expire_due_resources 2_000 unlocked 100 provisioned).1.resources
expire_due_resources_complete_example =
    expire_due_resources_complete rt 2_000 unlocked 100 provisioned few

accepted_first :
    accept_event rt 2 "e" request provisioned
    ≡ ok (accepted "e" 1, after provisioned (accept_event rt 2 "e" request provisioned))
unfolding accept_event provision accept_locked event_bytes
accepted_first = refl

accept_event-Recorded_example :
    Recorded rt 2 "e" request provisioned
      (accepted "e" 1, after provisioned (accept_event rt 2 "e" request provisioned))
accept_event-Recorded_example =
    accept_event-Recorded rt 2 "e" request provisioned
      (accepted "e" 1, after provisioned (accept_event rt 2 "e" request provisioned)) accepted_first

abbrev tx : Texts
tx = record {
  upper = λ s. s;
  lower = λ s. s;
  trim = λ s. s;
  cut = λ s. s;
  size = λ s. 10;
  matches = λ q body. true;
}

abbrev options : CatchEventListOptions
options = record {
  limit = 1;
  cursor = some 3;
  access = none;
  method = none;
  content_type = none;
  query = none;
}

abbrev row : Resource
row = (provision 1 "r" plan none_yet).0

-- Three requests, of which the last lies after the cursor.
abbrev listed : Db
listed = record provisioned {
  events =
      new_event rt 100 "e1" request row
      ∷ record (new_event rt 110 "e2" request row) { sequence_number = 2 }
      ∷ record (new_event rt 120 "e3" request row) { sequence_number = 3 }
      ∷ [];
}

-- The page has the later of the two events before the cursor, and points past it.
first_page : (list_events tx 200 "catch_a" options listed).0 ≡ record {
  events = record (new_event rt 110 "e2" request row) { sequence_number = 2 } ∷ [];
  next_cursor = some 2;
}
unfolding list_events provision new_event
first_page = refl

list_events-page_example :
    let page = (list_events tx 200 "catch_a" options listed).0 in
    let all = filter (selected tx "r" (filters_of tx options)) listed.events in
    All (λ e. selected tx "r" (filters_of tx options) e ≡ true) page.events
    × (length page.events ≡ min (page_limit tx 1) (length all))
    × (page_limit tx 1 ≤ 50)
    × ((page.next_cursor ≡ none) ↔ (length all ≤ page_limit tx 1))
unfolding provision
list_events-page_example =
    list_events-page tx 200 "catch_a" options listed row refl (omega arith) refl
