-- ===== src/Catch/Listing.antt =====
-- The methods of `CatchRepository` that show a resource and its events: `getResource` and
-- `listEvents`. The platform's string functions, and PostgreSQL's match of a text in an escaped
-- body, are parameters.
pub mod Pages
use the402machine.Base.{
  ℕ, ◌+◌, ◌≤◌, ◌<◌, min, max, String, Bool, true, false, ◌&&◌, Option, none, some, List, [], ◌∷◌,
  ltb, leb, ◌==◌, if◌then◌else◌, length, take, filter, All, length-take, str_eq, eq_iff, ◌≡◌, refl,
  arith, inl, inr, Bool-cases,
}
use the402machine.Base.Batch.{mem}
use the402machine.Catch.Model.{Resource, Event, Db}
use the402machine.Catch.Store.{is_live, locate, expire_locked_resource, event_methods}

unfoldable pub get_resource : String → Db → Option Resource
get_resource public_id db = locate public_id db

pub data EventAccess : Type 0 where
  public_access authenticated_access : EventAccess

pub record CatchEventListOptions : Type 0 where
  pub limit : ℕ
  pub cursor : Option ℕ
  pub access : Option EventAccess
  pub method : Option String
  pub content_type : Option String
  pub query : Option String

pub record CatchEventPage : Type 0 where
  pub events : List Event
  pub next_cursor : Option ℕ

pub record Texts : Type 0 where
  pub upper : String → String
  pub lower : String → String
  pub trim : String → String
  -- `slice(0, 120)`
  pub cut : String → String
  pub size : String → ℕ
  -- `encode(body, 'escape') ilike '%query%'`
  pub matches : (query : String) → List ℕ → Bool

-- The columns of the condition that the query has for each option: `none` is its `null`.
pub record Filters : Type 0 where
  pub before : Option ℕ
  pub authenticated : Option Bool
  pub method : Option String
  pub content_type : Option String
  pub query : Option String

-- `(null is null or …)`
abbrev pub holds {ℓ} : {A : Type ℓ} → (A → Bool) → Option A → Bool
holds test none = true
holds test (some a) = test a

abbrev same_flag : Bool → Bool → Bool
same_flag true b = b
same_flag false true = false
same_flag false false = true

module _ (tx : Texts) where
  unfoldable pub method_filter : Option String → Option String
  method_filter none = none
  method_filter (some m) = if mem (tx.upper m) event_methods then some (tx.upper m) else none

  unfoldable pub content_type_filter : Option String → Option String
  content_type_filter none = none
  content_type_filter (some t) = if ltb 0 (tx.size t) then some (tx.lower (tx.cut t)) else none

  unfoldable pub query_filter : Option String → Option String
  query_filter none = none
  query_filter (some q) = if ltb 0 (tx.size (tx.trim q)) then some (tx.cut (tx.trim q)) else none

  unfoldable pub access_filter : Option EventAccess → Option Bool
  access_filter none = none
  access_filter (some public_access) = some false
  access_filter (some authenticated_access) = some true

  unfoldable pub cursor_filter : Option ℕ → Option ℕ
  cursor_filter none = none
  cursor_filter (some c) = some (max 1 c)

  unfoldable pub filters_of : CatchEventListOptions → Filters
  unfolding method_filter content_type_filter query_filter access_filter cursor_filter
  filters_of options = record {
    before = cursor_filter options.cursor;
    authenticated = access_filter options.access;
    method = method_filter options.method;
    content_type = content_type_filter options.content_type;
    query = query_filter options.query;
  }

  -- The `where` clause.
  unfoldable pub selected : String → Filters → Event → Bool
  selected resource_id f e =
      str_eq e.resource_id resource_id
      && holds (λ c. ltb e.sequence_number c) f.before
      && holds (same_flag e.authenticated) f.authenticated
      && holds (str_eq e.method) f.method
      && holds (str_eq (tx.lower e.content_type)) f.content_type
      && holds (λ q. tx.matches q e.body) f.query

  -- `order by sequence_number desc`
  unfoldable pub insert_latest : Event → List Event → List Event
  insert_latest e [] = e ∷ []
  insert_latest e (x ∷ xs) =
      if leb x.sequence_number e.sequence_number then e ∷ x ∷ xs else x ∷ insert_latest e xs

  unfoldable pub latest_first : List Event → List Event
  unfolding insert_latest
  latest_first [] = []
  latest_first (e ∷ es) = insert_latest e (latest_first es)

  last_number : List Event → Option ℕ
  last_number [] = none
  last_number (e ∷ []) = some e.sequence_number
  last_number (e ∷ x ∷ xs) = last_number (x ∷ xs)

  -- The page of the rows that the query returns, which are at most one more than the limit.
  unfoldable pub page_of : ℕ → List Event → CatchEventPage
  unfolding last_number
  page_of limit rows =
      let page_rows = take limit rows in
      record {
        events = page_rows;
        next_cursor = if ltb limit (length rows) then last_number page_rows else none;
      }

  abbrev pub empty_page : CatchEventPage
  empty_page = record { events = []; next_cursor = none }

  abbrev pub page_limit : ℕ → ℕ
  page_limit requested = max 1 (min 50 requested)

  unfoldable pub list_locked :
      ℕ → CatchEventListOptions → Db → Option Resource → CatchEventPage × Db
  unfolding page_of latest_first selected filters_of expire_locked_resource
  list_locked now options db none = (empty_page, db)
  list_locked now options db (some r) =
      if leb r.expires_at now
      then (empty_page, expire_locked_resource now r db)
      else if is_live r.status
      then (
        page_of (page_limit options.limit) (
            take (page_limit options.limit + 1)
              (latest_first (filter (selected r.id (filters_of options)) db.events))),
        db,
      )
      else (empty_page, db)

  unfoldable pub list_events : ℕ → String → CatchEventListOptions → Db → CatchEventPage × Db
  unfolding list_locked
  list_events now public_id options db = list_locked now options db (locate public_id db)
