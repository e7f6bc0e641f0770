-- ===== src/Gate/Projects.antt =====
-- src/gate/gate-repository.ts: the creation of projects and of their routes. The database generates
-- the ids; a project has one route for a key, and one for a method and a path.
use the402machine.Base.{
  ℕ, zero, suc, String, Bool, true, ◌&&◌, ◌||◌, List, [], ◌∷◌, ◌++◌, any, filter, str_eq, Result,
  ok, ◌>>=◌, ◌>>◌, throw_if,
}
use the402machine.Gate.{Project, Route, Db, GateError, unique_violation}
use the402machine.Gate.Domain.{GateRoute, same_method}

-- `monthly_free_limit` has the default of migrations/0020_gate.sql.
unfoldable pub new_project : String → String → Project
new_project id public_id = record {
  id = id;
  public_id = public_id;
  monthly_free_limit = 25;
  active = true;
}

unfoldable pub create_project : String → String → Db → Result GateError (Project × Db)
create_project id public_id db = do
  throw_if (any (λ p. str_eq p.public_id public_id) db.projects) unique_violation
  ok (
    new_project id public_id,
    record db { projects = db.projects ++ new_project id public_id ∷ [] },
  )

abbrev pub new_route : String → String → GateRoute → Route
new_route id project_id input = record {
  id = id;
  project_id = project_id;
  route_key = input.key;
  method = input.method;
  path = input.path;
  price_sats = input.price_sats;
  active = true;
}

-- The two unique constraints of `gate_routes`.
abbrev pub clashes : Route → Route → Bool
clashes r s =
    str_eq r.project_id s.project_id
    && (str_eq r.route_key s.route_key || same_method r.method s.method && str_eq r.path s.path)

unfoldable pub create_route : String → String → GateRoute → Db → Result GateError (Route × Db)
create_route id project_id input db = do
  throw_if (any (clashes (new_route id project_id input)) db.routes) unique_violation
  ok (
    new_route id project_id input,
    record db { routes = db.routes ++ new_route id project_id input ∷ [] },
  )

-- The loop over the routes; `ids` are those of the new rows.
unfoldable pub create_routes :
    (ids : ℕ → String) → String → List GateRoute → Db → Result GateError (List Route × Db)
create_routes ids project_id [] db = ok ([], db)
create_routes ids project_id (input ∷ inputs) db = do
  out ← create_route (ids zero) project_id input db
  rest ← create_routes (λ k. ids (suc k)) project_id inputs out.1
  ok (out.0 ∷ rest.0, rest.1)

unfoldable pub provision_project :
    String
    → (ids : ℕ → String) → String
    → List GateRoute
    → Db
    → Result GateError ((Project × List Route) × Db)
provision_project id ids public_id inputs db = do
  project ← create_project id public_id db
  routes ← create_routes ids id inputs project.1
  ok ((project.0, routes.0), routes.1)

-- `listRoutesForProject`, in the order of the table.
unfoldable pub list_routes_for_project : String → Db → List Route
list_routes_for_project project_id db =
    filter (λ r. str_eq r.project_id project_id && r.active) db.routes
