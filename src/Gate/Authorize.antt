-- ===== src/Gate/Authorize.antt =====
-- src/gate/gate-repository.ts: `authorizeIntent`, which pays for a receipt with a free authorization
-- of the month or with a prepaid credit, and the grant of credits.
use the402machine.Base.{
  ℕ, ◌-◌, String, Bool, false, not, ◌&&◌, ◌||◌, Option, none, some, List, [], ◌∷◌, ◌++◌, leb, ltb,
  ◌==◌, if◌then◌else◌, get_or, length, filter, str_eq, Result, ok, err, ◌>>=◌, ◌>>◌, throw_if,
}
use the402machine.Base.Table
use the402machine.Domain.Plans.{PlanId}
use the402machine.Gate.Domain.{gate_packs, gate_month_key}
use the402machine.Gate.{
  Project, Intent, authorized, Grant, Source, monthly_free, prepaid_grant, Authorization, Db,
  GateError, intent_not_found, not_ready, exceeded_grace, project_not_found, no_authorizations,
  invalid_receipt, is_paid, find_intent, store_intent, in_grace,
}

-- The UTC year and month of a moment, the texts of numbers, the order of the ids, the length of a
-- text, and the grants that other transactions hold (`skip locked`).
pub record GateRuntime : Type 0 where
  pub utc_year : ℕ → String
  pub utc_month : ℕ → ℕ
  pub show_number : ℕ → String
  pub id_before : String → String → Bool
  pub size : String → ℕ
  pub is_locked : String → Bool

-- `gateMonthKey` of a moment.
abbrev pub month_of : GateRuntime → ℕ → String
month_of rt now = gate_month_key rt.show_number (rt.utc_year now) (rt.utc_month now)

unfoldable pub new_grant : String → String → String → PlanId → ℕ → ℕ → Grant
new_grant id project_id source_order_id pack purchased_at expires_at = record {
  id = id;
  project_id = project_id;
  source_order_id = source_order_id;
  total_authorizations = (gate_packs pack).authorizations;
  remaining_authorizations = (gate_packs pack).authorizations;
  purchased_at = purchased_at;
  expires_at = expires_at;
}

unfoldable pub add_credit_grant : String → String → String → PlanId → ℕ → ℕ → Db → Grant × Db
add_credit_grant id project_id source_order_id pack purchased_at expires_at db = (
  new_grant id project_id source_order_id pack purchased_at expires_at,
  record db {
    grants = db.grants ++ new_grant id project_id source_order_id pack purchased_at expires_at ∷ [];
  },
)

abbrev pub authorization_for : String → Db → Option Authorization
authorization_for intent_id db = Table.find (λ a. str_eq a.intent_id intent_id) db.authorizations

abbrev pub is_free_in : String → String → Authorization → Bool
is_free_in project_id month a =
    str_eq a.project_id project_id
    && elim a.source [ monthly_free m ↦ str_eq m month | prepaid_grant _ ↦ false ]

-- The free authorizations that a project has used in a month.
abbrev pub free_used : String → String → Db → ℕ
free_used project_id month db = length (filter (is_free_in project_id month) db.authorizations)

-- A result of the call, which joins the receipt.
pub record GateAuthorization : Type 0 where
  pub intent_id : String
  pub receipt_jti : String
  pub receipt : String
  pub source : Source

pub record AuthorizeInput : Type 0 where
  pub intent_id : String
  pub receipt_jti : String
  pub now : ℕ
  pub create_receipt : (receipt_jti project_public_id : String) → String

unfoldable pub authorized_row : ℕ → ℕ → String → Intent → Intent
authorized_row clock now receipt i = record i {
  state = authorized;
  paid_at = some (get_or i.paid_at now);
  authorized_at = some now;
  receipt = some receipt;
  updated_at = clock;
}

unfoldable pub spent_row : Grant → Grant
spent_row g = record g { remaining_authorizations = g.remaining_authorizations - 1 }

abbrev pub store_grant : Grant → Db → Db
store_grant g db = record db { grants = Table.save (λ x. x.id) g db.grants }

module _ (rt : GateRuntime) where
  abbrev pub is_usable : String → ℕ → Grant → Bool
  is_usable project_id now g =
      str_eq g.project_id project_id
      && ltb 0 g.remaining_authorizations
      && ltb now g.expires_at
      && not (rt.is_locked g.id)

  -- `order by expires_at, purchased_at, id`
  abbrev pub is_before : Grant → Grant → Bool
  is_before g h =
      ltb g.expires_at h.expires_at
      || (g.expires_at == h.expires_at)
        && (ltb g.purchased_at h.purchased_at
            || (g.purchased_at == h.purchased_at) && rt.id_before g.id h.id)

  abbrev sooner : Grant → Option Grant → Option Grant
  sooner g none = some g
  sooner g (some h) = if is_before h g then some h else some g

  -- The first of the usable grants.
  unfoldable pub first_grant : String → ℕ → List Grant → Option Grant
  first_grant project_id now [] = none
  first_grant project_id now (g ∷ gs) =
      let rest = first_grant project_id now gs in
      if is_usable project_id now g then sooner g rest else rest

  -- The source of the authorization, with the tables after it is charged.
  unfoldable pub charge_grant : Option Grant → Db → Result GateError (Source × Db)
  charge_grant none db = err no_authorizations
  charge_grant (some g) db = ok (prepaid_grant g.id, store_grant (spent_row g) db)

  unfoldable pub charge : ℕ → String → Project → Db → Result GateError (Source × Db)
  charge now project_id project db =
      if leb project.monthly_free_limit (free_used project_id (month_of rt now) db)
      then charge_grant (first_grant project_id now db.grants) db
      else ok (monthly_free (month_of rt now), db)

  new_authorization : AuthorizeInput → Intent → Source → Authorization
  new_authorization input i source = record {
    intent_id = i.id;
    receipt_jti = input.receipt_jti;
    source = source;
    project_id = i.project_id;
  }

  unfoldable pub record_authorization :
      ℕ
      → AuthorizeInput
      → Intent
      → Project
      → Source × Db
      → Result GateError (GateAuthorization × Db)
  unfolding new_authorization
  record_authorization clock input i project charged =
      let receipt = input.create_receipt input.receipt_jti project.public_id in
      throw_if (ltb (rt.size receipt) 64 || ltb 8_192 (rt.size receipt)) invalid_receipt
      >> ok (
        record {
          intent_id = i.id;
          receipt_jti = input.receipt_jti;
          receipt = receipt;
          source = charged.0;
        },
        store_intent (authorized_row clock input.now receipt i) (record charged.1 {
          authorizations = charged.1.authorizations ++ new_authorization input i charged.0 ∷ [];
        }),
      )

  unfoldable pub authorize_project :
      ℕ → AuthorizeInput → Intent → Db → Option Project → Result GateError (GateAuthorization × Db)
  authorize_project clock input i db none = err project_not_found
  authorize_project clock input i db (some project) =
      charge input.now i.project_id project db >>= record_authorization clock input i project

  abbrev pub paid_in_time : Intent → Bool
  paid_in_time i = elim i.paid_at [ none ↦ false | some at ↦ in_grace at i.invoice_expires_at ]

  unfoldable pub authorize_new :
      ℕ → AuthorizeInput → Intent → Db → Result GateError (GateAuthorization × Db)
  authorize_new clock input i db =
      let rest =
        authorize_project clock input i db
          (Table.find (λ p. str_eq p.id i.project_id) db.projects) in
      if not (is_paid i.state)
      then err not_ready
      else if not (paid_in_time i)
      then err exceeded_grace
      else rest

  unfoldable pub authorize_found :
      ℕ
      → AuthorizeInput
      → Db
      → Option Intent
      → Option Authorization
      → Result GateError (GateAuthorization × Db)
  authorize_found clock input db none found = err intent_not_found
  authorize_found clock input db (some i) (some a) = ok (
    record {
      intent_id = a.intent_id;
      receipt_jti = a.receipt_jti;
      receipt = get_or i.receipt "";
      source = a.source;
    },
    db,
  )
  authorize_found clock input db (some i) none = authorize_new clock input i db

  unfoldable pub authorize_intent :
      ℕ → AuthorizeInput → Db → Result GateError (GateAuthorization × Db)
  authorize_intent clock input db =
      authorize_found clock input db (find_intent input.intent_id db)
        (authorization_for input.intent_id db)
