-- ===== src/Gate/Credits.antt =====
-- What an authorization costs: a free one of the month while there is one, else one prepaid credit.
use the402machine.Base.{
  ℕ, ◌+◌, ◌≤◌, ◌<◌, String, Bool, true, Option, none, some, List, [], ◌∷◌, ◌++◌, leb, ltb, sum,
  length, ◌||◌, length-append, str_eq, ◌≡◌, refl, ◌≢◌, eq_refl, eq_iff, inl, inr, arith, Bool-cases,
  Option-cases, Result-cases, Result, ok, err, subst,
}
use the402machine.Base.Table
use the402machine.Base.Keys.{Distinct, sum-save}
use the402machine.Gate.{
  Project, Intent, Grant, Source, monthly_free, prepaid_grant, Authorization, Db, GateError,
  find_intent, is_paid,
}
use the402machine.Gate.Authorize.{
  GateRuntime, month_of, GateAuthorization, AuthorizeInput, authorization_for, free_used, is_usable,
  is_before, first_grant, spent_row, charge_grant, charge, record_authorization, authorize_project,
  authorize_new, authorize_found, authorize_intent, paid_in_time,
}

abbrev pub credits : Db → ℕ
credits db = sum (λ g. g.remaining_authorizations) db.grants

one_more :
    (xs : List Authorization) (a : Authorization) (ys : List Authorization)
    → xs ≡ ys
    → length (xs ++ a ∷ []) ≡ length ys + 1
one_more xs a ys e = rw (← e) (omega (arith, length-append xs (a ∷ [])))

module _ (rt : GateRuntime) where
  -- A chosen grant is a row of the table, and usable.
  first_usable :
      (project_id : String) (now : ℕ) (gs : List Grant) (g : Grant)
      → first_grant rt project_id now gs ≡ some g
      → is_usable rt project_id now g ≡ true
  unfolding first_grant
  first_usable project_id now [] g e = cc
  first_usable project_id now (x ∷ xs) g e = elim (Bool-cases (is_usable rt project_id now x)) [
    | inr t ↦ first_usable project_id now xs g (rw t at e)
    | inl t ↦ elim (Option-cases (first_grant rt project_id now xs)) [
      | inl n ↦
          let same : x ≡ g = let q = rw (t, n) at e in cc in
          subst (λ r. is_usable rt project_id now r ≡ true) same t
      | inr (h, n) ↦ elim (Bool-cases (is_before rt h x)) [
        | inl b ↦
            let same : h ≡ g = let q = rw (t, n, b) at e in cc in
            first_usable project_id now xs g
              (subst (λ r. first_grant rt project_id now xs ≡ some r) same n)
        | inr b ↦
            let same : x ≡ g = let q = rw (t, n, b) at e in cc in
            subst (λ r. is_usable rt project_id now r ≡ true) same t
      ]
    ]
  ]

  here_found :
      (x g : Grant) (xs : List Grant) → x ≡ g → Table.find (λ y. str_eq y.id g.id) (x ∷ xs) ≡ some g
  here_found x g xs same =
      subst (λ r. Table.find (λ y. str_eq y.id r.id) (x ∷ xs) ≡ some r) same
        (rw (eq_refl x.id) refl)

  skip_found :
      (x g : Grant) (xs : List Grant)
      → Distinct (λ y. y.id) (x ∷ xs)
      → Table.find (λ y. str_eq y.id g.id) xs ≡ some g
      → Table.find (λ y. str_eq y.id g.id) (x ∷ xs) ≡ some g
  skip_found x g xs d found =
      let other : g.id ≢ x.id =
        Table.find-All (λ y. y.id ≢ x.id) (λ y. str_eq y.id g.id) xs g found d.0 in
      ground (arith, found, eq_iff x.id g.id)

  -- The chosen grant is the row with its id.
  first_found :
      (project_id : String) (now : ℕ) (gs : List Grant) (g : Grant)
      → Distinct (λ x. x.id) gs
      → first_grant rt project_id now gs ≡ some g
      → Table.find (λ x. str_eq x.id g.id) gs ≡ some g
  unfolding first_grant
  first_found project_id now [] g d e = cc
  first_found project_id now (x ∷ xs) g d e = elim (Bool-cases (is_usable rt project_id now x)) [
    | inr t ↦ skip_found x g xs d (first_found project_id now xs g d.1 (rw t at e))
    | inl t ↦ elim (Option-cases (first_grant rt project_id now xs)) [
      | inl n ↦ here_found x g xs (let q = rw (t, n) at e in cc)
      | inr (h, n) ↦ elim (Bool-cases (is_before rt h x)) [
        | inl b ↦
            let same : h ≡ g = let q = rw (t, n, b) at e in cc in
            skip_found x g xs d (
              first_found project_id now xs g d.1
                (subst (λ r. first_grant rt project_id now xs ≡ some r) same n))
        | inr b ↦ here_found x g xs (let q = rw (t, n, b) at e in cc)
      ]
    ]
  ]

  -- What a charge takes.
  abbrev pub Charged : ℕ → String → Project → Db → Source → Db → Type 0
  Charged now project_id project db (monthly_free month) db' =
      (month ≡ month_of rt now)
      × (free_used project_id month db < project.monthly_free_limit)
      × (credits db' ≡ credits db)
  Charged now project_id project db (prepaid_grant id) db' =
      (project.monthly_free_limit ≤ free_used project_id (month_of rt now) db)
      × (credits db' + 1 ≡ credits db)

  abbrev Charges : ℕ → String → Project → Db → Result GateError (Source × Db) → Type 0
  Charges now project_id project db (ok r) =
      Charged now project_id project db r.0 r.1 × (r.1.authorizations ≡ db.authorizations)
  Charges now project_id project db (err e) = Unit

  grant-Charges :
      (now : ℕ) (project_id : String) (project : Project) (db : Db) (found : Option Grant)
      → Distinct (λ x. x.id) db.grants
      → project.monthly_free_limit ≤ free_used project_id (month_of rt now) db
      → first_grant rt project_id now db.grants ≡ found
      → Charges now project_id project db (charge_grant rt found db)
  unfolding charge_grant spent_row
  grant-Charges now project_id project db none d l e = tt
  grant-Charges now project_id project db (some g) d l e = (
    (
      l,
      ground (
        arith,
        sum-save (λ x. x.id) (λ x. x.remaining_authorizations) (λ x. str_eq x.id g.id) g
            (spent_row g) db.grants d refl (first_found project_id now db.grants g d e),
        first_usable project_id now db.grants g e,
      ),
    ),
    refl,
  )

  charge-Charges :
      (now : ℕ) (project_id : String) (project : Project) (db : Db)
      → Distinct (λ x. x.id) db.grants
      → Charges now project_id project db (charge rt now project_id project db)
  unfolding charge
  charge-Charges now project_id project db d =
      elim (Bool-cases
        (leb project.monthly_free_limit (free_used project_id (month_of rt now) db))) [
          | inl t ↦ rw t (
              grant-Charges now project_id project db (first_grant rt project_id now db.grants) d
                (ground arith) refl)
          | inr t ↦ rw t ((refl, ground arith, refl), refl)
        ]

  -- What a new authorization says of the tables before and after it.
  abbrev pub Authorizes : AuthorizeInput → Db → Result GateError (GateAuthorization × Db) → Type 0
  Authorizes input db (ok (a, db')) =
      (i : Intent) × (project : Project) × (find_intent input.intent_id db ≡ some i)
      × (Table.find (λ p. str_eq p.id i.project_id) db.projects ≡ some project)
      × (is_paid i.state ≡ true)
      × (paid_in_time rt i ≡ true)
      × (length db'.authorizations ≡ length db.authorizations + 1)
      × Charged input.now i.project_id project db a.source db'
  Authorizes input db (err e) = Unit

  record-Authorizes :
      (clock : ℕ) (input : AuthorizeInput) (i : Intent) (project : Project) (db : Db)
      (out : Source × Db)
      → find_intent input.intent_id db ≡ some i
      → Table.find (λ p. str_eq p.id i.project_id) db.projects ≡ some project
      → is_paid i.state ≡ true
      → paid_in_time rt i ≡ true
      → Charges input.now i.project_id project db (ok out)
      → Authorizes input db (record_authorization rt clock input i project out)
  unfolding record_authorization
  record-Authorizes clock input i project db (monthly_free m, out) e p s t c =
      elim (Bool-cases bad) [
        | inl u ↦ rw u tt
        | inr u ↦
            rw u (i, project, e, p, s, t, one_more out.authorizations _ db.authorizations c.1, c.0)
      ]
    where
      receipt : String
      receipt = input.create_receipt input.receipt_jti project.public_id

      bad : Bool
      bad = ltb (rt.size receipt) 64 || ltb 8_192 (rt.size receipt)
  record-Authorizes clock input i project db (prepaid_grant g, out) e p s t c =
      elim (Bool-cases bad) [
        | inl u ↦ rw u tt
        | inr u ↦
            rw u (i, project, e, p, s, t, one_more out.authorizations _ db.authorizations c.1, c.0)
      ]
    where
      receipt : String
      receipt = input.create_receipt input.receipt_jti project.public_id

      bad : Bool
      bad = ltb (rt.size receipt) 64 || ltb 8_192 (rt.size receipt)

  new-Authorizes :
      (clock : ℕ) (input : AuthorizeInput) (db : Db) (i : Intent) (found : Option Project)
      → Distinct (λ x. x.id) db.grants
      → find_intent input.intent_id db ≡ some i
      → Table.find (λ p. str_eq p.id i.project_id) db.projects ≡ found
      → is_paid i.state ≡ true
      → paid_in_time rt i ≡ true
      → Authorizes input db (authorize_project rt clock input i db found)
  unfolding authorize_project
  new-Authorizes clock input db i none d e p s t = tt
  new-Authorizes clock input db i (some project) d e p s t =
      let c = charge-Charges input.now i.project_id project db d in
      elim (Result-cases (charge rt input.now i.project_id project db)) [
        | inl (out, f) ↦ rw f (record-Authorizes clock input i project db out e p s t (rw f at c))
        | inr (x, f) ↦ rw f tt
      ]

  found-Authorizes :
      (clock : ℕ) (input : AuthorizeInput) (db : Db) (found : Option Intent)
      → Distinct (λ x. x.id) db.grants
      → find_intent input.intent_id db ≡ found
      → Authorizes input db (authorize_found rt clock input db found none)
  unfolding authorize_found authorize_new
  found-Authorizes clock input db none d e = tt
  found-Authorizes clock input db (some i) d e = elim (Bool-cases (is_paid i.state)) [
    | inl s ↦ rw s (elim (Bool-cases (paid_in_time rt i)) [
      | inl t ↦ rw t (
          new-Authorizes clock input db i (Table.find (λ p. str_eq p.id i.project_id) db.projects) d
            e refl s t)
      | inr t ↦ rw t tt
    ])
    | inr s ↦ rw s tt
  ]

  -- When no two grants share an id and the intent has no authorization yet, an authorization that is
  -- made was for a paid intent of a known project whose payment came within the grace period. It
  -- adds one row. It is a free one only while the project has used fewer than its limit in that
  -- month, and then takes no credit; otherwise it takes exactly one prepaid credit.
  pub authorize_intent-Authorizes :
      (clock : ℕ) (input : AuthorizeInput) (db : Db)
      → Distinct (λ x. x.id) db.grants
      → authorization_for input.intent_id db ≡ none
      → Authorizes input db (authorize_intent rt clock input db)
  unfolding authorize_intent
  authorize_intent-Authorizes clock input db d n =
      rw n (found-Authorizes clock input db (find_intent input.intent_id db) d refl)
