-- ===== src/Http/PulseRoutes/Safety.antt =====
-- src/app.ts, registerPulseRoutes: whose requests change a monitor.
use the402machine.Base.{
  ℕ, String, Bool, true, false, Option, none, some, List, get_or, Result, ok, err, ◌≡◌, refl, inl,
  inr, Option-cases, Bool-cases,
}
use the402machine.Base.Keys.{Distinct, save-Distinct}
use the402machine.Tokens.{TokenError, PulseTokenRole, verify_pulse_token}
use the402machine.Pulse.{
  Pulse, AcceptPulseResult, accepted, rejected, get_credential_hashes, get_resource, lock_resource,
  is_over, expired_row,
}
use the402machine.Pulse.Counts.{AllConsistent, get_resource-AllConsistent}
use the402machine.Pulse.Heartbeats.{Counted, accept_heartbeat-Counted}
use the402machine.Pulse.Status.{SettingsBody}
use the402machine.Http.Exchange.{
  Request, Reply, Served, no_content, bearer_token, outcome, limited-outcome, OwnerOnly,
  owner_route-OwnerOnly,
}
use the402machine.Http.PulseRoutes.{
  ping_hash, owner_hash, verified, answer_heartbeat, count_heartbeat, handle_heartbeat,
  post_heartbeat, authorize_pulse_owner, handle_get, handle_patch, handle_delete, get_pulse,
  patch_pulse, delete_pulse,
}

abbrev pub is_accepted : AcceptPulseResult → Bool
is_accepted (accepted heartbeats at exhausted) = true
is_accepted (rejected reason) = false

get_credential_hashes-AllConsistent :
    (now : ℕ) (public_id : String) (rows : List Pulse)
    → AllConsistent rows
    → AllConsistent (get_credential_hashes now public_id rows).1
unfolding get_credential_hashes
get_credential_hashes-AllConsistent = get_resource-AllConsistent

get_credential_hashes-Distinct :
    (now : ℕ) (public_id : String) (rows : List Pulse)
    → Distinct (λ x. x.id) rows
    → Distinct (λ x. x.id) (get_credential_hashes now public_id rows).1
unfolding get_credential_hashes get_resource
get_credential_hashes-Distinct now public_id rows d =
    elim (Option-cases (lock_resource public_id rows)) [
      | inl e ↦ rw e d
      | inr (r, e) ↦ elim (Bool-cases (is_over now r)) [
        | inl t ↦ rw (e, t) (save-Distinct (λ x. x.id) (expired_row now r) rows d)
        | inr t ↦ rw (e, t) d
      ]
    ]

module _ (hmac_hex : (pepper message : String) → String) (pepper : String) (now : ℕ → ℕ)
    (others : ℕ → List Pulse → List Pulse) where
  -- The request's bearer token verifies against the hash that the table holds for the owner.
  abbrev pub Owns : Request → String → List Pulse → Type 0
  Owns request public_id rows =
      (hash : String) × (owner_hash (get_credential_hashes (now 1) public_id rows).0 ≡ some hash)
      × (verify_pulse_token hmac_hex PulseTokenRole.owner
            (get_or (bearer_token request.authorization) "") hash pepper
          ≡ ok true)

  -- What an answer to the owner's call says of the rows before it.
  abbrev pub OwnedPulse :
      {A : Type 0} → Request → String → List Pulse → Reply A × List Pulse → Type 0
  OwnedPulse request public_id rows =
      OwnerOnly (Owns request public_id (others 1 rows)) rows
        (get_credential_hashes (now 1) public_id (others 1 rows)).1

  verified-Owns :
      (request : Request) (public_id : String) (rows : List Pulse) (o : Option String)
      → owner_hash (get_credential_hashes (now 1) public_id rows).0 ≡ o
      → verified hmac_hex pepper now others PulseTokenRole.owner request o ≡ ok true
      → Owns request public_id rows
  unfolding verified
  verified-Owns request public_id rows none e h = cc
  verified-Owns request public_id rows (some hash) e h = (hash, e, h)

  -- Whatever other requests do between the calls of the handler: a monitor is shown, changed or
  -- destroyed only when the bearer token of the request verifies, as an owner's token, against the
  -- owner hash that the table holds for the monitor at the look-up; any other request is refused,
  -- and leaves the rows as they were at its start or as the look-up left them.
  pub owner-OwnerOnly :
      (trim : String → String) (size : String → ℕ) (body : SettingsBody) (request : Request)
      (public_id : String) (s : Served (List Pulse))
      → OwnedPulse request public_id s.tables
          (outcome (get_pulse hmac_hex pepper now others request public_id s))
        × OwnedPulse request public_id s.tables
            (outcome (patch_pulse hmac_hex pepper now others trim size body request public_id s))
        × OwnedPulse request public_id s.tables
            (outcome (delete_pulse hmac_hex pepper now others request public_id s))
  unfolding get_pulse patch_pulse delete_pulse authorize_pulse_owner
  owner-OwnerOnly trim size body request public_id s =
      let authorize = authorize_pulse_owner hmac_hex pepper now others request public_id in
      let owns = verified-Owns request public_id (others 1 s.tables) _ refl in
      (
        owner_route-OwnerOnly (now 0) request authorize
            (handle_get hmac_hex pepper now others public_id) s owns,
        owner_route-OwnerOnly (now 0) request authorize
            (handle_patch hmac_hex pepper now others trim size body public_id) s owns,
        owner_route-OwnerOnly (now 0) request authorize
            (handle_delete hmac_hex pepper now others public_id) s owns,
      )

  -- The request's bearer token is the ping token of the monitor.
  abbrev pub Pings : Request → String → List Pulse → Type 0
  Pings request public_id rows =
      (hash : String) × (ping_hash (get_credential_hashes (now 1) public_id rows).0 ≡ some hash)
      × (verify_pulse_token hmac_hex PulseTokenRole.ping
            (get_or (bearer_token request.authorization) "") hash pepper
          ≡ ok true)

  -- What an answer says of the rows before it and of those it leaves.
  abbrev pub Beats : Request → String → List Pulse → Reply (Unit {0}) × List Pulse → Type 0
  Beats request public_id rows (no_content, rows') =
      Pings request public_id (others 1 rows)
      × (result : AcceptPulseResult) × (is_accepted result ≡ true)
      × Counted (now 2) public_id
          (others 2 (get_credential_hashes (now 1) public_id (others 1 rows)).1) (result, rows')
  Beats request public_id rows _ = Unit

  verified-Pings :
      (request : Request) (public_id : String) (rows : List Pulse) (o : Option String)
      → ping_hash (get_credential_hashes (now 1) public_id rows).0 ≡ o
      → verified hmac_hex pepper now others PulseTokenRole.ping request o ≡ ok true
      → Pings request public_id rows
  unfolding verified
  verified-Pings request public_id rows none e h = cc
  verified-Pings request public_id rows (some hash) e h = (hash, e, h)

  answer-Beats :
      (request : Request) (public_id : String) (rows : List Pulse)
      (out : AcceptPulseResult × List Pulse)
      → Pings request public_id (others 1 rows)
      → Counted
          (now 2)
          public_id
          (others 2 (get_credential_hashes (now 1) public_id (others 1 rows)).1)
          out
      → Beats request public_id rows (answer_heartbeat hmac_hex pepper now others out)
  answer-Beats request public_id rows (accepted heartbeats at exhausted, left) p c =
      (p, accepted heartbeats at exhausted, refl, c)
  answer-Beats request public_id rows (rejected reason, left) p c = tt

  module _
      (keeps_ids : (n : ℕ) (rows : List Pulse)
        → Distinct (λ x. x.id) rows
        → Distinct (λ x. x.id) (others n rows))
      (keeps_consistent : (n : ℕ) (rows : List Pulse)
        → AllConsistent rows
        → AllConsistent (others n rows)) where
    count-Beats :
        (request : Request) (public_id : String) (rows : List Pulse) (held : Result TokenError Bool)
        → Distinct (λ x. x.id) rows
        → AllConsistent rows
        → (held ≡ ok true → Pings request public_id (others 1 rows))
        → Beats request public_id rows (
            count_heartbeat hmac_hex pepper now others public_id held
              (get_credential_hashes (now 1) public_id (others 1 rows)).1)
    unfolding count_heartbeat
    count-Beats request public_id rows (err e) d h p = tt
    count-Beats request public_id rows (ok false) d h p = tt
    count-Beats request public_id rows (ok true) d h p =
        answer-Beats request public_id rows _ (p refl) (
          accept_heartbeat-Counted (now 2) public_id _
            (keeps_ids 2 _ (
              get_credential_hashes-Distinct (now 1) public_id (others 1 rows)
                (keeps_ids 1 rows d)))
            (keeps_consistent 2 _ (
              get_credential_hashes-AllConsistent (now 1) public_id (others 1 rows)
                (keeps_consistent 1 rows h))))

    -- Whatever other requests do between the calls of the handler, as long as they keep the ids
    -- distinct and the constraints of the table: a heartbeat is answered with success only when the
    -- bearer token verifies against the ping hash that the table holds for the monitor, and it is
    -- then counted exactly once, within the limit, for an active monitor that is not over.
    pub post_heartbeat-Beats :
        (request : Request) (public_id : String) (s : Served (List Pulse))
        → Distinct (λ x. x.id) s.tables
        → AllConsistent s.tables
        → Beats request public_id s.tables
            (outcome (post_heartbeat hmac_hex pepper now others request public_id s))
    unfolding post_heartbeat handle_heartbeat
    post_heartbeat-Beats request public_id s d h =
        limited-outcome (Beats request public_id s.tables) (now 0) _ 120
          (handle_heartbeat hmac_hex pepper now others request public_id) s tt
          (count-Beats request public_id s.tables _ d h
            (verified-Pings request public_id (others 1 s.tables) _ refl))
