-- ===== src/Pulse/Counts.antt =====
-- The CHECK constraints of migrations/0012_pulse.sql on counts, status, tokens, settings and times,
-- as an invariant of the operations. The form of the public ids is not part of it.
use the402machine.Base.{
  ℕ, ◌+◌, ◌≤◌, ◌<◌, String, Bool, true, some, List, [], ◌∷◌, ◌++◌, leb, ◌≡◌, refl, inl, inr,
  Bool-cases, Option-cases, arith, is_some, All, str_eq, ◌∙◌, Option, none, after,
}
use the402machine.Base.Table
use the402machine.Base.Batch.{clamp_limit, due_keys, update_in-All}
use the402machine.Pulse.{
  Pulse, CreatePulseInput, PulseSettings, is_active, is_exhausted, is_expirable, is_over, store,
  lock_resource, new_pulse, create, expired_row, get_resource, beaten_row, accept_heartbeat,
  settled_row, save_checked, is_allowed, public_row, get_public_resource, update_settings,
  destroyed_row, destroy, is_due, swept_row, expire_due, expire_locked,
}

pub record IsConsistent (r : Pulse) : Type 0 where
  pub within : r.heartbeat_count ≤ r.heartbeat_limit
  pub room : is_active r.status ≡ true → r.heartbeat_count < r.heartbeat_limit
  pub full : is_exhausted r.status ≡ true → r.heartbeat_count ≡ r.heartbeat_limit
  pub owner_held : is_some r.owner_token_hash ≡ is_expirable r.status
  pub ping_held : is_some r.ping_token_hash ≡ is_active r.status
  pub allowed : is_allowed r ≡ true

abbrev pub AllConsistent : List Pulse → Type 0
AllConsistent = All IsConsistent

store-AllConsistent :
    (r : Pulse) (rows : List Pulse)
    → IsConsistent r
    → AllConsistent rows
    → AllConsistent (store r rows)
store-AllConsistent r rows c h = Table.save-All IsConsistent (λ x. x.id) r rows c h

pub lock-IsConsistent :
    (public_id : String) (rows : List Pulse) (r : Pulse)
    → lock_resource public_id rows ≡ some r
    → AllConsistent rows
    → IsConsistent r
lock-IsConsistent public_id rows r e h =
    Table.find-All IsConsistent (λ x. str_eq x.public_id public_id) rows r e h

expired-IsConsistent : (now : ℕ) (r : Pulse) → IsConsistent r → IsConsistent (expired_row now r)
unfolding expired_row
expired-IsConsistent now r h = record {
  within = h.within;
  room = λ e. cc;
  full = λ e. cc;
  owner_held = refl;
  ping_held = refl;
  allowed = ground (arith, h.allowed);
}

beaten-IsConsistent :
    (now : ℕ) (r : Pulse)
    → is_active r.status ≡ true
    → IsConsistent r
    → IsConsistent (beaten_row now r)
unfolding beaten_row
beaten-IsConsistent now r a h = elim (Bool-cases (leb r.heartbeat_limit (r.heartbeat_count + 1))) [
  | inl t ↦
      let room : r.heartbeat_count < r.heartbeat_limit = h.room a in
      rw t (record {
        within = omega arith;
        room = λ e. cc;
        full = λ e. ground arith;
        owner_held = ground arith;
        ping_held = refl;
        allowed = h.allowed;
      })
  | inr t ↦ rw t (record {
    within = ground arith;
    room = λ e. ground arith;
    full = λ e. ground arith;
    owner_held = h.owner_held;
    ping_held = h.ping_held;
    allowed = h.allowed;
  })
]

read-AllConsistent :
    (now : ℕ) (r : Pulse) (rows : List Pulse)
    → IsConsistent r
    → AllConsistent rows
    → AllConsistent (expire_locked now r rows)
read-AllConsistent now r rows c h =
    store-AllConsistent (expired_row now r) rows (expired-IsConsistent now r c) h

settled-IsConsistent :
    (now : ℕ) (settings : PulseSettings) (r : Pulse)
    → is_allowed (settled_row now settings r) ≡ true
    → IsConsistent r
    → IsConsistent (settled_row now settings r)
unfolding settled_row
settled-IsConsistent now settings r a h = record {
  within = h.within;
  room = h.room;
  full = h.full;
  owner_held = h.owner_held;
  ping_held = h.ping_held;
  allowed = a;
}

destroyed-IsConsistent : (now : ℕ) (r : Pulse) → IsConsistent r → IsConsistent (destroyed_row now r)
unfolding destroyed_row
destroyed-IsConsistent now r h = record {
  within = h.within;
  room = λ e. cc;
  full = λ e. cc;
  owner_held = refl;
  ping_held = refl;
  allowed = h.allowed;
}

swept-IsConsistent : (now : ℕ) (r : Pulse) → IsConsistent r → IsConsistent (swept_row now r)
unfolding swept_row expired_row
swept-IsConsistent now r h = record {
  within = h.within;
  room = λ e. cc;
  full = λ e. cc;
  owner_held = refl;
  ping_held = refl;
  allowed = ground (arith, h.allowed);
}

append-AllConsistent :
    (r : Pulse) (rows : List Pulse)
    → IsConsistent r
    → AllConsistent rows
    → AllConsistent (rows ++ r ∷ [])
append-AllConsistent r [] c h = (c, tt)
append-AllConsistent r (x ∷ xs) c h = (h.0, append-AllConsistent r xs c h.1)

create-AllConsistent :
    (now : ℕ) (id : String) (input : CreatePulseInput) (rows : List Pulse)
    → is_allowed (new_pulse now id input) ≡ true
    → AllConsistent rows
    → AllConsistent (create now id input rows).1
unfolding create new_pulse
create-AllConsistent now id input rows l h =
    append-AllConsistent (new_pulse now id input) rows
      (record {
        within = omega arith;
        room = λ e. ground (arith, l);
        full = λ e. cc;
        owner_held = refl;
        ping_held = refl;
        allowed = l;
      })
      h

pub get_resource-AllConsistent :
    (now : ℕ) (public_id : String) (rows : List Pulse)
    → AllConsistent rows
    → AllConsistent (get_resource now public_id rows).1
unfolding get_resource
get_resource-AllConsistent now public_id rows h =
    elim (Option-cases (lock_resource public_id rows)) [
      | inl e ↦ rw e h
      | inr (r, e) ↦ rw e (elim (Bool-cases (is_over now r)) [
        | inl t ↦ rw t (read-AllConsistent now r rows (lock-IsConsistent public_id rows r e h) h)
        | inr t ↦ rw t h
      ])
    ]

public-IsConsistent :
    (starts_with : String → Bool) (key : String) (rows : List Pulse) (r : Pulse)
    (found : Option Pulse)
    → Table.find (λ x. str_eq x.public_status_id key) rows ≡ found
    → public_row (starts_with key) key rows found ≡ some r
    → AllConsistent rows
    → IsConsistent r
public-IsConsistent starts_with key rows r (some x) f e h =
    Table.find-All IsConsistent (λ x. str_eq x.public_status_id key) rows r (f ∙ e) h
public-IsConsistent starts_with key rows r none f e h = elim (Bool-cases (starts_with key)) [
  | inl t ↦ absurd (let q = rw t at e in cc)
  | inr t ↦ lock-IsConsistent key rows r (rw t at e) h
]

get_public_resource-AllConsistent :
    (starts_with : String → Bool) (now : ℕ) (key : String) (rows : List Pulse)
    → AllConsistent rows
    → AllConsistent (get_public_resource starts_with now key rows).1
unfolding get_public_resource
get_public_resource-AllConsistent starts_with now key rows h =
    elim (Option-cases (
      public_row (starts_with key) key rows
        (Table.find (λ r. str_eq r.public_status_id key) rows))) [
          | inl e ↦ rw e h
          | inr (r, e) ↦ rw e (elim (Bool-cases (is_over now r)) [
            | inl t ↦ rw t (
                read-AllConsistent now r rows
                  (public-IsConsistent starts_with key rows r _ refl e h) h)
            | inr t ↦ rw t h
          ])
        ]

accept_heartbeat-AllConsistent :
    (now : ℕ) (public_id : String) (rows : List Pulse)
    → AllConsistent rows
    → AllConsistent (accept_heartbeat now public_id rows).1
unfolding accept_heartbeat
accept_heartbeat-AllConsistent now public_id rows h =
    elim (Option-cases (lock_resource public_id rows)) [
      | inl e ↦ rw e h
      | inr (r, e) ↦
          let c : IsConsistent r = lock-IsConsistent public_id rows r e h in
          rw e (elim (Bool-cases (is_over now r)) [
            | inl t ↦ rw t (read-AllConsistent now r rows c h)
            | inr t ↦ rw t (elim (Bool-cases (is_active r.status)) [
              | inl u ↦
                  rw u
                    (store-AllConsistent (beaten_row now r) rows (beaten-IsConsistent now r u c) h)
              | inr u ↦ rw u h
            ])
          ])
    ]

checked-AllConsistent :
    (now : ℕ) (settings : PulseSettings) (r : Pulse) (rows : List Pulse)
    → IsConsistent r
    → AllConsistent rows
    → AllConsistent (after rows (save_checked (settled_row now settings r) rows))
checked-AllConsistent now settings r rows c h =
    elim (Bool-cases (is_allowed (settled_row now settings r))) [
      | inl a ↦ rw a (
          store-AllConsistent (settled_row now settings r) rows
            (settled-IsConsistent now settings r a c) h)
      | inr a ↦ rw a h
    ]

update_settings-AllConsistent :
    (now : ℕ) (public_id : String) (settings : PulseSettings) (rows : List Pulse)
    → AllConsistent rows
    → AllConsistent (after rows (update_settings now public_id settings rows))
unfolding update_settings
update_settings-AllConsistent now public_id settings rows h =
    elim (Option-cases (lock_resource public_id rows)) [
      | inl e ↦ rw e h
      | inr (r, e) ↦
          let c : IsConsistent r = lock-IsConsistent public_id rows r e h in
          rw e (elim (Bool-cases (is_over now r)) [
            | inl t ↦ rw t (read-AllConsistent now r rows c h)
            | inr t ↦ rw t (elim (Bool-cases (is_expirable r.status)) [
              | inl u ↦ rw u (checked-AllConsistent now settings r rows c h)
              | inr u ↦ rw u h
            ])
          ])
    ]

destroy-AllConsistent :
    (now : ℕ) (public_id : String) (rows : List Pulse)
    → AllConsistent rows
    → AllConsistent (destroy now public_id rows).1
unfolding destroy
destroy-AllConsistent now public_id rows h = elim (Option-cases (lock_resource public_id rows)) [
  | inl e ↦ rw e h
  | inr (r, e) ↦
      let c : IsConsistent r = lock-IsConsistent public_id rows r e h in
      rw e (elim (Bool-cases (is_over now r)) [
        | inl t ↦ rw t (read-AllConsistent now r rows c h)
        | inr t ↦ rw t (elim (Bool-cases (is_expirable r.status)) [
          | inl u ↦
              rw u
                (store-AllConsistent (destroyed_row now r) rows (destroyed-IsConsistent now r c) h)
          | inr u ↦ rw u h
        ])
      ])
]

expire_due-AllConsistent :
    (now : ℕ) (locked : String → Bool) (requested : ℕ) (rows : List Pulse)
    → AllConsistent rows
    → AllConsistent (expire_due now locked requested rows).1
unfolding expire_due
expire_due-AllConsistent now locked requested rows h =
    update_in-All IsConsistent (λ r. r.id)
      (due_keys (λ r. r.id) (λ r. r.expires_at) (is_due now locked) (clamp_limit requested) rows)
      (swept_row now) rows (swept-IsConsistent now) h

-- A call of `PulseRepository` that writes, with its clock reading and the id of a new row.
pub data Call : Type 0 where
  creates : (now : ℕ) (id : String) → CreatePulseInput → Call
  reads : (now : ℕ) (public_id : String) → Call
  reads_public : (is_status_id : String → Bool) (now : ℕ) (key : String) → Call
  beats : (now : ℕ) (public_id : String) → Call
  updates : (now : ℕ) (public_id : String) → PulseSettings → Call
  destroys : (now : ℕ) (public_id : String) → Call
  expires_due : (now : ℕ) (locked : String → Bool) (limit : ℕ) → Call

abbrev step : List Pulse → Call → List Pulse
step rows (creates now id input) = (create now id input rows).1
step rows (reads now public_id) = (get_resource now public_id rows).1
step rows (reads_public is_status_id now key) = (get_public_resource is_status_id now key rows).1
step rows (beats now public_id) = (accept_heartbeat now public_id rows).1
step rows (updates now public_id settings) =
    after rows (update_settings now public_id settings rows)
step rows (destroys now public_id) = (destroy now public_id rows).1
step rows (expires_due now locked limit) = (expire_due now locked limit rows).1

unfoldable pub run : List Pulse → List Call → List Pulse
run rows [] = rows
run rows (c ∷ cs) = run (step rows c) cs

-- A new row satisfies the CHECKs: the insert of another one throws.
abbrev pub IsAllowedCall : Call → Type 0
IsAllowedCall (creates now id input) = is_allowed (new_pulse now id input) ≡ true
IsAllowedCall _ = Unit

step-AllConsistent :
    (c : Call) (rows : List Pulse)
    → IsAllowedCall c
    → AllConsistent rows
    → AllConsistent (step rows c)
step-AllConsistent (creates now id input) rows l h = create-AllConsistent now id input rows l h
step-AllConsistent (reads now public_id) rows l h = get_resource-AllConsistent now public_id rows h
step-AllConsistent (reads_public is_status_id now key) rows l h =
    get_public_resource-AllConsistent is_status_id now key rows h
step-AllConsistent (beats now public_id) rows l h =
    accept_heartbeat-AllConsistent now public_id rows h
step-AllConsistent (updates now public_id settings) rows l h =
    update_settings-AllConsistent now public_id settings rows h
step-AllConsistent (destroys now public_id) rows l h = destroy-AllConsistent now public_id rows h
step-AllConsistent (expires_due now locked limit) rows l h =
    expire_due-AllConsistent now locked limit rows h

-- From rows that satisfy them, and with new rows that pass the database's CHECKs, every history of
-- calls, with any settings, leaves rows that satisfy these constraints of the table: an active
-- monitor has both tokens and heartbeats left, an exhausted one has used exactly its limit and keeps
-- only the owner's token, and an expired or destroyed one has no token; no monitor has counted more
-- than its limit; and the limit, interval, grace period, name, description and expiry of every
-- monitor are within the bounds of their CHECKs.
pub run-AllConsistent :
    (cs : List Call) (rows : List Pulse)
    → All IsAllowedCall cs
    → AllConsistent rows
    → AllConsistent (run rows cs)
unfolding run
run-AllConsistent [] rows l h = h
run-AllConsistent (c ∷ cs) rows l h =
    run-AllConsistent cs (step rows c) l.1 (step-AllConsistent c rows l.0 h)
