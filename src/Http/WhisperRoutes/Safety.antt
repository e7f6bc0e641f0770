-- ===== src/Http/WhisperRoutes/Safety.antt =====
-- src/app.ts, registerWhisperRoutes: who gets a ciphertext, and what a refusal costs.
use the402machine.Base.{
  ℕ, String, Bool, true, false, Option, none, some, List, get_or, Result, ok, err, ◌≡◌, refl, inl,
  inr, Bool-cases,
}
use the402machine.Base.Keys.{Distinct}
use the402machine.Tokens.{TokenError, CatchTokenRole, verify_token}
use the402machine.Whisper.{Whisper, Availability, get_credential_hash}
use the402machine.Whisper.Reads.{AllSound, Granted, remaining, consume-Granted}
use the402machine.Http.Exchange.{
  Request, Reply, Served, sent, bearer_token, outcome, limited-outcome,
}
use the402machine.Http.WhisperRoutes.{
  WhisperBody, ciphertext, holds_token, deliver, reveal, read_whisper, handle_read, get_whisper,
}

-- No other request comes between the calls of the handler.
abbrev pub alone : ℕ → List Whisper → List Whisper
alone n rows = rows

-- An answer that is no ciphertext leaves as many reads as there were.
abbrev pub Spared : List Whisper → Reply WhisperBody × List Whisper → Type 0
Spared rows (sent code (ciphertext bytes), rows') = Unit
Spared rows (_, rows') = remaining rows' ≡ remaining rows

module _ (hmac_hex : (pepper message : String) → String) (pepper : String) where
  -- The request's bearer token is the one of the handoff.
  abbrev Authenticated : ℕ → Request → String → List Whisper → Type 0
  Authenticated at request public_id rows =
      (hash : String) × (get_credential_hash at public_id rows ≡ some hash)
      × (verify_token hmac_hex CatchTokenRole.owner (get_or (bearer_token request.authorization) "")
            hash pepper
          ≡ ok true)

  holds-Authenticated :
      (at : ℕ) (request : Request) (public_id : String) (rows : List Whisper) (o : Option String)
      → get_credential_hash at public_id rows ≡ o
      → holds_token hmac_hex pepper request o ≡ ok true
      → Authenticated at request public_id rows
  unfolding holds_token
  holds-Authenticated at request public_id rows none e h = cc
  holds-Authenticated at request public_id rows (some hash) e h = (hash, e, h)

  module _ (now : ℕ → ℕ) (others : ℕ → List Whisper → List Whisper) where
    -- What an answer says of the rows before it, and of those it leaves.
    abbrev pub Delivers :
        Request → String → List Whisper → Reply WhisperBody × List Whisper → Type 0
    Delivers request public_id rows (sent code (ciphertext bytes), rows') =
        Authenticated (now 1) request public_id (others 1 rows)
        × Granted (now 4) public_id (others 4 (others 2 (others 1 rows))) (some bytes, rows')
    Delivers request public_id rows _ = Unit

    deliver-Delivers :
        (request : Request) (public_id : String) (rows : List Whisper)
        (out : Option (List ℕ) × List Whisper)
        → Authenticated (now 1) request public_id (others 1 rows)
        → Granted (now 4) public_id (others 4 (others 2 (others 1 rows))) out
        → Delivers request public_id rows (deliver hmac_hex pepper now others out)
    deliver-Delivers request public_id rows (none, left) a g = tt
    deliver-Delivers request public_id rows (some bytes, left) a g = (a, g)

    module _
        (keeps_ids : (n : ℕ) (rows : List Whisper)
          → Distinct (λ x. x.id) rows
          → Distinct (λ x. x.id) (others n rows))
        (keeps_sound : (n : ℕ) (rows : List Whisper)
          → AllSound rows
          → AllSound (others n rows)) where
      reveal-Delivers :
          (request : Request) (public_id : String) (rows : List Whisper) (a : Option Availability)
          → Distinct (λ x. x.id) rows
          → AllSound rows
          → Authenticated (now 1) request public_id (others 1 rows)
          → Delivers request public_id rows
              (reveal hmac_hex pepper now others public_id a (others 2 (others 1 rows)))
      unfolding reveal
      reveal-Delivers request public_id rows none d h auth = tt
      reveal-Delivers request public_id rows (some a) d h auth = elim (Bool-cases a.is_available) [
        | inl t ↦ rw t (
            deliver-Delivers request public_id rows _ auth (
              consume-Granted (now 4) public_id (others 4 (others 2 (others 1 rows)))
                (keeps_ids 4 _ (keeps_ids 2 _ (keeps_ids 1 rows d)))
                (keeps_sound 4 _ (keeps_sound 2 _ (keeps_sound 1 rows h)))))
        | inr t ↦ rw t tt
      ]

      read-Delivers :
          (request : Request) (public_id : String) (rows : List Whisper)
          (held : Result TokenError Bool)
          → Distinct (λ x. x.id) rows
          → AllSound rows
          → (held ≡ ok true → Authenticated (now 1) request public_id (others 1 rows))
          → Delivers request public_id rows
              (read_whisper hmac_hex pepper now others public_id held (others 1 rows))
      unfolding read_whisper
      read-Delivers request public_id rows (err e) d h auth = tt
      read-Delivers request public_id rows (ok false) d h auth = tt
      read-Delivers request public_id rows (ok true) d h auth =
          reveal-Delivers request public_id rows _ d h (auth refl)

      -- Whatever other requests do between the calls of the handler, as long as they keep the ids
      -- distinct and the rows sound: a ciphertext is sent only for a request whose bearer token
      -- verifies against the hash that the table holds for the handoff, and it is the one of a
      -- revealed, unexpired handoff, of which exactly one read is used up.
      pub get_whisper-Delivers :
          (request : Request) (public_id : String) (s : Served (List Whisper))
          → Distinct (λ x. x.id) s.tables
          → AllSound s.tables
          → Delivers request public_id s.tables
              (outcome (get_whisper hmac_hex pepper now others request public_id s))
      unfolding get_whisper handle_read
      get_whisper-Delivers request public_id s d h =
          limited-outcome (Delivers request public_id s.tables) (now 0) _ 30
            (handle_read hmac_hex pepper now others request public_id) s tt
            (read-Delivers request public_id s.tables _ d h
              (holds-Authenticated (now 1) request public_id (others 1 s.tables) _ refl))

  module _ (now : ℕ → ℕ) where
    deliver-Spared :
        (public_id : String) (rows : List Whisper) (out : Option (List ℕ) × List Whisper)
        → Granted (now 4) public_id rows out
        → Spared rows (deliver hmac_hex pepper now alone out)
    deliver-Spared public_id rows (none, left) g = g
    deliver-Spared public_id rows (some bytes, left) g = tt

    reveal-Spared :
        (public_id : String) (rows : List Whisper) (a : Option Availability)
        → Distinct (λ x. x.id) rows
        → AllSound rows
        → Spared rows (reveal hmac_hex pepper now alone public_id a rows)
    unfolding reveal
    reveal-Spared public_id rows none d h = refl
    reveal-Spared public_id rows (some a) d h = elim (Bool-cases a.is_available) [
      | inl t ↦ rw t (deliver-Spared public_id rows _ (consume-Granted (now 4) public_id rows d h))
      | inr t ↦ rw t refl
    ]

    read-Spared :
        (public_id : String) (rows : List Whisper) (held : Result TokenError Bool)
        → Distinct (λ x. x.id) rows
        → AllSound rows
        → Spared rows (read_whisper hmac_hex pepper now alone public_id held rows)
    unfolding read_whisper
    read-Spared public_id rows (err e) d h = refl
    read-Spared public_id rows (ok false) d h = refl
    read-Spared public_id rows (ok true) d h = reveal-Spared public_id rows _ d h

    -- A request that is answered with anything but a ciphertext, because of its rate, of its token,
    -- of the reveal time, of an expiry or of an empty pepper, uses up no read of any handoff, when
    -- no other request comes between the calls of the handler, the ids are distinct and the rows
    -- sound.
    pub get_whisper-Spared :
        (request : Request) (public_id : String) (s : Served (List Whisper))
        → Distinct (λ x. x.id) s.tables
        → AllSound s.tables
        → Spared s.tables (outcome (get_whisper hmac_hex pepper now alone request public_id s))
    unfolding get_whisper handle_read
    get_whisper-Spared request public_id s d h =
        limited-outcome (Spared s.tables) (now 0) _ 30
          (handle_read hmac_hex pepper now alone request public_id) s refl
          (read-Spared public_id s.tables _ d h)
