-- ===== src/Gate/Service/Proof.antt =====
-- src/gate/gate-service.ts: what a granted preimage owes to the intent's payment hash.
use the402machine.Base.{
  ℕ, String, Bool, true, ◌&&◌, Option, none, some, is_some, is_none, str_eq, get_or, eq_iff, ◌≡◌,
  refl, ◌⊎◌, inl, inr, Bool-cases, ok, arith,
}
use the402machine.Gate.{Intent, Source, Db, find_intent, is_authorized}
use the402machine.Gate.Authorize.{GateRuntime}
use the402machine.Gate.Service.{Signer, granted, prove, prove_found}

module _ (rt : GateRuntime) (signer : Signer) where
  found-Proven :
      (digest : String → String) (clock now : ℕ) (intent_id preimage : String) (db db' : Db)
      (receipt : String) (source : Source) (found : Option Intent)
      → find_intent intent_id db ≡ found
      → prove_found rt signer digest clock now preimage db found
        ≡ (ok (granted receipt source), db')
      → (i : Intent) × (find_intent intent_id db ≡ some i)
        × ((is_authorized i.state ≡ true) ⊎ (i.payment_hash ≡ some (digest preimage)))
  unfolding prove_found
  found-Proven digest clock now intent_id preimage db db' receipt source none e h = cc
  found-Proven digest clock now intent_id preimage db db' receipt source (some i) e h =
      elim (Bool-cases (is_authorized i.state && is_some i.receipt)) [
        | inl t ↦ (i, e, inl (ground arith))
        | inr t ↦ elim (Bool-cases (is_none i.payment_hash)) [
          | inl u ↦ absurd (let q = rw (t, u) at h in cc)
          | inr u ↦ elim (Bool-cases (str_eq (digest preimage) (get_or i.payment_hash ""))) [
            | inl w ↦
                (i, e, inr (ground (arith, eq_iff (digest preimage) (get_or i.payment_hash ""))))
            | inr w ↦ absurd (let q = rw (t, u, w) at h in cc)
          ]
        ]
      ]

  -- A preimage that is given a receipt is one whose digest is the payment hash of an existing intent,
  -- unless that intent was authorized before.
  pub prove-Proven :
      (is_hex : String → Bool) (digest : String → String) (clock now : ℕ)
      (intent_id preimage : String) (db db' : Db) (receipt : String) (source : Source)
      → prove rt signer is_hex digest clock now intent_id preimage db
        ≡ (ok (granted receipt source), db')
      → (i : Intent) × (find_intent intent_id db ≡ some i)
        × ((is_authorized i.state ≡ true) ⊎ (i.payment_hash ≡ some (digest preimage)))
  unfolding prove
  prove-Proven is_hex digest clock now intent_id preimage db db' receipt source h =
      elim (Bool-cases (is_hex preimage)) [
        | inl t ↦
            found-Proven digest clock now intent_id preimage db db' receipt source
              (find_intent intent_id db) refl (rw (prove, t) at h)
        | inr t ↦ absurd (let q = rw (prove, t) at h in cc)
      ]
