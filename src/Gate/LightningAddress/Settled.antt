-- ===== src/Gate/LightningAddress/Settled.antt =====
-- src/gate/lightning-address-adapter.ts, verifyInvoice: what a reported settlement rests on.
use the402machine.Base.{
  ℕ, String, Bool, true, false, not, ◌||◌, Option, none, some, List, [], ◌∷◌, ◌==◌, length, any,
  str_eq, All, Result, ok, err, Result-cases, Bool-cases, ◌≡◌, inl, inr, eq_iff, subst,
  Option-cases, arith,
}
use the402machine.Payment.Bolt11.{ValidatedBolt11}
use the402machine.Gate.LightningAddress.{
  Url, AdapterError, Platform, Verification, url, payer_preimage, VerifyInput, Settlement, settled,
  is_public_ip, ip_literal, ends_with, addresses_of, public_addresses, validated_public_url,
  fetch_json, VerificationResponse, parse_verification_response, valid_invoice, preimage_hash,
  check_proof, check_response, ask_provider, verify_invoice,
}

module _ (pf : Platform) where
  abbrev AllPublic : Result AdapterError (List String) → Type 0
  AllPublic (ok addresses) = All (λ a. is_public_ip pf a ≡ true) addresses
  AllPublic (err e) = Unit

  none_private :
      (addresses : List String)
      → any (λ a. not (is_public_ip pf a)) addresses ≡ false
      → All (λ a. is_public_ip pf a ≡ true) addresses
  none_private [] h = tt
  none_private (a ∷ rest) h = elim (Bool-cases (is_public_ip pf a)) [
    | inl t ↦ (t, none_private rest (ground arith))
    | inr t ↦ absurd (ground arith)
  ]

  public_addresses-AllPublic : (u : Url) → AllPublic (public_addresses pf u)
  unfolding public_addresses
  public_addresses-AllPublic u = elim (Bool-cases odd) [
    | inl t ↦ rw t tt
    | inr t ↦ elim (Bool-cases local) [
      | inl v ↦ rw (t, v) tt
      | inr v ↦ elim (Bool-cases (any (λ a. not (is_public_ip pf a)) found)) [
        | inl w ↦ elim (Bool-cases (length found == 0)) [
          | inl x ↦ rw (t, v, x) tt
          | inr x ↦ rw (t, v, x, w) tt
        ]
        | inr w ↦ elim (Bool-cases (length found == 0)) [
          | inl x ↦ rw (t, v, x) tt
          | inr x ↦ rw (t, v, x, w) (none_private found w)
        ]
      ]
    ]
  ]
    where
      hostname : String
      hostname = pf.lower u.hostname

      found : List String
      found = addresses_of pf hostname (ip_literal pf hostname)

      odd : Bool
      odd =
          not (str_eq u.protocol "https:")
          || not (str_eq u.username "")
          || not (str_eq u.password "")
          || not (str_eq u.port "")

      local : Bool
      local = str_eq hostname "localhost" || ends_with pf hostname ".localhost"

  module _ (now : ℕ) (input : VerifyInput) where
    -- The provider's URL, of which every address is public.
    abbrev pub IsPublicUrl : Verification → Type 0
    IsPublicUrl payer_preimage = ⊥
    IsPublicUrl (url value) =
        (u : Url) × (pf.parse_url value ≡ some u)
        × (addresses : List String) × (public_addresses pf u ≡ ok addresses)
        × All (λ a. is_public_ip pf a ≡ true) addresses

    abbrev pub Proven : Verification → Result AdapterError Settlement → Type 0
    Proven v (ok (settled preimage)) =
        (preimage_hash pf preimage ≡ input.payment_hash)
        × (invoice : ValidatedBolt11) × (valid_invoice pf now input input.bolt11 ≡ ok invoice)
        × IsPublicUrl v
    Proven v _ = Unit

    proof-Proven :
        (v : Verification) (invoice : ValidatedBolt11) (proof : Option String)
        → valid_invoice pf now input input.bolt11 ≡ ok invoice
        → IsPublicUrl v
        → Proven v (check_proof pf input proof)
    unfolding check_proof
    proof-Proven v invoice none e p = tt
    proof-Proven v invoice (some preimage) e p =
        elim (Bool-cases (str_eq (preimage_hash pf preimage) input.payment_hash)) [
          | inl t ↦
              rw t ((eq_iff (preimage_hash pf preimage) input.payment_hash).0 t, invoice, e, p)
          | inr t ↦ rw t tt
        ]

    response-Proven :
        (v : Verification) (r : VerificationResponse)
        → IsPublicUrl v
        → Proven v (check_response pf now input r)
    unfolding check_response
    response-Proven v r p = elim (Bool-cases (str_eq r.invoice input.bolt11)) [
      | inr t ↦ rw t tt
      | inl t ↦ elim (Result-cases (valid_invoice pf now input r.invoice)) [
        | inr (e, f) ↦ rw (t, f) tt
        | inl (invoice, f) ↦
            let same : valid_invoice pf now input input.bolt11 ≡ ok invoice =
              subst (λ b. valid_invoice pf now input b ≡ ok invoice)
                ((eq_iff r.invoice input.bolt11).0 t) f in
            elim (Bool-cases r.is_settled) [
              | inl s ↦ rw (t, f, s) (proof-Proven v invoice r.proof same p)
              | inr s ↦ rw (t, f, s) tt
            ]
      ]
    ]

    abbrev Validated : String → Result AdapterError Url → Type 0
    Validated value (ok u) = IsPublicUrl (url value)
    Validated value (err e) = Unit

    validated_public_url-Validated :
        (value : String) → Validated value (validated_public_url pf value)
    unfolding validated_public_url
    validated_public_url-Validated value = elim (Option-cases (pf.parse_url value)) [
      | inl e ↦ rw e tt
      | inr (u, e) ↦ elim (Result-cases (public_addresses pf u)) [
        | inr (x, f) ↦ rw (e, f) tt
        | inl (addresses, f) ↦
            rw (e, f) (u, e, addresses, f, subst AllPublic f (public_addresses-AllPublic u))
      ]
    ]

    ask-Proven : (v : Verification) → Proven v (ask_provider pf now input v)
    unfolding ask_provider
    ask-Proven payer_preimage = tt
    ask-Proven (url value) = elim (Result-cases (validated_public_url pf value)) [
      | inr (e, f) ↦ rw f tt
      | inl (u, f) ↦ elim (Result-cases (fetch_json pf u)) [
        | inr (e, g) ↦ rw (f, g) tt
        | inl (answer, g) ↦ elim (Result-cases (parse_verification_response pf answer)) [
          | inr (e, h) ↦ rw (f, g, h) tt
          | inl (r, h) ↦
              rw (f, g, h)
                (response-Proven (url value) r
                  (subst (Validated value) f (validated_public_url-Validated value)))
        ]
      ]
    ]

    -- A payment is reported as settled only with a preimage that hashes to the payment hash, for an
    -- invoice that decodes to that hash and that amount and has not expired, and after asking a URL
    -- of which every address is public.
    pub verify_invoice-Proven : Proven input.verification (verify_invoice pf now input)
    unfolding verify_invoice
    verify_invoice-Proven = ask-Proven input.verification
