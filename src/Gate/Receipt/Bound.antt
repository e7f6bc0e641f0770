-- ===== src/Gate/Receipt/Bound.antt =====
-- src/gate/gate-receipt.ts: which receipts are valid.
use the402machine.Base.{
  ◌+◌, ◌≤◌, ◌<◌, String, true, ◌&&◌, Option, none, some, List, [], ◌∷◌, eq_iff, ◌≡◌, refl, inl, inr,
  Bool-cases, arith,
}
use Prim.Native.String.{◌++◌ as ◌<>◌}
use the402machine.Gate.Credential.{is_base64url}
use the402machine.Gate.Receipt.{
  GateReceiptClaims, Verification, valid, invalid, Platform, VerifyInput, is_public, seconds,
  split_dots, claims_of, header_of, has_key_id, is_timely, matches, check_claims, check_segments,
  verify_gate_receipt,
}

module _ (pf : Platform) where
  -- The claims are those of the expected authorization, at this time.
  pub record IsFor (input : VerifyInput) (c : GateReceiptClaims) : Type 0 where
    pub issuer : c.iss ≡ input.issuer
    pub project : c.aud ≡ input.expected.project_id
    pub route : c.route ≡ input.expected.route_id
    pub method : c.method ≡ pf.upper input.expected.method
    pub path : c.path ≡ input.expected.path
    pub body : c.body_sha256 ≡ input.expected.body_digest
    pub payment : c.payment_hash ≡ input.expected.payment_hash
    pub id : c.jti ≡ input.expected.jti
    pub amount : c.amount_sats ≡ input.expected.amount_sats
    pub is_open : seconds input.now < c.exp
    pub issued : c.iat ≤ seconds input.now + 30
    pub short : c.exp ≤ c.iat + 300

  -- The receipt is two signed segments, of which the second holds the claims, and the signature.
  abbrev pub Signed : VerifyInput → GateReceiptClaims → Type 0
  Signed input claims =
      (h : String) × (c : String) × (s : String) × (split_dots input.receipt ≡ h ∷ c ∷ s ∷ [])
      × (claims_of pf (pf.parse_json (pf.from_base64url c)) ≡ some claims)
      × (pf.verify (h <> ("." <> c)) input.public_key (pf.base64url_bytes s) ≡ true)

  abbrev pub Accepted : VerifyInput → Verification → Type 0
  Accepted input (valid claims) = IsFor input claims × Signed input claims
  Accepted input invalid = Unit

  matches-IsFor :
      (input : VerifyInput) (c : GateReceiptClaims)
      → is_timely pf input.now c ≡ true
      → matches pf input c ≡ true
      → IsFor input c
  matches-IsFor input c t m = record {
    issuer = ground (arith, eq_iff c.iss input.issuer);
    project = ground (arith, eq_iff c.aud input.expected.project_id);
    route = ground (arith, eq_iff c.route input.expected.route_id);
    method = ground (arith, eq_iff c.method (pf.upper input.expected.method));
    path = ground (arith, eq_iff c.path input.expected.path);
    body = ground (arith, eq_iff c.body_sha256 input.expected.body_digest);
    payment = ground (arith, eq_iff c.payment_hash input.expected.payment_hash);
    id = ground (arith, eq_iff c.jti input.expected.jti);
    amount = ground arith;
    is_open = ground arith;
    issued = ground arith;
    short = ground arith;
  }

  check_claims-Accepted :
      (input : VerifyInput) (h c s : String) (kid : Option String)
      (claims : Option GateReceiptClaims)
      → split_dots input.receipt ≡ h ∷ c ∷ s ∷ []
      → claims_of pf (pf.parse_json (pf.from_base64url c)) ≡ claims
      → Accepted input (check_claims pf input h c s kid claims)
  unfolding check_claims
  check_claims-Accepted input h c s none none e d = tt
  check_claims-Accepted input h c s none (some claims) e d = tt
  check_claims-Accepted input h c s (some kid) none e d = tt
  check_claims-Accepted input h c s (some kid) (some claims) e d =
      elim (Bool-cases (has_key_id pf input.key_id kid)) [
        | inr k ↦ rw k tt
        | inl k ↦
            elim (Bool-cases
              (pf.verify (h <> ("." <> c)) input.public_key (pf.base64url_bytes s))) [
                | inr v ↦ rw (k, v) tt
                | inl v ↦ elim (Bool-cases (is_timely pf input.now claims)) [
                  | inr t ↦ rw (k, v, t) tt
                  | inl t ↦ elim (Bool-cases (matches pf input claims)) [
                    | inr m ↦ rw (k, v, t, m) tt
                    | inl m ↦ rw (k, v, t, m) (matches-IsFor input claims t m, (h, c, s, e, d, v))
                  ]
                ]
              ]
      ]

  check_segments-Accepted :
      (input : VerifyInput) (segments : List String)
      → split_dots input.receipt ≡ segments
      → Accepted input (check_segments pf input segments)
  unfolding check_segments
  check_segments-Accepted input [] e = tt
  check_segments-Accepted input (h ∷ []) e = tt
  check_segments-Accepted input (h ∷ c ∷ []) e = tt
  check_segments-Accepted input (h ∷ c ∷ s ∷ x ∷ rest) e = tt
  check_segments-Accepted input (h ∷ c ∷ s ∷ []) e =
      elim (Bool-cases (is_base64url h && is_base64url c && is_base64url s)) [
        | inr b ↦ rw b tt
        | inl b ↦ rw b (
            check_claims-Accepted input h c s (header_of pf (pf.parse_json (pf.from_base64url h)))
              (claims_of pf (pf.parse_json (pf.from_base64url c))) e refl)
      ]

  -- A receipt that is valid has a signature of the public key over its first two segments, and its
  -- claims are those of the second: the issuer, project, route, method, path, body, payment, id and
  -- amount that are expected. It has not expired, was not issued more than 30 seconds ahead of the
  -- clock, and lasts at most five minutes.
  pub verify_gate_receipt-Accepted :
      (input : VerifyInput) → Accepted input (verify_gate_receipt pf input)
  unfolding verify_gate_receipt
  verify_gate_receipt-Accepted input =
      elim (Bool-cases (is_public input.public_key.type && input.public_key.is_ed25519)) [
        | inr k ↦ rw k tt
        | inl k ↦ rw k (check_segments-Accepted input (split_dots input.receipt) refl)
      ]
