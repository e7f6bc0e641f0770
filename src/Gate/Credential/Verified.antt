-- ===== src/Gate/Credential/Verified.antt =====
-- src/gate/gate-payment-auth.ts: which credentials are valid.
use the402machine.Base.{
  ℕ, ◌<◌, String, true, false, Option, none, some, leb, str_eq, eq_iff, eq_refl, ◌≡◌, refl, inl,
  inr, Bool-cases, arith,
}
use the402machine.Tokens.{is_sha256_hex}
use the402machine.Json.{get}
use the402machine.Gate.Credential.{
  Platform, Verification, valid, invalid, ChallengeInput, CredentialInput, Opaque, Credential,
  challenge_id, content_digest, encode_canonical_json, request_of, opaque_of,
  create_gate_payment_challenge, parse_gate_payment_authorization, decode_opaque,
  decode_payment_hash, preimage_hash, check_preimage, is_bound, check_binding, has_expired,
  is_signed, check_credential, verify_gate_payment_credential,
}

module _ (pf : Platform) where
  -- The credential answers a challenge of this server, for this request, that has not expired.
  pub record IsFor (input : CredentialInput) (c : Credential) : Type 0 where
    pub is_open : has_expired pf input.now (pf.parse_date c.challenge.expires) ≡ false
    pub signed : c.challenge.id ≡ challenge_id pf c.challenge input.secret
    pub digest : c.challenge.digest ≡ content_digest pf input.target_body
    pub bound : Opaque
    pub decoded : decode_opaque pf c.challenge.opaque ≡ some bound
    pub same_intent : bound.intent_id ≡ input.intent_id
    pub same_method : bound.method ≡ pf.upper input.target_method
    pub same_path : bound.path ≡ input.target_path
    pub same_body : bound.body_sha256 ≡ pf.sha256_hex input.target_body

  abbrev pub Verified : CredentialInput → Verification → Type 0
  Verified input (valid preimage payment_hash) =
      (c : Credential) × (parse_gate_payment_authorization pf input.authorization ≡ some c)
      × IsFor input c
      × (c.preimage ≡ preimage)
      × (decode_payment_hash pf c.challenge.request ≡ some payment_hash)
      × (preimage_hash pf preimage ≡ payment_hash)
  Verified input (invalid reason) = Unit

  preimage-Verified :
      (input : CredentialInput) (c : Credential) (hash : Option String)
      → parse_gate_payment_authorization pf input.authorization ≡ some c
      → IsFor input c
      → decode_payment_hash pf c.challenge.request ≡ hash
      → Verified input (check_preimage pf c hash)
  unfolding check_preimage
  preimage-Verified input c none p b h = tt
  preimage-Verified input c (some payment_hash) p b h =
      elim (Bool-cases (str_eq (preimage_hash pf c.preimage) payment_hash)) [
        | inl t ↦ rw t (c, p, b, refl, h, (eq_iff (preimage_hash pf c.preimage) payment_hash).0 t)
        | inr t ↦ rw t tt
      ]

  binding-Verified :
      (input : CredentialInput) (c : Credential) (o : Option Opaque)
      → parse_gate_payment_authorization pf input.authorization ≡ some c
      → has_expired pf input.now (pf.parse_date c.challenge.expires) ≡ false
      → is_signed pf input c.challenge ≡ true
      → decode_opaque pf c.challenge.opaque ≡ o
      → Verified input (check_binding pf input c o)
  unfolding check_binding
  binding-Verified input c none p e s d = tt
  binding-Verified input c (some o) p e s d = elim (Bool-cases (is_bound pf input o)) [
    | inl t ↦ rw t (
        preimage-Verified input c _ p
          (record {
            is_open = e;
            signed =
                ground (arith, eq_iff c.challenge.id (challenge_id pf c.challenge input.secret));
            digest =
                ground (arith, eq_iff c.challenge.digest (content_digest pf input.target_body));
            bound = o;
            decoded = d;
            same_intent = ground (arith, eq_iff o.intent_id input.intent_id);
            same_method = ground (arith, eq_iff o.method (pf.upper input.target_method));
            same_path = ground (arith, eq_iff o.path input.target_path);
            same_body = ground (arith, eq_iff o.body_sha256 (pf.sha256_hex input.target_body));
          })
          refl)
    | inr t ↦ rw t tt
  ]

  credential-Verified :
      (input : CredentialInput) (o : Option Credential)
      → parse_gate_payment_authorization pf input.authorization ≡ o
      → Verified input (check_credential pf input o)
  unfolding check_credential
  credential-Verified input none p = tt
  credential-Verified input (some c) p =
      elim (Bool-cases (has_expired pf input.now (pf.parse_date c.challenge.expires))) [
        | inl t ↦ rw t tt
        | inr t ↦ elim (Bool-cases (is_signed pf input c.challenge)) [
          | inl u ↦ rw (t, u) (binding-Verified input c _ p t u refl)
          | inr u ↦ rw (t, u) tt
        ]
      ]

  -- A credential is found valid only if its challenge has not expired, carries the HMAC of this
  -- server's secret and the digest of this body, names this intent, method, path and body, and its
  -- preimage hashes to the payment hash of the challenge.
  pub verify_gate_payment_credential-Verified :
      (input : CredentialInput) → Verified input (verify_gate_payment_credential pf input)
  unfolding verify_gate_payment_credential
  verify_gate_payment_credential-Verified input = credential-Verified input _ refl

  module _ (made : ChallengeInput) where
    abbrev made_opaque : Opaque
    made_opaque = record {
      intent_id = made.intent_id;
      method = pf.upper made.target_method;
      path = made.target_path;
      body_sha256 = pf.sha256_hex made.target_body;
    }

    decode_opaque-create :
        pf.parse_json (pf.from_base64url (encode_canonical_json pf (opaque_of pf made)))
          ≡ some (opaque_of pf made)
        → decode_opaque pf (create_gate_payment_challenge pf made).opaque ≡ some made_opaque
    unfolding decode_opaque create_gate_payment_challenge opaque_of get
    decode_opaque-create e = rw e refl

    decode_payment_hash-create :
        pf.parse_json (pf.from_base64url (encode_canonical_json pf (request_of pf made)))
          ≡ some (request_of pf made)
        → is_sha256_hex made.payment_hash ≡ true
        → decode_payment_hash pf (create_gate_payment_challenge pf made).request
          ≡ some made.payment_hash
    unfolding decode_payment_hash create_gate_payment_challenge request_of get
    decode_payment_hash-create e h = rw (e, h) refl

    is_signed-create :
        (input : CredentialInput)
        → input.secret ≡ made.secret
        → input.target_body ≡ made.target_body
        → is_signed pf input (create_gate_payment_challenge pf made) ≡ true
    unfolding create_gate_payment_challenge challenge_id
    is_signed-create input s b = rw (s, b, eq_refl, eq_refl) refl

    expires-create : (create_gate_payment_challenge pf made).expires ≡ pf.iso_date made.expires_at
    unfolding create_gate_payment_challenge
    expires-create = refl

    -- The same request, with the credential.
    abbrev pub answer : Option String → ℕ → CredentialInput
    answer authorization now = record {
      authorization = authorization;
      intent_id = made.intent_id;
      target_method = made.target_method;
      target_path = made.target_path;
      target_body = made.target_body;
      secret = made.secret;
      now = now;
    }

  -- The credential that answers the challenge made for a request with the preimage of its payment
  -- hash is valid for that request until the challenge expires. What the platform must do: give
  -- back the JSON of the challenge and the date that it has encoded.
  pub verify-create :
      (made : ChallengeInput) (preimage : String) (authorization : Option String) (now : ℕ)
      → parse_gate_payment_authorization pf authorization
        ≡ some (record { challenge = create_gate_payment_challenge pf made; preimage = preimage })
      → pf.parse_json (pf.from_base64url (encode_canonical_json pf (request_of pf made)))
        ≡ some (request_of pf made)
      → pf.parse_json (pf.from_base64url (encode_canonical_json pf (opaque_of pf made)))
        ≡ some (opaque_of pf made)
      → pf.parse_date (pf.iso_date made.expires_at) ≡ some made.expires_at
      → is_sha256_hex made.payment_hash ≡ true
      → preimage_hash pf preimage ≡ made.payment_hash
      → now < made.expires_at
      → verify_gate_payment_credential pf (answer made authorization now)
        ≡ valid preimage made.payment_hash
  unfolding verify_gate_payment_credential check_credential check_binding check_preimage
      create_gate_payment_challenge
  verify-create made preimage authorization now parsed request opaque date form paid early =
      let live : leb made.expires_at now ≡ false = ground arith in
      rw
        (
          parsed,
          expires-create made,
          date,
          live,
          is_signed-create made (answer made authorization now) refl refl,
          decode_opaque-create made opaque,
          eq_refl,
          eq_refl,
          eq_refl,
          eq_refl,
          decode_payment_hash-create made request form,
          paid,
          eq_refl,
        )
        refl
