-- ===== src/Payment/L402/Verified.antt =====
-- src/payment/l402-protocol.ts, verifyL402Authorization: which credentials are valid.
use the402machine.Base.{
  ℕ, ◌*◌, ◌<◌, String, Bool, true, Option, none, some, List, [], ◌∷◌, leb, length, All, all, str_eq,
  eq_iff, ◌≡◌, refl, inl, inr, Bool-cases, arith,
}
use the402machine.Base.Table
use the402machine.Base.Batch.{mem}
use text.Mathlib.Text.{starts_with}
use the402machine.Payment.L402.{
  Verification, valid, invalid, Macaroon, Platform, AuthorizationInput, L402Credential, is_number,
  number_of, after, until, expected_caveats, caveat_satisfied, parse_l402_authorization, hash_in,
  preimage_hash, check_preimage, has_all, check_expiry, is_ours, check_macaroon, check_credential,
  verify_l402_authorization,
}

all-All {ℓ} : {A : Type ℓ} (p : A → Bool) (xs : List A) → all p xs ≡ true → All (λ x. p x ≡ true) xs
all-All p [] h = tt
all-All p (x ∷ xs) h = elim (Bool-cases (p x)) [
  | inl t ↦ (t, all-All p xs (ground arith))
  | inr t ↦ absurd (ground arith)
]

module _ (pf : Platform) (input : AuthorizationInput) where
  -- The macaroon is one of this server, for the expected payment, and is bound to this request.
  pub record IsFor (m : Macaroon) : Type 0 where
    pub size : length m.identifier ≡ 66
    pub same_hash : hash_in pf m.identifier ≡ input.expected_payment_hash
    pub signed : pf.verify m input.root_key (caveat_satisfied pf input.context) ≡ true
    pub seconds : ℕ
    pub is_open : input.now < seconds * 1_000
    pub bound :
        All (λ caveat. mem caveat m.caveats ≡ true) (expected_caveats pf input.context seconds)

  abbrev pub Verified : Verification → Type 0
  Verified (valid preimage payment_hash) =
      (c : L402Credential) × (m : Macaroon) × (parse_l402_authorization pf input.authorization
        ≡ some c)
      × (pf.import_macaroon c.macaroon ≡ some m)
      × IsFor m
      × (c.preimage ≡ preimage)
      × (payment_hash ≡ input.expected_payment_hash)
      × (preimage_hash pf preimage ≡ payment_hash)
  Verified (invalid reason) = Unit

  module _ (c : L402Credential)
      (parsed : parse_l402_authorization pf input.authorization ≡ some c) where
    preimage-Verified :
        (m : Macaroon)
        → pf.import_macaroon c.macaroon ≡ some m
        → IsFor m
        → Verified (check_preimage pf (hash_in pf m.identifier) c)
    unfolding check_preimage
    preimage-Verified m e h =
        elim (Bool-cases (str_eq (preimage_hash pf c.preimage) (hash_in pf m.identifier))) [
          | inl t ↦ rw t (
            c,
            m,
            parsed,
            e,
            h,
            refl,
            h.same_hash,
            (eq_iff (preimage_hash pf c.preimage) (hash_in pf m.identifier)).0 t,
          )
          | inr t ↦ rw t tt
        ]

    expiry-Verified :
        (m : Macaroon) (found : Option String)
        → pf.import_macaroon c.macaroon ≡ some m
        → is_ours pf input m ≡ true
        → Verified (check_expiry pf input c m found)
    unfolding check_expiry
    expiry-Verified m none e o = tt
    expiry-Verified m (some caveat) e o = elim (Bool-cases (is_number text)) [
      | inr t ↦ rw t tt
      | inl t ↦ elim (Bool-cases (leb (number_of text * 1_000) input.now)) [
        | inl u ↦ rw (t, u) tt
        | inr u ↦
            elim (Bool-cases
              (has_all pf (expected_caveats pf input.context (number_of text)) m.caveats)) [
                | inr v ↦ rw (t, u, v) tt
                | inl v ↦
                    rw (t, u, v)
                      (preimage-Verified m e (record {
                        size = ground arith;
                        same_hash =
                            ground
                              (arith, eq_iff (hash_in pf m.identifier) input.expected_payment_hash);
                        signed = ground arith;
                        seconds = number_of text;
                        is_open = ground arith;
                        bound =
                            all-All (λ x. mem x m.caveats)
                              (expected_caveats pf input.context (number_of text)) v;
                      }))
              ]
      ]
    ]
      where
        text : String
        text = after until caveat

    macaroon-Verified :
        (o : Option Macaroon)
        → pf.import_macaroon c.macaroon ≡ o
        → Verified (check_macaroon pf input c o)
    unfolding check_macaroon
    macaroon-Verified none e = tt
    macaroon-Verified (some m) e = elim (Bool-cases (is_ours pf input m)) [
      | inl t ↦
          rw t (expiry-Verified m (Table.find (λ caveat. starts_with caveat until) m.caveats) e t)
      | inr t ↦ rw t tt
    ]

  credential-Verified :
      (o : Option L402Credential)
      → parse_l402_authorization pf input.authorization ≡ o
      → Verified (check_credential pf input o)
  unfolding check_credential
  credential-Verified none e = tt
  credential-Verified (some c) e = macaroon-Verified c e _ refl

  -- A credential is found valid only if its macaroon is signed with the server's root key, carries
  -- the expected payment hash and has all the caveats of this product, plan, method, path and body
  -- and of an expiry that is still to come, and if its preimage hashes to that payment hash.
  pub verify_l402_authorization-Verified : Verified (verify_l402_authorization pf input)
  unfolding verify_l402_authorization
  verify_l402_authorization-Verified = credential-Verified _ refl
