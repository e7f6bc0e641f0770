-- ===== src/Payment/Delivery/RoundTrip.antt =====
-- A delivery that the repository encrypted is the one that it decrypts.
use the402machine.Base.{
  ℕ, suc, ◌+◌, ◌≤◌, some, List, [], ◌∷◌, ◌++◌, subst, false, length, take, drop, ltb, ◌≡◌, refl, ok,
  arith, length-append, take_append, drop_append,
}
use the402machine.Payment.Delivery.{
  Delivery, catch_delivery, whisper_delivery, pulse_delivery, Platform, members, payment_delivery,
  encrypt_delivery, decrypt_delivery, member,
}

-- What the cipher and the JSON printer document, at one nonce and one delivery.
pub record Documented (os : Platform) (nonce : List ℕ) (d : Delivery) : Type 0 where
  pub nonce_size : length nonce ≡ 12
  pub tag_size : length (os.seal nonce (os.print (members d))).0 ≡ 16
  pub has_content : 1 ≤ length (os.seal nonce (os.print (members d))).1
  pub opens :
      os.unseal nonce
        (os.seal nonce (os.print (members d))).0
        (os.seal nonce (os.print (members d))).1
      ≡ some (os.print (members d))
  pub parses : os.parse (os.print (members d)) ≡ some (members d)

payment_delivery-members : (d : Delivery) → payment_delivery (members d) ≡ some d
unfolding payment_delivery members member
payment_delivery-members (catch_delivery a b c e) = refl
payment_delivery-members (whisper_delivery a b e) = refl
payment_delivery-members (pulse_delivery a b c e) = refl

take_prefix : (n : ℕ) (xs ys : List ℕ) → length xs ≡ n → take n (xs ++ ys) ≡ xs
take_prefix n xs ys e = rw (← e) (take_append xs ys)

drop_prefix : (n : ℕ) (xs ys : List ℕ) → length xs ≡ n → drop n (xs ++ ys) ≡ ys
drop_prefix n xs ys e = rw (← e) (drop_append xs ys)

drop_both : (xs ys zs : List ℕ) → drop (length xs + length ys) (xs ++ (ys ++ zs)) ≡ zs
drop_both [] ys zs = subst (λ k. drop k (ys ++ zs) ≡ zs) (omega arith) (drop_append ys zs)
drop_both (x ∷ xs) ys zs =
    subst (λ k. drop k (x ∷ (xs ++ (ys ++ zs))) ≡ zs) {x = suc (length xs + length ys)}
      (omega arith) (drop_both xs ys zs)

-- A stored delivery in its three parts.
decrypt_parts :
    (os : Platform) (nonce tag ciphertext plain : List ℕ) (d : Delivery)
    → length nonce ≡ 12
    → length tag ≡ 16
    → 1 ≤ length ciphertext
    → os.unseal nonce tag ciphertext ≡ some plain
    → os.parse plain ≡ some (members d)
    → decrypt_delivery os (nonce ++ (tag ++ ciphertext)) ≡ ok d
unfolding decrypt_delivery
decrypt_parts os nonce tag ciphertext plain d n t c u p =
    let long : ltb (length (nonce ++ (tag ++ ciphertext))) 29 ≡ false =
      ground (arith, length-append nonce (tag ++ ciphertext), length-append tag ciphertext) in
    let end : drop 28 (nonce ++ (tag ++ ciphertext)) ≡ ciphertext =
      subst (λ k. drop k (nonce ++ (tag ++ ciphertext)) ≡ ciphertext) {y = 28} (omega arith)
        (drop_both nonce tag ciphertext) in
    rw
      (
        long,
        take_prefix 12 nonce (tag ++ ciphertext) n,
        drop_prefix 12 nonce (tag ++ ciphertext) n,
        take_prefix 16 tag ciphertext t,
        end,
        u,
        p,
        payment_delivery-members d,
      )
      refl

-- With a cipher that opens what it sealed under the same nonce and tag, a nonce of 12 bytes and a
-- tag of 16, and a parser that reads what the printer wrote, decrypting a stored delivery gives the
-- delivery that was encrypted.
pub decrypt_delivery-encrypt_delivery :
    (os : Platform) (nonce : List ℕ) (d : Delivery)
    → Documented os nonce d
    → decrypt_delivery os (encrypt_delivery os nonce d) ≡ ok d
unfolding decrypt_delivery encrypt_delivery
decrypt_delivery-encrypt_delivery os nonce d h =
    decrypt_parts os nonce _ _ (os.print (members d)) d h.nonce_size h.tag_size h.has_content
      h.opens h.parses
