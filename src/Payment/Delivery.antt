-- ===== src/Payment/Delivery.antt =====
-- src/payment/payment-repository.ts: what a purchase delivers, and its encryption at rest. JSON,
-- AES-256-GCM under the repository's key and the ISO dates are parameters of the model.
pub mod RoundTrip
use the402machine.Base.{
  ℕ, ◌+◌, String, Bool, Option, none, some, List, [], ◌∷◌, ◌++◌, length, take, drop, ltb, Result,
  ok, err, ◌>>=◌, ◌>>◌, throw_if, or_throw, str_eq, if◌then◌else◌,
}

-- The fields that a delivery has beside its product, with `expiresAt` as a text.
pub data Delivery : Type 0 where
  catch_delivery : (public_id owner_token ingest_token expires_at : String) → Delivery
  whisper_delivery : (public_id read_token expires_at : String) → Delivery
  pulse_delivery : (public_id owner_token ping_token expires_at : String) → Delivery

pub data DispensedResource : Type 0 where
  catch_resource :
      (resource_id public_id owner_token ingest_token : String) (expires_at : ℕ) → DispensedResource
  whisper_resource :
      (resource_id public_id read_token : String) (expires_at : ℕ) → DispensedResource
  pulse_resource :
      (resource_id public_id owner_token ping_token : String) (expires_at : ℕ) → DispensedResource

-- The members of a JSON object whose values are texts; other members are left out.
abbrev pub Members : Type 0
Members = List (String × String)

pub record Platform : Type 0 where
  pub print : Members → List ℕ
  pub parse : List ℕ → Option Members
  pub seal : (nonce plain : List ℕ) → List ℕ × List ℕ
  pub unseal : (nonce tag ciphertext : List ℕ) → Option (List ℕ)
  pub to_iso : ℕ → String
  pub from_iso : String → ℕ

pub data DeliveryError : Type 0 where
  invalid_delivery : DeliveryError
  not_authentic : DeliveryError

unfoldable pub members : Delivery → Members
members (catch_delivery public_id owner_token ingest_token expires_at) =
    ("product", "catch")
    ∷ ("publicId", public_id)
    ∷ ("ownerToken", owner_token)
    ∷ ("ingestToken", ingest_token)
    ∷ ("expiresAt", expires_at)
    ∷ []
members (whisper_delivery public_id read_token expires_at) =
    ("product", "whisper")
    ∷ ("publicId", public_id)
    ∷ ("readToken", read_token)
    ∷ ("expiresAt", expires_at)
    ∷ []
members (pulse_delivery public_id owner_token ping_token expires_at) =
    ("product", "pulse")
    ∷ ("publicId", public_id)
    ∷ ("ownerToken", owner_token)
    ∷ ("pingToken", ping_token)
    ∷ ("expiresAt", expires_at)
    ∷ []

unfoldable pub member : String → Members → Option String
member k [] = none
member k (m ∷ ms) = if str_eq m.0 k then some m.1 else member k ms

-- The members in question, each a text.
abbrev three :
    (String → String → String → Delivery)
    → Option String
    → Option String
    → Option String
    → Option Delivery
three f (some a) (some b) (some c) = some (f a b c)
three f _ _ _ = none

abbrev four :
    (String → String → String → String → Delivery)
    → Option String
    → Option String
    → Option String
    → Option String
    → Option Delivery
four f (some a) (some b) (some c) (some d) = some (f a b c d)
four f _ _ _ _ = none

by_product : Option String → Members → Option Delivery
by_product none ms = none
by_product (some p) ms =
    if str_eq p "catch"
    then four catch_delivery (member "publicId" ms) (member "ownerToken" ms)
        (member "ingestToken" ms) (member "expiresAt" ms)
    else if str_eq p "whisper"
    then three whisper_delivery (member "publicId" ms) (member "readToken" ms)
        (member "expiresAt" ms)
    else if str_eq p "pulse"
    then four pulse_delivery (member "publicId" ms) (member "ownerToken" ms) (member "pingToken" ms)
        (member "expiresAt" ms)
    else none

-- `isPaymentDelivery`, with the delivery that it accepts.
unfoldable pub payment_delivery : Members → Option Delivery
unfolding by_product
payment_delivery ms = by_product (member "product" ms) ms

module _ (os : Platform) where
  unfoldable pub encrypt_delivery : (nonce : List ℕ) → Delivery → List ℕ
  encrypt_delivery nonce delivery =
      nonce
      ++ ((os.seal nonce (os.print (members delivery))).0
          ++ (os.seal nonce (os.print (members delivery))).1)

  unfoldable pub decrypt_delivery : List ℕ → Result DeliveryError Delivery
  decrypt_delivery payload = do
    throw_if (ltb (length payload) 29) invalid_delivery
    plain ←
        or_throw (os.unseal (take 12 payload) (take 16 (drop 12 payload)) (drop 28 payload))
          not_authentic
    ms ← or_throw (os.parse plain) invalid_delivery
    or_throw (payment_delivery ms) invalid_delivery

  unfoldable pub delivery_resource : String → Delivery → DispensedResource
  delivery_resource id (catch_delivery public_id owner_token ingest_token expires_at) =
      catch_resource id public_id owner_token ingest_token (os.from_iso expires_at)
  delivery_resource id (whisper_delivery public_id read_token expires_at) =
      whisper_resource id public_id read_token (os.from_iso expires_at)
  delivery_resource id (pulse_delivery public_id owner_token ping_token expires_at) =
      pulse_resource id public_id owner_token ping_token (os.from_iso expires_at)
