-- ===== src/Payment/L402Tests.antt =====
-- An L402 credential at concrete inputs, on a platform whose texts are easy to read.
use the402machine.Base.{ℕ, zero, suc, String, some, List, [], ◌∷◌, all, ◌≡◌, refl}
use the402machine.Domain.Plans.{PlanId, Product}
use the402machine.Payment.L402.{valid, Platform, AuthorizationInput, verify_l402_authorization}
use the402machine.Payment.L402.Verified.{Verified, verify_l402_authorization-Verified}

abbrev digest : String
digest = "aaaaaaaaaaaaaaaaaaaaaaaaaaaaaaaaaaaaaaaaaaaaaaaaaaaaaaaaaaaaaaaa"

abbrev zeros : ℕ → List ℕ
zeros zero = []
zeros (suc n) = 0 ∷ zeros n

abbrev platform : Platform
platform = record {
  seal = λ identifier location root_key caveats. "macaroon";
  import_macaroon = λ t. some (record {
    identifier = zeros 66;
    caveats =
        "services=the402machine:0" ∷ "the402machine_capabilities=provision" ∷ "product=catch"
        ∷ "plan=spark" ∷ "method=POST" ∷ "path=/a"
        ∷ "body_sha256=aaaaaaaaaaaaaaaaaaaaaaaaaaaaaaaaaaaaaaaaaaaaaaaaaaaaaaaaaaaaaaaa"
        ∷ "valid_until=10" ∷ [];
  });
  verify = λ m root_key satisfied. all satisfied m.caveats;
  sha256_hex = λ body. digest;
  to_hex = λ bytes. digest;
  upper = λ t. "POST";
  show_number = λ n. "10";
  last_colon = λ t. some 8;
}

abbrev input : AuthorizationInput
input = record {
  authorization =
      some "L402 macaroon:aaaaaaaaaaaaaaaaaaaaaaaaaaaaaaaaaaaaaaaaaaaaaaaaaaaaaaaaaaaaaaaa";
  root_key = zeros 32;
  expected_payment_hash = digest;
  context = record {
    product = Product.catch;
    plan_id = PlanId.spark;
    method = "post";
    path = "/a";
    body = [];
  };
  now = 500;
}

accepted : verify_l402_authorization platform input ≡ valid digest digest
unfolding verify_l402_authorization
accepted = refl

verify_l402_authorization-Verified_example :
    Verified platform input (verify_l402_authorization platform input)
verify_l402_authorization-Verified_example = verify_l402_authorization-Verified platform input
