-- ===== src/Gate/AdapterTests.antt =====
-- The Lightning Address provider at concrete inputs.
use the402machine.Base.{
  String, true, not, none, some, [], ◌∷◌, any, str_eq, if◌then◌else◌, ◌≡◌, refl, arith, ok,
}
use the402machine.Payment.Bolt11.{network_name}
use the402machine.Gate.LightningAddress.{
  Platform, url, VerifyInput, settled, is_public_ipv4, verify_invoice,
}
use the402machine.Gate.LightningAddress.Blocks.{address, reserved, inside, is_public_ipv4_iff}
use the402machine.Gate.LightningAddress.Settled.{Proven, verify_invoice-Proven}

is_public_ipv4_iff_example :
    is_public_ipv4 172 31 ≡ not (any (inside (address 172 31 255 255)) reserved)
is_public_ipv4_iff_example =
    is_public_ipv4_iff 172 31 255 255 (omega arith) (omega arith) (omega arith) (omega arith)

abbrev digest : String
digest = "aaaaaaaaaaaaaaaaaaaaaaaaaaaaaaaaaaaaaaaaaaaaaaaaaaaaaaaaaaaaaaaa"

abbrev platform : Platform
platform = record {
  parse_url = λ t. some (record {
    protocol = "https:";
    username = "";
    password = "";
    port = "";
    hostname = "provider.example";
  });
  resolve_hostname = λ h. "8.8.8.8" ∷ [];
  fetch = λ u a. some (record { status = 200; content_length = none; text = "{}" });
  read_answer =
      λ t. some (record { settled = some true; pr = some "lnbc1"; preimage = some digest });
  lower = λ t. t;
  byte_length = λ t. 2;
  ip_version = λ t. if str_eq t "8.8.8.8" then 4 else 0;
  octets = λ t. (8, 8);
  groups = λ t. [];
  sha256_hex = λ bytes. digest;
  decode = λ t. some (record {
    payment_hash = some digest;
    satoshis = some 402;
    purpose_commit_hash = none;
    prefix = "lnbc";
    time_expire_date = some 10;
  });
  digest = λ t. t;
}

abbrev input : VerifyInput
input = record {
  bolt11 = "lnbc1";
  payment_hash = digest;
  amount_sats = 402;
  verification = url "https://provider.example/verify";
}

paid : verify_invoice platform 500 input ≡ ok (settled digest)
unfolding verify_invoice network_name
paid = refl

verify_invoice-Proven_example :
    Proven platform 500 input input.verification (verify_invoice platform 500 input)
verify_invoice-Proven_example = verify_invoice-Proven platform 500 input
