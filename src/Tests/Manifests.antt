-- ===== src/Tests/Manifests.antt =====
-- Signed manifests at concrete inputs. A payload is a text, and the digests keep their input.
use newser.Prelude.{ℕ, ◌≡◌, ◌↔◌, refl, String, none, some, if◌then◌else◌, is_empty, ◌==◌}
use newser.Prelude.Show.{append}
use newser.Store.{reply, fault}
use newser.Manifests.{
  SignedRunManifest, SigningTools, secret_required, signature_mismatch, checksum_mismatch,
  sign_run_manifest, verify_run_manifest,
}
use newser.Manifests.Signing.{verify_run_manifest_iff}

abbrev tools : SigningTools String ℕ
tools = record {
  encode = λ p. if is_empty p then none else some p;
  sha256 = λ s. append "sum of " s;
  hmac = λ k s. append k s;
  is_zero = λ t. t == 0;
  utc = λ t. t;
}

abbrev signed : SignedRunManifest String ℕ
signed = record {
  manifest = "payload";
  checksum = "sum of payload";
  signature = "key:sum of payload";
  algorithm = "hmac-sha256";
  signed_at = 7;
}

-- At the zero time the clock is read.
signs : sign_run_manifest tools 7 "payload" "key:" 0 ≡ reply signed
unfolding sign_run_manifest
signs = refl

verifies : verify_run_manifest tools signed "key:" ≡ none
unfolding verify_run_manifest
verifies = refl

-- A manifest with another payload, and one with another secret, are refused.
tampered :
    verify_run_manifest tools (record signed { manifest = "other" }) "key:" ≡ some checksum_mismatch
unfolding verify_run_manifest
tampered = refl

other_secret : verify_run_manifest tools signed "lock:" ≡ some signature_mismatch
unfolding verify_run_manifest
other_secret = refl

no_secret : sign_run_manifest tools 7 "payload" "" 0 ≡ fault secret_required
unfolding sign_run_manifest
no_secret = refl

verify_run_manifest_iff_example :
    (verify_run_manifest tools signed "key:" ≡ none)
    ↔ (sign_run_manifest tools 7 "payload" "key:" 0 ≡ reply signed)
verify_run_manifest_iff_example = verify_run_manifest_iff tools 7 0 signed "key:" refl
