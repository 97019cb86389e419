-- ===== src/Manifests.antt =====
-- The signed run manifests of internal/manifest/manifest.go.
pub mod Signing
use newser.Prelude.{Bool, not, String, Option, none, some, str_eq, if◌then◌else◌, is_empty}
use newser.Store.{Reply, reply, fault}

pub data ManifestError : Type 0 where
  secret_required : ManifestError
  not_encoded : ManifestError
  checksum_mismatch : ManifestError
  signature_mismatch : ManifestError

-- `SignedRunManifest`, for payloads of type `P` and times of type `T`.
pub record SignedRunManifest (P T : Type 0) : Type 0 where
  pub manifest : P
  pub checksum : String
  pub signature : String
  pub algorithm : String
  pub signed_at : T

-- What signing takes from Go's library: `json.Marshal` of a payload, `sha256.Sum256` and the HMAC
-- with a secret, both in hexadecimal, and the two operations on times.
pub record SigningTools (P T : Type 0) : Type 0 where
  pub encode : P → Option String
  pub sha256 : String → String
  pub hmac : String → String → String
  pub is_zero : T → Bool
  pub utc : T → T

abbrev pub hmac_sha256 : String
hmac_sha256 = "hmac-sha256"

module _ {P T : Type 0} (h : SigningTools P T) where
  unfoldable pub time_of_signing : T → T → T
  time_of_signing now at = h.utc (if h.is_zero at then h.utc now else at)

  unfoldable pub sign_encoded :
      T → T → String → P → Option String → Reply ManifestError (SignedRunManifest P T)
  unfolding time_of_signing
  sign_encoded now at secret payload none = fault not_encoded
  sign_encoded now at secret payload (some canonical) = reply record {
    manifest = payload;
    checksum = h.sha256 canonical;
    signature = h.hmac secret (h.sha256 canonical);
    algorithm = hmac_sha256;
    signed_at = time_of_signing now at;
  }

  -- `SignRunManifest`, at the time `now`.
  unfoldable pub sign_run_manifest :
      T → P → String → T → Reply ManifestError (SignedRunManifest P T)
  unfolding sign_encoded
  sign_run_manifest now payload secret at =
      if is_empty secret
      then fault secret_required
      else sign_encoded now at secret payload (h.encode payload)

  unfoldable pub verify_encoded :
      SignedRunManifest P T → String → Option String → Option ManifestError
  verify_encoded signed secret none = some not_encoded
  verify_encoded signed secret (some canonical) =
      if not (str_eq signed.checksum (h.sha256 canonical))
      then some checksum_mismatch
      else if not (str_eq (h.hmac secret signed.checksum) signed.signature)
      then some signature_mismatch
      else none

  -- `VerifyRunManifest`.
  unfoldable pub verify_run_manifest : SignedRunManifest P T → String → Option ManifestError
  unfolding verify_encoded
  verify_run_manifest signed secret = verify_encoded signed secret (h.encode signed.manifest)
