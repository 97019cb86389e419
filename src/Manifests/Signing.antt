-- ===== src/Manifests/Signing.antt =====
-- Signing a payload and verifying the result.
use newser.Prelude.{
  ◌≡◌, ◌↔◌, ◌∙◌, sym, ap, false, String, Option, none, some, eq_iff, arith, if◌then◌else◌, is_empty,
}
use newser.Store.{Reply, reply, fault}
use newser.Manifests.{
  ManifestError, SignedRunManifest, SigningTools, sign_encoded, sign_run_manifest, verify_encoded,
  verify_run_manifest, time_of_signing, hmac_sha256,
}

field_of :
    {P T : Type 0}
    → (SignedRunManifest P T → String)
    → String
    → Reply ManifestError (SignedRunManifest P T)
    → String
field_of f else_ (reply m) = f m
field_of f else_ (fault e) = else_

module _ {P T : Type 0} (h : SigningTools P T) where
  stamped : T → T → SignedRunManifest P T → SignedRunManifest P T
  stamped now at m = record m { algorithm = hmac_sha256; signed_at = time_of_signing h now at }

  sealed :
      T → T → SignedRunManifest P T → String → String → Reply ManifestError (SignedRunManifest P T)
  sealed now at m sum signed =
      reply (record (stamped now at m) { checksum = sum; signature = signed })

  -- An accepted text has the checksum and the signature of the manifest.
  accepted :
      (m : SignedRunManifest P T) (secret s : String)
      → verify_encoded h m secret (some s) ≡ none
      → (m.checksum ≡ h.sha256 s) × (h.hmac secret m.checksum ≡ m.signature)
  unfolding verify_encoded
  accepted m secret s fine =
      ground (arith, eq_iff m.checksum (h.sha256 s), eq_iff (h.hmac secret m.checksum) m.signature)

  verify_encoded-none :
      (m : SignedRunManifest P T) (secret s : String)
      → m.checksum ≡ h.sha256 s
      → h.hmac secret m.checksum ≡ m.signature
      → verify_encoded h m secret (some s) ≡ none
  unfolding verify_encoded
  verify_encoded-none m secret s sum signed =
      ground (arith, eq_iff m.checksum (h.sha256 s), eq_iff (h.hmac secret m.checksum) m.signature)

  sign-verify :
      (now at : T) (m : SignedRunManifest P T) (secret : String) (o : Option String)
      → verify_encoded h m secret o ≡ none
      → sign_encoded h now at secret m.manifest o ≡ reply (stamped now at m)
  unfolding sign_encoded stamped sealed verify_encoded
  sign-verify now at m secret none fine = absurd (cc)
  sign-verify now at m secret (some s) fine =
      let (sum, signed) = accepted m secret s fine in
      ap (sealed now at m (h.sha256 s)) (ap (h.hmac secret) (sym sum) ∙ signed)
      ∙ ap (λ c. sealed now at m c m.signature) (sym sum)

  verify-sign :
      (now at : T) (m : SignedRunManifest P T) (secret : String) (o : Option String)
      → sign_encoded h now at secret m.manifest o ≡ reply (stamped now at m)
      → verify_encoded h m secret o ≡ none
  unfolding sign_encoded stamped field_of
  verify-sign now at m secret none made = absurd (cc)
  verify-sign now at m secret (some s) made =
      let sum = ap (field_of (λ x. x.checksum) m.checksum) made in
      let signed = ap (field_of (λ x. x.signature) m.signature) made in
      verify_encoded-none m secret s (sym sum) (ap (h.hmac secret) (sym sum) ∙ signed)

  -- With a secret that is not empty: VerifyRunManifest accepts a manifest exactly when
  -- SignRunManifest, given its payload and the secret at whatever time, succeeds with its checksum
  -- and signature. The algorithm and the time that the manifest names do not count.
  pub verify_run_manifest_iff :
      (now at : T) (m : SignedRunManifest P T) (secret : String)
      → is_empty secret ≡ false
      → (verify_run_manifest h m secret ≡ none) ↔ (
          sign_run_manifest h now m.manifest secret at
          ≡ reply (record m {
            algorithm = "hmac-sha256";
            signed_at = h.utc (if h.is_zero at then h.utc now else at);
          }))
  unfolding verify_run_manifest sign_run_manifest stamped time_of_signing
  verify_run_manifest_iff now at m secret set = rw set (
    sign-verify now at m secret (h.encode m.manifest),
    verify-sign now at m secret (h.encode m.manifest),
  )
