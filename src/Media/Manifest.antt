-- ===== src/Media/Manifest.antt =====
-- The capability manifest of control/media_control_capabilities.py, its issuer and its verifier.
pub mod Trusted
use audio_bodyguard_alpha.Prelude.{
  ℕ, ◌≡◌, refl, sym, ap, ◌∙◌, inl, inr, String, true, false, not, ◌==◌, eq_iff, eq_refl, Result, ok,
  value_error, ◌>>=◌, ◌>>◌, guard, arith, Bool-cases, Result-cases, subst,
}
use audio_bodyguard_alpha.Prelude.Time.{ℤ, pos, Time, epoch, before, at_most}
use audio_bodyguard_alpha.Json.{Json, Number, finite, int, float, str, obj, field, end}
use audio_bodyguard_alpha.Lease.{Verifier}
use audio_bodyguard_alpha.Evidence.{Hash}
use audio_bodyguard_alpha.Media.{
  CaptionCapability, EqCapability, VerificationStrength, caption_value, eq_value, strength_value,
  named, finite_number, natural,
}

-- MediaControlCapabilityManifest
pub record Manifest : Type 0 where
  pub device_id : String
  pub adapter_id : String
  pub playback_session_id : String
  pub content_generation : ℕ
  pub caption_capability : CaptionCapability
  pub eq_capability : EqCapability
  pub verification_strength : VerificationStrength
  pub issued_monotonic : Time
  pub expires_monotonic : Time
  pub clock_domain_id : String

-- `__post_init__`, on the fields as they are given
unfoldable pub make_manifest :
    String
    → String
    → String
    → ℤ
    → CaptionCapability
    → EqCapability
    → VerificationStrength
    → Number
    → Number
    → String
    → Result Manifest
make_manifest device_id adapter_id session_id generation caption eq strength issued expires domain =
    do
      named device_id
      named adapter_id
      named session_id
      named domain
      issued_at ← finite_number issued
      guard (at_most epoch issued_at) (value_error "invalid issued_monotonic")
      expires_at ← finite_number expires
      guard (at_most epoch expires_at) (value_error "invalid expires_monotonic")
      guard (before issued_at expires_at) (value_error "invalid monotonic validity interval")
      content_generation ← natural generation
      ok (record {
        device_id = device_id;
        adapter_id = adapter_id;
        playback_session_id = session_id;
        content_generation = content_generation;
        caption_capability = caption;
        eq_capability = eq;
        verification_strength = strength;
        issued_monotonic = issued_at;
        expires_monotonic = expires_at;
        clock_domain_id = domain;
      })

-- `canonical_bytes`; a time that was given as an int is shown as a float here.
unfoldable pub canonical_manifest : Manifest → Json
canonical_manifest m = obj (
    field "device_id" (str m.device_id) (
      field "adapter_id" (str m.adapter_id) (
        field "playback_session_id" (str m.playback_session_id) (
          field "content_generation" (int (pos m.content_generation)) (
            field "caption_capability" (str (caption_value m.caption_capability)) (
              field "eq_capability" (str (eq_value m.eq_capability)) (
                field "verification_strength" (str (strength_value m.verification_strength)) (
                  field "issued_monotonic" (float (finite m.issued_monotonic)) (
                    field "expires_monotonic" (float (finite m.expires_monotonic))
                      (field "clock_domain_id" (str m.clock_domain_id) end))))))))))

unfoldable pub manifest_digest : Hash → Manifest → String
manifest_digest hash m = hash (canonical_manifest m)

-- SignedMediaControlCapabilityManifest
pub record SignedManifest : Type 0 where
  pub manifest : Manifest
  pub protocol_version : String
  pub issuer_id : String
  pub nonce : String
  pub signature : String

unfoldable pub make_signed : Manifest → String → String → String → String → Result SignedManifest
make_signed manifest protocol_version issuer_id nonce sig = do
  named protocol_version
  named issuer_id
  named nonce
  ok (record {
    manifest = manifest;
    protocol_version = protocol_version;
    issuer_id = issuer_id;
    nonce = nonce;
    signature = sig;
  })

unfoldable pub canonical_signed : Hash → SignedManifest → Json
canonical_signed hash s = obj (
    field "manifest_digest" (str (manifest_digest hash s.manifest)) (
      field "protocol_version" (str s.protocol_version)
        (field "issuer_id" (str s.issuer_id) (field "nonce" (str s.nonce) end))))

-- MediaControlCapabilityManifestIssuer, with the signer's `key_id` and `sign`.
pub record Issuer : Type 0 where
  pub issuer_id : String
  pub sign : Json → String
  pub protocol_version : String

unfoldable pub make_issuer : String → (Json → String) → String → Result Issuer
make_issuer key_id sign protocol_version = do
  named key_id
  named protocol_version
  ok (record { issuer_id = key_id; sign = sign; protocol_version = protocol_version })

unfoldable pub issue : Hash → Issuer → Manifest → String → Result SignedManifest
issue hash i manifest nonce = do
  unsigned ← make_signed manifest i.protocol_version i.issuer_id nonce ""
  let sig = i.sign (canonical_signed hash unsigned)
  guard (not (sig == "")) (value_error "signer returned invalid signature")
  make_signed manifest i.protocol_version i.issuer_id nonce sig

-- MediaControlCapabilityManifestVerifier, with the verifier's `key_id` and `verify`.
pub record ManifestVerifier : Type 0 where
  pub issuer_id : String
  pub verify : Verifier
  pub protocol_version : String
  pub clock_domain_id : String

unfoldable pub make_verifier : String → Verifier → String → String → Result ManifestVerifier
make_verifier key_id verify protocol_version clock_domain_id = do
  named key_id
  named protocol_version
  named clock_domain_id
  ok (record {
    issuer_id = key_id;
    verify = verify;
    protocol_version = protocol_version;
    clock_domain_id = clock_domain_id;
  })

unfoldable pub verify_manifest : Hash → ManifestVerifier → SignedManifest → Number → Result Manifest
verify_manifest hash v s now_monotonic = do
  now ← finite_number now_monotonic
  guard (at_most epoch now) (value_error "invalid now_monotonic")
  guard (s.issuer_id == v.issuer_id) (value_error "untrusted manifest issuer")
  guard (v.verify (canonical_signed hash s) s.signature)
      (value_error "media capability manifest signature is invalid")
  guard (s.protocol_version == v.protocol_version)
      (value_error "media capability manifest protocol mismatch")
  guard (s.manifest.clock_domain_id == v.clock_domain_id)
      (value_error "media capability manifest clock domain mismatch")
  guard (not (before now s.manifest.issued_monotonic))
      (value_error "media capability manifest is not yet valid")
  guard (before now s.manifest.expires_monotonic)
      (value_error "media capability manifest is expired")
  ok s.manifest
