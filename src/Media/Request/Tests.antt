-- ===== src/Media/Request/Tests.antt =====
-- Runs of control/media_control_capabilities.py, and the properties at concrete inputs.
use audio_bodyguard_alpha.Prelude.{
  ◌≡◌, refl, String, true, false, none, [], ◌∷◌, ok, err, value_error,
}
use audio_bodyguard_alpha.Prelude.Text.{is_named, is_digest}
use audio_bodyguard_alpha.Prelude.Time.{pos, before}
use audio_bodyguard_alpha.Json.{finite, seconds}
use audio_bodyguard_alpha.Media.{
  native_track, bands, observed, set_eq_bands, set_volume, allow, named, natural, finite_number,
  Band, make_band,
}
use audio_bodyguard_alpha.Media.Manifest.{
  Manifest, make_manifest, manifest_digest, SignedManifest, make_signed, Issuer, issue,
  ManifestVerifier, verify_manifest,
}
use audio_bodyguard_alpha.Media.Request.{
  band_list, whole, gains, only, ascending, check_bands, check_volume, normalize, check_digest,
  Request, make_request, has_bands, is_supported, evaluate,
}
use audio_bodyguard_alpha.Media.Request.Sorted.{
  IsWellFormed, make_request-IsWellFormed, Supports, evaluate-allow_iff,
}
use audio_bodyguard_alpha.Media.Manifest.Trusted.{
  IsTrusted, verify_manifest-IsTrusted, verify_manifest-issue,
}

abbrev digest : String
digest = "0123456789abcdef0123456789abcdef0123456789abcdef0123456789abcdef"

abbrev manifest : Manifest
manifest = record {
  device_id = "tv";
  adapter_id = "adapter";
  playback_session_id = "session";
  content_generation = 2;
  caption_capability = native_track;
  eq_capability = bands;
  verification_strength = observed;
  issued_monotonic = pos 1;
  expires_monotonic = pos 9;
  clock_domain_id = "clock";
}

manifest_run :
    make_manifest "tv" "adapter" "session"
      (pos 2)
      native_track
      bands
      observed
      (finite (pos 1))
      (finite (pos 9))
      "clock"
    ≡ ok manifest
unfolding make_manifest named is_named finite_number before natural
manifest_run = refl

abbrev issuer : Issuer
issuer = record { issuer_id = "maker"; sign = λ document. "s"; protocol_version = "v1" }

abbrev verifier : ManifestVerifier
verifier = record {
  issuer_id = "maker";
  verify = λ document signature. true;
  protocol_version = "v1";
  clock_domain_id = "clock";
}

abbrev sealed : SignedManifest
sealed = record {
  manifest = manifest;
  protocol_version = "v1";
  issuer_id = "maker";
  nonce = "n";
  signature = "s";
}

issue_run : issue (λ document. digest) issuer manifest "n" ≡ ok sealed
unfolding issue make_signed named is_named
issue_run = refl

verify_run : verify_manifest (λ document. digest) verifier sealed (finite (pos 3)) ≡ ok manifest
unfolding verify_manifest finite_number before
verify_run = refl

before_epoch : before (pos 3) (pos 0) ≡ false
unfolding before
before_epoch = refl

before_issued : before (pos 3) (pos 1) ≡ false
unfolding before
before_issued = refl

before_expiry : before (pos 3) (pos 9) ≡ true
unfolding before
before_expiry = refl

abbrev low : Band
low = record { frequency_hz = seconds (pos 100); gain_db = pos 0 }

abbrev high : Band
high = record { frequency_hz = seconds (pos 2000); gain_db = seconds (pos 3) }

band_run : make_band (finite (seconds (pos 100))) (finite (pos 0)) ≡ ok low
unfolding make_band finite_number before
band_run = refl

abbrev request : Request
request = record {
  device_id = "tv";
  playback_session_id = "session";
  content_generation = 2;
  operation = set_eq_bands;
  parameters = gains (low ∷ high ∷ []);
  capability_manifest_digest = digest;
  expected_pre_state_digest = none;
}

request_run :
    make_request "tv" "session"
      (pos 2)
      set_eq_bands
      (("bands", band_list (low ∷ high ∷ [])) ∷ [])
      digest
      none
    ≡ ok request
unfolding make_request named is_named natural check_digest is_digest normalize only check_bands
    ascending before
request_run = refl

loud_run :
    make_request "tv" "session"
      (pos 2)
      set_volume
      (("volume_percent", whole (pos 101)) ∷ [])
      digest
      none
    ≡ err (value_error "invalid volume parameters")
unfolding make_request named is_named natural check_digest is_digest normalize only check_volume
loud_run = refl

evaluate_run : evaluate (λ document. digest) request manifest ≡ allow
unfolding evaluate manifest_digest is_supported has_bands
evaluate_run = refl

verify_manifest-issue_example :
    verify_manifest (λ document. digest) verifier sealed (finite (pos 3)) ≡ ok manifest
verify_manifest-issue_example =
    verify_manifest-issue (λ document. digest) issuer verifier manifest "n" sealed (pos 3) issue_run
      refl refl refl (λ document. refl) before_epoch before_issued before_expiry

verify_manifest-IsTrusted_example :
    IsTrusted (λ document. digest) verifier sealed (pos 3) × (manifest ≡ sealed.manifest)
verify_manifest-IsTrusted_example =
    verify_manifest-IsTrusted (λ document. digest) verifier sealed (pos 3) manifest verify_run

make_request-IsWellFormed_example : IsWellFormed request
make_request-IsWellFormed_example =
    make_request-IsWellFormed "tv" "session" (pos 2) set_eq_bands
      (("bands", band_list (low ∷ high ∷ [])) ∷ []) digest none request request_run

evaluate-allow_iff_example :
    (request.device_id ≡ manifest.device_id)
    × (request.playback_session_id ≡ manifest.playback_session_id)
    × (request.content_generation ≡ manifest.content_generation)
    × (request.capability_manifest_digest ≡ manifest_digest (λ document. digest) manifest)
    × Supports request.operation manifest
evaluate-allow_iff_example =
    (evaluate-allow_iff (λ document. digest) request manifest).0 evaluate_run
