-- ===== src/Media.antt =====
-- control/media_control_capabilities.py: what a playback adapter can do, and the requests that ask for
-- it.
pub mod Manifest
pub mod Request
use audio_bodyguard_alpha.Prelude.{
  ℕ, ◌*◌, String, Bool, true, false, not, ◌&&◌, ◌==◌, Option, none, some, List, [], ◌∷◌, leb, eqb,
  if◌then◌else◌, Result, ok, err, value_error, ◌>>=◌, ◌>>◌, guard,
}
use audio_bodyguard_alpha.Prelude.Time.{ℤ, pos, negsuc, Time, epoch, before, at_most}
use audio_bodyguard_alpha.Prelude.Text.{is_named}
use audio_bodyguard_alpha.Json.{Number, finite, non_finite, second, seconds}

pub data CaptionCapability : Type 0 where
  native_track device_mode phone_transcript no_captions : CaptionCapability

pub data EqCapability : Type 0 where
  bands semantic_presets volume_only no_eq : EqCapability

pub data EqPreset : Type 0 where
  dialogue music night flat : EqPreset

pub data VerificationStrength : Type 0 where
  observed ack_only unverified : VerificationStrength

pub data Operation : Type 0 where
  set_captions_enabled set_eq_preset set_eq_bands set_volume : Operation

pub data CapabilityDecision : Type 0 where
  allow device_mismatch playback_session_mismatch content_generation_mismatch : CapabilityDecision
  manifest_digest_mismatch capability_denied : CapabilityDecision

-- The `value` of each member.
unfoldable pub caption_value : CaptionCapability → String
caption_value native_track = "NATIVE_TRACK"
caption_value device_mode = "DEVICE_MODE"
caption_value phone_transcript = "PHONE_TRANSCRIPT"
caption_value no_captions = "NONE"

unfoldable pub eq_value : EqCapability → String
eq_value bands = "BANDS"
eq_value semantic_presets = "SEMANTIC_PRESETS"
eq_value volume_only = "VOLUME_ONLY"
eq_value no_eq = "NONE"

unfoldable pub preset_value : EqPreset → String
preset_value dialogue = "DIALOGUE"
preset_value music = "MUSIC"
preset_value night = "NIGHT"
preset_value flat = "FLAT"

unfoldable pub strength_value : VerificationStrength → String
strength_value observed = "OBSERVED"
strength_value ack_only = "ACK_ONLY"
strength_value unverified = "NONE"

unfoldable pub operation_value : Operation → String
operation_value set_captions_enabled = "SET_CAPTIONS_ENABLED"
operation_value set_eq_preset = "SET_EQ_PRESET"
operation_value set_eq_bands = "SET_EQ_BANDS"
operation_value set_volume = "SET_VOLUME"

-- A field that must be named, a finite number, and an int that is not negative.
unfoldable pub named : String → Result (Unit {0})
named value = guard (is_named value) (value_error "invalid field")

unfoldable pub finite_number : Number → Result Time
finite_number (finite t) = ok t
finite_number non_finite = err (value_error "invalid number")

unfoldable pub natural : ℤ → Result ℕ
natural (pos n) = ok n
natural (negsuc n) = err (value_error "invalid content_generation")

-- EqBandGain; a number is in the ticks of `Prelude.Time`, `second` of them for 1.0.
pub record Band : Type 0 where
  pub frequency_hz : Time
  pub gain_db : Time

unfoldable pub make_band : Number → Number → Result Band
unfolding finite_number
make_band frequency_hz gain_db = do
  frequency ← finite_number frequency_hz
  gain ← finite_number gain_db
  guard (at_most (seconds (pos 20)) frequency && at_most frequency (seconds (pos 20000)))
      (value_error "frequency_hz is out of range")
  guard (at_most (seconds (negsuc 11)) gain && at_most gain (seconds (pos 12)))
      (value_error "gain_db is out of range")
  ok (record { frequency_hz = frequency; gain_db = gain })
