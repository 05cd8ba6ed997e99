-- ===== src/Media/Request.antt =====
-- The requests of control/media_control_capabilities.py, and the gate that compares one with a manifest.
pub mod Sorted
mod Tests
use audio_bodyguard_alpha.Prelude.{
  ℕ, ◌-◌, String, Bool, true, false, not, ◌&&◌, ◌||◌, ◌==◌, Option, none, some, List, [], ◌∷◌,
  length, leb, eqb, if◌then◌else◌, Result, ok, err, value_error, ◌>>=◌, ◌>>◌, guard, or_raise,
}
use Prim.Native.Char.{code}
use audio_bodyguard_alpha.Prelude.Time.{ℤ, pos, negsuc, before}
use audio_bodyguard_alpha.Prelude.Text.{is_named, is_digest}
use audio_bodyguard_alpha.Prelude.Dict.{Dict}
use audio_bodyguard_alpha.Json.{
  Json, Items, Fields, finite, bool, int, float, str, arr, obj, nil, cons, field, end,
}
use audio_bodyguard_alpha.Evidence.{Hash}
use audio_bodyguard_alpha.Media.{
  CaptionCapability, no_captions, EqCapability, bands, semantic_presets, no_eq, EqPreset, Operation,
  set_captions_enabled, set_eq_preset, set_eq_bands, set_volume, CapabilityDecision, allow,
  device_mismatch, playback_session_mismatch, content_generation_mismatch, manifest_digest_mismatch,
  capability_denied, preset_value, operation_value, named, natural, Band,
}
use audio_bodyguard_alpha.Media.Manifest.{Manifest, manifest_digest}

-- What a caller may put under a key: a bool, a preset, a tuple of bands, an int, or something else.
pub data Parameter : Type 0 where
  flag : Bool → Parameter
  preset : EqPreset → Parameter
  band_list : List Band → Parameter
  whole : ℤ → Parameter
  other_value : Parameter

-- The parameters once they are checked.
pub data Parameters : Type 0 where
  captions : Bool → Parameters
  equaliser : EqPreset → Parameters
  gains : List Band → Parameters
  volume : ℕ → Parameters

-- `set(parameters) == {key}`, and the value there; the keys of a dict are distinct.
unfoldable pub only : String → Dict Parameter → Option Parameter
only key [] = none
only key ((k, v) ∷ []) = if k == key then some v else none
only key (a ∷ b ∷ d) = none

-- No band has a frequency that is not below the next one's.
unfoldable pub ascending : List Band → Bool
ascending [] = true
ascending (a ∷ []) = true
ascending (a ∷ b ∷ rest) =
    let others = ascending (b ∷ rest) in before a.frequency_hz b.frequency_hz && others

unfoldable pub check_captions : Option Parameter → Result Parameters
check_captions (some (flag b)) = ok (captions b)
check_captions _ = err (value_error "invalid caption parameters")

unfoldable pub check_preset : Option Parameter → Result Parameters
check_preset (some (preset p)) = ok (equaliser p)
check_preset _ = err (value_error "invalid EQ preset parameters")

unfoldable pub check_bands : Option Parameter → Result Parameters
check_bands (some (band_list bs)) = do
  guard (leb 1 (length bs) && leb (length bs) 10 && ascending bs)
      (value_error "invalid EQ band parameters")
  ok (gains bs)
check_bands _ = err (value_error "invalid EQ band parameters")

unfoldable pub check_volume : Option Parameter → Result Parameters
check_volume (some (whole (pos n))) = do
  guard (leb n 100) (value_error "invalid volume parameters")
  ok (volume n)
check_volume _ = err (value_error "invalid volume parameters")

unfoldable pub normalize : Operation → Dict Parameter → Result Parameters
normalize set_captions_enabled d = check_captions (only "enabled" d)
normalize set_eq_preset d = check_preset (only "preset" d)
normalize set_eq_bands d = check_bands (only "bands" d)
normalize set_volume d = check_volume (only "volume_percent" d)

unfoldable pub check_digest : Option String → Result (Unit {0})
check_digest none = ok tt
check_digest (some s) = guard (is_digest s) (value_error "invalid digest")

-- MediaControlRequest
pub record Request : Type 0 where
  pub device_id : String
  pub playback_session_id : String
  pub content_generation : ℕ
  pub operation : Operation
  pub parameters : Parameters
  pub capability_manifest_digest : String
  pub expected_pre_state_digest : Option String

-- `__post_init__`, on the fields as they are given
unfoldable pub make_request :
    String → String → ℤ → Operation → Dict Parameter → String → Option String → Result Request
make_request device_id session_id generation operation given digest expected = do
  named device_id
  named session_id
  content_generation ← natural generation
  check_digest (some digest)
  check_digest expected
  parameters ← normalize operation given
  ok (record {
    device_id = device_id;
    playback_session_id = session_id;
    content_generation = content_generation;
    operation = operation;
    parameters = parameters;
    capability_manifest_digest = digest;
    expected_pre_state_digest = expected;
  })

unfoldable pub band_items : List Band → Items
band_items [] = nil
band_items (b ∷ bs) =
    cons
      (obj (
        field "frequency_hz" (float (finite b.frequency_hz))
          (field "gain_db" (float (finite b.gain_db)) end)))
      (band_items bs)

unfoldable pub canonical_parameters : Parameters → Json
canonical_parameters (captions b) = obj (field "enabled" (bool b) end)
canonical_parameters (equaliser p) = obj (field "preset" (str (preset_value p)) end)
canonical_parameters (gains bs) = obj (field "bands" (arr (band_items bs)) end)
canonical_parameters (volume n) = obj (field "volume_percent" (int (pos n)) end)

unfoldable pub expected_field : Option String → Fields
expected_field none = end
expected_field (some s) = field "expected_pre_state_digest" (str s) end

-- `canonical_bytes`
unfoldable pub canonical_request : Request → Json
canonical_request r = obj (
    field "device_id" (str r.device_id) (
      field "playback_session_id" (str r.playback_session_id) (
        field "content_generation" (int (pos r.content_generation)) (
          field "operation" (str (operation_value r.operation)) (
            field "parameters" (canonical_parameters r.parameters) (
              field "capability_manifest_digest" (str r.capability_manifest_digest)
                (expected_field r.expected_pre_state_digest)))))))

unfoldable pub has_captions : CaptionCapability → Bool
has_captions no_captions = false
has_captions _ = true

unfoldable pub has_presets : EqCapability → Bool
has_presets semantic_presets = true
has_presets _ = false

unfoldable pub has_bands : EqCapability → Bool
has_bands bands = true
has_bands _ = false

unfoldable pub has_volume : EqCapability → Bool
has_volume no_eq = false
has_volume _ = true

unfoldable pub is_supported : Operation → Manifest → Bool
is_supported set_captions_enabled m = has_captions m.caption_capability
is_supported set_eq_preset m = has_presets m.eq_capability
is_supported set_eq_bands m = has_bands m.eq_capability
is_supported set_volume m = has_volume m.eq_capability

-- MediaControlCapabilityGate
unfoldable pub evaluate : Hash → Request → Manifest → CapabilityDecision
evaluate hash r m =
    if not (r.device_id == m.device_id)
    then device_mismatch
    else if not (r.playback_session_id == m.playback_session_id)
    then playback_session_mismatch
    else if not (eqb r.content_generation m.content_generation)
    then content_generation_mismatch
    else if not (r.capability_manifest_digest == manifest_digest hash m)
    then manifest_digest_mismatch
    else if is_supported r.operation m
    then allow
    else capability_denied
