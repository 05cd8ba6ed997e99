-- ===== src/Protection/Governor/Path/Tests.antt =====
-- Runs of edge/resource_governor.py, and the properties at concrete inputs.
use audio_bodyguard_alpha.Prelude.{◌≡◌, refl, true, false, some, [], ◌∷◌, ok}
use audio_bodyguard_alpha.Prelude.Time.{pos, before, add}
use audio_bodyguard_alpha.Protection.{
  AdmissionDecision, cpu, gpu, npu, StorageSnapshot, android, from_admission, from_snapshot,
  from_assessments, count_bytes, from_counts, is_sound_resource, is_sound_storage,
  is_admitted_reason, is_none_destination, is_nil, path,
}
use audio_bodyguard_alpha.Protection.Eligible.{Fits}
use audio_bodyguard_alpha.Protection.Governor.{
  Profile, Resources, moderate, perception, reasoning, tier_rank, same_accelerator, has_accelerator,
  is_compatible, has_common, exceeds_tier, is_high, is_resident, effective_latency, exceeds_latency,
  reject, select, select_first, admit_model, Meets, Decides, admit_model-Decides,
}
use audio_bodyguard_alpha.Protection.Governor.Path.{admit_model-eligible_iff}

abbrev profile : Profile
profile = record {
  task = "speech";
  execution_tier = perception;
  memory_mb = pos 100;
  expected_latency_ms = pos 20;
  energy_tier = moderate;
  supported_accelerators = cpu ∷ gpu ∷ [];
  model_version = "v1";
  cold_start_latency_ms = pos 30;
}

abbrev resources : Resources
resources = record {
  available_memory_mb = pos 200;
  available_accelerators = npu ∷ gpu ∷ [];
  max_latency_ms = some (pos 60);
  low_power_mode = true;
  thermal_pressure = false;
  resident_models = [];
  max_execution_tier = some reasoning;
}

abbrev decision : AdmissionDecision
decision = record { is_admitted = true; reason = "ADMITTED"; selected_accelerator = some gpu }

abbrev storage : StorageSnapshot
storage = record {
  platform = android;
  available_bytes = pos 20;
  required_bytes = pos 10;
  reclaimable_cache_bytes = pos 0;
}

admit_run : admit_model profile resources ≡ ok decision
unfolding admit_model exceeds_tier tier_rank before has_common has_accelerator same_accelerator
    exceeds_latency effective_latency is_resident add is_high select_first is_compatible select
admit_run = refl

cold_run :
    admit_model profile (record resources { max_latency_ms = some (pos 49) })
    ≡ reject "LATENCY_BUDGET_EXCEEDED"
unfolding admit_model exceeds_tier tier_rank before has_common has_accelerator same_accelerator
    exceeds_latency effective_latency is_resident add
cold_run = refl

path_run : (from_assessments (from_admission decision) (from_snapshot storage)).is_eligible ≡ true
unfolding from_assessments from_admission from_snapshot count_bytes from_counts is_sound_resource
    is_sound_storage is_admitted_reason is_none_destination is_nil path
path_run = refl

admit_model-Decides_example : Decides profile resources (admit_model profile resources)
admit_model-Decides_example = admit_model-Decides profile resources

admit_model-eligible_iff_example :
    Meets profile resources
    × Fits storage.available_bytes storage.required_bytes storage.reclaimable_cache_bytes
admit_model-eligible_iff_example =
    (admit_model-eligible_iff profile resources storage decision admit_run).0 path_run
