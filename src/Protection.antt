-- ===== src/Protection.antt =====
-- control/protection_resource_assessment.py, control/protection_storage_assessment.py and
-- control/protection_path_assessment.py: whether the device's resources and its storage let protection
-- run.
pub mod Eligible
pub mod Refresh
pub mod Governor
use audio_bodyguard_alpha.Prelude.{
  ℕ, ◌-◌, String, Bool, true, false, not, ◌&&◌, ◌||◌, ◌==◌, Option, none, some, List, [], ◌∷◌, ◌++◌,
  is_some, eqb, ltb, if◌then◌else◌,
}
use audio_bodyguard_alpha.Prelude.Time.{ℤ, pos, negsuc}
use audio_bodyguard_alpha.Supervisor.{
  PathReason, eligible, resource_ineligible, storage_ineligible, invalid_assessment,
}

pub data ResourceReason : Type 0 where
  admitted memory_budget_exceeded latency_budget_exceeded low_power_energy_rejected : ResourceReason
  thermal_pressure_rejected invalid_resource_decision : ResourceReason

pub data RemediationAction : Type 0 where
  unload_optional_models select_lower_latency_model select_lower_energy_model : RemediationAction
  wait_for_thermal_recovery reduce_execution_tier : RemediationAction

pub data Accelerator : Type 0 where
  cpu gpu npu : Accelerator

-- The AdmissionDecision of the resource governor.
pub record AdmissionDecision : Type 0 where
  pub is_admitted : Bool
  pub reason : String
  pub selected_accelerator : Option Accelerator

-- ProtectionResourceAssessment
pub record ResourceAssessment : Type 0 where
  pub is_eligible : Bool
  pub reason : ResourceReason
  pub remediation_actions : List RemediationAction

unfoldable pub invalid_resource : ResourceAssessment
invalid_resource = record {
  is_eligible = false;
  reason = invalid_resource_decision;
  remediation_actions = [];
}

unfoldable pub rejected :
    ResourceReason → RemediationAction → RemediationAction → ResourceAssessment
rejected reason first second = record {
  is_eligible = false;
  reason = reason;
  remediation_actions = first ∷ second ∷ [];
}

unfoldable pub assess_rejection : String → ResourceAssessment
assess_rejection reason =
    if reason == "MEMORY_BUDGET_EXCEEDED"
    then rejected memory_budget_exceeded unload_optional_models reduce_execution_tier
    else if reason == "LATENCY_BUDGET_EXCEEDED"
    then rejected latency_budget_exceeded select_lower_latency_model reduce_execution_tier
    else if reason == "LOW_POWER_ENERGY_REJECTED"
    then rejected low_power_energy_rejected select_lower_energy_model reduce_execution_tier
    else if reason == "THERMAL_PRESSURE_REJECTED"
    then rejected thermal_pressure_rejected wait_for_thermal_recovery select_lower_energy_model
    else invalid_resource

-- `from_admission`
unfoldable pub from_admission : AdmissionDecision → ResourceAssessment
from_admission d =
    if d.is_admitted
    then if d.reason == "ADMITTED" && is_some d.selected_accelerator
      then record { is_eligible = true; reason = admitted; remediation_actions = [] }
      else invalid_resource
    else if is_some d.selected_accelerator
    then invalid_resource
    else assess_rejection d.reason

pub data StoragePlatform : Type 0 where
  android ios : StoragePlatform

pub data StorageAction : Type 0 where
  clear_regenerable_cache open_platform_storage_manager : StorageAction
  show_ios_storage_instructions : StorageAction

pub data SettingsDestination : Type 0 where
  no_destination android_manage_storage : SettingsDestination

pub record StorageSnapshot : Type 0 where
  pub platform : StoragePlatform
  pub available_bytes : ℤ
  pub required_bytes : ℤ
  pub reclaimable_cache_bytes : ℤ

-- ProtectionStorageAssessment
pub record StorageAssessment : Type 0 where
  pub is_eligible : Bool
  pub shortage_bytes : ℕ
  pub remediation_actions : List StorageAction
  pub settings_destination : SettingsDestination
  pub requested_bytes : ℕ

unfoldable pub invalid_storage : StorageAssessment
invalid_storage = record {
  is_eligible = false;
  shortage_bytes = 0;
  remediation_actions = [];
  settings_destination = no_destination;
  requested_bytes = 0;
}

-- What there is to do about a shortage.
unfoldable pub short_of : StoragePlatform → ℕ → List StorageAction → StorageAssessment
short_of android shortage actions = record {
  is_eligible = false;
  shortage_bytes = shortage;
  remediation_actions = actions ++ (open_platform_storage_manager ∷ []);
  settings_destination = android_manage_storage;
  requested_bytes = shortage;
}
short_of ios shortage actions = record {
  is_eligible = false;
  shortage_bytes = shortage;
  remediation_actions = actions ++ (show_ios_storage_instructions ∷ []);
  settings_destination = no_destination;
  requested_bytes = 0;
}

-- The byte counts are not negative; `max(0, required - available)` is subtraction on ℕ.
unfoldable pub from_counts : StoragePlatform → ℕ → ℕ → ℕ → StorageAssessment
from_counts platform available required reclaimable =
    if eqb (required - available) 0
    then record {
      is_eligible = true;
      shortage_bytes = 0;
      remediation_actions = [];
      settings_destination = no_destination;
      requested_bytes = 0;
    }
    else short_of platform (required - available)
        (if ltb 0 reclaimable then clear_regenerable_cache ∷ [] else [])

unfoldable pub count_bytes : StoragePlatform → ℤ → ℤ → ℤ → StorageAssessment
count_bytes platform (pos available) (pos required) (pos reclaimable) =
    from_counts platform available required reclaimable
count_bytes _ _ _ _ = invalid_storage

-- `from_snapshot`
unfoldable pub from_snapshot : StorageSnapshot → StorageAssessment
from_snapshot s =
    count_bytes s.platform s.available_bytes s.required_bytes s.reclaimable_cache_bytes

-- ProtectionPathAssessment
pub record PathAssessment : Type 0 where
  pub is_eligible : Bool
  pub reason : PathReason

unfoldable pub path : Bool → PathReason → PathAssessment
path is_eligible reason = record { is_eligible = is_eligible; reason = reason }

unfoldable pub is_admitted_reason : ResourceReason → Bool
is_admitted_reason admitted = true
is_admitted_reason _ = false

unfoldable pub is_none_destination : SettingsDestination → Bool
is_none_destination no_destination = true
is_none_destination _ = false

unfoldable pub is_nil {ℓ} : {A : Type ℓ} → List A → Bool
is_nil [] = true
is_nil (x ∷ xs) = false

-- The fields of an assessment fit together.
unfoldable pub is_sound_resource : ResourceAssessment → Bool
is_sound_resource r =
    if r.is_eligible
    then is_admitted_reason r.reason && is_nil r.remediation_actions
    else not (is_admitted_reason r.reason)

unfoldable pub is_sound_storage : StorageAssessment → Bool
is_sound_storage s =
    not s.is_eligible
    || (eqb s.shortage_bytes 0
        && is_nil s.remediation_actions
        && is_none_destination s.settings_destination
        && eqb s.requested_bytes 0)

-- `from_assessments`
unfoldable pub from_assessments : ResourceAssessment → StorageAssessment → PathAssessment
from_assessments r s =
    if not (is_sound_resource r && is_sound_storage s)
    then path false invalid_assessment
    else if not r.is_eligible
    then path false resource_ineligible
    else if not s.is_eligible
    then path false storage_ineligible
    else path true eligible
