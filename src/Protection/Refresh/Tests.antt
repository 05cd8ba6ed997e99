-- ===== src/Protection/Refresh/Tests.antt =====
-- Runs of control/protection_path_assessment.py and control/protection_evidence.py, and the properties
-- at concrete inputs.
use audio_bodyguard_alpha.Prelude.{ℕ, ◌≡◌, refl, true, false, none, some, [], ok, is_some}
use audio_bodyguard_alpha.Prelude.Time.{pos, before, sub}
use audio_bodyguard_alpha.Prelude.Text.{is_named}
use audio_bodyguard_alpha.Json.{Number, finite}
use audio_bodyguard_alpha.Supervisor.{
  active, paused, eligible, storage_ineligible, Supervisor, interrupt_body,
}
use audio_bodyguard_alpha.Supervisor.Validate.{
  validate_body, not_later, regressed, not_ahead, too_old,
}
use audio_bodyguard_alpha.Supervisor.Calls.{validate, interrupt}
use audio_bodyguard_alpha.Protection.{
  AdmissionDecision, cpu, from_admission, StorageSnapshot, android, from_snapshot, count_bytes,
  from_counts, short_of, path, is_sound_resource, is_sound_storage, is_admitted_reason,
  is_none_destination, is_nil, from_assessments,
}
use audio_bodyguard_alpha.Protection.Eligible.{Fits, from_assessments-eligible_iff}
use audio_bodyguard_alpha.Protection.Refresh.{
  foreground_interactive, may_protect, Evidence, path_eligible, is_eligible_reason, same_bool,
  failure, provided, interrupted, validate_path, show_evidence, on_value_error, request_of, refresh,
  Convinces, refresh-Convinces,
}

abbrev decision : AdmissionDecision
decision = record { is_admitted = true; reason = "ADMITTED"; selected_accelerator = some cpu }

abbrev storage : StorageSnapshot
storage = record {
  platform = android;
  available_bytes = pos 20;
  required_bytes = pos 10;
  reclaimable_cache_bytes = pos 0;
}

path_run : from_assessments (from_admission decision) (from_snapshot storage) ≡ path true eligible
unfolding from_assessments from_admission from_snapshot count_bytes from_counts is_sound_resource
    is_sound_storage is_admitted_reason is_none_destination is_nil
path_run = refl

short_run :
    from_assessments
      (from_admission decision)
      (from_snapshot (record storage { available_bytes = pos 3 }))
    ≡ path false storage_ineligible
unfolding from_assessments from_admission from_snapshot count_bytes from_counts short_of
    is_sound_resource is_sound_storage is_admitted_reason is_none_destination is_nil
short_run = refl

eligible_run :
    (from_assessments (from_admission decision) (from_snapshot storage)).is_eligible ≡ true
unfolding from_assessments from_admission from_snapshot count_bytes from_counts is_sound_resource
    is_sound_storage is_admitted_reason is_none_destination is_nil path
eligible_run = refl

from_assessments-eligible_iff_example :
    ((decision.is_admitted ≡ true)
      × (decision.reason ≡ "ADMITTED")
      × (is_some decision.selected_accelerator ≡ true))
    × Fits storage.available_bytes storage.required_bytes storage.reclaimable_cache_bytes
from_assessments-eligible_iff_example =
    (from_assessments-eligible_iff decision storage).0 eligible_run

abbrev at : ℕ → Number
at t = finite (pos t)

abbrev started : Supervisor
started = record {
  max_evidence_age = pos 5;
  state = paused;
  reason = "NOT_VALIDATED";
  interrupted_at = none;
  interrupted_monotonic = none;
  last_observed_at = none;
  last_observed_monotonic = none;
  reactivation_after = none;
  reactivation_after_monotonic = none;
  physical_state_unresolved = false;
  unresolved_transactions = [];
  admission_generation = 0;
}

abbrev evidence : Evidence
evidence = record {
  permission_granted = true;
  runtime_eligible = true;
  sensor_available = true;
  connected = true;
  authority_valid = true;
  protection_path = record { is_eligible = true; reason = eligible };
  observed_at = at 3;
  observed_monotonic = at 3;
  runtime_mode = foreground_interactive;
}

refresh_run : (refresh (provided evidence) (at 4) (at 4) started).0 ≡ ok active
unfolding refresh on_value_error show_evidence may_protect validate_path path_eligible same_bool
    is_eligible_reason request_of validate validate_body not_later regressed not_ahead too_old
    before sub
refresh_run = refl

failure_run : (refresh failure (at 4) (at 4) started).0 ≡ ok paused
unfolding refresh interrupted interrupt interrupt_body is_named before
failure_run = refl

refresh-Convinces_example : Convinces (provided evidence) (at 4) (at 4) started
refresh-Convinces_example = refresh-Convinces (provided evidence) (at 4) (at 4) started refresh_run
