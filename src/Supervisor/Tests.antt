-- ===== src/Supervisor/Tests.antt =====
-- Runs of control/protection_supervisor.py, and the properties at concrete inputs.
use audio_bodyguard_alpha.Prelude.{ℕ, ◌≡◌, ◌↔◌, refl, true, false, none, some, [], ◌∷◌, ◌++◌, ok}
use audio_bodyguard_alpha.Prelude.Time.{pos, before, sub}
use audio_bodyguard_alpha.Prelude.Text.{is_named, is_trimmed}
use audio_bodyguard_alpha.Json.{Number, finite}
use audio_bodyguard_alpha.Supervisor.{
  active, unknown_physical_state, paused, Supervisor, new_supervisor, is_active, status_body,
  interrupt_body,
}
use audio_bodyguard_alpha.Supervisor.Validate.{
  Request, check_request, validate_body, not_later, regressed, not_ahead, too_old,
  resolve_physical_transaction_body,
}
use audio_bodyguard_alpha.Supervisor.Calls.{
  statuses, requires, validates, step, run, validate, interrupt, resolve_physical_transaction,
  status, require_automation,
}
use audio_bodyguard_alpha.Supervisor.Generation.{run-unbroken}
use audio_bodyguard_alpha.Supervisor.Lost.{interrupt-unknown}
use audio_bodyguard_alpha.Supervisor.Activation.{validate-active_iff, Qualifies}

abbrev at : ℕ → Number
at t = finite (pos t)

abbrev started : Supervisor
started = record {
  max_evidence_age = pos 5;
  state = paused;
  reason = "NOT_VALIDATED";
  interrupted_at = none;
  interrupted_monotonic = none;
  last_observed_at = none;
  last_observed_monotonic = none;
  reactivation_after = none;
  reactivation_after_monotonic = none;
  physical_state_unresolved = false;
  unresolved_transactions = [];
  admission_generation = 0;
}

new_supervisor_run : new_supervisor (at 5) ≡ ok started
unfolding new_supervisor before
new_supervisor_run = refl

abbrev evidence : ℕ → ℕ → Request
evidence observed now = record {
  permission_granted = true;
  runtime_eligible = true;
  sensor_available = true;
  connected = true;
  authority_valid = true;
  protection_path_eligible = true;
  protection_path_reason = none;
  observed_at = at observed;
  now = at now;
  observed_monotonic = none;
  monotonic_now = none;
}

abbrev live : Supervisor
live = record started { state = active; reason = "VALIDATED"; last_observed_at = some (pos 1) }

validate_run : validate (evidence 1 2) started ≡ (ok active, live)
unfolding validate validate_body not_later regressed not_ahead too_old before sub
validate_run = refl

validate-active_iff_example :
    (is_active (validate (evidence 1 2) started).1.state ≡ true)
    ↔ Qualifies
        (evidence 1 2)
        (record {
          observed_at = pos 1;
          now = pos 2;
          observed_monotonic = none;
          monotonic_now = none;
        })
        started
unfolding check_request
validate-active_iff_example =
    validate-active_iff (evidence 1 2)
      (record { observed_at = pos 1; now = pos 2; observed_monotonic = none; monotonic_now = none })
      started refl

unbroken_run :
    (run live (
      (statuses (some (at 3)) none ∷ [])
      ++ (requires (some (at 4)) none ∷ []))).admission_generation
    ≡ live.admission_generation
unfolding run step status require_automation status_body before sub
unbroken_run = refl

run-unbroken_example : is_active (run live (statuses (some (at 3)) none ∷ [])).state ≡ true
run-unbroken_example =
    run-unbroken live (statuses (some (at 3)) none ∷ []) (requires (some (at 4)) none ∷ []) refl
      unbroken_run

-- Evidence that has grown too old ends the admission.
status_departs : (status (some (at 9)) none live).1.admission_generation ≡ 1
unfolding status status_body before sub
status_departs = refl

abbrev lost : Supervisor
lost = record live {
  state = unknown_physical_state;
  reason = "TIMEOUT";
  interrupted_at = some (pos 3);
  unresolved_transactions = "tx" ∷ [];
  admission_generation = 1;
}

interrupt_run : interrupt "TIMEOUT" (at 3) none false (some "tx") live ≡ (ok tt, lost)
unfolding interrupt interrupt_body is_named is_trimmed
interrupt_run = refl

interrupt-unknown_example :
    ((run lost (validates (evidence 4 4) ∷ [])).state ≡ unknown_physical_state)
    × (is_active (run lost (validates (evidence 4 4) ∷ [])).state ≡ false)
interrupt-unknown_example =
    interrupt-unknown "TIMEOUT" (at 3) none (some "tx") live lost (validates (evidence 4 4) ∷ [])
      interrupt_run ((λ h. h), tt)

resolve_run : (resolve_physical_transaction "tx" (at 4) none lost).0 ≡ ok paused
unfolding resolve_physical_transaction resolve_physical_transaction_body is_trimmed
resolve_run = refl
