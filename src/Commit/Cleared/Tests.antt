-- ===== src/Commit/Cleared/Tests.antt =====
-- Runs of device_fabric/precondition_gate.py and device_fabric/physical_commit_gate.py, and their properties
-- at concrete inputs.
use audio_bodyguard_alpha.Prelude.{ℕ, ◌≡◌, ◌↔◌, refl, true, false, some, [], ◌∷◌, ok}
use audio_bodyguard_alpha.Prelude.Text.{is_named}
use audio_bodyguard_alpha.Prelude.Time.{pos, before, same_time, sub}
use audio_bodyguard_alpha.Prelude.Dict.{get}
use audio_bodyguard_alpha.Json.{finite, obj, end}
use audio_bodyguard_alpha.Lease.{Lease, same_lease, validate_time, validate_body}
use audio_bodyguard_alpha.Lease.Store.{Store, missing, open_state, validate as lease_validate}
use audio_bodyguard_alpha.Evidence.{Hash}
use audio_bodyguard_alpha.Endpoint.Guard.{DeviceState, state_digest, Intent}
use audio_bodyguard_alpha.Commit.Precondition.{
  allow, intent_expired, aware, CapabilityLease, PhysicalSnapshot, permits, has_begun, is_unexpired,
  in_time, thousand, within, is_fresh, is_expected_state, evaluate,
}
use audio_bodyguard_alpha.Commit.Precondition.Current.{IsCurrent, evaluate-IsCurrent_iff}
use audio_bodyguard_alpha.Commit.{
  asynchronous, CommitGate, dispatched, is_allowed, check_controller, is_true_answer, lowers,
  key_device, judge_lowering, judge_action, judge_proposal, check_proposal, is_timeout, dispatch,
  when_allowed, after_controller, commit_current, commit_intent,
}
use audio_bodyguard_alpha.Commit.Cleared.{Cleared, commit_intent-Cleared}

abbrev hash : Hash
hash document = "digest"

abbrev state : ℕ → DeviceState
state v = record {
  power = true;
  volume = finite (pos v);
  muted = false;
  input_source = "hdmi";
  channel = "";
  custom_state = obj end;
  playback_position_seconds = finite (pos 0);
}

abbrev intent : Intent
intent = record {
  intent_id = "i";
  lease_id = "l";
  action = "set_volume";
  device_id = "tv";
  operation = "set_volume";
  target_state = some (state 20);
  expected_pre_state = some (state 30);
  authorization_digest = "a";
  deadline_at = finite (pos 10);
  transaction_id = "t";
  capability_digest = "c";
  controller_resource_id = "tv";
  controller_id = "phone";
  controller_fencing_token = 1;
}

abbrev capability : CapabilityLease
capability = record {
  device_id = "tv";
  capabilities = "set_volume" ∷ [];
  granted_actions = [];
  valid_from = some (aware (pos 0));
  expires_at = some (aware (pos 20));
  authorized_epoch = pos 7;
  max_world_state_age_ms = finite (pos 5000);
  max_clock_skew_ms = finite (pos 0);
}

abbrev snapshot : PhysicalSnapshot
snapshot = record {
  device_id = "tv";
  state = state 30;
  epoch_number = pos 7;
  observed_at = finite (pos 2);
}

abbrev lease : Lease
lease = record {
  resource_id = "tv";
  controller_id = "phone";
  fencing_token = 1;
  issued_at = pos 0;
  expires_at = pos 10;
}

abbrev authority : Store
authority = record {
  durable = false;
  memory = record {
    active = ("tv", lease) ∷ [];
    highest_tokens = ("tv", 1) ∷ [];
    used_nonces = [];
  };
  file = missing;
}

abbrev gate : CommitGate
gate = record {
  adaptive_memory = some (λ p. ok true);
  directive_proposal =
      some (record { key = "home" ∷ "tv" ∷ "room" ∷ "night" ∷ []; action = "lower_volume" });
  has_authority = true;
  controller_lease = some lease;
  controller_now = some (finite (pos 3));
  transport_timeout_seconds = finite (pos 2);
}

evaluate_run : evaluate hash intent capability snapshot (pos 3) ≡ allow
unfolding evaluate permits has_begun is_unexpired in_time is_fresh within thousand is_expected_state
    state_digest before same_time sub
evaluate_run = refl

late_run : evaluate hash intent capability snapshot (pos 12) ≡ intent_expired
unfolding evaluate permits has_begun is_unexpired in_time before same_time
late_run = refl

commit_run :
    (commit_intent hash gate intent capability snapshot asynchronous (pos 3) authority).0
    ≡ ok (dispatched intent)
unfolding commit_intent evaluate permits has_begun is_unexpired in_time is_fresh within thousand
    is_expected_state state_digest before same_time sub commit_current check_controller is_allowed
    lease_validate validate_time validate_body open_state same_lease get after_controller
    check_proposal is_true_answer judge_proposal key_device is_named judge_action lowers
    judge_lowering when_allowed dispatch is_timeout
commit_run = refl

evaluate-IsCurrent_iff_example :
    (evaluate hash intent capability snapshot (pos 3) ≡ allow)
    ↔ IsCurrent hash intent capability snapshot (pos 3)
evaluate-IsCurrent_iff_example = evaluate-IsCurrent_iff hash intent capability snapshot (pos 3)

commit_intent-Cleared_example :
    Cleared hash gate intent intent capability snapshot asynchronous (pos 3) authority
commit_intent-Cleared_example =
    commit_intent-Cleared hash gate intent intent capability snapshot asynchronous (pos 3) authority
      commit_run
