-- ===== src/Endpoint/Guard/Tests.antt =====
-- Runs of device_fabric/endpoint_execution_ledger.py and
-- device_fabric/endpoint_ledger_guarded_transport.py, and the properties at concrete inputs.
use audio_bodyguard_alpha.Prelude.{
  ◌≡◌, ◌≢◌, refl, ap, sym, subst, String, true, false, Option, none, some, [], ◌∷◌, ok, err,
  value_error,
}
use audio_bodyguard_alpha.Prelude.Text.{is_trimmed}
use audio_bodyguard_alpha.Prelude.Time.{pos, before}
use audio_bodyguard_alpha.Prelude.Dict.{get, put}
use audio_bodyguard_alpha.Json.{finite, obj, end}
use audio_bodyguard_alpha.Lease.Store.{written}
use audio_bodyguard_alpha.Endpoint.{
  identifier, positive_integer, tables, in_transaction, end_transaction, commit_tables,
}
use audio_bodyguard_alpha.Endpoint.Ledger.{
  Context, Ledger, check_context, same_context, identified, judge_row, decide_row, decide_body,
  decide, claim_execution, close_if_unstarted, claimed_state, not_applied_state,
}
use audio_bodyguard_alpha.Endpoint.Ledger.Decided.{Reach, here, decide-once}
use audio_bodyguard_alpha.Endpoint.Guard.{
  DeviceState, state_digest, Intent, deadline_of, bound_request, admit_intent, matches,
  check_request, Guarded, prepare, claim_request, execute_intent, close_request,
}
use audio_bodyguard_alpha.Endpoint.Guard.Once.{execute_intent-once, execute_intent-closed}

abbrev state : DeviceState
state = record {
  power = true;
  volume = finite (pos 30);
  muted = false;
  input_source = "hdmi";
  channel = "";
  custom_state = obj end;
  playback_position_seconds = finite (pos 0);
}

abbrev intent : String → Intent
intent t = record {
  intent_id = "i";
  lease_id = "l";
  action = "set_volume";
  device_id = "tv";
  operation = "set_volume";
  target_state = some state;
  expected_pre_state = some state;
  authorization_digest = "a";
  deadline_at = finite (pos 10);
  transaction_id = t;
  capability_digest = "c";
  controller_resource_id = "tv";
  controller_id = "phone";
  controller_fencing_token = 3;
}

abbrev guarded : Guarded (Unit {0})
guarded = record {
  hash = λ document. "digest";
  transport_device = "tv";
  authority_epoch = 1;
  verifier = none;
}

abbrev bare : Option (Unit {0}) × Option (Unit {0}) × Option (Unit {0})
bare = (none, none, none)

abbrev ledger : Ledger
ledger = record {
  device_id = "tv";
  journal = tables (record { device_id = "tv"; schema_version = 1; transactions = [] });
}

abbrev context : Context
context = record {
  intent_id = "i";
  request_digest = "digest";
  capability_digest = "c";
  authorization_digest = "a";
  controller_id = "phone";
  controller_fencing_token = 3;
  authority_epoch = 1;
}

abbrev row : String → Ledger
row s = record ledger {
  journal =
      tables
        (record { device_id = "tv"; schema_version = 1; transactions = ("t1", (context, s)) ∷ [] });
}

first_run :
    execute_intent guarded (intent "t1") none none bare (pos 3) written ledger
    ≡ (ok (intent "t1"), row claimed_state)
unfolding execute_intent prepare admit_intent bound_request identifier is_trimmed deadline_of
    positive_integer check_request matches before claim_request claim_execution decide check_context
    in_transaction identified end_transaction decide_body decide_row get put commit_tables
    state_digest
first_run = refl

again_run :
    (execute_intent guarded (intent "t1") none none bare (pos 3) written (row claimed_state)).0
    ≡ err (value_error "endpoint execution is closed or already claimed")
unfolding execute_intent prepare admit_intent bound_request identifier is_trimmed deadline_of
    positive_integer check_request matches before claim_request claim_execution decide check_context
    in_transaction identified end_transaction decide_body decide_row get put commit_tables
    state_digest judge_row same_context
again_run = refl

second_run :
    (execute_intent guarded (intent "t2") none none bare (pos 3) written (row claimed_state)).0
    ≡ ok (intent "t2")
unfolding execute_intent prepare admit_intent bound_request identifier is_trimmed deadline_of
    positive_integer check_request matches before claim_request claim_execution decide check_context
    in_transaction identified end_transaction decide_body decide_row get put commit_tables
    state_digest
second_run = refl

close_run : close_request guarded (intent "t1") written ledger ≡ (ok true, row not_applied_state)
unfolding close_request bound_request identifier is_trimmed deadline_of positive_integer
    close_if_unstarted decide check_context in_transaction identified end_transaction decide_body
    decide_row get put commit_tables state_digest
close_run = refl

after_close_run :
    (execute_intent guarded (intent "t2") none none bare (pos 3) written (row not_applied_state)).0
    ≡ ok (intent "t2")
unfolding execute_intent prepare admit_intent bound_request identifier is_trimmed deadline_of
    positive_integer check_request matches before claim_request claim_execution decide check_context
    in_transaction identified end_transaction decide_body decide_row get put commit_tables
    state_digest
after_close_run = refl

decided_run :
    decide "t1" not_applied_state context written ledger ≡ (ok true, row not_applied_state)
unfolding decide check_context identifier is_trimmed positive_integer in_transaction identified
    end_transaction decide_body decide_row get put commit_tables
decided_run = refl

closed_again_run :
    (decide "t1" not_applied_state context written (row not_applied_state)).0 ≡ ok true
unfolding decide check_context identifier is_trimmed positive_integer in_transaction identified
    end_transaction decide_body decide_row get put commit_tables judge_row same_context
closed_again_run = refl

execute_intent-once_example : (intent "t2").transaction_id ≢ (intent "t1").transaction_id
execute_intent-once_example =
    execute_intent-once guarded (intent "t1") (intent "t2") (intent "t1") (intent "t2") none none
      none none bare bare (pos 3) (pos 3) written written ledger (row claimed_state)
      (ap (λ r. r.0) first_run)
      (subst (λ r. Reach r (row claimed_state)) (sym (ap (λ r. r.1) first_run)) here) second_run

execute_intent-closed_example : (intent "t2").transaction_id ≢ (intent "t1").transaction_id
execute_intent-closed_example =
    execute_intent-closed guarded (intent "t1") (intent "t2") (intent "t2") none none bare (pos 3)
      written written ledger (row not_applied_state) (ap (λ r. r.0) close_run)
      (subst (λ r. Reach r (row not_applied_state)) (sym (ap (λ r. r.1) close_run)) here)
      after_close_run

decide-once_example :
    (not_applied_state ≡ not_applied_state) × (not_applied_state ≡ not_applied_state)
decide-once_example =
    decide-once "t1" not_applied_state not_applied_state context context written written ledger
      (row not_applied_state) (ap (λ r. r.0) decided_run)
      (subst (λ r. Reach r (row not_applied_state)) (sym (ap (λ r. r.1) decided_run)) here)
      closed_again_run
