-- ===== src/Gate/Tests.antt =====
-- Runs of control/controller_authority_gate.py, and the properties at concrete inputs.
use audio_bodyguard_alpha.Prelude.{
  ℕ, ◌≡◌, ◌≢◌, refl, ap, inr, true, false, none, some, [], ◌∷◌, ok, arith,
}
use audio_bodyguard_alpha.Prelude.Time.{pos, before, same_time, add}
use audio_bodyguard_alpha.Prelude.Text.{is_named}
use audio_bodyguard_alpha.Prelude.Dict.{Dict, get, put}
use audio_bodyguard_alpha.Json.{finite}
use audio_bodyguard_alpha.Lease.{Lease, same_lease, validate_time, validate_body, Verifier}
use audio_bodyguard_alpha.Lease.Store.{Store, missing, open_state, validate as lease_validate}
use audio_bodyguard_alpha.Evidence.LeaseGrant.{LeaseGrant, granted, validate_grant, issue_grant}
use audio_bodyguard_alpha.Evidence.Remote.{
  AtomicRequest, RemoteResult, KeyVerifier, validate_result, accepted, is_complete, answers,
  is_operation,
}
use audio_bodyguard_alpha.Evidence.Command.{Proof, validate_command}
use audio_bodyguard_alpha.Evidence.Genuine.{
  IsGenuine, validate_grant-IsGenuine, IsAnswer, validate_result-IsAnswer,
}
use audio_bodyguard_alpha.Gate.{
  Gate, Keys, admitted, replayed_sequence, open_gate, commit_marks, judge_mark, pass_mark,
  is_expected, pass_command, pass_lease, claimed, ask_authority, with_marks, validate,
}
use audio_bodyguard_alpha.Gate.Codec.{encode_marks, decode_marks, decode_marks-encode_marks}
use audio_bodyguard_alpha.Gate.Watermark.{Opens}
use audio_bodyguard_alpha.Gate.Soundness.{IsAuthorised, run_call-IsAuthorised}
use audio_bodyguard_alpha.Gate.History.{Call, local, run_call, here, admitted-once}

abbrev trusting : Verifier
trusting document signature = true

abbrev keys : Keys
keys = record {
  hash = λ document. "digest";
  grant_verifiers = ("authority", trusting) ∷ [];
  command_verifiers = ("phone key", trusting) ∷ [];
  result_verifiers = none;
}

abbrev lease : Lease
lease = record {
  resource_id = "tv";
  controller_id = "phone";
  fencing_token = 1;
  issued_at = pos 0;
  expires_at = pos 10;
}

abbrev authority : Store
authority = record {
  durable = false;
  memory = record {
    active = ("tv", lease) ∷ [];
    highest_tokens = ("tv", 1) ∷ [];
    used_nonces = [];
  };
  file = missing;
}

abbrev grant : LeaseGrant
grant = record {
  resource_id = "tv";
  controller_id = "phone";
  fencing_token = 1;
  controller_key_id = "phone key";
  issued_at = finite (pos 0);
  expires_at = finite (pos 10);
  nonce = "n";
  issuer_id = "authority";
  signature = "s";
}

abbrev proof : ℕ → Proof
proof n = record {
  grant_digest = "digest";
  command_id = "c";
  command_sequence = n;
  action_digest = "volume";
  controller_key_id = "phone key";
  signature = "s";
}

abbrev command : ℕ → Call
command n = local grant (proof n) (finite (pos 3)) (some "volume") true

abbrev fresh : Gate
fresh = record { durable = false; watermarks = []; file = missing }

abbrev marked : Gate
marked = record fresh { watermarks = ("tv", (1, 4)) ∷ [] }

fresh-Opens : Opens fresh []
unfolding open_gate
fresh-Opens = record { opened = refl; positive = tt }

grant_run : validate_grant keys.grant_verifiers grant (finite (pos 3)) ≡ granted
unfolding validate_grant is_named before get
grant_run = refl

validate_grant-IsGenuine_example : IsGenuine keys.grant_verifiers grant (finite (pos 3))
validate_grant-IsGenuine_example =
    validate_grant-IsGenuine keys.grant_verifiers grant (finite (pos 3)) grant_run

issue_run :
    (issue_grant "authority" (λ document. "s") lease "phone key" "n" (finite (pos 3)) authority).0
    ≡ ok grant
unfolding issue_grant lease_validate validate_time validate_body open_state is_named before get
    same_lease same_time
issue_run = refl

command_run : run_call keys (command 4) fresh authority ≡ (ok admitted, marked, authority)
unfolding run_call validate with_marks open_gate validate_grant is_named before get put claimed
    ask_authority lease_validate validate_time validate_body open_state same_lease same_time
    pass_lease pass_command is_expected validate_command pass_mark judge_mark commit_marks
command_run = refl

replay_run : (run_call keys (command 4) marked authority).0 ≡ ok replayed_sequence
unfolding run_call validate with_marks open_gate validate_grant is_named before get put claimed
    ask_authority lease_validate validate_time validate_body open_state same_lease same_time
    pass_lease pass_command is_expected validate_command pass_mark judge_mark commit_marks
replay_run = refl

command_admitted : (run_call keys (command 4) fresh authority).0 ≡ ok admitted
command_admitted = ap (λ x. x.0) command_run

admitted-once_example :
    (run_call keys (command 3) (run_call keys (command 4) fresh authority).1 authority).0
    ≢ ok admitted
admitted-once_example =
    admitted-once keys (command 4) (command 3) fresh (run_call keys (command 4) fresh authority).1
      authority authority [] fresh-Opens command_admitted here refl (inr (refl, omega arith))

run_call-IsAuthorised_example : IsAuthorised keys (command 4) authority
run_call-IsAuthorised_example =
    run_call-IsAuthorised keys (command 4) fresh authority command_admitted

decode_marks-encode_marks_example :
    decode_marks (encode_marks (("tv", (1, 4)) ∷ [])) ≡ ok (("tv", (1, 4)) ∷ [])
unfolding is_named
decode_marks-encode_marks_example =
    decode_marks-encode_marks (("tv", (1, 4)) ∷ []) (refl, omega arith, omega arith, tt)

abbrev request : AtomicRequest
request = record {
  operation = "handoff";
  request_id = "r";
  resource_id = "tv";
  controller_id = "phone";
  controller_key_id = "phone key";
  current_fencing_token = 1;
  requested_ttl_seconds = finite (pos 10);
  challenge = "c";
}

abbrev answer : RemoteResult
answer = record {
  request_digest = "digest";
  resource_id = "tv";
  controller_id = "phone";
  controller_key_id = "phone key";
  fencing_token = 2;
  issued_at = finite (pos 0);
  expires_at = finite (pos 10);
  issuer_id = "authority";
  algorithm = "ECDSA_P256_SHA256";
  signature = "s";
}

abbrev remote_keys : Dict KeyVerifier
remote_keys = ("authority", record { algorithm = "ECDSA_P256_SHA256"; verify = trusting }) ∷ []

result_run : validate_result keys.hash remote_keys request answer (finite (pos 3)) ≡ accepted
unfolding validate_result is_complete answers is_operation is_named before add get
result_run = refl

validate_result-IsAnswer_example : IsAnswer keys.hash remote_keys request answer (finite (pos 3))
validate_result-IsAnswer_example =
    validate_result-IsAnswer keys.hash remote_keys request answer (finite (pos 3)) result_run
