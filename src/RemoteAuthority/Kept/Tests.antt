-- ===== src/RemoteAuthority/Kept/Tests.antt =====
-- A durable remote authority (control/remote_atomic_controller_authority.py) at a few calls, and its
-- theorem there. The key's verifier accepts every signature.
use audio_bodyguard_alpha.Prelude.{
  ◌≡◌, refl, String, true, false, Bool, ◌==◌, some, [], ◌∷◌, Result, ok, err, value_error,
  runtime_error,
}
use audio_bodyguard_alpha.Prelude.Time.{pos, add, before, same_time}
use audio_bodyguard_alpha.Prelude.Text.{is_named, is_digest}
use audio_bodyguard_alpha.Prelude.Dict.{get, put}
use audio_bodyguard_alpha.Json.{finite, has_keys}
use audio_bodyguard_alpha.Lease.{
  Lease, empty, acquire_body, handoff_body, validate_body, same_lease, validate_identifier,
  validate_time, validate_ttl,
}
use audio_bodyguard_alpha.Lease.Store as Leases
use audio_bodyguard_alpha.Lease.Store.{missing, written, not_replaced, not_synced}
use audio_bodyguard_alpha.Evidence.LeaseGrant as Grants
use audio_bodyguard_alpha.Evidence.LeaseGrant.{check_active}
use audio_bodyguard_alpha.Evidence.Remote.{AtomicRequest, issue_result}
use audio_bodyguard_alpha.RemoteAuthority.{
  Key, Service, Remote, is_handoff, same_fingerprint, same_number,
}
use audio_bodyguard_alpha.RemoteAuthority.Codec.{write_state}
use audio_bodyguard_alpha.RemoteAuthority.Codec.Signed.{read_state}
use audio_bodyguard_alpha.RemoteAuthority.Calls.{open_remote, replay, acquire, handoff}
use audio_bodyguard_alpha.RemoteAuthority.Directives.{issue_fence_directive}
use audio_bodyguard_alpha.RemoteAuthority.Signing.{
  issue_grant, issue_protocol_result, matches_request,
}
use audio_bodyguard_alpha.RemoteAuthority.Kept.Again.{
  here, next, hands_off, grants, Ask, acquiring, handing, payload, ask, ask-again,
}

abbrev key : Key
key = record {
  key_id = "authority";
  is_p256 = true;
  algorithm = some "ECDSA_P256_SHA256";
  sign = λ j. "signed";
  verifier = some λ j sig. sig == "signed";
}

abbrev service : Service
service = record { durable = true; signing_key = some key; devices = ("speaker", "device1") ∷ [] }

abbrev start : Remote
start = record {
  authority = record { durable = false; memory = empty; file = missing };
  committed = [];
  bindings = [];
  results = [];
  directives = [];
  file = missing;
}

abbrev lease : Lease
lease = record {
  resource_id = "speaker";
  controller_id = "alice";
  fencing_token = 1;
  issued_at = pos 10;
  expires_at = pos 60;
}

abbrev question : Ask
question = acquiring "speaker" "alice" (finite (pos 10)) (finite (pos 50))

abbrev taken : Remote
taken = (ask service "r1" question written written start).1

taken_ok : (ask service "r1" question written written start).0 ≡ ok lease
unfolding ask acquire open_remote Leases.acquire Leases.open_state Leases.commit validate_identifier
    validate_time validate_ttl acquire_body add before same_time is_named get put write_state
taken_ok = refl

-- A save that raises after the file was replaced: the client is told of the error, and asks again.
retried :
    (ask service "r1" question written written
      (ask service "r1" question written not_synced start).1).0
    ≡ ok lease
unfolding ask acquire open_remote Leases.acquire Leases.open_state Leases.commit validate_identifier
    validate_time validate_ttl acquire_body add before same_time is_named get put write_state
    read_state has_keys handoff Leases.handoff handoff_body same_lease replay same_fingerprint
retried = refl

-- The handoff is not saved; the key of the grant is, but the client is told of an error.
abbrev unsaved : Remote
unsaved =
    (handoff service "r2" lease "bob" (finite (pos 20)) (finite (pos 50)) written not_replaced
      taken).1

abbrev later : Remote
later = (issue_grant service "r1" "key1" (finite (pos 20)) not_synced unsaved).1

abbrev opened : Remote
opened = record taken { bindings = ("r1", "key1") ∷ []; file = later.file }

opens : open_remote service later ≡ ok opened
unfolding ask acquire open_remote Leases.acquire Leases.open_state Leases.commit validate_identifier
    validate_time validate_ttl acquire_body add before same_time is_named get put write_state
    read_state has_keys handoff Leases.handoff handoff_body same_lease replay same_fingerprint
    issue_grant Grants.issue_grant Leases.validate validate_body check_active is_handoff
opens = refl

ask-again_example :
    ask service "r1" (handing lease "bob" (finite (pos 30)) (finite (pos 5))) written written later
    ≡ (err (value_error "request_id already committed with different payload"), opened)
unfolding same_fingerprint payload
ask-again_example =
    ask-again service (λ j. "digest") "r1" question written written start lease taken_ok later
      opened
      (next taken unsaved later
        (hands_off taken "r2" lease "bob" (finite (pos 20)) (finite (pos 50)) written not_replaced)
        (next unsaved later later (grants unsaved "r1" "key1" (finite (pos 20)) not_synced)
          (here later)))
      opens (handing lease "bob" (finite (pos 30)) (finite (pos 5))) written written

abbrev digest : String
digest = "0123456789abcdef0123456789abcdef0123456789abcdef0123456789abcdef"

abbrev asking : AtomicRequest
asking = record {
  operation = "acquire";
  request_id = "r1";
  resource_id = "speaker";
  controller_id = "alice";
  controller_key_id = "key1";
  current_fencing_token = 0;
  requested_ttl_seconds = finite (pos 50);
  challenge = "c";
}

-- The signed answer, and the directive, are read back from the file.
abbrev answered : Remote
answered = (issue_protocol_result service (λ j. digest) asking written taken).1

abbrev is_ok {ℓ} : {A : Type ℓ} → Result A → Bool
is_ok (ok a) = true
is_ok (err e) = false

answered_again :
    is_ok (issue_protocol_result service (λ j. digest) asking not_replaced answered).0 ≡ true
unfolding ask acquire open_remote Leases.acquire Leases.open_state Leases.commit validate_identifier
    validate_time validate_ttl acquire_body add before same_time is_named get put write_state
    read_state has_keys handoff Leases.handoff handoff_body same_lease replay same_fingerprint
    issue_grant Grants.issue_grant Leases.validate validate_body check_active is_handoff
    issue_protocol_result matches_request same_number issue_result is_digest issue_fence_directive
answered_again = refl

abbrev handed_over : Remote
handed_over =
    (handoff service "r2" lease "bob" (finite (pos 20)) (finite (pos 50)) written written
      answered).1

abbrev directed : Remote
directed = (issue_fence_directive service "r2" "device1" (finite (pos 30)) written handed_over).1

directed_again :
    is_ok (issue_fence_directive service "r2" "device1" (finite (pos 40)) not_replaced directed).0
    ≡ true
unfolding ask acquire open_remote Leases.acquire Leases.open_state Leases.commit validate_identifier
    validate_time validate_ttl acquire_body add before same_time is_named get put write_state
    read_state has_keys handoff Leases.handoff handoff_body same_lease replay same_fingerprint
    issue_grant Grants.issue_grant Leases.validate validate_body check_active is_handoff
    issue_protocol_result matches_request same_number issue_result is_digest issue_fence_directive
directed_again = refl

no_directive :
    (issue_fence_directive service "r1" "device1" (finite (pos 30)) written handed_over).0
    ≡ err (runtime_error "committed handoff is required")
unfolding ask acquire open_remote Leases.acquire Leases.open_state Leases.commit validate_identifier
    validate_time validate_ttl acquire_body add before same_time is_named get put write_state
    read_state has_keys handoff Leases.handoff handoff_body same_lease replay same_fingerprint
    issue_grant Grants.issue_grant Leases.validate validate_body check_active is_handoff
    issue_protocol_result matches_request same_number issue_result is_digest issue_fence_directive
no_directive = refl
