-- ===== src/Endpoint/Barrier/Tests.antt =====
-- Runs of device_fabric/endpoint_handoff_fence.py and device_fabric/endpoint_handoff_barrier.py, and the
-- properties at concrete inputs.
use audio_bodyguard_alpha.Prelude.{◌≡◌, ◌≢◌, refl, Bool, true, false, none, [], ◌∷◌, Result, ok}
use audio_bodyguard_alpha.Prelude.Text.{is_named, is_trimmed}
use audio_bodyguard_alpha.Prelude.Time.{pos, before}
use audio_bodyguard_alpha.Prelude.Dict.{get, put}
use audio_bodyguard_alpha.Prelude.Agree.{agree, same_option}
use audio_bodyguard_alpha.Json.{finite, has_keys}
use audio_bodyguard_alpha.Lease.Store.{holds, written, save_file, is_written}
use audio_bodyguard_alpha.Fence.{is_fence}
use audio_bodyguard_alpha.Fence.Codec.{
  Records, parse_records, read_envelope, encode_records, encode_envelope,
}
use audio_bodyguard_alpha.Fence.Store.{
  Files, exists, read_records, read_primary, same_entry, check_trusted, check_copies, load_state,
  save_both, is_behind, is_change, with_advance, record_fence, accept_loaded, accept, snapshot,
}
use audio_bodyguard_alpha.Endpoint.{
  identifier, positive_integer, tables, in_transaction, end_transaction, commit_tables,
}
use audio_bodyguard_alpha.Endpoint.Installer.{
  Directive, in_window, is_well_formed, is_signed, is_entry, is_fenced, validate, install, HasFence,
}
use audio_bodyguard_alpha.Endpoint.Barrier.{
  Binding, Barrier, Endpoint, identified, transact, admit_current, admit_new, admit_body,
  check_admission, admit, is_holding, make_hold, refuses_hold, hold_body, is_retained, same_hold,
  record_body, begin_install, move_fence, end_install, go_on, install_barrier,
}
use audio_bodyguard_alpha.Endpoint.Barrier.Holds.{here, begin_install-refuses}
use audio_bodyguard_alpha.Endpoint.Barrier.Installs.{Moved, install_barrier-Moved, admit-HasFence}

abbrev records : Records
records = ("tv", (3, "phone")) ∷ []

abbrev fences : Files (Unit {0})
fences = record {
  primary = holds (encode_envelope false records);
  copy = holds (encode_records records);
  trusted = tt;
}

abbrev barrier : Barrier (Unit {0})
barrier = record {
  device_id = "tv";
  trusted_verifiers = ("authority", λ document signature. true) ∷ [];
  trusted_verifiers_digest = "trust";
  anchor = none;
  dumps = λ document. "{}";
  digest = λ text. "digest";
  digest_joined = λ text signature. "joined";
}

abbrev endpoint : Endpoint (Unit {0})
endpoint = record {
  journal = tables (record {
    device_id = "tv";
    schema_version = 3;
    trusted_verifiers_digest = "trust";
    admissions = [];
    handoffs = [];
    holds = [];
  });
  fences = fences;
}

abbrev directive : Directive
directive = record {
  request_id = "r";
  device_id = "tv";
  resource_id = "tv";
  previous_controller_id = "phone";
  previous_fencing_token = 3;
  controller_id = "tablet";
  fencing_token = 4;
  issued_at = finite (pos 0);
  expires_at = finite (pos 10);
  issuer_id = "authority";
  algorithm = "ECDSA_P256_SHA256";
  signature = "s";
}

abbrev binding : Binding
binding = record { resource_id = "tv"; controller_id = "phone"; fencing_token = 3 }

snapshot_run : snapshot none fences ≡ ok records
unfolding snapshot load_state read_primary check_copies exists read_records agree same_option get
    same_entry check_trusted encode_envelope encode_records read_envelope parse_records has_keys
    is_named
snapshot_run = refl

valid_run : validate "tv" barrier.trusted_verifiers none directive (finite (pos 3)) fences ≡ true
unfolding validate is_well_formed is_named in_window before is_signed get is_fenced is_entry
    same_entry snapshot load_state read_primary check_copies exists read_records agree same_option
    check_trusted encode_envelope encode_records read_envelope parse_records has_keys
valid_run = refl

begin_run : (begin_install barrier directive (finite (pos 3)) written endpoint).0 ≡ ok true
unfolding begin_install transact in_transaction identified end_transaction hold_body refuses_hold
    is_holding get put commit_tables
begin_run = rw valid_run refl

admit_run : (admit barrier "t" binding written endpoint).0 ≡ ok true
unfolding admit check_admission identifier is_trimmed positive_integer transact in_transaction
    identified end_transaction admit_body admit_new admit_current get put is_entry same_entry
    commit_tables
admit_run = rw snapshot_run refl

abbrev installed : Result Bool × Endpoint (Unit {0})
installed =
    install_barrier barrier directive (finite (pos 3)) written written written written endpoint

install_run : installed.0 ≡ ok true
unfolding install_barrier go_on begin_install move_fence end_install transact in_transaction
    identified end_transaction hold_body refuses_hold is_holding make_hold record_body is_retained
    same_hold get put commit_tables install validate is_well_formed is_named in_window before
    is_signed is_fenced is_entry same_entry accept is_fence accept_loaded is_behind with_advance
    record_fence is_change save_both save_file is_written snapshot load_state read_primary
    check_copies exists read_records agree same_option check_trusted encode_envelope encode_records
    read_envelope parse_records has_keys
install_run = refl

begin_install-refuses_example :
    (admit barrier "t" binding written
      (begin_install barrier directive (finite (pos 3)) written endpoint).1).0
    ≢ ok true
begin_install-refuses_example =
    begin_install-refuses barrier directive (finite (pos 3)) "t" binding written written endpoint
      (begin_install barrier directive (finite (pos 3)) written endpoint).1 begin_run here refl

install_barrier-Moved_example : Moved barrier directive endpoint installed.1
install_barrier-Moved_example =
    install_barrier-Moved barrier directive (finite (pos 3)) written written written written
      endpoint install_run

admit-HasFence_example : HasFence none fences "tv" (3, "phone")
admit-HasFence_example = admit-HasFence barrier "t" binding written endpoint admit_run
