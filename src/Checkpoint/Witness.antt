-- ===== src/Checkpoint/Witness.antt =====
-- The signed records of a checkpoint witness, in control/protection_supervisor_checkpoint.py: the
-- witness that signs its answers, and the one that verifies them.
pub mod Issued
pub mod Agrees
use audio_bodyguard_alpha.Prelude.{
  ℕ, String, Bool, true, false, not, ◌&&◌, ◌==◌, Option, none, some, if◌then◌else◌, Result, ok, err,
  Error, value_error, ◌>>=◌, ◌>>◌, guard,
}
use audio_bodyguard_alpha.Prelude.Time.{pos}
use audio_bodyguard_alpha.Prelude.Text.{is_named, is_digest}
use audio_bodyguard_alpha.Prelude.Dict.{Dict, get}
use audio_bodyguard_alpha.Json.{Json, int, str, obj, field, end}
use audio_bodyguard_alpha.Evidence.Remote.{KeyVerifier}
use audio_bodyguard_alpha.Checkpoint.{is_sequence, is_installation_id}
use audio_bodyguard_alpha.Checkpoint.Anchor.{
  Fault, anchor_unavailable, raised, Reply, reply, failed, Mark, same_mark, Witness, check_mark,
}

-- `SignedCheckpointFreshnessRecord`
pub record SignedRecord : Type 0 where
  pub installation_id : String
  pub sequence : ℕ
  pub digest : String
  pub issuer_id : String
  pub algorithm : String
  pub signature : String

-- `canonical_bytes`
unfoldable pub canonical_record : SignedRecord → Json
canonical_record r = obj (
    field "algorithm" (str r.algorithm) (
      field "digest" (str r.digest) (
        field "installation_id" (str r.installation_id)
          (field "issuer_id" (str r.issuer_id) (field "sequence" (int (pos r.sequence)) end)))))

-- A signing key. `sign` gives a text that is not empty, or raises.
pub record SigningKey : Type 0 where
  pub key_id : String
  pub algorithm : String
  pub sign : Json → Result String

abbrev pub p256 : String
p256 = "ECDSA_P256_SHA256"

-- `issue`
unfoldable pub issue_record : SigningKey → String → ℕ → String → Result SignedRecord
issue_record key installation_id sequence digest = do
  guard (is_installation_id installation_id) (value_error "installation_id is invalid")
  guard (is_sequence sequence) (value_error "checkpoint sequence is invalid")
  guard (is_digest digest) (value_error "checkpoint digest is invalid")
  guard (is_named key.key_id && key.algorithm == p256)
      (value_error "witness signing key is invalid")
  let unsigned : SignedRecord = record {
    installation_id = installation_id;
    sequence = sequence;
    digest = digest;
    issuer_id = key.key_id;
    algorithm = key.algorithm;
    signature = "";
  }
  signature ← key.sign (canonical_record unsigned)
  guard (not (signature == "")) (value_error "witness signature is invalid")
  ok (record unsigned { signature = signature })

-- `CheckpointFreshnessRecordDecision`
pub data RecordDecision : Type 0 where
  allow malformed installation_mismatch unknown_issuer invalid_signature : RecordDecision

judge_signature : Option KeyVerifier → SignedRecord → String → RecordDecision
judge_signature none r installation_id = unknown_issuer
judge_signature (some v) r installation_id =
    if not (r.algorithm == v.algorithm && v.verify (canonical_record r) r.signature)
    then invalid_signature
    else if not (r.installation_id == installation_id)
    then installation_mismatch
    else allow

-- `CheckpointFreshnessRecordVerifier.validate`
unfoldable pub validate_record : Dict KeyVerifier → SignedRecord → String → RecordDecision
unfolding judge_signature
validate_record verifiers r installation_id =
    if not (is_installation_id installation_id)
    then malformed
    else if not (
        is_named r.installation_id
        && is_named r.digest
        && is_named r.issuer_id
        && is_named r.algorithm
        && is_named r.signature)
    then malformed
    else if not (is_sequence r.sequence && is_digest r.digest)
    then malformed
    else judge_signature (get r.issuer_id verifiers) r installation_id

is_allowed : RecordDecision → Bool
is_allowed allow = true
is_allowed _ = false

unfoldable pub verify_record : Dict KeyVerifier → String → SignedRecord → Reply Mark
unfolding validate_record is_allowed
verify_record verifiers installation_id r =
    if is_allowed (validate_record verifiers r installation_id)
    then reply (r.sequence, r.digest)
    else failed (anchor_unavailable "checkpoint witness authentication failed")

unfoldable pub of_result {ℓ} : {A : Type ℓ} → Result A → Reply A
of_result (ok a) = reply a
of_result (err e) = failed (raised e)

-- `_verify` and `_sign`, of the answers of a `read`, with `allow_none`
unfoldable pub verify_read :
    Dict KeyVerifier → String → Reply (Option SignedRecord) → Reply (Option Mark)
verify_read verifiers installation_id (failed f) = failed f
verify_read verifiers installation_id (reply none) = reply none
verify_read verifiers installation_id (reply (some r)) =
    elim (verify_record verifiers installation_id r) [
      | failed f ↦ failed f
      | reply m ↦ reply (some m)
    ]

unfoldable pub sign_read : SigningKey → String → Reply (Option Mark) → Reply (Option SignedRecord)
sign_read key installation_id (failed f) = failed f
sign_read key installation_id (reply none) = reply none
sign_read key installation_id (reply (some (n, d))) = elim (issue_record key installation_id n d) [
  | err e ↦ failed (raised e)
  | ok r ↦ reply (some r)
]

-- and of a `compare_and_advance`
unfoldable pub verify_advance : Dict KeyVerifier → String → Mark → Reply SignedRecord → Reply Mark
unfolding same_mark
verify_advance verifiers installation_id proposed (failed f) = failed f
verify_advance verifiers installation_id proposed (reply r) =
    elim (verify_record verifiers installation_id r) [
      | failed f ↦ failed f
      | reply m ↦
          if same_mark m proposed
          then reply m
          else failed (anchor_unavailable "checkpoint witness response is invalid")
    ]

unfoldable pub sign_advance : SigningKey → String → Mark → Reply Mark → Reply SignedRecord
unfolding same_mark of_result
sign_advance key installation_id proposed (failed f) = failed f
sign_advance key installation_id proposed (reply (n, d)) =
    if same_mark (n, d) proposed
    then of_result (issue_record key installation_id n d)
    else failed (raised (value_error "checkpoint witness response is invalid"))

-- `VerifiedCheckpointFreshnessWitness`
abbrev pub verified_witness :
    {S : Type 0} → Dict KeyVerifier → Witness SignedRecord S → Witness Mark S
verified_witness verifiers w = record {
  read = λ i s. let (answer, s') = w.read i s in (verify_read verifiers i answer, s');
  compare_and_advance = λ i n d s.
      let (answer, s') = w.compare_and_advance i n d s in
      (verify_advance verifiers i (n, d) answer, s');
}

-- `SigningCheckpointFreshnessWitness`
abbrev pub signing_witness : {S : Type 0} → SigningKey → Witness Mark S → Witness SignedRecord S
signing_witness key w = record {
  read = λ i s. let (answer, s') = w.read i s in (sign_read key i answer, s');
  compare_and_advance = λ i n d s.
      let (answer, s') = w.compare_and_advance i n d s in (sign_advance key i (n, d) answer, s');
}
