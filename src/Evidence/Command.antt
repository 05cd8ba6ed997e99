-- ===== src/Evidence/Command.antt =====
-- control/controller_command_proof.py: the proof that a command comes with, bound to the grant or to the
-- remote result by its digest.
use audio_bodyguard_alpha.Prelude.{
  ℕ, String, not, ◌&&◌, ◌==◌, Option, none, some, ltb, if◌then◌else◌,
}
use audio_bodyguard_alpha.Prelude.Time.{pos}
use audio_bodyguard_alpha.Prelude.Text.{is_named}
use audio_bodyguard_alpha.Prelude.Dict.{Dict, get}
use audio_bodyguard_alpha.Json.{Json, str, int, obj, field, end}
use audio_bodyguard_alpha.Lease.{Verifier}
use audio_bodyguard_alpha.Evidence.{Hash}
use audio_bodyguard_alpha.Evidence.LeaseGrant.{LeaseGrant, canonical_lease_grant}
use audio_bodyguard_alpha.Evidence.Remote.{RemoteResult, canonical_result}

pub record Proof : Type 0 where
  pub grant_digest : String
  pub command_id : String
  pub command_sequence : ℕ
  pub action_digest : String
  pub controller_key_id : String
  pub signature : String

unfoldable pub canonical_proof : Proof → Json
canonical_proof p = obj (
    field "grant_digest" (str p.grant_digest) (
      field "command_id" (str p.command_id) (
        field "command_sequence" (int (pos p.command_sequence)) (
          field "action_digest" (str p.action_digest)
            (field "controller_key_id" (str p.controller_key_id) end)))))

pub data CommandDecision : Type 0 where
  commanded ill_formed grant_mismatch key_mismatch unknown_controller_key bad_signature :
      CommandDecision

unfoldable pub judge_key : Option Verifier → Proof → CommandDecision
judge_key none p = unknown_controller_key
judge_key (some verifier) p =
    if not (verifier (canonical_proof p) p.signature) then bad_signature else commanded

-- Both methods: the digest that is expected, and the key that the grant or the result names.
unfoldable pub validate_proof : Dict Verifier → Proof → String → String → CommandDecision
unfolding judge_key
validate_proof verifiers p expected_digest key_id =
    if not (
      is_named p.grant_digest
      && is_named p.command_id
      && is_named p.action_digest
      && is_named p.controller_key_id
      && is_named p.signature)
    then ill_formed
    else if not (ltb 0 p.command_sequence)
    then ill_formed
    else if not (p.grant_digest == expected_digest)
    then grant_mismatch
    else if not (p.controller_key_id == key_id)
    then key_mismatch
    else judge_key (get p.controller_key_id verifiers) p

unfoldable pub validate_command : Hash → Dict Verifier → Proof → LeaseGrant → CommandDecision
unfolding validate_proof
validate_command hash verifiers p g =
    validate_proof verifiers p (hash (canonical_lease_grant g)) g.controller_key_id

unfoldable pub validate_remote_command :
    Hash → Dict Verifier → Proof → RemoteResult → CommandDecision
unfolding validate_proof
validate_remote_command hash verifiers p r =
    validate_proof verifiers p (hash (canonical_result r)) r.controller_key_id
