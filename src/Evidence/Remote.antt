-- ===== src/Evidence/Remote.antt =====
-- control/remote_controller_protocol.py: a remote authority's signed answer to a request.
use audio_bodyguard_alpha.Prelude.{
  ℕ, String, Bool, not, ◌&&◌, ◌||◌, ◌==◌, Option, none, some, ltb, leb, eqb, if◌then◌else◌,
}
use audio_bodyguard_alpha.Prelude.Time.{Time, epoch, before, add, pos}
use audio_bodyguard_alpha.Prelude.Text.{is_named}
use audio_bodyguard_alpha.Prelude.Dict.{Dict, get}
use audio_bodyguard_alpha.Json.{Json, Number, finite, str, int, float, obj, field, end}
use audio_bodyguard_alpha.Lease.{Verifier}
use audio_bodyguard_alpha.Evidence.{Hash}

-- `AtomicControllerRequest`
pub record AtomicRequest : Type 0 where
  pub operation : String
  pub request_id : String
  pub resource_id : String
  pub controller_id : String
  pub controller_key_id : String
  pub current_fencing_token : ℕ
  pub requested_ttl_seconds : Number
  pub challenge : String

unfoldable pub canonical_request : AtomicRequest → Json
canonical_request q = obj (
    field "challenge" (str q.challenge) (
      field "controller_id" (str q.controller_id) (
        field "controller_key_id" (str q.controller_key_id) (
          field "current_fencing_token" (int (pos q.current_fencing_token)) (
            field "operation" (str q.operation) (
              field "request_id" (str q.request_id) (
                field "requested_ttl_seconds" (float q.requested_ttl_seconds)
                  (field "resource_id" (str q.resource_id) end))))))))

-- `SignedAtomicControllerResult`
pub record RemoteResult : Type 0 where
  pub request_digest : String
  pub resource_id : String
  pub controller_id : String
  pub controller_key_id : String
  pub fencing_token : ℕ
  pub issued_at : Number
  pub expires_at : Number
  pub issuer_id : String
  pub algorithm : String
  pub signature : String

unfoldable pub canonical_result : RemoteResult → Json
canonical_result r = obj (
    field "algorithm" (str r.algorithm) (
      field "controller_id" (str r.controller_id) (
        field "controller_key_id" (str r.controller_key_id) (
          field "expires_at" (float r.expires_at) (
            field "fencing_token" (int (pos r.fencing_token)) (
              field "issued_at" (float r.issued_at) (
                field "issuer_id" (str r.issuer_id) (
                  field "request_digest" (str r.request_digest)
                    (field "resource_id" (str r.resource_id) end)))))))))

pub data ResultDecision : Type 0 where
  accepted malformed request_digest_mismatch unknown_issuer invalid_signature not_yet_valid
        out_of_date :
      ResultDecision

-- A verifier names its algorithm.
pub record KeyVerifier : Type 0 where
  pub algorithm : String
  pub verify : Verifier

-- The order of the tests is the source's: the signature is checked before the bounds that the request
-- puts on the token and on the duration.
unfoldable pub judge_bounds :
    AtomicRequest → RemoteResult → Time → Time → Time → Time → ResultDecision
judge_bounds q r now issued expires ttl =
    if leb r.fencing_token q.current_fencing_token
    then malformed
    else if before (add issued ttl) expires
    then malformed
    else if before now issued
    then not_yet_valid
    else if before now expires
    then accepted
    else out_of_date

unfoldable pub judge_signed :
    Option KeyVerifier → AtomicRequest → RemoteResult → Time → Time → Time → Time → ResultDecision
unfolding judge_bounds
judge_signed none q r now issued expires ttl = unknown_issuer
judge_signed (some v) q r now issued expires ttl =
    if not (r.algorithm == v.algorithm) || not (v.verify (canonical_result r) r.signature)
    then invalid_signature
    else judge_bounds q r now issued expires ttl

-- the operation, and the token that it may name
unfoldable pub is_operation : String → ℕ → Bool
is_operation operation token =
    (operation == "acquire" && eqb token 0) || (operation == "handoff" && ltb 0 token)

unfoldable pub is_complete : AtomicRequest → RemoteResult → Bool
is_complete q r =
    is_named q.operation
    && is_named q.request_id
    && is_named q.resource_id
    && is_named q.controller_id
    && is_named q.controller_key_id
    && is_named q.challenge
    && is_named r.request_digest
    && is_named r.resource_id
    && is_named r.controller_id
    && is_named r.controller_key_id
    && is_named r.issuer_id
    && is_named r.algorithm
    && is_named r.signature

unfoldable pub answers : Hash → AtomicRequest → RemoteResult → Bool
answers hash q r =
    r.request_digest == hash (canonical_request q)
    && r.resource_id == q.resource_id
    && r.controller_id == q.controller_id
    && r.controller_key_id == q.controller_key_id

unfoldable pub judge_result :
    Hash
    → Dict KeyVerifier
    → AtomicRequest
    → RemoteResult
    → Number
    → Number
    → Number
    → Number
    → ResultDecision
unfolding judge_signed
judge_result hash verifiers q r (finite now) (finite ttl) (finite issued) (finite expires) =
    if not (is_complete q r)
    then malformed
    else if not (before epoch ttl)
    then malformed
    else if not (ltb 0 r.fencing_token)
    then malformed
    else if not (before issued expires)
    then malformed
    else if not (answers hash q r)
    then request_digest_mismatch
    else if not (is_operation q.operation q.current_fencing_token)
    then malformed
    else judge_signed (get r.issuer_id verifiers) q r now issued expires ttl
judge_result hash verifiers q r _ _ _ _ = malformed

unfoldable pub validate_result :
    Hash → Dict KeyVerifier → AtomicRequest → RemoteResult → Number → ResultDecision
unfolding judge_result
validate_result hash verifiers q r now =
    judge_result hash verifiers q r now q.requested_ttl_seconds r.issued_at r.expires_at

-- `SignedAtomicControllerResult.issue`, with the signing key's id, algorithm and `sign`
unfoldable pub issue_result :
    Hash → String → String → (Json → String) → AtomicRequest → ℕ → Time → Time → RemoteResult
issue_result hash key_id algorithm sign q token issued_at expires_at = record unsigned {
  signature = sign (canonical_result unsigned);
}
  where
    unsigned : RemoteResult
    unsigned = record {
      request_digest = hash (canonical_request q);
      resource_id = q.resource_id;
      controller_id = q.controller_id;
      controller_key_id = q.controller_key_id;
      fencing_token = token;
      issued_at = finite issued_at;
      expires_at = finite expires_at;
      issuer_id = key_id;
      algorithm = algorithm;
      signature = "";
    }
