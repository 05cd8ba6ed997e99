-- ===== src/Evidence/LeaseGrant.antt =====
-- control/controller_lease_grant.py: a signed grant of a lease, its verifier and its issuer.
use audio_bodyguard_alpha.Prelude.{
  ℕ, String, not, ◌&&◌, Option, none, some, ltb, if◌then◌else◌, Result, ok, err, value_error,
  runtime_error, ◌>>=◌, ◌>>◌, guard,
}
use audio_bodyguard_alpha.Prelude.Time.{Time, before, pos}
use audio_bodyguard_alpha.Prelude.Text.{is_named}
use audio_bodyguard_alpha.Prelude.Dict.{Dict, get}
use audio_bodyguard_alpha.Json.{Json, Number, finite, str, int, float, obj, field, end}
use audio_bodyguard_alpha.Lease.{Verifier, Lease, Decision, allow}
use audio_bodyguard_alpha.Lease.Store.{Store, validate}

pub record LeaseGrant : Type 0 where
  pub resource_id : String
  pub controller_id : String
  pub fencing_token : ℕ
  pub controller_key_id : String
  pub issued_at : Number
  pub expires_at : Number
  pub nonce : String
  pub issuer_id : String
  pub signature : String

unfoldable pub canonical_lease_grant : LeaseGrant → Json
canonical_lease_grant g = obj (
    field "resource_id" (str g.resource_id) (
      field "controller_id" (str g.controller_id) (
        field "fencing_token" (int (pos g.fencing_token)) (
          field "controller_key_id" (str g.controller_key_id) (
            field "issued_at" (float g.issued_at) (
              field "expires_at" (float g.expires_at)
                (field "nonce" (str g.nonce) (field "issuer_id" (str g.issuer_id) end))))))))

pub data GrantDecision : Type 0 where
  granted malformed unknown_issuer invalid_signature not_yet_valid out_of_date : GrantDecision

-- The checks that need only the clocks, in order, once all are known to be finite.
unfoldable pub judge_window : Time → Time → Time → GrantDecision
judge_window now issued expires =
    if before now issued then not_yet_valid else if before now expires then granted else out_of_date

unfoldable pub judge_signature : Option Verifier → LeaseGrant → Time → Time → Time → GrantDecision
unfolding judge_window
judge_signature none g now issued expires = unknown_issuer
judge_signature (some verifier) g now issued expires =
    if not (verifier (canonical_lease_grant g) g.signature)
    then invalid_signature
    else judge_window now issued expires

unfoldable pub judge_grant : Dict Verifier → LeaseGrant → Number → Number → Number → GrantDecision
unfolding judge_signature
judge_grant verifiers g (finite now) (finite issued) (finite expires) =
    if not (
      is_named g.resource_id
      && is_named g.controller_id
      && is_named g.controller_key_id
      && is_named g.nonce
      && is_named g.issuer_id)
    then malformed
    else if not (ltb 0 g.fencing_token)
    then malformed
    else if not (before issued expires)
    then malformed
    else if not (is_named g.signature)
    then malformed
    else judge_signature (get g.issuer_id verifiers) g now issued expires
judge_grant verifiers g _ _ _ = malformed

unfoldable pub validate_grant : Dict Verifier → LeaseGrant → Number → GrantDecision
unfolding judge_grant
validate_grant verifiers g now = judge_grant verifiers g now g.issued_at g.expires_at

-- `ControllerLeaseGrantIssuer.issue`: the lease must be the active one.
unfoldable pub check_active : Decision → Result (Unit {0})
check_active allow = ok tt
check_active _ = err (runtime_error "controller lease is not active")

unfoldable pub make_signed : String → (Json → String) → Lease → String → String → LeaseGrant
make_signed issuer_id sign lease controller_key_id nonce = record unsigned {
  signature = sign (canonical_lease_grant unsigned);
}
  where
    unsigned : LeaseGrant
    unsigned = record {
      resource_id = lease.resource_id;
      controller_id = lease.controller_id;
      fencing_token = lease.fencing_token;
      controller_key_id = controller_key_id;
      issued_at = finite lease.issued_at;
      expires_at = finite lease.expires_at;
      nonce = nonce;
      issuer_id = issuer_id;
      signature = "";
    }

unfoldable pub issue_grant :
    String → (Json → String) → Lease → String → String → Number → Store → Result LeaseGrant × Store
unfolding check_active make_signed
issue_grant issuer_id sign lease controller_key_id nonce now s =
    let (answer, s') = validate lease now s in
    (
      (do
        decision ← answer
        check_active decision
        guard (is_named controller_key_id)
            (value_error "controller_key_id must be a nonempty string")
        guard (is_named nonce) (value_error "nonce must be a nonempty string")
        ok (make_signed issuer_id sign lease controller_key_id nonce)),
      s',
    )
