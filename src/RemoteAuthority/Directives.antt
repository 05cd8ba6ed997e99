-- ===== src/RemoteAuthority/Directives.antt =====
-- `issue_fence_directive` of control/remote_atomic_controller_authority.py: the signed directive that moves
-- an endpoint's fence to the lease of a committed handoff.
use audio_bodyguard_alpha.Prelude.{
  ℕ, ◌+◌, String, Bool, true, false, not, ◌&&◌, ◌==◌, Option, none, some, eqb, Result, ok, err,
  Error, value_error, runtime_error, ◌>>=◌, ◌>>◌, guard, or_raise,
}
use audio_bodyguard_alpha.Prelude.Text.{is_named}
use audio_bodyguard_alpha.Prelude.Dict.{get, put}
use audio_bodyguard_alpha.Json.{Number, finite, non_finite}
use audio_bodyguard_alpha.Lease.{Lease, Decision, allow}
use audio_bodyguard_alpha.Lease.Store.{Write, validate}
use audio_bodyguard_alpha.Endpoint.Installer.{Directive, canonical_directive}
use audio_bodyguard_alpha.RemoteAuthority.{Fingerprint, acquired, handed, Key, Service, Remote}
use audio_bodyguard_alpha.RemoteAuthority.Codec.Signed.{is_option}
use audio_bodyguard_alpha.RemoteAuthority.Calls.{guarded, commit_remote, check_id}
use audio_bodyguard_alpha.RemoteAuthority.Signing.{settled, p256}

is_finite : Number → Bool
is_finite (finite t) = true
is_finite non_finite = false

-- What `issue_fence_directive` checks before it takes the lock: the key.
unfoldable pub check_directive : Service → String → String → Number → Result Key
unfolding check_id is_finite
check_directive v id device_id now = do
  check_id id
  guard (is_named device_id) (value_error "endpoint device binding is required")
  guard (is_finite now) (value_error "directive time is invalid")
  guard v.durable (runtime_error "durable remote authority is required for fence directive")
  key ← or_raise v.signing_key no_key
  guard key.is_p256 no_key
  ok key
  where
    no_key : Error
    no_key = runtime_error "P-256 handoff authority signing key is required"

-- The controller and the token before a handoff
previous_of : Fingerprint → Option (String × ℕ)
previous_of (acquired r c now ttl) = none
previous_of (handed r c t i e n now ttl) = some (c, t)

-- The committed handoff: the controller and the token before it, and its lease.
unfoldable pub check_handoff : Service → String → String → Remote → Result (String × ℕ × Lease)
unfolding previous_of
check_handoff v id device_id s = do
  request ← or_raise (get id s.committed) no_handoff
  previous ← or_raise (previous_of request.0) no_handoff
  guard (is_option (get request.1.resource_id v.devices) device_id)
      (value_error "endpoint device binding mismatch")
  guard
      (not (previous.0 == request.1.controller_id) && eqb request.1.fencing_token (previous.1 + 1))
      (runtime_error "handoff fence transition is invalid")
  ok (previous.0, previous.1, request.1)
  where
    no_handoff : Error
    no_handoff = runtime_error "committed handoff is required"

unfoldable pub is_allowed : Result Decision → Result (Unit {0})
is_allowed (ok allow) = ok tt
is_allowed (ok _) = err (runtime_error "handoff lease is not active")
is_allowed (err e) = err e

unfoldable pub make_directive : Key → String → String → String → ℕ → Lease → Directive
make_directive key id device_id previous_controller_id previous_token lease = record unsigned {
  signature = key.sign (canonical_directive unsigned);
}
  where
    unsigned : Directive
    unsigned = record {
      request_id = id;
      device_id = device_id;
      resource_id = lease.resource_id;
      previous_controller_id = previous_controller_id;
      previous_fencing_token = previous_token;
      controller_id = lease.controller_id;
      fencing_token = lease.fencing_token;
      issued_at = finite lease.issued_at;
      expires_at = finite lease.expires_at;
      issuer_id = key.key_id;
      algorithm = p256;
      signature = "";
    }

unfoldable pub directive_body :
    Service → Key → String → String → Number → Write → Remote → Result Directive × Remote
unfolding settled check_handoff is_allowed make_directive commit_remote
directive_body v key id device_id now w s =
    settled (check_handoff v id device_id s)
      (λ (previous_controller_id, previous_token, lease).
        let (answer, a) = validate lease now s.authority in
        let m : Remote = record s { authority = a } in
        settled (is_allowed answer)
          (λ _. elim (get id m.directives) [
            | some existing ↦ (ok existing, m)
            | none ↦
                let directive =
                  make_directive key id device_id previous_controller_id previous_token lease in
                commit_remote v directive (record m { directives = put id directive m.directives })
                  m w
          ])
          m)
      s

unfoldable pub issue_fence_directive :
    Service → String → String → Number → Write → Remote → Result Directive × Remote
unfolding settled check_directive guarded directive_body
issue_fence_directive v id device_id now w s =
    settled (check_directive v id device_id now)
      (λ key. guarded v (directive_body v key id device_id now w) s) s
