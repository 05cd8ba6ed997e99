-- ===== src/RemoteAuthority/Signing.antt =====
-- The methods of control/remote_atomic_controller_authority.py that sign for a controller: the grant of a
-- committed lease, and the answer to a protocol request.
use audio_bodyguard_alpha.Prelude.{
  String, Bool, true, false, not, ◌&&◌, ◌==◌, Option, none, some, is_some, eqb, if◌then◌else◌,
  Result, ok, err, Error, value_error, runtime_error, ◌>>=◌, ◌>>◌, guard, or_raise,
}
use audio_bodyguard_alpha.Prelude.Time.{epoch, before}
use audio_bodyguard_alpha.Prelude.Text.{is_named}
use audio_bodyguard_alpha.Prelude.Dict.{get, put}
use audio_bodyguard_alpha.Json.{Number, finite, non_finite}
use audio_bodyguard_alpha.Lease.{Lease}
use audio_bodyguard_alpha.Lease.Store.{Write}
use audio_bodyguard_alpha.Evidence.{Hash}
use audio_bodyguard_alpha.Evidence.LeaseGrant as Grants
use audio_bodyguard_alpha.Evidence.LeaseGrant.{LeaseGrant}
use audio_bodyguard_alpha.Evidence.Remote.{
  AtomicRequest, RemoteResult, canonical_request, issue_result,
}
use audio_bodyguard_alpha.RemoteAuthority.{
  acquired, handed, same_number, is_handoff, Key, Service, Committed, Remote,
}
use audio_bodyguard_alpha.RemoteAuthority.Codec.Signed.{is_option}
use audio_bodyguard_alpha.RemoteAuthority.Calls.{guarded, commit_remote, check_id}

-- A check that gives what the rest needs: when it raises, nothing has changed.
unfoldable pub settled {ℓ κ} :
    {A : Type ℓ} {B : Type κ} → Result A → (A → Result B × Remote) → Remote → Result B × Remote
settled (err e) f s = (err e, s)
settled (ok a) f s = f a

unfoldable pub bound_to : Option String → String → Bool
bound_to none key_id = true
bound_to (some bound) key_id = bound == key_id

-- What `issue_grant` checks under the guard.
unfoldable pub check_grantable : String → String → Remote → Result Lease
unfolding bound_to
check_grantable id controller_key_id s = do
  (fingerprint, lease) ←
      or_raise (get id s.committed) (runtime_error "request_id has not been committed")
  guard (bound_to (get id s.bindings) controller_key_id)
      (value_error "request_id already bound to a different controller key")
  guard (not (is_handoff fingerprint))
      (runtime_error "endpoint readiness is required before handoff grant")
  ok lease

-- The key is bound when it was not before.
unfoldable pub bind_key :
    Service → String → String → Write → LeaseGrant → Remote → Result LeaseGrant × Remote
unfolding commit_remote
bind_key v id controller_key_id w grant s =
    if is_some (get id s.bindings)
    then (ok grant, s)
    else commit_remote v grant (record s { bindings = put id controller_key_id s.bindings }) s w

unfoldable pub grant_body :
    Service → Key → String → String → Number → Write → Remote → Result LeaseGrant × Remote
unfolding settled check_grantable bind_key
grant_body v key id controller_key_id now w s =
    settled (check_grantable id controller_key_id s)
      (λ lease.
        let (answer, a) =
          Grants.issue_grant key.key_id key.sign lease controller_key_id id now s.authority in
        let m : Remote = record s { authority = a } in
        settled answer (λ grant. bind_key v id controller_key_id w grant m) m)
      s

-- What `issue_grant` checks before it takes the lock: the key.
unfoldable pub check_grant : Option Key → String → String → Result Key
unfolding check_id
check_grant signing_key id controller_key_id = do
  check_id id
  guard (is_named controller_key_id) (value_error "controller_key_id must be a nonempty string")
  or_raise signing_key (runtime_error "remote authority signing key is not configured")

unfoldable pub issue_grant :
    Service → String → String → Number → Write → Remote → Result LeaseGrant × Remote
unfolding settled check_grant guarded grant_body
issue_grant v id controller_key_id now w s =
    settled (check_grant v.signing_key id controller_key_id)
      (λ key. guarded v (grant_body v key id controller_key_id now w) s) s

is_positive : Number → Bool
is_positive (finite t) = before epoch t
is_positive non_finite = false

abbrev pub p256 : String
p256 = "ECDSA_P256_SHA256"

-- What `issue_protocol_result` checks before it takes the lock: the key.
unfoldable pub check_protocol : Option Key → AtomicRequest → Result Key
unfolding is_positive
check_protocol signing_key q = do
  guard
      (is_named q.operation
        && is_named q.request_id
        && is_named q.resource_id
        && is_named q.controller_id
        && is_named q.controller_key_id
        && is_named q.challenge
        && is_positive q.requested_ttl_seconds)
      (value_error "invalid protocol request")
  key ← or_raise signing_key no_key
  guard (is_option key.algorithm p256) no_key
  ok key
  where
    no_key : Error
    no_key = runtime_error "P-256 remote authority signing key is not configured"

-- `matches`
unfoldable pub matches_request : AtomicRequest → Committed → Bool
matches_request q (acquired r c now ttl, lease) =
    q.operation == "acquire"
    && q.resource_id == r
    && q.controller_id == c
    && eqb q.current_fencing_token 0
    && same_number q.requested_ttl_seconds ttl
    && same_number (finite lease.issued_at) now
matches_request q (handed r c t i e n now ttl, lease) =
    q.operation == "handoff"
    && q.resource_id == r
    && q.controller_id == n
    && eqb q.current_fencing_token t
    && same_number q.requested_ttl_seconds ttl
    && same_number (finite lease.issued_at) now

abbrev other_request : Error
other_request = value_error "request_id already committed with different protocol request"

unfoldable pub check_committed : AtomicRequest → Remote → Result Lease
unfolding matches_request
check_committed q s = do
  request ←
      or_raise (get q.request_id s.committed) (runtime_error "request_id has not been committed")
  guard (matches_request q request) other_request
  guard (not (is_handoff request.0))
      (runtime_error "endpoint readiness is required before handoff result")
  ok request.1

-- An answer that was given before is given again; a new one binds its key.
unfoldable pub result_body :
    Service → Hash → Key → AtomicRequest → Write → Remote → Result RemoteResult × Remote
unfolding settled check_committed bound_to commit_remote
result_body v hash key q w s =
    settled (check_committed q s)
      (λ lease. elim (get q.request_id s.results) [
        | some existing ↦
            if existing.request_digest == hash (canonical_request q)
            then (ok existing, s)
            else (err other_request, s)
        | none ↦
            if bound_to (get q.request_id s.bindings) q.controller_key_id
            then (let result =
                  issue_result hash key.key_id p256 key.sign q lease.fencing_token lease.issued_at
                    lease.expires_at in
                commit_remote v result
                  (record s {
                    bindings = put q.request_id q.controller_key_id s.bindings;
                    results = put q.request_id result s.results;
                  })
                  s w)
            else (err other_request, s)
      ])
      s

unfoldable pub issue_protocol_result :
    Service → Hash → AtomicRequest → Write → Remote → Result RemoteResult × Remote
unfolding settled check_protocol guarded result_body
issue_protocol_result v hash q w s =
    settled (check_protocol v.signing_key q) (λ key. guarded v (result_body v hash key q w) s) s
