-- ===== src/RemoteAuthority/Kept/Steps.antt =====
-- The methods of control/remote_atomic_controller_authority.py keep what was committed, whatever the
-- file system does.
use audio_bodyguard_alpha.Prelude.{
  ◌≡◌, refl, ap, ◌∙◌, inl, inr, String, ◌==◌, eq_iff, none, some, Result, Result-cases, ok, err,
  arith, Bool-cases, Option-cases, value_error,
}
use audio_bodyguard_alpha.Prelude.Dict.{Dict, get, put, get-put}
use audio_bodyguard_alpha.Json.{Number}
use audio_bodyguard_alpha.Lease.{Lease}
use audio_bodyguard_alpha.Lease.Store as Leases
use audio_bodyguard_alpha.Lease.Store.{Store, Write, validate}
use audio_bodyguard_alpha.Evidence.LeaseGrant as Grants
use audio_bodyguard_alpha.Prelude.{guard}
use audio_bodyguard_alpha.Prelude.Text.{is_named}
use audio_bodyguard_alpha.Evidence.{Hash}
use audio_bodyguard_alpha.Evidence.LeaseGrant.{LeaseGrant}
use audio_bodyguard_alpha.Evidence.Remote.{AtomicRequest, canonical_request}
use audio_bodyguard_alpha.RemoteAuthority.{Fingerprint, acquired, Key, Service, Committed, Remote}
use audio_bodyguard_alpha.RemoteAuthority.Calls.{
  guarded, commit_remote, lease_new, lease_body, checked, check_id, highest_body, fingerprint_of,
  acquire, handoff, highest_token,
}
use audio_bodyguard_alpha.RemoteAuthority.Directives.{
  check_directive, check_handoff, is_allowed, directive_body, issue_fence_directive,
}
use audio_bodyguard_alpha.RemoteAuthority.Signing.{
  settled, check_grant, check_protocol, check_grantable, check_committed, bind_key, grant_body,
  bound_to, result_body, issue_grant, issue_protocol_result,
}
use audio_bodyguard_alpha.RemoteAuthority.Kept.{Kept, Keeps, commit-Kept, guarded-Keeps}

pub get-put-other {ℓ} :
    {V : Type ℓ} (i k : String) (u x : V) (d : Dict V)
    → get i d ≡ none
    → get k d ≡ some x
    → get k (put i u d) ≡ some x
get-put-other i k u x d fresh has = rw (get-put i k u d) (ground (arith, eq_iff i k, fresh, has))

module _ (v : Service) (id : String) (c : Committed) where
  checked-Keeps {ℓ} :
      {A : Type ℓ} (check : Result (Unit {0})) (f : Remote → Result A × Remote) (s : Remote)
      → Kept v id c s
      → Keeps v id c (f s)
      → Keeps v id c (checked check f s)
  unfolding checked
  checked-Keeps (ok u) f s k h = h
  checked-Keeps (err e) f s k h = record { kept = k }

  settled-Keeps {ℓ κ} :
      {A : Type ℓ} {B : Type κ} (check : Result A) (f : A → Result B × Remote) (s : Remote)
      → Kept v id c s
      → ((a : A) → Keeps v id c (f a))
      → Keeps v id c (settled check f s)
  unfolding settled
  settled-Keeps (ok a) f s k h = h a
  settled-Keeps (err e) f s k h = record { kept = k }

  -- The lease authority may change.
  with_authority :
      (s : Remote) (a : Store) → Kept v id c s → Kept v id c (record s { authority = a })
  with_authority s a k = record { in_memory = k.in_memory; in_file = k.in_file }

  lease_new-Keeps :
      (i : String) (asked : Fingerprint) (call : Store → Result Lease × Store) (w : Write)
      (s : Remote)
      → Kept v id c s
      → get i s.committed ≡ none
      → Keeps v id c (lease_new v i asked call w s)
  unfolding lease_new
  lease_new-Keeps i asked call w s k fresh = elim (Result-cases (call s.authority).0) [
    | inr (e, bad) ↦ rw (bad, lease_new) (record { kept = with_authority s (call s.authority).1 k })
    | inl (lease, fine) ↦
        rw (fine, lease_new)
          (record {
            kept =
                commit-Kept v id c lease _ _ w (with_authority s _ k)
                  (get-put-other i id (asked, lease) c s.committed fresh k.in_memory);
          })
  ]

  lease_body-Keeps :
      (i : String) (asked : Fingerprint) (call : Store → Result Lease × Store) (w : Write)
      (s : Remote)
      → Kept v id c s
      → Keeps v id c (lease_body v i asked call w s)
  unfolding lease_body
  lease_body-Keeps i asked call w s k = elim (Option-cases (get i s.committed)) [
    | inr (request, known) ↦ rw (known, lease_body) (record { kept = k })
    | inl fresh ↦ rw (fresh, lease_body) (lease_new-Keeps i asked call w s k fresh)
  ]

  asked-Keeps :
      (i : String) (asked : Fingerprint) (call : Store → Result Lease × Store) (w : Write)
      (s : Remote)
      → Kept v id c s
      → Keeps v id c (checked (check_id i) (guarded v (lease_body v i asked call w)) s)
  asked-Keeps i asked call w s k =
      checked-Keeps (check_id i) (guarded v (lease_body v i asked call w)) s k
        (guarded-Keeps v id c (lease_body v i asked call w) s k (lease_body-Keeps i asked call w))

  pub acquire-Keeps :
      (i r n : String) (now ttl : Number) (w w' : Write) (s : Remote)
      → Kept v id c s
      → Keeps v id c (acquire v i r n now ttl w w' s)
  unfolding acquire
  acquire-Keeps i r n now ttl w w' =
      asked-Keeps i (acquired r n now ttl) (Leases.acquire r n now ttl w) w'

  pub handoff-Keeps :
      (i : String) (l : Lease) (n : String) (now ttl : Number) (w w' : Write) (s : Remote)
      → Kept v id c s
      → Keeps v id c (handoff v i l n now ttl w w' s)
  unfolding handoff
  handoff-Keeps i l n now ttl w w' =
      asked-Keeps i (fingerprint_of l n now ttl) (Leases.handoff l n now ttl w) w'

  pub highest_token-Keeps :
      (r : String) (s : Remote) → Kept v id c s → Keeps v id c (highest_token v r s)
  unfolding highest_token
  highest_token-Keeps r s k =
      checked-Keeps (guard (is_named r) (value_error "resource_id must be a non-empty string"))
        (guarded v (highest_body r)) s k
        (guarded-Keeps v id c (highest_body r) s k
          λ m k'. unfold highest_body in record { kept = k' })

  -- A method that commits a state with the same requests.
  commit_same {ℓ} :
      {A : Type ℓ} (result : A) (new old : Remote) (w : Write)
      → new.committed ≡ old.committed
      → Kept v id c old
      → Keeps v id c (commit_remote v result new old w)
  commit_same result new old w same k = record {
    kept = commit-Kept v id c result new old w k (ap (get id) same ∙ k.in_memory);
  }

  bind_key-Keeps :
      (i key_id : String) (w : Write) (grant : LeaseGrant) (s : Remote)
      → Kept v id c s
      → Keeps v id c (bind_key v i key_id w grant s)
  unfolding bind_key
  bind_key-Keeps i key_id w grant s k = elim (Option-cases (get i s.bindings)) [
    | inr (bound, known) ↦ rw (known, bind_key) (record { kept = k })
    | inl unbound ↦ rw (unbound, bind_key) (commit_same grant _ s w refl k)
  ]

  grant_body-Keeps :
      (key : Key) (i key_id : String) (now : Number) (w : Write) (s : Remote)
      → Kept v id c s
      → Keeps v id c (grant_body v key i key_id now w s)
  unfolding grant_body
  grant_body-Keeps key i key_id now w s k =
      settled-Keeps (check_grantable i key_id s) _ s k λ lease.
        let answer = Grants.issue_grant key.key_id key.sign lease key_id i now s.authority in
        let kept = with_authority s answer.1 k in
        settled-Keeps answer.0 _ (record s { authority = answer.1 }) kept
          λ grant. bind_key-Keeps i key_id w grant (record s { authority = answer.1 }) kept

  result_body-Keeps :
      (hash : Hash) (key : Key) (q : AtomicRequest) (w : Write) (s : Remote)
      → Kept v id c s
      → Keeps v id c (result_body v hash key q w s)
  unfolding result_body
  result_body-Keeps hash key q w s k = settled-Keeps (check_committed q s) _ s k λ lease.
      elim (Option-cases (get q.request_id s.results)) [
        | inr (existing, known) ↦
            rw known (elim (Bool-cases (existing.request_digest == hash (canonical_request q))) [
              | inl same ↦ rw same (record { kept = k })
              | inr other ↦ rw other (record { kept = k })
            ])
        | inl unknown ↦
            rw unknown
              (elim (Bool-cases (bound_to (get q.request_id s.bindings) q.controller_key_id)) [
                | inl bound ↦ rw bound (commit_same _ _ s w refl k)
                | inr other ↦ rw other (record { kept = k })
              ])
      ]

  directive_body-Keeps :
      (key : Key) (i device_id : String) (now : Number) (w : Write) (s : Remote)
      → Kept v id c s
      → Keeps v id c (directive_body v key i device_id now w s)
  unfolding directive_body
  directive_body-Keeps key i device_id now w s k =
      settled-Keeps (check_handoff v i device_id s) _ s k λ previous.
        let answer = validate previous.2 now s.authority in
        let m : Remote = record s { authority = answer.1 } in
        settled-Keeps (is_allowed answer.0) _ m (with_authority s answer.1 k) λ allowed.
          elim (Option-cases (get i s.directives)) [
            | inr (existing, known) ↦ rw known (record { kept = with_authority s answer.1 k })
            | inl unknown ↦ rw unknown (commit_same _ _ m w refl (with_authority s answer.1 k))
          ]

  pub grants-Keeps :
      (i key_id : String) (now : Number) (w : Write) (s : Remote)
      → Kept v id c s
      → Keeps v id c (issue_grant v i key_id now w s)
  unfolding issue_grant
  grants-Keeps i key_id now w s k = settled-Keeps (check_grant v.signing_key i key_id) _ s k λ key.
      guarded-Keeps v id c (grant_body v key i key_id now w) s k
        (grant_body-Keeps key i key_id now w)

  pub results-Keeps :
      (hash : Hash) (q : AtomicRequest) (w : Write) (s : Remote)
      → Kept v id c s
      → Keeps v id c (issue_protocol_result v hash q w s)
  unfolding issue_protocol_result
  results-Keeps hash q w s k =
      settled-Keeps (check_protocol v.signing_key q) _ s k λ key.
        guarded-Keeps v id c (result_body v hash key q w) s k (result_body-Keeps hash key q w)

  pub directives-Keeps :
      (i device_id : String) (now : Number) (w : Write) (s : Remote)
      → Kept v id c s
      → Keeps v id c (issue_fence_directive v i device_id now w s)
  unfolding issue_fence_directive
  directives-Keeps i device_id now w s k =
      settled-Keeps (check_directive v i device_id now) _ s k λ key.
        guarded-Keeps v id c (directive_body v key i device_id now w) s k
          (directive_body-Keeps key i device_id now w)
