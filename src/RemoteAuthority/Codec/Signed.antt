-- ===== src/RemoteAuthority/Codec/Signed.antt =====
-- The signed records that `_load_state` of control/remote_atomic_controller_authority.py reads, and the
-- state that it loads.
use audio_bodyguard_alpha.Prelude.{
  ℕ, ◌+◌, String, Bool, false, ◌&&◌, ◌==◌, Option, none, some, List, [], ◌∷◌, is_some, eqb, Result,
  ok, value_error, Error, ◌>>=◌, ◌>>◌, guard, or_raise,
}
use audio_bodyguard_alpha.Prelude.Time.{Time, same_time}
use audio_bodyguard_alpha.Prelude.Text.{is_named, is_digest}
use audio_bodyguard_alpha.Prelude.Dict.{Dict, get}
use audio_bodyguard_alpha.Json.{Json, Fields, field, end, finite, as_string, as_natural}
use audio_bodyguard_alpha.Lease.{Lease}
use audio_bodyguard_alpha.Evidence.Remote.{RemoteResult, canonical_result}
use audio_bodyguard_alpha.Endpoint.Installer.{Directive, canonical_directive}
use audio_bodyguard_alpha.RemoteAuthority.{acquired, handed, Key, Service, Committed}
use audio_bodyguard_alpha.RemoteAuthority.Codec.Reading.{
  as_compared, entry, object_with, read_parts, read_resources, read_requests,
}

abbrev bad_binding : Error
bad_binding = value_error "invalid remote authority controller key binding"

unfoldable pub read_bindings : Dict Committed → Fields → Result (Dict String)
read_bindings committed end = ok []
read_bindings committed (field request_id value rest) = do
  guard (is_some (get request_id committed)) bad_binding
  controller_key_id ← or_raise (as_string value) bad_binding
  guard (is_named controller_key_id) bad_binding
  bindings ← read_bindings committed rest
  ok ((request_id, controller_key_id) ∷ bindings)

abbrev bad_result : Error
bad_result = value_error "invalid persisted remote protocol result"

abbrev pub is_option : Option String → String → Bool
is_option none s = false
is_option (some t) s = s == t

-- A key that signs as it says, and whose verifier accepts what is kept.
is_ours : Option Key → String → String → Json → String → Bool
is_ours none issuer_id algorithm document sig = false
is_ours (some key) issuer_id algorithm document sig = elim key.verifier [
  | none ↦ false
  | some verify ↦
      issuer_id == key.key_id && is_option key.algorithm algorithm && verify document sig
]

abbrev result_keys : List String
result_keys =
    "request_digest" ∷ "resource_id" ∷ "controller_id" ∷ "controller_key_id" ∷ "fencing_token"
    ∷ "issued_at" ∷ "expires_at" ∷ "issuer_id" ∷ "algorithm" ∷ "signature" ∷ []

unfoldable pub read_result : Option Key → Option String → Lease → Json → Result RemoteResult
unfolding is_ours
read_result key bound lease raw = do
  fields ← object_with result_keys raw bad_result
  request_digest ← entry as_string "request_digest" fields bad_result
  resource_id ← entry as_string "resource_id" fields bad_result
  controller_id ← entry as_string "controller_id" fields bad_result
  controller_key_id ← entry as_string "controller_key_id" fields bad_result
  fencing_token ← entry as_natural "fencing_token" fields bad_result
  issued_at ← entry as_compared "issued_at" fields bad_result
  expires_at ← entry as_compared "expires_at" fields bad_result
  issuer_id ← entry as_string "issuer_id" fields bad_result
  algorithm ← entry as_string "algorithm" fields bad_result
  sig ← entry as_string "signature" fields bad_result
  let result : RemoteResult = record {
    request_digest = request_digest;
    resource_id = resource_id;
    controller_id = controller_id;
    controller_key_id = controller_key_id;
    fencing_token = fencing_token;
    issued_at = finite issued_at;
    expires_at = finite expires_at;
    issuer_id = issuer_id;
    algorithm = algorithm;
    signature = sig;
  }
  guard
      (is_digest request_digest
        && resource_id == lease.resource_id
        && controller_id == lease.controller_id
        && is_option bound controller_key_id
        && eqb fencing_token lease.fencing_token
        && same_time issued_at lease.issued_at
        && same_time expires_at lease.expires_at
        && is_ours key issuer_id algorithm (canonical_result result) sig)
      bad_result
  ok result

unfoldable pub read_results :
    Option Key → Dict Committed → Dict String → Fields → Result (Dict RemoteResult)
unfolding read_result
read_results key committed bindings end = ok []
read_results key committed bindings (field request_id raw rest) = do
  request ← or_raise (get request_id committed) bad_result
  result ← read_result key (get request_id bindings) request.1 raw
  results ← read_results key committed bindings rest
  ok ((request_id, result) ∷ results)

abbrev bad_directive : Error
bad_directive = value_error "invalid persisted handoff directive"

abbrev directive_keys : List String
directive_keys =
    "request_id" ∷ "device_id" ∷ "resource_id" ∷ "previous_controller_id" ∷ "previous_fencing_token"
    ∷ "controller_id" ∷ "fencing_token" ∷ "issued_at" ∷ "expires_at" ∷ "issuer_id" ∷ "algorithm"
    ∷ "signature" ∷ []

is_directed : Service → String → Directive → Time → Time → Committed → Bool
is_directed v request_id d issued expires (acquired r c now ttl, lease) = false
is_directed v request_id d issued expires (handed r c t i e n now ttl, lease) =
    d.request_id == request_id
    && is_named d.device_id
    && is_option (get lease.resource_id v.devices) d.device_id
    && d.resource_id == lease.resource_id
    && d.previous_controller_id == c
    && eqb d.previous_fencing_token t
    && d.controller_id == lease.controller_id
    && eqb d.fencing_token lease.fencing_token
    && eqb d.fencing_token (d.previous_fencing_token + 1)
    && same_time issued lease.issued_at
    && same_time expires lease.expires_at
    && d.algorithm == "ECDSA_P256_SHA256"

-- The key's own algorithm is not asked for here.
is_our_directive : Option Key → Directive → Bool
is_our_directive none d = false
is_our_directive (some key) d = elim key.verifier [
  | none ↦ false
  | some verify ↦ d.issuer_id == key.key_id && verify (canonical_directive d) d.signature
]

unfoldable pub read_directive : Service → String → Committed → Json → Result Directive
unfolding is_directed is_our_directive
read_directive v request_id request raw = do
  fields ← object_with directive_keys raw bad_directive
  named ← entry as_string "request_id" fields bad_directive
  device_id ← entry as_string "device_id" fields bad_directive
  resource_id ← entry as_string "resource_id" fields bad_directive
  previous_controller_id ← entry as_string "previous_controller_id" fields bad_directive
  previous_token ← entry as_natural "previous_fencing_token" fields bad_directive
  controller_id ← entry as_string "controller_id" fields bad_directive
  fencing_token ← entry as_natural "fencing_token" fields bad_directive
  issued_at ← entry as_compared "issued_at" fields bad_directive
  expires_at ← entry as_compared "expires_at" fields bad_directive
  issuer_id ← entry as_string "issuer_id" fields bad_directive
  algorithm ← entry as_string "algorithm" fields bad_directive
  sig ← entry as_string "signature" fields bad_directive
  let directive : Directive = record {
    request_id = named;
    device_id = device_id;
    resource_id = resource_id;
    previous_controller_id = previous_controller_id;
    previous_fencing_token = previous_token;
    controller_id = controller_id;
    fencing_token = fencing_token;
    issued_at = finite issued_at;
    expires_at = finite expires_at;
    issuer_id = issuer_id;
    algorithm = algorithm;
    signature = sig;
  }
  guard
      (is_directed v request_id directive issued_at expires_at request
        && is_our_directive v.signing_key directive)
      bad_directive
  ok directive

unfoldable pub read_directives : Service → Dict Committed → Fields → Result (Dict Directive)
unfolding read_directive
read_directives v committed end = ok []
read_directives v committed (field request_id raw rest) = do
  request ← or_raise (get request_id committed) bad_directive
  directive ← read_directive v request_id request raw
  directives ← read_directives v committed rest
  ok ((request_id, directive) ∷ directives)

-- What a load puts in the place of the memory.
pub record Loaded : Type 0 where
  pub leases : Dict Lease × Dict ℕ
  pub committed : Dict Committed
  pub bindings : Dict String
  pub results : Dict RemoteResult
  pub directives : Dict Directive

unfoldable pub read_state : Service → Json → Result Loaded
unfolding read_parts read_resources read_requests read_bindings read_results read_directives
read_state v raw = do
  parts ← read_parts raw
  leases ← read_resources parts.resources
  committed ← read_requests leases.1 parts.requests
  bindings ← read_bindings committed parts.bindings
  results ← read_results v.signing_key committed bindings parts.results
  directives ← read_directives v committed parts.directives
  ok (record {
    leases = leases;
    committed = committed;
    bindings = bindings;
    results = results;
    directives = directives;
  })
