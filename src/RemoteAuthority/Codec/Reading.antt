-- ===== src/RemoteAuthority/Codec/Reading.antt =====
-- `_load_state` and `_parse_lease` of control/remote_atomic_controller_authority.py: the form of the
-- document, the leases and the committed requests.
use audio_bodyguard_alpha.Prelude.{
  ℕ, String, Bool, false, ◌&&◌, ◌||◌, ◌==◌, Option, none, some, List, [], ◌∷◌, leb, ltb, get_or,
  if◌then◌else◌, Result, ok, err, value_error, Error, ◌>>=◌, ◌>>◌, guard, or_raise,
}
use audio_bodyguard_alpha.Prelude.Time.{pos, Time, epoch, before, same_time, add}
use audio_bodyguard_alpha.Prelude.Text.{is_named}
use audio_bodyguard_alpha.Prelude.Dict.{Dict, get}
use audio_bodyguard_alpha.Json.{
  Json, Items, Fields, nil, cons, bool, field, end, finite, seconds, get_field, has_keys, as_object,
  as_array, as_string, as_natural, as_time,
}
use audio_bodyguard_alpha.Lease.{Lease}
use audio_bodyguard_alpha.RemoteAuthority.{Fingerprint, acquired, handed, Committed}
use audio_bodyguard_alpha.RemoteAuthority.Codec.{Parts}

-- A value that is only compared with a float: a Boolean counts as 1 or 0 there.
unfoldable pub as_compared : Json → Option Time
as_compared (bool b) = some (seconds (pos (if b then 1 else 0)))
as_compared j = as_time j

unfoldable pub is_version : ℕ → Json → Bool
unfolding as_compared
is_version n j = elim (as_compared j) [ none ↦ false | some t ↦ same_time t (seconds (pos n)) ]

abbrev bad_document : Error
bad_document = value_error "invalid remote controller authority state"

part : String → Fields → Result Fields
part key fields = do
  value ← or_raise (get_field key fields) bad_document
  or_raise (as_object value) bad_document

-- Whether a document is of version `n`, whose keys are these.
is_form : ℕ → List String → Fields → Bool
unfolding is_version
is_form n keys fields = elim (get_field "version" fields) [
  | none ↦ false
  | some j ↦
      has_keys ("version" ∷ "resources" ∷ "committed_requests" ∷ keys) fields && is_version n j
]

-- The test on the form of the document.
unfoldable pub read_parts : Json → Result Parts
unfolding part is_form
read_parts raw = do
  fields ← or_raise (as_object raw) bad_document
  let first = is_form 1 [] fields
  let second = is_form 2 ("grant_key_bindings" ∷ []) fields
  let third = is_form 3 ("grant_key_bindings" ∷ "protocol_results" ∷ []) fields
  let fourth =
      is_form 4 ("grant_key_bindings" ∷ "protocol_results" ∷ "handoff_directives" ∷ []) fields
  guard (first || second || third || fourth) bad_document
  resources ← part "resources" fields
  requests ← part "committed_requests" fields
  bindings ← if first then ok end else part "grant_key_bindings" fields
  results ← if first || second then ok end else part "protocol_results" fields
  directives ← if fourth then part "handoff_directives" fields else ok end
  ok (record {
    resources = resources;
    requests = requests;
    bindings = bindings;
    results = results;
    directives = directives;
  })

abbrev bad_lease : Error
bad_lease = value_error "invalid remote authority lease"

abbrev lease_keys : List String
lease_keys = "resource_id" ∷ "controller_id" ∷ "fencing_token" ∷ "issued_at" ∷ "expires_at" ∷ []

-- `raw[key]` of an object whose keys were checked, read as a value of its type
abbrev pub entry {ℓ} : {A : Type ℓ} → (Json → Option A) → String → Fields → Error → Result A
entry read key fields e = do value ← or_raise (get_field key fields) e; or_raise (read value) e

abbrev pub object_with : List String → Json → Error → Result Fields
object_with keys raw e = do
  fields ← or_raise (as_object raw) e
  guard (has_keys keys fields) e
  ok fields

unfoldable pub parse_lease : Json → Result Lease
parse_lease raw = do
  fields ← object_with lease_keys raw bad_lease
  resource_id ← entry as_string "resource_id" fields bad_lease
  controller_id ← entry as_string "controller_id" fields bad_lease
  fencing_token ← entry as_natural "fencing_token" fields bad_lease
  guard (is_named resource_id && is_named controller_id && ltb 0 fencing_token) bad_lease
  issued_at ← entry as_time "issued_at" fields bad_lease
  expires_at ← entry as_time "expires_at" fields bad_lease
  guard (before issued_at expires_at) bad_lease
  ok (record {
    resource_id = resource_id;
    controller_id = controller_id;
    fencing_token = fencing_token;
    issued_at = issued_at;
    expires_at = expires_at;
  })

abbrev bad_resource : Error
bad_resource = value_error "invalid remote controller authority resource"

-- The loop over `resources`, which fills both dicts. The keys of an object are distinct.
unfoldable pub read_resources : Fields → Result (Dict Lease × Dict ℕ)
unfolding parse_lease
read_resources end = ok ([], [])
read_resources (field resource_id raw rest) = do
  guard (is_named resource_id) bad_resource
  fields ← object_with ("lease" ∷ "highest_token" ∷ []) raw bad_resource
  value ← or_raise (get_field "lease" fields) bad_resource
  lease ← parse_lease value
  token ← entry as_natural "highest_token" fields bad_resource
  guard (lease.resource_id == resource_id && leb lease.fencing_token token) bad_resource
  loaded ← read_resources rest
  ok ((resource_id, lease) ∷ loaded.0, (resource_id, token) ∷ loaded.1)

abbrev bad_request : Error
bad_request = value_error "invalid remote authority request record"

-- The two times that end a list: the lease was issued at the first, for as long as the second.
read_times : Lease → Json → Json → Result (Time × Time)
read_times lease now ttl = do
  issued ← or_raise (as_compared now) bad_request
  duration ← or_raise (as_time ttl) bad_request
  guard
      (same_time issued lease.issued_at
        && before epoch duration
        && same_time lease.expires_at (add lease.issued_at duration))
      bad_request
  ok (issued, duration)

read_acquired : Lease → Json → Json → Json → Json → Json → Result Fingerprint
unfolding read_times
read_acquired lease kind resource controller now ttl = do
  operation ← or_raise (as_string kind) bad_request
  resource_id ← or_raise (as_string resource) bad_request
  controller_id ← or_raise (as_string controller) bad_request
  guard
      (operation == "acquire"
        && resource_id == lease.resource_id
        && controller_id == lease.controller_id)
      bad_request
  times ← read_times lease now ttl
  ok (acquired resource_id controller_id (finite times.0) (finite times.1))

read_handed :
    Lease → Json → Json → Json → Json → Json → Json → Json → Json → Json → Result Fingerprint
unfolding read_times
read_handed lease kind resource controller token issued expires next now ttl = do
  operation ← or_raise (as_string kind) bad_request
  resource_id ← or_raise (as_string resource) bad_request
  controller_id ← or_raise (as_string controller) bad_request
  fencing_token ← or_raise (as_natural token) bad_request
  issued_at ← or_raise (as_time issued) bad_request
  expires_at ← or_raise (as_time expires) bad_request
  next_id ← or_raise (as_string next) bad_request
  guard
      (operation == "handoff"
        && resource_id == lease.resource_id
        && is_named controller_id
        && ltb 0 fencing_token
        && before issued_at expires_at
        && next_id == lease.controller_id)
      bad_request
  times ← read_times lease now ttl
  ok (
      handed resource_id controller_id fencing_token issued_at expires_at next_id (finite times.0)
        (finite times.1))

-- By the length of the list.
unfoldable pub read_fingerprint : Lease → Items → Result Fingerprint
unfolding read_acquired read_handed
read_fingerprint lease (cons kind (cons r (cons c (cons now (cons ttl nil))))) =
    read_acquired lease kind r c now ttl
read_fingerprint lease
      (cons kind (cons r (cons c (cons t (cons i (cons e (cons n (cons now (cons ttl nil))))))))) =
    read_handed lease kind r c t i e n now ttl
read_fingerprint lease _ = err bad_request

unfoldable pub read_request : Dict ℕ → Json → Result Committed
unfolding parse_lease read_fingerprint
read_request highest raw = do
  fields ← object_with ("fingerprint" ∷ "lease" ∷ []) raw bad_request
  value ← or_raise (get_field "lease" fields) bad_request
  lease ← parse_lease value
  items ← entry as_array "fingerprint" fields bad_request
  fingerprint ← read_fingerprint lease items
  guard (leb lease.fencing_token (get_or (get lease.resource_id highest) 0)) bad_request
  ok (fingerprint, lease)

unfoldable pub read_requests : Dict ℕ → Fields → Result (Dict Committed)
unfolding read_request
read_requests highest end = ok []
read_requests highest (field request_id raw rest) = do
  guard (is_named request_id) bad_request
  request ← read_request highest raw
  committed ← read_requests highest rest
  ok ((request_id, request) ∷ committed)
