-- ===== src/Lease/Codec.antt =====
-- `_save_state` and `_load_state` of control/active_controller_lease.py: the document that is
-- written and the checks under which one is read. A set is written in the order of the list that
-- stands for it.
pub mod RoundTrip
use audio_bodyguard_alpha.Prelude.{
  ℕ, String, Bool, true, false, ◌&&◌, not, ◌==◌, Option, none, some, List, [], ◌∷◌, leb, ltb, eqb,
  if◌then◌else◌, Result, ok, err, value_error, other_error, ◌>>=◌, ◌>>◌, guard, or_raise, Error,
}
use audio_bodyguard_alpha.Prelude.Time.{pos, Time, before}
use audio_bodyguard_alpha.Prelude.Text.{is_named}
use audio_bodyguard_alpha.Prelude.Dict.{Dict, get}
use audio_bodyguard_alpha.Json.{
  Json, Items, Fields, nil, cons, str, int, float, arr, obj, field, end, finite, get_field,
  has_keys, as_object, as_array, as_string, as_natural, as_time,
}
use audio_bodyguard_alpha.Lease.{Lease, Authority, Nonce, nonce_used}

encode_record : Lease → ℕ → Json
encode_record lease highest = obj (
    field "controller_id" (str lease.controller_id) (
      field "fencing_token" (int (pos lease.fencing_token)) (
        field "issued_at" (float (finite lease.issued_at)) (
          field "expires_at" (float (finite lease.expires_at))
            (field "highest_token" (int (pos highest)) end)))))

-- `highest_tokens[resource_id]` raises for a resource without a token.
encode_resources : Dict Lease → Dict ℕ → Result Fields
unfolding encode_record
encode_resources [] highest = ok end
encode_resources ((resource_id, lease) ∷ active) highest = do
  token ← or_raise (get resource_id highest) (other_error "KeyError")
  rest ← encode_resources active highest
  ok (field resource_id (encode_record lease token) rest)

encode_nonces : List Nonce → Items
encode_nonces [] = nil
encode_nonces ((i, n) ∷ used) = cons (arr (cons (str i) (cons (str n) nil))) (encode_nonces used)

abbrev document : Fields → Items → Json
document resources used = obj (
    field "version" (int (pos 2))
      (field "resources" (obj resources) (field "used_reauthorization_nonces" (arr used) end)))

pub encode : Authority → Result Json
unfolding encode_resources encode_nonces
encode a = do
  resources ← encode_resources a.active a.highest_tokens
  ok (document resources (encode_nonces a.used_nonces))

abbrev bad_state : Error
bad_state = value_error "invalid active controller lease state"

abbrev bad_record : Error
bad_record = value_error "invalid active controller lease record"

abbrev bad_nonce : Error
bad_nonce = value_error "invalid controller reauthorization nonce record"

abbrev record_keys : List String
record_keys = "controller_id" ∷ "fencing_token" ∷ "issued_at" ∷ "expires_at" ∷ "highest_token" ∷ []

-- One entry of `resources`, with the highest token.
decode_record : String → Json → Result (Lease × ℕ)
decode_record resource_id value = do
  guard (is_named resource_id) bad_record
  fields ← or_raise (as_object value) bad_record
  guard (has_keys record_keys fields) bad_record
  controller ← or_raise (get_field "controller_id" fields) bad_record
  controller_id ← or_raise (as_string controller) bad_record
  guard (is_named controller_id) bad_record
  fencing ← or_raise (get_field "fencing_token" fields) bad_record
  fencing_token ← or_raise (as_natural fencing) bad_record
  guard (ltb 0 fencing_token) bad_record
  highest ← or_raise (get_field "highest_token" fields) bad_record
  highest_token ← or_raise (as_natural highest) bad_record
  guard (leb fencing_token highest_token) bad_record
  issued ← or_raise (get_field "issued_at" fields) bad_record
  issued_at ← or_raise (as_time issued) bad_record
  expires ← or_raise (get_field "expires_at" fields) bad_record
  expires_at ← or_raise (as_time expires) bad_record
  guard (before issued_at expires_at) bad_record
  ok (
    record {
      resource_id = resource_id;
      controller_id = controller_id;
      fencing_token = fencing_token;
      issued_at = issued_at;
      expires_at = expires_at;
    },
    highest_token,
  )

-- The loop over `resources`, which fills both dicts. The keys of an object are distinct.
decode_resources : Fields → Result (Dict Lease × Dict ℕ)
decode_resources end = ok ([], [])
decode_resources (field resource_id value rest) = do
  entry ← decode_record resource_id value
  loaded ← decode_resources rest
  ok ((resource_id, entry.0) ∷ loaded.0, (resource_id, entry.1) ∷ loaded.1)

decode_nonce : Json → Result Nonce
decode_nonce (arr (cons (str i) (cons (str n) nil))) =
    if is_named i && is_named n then ok (i, n) else err bad_nonce
decode_nonce _ = err bad_nonce

-- Every bad or repeated record raises alike, so a repetition is looked for among the later ones.
decode_nonces : Items → Result (List Nonce)
decode_nonces nil = ok []
decode_nonces (cons value rest) = do
  nonce ← decode_nonce value
  used ← decode_nonces rest
  guard (not (nonce_used nonce used)) bad_nonce
  ok (nonce ∷ used)

abbrev keys_v1 : List String
keys_v1 = "version" ∷ "resources" ∷ []

abbrev keys_v2 : List String
keys_v2 = "version" ∷ "resources" ∷ "used_reauthorization_nonces" ∷ []

-- The two envelopes, by version: the resources, and the records of the nonces.
envelope : ℕ → Fields → Result (Fields × Items)
envelope version fields =
    if eqb version 1 && has_keys keys_v1 fields
    then (do
      resources ← or_raise (get_field "resources" fields) bad_state
      records ← or_raise (as_object resources) bad_state
      ok (records, nil))
    else if eqb version 2 && has_keys keys_v2 fields
    then (do
      resources ← or_raise (get_field "resources" fields) bad_state
      records ← or_raise (as_object resources) bad_state
      nonces ← or_raise (get_field "used_reauthorization_nonces" fields) bad_state
      used ← or_raise (as_array nonces) bad_state
      ok (records, used))
    else err bad_state

pub decode : Json → Result Authority
unfolding decode_record decode_resources decode_nonce decode_nonces envelope
decode raw = do
  fields ← or_raise (as_object raw) bad_state
  number ← or_raise (get_field "version" fields) bad_state
  version ← or_raise (as_natural number) bad_state
  parts ← envelope version fields
  used_nonces ← decode_nonces parts.1
  loaded ← decode_resources parts.0
  ok (record { active = loaded.0; highest_tokens = loaded.1; used_nonces = used_nonces })
