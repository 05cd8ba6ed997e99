-- ===== src/Fence/Codec.antt =====
-- The documents of device_fabric/controller_fence_store.py: the records, their two envelopes and the
-- older form without one.
pub mod RoundTrip
use audio_bodyguard_alpha.Prelude.{
  ℕ, ◌<◌, ◌≡◌, refl, String, Bool, true, false, ◌&&◌, ◌==◌, none, some, List, [], ◌∷◌, ltb, eqb,
  if◌then◌else◌, Result, ok, Error, value_error, ◌>>=◌, ◌>>◌, guard, or_raise, arith, ap, inl, inr,
  Bool-cases, Result-cases, ok_inj, subst,
}
use audio_bodyguard_alpha.Prelude.Time.{pos}
use audio_bodyguard_alpha.Prelude.Text.{is_named}
use audio_bodyguard_alpha.Prelude.Dict.{Dict, put}
use audio_bodyguard_alpha.Json.{
  Json, Fields, null, bool, int, str, obj, field, end, get_field, has_keys, as_object, as_natural,
  as_string, is_true,
}

-- A token and its controller, for each resource.
abbrev pub Entry : Type 0
Entry = ℕ × String

abbrev pub Records : Type 0
Records = Dict Entry

abbrev bad_record : Error
bad_record = value_error "invalid controller fence record"

abbrev bad_envelope : Error
bad_envelope = value_error "invalid controller fence store envelope"

parse_record : String → Json → Result Entry
parse_record resource_id value = do
  guard (is_named resource_id) bad_record
  fields ← or_raise (as_object value) bad_record
  number ← or_raise (get_field "token" fields) bad_record
  token ← or_raise (as_natural number) bad_record
  guard (ltb 0 token) bad_record
  controller ← or_raise (get_field "controller_id" fields) bad_record
  controller_id ← or_raise (as_string controller) bad_record
  guard (is_named controller_id) bad_record
  ok (token, controller_id)

-- The keys of an object are distinct.
parse_fields : Fields → Result Records
parse_fields end = ok []
parse_fields (field resource_id value rest) = do
  entry ← parse_record resource_id value
  records ← parse_fields rest
  ok ((resource_id, entry) ∷ records)

unfoldable pub parse_records : Json → Result Records
unfolding parse_fields parse_record
parse_records raw = do
  fields ← or_raise (as_object raw) (value_error "controller fence store must contain an object")
  parse_fields fields

abbrev keys_v2 : List String
keys_v2 = "version" ∷ "anchor_required" ∷ "resources" ∷ []

abbrev keys_v3 : List String
keys_v3 = "version" ∷ "anchor_required" ∷ "monotonic_required" ∷ "resources" ∷ []

-- a key's value, null when it is missing
field_or_null : String → Fields → Json
field_or_null k fs = elim (get_field k fs) [ none ↦ null | some v ↦ v ]

is_version : ℕ → Json → Bool
is_version n raw = elim (as_natural raw) [ none ↦ false | some m ↦ eqb m n ]

read_v2 : Fields → Result (Records × Bool × Bool)
unfolding field_or_null is_version
read_v2 fs = do
  guard (is_version 2 (field_or_null "version" fs) && is_true (field_or_null "anchor_required" fs))
      bad_envelope
  records ← parse_records (field_or_null "resources" fs)
  ok (records, true, false)

read_v3 : Fields → Result (Records × Bool × Bool)
unfolding field_or_null is_version
read_v3 fs = do
  guard
      (is_version 3 (field_or_null "version" fs)
        && is_true (field_or_null "anchor_required" fs)
        && is_true (field_or_null "monotonic_required" fs))
      bad_envelope
  records ← parse_records (field_or_null "resources" fs)
  ok (records, true, true)

read_legacy : Json → Result (Records × Bool × Bool)
read_legacy raw = do records ← parse_records raw; ok (records, false, false)

-- `_read_primary`, of what the file holds: the records, and whether the two anchors are required.
unfoldable pub read_envelope : Json → Result (Records × Bool × Bool)
unfolding read_v2 read_v3 read_legacy
read_envelope raw = elim (as_object raw) [
  | none ↦ read_legacy raw
  | some fs ↦
      if has_keys keys_v2 fs
      then read_v2 fs
      else if has_keys keys_v3 fs
      then read_v3 fs
      else read_legacy raw
]

encode_fields : Records → Fields
encode_fields [] = end
encode_fields ((resource_id, (token, controller_id)) ∷ records) =
    field resource_id
      (obj (field "token" (int (pos token)) (field "controller_id" (str controller_id) end)))
      (encode_fields records)

unfoldable pub encode_records : Records → Json
unfolding encode_fields
encode_records records = obj (encode_fields records)

-- `_save`'s payload, with and without a trusted anchor
unfoldable pub encode_envelope : Bool → Records → Json
encode_envelope false records = obj (
    field "version" (int (pos 2))
      (field "anchor_required" (bool true) (field "resources" (encode_records records) end)))
encode_envelope true records = obj (
    field "version" (int (pos 3)) (
      field "anchor_required" (bool true)
        (field "monotonic_required" (bool true) (field "resources" (encode_records records) end))))

-- Every record is under a name, with a positive token and a named controller.
abbrev pub Valid : Records → Type 0
Valid [] = Unit {0}
Valid ((r, (t, c)) ∷ records) = (is_named r ≡ true) × (0 < t) × (is_named c ≡ true) × Valid records

pub Valid-put :
    (r c : String) (t : ℕ) (records : Records)
    → is_named r ≡ true
    → 0 < t
    → is_named c ≡ true
    → Valid records
    → Valid (put r (t, c) records)
unfolding put
Valid-put r c t [] hr ht hc h = (hr, ht, hc, tt)
Valid-put r c t ((k, (u, d)) ∷ records) hr ht hc h = elim (Bool-cases (k == r)) [
  | inl e ↦ rw e (h.0, ht, hc, h.3)
  | inr e ↦ rw e (h.0, h.1, h.2, Valid-put r c t records hr ht hc h.3)
]
