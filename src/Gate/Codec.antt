-- ===== src/Gate/Codec.antt =====
-- `_save_state` and `_load_state` of control/controller_authority_gate.py: the document of the
-- watermarks. The order of the keys on disk is not modelled.
use audio_bodyguard_alpha.Prelude.{
  ℕ, ◌<◌, ◌≡◌, refl, String, true, List, [], ◌∷◌, ltb, Result, ok, Error, value_error, ◌>>=◌, ◌>>◌,
  guard, or_raise, arith,
}
use audio_bodyguard_alpha.Prelude.Time.{pos}
use audio_bodyguard_alpha.Prelude.Text.{is_named}
use audio_bodyguard_alpha.Prelude.Dict.{Dict}
use audio_bodyguard_alpha.Json.{
  Json, Fields, int, obj, field, end, get_field, has_keys, as_object, as_natural, is_one,
}

encode_mark : ℕ → ℕ → Json
encode_mark fence sequence =
    obj
      (field "fencing_token" (int (pos fence)) (field "highest_sequence" (int (pos sequence)) end))

encode_fields : Dict (ℕ × ℕ) → Fields
encode_fields [] = end
encode_fields ((resource_id, (fence, sequence)) ∷ marks) =
    field resource_id (encode_mark fence sequence) (encode_fields marks)

unfoldable pub encode_marks : Dict (ℕ × ℕ) → Json
unfolding encode_mark encode_fields
encode_marks marks =
    obj (field "version" (int (pos 1)) (field "resources" (obj (encode_fields marks)) end))

abbrev bad_marks : Error
bad_marks = value_error "invalid controller command watermark state"

abbrev mark_keys : List String
mark_keys = "fencing_token" ∷ "highest_sequence" ∷ []

abbrev envelope_keys : List String
envelope_keys = "version" ∷ "resources" ∷ []

decode_mark : String → Json → Result (ℕ × ℕ)
decode_mark resource_id value = do
  guard (is_named resource_id) bad_marks
  fields ← or_raise (as_object value) bad_marks
  guard (has_keys mark_keys fields) bad_marks
  fencing ← or_raise (get_field "fencing_token" fields) bad_marks
  fence ← or_raise (as_natural fencing) bad_marks
  guard (ltb 0 fence) bad_marks
  highest ← or_raise (get_field "highest_sequence" fields) bad_marks
  sequence ← or_raise (as_natural highest) bad_marks
  guard (ltb 0 sequence) bad_marks
  ok (fence, sequence)

-- The keys of an object are distinct.
decode_fields : Fields → Result (Dict (ℕ × ℕ))
decode_fields end = ok []
decode_fields (field resource_id value rest) = do
  mark ← decode_mark resource_id value
  marks ← decode_fields rest
  ok ((resource_id, mark) ∷ marks)

unfoldable pub decode_marks : Json → Result (Dict (ℕ × ℕ))
unfolding decode_mark decode_fields is_one
decode_marks raw = do
  fields ← or_raise (as_object raw) bad_marks
  guard (has_keys envelope_keys fields) bad_marks
  number ← or_raise (get_field "version" fields) bad_marks
  guard (is_one number) bad_marks
  resources ← or_raise (get_field "resources" fields) bad_marks
  records ← or_raise (as_object resources) bad_marks
  decode_fields records

-- Every watermark is under a name, and both its numbers are positive.
abbrev pub Positive : Dict (ℕ × ℕ) → Type 0
Positive [] = Unit {0}
Positive ((r, (f, n)) ∷ marks) = (is_named r ≡ true) × (0 < f) × (0 < n) × Positive marks

decode_mark-encode_mark :
    (r : String) (f n : ℕ)
    → is_named r ≡ true
    → 0 < f
    → 0 < n
    → decode_mark r (encode_mark f n) ≡ ok (f, n)
unfolding decode_mark encode_mark has_keys
decode_mark-encode_mark r f n named hf hn = ground arith

decode_fields-encode_fields :
    (marks : Dict (ℕ × ℕ)) → Positive marks → decode_fields (encode_fields marks) ≡ ok marks
unfolding decode_fields encode_fields
decode_fields-encode_fields [] h = refl
decode_fields-encode_fields ((r, (f, n)) ∷ marks) h =
    rw (decode_mark-encode_mark r f n h.0 h.1 h.2, decode_fields-encode_fields marks h.3) refl

-- Loading what the gate has saved gives back the same watermarks.
pub decode_marks-encode_marks :
    (marks : Dict (ℕ × ℕ)) → Positive marks → decode_marks (encode_marks marks) ≡ ok marks
unfolding decode_marks encode_marks has_keys
decode_marks-encode_marks marks h = decode_fields-encode_fields marks h
