-- ===== src/Fence/Codec/RoundTrip.antt =====
-- What is read from the documents of device_fabric/controller_fence_store.py.
use audio_bodyguard_alpha.Prelude.{
  ℕ, ◌<◌, ◌≡◌, refl, String, Bool, true, false, ◌&&◌, [], ◌∷◌, Result, ok, Error, ◌>>=◌, ◌>>◌,
  guard, arith, ap, inl, inr, Bool-cases, Result-cases, ok_inj, subst,
}
use audio_bodyguard_alpha.Prelude.Time.{pos}
use audio_bodyguard_alpha.Prelude.Text.{is_named}
use audio_bodyguard_alpha.Json.{Json, Fields, int, str, obj, field, end, has_keys, is_true}
use audio_bodyguard_alpha.Fence.Codec.{
  parse_record, parse_fields, encode_fields, read_v2, read_v3, read_legacy, field_or_null,
  is_version, bad_envelope, keys_v2, keys_v3, Entry, Records, parse_records, read_envelope,
  encode_records, encode_envelope, Valid,
}

parse_record-encode :
    (r c : String) (t : ℕ)
    → is_named r ≡ true
    → 0 < t
    → is_named c ≡ true
    → parse_record r (obj (field "token" (int (pos t)) (field "controller_id" (str c) end)))
      ≡ ok (t, c)
unfolding parse_record
parse_record-encode r c t hr ht hc = ground arith

parse_fields-encode_fields :
    (records : Records) → Valid records → parse_fields (encode_fields records) ≡ ok records
unfolding parse_fields encode_fields
parse_fields-encode_fields [] h = refl
parse_fields-encode_fields ((r, (t, c)) ∷ records) h =
    rw (parse_record-encode r c t h.0 h.1 h.2, parse_fields-encode_fields records h.3) refl

pub parse_records-encode_records :
    (records : Records) → Valid records → parse_records (encode_records records) ≡ ok records
unfolding parse_records encode_records
parse_records-encode_records records h = parse_fields-encode_fields records h

-- Reading an envelope gives back its records, and asks for the anchors that it was saved with.
pub read_envelope-encode_envelope :
    (monotonic : Bool) (records : Records)
    → Valid records
    → read_envelope (encode_envelope monotonic records) ≡ ok (records, true, monotonic)
unfolding read_envelope encode_envelope has_keys read_v2 read_v3 field_or_null is_version
read_envelope-encode_envelope false records h = rw (parse_records-encode_records records h) refl
read_envelope-encode_envelope true records h = rw (parse_records-encode_records records h) refl

parse_record-Valid :
    (r : String) (value : Json) (e : Entry)
    → parse_record r value ≡ ok e
    → (is_named r ≡ true) × (0 < e.0) × (is_named e.1 ≡ true)
unfolding parse_record
parse_record-Valid r value e h = ground arith

parse_fields-Valid :
    (fs : Fields) (records : Records) → parse_fields fs ≡ ok records → Valid records
unfolding parse_fields
parse_fields-Valid end records h = subst Valid (ok_inj h) tt
parse_fields-Valid (field r value rest) records h = elim (Result-cases (parse_record r value)) [
  | inr (e, bad) ↦ cc (rw bad at h)
  | inl (entry, good) ↦ elim (Result-cases (parse_fields rest)) [
    | inr (e, bad) ↦ cc (rw (good, bad) at h)
    | inl (others, fine) ↦
        let v = parse_record-Valid r value entry good in
        subst Valid (ok_inj (rw (good, fine) at h))
          (v.0, v.1, v.2, parse_fields-Valid rest others fine)
  ]
]

pub parse_records-Valid :
    (raw : Json) (records : Records) → parse_records raw ≡ ok records → Valid records
unfolding parse_records
parse_records-Valid (obj fs) records h = parse_fields-Valid fs records h
parse_records-Valid _ records h = cc

abbrev checked : Bool → Error → Json → Bool × Bool → Result (Records × Bool × Bool)
checked allowed e raw x = do guard allowed e; records ← parse_records raw; ok (records, x.0, x.1)

parsed-Valid :
    (allowed : Bool) (e : Error) (raw : Json) (records : Records) (flags x : Bool × Bool)
    → checked allowed e raw x ≡ ok (records, flags.0, flags.1)
    → Valid records
parsed-Valid false e raw records flags x h = cc
parsed-Valid true e raw records flags x h = elim (Result-cases (parse_records raw)) [
  | inr (e', bad) ↦ cc (rw bad at h)
  | inl (rs, fine) ↦
      subst Valid (ap (λ p. p.0) (ok_inj (rw fine at h))) (parse_records-Valid raw rs fine)
]

read_fields-Valid :
    (fs : Fields) (records : Records) (flags : Bool × Bool)
    → read_envelope (obj fs) ≡ ok (records, flags.0, flags.1)
    → Valid records
unfolding read_envelope read_v2 read_v3 read_legacy
read_fields-Valid fs records flags h = elim (Bool-cases (has_keys keys_v2 fs)) [
  | inl two ↦
      parsed-Valid
        (is_version 2 (field_or_null "version" fs) && is_true (field_or_null "anchor_required" fs))
        bad_envelope (field_or_null "resources" fs) records flags (true, false) (rw two at h)
  | inr other ↦ elim (Bool-cases (has_keys keys_v3 fs)) [
    | inl three ↦
        parsed-Valid
          (is_version 3 (field_or_null "version" fs)
            && is_true (field_or_null "anchor_required" fs)
            && is_true (field_or_null "monotonic_required" fs))
          bad_envelope (field_or_null "resources" fs) records flags (true, true)
          (rw (other, three) at h)
    | inr legacy ↦
        parsed-Valid true bad_envelope (obj fs) records flags (false, false)
          (rw (other, legacy) at h)
  ]
]

pub read_envelope-Valid :
    (raw : Json) (records : Records) (flags : Bool × Bool)
    → read_envelope raw ≡ ok (records, flags.0, flags.1)
    → Valid records
unfolding read_envelope read_legacy parse_records
read_envelope-Valid (obj fs) records flags h = read_fields-Valid fs records flags h
read_envelope-Valid _ records flags h = cc
