-- ===== src/Lease/Codec/RoundTrip.antt =====
-- Reading back what control/active_controller_lease.py has saved.
use audio_bodyguard_alpha.Prelude.{
  ℕ, ◌≡◌, refl, ap, inl, inr, String, ◌==◌, eq_iff, eq_refl, none, some, List, [], ◌∷◌, ok, arith,
  Bool-cases,
}
use audio_bodyguard_alpha.Prelude.Dict.{Dict, get}
use audio_bodyguard_alpha.Json.{Json, Fields, field, end, has_keys}
use audio_bodyguard_alpha.Lease.{Lease, Authority, Nonce}
use audio_bodyguard_alpha.Lease.Codec.{
  document, encode, encode_record, encode_resources, encode_nonces, decode, decode_record,
  decode_resources, decode_nonce, decode_nonces, envelope,
}
use audio_bodyguard_alpha.Lease.Invariant.{IsEntry, Aligned, Distinct, IsSound}

decode_record-encode_record :
    (k : String) (l : Lease) (t : ℕ)
    → IsEntry k l t
    → decode_record k (encode_record l t) ≡ ok (l, t)
unfolding decode_record encode_record has_keys
decode_record-encode_record k l t e = ground arith

decode_nonces-encode_nonces :
    (used : List Nonce) → Distinct used → decode_nonces (encode_nonces used) ≡ ok used
unfolding decode_nonces encode_nonces decode_nonce
decode_nonces-encode_nonces [] d = refl
decode_nonces-encode_nonces (n ∷ used) d =
    rw (d.0, d.1, decode_nonces-encode_nonces used d.3, d.2) refl

-- `highest` has each token of `tokens`.
abbrev Covers : Dict ℕ → Dict ℕ → Type 0
Covers tokens highest = (k : String) (t : ℕ) → get k tokens ≡ some t → get k highest ≡ some t

Aligned-none :
    (k : String) (active : Dict Lease) (tokens : Dict ℕ)
    → Aligned active tokens
    → get k active ≡ none
    → get k tokens ≡ none
unfolding get
Aligned-none k [] [] h e = refl
Aligned-none k [] (x ∷ tokens) h e = absurd h
Aligned-none k (x ∷ active) [] h e = absurd h
Aligned-none k ((i, l) ∷ active) ((j, t) ∷ tokens) h e =
    ground (arith, eq_iff i k, eq_iff j k, h.0, Aligned-none k active tokens h.2)

Covers-tail :
    (j : String) (u : ℕ) (tokens highest : Dict ℕ)
    → get j tokens ≡ none
    → Covers ((j, u) ∷ tokens) highest
    → Covers tokens highest
unfolding get
Covers-tail j u tokens highest fresh c k t e = elim (Bool-cases (j == k)) [
  | inl hit ↦ absurd (cc (fresh, e, ap (λ x. get x tokens) ((eq_iff j k).0 hit)))
  | inr miss ↦ c k t (rw miss e)
]

decode-encode_resources :
    (active : Dict Lease) (tokens highest : Dict ℕ)
    → Aligned active tokens
    → Covers tokens highest
    → (fs : Fields) × (encode_resources active highest ≡ ok fs)
      × (decode_resources fs ≡ ok (active, tokens))
unfolding encode_resources decode_resources
decode-encode_resources [] [] highest h c = (end, refl, refl)
decode-encode_resources [] (x ∷ tokens) highest h c = absurd h
decode-encode_resources (x ∷ active) [] highest h c = absurd h
decode-encode_resources ((i, l) ∷ active) ((j, t) ∷ tokens) highest h c =
    let fresh = Aligned-none i active tokens h.2 h.3 in
    let fresh_j : get j tokens ≡ none = rw h.0 fresh in
    let at_i : get i highest ≡ some t = c i t (unfold get in rw h.0 (rw eq_refl refl)) in
    let (fs, written, back) =
      decode-encode_resources active tokens highest h.2
        (Covers-tail j t tokens highest fresh_j c) in
    (
      field i (encode_record l t) fs,
      rw (at_i, written) refl,
      rw (decode_record-encode_record i l t h.1, back) (rw h.0 refl),
    )

-- A sound state can be saved, and loading what was saved gives back the same leases, tokens and used
-- nonces.
pub decode-encode :
    (a : Authority) → IsSound a → (raw : Json) × (encode a ≡ ok raw) × (decode raw ≡ ok a)
unfolding encode decode envelope has_keys
decode-encode a v =
    let (fs, written, back) =
      decode-encode_resources a.active a.highest_tokens a.highest_tokens v.aligned (λ k t e. e) in
    (
      document fs (encode_nonces a.used_nonces),
      rw written refl,
      rw (decode_nonces-encode_nonces a.used_nonces v.distinct, back) refl,
    )
