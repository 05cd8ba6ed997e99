-- ===== src/RemoteAuthority/Codec/Written.antt =====
-- Reading back the requests that control/remote_atomic_controller_authority.py has saved.
use audio_bodyguard_alpha.Prelude.{
  ℕ, ◌≡◌, refl, sym, ap, ◌∙◌, inl, inr, [], ◌∷◌, Result-cases, ok, ok_inj, >>=-ok, arith,
}
use audio_bodyguard_alpha.Prelude.Time.{same_time}
use audio_bodyguard_alpha.Prelude.Dict.{Dict}
use audio_bodyguard_alpha.Json.{Json, str, Fields, field, end, finite, non_finite, has_keys}
use audio_bodyguard_alpha.Lease.{Lease}
use audio_bodyguard_alpha.RemoteAuthority.{
  Fingerprint, acquired, handed, Service, Committed, Remote,
}
use audio_bodyguard_alpha.RemoteAuthority.Codec.{
  Parts, lease_record, write_fingerprint, write_request, write_dict, write_parts, write_state,
  write_resources, result_record, directive_record,
}
use audio_bodyguard_alpha.RemoteAuthority.Codec.Reading.{
  parse_lease, read_fingerprint, read_request, read_requests, read_parts, read_resources,
  as_compared, is_version,
}
use audio_bodyguard_alpha.RemoteAuthority.Codec.Signed.{
  Loaded, read_state, read_bindings, read_results, read_directives,
}

parse_lease-lease_record : (l m : Lease) → parse_lease (lease_record l) ≡ ok m → l ≡ m
unfolding parse_lease lease_record has_keys
parse_lease-lease_record l m h = ground arith

read_fingerprint-write :
    (l : Lease) (p q : Fingerprint) → read_fingerprint l (write_fingerprint p) ≡ ok q → p ≡ q
unfolding read_fingerprint write_fingerprint as_compared
read_fingerprint-write l (acquired r c (finite now) (finite ttl)) q h = ground arith
read_fingerprint-write l (acquired r c (finite now) non_finite) q h = ground arith
read_fingerprint-write l (acquired r c non_finite ttl) q h = ground arith
read_fingerprint-write l (handed r c t i e n (finite now) (finite ttl)) q h = ground arith
read_fingerprint-write l (handed r c t i e n (finite now) non_finite) q h = ground arith
read_fingerprint-write l (handed r c t i e n non_finite ttl) q h = ground arith

read_request-write_request :
    (highest : Dict ℕ) (c d : Committed) → read_request highest (write_request c) ≡ ok d → c ≡ d
unfolding read_request write_request has_keys
read_request-write_request highest (p, l) d h = elim (Result-cases (parse_lease (lease_record l))) [
  | inr (e, bad) ↦ absurd (cc (rw (bad, read_request) at h))
  | inl (m, e) ↦ elim (Result-cases (read_fingerprint m (write_fingerprint p))) [
    | inr (x, bad) ↦ absurd (cc (rw (e, bad, read_request) at h))
    | inl (q, f) ↦
        let l≡m = parse_lease-lease_record l m e in
        let p≡q = read_fingerprint-write m p q f in
        let g = rw (e, f) at h in ground (arith, l≡m, p≡q)
  ]
]

read_requests-write_dict :
    (highest : Dict ℕ) (d d' : Dict Committed)
    → read_requests highest (write_dict write_request d) ≡ ok d'
    → d ≡ d'
unfolding read_requests write_dict
read_requests-write_dict highest [] d' h = ground arith
read_requests-write_dict highest ((k, c) ∷ d) d' h =
    elim (Result-cases (read_request highest (write_request c))) [
      | inr (e, bad) ↦ absurd (unfold write_dict in ground (arith, bad))
      | inl (b, e) ↦ elim (Result-cases (read_requests highest (write_dict write_request d))) [
        | inr (x, bad) ↦ absurd (unfold write_dict in ground (arith, e, bad))
        | inl (rest, f) ↦
            let c≡b = read_request-write_request highest c b e in
            let d≡rest = read_requests-write_dict highest d rest f in
            ground (arith, e, f, c≡b, d≡rest)
      ]
    ]

-- A document that was written has the form of one that can be read, with its parts.
read_parts-write_parts :
    (resources requests bindings results directives : Fields)
    → let p : Parts = record {
      resources = resources;
      requests = requests;
      bindings = bindings;
      results = results;
      directives = directives;
    } in
      read_parts (write_parts p) ≡ ok p
unfolding read_parts write_parts has_keys is_version as_compared same_time
read_parts-write_parts r q b end end = refl
read_parts-write_parts r q b (field k v fs) end = refl
read_parts-write_parts r q b end (field k v fs) = refl
read_parts-write_parts r q b (field k v fs) (field k' v' fs') = refl

-- What a load read of the requests.
read_state-committed :
    (v : Service) (raw : Json) (p : Parts) (l : Loaded)
    → read_parts raw ≡ ok p
    → read_state v raw ≡ ok l
    → (highest : Dict ℕ) × (read_requests highest p.requests ≡ ok l.committed)
unfolding read_state
read_state-committed v raw p l e h =
    let (leases, _, h1) = >>=-ok _ (read_resources p.resources) (rw (e, read_state) at h) in
    let (committed, f, h2) = >>=-ok _ (read_requests leases.1 p.requests) h1 in
    let (bindings, _, h3) = >>=-ok _ (read_bindings committed p.bindings) h2 in
    let (results, _, h4) = >>=-ok _ (read_results v.signing_key committed bindings p.results) h3 in
    let (directives, _, h5) = >>=-ok _ (read_directives v committed p.directives) h4 in
    (leases.1, f ∙ ap ok (ap (λ x. x.committed) (ok_inj h5)))

-- A state that could be written has the same requests when it is loaded.
pub committed-written :
    (v : Service) (s : Remote) (raw : Json) (l : Loaded)
    → write_state s ≡ ok raw
    → read_state v raw ≡ ok l
    → s.committed ≡ l.committed
unfolding write_state
committed-written v s raw l w h =
    let (resources, _, w1) =
      >>=-ok _ (write_resources s.authority.memory.active s.authority.memory.highest_tokens) w in
    let form =
      read_parts-write_parts resources (write_dict write_request s.committed)
        (write_dict str s.bindings) (write_dict result_record s.results)
        (write_dict directive_record s.directives) in
    let (highest, read) =
      read_state-committed v raw _ l (ap read_parts (sym (ok_inj w1)) ∙ form) h in
    read_requests-write_dict highest s.committed l.committed read
