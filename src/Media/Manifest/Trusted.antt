-- ===== src/Media/Manifest/Trusted.antt =====
-- The verifier of control/media_control_capabilities.py against its issuer.
use audio_bodyguard_alpha.Prelude.{
  ◌≡◌, refl, sym, ap, ◌∙◌, inl, inr, String, true, false, not, ◌==◌, eq_iff, eq_refl, ok, arith,
  Bool-cases, Result-cases, subst,
}
use audio_bodyguard_alpha.Prelude.Time.{Time, epoch, before}
use audio_bodyguard_alpha.Json.{Json, finite}
use audio_bodyguard_alpha.Evidence.{Hash}
use audio_bodyguard_alpha.Media.{named, finite_number}
use audio_bodyguard_alpha.Media.Manifest.{
  Manifest, SignedManifest, make_signed, canonical_signed, Issuer, issue, ManifestVerifier,
  verify_manifest,
}

-- What makes a signed manifest good for a verifier at a time.
pub record IsTrusted (hash : Hash) (v : ManifestVerifier) (s : SignedManifest) (now : Time)
    : Type 0 where
  pub clock : before now epoch ≡ false
  pub issuer : s.issuer_id ≡ v.issuer_id
  pub signed : v.verify (canonical_signed hash s) s.signature ≡ true
  pub protocol : s.protocol_version ≡ v.protocol_version
  pub domain : s.manifest.clock_domain_id ≡ v.clock_domain_id
  pub begun : before now s.manifest.issued_monotonic ≡ false
  pub unexpired : before now s.manifest.expires_monotonic ≡ true

-- A manifest that is verified is the signed one, and it is trusted.
pub verify_manifest-IsTrusted :
    (hash : Hash) (v : ManifestVerifier) (s : SignedManifest) (now : Time) (m : Manifest)
    → verify_manifest hash v s (finite now) ≡ ok m
    → IsTrusted hash v s now × (m ≡ s.manifest)
unfolding verify_manifest finite_number
verify_manifest-IsTrusted hash v s now m h = (
  record {
    clock = ground (arith, h);
    issuer = ground (arith, h, eq_iff s.issuer_id v.issuer_id);
    signed = ground (arith, h);
    protocol = ground (arith, h, eq_iff s.protocol_version v.protocol_version);
    domain = ground (arith, h, eq_iff s.manifest.clock_domain_id v.clock_domain_id);
    begun = ground (arith, h);
    unexpired = ground (arith, h);
  },
  ground (arith, h),
)

IsTrusted-verify_manifest :
    (hash : Hash) (v : ManifestVerifier) (s : SignedManifest) (now : Time)
    → IsTrusted hash v s now
    → verify_manifest hash v s (finite now) ≡ ok s.manifest
unfolding verify_manifest finite_number
IsTrusted-verify_manifest hash v s now t =
    rw
      (
        t.clock,
        t.signed,
        t.issuer,
        eq_refl v.issuer_id,
        t.protocol,
        eq_refl v.protocol_version,
        t.domain,
        eq_refl v.clock_domain_id,
        t.begun,
        t.unexpired,
      )
      refl

-- The document that an issuer signs.
abbrev signed_by : Issuer → Manifest → String → String → SignedManifest
signed_by i m nonce sig = record {
  manifest = m;
  protocol_version = i.protocol_version;
  issuer_id = i.issuer_id;
  nonce = nonce;
  signature = sig;
}

make_signed-eq :
    (m : Manifest) (i : Issuer) (nonce sig : String) (s : SignedManifest)
    → make_signed m i.protocol_version i.issuer_id nonce sig ≡ ok s
    → s ≡ signed_by i m nonce sig
unfolding make_signed named
make_signed-eq m i nonce sig s h = ground (arith, h)

issue-eq :
    (hash : Hash) (i : Issuer) (m : Manifest) (nonce : String) (s : SignedManifest)
    → issue hash i m nonce ≡ ok s
    → s ≡ signed_by i m nonce (i.sign (canonical_signed hash (signed_by i m nonce "")))
unfolding issue
issue-eq hash i m nonce s h =
    elim (Result-cases (make_signed m i.protocol_version i.issuer_id nonce "")) [
      | inr (e, bad) ↦ cc (rw bad at h)
      | inl (u, fine) ↦ elim (Bool-cases (not (i.sign (canonical_signed hash u) == ""))) [
        | inr blank ↦ cc (rw (fine, blank) at h)
        | inl sealed ↦
            make_signed-eq m i nonce (i.sign (canonical_signed hash u)) s (rw (fine, sealed) at h)
            ∙ ap (λ x. signed_by i m nonce (i.sign (canonical_signed hash x)))
                (make_signed-eq m i nonce "" u fine)
      ]
    ]

-- A verifier of the same key, protocol and clock domain, whose `verify` accepts what the issuer signs, gives back
-- an issued manifest while it is valid.
pub verify_manifest-issue :
    (hash : Hash) (i : Issuer) (v : ManifestVerifier) (m : Manifest) (nonce : String)
    (s : SignedManifest) (now : Time)
    → issue hash i m nonce ≡ ok s
    → i.issuer_id ≡ v.issuer_id
    → i.protocol_version ≡ v.protocol_version
    → m.clock_domain_id ≡ v.clock_domain_id
    → ((document : Json) → v.verify document (i.sign document) ≡ true)
    → before now epoch ≡ false
    → before now m.issued_monotonic ≡ false
    → before now m.expires_monotonic ≡ true
    → verify_manifest hash v s (finite now) ≡ ok m
unfolding verify_manifest finite_number canonical_signed
verify_manifest-issue hash i v m nonce s now h same_key same_protocol same_domain accepts clock
      begun unexpired =
    let document = canonical_signed hash (signed_by i m nonce "") in
    let sealed = signed_by i m nonce (i.sign document) in
    let good : IsTrusted hash v sealed now = record {
      clock = clock;
      issuer = same_key;
      signed = accepts document;
      protocol = same_protocol;
      domain = same_domain;
      begun = begun;
      unexpired = unexpired;
    } in
    subst (λ x. verify_manifest hash v x (finite now) ≡ ok m) (sym (issue-eq hash i m nonce s h))
      (IsTrusted-verify_manifest hash v sealed now good)
