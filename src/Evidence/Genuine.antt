-- ===== src/Evidence/Genuine.antt =====
-- What the verifiers of control/controller_lease_grant.py and control/remote_controller_protocol.py
-- have checked of what they accept.
use audio_bodyguard_alpha.Prelude.{◌<◌, ◌≡◌, eq_iff, refl, true, false, Option, none, some, arith}
use audio_bodyguard_alpha.Prelude.Time.{Time, before, add}
use audio_bodyguard_alpha.Prelude.Text.{is_named}
use audio_bodyguard_alpha.Prelude.Dict.{Dict, get}
use audio_bodyguard_alpha.Json.{Number, finite, non_finite}
use audio_bodyguard_alpha.Lease.{Verifier}
use audio_bodyguard_alpha.Evidence.{Hash}
use audio_bodyguard_alpha.Evidence.LeaseGrant.{
  LeaseGrant, canonical_lease_grant, granted, judge_signature, judge_grant, validate_grant,
}
use audio_bodyguard_alpha.Evidence.Remote.{
  AtomicRequest, RemoteResult, canonical_result, KeyVerifier, accepted, judge_bounds, judge_signed,
  judge_result, is_complete, answers, validate_result,
}

pub record IsGenuine (verifiers : Dict Verifier) (g : LeaseGrant) (now : Number) : Type 0 where
  pub clock : Time
  pub issued : Time
  pub expires : Time
  pub verifier : Verifier
  pub now_finite : now ≡ finite clock
  pub issued_at : g.issued_at ≡ finite issued
  pub expires_at : g.expires_at ≡ finite expires
  pub trusted : get g.issuer_id verifiers ≡ some verifier
  pub signed : verifier (canonical_lease_grant g) g.signature ≡ true
  pub resource : is_named g.resource_id ≡ true
  pub positive : 0 < g.fencing_token
  pub begun : before clock issued ≡ false
  pub running : before clock expires ≡ true

judge_signature-granted :
    (o : Option Verifier) (g : LeaseGrant) (now issued expires : Time)
    → judge_signature o g now issued expires ≡ granted
    → (v : Verifier) × (o ≡ some v)
      × (v (canonical_lease_grant g) g.signature ≡ true)
      × (before now issued ≡ false)
      × (before now expires ≡ true)
unfolding judge_signature
judge_signature-granted none g now issued expires h = absurd (cc)
judge_signature-granted (some v) g now issued expires h =
    (v, refl, ground arith, ground arith, ground arith)

judge_grant-granted :
    (verifiers : Dict Verifier) (g : LeaseGrant) (now issued expires : Time)
    → judge_grant verifiers g (finite now) (finite issued) (finite expires) ≡ granted
    → (is_named g.resource_id ≡ true)
      × (0 < g.fencing_token)
      × (judge_signature (get g.issuer_id verifiers) g now issued expires ≡ granted)
unfolding judge_grant
judge_grant-granted verifiers g now issued expires h = ground arith

by_clocks :
    (verifiers : Dict Verifier) (g : LeaseGrant) (now i e : Number)
    → g.issued_at ≡ i
    → g.expires_at ≡ e
    → judge_grant verifiers g now i e ≡ granted
    → IsGenuine verifiers g now
unfolding judge_grant
by_clocks verifiers g (finite now) (finite issued) (finite expires) at_i at_e h =
    let (named, positive, signed) = judge_grant-granted verifiers g now issued expires h in
    let (v, trusted, good, begun, running) =
      judge_signature-granted (get g.issuer_id verifiers) g now issued expires signed in
    record {
      clock = now;
      issued = issued;
      expires = expires;
      verifier = v;
      now_finite = refl;
      issued_at = at_i;
      expires_at = at_e;
      trusted = trusted;
      signed = good;
      resource = named;
      positive = positive;
      begun = begun;
      running = running;
    }
by_clocks verifiers g (finite now) (finite issued) non_finite at_i at_e h = absurd (cc)
by_clocks verifiers g (finite now) non_finite e at_i at_e h = absurd (cc)
by_clocks verifiers g non_finite i e at_i at_e h = absurd (cc)

-- A grant is accepted only if a trusted issuer has signed it, it names a resource and a positive token,
-- and the finite current time lies in its window.
pub validate_grant-IsGenuine :
    (verifiers : Dict Verifier) (g : LeaseGrant) (now : Number)
    → validate_grant verifiers g now ≡ granted
    → IsGenuine verifiers g now
unfolding validate_grant
validate_grant-IsGenuine verifiers g now h =
    by_clocks verifiers g now g.issued_at g.expires_at refl refl h

-- What an accepted result has shown against its request.
pub record IsAnswer (hash : Hash) (verifiers : Dict KeyVerifier) (q : AtomicRequest)
    (r : RemoteResult) (now : Number) : Type 0 where
  pub clock : Time
  pub issued : Time
  pub expires : Time
  pub ttl : Time
  pub now_finite : now ≡ finite clock
  pub issued_at : r.issued_at ≡ finite issued
  pub expires_at : r.expires_at ≡ finite expires
  pub verifier : KeyVerifier
  pub trusted : get r.issuer_id verifiers ≡ some verifier
  pub algorithm : r.algorithm ≡ verifier.algorithm
  pub signed : verifier.verify (canonical_result r) r.signature ≡ true
  pub requested : q.requested_ttl_seconds ≡ finite ttl
  pub complete : is_complete q r ≡ true
  pub answered : answers hash q r ≡ true
  pub positive : 0 < r.fencing_token
  pub above : q.current_fencing_token < r.fencing_token
  pub bounded : before (add issued ttl) expires ≡ false
  pub begun : before clock issued ≡ false
  pub running : before clock expires ≡ true

judge_signed-accepted :
    (o : Option KeyVerifier) (q : AtomicRequest) (r : RemoteResult) (now issued expires ttl : Time)
    → judge_signed o q r now issued expires ttl ≡ accepted
    → (v : KeyVerifier) × (o ≡ some v)
      × (r.algorithm ≡ v.algorithm)
      × (v.verify (canonical_result r) r.signature ≡ true)
      × (judge_bounds q r now issued expires ttl ≡ accepted)
unfolding judge_signed
judge_signed-accepted none q r now issued expires ttl h = absurd (cc)
judge_signed-accepted (some v) q r now issued expires ttl h =
    (v, refl, ground (arith, eq_iff r.algorithm v.algorithm), ground arith, ground arith)

judge_bounds-accepted :
    (q : AtomicRequest) (r : RemoteResult) (now issued expires ttl : Time)
    → judge_bounds q r now issued expires ttl ≡ accepted
    → (q.current_fencing_token < r.fencing_token)
      × (before (add issued ttl) expires ≡ false)
      × (before now issued ≡ false)
      × (before now expires ≡ true)
unfolding judge_bounds
judge_bounds-accepted q r now issued expires ttl h = ground arith

judge_result-accepted :
    (hash : Hash) (verifiers : Dict KeyVerifier) (q : AtomicRequest) (r : RemoteResult)
    → (now ttl issued expires : Time)
    → judge_result hash verifiers q r (finite now) (finite ttl) (finite issued) (finite expires)
      ≡ accepted
    → (is_complete q r ≡ true)
      × (answers hash q r ≡ true)
      × (0 < r.fencing_token)
      × (judge_signed (get r.issuer_id verifiers) q r now issued expires ttl ≡ accepted)
unfolding judge_result
judge_result-accepted hash verifiers q r now ttl issued expires h = ground arith

by_remote_clocks :
    (hash : Hash) (verifiers : Dict KeyVerifier) (q : AtomicRequest) (r : RemoteResult)
    → (now t i e : Number) → q.requested_ttl_seconds ≡ t
    → r.issued_at ≡ i
    → r.expires_at ≡ e
    → judge_result hash verifiers q r now t i e ≡ accepted
    → IsAnswer hash verifiers q r now
unfolding judge_result
by_remote_clocks hash verifiers q r (finite now) (finite ttl) (finite issued) (finite expires) at_t
      at_i at_e h =
    let (complete, answered, positive, signed) =
      judge_result-accepted hash verifiers q r now ttl issued expires h in
    let (v, trusted, algorithm, good, bounds) =
      judge_signed-accepted (get r.issuer_id verifiers) q r now issued expires ttl signed in
    let (above, bounded, begun, running) =
      judge_bounds-accepted q r now issued expires ttl bounds in
    record {
      clock = now;
      issued = issued;
      expires = expires;
      ttl = ttl;
      now_finite = refl;
      issued_at = at_i;
      expires_at = at_e;
      verifier = v;
      trusted = trusted;
      algorithm = algorithm;
      signed = good;
      requested = at_t;
      complete = complete;
      answered = answered;
      positive = positive;
      above = above;
      bounded = bounded;
      begun = begun;
      running = running;
    }
by_remote_clocks hash verifiers q r (finite now) (finite t) (finite i) non_finite at_t at_i at_e h =
    absurd (cc)
by_remote_clocks hash verifiers q r (finite now) (finite t) non_finite e at_t at_i at_e h =
    absurd (cc)
by_remote_clocks hash verifiers q r (finite now) non_finite i e at_t at_i at_e h = absurd (cc)
by_remote_clocks hash verifiers q r non_finite t i e at_t at_i at_e h = absurd (cc)

-- A remote result is accepted only if a trusted issuer has signed it with its algorithm, all identifiers
-- are named, it answers the very request, its token is above the one that the request named, it lasts
-- no longer than was requested, and the finite current time lies in its window.
pub validate_result-IsAnswer :
    (hash : Hash) (verifiers : Dict KeyVerifier) (q : AtomicRequest) (r : RemoteResult)
    (now : Number)
    → validate_result hash verifiers q r now ≡ accepted
    → IsAnswer hash verifiers q r now
unfolding validate_result
validate_result-IsAnswer hash verifiers q r now h =
    by_remote_clocks hash verifiers q r now q.requested_ttl_seconds r.issued_at r.expires_at refl
      refl refl h

pub IsAnswer-named :
    (hash : Hash) (verifiers : Dict KeyVerifier) (q : AtomicRequest) (r : RemoteResult)
    (now : Number)
    → IsAnswer hash verifiers q r now
    → is_named r.resource_id ≡ true
unfolding is_complete
IsAnswer-named hash verifiers q r now a = named a.complete
  where
    named : is_complete q r ≡ true → is_named r.resource_id ≡ true
    named h = ground arith
