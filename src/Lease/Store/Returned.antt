-- ===== src/Lease/Store/Returned.antt =====
-- What a call of control/active_controller_lease.py that returned a lease did under the guard.
use audio_bodyguard_alpha.Prelude.{
  ◌≡◌, refl, ap, ◌∙◌, inl, inr, String, Bool, true, false, Result, Result-cases, ok, err, arith,
}
use audio_bodyguard_alpha.Prelude.Time.{Time}
use audio_bodyguard_alpha.Prelude.Dict.{Dict, get}
use audio_bodyguard_alpha.Json.{Number}
use audio_bodyguard_alpha.Lease.{
  is_current, Lease, Authority, Grant, Verifier, handoff_body, reauthorize_body,
}
use audio_bodyguard_alpha.Lease.Codec.RoundTrip.{decode-encode}
use audio_bodyguard_alpha.Lease.Invariant.{IsSound, Good, reauthorize_body-Good}
use audio_bodyguard_alpha.Lease.Store.{
  Store, Write, File, load_state, open_state, commit, exclusive, after, check_handoff,
  check_reauthorize, handoff, reauthorize,
}
use audio_bodyguard_alpha.Lease.Store.Calls.{Opens, IsMade, check_reauthorize-lasts}

commit-ok :
    (l m : Lease) (a : Authority) (w : Write) (s : Store) → (commit l a w s).0 ≡ ok m → l ≡ m
unfolding commit
commit-ok l m a w s h = ground arith

exclusive-ok :
    (body : Authority → Result (Lease × Authority)) (a : Authority) (w : Write) (s : Store)
    (l : Lease)
    → open_state s ≡ ok a
    → (exclusive body w s).0 ≡ ok l
    → (a' : Authority) × (body a ≡ ok (l, a'))
unfolding exclusive
exclusive-ok body a w s l o h = elim (Result-cases (body a)) [
  | inl ((m, a'), e) ↦ (
    a',
    e
        ∙ ap (λ x. ok (x, a'))
            (commit-ok m l a' w (record s { memory = a }) (rw (o, e, exclusive) at h)),
  )
  | inr (x, e) ↦ absurd (cc (rw (o, e, exclusive) at h))
]

after-ok {ℓ} :
    {A : Type ℓ} (check : Result A) (f : A → Store → Result Lease × Store) (s : Store) (l : Lease)
    → (after check f s).0 ≡ ok l
    → (x : A) × (check ≡ ok x) × ((f x s).0 ≡ ok l)
unfolding after
after-ok (ok x) f s l h = (x, refl, h)
after-ok (err e) f s l h = absurd (cc)

handoff_body-ok :
    (l m : Lease) (c : String) (t d : Time) (a a' : Authority)
    → handoff_body l c t d a ≡ ok (m, a')
    → (m.resource_id ≡ l.resource_id) × (is_current (get l.resource_id a.active) l ≡ true)
unfolding handoff_body
handoff_body-ok l m c t d a a' h = ground arith

pub handoff-ok :
    (a : Authority) (w : Write) (s : Store)
    → Opens s a
    → (l : Lease) (c : String) (now ttl : Number) (m : Lease) → (handoff l c now ttl w s).0 ≡ ok m
    → (m.resource_id ≡ l.resource_id) × (is_current (get l.resource_id a.active) l ≡ true)
unfolding handoff
handoff-ok a w s o l c now ttl m h =
    let (ts, _, done) = after-ok (check_handoff c now ttl) _ s m h in
    let (a', body) = exclusive-ok (handoff_body l c ts.0 ts.1) a w s m o.opened done in
    handoff_body-ok l m c ts.0 ts.1 a a' body

pub reauthorize-ok :
    (verifiers : Dict Verifier) (a : Authority) (w : Write) (s : Store)
    → open_state s ≡ ok a
    → (g : Grant) (now ttl : Number) (l : Lease) → (reauthorize verifiers g now ttl w s).0 ≡ ok l
    → (ts : Time × Time) × (a' : Authority) × (reauthorize_body g ts.0 ts.1 a ≡ ok (l, a'))
unfolding reauthorize
reauthorize-ok verifiers a w s o g now ttl l h =
    let (ts, _, done) = after-ok (check_reauthorize verifiers g now ttl) _ s l h in
    let (a', body) = exclusive-ok (reauthorize_body g ts.0 ts.1) a w s l o done in (ts, a', body)

commit-next :
    (l m : Lease) (a : Authority) (w : Write) (durable : Bool) (memory : Authority) (file : File)
    → let s : Store = record { durable = durable; memory = memory; file = file } in
      IsSound a → (commit l a w s).0 ≡ ok m → Opens (commit l a w s).1 a
unfolding commit open_state load_state
commit-next l m a w false memory file v h = record { opened = refl; sound = v }
commit-next l m a w true memory file v h =
    let (raw, encoded, decoded) = decode-encode a v in
    let done = rw encoded at h in
    rw encoded (record { opened = ground (arith, decoded); sound = v })

-- A call that returned a lease has left the state that its body computed.
exclusive-next :
    (body : Authority → Result (Lease × Authority)) (a : Authority) (w : Write) (s : Store)
    (l : Lease)
    → Opens s a
    → Good a (body a)
    → (exclusive body w s).0 ≡ ok l
    → (a' : Authority) × (body a ≡ ok (l, a')) × Opens (exclusive body w s).1 a'
unfolding exclusive
exclusive-next body a w s l o good h =
    let (a', e) = exclusive-ok body a w s l o.opened h in
    let g : Good a (ok (l, a')) = rw e at good in
    let done = rw (o.opened, e, exclusive) at h in
    (a', e, rw (o.opened, e, exclusive) (commit-next l l a' w s.durable a s.file g.1 done))

pub reauthorize-next :
    (verifiers : Dict Verifier) (a : Authority) (w : Write) (s : Store)
    → Opens s a
    → (g : Grant) (now ttl : Number) (l : Lease) → IsMade g
    → (reauthorize verifiers g now ttl w s).0 ≡ ok l
    → (ts : Time × Time) × (a' : Authority) × (reauthorize_body g ts.0 ts.1 a ≡ ok (l, a'))
      × Opens (reauthorize verifiers g now ttl w s).1 a'
unfolding reauthorize
reauthorize-next verifiers a w s o g now ttl l m h =
    let (ts, e, done) = after-ok (check_reauthorize verifiers g now ttl) _ s l h in
    let good =
      reauthorize_body-Good a ts.0 ts.1 o.sound (check_reauthorize-lasts verifiers g now ttl ts e) g
        m.resource m.controller m.issuer m.nonced in
    let (a', body, opens) = exclusive-next (reauthorize_body g ts.0 ts.1) a w s l o good done in
    (ts, a', body, rw (e, after) opens)
