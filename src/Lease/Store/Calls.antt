-- ===== src/Lease/Store/Calls.antt =====
-- The calls that clients make of control/active_controller_lease.py, in any order and with any
-- failure of the file system, and what each may change.
use audio_bodyguard_alpha.Prelude.{
  ◌≡◌, refl, subst, inl, inr, String, Bool, true, false, Result, Result-cases, ok, err, Error,
  ok_inj, arith, Bool-cases,
}
use audio_bodyguard_alpha.Prelude.Time.{Time, epoch, before}
use audio_bodyguard_alpha.Prelude.Text.{is_named}
use audio_bodyguard_alpha.Prelude.Dict.{Dict}
use audio_bodyguard_alpha.Json.{Number}
use audio_bodyguard_alpha.Lease.{
  Lease, Authority, Grant, Verifier, validate_identifier, validate_time, validate_ttl, acquire_body,
  handoff_body, reauthorize_body,
}
use audio_bodyguard_alpha.Lease.Codec.RoundTrip.{decode-encode}
use audio_bodyguard_alpha.Lease.Invariant.{
  IsSound, Issues, Evolves, stays, issues, Good, acquire_body-Good, handoff_body-Good,
  reauthorize_body-Good,
}
use audio_bodyguard_alpha.Lease.Store.{
  Store, Write, File, written, not_replaced, not_synced, load_state, open_state, commit, exclusive,
  after, check_times, check_acquire, check_handoff, check_reauthorize, acquire, handoff,
  reauthorize, validate,
}

-- What the guard opens, in a sound state.
pub record Opens (s : Store) (a : Authority) : Type 0 where
  pub opened : open_state s ≡ ok a
  pub sound : IsSound a

-- After a call that began at `a`: the state that the next call opens, which is sound and is `a` or
-- `a` with one more lease. If the call returned a lease, that is the lease.
pub record Outcome (a : Authority) (r : Result Lease) (s : Store) : Type 0 where
  pub next : Authority
  pub opens : Opens s next
  pub evolves : Evolves a next
  pub granted : (l : Lease) → r ≡ ok l → Issues a l next

unchanged : (a : Authority) (e : Error) (s : Store) → Opens s a → Outcome a (err e) s
unchanged a e s o = record {
  next = a;
  opens = o;
  evolves = stays refl;
  granted = λ l p. absurd (cc);
}

reload : (s : Store) (a : Authority) → Opens s a → Opens (record s { memory = a }) a
unfolding open_state
reload s a o = elim (Bool-cases s.durable) [
  | inl d ↦ record { opened = rw d (rw d at o.opened); sound = o.sound }
  | inr d ↦ record { opened = rw d; sound = o.sound }
]

commit-Outcome :
    (l : Lease) (a a' : Authority) (w : Write) (durable : Bool) (memory : Authority) (file : File)
    → let s : Store = record { durable = durable; memory = memory; file = file } in
      Opens s a → Issues a l a' → IsSound a' → Outcome a (commit l a' w s).0 (commit l a' w s).1
unfolding commit open_state load_state
commit-Outcome l a a' w false memory file o i v = record {
  next = a';
  opens = record { opened = refl; sound = v };
  evolves = issues l i;
  granted = λ m p. subst (λ x. Issues a x a') (ok_inj p) i;
}
commit-Outcome l a a' written true memory file o i v =
    let (raw, encoded, decoded) = decode-encode a' v in
    rw encoded (record {
      next = a';
      opens = record { opened = decoded; sound = v };
      evolves = issues l i;
      granted = λ m p. subst (λ x. Issues a x a') (ok_inj p) i;
    })
commit-Outcome l a a' not_replaced true memory file o i v =
    let (raw, encoded, decoded) = decode-encode a' v in
    rw encoded (record {
      next = a;
      opens = record { opened = o.opened; sound = o.sound };
      evolves = stays refl;
      granted = λ m p. absurd (cc);
    })
commit-Outcome l a a' not_synced true memory file o i v =
    let (raw, encoded, decoded) = decode-encode a' v in
    rw encoded (record {
      next = a';
      opens = record { opened = decoded; sound = v };
      evolves = issues l i;
      granted = λ m p. absurd (cc);
    })

exclusive-Outcome :
    (body : Authority → Result (Lease × Authority)) (a : Authority) (w : Write) (s : Store)
    → Opens s a
    → Good a (body a)
    → Outcome a (exclusive body w s).0 (exclusive body w s).1
unfolding exclusive
exclusive-Outcome body a w s o good = elim (Result-cases (body a)) [
  | inl ((l, a'), e) ↦
      let kept = reload s a o in
      let g : Good a (ok (l, a')) = rw e at good in
      rw (o.opened, e, exclusive) (commit-Outcome l a a' w s.durable a s.file kept g.0 g.1)
  | inr (x, e) ↦ rw (o.opened, e, exclusive) (unchanged a x _ (reload s a o))
]

-- What `__post_init__` has checked of a grant.
pub record IsMade (g : Grant) : Type 0 where
  pub resource : is_named g.resource_id ≡ true
  pub controller : is_named g.controller_id ≡ true
  pub issuer : is_named g.issuer_id ≡ true
  pub nonced : is_named g.nonce ≡ true

-- `after` leaves all as it was when the check raises.
after-Outcome {ℓ} :
    {A : Type ℓ} (check : Result A) (f : A → Store → Result Lease × Store) (a : Authority)
    (s : Store)
    → Opens s a
    → ((x : A) → check ≡ ok x → Outcome a (f x s).0 (f x s).1)
    → Outcome a (after check f s).0 (after check f s).1
unfolding after
after-Outcome (ok x) f a s o h = h x refl
after-Outcome (err e) f a s o h = unchanged a e s o

check_times-lasts :
    (now ttl : Number) (ts : Time × Time) → check_times now ttl ≡ ok ts → before epoch ts.1 ≡ true
unfolding check_times validate_ttl validate_time
check_times-lasts now ttl ts h = ground arith

module _ (now ttl : Number) (ts : Time × Time) where
  check_acquire-ok :
      (r c : String)
      → check_acquire r c now ttl ≡ ok ts
      → (is_named r ≡ true) × (is_named c ≡ true) × (before epoch ts.1 ≡ true)
  unfolding check_acquire validate_identifier validate_ttl validate_time
  check_acquire-ok r c h = ground arith

  check_handoff-ok :
      (c : String)
      → check_handoff c now ttl ≡ ok ts
      → (is_named c ≡ true) × (before epoch ts.1 ≡ true)
  unfolding check_handoff validate_identifier validate_ttl validate_time
  check_handoff-ok c h = ground arith

pub check_reauthorize-lasts :
    (verifiers : Dict Verifier) (g : Grant) (now ttl : Number) (ts : Time × Time)
    → check_reauthorize verifiers g now ttl ≡ ok ts
    → before epoch ts.1 ≡ true
unfolding check_reauthorize validate_ttl validate_time
check_reauthorize-lasts verifiers g now ttl ts h = ground arith

module _ (a : Authority) (w : Write) (s : Store) (o : Opens s a) where
  pub acquire-Outcome :
      (r c : String) (now ttl : Number)
      → Outcome a (acquire r c now ttl w s).0 (acquire r c now ttl w s).1
  unfolding acquire
  acquire-Outcome r c now ttl = after-Outcome (check_acquire r c now ttl) _ a s o λ ts e.
      let (named, controlled, lasts) = check_acquire-ok now ttl ts r c e in
      exclusive-Outcome (acquire_body r c ts.0 ts.1) a w s o
        (acquire_body-Good a ts.0 ts.1 o.sound lasts r c named controlled)

  pub handoff-Outcome :
      (l : Lease) (c : String) (now ttl : Number)
      → Outcome a (handoff l c now ttl w s).0 (handoff l c now ttl w s).1
  unfolding handoff
  handoff-Outcome l c now ttl = after-Outcome (check_handoff c now ttl) _ a s o λ ts e.
      let (controlled, lasts) = check_handoff-ok now ttl ts c e in
      exclusive-Outcome (handoff_body l c ts.0 ts.1) a w s o
        (handoff_body-Good a ts.0 ts.1 o.sound lasts l c controlled)

  pub reauthorize-Outcome :
      (verifiers : Dict Verifier) (g : Grant) (now ttl : Number)
      → IsMade g
      → Outcome a (reauthorize verifiers g now ttl w s).0 (reauthorize verifiers g now ttl w s).1
  unfolding reauthorize
  reauthorize-Outcome verifiers g now ttl m =
      after-Outcome (check_reauthorize verifiers g now ttl) _ a s o λ ts e.
        exclusive-Outcome (reauthorize_body g ts.0 ts.1) a w s o (
          reauthorize_body-Good a ts.0 ts.1 o.sound
            (check_reauthorize-lasts verifiers g now ttl ts e) g m.resource m.controller m.issuer
            m.nonced)

  pub validate-Opens : (l : Lease) (now : Number) → Opens (validate l now s).1 a
  unfolding validate
  validate-Opens l now = elim (Result-cases (validate_time now)) [
    | inl (t, e) ↦ rw (e, o.opened, validate) (reload s a o)
    | inr (x, e) ↦ rw (e, validate) o
  ]

-- One call of any client, with what the file system does with its save.
pub data Step (verifiers : Dict Verifier) (s s' : Store) : Type 0 where
  acquires :
      (r c : String) (now ttl : Number) (w : Write)
      → s' ≡ (acquire r c now ttl w s).1
      → Step verifiers s s'
  hands_off :
      (l : Lease) (c : String) (now ttl : Number) (w : Write)
      → s' ≡ (handoff l c now ttl w s).1
      → Step verifiers s s'
  reauthorizes :
      (g : Grant) (now ttl : Number) (w : Write)
      → IsMade g
      → s' ≡ (reauthorize verifiers g now ttl w s).1
      → Step verifiers s s'
  validates : (l : Lease) (now : Number) → s' ≡ (validate l now s).1 → Step verifiers s s'

pub data Reach (verifiers : Dict Verifier) (s : Store) : Store → Type 0 where
  here : Reach verifiers s s
  next : {t u : Store} → Reach verifiers s t → Step verifiers t u → Reach verifiers s u

-- Whatever the call and the failure, the next call opens a sound state that is the old one, or the
-- old one with one fresh lease.
pub Step-Evolves :
    (verifiers : Dict Verifier) (s s' : Store) (a : Authority)
    → Step verifiers s s'
    → Opens s a
    → (a' : Authority) × Opens s' a' × Evolves a a'
Step-Evolves verifiers s s' a (acquires r c now ttl w e) o =
    let u = acquire-Outcome a w s o r c now ttl in (u.next, rw e u.opens, u.evolves)
Step-Evolves verifiers s s' a (hands_off l c now ttl w e) o =
    let u = handoff-Outcome a w s o l c now ttl in (u.next, rw e u.opens, u.evolves)
Step-Evolves verifiers s s' a (reauthorizes g now ttl w m e) o =
    let u = reauthorize-Outcome a w s o verifiers g now ttl m in (u.next, rw e u.opens, u.evolves)
Step-Evolves verifiers s s' a (validates l now e) o =
    (a, rw e (validate-Opens a written s o l now), stays refl)
