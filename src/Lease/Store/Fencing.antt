-- ===== src/Lease/Store/Fencing.antt =====
-- Fencing by control/active_controller_lease.py: who holds a resource, and who no longer does.
use audio_bodyguard_alpha.Prelude.{
  ℕ, ◌≤◌, ◌<◌, ◌≡◌, refl, sym, ap, ◌∙◌, subst, inl, inr, String, true, false, ◌==◌, eq_iff, eq_refl,
  some, some_inj, if◌then◌else◌, eqb_iff, get_or, ok, ok_inj, arith, Bool-cases, Option-cases,
}
use audio_bodyguard_alpha.Prelude.Time.{Time, before, same_time_iff}
use audio_bodyguard_alpha.Prelude.Dict.{Dict, get, get-put}
use audio_bodyguard_alpha.Json.{Number, finite}
use audio_bodyguard_alpha.Lease.{
  Lease, Authority, allow, stale_fence, expired, Verifier, same_lease, is_current, validate_time,
  validate_body,
}
use audio_bodyguard_alpha.Lease.Invariant.{IsSound, Aligned-get, Issues, Evolves, stays, issues}
use audio_bodyguard_alpha.Lease.Store.{Store, Write, open_state, handoff, acquire, validate}
use audio_bodyguard_alpha.Lease.Store.Returned.{handoff-ok}
use audio_bodyguard_alpha.Lease.Store.Calls.{
  Opens, Reach, here, next, Step-Evolves, handoff-Outcome, acquire-Outcome,
}

-- `highest_token(resource_id)` of the state that is open
abbrev pub highest_of : String → Authority → ℕ
highest_of r a = get_or (get r a.highest_tokens) 0

same_lease-eq : (l m : Lease) → same_lease l m ≡ true → l ≡ m
unfolding same_lease
same_lease-eq l m h = ground (
  arith,
  eq_iff l.resource_id m.resource_id,
  eq_iff l.controller_id m.controller_id,
  eqb_iff l.fencing_token m.fencing_token,
  same_time_iff l.issued_at m.issued_at,
  same_time_iff l.expires_at m.expires_at,
)

same_lease-lt : (l m : Lease) → m.fencing_token < l.fencing_token → same_lease l m ≡ false
unfolding same_lease
same_lease-lt l m h = ground arith

-- Another lease holds the resource of `l`, and every later one has a higher token.
pub record IsRetired (l : Lease) (a : Authority) : Type 0 where
  pub holder : Lease
  pub held : get l.resource_id a.active ≡ some holder
  pub other : same_lease holder l ≡ false
  pub passed : l.fencing_token ≤ highest_of l.resource_id a

Issues-highest :
    (r : String) (a a' : Authority) (m : Lease)
    → Issues a m a'
    → highest_of r a' ≡ (if m.resource_id == r then m.fencing_token else highest_of r a)
Issues-highest r a a' m i =
    rw (i.highest_tokens, get-put)
      (elim (Bool-cases (m.resource_id == r)) [ inl e ↦ rw e | inr e ↦ rw e ])

-- Tokens never fall.
pub Evolves-highest :
    (r : String) (a a' : Authority) → Evolves a a' → highest_of r a ≤ highest_of r a'
Evolves-highest r a a' (stays e) = rw e (omega arith)
Evolves-highest r a a' (issues m i) = elim (Bool-cases (m.resource_id == r)) [
  | inl e ↦
      let m_r = (eq_iff m.resource_id r).0 e in
      let fresh : highest_of r a < m.fencing_token = rw m_r at i.fresh in
      rw (Issues-highest r a a' m i, e) (omega arith)
  | inr e ↦ rw (Issues-highest r a a' m i, e) (omega arith)
]

Issues-IsRetired :
    (l m : Lease) (a a' : Authority)
    → Issues a m a'
    → m.resource_id ≡ l.resource_id
    → l.fencing_token ≤ highest_of l.resource_id a
    → IsRetired l a'
Issues-IsRetired l m a a' i e le =
    let fresh : highest_of l.resource_id a < m.fencing_token = rw e at i.fresh in
    let hit : (m.resource_id == l.resource_id) ≡ true = rw e (eq_refl l.resource_id) in
    record {
      holder = m;
      held = rw (i.active, get-put, hit);
      other = same_lease-lt m l (omega arith);
      passed = rw (Issues-highest l.resource_id a a' m i, hit) (omega arith);
    }

Evolves-IsRetired : (l : Lease) (a a' : Authority) → Evolves a a' → IsRetired l a → IsRetired l a'
Evolves-IsRetired l a a' (stays e) h = rw e h
Evolves-IsRetired l a a' (issues m i) h = elim (Bool-cases (m.resource_id == l.resource_id)) [
  | inl e ↦ Issues-IsRetired l m a a' i ((eq_iff m.resource_id l.resource_id).0 e) h.passed
  | inr e ↦ record {
    holder = h.holder;
    held = rw (i.active, get-put, e) h.held;
    other = h.other;
    passed = rw (Issues-highest l.resource_id a a' m i, e) h.passed;
  }
]

Reach-IsRetired :
    (verifiers : Dict Verifier) (l : Lease) (s t : Store) (a : Authority)
    → Reach verifiers s t
    → Opens s a
    → IsRetired l a
    → (b : Authority) × Opens t b × IsRetired l b
Reach-IsRetired verifiers l s t a here o h = (a, o, h)
Reach-IsRetired verifiers l s t a (next {t = u} r st) o h =
    let (b, ob, hb) = Reach-IsRetired verifiers l s u a r o h in
    let (c, oc, ev) = Step-Evolves verifiers u t b st ob in (c, oc, Evolves-IsRetired l b c ev hb)

validate-IsRetired :
    (l : Lease) (now : Time) (s : Store) (a : Authority)
    → Opens s a
    → IsRetired l a
    → (validate l (finite now) s).0 ≡ ok stale_fence
unfolding validate validate_time validate_body
validate-IsRetired l now s a o h = rw (o.opened, h.held, h.other, validate) refl

current-le :
    (l : Lease) (a : Authority)
    → IsSound a
    → is_current (get l.resource_id a.active) l ≡ true
    → l.fencing_token ≤ highest_of l.resource_id a
unfolding is_current
current-le l a v h = elim (Option-cases (get l.resource_id a.active)) [
  | inl e ↦ absurd (cc (rw (e, is_current) at h))
  | inr (m, e) ↦
      let (t, at, entry) = Aligned-get l.resource_id a.active a.highest_tokens m v.aligned e in
      let same : m ≡ l = same_lease-eq m l (rw (e, is_current) at h) in
      rw (at, ← same) entry.covered
]

Reach-highest :
    (verifiers : Dict Verifier) (r : String) (s t : Store) (a : Authority)
    → Reach verifiers s t
    → Opens s a
    → (b : Authority) × Opens t b × (highest_of r a ≤ highest_of r b)
Reach-highest verifiers r s t a here o = (a, o, omega arith)
Reach-highest verifiers r s t a (next {t = u} reach st) o =
    let (b, ob, hb) = Reach-highest verifiers r s u a reach o in
    let (c, oc, ev) = Step-Evolves verifiers u t b st ob in
    (c, oc, omega (arith, Evolves-highest r b c ev))

module _ (verifiers : Dict Verifier) (s : Store) (a : Authority) (o : Opens s a) where
  -- From a sound state, once a handoff of `l` has returned, `l` is a stale fence for good: after any
  -- further calls, whatever the failures of their saves, validating it answers STALE_FENCE at every
  -- finite time.
  pub handoff-stale :
      (l l' : Lease) (c : String) (now ttl : Number) (w : Write) (s' t : Store) (later : Time)
      → handoff l c now ttl w s ≡ (ok l', s')
      → Reach verifiers s' t
      → (validate l (finite later) t).0 ≡ ok stale_fence
  handoff-stale l l' c now ttl w s' t later e r =
      let u = handoff-Outcome a w s o l c now ttl in
      let (same, current) = handoff-ok a w s o l c now ttl l' (ap (λ x. x.0) e) in
      let i = u.granted l' (ap (λ x. x.0) e) in
      let retired = Issues-IsRetired l l' a u.next i same (current-le l a o.sound current) in
      let opened : Opens s' u.next = rw (← ap (λ x. x.1) e) u.opens in
      let (b, ob, hb) = Reach-IsRetired verifiers l s' t u.next r opened retired in
      validate-IsRetired l later t b ob hb

  -- From a sound state, an `acquire` that returned has given a token above every earlier one of that
  -- resource, and tokens never fall afterwards: after any further calls, whatever the failures of
  -- their saves, the highest token is at least it.
  pub acquire-highest :
      (r c : String) (now ttl : Number) (w : Write) (l : Lease) (s' t : Store)
      → acquire r c now ttl w s ≡ (ok l, s')
      → Reach verifiers s' t
      → (b : Authority) × Opens t b
        × (highest_of l.resource_id a < l.fencing_token)
        × (l.fencing_token ≤ highest_of l.resource_id b)
  acquire-highest r c now ttl w l s' t e reach =
      let u = acquire-Outcome a w s o r c now ttl in
      let i = u.granted l (ap (λ x. x.0) e) in
      let opened : Opens s' u.next = rw (← ap (λ x. x.1) e) u.opens in
      let (b, ob, grown) = Reach-highest verifiers l.resource_id s' t u.next reach opened in
      let entered : highest_of l.resource_id u.next ≡ l.fencing_token =
        Issues-highest l.resource_id a u.next l i ∙ rw (eq_refl l.resource_id) refl in
      (b, ob, i.fresh, omega arith)

validate_body-allow :
    (l : Lease) (t : Time) (a : Authority)
    → validate_body l t a ≡ allow
    → (get l.resource_id a.active ≡ some l) × (before t l.expires_at ≡ true)
unfolding validate_body
validate_body-allow l t a h = elim (Option-cases (get l.resource_id a.active)) [
  | inl e ↦ absurd (cc (rw (e, validate_body) at h))
  | inr (m, e) ↦ elim (Bool-cases (same_lease m l)) [
    | inr other ↦ absurd (cc (rw (e, other, validate_body) at h))
    | inl same ↦
        let m_l : m ≡ l = same_lease-eq m l same in
        let timely : (if before t m.expires_at then allow else expired) ≡ allow =
          rw (e, same, validate_body) at h in
        (e ∙ ap some m_l, subst (λ (x : Lease). before t x.expires_at ≡ true) m_l (ground arith))
  ]
]

-- A lease is allowed in an open state only if it is the one entered for its resource, field by field,
-- and it has not expired.
pub validate-allow :
    (s : Store) (a : Authority) (l : Lease) (now : Time)
    → open_state s ≡ ok a
    → (validate l (finite now) s).0 ≡ ok allow
    → (get l.resource_id a.active ≡ some l) × (before now l.expires_at ≡ true)
unfolding validate validate_time
validate-allow s a l now o h = validate_body-allow l now a (ok_inj (rw (o, validate) at h))

-- At most one holder: in a state that opens, two leases of one resource that are both allowed, at
-- whatever times, are the same lease.
pub allow_unique :
    (s : Store) (a : Authority) (l m : Lease) (now later : Time)
    → open_state s ≡ ok a
    → l.resource_id ≡ m.resource_id
    → (validate l (finite now) s).0 ≡ ok allow
    → (validate m (finite later) s).0 ≡ ok allow
    → l ≡ m
allow_unique s a l m now later o e p q =
    let (at_l, _) = validate-allow s a l now o p in
    let (at_m, _) = validate-allow s a m later o q in some_inj (sym at_l ∙ rw e at_m)
