-- ===== src/Commit/Precondition/Current.antt =====
-- When device_fabric/precondition_gate.py lets an intent through, in terms of the times and the lists.
use mathlib.Core.List.{Memᴰ}
use audio_bodyguard_alpha.Prelude.{
  ◌+◌, ◌*◌, ◌≤◌, ◌≡◌, ◌↔◌, ◌⊎◌, inl, inr, refl, sym, ap, ◌∙◌, String, true, false, ◌==◌, eq_iff,
  Option, none, some, List, [], ◌∷◌, any, arith, Bool-cases, some_inj,
}
use audio_bodyguard_alpha.Prelude.Time.{
  pos_part, neg_part, Time, epoch, before, same_time, same_time_iff, sub,
}
use audio_bodyguard_alpha.Json.{Number, finite, non_finite}
use audio_bodyguard_alpha.Evidence.{Hash}
use audio_bodyguard_alpha.Endpoint.Guard.{DeviceState, state_digest, Intent}
use audio_bodyguard_alpha.Commit.Precondition.{
  allow, Stamp, aware, naive, CapabilityLease, PhysicalSnapshot, permits, has_begun, is_unexpired,
  in_time, thousand, within, is_fresh, is_expected_state, evaluate,
}

-- `a`, in seconds, is later than `b` by at most `limit` milliseconds. A limit of 0 stands for none.
abbrev pub Within : Time → Time → Time → Type 0
Within limit a b =
    (limit ≡ epoch)
    ⊎ ((pos_part a + neg_part b) * 1000 + neg_part limit
        ≤ pos_part limit + (neg_part a + pos_part b) * 1000)

-- The skew and the age that are allowed are finite and not negative, and the observation, made at a finite
-- time, is not too far ahead of the present and not too old.
pub record IsFresh (max_skew max_age observed_at : Number) (now : Time) : Type 0 where
  pub skew_limit : Time
  pub age_limit : Time
  pub observed : Time
  pub skew_finite : max_skew ≡ finite skew_limit
  pub age_finite : max_age ≡ finite age_limit
  pub observed_finite : observed_at ≡ finite observed
  pub skew_positive : before skew_limit epoch ≡ false
  pub age_positive : before age_limit epoch ≡ false
  pub not_early : Within skew_limit observed now
  pub not_old : Within age_limit now observed

-- Both ends of a window, of which one may be missing but not without a timezone, and a deadline.
abbrev pub HasBegun : Option Stamp → Time → Type 0
HasBegun o now = (o ≡ none) ⊎ ((t : Time) × (o ≡ some (aware t)) × (before now t ≡ false))

abbrev pub IsUnexpired : Option Stamp → Time → Type 0
IsUnexpired o now = (o ≡ none) ⊎ ((t : Time) × (o ≡ some (aware t)) × (before now t ≡ true))

-- A deadline of 0 stands for none.
abbrev pub InTime : Number → Time → Type 0
InTime deadline now =
    (t : Time) × (deadline ≡ finite t)
    × (before t epoch ≡ false)
    × ((t ≡ epoch) ⊎ (before now t ≡ true))

-- The state that is expected has the digest of the one that was observed.
abbrev pub IsExpected : Hash → Option DeviceState → PhysicalSnapshot → Type 0
IsExpected hash o s =
    (state : DeviceState) × (o ≡ some state) × (state_digest hash state ≡ state_digest hash s.state)

-- What it takes for an intent to be let through.
pub record IsCurrent (hash : Hash) (q : Intent) (lease : CapabilityLease) (s : PhysicalSnapshot)
    (now : Time) : Type 0 where
  pub lease_device : q.device_id ≡ lease.device_id
  pub snapshot_device : q.device_id ≡ s.device_id
  pub permitted : Memᴰ q.operation lease.capabilities ⊎ Memᴰ q.operation lease.granted_actions
  pub begun : HasBegun lease.valid_from now
  pub unexpired : IsUnexpired lease.expires_at now
  pub timely : InTime q.deadline_at now
  pub same_epoch : lease.authorized_epoch ≡ s.epoch_number
  pub fresh : IsFresh lease.max_clock_skew_ms lease.max_world_state_age_ms s.observed_at now
  pub undrifted : IsExpected hash q.expected_pre_state s

any-Memᴰ : (a : String) (xs : List String) → any (λ x. x == a) xs ≡ true → Memᴰ a xs
any-Memᴰ a [] h = absurd (cc)
any-Memᴰ a (x ∷ xs) h = elim (Bool-cases (x == a)) [
  | inl same ↦ Memᴰ.head (sym ((eq_iff x a).0 same))
  | inr other ↦ Memᴰ.tail (any-Memᴰ a xs (rw other at h))
]

Memᴰ-any : (a : String) (xs : List String) → Memᴰ a xs → any (λ x. x == a) xs ≡ true
Memᴰ-any a [] m = elim m [ ]
Memᴰ-any a (x ∷ xs) (Memᴰ.head e) = ground (arith, (eq_iff x a).1 (sym e))
Memᴰ-any a (x ∷ xs) (Memᴰ.tail m) = ground (arith, Memᴰ-any a xs m)

late_iff :
    (limit a b : Time)
    → (before limit (thousand (sub a b)) ≡ false) ↔ (
        (pos_part a + neg_part b) * 1000 + neg_part limit
        ≤ pos_part limit + (neg_part a + pos_part b) * 1000)
unfolding thousand sub before pos_part neg_part
late_iff limit a b = ground arith

at_epoch : (t : Time) → before t epoch ≡ false → before epoch t ≡ false → t ≡ epoch
unfolding before
at_epoch t h k = (same_time_iff t epoch).0 (unfold same_time in ground arith)

within_iff :
    (limit a b : Time) → before limit epoch ≡ false → (within limit a b ≡ true) ↔ Within limit a b
unfolding within before
within_iff limit a b h = (forth, back)
  where
    forth : within limit a b ≡ true → Within limit a b
    forth e = elim (Bool-cases (before epoch limit)) [
      | inl bounded ↦ inr ((late_iff limit a b).0 (ground (arith, bounded, e)))
      | inr free ↦ inl (at_epoch limit h free)
    ]

    back : Within limit a b → within limit a b ≡ true
    back (inl e) = rw (e, within) refl
    back (inr e) = ground (arith, (late_iff limit a b).1 e)

is_fresh-IsFresh :
    (skew age observed : Number) (now : Time)
    → is_fresh skew age observed now ≡ true
    → IsFresh skew age observed now
unfolding is_fresh
is_fresh-IsFresh (finite skew) (finite age) (finite observed) now h =
    let at_skew : before skew epoch ≡ false = ground (arith, h) in
    let at_age : before age epoch ≡ false = ground (arith, h) in
    record {
      skew_limit = skew;
      age_limit = age;
      observed = observed;
      skew_finite = refl;
      age_finite = refl;
      observed_finite = refl;
      skew_positive = at_skew;
      age_positive = at_age;
      not_early = (within_iff skew observed now at_skew).0 (ground (arith, h));
      not_old = (within_iff age now observed at_age).0 (ground (arith, h));
    }
is_fresh-IsFresh (finite skew) (finite age) non_finite now h = absurd (cc)
is_fresh-IsFresh (finite skew) non_finite observed now h = absurd (cc)
is_fresh-IsFresh non_finite age observed now h = absurd (cc)

IsFresh-is_fresh :
    (skew age observed : Number) (now : Time)
    → IsFresh skew age observed now
    → is_fresh skew age observed now ≡ true
unfolding is_fresh
IsFresh-is_fresh skew age observed now f =
    let ahead = (within_iff f.skew_limit f.observed now f.skew_positive).1 f.not_early in
    let old = (within_iff f.age_limit now f.observed f.age_positive).1 f.not_old in
    rw (f.skew_finite, f.age_finite, f.observed_finite, is_fresh)
      (rw (f.skew_positive, f.age_positive, ahead, old) refl)

has_begun_iff : (o : Option Stamp) (now : Time) → (has_begun o now ≡ true) ↔ HasBegun o now
unfolding has_begun
has_begun_iff none now = ground arith
has_begun_iff (some naive) now = ground arith
has_begun_iff (some (aware t)) now = (λ h. inr (t, refl, ground (arith, h)), λ h. ground (arith, h))

is_unexpired_iff : (o : Option Stamp) (now : Time) → (is_unexpired o now ≡ true) ↔ IsUnexpired o now
unfolding is_unexpired
is_unexpired_iff none now = ground arith
is_unexpired_iff (some naive) now = ground arith
is_unexpired_iff (some (aware t)) now = (λ h. inr (t, refl, h), λ h. ground (arith, h))

in_time_iff : (d : Number) (now : Time) → (in_time d now ≡ true) ↔ InTime d now
unfolding in_time
in_time_iff non_finite now = ground arith
in_time_iff (finite t) now = (
  λ h. (t, refl, ground (arith, h), ground (arith, h, same_time_iff t epoch)),
  λ h. ground (arith, h, same_time_iff t epoch),
)

is_expected_state_iff :
    (hash : Hash) (o : Option DeviceState) (s : PhysicalSnapshot)
    → (is_expected_state hash o s ≡ true) ↔ IsExpected hash o s
unfolding is_expected_state
is_expected_state_iff hash none s = (λ h. absurd (cc), λ h. absurd (cc (h.1)))
is_expected_state_iff hash (some state) s = (
  λ h. (state, refl, (eq_iff (state_digest hash state) (state_digest hash s.state)).0 h),
  λ h.
      (eq_iff (state_digest hash state) (state_digest hash s.state)).1
        (ap (state_digest hash) (some_inj h.1) ∙ h.2),
)

permits_iff :
    (lease : CapabilityLease) (a : String)
    → (permits lease a ≡ true) ↔ (Memᴰ a lease.capabilities ⊎ Memᴰ a lease.granted_actions)
unfolding permits
permits_iff lease a = (forth, back)
  where
    forth : permits lease a ≡ true → Memᴰ a lease.capabilities ⊎ Memᴰ a lease.granted_actions
    forth h = elim (Bool-cases (any (λ x. x == a) lease.capabilities)) [
      | inl found ↦ inl (any-Memᴰ a lease.capabilities found)
      | inr missing ↦ inr (any-Memᴰ a lease.granted_actions (rw missing at h))
    ]

    back : Memᴰ a lease.capabilities ⊎ Memᴰ a lease.granted_actions → permits lease a ≡ true
    back (inl m) = ground (arith, Memᴰ-any a lease.capabilities m)
    back (inr m) = ground (arith, Memᴰ-any a lease.granted_actions m)

evaluate-IsCurrent :
    (hash : Hash) (q : Intent) (lease : CapabilityLease) (s : PhysicalSnapshot) (now : Time)
    → evaluate hash q lease s now ≡ allow
    → IsCurrent hash q lease s now
unfolding evaluate
evaluate-IsCurrent hash q lease s now h = record {
  lease_device = ground (arith, h, eq_iff q.device_id lease.device_id);
  snapshot_device = ground (arith, h, eq_iff q.device_id s.device_id);
  permitted = (permits_iff lease q.operation).0 (ground (arith, h));
  begun = (has_begun_iff lease.valid_from now).0 (ground (arith, h));
  unexpired = (is_unexpired_iff lease.expires_at now).0 (ground (arith, h));
  timely = (in_time_iff q.deadline_at now).0 (ground (arith, h));
  same_epoch = ground (arith, h, same_time_iff lease.authorized_epoch s.epoch_number);
  fresh =
      is_fresh-IsFresh lease.max_clock_skew_ms lease.max_world_state_age_ms s.observed_at now
        (ground (arith, h));
  undrifted = (is_expected_state_iff hash q.expected_pre_state s).0 (ground (arith, h));
}

IsCurrent-evaluate :
    (hash : Hash) (q : Intent) (lease : CapabilityLease) (s : PhysicalSnapshot) (now : Time)
    → IsCurrent hash q lease s now
    → evaluate hash q lease s now ≡ allow
unfolding evaluate
IsCurrent-evaluate hash q lease s now c =
    rw
      (
        (eq_iff q.device_id lease.device_id).1 c.lease_device,
        (eq_iff q.device_id s.device_id).1 c.snapshot_device,
        (permits_iff lease q.operation).1 c.permitted,
        (has_begun_iff lease.valid_from now).1 c.begun,
        (is_unexpired_iff lease.expires_at now).1 c.unexpired,
        (in_time_iff q.deadline_at now).1 c.timely,
        (same_time_iff lease.authorized_epoch s.epoch_number).1 c.same_epoch,
        IsFresh-is_fresh lease.max_clock_skew_ms lease.max_world_state_age_ms s.observed_at now
            c.fresh,
        (is_expected_state_iff hash q.expected_pre_state s).1 c.undrifted,
      )
      refl

-- The precondition gate allows an intent exactly when it is for the device of its lease and of the
-- snapshot, its operation is listed in the lease, the present lies in the lease's window and before the
-- intent's own deadline, the epochs are the same, the observation is neither too far ahead nor too old, by
-- the lease's limits in milliseconds, and the state that is expected has the digest of the one observed.
pub evaluate-IsCurrent_iff :
    (hash : Hash) (q : Intent) (lease : CapabilityLease) (s : PhysicalSnapshot) (now : Time)
    → (evaluate hash q lease s now ≡ allow) ↔ IsCurrent hash q lease s now
evaluate-IsCurrent_iff hash q lease s now =
    (evaluate-IsCurrent hash q lease s now, IsCurrent-evaluate hash q lease s now)
