-- ===== src/Supervisor/Activation.antt =====
-- When control/protection_supervisor.py lets automation act.
use audio_bodyguard_alpha.Prelude.{◌≡◌, ◌↔◌, true, false, ok, arith}
use audio_bodyguard_alpha.Prelude.Time.{before, sub}
use audio_bodyguard_alpha.Supervisor.{Supervisor, mark_unknown, is_active, is_unresolved}
use audio_bodyguard_alpha.Supervisor.Validate.{
  Request, Clocks, validate_body, check_request, weigh, judge, judge_times, refuse,
  record_observation, not_later, regressed, not_ahead, too_old,
}
use audio_bodyguard_alpha.Supervisor.Calls.{count_departure, serialized, validate}

-- What an observation must show, and when it must have been made.
pub record IsTimely (c : Clocks) (s : Supervisor) : Type 0 where
  pub past : before c.now c.observed_at ≡ false
  pub past_monotonic : not_ahead c.observed_monotonic c.monotonic_now ≡ true
  pub young_monotonic : too_old s.max_evidence_age c.observed_monotonic c.monotonic_now ≡ false
  pub young : before s.max_evidence_age (sub c.now c.observed_at) ≡ false
  pub after_interruption : not_later s.interrupted_monotonic s.interrupted_at c ≡ false
  pub after_refusal : not_later s.reactivation_after_monotonic s.reactivation_after c ≡ false

pub record IsGranted (q : Request) : Type 0 where
  pub permission : q.permission_granted ≡ true
  pub runtime : q.runtime_eligible ≡ true
  pub sensor : q.sensor_available ≡ true
  pub connection : q.connected ≡ true
  pub authority : q.authority_valid ≡ true
  pub path : q.protection_path_eligible ≡ true

pub record Qualifies (q : Request) (c : Clocks) (s : Supervisor) : Type 0 where
  pub granted : IsGranted q
  pub timely : IsTimely c s
  pub resolved : is_unresolved s ≡ false
  pub in_order :
      regressed s.last_observed_monotonic s.last_observed_at c.observed_monotonic c.observed_at
      ≡ false

module _ (c : Clocks) (p s : Supervisor) (same_age : s.max_evidence_age ≡ p.max_evidence_age) where
  judge_times-active : is_active (judge_times c p s).state ≡ true → IsTimely c p
  unfolding judge_times
  judge_times-active h = ground arith

  active-judge_times : IsTimely c p → is_active (judge_times c p s).state ≡ true
  unfolding judge_times
  active-judge_times t = ground arith

  judge-active : (q : Request) → is_active (judge q c p s).state ≡ true → IsGranted q × IsTimely c p
  unfolding judge refuse
  judge-active q h = ground (arith, judge_times-active)

  active-judge : (q : Request) → IsGranted q → IsTimely c p → is_active (judge q c p s).state ≡ true
  unfolding judge
  active-judge q g t = ground (arith, active-judge_times t)

age-record_observation :
    (c : Clocks) (s : Supervisor) → (record_observation c s).max_evidence_age ≡ s.max_evidence_age
unfolding record_observation
age-record_observation c s = ground arith

weigh-active_iff :
    (q : Request) (c : Clocks) (s : Supervisor)
    → (is_active (weigh q c s).state ≡ true) ↔ Qualifies q c s
unfolding weigh mark_unknown
weigh-active_iff q c s = (
  λ h.
      let (r, o, e) = opened h in
      let (g, t) = judge-active c s (record_observation c s) (age-record_observation c s) q e in
      record { granted = g; timely = t; resolved = r; in_order = o },
  λ k.
      rw (k.resolved, k.in_order)
        (active-judge c s (record_observation c s) (age-record_observation c s) q k.granted
          k.timely),
)
  where
    opened :
        is_active (weigh q c s).state ≡ true
        → (is_unresolved s ≡ false)
          × (regressed s.last_observed_monotonic s.last_observed_at c.observed_monotonic
                c.observed_at
              ≡ false)
          × (is_active (judge q c s (record_observation c s)).state ≡ true)
    opened h = ground arith

pub validate-state :
    (q : Request) (c : Clocks) (s : Supervisor)
    → check_request q ≡ ok c
    → (validate q s).1.state ≡ (weigh q c s).state
unfolding validate serialized count_departure validate_body
validate-state q c s e = rw (e, validate_body) (ground arith)

-- A validation whose arguments are well formed leaves the supervisor active exactly when every
-- permission and check is granted; no physical state is unresolved; the evidence is in order with the
-- last, not from the future, not older than the maximal age by either clock; and it is later than the
-- last interruption and than the evidence of the last refusal.
pub validate-active_iff :
    (q : Request) (c : Clocks) (s : Supervisor)
    → check_request q ≡ ok c
    → (is_active (validate q s).1.state ≡ true) ↔ Qualifies q c s
validate-active_iff q c s e = rw (validate-state q c s e) (weigh-active_iff q c s)
