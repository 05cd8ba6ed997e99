-- ===== src/Supervisor/Validate.antt =====
-- `require_revalidation`, `resolve_physical_transaction` and `validate` of
-- control/protection_supervisor.py, without their decorator.
use audio_bodyguard_alpha.Prelude.{
  String, Bool, true, false, not, ◌||◌, Option, none, some, if◌then◌else◌, Result, ok, err,
  value_error, ◌>>=◌, ◌>>◌, guard,
}
use audio_bodyguard_alpha.Prelude.Time.{Time, before, at_most, sub}
use audio_bodyguard_alpha.Prelude.Text.{is_trimmed}
use audio_bodyguard_alpha.Json.{Number}
use audio_bodyguard_alpha.Supervisor.{
  State, active, degraded, paused, recovery_required, unknown_physical_state, PathReason, eligible,
  storage_ineligible, Supervisor, finite_time, optional_time, is_unresolved, member, discard,
  mark_unknown,
}

unfoldable pub check_revalidation :
    String → Option Number → Number → Option Number → Result (Option Time × Time × Option Time)
unfolding finite_time optional_time
check_revalidation reason observed_at now monotonic_now = do
  guard (is_trimmed reason) (value_error "reason must be a nonempty identifier")
  observed ← optional_time observed_at "observed_at must be finite"
  wall ← finite_time now "now must be finite"
  monotonic ← optional_time monotonic_now "monotonic_now must be finite"
  ok (observed, wall, monotonic)

unfoldable pub enter_revalidation :
    String → Option Time → Time → Option Time → Bool → Supervisor → Supervisor
enter_revalidation reason observed now monotonic physical_state_known s =
    let s' : Supervisor = record s {
      last_observed_at = observed;
      last_observed_monotonic = none;
      reactivation_after = some now;
      reactivation_after_monotonic = monotonic;
      physical_state_unresolved = s.physical_state_unresolved || not physical_state_known;
      reason = reason;
    } in
    record s' { state = if is_unresolved s' then unknown_physical_state else recovery_required }

unfoldable pub require_revalidation_body :
    String → Option Number → Number → Option Number → Bool → Supervisor → Result State × Supervisor
unfolding check_revalidation enter_revalidation
require_revalidation_body reason observed_at now monotonic_now physical_state_known s =
    elim (check_revalidation reason observed_at now monotonic_now) [
      | err e ↦ (err e, s)
      | ok (observed, wall, monotonic) ↦
          let s' = enter_revalidation reason observed wall monotonic physical_state_known s in
          (ok s'.state, s')
    ]

unfoldable pub check_resolve : String → Number → Option Number → Result (Time × Option Time)
unfolding finite_time optional_time
check_resolve transaction now monotonic_now = do
  guard (is_trimmed transaction) (value_error "transaction_id must be a nonempty identifier")
  wall ← finite_time now "now must be finite"
  monotonic ← optional_time monotonic_now "monotonic_now must be finite"
  ok (wall, monotonic)

unfoldable pub resolve : String → Time → Option Time → Supervisor → Supervisor
unfolding member discard
resolve transaction now monotonic s =
    if not (member transaction s.unresolved_transactions)
    then record s { state = unknown_physical_state }
    else let s' : Supervisor = record s {
      unresolved_transactions = discard transaction s.unresolved_transactions;
    } in
      if is_unresolved s' then record s' { state = unknown_physical_state } else record s' {
        state = paused;
        reason = "FRESH_VALIDATION_REQUIRED";
        reactivation_after = some now;
        reactivation_after_monotonic = monotonic;
      }

unfoldable pub resolve_physical_transaction_body :
    String → Number → Option Number → Supervisor → Result State × Supervisor
unfolding check_resolve resolve
resolve_physical_transaction_body transaction now monotonic_now s =
    elim (check_resolve transaction now monotonic_now) [
      | err e ↦ (err e, s)
      | ok (wall, monotonic) ↦ let s' = resolve transaction wall monotonic s in (ok s'.state, s')
    ]

-- The arguments of `validate`, their times still unchecked.
pub record Request : Type 0 where
  pub permission_granted : Bool
  pub runtime_eligible : Bool
  pub sensor_available : Bool
  pub connected : Bool
  pub authority_valid : Bool
  pub protection_path_eligible : Bool
  pub protection_path_reason : Option PathReason
  pub observed_at : Number
  pub now : Number
  pub observed_monotonic : Option Number
  pub monotonic_now : Option Number

-- The four times, once checked.
pub record Clocks : Type 0 where
  pub observed_at : Time
  pub now : Time
  pub observed_monotonic : Option Time
  pub monotonic_now : Option Time

abbrev names_eligible : PathReason → Bool
names_eligible eligible = true
names_eligible _ = false

-- `protection_path_eligible is (protection_path_reason is ELIGIBLE)`, where a reason is given
abbrev pub is_consistent : Bool → Option PathReason → Bool
is_consistent path none = true
is_consistent true (some r) = names_eligible r
is_consistent false (some r) = not (names_eligible r)

unfoldable pub or_default : Option Time → Option Time → Option Time
or_default none d = d
or_default (some t) d = some t

unfoldable pub check_request : Request → Result Clocks
unfolding finite_time optional_time or_default
check_request q = do
  guard (is_consistent q.protection_path_eligible q.protection_path_reason)
      (value_error "protection path eligibility and reason are inconsistent")
  observed ← finite_time q.observed_at "observed_at must be finite"
  wall ← finite_time q.now "now must be finite"
  monotonic ← optional_time q.monotonic_now "monotonic_now must be finite"
  seen ← optional_time q.observed_monotonic "observed_monotonic must be finite"
  ok (record {
    observed_at = observed;
    now = wall;
    observed_monotonic = or_default seen monotonic;
    monotonic_now = monotonic;
  })

-- `observed is None or observed <= after`
abbrev pub not_after : Option Time → Time → Bool
not_after none after = true
not_after (some observed) after = at_most observed after

-- Evidence must be later than the interruption, and than the point of reactivation: by the monotonic
-- clock if that point has one, and otherwise by the wall clock.
unfoldable pub not_later : Option Time → Option Time → Clocks → Bool
not_later (some monotonic) wall c = not_after c.observed_monotonic monotonic
not_later none (some wall) c = at_most c.observed_at wall
not_later none none c = false

unfoldable pub regressed : Option Time → Option Time → Option Time → Time → Bool
regressed (some last) wall (some observed) t = before observed last
regressed _ (some wall) _ t = before t wall
regressed _ none _ t = false

-- `observed is None or now is None or observed <= now`
unfoldable pub not_ahead : Option Time → Option Time → Bool
not_ahead (some observed) (some now) = at_most observed now
not_ahead _ _ = true

-- both are known, and the evidence is older than `age`
unfoldable pub too_old : Time → Option Time → Option Time → Bool
too_old age (some observed) (some now) = before age (sub now observed)
too_old age _ _ = false

unfoldable pub record_observation : Clocks → Supervisor → Supervisor
record_observation c s =
    if at_most c.observed_at c.now
    then record s {
      last_observed_at = some c.observed_at;
      last_observed_monotonic =
          if not_ahead c.observed_monotonic c.monotonic_now
          then c.observed_monotonic
          else s.last_observed_monotonic;
    }
    else s

-- A refusal: later evidence than this is wanted.
unfoldable pub refuse : State → String → Clocks → Supervisor → Supervisor
refuse state reason c s = record s {
  state = state;
  reason = reason;
  reactivation_after = some (if at_most c.observed_at c.now then c.observed_at else c.now);
  reactivation_after_monotonic =
      if not_ahead c.observed_monotonic c.monotonic_now then c.observed_monotonic else none;
}

abbrev path_state : Option PathReason → State
path_state (some storage_ineligible) = recovery_required
path_state _ = degraded

-- The last tests, of the age and of the order of the evidence; `prior` is the supervisor before the
-- observation was recorded.
unfoldable pub judge_times : Clocks → Supervisor → Supervisor → Supervisor
unfolding refuse mark_unknown
judge_times c prior s =
    if before c.now c.observed_at
    then mark_unknown "FUTURE_EVIDENCE" s
    else if not (not_ahead c.observed_monotonic c.monotonic_now)
    then mark_unknown "FUTURE_MONOTONIC_EVIDENCE" s
    else if too_old s.max_evidence_age c.observed_monotonic c.monotonic_now
    then refuse degraded "STALE_EVIDENCE" c s
    else if before s.max_evidence_age (sub c.now c.observed_at)
    then refuse degraded "STALE_EVIDENCE" c s
    else if not_later prior.interrupted_monotonic prior.interrupted_at c
        || not_later prior.reactivation_after_monotonic prior.reactivation_after c
    then record s { state = paused; reason = "FRESH_VALIDATION_REQUIRED" }
    else record s {
      state = active;
      reason = "VALIDATED";
      reactivation_after = none;
      reactivation_after_monotonic = none;
    }

unfoldable pub judge : Request → Clocks → Supervisor → Supervisor → Supervisor
unfolding refuse judge_times
judge q c prior s =
    if not q.permission_granted
    then refuse paused "PERMISSION_DENIED" c s
    else if not q.runtime_eligible
    then refuse paused "RUNTIME_INELIGIBLE" c s
    else if not q.sensor_available
    then refuse degraded "SENSOR_UNAVAILABLE" c s
    else if not q.connected
    then refuse degraded "CONNECTIVITY_UNAVAILABLE" c s
    else if not q.authority_valid
    then refuse recovery_required "AUTHORITY_INVALID" c s
    else if not q.protection_path_eligible
    then refuse (path_state q.protection_path_reason) "PROTECTION_PATH_INELIGIBLE" c s
    else judge_times c prior s

unfoldable pub weigh : Request → Clocks → Supervisor → Supervisor
unfolding record_observation judge mark_unknown
weigh q c s =
    if is_unresolved s
    then record s { state = unknown_physical_state }
    else if regressed s.last_observed_monotonic s.last_observed_at c.observed_monotonic
        c.observed_at
    then mark_unknown "NON_MONOTONIC_EVIDENCE" s
    else judge q c s (record_observation c s)

unfoldable pub validate_body : Request → Supervisor → Result State × Supervisor
unfolding weigh check_request
validate_body q s = elim (check_request q) [
  | err e ↦ (err e, s)
  | ok c ↦ let s' = weigh q c s in (ok s'.state, s')
]
