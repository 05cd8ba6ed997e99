-- ===== src/Supervisor.antt =====
-- control/protection_supervisor.py: whether automation may act, by the evidence it was shown. The
-- methods without their decorator; `Supervisor.Calls` puts `_serialized` round them.
pub mod Validate
pub mod Calls
pub mod Generation
pub mod Unresolved
pub mod Lost
pub mod Activation
mod Tests
use audio_bodyguard_alpha.Prelude.{
  ℕ, String, Bool, true, false, not, ◌&&◌, ◌||◌, ◌==◌, Option, none, some, List, [], ◌∷◌,
  if◌then◌else◌, is_some, Result, ok, err, Error, value_error, runtime_error, ◌>>=◌, ◌>>◌, guard,
}
use audio_bodyguard_alpha.Prelude.Time.{Time, epoch, before, at_most, sub}
use audio_bodyguard_alpha.Prelude.Text.{is_named, is_trimmed}
use audio_bodyguard_alpha.Json.{Number, finite, non_finite}

pub data State : Type 0 where
  active degraded paused recovery_required unknown_physical_state : State

-- `ProtectionPathReason`
pub data PathReason : Type 0 where
  eligible resource_ineligible storage_ineligible invalid_assessment : PathReason

abbrev pub is_active : State → Bool
is_active active = true
is_active _ = false

pub record Supervisor : Type 0 where
  pub max_evidence_age : Time
  pub state : State
  pub reason : String
  pub interrupted_at : Option Time
  pub interrupted_monotonic : Option Time
  pub last_observed_at : Option Time
  pub last_observed_monotonic : Option Time
  pub reactivation_after : Option Time
  pub reactivation_after_monotonic : Option Time
  pub physical_state_unresolved : Bool
  pub unresolved_transactions : List String
  pub admission_generation : ℕ

pub record Status : Type 0 where
  pub state : State
  pub reason : String
  pub automation_allowed : Bool
  pub observed_at : Option Time
  pub admission_generation : ℕ

unfoldable pub finite_time : Number → String → Result Time
finite_time (finite t) name = ok t
finite_time non_finite name = err (value_error name)

-- `None if value is None else self._finite(value, name)`
unfoldable pub optional_time : Option Number → String → Result (Option Time)
unfolding finite_time
optional_time none name = ok none
optional_time (some n) name = do t ← finite_time n name; ok (some t)

-- `__init__`
unfoldable pub new_supervisor : Number → Result Supervisor
unfolding finite_time
new_supervisor max_evidence_age = do
  age ← finite_time max_evidence_age "max_evidence_age must be finite"
  guard (before epoch age) (value_error "max_evidence_age must be positive")
  ok (record {
    max_evidence_age = age;
    state = paused;
    reason = "NOT_VALIDATED";
    interrupted_at = none;
    interrupted_monotonic = none;
    last_observed_at = none;
    last_observed_monotonic = none;
    reactivation_after = none;
    reactivation_after_monotonic = none;
    physical_state_unresolved = false;
    unresolved_transactions = [];
    admission_generation = 0;
  })

abbrev is_empty : List String → Bool
is_empty [] = true
is_empty (x ∷ xs) = false

-- `self._physical_state_unresolved or self._unresolved_physical_transactions`
abbrev pub is_unresolved : Supervisor → Bool
is_unresolved s = s.physical_state_unresolved || not (is_empty s.unresolved_transactions)

unfoldable pub member : String → List String → Bool
member t [] = false
member t (x ∷ xs) = x == t || member t xs

unfoldable pub discard : String → List String → List String
discard t [] = []
discard t (x ∷ xs) = let rest = discard t xs in if x == t then rest else x ∷ rest

unfoldable pub add_member : String → List String → List String
unfolding member
add_member t ts = if member t ts then ts else t ∷ ts

-- The evidence on which an active supervisor rests has grown too old.
unfoldable pub mark_stale : Supervisor → Supervisor
mark_stale s = record s {
  state = degraded;
  reason = "STALE_EVIDENCE";
  reactivation_after = s.last_observed_at;
  reactivation_after_monotonic = s.last_observed_monotonic;
}

unfoldable pub mark_unknown : String → Supervisor → Supervisor
mark_unknown reason s = record s { state = unknown_physical_state; reason = reason }

unfoldable pub age_monotonic : Option Time → Time → Supervisor → Supervisor
unfolding mark_stale mark_unknown
age_monotonic none monotonic_time s = mark_unknown "MONOTONIC_BASELINE_REQUIRED" s
age_monotonic (some last) monotonic_time s =
    if before monotonic_time last
    then mark_unknown "NON_MONOTONIC_CLOCK" s
    else if before s.max_evidence_age (sub monotonic_time last)
    then mark_stale s
    else s

unfoldable pub age_wall : Time → Time → Supervisor → Supervisor
unfolding mark_stale mark_unknown
age_wall last current_time s =
    if before current_time last
    then mark_unknown "FUTURE_EVIDENCE" s
    else if before s.max_evidence_age (sub current_time last)
    then mark_stale s
    else s

-- The monotonic clock is used where it is given, and otherwise the wall clock.
unfoldable pub age_by : Option Time → Option Time → Time → Supervisor → Supervisor
unfolding age_monotonic age_wall
age_by current_time (some monotonic_time) last s =
    age_monotonic s.last_observed_monotonic monotonic_time s
age_by (some current_time) none last s = age_wall last current_time s
age_by none none last s = s

unfoldable pub age : Option Time → Option Time → State → Option Time → Supervisor → Supervisor
unfolding age_by
age current_time monotonic_time active (some last) s = age_by current_time monotonic_time last s
age current_time monotonic_time _ _ s = s

unfoldable pub status_of : Supervisor → Status
status_of s = record {
  state = s.state;
  reason = s.reason;
  automation_allowed = is_active s.state;
  observed_at = s.last_observed_at;
  admission_generation = s.admission_generation;
}

unfoldable pub check_status : Option Number → Option Number → Result (Option Time × Option Time)
unfolding optional_time
check_status now monotonic_now = do
  current_time ← optional_time now "now must be finite"
  monotonic_time ← optional_time monotonic_now "monotonic_now must be finite"
  ok (current_time, monotonic_time)

unfoldable pub status_body : Option Number → Option Number → Supervisor → Result Status × Supervisor
unfolding age status_of check_status
status_body now monotonic_now s = elim (check_status now monotonic_now) [
  | err e ↦ (err e, s)
  | ok (current_time, monotonic_time) ↦
      let s' = age current_time monotonic_time s.state s.last_observed_at s in
      (ok (status_of s'), s')
]

-- `a is not None and t < a`
unfoldable pub is_before : Time → Option Time → Bool
is_before t none = false
is_before t (some a) = before t a

abbrev pub clock_regressed : Option Time → Time → Supervisor → Bool
clock_regressed (some monotonic) now s = is_before monotonic s.interrupted_monotonic
clock_regressed none now s = is_before now s.interrupted_at

unfoldable pub or_else : Option Time → Option Time → Option Time
or_else (some t) u = some t
or_else none u = u

-- What an interruption with an unknown physical state leaves unresolved.
unfoldable pub leave_unresolved : Bool → Option String → Supervisor → Supervisor
unfolding add_member
leave_unresolved true transaction s = s
leave_unresolved false none s = record s { physical_state_unresolved = true }
leave_unresolved false (some t) s = record s {
  unresolved_transactions = add_member t s.unresolved_transactions;
}

abbrev is_identifier : Option String → Bool
is_identifier none = true
is_identifier (some t) = is_trimmed t

unfoldable pub check_interrupt :
    String → Number → Option Number → Bool → Option String → Result (Time × Option Time)
unfolding finite_time optional_time
check_interrupt reason now monotonic_now physical_state_known transaction = do
  guard (is_named reason) (value_error "reason must be nonempty")
  guard (is_identifier transaction)
      (value_error "physical_transaction_id must be a nonempty identifier")
  guard (not (physical_state_known && is_some transaction))
      (value_error "known physical state cannot declare an unresolved transaction")
  wall ← finite_time now "now must be finite"
  monotonic ← optional_time monotonic_now "monotonic_now must be finite"
  ok (wall, monotonic)

unfoldable pub enter_interrupt :
    String → Time → Option Time → Bool → Option String → Supervisor → Supervisor
unfolding leave_unresolved or_else
enter_interrupt reason now monotonic physical_state_known transaction s =
    let s' = leave_unresolved physical_state_known transaction s in
    record s' {
      interrupted_at = some now;
      interrupted_monotonic = or_else monotonic s.interrupted_monotonic;
      state = if is_unresolved s' then unknown_physical_state else paused;
      reason = reason;
    }

unfoldable pub interrupt_body :
    String
    → Number
    → Option Number
    → Bool
    → Option String
    → Supervisor
    → Result (Unit {0}) × Supervisor
unfolding check_interrupt enter_interrupt is_before
interrupt_body reason now monotonic_now physical_state_known transaction s =
    elim (check_interrupt reason now monotonic_now physical_state_known transaction) [
      | err e ↦ (err e, s)
      | ok (wall, monotonic) ↦
          if clock_regressed monotonic wall s
          then (err (value_error "interruption time must be monotonic"), s)
          else (ok tt, enter_interrupt reason wall monotonic physical_state_known transaction s)
    ]
