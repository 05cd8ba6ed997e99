-- ===== src/Commit/Precondition.antt =====
-- device_fabric/precondition_gate.py, with the capability lease and the snapshot of
-- device_fabric/contracts.py.
pub mod Current
use audio_bodyguard_alpha.Prelude.{
  suc, ◌*◌, ◌-◌, ◌≡◌, String, Bool, true, false, not, ◌&&◌, ◌||◌, ◌==◌, eq_iff, Option, none, some,
  List, any, if◌then◌else◌, arith,
}
use audio_bodyguard_alpha.Prelude.Time.{
  ℤ, pos, negsuc, Time, epoch, before, same_time, same_time_iff, sub, at_most,
}
use audio_bodyguard_alpha.Json.{Number, finite, non_finite}
use audio_bodyguard_alpha.Evidence.{Hash}
use audio_bodyguard_alpha.Endpoint.Guard.{DeviceState, state_digest, Intent}

pub data Verdict : Type 0 where
  allow device_mismatch capability_denied epoch_drift precondition_drift auth_expired : Verdict
  intent_expired world_state_stale controller_fence_stale adaptive_proposal_invalid : Verdict
  adaptive_action_mismatch : Verdict

-- A datetime: with its timezone, and then its timestamp, or without.
pub data Stamp : Type 0 where
  aware : Time → Stamp
  naive : Stamp

-- CapabilityLease, the fields that the gate reads.
pub record CapabilityLease : Type 0 where
  pub device_id : String
  pub capabilities : List String
  pub granted_actions : List String
  pub valid_from : Option Stamp
  pub expires_at : Option Stamp
  pub authorized_epoch : ℤ
  pub max_world_state_age_ms : Number
  pub max_clock_skew_ms : Number

-- PhysicalSnapshot
pub record PhysicalSnapshot : Type 0 where
  pub device_id : String
  pub state : DeviceState
  pub epoch_number : ℤ
  pub observed_at : Number

-- `permits`
unfoldable pub permits : CapabilityLease → String → Bool
permits lease action =
    any (λ a. a == action) lease.capabilities || any (λ a. a == action) lease.granted_actions

-- The lease's window, whose ends may be missing but not without a timezone.
unfoldable pub has_begun : Option Stamp → Time → Bool
has_begun none now = true
has_begun (some naive) now = false
has_begun (some (aware t)) now = not (before now t)

unfoldable pub is_unexpired : Option Stamp → Time → Bool
is_unexpired none now = true
is_unexpired (some naive) now = false
is_unexpired (some (aware t)) now = before now t

-- A deadline is finite and not negative; 0 stands for none.
unfoldable pub in_time : Number → Time → Bool
in_time non_finite now = false
in_time (finite deadline) now =
    at_most epoch deadline && (same_time deadline epoch || before now deadline)

-- `x * 1000.0`
unfoldable pub thousand : Time → Time
thousand (pos n) = pos (n * 1000)
thousand (negsuc n) = negsuc (suc n * 1000 - 1)

-- `limit > 0 and (a - b) * 1000.0 > limit` does not hold
unfoldable pub within : Time → Time → Time → Bool
within limit a b = not (before epoch limit && before limit (thousand (sub a b)))

unfoldable pub is_fresh : Number → Number → Number → Time → Bool
is_fresh (finite skew) (finite age) (finite observed) now =
    at_most epoch skew && at_most epoch age && within skew observed now && within age now observed
is_fresh _ _ _ now = false

unfoldable pub is_expected_state : Hash → Option DeviceState → PhysicalSnapshot → Bool
is_expected_state hash none s = false
is_expected_state hash (some expected) s = state_digest hash expected == state_digest hash s.state

-- PreconditionGate.evaluate at the time `now`
unfoldable pub evaluate : Hash → Intent → CapabilityLease → PhysicalSnapshot → Time → Verdict
evaluate hash q lease s now =
    if not (q.device_id == lease.device_id && q.device_id == s.device_id)
    then device_mismatch
    else if not (permits lease q.operation)
    then capability_denied
    else if not (has_begun lease.valid_from now && is_unexpired lease.expires_at now)
    then auth_expired
    else if not (in_time q.deadline_at now)
    then intent_expired
    else if not (same_time lease.authorized_epoch s.epoch_number)
    then epoch_drift
    else if not (is_fresh lease.max_clock_skew_ms lease.max_world_state_age_ms s.observed_at now)
    then world_state_stale
    else if not (is_expected_state hash q.expected_pre_state s)
    then precondition_drift
    else allow
