-- ===== src/Checkpoint/Store/Restorer.antt =====
-- The restorer of control/protection_supervisor_checkpoint.py, which hands what was loaded to the
-- supervisor.
use audio_bodyguard_alpha.Prelude.{
  String, Bool, true, false, ◌==◌, Option, none, some, if◌then◌else◌, Result, ok, err, value_error,
  runtime_error, ◌>>=◌, ◌>>◌, guard,
}
use audio_bodyguard_alpha.Prelude.Text.{is_trimmed}
use audio_bodyguard_alpha.Json.{Number, finite}
use audio_bodyguard_alpha.Supervisor.{
  State, unknown_physical_state, Supervisor, is_active, finite_time, optional_time,
}
use audio_bodyguard_alpha.Supervisor.Calls.{require_revalidation}
use audio_bodyguard_alpha.Checkpoint.{Checkpoint, in_time}
use audio_bodyguard_alpha.Checkpoint.Anchor.{
  Fault, rollback_detected, anchor_unavailable, raised, Reply, reply, failed,
}

-- `ProtectionSupervisorCheckpointRestorer.restore`: the reason, and whether the physical state is known
unfoldable pub restore_reason : Checkpoint → State → String → String × Bool
restore_reason c unknown_physical_state generation = (c.reason, false)
restore_reason c state generation =
    if c.runtime_generation == generation
    then ("RUNTIME_GENERATION_REUSE", true)
    else if is_active state
    then ("HISTORICAL_ACTIVE_REQUIRES_REVALIDATION", true)
    else ("CHECKPOINT_REVALIDATION_REQUIRED", true)

unfoldable pub check_restore : String → Number → Option Number → Result (Unit {0})
unfolding finite_time optional_time
check_restore generation now monotonic_now = do
  guard (is_trimmed generation)
      (value_error "current_runtime_generation must be a nonempty identifier")
  wall ← finite_time now "now must be finite"
  monotonic ← optional_time monotonic_now "monotonic_now must be finite"
  ok tt

unfoldable pub restore :
    Checkpoint → String → Number → Option Number → Supervisor → Result State × Supervisor
unfolding check_restore restore_reason
restore c generation now monotonic_now s = elim (check_restore generation now monotonic_now) [
  | err e ↦ (err e, s)
  | ok _ ↦
      let (reason, known) = restore_reason c c.state generation in
      require_revalidation reason (some (finite (in_time c.observed_at))) now monotonic_now known s
]

unfoldable pub fault_reason : Fault → String
fault_reason rollback_detected = "CHECKPOINT_ROLLBACK_DETECTED"
fault_reason (anchor_unavailable e) = "CHECKPOINT_FRESHNESS_ANCHOR_UNAVAILABLE"
fault_reason (raised e) = "CHECKPOINT_UNAVAILABLE_OR_INVALID"

-- A RuntimeError is not caught.
unfoldable pub restore_loaded :
    Reply Checkpoint → String → Number → Option Number → Supervisor → Result State × Supervisor
unfolding restore fault_reason
restore_loaded (reply c) generation now monotonic_now s = restore c generation now monotonic_now s
restore_loaded (failed (raised (runtime_error e))) generation now monotonic_now s =
    (err (runtime_error e), s)
restore_loaded (failed f) generation now monotonic_now s =
    require_revalidation (fault_reason f) none now monotonic_now true s

-- `restore_from_store`, of what the store's `load` gives
unfoldable pub restore_from_store :
    Reply Checkpoint → String → Number → Option Number → Supervisor → Result State × Supervisor
unfolding restore_loaded
restore_from_store loaded generation now monotonic_now s =
    if is_trimmed generation
    then restore_loaded loaded generation now monotonic_now s
    else (err (value_error "current_runtime_generation must be a nonempty identifier"), s)
