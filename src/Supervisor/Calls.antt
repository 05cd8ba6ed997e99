-- ===== src/Supervisor/Calls.antt =====
-- `_serialized` of control/protection_supervisor.py round each public method, and histories of calls.
use audio_bodyguard_alpha.Prelude.{
  ◌+◌, String, Bool, not, ◌&&◌, Option, List, [], ◌∷◌, eqb, if◌then◌else◌, Result, ok, err,
  runtime_error,
}
use audio_bodyguard_alpha.Json.{Number}
use audio_bodyguard_alpha.Supervisor.{
  State, Status, Supervisor, is_active, status_body, interrupt_body,
}
use audio_bodyguard_alpha.Supervisor.Validate.{
  Request, require_revalidation_body, resolve_physical_transaction_body, validate_body,
}

-- The method has left ACTIVE, and no method inside it has counted that yet.
unfoldable pub count_departure : Supervisor → Supervisor → Supervisor
count_departure prior s =
    if is_active prior.state
      && not (is_active s.state)
      && eqb s.admission_generation prior.admission_generation
    then record s { admission_generation = prior.admission_generation + 1 }
    else s

unfoldable pub serialized {ℓ} :
    {A : Type ℓ} → (Supervisor → Result A × Supervisor) → Supervisor → Result A × Supervisor
unfolding count_departure
serialized method s = let (result, s') = method s in (result, count_departure s s')

-- A status that is returned has the generation as it is after the call.
unfoldable pub stamp : Result Status × Supervisor → Result Status × Supervisor
stamp (ok status, s) = (ok (record status { admission_generation = s.admission_generation }), s)
stamp (err e, s) = (err e, s)

unfoldable pub status : Option Number → Option Number → Supervisor → Result Status × Supervisor
unfolding serialized stamp
status now monotonic_now s = stamp (serialized (status_body now monotonic_now) s)

-- `raise ProtectionUnavailableError(status)`
unfoldable pub require : Result Status × Supervisor → Result Status × Supervisor
require (err e, s) = (err e, s)
require (ok status, s) =
    if status.automation_allowed
    then (ok status, s)
    else (err (runtime_error "automation unavailable"), s)

unfoldable pub require_automation :
    Option Number → Option Number → Supervisor → Result Status × Supervisor
unfolding serialized stamp require status
require_automation now monotonic_now s =
    stamp (serialized (λ t. require (status now monotonic_now t)) s)

unfoldable pub interrupt :
    String
    → Number
    → Option Number
    → Bool
    → Option String
    → Supervisor
    → Result (Unit {0}) × Supervisor
unfolding serialized
interrupt reason now monotonic_now physical_state_known transaction =
    serialized (interrupt_body reason now monotonic_now physical_state_known transaction)

unfoldable pub require_revalidation :
    String → Option Number → Number → Option Number → Bool → Supervisor → Result State × Supervisor
unfolding serialized
require_revalidation reason observed_at now monotonic_now physical_state_known =
    serialized (require_revalidation_body reason observed_at now monotonic_now physical_state_known)

unfoldable pub resolve_physical_transaction :
    String → Number → Option Number → Supervisor → Result State × Supervisor
unfolding serialized
resolve_physical_transaction transaction now monotonic_now =
    serialized (resolve_physical_transaction_body transaction now monotonic_now)

unfoldable pub validate : Request → Supervisor → Result State × Supervisor
unfolding serialized
validate q = serialized (validate_body q)

-- A call of a client, which may raise.
pub data Call : Type 0 where
  statuses requires : Option Number → Option Number → Call
  interrupts : String → Number → Option Number → Bool → Option String → Call
  revalidates : String → Option Number → Number → Option Number → Bool → Call
  resolves : String → Number → Option Number → Call
  validates : Request → Call

unfoldable pub step : Supervisor → Call → Supervisor
step s (statuses now m) = (status now m s).1
step s (requires now m) = (require_automation now m s).1
step s (interrupts r now m known t) = (interrupt r now m known t s).1
step s (revalidates r o now m known) = (require_revalidation r o now m known s).1
step s (resolves t now m) = (resolve_physical_transaction t now m s).1
step s (validates q) = (validate q s).1

unfoldable pub run : Supervisor → List Call → Supervisor
run s [] = s
run s (c ∷ cs) = run (step s c) cs
