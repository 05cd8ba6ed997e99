-- ===== src/Commit.antt =====
-- device_fabric/precondition_gate.py and device_fabric/physical_commit_gate.py: the last checks before
-- an intent is dispatched to a device.
pub mod Precondition
pub mod Cleared
pub mod Lowering
use audio_bodyguard_alpha.Prelude.{
  ℕ, String, Bool, true, false, not, ◌&&◌, ◌||◌, ◌==◌, Option, none, some, List, [], ◌∷◌, all,
  is_some, if◌then◌else◌, Result, ok, err, value_error, ◌>>=◌, ◌>>◌, guard,
}
use audio_bodyguard_alpha.Prelude.Text.{is_named}
use audio_bodyguard_alpha.Prelude.Time.{Time, epoch, before}
use audio_bodyguard_alpha.Json.{Number, finite, non_finite}
use audio_bodyguard_alpha.Lease.{Lease, Decision}
use audio_bodyguard_alpha.Lease
use audio_bodyguard_alpha.Lease.Store.{Store}
use audio_bodyguard_alpha.Lease.Store
use audio_bodyguard_alpha.Evidence.{Hash}
use audio_bodyguard_alpha.Endpoint.Guard.{DeviceState, Intent}
use Precondition.{
  Verdict, allow, device_mismatch, controller_fence_stale, adaptive_proposal_invalid,
  adaptive_action_mismatch, CapabilityLease, PhysicalSnapshot, evaluate,
}

-- A directive proposal of the adaptive memory: its key and its action.
pub record Proposal : Type 0 where
  pub key : List String
  pub action : String

-- `adaptive_memory.proposal_is_current`, which is not modelled.
abbrev pub Memory : Type 0
Memory = Proposal → Result Bool

-- The adapter that is given: none or no transport, one that is not asynchronous, or a good one.
pub data Adapter : Type 0 where
  no_transport not_asynchronous asynchronous : Adapter

-- PhysicalCommitGate; the authority's state is an argument of `commit`, where there is an authority.
pub record CommitGate : Type 0 where
  pub adaptive_memory : Option Memory
  pub directive_proposal : Option Proposal
  pub has_authority : Bool
  pub controller_lease : Option Lease
  pub controller_now : Option Number
  pub transport_timeout_seconds : Number

-- What `commit` comes to: a refusal, or the intent handed to the transport.
pub data Outcome : Type 0 where
  refused : Verdict → Outcome
  dispatched : Intent → Outcome

unfoldable pub is_allowed : Result Decision → Bool
is_allowed (ok Lease.allow) = true
is_allowed _ = false

-- The controller's check, made when any of its three parts is there: whether it passes, and the
-- authority's state after.
unfoldable pub check_controller : CommitGate → Store → Bool × Store
check_controller g s = elim g.controller_lease [
  | none ↦ (not g.has_authority && not (is_some g.controller_now), s)
  | some lease ↦ elim g.controller_now [
    | none ↦ (false, s)
    | some now ↦
        if g.has_authority
        then (let answer = Lease.Store.validate lease now s in (is_allowed answer.0, answer.1))
        else (false, s)
  ]
]

unfoldable pub is_true_answer : Result Bool → Bool
is_true_answer (ok b) = b
is_true_answer (err e) = false

-- `not after < before` of two volumes, which are finite numbers
unfoldable pub lowers : Option DeviceState → Option DeviceState → Result Bool
lowers (some target) (some expected) = elim target.volume [
  | non_finite ↦ ok false
  | finite after ↦ elim expected.volume [
    | non_finite ↦ ok false
    | finite volume ↦ ok (before after volume)
  ]
]
lowers _ _ = err (value_error "AttributeError")

-- The device of a key of four named parts.
unfoldable pub key_device : List String → Option String
key_device (a ∷ b ∷ c ∷ d ∷ []) =
    if is_named a && is_named b && is_named c && is_named d then some b else none
key_device _ = none

-- What remains of the proposal's check once it is current; an exception makes it invalid.
unfoldable pub judge_lowering : Result Bool → Verdict
judge_lowering (err e) = adaptive_proposal_invalid
judge_lowering (ok true) = allow
judge_lowering (ok false) = adaptive_action_mismatch

unfoldable pub judge_action : Proposal → Intent → Verdict
judge_action p q =
    if p.action == "lower_volume" && q.operation == "set_volume"
    then judge_lowering (lowers q.target_state q.expected_pre_state)
    else adaptive_action_mismatch

unfoldable pub judge_proposal : Proposal → Intent → Verdict
judge_proposal p q = elim (key_device p.key) [
  | none ↦ adaptive_proposal_invalid
  | some device ↦ if device == q.device_id then judge_action p q else device_mismatch
]

-- The proposal's check, made when either of its parts is there.
unfoldable pub check_proposal : Option Memory → Option Proposal → Intent → Verdict
check_proposal none none q = allow
check_proposal (some memory) (some p) q =
    if is_true_answer (memory p) then judge_proposal p q else adaptive_proposal_invalid
check_proposal _ _ q = adaptive_proposal_invalid

-- A finite positive number of seconds.
unfoldable pub is_timeout : Number → Bool
is_timeout non_finite = false
is_timeout (finite t) = before epoch t

-- The tests of the adapter, and of the timeout in `dispatch_physical_transport`.
unfoldable pub dispatch : Adapter → Number → Intent → Result Outcome
dispatch no_transport timeout q =
    err (value_error "Device Fabric adapter with execute_intent() is required")
dispatch not_asynchronous timeout q =
    err (value_error "Device Fabric adapter must implement asynchronous PhysicalTransport")
dispatch asynchronous timeout q = do
  guard (is_timeout timeout) (value_error "timeout_seconds must be a finite positive number")
  ok (dispatched q)

-- Goes on where the verdict is to allow.
unfoldable pub when_allowed : Verdict → Result Outcome → Result Outcome
when_allowed allow rest = rest
when_allowed v rest = ok (refused v)

unfoldable pub after_controller : Bool → CommitGate → Intent → Adapter → Result Outcome
after_controller false g q adapter = ok (refused controller_fence_stale)
after_controller true g q adapter =
    when_allowed (check_proposal g.adaptive_memory g.directive_proposal q)
      (dispatch adapter g.transport_timeout_seconds q)

unfoldable pub commit_current :
    Verdict → CommitGate → Intent → Adapter → Store → Result Outcome × Store
commit_current allow g q adapter s =
    let checked = check_controller g s in (after_controller checked.0 g q adapter, checked.1)
commit_current v g q adapter s = (ok (refused v), s)

-- `commit`, at the time `now` that the precondition gate reads.
unfoldable pub commit_intent :
    Hash
    → CommitGate
    → Intent
    → CapabilityLease
    → PhysicalSnapshot
    → Adapter
    → Time
    → Store
    → Result Outcome × Store
commit_intent hash g q lease snapshot adapter now s =
    commit_current (evaluate hash q lease snapshot now) g q adapter s
