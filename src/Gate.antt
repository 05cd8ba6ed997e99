-- ===== src/Gate.antt =====
-- control/controller_authority_gate.py: a command is let through once, for the controller that holds
-- the resource. The watermarks are kept in memory and, where there is a path, in a file.
pub mod Codec
pub mod Watermark
pub mod Soundness
pub mod History
mod Tests
use audio_bodyguard_alpha.Prelude.{
  ℕ, String, Bool, true, false, not, ◌&&◌, ◌||◌, ◌==◌, Option, none, some, List, [], ◌∷◌, ltb, leb,
  eqb, if◌then◌else◌, Result, ok, err, Error, other_error, ◌>>=◌,
}
use audio_bodyguard_alpha.Prelude.Time.{Time}
use audio_bodyguard_alpha.Prelude.Text.{is_named}
use audio_bodyguard_alpha.Prelude.Dict.{Dict, get, put}
use audio_bodyguard_alpha.Json.{Number, finite, non_finite}
use audio_bodyguard_alpha.Lease.{Lease, Verifier}
use audio_bodyguard_alpha.Lease
use audio_bodyguard_alpha.Lease.Store.{Store, File, missing, unreadable, holds}
use audio_bodyguard_alpha.Lease.Store
use audio_bodyguard_alpha.Evidence.{Hash}
use audio_bodyguard_alpha.Evidence.LeaseGrant.{LeaseGrant, GrantDecision, granted, validate_grant}
use audio_bodyguard_alpha.Evidence.Remote.{
  AtomicRequest, RemoteResult, KeyVerifier, ResultDecision, accepted, validate_result,
}
use audio_bodyguard_alpha.Evidence.Command.{
  Proof, CommandDecision, commanded, validate_command, validate_remote_command,
}
use Codec.{encode_marks, decode_marks}

-- A fencing token, and the highest sequence accepted under it.
abbrev pub Mark : Type 0
Mark = ℕ × ℕ

pub record Gate : Type 0 where
  pub durable : Bool
  pub watermarks : Dict Mark
  pub file : File

-- The verifiers that the gate was made with.
pub record Keys : Type 0 where
  pub hash : Hash
  pub grant_verifiers : Dict Verifier
  pub command_verifiers : Dict Verifier
  pub result_verifiers : Option (Dict KeyVerifier)

pub data Admission : Type 0 where
  admitted grant_rejected stale_fence lease_rejected command_rejected replayed_sequence : Admission

unfoldable pub load_file : File → Result (Dict Mark)
load_file missing = ok []
load_file unreadable = err (other_error "json.load")
load_file (holds raw) = decode_marks raw

-- What a call sees once the guard is open; a gate without a file reads nothing.
unfoldable pub open_gate : Gate → Result (Dict Mark)
unfolding load_file
open_gate g = if g.durable then load_file g.file else ok g.watermarks

-- `_save_state` before the assignment; `saved` is false when the file system refuses, and the old file
-- is still there.
unfoldable pub commit_marks : Dict Mark → Bool → Gate → Result Admission × Gate
commit_marks marks saved g =
    if g.durable
    then if saved
      then (ok admitted, record g { watermarks = marks; file = holds (encode_marks marks) })
      else (err (other_error "OSError"), g)
    else (ok admitted, record g { watermarks = marks })

-- The watermark refuses an older fence, and under the same fence a sequence that it has reached.
unfoldable pub judge_mark : Option Mark → Mark → Admission
judge_mark none mark = admitted
judge_mark (some (fence, highest)) (token, sequence) =
    if ltb token fence
    then stale_fence
    else if eqb token fence && leb sequence highest
    then replayed_sequence
    else admitted

unfoldable pub is_admitted : Admission → Bool
is_admitted admitted = true
is_admitted _ = false

unfoldable pub pass_mark : String → Mark → Bool → Gate → Result Admission × Gate
unfolding is_admitted
pass_mark resource_id mark saved g =
    let verdict = judge_mark (get resource_id g.watermarks) mark in
    if is_admitted verdict
    then commit_marks (put resource_id mark g.watermarks) saved g
    else (ok verdict, g)

-- `expected_action_digest is None`, or it is named and the proof's
unfoldable pub is_expected : Option String → Proof → Bool
is_expected none p = true
is_expected (some expected) p = is_named expected && p.action_digest == expected

unfoldable pub is_commanded : CommandDecision → Bool
is_commanded commanded = true
is_commanded _ = false

unfoldable pub pass_command :
    CommandDecision → Option String → Proof → String → ℕ → Bool → Gate → Result Admission × Gate
unfolding is_commanded
pass_command decision expected p resource_id token saved g =
    if is_commanded decision && is_expected expected p
    then pass_mark resource_id (token, p.command_sequence) saved g
    else (ok command_rejected, g)

-- What the authority says of the lease.
unfoldable pub pass_lease :
    Result Lease.Decision → (Gate → Result Admission × Gate) → Gate → Result Admission × Gate
pass_lease (err e) rest g = (err e, g)
pass_lease (ok Lease.allow) rest g = rest g
pass_lease (ok Lease.stale_fence) rest g = (ok stale_fence, g)
pass_lease (ok _) rest g = (ok lease_rejected, g)

-- The lease that the evidence names; its times are finite once it has been accepted.
unfoldable pub claimed : String → String → ℕ → Number → Number → Option Lease
claimed resource_id controller_id token (finite issued) (finite expires) = some (record {
  resource_id = resource_id;
  controller_id = controller_id;
  fencing_token = token;
  issued_at = issued;
  expires_at = expires;
})
claimed _ _ _ _ _ = none

-- The authority's answer on it, and the authority's state after.
abbrev Answered : Type 0
Answered = Result Admission × Gate × Store

unfoldable pub ask_authority :
    Option Lease → Number → (Gate → Result Admission × Gate) → Gate → Store → Answered
ask_authority none now rest g s = (ok grant_rejected, g, s)
ask_authority (some lease) now rest g s =
    let (answer, s') = Lease.Store.validate lease now s in
    let (verdict, g') = pass_lease answer rest g in (verdict, g', s')

unfoldable pub is_granted : GrantDecision → Bool
is_granted granted = true
is_granted _ = false

unfoldable pub is_accepted : ResultDecision → Bool
is_accepted accepted = true
is_accepted _ = false

-- `_load_state`, which replaces the memory, and what follows it.
unfoldable pub with_marks : (Gate → Store → Answered) → Gate → Store → Answered
with_marks rest g s = elim (open_gate g) [
  | err e ↦ (err e, g, s)
  | ok marks ↦ rest (record g { watermarks = marks }) s
]

unfoldable pub validate :
    Keys → LeaseGrant → Proof → Number → Option String → Bool → Gate → Store → Answered
unfolding is_granted
validate keys grant proof now expected saved = with_marks λ g s.
    if is_granted (validate_grant keys.grant_verifiers grant now)
    then ask_authority
        (claimed grant.resource_id grant.controller_id grant.fencing_token grant.issued_at
          grant.expires_at)
        now
        (pass_command (validate_command keys.hash keys.command_verifiers proof grant) expected proof
          grant.resource_id grant.fencing_token saved)
        g s
    else (ok grant_rejected, g, s)

unfoldable pub judge_remote : Keys → AtomicRequest → RemoteResult → Number → Bool
unfolding is_accepted
judge_remote keys request result now = elim keys.result_verifiers [
  | none ↦ false
  | some verifiers ↦ is_accepted (validate_result keys.hash verifiers request result now)
]

unfoldable pub validate_remote :
    Keys
    → AtomicRequest
    → RemoteResult
    → Proof
    → Number
    → Option String
    → Bool
    → Gate
    → Store
    → Answered
unfolding judge_remote
validate_remote keys request result proof now expected saved = with_marks λ g s.
    if judge_remote keys request result now
    then ask_authority
        (claimed result.resource_id result.controller_id result.fencing_token result.issued_at
          result.expires_at)
        now
        (pass_command (validate_remote_command keys.hash keys.command_verifiers proof result)
          expected proof result.resource_id result.fencing_token saved)
        g s
    else (ok grant_rejected, g, s)
