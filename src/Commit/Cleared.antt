-- ===== src/Commit/Cleared.antt =====
-- What a dispatch by device_fabric/physical_commit_gate.py has passed.
mod Tests
use audio_bodyguard_alpha.Prelude.{
  ◌≡◌, ◌≢◌, ◌⊎◌, refl, sym, ap, ◌∙◌, inl, inr, String, Bool, true, false, not, ◌&&◌, ◌==◌, eq_iff,
  Option, none, some, List, [], ◌∷◌, is_some, if◌then◌else◌, Result, ok, err, guard, ◌>>=◌, ◌>>◌,
  arith, Bool-cases, Result-cases, Option-cases, ok_inj, some_inj, subst, all,
}
use audio_bodyguard_alpha.Prelude.Time.{Time, epoch, before}
use audio_bodyguard_alpha.Prelude.Text.{is_named}
use audio_bodyguard_alpha.Json.{Number, finite, non_finite}
use audio_bodyguard_alpha.Lease.{Lease, Decision}
use audio_bodyguard_alpha.Lease
use audio_bodyguard_alpha.Lease.Store.{Store}
use audio_bodyguard_alpha.Lease.Store
use audio_bodyguard_alpha.Evidence.{Hash}
use audio_bodyguard_alpha.Endpoint.Guard.{DeviceState, Intent}
use audio_bodyguard_alpha.Commit.Precondition.{
  Verdict, allow, CapabilityLease, PhysicalSnapshot, evaluate,
}
use audio_bodyguard_alpha.Commit.Precondition.Current.{IsCurrent, evaluate-IsCurrent_iff}
use audio_bodyguard_alpha.Commit.Lowering.{Adaptive, check_proposal-Adaptive}
use audio_bodyguard_alpha.Lease.Store.Active.{IsActive, validate-IsActive}
use audio_bodyguard_alpha.Commit.{
  Proposal, Memory, Adapter, asynchronous, no_transport, not_asynchronous, CommitGate, Outcome,
  refused, dispatched, is_allowed, check_controller, is_true_answer, lowers, key_device,
  judge_lowering, judge_action, judge_proposal, check_proposal, is_timeout, dispatch, when_allowed,
  after_controller, commit_current, commit_intent,
}

-- There is no controller to check, or the authority allows its lease now, which is active.
pub data Controller (g : CommitGate) (s : Store) : Type 0 where
  no_controller :
      g.has_authority ≡ false → g.controller_lease ≡ none → g.controller_now ≡ none → Controller g s
  holds_lease :
      (lease : Lease) (now : Number)
      → g.controller_lease ≡ some lease
      → g.controller_now ≡ some now
      → (Lease.Store.validate lease now s).0 ≡ ok Lease.allow
      → IsActive lease now s
      → Controller g s

is_allowed-eq : (r : Result Decision) → is_allowed r ≡ true → r ≡ ok Lease.allow
unfolding is_allowed
is_allowed-eq r h = ground arith

check_controller-Controller :
    (g : CommitGate) (s : Store) (lease : Option Lease) (now : Option Number)
    → g.controller_lease ≡ lease
    → g.controller_now ≡ now
    → (check_controller g s).0 ≡ true
    → Controller g s
unfolding check_controller
check_controller-Controller g s none now hl hn h =
    let plain : (not g.has_authority && not (is_some g.controller_now)) ≡ true =
      rw (hl, check_controller) at h in
    no_controller (ground (arith, plain)) hl (ground (arith, plain))
check_controller-Controller g s (some lease) none hl hn h = cc (rw (hl, hn, check_controller) at h)
check_controller-Controller g s (some lease) (some now) hl hn h =
    elim (Bool-cases g.has_authority) [
      | inr no_authority ↦ cc (rw (hl, hn, no_authority, check_controller) at h)
      | inl authority ↦
          let allowed =
            is_allowed-eq (Lease.Store.validate lease now s).0
              (rw (hl, hn, authority, check_controller) at h) in
          holds_lease lease now hl hn allowed (validate-IsActive lease now s allowed)
    ]

-- What a dispatched intent has passed. `sent` is what the transport was given.
pub record Cleared (hash : Hash) (g : CommitGate) (q sent : Intent) (lease : CapabilityLease)
    (snapshot : PhysicalSnapshot) (adapter : Adapter) (now : Time) (s : Store) : Type 0 where
  pub same : sent ≡ q
  pub current : IsCurrent hash q lease snapshot now
  pub controller : Controller g s
  pub adaptive : Adaptive g.adaptive_memory g.directive_proposal q
  pub transport : adapter ≡ asynchronous
  pub timed : (t : Time) × (g.transport_timeout_seconds ≡ finite t) × (before epoch t ≡ true)

when_allowed-dispatched :
    (v : Verdict) (rest : Result Outcome) (q : Intent)
    → when_allowed v rest ≡ ok (dispatched q)
    → (v ≡ allow) × (rest ≡ ok (dispatched q))
unfolding when_allowed
when_allowed-dispatched v rest q h = ground (arith, h)

dispatch-dispatched :
    (a : Adapter) (timeout : Number) (q q' : Intent)
    → dispatch a timeout q ≡ ok (dispatched q')
    → (q' ≡ q) × (a ≡ asynchronous) × ((t : Time) × (timeout ≡ finite t) × (before epoch t ≡ true))
unfolding dispatch is_timeout
dispatch-dispatched no_transport timeout q q' h = absurd (cc)
dispatch-dispatched not_asynchronous timeout q q' h = absurd (cc)
dispatch-dispatched asynchronous non_finite q q' h = absurd (cc)
dispatch-dispatched asynchronous (finite t) q q' h =
    (ground (arith, h), refl, (t, refl, ground (arith, h)))

after_controller-dispatched :
    (passes : Bool) (g : CommitGate) (q q' : Intent) (a : Adapter)
    → after_controller passes g q a ≡ ok (dispatched q')
    → (passes ≡ true)
      × (when_allowed
            (check_proposal g.adaptive_memory g.directive_proposal q)
            (dispatch a g.transport_timeout_seconds q)
          ≡ ok (dispatched q'))
unfolding after_controller
after_controller-dispatched true g q q' a h = (refl, h)
after_controller-dispatched false g q q' a h = cc

commit_current-allow :
    (v : Verdict) (g : CommitGate) (q q' : Intent) (a : Adapter) (s : Store)
    → (commit_current v g q a s).0 ≡ ok (dispatched q')
    → (v ≡ allow) × (after_controller (check_controller g s).0 g q a ≡ ok (dispatched q'))
unfolding commit_current
commit_current-allow allow g q q' a s h = (refl, h)
commit_current-allow _ g q q' a s h = cc

-- What the transport is given is the very intent that was committed, and only if the precondition gate
-- finds it current, the authority allows the controller's lease where a controller is given, a proposal
-- that is given is current and for the intent's device, whose volume the intent then lowers, and the
-- transport is asynchronous with a positive timeout.
pub commit_intent-Cleared :
    (hash : Hash) (g : CommitGate) (q q' : Intent) (lease : CapabilityLease)
    (snapshot : PhysicalSnapshot) (adapter : Adapter) (now : Time) (s : Store)
    → (commit_intent hash g q lease snapshot adapter now s).0 ≡ ok (dispatched q')
    → Cleared hash g q q' lease snapshot adapter now s
unfolding commit_intent
commit_intent-Cleared hash g q q' lease snapshot adapter now s h =
    let first = commit_current-allow (evaluate hash q lease snapshot now) g q q' adapter s h in
    let second = after_controller-dispatched (check_controller g s).0 g q q' adapter first.1 in
    let third =
      when_allowed-dispatched (check_proposal g.adaptive_memory g.directive_proposal q)
        (dispatch adapter g.transport_timeout_seconds q) q' second.1 in
    let (same, transport, timed) =
      dispatch-dispatched adapter g.transport_timeout_seconds q q' third.1 in
    record {
      same = same;
      current = (evaluate-IsCurrent_iff hash q lease snapshot now).0 first.0;
      controller =
          check_controller-Controller g s g.controller_lease g.controller_now refl refl second.0;
      adaptive = check_proposal-Adaptive g.adaptive_memory g.directive_proposal q third.0;
      transport = transport;
      timed = timed;
    }
