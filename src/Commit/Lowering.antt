-- ===== src/Commit/Lowering.antt =====
-- What the commit gate of device_fabric/physical_commit_gate.py has found of a proposal that it lets
-- through.
use audio_bodyguard_alpha.Prelude.{
  ◌≡◌, ◌⊎◌, refl, ap, ◌∙◌, inl, inr, String, Bool, true, ◌&&◌, ◌==◌, eq_iff, Option, none, some,
  List, [], ◌∷◌, Result, ok, err, arith, Bool-cases, Option-cases, ok_inj, some_inj, all,
}
use audio_bodyguard_alpha.Prelude.Time.{Time, before}
use audio_bodyguard_alpha.Prelude.Text.{is_named}
use audio_bodyguard_alpha.Json.{Number, finite, non_finite}
use audio_bodyguard_alpha.Endpoint.Guard.{DeviceState, Intent}
use audio_bodyguard_alpha.Commit.Precondition.{allow}
use audio_bodyguard_alpha.Commit.{
  Proposal, Memory, is_true_answer, lowers, key_device, judge_lowering, judge_action,
  judge_proposal, check_proposal,
}

-- The intent's target has a lower volume than the state that it expects.
pub record Lowers (q : Intent) : Type 0 where
  pub target : DeviceState
  pub expected : DeviceState
  pub after : Time
  pub volume : Time
  pub target_state : q.target_state ≡ some target
  pub expected_state : q.expected_pre_state ≡ some expected
  pub after_finite : target.volume ≡ finite after
  pub volume_finite : expected.volume ≡ finite volume
  pub lower : before after volume ≡ true

-- The second of the four named parts of a key is the device.
pub record IsFor (device : String) (key : List String) : Type 0 where
  pub first : String
  pub third : String
  pub fourth : String
  pub parts : key ≡ first ∷ device ∷ third ∷ fourth ∷ []
  pub named : all is_named key ≡ true

-- There is no proposal to check, or it is current, for this device, and the intent lowers the volume.
pub data Adaptive (memory : Option Memory) (proposal : Option Proposal) (q : Intent) : Type 0 where
  no_proposal : memory ≡ none → proposal ≡ none → Adaptive memory proposal q
  lowers_volume :
      (m : Memory) (p : Proposal)
      → memory ≡ some m
      → proposal ≡ some p
      → m p ≡ ok true
      → IsFor q.device_id p.key
      → p.action ≡ "lower_volume"
      → q.operation ≡ "set_volume"
      → Lowers q
      → Adaptive memory proposal q

is_true_answer-eq : (r : Result Bool) → is_true_answer r ≡ true → r ≡ ok true
unfolding is_true_answer
is_true_answer-eq (ok b) h = ap ok h
is_true_answer-eq (err e) h = cc

judge_lowering-allow : (r : Result Bool) → judge_lowering r ≡ allow → r ≡ ok true
unfolding judge_lowering
judge_lowering-allow r h = ground arith

judge_action-allow :
    (p : Proposal) (q : Intent)
    → judge_action p q ≡ allow
    → (p.action ≡ "lower_volume")
      × (q.operation ≡ "set_volume")
      × (lowers q.target_state q.expected_pre_state ≡ ok true)
unfolding judge_action
judge_action-allow p q h =
    elim (Bool-cases (p.action == "lower_volume" && q.operation == "set_volume")) [
      | inr other ↦ cc (rw other at h)
      | inl same ↦ (
        ground (arith, same, eq_iff p.action "lower_volume"),
        ground (arith, same, eq_iff q.operation "set_volume"),
        judge_lowering-allow (lowers q.target_state q.expected_pre_state) (rw same at h),
      )
    ]

Number-cases : (n : Number) → (n ≡ non_finite) ⊎ ((t : Time) × (n ≡ finite t))
Number-cases non_finite = inl refl
Number-cases (finite t) = inr (t, refl)

lowers-Lowers :
    (q : Intent) (o p : Option DeviceState)
    → q.target_state ≡ o
    → q.expected_pre_state ≡ p
    → lowers o p ≡ ok true
    → Lowers q
unfolding lowers
lowers-Lowers q none p at_o at_p h = absurd (cc)
lowers-Lowers q (some target) none at_o at_p h = absurd (cc)
lowers-Lowers q (some target) (some expected) at_o at_p h = elim (Number-cases target.volume) [
  | inl e ↦ absurd (cc (rw (e, lowers) at h))
  | inr (after, e) ↦ elim (Number-cases expected.volume) [
    | inl f ↦ absurd (cc (rw (e, f, lowers) at h))
    | inr (volume, f) ↦ record {
      target = target;
      expected = expected;
      after = after;
      volume = volume;
      target_state = at_o;
      expected_state = at_p;
      after_finite = e;
      volume_finite = f;
      lower = ok_inj (rw (e, f, lowers) at h);
    }
  ]
]

key_device-IsFor :
    (key : List String) (device : String) → key_device key ≡ some device → IsFor device key
unfolding key_device
key_device-IsFor (a ∷ b ∷ c ∷ d ∷ []) device h =
    elim (Bool-cases (is_named a && is_named b && is_named c && is_named d)) [
      | inr unnamed ↦ absurd (cc (rw unnamed at h))
      | inl named ↦ record {
        first = a;
        third = c;
        fourth = d;
        parts = ap (λ x. a ∷ x ∷ c ∷ d ∷ []) (some_inj (rw named at h));
        named = ground (arith, named);
      }
    ]
key_device-IsFor _ device h = absurd (cc)

judge_proposal-allow :
    (p : Proposal) (q : Intent)
    → judge_proposal p q ≡ allow
    → (key_device p.key ≡ some q.device_id) × (judge_action p q ≡ allow)
unfolding judge_proposal
judge_proposal-allow p q h = elim (Option-cases (key_device p.key)) [
  | inl missing ↦ cc (rw (missing, judge_proposal) at h)
  | inr (device, found) ↦ elim (Bool-cases (device == q.device_id)) [
    | inr other ↦ cc (rw (found, other, judge_proposal) at h)
    | inl same ↦ (
      found ∙ ap some ((eq_iff device q.device_id).0 same),
      rw (found, same, judge_proposal) at h,
    )
  ]
]

pub check_proposal-Adaptive :
    (memory : Option Memory) (proposal : Option Proposal) (q : Intent)
    → check_proposal memory proposal q ≡ allow
    → Adaptive memory proposal q
unfolding check_proposal
check_proposal-Adaptive none none q h = no_proposal refl refl
check_proposal-Adaptive none (some p) q h = cc
check_proposal-Adaptive (some m) none q h = cc
check_proposal-Adaptive (some m) (some p) q h = elim (Bool-cases (is_true_answer (m p))) [
  | inr out ↦ cc (rw out at h)
  | inl current ↦
      let parts = judge_proposal-allow p q (rw current at h) in
      let action = judge_action-allow p q parts.1 in
      lowers_volume m p refl refl (is_true_answer-eq (m p) current)
        (key_device-IsFor p.key q.device_id parts.0) action.0 action.1
        (lowers-Lowers q q.target_state q.expected_pre_state refl refl action.2)
]
