-- ===== src/Protection/Refresh.antt =====
-- control/protection_evidence.py: the coordinator that shows the supervisor new evidence, or interrupts
-- it.
mod Tests
use audio_bodyguard_alpha.Prelude.{
  ◌≡◌, refl, sym, ap, ◌∙◌, inl, inr, String, Bool, true, false, not, ◌&&◌, Option, none, some,
  if◌then◌else◌, Result, ok, err, Error, value_error, runtime_error, other_error, ◌>>=◌, ◌>>◌,
  guard, arith, Bool-cases, Result-cases, ok_inj, subst,
}
use audio_bodyguard_alpha.Prelude.Time.{Time}
use audio_bodyguard_alpha.Json.{Number}
use audio_bodyguard_alpha.Supervisor.{
  State, active, PathReason, eligible, Supervisor, is_active, check_interrupt, interrupt_body,
  enter_interrupt, is_unresolved, clock_regressed,
}
use audio_bodyguard_alpha.Supervisor.Validate.{Request, Clocks, check_request, validate_body, weigh}
use audio_bodyguard_alpha.Supervisor.Calls.{interrupt, validate, serialized, count_departure}
use audio_bodyguard_alpha.Supervisor.Activation.{Qualifies, validate-active_iff, validate-state}
use audio_bodyguard_alpha.Protection.{PathAssessment}

pub data RuntimeMode : Type 0 where
  foreground_interactive user_visible_continuous deferred_maintenance suspended : RuntimeMode

-- `protection_eligible`
unfoldable pub may_protect : RuntimeMode → Bool
may_protect foreground_interactive = true
may_protect user_visible_continuous = true
may_protect _ = false

-- ProtectionEvidence
pub record Evidence : Type 0 where
  pub permission_granted : Bool
  pub runtime_eligible : Bool
  pub sensor_available : Bool
  pub connected : Bool
  pub authority_valid : Bool
  pub protection_path : PathAssessment
  pub observed_at : Number
  pub observed_monotonic : Number
  pub runtime_mode : RuntimeMode

unfoldable pub is_eligible_reason : PathReason → Bool
is_eligible_reason eligible = true
is_eligible_reason _ = false

unfoldable pub same_bool : Bool → Bool → Bool
same_bool true b = b
same_bool false b = not b

-- `protection_path_eligible`
unfoldable pub path_eligible : PathAssessment → Result Bool
path_eligible p = do
  guard (same_bool p.is_eligible (is_eligible_reason p.reason))
      (value_error "protection_path assessment is inconsistent")
  ok p.is_eligible

-- What the provider does: it raises, or returns something else, or evidence.
pub data Provided : Type 0 where
  failure invalid : Provided
  provided : Evidence → Provided

-- `interrupt`, and then the state.
unfoldable pub interrupted : String → Number → Number → Supervisor → Result State × Supervisor
interrupted reason now monotonic_now s =
    let answer = interrupt reason now (some monotonic_now) true none s in
    (answer.0 >> ok answer.1.state, answer.1)

-- The arguments of `validate`.
unfoldable pub request_of : Evidence → Bool → Number → Number → Request
request_of e path_is_eligible now monotonic_now = record {
  permission_granted = e.permission_granted;
  runtime_eligible = e.runtime_eligible;
  sensor_available = e.sensor_available;
  connected = e.connected;
  authority_valid = e.authority_valid;
  protection_path_eligible = path_is_eligible;
  protection_path_reason = some e.protection_path.reason;
  observed_at = e.observed_at;
  now = now;
  observed_monotonic = some e.observed_monotonic;
  monotonic_now = some monotonic_now;
}

-- The body of the `try`.
unfoldable pub validate_path :
    Result Bool → Evidence → Number → Number → Supervisor → Result State × Supervisor
validate_path (err x) e now monotonic_now s = (err x, s)
validate_path (ok b) e now monotonic_now s = validate (request_of e b now monotonic_now) s

unfoldable pub show_evidence : Evidence → Number → Number → Supervisor → Result State × Supervisor
show_evidence e now monotonic_now s =
    if may_protect e.runtime_mode
    then validate_path (path_eligible e.protection_path) e now monotonic_now s
    else interrupted "RUNTIME_MODE_INELIGIBLE" now monotonic_now s

-- `except (TypeError, ValueError, OverflowError)`
unfoldable pub on_value_error :
    Result State × Supervisor → Number → Number → Result State × Supervisor
on_value_error (err (value_error m), s) now monotonic_now =
    interrupted "EVIDENCE_VALIDATION_FAILURE" now monotonic_now s
on_value_error answer now monotonic_now = answer

-- `now` and `monotonic_now` are what the two clocks show after the provider has been asked.
unfoldable pub refresh : Provided → Number → Number → Supervisor → Result State × Supervisor
refresh failure now monotonic_now s = interrupted "EVIDENCE_PROVIDER_FAILURE" now monotonic_now s
refresh invalid now monotonic_now s = interrupted "EVIDENCE_PROVIDER_INVALID" now monotonic_now s
refresh (provided e) now monotonic_now s =
    on_value_error (show_evidence e now monotonic_now s) now monotonic_now

-- What evidence must be for the supervisor to be active by it.
pub record Convinces (p : Provided) (now monotonic_now : Number) (s : Supervisor) : Type 0 where
  pub evidence : Evidence
  pub clocks : Clocks
  pub given : p ≡ provided evidence
  pub mode : may_protect evidence.runtime_mode ≡ true
  pub path : evidence.protection_path.is_eligible ≡ true
  pub well_formed : check_request (request_of evidence true now monotonic_now) ≡ ok clocks
  pub qualifies : Qualifies (request_of evidence true now monotonic_now) clocks s

enter_interrupt-inactive :
    (reason : String) (now : Time) (m : Option Time) (s : Supervisor)
    → is_active (enter_interrupt reason now m true none s).state ≡ false
unfolding enter_interrupt
enter_interrupt-inactive reason now m s = elim (Bool-cases (is_unresolved s)) [
  | inl lost ↦ rw lost refl
  | inr known ↦ rw known refl
]

abbrev unless_late : Bool → Error → Supervisor → Supervisor → Result (Unit {0}) × Supervisor
unless_late late e s t = if late then (err e, s) else (ok tt, t)

unless_late-inactive :
    (late : Bool) (e : Error) (s t : Supervisor)
    → is_active t.state ≡ false
    → (unless_late late e s t).0 ≡ ok tt
    → is_active (unless_late late e s t).1.state ≡ false
unless_late-inactive true e s t quiet h = cc
unless_late-inactive false e s t quiet h = quiet

interrupt_body-inactive :
    (reason : String) (now m : Number) (s : Supervisor)
    → (interrupt_body reason now (some m) true none s).0 ≡ ok tt
    → is_active (interrupt_body reason now (some m) true none s).1.state ≡ false
unfolding interrupt_body
interrupt_body-inactive reason now m s h =
    elim (Result-cases (check_interrupt reason now (some m) true none)) [
      | inr (e, bad) ↦ cc (rw (bad, interrupt_body) at h)
      | inl ((wall, monotonic), fine) ↦
          rw (fine, interrupt_body)
            (unless_late-inactive (clock_regressed monotonic wall s)
              (value_error "interruption time must be monotonic") s
              (enter_interrupt reason wall monotonic true none s)
              (enter_interrupt-inactive reason wall monotonic s) (rw (fine, interrupt_body) at h))
    ]

count_departure-state : (p s : Supervisor) → (count_departure p s).state ≡ s.state
unfolding count_departure
count_departure-state p s = ground arith

-- An interruption that does not raise does not answer ACTIVE.
interrupted-inactive :
    (reason : String) (now m : Number) (s : Supervisor) (x : State)
    → (interrupted reason now m s).0 ≡ ok x
    → is_active x ≡ false
unfolding interrupted interrupt serialized
interrupted-inactive reason now m s x h =
    elim (Result-cases (interrupt_body reason now (some m) true none s).0) [
      | inr (e, bad) ↦ cc (rw bad at h)
      | inl (u, fine) ↦
          let state : (count_departure s (interrupt_body reason now (some m) true none s).1).state
              ≡ x =
            ok_inj (rw fine at h) in
          subst (λ y. is_active y ≡ false)
            (sym (count_departure-state s (interrupt_body reason now (some m) true none s).1)
              ∙ state)
            (interrupt_body-inactive reason now m s fine)
    ]

validate-answer :
    (q : Request) (s : Supervisor) (x : State)
    → (validate q s).0 ≡ ok x
    → (c : Clocks) × (check_request q ≡ ok c) × ((validate q s).1.state ≡ x)
unfolding validate serialized validate_body
validate-answer q s x h = elim (Result-cases (check_request q)) [
  | inr (e, bad) ↦ cc (rw (bad, validate_body) at h)
  | inl (c, fine) ↦ (c, fine, validate-state q c s fine ∙ ok_inj (rw (fine, validate_body) at h))
]

path_eligible-ok : (p : PathAssessment) (b : Bool) → path_eligible p ≡ ok b → p.is_eligible ≡ b
unfolding path_eligible
path_eligible-ok p b h = ground (arith, h)

on_value_error-active :
    (a : Result State × Supervisor) (now m : Number)
    → (on_value_error a now m).0 ≡ ok active
    → a.0 ≡ ok active
unfolding on_value_error
on_value_error-active (ok x, s) now m h = h
on_value_error-active (err (value_error e), s) now m h =
    absurd (cc (interrupted-inactive "EVIDENCE_VALIDATION_FAILURE" now m s active h))
on_value_error-active (err (runtime_error e), s) now m h = h
on_value_error-active (err (other_error e), s) now m h = h

shown-Convinces :
    (e : Evidence) (now m : Number) (s : Supervisor)
    → (show_evidence e now m s).0 ≡ ok active
    → Convinces (provided e) now m s
unfolding show_evidence validate_path request_of
shown-Convinces e now m s h = elim (Bool-cases (may_protect e.runtime_mode)) [
  | inr idle ↦
      absurd (cc (interrupted-inactive "RUNTIME_MODE_INELIGIBLE" now m s active (rw idle at h)))
  | inl mode ↦ elim (Result-cases (path_eligible e.protection_path)) [
    | inr (x, bad) ↦ cc (rw (mode, bad) at h)
    | inl (b, fine) ↦
        let q = request_of e b now m in
        let answer = validate-answer q s active (rw (mode, fine) at h) in
        let good : Qualifies q answer.0 s =
          (validate-active_iff q answer.0 s answer.1).0 (ap is_active answer.2) in
        let open_path : b ≡ true = good.granted.path in
        record {
          evidence = e;
          clocks = answer.0;
          given = refl;
          mode = mode;
          path = path_eligible-ok e.protection_path b fine ∙ open_path;
          well_formed =
              subst (λ y. check_request (request_of e y now m) ≡ ok answer.0) open_path answer.1;
          qualifies = subst (λ y. Qualifies (request_of e y now m) answer.0 s) open_path good;
        }
  ]
]

-- A refresh answers ACTIVE only if the provider gave evidence, in a mode that may protect, with an eligible path,
-- and the supervisor qualifies by it.
pub refresh-Convinces :
    (p : Provided) (now m : Number) (s : Supervisor)
    → (refresh p now m s).0 ≡ ok active
    → Convinces p now m s
unfolding refresh
refresh-Convinces failure now m s h =
    absurd (cc (interrupted-inactive "EVIDENCE_PROVIDER_FAILURE" now m s active h))
refresh-Convinces invalid now m s h =
    absurd (cc (interrupted-inactive "EVIDENCE_PROVIDER_INVALID" now m s active h))
refresh-Convinces (provided e) now m s h =
    shown-Convinces e now m s (on_value_error-active (show_evidence e now m s) now m h)
