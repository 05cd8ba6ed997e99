-- ===== src/Supervisor/Generation.antt =====
-- The admission generation of control/protection_supervisor.py, over histories of calls.
use audio_bodyguard_alpha.Prelude.{
  ◌≤◌, ◌<◌, ◌≡◌, refl, inl, inr, String, Bool, true, false, Option, none, some, List, [], ◌∷◌, ◌++◌,
  Result, Result-cases, ok, err, arith, Bool-cases,
}
use audio_bodyguard_alpha.Prelude.Time.{Time}
use audio_bodyguard_alpha.Json.{Number}
use audio_bodyguard_alpha.Supervisor.{
  State, Status, Supervisor, mark_unknown, is_active, status_body, age, check_status,
  interrupt_body, check_interrupt, enter_interrupt,
}
use audio_bodyguard_alpha.Supervisor.Validate.{
  Request, Clocks, require_revalidation_body, check_revalidation, enter_revalidation,
  resolve_physical_transaction_body, check_resolve, resolve, validate_body, check_request, weigh,
  judge, judge_times, refuse, record_observation,
}
use audio_bodyguard_alpha.Supervisor.Calls.{
  count_departure, serialized, stamp, require, status, require_automation, interrupt,
  require_revalidation, resolve_physical_transaction, validate, Call, statuses, requires,
  interrupts, revalidates, resolves, validates, step, run,
}

-- From `s` to `t` the generation has not fallen, and it has risen if `s` was active and `t` is not.
pub record Counts (s t : Supervisor) : Type 0 where
  pub rises : s.admission_generation ≤ t.admission_generation
  pub left :
      is_active s.state ≡ true
      → is_active t.state ≡ false
      → s.admission_generation < t.admission_generation

abbrev Keeps : Supervisor → Supervisor → Type 0
Keeps s t = t.admission_generation ≡ s.admission_generation

count_departure-Counts : (s t : Supervisor) → Keeps s t → Counts s (count_departure s t)
unfolding count_departure
count_departure-Counts s t k = record { rises = ground arith; left = λ a d. ground arith }

serialized-Counts {ℓ} :
    {A : Type ℓ} (m : Supervisor → Result A × Supervisor) (s : Supervisor)
    → Keeps s (m s).1
    → Counts s (serialized m s).1
unfolding serialized
serialized-Counts m s k = count_departure-Counts s (m s).1 k

age-Keeps :
    (now m : Option Time) (st : State) (last : Option Time) (s : Supervisor)
    → Keeps s (age now m st last s)
unfolding age
age-Keeps now m st last s = ground arith

status_body-Keeps : (now m : Option Number) (s : Supervisor) → Keeps s (status_body now m s).1
unfolding status_body
status_body-Keeps now m s = elim (Result-cases (check_status now m)) [
  | inl ((a, b), e) ↦ rw (e, status_body) (age-Keeps a b s.state s.last_observed_at s)
  | inr (x, e) ↦ rw (e, status_body) refl
]

enter_interrupt-Keeps :
    (r : String) (now : Time) (m : Option Time) (known : Bool) (t : Option String) (s : Supervisor)
    → Keeps s (enter_interrupt r now m known t s)
unfolding enter_interrupt
enter_interrupt-Keeps r now m true t s = refl
enter_interrupt-Keeps r now m false none s = refl
enter_interrupt-Keeps r now m false (some t) s = refl

interrupt_body-Keeps :
    (r : String) (now : Number) (m : Option Number) (known : Bool) (t : Option String)
    → (s : Supervisor) → Keeps s (interrupt_body r now m known t s).1
unfolding interrupt_body
interrupt_body-Keeps r now m known t s = elim (Result-cases (check_interrupt r now m known t)) [
  | inl ((a, b), e) ↦ rw (e, interrupt_body) (ground (arith, enter_interrupt-Keeps r a b known t s))
  | inr (x, e) ↦ rw (e, interrupt_body) refl
]

require_revalidation_body-Keeps :
    (r : String) (o : Option Number) (now : Number) (m : Option Number) (known : Bool)
    → (s : Supervisor) → Keeps s (require_revalidation_body r o now m known s).1
unfolding require_revalidation_body enter_revalidation
require_revalidation_body-Keeps r o now m known s =
    elim (Result-cases (check_revalidation r o now m)) [
      | inl (x, e) ↦ rw (e, require_revalidation_body) refl
      | inr (x, e) ↦ rw (e, require_revalidation_body) refl
    ]

resolve-Keeps :
    (t : String) (now : Time) (m : Option Time) (s : Supervisor) → Keeps s (resolve t now m s)
unfolding resolve
resolve-Keeps t now m s = ground arith

resolve_physical_transaction_body-Keeps :
    (t : String) (now : Number) (m : Option Number) (s : Supervisor)
    → Keeps s (resolve_physical_transaction_body t now m s).1
unfolding resolve_physical_transaction_body
resolve_physical_transaction_body-Keeps t now m s = elim (Result-cases (check_resolve t now m)) [
  | inl ((a, b), e) ↦ rw (e, resolve_physical_transaction_body) (resolve-Keeps t a b s)
  | inr (x, e) ↦ rw (e, resolve_physical_transaction_body) refl
]

judge_times-Keeps : (c : Clocks) (p s : Supervisor) → Keeps s (judge_times c p s)
unfolding judge_times
judge_times-Keeps c p s = ground arith

judge-Keeps : (q : Request) (c : Clocks) (p s : Supervisor) → Keeps s (judge q c p s)
unfolding judge refuse
judge-Keeps q c p s = ground (arith, judge_times-Keeps c p s)

record_observation-Keeps : (c : Clocks) (s : Supervisor) → Keeps s (record_observation c s)
unfolding record_observation
record_observation-Keeps c s = ground arith

weigh-Keeps : (q : Request) (c : Clocks) (s : Supervisor) → Keeps s (weigh q c s)
unfolding weigh mark_unknown
weigh-Keeps q c s =
    ground (arith, judge-Keeps q c s (record_observation c s), record_observation-Keeps c s)

validate_body-Keeps : (q : Request) (s : Supervisor) → Keeps s (validate_body q s).1
unfolding validate_body
validate_body-Keeps q s = elim (Result-cases (check_request q)) [
  | inl (c, e) ↦ rw (e, validate_body) (weigh-Keeps q c s)
  | inr (x, e) ↦ rw (e, validate_body) refl
]

pub stamp-state : (r : Result Status × Supervisor) → (stamp r).1 ≡ r.1
unfolding stamp
stamp-state (ok x, s) = refl
stamp-state (err x, s) = refl

pub require-state : (r : Result Status × Supervisor) → (require r).1 ≡ r.1
unfolding require
require-state (err x, s) = refl
require-state (ok x, s) = ground arith

count_departure-again : (s t : Supervisor) → Counts s t → Counts s (count_departure s t)
unfolding count_departure
count_departure-again s t k = elim (Bool-cases (is_active t.state)) [
  | inl stayed ↦ record { rises = ground (arith, k.rises); left = λ a d. ground (arith, k.left a) }
  | inr gone ↦ record { rises = ground (arith, k.rises); left = λ a d. ground (arith, k.left a) }
]

status-Counts : (now m : Option Number) (s : Supervisor) → Counts s (status now m s).1
unfolding status
status-Counts now m s =
    rw (stamp-state (serialized (status_body now m) s))
      (serialized-Counts (status_body now m) s (status_body-Keeps now m s))

require_automation-Counts :
    (now m : Option Number) (s : Supervisor) → Counts s (require_automation now m s).1
unfolding require_automation serialized
require_automation-Counts now m s =
    rw (stamp-state _)
      (count_departure-again s _ (rw (require-state (status now m s)) (status-Counts now m s)))

-- Every call, whether it raises or not, keeps the generation from falling, and raises it when it takes
-- the supervisor out of ACTIVE.
pub step-Counts : (s : Supervisor) (c : Call) → Counts s (step s c)
unfolding step interrupt require_revalidation resolve_physical_transaction validate
step-Counts s (statuses now m) = status-Counts now m s
step-Counts s (requires now m) = require_automation-Counts now m s
step-Counts s (interrupts r now m known t) =
    serialized-Counts (interrupt_body r now m known t) s (interrupt_body-Keeps r now m known t s)
step-Counts s (revalidates r o now m known) =
    serialized-Counts (require_revalidation_body r o now m known) s
      (require_revalidation_body-Keeps r o now m known s)
step-Counts s (resolves t now m) =
    serialized-Counts (resolve_physical_transaction_body t now m) s
      (resolve_physical_transaction_body-Keeps t now m s)
step-Counts s (validates q) = serialized-Counts (validate_body q) s (validate_body-Keeps q s)

run-rises :
    (s : Supervisor) (cs : List Call) → s.admission_generation ≤ (run s cs).admission_generation
unfolding run
run-rises s [] = omega arith
run-rises s (c ∷ cs) = omega (arith, (step-Counts s c).rises, run-rises (step s c) cs)

-- If a supervisor was active and later, after any calls, its generation is the same, then it is active
-- then, and was active after every shorter history of these calls too.
pub run-unbroken :
    (s : Supervisor) (cs ds : List Call)
    → is_active s.state ≡ true
    → (run s (cs ++ ds)).admission_generation ≡ s.admission_generation
    → is_active (run s cs).state ≡ true
unfolding run
run-unbroken s [] ds a e = a
run-unbroken s (c ∷ cs) ds a e =
    let counts = step-Counts s c in
    let later = run-rises (step s c) (cs ++ ds) in
    elim (Bool-cases (is_active (step s c).state)) [
      | inl still ↦ run-unbroken (step s c) cs ds still (omega (arith, counts.rises))
      | inr gone ↦ absurd (omega (arith, counts.left a gone))
    ]
