-- ===== src/Supervisor/Lost.antt =====
-- Histories of control/protection_supervisor.py after an unknown physical state.
use audio_bodyguard_alpha.Prelude.{
  ◌≡◌, refl, ap, inl, inr, String, true, false, eq_refl, Option, none, some, List, [], ◌∷◌,
  Result-cases, ok, Bool-cases,
}
use audio_bodyguard_alpha.Prelude.Time.{Time}
use audio_bodyguard_alpha.Json.{Number}
use audio_bodyguard_alpha.Supervisor.{
  unknown_physical_state, Supervisor, is_active, member, add_member, status_body, interrupt_body,
  check_interrupt, enter_interrupt, clock_regressed, leave_unresolved,
}
use audio_bodyguard_alpha.Supervisor.Validate.{
  require_revalidation_body, resolve_physical_transaction_body, validate_body,
}
use audio_bodyguard_alpha.Supervisor.Calls.{
  serialized, require, status, require_automation, interrupt, require_revalidation,
  resolve_physical_transaction, validate, Call, statuses, requires, interrupts, revalidates,
  resolves, validates, step, run,
}
use audio_bodyguard_alpha.Supervisor.Generation.{stamp-state, require-state}
use audio_bodyguard_alpha.Supervisor.Unresolved.{
  Cause, unnamed, transaction, IsLost, ResolvesIt, None, holds-unresolved, serialized-IsLost,
  status_body-IsLost, interrupt_body-IsLost, require_revalidation_body-IsLost,
  resolve_physical_transaction_body-IsLost, validate_body-IsLost,
}

status-IsLost :
    (c : Cause) (s : Supervisor)
    → IsLost c s
    → (now m : Option Number) → IsLost c (status now m s).1
unfolding status
status-IsLost c s h now m =
    rw (stamp-state (serialized (status_body now m) s))
      (serialized-IsLost c (status_body now m) s (status_body-IsLost c s h now m))

-- A call that does not resolve the cause leaves the state unknown.
step-IsLost :
    (c : Cause) (s : Supervisor) (x : Call) → ¬ (ResolvesIt c x) → IsLost c s → IsLost c (step s x)
unfolding step status require_automation interrupt require_revalidation resolve_physical_transaction
    validate
step-IsLost c s (statuses now m) other h = status-IsLost c s h now m
step-IsLost c s (requires now m) other h =
    rw (stamp-state (serialized (λ t. require (status now m t)) s)) (
      serialized-IsLost c (λ t. require (status now m t)) s
        (rw (require-state (status now m s)) (status-IsLost c s h now m)))
step-IsLost c s (interrupts r now m known t) other h =
    serialized-IsLost c (interrupt_body r now m known t) s
      (interrupt_body-IsLost c s h r now m known t)
step-IsLost c s (revalidates r o now m known) other h =
    serialized-IsLost c (require_revalidation_body r o now m known) s
      (require_revalidation_body-IsLost c s h r o now m known)
step-IsLost c s (resolves t now m) other h =
    serialized-IsLost c (resolve_physical_transaction_body t now m) s
      (resolve_physical_transaction_body-IsLost c s h t now m other)
step-IsLost c s (validates q) other h =
    serialized-IsLost c (validate_body q) s (validate_body-IsLost c s h q)

run-IsLost :
    (c : Cause) (s : Supervisor) (xs : List Call) → None c xs → IsLost c s → IsLost c (run s xs)
unfolding run
run-IsLost c s [] other h = h
run-IsLost c s (x ∷ xs) other h = run-IsLost c (step s x) xs other.1 (step-IsLost c s x other.0 h)

-- The cause that an interruption with an unknown physical state leaves.
abbrev pub cause_of : Option String → Cause
cause_of none = unnamed
cause_of (some t) = transaction t

member-add_member_self : (t : String) (ts : List String) → member t (add_member t ts) ≡ true
unfolding member add_member
member-add_member_self t ts = elim (Bool-cases (member t ts)) [
  | inl old ↦ rw old old
  | inr new ↦ rw (new, eq_refl t) refl
]

enter_unknown-IsLost :
    (r : String) (now : Time) (m : Option Time) (t : Option String) (s : Supervisor)
    → IsLost (cause_of t) (enter_interrupt r now m false t s)
unfolding enter_interrupt leave_unresolved
enter_unknown-IsLost r now m none s = record { cause = refl; state = refl }
enter_unknown-IsLost r now m (some t) s =
    let k = member-add_member_self t s.unresolved_transactions in
    let u : Supervisor = record s {
      unresolved_transactions = add_member t s.unresolved_transactions;
    } in
    record { cause = k; state = rw (holds-unresolved (transaction t) u k) refl }

interrupt_unknown-IsLost :
    (r : String) (now : Number) (m : Option Number) (t : Option String) (s : Supervisor)
    → (interrupt_body r now m false t s).0 ≡ ok tt
    → IsLost (cause_of t) (interrupt_body r now m false t s).1
unfolding interrupt_body
interrupt_unknown-IsLost r now m t s e = elim (Result-cases (check_interrupt r now m false t)) [
  | inr (x, c) ↦ absurd (cc (rw (c, interrupt_body) at e))
  | inl ((a, b), c) ↦ elim (Bool-cases (clock_regressed b a s)) [
    | inl late ↦ absurd (cc (rw (late) at (rw (c, interrupt_body) at e)))
    | inr fine ↦ rw (c, interrupt_body) (rw fine (enter_unknown-IsLost r a b t s))
  ]
]

-- After an interruption that returned and left the physical state unknown, the state is
-- UNKNOWN_PHYSICAL_STATE, and automation is not allowed, after any further calls among which none
-- resolves the transaction that it named; if it named none, after any further calls at all.
pub interrupt-unknown :
    (r : String) (now : Number) (m : Option Number) (t : Option String) (s s' : Supervisor)
    → (xs : List Call) → interrupt r now m false t s ≡ (ok tt, s')
    → None (cause_of t) xs
    → ((run s' xs).state ≡ unknown_physical_state) × (is_active (run s' xs).state ≡ false)
unfolding interrupt serialized
interrupt-unknown r now m t s s' xs e other =
    let body = interrupt_unknown-IsLost r now m t s (ap (λ x. x.0) e) in
    let begun = serialized-IsLost (cause_of t) (interrupt_body r now m false t) s body in
    let lost : IsLost (cause_of t) s' = rw (← ap (λ x. x.1) e) begun in
    let last = run-IsLost (cause_of t) s' xs other lost in (last.state, rw last.state refl)
