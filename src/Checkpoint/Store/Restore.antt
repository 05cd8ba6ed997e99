-- ===== src/Checkpoint/Store/Restore.antt =====
-- ProtectionSupervisorCheckpointRestorer of control/protection_supervisor_checkpoint.py: what the
-- supervisor is after a restore, whatever the store gave.
use audio_bodyguard_alpha.Prelude.{
  ◌+◌, ◌≡◌, refl, inl, inr, String, Bool, true, false, not, ◌||◌, Option, none, some, arith,
  Bool-cases, ok, runtime_error, value_error, other_error, Result-cases, if◌then◌else◌, ok_inj,
  subst,
}
use audio_bodyguard_alpha.Json.{Number, finite}
use audio_bodyguard_alpha.Supervisor.{
  State, active, degraded, paused, recovery_required, unknown_physical_state, Supervisor, is_active,
  is_unresolved,
}
use audio_bodyguard_alpha.Supervisor.Validate.{
  require_revalidation_body, check_revalidation, enter_revalidation,
}
use audio_bodyguard_alpha.Supervisor.Calls.{require_revalidation, count_departure}
use audio_bodyguard_alpha.Prelude.Time.{Time}
use audio_bodyguard_alpha.Prelude.Text.{is_trimmed}
use audio_bodyguard_alpha.Checkpoint.{Checkpoint, in_time}
use audio_bodyguard_alpha.Checkpoint.Anchor.{
  rollback_detected, anchor_unavailable, raised, Reply, reply, failed,
}
use audio_bodyguard_alpha.Checkpoint.Store.Restorer.{
  restore_reason, check_restore, restore, restore_loaded, restore_from_store,
}

abbrev is_unknown : State → Bool
is_unknown unknown_physical_state = true
is_unknown _ = false

-- The store gave a checkpoint that was taken in an unknown physical state.
abbrev pub was_unknown : Reply Checkpoint → Bool
was_unknown (reply c) = is_unknown c.state
was_unknown (failed f) = false

-- The supervisor `s'` stands where `s` did, but for the evidence that it lost: `u` says whether the
-- physical state is unknown.
pub record IsRestored (u : Bool) (st : State) (s s' : Supervisor) : Type 0 where
  pub answer : st ≡ (if u then unknown_physical_state else recovery_required)
  pub state : s'.state ≡ st
  pub unresolved : is_unresolved s' ≡ u
  pub transactions : s'.unresolved_transactions ≡ s.unresolved_transactions
  pub generation :
      s'.admission_generation
      ≡ (if is_active s.state then s.admission_generation + 1 else s.admission_generation)

body-ok :
    (r : String) (o : Option Number) (now : Number) (m : Option Number) (known : Bool)
    (s : Supervisor) (st : State)
    → (require_revalidation_body r o now m known s).0 ≡ ok st
    → (observed : Option Time) × (wall : Time) × (monotonic : Option Time) × ((enter_revalidation r
          observed wall monotonic known s).state
        ≡ st)
      × ((require_revalidation_body r o now m known s).1
          ≡ enter_revalidation r observed wall monotonic known s)
unfolding require_revalidation_body
body-ok r o now m known s st h = elim (Result-cases (check_revalidation r o now m)) [
  | inr (e, bad) ↦ cc (rw (bad, require_revalidation_body) at h)
  | inl ((observed, wall, monotonic), fine) ↦ (
    observed,
    wall,
    monotonic,
    ok_inj (rw (fine, require_revalidation_body) at h),
    rw (fine, require_revalidation_body) refl,
  )
]

entered :
    (r : String) (observed : Option Time) (wall : Time) (monotonic : Option Time) (known : Bool)
    (s : Supervisor) (st : State)
    → (enter_revalidation r observed wall monotonic known s).state ≡ st
    → IsRestored
        (is_unresolved s || not known)
        st
        s
        (count_departure s (enter_revalidation r observed wall monotonic known s))
unfolding enter_revalidation count_departure
entered r observed wall monotonic known s st h = record {
  answer = ground arith;
  state = ground arith;
  unresolved = ground arith;
  transactions = ground arith;
  generation = ground arith;
}

revalidated :
    (r : String) (o : Option Number) (now : Number) (m : Option Number) (known : Bool)
    (s : Supervisor) (st : State)
    → (require_revalidation r o now m known s).0 ≡ ok st
    → IsRestored (is_unresolved s || not known) st s (require_revalidation r o now m known s).1
unfolding require_revalidation
revalidated r o now m known s st h =
    let (observed, wall, monotonic, state, after) = body-ok r o now m known s st h in
    rw after (entered r observed wall monotonic known s st state)

restore_reason-known :
    (c : Checkpoint) (st : State) (g : String) → not (restore_reason c st g).1 ≡ is_unknown st
unfolding restore_reason
restore_reason-known c active g = ground arith
restore_reason-known c degraded g = ground arith
restore_reason-known c paused g = ground arith
restore_reason-known c recovery_required g = ground arith
restore_reason-known c unknown_physical_state g = refl

restore-IsRestored :
    (c : Checkpoint) (g : String) (now : Number) (m : Option Number) (s : Supervisor) (st : State)
    → (restore c g now m s).0 ≡ ok st
    → IsRestored (is_unresolved s || is_unknown c.state) st s (restore c g now m s).1
unfolding restore
restore-IsRestored c g now m s st h = elim (Result-cases (check_restore g now m)) [
  | inr (e, bad) ↦ cc (rw (bad, restore) at h)
  | inl (u, fine) ↦
      let (reason, known) = restore_reason c c.state g in
      rw (fine, restore)
        (subst
          (λ w.
            IsRestored (is_unresolved s || w) st s
              (require_revalidation reason (some (finite (in_time c.observed_at))) now m known s).1)
          (restore_reason-known c c.state g)
          (revalidated reason (some (finite (in_time c.observed_at))) now m known s st
            (rw (fine, restore) at h)))
]

restore_loaded-IsRestored :
    (loaded : Reply Checkpoint) (g : String) (now : Number) (m : Option Number) (s : Supervisor)
    (st : State)
    → (restore_loaded loaded g now m s).0 ≡ ok st
    → IsRestored (is_unresolved s || was_unknown loaded) st s (restore_loaded loaded g now m s).1
unfolding restore_loaded
restore_loaded-IsRestored (failed rollback_detected) g now m s st h =
    revalidated _ none now m true s st h
restore_loaded-IsRestored (failed (anchor_unavailable e)) g now m s st h =
    revalidated _ none now m true s st h
restore_loaded-IsRestored (failed (raised (value_error e))) g now m s st h =
    revalidated _ none now m true s st h
restore_loaded-IsRestored (failed (raised (runtime_error e))) g now m s st h = cc
restore_loaded-IsRestored (failed (raised (other_error e))) g now m s st h =
    revalidated _ none now m true s st h
restore_loaded-IsRestored (reply c) g now m s st h = restore-IsRestored c g now m s st h

-- A restore that answers, whatever the store gave, never activates: it answers UNKNOWN_PHYSICAL_STATE
-- if the supervisor has an unresolved physical state or the checkpoint was taken in an unknown one, and
-- RECOVERY_REQUIRED otherwise. The supervisor is then in the state that was answered, its physical
-- state is unresolved in just the first case, its unresolved transactions are as before, and its
-- admission generation is one higher if it was active and the same otherwise.
pub restore_from_store-IsRestored :
    (loaded : Reply Checkpoint) (g : String) (now : Number) (m : Option Number) (s : Supervisor)
    (st : State)
    → (restore_from_store loaded g now m s).0 ≡ ok st
    → IsRestored
        (is_unresolved s || was_unknown loaded)
        st
        s
        (restore_from_store loaded g now m s).1
unfolding restore_from_store
restore_from_store-IsRestored loaded g now m s st h = elim (Bool-cases (is_trimmed g)) [
  | inr bad ↦ cc (rw (bad, restore_from_store) at h)
  | inl fine ↦
      rw (fine, restore_from_store)
        (restore_loaded-IsRestored loaded g now m s st (rw (fine, restore_from_store) at h))
]
