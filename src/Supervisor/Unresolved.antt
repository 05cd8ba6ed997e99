-- ===== src/Supervisor/Unresolved.antt =====
-- The unknown physical state of control/protection_supervisor.py, under each of its methods.
use audio_bodyguard_alpha.Prelude.{
  ◌≡◌, ◌≢◌, refl, ap, inl, inr, String, Bool, true, false, not, ◌||◌, eq_iff, Option, none, some,
  List, [], ◌∷◌, Result, Result-cases, arith, Bool-cases,
}
use audio_bodyguard_alpha.Prelude.Time.{Time}
use audio_bodyguard_alpha.Json.{Number}
use audio_bodyguard_alpha.Supervisor.{
  is_empty, unknown_physical_state, Supervisor, is_unresolved, member, discard, add_member,
  status_body, age, check_status, interrupt_body, check_interrupt, enter_interrupt, clock_regressed,
  leave_unresolved,
}
use audio_bodyguard_alpha.Supervisor.Validate.{
  Request, require_revalidation_body, check_revalidation, enter_revalidation,
  resolve_physical_transaction_body, check_resolve, resolve, validate_body, check_request, weigh,
}
use audio_bodyguard_alpha.Supervisor.Calls.{count_departure, serialized, Call, resolves}

-- Why the physical state is unknown: an interruption that named no transaction, or one that did.
pub data Cause : Type 0 where
  unnamed : Cause
  transaction : String → Cause

abbrev pub holds : Cause → Supervisor → Bool
holds unnamed s = s.physical_state_unresolved
holds (transaction t) s = member t s.unresolved_transactions

-- The cause stands, and the state says so.
pub record IsLost (c : Cause) (s : Supervisor) : Type 0 where
  pub cause : holds c s ≡ true
  pub state : s.state ≡ unknown_physical_state

-- Only the resolution of its own transaction removes a cause.
abbrev pub ResolvesIt : Cause → Call → Type 0
ResolvesIt (transaction t) (resolves u now m) = t ≡ u
ResolvesIt _ _ = ⊥

abbrev pub None : Cause → List Call → Type 0
None c [] = Unit {0}
None c (x ∷ xs) = (¬ (ResolvesIt c x)) × None c xs

has_some :
    (t : String) (u : Bool) (ts : List String)
    → member t ts ≡ true
    → (u || not (is_empty ts)) ≡ true
unfolding member
has_some t u [] h = absurd (cc)
has_some t true (x ∷ ts) h = refl
has_some t false (x ∷ ts) h = refl

pub holds-unresolved : (c : Cause) (s : Supervisor) → holds c s ≡ true → is_unresolved s ≡ true
holds-unresolved unnamed s h = rw h
holds-unresolved (transaction t) s h =
    has_some t s.physical_state_unresolved s.unresolved_transactions h

count_departure-IsLost :
    (c : Cause) (p s : Supervisor) → IsLost c s → IsLost c (count_departure p s)
unfolding count_departure
count_departure-IsLost unnamed p s h = record {
  cause = ground (arith, h.cause);
  state = ground (arith, h.state);
}
count_departure-IsLost (transaction t) p s h = record {
  cause = ground (arith, h.cause);
  state = ground (arith, h.state);
}

pub serialized-IsLost {ℓ} :
    {A : Type ℓ} (c : Cause) (m : Supervisor → Result A × Supervisor) (s : Supervisor)
    → IsLost c (m s).1
    → IsLost c (serialized m s).1
unfolding serialized
serialized-IsLost c m s h = count_departure-IsLost c s (m s).1 h

member-add_member :
    (t u : String) (ts : List String) → member t ts ≡ true → member t (add_member u ts) ≡ true
unfolding member add_member
member-add_member t u ts h = ground arith

member-discard :
    (t u : String) (ts : List String) → t ≢ u → member t ts ≡ true → member t (discard u ts) ≡ true
unfolding member discard
member-discard t u [] ne h = absurd (cc)
member-discard t u (x ∷ ts) ne h = ground (arith, eq_iff x t, eq_iff x u, member-discard t u ts ne)

age-lost :
    (now m : Option Time) (s : Supervisor)
    → s.state ≡ unknown_physical_state
    → age now m s.state s.last_observed_at s ≡ s
unfolding age
age-lost now m s e = ap (λ st. age now m st s.last_observed_at s) e

pub leave_unresolved-holds :
    (d : Cause) (s : Supervisor) (known : Bool) (t : Option String)
    → holds d s ≡ true
    → holds d (leave_unresolved known t s) ≡ true
unfolding leave_unresolved
leave_unresolved-holds d s true t k = k
leave_unresolved-holds unnamed s false none k = refl
leave_unresolved-holds (transaction u) s false none k = k
leave_unresolved-holds unnamed s false (some t) k = k
leave_unresolved-holds (transaction u) s false (some t) k =
    member-add_member u t s.unresolved_transactions k

-- setting the state alone keeps every cause
still :
    (c : Cause) (s : Supervisor)
    → holds c s ≡ true
    → IsLost c (record s { state = unknown_physical_state })
still unnamed s h = record { cause = h; state = refl }
still (transaction t) s h = record { cause = h; state = refl }

pub enter_interrupt-IsLost :
    (r : String) (now : Time) (m : Option Time) (known : Bool) (t : Option String) (c : Cause)
    → (s : Supervisor) → holds c s ≡ true
    → IsLost c (enter_interrupt r now m known t s)
unfolding enter_interrupt
enter_interrupt-IsLost r now m known t unnamed s h =
    let k = leave_unresolved-holds unnamed s known t h in
    record { cause = k; state = rw (holds-unresolved unnamed (leave_unresolved known t s) k) refl }
enter_interrupt-IsLost r now m known t (transaction u) s h =
    let k = leave_unresolved-holds (transaction u) s known t h in
    record {
      cause = k;
      state = rw (holds-unresolved (transaction u) (leave_unresolved known t s) k) refl;
    }

enter_revalidation-IsLost :
    (r : String) (o : Option Time) (now : Time) (m : Option Time) (known : Bool) (c : Cause)
    → (s : Supervisor) → holds c s ≡ true
    → IsLost c (enter_revalidation r o now m known s)
unfolding enter_revalidation
enter_revalidation-IsLost r o now m known unnamed s h = record {
  cause = rw h refl;
  state = rw h refl;
}
enter_revalidation-IsLost r o now m known (transaction t) s h = record {
  cause = h;
  state =
      rw (has_some t (s.physical_state_unresolved || not known) s.unresolved_transactions h) refl;
}

resolve-IsLost :
    (t : String) (a : Time) (b : Option Time) (now : Number) (m : Option Number) (c : Cause)
    → (s : Supervisor) → holds c s ≡ true
    → ¬ (ResolvesIt c (resolves t now m))
    → IsLost c (resolve t a b s)
unfolding resolve
resolve-IsLost t a b now m unnamed s h other =
    elim (Bool-cases (member t s.unresolved_transactions)) [
      | inl there ↦ rw (there, h) (record { cause = refl; state = refl })
      | inr gone ↦ rw gone (record { cause = h; state = refl })
    ]
resolve-IsLost t a b now m (transaction u) s h other =
    let kept = member-discard u t s.unresolved_transactions other h in
    elim (Bool-cases (member t s.unresolved_transactions)) [
      | inl there ↦
          rw
            (
              there,
              has_some u s.physical_state_unresolved (discard t s.unresolved_transactions) kept,
            )
            (record { cause = kept; state = refl })
      | inr gone ↦ rw gone (record { cause = h; state = refl })
    ]

module _ (c : Cause) (s : Supervisor) (h : IsLost c s) where
  pub status_body-IsLost : (now m : Option Number) → IsLost c (status_body now m s).1
  unfolding status_body
  status_body-IsLost now m = elim (Result-cases (check_status now m)) [
    | inl ((a, b), e) ↦ rw (e, status_body) (rw (age-lost a b s h.state) h)
    | inr (x, e) ↦ rw (e, status_body) h
  ]

  pub interrupt_body-IsLost :
      (r : String) (now : Number) (m : Option Number) (known : Bool) (t : Option String)
      → IsLost c (interrupt_body r now m known t s).1
  unfolding interrupt_body
  interrupt_body-IsLost r now m known t = elim (Result-cases (check_interrupt r now m known t)) [
    | inl ((a, b), e) ↦
        rw (e, interrupt_body)
          (elim (Bool-cases (clock_regressed b a s)) [
            | inl late ↦ rw late h
            | inr fine ↦ rw fine (enter_interrupt-IsLost r a b known t c s h.cause)
          ])
    | inr (x, e) ↦ rw (e, interrupt_body) h
  ]

  pub require_revalidation_body-IsLost :
      (r : String) (o : Option Number) (now : Number) (m : Option Number) (known : Bool)
      → IsLost c (require_revalidation_body r o now m known s).1
  unfolding require_revalidation_body
  require_revalidation_body-IsLost r o now m known =
      elim (Result-cases (check_revalidation r o now m)) [
        | inl ((a, b, d), e) ↦
            rw (e, require_revalidation_body) (enter_revalidation-IsLost r a b d known c s h.cause)
        | inr (x, e) ↦ rw (e, require_revalidation_body) h
      ]

  pub resolve_physical_transaction_body-IsLost :
      (t : String) (now : Number) (m : Option Number)
      → ¬ (ResolvesIt c (resolves t now m))
      → IsLost c (resolve_physical_transaction_body t now m s).1
  unfolding resolve_physical_transaction_body
  resolve_physical_transaction_body-IsLost t now m other =
      elim (Result-cases (check_resolve t now m)) [
        | inl ((a, b), e) ↦
            rw (e, resolve_physical_transaction_body) (resolve-IsLost t a b now m c s h.cause other)
        | inr (x, e) ↦ rw (e, resolve_physical_transaction_body) h
      ]

  pub validate_body-IsLost : (q : Request) → IsLost c (validate_body q s).1
  unfolding validate_body weigh
  validate_body-IsLost q = elim (Result-cases (check_request q)) [
    | inl (x, e) ↦ rw (e, validate_body) (rw (holds-unresolved c s h.cause) (still c s h.cause))
    | inr (x, e) ↦ rw (e, validate_body) h
  ]
