-- ===== src/Protection/Governor.antt =====
-- edge/resource_governor.py, with the enumerations of edge/resource_contract.py: whether a model may be
-- run, and on which accelerator. A set is a list.
pub mod Path
use audio_bodyguard_alpha.Prelude.{
  ℕ, ◌≡◌, refl, sym, ap, ◌∙◌, inl, inr, String, Bool, true, false, not, ◌&&◌, ◌||◌, ◌==◌, Option,
  none, some, List, [], ◌∷◌, any, ltb, if◌then◌else◌, Result, ok, err, Error, other_error, arith,
  Bool-cases,
}
use audio_bodyguard_alpha.Prelude.Time.{ℤ, before, add}
use audio_bodyguard_alpha.Protection.{Accelerator, cpu, gpu, npu, AdmissionDecision}

pub data EnergyTier : Type 0 where
  low moderate high : EnergyTier

pub data ExecutionTier : Type 0 where
  sleep sentinel perception reasoning deep_reasoning : ExecutionTier

-- ModelResourceProfile
pub record Profile : Type 0 where
  pub task : String
  pub execution_tier : ExecutionTier
  pub memory_mb : ℤ
  pub expected_latency_ms : ℤ
  pub energy_tier : EnergyTier
  pub supported_accelerators : List Accelerator
  pub model_version : String
  pub cold_start_latency_ms : ℤ

-- RuntimeResources
pub record Resources : Type 0 where
  pub available_memory_mb : ℤ
  pub available_accelerators : List Accelerator
  pub max_latency_ms : Option ℤ
  pub low_power_mode : Bool
  pub thermal_pressure : Bool
  pub resident_models : List (String × String)
  pub max_execution_tier : Option ExecutionTier

unfoldable pub tier_rank : ExecutionTier → ℕ
tier_rank sleep = 0
tier_rank sentinel = 1
tier_rank perception = 2
tier_rank reasoning = 3
tier_rank deep_reasoning = 4

unfoldable pub same_accelerator : Accelerator → Accelerator → Bool
same_accelerator cpu cpu = true
same_accelerator gpu gpu = true
same_accelerator npu npu = true
same_accelerator _ _ = false

unfoldable pub has_accelerator : Accelerator → List Accelerator → Bool
has_accelerator a [] = false
has_accelerator a (b ∷ bs) = same_accelerator b a || has_accelerator a bs

-- In the intersection of the two sets.
unfoldable pub is_compatible : Profile → Resources → Accelerator → Bool
is_compatible p r a =
    has_accelerator a p.supported_accelerators && has_accelerator a r.available_accelerators

-- The intersection has an element.
unfoldable pub has_common : List Accelerator → List Accelerator → Bool
has_common [] bs = false
has_common (a ∷ xs) bs = has_accelerator a bs || has_common xs bs

unfoldable pub exceeds_tier : ExecutionTier → Option ExecutionTier → Bool
exceeds_tier t none = false
exceeds_tier t (some limit) = ltb (tier_rank limit) (tier_rank t)

unfoldable pub is_high : EnergyTier → Bool
is_high high = true
is_high _ = false

-- `(task, model_version) in resident_models`
unfoldable pub is_resident : Profile → Resources → Bool
is_resident p r = any (λ m. m.0 == p.task && m.1 == p.model_version) r.resident_models

unfoldable pub effective_latency : Profile → Resources → ℤ
effective_latency p r =
    if is_resident p r
    then p.expected_latency_ms
    else add p.expected_latency_ms p.cold_start_latency_ms

unfoldable pub exceeds_latency : Option ℤ → ℤ → Bool
exceeds_latency none latency = false
exceeds_latency (some limit) latency = before limit latency

unfoldable pub reject : String → Result AdmissionDecision
reject reason = ok (record { is_admitted = false; reason = reason; selected_accelerator = none })

unfoldable pub select : Accelerator → Result AdmissionDecision
select a = ok (record { is_admitted = true; reason = "ADMITTED"; selected_accelerator = some a })

-- The loop over NPU, GPU and CPU.
unfoldable pub select_first : Profile → Resources → Result AdmissionDecision
select_first p r =
    if is_compatible p r npu
    then select npu
    else if is_compatible p r gpu
    then select gpu
    else if is_compatible p r cpu
    then select cpu
    else err (other_error "compatible accelerator invariant violated")

-- ResourceGovernor.admit
unfoldable pub admit_model : Profile → Resources → Result AdmissionDecision
admit_model p r =
    if exceeds_tier p.execution_tier r.max_execution_tier
    then reject "EXECUTION_TIER_EXCEEDED"
    else if before r.available_memory_mb p.memory_mb
    then reject "MEMORY_BUDGET_EXCEEDED"
    else if not (has_common p.supported_accelerators r.available_accelerators)
    then reject "NO_COMPATIBLE_ACCELERATOR"
    else if exceeds_latency r.max_latency_ms (effective_latency p r)
    then reject "LATENCY_BUDGET_EXCEEDED"
    else if r.low_power_mode && is_high p.energy_tier
    then reject "LOW_POWER_ENERGY_REJECTED"
    else if r.thermal_pressure && is_high p.energy_tier
    then reject "THERMAL_PRESSURE_REJECTED"
    else select_first p r

-- Every budget is kept.
pub record Meets (p : Profile) (r : Resources) : Type 0 where
  pub tier : exceeds_tier p.execution_tier r.max_execution_tier ≡ false
  pub memory : before r.available_memory_mb p.memory_mb ≡ false
  pub common : has_common p.supported_accelerators r.available_accelerators ≡ true
  pub latency : exceeds_latency r.max_latency_ms (effective_latency p r) ≡ false
  pub power : (r.low_power_mode && is_high p.energy_tier) ≡ false
  pub heat : (r.thermal_pressure && is_high p.energy_tier) ≡ false

-- Admitted on an accelerator of both sets with every budget kept, or rejected with some budget exceeded.
pub data Decides (p : Profile) (r : Resources) : Result AdmissionDecision → Type 0 where
  admits : (a : Accelerator) → Meets p r → is_compatible p r a ≡ true → Decides p r (select a)
  rejects : (reason : String) → ¬ (Meets p r) → Decides p r (reject reason)

common-compatible :
    (xs bs : List Accelerator)
    → has_common xs bs ≡ true
    → ((has_accelerator npu xs && has_accelerator npu bs)
        || (has_accelerator gpu xs && has_accelerator gpu bs)
        || (has_accelerator cpu xs && has_accelerator cpu bs))
      ≡ true
unfolding has_common has_accelerator same_accelerator
common-compatible [] bs h = cc
common-compatible (cpu ∷ xs) bs h = ground (arith, common-compatible xs bs)
common-compatible (gpu ∷ xs) bs h = ground (arith, common-compatible xs bs)
common-compatible (npu ∷ xs) bs h = ground (arith, common-compatible xs bs)

select_first-Decides : (p : Profile) (r : Resources) → Meets p r → Decides p r (select_first p r)
unfolding select_first is_compatible
select_first-Decides p r m = elim (Bool-cases (is_compatible p r npu)) [
  | inl one ↦ rw one (admits npu m one)
  | inr no_npu ↦ elim (Bool-cases (is_compatible p r gpu)) [
    | inl two ↦ rw (no_npu, two) (admits gpu m two)
    | inr no_gpu ↦ elim (Bool-cases (is_compatible p r cpu)) [
      | inl three ↦ rw (no_npu, no_gpu, three) (admits cpu m three)
      | inr no_cpu ↦ absurd (
          cc (
            rw (no_npu, no_gpu, no_cpu) at
              (common-compatible p.supported_accelerators r.available_accelerators m.common)))
    ]
  ]
]

-- The governor never raises: it admits on an accelerator that the model supports and the device has, with every
-- budget kept, or it rejects, with some budget exceeded.
pub admit_model-Decides : (p : Profile) (r : Resources) → Decides p r (admit_model p r)
unfolding admit_model
admit_model-Decides p r = elim (Bool-cases (exceeds_tier p.execution_tier r.max_execution_tier)) [
  | inl a ↦ rw a (rejects "EXECUTION_TIER_EXCEEDED" (λ m. cc (m.tier, a)))
  | inr a ↦ elim (Bool-cases (before r.available_memory_mb p.memory_mb)) [
    | inl b ↦ rw (a, b) (rejects "MEMORY_BUDGET_EXCEEDED" (λ m. cc (m.memory, b)))
    | inr b ↦ elim (Bool-cases (has_common p.supported_accelerators r.available_accelerators)) [
      | inr c ↦ rw (a, b, c) (rejects "NO_COMPATIBLE_ACCELERATOR" (λ m. cc (m.common, c)))
      | inl c ↦ elim (Bool-cases (exceeds_latency r.max_latency_ms (effective_latency p r))) [
        | inl d ↦ rw (a, b, c, d) (rejects "LATENCY_BUDGET_EXCEEDED" (λ m. cc (m.latency, d)))
        | inr d ↦ elim (Bool-cases (r.low_power_mode && is_high p.energy_tier)) [
          | inl e ↦ rw (a, b, c, d, e) (rejects "LOW_POWER_ENERGY_REJECTED" (λ m. cc (m.power, e)))
          | inr e ↦ elim (Bool-cases (r.thermal_pressure && is_high p.energy_tier)) [
            | inl f ↦
                rw (a, b, c, d, e, f) (rejects "THERMAL_PRESSURE_REJECTED" (λ m. cc (m.heat, f)))
            | inr f ↦
                rw (a, b, c, d, e, f)
                  (select_first-Decides p r
                    (record { tier = a; memory = b; common = c; latency = d; power = e; heat = f }))
          ]
        ]
      ]
    ]
  ]
]
