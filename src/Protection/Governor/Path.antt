-- ===== src/Protection/Governor/Path.antt =====
-- The governor of edge/resource_governor.py under the assessments of
-- control/protection_path_assessment.py.
mod Tests
use audio_bodyguard_alpha.Prelude.{
  ◌≡◌, ◌↔◌, refl, sym, ap, ◌∙◌, String, Bool, true, false, Option, none, some, is_some, Result, ok,
  err, ok_inj, subst,
}
use audio_bodyguard_alpha.Protection.{
  Accelerator, AdmissionDecision, from_admission, StorageSnapshot, from_snapshot, from_assessments,
}
use audio_bodyguard_alpha.Protection.Eligible.{Fits, from_assessments-eligible_iff}
use audio_bodyguard_alpha.Protection.Governor.{
  Profile, Resources, admit_model, select, reject, Meets, Decides, admits, rejects, is_compatible,
  admit_model-Decides,
}

abbrev Admits : AdmissionDecision → Type 0
Admits d =
    (d.is_admitted ≡ true) × (d.reason ≡ "ADMITTED") × (is_some d.selected_accelerator ≡ true)

Decides-Admits :
    (p : Profile) (r : Resources) (x : Result AdmissionDecision) (d : AdmissionDecision)
    → Decides p r x
    → x ≡ ok d
    → Admits d ↔ Meets p r
unfolding select reject
Decides-Admits p r x d (admits a m c) e = (λ _. m, λ _. subst Admits (ok_inj e) (refl, refl, refl))
Decides-Admits p r x d (rejects reason bad) e =
    (λ h. absurd (cc (ap (λ y. y.is_admitted) (ok_inj e), h.0)), λ m. absurd (bad m))

-- With the decision of the governor, the protection path is eligible exactly when every budget of the model is kept,
-- no count of bytes is negative, and the bytes that are required are available.
pub admit_model-eligible_iff :
    (p : Profile) (r : Resources) (s : StorageSnapshot) (d : AdmissionDecision)
    → admit_model p r ≡ ok d
    → ((from_assessments (from_admission d) (from_snapshot s)).is_eligible ≡ true)
      ↔ (Meets p r × Fits s.available_bytes s.required_bytes s.reclaimable_cache_bytes)
admit_model-eligible_iff p r s d e =
    let decision = Decides-Admits p r (admit_model p r) d (admit_model-Decides p r) e in
    let path = from_assessments-eligible_iff d s in
    (λ h. (decision.0 (path.0 h).0, (path.0 h).1), λ h. path.1 (decision.1 h.0, h.1))
