-- ===== src/Protection/Eligible.antt =====
-- The assessments of control/protection_path_assessment.py, taken together.
use audio_bodyguard_alpha.Prelude.{ℕ, ◌≤◌, ◌≡◌, ◌↔◌, refl, true, eq_iff, is_some, arith}
use audio_bodyguard_alpha.Prelude.Time.{ℤ, pos, negsuc}
use audio_bodyguard_alpha.Protection.{
  AdmissionDecision, ResourceAssessment, invalid_resource, rejected, assess_rejection,
  from_admission, StoragePlatform, StorageSnapshot, StorageAssessment, invalid_storage, short_of,
  from_counts, count_bytes, from_snapshot, path, is_admitted_reason, is_none_destination, is_nil,
  is_sound_resource, is_sound_storage, from_assessments,
}

from_admission_sound : (d : AdmissionDecision) → is_sound_resource (from_admission d) ≡ true
unfolding is_sound_resource from_admission assess_rejection rejected invalid_resource
    is_admitted_reason is_nil
from_admission_sound d = ground arith

from_admission_iff :
    (d : AdmissionDecision)
    → ((from_admission d).is_eligible ≡ true)
      ↔ ((d.is_admitted ≡ true) × (d.reason ≡ "ADMITTED") × (is_some d.selected_accelerator ≡ true))
unfolding from_admission assess_rejection rejected invalid_resource
from_admission_iff d = ground (arith, eq_iff d.reason "ADMITTED")

-- Enough bytes, of counts that are not negative.
abbrev pub Fits : ℤ → ℤ → ℤ → Type 0
Fits (pos available) (pos required) (pos reclaimable) = required ≤ available
Fits _ _ _ = ⊥

from_counts_sound :
    (p : StoragePlatform) (a r c : ℕ) → is_sound_storage (from_counts p a r c) ≡ true
unfolding is_sound_storage from_counts short_of is_nil is_none_destination
from_counts_sound p a r c = ground arith

count_bytes_sound :
    (p : StoragePlatform) (a r c : ℤ) → is_sound_storage (count_bytes p a r c) ≡ true
unfolding count_bytes is_sound_storage invalid_storage
count_bytes_sound p (pos a) (pos r) (pos c) = from_counts_sound p a r c
count_bytes_sound p (pos a) (pos r) (negsuc c) = refl
count_bytes_sound p (pos a) (negsuc r) c = refl
count_bytes_sound p (negsuc a) r c = refl

from_snapshot_sound : (s : StorageSnapshot) → is_sound_storage (from_snapshot s) ≡ true
unfolding from_snapshot
from_snapshot_sound s =
    count_bytes_sound s.platform s.available_bytes s.required_bytes s.reclaimable_cache_bytes

from_counts_iff :
    (p : StoragePlatform) (a r c : ℕ) → ((from_counts p a r c).is_eligible ≡ true) ↔ (r ≤ a)
unfolding from_counts short_of
from_counts_iff p a r c = ground arith

count_bytes_iff :
    (p : StoragePlatform) (a r c : ℤ) → ((count_bytes p a r c).is_eligible ≡ true) ↔ Fits a r c
unfolding count_bytes invalid_storage
count_bytes_iff p (pos a) (pos r) (pos c) = from_counts_iff p a r c
count_bytes_iff p (pos a) (pos r) (negsuc c) = (λ e. cc, λ e. absurd e)
count_bytes_iff p (pos a) (negsuc r) c = (λ e. cc, λ e. absurd e)
count_bytes_iff p (negsuc a) r c = (λ e. cc, λ e. absurd e)

from_assessments_iff :
    (r : ResourceAssessment) (s : StorageAssessment)
    → is_sound_resource r ≡ true
    → is_sound_storage s ≡ true
    → ((from_assessments r s).is_eligible ≡ true)
      ↔ ((r.is_eligible ≡ true) × (s.is_eligible ≡ true))
unfolding from_assessments path
from_assessments_iff r s hr hs = ground (arith, hr, hs)

-- The protection path of a resource decision and a storage snapshot is eligible exactly when the
-- decision admits for the reason "ADMITTED" with an accelerator, no count of bytes is negative, and the
-- bytes that are required are available.
pub from_assessments-eligible_iff :
    (d : AdmissionDecision) (s : StorageSnapshot)
    → ((from_assessments (from_admission d) (from_snapshot s)).is_eligible ≡ true) ↔ (
        ((d.is_admitted ≡ true) × (d.reason ≡ "ADMITTED") × (is_some d.selected_accelerator ≡ true))
        × Fits s.available_bytes s.required_bytes s.reclaimable_cache_bytes)
unfolding from_snapshot
from_assessments-eligible_iff d s =
    let both =
      from_assessments_iff (from_admission d) (from_snapshot s) (from_admission_sound d)
        (from_snapshot_sound s) in
    let storage =
      count_bytes_iff s.platform s.available_bytes s.required_bytes s.reclaimable_cache_bytes in
    (
      λ h. ((from_admission_iff d).0 (both.0 h).0, storage.0 (both.0 h).1),
      λ h. both.1 ((from_admission_iff d).1 h.0, storage.1 h.1),
    )
