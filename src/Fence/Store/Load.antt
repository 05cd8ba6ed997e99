-- ===== src/Fence/Store/Load.antt =====
-- The load of device_fabric/controller_fence_store.py, against its files and its trusted anchor.
use audio_bodyguard_alpha.Prelude.{
  ◌≡◌, refl, ap, ◌∙◌, String, Bool, true, not, ◌&&◌, eq_iff, eq_refl, Option, none, some, [], ◌∷◌,
  is_some, Result, ok, err, arith, inl, inr, Bool-cases, Result-cases, ok_inj, subst,
}
use audio_bodyguard_alpha.Prelude.Dict.{Dict, get}
use audio_bodyguard_alpha.Prelude.Agree.{agree, agree-get, agree-of}
use audio_bodyguard_alpha.Lease.Store.{missing, unreadable, holds, File}
use audio_bodyguard_alpha.Fence.{Value, same_value, same_value-eq, same_value_refl, Anchor}
use audio_bodyguard_alpha.Fence.Codec.{Entry, Records, Valid}
use audio_bodyguard_alpha.Fence.Codec.RoundTrip.{read_envelope-Valid}
use audio_bodyguard_alpha.Fence.Store.{
  Files, read_primary, check_copies, check_trusted, judge_trusted, expected_values, load_state,
  is_empty,
}

pub record Loaded {S : Type 0} (anchor : Option (Anchor S)) (f : Files S) (records : Records)
    (required : Bool) : Type 0 where
  pub monotonic : Bool
  pub read : read_primary f.primary ≡ ok (records, required, monotonic)
  pub anchored : not (monotonic && not (is_some anchor)) ≡ true
  pub copies : check_copies required f.copy records ≡ ok tt
  pub trusts : check_trusted anchor f.trusted records ≡ ok tt

Unit-ok : (r : Result (Unit {0})) (e : Unit {0}) → r ≡ ok e → r ≡ ok tt
Unit-ok (ok tt) e h = refl
Unit-ok (err x) e h = cc

pub load_state-Loaded :
    {S : Type 0} (anchor : Option (Anchor S)) (f : Files S) (records : Records) (legacy : Bool)
    → load_state anchor f ≡ ok (records, legacy)
    → Loaded anchor f records (not legacy)
unfolding load_state
load_state-Loaded anchor f records legacy h = elim (Result-cases (read_primary f.primary)) [
  | inr (e, bad) ↦ cc (rw bad at h)
  | inl ((rs, required, monotonic), fine) ↦
      elim (Bool-cases (not (monotonic && not (is_some anchor)))) [
        | inr refused ↦ cc (rw (fine, refused) at h)
        | inl allowed ↦ elim (Result-cases (check_copies required f.copy rs)) [
          | inr (e, bad) ↦ cc (rw (fine, allowed, bad) at h)
          | inl (u, copied) ↦ elim (Result-cases (check_trusted anchor f.trusted rs)) [
            | inr (e, bad) ↦ cc (rw (fine, allowed, copied, bad) at h)
            | inl (v, trusted) ↦
                let same : (rs, not required) ≡ (records, legacy) =
                  ok_inj (rw (fine, allowed, copied, trusted) at h) in
                let flag : required ≡ not legacy = ground (arith, ap (λ p. p.1) same) in
                let all : Loaded anchor f rs required = record {
                  monotonic = monotonic;
                  read = fine;
                  anchored = allowed;
                  copies = Unit-ok (check_copies required f.copy rs) u copied;
                  trusts = Unit-ok (check_trusted anchor f.trusted rs) v trusted;
                } in
                subst (λ b. Loaded anchor f records b) flag
                  (subst (λ x. Loaded anchor f x required) (ap (λ p. p.0) same) all)
          ]
        ]
      ]
]

pub Loaded-load_state :
    {S : Type 0} (anchor : Option (Anchor S)) (f : Files S) (records : Records) (required : Bool)
    → Loaded anchor f records required
    → load_state anchor f ≡ ok (records, not required)
unfolding load_state
Loaded-load_state anchor f records required l = rw (l.read, l.anchored, l.copies, l.trusts) refl

pub read_primary-Valid :
    (file : File) (records : Records) (required monotonic : Bool)
    → read_primary file ≡ ok (records, required, monotonic)
    → Valid records
unfolding read_primary
read_primary-Valid missing records required monotonic h = subst Valid (ap (λ p. p.0) (ok_inj h)) tt
read_primary-Valid unreadable records required monotonic h = cc
read_primary-Valid (holds raw) records required monotonic h =
    read_envelope-Valid raw records (required, monotonic) h

-- The value that an anchor keeps for an entry.
abbrev pub value_of : String → Option Entry → Option Value
value_of r none = none
value_of r (some (t, c)) = some (record { resource_id = r; controller_id = c; fencing_token = t })

pub get-expected_values :
    (k : String) (records : Records) → get k (expected_values records) ≡ value_of k (get k records)
unfolding get expected_values
get-expected_values k [] = refl
get-expected_values k ((r, (t, c)) ∷ records) =
    ground (arith, eq_iff r k, get-expected_values k records)

judge_trusted-get :
    (trusted expected : Dict Value) (k : String)
    → judge_trusted trusted expected ≡ ok tt
    → get k trusted ≡ get k expected
unfolding judge_trusted
judge_trusted-get trusted expected k h = elim (Bool-cases (agree same_value trusted expected)) [
  | inl same ↦ agree-get same_value trusted expected k same_value-eq same
  | inr other ↦ elim (Bool-cases (not (not (is_empty expected) && is_empty trusted))) [
    | inl some_trust ↦ cc (rw (some_trust, other) at h)
    | inr no_trust ↦ cc (rw no_trust at h)
  ]
]

nonempty :
    (trusted expected : Dict Value)
    → ((k : String) → get k trusted ≡ get k expected)
    → not (not (is_empty expected) && is_empty trusted) ≡ true
unfolding is_empty get
nonempty trusted [] same = refl
nonempty (e ∷ trusted) ((k, v) ∷ expected) same = refl
nonempty [] ((k, v) ∷ expected) same = let found : none ≡ some v = rw (eq_refl k) at (same k) in cc

pub judge_trusted-of :
    (trusted expected : Dict Value)
    → ((k : String) → get k trusted ≡ get k expected)
    → judge_trusted trusted expected ≡ ok tt
unfolding judge_trusted
judge_trusted-of trusted expected same =
    rw (nonempty trusted expected same, agree-of same_value trusted expected same_value_refl same)
      refl

-- With a trusted anchor that answers, a load that succeeds has, for every resource, exactly the fence that the
-- anchor holds, whatever both files held: older files are refused.
pub load_state-trusted :
    {S : Type 0} (anchor : Anchor S) (f : Files S) (trusted : Dict Value) (records : Records)
    (legacy : Bool) (k : String)
    → load_state (some anchor) f ≡ ok (records, legacy)
    → anchor.snapshot f.trusted ≡ ok trusted
    → get k trusted ≡ value_of k (get k records)
unfolding check_trusted
load_state-trusted anchor f trusted records legacy k h e =
    let l = load_state-Loaded (some anchor) f records legacy h in
    judge_trusted-get trusted (expected_values records) k (rw e at l.trusts)
    ∙ get-expected_values k records
