-- ===== src/Fence.antt =====
-- device_fabric/monotonic_fence_anchor.py: the trusted record of the highest fence of each resource,
-- as an interface (`Anchor`) and in its two implementations.
pub mod Codec
pub mod Store
use audio_bodyguard_alpha.Prelude.{
  ℕ, ◌<◌, ◌≡◌, refl, String, Bool, true, false, not, ◌&&◌, ◌||◌, ◌==◌, eq_iff, eq_refl, Option,
  none, some, List, [], ◌∷◌, ltb, eqb, all, if◌then◌else◌, Result, ok, err, Error, value_error,
  other_error, ◌>>=◌, ◌>>◌, guard, arith, Bool-cases, Option-cases, inl, inr, subst, ok_inj,
}
use audio_bodyguard_alpha.Prelude.Text.{is_named}
use audio_bodyguard_alpha.Prelude.Dict.{Dict, get, put, get-put}

pub data AnchorDecision : Type 0 where
  advanced already_current stale controller_mismatch malformed : AnchorDecision

pub data SecurityLevel : Type 0 where
  test_only hardware_backed remote_atomic : SecurityLevel

pub record Value : Type 0 where
  pub resource_id : String
  pub controller_id : String
  pub fencing_token : ℕ

-- `__post_init__`
unfoldable pub make_value : String → String → ℕ → Result Value
make_value resource_id controller_id token = do
  guard (is_named resource_id) (value_error "resource_id must be a non-empty string")
  guard (is_named controller_id) (value_error "controller_id must be a non-empty string")
  guard (ltb 0 token) (value_error "fencing_token must be a positive integer")
  ok (record { resource_id = resource_id; controller_id = controller_id; fencing_token = token })

-- The dataclass's `==`.
unfoldable pub same_value : Value → Value → Bool
same_value a b =
    a.resource_id == b.resource_id
    && a.controller_id == b.controller_id
    && eqb a.fencing_token b.fencing_token

pub same_value-eq : (a b : Value) → same_value a b ≡ true → a ≡ b
unfolding same_value
same_value-eq a b h =
    ground (arith, eq_iff a.resource_id b.resource_id, eq_iff a.controller_id b.controller_id)

pub same_value_refl : (a : Value) → same_value a a ≡ true
unfolding same_value
same_value_refl a = ground (arith, eq_refl a.resource_id, eq_refl a.controller_id)

-- MonotonicFenceAnchor, over the states `S` of the anchor; `advance` gives the next state too.
pub record Anchor (S : Type 0) : Type 0 where
  pub snapshot : S → Result (Dict Value)
  pub advance : String → String → ℕ → S → Result AnchorDecision × S

-- A call's arguments, which `advance` and `accept` check alike.
unfoldable pub is_fence : String → String → ℕ → Bool
is_fence resource_id controller_id token =
    is_named resource_id && is_named controller_id && ltb 0 token

-- InMemoryMonotonicFenceAnchor
unfoldable pub judge_value : Option Value → Value → AnchorDecision
judge_value none proposed = advanced
judge_value (some current) proposed =
    if ltb current.fencing_token proposed.fencing_token
    then advanced
    else if ltb proposed.fencing_token current.fencing_token
    then stale
    else if proposed.controller_id == current.controller_id
    then already_current
    else controller_mismatch

is_advance : AnchorDecision → Bool
is_advance advanced = true
is_advance _ = false

unfoldable pub advance_memory :
    String → String → ℕ → Dict Value → Result AnchorDecision × Dict Value
unfolding is_advance
advance_memory resource_id controller_id token values =
    if is_fence resource_id controller_id token
    then (let proposed : Value = record {
      resource_id = resource_id;
      controller_id = controller_id;
      fencing_token = token;
    } in
        let decision = judge_value (get resource_id values) proposed in
        (ok decision, if is_advance decision then put resource_id proposed values else values))
    else (ok malformed, values)

unfoldable pub in_memory : Anchor (Dict Value)
in_memory = record { snapshot = ok; advance = advance_memory }

-- `read`, for both implementations
unfoldable pub read_anchor : {S : Type 0} → Anchor S → String → S → Result (Option Value)
read_anchor anchor resource_id s = do
  guard (is_named resource_id) (value_error "resource_id must be a non-empty string")
  values ← anchor.snapshot s
  ok (get resource_id values)

-- Each value is under its own resource's name.
unfoldable pub well_keyed : Dict Value → Bool
well_keyed [] = true
well_keyed ((k, v) ∷ d) = is_named k && v.resource_id == k && well_keyed d

-- ExternalAtomicMonotonicFenceAnchor around a backend, which is code outside the sources. A backend that
-- answers something else than a decision raises in the model too.
unfoldable pub external : {S : Type 0} → Anchor S → Anchor S
external backend = record {
  snapshot = λ s. do
    values ← backend.snapshot s
    guard (well_keyed values) (value_error "external monotonic anchor manifest invalid")
    ok values;
  advance = λ resource_id controller_id token s.
      if is_fence resource_id controller_id token
      then backend.advance resource_id controller_id token s
      else (ok malformed, s);
}

unfoldable pub is_production : SecurityLevel → Bool
is_production test_only = false
is_production _ = true

-- What the constructor of the external anchor asks of its backend and its level.
unfoldable pub make_external : {S : Type 0} → String → SecurityLevel → Anchor S → Result (Anchor S)
make_external provider_id security_level backend = do
  guard (is_named provider_id) (value_error "external monotonic backend provider_id required")
  guard (is_production security_level)
      (value_error "production monotonic anchor security level required")
  ok (external backend)

-- The decisions on which the caller goes on.
unfoldable pub is_advanced : AnchorDecision → Bool
is_advanced advanced = true
is_advanced already_current = true
is_advanced _ = false

-- Each value is about the resource that it is under.
abbrev pub Keyed : Dict Value → Type 0
Keyed values = (k : String) (v : Value) → get k values ≡ some v → v.resource_id ≡ k

-- What a client of an anchor may rely on: an advance that is granted leaves the anchor with that
-- value for its resource and the others as they were.
pub record Honest {S : Type 0} (anchor : Anchor S) : Type 0 where
  pub advances :
      (r c : String) (t : ℕ) (s : S) (values : Dict Value) (d : AnchorDecision)
      → anchor.snapshot s ≡ ok values
      → Keyed values
      → (anchor.advance r c t s).0 ≡ ok d
      → is_advanced d ≡ true
      → (values' : Dict Value) × (anchor.snapshot (anchor.advance r c t s).1 ≡ ok values')
        × ((k : String)
            → get k values' ≡ (
                if r == k
                then some (record { resource_id = r; controller_id = c; fencing_token = t })
                else get k values))

advance_memory-Honest :
    (r c : String) (t : ℕ) (values : Dict Value) (d : AnchorDecision)
    → Keyed values
    → (advance_memory r c t values).0 ≡ ok d
    → is_advanced d ≡ true
    → (k : String)
    → get k (advance_memory r c t values).1 ≡ (
        if r == k
        then some (record { resource_id = r; controller_id = c; fencing_token = t })
        else get k values)
unfolding advance_memory is_advanced is_advance judge_value
advance_memory-Honest r c t values d keyed h granted k = elim (Bool-cases (is_fence r c t)) [
  | inr ill_formed ↦ cc (rw ill_formed at h)
  | inl fence ↦ elim (Option-cases (get r values)) [
    | inl new ↦
        rw (fence, new)
          (get-put r k (record { resource_id = r; controller_id = c; fencing_token = t }) values)
    | inr (v, found) ↦ ground (
      arith,
      fence,
      found,
      keyed r v found,
      eq_iff c v.controller_id,
      eq_iff r k,
      get-put r k (record { resource_id = r; controller_id = c; fencing_token = t }) values,
    )
  ]
]

pub in_memory-Honest : Honest in_memory
unfolding in_memory
in_memory-Honest = record {
  advances = λ r c t s values d e keyed h granted. (
    (advance_memory r c t s).1,
    refl,
    λ k.
        subst
          (λ x. get k (advance_memory r c t s).1 ≡ (
            if r == k
            then some (record { resource_id = r; controller_id = c; fencing_token = t })
            else get k x))
          (ok_inj e)
          (advance_memory-Honest r c t s d
            (λ j v found. keyed j v (subst (λ x. get j x ≡ some v) (ok_inj e) found)) h granted k),
  );
}
