-- ===== src/Lease.antt =====
-- control/active_controller_lease.py and control/controller_reauthorization.py: the leases held in
-- memory and what each method does to them once its state guard is open. `Lease.Store` adds the
-- guard and the file.

pub mod Codec
pub mod Store
pub mod Invariant
use audio_bodyguard_alpha.Prelude.{
  ℕ, ◌+◌, String, Bool, true, false, ◌&&◌, ◌||◌, not, ◌==◌, Option, none, some, List, [], ◌∷◌, leb,
  ltb, eqb, if◌then◌else◌, get_or, Result, ok, err, Error, value_error, runtime_error, ◌>>=◌, ◌>>◌,
  guard, or_raise,
}
use audio_bodyguard_alpha.Prelude.Time.{Time, epoch, before, at_most, same_time, add}
use audio_bodyguard_alpha.Prelude.Text.{is_named}
use audio_bodyguard_alpha.Prelude.Dict.{Dict, get, put}
use audio_bodyguard_alpha.Json.{
  Json, Fields, str, int, float, obj, field, end, Number, finite, non_finite,
}
use audio_bodyguard_alpha.Prelude.Time.{pos}

pub record Lease : Type 0 where
  pub resource_id : String
  pub controller_id : String
  pub fencing_token : ℕ
  pub issued_at : Time
  pub expires_at : Time

-- The dataclass's `==`.
unfoldable pub same_lease : Lease → Lease → Bool
same_lease a b =
    a.resource_id == b.resource_id
    && a.controller_id == b.controller_id
    && eqb a.fencing_token b.fencing_token
    && same_time a.issued_at b.issued_at
    && same_time a.expires_at b.expires_at

pub data Decision : Type 0 where
  allow stale_fence expired unknown_resource : Decision

abbrev pub Nonce : Type 0
Nonce = String × String

-- `_active`, `_highest_tokens` and `_used_reauthorization_nonces`
pub record Authority : Type 0 where
  pub active : Dict Lease
  pub highest_tokens : Dict ℕ
  pub used_nonces : List Nonce

abbrev pub empty : Authority
empty = record { active = []; highest_tokens = []; used_nonces = [] }

unfoldable pub nonce_used : Nonce → List Nonce → Bool
nonce_used n [] = false
nonce_used (i, n) ((j, m) ∷ used) = (j == i && m == n) || nonce_used (i, n) used

-- `_validate_identifier`, `_validate_time` and `_validate_ttl`
unfoldable pub validate_identifier : String → Result (Unit {0})
validate_identifier value = guard (is_named value) (value_error "must be a nonempty string")

unfoldable pub validate_time : Number → Result Time
validate_time (finite t) = ok t
validate_time non_finite = err (value_error "must be a finite number")

unfoldable pub validate_ttl : Number → Result Time
unfolding validate_time
validate_ttl ttl_seconds = do
  ttl ← validate_time ttl_seconds
  guard (before epoch ttl) (value_error "ttl_seconds must be positive")
  ok ttl

-- The lease that all three methods make, entered under its resource with its token.
new_lease : String → String → ℕ → Time → Time → Lease
new_lease resource_id controller_id token now ttl = record {
  resource_id = resource_id;
  controller_id = controller_id;
  fencing_token = token;
  issued_at = now;
  expires_at = add now ttl;
}

enter : Lease → Authority → Authority
enter lease a = record a {
  active = put lease.resource_id lease a.active;
  highest_tokens = put lease.resource_id lease.fencing_token a.highest_tokens;
}

-- `current is not None and now < current.expires_at`
is_held : Option Lease → Time → Bool
is_held none now = false
is_held (some current) now = before now current.expires_at

unfoldable pub acquire_body : String → String → Time → Time → Authority → Result (Lease × Authority)
unfolding new_lease enter is_held
acquire_body resource_id controller_id now ttl a = do
  guard (not (is_held (get resource_id a.active) now))
      (runtime_error "resource already has an active controller")
  let token = get_or (get resource_id a.highest_tokens) 0 + 1
  let lease = new_lease resource_id controller_id token now ttl
  ok (lease, enter lease a)

-- `active_lease != current_lease`, where there may be none
pub is_current : Option Lease → Lease → Bool
is_current none lease = false
is_current (some active) lease = same_lease active lease

unfoldable pub handoff_body : Lease → String → Time → Time → Authority → Result (Lease × Authority)
unfolding new_lease enter is_current
handoff_body current next_controller_id now ttl a = do
  guard (is_current (get current.resource_id a.active) current)
      (runtime_error "current lease is not active")
  guard (before now current.expires_at) (runtime_error "current lease has expired")
  let token = get_or (get current.resource_id a.highest_tokens) current.fencing_token + 1
  let lease = new_lease current.resource_id next_controller_id token now ttl
  ok (lease, enter lease a)

-- `SignedControllerReauthorizationGrant`
pub record Grant : Type 0 where
  pub resource_id : String
  pub controller_id : String
  pub previous_fencing_token : ℕ
  pub issued_at : Time
  pub expires_at : Time
  pub issuer_id : String
  pub nonce : String
  pub reason : String
  pub signature : String

-- `__post_init__`: a grant that cannot be made raises.
unfoldable pub make_grant :
    String → String → ℕ → Number → Number → String → String → String → String → Result Grant
unfolding validate_time
make_grant resource_id controller_id previous_token issued_at expires_at issuer_id nonce reason
      sig =
    do
      guard (is_named resource_id && is_named controller_id && is_named issuer_id && is_named nonce)
          (value_error "must be a nonempty string")
      guard (ltb 0 previous_token) (value_error "previous_fencing_token must be a positive integer")
      issued ← validate_time issued_at
      expires ← validate_time expires_at
      guard (before issued expires) (value_error "reauthorization validity window is invalid")
      guard (reason == "CONTROL_PLANE_REINSTALL")
          (value_error "reason must be CONTROL_PLANE_REINSTALL")
      ok (record {
        resource_id = resource_id;
        controller_id = controller_id;
        previous_fencing_token = previous_token;
        issued_at = issued;
        expires_at = expires;
        issuer_id = issuer_id;
        nonce = nonce;
        reason = reason;
        signature = sig;
      })

-- `canonical_bytes`
unfoldable pub canonical_grant : Grant → Json
canonical_grant g = obj (
    field "resource_id" (str g.resource_id) (
      field "controller_id" (str g.controller_id) (
        field "previous_fencing_token" (int (pos g.previous_fencing_token)) (
          field "issued_at" (float (finite g.issued_at)) (
            field "expires_at" (float (finite g.expires_at)) (
              field "issuer_id" (str g.issuer_id)
                (field "nonce" (str g.nonce) (field "reason" (str g.reason) end))))))))

-- A verifier's `verify(canonical_bytes, signature)`.
abbrev pub Verifier : Type 0
Verifier = Json → String → Bool

max_token : ℕ → ℕ → ℕ
max_token a b = if ltb a b then b else a

-- the checks of a grant that need no state
unfoldable pub check_grant : Dict Verifier → Grant → Time → Result (Unit {0})
check_grant verifiers g now = do
  verifier ←
      or_raise (get g.issuer_id verifiers)
        (runtime_error "controller reauthorization issuer is not trusted")
  guard (verifier (canonical_grant g) g.signature)
      (runtime_error "controller reauthorization signature is invalid")
  guard (not (before now g.issued_at))
      (runtime_error "controller reauthorization grant is not yet valid")
  guard (before now g.expires_at) (runtime_error "controller reauthorization grant has expired")

unfoldable pub reauthorize_body : Grant → Time → Time → Authority → Result (Lease × Authority)
unfolding new_lease enter max_token
reauthorize_body g now ttl a = do
  guard (not (nonce_used (g.issuer_id, g.nonce) a.used_nonces))
      (runtime_error "controller reauthorization grant was replayed")
  let highest = get_or (get g.resource_id a.highest_tokens) 0
  guard (not (ltb g.previous_fencing_token highest))
      (runtime_error "controller reauthorization fence is stale")
  let token = max_token highest g.previous_fencing_token + 1
  let lease = new_lease g.resource_id g.controller_id token now ttl
  let used_nonces = (g.issuer_id, g.nonce) ∷ a.used_nonces
  ok (lease, record (enter lease a) { used_nonces = used_nonces })

decide : Option Lease → Lease → Time → Decision
decide none lease now = unknown_resource
decide (some active) lease now =
    if not (same_lease active lease)
    then stale_fence
    else if before now active.expires_at
    then allow
    else expired

unfoldable pub validate_body : Lease → Time → Authority → Decision
unfolding decide
validate_body lease now a = decide (get lease.resource_id a.active) lease now
