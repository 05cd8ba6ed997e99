-- ===== src/Checkpoint.antt =====
-- control/protection_supervisor_checkpoint.py: the protection supervisor's checkpoint and its codec.
-- The text of a document is a parameter, `Encoding`: what json and base64 make of a value, over any
-- type of byte strings.
pub mod Anchor
pub mod Witness
pub mod Store
mod Tests
use Prim.Native.Char.{code}
use Prim.Native.Nat.{◌^◌}
use audio_bodyguard_alpha.Prelude.{
  ℕ, zero, suc, String, Bool, true, false, not, ◌&&◌, ◌||◌, ◌==◌, Option, none, some, List, [], ◌∷◌,
  leb, ltb, eqb, if◌then◌else◌, Result, ok, err, Error, value_error, other_error, ◌+◌, ◌-◌, ◌>>=◌,
  ◌>>◌, guard, or_raise,
}
use audio_bodyguard_alpha.Prelude.Time.{ℤ, pos, Time, pos_part, neg_part}
use audio_bodyguard_alpha.Prelude.Text.{is_trimmed}
use audio_bodyguard_alpha.Json.{
  Json, Number, finite, non_finite, int, float, str, obj, field, end, get_field, has_keys,
  as_object, as_string, as_natural, seconds,
}
use audio_bodyguard_alpha.Supervisor.{
  State, active, degraded, paused, recovery_required, unknown_physical_state,
}

-- `json.dumps(value, sort_keys=True, separators=(",", ":"), allow_nan=False).encode("utf-8")` with its
-- inverse, which is none where the bytes are no text, no JSON, or have a key twice; the length; and
-- base64 with its strict inverse.
pub record Encoding (B : Type 0) : Type 0 where
  pub dumps : Json → B
  pub loads : B → Option Json
  pub size : B → ℕ
  pub to_base64 : B → String
  pub of_base64 : String → Option B

-- A number as it was given: an int, or a finite float.
pub data Instant : Type 0 where
  whole : ℤ → Instant
  real : Time → Instant

abbrev pub in_time : Instant → Time
in_time (whole n) = seconds n
in_time (real t) = t

abbrev pub to_number : Instant → Json
to_number (whole n) = int n
to_number (real t) = float (finite t)

pub record Checkpoint : Type 0 where
  pub state : State
  pub reason : String
  pub observed_at : Instant
  pub runtime_generation : String
  pub checkpoint_sequence : ℕ

-- 2**63 - 1
abbrev pub max_sequence : ℕ
max_sequence = 9223372036854775807

abbrev pub is_sequence : ℕ → Bool
is_sequence n = leb 1 n && leb n max_sequence

unfoldable pub as_instant : Json → Option Instant
as_instant (int n) = some (whole n)
as_instant (float (finite t)) = some (real t)
as_instant _ = none

-- The first int that is too large for a float
abbrev float_bound : ℕ
float_bound = 2 ^ 1024 - 2 ^ 970

-- `math.isfinite` raises OverflowError for an int beyond the floats.
unfoldable pub is_convertible : Instant → Bool
is_convertible (whole n) = ltb (pos_part n + neg_part n) float_bound
is_convertible (real t) = true

-- `__post_init__`, of values as they come out of a document
unfoldable pub make_checkpoint : State → Json → Json → Json → Json → Result Checkpoint
make_checkpoint state reason observed_at runtime_generation checkpoint_sequence = do
  r ← or_raise (as_string reason) (value_error "reason must be a nonempty identifier")
  guard (is_trimmed r) (value_error "reason must be a nonempty identifier")
  t ← or_raise (as_instant observed_at) (value_error "observed_at must be finite")
  guard (is_convertible t) (other_error "OverflowError")
  g ←
      or_raise (as_string runtime_generation)
        (value_error "runtime_generation must be a nonempty identifier")
  guard (is_trimmed g) (value_error "runtime_generation must be a nonempty identifier")
  n ←
      or_raise (as_natural checkpoint_sequence)
        (value_error "checkpoint_sequence must be a positive 63-bit integer")
  guard (is_sequence n) (value_error "checkpoint_sequence must be a positive 63-bit integer")
  ok (record {
    state = state;
    reason = r;
    observed_at = t;
    runtime_generation = g;
    checkpoint_sequence = n;
  })

-- `state.value`, and `ProtectionState(value)`
unfoldable pub state_value : State → String
state_value active = "ACTIVE"
state_value degraded = "DEGRADED"
state_value paused = "PAUSED"
state_value recovery_required = "RECOVERY_REQUIRED"
state_value unknown_physical_state = "UNKNOWN_PHYSICAL_STATE"

unfoldable pub state_of : Option String → Option State
state_of none = none
state_of (some v) =
    if v == "ACTIVE"
    then some active
    else if v == "DEGRADED"
    then some degraded
    else if v == "PAUSED"
    then some paused
    else if v == "RECOVERY_REQUIRED"
    then some recovery_required
    else if v == "UNKNOWN_PHYSICAL_STATE"
    then some unknown_physical_state
    else none

abbrev pub payload_of : Checkpoint → Json
payload_of c = obj (
    field "checkpoint_sequence" (int (pos c.checkpoint_sequence)) (
      field "observed_at" (to_number c.observed_at) (
        field "reason" (str c.reason) (
          field "runtime_generation" (str c.runtime_generation) (
            field "schema_version" (int (pos 2))
              (field "state" (str (state_value c.state)) end))))))

abbrev pub max_encoded_bytes : ℕ
max_encoded_bytes = 4096

abbrev checkpoint_fields : List String
checkpoint_fields =
    "schema_version" ∷ "state" ∷ "reason" ∷ "observed_at" ∷ "runtime_generation"
    ∷ "checkpoint_sequence" ∷ []

abbrev bad_fields : Error
bad_fields = value_error "checkpoint fields are invalid"

-- `decode`, of the value that json.loads returns
unfoldable pub decode_payload : Json → Result Checkpoint
decode_payload payload = do
  fields ← or_raise (as_object payload) bad_fields
  guard (has_keys checkpoint_fields fields) bad_fields
  schema_version ← or_raise (get_field "schema_version" fields) bad_fields
  version ← or_raise (as_natural schema_version) (value_error "unsupported checkpoint schema")
  guard (eqb version 2) (value_error "unsupported checkpoint schema")
  name ← or_raise (get_field "state" fields) bad_fields
  state ← or_raise (state_of (as_string name)) (value_error "invalid checkpoint state")
  reason ← or_raise (get_field "reason" fields) bad_fields
  observed_at ← or_raise (get_field "observed_at" fields) bad_fields
  runtime_generation ← or_raise (get_field "runtime_generation" fields) bad_fields
  checkpoint_sequence ← or_raise (get_field "checkpoint_sequence" fields) bad_fields
  make_checkpoint state reason observed_at runtime_generation checkpoint_sequence

module _ {B : Type 0} (x : Encoding B) where
  unfoldable pub encode : Checkpoint → Result B
  encode c = do
    let encoded = x.dumps (payload_of c)
    guard (leb (x.size encoded) max_encoded_bytes) (value_error "checkpoint payload is too large")
    ok encoded

  unfoldable pub decode : B → Result Checkpoint
  unfolding decode_payload
  decode encoded = do
    guard (leb (x.size encoded) max_encoded_bytes) (value_error "checkpoint payload is too large")
    payload ← or_raise (x.loads encoded) (value_error "invalid checkpoint encoding")
    decode_payload payload

-- at most `n` characters, each from "!" to "~"
printable : ℕ → String → Bool
printable n String.[] = true
printable zero (String.◌∷◌ c s) = false
printable (suc n) (String.◌∷◌ c s) = leb 33 (code c) && leb (code c) 126 && printable n s

unfoldable pub is_installation_id : String → Bool
unfolding printable
is_installation_id s = is_trimmed s && printable 256 s
