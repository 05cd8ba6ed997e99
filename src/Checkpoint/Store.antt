-- ===== src/Checkpoint/Store.antt =====
-- The stores of control/protection_supervisor_checkpoint.py: the plain one, the one that signs what it
-- saves, and the one that also keeps a freshness anchor.
pub mod Fresh
pub mod RoundTrip
pub mod Restorer
pub mod Restore
use audio_bodyguard_alpha.Prelude.{
  ℕ, String, Bool, true, false, not, ◌&&◌, ◌==◌, Option, none, some, List, [], ◌∷◌, leb, eqb,
  if◌then◌else◌, Result, ok, err, Error, value_error, runtime_error, other_error, ◌>>=◌, ◌>>◌,
  guard, or_raise,
}
use audio_bodyguard_alpha.Prelude.Time.{pos}
use audio_bodyguard_alpha.Prelude.Text.{is_named, is_trimmed}
use audio_bodyguard_alpha.Prelude.Dict.{Dict, get}
use audio_bodyguard_alpha.Json.{
  Json, Number, finite, int, str, obj, field, end, get_field, has_keys, as_object, as_string,
  as_natural,
}
use audio_bodyguard_alpha.Lease.Store.{Write}
use audio_bodyguard_alpha.Supervisor.{
  State, active, unknown_physical_state, Supervisor, is_active, finite_time, optional_time,
}
use audio_bodyguard_alpha.Supervisor.Calls.{require_revalidation}
use audio_bodyguard_alpha.Checkpoint.{Encoding, Checkpoint, in_time, encode, decode}
use audio_bodyguard_alpha.Checkpoint.Anchor.{
  Fault, rollback_detected, anchor_unavailable, raised, Reply, reply, failed, Mark, same_mark,
  Anchor,
}
use audio_bodyguard_alpha.Checkpoint.Anchor.Durable.{
  ByteFile, missing, unreadable, holds, write_bytes,
}

-- A signing key over byte strings, and a verifier with the key that it is for.
pub record ByteKey (B : Type 0) : Type 0 where
  pub key_id : String
  pub sign : B → Result String

pub record ByteVerifier (B : Type 0) : Type 0 where
  pub key_id : String
  pub verify : B → String → Bool

-- `AuthenticatedProtectionSupervisorCheckpointStore`, less its path
pub record Authenticated (B : Type 0) : Type 0 where
  pub signing_key : ByteKey B
  pub verifiers : Dict (ByteVerifier B)

abbrev no_verifier : Error
no_verifier = value_error "signing key verifier is unavailable"

abbrev is_empty {ℓ} : {V : Type ℓ} → Dict V → Bool
is_empty [] = true
is_empty _ = false

-- The probe is signed and verified; an exception counts as a failure.
probe_verified : {B : Type 0} → ByteVerifier B → B → Result String → Bool
probe_verified v probe (err e) = false
probe_verified v probe (ok sig) = not (sig == "") && v.verify probe sig

-- `__init__`
unfoldable pub new_authenticated :
    {B : Type 0} → B → ByteKey B → Dict (ByteVerifier B) → Result (Authenticated B)
unfolding probe_verified
new_authenticated probe key verifiers = do
  guard (is_named key.key_id) (value_error "signing_key is invalid")
  guard (not (is_empty verifiers)) (value_error "verifiers must be nonempty")
  v ← or_raise (get key.key_id verifiers) no_verifier
  guard (v.key_id == key.key_id) no_verifier
  guard (probe_verified v probe (key.sign probe)) no_verifier
  ok (record { signing_key = key; verifiers = verifiers })

abbrev pub max_envelope_bytes : ℕ
max_envelope_bytes = 8192

abbrev pub envelope_of : String → String → String → Json
envelope_of key_id payload sig = obj (
    field "envelope_version" (int (pos 1)) (
      field "key_id" (str key_id)
        (field "payload" (str payload) (field "signature" (str sig) end))))

abbrev envelope_fields : List String
envelope_fields = "envelope_version" ∷ "key_id" ∷ "payload" ∷ "signature" ∷ []

-- Every exception of a load becomes this one.
abbrev pub authentication_failed : Error
authentication_failed = value_error "checkpoint authentication failed"

module _ {B : Type 0} (x : Encoding B) where
  -- `ProtectionSupervisorCheckpointStore.save` and `.load`; of a file that is too long, one byte more
  -- than is allowed is read, and the codec refuses that.
  unfoldable pub save_plain : Checkpoint → Write → ByteFile B → Result (Unit {0}) × ByteFile B
  unfolding write_bytes
  save_plain c w f = elim (encode x c) [ err e ↦ (err e, f) | ok b ↦ write_bytes b w f tt ]

  unfoldable pub load_plain : ByteFile B → Result Checkpoint
  load_plain missing = err (other_error "OSError")
  load_plain unreadable = err (other_error "OSError")
  load_plain (holds b) = decode x b

  -- The envelope that `save` of the authenticated store writes.
  unfoldable pub seal : ByteKey B → Checkpoint → Result B
  seal key c = do
    payload ← encode x c
    sig ← key.sign payload
    guard (not (sig == "")) (value_error "checkpoint signature is invalid")
    let encoded = x.dumps (envelope_of key.key_id (x.to_base64 payload) sig)
    guard (leb (x.size encoded) max_envelope_bytes) (value_error "checkpoint envelope is too large")
    ok encoded

  unfoldable pub save_authenticated :
      Authenticated B → Checkpoint → Write → ByteFile B → Result (Unit {0}) × ByteFile B
  unfolding seal write_bytes
  save_authenticated a c w f = elim (seal a.signing_key c) [
    | err e ↦ (err e, f)
    | ok b ↦ write_bytes b w f tt
  ]

  -- Any failure of a step is `authentication_failed`, so each raises that.
  unfoldable pub unseal : Dict (ByteVerifier B) → B → Result Checkpoint
  unseal verifiers encoded = do
    guard (leb (x.size encoded) max_envelope_bytes) authentication_failed
    envelope ← or_raise (x.loads encoded) authentication_failed
    fields ← or_raise (as_object envelope) authentication_failed
    guard (has_keys envelope_fields fields) authentication_failed
    number ← or_raise (get_field "envelope_version" fields) authentication_failed
    version ← or_raise (as_natural number) authentication_failed
    guard (eqb version 1) authentication_failed
    name ← or_raise (get_field "key_id" fields) authentication_failed
    key_id ← or_raise (as_string name) authentication_failed
    v ← or_raise (get key_id verifiers) authentication_failed
    text ← or_raise (get_field "payload" fields) authentication_failed
    encoded_payload ← or_raise (as_string text) authentication_failed
    signed ← or_raise (get_field "signature" fields) authentication_failed
    sig ← or_raise (as_string signed) authentication_failed
    payload ← or_raise (x.of_base64 encoded_payload) authentication_failed
    guard (v.key_id == key_id && v.verify payload sig) authentication_failed
    elim (decode x payload) [ ok c ↦ ok c | err e ↦ err authentication_failed ]

  unfoldable pub load_authenticated : Authenticated B → ByteFile B → Result Checkpoint
  unfolding unseal
  load_authenticated a missing = err authentication_failed
  load_authenticated a unreadable = err authentication_failed
  load_authenticated a (holds b) = unseal a.verifiers b

  -- `_commitment`, over `sha256(…).hexdigest()`
  unfoldable pub commitment : (B → String) → Checkpoint → Result Mark
  commitment hash c = do payload ← encode x c; ok (c.checkpoint_sequence, hash payload)

-- What the protected store keeps: the file, and the state of its anchor.
pub record Protected (B S : Type 0) : Type 0 where
  pub file : ByteFile B
  pub anchored : S

advance_failed : Fault → Fault
advance_failed (anchor_unavailable e) = anchor_unavailable e
advance_failed _ = raised (value_error "checkpoint freshness advance failed")

judge_anchor : Reply (Option Mark) → Mark → Checkpoint → Reply Checkpoint
judge_anchor (failed f) expected c =
    failed (anchor_unavailable "checkpoint freshness anchor unavailable")
judge_anchor (reply none) expected c =
    failed (anchor_unavailable "checkpoint freshness anchor unavailable")
judge_anchor (reply (some mark)) expected c =
    if same_mark mark expected then reply c else failed rollback_detected

-- `RollbackProtectedProtectionSupervisorCheckpointStore`
module _ {B S : Type 0} (x : Encoding B) (hash : B → String) (a : Authenticated B)
    (anchor : Anchor S) where
  save_advanced :
      Reply (Unit {0}) → Checkpoint → Write → Protected B S → Reply (Unit {0}) × Protected B S
  unfolding advance_failed save_authenticated
  save_advanced (failed f) c w s = (failed (advance_failed f), s)
  save_advanced (reply _) c w s =
      let (r, f) = save_authenticated x a c w s.file in
      (elim r [ ok _ ↦ reply tt | err e ↦ failed (raised e) ], record s { file = f })

  unfoldable pub save : Checkpoint → Write → Protected B S → Reply (Unit {0}) × Protected B S
  unfolding save_advanced
  save c w s = elim (commitment x hash c) [
    | err e ↦ (failed (raised e), s)
    | ok mark ↦
        let (answer, s') = anchor.advance mark.0 mark.1 s.anchored in
        save_advanced answer c w (record s { anchored = s' })
  ]

  unfoldable pub load : Protected B S → Reply Checkpoint × Protected B S
  unfolding judge_anchor
  load s = elim (load_authenticated x a s.file) [
    | err e ↦ (failed (raised e), s)
    | ok c ↦ elim (commitment x hash c) [
      | err e ↦ (failed (raised e), s)
      | ok expected ↦
          let (answer, s') = anchor.read s.anchored in
          (judge_anchor answer expected c, record s { anchored = s' })
    ]
  ]
