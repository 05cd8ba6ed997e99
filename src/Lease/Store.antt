-- ===== src/Lease/Store.antt =====
-- The state guard of control/active_controller_lease.py, and its public methods: under the lock a
-- method reads the file again, works on what it read, and writes before it changes the memory. The
-- locks make each call one step. `Write` is what the file system does with a save.
pub mod Calls
pub mod Returned
mod Tests
pub mod Fencing
pub mod Active
pub mod Replay
use audio_bodyguard_alpha.Prelude.{
  ℕ, String, Bool, true, false, Option, none, some, if◌then◌else◌, Result, ok, err, value_error,
  other_error, ◌>>=◌, ◌>>◌,
}
use audio_bodyguard_alpha.Prelude.Time.{Time}
use audio_bodyguard_alpha.Prelude.Dict.{Dict}
use audio_bodyguard_alpha.Json.{Json, Number}
use audio_bodyguard_alpha.Lease.{
  Lease, Authority, Decision, Grant, Verifier, empty, validate_identifier, validate_time,
  validate_ttl, acquire_body, handoff_body, check_grant, reauthorize_body, validate_body,
}
use audio_bodyguard_alpha.Lease.Codec.{encode, decode}

-- What is at `_state_path`.
pub data File : Type 0 where
  missing unreadable : File
  holds : Json → File

-- A save goes through, or fails before the new file takes the old one's place, or after.
pub data Write : Type 0 where
  written not_replaced not_synced : Write

-- `durable` says that there is a `_state_path`.
pub record Store : Type 0 where
  pub durable : Bool
  pub memory : Authority
  pub file : File

unfoldable pub load_state : File → Result Authority
load_state missing = ok empty
load_state unreadable = err (other_error "json.load")
load_state (holds raw) = decode raw

-- What the methods see once the guard is open.
unfoldable pub open_state : Store → Result Authority
unfolding load_state
open_state s = if s.durable then load_state s.file else ok s.memory

unfoldable pub save_file : Json → Write → File → File
save_file raw written file = holds raw
save_file raw not_replaced file = file
save_file raw not_synced file = holds raw

unfoldable pub is_written : Write → Bool
is_written written = true
is_written _ = false

-- `_save_state`, and the assignments that follow it when it has not raised.
unfoldable pub commit {ℓ} : {A : Type ℓ} → A → Authority → Write → Store → Result A × Store
unfolding save_file is_written
commit result a w s =
    if s.durable
    then elim (encode a) [
      | err e ↦ (err e, s)
      | ok raw ↦
          if is_written w
          then (ok result, record s { memory = a; file = save_file raw w s.file })
          else (err (other_error "OSError"), record s { file = save_file raw w s.file })
    ]
    else (ok result, record s { memory = a })

-- `with self._state_guard(exclusive=True)`, around a body that ends in a save.
pub exclusive {ℓ} :
    {A : Type ℓ} → (Authority → Result (A × Authority)) → Write → Store → Result A × Store
exclusive body w s = elim (open_state s) [
  | err e ↦ (err e, s)
  | ok a ↦ elim (body a) [
    | err e ↦ (err e, record s { memory = a })
    | ok (result, a') ↦ commit result a' w (record s { memory = a })
  ]
]

-- A check in front of the guard: when it raises, nothing has happened.
after {ℓ κ} :
    {A : Type ℓ} {B : Type κ} → Result A → (A → Store → Result B × Store) → Store → Result B × Store
after (ok a) f s = f a s
after (err e) f s = (err e, s)

-- The checked times of a call: the current time, and the duration.
check_times : Number → Number → Result (Time × Time)
check_times now ttl_seconds = do
  current_time ← validate_time now
  ttl ← validate_ttl ttl_seconds
  ok (current_time, ttl)

check_acquire : String → String → Number → Number → Result (Time × Time)
unfolding check_times
check_acquire resource_id controller_id now ttl_seconds = do
  validate_identifier resource_id
  validate_identifier controller_id
  check_times now ttl_seconds

check_handoff : String → Number → Number → Result (Time × Time)
unfolding check_times
check_handoff next_controller_id now ttl_seconds = do
  validate_identifier next_controller_id
  check_times now ttl_seconds

pub check_reauthorize : Dict Verifier → Grant → Number → Number → Result (Time × Time)
unfolding check_times
check_reauthorize verifiers g now ttl_seconds = do
  times ← check_times now ttl_seconds
  check_grant verifiers g times.0
  ok times

unfoldable pub acquire : String → String → Number → Number → Write → Store → Result Lease × Store
unfolding exclusive after check_acquire
acquire resource_id controller_id now ttl_seconds w =
    after (check_acquire resource_id controller_id now ttl_seconds)
      λ times. exclusive (acquire_body resource_id controller_id times.0 times.1) w

unfoldable pub handoff : Lease → String → Number → Number → Write → Store → Result Lease × Store
unfolding exclusive after check_handoff
handoff current next_controller_id now ttl_seconds w =
    after (check_handoff next_controller_id now ttl_seconds)
      λ times. exclusive (handoff_body current next_controller_id times.0 times.1) w

unfoldable pub reauthorize :
    Dict Verifier → Grant → Number → Number → Write → Store → Result Lease × Store
unfolding exclusive after check_reauthorize
reauthorize verifiers g now ttl_seconds w =
    after (check_reauthorize verifiers g now ttl_seconds)
      λ times. exclusive (reauthorize_body g times.0 times.1) w

unfoldable pub validate : Lease → Number → Store → Result Decision × Store
validate lease now s = elim (validate_time now) [
  | err e ↦ (err e, s)
  | ok current_time ↦ elim (open_state s) [
    | err e ↦ (err e, s)
    | ok a ↦ (ok (validate_body lease current_time a), record s { memory = a })
  ]
]
