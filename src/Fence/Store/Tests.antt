-- ===== src/Fence/Store/Tests.antt =====
-- Runs of device_fabric/controller_fence_store.py, and the properties at concrete inputs.
use audio_bodyguard_alpha.Prelude.{
  ◌≡◌, refl, true, false, Option, none, some, [], ◌∷◌, ok, err, value_error,
}
use audio_bodyguard_alpha.Prelude.Text.{is_named}
use audio_bodyguard_alpha.Prelude.Dict.{Dict, get, put}
use audio_bodyguard_alpha.Prelude.Agree.{agree, same_option}
use audio_bodyguard_alpha.Json.{has_keys}
use audio_bodyguard_alpha.Lease.Store.{missing, holds, written, is_written}
use audio_bodyguard_alpha.Fence.{
  Value, same_value, Anchor, is_fence, is_advanced, in_memory, in_memory-Honest, advance_memory,
  judge_value,
}
use audio_bodyguard_alpha.Fence.Codec.{
  Records, parse_records, read_envelope, encode_records, encode_envelope,
}
use audio_bodyguard_alpha.Fence.Store.{
  Files, exists, read_records, read_primary, same_entry, expected_values, is_empty, judge_trusted,
  check_trusted, check_copies, load_state, save_both, is_behind, is_change, after_advance,
  with_advance, record_fence, accept_loaded, accept, snapshot,
}
use audio_bodyguard_alpha.Fence.Store.Load.{value_of, load_state-trusted}
use audio_bodyguard_alpha.Fence.Store.Accept.{Below, here, accepts, snapshot-Below}
use audio_bodyguard_alpha.Fence.Store.Saved.Installs.{Installed, accept-Installed}

abbrev anchor : Option (Anchor (Dict Value))
anchor = some in_memory

abbrev fresh : Files (Dict Value)
fresh = record { primary = missing; copy = missing; trusted = [] }

abbrev phone : Value
phone = record { resource_id = "tv"; controller_id = "phone"; fencing_token = 3 }

abbrev phone_records : Records
phone_records = ("tv", (3, "phone")) ∷ []

abbrev saved : Files (Dict Value)
saved = record {
  primary = holds (encode_envelope true phone_records);
  copy = holds (encode_records phone_records);
  trusted = ("tv", phone) ∷ [];
}

abbrev tablet_records : Records
tablet_records = ("tv", (4, "tablet")) ∷ []

fresh_load : load_state anchor fresh ≡ ok ([], true)
unfolding load_state read_primary check_copies exists read_records agree same_entry check_trusted
    in_memory judge_trusted is_empty expected_values same_value
fresh_load = refl

saved_load : load_state anchor saved ≡ ok (phone_records, false)
unfolding load_state read_primary check_copies exists read_records agree same_option get same_entry
    check_trusted in_memory judge_trusted is_empty expected_values same_value encode_envelope
    encode_records read_envelope parse_records has_keys is_named
saved_load = refl

saved_snapshot : snapshot anchor saved ≡ ok phone_records
unfolding snapshot
saved_snapshot = rw saved_load refl

abbrev next : Files (Dict Value)
next = (accept anchor "tv" "tablet" 4 written written saved).1

accept_run : (accept anchor "tv" "tablet" 4 written written saved).0 ≡ ok true
unfolding accept is_fence is_named accept_loaded is_behind with_advance in_memory advance_memory
    judge_value get put after_advance is_advanced record_fence is_change save_both is_written
accept_run = rw saved_load refl

stale_run : (accept anchor "tv" "tablet" 2 written written saved).0 ≡ ok false
unfolding accept is_fence is_named accept_loaded is_behind get
stale_run = rw saved_load refl

-- A copy that is newer than the primary file is a rollback.
abbrev torn : Files (Dict Value)
torn = record saved { primary = missing }

torn_load : load_state none torn ≡ err (value_error "controller fence rollback detected")
unfolding load_state read_primary check_copies exists read_records agree same_option get same_entry
    encode_records parse_records is_named
torn_load = refl

accept-Installed_example : Installed anchor "tv" "tablet" 4 saved next
accept-Installed_example =
    accept-Installed anchor "tv" "tablet" 4 written written saved in_memory-Honest accept_run

abbrev installed : Installed anchor "tv" "tablet" 4 saved next
installed =
    accept-Installed anchor "tv" "tablet" 4 written written saved in_memory-Honest accept_run

snapshot-Below_example : Below phone_records installed.after
snapshot-Below_example =
    snapshot-Below anchor saved next phone_records installed.after
      (accepts "tv" "tablet" 4 written written here refl) saved_snapshot installed.now

load_state-trusted_example : get "tv" saved.trusted ≡ value_of "tv" (get "tv" phone_records)
unfolding in_memory
load_state-trusted_example =
    load_state-trusted in_memory saved saved.trusted phone_records false "tv" saved_load refl
