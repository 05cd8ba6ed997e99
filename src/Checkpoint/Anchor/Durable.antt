-- ===== src/Checkpoint/Anchor/Durable.antt =====
-- The witness in a file of control/protection_supervisor_checkpoint.py, and files of bytes.
use audio_bodyguard_alpha.Prelude.Text.{is_digest}
use audio_bodyguard_alpha.Prelude.{
  ℕ, String, Bool, false, ◌&&◌, Option, none, some, List, [], ◌∷◌, leb, if◌then◌else◌, Result, ok,
  err, Error, value_error, other_error, ◌>>=◌, ◌>>◌, guard, or_raise,
}
use audio_bodyguard_alpha.Prelude.Time.{pos}
use audio_bodyguard_alpha.Prelude.Dict.{Dict, get, put}
use audio_bodyguard_alpha.Json.{
  Json, Fields, nil, cons, int, str, arr, obj, field, end, get_field, has_keys, as_object,
  as_string, as_natural, is_one,
}
use audio_bodyguard_alpha.Lease.Store.{Write, written, not_replaced, not_synced, is_written}
use audio_bodyguard_alpha.Checkpoint.{Encoding, is_sequence, is_installation_id}
use audio_bodyguard_alpha.Checkpoint.Anchor.{
  Mark, Reply, Witness, bad_installation, check_mark, failed, next_mark, raised, reply, same_mark,
}

-- What is at a path, as bytes.
pub data ByteFile (B : Type 0) : Type 0 where
  missing unreadable : ByteFile B
  holds : B → ByteFile B

unfoldable pub write_bytes : {A B : Type 0} → B → Write → ByteFile B → A → Result A × ByteFile B
write_bytes b written f a = (ok a, holds b)
write_bytes b not_replaced f a = (err (other_error "OSError"), f)
write_bytes b not_synced f a = (err (other_error "OSError"), holds b)

-- `DurableFileCheckpointFreshnessWitness`: the records in memory, and the file.
pub record Durable (B : Type 0) : Type 0 where
  pub records : Dict Mark
  pub file : ByteFile B

encode_marks : Dict Mark → Fields
encode_marks [] = end
encode_marks ((i, (n, d)) ∷ marks) =
    field i (arr (cons (int (pos n)) (cons (str d) nil))) (encode_marks marks)

abbrev marks_document : Dict Mark → Json
marks_document marks =
    obj (field "records" (obj (encode_marks marks)) (field "version" (int (pos 1)) end))

abbrev bad_record : Error
bad_record = value_error "invalid checkpoint witness record"

parse_mark : Json → Result Mark
parse_mark (arr (cons n (cons d nil))) = do
  sequence ← or_raise (as_natural n) bad_record
  digest ← or_raise (as_string d) bad_record
  guard (is_sequence sequence && is_digest digest) bad_record
  ok (sequence, digest)
parse_mark _ = err bad_record

parse_marks : Fields → Result (Dict Mark)
parse_marks end = ok []
parse_marks (field i v fs) = do
  guard (is_installation_id i) bad_installation
  mark ← parse_mark v
  marks ← parse_marks fs
  ok ((i, mark) ∷ marks)

abbrev bad_state : Error
bad_state = value_error "invalid checkpoint witness state"

abbrev state_keys : List String
state_keys = "version" ∷ "records" ∷ []

parse_state : Json → Result (Dict Mark)
unfolding parse_mark parse_marks is_one
parse_state raw = do
  fields ← or_raise (as_object raw) bad_state
  guard (has_keys state_keys fields) bad_state
  number ← or_raise (get_field "version" fields) bad_state
  guard (is_one number) bad_state
  entry ← or_raise (get_field "records" fields) bad_state
  records ← or_raise (as_object entry) bad_state
  parse_marks records

abbrev max_state_bytes : ℕ
max_state_bytes = 1048576

module _ {B : Type 0} (x : Encoding B) where
  -- `_load_state`
  unfoldable pub load_marks : ByteFile B → Result (Dict Mark)
  unfolding parse_state
  load_marks missing = ok []
  load_marks unreadable = err (other_error "OSError")
  load_marks (holds b) = do
    guard (leb (x.size b) max_state_bytes) (value_error "checkpoint witness state is too large")
    raw ← or_raise (x.loads b) (value_error "json.load")
    parse_state raw

  -- `_save_state`, and the assignment that follows
  unfoldable pub save_marks : Mark → Dict Mark → Write → Durable B → Reply Mark × Durable B
  unfolding encode_marks write_bytes is_written
  save_marks mark candidate w s =
      let encoded = x.dumps (marks_document candidate) in
      if leb (x.size encoded) max_state_bytes
      then (let (r, f) = write_bytes encoded w s.file mark in
          elim r [
            | err e ↦ (failed (raised e), record s { file = f })
            | ok m ↦ (reply m, record { records = candidate; file = f })
          ])
      else (failed (raised (value_error "checkpoint witness state is too large")), s)

  unfoldable pub read_durable : String → Durable B → Reply (Option Mark) × Durable B
  unfolding load_marks
  read_durable installation_id s =
      if is_installation_id installation_id
      then elim (load_marks s.file) [
        | err e ↦ (failed (raised e), s)
        | ok records ↦ (reply (get installation_id records), record s { records = records })
      ]
      else (failed (raised bad_installation), s)

  -- `elif sequence==current[0]`, where the record is the proposal: nothing is saved
  abbrev is_repeat : Option Mark → Mark → Bool
  is_repeat none proposed = false
  is_repeat (some mark) proposed = same_mark mark proposed

  check_proposal : String → ℕ → String → Result (Unit {0})
  unfolding check_mark
  check_proposal installation_id sequence digest = do
    guard (is_installation_id installation_id) bad_installation
    check_mark sequence digest

  unfoldable pub compare_durable : Write → String → ℕ → String → Durable B → Reply Mark × Durable B
  unfolding check_proposal load_marks next_mark save_marks same_mark
  compare_durable w installation_id sequence digest s =
      elim (check_proposal installation_id sequence digest >> load_marks s.file) [
        | err e ↦ (failed (raised e), s)
        | ok records ↦
            let s' : Durable B = record s { records = records } in
            elim (next_mark (get installation_id records) (sequence, digest)) [
              | err e ↦ (failed (raised e), s')
              | ok mark ↦
                  if is_repeat (get installation_id records) (sequence, digest)
                  then (reply mark, s')
                  else save_marks mark (put installation_id mark records) w s'
            ]
      ]

  abbrev pub durable_witness : Write → Witness Mark (Durable B)
  durable_witness w = record { read = read_durable; compare_and_advance = compare_durable w }
