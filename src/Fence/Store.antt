-- ===== src/Fence/Store.antt =====
-- device_fabric/controller_fence_store.py: the fences that an endpoint has accepted, in a primary file
-- with a copy of its records beside it, and a trusted anchor where there is one. The locks make each
-- call one step.
pub mod Load
pub mod Accept
pub mod Saved
mod Tests
use audio_bodyguard_alpha.Prelude.{
  ℕ, String, Bool, true, false, not, ◌&&◌, ◌||◌, ◌==◌, Option, none, some, List, [], ◌∷◌, ltb, eqb,
  is_some, if◌then◌else◌, Result, ok, err, Error, value_error, other_error, ◌>>=◌, ◌>>◌, guard,
}
use audio_bodyguard_alpha.Prelude.Dict.{Dict, get, put}
use audio_bodyguard_alpha.Prelude.Agree.{agree}
use audio_bodyguard_alpha.Lease.Store.{
  File, missing, unreadable, holds, Write, save_file, is_written,
}
use audio_bodyguard_alpha.Fence.{Value, same_value, Anchor, AnchorDecision, is_fence, is_advanced}
use audio_bodyguard_alpha.Fence.Codec.{
  Entry, Records, parse_records, read_envelope, encode_records, encode_envelope,
}

-- The store's two files, and the state of the anchor.
pub record Files (S : Type 0) : Type 0 where
  pub primary : File
  pub copy : File
  pub trusted : S

unfoldable pub exists : File → Bool
exists missing = false
exists _ = true

-- `_read_records`
unfoldable pub read_records : File → Result Records
read_records missing = ok []
read_records unreadable = err (other_error "json.load")
read_records (holds raw) = parse_records raw

-- `_read_primary`
unfoldable pub read_primary : File → Result (Records × Bool × Bool)
read_primary missing = ok ([], false, false)
read_primary unreadable = err (other_error "json.load")
read_primary (holds raw) = read_envelope raw

unfoldable pub same_entry : Entry → Entry → Bool
same_entry (t, c) (u, d) = eqb t u && c == d

-- `expected_values`
unfoldable pub expected_values : Records → Dict Value
expected_values [] = []
expected_values ((r, (t, c)) ∷ records) =
    (r, record { resource_id = r; controller_id = c; fencing_token = t }) ∷ expected_values records

unfoldable pub is_empty {ℓ} : {V : Type ℓ} → Dict V → Bool
is_empty [] = true
is_empty _ = false

unfoldable pub judge_trusted : Dict Value → Dict Value → Result (Unit {0})
judge_trusted trusted expected = do
  guard (not (not (is_empty expected) && is_empty trusted)) (value_error "trusted anchor missing")
  guard (agree same_value trusted expected) (value_error "trusted anchor rollback detected")

unfoldable pub check_trusted : {S : Type 0} → Option (Anchor S) → S → Records → Result (Unit {0})
check_trusted none s records = ok tt
check_trusted (some anchor) s records = elim (anchor.snapshot s) [
  | err e ↦ err (value_error "trusted anchor unavailable")
  | ok trusted ↦ judge_trusted trusted (expected_values records)
]

-- The checks of `_load_state` on the records of the primary file.
unfoldable pub check_copies : Bool → File → Records → Result (Unit {0})
check_copies required copy records = do
  guard (not (required && not (exists copy))) (value_error "controller fence anchor missing")
  anchors ← read_records copy
  guard (not ((required || exists copy) && not (agree same_entry records anchors)))
      (value_error "controller fence rollback detected")

-- `_load_state`: the records, and whether the primary file is still of the older form.
unfoldable pub load_state : {S : Type 0} → Option (Anchor S) → Files S → Result (Records × Bool)
load_state anchor f = do
  parts ← read_primary f.primary
  guard (not (parts.2 && not (is_some anchor))) (value_error "trusted anchor required")
  check_copies parts.1 f.copy parts.0
  check_trusted anchor f.trusted parts.0
  ok (parts.0, not parts.1)

-- `_save_anchor`, then `_save`.
unfoldable pub save_both :
    {S : Type 0} → Bool → Records → Write → Write → Files S → Result Bool × Files S
save_both monotonic records w w' f =
    let copied = record f { copy = save_file (encode_records records) w f.copy } in
    if is_written w
    then (
      if is_written w' then ok true else err (other_error "OSError"),
      record copied { primary = save_file (encode_envelope monotonic records) w' f.primary },
    )
    else (err (other_error "OSError"), copied)

-- An older token, or the same token in other hands.
unfoldable pub is_behind : Option Entry → ℕ → String → Bool
is_behind none token controller_id = false
is_behind (some (t, c)) token controller_id =
    ltb token t || (eqb token t && not (controller_id == c))

-- `current is None or token > current[0]`
unfoldable pub is_change : Option Entry → ℕ → Bool
is_change none token = true
is_change (some (t, c)) token = ltb t token

-- What follows `monotonic_anchor.advance`, by its answer.
unfoldable pub after_advance :
    {S : Type 0}
    → Result AnchorDecision
    → (Files S → Result Bool × Files S)
    → Files S
    → Result Bool × Files S
after_advance (err e) rest f = (err (value_error "trusted anchor advance failed"), f)
after_advance (ok decision) rest f = if is_advanced decision then rest f else (ok false, f)

unfoldable pub with_advance :
    {S : Type 0}
    → Option (Anchor S)
    → String
    → String
    → ℕ
    → (Files S → Result Bool × Files S)
    → Files S
    → Result Bool × Files S
with_advance none r c t rest f = rest f
with_advance (some anchor) r c t rest f =
    let answer = anchor.advance r c t f.trusted in
    after_advance answer.0 rest (record f { trusted = answer.1 })

unfoldable pub record_fence :
    {S : Type 0}
    → Bool
    → Records × Bool
    → String
    → String
    → ℕ
    → Write
    → Write
    → Files S
    → Result Bool × Files S
record_fence monotonic (records, legacy) r c t w w' f =
    let changed = is_change (get r records) t in
    if changed || legacy
    then save_both monotonic (if changed then put r (t, c) records else records) w w' f
    else (ok true, f)

unfoldable pub accept_loaded :
    {S : Type 0}
    → Option (Anchor S)
    → Records × Bool
    → String
    → String
    → ℕ
    → Write
    → Write
    → Files S
    → Result Bool × Files S
accept_loaded anchor (records, legacy) r c t w w' f =
    if is_behind (get r records) t c
    then (ok false, f)
    else with_advance anchor r c t (record_fence (is_some anchor) (records, legacy) r c t w w') f

-- `w` and `w'` are what the file system does with the copy and with the primary file.
unfoldable pub accept :
    {S : Type 0}
    → Option (Anchor S)
    → String
    → String
    → ℕ
    → Write
    → Write
    → Files S
    → Result Bool × Files S
accept anchor r c t w w' f =
    if is_fence r c t
    then elim (load_state anchor f) [
      | err e ↦ (err e, f)
      | ok loaded ↦ accept_loaded anchor loaded r c t w w' f
    ]
    else (ok false, f)

unfoldable pub snapshot : {S : Type 0} → Option (Anchor S) → Files S → Result Records
snapshot anchor f = do loaded ← load_state anchor f; ok loaded.0
