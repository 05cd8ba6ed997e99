-- ===== src/Checkpoint/Anchor.antt =====
-- The freshness anchors of control/protection_supervisor_checkpoint.py: which checkpoint was saved
-- last, by its sequence and digest. An anchor keeps it in memory, or asks a witness, of which the
-- one in memory is here and the one in a file in the child module.
pub mod Proposals
pub mod Marks
pub mod Durable
use audio_bodyguard_alpha.Prelude.Text.{is_digest}
use audio_bodyguard_alpha.Prelude.{
  ℕ, ◌+◌, String, Bool, true, false, not, ◌&&◌, ◌||◌, ◌==◌, Option, none, some, List, [], ◌∷◌, leb,
  eqb, if◌then◌else◌, Result, ok, err, Error, value_error, runtime_error, other_error, ◌>>=◌, ◌>>◌,
  guard, or_raise,
}
use audio_bodyguard_alpha.Prelude.Time.{pos}
use audio_bodyguard_alpha.Prelude.Dict.{Dict, get, put}
use audio_bodyguard_alpha.Json.{
  Json, Items, Fields, nil, cons, int, str, arr, obj, field, end, get_field, has_keys, as_object,
  as_string, as_natural,
}
use audio_bodyguard_alpha.Lease.Store.{Write, written, not_replaced, not_synced, is_written}
use audio_bodyguard_alpha.Checkpoint.{Encoding, is_sequence, is_installation_id}

-- What a caller of these classes tells apart: CheckpointRollbackDetected,
-- CheckpointFreshnessAnchorUnavailable, and any other exception.
pub data Fault : Type 0 where
  rollback_detected : Fault
  anchor_unavailable : String → Fault
  raised : Error → Fault

pub data Reply {ℓ} (A : Type ℓ) : Type ℓ where
  reply : A → Reply A
  failed : Fault → Reply A

abbrev pub Mark : Type 0
Mark = ℕ × String

unfoldable pub same_mark : Mark → Mark → Bool
same_mark (n, d) (m, e) = eqb n m && d == e

-- An anchor over its states `S`. A call may change what it remembers.
pub record Anchor (S : Type 0) : Type 0 where
  pub read : S → Reply (Option Mark) × S
  pub advance : ℕ → String → S → Reply (Unit {0}) × S

-- A witness, which answers for each installation with a record of the type `R`.
pub record Witness (R S : Type 0) : Type 0 where
  pub read : String → S → Reply (Option R) × S
  pub compare_and_advance : String → ℕ → String → S → Reply R × S

unfoldable pub check_mark : ℕ → String → Result (Unit {0})
check_mark sequence digest = do
  guard (is_sequence sequence) (value_error "checkpoint sequence is invalid")
  guard (is_digest digest) (value_error "checkpoint digest is invalid")

-- The record that a proposal leads to.
unfoldable pub next_mark : Option Mark → Mark → Result Mark
next_mark none (sequence, digest) = do
  guard (eqb sequence 1) (value_error "checkpoint sequence is not monotonic")
  ok (sequence, digest)
next_mark (some (n, d)) (sequence, digest) =
    if eqb sequence n
    then (do guard (digest == d) (value_error "checkpoint freshness conflict"); ok (n, d))
    else (do
      guard (eqb sequence (n + 1)) (value_error "checkpoint sequence is not monotonic")
      ok (sequence, digest))

-- the checks of a proposal, and the record that it leads to
unfoldable pub propose : ℕ → String → Option Mark → Result Mark
unfolding check_mark next_mark
propose sequence digest current = check_mark sequence digest >> next_mark current (sequence, digest)

-- `InMemoryCheckpointFreshnessAnchor`
unfoldable pub advance_memory : ℕ → String → Option Mark → Reply (Unit {0}) × Option Mark
advance_memory sequence digest s = elim (propose sequence digest s) [
  | err e ↦ (failed (raised e), s)
  | ok mark ↦ (reply tt, some mark)
]

abbrev pub memory_anchor : Anchor (Option Mark)
memory_anchor = record { read = λ s. (reply s, s); advance = advance_memory }

abbrev bad_installation : Error
bad_installation = value_error "installation_id is invalid"

-- `InMemoryCheckpointFreshnessWitness`
unfoldable pub read_memory : String → Dict Mark → Reply (Option Mark) × Dict Mark
read_memory installation_id s =
    if is_installation_id installation_id
    then (reply (get installation_id s), s)
    else (failed (raised bad_installation), s)

unfoldable pub compare_memory : String → ℕ → String → Dict Mark → Reply Mark × Dict Mark
compare_memory installation_id sequence digest s =
    if is_installation_id installation_id
    then elim (propose sequence digest (get installation_id s)) [
      | err e ↦ (failed (raised e), s)
      | ok mark ↦ (reply mark, put installation_id mark s)
    ]
    else (failed (raised bad_installation), s)

abbrev pub memory_witness : Witness Mark (Dict Mark)
memory_witness = record { read = read_memory; compare_and_advance = compare_memory }

-- `WitnessedCheckpointFreshnessAnchor`
unfoldable pub judge_read : Reply (Option Mark) → Reply (Option Mark)
judge_read (failed f) = failed (anchor_unavailable "checkpoint witness unavailable")
judge_read (reply none) = reply none
judge_read (reply (some (n, d))) =
    if is_sequence n && is_digest d
    then reply (some (n, d))
    else failed (anchor_unavailable "checkpoint witness response is invalid")

-- A ValueError, which both of the named exceptions are, goes through.
unfoldable pub judge_advance : Mark → Reply Mark → Reply (Unit {0})
unfolding same_mark
judge_advance proposed (failed (raised (runtime_error e))) =
    failed (anchor_unavailable "checkpoint witness unavailable")
judge_advance proposed (failed (raised (other_error e))) =
    failed (anchor_unavailable "checkpoint witness unavailable")
judge_advance proposed (failed f) = failed f
judge_advance proposed (reply mark) =
    if same_mark mark proposed
    then reply tt
    else failed (anchor_unavailable "checkpoint witness response is invalid")

module _ {S : Type 0} (w : Witness Mark S) (installation_id : String) where
  unfoldable pub read_witnessed : S → Reply (Option Mark) × S
  unfolding judge_read
  read_witnessed s = let (answer, s') = w.read installation_id s in (judge_read answer, s')

  unfoldable pub advance_witnessed : ℕ → String → S → Reply (Unit {0}) × S
  unfolding judge_advance
  advance_witnessed sequence digest s = elim (check_mark sequence digest) [
    | err e ↦ (failed (raised e), s)
    | ok _ ↦
        let (answer, s') = w.compare_and_advance installation_id sequence digest s in
        (judge_advance (sequence, digest) answer, s')
  ]

  abbrev pub witnessed_anchor : Anchor S
  witnessed_anchor = record { read = read_witnessed; advance = advance_witnessed }
