-- ===== src/Endpoint/Ledger.antt =====
-- device_fabric/endpoint_execution_ledger.py: one decision for each transaction, that it is executed or
-- that it was not applied.
pub mod Decided
use audio_bodyguard_alpha.Prelude.{
  ℕ, String, Bool, true, false, not, ◌&&◌, ◌||◌, ◌==◌, Option, none, some, List, [], ◌∷◌, eqb, ltb,
  if◌then◌else◌, Result, ok, err, value_error, other_error, ◌>>=◌, ◌>>◌, guard,
}
use audio_bodyguard_alpha.Prelude.Dict.{Dict, get, put}
use audio_bodyguard_alpha.Lease.Store.{Write, written, not_replaced, not_synced}
use audio_bodyguard_alpha.Endpoint.{
  identifier, positive_integer, Journal, absent, broken, tables, in_transaction,
}

-- The columns that bind a transaction.
pub record Context : Type 0 where
  pub intent_id : String
  pub request_digest : String
  pub capability_digest : String
  pub authorization_digest : String
  pub controller_id : String
  pub controller_fencing_token : ℕ
  pub authority_epoch : ℕ

unfoldable pub same_context : Context → Context → Bool
same_context a b =
    a.intent_id == b.intent_id
    && a.request_digest == b.request_digest
    && a.capability_digest == b.capability_digest
    && a.authorization_digest == b.authorization_digest
    && a.controller_id == b.controller_id
    && eqb a.controller_fencing_token b.controller_fencing_token
    && eqb a.authority_epoch b.authority_epoch

-- A row of endpoint_transactions, with its `state`, and the two tables.
abbrev pub Row : Type 0
Row = Context × String

pub record Tables : Type 0 where
  pub device_id : String
  pub schema_version : ℕ
  pub transactions : Dict Row

-- EndpointExecutionLedger: `_device_id`, and what is at `_path`.
pub record Ledger : Type 0 where
  pub device_id : String
  pub journal : Journal Tables

abbrev pub claimed_state : String
claimed_state = "EXECUTION_CLAIMED"

abbrev pub not_applied_state : String
not_applied_state = "NOT_APPLIED"

unfoldable pub check_context : String → Context → Result (Unit {0})
check_context transaction_id c = do
  identifier transaction_id
  identifier c.intent_id
  identifier c.request_digest
  identifier c.capability_digest
  identifier c.authorization_digest
  identifier c.controller_id
  positive_integer c.controller_fencing_token
  positive_integer c.authority_epoch

unfoldable pub identified : String → Tables → Bool
identified device_id t = t.device_id == device_id && eqb t.schema_version 1

-- The row that is there decides; otherwise the new one is inserted.
unfoldable pub judge_row : Row → String → Context → Result Bool
judge_row (bound, settled) state context = do
  guard (same_context bound context) (value_error "endpoint execution binding mismatch")
  guard (settled == claimed_state || settled == not_applied_state)
      (value_error "endpoint ledger state is invalid")
  ok (state == not_applied_state && settled == not_applied_state)

unfoldable pub decide_row : Option Row → String → String → Context → Tables → Result (Bool × Tables)
decide_row none transaction_id state context t =
    ok (true, record t { transactions = put transaction_id (context, state) t.transactions })
decide_row (some row) transaction_id state context t = do
  answer ← judge_row row state context
  ok (answer, t)

unfoldable pub decide_body : String → String → Context → Tables → Result (Bool × Tables)
decide_body transaction_id state context t =
    decide_row (get transaction_id t.transactions) transaction_id state context t

-- `_decide`
unfoldable pub decide : String → String → Context → Write → Ledger → Result Bool × Ledger
decide transaction_id state context w l = elim (check_context transaction_id context) [
  | err e ↦ (err e, l)
  | ok tt ↦
      let answer =
        in_transaction (identified l.device_id) (decide_body transaction_id state context) w
          l.journal in
      (answer.0, record l { journal = answer.1 })
]

unfoldable pub claim_execution : String → Context → Write → Ledger → Result Bool × Ledger
claim_execution transaction_id = decide transaction_id claimed_state

unfoldable pub close_if_unstarted : String → Context → Write → Ledger → Result Bool × Ledger
close_if_unstarted transaction_id = decide transaction_id not_applied_state

-- The constructor, on what is at the path. Enrolment creates an empty file, which is no journal, and
-- then the tables in it.
unfoldable pub create_tables : String → Write → Result (Unit {0}) × Journal Tables
create_tables device_id written =
    (ok tt, tables (record { device_id = device_id; schema_version = 1; transactions = [] }))
create_tables device_id not_replaced = (err (other_error "sqlite3"), broken)
create_tables device_id not_synced = (
  err (other_error "sqlite3"),
  tables (record { device_id = device_id; schema_version = 1; transactions = [] }),
)

unfoldable pub enroll_journal : String → Write → Journal Tables → Result (Unit {0}) × Journal Tables
enroll_journal device_id w absent = create_tables device_id w
enroll_journal device_id w j = (err (value_error "endpoint ledger already exists"), j)

unfoldable pub open_journal :
    String → Bool → Write → Journal Tables → Result (Unit {0}) × Journal Tables
open_journal device_id enroll w j = elim (identifier device_id) [
  | err e ↦ (err e, j)
  | ok tt ↦
      if enroll
      then enroll_journal device_id w j
      else in_transaction (identified device_id) (λ t. ok (tt, t)) w j
]
