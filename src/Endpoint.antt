-- ===== src/Endpoint.antt =====
-- What the endpoint's journals of device_fabric/endpoint_execution_ledger.py and
-- device_fabric/endpoint_handoff_barrier.py share: an SQLite file that is read and written in one
-- transaction, and the tests on identifiers.
pub mod Ledger
pub mod Guard
pub mod Installer
pub mod Barrier
use audio_bodyguard_alpha.Prelude.{
  ℕ, String, Bool, true, false, not, ◌&&◌, ltb, if◌then◌else◌, Result, ok, err, value_error,
  other_error, ◌>>=◌, ◌>>◌, guard, ◌≡◌, refl, sym, inl, inr, Bool-cases, Result-cases, ok_inj,
}
use audio_bodyguard_alpha.Prelude.Text.{is_trimmed}
use audio_bodyguard_alpha.Lease.Store.{Write, written, not_replaced, not_synced}

-- `_identifier` and `_positive_integer`
unfoldable pub identifier : String → Result (Unit {0})
identifier value = guard (is_trimmed value) (value_error "is invalid")

abbrev pub integer_limit : ℕ
integer_limit = 9223372036854775808

unfoldable pub positive_integer : ℕ → Result (Unit {0})
positive_integer value = guard (ltb 0 value && ltb value integer_limit) (value_error "is invalid")

-- What is at the journal's path: nothing, a file on which SQLite or a PRAGMA test fails, or the tables.
pub data Journal {ℓ} (T : Type ℓ) : Type ℓ where
  absent broken : Journal T
  tables : T → Journal T

module _ {ℓ κ} {T : Type ℓ} {A : Type κ} where
  -- The end of the transaction: COMMIT goes through, or fails without or with its effect.
  unfoldable pub commit_tables : A → T → Write → T → Result A × Journal T
  commit_tables a t' written t = (ok a, tables t')
  commit_tables a t' not_replaced t = (err (other_error "sqlite3"), tables t)
  commit_tables a t' not_synced t = (err (other_error "sqlite3"), tables t')

  unfoldable pub end_transaction : Result (A × T) → Write → T → Result A × Journal T
  end_transaction (err e) w t = (err e, tables t)
  end_transaction (ok (a, t')) w t = commit_tables a t' w t

  -- `with self._write()` around a body; `identified` is the test of the identity row.
  unfoldable pub in_transaction :
      (T → Bool) → (T → Result (A × T)) → Write → Journal T → Result A × Journal T
  in_transaction identified body w absent = (err (value_error "history is missing"), absent)
  in_transaction identified body w broken = (err (other_error "sqlite3"), broken)
  in_transaction identified body w (tables t) =
      if identified t
      then end_transaction (body t) w t
      else (err (value_error "identity mismatch"), tables t)

commit_tables-ok {ℓ} :
    {T : Type ℓ} (a b : Bool) (x y : T) (w : Write)
    → (commit_tables a y w x).0 ≡ ok b
    → (b ≡ a) × ((commit_tables a y w x).1 ≡ tables y)
unfolding commit_tables
commit_tables-ok a b x y written h = (sym (ok_inj h), refl)
commit_tables-ok a b x y not_replaced h = cc
commit_tables-ok a b x y not_synced h = cc

-- A positive answer comes from a committed transaction.
pub in_transaction-true {ℓ} :
    {T : Type ℓ} (ident : T → Bool) (body : T → Result (Bool × T)) (w : Write) (j : Journal T)
    → (in_transaction ident body w j).0 ≡ ok true
    → (x : T) × (y : T) × (j ≡ tables x)
      × (body x ≡ ok (true, y))
      × ((in_transaction ident body w j).1 ≡ tables y)
unfolding in_transaction end_transaction
in_transaction-true ident body w absent h = cc
in_transaction-true ident body w broken h = cc
in_transaction-true ident body w (tables x) h = elim (Bool-cases (ident x)) [
  | inr other ↦ cc (rw other at h)
  | inl mine ↦ elim (Result-cases (body x)) [
    | inr (e, bad) ↦ cc (rw (mine, bad) at h)
    | inl ((a, y), fine) ↦
        let done = commit_tables-ok a true x y w (rw (mine, fine) at h) in
        rw (mine, fine) (x, y, refl, rw done.0 fine, done.1)
  ]
]
