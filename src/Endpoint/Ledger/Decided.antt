-- ===== src/Endpoint/Ledger/Decided.antt =====
-- Histories of device_fabric/endpoint_execution_ledger.py.
use audio_bodyguard_alpha.Prelude.{
  ◌≡◌, refl, sym, ap, ◌∙◌, inl, inr, String, Bool, true, ◌==◌, eq_iff, eq_refl, some, Result, ok,
  arith, Bool-cases, Result-cases, Option-cases, ok_inj, subst,
}
use audio_bodyguard_alpha.Prelude.Dict.{get, put, get-put}
use audio_bodyguard_alpha.Lease.Store.{Write, written, not_replaced, not_synced}
use audio_bodyguard_alpha.Endpoint.{
  identifier, Journal, absent, broken, tables, in_transaction, end_transaction, commit_tables,
  in_transaction-true,
}
use audio_bodyguard_alpha.Endpoint.Ledger.{
  Context, Tables, Ledger, check_context, identified, judge_row, decide_row, decide_body, decide,
  enroll_journal, open_journal, not_applied_state,
}

-- The transaction's row, in a journal that has one.
pub IsSettled : String → String → Journal Tables → Type 0
IsSettled t state (tables x) = (context : Context) × (get t x.transactions ≡ some (context, state))
IsSettled t state j = ⊥

-- Rows are only added.
decide_body-IsSettled :
    (t state u s : String) (c : Context) (x : Tables)
    → IsSettled t state (tables x)
    → (a : Bool) (y : Tables) → decide_body u s c x ≡ ok (a, y)
    → IsSettled t state (tables y)
unfolding decide_body decide_row IsSettled
decide_body-IsSettled t state u s c x h a y e = elim (Option-cases (get u x.transactions)) [
  | inl new ↦
      let same : y ≡ record x { transactions = put u (c, s) x.transactions } =
        sym (ap (λ p. p.1) (ok_inj (rw new at e))) in
      rw same (
        h.0,
        elim (Bool-cases (u == t)) [
          | inl clash ↦ cc (new, h.1, (eq_iff u t).0 clash)
          | inr other ↦ rw (get-put u t (c, s) x.transactions, other) h.1
        ],
      )
  | inr (row, found) ↦ elim (Result-cases (judge_row row s c)) [
    | inr (e', bad) ↦ cc (rw (found, bad) at e)
    | inl (b, fine) ↦
        let same : y ≡ x = sym (ap (λ p. p.1) (ok_inj (rw (found, fine) at e))) in rw same h
  ]
]

commit_tables-IsSettled :
    {A : Type 0} (t state : String) (a : A) (x y : Tables) (w : Write)
    → IsSettled t state (tables x)
    → IsSettled t state (tables y)
    → IsSettled t state (commit_tables a y w x).1
unfolding commit_tables
commit_tables-IsSettled t state a x y written h k = k
commit_tables-IsSettled t state a x y not_replaced h k = h
commit_tables-IsSettled t state a x y not_synced h k = k

in_transaction-IsSettled :
    {A : Type 0} (t state : String) (ident : Tables → Bool) (body : Tables → Result (A × Tables))
    (w : Write) (j : Journal Tables)
    → ((x : Tables)
        → IsSettled t state (tables x)
        → (a : A) (y : Tables) → body x ≡ ok (a, y)
        → IsSettled t state (tables y))
    → IsSettled t state j
    → IsSettled t state (in_transaction ident body w j).1
unfolding in_transaction end_transaction
in_transaction-IsSettled t state ident body w absent step h = h
in_transaction-IsSettled t state ident body w broken step h = h
in_transaction-IsSettled t state ident body w (tables x) step h = elim (Bool-cases (ident x)) [
  | inr other ↦ rw other h
  | inl mine ↦ elim (Result-cases (body x)) [
    | inr (e, bad) ↦ rw (mine, bad) h
    | inl ((a, y), fine) ↦
        rw (mine, fine) (commit_tables-IsSettled t state a x y w h (step x h a y fine))
  ]
]

decide-IsSettled :
    (t state u s : String) (c : Context) (w : Write) (l : Ledger)
    → IsSettled t state l.journal
    → IsSettled t state (decide u s c w l).1.journal
unfolding decide
decide-IsSettled t state u s c w l h = elim (Result-cases (check_context u c)) [
  | inr (e, bad) ↦ rw (bad, decide) h
  | inl (u0, fine) ↦
      rw (fine, decide)
        (in_transaction-IsSettled t state (identified l.device_id) (decide_body u s c) w l.journal
          (decide_body-IsSettled t state u s c) h)
]

enroll_journal-IsSettled :
    (t state device_id : String) (w : Write) (j : Journal Tables)
    → IsSettled t state j
    → IsSettled t state (enroll_journal device_id w j).1
unfolding enroll_journal IsSettled
enroll_journal-IsSettled t state device_id w absent h = absurd h
enroll_journal-IsSettled t state device_id w broken h = h
enroll_journal-IsSettled t state device_id w (tables x) h = h

open_journal-IsSettled :
    (t state device_id : String) (enroll : Bool) (w : Write) (j : Journal Tables)
    → IsSettled t state j
    → IsSettled t state (open_journal device_id enroll w j).1
unfolding open_journal
open_journal-IsSettled t state device_id enroll w j h = elim (Result-cases (identifier device_id)) [
  | inr (e, bad) ↦ rw (bad, open_journal) h
  | inl (u0, fine) ↦ elim (Bool-cases enroll) [
    | inl new ↦ rw (fine, new, open_journal) (enroll_journal-IsSettled t state device_id w j h)
    | inr old ↦
        rw (fine, old, open_journal)
          (in_transaction-IsSettled t state (identified device_id) (λ x. ok (tt, x)) w j
            (λ x k a y e. subst (λ z. IsSettled t state (tables z)) (ap (λ p. p.1) (ok_inj e)) k) h)
  ]
]

-- Decisions, and openings of the same path by any endpoint.
pub data Reach (l : Ledger) : Ledger → Type 0 where
  here : Reach l l
  decides :
      {m n : Ledger} (t state : String) (c : Context) (w : Write)
      → Reach l m
      → n ≡ (decide t state c w m).1
      → Reach l n
  opens :
      {m n : Ledger} (device_id : String) (enroll : Bool) (w : Write)
      → Reach l m
      → n
        ≡ record { device_id = device_id; journal = (open_journal device_id enroll w m.journal).1 }
      → Reach l n

Reach-IsSettled :
    (t state : String) (l m : Ledger)
    → Reach l m
    → IsSettled t state l.journal
    → IsSettled t state m.journal
Reach-IsSettled t state l m here h = h
Reach-IsSettled t state l m (decides {m = k} u s c w before e) h =
    rw e (decide-IsSettled t state u s c w k (Reach-IsSettled t state l k before h))
Reach-IsSettled t state l m (opens {m = k} device_id enroll w before e) h = rw e (
    open_journal-IsSettled t state device_id enroll w k.journal
      (Reach-IsSettled t state l k before h))

judge_row-true :
    (bound context : Context) (settled state : String)
    → judge_row (bound, settled) state context ≡ ok true
    → (state ≡ not_applied_state) × (settled ≡ not_applied_state)
unfolding judge_row
judge_row-true bound context settled state h =
    ground (arith, eq_iff state not_applied_state, eq_iff settled not_applied_state)

-- What a positive answer says of the row: it is the new one, or both are NOT_APPLIED.
decide_body-true :
    (t state : String) (c : Context) (x y : Tables)
    → decide_body t state c x ≡ ok (true, y)
    → IsSettled t state (tables y)
unfolding decide_body decide_row IsSettled
decide_body-true t state c x y h = elim (Option-cases (get t x.transactions)) [
  | inl new ↦
      let same : y ≡ record x { transactions = put t (c, state) x.transactions } =
        sym (ap (λ p. p.1) (ok_inj (rw new at h))) in
      rw same (c, rw (get-put t t (c, state) x.transactions, eq_refl t) refl)
  | inr ((bound, settled), found) ↦ elim (Result-cases (judge_row (bound, settled) state c)) [
    | inr (e, bad) ↦ cc (rw (found, bad) at h)
    | inl (b, fine) ↦
        let pair = ok_inj (rw (found, fine) at h) in
        let both = judge_row-true bound c settled state (fine ∙ ap (λ p. ok p.0) pair) in
        subst (λ z. IsSettled t state (tables z)) (ap (λ p. p.1) pair)
          (bound, rw (both.0) (rw both.1 at found))
  ]
]

decide_body-again :
    (t state s : String) (c : Context) (x y : Tables)
    → IsSettled t state (tables x)
    → decide_body t s c x ≡ ok (true, y)
    → (state ≡ not_applied_state) × (s ≡ not_applied_state)
unfolding decide_body decide_row IsSettled
decide_body-again t state s c x y (bound, found) h =
    elim (Result-cases (judge_row (bound, state) s c)) [
      | inr (e, bad) ↦ cc (rw (found, bad) at h)
      | inl (b, fine) ↦
          let pair = ok_inj (rw (found, fine) at h) in
          let both = judge_row-true bound c state s (fine ∙ ap (λ p. ok p.0) pair) in
          (both.1, both.0)
    ]

-- A positive answer comes from a committed transaction.
decide-true :
    (t state : String) (c : Context) (w : Write) (l : Ledger)
    → (decide t state c w l).0 ≡ ok true
    → (x : Tables) × (y : Tables) × (l.journal ≡ tables x)
      × (decide_body t state c x ≡ ok (true, y))
      × ((decide t state c w l).1.journal ≡ tables y)
unfolding decide
decide-true t state c w l h = elim (Result-cases (check_context t c)) [
  | inr (e, bad) ↦ cc (rw (bad, decide) at h)
  | inl (u0, fine) ↦
      rw (fine, decide)
        (in_transaction-true (identified l.device_id) (decide_body t state c) w l.journal
          (rw (fine, decide) at h))
]

-- Once the ledger has answered that a transaction is claimed or closed, whatever is decided and opened after, it
-- answers so for that transaction again only if both times it was closed as not applied.
pub decide-once :
    (t state state' : String) (c c' : Context) (w w' : Write) (l m : Ledger)
    → (decide t state c w l).0 ≡ ok true
    → Reach (decide t state c w l).1 m
    → (decide t state' c' w' m).0 ≡ ok true
    → (state ≡ not_applied_state) × (state' ≡ not_applied_state)
decide-once t state state' c c' w w' l m first reach second =
    let a = decide-true t state c w l first in
    let settled =
      subst (λ j. IsSettled t state j) (sym a.4) (decide_body-true t state c a.0 a.1 a.3) in
    let b = decide-true t state' c' w' m second in
    let later =
      subst (λ j. IsSettled t state j) b.2
        (Reach-IsSettled t state (decide t state c w l).1 m reach settled) in
    decide_body-again t state state' c' b.0 b.1 later b.3
