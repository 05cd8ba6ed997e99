-- ===== src/Checkpoint/Witness/Agrees.antt =====
-- An anchor that asks a signed and verified witness, both of
-- control/protection_supervisor_checkpoint.py, against the anchor in memory.
use audio_bodyguard_alpha.Prelude.{
  ℕ, ◌≡◌, refl, ap, ◌∙◌, sym, inl, inr, String, true, eq_refl, Option, none, some, List, [], ◌∷◌,
  Option-cases, ok, err, Error, value_error, Result-cases, subst,
}
use audio_bodyguard_alpha.Prelude.Dict.{Dict, get, put, get-put}
use audio_bodyguard_alpha.Evidence.Remote.{KeyVerifier}
use audio_bodyguard_alpha.Checkpoint.{is_installation_id}
use audio_bodyguard_alpha.Checkpoint.Anchor.{
  raised, Reply, reply, failed, Mark, Anchor, Witness, check_mark, propose, advance_memory,
  memory_anchor, read_memory, compare_memory, memory_witness, judge_read, read_witnessed,
  advance_witnessed, witnessed_anchor,
}
use audio_bodyguard_alpha.Checkpoint.Anchor.Proposals.{propose-ok, next_mark-proposal}
use audio_bodyguard_alpha.Checkpoint.Anchor.Marks.{
  IsMark, check_mark-ok, propose-IsMark, propose-err, propose_unchecked, advance_memory-err,
  advance_memory-ok,
}
use audio_bodyguard_alpha.Checkpoint.Witness.{
  SigningKey, verify_read, sign_read, verify_advance, sign_advance, verified_witness,
  signing_witness,
}
use audio_bodyguard_alpha.Checkpoint.Witness.Issued.{IsKey, answers_read, answers_advance}

-- The answers to proposals, each with that of the read after it.
pub answers :
    {S : Type 0} → Anchor S → List Mark → S → List (Reply (Unit {0}) × Reply (Option Mark))
answers a [] s = []
answers a ((n, d) ∷ rest) s =
    let (done, s') = a.advance n d s in
    let (seen, s'') = a.read s' in (done, seen) ∷ answers a rest s''

module _ {key : SigningKey} {verifiers : Dict KeyVerifier} (k : IsKey key verifiers) (id : String)
    (valid : is_installation_id id ≡ true) where
  abbrev witness : Witness Mark (Dict Mark)
  witness = verified_witness verifiers (signing_witness key memory_witness)

  abbrev stack : Anchor (Dict Mark)
  stack = witnessed_anchor witness id

  none_agrees :
      (s : Dict Mark)
      → ◌≡◌ {A = Reply (Option Mark) × Dict Mark}
          (judge_read (verify_read verifiers id (sign_read key id (reply none))), s)
          (reply none, s)
  unfolding judge_read verify_read sign_read
  none_agrees s = refl

  read-agrees : (s : Dict Mark) → IsMark (get id s) → stack.read s ≡ (reply (get id s), s)
  unfolding read_memory read_witnessed
  read-agrees s h = elim (Option-cases (get id s)) [
    | inl e ↦ rw (valid, e) (none_agrees s)
    | inr ((n, d), e) ↦
        let mark : IsMark (some (n, d)) = rw e at h in
        rw (valid, e) (ap (λ r. (r, s)) (answers_read k id valid n d mark))
  ]

  stack_fails :
      (n : ℕ) (d : String) (e : Error) (s : Dict Mark)
      → check_mark n d ≡ err e
      → stack.advance n d s ≡ (failed (raised e), s)
  unfolding advance_witnessed
  stack_fails n d e s bad = rw (bad, advance_witnessed) refl

  stack_refuses :
      (n : ℕ) (d t : String) (s : Dict Mark)
      → check_mark n d ≡ ok tt
      → propose n d (get id s) ≡ err (value_error t)
      → stack.advance n d s ≡ (failed (raised (value_error t)), s)
  unfolding advance_witnessed compare_memory sign_advance verify_advance
  stack_refuses n d t s fine bad =
      rw (fine, advance_witnessed) (rw (valid, bad, compare_memory) refl)

  stack_advances :
      (n : ℕ) (d : String) (s : Dict Mark)
      → check_mark n d ≡ ok tt
      → propose n d (get id s) ≡ ok (n, d)
      → stack.advance n d s ≡ (reply tt, put id (n, d) s)
  unfolding advance_witnessed compare_memory
  stack_advances n d s fine next =
      rw (fine, advance_witnessed)
        (rw (valid, next, compare_memory)
          (ap (λ r. (r, put id (n, d) s))
            (answers_advance k id valid n d (check_mark-ok n d fine))))

  advance-agrees :
      (n : ℕ) (d : String) (s : Dict Mark)
      → ((stack.advance n d s).0 ≡ (advance_memory n d (get id s)).0)
        × (get id (stack.advance n d s).1 ≡ (advance_memory n d (get id s)).1)
  advance-agrees n d s = elim (Result-cases (check_mark n d)) [
    | inr (e, bad) ↦
        let refused : propose n d (get id s) ≡ err e = propose_unchecked n d (get id s) e bad in
        rw (stack_fails n d e s bad, advance_memory-err n d (get id s) e refused) (refl, refl)
    | inl (u, fine) ↦ elim (Result-cases (propose n d (get id s))) [
      | inr (e, refused) ↦
          let (t, mild) = propose-err n d (get id s) e refused in
          let refused' : propose n d (get id s) ≡ err (value_error t) = rw (← mild) refused in
          rw
            (
              stack_refuses n d t s fine refused',
              advance_memory-err n d (get id s) (value_error t) refused',
            )
            (refl, refl)
      | inl (m, next) ↦
          let next' : propose n d (get id s) ≡ ok (n, d) =
            next
            ∙ ap ok (next_mark-proposal (get id s) (n, d) m (propose-ok n d (get id s) m next)) in
          rw (stack_advances n d s fine next', advance_memory-ok n d (get id s) next')
            (refl, get-put id id (n, d) s ∙ rw eq_refl refl)
    ]
  ]

  advance_memory-IsMark :
      (n : ℕ) (d : String) (o : Option Mark) → IsMark o → IsMark (advance_memory n d o).1
  unfolding advance_memory
  advance_memory-IsMark n d o h = elim (Result-cases (propose n d o)) [
    | inr (e, bad) ↦ rw (bad, advance_memory) h
    | inl (m, next) ↦
        rw (next, advance_memory, next_mark-proposal o (n, d) m (propose-ok n d o m next))
          (propose-IsMark n d o m next)
  ]

  -- On every sequence of proposals, each followed by a read, an anchor that asks a signed and verified
  -- witness answers as the anchor in memory does, errors included, if what the witness has on record
  -- for the installation at the start is none or a mark. The witness's key signs so that its
  -- verifier accepts, and the installation has a valid id.
  pub answers-agree :
      (proposals : List Mark) (s : Dict Mark)
      → IsMark (get id s)
      → answers stack proposals s ≡ answers memory_anchor proposals (get id s)
  unfolding answers
  answers-agree [] s h = refl
  answers-agree ((n, d) ∷ rest) s h =
      let (same, after) = advance-agrees n d s in
      let mark : IsMark (get id (stack.advance n d s).1) =
        subst IsMark (sym after) (advance_memory-IsMark n d (get id s) h) in
      rw
        (
          read-agrees (stack.advance n d s).1 mark,
          same,
          answers-agree rest (stack.advance n d s).1 mark,
          after,
        )
        refl
