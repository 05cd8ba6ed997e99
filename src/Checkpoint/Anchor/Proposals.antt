-- ===== src/Checkpoint/Anchor/Proposals.antt =====
-- Proposals to a freshness anchor of control/protection_supervisor_checkpoint.py: the record never goes
-- back.
use audio_bodyguard_alpha.Prelude.{
  ℕ, ◌<◌, ◌≡◌, ap, inl, inr, ◌⊎◌, String, eq_iff, Option, none, some, arith, ok, Result-cases,
  >>=-ok,
}
use audio_bodyguard_alpha.Checkpoint.Anchor.{
  reply, Mark, check_mark, next_mark, advance_memory, propose,
}

-- The anchor is at the mark, or has gone on to a later sequence.
abbrev pub IsPast : Mark → Option Mark → Type 0
IsPast m o = (o ≡ some m) ⊎ ((n : Mark) × (o ≡ some n) × (m.0 < n.0))

next_mark-IsPast :
    (m p n : Mark) (o : Option Mark) → IsPast m o → next_mark o p ≡ ok n → IsPast m (some n)
unfolding next_mark
next_mark-IsPast m p n none h e = ground arith
next_mark-IsPast (k, d) (i, f) n (some (j, e)) h next = ground (arith, eq_iff f e)

pub next_mark-proposal : (o : Option Mark) (p n : Mark) → next_mark o p ≡ ok n → n ≡ p
unfolding next_mark
next_mark-proposal none (i, f) n h = ground arith
next_mark-proposal (some (j, e)) (i, f) n h = ground (arith, eq_iff f e)

pub propose-ok :
    (n : ℕ) (d : String) (o : Option Mark) (k : Mark)
    → propose n d o ≡ ok k
    → next_mark o (n, d) ≡ ok k
unfolding propose
propose-ok n d o k h =
    let (u, fine, next) = >>=-ok (λ _. next_mark o (n, d)) (check_mark n d) h in next

pub advance_memory-IsPast :
    (m : Mark) (n : ℕ) (d : String) (o : Option Mark)
    → IsPast m o
    → IsPast m (advance_memory n d o).1
unfolding advance_memory
advance_memory-IsPast m n d o h = elim (Result-cases (propose n d o)) [
  | inr (e, bad) ↦ rw (bad, advance_memory) h
  | inl (k, next) ↦
      rw (next, advance_memory) (next_mark-IsPast m (n, d) k o h (propose-ok n d o k next))
]

pub advance_memory-reply :
    (n : ℕ) (d : String) (o : Option Mark)
    → (advance_memory n d o).0 ≡ reply tt
    → (advance_memory n d o).1 ≡ some (n, d)
unfolding advance_memory
advance_memory-reply n d o h = elim (Result-cases (propose n d o)) [
  | inr (e, bad) ↦ cc (rw (bad, advance_memory) at h)
  | inl (k, next) ↦
      rw (next, advance_memory) (ap some (next_mark-proposal o (n, d) k (propose-ok n d o k next)))
]
