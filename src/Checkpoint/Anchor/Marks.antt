-- ===== src/Checkpoint/Anchor/Marks.antt =====
-- The proposals that a freshness anchor of control/protection_supervisor_checkpoint.py accepts, and the
-- errors with which it refuses the others.
use audio_bodyguard_alpha.Prelude.Text.{is_digest}
use audio_bodyguard_alpha.Prelude.{
  ℕ, ◌≡◌, refl, String, Bool, true, false, Option, none, some, arith, Result, ok, err, Error,
  value_error, if◌then◌else◌, ◌>>=◌, guard, >>=-ok, subst,
}
use audio_bodyguard_alpha.Checkpoint.{is_sequence}
use audio_bodyguard_alpha.Checkpoint.Anchor.{
  raised, reply, failed, Mark, check_mark, next_mark, propose, advance_memory,
}

-- A record that is a mark, where there is one.
abbrev pub IsMark : Option Mark → Type 0
IsMark none = Unit {0}
IsMark (some (n, d)) = (is_sequence n ≡ true) × (is_digest d ≡ true)

pub check_mark-ok : (n : ℕ) (d : String) → check_mark n d ≡ ok tt → IsMark (some (n, d))
unfolding check_mark
check_mark-ok n d h = (ground arith, ground arith)

pub propose-IsMark :
    (n : ℕ) (d : String) (o : Option Mark) (m : Mark) → propose n d o ≡ ok m → IsMark (some (n, d))
unfolding propose
propose-IsMark n d o m h =
    let (u, fine, next) = >>=-ok (λ _. next_mark o (n, d)) (check_mark n d) h in
    check_mark-ok n d fine

-- A result that fails with a ValueError only.
abbrev Mild {ℓ} : {A : Type ℓ} → Result A → Type 0
Mild (ok a) = Unit {0}
Mild (err e) = (t : String) × (e ≡ value_error t)

guard-Mild : (b : Bool) (t : String) → Mild (guard b (value_error t))
guard-Mild true t = tt
guard-Mild false t = (t, refl)

bind-Mild {ℓ κ} :
    {A : Type ℓ} {B : Type κ} (m : Result A) (f : A → Result B)
    → Mild m
    → ((a : A) → Mild (f a))
    → Mild (m >>= f)
bind-Mild (ok a) f h k = k a
bind-Mild (err e) f h k = h

if-Mild {ℓ} : {A : Type ℓ} (b : Bool) (x y : Result A) → Mild x → Mild y → Mild (if b then x else y)
if-Mild true x y h k = h
if-Mild false x y h k = k

ruleset mild = (guard-Mild, bind-Mild, if-Mild)

propose-Mild : (n : ℕ) (d : String) (o : Option Mark) → Mild (propose n d o)
unfolding propose check_mark next_mark
propose-Mild n d none = search mild
propose-Mild n d (some (m, e)) = search mild

pub propose-err :
    (n : ℕ) (d : String) (o : Option Mark) (e : Error)
    → propose n d o ≡ err e
    → (t : String) × (e ≡ value_error t)
propose-err n d o e h = subst Mild h (propose-Mild n d o)

pub propose_unchecked :
    (n : ℕ) (d : String) (o : Option Mark) (e : Error)
    → check_mark n d ≡ err e
    → propose n d o ≡ err e
unfolding propose
propose_unchecked n d o e bad = rw bad refl

pub advance_memory-err :
    (n : ℕ) (d : String) (o : Option Mark) (e : Error)
    → propose n d o ≡ err e
    → advance_memory n d o ≡ (failed (raised e), o)
unfolding advance_memory
advance_memory-err n d o e bad = rw (bad, advance_memory) refl

pub advance_memory-ok :
    (n : ℕ) (d : String) (o : Option Mark)
    → propose n d o ≡ ok (n, d)
    → advance_memory n d o ≡ (reply tt, some (n, d))
unfolding advance_memory
advance_memory-ok n d o next = rw (next, advance_memory) refl
