-- ===== src/Prelude/Time.antt =====
-- Times and durations: Python's finite floats as whole ticks of one fixed unit, of either sign, so
-- that order and differences are exact. Rounding is not modelled.
use Prim.Native.Nat.{ℕ, suc, ◌+◌, ◌-◌}
use mathlib.Core.Path.{◌≡◌}
use mathlib.Core.Logic.{◌↔◌}
use mathlib.Core.Bool.{Bool, true, false, not}
use native.Mathlib.Omega.{arith}
use audio_bodyguard_alpha.Prelude.Tests.{ltb, leb, eqb, if◌then◌else◌}

-- `negsuc n` is -(n + 1).
pub data ℤ : Type 0 where
  pos : ℕ → ℤ
  negsuc : ℕ → ℤ

unfoldable pub pos_part : ℤ → ℕ
pos_part (pos n) = n
pos_part (negsuc n) = 0

unfoldable pub neg_part : ℤ → ℕ
neg_part (pos n) = 0
neg_part (negsuc n) = suc n

sub_ℕ : ℕ → ℕ → ℤ
sub_ℕ a b = if leb b a then pos (a - b) else negsuc (b - a - 1)

abbrev pub Time : Type 0
Time = ℤ

abbrev pub epoch : Time
epoch = pos 0

-- a < b, a == b, a + b and a - b
unfoldable pub before : Time → Time → Bool
unfolding pos_part neg_part
before a b = ltb (pos_part a + neg_part b) (pos_part b + neg_part a)

unfoldable pub same_time : Time → Time → Bool
unfolding pos_part neg_part
same_time a b = eqb (pos_part a + neg_part b) (pos_part b + neg_part a)

unfoldable pub add : Time → Time → Time
unfolding pos_part neg_part sub_ℕ
add a b = sub_ℕ (pos_part a + pos_part b) (neg_part a + neg_part b)

unfoldable pub sub : Time → Time → Time
unfolding pos_part neg_part sub_ℕ
sub a b = sub_ℕ (pos_part a + neg_part b) (neg_part a + pos_part b)

-- a <= b
abbrev pub at_most : Time → Time → Bool
at_most a b = not (before b a)

pub before_irrefl : (a : Time) → before a a ≡ false
unfolding before
before_irrefl a = ground arith

pub before_trans : (a b c : Time) → before a b ≡ true → before b c ≡ true → before a c ≡ true
unfolding before
before_trans a b c h k = ground arith

pub before_asym : (a b : Time) → before a b ≡ true → before b a ≡ false
unfolding before
before_asym a b h = ground arith

-- What is late for one bound is late for an earlier one.
pub before_late : (a b c : Time) → before a b ≡ false → before c a ≡ false → before c b ≡ false
unfolding before
before_late a b c h k = ground arith

pub before-add : (a d : Time) → before epoch d ≡ true → before a (add a d) ≡ true
unfolding before add
before-add a d h = ground arith

pub same_time_refl : (a : Time) → same_time a a ≡ true
unfolding same_time
same_time_refl a = ground arith

pub same_time_iff : (a b : Time) → (same_time a b ≡ true) ↔ (a ≡ b)
unfolding same_time
same_time_iff a b = ground arith
