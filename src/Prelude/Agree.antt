-- ===== src/Prelude/Agree.antt =====
-- Python's `==` on two dicts: the same keys with equal values.
use Prim.Native.String.{String}
use mathlib.Core.Path.{◌≡◌, refl, sym, ap, ◌∙◌, subst}
use mathlib.Core.Logic.{inl, inr}
use mathlib.Core.Bool.{Bool, true, false, ◌&&◌}
use mathlib.Core.Option.{Option, none, some}
use mathlib.Core.List.{[], ◌∷◌}
use native.Mathlib.Omega.{arith}
use text.Mathlib.TextEquality.{eq_iff}
use audio_bodyguard_alpha.Prelude.Tests.{Option-cases}
use audio_bodyguard_alpha.Prelude.Dict.{Dict, get}

and-true : {a b : Bool} → (a && b) ≡ true → (a ≡ true) × (b ≡ true)
and-true {a = true} h = (refl, h)
and-true {a = false} h = cc

module _ {ℓ} {V : Type ℓ} where
  all_keys : (String → Bool) → Dict V → Bool
  all_keys p [] = true
  all_keys p ((k, v) ∷ d) = p k && all_keys p d

  all_keys-get :
      (p : String → Bool) (k : String) (v : V) (d : Dict V)
      → all_keys p d ≡ true
      → get k d ≡ some v
      → p k ≡ true
  unfolding all_keys get
  all_keys-get p k v [] h e = cc
  all_keys-get p k v ((j, w) ∷ d) h e = ground (arith, eq_iff j k, all_keys-get p k v d)

  all_keys-all :
      (p : String → Bool) (d : Dict V) → ((k : String) → p k ≡ true) → all_keys p d ≡ true
  unfolding all_keys
  all_keys-all p [] h = refl
  all_keys-all p ((k, v) ∷ d) h = rw (h k) (all_keys-all p d h)

  unfoldable pub same_option : (V → V → Bool) → Option V → Option V → Bool
  same_option eq none none = true
  same_option eq (some a) (some b) = eq a b
  same_option eq _ _ = false

  unfoldable pub agree : (V → V → Bool) → Dict V → Dict V → Bool
  unfolding all_keys
  agree eq a b =
      all_keys (λ k. same_option eq (get k a) (get k b)) a
      && all_keys (λ k. same_option eq (get k a) (get k b)) b

  same_option-eq :
      (eq : V → V → Bool) (x y : Option V)
      → ((a b : V) → eq a b ≡ true → a ≡ b)
      → same_option eq x y ≡ true
      → x ≡ y
  unfolding same_option
  same_option-eq eq none none sound h = refl
  same_option-eq eq none (some b) sound h = cc
  same_option-eq eq (some a) none sound h = cc
  same_option-eq eq (some a) (some b) sound h = ap some (sound a b h)

  same_option_refl :
      (eq : V → V → Bool) (x : Option V) → ((a : V) → eq a a ≡ true) → same_option eq x x ≡ true
  unfolding same_option
  same_option_refl eq none r = refl
  same_option_refl eq (some a) r = r a

  pub agree-get :
      (eq : V → V → Bool) (a b : Dict V) (k : String)
      → ((x y : V) → eq x y ≡ true → x ≡ y)
      → agree eq a b ≡ true
      → get k a ≡ get k b
  unfolding agree
  agree-get eq a b k sound h =
      let both = and-true h in
      elim (Option-cases (get k a)) [
        | inr (v, e) ↦
            same_option-eq eq (get k a) (get k b) sound
              (all_keys-get (λ k. same_option eq (get k a) (get k b)) k v a both.0 e)
        | inl e ↦ elim (Option-cases (get k b)) [
          | inr (v, e') ↦
              same_option-eq eq (get k a) (get k b) sound
                (all_keys-get (λ k. same_option eq (get k a) (get k b)) k v b both.1 e')
          | inl e' ↦ e ∙ sym e'
        ]
      ]

  pub agree-of :
      (eq : V → V → Bool) (a b : Dict V)
      → ((x : V) → eq x x ≡ true)
      → ((k : String) → get k a ≡ get k b)
      → agree eq a b ≡ true
  unfolding agree
  agree-of eq a b r same =
      let each : (k : String) → same_option eq (get k a) (get k b) ≡ true = λ k.
        subst (λ y. same_option eq (get k a) y ≡ true) (same k) (same_option_refl eq (get k a) r) in
      rw (all_keys-all (λ k. same_option eq (get k a) (get k b)) a each)
        (all_keys-all (λ k. same_option eq (get k a) (get k b)) b each)
