-- ===== src/Checkpoint/Witness/Issued.antt =====
-- The signed records of control/protection_supervisor_checkpoint.py that a key issues are accepted by the
-- verifier that stands for it.
use audio_bodyguard_alpha.Prelude.{
  ℕ, ◌≡◌, refl, sym, inl, inr, String, true, false, ◌==◌, eq_iff, eq_refl, some, eqb_iff, arith,
  Bool-cases, ok, subst,
}
use audio_bodyguard_alpha.Prelude.Text.{is_named, is_trimmed, is_digest}
use audio_bodyguard_alpha.Prelude.Dict.{Dict, get}
use audio_bodyguard_alpha.Json.{Json}
use audio_bodyguard_alpha.Evidence.Remote.{KeyVerifier}
use audio_bodyguard_alpha.Checkpoint.{is_installation_id}
use audio_bodyguard_alpha.Checkpoint.Anchor.{reply, Mark, same_mark, judge_read, judge_advance}
use audio_bodyguard_alpha.Checkpoint.Anchor.Marks.{IsMark}
use audio_bodyguard_alpha.Checkpoint.Witness.{
  SignedRecord, canonical_record, SigningKey, p256, issue_record, verify_record, verify_read,
  sign_read, verify_advance, sign_advance,
}

-- The key signs every document so that the verifier that stands for it accepts.
pub record IsKey (key : SigningKey) (verifiers : Dict KeyVerifier) : Type 0 where
  pub named : is_named key.key_id ≡ true
  pub algorithm : (key.algorithm == p256) ≡ true
  pub verifier : KeyVerifier
  pub found : get key.key_id verifiers ≡ some verifier
  pub same : (key.algorithm == verifier.algorithm) ≡ true
  pub signature : Json → String
  pub signs : (j : Json) → key.sign j ≡ ok (signature j)
  pub given : (j : Json) → is_named (signature j) ≡ true
  pub verifies : (j : Json) → verifier.verify j (signature j) ≡ true

trimmed-named : (s : String) → is_trimmed s ≡ true → is_named s ≡ true
unfolding is_trimmed is_named
trimmed-named String.[] h = h
trimmed-named (String.◌∷◌ c s) h = ground arith

installation-named : (s : String) → is_installation_id s ≡ true → is_named s ≡ true
unfolding is_installation_id
installation-named s h = trimmed-named s (ground arith)

digest-named : (s : String) → is_digest s ≡ true → is_named s ≡ true
unfolding is_digest is_named
digest-named String.[] h = cc
digest-named (String.◌∷◌ c s) h = ground arith

not_empty : (s : String) → is_named s ≡ true → (s == "") ≡ false
unfolding is_named
not_empty s h = elim (Bool-cases (s == "")) [
  | inr e ↦ e
  | inl e ↦ let empty = subst (λ t. is_named t ≡ true) ((eq_iff s "").0 e) h in cc
]

p256-named : (s : String) → (s == p256) ≡ true → is_named s ≡ true
unfolding is_named
p256-named s h = subst (λ t. is_named t ≡ true) (sym ((eq_iff s p256).0 h)) refl

pub same_mark_refl : (m : Mark) → same_mark m m ≡ true
unfolding same_mark
same_mark_refl (n, d) = rw ((eqb_iff n n).1 refl, eq_refl) refl

module _ {key : SigningKey} {verifiers : Dict KeyVerifier} (k : IsKey key verifiers) (id : String)
    (valid : is_installation_id id ≡ true) where
  issued : ℕ → String → SignedRecord
  issued n d =
      let unsigned : SignedRecord = record {
        installation_id = id;
        sequence = n;
        digest = d;
        issuer_id = key.key_id;
        algorithm = key.algorithm;
        signature = "";
      } in
      record unsigned { signature = k.signature (canonical_record unsigned) }

  issue_record-issued :
      (n : ℕ) (d : String) → IsMark (some (n, d)) → issue_record key id n d ≡ ok (issued n d)
  unfolding issue_record issued
  issue_record-issued n d (sequence, digest) =
      rw
        (
          valid,
          sequence,
          digest,
          k.named,
          k.algorithm,
          k.signs,
          not_empty (k.signature _) (k.given _),
        )
        refl

  verify_record-issued :
      (n : ℕ) (d : String)
      → IsMark (some (n, d))
      → verify_record verifiers id (issued n d) ≡ reply (n, d)
  unfolding issued verify_record canonical_record
  verify_record-issued n d (sequence, digest) =
      rw
        (
          valid,
          installation-named id valid,
          digest-named d digest,
          k.named,
          p256-named key.algorithm k.algorithm,
          k.given,
          sequence,
          digest,
          k.found,
          k.same,
          k.verifies,
          eq_refl,
        )
        refl

  pub answers_read :
      (n : ℕ) (d : String)
      → IsMark (some (n, d))
      → judge_read (verify_read verifiers id (sign_read key id (reply (some (n, d)))))
        ≡ reply (some (n, d))
  unfolding sign_read verify_read judge_read
  answers_read n d m =
      rw (issue_record-issued n d m, sign_read)
        (rw (verify_record-issued n d m, verify_read) (rw (m.0, m.1) refl))

  pub answers_advance :
      (n : ℕ) (d : String)
      → IsMark (some (n, d))
      → judge_advance
          (n, d)
          (verify_advance verifiers id (n, d) (sign_advance key id (n, d) (reply (n, d))))
        ≡ reply tt
  unfolding sign_advance verify_advance judge_advance
  answers_advance n d m =
      let same = same_mark_refl (n, d) in
      rw (same, issue_record-issued n d m, sign_advance)
        (rw (verify_record-issued n d m, same, verify_advance) (rw same refl))
