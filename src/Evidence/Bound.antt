-- ===== src/Evidence/Bound.antt =====
-- What the verifier of control/controller_command_proof.py has checked of a proof that it accepts.
use audio_bodyguard_alpha.Prelude.{
  ◌<◌, ◌≡◌, refl, String, true, ◌&&◌, ◌==◌, eq_iff, Option, none, some, [], ◌∷◌, all, arith,
}
use audio_bodyguard_alpha.Prelude.Text.{is_named}
use audio_bodyguard_alpha.Prelude.Dict.{Dict, get}
use audio_bodyguard_alpha.Lease.{Verifier}
use audio_bodyguard_alpha.Evidence.Command.{
  Proof, canonical_proof, commanded, judge_key, validate_proof,
}

-- The proof names the digest of its evidence and the key of the evidence's controller, which is trusted
-- and has signed it.
pub record IsBound (verifiers : Dict Verifier) (p : Proof) (digest key_id : String) : Type 0 where
  pub verifier : Verifier
  pub evidence : p.grant_digest ≡ digest
  pub key : p.controller_key_id ≡ key_id
  pub trusted : get key_id verifiers ≡ some verifier
  pub signed : verifier (canonical_proof p) p.signature ≡ true
  pub positive : 0 < p.command_sequence
  pub named :
      all is_named
        (p.grant_digest ∷ p.command_id ∷ p.action_digest ∷ p.controller_key_id ∷ p.signature ∷ [])
      ≡ true

judge_key-commanded :
    (o : Option Verifier) (p : Proof)
    → judge_key o p ≡ commanded
    → (v : Verifier) × (o ≡ some v) × (v (canonical_proof p) p.signature ≡ true)
unfolding judge_key
judge_key-commanded none p h = absurd (cc)
judge_key-commanded (some v) p h = (v, refl, ground (arith, h))

validate_proof-parts :
    (verifiers : Dict Verifier) (p : Proof) (digest key_id : String)
    → validate_proof verifiers p digest key_id ≡ commanded
    → ((is_named p.grant_digest
          && is_named p.command_id
          && is_named p.action_digest
          && is_named p.controller_key_id
          && is_named p.signature)
        ≡ true)
      × (0 < p.command_sequence)
      × ((p.grant_digest == digest) ≡ true)
      × ((p.controller_key_id == key_id) ≡ true)
      × (judge_key (get p.controller_key_id verifiers) p ≡ commanded)
unfolding validate_proof
validate_proof-parts verifiers p digest key_id h = ground arith

pub validate_proof-IsBound :
    (verifiers : Dict Verifier) (p : Proof) (digest key_id : String)
    → validate_proof verifiers p digest key_id ≡ commanded
    → IsBound verifiers p digest key_id
validate_proof-IsBound verifiers p digest key_id h =
    let (named, positive, evidence, same_key, judged) =
      validate_proof-parts verifiers p digest key_id h in
    let key = (eq_iff p.controller_key_id key_id).0 same_key in
    let (v, found, signed) = judge_key-commanded (get p.controller_key_id verifiers) p judged in
    record {
      verifier = v;
      evidence = (eq_iff p.grant_digest digest).0 evidence;
      key = key;
      trusted = rw⁻¹ key found;
      signed = signed;
      positive = positive;
      named = ground (arith, named);
    }
