-- ===== src/Checkpoint/Tests.antt =====
-- The checkpoint stores of control/protection_supervisor_checkpoint.py at one checkpoint, and their
-- theorems there. A document stands for its own bytes.
use audio_bodyguard_alpha.Prelude.{
  ◌<◌, ◌≡◌, refl, ◌⊎◌, String, true, false, Option, none, some, [], ◌∷◌, ok, other_error,
}
use audio_bodyguard_alpha.Prelude.Time.{pos, pos_part, neg_part}
use audio_bodyguard_alpha.Prelude.Text.{is_named, is_trimmed, is_digest}
use audio_bodyguard_alpha.Prelude.Dict.{Dict, get, put}
use audio_bodyguard_alpha.Evidence.Remote.{KeyVerifier}
use audio_bodyguard_alpha.Supervisor.Validate.{require_revalidation_body}
use audio_bodyguard_alpha.Supervisor.Calls.{require_revalidation}
use audio_bodyguard_alpha.Json.{Json, finite, has_keys, null}
use audio_bodyguard_alpha.Lease.Store.{written, not_replaced, not_synced}
use audio_bodyguard_alpha.Supervisor.{active, recovery_required, Supervisor}
use audio_bodyguard_alpha.Checkpoint.{
  Encoding, Checkpoint, whole, payload_of, is_installation_id, encode, decode, decode_payload,
  make_checkpoint, as_instant, is_convertible, state_of, state_value,
}
use audio_bodyguard_alpha.Checkpoint.Anchor.{
  rollback_detected, same_mark, raised, reply, failed, Mark, memory_anchor, advance_memory, propose,
  memory_witness, witnessed_anchor,
}
use audio_bodyguard_alpha.Checkpoint.Anchor.Durable.{
  missing, holds, Durable, compare_durable, load_marks, save_marks,
}
use audio_bodyguard_alpha.Checkpoint.Witness.{SigningKey, verified_witness, signing_witness}
use audio_bodyguard_alpha.Checkpoint.Witness.Agrees.{answers, answers-agree}
use audio_bodyguard_alpha.Checkpoint.Witness.Issued.{IsKey}
use audio_bodyguard_alpha.Checkpoint.Store.{
  Authenticated, Protected, commitment, save_authenticated, load_authenticated, save, load,
}
use audio_bodyguard_alpha.Checkpoint.Store.Restorer.{restore_from_store}
use audio_bodyguard_alpha.Checkpoint.Store.Fresh.{Reach, load-fresh}
use audio_bodyguard_alpha.Checkpoint.Store.RoundTrip.{IsValid, IsFaithful, load-save}
use audio_bodyguard_alpha.Checkpoint.Store.Restore.{IsRestored, restore_from_store-IsRestored}

abbrev first : Checkpoint
first = record {
  state = active;
  reason = "VALIDATED";
  observed_at = whole (pos 5);
  runtime_generation = "g1";
  checkpoint_sequence = 1;
}

abbrev second : Checkpoint
second = record first { checkpoint_sequence = 2; reason = "AGAIN" }

-- base64 is right for the payload of the first checkpoint only.
abbrev plain : Encoding Json
plain = record {
  dumps = λ j. j;
  loads = λ j. some j;
  size = λ j. 200;
  to_base64 = λ j. "cGF5bG9hZA==";
  of_base64 = λ s. some (payload_of first);
}

abbrev hash : Json → String
hash j = "0123456789abcdef0123456789abcdef0123456789abcdef0123456789abcdef"

abbrev keys : Authenticated Json
keys = record {
  signing_key = record { key_id = "k"; sign = λ b. ok "s" };
  verifiers = ("k", record { key_id = "k"; verify = λ b s. true }) ∷ [];
}

abbrev empty : Protected Json (Option Mark)
empty = record { file = missing; anchored = none }

abbrev saved : Protected Json (Option Mark)
saved = (save plain hash keys memory_anchor first written empty).1

first-IsValid : IsValid first
unfolding is_trimmed is_convertible pos_part neg_part
first-IsValid = record { convertible = refl; reason = refl; generation = refl; sequence = refl }

saves : (save plain hash keys memory_anchor first written empty).0 ≡ reply tt
unfolding save commitment encode advance_memory propose save_authenticated is_digest
saves = refl

-- A second save must have the next sequence.
saves_again :
    (save plain hash keys memory_anchor first not_synced empty).0
    ≡ failed (raised (other_error "OSError"))
unfolding save commitment encode advance_memory propose save_authenticated is_digest
saves_again = refl

-- An old file is found out.
old_file :
    (load plain hash keys memory_anchor (record {
      file = saved.file;
      anchored = (save plain hash keys memory_anchor second not_replaced saved).1.anchored;
    })).0
    ≡ failed rollback_detected
unfolding save commitment encode advance_memory propose save_authenticated is_digest load
    load_authenticated has_keys get decode decode_payload make_checkpoint as_instant is_convertible
    pos_part neg_part state_of is_trimmed state_value same_mark
old_file = refl

faithful : IsFaithful plain keys first
unfolding get
faithful = record {
  payload = refl;
  envelope = λ k p s. refl;
  base64 = refl;
  verifier = record { key_id = "k"; verify = λ b s. true };
  found = refl;
  named = refl;
  verifies = λ b s h. refl;
}

load-save_example : (load plain hash keys memory_anchor saved).0 ≡ reply first
load-save_example = load-save plain hash keys first written empty faithful first-IsValid saves

abbrev tampered : Protected Json (Option Mark)
tampered = record (record saved { file = holds null }) { file = saved.file }

load-fresh_example : (first ≡ first) ⊎ (1 < 1)
load-fresh_example =
    load-fresh plain hash keys first first written empty tampered (λ h. refl) saves
      (Reach.tampers (Reach.tampers Reach.here (holds null)) saved.file)
      (load-save plain hash keys first written empty faithful first-IsValid saves)

-- A supervisor that was active is not so after a restore.
abbrev fresh : Supervisor
fresh = record {
  max_evidence_age = pos 9;
  state = active;
  reason = "VALIDATED";
  interrupted_at = none;
  interrupted_monotonic = none;
  last_observed_at = some (pos 1);
  last_observed_monotonic = none;
  reactivation_after = none;
  reactivation_after_monotonic = none;
  physical_state_unresolved = false;
  unresolved_transactions = [];
  admission_generation = 4;
}

restores :
    (restore_from_store (reply first) "g2" (finite (pos 7)) none fresh).0 ≡ ok recovery_required
unfolding restore_from_store require_revalidation require_revalidation_body is_trimmed
restores = refl

restore_from_store-IsRestored_example :
    IsRestored false recovery_required fresh
      (restore_from_store (reply first) "g2" (finite (pos 7)) none fresh).1
restore_from_store-IsRestored_example =
    restore_from_store-IsRestored (reply first) "g2" (finite (pos 7)) none fresh recovery_required
      restores

abbrev signer : SigningKey
signer = record { key_id = "w"; algorithm = "ECDSA_P256_SHA256"; sign = λ j. ok "s" }

abbrev trusted : Dict KeyVerifier
trusted = ("w", record { algorithm = "ECDSA_P256_SHA256"; verify = λ j s. true }) ∷ []

signs : IsKey signer trusted
unfolding is_named get
signs = record {
  named = refl;
  algorithm = refl;
  verifier = record { algorithm = "ECDSA_P256_SHA256"; verify = λ j s. true };
  found = refl;
  same = refl;
  signature = λ j. "s";
  signs = λ j. refl;
  given = λ j. refl;
  verifies = λ j. refl;
}

is_valid : is_installation_id "device-1" ≡ true
unfolding is_installation_id is_trimmed
is_valid = refl

abbrev digest : String
digest = hash null

answers-agree_example :
    answers
      (witnessed_anchor
        (verified_witness trusted (signing_witness signer memory_witness))
        "device-1")
      ((1, digest) ∷ (3, digest) ∷ (2, digest) ∷ [])
      []
    ≡ answers memory_anchor ((1, digest) ∷ (3, digest) ∷ (2, digest) ∷ []) (get "device-1" [])
unfolding get
answers-agree_example =
    answers-agree signs "device-1" is_valid ((1, digest) ∷ (3, digest) ∷ (2, digest) ∷ []) [] tt

-- The witness in a file: a proposal is saved, its repetition is answered without a save.
abbrev at_start : Durable Json
at_start = record { records = []; file = missing }

abbrev after_first : Durable Json
after_first = (compare_durable plain written "device-1" 1 digest at_start).1

repeats : (compare_durable plain not_replaced "device-1" 1 digest after_first).0 ≡ reply (1, digest)
unfolding compare_durable load_marks save_marks is_installation_id is_trimmed is_digest has_keys get
    put
repeats = refl
