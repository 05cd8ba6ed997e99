-- ===== src/Checkpoint/Store/RoundTrip.antt =====
-- What the stores of control/protection_supervisor_checkpoint.py have saved, they load again.
use audio_bodyguard_alpha.Prelude.{
  ◌≡◌, refl, sym, inl, inr, String, true, eq_refl, Option, some, leb, eqb_iff, arith, ok,
  Result-cases, subst,
}
use audio_bodyguard_alpha.Prelude.Text.{is_trimmed}
use audio_bodyguard_alpha.Prelude.Dict.{get}
use audio_bodyguard_alpha.Json.{has_keys}
use audio_bodyguard_alpha.Lease.Store.{Write, written, not_replaced, not_synced}
use audio_bodyguard_alpha.Checkpoint.{
  Encoding, Checkpoint, Instant, whole, real, to_number, as_instant, is_convertible, payload_of,
  is_sequence, max_encoded_bytes, make_checkpoint, decode_payload, encode, decode,
}
use audio_bodyguard_alpha.Checkpoint.Anchor.{
  Reply, reply, failed, Mark, same_mark, memory_anchor, advance_memory,
}
use audio_bodyguard_alpha.Checkpoint.Anchor.Durable.{ByteFile, holds, write_bytes}
use audio_bodyguard_alpha.Checkpoint.Store.{
  ByteKey, ByteVerifier, Authenticated, Protected, commitment, envelope_of, max_envelope_bytes,
  seal, unseal, save_authenticated, load_authenticated, judge_anchor, save_advanced, save, load,
}
use audio_bodyguard_alpha.Checkpoint.Store.Fresh.{state_of-state_value, save-reply}

-- `__post_init__` has accepted the checkpoint.
pub record IsValid (c : Checkpoint) : Type 0 where
  pub reason : is_trimmed c.reason ≡ true
  pub convertible : is_convertible c.observed_at ≡ true
  pub generation : is_trimmed c.runtime_generation ≡ true
  pub sequence : is_sequence c.checkpoint_sequence ≡ true

-- json and base64 read back what they have written of the checkpoint, and a verifier of the store's own
-- key accepts what the key has signed.
pub record IsFaithful {B : Type 0} (x : Encoding B) (a : Authenticated B) (c : Checkpoint)
    : Type 0 where
  pub payload : x.loads (x.dumps (payload_of c)) ≡ some (payload_of c)
  pub envelope : (k p s : String) → x.loads (x.dumps (envelope_of k p s)) ≡ some (envelope_of k p s)
  pub base64 : x.of_base64 (x.to_base64 (x.dumps (payload_of c))) ≡ some (x.dumps (payload_of c))
  pub verifier : ByteVerifier B
  pub found : get a.signing_key.key_id a.verifiers ≡ some verifier
  pub named : verifier.key_id ≡ a.signing_key.key_id
  pub verifies : (b : B) (s : String) → a.signing_key.sign b ≡ ok s → verifier.verify b s ≡ true

as_instant-to_number : (t : Instant) → as_instant (to_number t) ≡ some t
unfolding as_instant
as_instant-to_number (whole n) = refl
as_instant-to_number (real t) = refl

decode_payload-payload_of : (c : Checkpoint) → IsValid c → decode_payload (payload_of c) ≡ ok c
unfolding decode_payload has_keys make_checkpoint
decode_payload-payload_of c v =
    rw
      (
        state_of-state_value c.state,
        v.reason,
        as_instant-to_number c.observed_at,
        v.convertible,
        v.generation,
        v.sequence,
      )
      refl

module _ {B : Type 0} (x : Encoding B) where
  encode-ok :
      (c : Checkpoint) (b : B)
      → encode x c ≡ ok b
      → (b ≡ x.dumps (payload_of c)) × (leb (x.size b) max_encoded_bytes ≡ true)
  unfolding encode
  encode-ok c b h = ground arith

  decode-encode :
      (c : Checkpoint) (b : B)
      → IsValid c
      → x.loads (x.dumps (payload_of c)) ≡ some (payload_of c)
      → encode x c ≡ ok b
      → decode x b ≡ ok c
  unfolding decode
  decode-encode c b v back h =
      let (same, small) = encode-ok c b h in
      rw (small, same, back, decode_payload-payload_of c v) refl

  seal-ok :
      (key : ByteKey B) (c : Checkpoint) (b : B)
      → seal x key c ≡ ok b
      → (p : B) × (s : String) × (encode x c ≡ ok p)
        × (key.sign p ≡ ok s)
        × (b ≡ x.dumps (envelope_of key.key_id (x.to_base64 p) s))
        × (leb (x.size b) max_envelope_bytes ≡ true)
  unfolding seal
  seal-ok key c b h = elim (Result-cases (encode x c)) [
    | inr (e, bad) ↦ cc (rw bad at h)
    | inl (p, encoded) ↦ elim (Result-cases (key.sign p)) [
      | inr (e, bad) ↦ cc (rw (encoded, bad) at h)
      | inl (s, signed) ↦
          let rest = rw (encoded, signed) at h in
          (p, s, encoded, signed, ground arith, ground arith)
    ]
  ]

  unseal-seal :
      (a : Authenticated B) (c : Checkpoint) (b : B)
      → IsFaithful x a c
      → IsValid c
      → seal x a.signing_key c ≡ ok b
      → unseal x a.verifiers b ≡ ok c
  unfolding unseal has_keys
  unseal-seal a c b f v h =
      let (p, s, encoded, signed, same, small) = seal-ok a.signing_key c b h in
      let payload = (encode-ok c p encoded).0 in
      let back : x.of_base64 (x.to_base64 p) ≡ some p =
        subst (λ q. x.of_base64 (x.to_base64 q) ≡ some q) (sym payload) f.base64 in
      rw
        (
          small,
          same,
          f.envelope a.signing_key.key_id (x.to_base64 p) s,
          f.found,
          back,
          f.named,
          eq_refl,
          f.verifies p s signed,
          decode-encode c p v f.payload encoded,
        )
        refl

  write_bytes-ok :
      (b : B) (w : Write) (f : ByteFile B)
      → (write_bytes b w f tt).0 ≡ ok tt
      → (write_bytes b w f tt).1 ≡ holds b
  unfolding write_bytes
  write_bytes-ok b written f h = refl
  write_bytes-ok b not_replaced f h = cc
  write_bytes-ok b not_synced f h = refl

  save_authenticated-ok :
      (a : Authenticated B) (c : Checkpoint) (w : Write) (f : ByteFile B)
      → (save_authenticated x a c w f).0 ≡ ok tt
      → (b : B) × (seal x a.signing_key c ≡ ok b) × ((save_authenticated x a c w f).1 ≡ holds b)
  unfolding save_authenticated
  save_authenticated-ok a c w f h = elim (Result-cases (seal x a.signing_key c)) [
    | inr (e, bad) ↦ cc (rw (bad, save_authenticated) at h)
    | inl (b, fine) ↦ (
      b,
      fine,
      rw (fine, save_authenticated) (write_bytes-ok b w f (rw (fine, save_authenticated) at h)),
    )
  ]

  module _ (hash : B → String) (a : Authenticated B) where
    save_advanced-holds :
        (r : Reply (Unit {0})) (c : Checkpoint) (w : Write) (s : Protected B (Option Mark))
        → (save_advanced x hash a memory_anchor r c w s).0 ≡ reply tt
        → (b : B) × (seal x a.signing_key c ≡ ok b)
          × ((save_advanced x hash a memory_anchor r c w s).1.file ≡ holds b)
    unfolding save_advanced
    save_advanced-holds (failed e) c w s h = cc
    save_advanced-holds (reply u) c w s h =
        elim (Result-cases (save_authenticated x a c w s.file).0) [
          | inr (e, bad) ↦ cc (rw (bad, save_advanced) at h)
          | inl (u, fine) ↦ save_authenticated-ok a c w s.file fine
        ]

    save-holds :
        (c : Checkpoint) (w : Write) (s : Protected B (Option Mark))
        → (save x hash a memory_anchor c w s).0 ≡ reply tt
        → (b : B) × (seal x a.signing_key c ≡ ok b)
          × ((save x hash a memory_anchor c w s).1.file ≡ holds b)
    unfolding save
    save-holds c w s h = elim (Result-cases (commitment x hash c)) [
      | inr (e, bad) ↦ cc (rw (bad, save) at h)
      | inl (p, fine) ↦
          let after : Protected B (Option Mark) = record s {
            anchored = (advance_memory p.0 p.1 s.anchored).1;
          } in
          let (b, sealed, file) =
            save_advanced-holds (advance_memory p.0 p.1 s.anchored).0 c w after
              (rw (fine, save) at h) in
          (b, sealed, rw (fine, save) file)
    ]

    load-ok :
        (c : Checkpoint) (m : Mark) (b : B) (t : Protected B (Option Mark))
        → unseal x a.verifiers b ≡ ok c
        → commitment x hash c ≡ ok m
        → t.file ≡ holds b
        → t.anchored ≡ some m
        → (load x hash a memory_anchor t).0 ≡ reply c
    unfolding load load_authenticated judge_anchor same_mark
    load-ok c (n, d) b t read mark file anchored =
        rw (file, read, mark, anchored, (eqb_iff n n).1 refl, eq_refl, load) refl

    -- After a save that succeeded, a load gives back the checkpoint.
    pub load-save :
        (c : Checkpoint) (w : Write) (s : Protected B (Option Mark))
        → IsFaithful x a c
        → IsValid c
        → (save x hash a memory_anchor c w s).0 ≡ reply tt
        → (load x hash a memory_anchor (save x hash a memory_anchor c w s).1).0 ≡ reply c
    load-save c w s f v h =
        let (m, mark, anchored) = save-reply x hash a c w s h in
        let (b, sealed, file) = save-holds c w s h in
        load-ok c m b (save x hash a memory_anchor c w s).1 (unseal-seal a c b f v sealed) mark file
          anchored
