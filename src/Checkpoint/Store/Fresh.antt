-- ===== src/Checkpoint/Store/Fresh.antt =====
-- The rollback-protected store of control/protection_supervisor_checkpoint.py over the anchor in memory,
-- when the file may be changed by anyone.
use audio_bodyguard_alpha.Prelude.{
  ◌<◌, ◌≡◌, refl, ap, ◌∙◌, sym, inl, inr, ◌⊎◌, String, eq_iff, Option, none, some, arith, ok,
  Result-cases, some_inj,
}
use audio_bodyguard_alpha.Lease.Store.{Write}
use audio_bodyguard_alpha.Supervisor.{
  State, active, degraded, paused, recovery_required, unknown_physical_state,
}
use audio_bodyguard_alpha.Checkpoint.{
  Encoding, Checkpoint, Instant, whole, real, to_number, payload_of, state_value, state_of, encode,
}
use audio_bodyguard_alpha.Checkpoint.Anchor.{
  Reply, reply, failed, Mark, same_mark, memory_anchor, advance_memory,
}
use audio_bodyguard_alpha.Checkpoint.Anchor.Durable.{ByteFile}
use audio_bodyguard_alpha.Checkpoint.Anchor.Proposals.{
  IsPast, advance_memory-IsPast, advance_memory-reply,
}
use audio_bodyguard_alpha.Checkpoint.Store.{
  Authenticated, Protected, commitment, load_authenticated, judge_anchor, save_advanced, save, load,
}

-- A payload has one checkpoint.
to_number_inj : (s t : Instant) → to_number s ≡ to_number t → s ≡ t
to_number_inj (whole n) (whole m) h = ground arith
to_number_inj (whole n) (real t) h = cc
to_number_inj (real t) (whole n) h = cc
to_number_inj (real t) (real u) h = ground arith

pub state_of-state_value : (s : State) → state_of (some (state_value s)) ≡ some s
unfolding state_of state_value
state_of-state_value active = refl
state_of-state_value degraded = refl
state_of-state_value paused = refl
state_of-state_value recovery_required = refl
state_of-state_value unknown_physical_state = refl

state_inj : (s t : State) → state_value s ≡ state_value t → s ≡ t
state_inj s t h =
    some_inj (sym (state_of-state_value s) ∙ ap (λ v. state_of (some v)) h ∙ state_of-state_value t)

payload_of_inj : (b c : Checkpoint) → payload_of b ≡ payload_of c → b ≡ c
payload_of_inj b c h =
    ground (arith, to_number_inj b.observed_at c.observed_at, state_inj b.state c.state)

module _ {B : Type 0} (x : Encoding B) (hash : B → String) (a : Authenticated B) where
  abbrev pub Store : Type 0
  Store = Protected B (Option Mark)

  save_advanced-anchored :
      (r : Reply (Unit {0})) (c : Checkpoint) (w : Write) (s : Store)
      → (save_advanced x hash a memory_anchor r c w s).1.anchored ≡ s.anchored
  unfolding save_advanced
  save_advanced-anchored (failed f) c w s = refl
  save_advanced-anchored (reply u) c w s = refl

  save_advanced-reply :
      (r : Reply (Unit {0})) (c : Checkpoint) (w : Write) (s : Store)
      → (save_advanced x hash a memory_anchor r c w s).0 ≡ reply tt
      → r ≡ reply tt
  unfolding save_advanced
  save_advanced-reply (failed f) c w s h = cc
  save_advanced-reply (reply u) c w s h = refl

  save-IsPast :
      (m : Mark) (c : Checkpoint) (w : Write) (s : Store)
      → IsPast m s.anchored
      → IsPast m (save x hash a memory_anchor c w s).1.anchored
  unfolding save
  save-IsPast m c w s h = elim (Result-cases (commitment x hash c)) [
    | inr (e, bad) ↦ rw (bad, save) h
    | inl (p, fine) ↦
        let (r, o) = advance_memory p.0 p.1 s.anchored in
        rw
          (
            fine,
            save,
            save_advanced-anchored (advance_memory p.0 p.1 s.anchored).0 c w
                (record s { anchored = (advance_memory p.0 p.1 s.anchored).1 }),
          )
          (advance_memory-IsPast m p.0 p.1 s.anchored h)
  ]

  pub save-reply :
      (c : Checkpoint) (w : Write) (s : Store)
      → (save x hash a memory_anchor c w s).0 ≡ reply tt
      → (m : Mark) × (commitment x hash c ≡ ok m)
        × ((save x hash a memory_anchor c w s).1.anchored ≡ some m)
  unfolding save
  save-reply c w s h = elim (Result-cases (commitment x hash c)) [
    | inr (e, bad) ↦ cc (rw (bad, save) at h)
    | inl (p, fine) ↦
        let after : Store = record s { anchored = (advance_memory p.0 p.1 s.anchored).1 } in
        let answered =
          save_advanced-reply (advance_memory p.0 p.1 s.anchored).0 c w after
            (rw (fine, save) at h) in
        (
          p,
          fine,
          rw (fine, save, save_advanced-anchored (advance_memory p.0 p.1 s.anchored).0 c w after)
              (advance_memory-reply p.0 p.1 s.anchored answered),
        )
  ]

  judge_anchor-reply :
      (o : Option Mark) (m : Mark) (b c : Checkpoint)
      → judge_anchor (reply o) m b ≡ reply c
      → (b ≡ c) × (o ≡ some m)
  unfolding judge_anchor same_mark
  judge_anchor-reply none m b c h = cc
  judge_anchor-reply (some (n, d)) (k, e) b c h = ground (arith, eq_iff d e)

  load-reply :
      (c : Checkpoint) (s : Store)
      → (load x hash a memory_anchor s).0 ≡ reply c
      → (m : Mark) × (commitment x hash c ≡ ok m) × (s.anchored ≡ some m)
  unfolding load
  load-reply c s h = elim (Result-cases (load_authenticated x a s.file)) [
    | inr (e, bad) ↦ cc (rw (bad, load) at h)
    | inl (b, read) ↦ elim (Result-cases (commitment x hash b)) [
      | inr (e, bad) ↦ cc (rw (read, bad, load) at h)
      | inl (m, fine) ↦
          let judged = judge_anchor-reply s.anchored m b c (rw (read, fine, load) at h) in
          (m, ap (commitment x hash) (sym judged.0) ∙ fine, judged.1)
    ]
  ]

  -- What happens to the store: a save, which may fail at any point, or any change of the file.
  pub data Reach (s : Store) : Store → Type 0 where
    here : Reach s s
    saves :
        {t : Store}
        → Reach s t
        → (c : Checkpoint) (w : Write) → Reach s (save x hash a memory_anchor c w t).1
    tampers : {t : Store} → Reach s t → (f : ByteFile B) → Reach s (record t { file = f })

  Reach-IsPast : (m : Mark) {s t : Store} → Reach s t → IsPast m s.anchored → IsPast m t.anchored
  Reach-IsPast m here h = h
  Reach-IsPast m (saves {t} r c w) h = save-IsPast m c w t (Reach-IsPast m r h)
  Reach-IsPast m (tampers r f) h = Reach-IsPast m r h

  commitment-sequence :
      (c : Checkpoint) (m : Mark)
      → commitment x hash c ≡ ok m
      → m ≡ (c.checkpoint_sequence, hash (x.dumps (payload_of c)))
  unfolding commitment encode
  commitment-sequence c m h = ground arith

  same_commitment :
      (b c : Checkpoint) (m : Mark)
      → (hash (x.dumps (payload_of b)) ≡ hash (x.dumps (payload_of c))
          → payload_of b ≡ payload_of c)
      → commitment x hash b ≡ ok m
      → commitment x hash c ≡ ok m
      → b ≡ c
  same_commitment b c m free h k =
      payload_of_inj b c
        (free (ground (arith, commitment-sequence b m h, commitment-sequence c m k)))

  -- Once a save has succeeded, and whatever was saved since, with whatever success, and whatever was
  -- put in the place of the file, a load that gives a checkpoint gives that very one or one of a later
  -- sequence. The two payloads are not a collision of the hash.
  pub load-fresh :
      (c b : Checkpoint) (w : Write) (s t : Store)
      → (hash (x.dumps (payload_of b)) ≡ hash (x.dumps (payload_of c))
          → payload_of b ≡ payload_of c)
      → (save x hash a memory_anchor c w s).0 ≡ reply tt
      → Reach (save x hash a memory_anchor c w s).1 t
      → (load x hash a memory_anchor t).0 ≡ reply b
      → (b ≡ c) ⊎ (c.checkpoint_sequence < b.checkpoint_sequence)
  load-fresh c b w s t free saved r loaded =
      let (m, mine, kept) = save-reply c w s saved in
      let (n, his, now) = load-reply b t loaded in
      elim (Reach-IsPast m r (inl kept)) [
        | inl same ↦
            let e : n ≡ m = some_inj (sym now ∙ same) in
            inl (same_commitment b c m free (rw (← e) his) mine)
        | inr (k, later, less) ↦
            let e : n ≡ k = some_inj (sym now ∙ later) in
            inr (ground (arith, commitment-sequence b n his, commitment-sequence c m mine))
      ]
