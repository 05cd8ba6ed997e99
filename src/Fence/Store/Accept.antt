-- ===== src/Fence/Store/Accept.antt =====
-- Histories of device_fabric/controller_fence_store.py: calls, saves that fail, and changes of the
-- trusted anchor by others.
use audio_bodyguard_alpha.Prelude.{
  ℕ, ◌<◌, ◌≡◌, refl, sym, ap, ◌∙◌, ◌⊎◌, inl, inr, String, Bool, true, not, ◌==◌, eq_iff, Option,
  none, some, is_some, Result, ok, err, arith, Bool-cases, Result-cases, ok_inj, subst,
}
use audio_bodyguard_alpha.Prelude.Dict.{get, put, get-put}
use audio_bodyguard_alpha.Lease.Store.{
  File, Write, written, not_replaced, not_synced, save_file, is_written,
}
use audio_bodyguard_alpha.Fence.{Anchor, AnchorDecision, is_fence, is_advanced}
use audio_bodyguard_alpha.Fence.Codec.{Entry, Records, Valid, Valid-put, encode_envelope}
use audio_bodyguard_alpha.Fence.Codec.RoundTrip.{read_envelope-encode_envelope}
use audio_bodyguard_alpha.Fence.Store.{
  Files, read_primary, load_state, save_both, is_behind, is_change, with_advance, after_advance,
  record_fence, accept_loaded, accept, snapshot,
}
use audio_bodyguard_alpha.Fence.Store.Load.{load_state-Loaded, read_primary-Valid}

-- A higher token, or the same token in the same hands.
abbrev pub NotBehind : Entry → Entry → Type 0
NotBehind (t, c) (u, d) = (t < u) ⊎ ((t ≡ u) × (c ≡ d))

pub Below : Records → Records → Type 0
Below a b =
    (r : String) (e : Entry)
    → get r a ≡ some e
    → (e' : Entry) × (get r b ≡ some e') × NotBehind e e'

Below-refl : (a : Records) → Below a a
unfolding Below
Below-refl a r e h = (e, h, inr (refl, refl))

Below-trans : (a b c : Records) → Below a b → Below b c → Below a c
unfolding Below
Below-trans a b c h k r e found =
    let first = h r e found in
    let second = k r first.0 first.1 in (second.0, second.1, grind (arith, first.2, second.2))

Below-put :
    (a : Records) (r c : String) (t : ℕ) → is_change (get r a) t ≡ true → Below a (put r (t, c) a)
unfolding Below is_change
Below-put a r c t change k e found = elim (Bool-cases (r == k)) [
  | inr other ↦ (e, rw (get-put r k (t, c) a, other) found, inr (refl, refl))
  | inl same ↦
      ((t, c), rw (get-put r k (t, c) a, same) refl, inl (grind (arith, eq_iff r k, change, found)))
]

-- The records of a file are those, or later ones.
pub record Grows (records : Records) (file : File) : Type 0 where
  pub now : Records
  pub required : Bool
  pub monotonic : Bool
  pub read : read_primary file ≡ ok (now, required, monotonic)
  pub below : Below records now

save_file-Grows :
    (monotonic : Bool) (records records' : Records) (w : Write) (file : File)
    → Valid records'
    → Below records records'
    → Grows records file
    → Grows records (save_file (encode_envelope monotonic records') w file)
unfolding save_file read_primary
save_file-Grows monotonic records records' not_replaced file v b g = g
save_file-Grows monotonic records records' written file v b g = record {
  now = records';
  required = true;
  monotonic = monotonic;
  read = read_envelope-encode_envelope monotonic records' v;
  below = b;
}
save_file-Grows monotonic records records' not_synced file v b g = record {
  now = records';
  required = true;
  monotonic = monotonic;
  read = read_envelope-encode_envelope monotonic records' v;
  below = b;
}

module _ {S : Type 0} where
  save_both-Grows :
      (monotonic : Bool) (records records' : Records) (w w' : Write) (f : Files S)
      → Valid records'
      → Below records records'
      → Grows records f.primary
      → Grows records (save_both monotonic records' w w' f).1.primary
  unfolding save_both
  save_both-Grows monotonic records records' w w' f v b g = elim (Bool-cases (is_written w)) [
    | inr failed ↦ rw failed g
    | inl done ↦ rw done (save_file-Grows monotonic records records' w' f.primary v b g)
  ]

  record_fence-Grows :
      (monotonic : Bool) (records : Records) (legacy : Bool) (r c : String) (t : ℕ) (w w' : Write)
      (f : Files S)
      → is_fence r c t ≡ true
      → Valid records
      → Grows records f.primary
      → Grows records (record_fence monotonic (records, legacy) r c t w w' f).1.primary
  unfolding record_fence is_fence
  record_fence-Grows monotonic records legacy r c t w w' f fence v g =
      elim (Bool-cases (is_change (get r records) t)) [
        | inl change ↦ rw change (
            save_both-Grows monotonic records (put r (t, c) records) w w' f
              (Valid-put r c t records (ground (arith, fence)) (ground (arith, fence))
                (ground (arith, fence)) v)
              (Below-put records r c t change) g)
        | inr same ↦ elim (Bool-cases legacy) [
          | inl old ↦
              rw (same, old)
                (save_both-Grows monotonic records records w w' f v (Below-refl records) g)
          | inr new ↦ rw (same, new) g
        ]
      ]

  after_advance-Grows :
      (answer : Result AnchorDecision) (records : Records) (rest : Files S → Result Bool × Files S)
      (f : Files S)
      → ((g : Files S) → Grows records g.primary → Grows records (rest g).1.primary)
      → Grows records f.primary
      → Grows records (after_advance answer rest f).1.primary
  unfolding after_advance
  after_advance-Grows (err e) records rest f step g = g
  after_advance-Grows (ok d) records rest f step g = elim (Bool-cases (is_advanced d)) [
    | inr refused ↦ rw refused g
    | inl granted ↦ rw granted (step f g)
  ]

  with_advance-Grows :
      (anchor : Option (Anchor S)) (r c : String) (t : ℕ) (records : Records)
      (rest : Files S → Result Bool × Files S) (f : Files S)
      → ((g : Files S) → Grows records g.primary → Grows records (rest g).1.primary)
      → Grows records f.primary
      → Grows records (with_advance anchor r c t rest f).1.primary
  unfolding with_advance
  with_advance-Grows none r c t records rest f step g = step f g
  with_advance-Grows (some anchor) r c t records rest f step g =
      after_advance-Grows (anchor.advance r c t f.trusted).0 records rest
        (record f { trusted = (anchor.advance r c t f.trusted).1 }) step g

  accept-Grows :
      (anchor : Option (Anchor S)) (r c : String) (t : ℕ) (w w' : Write) (f : Files S)
      (records : Records)
      → Grows records f.primary
      → Grows records (accept anchor r c t w w' f).1.primary
  unfolding accept accept_loaded
  accept-Grows anchor r c t w w' f records g = elim (Bool-cases (is_fence r c t)) [
    | inr malformed ↦ rw malformed g
    | inl fence ↦ elim (Result-cases (load_state anchor f)) [
      | inr (e, bad) ↦ rw (fence, bad) g
      | inl ((rs, legacy), fine) ↦ elim (Bool-cases (is_behind (get r rs) t c)) [
        | inl behind ↦ rw (fence, fine, behind) g
        | inr ahead ↦
            let l = load_state-Loaded anchor f rs legacy fine in
            let same : rs ≡ g.now = ap (λ p. p.0) (ok_inj (sym l.read ∙ g.read)) in
            let start : Grows rs f.primary = record {
              now = rs;
              required = not legacy;
              monotonic = l.monotonic;
              read = l.read;
              below = Below-refl rs;
            } in
            let later : Grows rs
                (with_advance anchor r c t (record_fence (is_some anchor) (rs, legacy) r c t w w')
                  f).1.primary =
              with_advance-Grows anchor r c t rs
                (record_fence (is_some anchor) (rs, legacy) r c t w w') f
                (λ h k.
                  record_fence-Grows (is_some anchor) rs legacy r c t w w' h fence
                    (read_primary-Valid f.primary rs (not legacy) l.monotonic l.read) k)
                start in
            let end : Grows records
                (with_advance anchor r c t (record_fence (is_some anchor) (rs, legacy) r c t w w')
                  f).1.primary =
              record {
                now = later.now;
                required = later.required;
                monotonic = later.monotonic;
                read = later.read;
                below =
                    Below-trans records rs later.now
                      (subst (λ x. Below records x) (sym same) g.below) later.below;
              } in
            rw (fence, fine, ahead) end
      ]
    ]
  ]

  -- Calls of the store, and changes of the anchor by others.
  pub data Reach (anchor : Option (Anchor S)) (f : Files S) : Files S → Type 0 where
    here : Reach anchor f f
    accepts :
        {g h : Files S} (r c : String) (t : ℕ) (w w' : Write)
        → Reach anchor f g
        → h ≡ (accept anchor r c t w w' g).1
        → Reach anchor f h
    elsewhere :
        {g h : Files S} (s : S) → Reach anchor f g → h ≡ record g { trusted = s } → Reach anchor f h

  Reach-Grows :
      (anchor : Option (Anchor S)) (records : Records) (f g : Files S)
      → Reach anchor f g
      → Grows records f.primary
      → Grows records g.primary
  Reach-Grows anchor records f g here start = start
  Reach-Grows anchor records f g (accepts {g = m} r c t w w' before e) start =
      rw e (accept-Grows anchor r c t w w' m records (Reach-Grows anchor records f m before start))
  Reach-Grows anchor records f g (elsewhere {g = m} s before e) start =
      rw e (Reach-Grows anchor records f m before start)

  snapshot-read :
      (anchor : Option (Anchor S)) (f : Files S) (records : Records)
      → snapshot anchor f ≡ ok records
      → (flags : Bool × Bool) × (read_primary f.primary ≡ ok (records, flags.0, flags.1))
  unfolding snapshot
  snapshot-read anchor f records h = elim (Result-cases (load_state anchor f)) [
    | inr (e, bad) ↦ cc (rw bad at h)
    | inl ((rs, legacy), fine) ↦
        let l = load_state-Loaded anchor f rs legacy fine in
        let same : rs ≡ records = ok_inj (rw fine at h) in
        (
          (not legacy, l.monotonic),
          subst (λ x. read_primary f.primary ≡ ok (x, not legacy, l.monotonic)) same l.read,
        )
  ]

  -- From one successful snapshot to a later one, whatever was called and failed in between, no resource loses
  -- its fence, and its token rises or stays with the same controller.
  pub snapshot-Below :
      (anchor : Option (Anchor S)) (f g : Files S) (records records' : Records)
      → Reach anchor f g
      → snapshot anchor f ≡ ok records
      → snapshot anchor g ≡ ok records'
      → Below records records'
  snapshot-Below anchor f g records records' reach first second =
      let before = snapshot-read anchor f records first in
      let after = snapshot-read anchor g records' second in
      let later = Reach-Grows anchor records f g reach (record {
        now = records;
        required = before.0.0;
        monotonic = before.0.1;
        read = before.1;
        below = Below-refl records;
      }) in
      subst (λ x. Below records x) (ap (λ p. p.0) (ok_inj (sym later.read ∙ after.1))) later.below
