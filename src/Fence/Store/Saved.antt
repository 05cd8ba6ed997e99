-- ===== src/Fence/Store/Saved.antt =====
-- What device_fabric/controller_fence_store.py has saved, when it is loaded again.
pub mod Installs
use audio_bodyguard_alpha.Prelude.{
  ℕ, ◌≡◌, refl, sym, ap, ◌∙◌, inl, inr, String, Bool, true, false, not, ◌&&◌, ◌==◌, eq_iff, eq_refl,
  Option, none, some, is_some, if◌then◌else◌, ok, arith, Bool-cases, Result-cases, some_inj,
}
use audio_bodyguard_alpha.Prelude.Dict.{Dict, get, put, get-put}
use audio_bodyguard_alpha.Prelude.Agree.{agree-of}
use audio_bodyguard_alpha.Lease.Store.{
  holds, Write, written, not_replaced, not_synced, save_file, is_written,
}
use audio_bodyguard_alpha.Fence.{Value, Anchor, is_fence, is_advanced, Honest}
use audio_bodyguard_alpha.Fence.Codec.{Entry, Records, Valid, Valid-put, encode_records}
use audio_bodyguard_alpha.Fence.Codec.RoundTrip.{
  read_envelope-encode_envelope, parse_records-encode_records,
}
use audio_bodyguard_alpha.Fence.Store.{
  Files, exists, read_records, read_primary, same_entry, expected_values, check_trusted,
  check_copies, load_state, save_both, is_behind, is_change, with_advance, after_advance,
  record_fence, accept_loaded, accept, snapshot,
}
use audio_bodyguard_alpha.Fence.Store.Load.{
  Loaded, load_state-Loaded, Loaded-load_state, read_primary-Valid, judge_trusted-of, value_of,
  get-expected_values, load_state-trusted,
}

-- The records that `accept` ends with.
abbrev entered : Records → String → String → ℕ → Records
entered records r c t = if is_change (get r records) t then put r (t, c) records else records

get-entered :
    (records : Records) (r c : String) (t : ℕ) (k : String)
    → is_behind (get r records) t c ≡ false
    → get k (entered records r c t) ≡ (if r == k then some (t, c) else get k records)
unfolding is_behind is_change
get-entered records r c t k ahead =
    grind (arith, get-put r k (t, c) records, eq_iff r k, eq_iff c, ahead)

Valid-entered :
    (records : Records) (r c : String) (t : ℕ)
    → is_fence r c t ≡ true
    → Valid records
    → Valid (entered records r c t)
unfolding is_fence
Valid-entered records r c t fence v = elim (Bool-cases (is_change (get r records) t)) [
  | inr same ↦ rw same v
  | inl change ↦ rw change (
      Valid-put r c t records (ground (arith, fence)) (ground (arith, fence))
        (ground (arith, fence)) v)
]

same_entry_refl : (e : Entry) → same_entry e e ≡ true
unfolding same_entry
same_entry_refl (t, c) = ground (arith, eq_refl c)

-- The anchor holds the fences of the records.
Trusts : {S : Type 0} → Option (Anchor S) → S → Records → Type 0
Trusts none s records = Unit {0}
Trusts (some anchor) s records =
    (values : Dict Value) × (anchor.snapshot s ≡ ok values)
    × ((k : String) → get k values ≡ value_of k (get k records))

Trusts-none : {S : Type 0} (s : S) (records : Records) → Trusts none s records
unfolding Trusts
Trusts-none s records = tt

Trusts-some :
    {S : Type 0} (anchor : Anchor S) (s : S) (records : Records) (values : Dict Value)
    → anchor.snapshot s ≡ ok values
    → ((k : String) → get k values ≡ value_of k (get k records))
    → Trusts (some anchor) s records
unfolding Trusts
Trusts-some anchor s records values e h = (values, e, h)

Trusts-check :
    {S : Type 0} (anchor : Option (Anchor S)) (s : S) (records : Records)
    → Trusts anchor s records
    → check_trusted anchor s records ≡ ok tt
unfolding Trusts check_trusted
Trusts-check none s records h = refl
Trusts-check (some anchor) s records h = rw h.1 (
    judge_trusted-of h.0 (expected_values records)
      (λ k. h.2 k ∙ sym (get-expected_values k records)))

saved-copies :
    (records : Records)
    → Valid records
    → check_copies true (holds (encode_records records)) records ≡ ok tt
unfolding check_copies exists read_records
saved-copies records v =
    rw
      (
        parse_records-encode_records records v,
        agree-of same_entry records records same_entry_refl (λ k. refl),
      )
      refl

not_both : (b : Bool) → not (b && not b) ≡ true
not_both true = refl
not_both false = refl

module _ {S : Type 0} (anchor : Option (Anchor S)) where
  -- After both saves, a snapshot gives the records.
  saved-snapshot :
      (records : Records) (w w' : Write) (f : Files S)
      → Valid records
      → Trusts anchor f.trusted records
      → (save_both (is_some anchor) records w w' f).0 ≡ ok true
      → snapshot anchor (save_both (is_some anchor) records w w' f).1 ≡ ok records
  unfolding save_both snapshot save_file is_written read_primary
  saved-snapshot records written written f v trusts h =
      let all : Loaded anchor (save_both (is_some anchor) records written written f).1 records
          true =
        record {
          monotonic = is_some anchor;
          read = read_envelope-encode_envelope (is_some anchor) records v;
          anchored = not_both (is_some anchor);
          copies = saved-copies records v;
          trusts = Trusts-check anchor f.trusted records trusts;
        } in
      rw
        (Loaded-load_state anchor (save_both (is_some anchor) records written written f).1 records
          true all)
        refl
  saved-snapshot records written not_replaced f v trusts h = cc
  saved-snapshot records written not_synced f v trusts h = cc
  saved-snapshot records not_replaced w' f v trusts h = cc
  saved-snapshot records not_synced w' f v trusts h = cc

  untouched-snapshot :
      (records : Records) (legacy : Bool) (f : Files S) (s : S)
      → Loaded anchor f records (not legacy)
      → Trusts anchor s records
      → snapshot anchor (record f { trusted = s }) ≡ ok records
  unfolding snapshot
  untouched-snapshot records legacy f s l trusts =
      let all : Loaded anchor (record f { trusted = s }) records (not legacy) = record {
        monotonic = l.monotonic;
        read = l.read;
        anchored = l.anchored;
        copies = l.copies;
        trusts = Trusts-check anchor s records trusts;
      } in
      rw (Loaded-load_state anchor (record f { trusted = s }) records (not legacy) all) refl

  record_fence-snapshot :
      (records : Records) (legacy : Bool) (r c : String) (t : ℕ) (w w' : Write) (f : Files S)
      (s : S)
      → is_fence r c t ≡ true
      → Loaded anchor f records (not legacy)
      → Trusts anchor s (entered records r c t)
      → let g =
          record_fence (is_some anchor) (records, legacy) r c t w w' (record f { trusted = s }) in
        g.0 ≡ ok true → snapshot anchor g.1 ≡ ok (entered records r c t)
  unfolding record_fence
  record_fence-snapshot records legacy r c t w w' f s fence l trusts =
      let v = read_primary-Valid f.primary records (not legacy) l.monotonic l.read in
      let v' = Valid-entered records r c t fence v in
      elim (Bool-cases (is_change (get r records) t)) [
        | inl change ↦ rw change (
            saved-snapshot (put r (t, c) records) w w' (record f { trusted = s }) (rw change at v')
              (rw change at trusts))
        | inr same ↦ elim (Bool-cases legacy) [
          | inl old ↦
              rw (same, old)
                (saved-snapshot records w w' (record f { trusted = s }) v (rw same at trusts))
          | inr new ↦
              rw (same, new) λ _. untouched-snapshot records legacy f s l (rw same at trusts)
        ]
      ]
