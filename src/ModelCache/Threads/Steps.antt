-- ===== src/ModelCache/Threads/Steps.antt =====
-- Each step of a thread on the cache of edge/model_cache.py keeps it sound: what is under a key fits
-- the blocks and the unload that know it.
use audio_bodyguard_alpha.Prelude.{
  ℕ, ◌+◌, ◌<◌, ◌≡◌, refl, ◌∙◌, sym, inl, inr, true, false, Option, none, some, eqb_iff, arith,
  Bool-cases, Option-cases, Result, ok, subst,
}
use audio_bodyguard_alpha.ModelCache.{
  Key, same_key, Entry, find, add_entry, is_idle, use_at, drop_user, start_unload, begin_evict,
  finish_evict,
}
use audio_bodyguard_alpha.ModelCache.Methods.{enter, drop}
use audio_bodyguard_alpha.ModelCache.Entries.{
  Entries, append-Distinct, update-Distinct, remove-Distinct, find-remove_self, total_snoc,
  at_ident, find-update, find-remove, find-append, enter-ok, begin_evict-some, total-update,
  total-remove, same_key_iff, same_key_refl,
}
use audio_bodyguard_alpha.ModelCache.Threads.{World, plus_one, minus_one, at, Doomed, Fits, IsSound}

module _ {M : Type 0} where
  Fits-use :
      (e : Entry M) (t : ℕ) (h : ℕ → ℕ) (p : Option (Entry M))
      → e.unloading ≡ false
      → Fits (some e) h p
      → Fits (some (use_at t e)) (plus_one e.ident h) p
  Fits-use e t h none free f = (ground arith, λ u. cc, λ i more. ground (arith, f.2 i), tt)
  Fits-use e t h (some d) free f = cc

  Doomed-drop : (e : Entry M) (p : Option (Entry M)) → Doomed e p → Doomed (drop_user e) p
  Doomed-drop e none d = tt
  Doomed-drop e (some c) d = d

  Fits-drop :
      (e : Entry M) (i : ℕ) (h : ℕ → ℕ) (p : Option (Entry M))
      → 0 < h i
      → Fits (some e) h p
      → Fits (at_ident i drop_user (some e)) (minus_one i h) p
  Fits-drop e i h p more f =
      let same = f.2 i more in
      rw ((eqb_iff e.ident i).1 same) (
        ground arith,
        λ u. ground (arith, f.1 u),
        λ n more. f.2 n (ground arith),
        Doomed-drop e p f.3,
      )

  Fits-start :
      (e : Entry M) (h : ℕ → ℕ) (p : Option (Entry M))
      → is_idle e ≡ true
      → Fits (some e) h p
      → Fits (some (start_unload e)) h (some e)
  Fits-start e h p idle f = (f.0, λ _. ground arith, f.2, (refl, refl))

  Fits-finish :
      (o : Option (Entry M)) (e : Entry M) (h : ℕ → ℕ)
      → Fits o h (some e)
      → Fits {M = M} none h none
  Fits-finish none e h f = cc
  Fits-finish (some d) e h f = (λ i. ground (arith, f.2 i, f.1), refl)

  Fits-fail : (o p : Option (Entry M)) (h : ℕ → ℕ) → Fits o h p → Fits o h none
  Fits-fail none p h f = (f.0, refl)
  Fits-fail (some d) p h f = (f.0, f.1, f.2, tt)

  -- What changes under one key only keeps what fits under the others.
  Fits-by_key :
      (k : Key) (w : World M) (es : Entries M) (h : Key → ℕ → ℕ) (p : Key → Option (Entry M))
      → ((j : Key) → same_key k j ≡ false → find j es ≡ find j w.cache.entries)
      → ((j : Key) → same_key k j ≡ false → h j ≡ w.held j)
      → ((j : Key) → same_key k j ≡ false → p j ≡ w.pending j)
      → IsSound w
      → Fits (find k es) (h k) (p k)
      → (j : Key) → Fits (find j es) (h j) (p j)
  Fits-by_key k w es h p finds helds pendings s same j = elim (Bool-cases (same_key k j)) [
    | inl t ↦ subst (λ i. Fits (find i es) (h i) (p i)) ((same_key_iff k j).0 t) same
    | inr t ↦ rw (finds j t, helds j t, pendings j t) (s.fits j)
  ]

  pub registers-IsSound :
      (w : World M) (k : Key) (model : M) (memory : ℕ) (unload : M → Result (Unit {0}))
      → (add_entry k model memory unload w.cache).0 ≡ ok tt
      → IsSound w
      → IsSound (record w { cache = (add_entry k model memory unload w.cache).1 })
  unfolding add_entry
  registers-IsSound w k model memory unload h s = elim (Option-cases (find k w.cache.entries)) [
    | inr (e, taken) ↦ cc
    | inl free ↦
        let f = rw free at (s.fits k) in
        rw free (record {
          fits =
              Fits-by_key k w _ _ _ (λ j t. rw (find-append j k _ w.cache.entries free, t))
                (λ j t. refl) (λ j t. refl) s
                (rw (find-append k k _ w.cache.entries free, same_key_refl k)
                  (sym (f.0 _), λ u. refl, λ i more. absurd (omega (arith, f.0 i)), rw f.1 tt));
          distinct = append-Distinct k _ w.cache.entries free s.distinct;
          resident = omega (arith, total_snoc k _ w.cache.entries, s.resident);
        })
  ]

  pub enters-IsSound :
      (w : World M) (k : Key) (e : Entry M)
      → (enter k w.cache).0 ≡ ok e
      → IsSound w
      → IsSound (record w { cache = (enter k w.cache).1; held = at k (plus_one e.ident) w.held })
  enters-IsSound w k e h s =
      let entered = enter-ok k w.cache e h in
      let f = rw entered.0 at (s.fits k) in
      rw entered.2 (record {
        fits =
            Fits-by_key k w _ _ _
              (λ j t. rw (find-update j k e.ident (use_at (w.cache.clock + 1)) w.cache.entries, t))
              (λ j t. rw t) (λ j t. refl) s
              (rw
                (
                  find-update k k e.ident (use_at (w.cache.clock + 1)) w.cache.entries,
                  same_key_refl k,
                  entered.0,
                  (eqb_iff e.ident e.ident).1 refl,
                )
                (Fits-use e (w.cache.clock + 1) (w.held k) (w.pending k) entered.1 f));
        distinct = update-Distinct k e.ident _ w.cache.entries s.distinct;
        resident =
            s.resident
            ∙ sym (total-update k e.ident (use_at (w.cache.clock + 1)) w.cache.entries (λ d. refl));
      })

  pub leaves-IsSound :
      (w : World M) (k : Key) (i : ℕ)
      → 0 < w.held k i
      → IsSound w
      → IsSound (record w { cache = drop k i w.cache; held = at k (minus_one i) w.held })
  unfolding drop
  leaves-IsSound w k i more s = elim (Option-cases (find k w.cache.entries)) [
    | inl free ↦ let f = rw free at (s.fits k) in absurd (omega (arith, f.0 i))
    | inr (e, there) ↦
        let f = rw there at (s.fits k) in
        record {
          fits =
              Fits-by_key k w _ _ _ (λ j t. rw (find-update j k i drop_user w.cache.entries, t))
                (λ j t. rw t) (λ j t. refl) s
                (rw (find-update k k i drop_user w.cache.entries, same_key_refl k, there)
                  (Fits-drop e i (w.held k) (w.pending k) more f));
          distinct = update-Distinct k i _ w.cache.entries s.distinct;
          resident = s.resident ∙ sym (total-update k i drop_user w.cache.entries (λ d. refl));
        }
  ]

  pub begins-IsSound :
      (w : World M) (k : Key) (e : Entry M)
      → (begin_evict k w.cache).0 ≡ some e
      → IsSound w
      → IsSound
          (record w { cache = (begin_evict k w.cache).1; pending = at k (λ _. some e) w.pending })
  begins-IsSound w k e h s =
      let begun = begin_evict-some k w.cache e h in
      let f = rw begun.0 at (s.fits k) in
      rw begun.2 (record {
        fits =
            Fits-by_key k w _ _ _
              (λ j t. rw (find-update j k e.ident start_unload w.cache.entries, t)) (λ j t. refl)
              (λ j t. rw t) s
              (rw
                (
                  find-update k k e.ident start_unload w.cache.entries,
                  same_key_refl k,
                  begun.0,
                  (eqb_iff e.ident e.ident).1 refl,
                )
                (Fits-start e (w.held k) (w.pending k) begun.1 f));
        distinct = update-Distinct k e.ident _ w.cache.entries s.distinct;
        resident =
            s.resident ∙ sym (total-update k e.ident start_unload w.cache.entries (λ d. refl));
      })

  pub finishes-IsSound :
      (w : World M) (k : Key) (e : Entry M)
      → w.pending k ≡ some e
      → IsSound w
      → IsSound
          (record w { cache = (finish_evict k e w.cache).1; pending = at k (λ _. none) w.pending })
  unfolding finish_evict
  finishes-IsSound w k e p s = elim (Option-cases (find k w.cache.entries)) [
    | inl free ↦ let f = rw (free, p) at (s.fits k) in cc
    | inr (d, there) ↦
        let f = rw (there, p) at (s.fits k) in
        rw there (record {
          fits =
              Fits-by_key k w _ _ _ (λ j t. find-remove j k w.cache.entries t) (λ j t. refl)
                (λ j t. rw t) s
                (rw (find-remove_self k w.cache.entries s.distinct, same_key_refl k)
                  (Fits-finish (some d) e (w.held k) f));
          distinct = remove-Distinct k w.cache.entries s.distinct;
          resident = omega (arith, total-remove k d w.cache.entries there, s.resident, f.3.1);
        })
  ]

  pub fails-IsSound :
      (w : World M) (k : Key)
      → IsSound w
      → IsSound (record w { pending = at k (λ _. none) w.pending })
  fails-IsSound w k s = record {
    fits =
        Fits-by_key k w w.cache.entries w.held _ (λ j t. refl) (λ j t. refl) (λ j t. rw t) s
          (rw (same_key_refl k)
            (Fits-fail (find k w.cache.entries) (w.pending k) (w.held k) (s.fits k)));
    distinct = s.distinct;
    resident = s.resident;
  }
