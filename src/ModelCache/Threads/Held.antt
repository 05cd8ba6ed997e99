-- ===== src/ModelCache/Threads/Held.antt =====
-- What the threads on one cache of edge/model_cache.py can rely on.
use audio_bodyguard_alpha.Prelude.{
  ℕ, ◌<◌, ◌≡◌, refl, inl, inr, true, false, Option, none, some, arith, Bool-cases, ok, is_some,
}
use audio_bodyguard_alpha.Prelude.Time.{ℤ}
use audio_bodyguard_alpha.ModelCache.{Key, Entry, Cache, find, finish_evict, new_cache}
use audio_bodyguard_alpha.ModelCache.Entries.{new_cache-ok, total}
use audio_bodyguard_alpha.ModelCache.Threads.{
  World, Fits, IsSound, Step, registers, sets_budget, enters, leaves, begins, finishes, fails,
  Reach, here, next, start,
}
use audio_bodyguard_alpha.ModelCache.Threads.Steps.{
  registers-IsSound, enters-IsSound, leaves-IsSound, begins-IsSound, finishes-IsSound,
  fails-IsSound,
}

module _ {M : Type 0} where
  -- Every step keeps a sound world sound.
  pub Step-IsSound : {w v : World M} → Step w v → IsSound w → IsSound v
  Step-IsSound (registers w k model memory unload h) s =
      registers-IsSound w k model memory unload h s
  Step-IsSound (sets_budget w m) s = record {
    fits = s.fits;
    distinct = s.distinct;
    resident = s.resident;
  }
  Step-IsSound (enters w k e h) s = enters-IsSound w k e h s
  Step-IsSound (leaves w k i h) s = leaves-IsSound w k i h s
  Step-IsSound (begins w k e h) s = begins-IsSound w k e h s
  Step-IsSound (finishes w k e h) s = finishes-IsSound w k e h s
  Step-IsSound (fails w k e h) s = fails-IsSound w k s

  start-IsSound : (m : Option ℤ) (c : Cache M) → new_cache m ≡ ok c → IsSound (start c)
  unfolding find total
  start-IsSound m c h =
      let empty = new_cache-ok m c h in
      record {
        fits = λ k. rw empty.0 ((λ i. refl), refl);
        distinct = rw empty.0 tt;
        resident = rw empty.0 empty.1;
      }

  Fits-held :
      (o : Option (Entry M)) (h : ℕ → ℕ) (p : Option (Entry M)) (i : ℕ)
      → Fits o h p
      → 0 < h i
      → (e : Entry M) × (o ≡ some e) × (e.ident ≡ i) × (e.unloading ≡ false) × (e.users ≡ h i)
  Fits-held none h p i f more = absurd (omega (arith, f.0 i))
  Fits-held (some e) h p i f more =
      let same = f.2 i more in
      let users : e.users ≡ h i = rw (← same) f.0 in
      (
        e,
        refl,
        same,
        elim (Bool-cases e.unloading) [ inl u ↦ absurd (omega (arith, f.1 u)) | inr u ↦ u ],
        users,
      )

  Fits-doomed :
      (o : Option (Entry M)) (h : ℕ → ℕ) (p : Option (Entry M)) (e : Entry M)
      → Fits o h p
      → p ≡ some e
      → is_some o ≡ true
  Fits-doomed none h p e f d = cc
  Fits-doomed (some e') h p e f d = refl

  Reach-IsSound : {w v : World M} → IsSound w → Reach w v → IsSound v
  Reach-IsSound s here = s
  Reach-IsSound s (next r st) = Step-IsSound st (Reach-IsSound s r)

  -- Whatever the threads do with a new cache, the resident memory is the sum over the entries; a
  -- model that a block holds is in the cache and is not being unloaded; and the end of an unload
  -- finds the entry that it began with still there.
  pub held-resident :
      (m : Option ℤ) (c : Cache M) (w : World M)
      → new_cache m ≡ ok c
      → Reach (start c) w
      → (w.cache.resident_memory_mb ≡ total w.cache.entries)
        × ((k : Key) (i : ℕ)
            → 0 < w.held k i
            → (e : Entry M) × (find k w.cache.entries ≡ some e)
              × (e.ident ≡ i)
              × (e.unloading ≡ false)
              × (e.users ≡ w.held k i))
        × ((k : Key) (e : Entry M) → w.pending k ≡ some e → (finish_evict k e w.cache).0 ≡ ok tt)
  unfolding finish_evict
  held-resident m c w h r =
      let s = Reach-IsSound (start-IsSound m c h) r in
      (
        s.resident,
        λ k i more. Fits-held (find k w.cache.entries) (w.held k) (w.pending k) i (s.fits k) more,
        λ k e p.
            rw (Fits-doomed (find k w.cache.entries) (w.held k) (w.pending k) e (s.fits k) p) refl,
      )
