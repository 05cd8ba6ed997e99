-- ===== src/ModelCache/Budget.antt =====
-- The eviction loop of edge/model_cache.py when no other thread interferes: it ends, and it leaves the
-- budget kept or nothing more to evict.
use audio_bodyguard_alpha.Prelude.{
  ℕ, zero, suc, ◌-◌, ◌<◌, ◌≤◌, ◌≡◌, refl, ◌∙◌, sym, inl, inr, ◌⊎◌, Bool, true, false, none, some,
  length, eqb_iff, if◌then◌else◌, arith, Bool-cases, Option-cases, Result, ok, err, Error,
  Result-cases, subst, some_inj,
}
use audio_bodyguard_alpha.ModelCache.{
  Key, same_key, Entry, Cache, find, remove, update, is_idle, start_unload, oldest, within, victim,
  begin_evict, evict, Outcome,
}
use audio_bodyguard_alpha.ModelCache.Methods.{go_on, enforce, enforce_budget}
use audio_bodyguard_alpha.ModelCache.Entries.{
  Entries, Distinct, find-update, find-remove, find-remove_self, update-Distinct, remove-Distinct,
  length-update, length-remove, same_key_iff, same_key_refl,
}
use audio_bodyguard_alpha.ModelCache.Oldest.{IsOldest, oldest_lem}

module _ {M : Type 0} where
  -- What an eviction loop does to a cache: entries in use stay, what is idle afterwards was so before,
  -- and what went is not younger than what is idle and stays.
  pub record Prunes (es ds : Entries M) : Type 0 where
    pub kept : (k : Key) (e : Entry M) → find k es ≡ some e → is_idle e ≡ false → find k ds ≡ some e
    pub survived :
        (k : Key) (e : Entry M) → find k ds ≡ some e → is_idle e ≡ true → find k es ≡ some e
    pub lru :
        (j k : Key) (d e : Entry M)
        → find j es ≡ some d
        → find j ds ≡ none
        → find k ds ≡ some e
        → is_idle e ≡ true
        → d.last_used ≤ e.last_used

  begins :
      (k : Key) (v : Entry M) (c : Cache M)
      → find k c.entries ≡ some v
      → is_idle v ≡ true
      → begin_evict k c ≡ (some v, record c { entries = update k v.ident start_unload c.entries })
  unfolding begin_evict
  begins k v c there idle = ground arith

  evict-raises :
      (k : Key) (v : Entry M) (x : Error) (c : Cache M)
      → find k c.entries ≡ some v
      → is_idle v ≡ true
      → v.unload v.model ≡ err x
      → evict k c ≡ (err x, record c { entries = update k v.ident start_unload c.entries })
  unfolding evict
  evict-raises k v x c there idle raises = rw (begins k v c there idle, raises) refl

  evict-returns :
      (k : Key) (v : Entry M) (c : Cache M)
      → find k c.entries ≡ some v
      → is_idle v ≡ true
      → v.unload v.model ≡ ok tt
      → evict k c ≡ (
        ok true,
        record c {
          entries = remove k (update k v.ident start_unload c.entries);
          resident_memory_mb = c.resident_memory_mb - v.memory_mb;
        },
      )
  unfolding evict
  evict-returns k v c there idle returns =
      let found : find k (update k v.ident start_unload c.entries) ≡ some (start_unload v) =
        rw (find-update k k v.ident start_unload c.entries, same_key_refl k, there)
          (rw ((eqb_iff v.ident v.ident).1 refl) refl) in
      rw (begins k v c there idle, returns) (rw found refl)

  -- the entries after `k` was evicted
  abbrev gone : Key → Entry M → Entries M → Entries M
  gone k v es = remove k (update k v.ident start_unload es)

  module _ (k : Key) (v : Entry M) (es : Entries M) (distinct : Distinct es) where
    find-gone : (j : Key) → find j (gone k v es) ≡ (if same_key k j then none else find j es)
    find-gone j = elim (Bool-cases (same_key k j)) [
      | inl t ↦ rw t (
          subst (λ i. find i (gone k v es) ≡ none) ((same_key_iff k j).0 t)
            (find-remove_self k (update k v.ident start_unload es)
              (update-Distinct k v.ident start_unload es distinct)))
      | inr t ↦ rw t (
          find-remove j k (update k v.ident start_unload es) t
          ∙ rw (find-update j k v.ident start_unload es, t) refl)
    ]

    gone-Distinct : Distinct (gone k v es)
    gone-Distinct =
        remove-Distinct k (update k v.ident start_unload es)
          (update-Distinct k v.ident start_unload es distinct)

    length-gone : find k es ≡ some v → suc (length (gone k v es)) ≡ length es
    length-gone there =
        let found : find k (update k v.ident start_unload es) ≡ some (start_unload v) =
          rw (find-update k k v.ident start_unload es, same_key_refl k, there)
            (rw ((eqb_iff v.ident v.ident).1 refl) refl) in
        length-remove k (start_unload v) (update k v.ident start_unload es) found
        ∙ length-update k v.ident start_unload es

    module _ (there : find k es ≡ some v) (idle : is_idle v ≡ true)
        (least : (j : Key) (e : Entry M)
          → find j es ≡ some e
          → is_idle e ≡ true
          → v.last_used ≤ e.last_used) where
      -- The entry whose unload failed is not idle any more.
      fail-Prunes : Prunes es (update k v.ident start_unload es)
      fail-Prunes = record {
        kept =
            λ j e h busy. ground (arith, find-update j k v.ident start_unload es, same_key_iff k j);
        survived =
            λ j e h free. ground (arith, find-update j k v.ident start_unload es, same_key_iff k j);
        lru = λ j i d e h went stays free. ground (arith, find-update j k v.ident start_unload es);
      }

      gone-Prunes : (ds : Entries M) → Prunes (gone k v es) ds → Prunes es ds
      gone-Prunes ds p = record {
        kept = λ j e h busy. p.kept j e (ground (arith, find-gone j, same_key_iff k j)) busy;
        survived = λ j e h free. let s = p.survived j e h free in ground (arith, find-gone j);
        lru = λ j i d e h went stays free.
            let s = p.survived i e stays free in
            elim (Bool-cases (same_key k j)) [
              | inl t ↦
                  let it : d ≡ v = some_inj (
                    sym (subst (λ x. find x es ≡ some d) (sym ((same_key_iff k j).0 t)) h)
                    ∙ there) in
                  let old = least i e (ground (arith, find-gone i)) free in rw it old
              | inr t ↦ p.lru j i d e (rw (find-gone j, t) h) went stays free
            ];
      }

  -- The budget is kept, or every entry is in use or being unloaded.
  abbrev pub Settled : Cache M → Type 0
  Settled c =
      (within c.max_memory_mb c.resident_memory_mb ≡ true)
      ⊎ ((j : Key) (e : Entry M) → find j c.entries ≡ some e → is_idle e ≡ false)

  abbrev Ends : Outcome (Cache M) → Cache M → Type 0
  Ends o c =
      (r : Result (Unit {0})) × (c' : Cache M) × (o ≡ some (r, c'))
      × Prunes c.entries c'.entries
      × (r ≡ ok tt → Settled c')

  same-Prunes : (es : Entries M) → Prunes es es
  same-Prunes es = record {
    kept = λ k e h busy. h;
    survived = λ k e h free. h;
    lru = λ j k d e h went stays free. cc;
  }

  -- the first entry of the list is the oldest idle one
  victim-cases :
      (c : Cache M)
      → Distinct c.entries
      → ((victim c ≡ none) × Settled c)
        ⊎ ((k : Key) × (v : Entry M) × (victim c ≡ some k) × IsOldest c.entries (some (k, v)))
  unfolding victim
  victim-cases c d = elim (Bool-cases (within c.max_memory_mb c.resident_memory_mb)) [
    | inl fits ↦ inl (rw fits refl, inl fits)
    | inr over ↦ elim (Option-cases (oldest c.entries)) [
      | inl e ↦ inl (rw (over, e) refl, inr (rw e at (oldest_lem c.entries d)))
      | inr (w, e) ↦ inr (w.0, w.1, rw (over, e) refl, rw e at (oldest_lem c.entries d))
    ]
  ]

  enforce_stops : (n : ℕ) (c : Cache M) → victim c ≡ none → enforce (suc n) c ≡ some (ok tt, c)
  unfolding enforce
  enforce_stops n c h = rw (h, enforce) refl

  enforce_goes :
      (n : ℕ) (k : Key) (r : Result Bool) (c c' : Cache M)
      → victim c ≡ some k
      → evict k c ≡ (r, c')
      → enforce (suc n) c ≡ go_on (enforce n) r c'
  unfolding enforce
  enforce_goes n k r c c' h e = rw (h, e, enforce) refl

  enforce-Ends :
      (n : ℕ) (c : Cache M) → length c.entries < n → Distinct c.entries → Ends (enforce n c) c
  unfolding go_on
  enforce-Ends zero c few d = absurd (omega arith)
  enforce-Ends (suc n) c few d = elim (victim-cases c d) [
    | inl (stop, settled) ↦
        rw (enforce_stops n c stop) (ok tt, c, refl, same-Prunes c.entries, λ _. settled)
    | inr (k, v, go, it) ↦ elim (Result-cases (v.unload v.model)) [
      | inr (x, raises) ↦
          rw (enforce_goes n k _ c _ go (evict-raises k v x c it.0 it.1 raises))
            (err x, _, refl, fail-Prunes k v c.entries d it.0 it.1 it.2, λ h. cc)
      | inl (u, returns) ↦
          let rest : Cache M = record c {
            entries = gone k v c.entries;
            resident_memory_mb = c.resident_memory_mb - v.memory_mb;
          } in
          let ih =
            enforce-Ends n rest (omega (arith, length-gone k v c.entries d it.0))
              (gone-Distinct k v c.entries d) in
          rw (enforce_goes n k (ok true) c rest go (evict-returns k v c it.0 it.1 returns))
            (ih.0, ih.1, ih.2, gone-Prunes k v c.entries d it.0 it.1 it.2 ih.1.entries ih.3, ih.4)
    ]
  ]

  -- The eviction loop, on a dict and with no other thread in between, ends within one round more than
  -- there are entries. What it does to the entries is `Prunes`: those in use or being unloaded stay,
  -- those idle afterwards were there before, and none that went was used after one that stays idle. If
  -- it ends without an exception, then the budget is kept or no entry is idle.
  pub enforce_budget-Ends :
      (c : Cache M)
      → Distinct c.entries
      → (r : Result (Unit {0})) × (c' : Cache M) × (enforce_budget c ≡ some (r, c'))
        × Prunes c.entries c'.entries
        × (r ≡ ok tt → Settled c')
  enforce_budget-Ends c d = enforce-Ends (suc (length c.entries)) c (omega arith) d
