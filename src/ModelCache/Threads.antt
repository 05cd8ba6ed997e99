-- ===== src/ModelCache/Threads.antt =====
-- Any number of threads on one cache of edge/model_cache.py: a step is what one of them does under one
-- hold of the lock, so an unload, which runs outside it, has other steps in its middle.
pub mod Steps
pub mod Held
use audio_bodyguard_alpha.Prelude.{
  ℕ, ◌+◌, ◌-◌, ◌<◌, ◌≡◌, refl, ap, ◌∙◌, sym, inl, inr, Bool, true, false, not, ◌&&◌, Option, none,
  some, List, [], ◌∷◌, eqb, eqb_iff, if◌then◌else◌, arith, Bool-cases, Option-cases, Result, ok,
  err, subst, is_some,
}
use audio_bodyguard_alpha.Prelude.Time.{ℤ}
use audio_bodyguard_alpha.ModelCache.{
  Key, same_key, Entry, Cache, find, add_entry, is_idle, use_at, drop_user, start_unload,
  begin_evict, finish_evict, new_cache,
}
use audio_bodyguard_alpha.ModelCache.Methods.{enter, drop}
use audio_bodyguard_alpha.ModelCache.Entries.{
  Entries, new_cache-ok, Distinct, append-Distinct, update-Distinct, remove-Distinct,
  find-remove_self, total, total_snoc, at_ident, find-update, find-remove, find-append, enter-ok,
  begin_evict-some, total-update, total-remove, same_key_iff, same_key_refl,
}

-- `held k i` is how many `with` blocks hold the object `i`, registered under `k`; `pending k` is the
-- entry that some thread is unloading under `k`.
pub record World (M : Type 0) : Type 0 where
  pub cache : Cache M
  pub held : Key → ℕ → ℕ
  pub pending : Key → Option (Entry M)

abbrev pub plus_one : ℕ → (ℕ → ℕ) → ℕ → ℕ
plus_one i g n = if eqb i n then g n + 1 else g n

abbrev pub minus_one : ℕ → (ℕ → ℕ) → ℕ → ℕ
minus_one i g n = if eqb i n then g n - 1 else g n

abbrev pub at {ℓ} : {A : Type ℓ} → Key → (A → A) → (Key → A) → Key → A
at k f g j = if same_key k j then f (g j) else g j

module _ {M : Type 0} where
  pub data Step : World M → World M → Type 0 where
    registers :
        (w : World M) (k : Key) (model : M) (memory : ℕ) (unload : M → Result (Unit {0}))
        → (add_entry k model memory unload w.cache).0 ≡ ok tt
        → Step w (record w { cache = (add_entry k model memory unload w.cache).1 })
    sets_budget :
        (w : World M) (m : Option ℕ)
        → Step w (record w { cache = record (w.cache) { max_memory_mb = m } })
    enters :
        (w : World M) (k : Key) (e : Entry M)
        → (enter k w.cache).0 ≡ ok e
        → Step w (record w { cache = (enter k w.cache).1; held = at k (plus_one e.ident) w.held })
    leaves :
        (w : World M) (k : Key) (i : ℕ)
        → 0 < w.held k i
        → Step w (record w { cache = drop k i w.cache; held = at k (minus_one i) w.held })
    begins :
        (w : World M) (k : Key) (e : Entry M)
        → (begin_evict k w.cache).0 ≡ some e
        → Step w
            (record w { cache = (begin_evict k w.cache).1; pending = at k (λ _. some e) w.pending })
    -- the callback returns, or raises and leaves the entry as it is
    finishes :
        (w : World M) (k : Key) (e : Entry M)
        → w.pending k ≡ some e
        → Step w (record w {
          cache = (finish_evict k e w.cache).1;
          pending = at k (λ _. none) w.pending;
        })
    fails :
        (w : World M) (k : Key) (e : Entry M)
        → w.pending k ≡ some e
        → Step w (record w { pending = at k (λ _. none) w.pending })

  abbrev pub Doomed : Entry M → Option (Entry M) → Type 0
  Doomed e none = Unit {0}
  Doomed e (some d) = (e.unloading ≡ true) × (e.memory_mb ≡ d.memory_mb)

  -- What is under one key, against the blocks that hold it and the thread that unloads it.
  abbrev pub Fits : Option (Entry M) → (ℕ → ℕ) → Option (Entry M) → Type 0
  Fits none held pending = ((i : ℕ) → held i ≡ 0) × (pending ≡ none)
  Fits (some e) held pending =
      (e.users ≡ held e.ident)
      × (e.unloading ≡ true → e.users ≡ 0)
      × ((i : ℕ) → 0 < held i → e.ident ≡ i)
      × Doomed e pending

  pub record IsSound (w : World M) : Type 0 where
    pub fits : (k : Key) → Fits (find k w.cache.entries) (w.held k) (w.pending k)
    pub distinct : Distinct w.cache.entries
    pub resident : w.cache.resident_memory_mb ≡ total w.cache.entries

  pub data Reach (w : World M) : World M → Type 0 where
    here : Reach w w
    next : {v u : World M} → Reach w v → Step v u → Reach w u

  -- A new cache, which no block holds and no thread unloads.
  abbrev pub start : Cache M → World M
  start c = record { cache = c; held = λ k i. 0; pending = λ k. none }
