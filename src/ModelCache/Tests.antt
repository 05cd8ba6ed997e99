-- ===== src/ModelCache/Tests.antt =====
-- The model cache of edge/model_cache.py at a few models, and its theorems there.
use audio_bodyguard_alpha.Prelude.{
  ℕ, ◌<◌, ◌≡◌, refl, true, false, Option, none, some, [], ◌∷◌, Result, ok, err, value_error,
  other_error,
}
use audio_bodyguard_alpha.Prelude.Time.{pos, negsuc}
use audio_bodyguard_alpha.ModelCache.{
  Key, same_key, Entry, Cache, find, add_entry, begin_evict, finish_evict, new_cache,
}
use audio_bodyguard_alpha.ModelCache.Methods.{
  enter, enforce_budget, enforce, register, set_memory_budget,
}
use audio_bodyguard_alpha.ModelCache.Entries.{total}
use audio_bodyguard_alpha.ModelCache.Budget.{Prunes, Settled, enforce_budget-Ends}
use audio_bodyguard_alpha.ModelCache.Threads.{
  World, registers, enters, begins, Reach, here, next, start, at, plus_one,
}
use audio_bodyguard_alpha.ModelCache.Threads.Held.{held-resident}

abbrev voice : Key
voice = ("voice", "v1")

abbrev vision : Key
vision = ("vision", "v2")

abbrev quiet : ℕ → Result (Unit {0})
quiet m = ok tt

abbrev fresh : Option ℕ → Cache ℕ
fresh m = record { entries = []; max_memory_mb = m; resident_memory_mb = 0; clock = 0 }

abbrev entry : ℕ → ℕ → ℕ → Entry ℕ
entry i memory used = record {
  ident = i;
  model = i;
  unload = quiet;
  users = 0;
  unloading = false;
  memory_mb = memory;
  last_used = used;
}

abbrev two_models : Cache ℕ
two_models = record {
  entries = (voice, entry 1 3 3) ∷ (vision, entry 2 4 2) ∷ [];
  max_memory_mb = some 5;
  resident_memory_mb = 7;
  clock = 3;
}

-- The older model goes, though it was registered later.
evicts_older :
    enforce_budget two_models
    ≡ some
        (ok tt, record two_models { entries = (voice, entry 1 3 3) ∷ []; resident_memory_mb = 3 })
unfolding enforce same_key
evicts_older = refl

rejects_negative :
    register voice 7 (negsuc 0) quiet (fresh none)
    ≡ some (err (value_error "memory_mb must be a nonnegative integer"), fresh none)
unfolding register
rejects_negative = refl

rejects_twice :
    (add_entry voice 1 3 quiet two_models).0 ≡ err (value_error "model key already registered")
unfolding add_entry same_key
rejects_twice = refl

abbrev broken : Cache ℕ
broken = record two_models {
  entries =
      (voice, record (entry 1 3 3) { users = 1 })
      ∷ (vision, record (entry 2 4 2) { unload = λ m. err (other_error "driver") })
      ∷ [];
}

-- An unload that raises leaves its entry unavailable, and its memory counted.
unload_raises :
    set_memory_budget (some (pos 2)) broken
    ≡ some (
      err (other_error "driver"),
      record broken {
        max_memory_mb = some 2;
        entries =
            (voice, record (entry 1 3 3) { users = 1 })
            ∷ (
              vision,
              record (entry 2 4 2) { unload = λ m. err (other_error "driver"); unloading = true },
            )
            ∷ [];
      },
    )
unfolding set_memory_budget same_key
unload_raises = refl

enforce_budget-Ends_example :
    (r : Result (Unit {0})) × (c' : Cache ℕ) × (enforce_budget two_models ≡ some (r, c'))
    × Prunes two_models.entries c'.entries
    × (r ≡ ok tt → Settled c')
unfolding find same_key
enforce_budget-Ends_example = enforce_budget-Ends two_models (refl, (refl, tt))

-- One thread uses the first model while another unloads the second.
abbrev world_1 : World ℕ
world_1 = record (start (fresh (some 5))) { cache = (add_entry voice 1 3 quiet (fresh (some 5))).1 }

abbrev world_2 : World ℕ
world_2 = record world_1 { cache = (add_entry vision 2 4 quiet world_1.cache).1 }

abbrev used : Entry ℕ
used = entry 1 3 1

abbrev world_3 : World ℕ
world_3 = record world_2 {
  cache = (enter voice world_2.cache).1;
  held = at voice (plus_one used.ident) world_2.held;
}

abbrev evicted : Entry ℕ
evicted = entry 2 4 2

abbrev world_4 : World ℕ
world_4 = record world_3 {
  cache = (begin_evict vision world_3.cache).1;
  pending = at vision (λ _. some evicted) world_3.pending;
}

run : Reach (start (fresh (some 5))) world_4
unfolding add_entry enter begin_evict same_key
run =
    next
      (next
        (next (next here (registers (start (fresh (some 5))) voice 1 3 quiet refl))
          (registers world_1 vision 2 4 quiet refl))
        (enters world_2 voice (entry 1 3 1) refl))
      (begins world_3 vision (entry 2 4 2) refl)

held-resident_example :
    (world_4.cache.resident_memory_mb ≡ total world_4.cache.entries)
    × ((k : Key) (i : ℕ)
        → 0 < world_4.held k i
        → (e : Entry ℕ) × (find k world_4.cache.entries ≡ some e)
          × (e.ident ≡ i)
          × (e.unloading ≡ false)
          × (e.users ≡ world_4.held k i))
    × ((k : Key) (e : Entry ℕ)
        → world_4.pending k ≡ some e
        → (finish_evict k e world_4.cache).0 ≡ ok tt)
unfolding new_cache
held-resident_example = held-resident (some (pos 5)) (fresh (some 5)) world_4 refl run
