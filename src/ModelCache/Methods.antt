-- ===== src/ModelCache/Methods.antt =====
-- The methods of edge/model_cache.py that use the entries and evict over the budget, each by its critical
-- sections, or whole where no other thread comes in between.
use audio_bodyguard_alpha.Prelude.{
  ℕ, zero, suc, ◌+◌, Bool, true, false, Option, none, some, List, [], ◌∷◌, length, if◌then◌else◌,
  Result, ok, err, runtime_error, other_error,
}
use audio_bodyguard_alpha.Prelude.Time.{ℤ}
use audio_bodyguard_alpha.ModelCache.{
  Key, Entry, Cache, natural, budget, Outcome, find, update, victim, add_entry, use_at, drop_user,
  evict,
}

module _ {M : Type 0} where
  -- `if not self.evict(key): return`, and the next round of the loop
  unfoldable pub go_on : (Cache M → Outcome (Cache M)) → Result Bool → Cache M → Outcome (Cache M)
  go_on again (err x) c = some (err x, c)
  go_on again (ok false) c = some (ok tt, c)
  go_on again (ok true) c = again c

  -- `_enforce_budget`, with the rounds of its loop bounded; none means that they did not suffice.
  unfoldable pub enforce : ℕ → Cache M → Outcome (Cache M)
  unfolding victim evict go_on
  enforce zero c = none
  enforce (suc rounds) c = elim (victim c) [
    | none ↦ some (ok tt, c)
    | some key ↦ let (r, c') = evict key c in go_on (enforce rounds) r c'
  ]

  abbrev pub enforce_budget : Cache M → Outcome (Cache M)
  enforce_budget c = enforce (suc (length c.entries)) c

  unfoldable pub register : Key → M → ℤ → (M → Result (Unit {0})) → Cache M → Outcome (Cache M)
  unfolding natural add_entry enforce
  register key model memory_mb unload c =
      elim (natural memory_mb "memory_mb must be a nonnegative integer") [
        | err x ↦ some (err x, c)
        | ok memory ↦
            let (r, c') = add_entry key model memory unload c in
            elim r [ err x ↦ some (err x, c') | ok _ ↦ enforce_budget c' ]
      ]

  unfoldable pub set_memory_budget : Option ℤ → Cache M → Outcome (Cache M)
  unfolding budget enforce
  set_memory_budget max_memory_mb c = elim (budget max_memory_mb) [
    | err x ↦ some (err x, c)
    | ok m ↦ enforce_budget (record c { max_memory_mb = m })
  ]

  -- the entry to `with cache.acquire(key)`: the entry that is held through the block
  unfoldable pub enter : Key → Cache M → Result (Entry M) × Cache M
  unfolding find update
  enter key c = elim (find key c.entries) [
    | none ↦ (err (other_error "KeyError"), c)
    | some e ↦
        if e.unloading
        then (err (runtime_error "model unavailable during or after failed unload"), c)
        else (
          ok e,
          record c {
            entries = update key e.ident (use_at (c.clock + 1)) c.entries;
            clock = c.clock + 1;
          },
        )
  ]

  -- the part of its end that is under the lock
  unfoldable pub drop : Key → ℕ → Cache M → Cache M
  unfolding update
  drop key ident c = record c { entries = update key ident drop_user c.entries }

  unfoldable pub leave : Key → ℕ → Cache M → Outcome (Cache M)
  unfolding drop enforce
  leave key ident c = enforce_budget (drop key ident c)

  -- the keys of `resident_models`
  unfoldable pub resident_models : List (Key × Entry M) → List Key
  resident_models [] = []
  resident_models ((k, e) ∷ es) =
      let rest = resident_models es in if e.unloading then rest else k ∷ rest
