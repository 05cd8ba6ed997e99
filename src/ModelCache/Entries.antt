-- ===== src/ModelCache/Entries.antt =====
-- The dict of edge/model_cache.py under its changes, and the memory that it accounts for.
use audio_bodyguard_alpha.Prelude.{
  ℕ, suc, ◌+◌, ◌≡◌, ◌↔◌, refl, ap, ◌∙◌, inl, inr, true, false, Option, none, some, List, [], ◌∷◌,
  ◌++◌, length, eqb, if◌then◌else◌, arith, eq_iff, Bool-cases, ok, Bool-cases, inl, inr, ◌∙◌,
}
use audio_bodyguard_alpha.Prelude.Time.{ℤ, pos, negsuc}
use audio_bodyguard_alpha.ModelCache.{
  new_cache, Key, same_key, Entry, Cache, find, remove, update, begin_evict, is_idle, use_at,
  start_unload,
}
use audio_bodyguard_alpha.ModelCache.Methods.{enter}

pub same_key_iff : (a b : Key) → (same_key a b ≡ true) ↔ (a ≡ b)
unfolding same_key
same_key_iff (a, b) (c, d) = ground (arith, eq_iff a c, eq_iff b d)

pub same_key_refl : (a : Key) → same_key a a ≡ true
same_key_refl a = (same_key_iff a a).1 refl

pub same_key_sym : (a b : Key) → same_key a b ≡ same_key b a
unfolding same_key
same_key_sym (a, b) (c, d) = ground (arith, eq_iff a c, eq_iff b d, eq_iff c a, eq_iff d b)

abbrev pub Entries : Type 0 → Type 0
Entries M = List (Key × Entry M)

module _ {M : Type 0} where
  -- The memory of all entries.
  unfoldable pub total : Entries M → ℕ
  total [] = 0
  total ((k, e) ∷ es) = e.memory_mb + total es

  abbrev pub at_ident : ℕ → (Entry M → Entry M) → Option (Entry M) → Option (Entry M)
  at_ident i f none = none
  at_ident i f (some e) = some (if eqb e.ident i then f e else e)

  pub find-update :
      (j k : Key) (i : ℕ) (f : Entry M → Entry M) (es : Entries M)
      → find j (update k i f es) ≡ (if same_key k j then at_ident i f (find j es) else find j es)
  unfolding find update
  find-update j k i f [] = ground arith
  find-update j k i f ((h, e) ∷ es) =
      ground (arith, find-update j k i f es, same_key_iff k j, same_key_iff h j, same_key_iff h k)

  pub find-remove :
      (j k : Key) (es : Entries M) → same_key k j ≡ false → find j (remove k es) ≡ find j es
  unfolding find remove
  find-remove j k [] h = refl
  find-remove j k ((i, e) ∷ es) h =
      ground (arith, find-remove j k es, same_key_iff k j, same_key_iff i j, same_key_iff i k)

  pub find-append :
      (j k : Key) (e : Entry M) (es : Entries M)
      → find k es ≡ none
      → find j (es ++ (k, e) ∷ []) ≡ (if same_key k j then some e else find j es)
  unfolding find
  find-append j k e [] h = refl
  find-append j k e ((i, d) ∷ es) h =
      ground (arith, find-append j k e es, same_key_iff k j, same_key_iff i j, same_key_iff i k)

  total-append : (es ds : Entries M) → total (es ++ ds) ≡ total es + total ds
  unfolding total
  total-append [] ds = omega arith
  total-append ((k, e) ∷ es) ds = omega (arith, total-append es ds)

  pub total_snoc :
      (k : Key) (e : Entry M) (es : Entries M) → total (es ++ (k, e) ∷ []) ≡ total es + e.memory_mb
  unfolding total
  total_snoc k e es = omega (arith, total-append es ((k, e) ∷ []))

  pub total-update :
      (k : Key) (i : ℕ) (f : Entry M → Entry M) (es : Entries M)
      → ((e : Entry M) → (f e).memory_mb ≡ e.memory_mb)
      → total (update k i f es) ≡ total es
  unfolding total update
  total-update k i f [] h = refl
  total-update k i f ((j, e) ∷ es) h = ground (arith, total-update k i f es h, h e)

  pub total-remove :
      (k : Key) (e : Entry M) (es : Entries M)
      → find k es ≡ some e
      → total (remove k es) + e.memory_mb ≡ total es
  unfolding total remove find
  total-remove k e [] h = cc
  total-remove k e ((j, d) ∷ es) h = ground (arith, total-remove k e es)

  -- A dict has each key once.
  abbrev pub Distinct : Entries M → Type 0
  Distinct [] = Unit {0}
  Distinct ((k, e) ∷ es) = (find k es ≡ none) × Distinct es

  find-update-none :
      (j k : Key) (i : ℕ) (f : Entry M → Entry M) (es : Entries M)
      → find j es ≡ none
      → find j (update k i f es) ≡ none
  find-update-none j k i f es h = ground (arith, find-update j k i f es)

  pub update-Distinct :
      (k : Key) (i : ℕ) (f : Entry M → Entry M) (es : Entries M)
      → Distinct es
      → Distinct (update k i f es)
  unfolding update
  update-Distinct k i f [] d = tt
  update-Distinct k i f ((j, e) ∷ es) d =
      (find-update-none j k i f es d.0, update-Distinct k i f es d.1)

  find-remove-none : (j k : Key) (es : Entries M) → find j es ≡ none → find j (remove k es) ≡ none
  unfolding find remove
  find-remove-none j k [] h = refl
  find-remove-none j k ((i, e) ∷ es) h = ground (arith, find-remove-none j k es)

  pub remove-Distinct : (k : Key) (es : Entries M) → Distinct es → Distinct (remove k es)
  unfolding remove
  remove-Distinct k [] d = tt
  remove-Distinct k ((j, e) ∷ es) d = elim (Bool-cases (same_key j k)) [
    | inl t ↦ rw t d.1
    | inr t ↦ rw t (find-remove-none j k es d.0, remove-Distinct k es d.1)
  ]

  pub find-remove_self : (k : Key) (es : Entries M) → Distinct es → find k (remove k es) ≡ none
  unfolding find remove
  find-remove_self k [] d = refl
  find-remove_self k ((j, e) ∷ es) d =
      ground (arith, find-remove_self k es d.1, same_key_iff j k, d.0)

  find-append-none :
      (j k : Key) (e : Entry M) (es : Entries M)
      → find j es ≡ none
      → same_key k j ≡ false
      → find j (es ++ (k, e) ∷ []) ≡ none
  unfolding find
  find-append-none j k e [] h t = rw t
  find-append-none j k e ((i, d) ∷ es) h t = ground (arith, find-append-none j k e es)

  pub append-Distinct :
      (k : Key) (e : Entry M) (es : Entries M)
      → find k es ≡ none
      → Distinct es
      → Distinct (es ++ (k, e) ∷ [])
  unfolding find
  append-Distinct k e [] free d = (refl, tt)
  append-Distinct k e ((j, c) ∷ es) free d = elim (Bool-cases (same_key j k)) [
    | inl t ↦ cc (rw t at free)
    | inr t ↦
        let rest = rw t at free in
        (find-append-none j k e es d.0 (same_key_sym k j ∙ t), append-Distinct k e es rest d.1)
  ]

  pub length-update :
      (k : Key) (i : ℕ) (f : Entry M → Entry M) (es : Entries M)
      → length (update k i f es) ≡ length es
  unfolding update
  length-update k i f [] = refl
  length-update k i f ((j, e) ∷ es) = ap suc (length-update k i f es)

  pub length-remove :
      (k : Key) (e : Entry M) (es : Entries M)
      → find k es ≡ some e
      → suc (length (remove k es)) ≡ length es
  unfolding remove find
  length-remove k e [] h = cc
  length-remove k e ((j, d) ∷ es) h = ground (arith, length-remove k e es)

  pub enter-ok :
      (k : Key) (c : Cache M) (e : Entry M)
      → (enter k c).0 ≡ ok e
      → (find k c.entries ≡ some e)
        × (e.unloading ≡ false)
        × ((enter k c).1 ≡ record c {
          entries = update k e.ident (use_at (c.clock + 1)) c.entries;
          clock = c.clock + 1;
        })
  unfolding enter
  enter-ok k c e h = ground arith

  pub begin_evict-some :
      (k : Key) (c : Cache M) (e : Entry M)
      → (begin_evict k c).0 ≡ some e
      → (find k c.entries ≡ some e)
        × (is_idle e ≡ true)
        × ((begin_evict k c).1 ≡ record c { entries = update k e.ident start_unload c.entries })
  unfolding begin_evict
  begin_evict-some k c e h = ground arith

  pub new_cache-ok :
      (m : Option ℤ) (c : Cache M)
      → new_cache m ≡ ok c
      → (c.entries ≡ []) × (c.resident_memory_mb ≡ 0)
  unfolding new_cache
  new_cache-ok none c h = ground arith
  new_cache-ok (some (pos n)) c h = ground arith
  new_cache-ok (some (negsuc n)) c h = cc
