-- ===== src/ModelCache/Oldest.antt =====
-- What edge/model_cache.py evicts first: the idle entry that was used the longest time ago.
use audio_bodyguard_alpha.Prelude.{
  ◌≤◌, ◌≡◌, refl, inl, inr, true, false, Option, none, some, [], ◌∷◌, if◌then◌else◌, arith,
  Bool-cases, subst,
}
use audio_bodyguard_alpha.ModelCache.{Key, same_key, Entry, find, is_idle, oldest_of, oldest, older}
use audio_bodyguard_alpha.ModelCache.Entries.{Entries, Distinct, same_key_iff, same_key_refl}

module _ {M : Type 0} where
  -- No idle entry is older than `v`, or none is idle.
  abbrev pub IsOldest : Entries M → Option (Key × Entry M) → Type 0
  IsOldest es none = (j : Key) (e : Entry M) → find j es ≡ some e → is_idle e ≡ false
  IsOldest es (some (k, v)) =
      (find k es ≡ some v)
      × (is_idle v ≡ true)
      × ((j : Key) (e : Entry M)
          → find j es ≡ some e
          → is_idle e ≡ true
          → v.last_used ≤ e.last_used)

  older-le : (j k : Key) (d v : Entry M) → older (j, d) (k, v) ≡ true → d.last_used ≤ v.last_used
  unfolding older
  older-le j k d v h = ground arith

  not-older-le :
      (j k : Key) (d v : Entry M) → older (j, d) (k, v) ≡ false → v.last_used ≤ d.last_used
  unfolding older
  not-older-le j k d v h = ground arith

  find-cons :
      (i k : Key) (v : Entry M) (es : Entries M)
      → find i ((k, v) ∷ es) ≡ (if same_key k i then some v else find i es)
  unfolding find
  find-cons i k v es = refl

  older_stays :
      (k j : Key) (v d : Entry M) (es : Entries M)
      → find k es ≡ none
      → (is_idle v ≡ true → d.last_used ≤ v.last_used)
      → IsOldest es (some (j, d))
      → IsOldest ((k, v) ∷ es) (some (j, d))
  older_stays k j v d es new later f =
      let other : same_key k j ≡ false = elim (Bool-cases (same_key k j)) [
        | inr t ↦ t
        | inl t ↦ let there = subst (λ i. find i es ≡ none) ((same_key_iff k j).0 t) new in cc (f.0)
      ] in
      (
        rw (find-cons j k v es, other) f.0,
        f.1,
        λ i e h free. ground (arith, f.2 i e, find-cons i k v es, later),
      )

  newer_leads :
      (k : Key) (v : Entry M) (es : Entries M)
      → is_idle v ≡ true
      → ((i : Key) (e : Entry M)
          → find i es ≡ some e
          → is_idle e ≡ true
          → v.last_used ≤ e.last_used)
      → IsOldest ((k, v) ∷ es) (some (k, v))
  newer_leads k v es idle least = (
    rw (find-cons k k v es, same_key_refl k) refl,
    idle,
    λ i e h free. ground (arith, least i e, find-cons i k v es),
  )

  IsOldest-cons :
      (k : Key) (v : Entry M) (es : Entries M) (o : Option (Key × Entry M))
      → find k es ≡ none
      → IsOldest es o
      → IsOldest ((k, v) ∷ es) (if is_idle v then some (oldest_of (k, v) o) else o)
  unfolding oldest_of
  IsOldest-cons k v es none new f = elim (Bool-cases (is_idle v)) [
    | inl idle ↦ rw idle (newer_leads k v es idle (λ i e h free. cc (f i e h)))
    | inr busy ↦ rw busy (λ i e h. ground (arith, f i e, find-cons i k v es))
  ]
  IsOldest-cons k v es (some (j, d)) new f = elim (Bool-cases (is_idle v)) [
    | inr busy ↦ rw busy (older_stays k j v d es new (λ idle. cc) f)
    | inl idle ↦ elim (Bool-cases (older (j, d) (k, v))) [
      | inl first ↦ rw (idle, first) (older_stays k j v d es new (λ _. older-le j k d v first) f)
      | inr last ↦
          rw (idle, last)
            (newer_leads k v es idle
              (λ i e h free. omega (arith, f.2 i e h free, not-older-le j k d v last)))
    ]
  ]

  pub oldest_lem : (es : Entries M) → Distinct es → IsOldest es (oldest es)
  unfolding oldest find
  oldest_lem [] d = λ j e h. cc
  oldest_lem ((k, v) ∷ es) d = IsOldest-cons k v es (oldest es) d.0 (oldest_lem es d.1)
