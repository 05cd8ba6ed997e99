-- ===== src/Lease/Invariant.antt =====
-- What holds of the leases in memory, and how a method may change them.
use audio_bodyguard_alpha.Prelude.{
  ℕ, ◌+◌, ◌≤◌, ◌<◌, ◌≡◌, refl, ◌∙◌, subst, inl, inr, String, true, false, ◌==◌, eq_iff, none, some,
  List, [], ◌∷◌, ltb, Result, ok, err, get_or, arith, Bool-cases, some_inj, Option-cases,
}
use audio_bodyguard_alpha.Prelude.Time.{Time, epoch, before, before-add}
use audio_bodyguard_alpha.Prelude.Text.{is_named}
use audio_bodyguard_alpha.Prelude.Dict.{Dict, get, put, get-put}
use audio_bodyguard_alpha.Lease.{
  Lease, Authority, Nonce, Grant, nonce_used, new_lease, enter, is_held, is_current, max_token,
  acquire_body, handoff_body, reauthorize_body,
}

-- A lease entered under its resource, with the highest token of that resource.
pub record IsEntry (resource_id : String) (lease : Lease) (highest : ℕ) : Type 0 where
  pub here : lease.resource_id ≡ resource_id
  pub named : is_named resource_id ≡ true
  pub controlled : is_named lease.controller_id ≡ true
  pub positive : 0 < lease.fencing_token
  pub covered : lease.fencing_token ≤ highest
  pub lasting : before lease.issued_at lease.expires_at ≡ true

-- `_active` and `_highest_tokens` have the same keys, in the same order, and none twice.
abbrev pub Aligned : Dict Lease → Dict ℕ → Type 0
Aligned [] [] = Unit {0}
Aligned ((k, l) ∷ active) ((j, t) ∷ highest) =
    (j ≡ k) × IsEntry k l t × Aligned active highest × (get k active ≡ none)
Aligned _ _ = ⊥

abbrev pub Distinct : List Nonce → Type 0
Distinct [] = Unit {0}
Distinct (n ∷ used) =
    (is_named n.0 ≡ true) × (is_named n.1 ≡ true) × (nonce_used n used ≡ false) × Distinct used

pub record IsSound (a : Authority) : Type 0 where
  pub aligned : Aligned a.active a.highest_tokens
  pub distinct : Distinct a.used_nonces

pub Aligned-get :
    (k : String) (active : Dict Lease) (highest : Dict ℕ) (l : Lease)
    → Aligned active highest
    → get k active ≡ some l
    → (t : ℕ) × (get k highest ≡ some t) × IsEntry k l t
unfolding get
Aligned-get k [] highest l h e = absurd (cc)
Aligned-get k ((i, m) ∷ active) [] l h e = absurd h
Aligned-get k ((i, m) ∷ active) ((j, t) ∷ highest) l h e = elim (Bool-cases (i == k)) [
  | inl hit ↦
      let at_k = (eq_iff i k).0 hit in
      let j_k : (j == k) ≡ true = (eq_iff j k).1 (h.0 ∙ at_k) in
      (
        t,
        rw j_k,
        subst (λ x. IsEntry k x t) (some_inj (rw hit at e)) (subst (λ x. IsEntry x m t) at_k h.1),
      )
  | inr miss ↦
      let j_k : (j == k) ≡ false = rw h.0 miss in
      rw j_k (Aligned-get k active highest l h.2 (rw miss at e))
]

Aligned-put :
    (k : String) (l : Lease) (t : ℕ) (active : Dict Lease) (highest : Dict ℕ)
    → IsEntry k l t
    → Aligned active highest
    → Aligned (put k l active) (put k t highest)
unfolding put get
Aligned-put k l t [] [] h al = (refl, h, tt, refl)
Aligned-put k l t [] (x ∷ highest) h al = absurd al
Aligned-put k l t (x ∷ active) [] h al = absurd al
Aligned-put k l t ((i, m) ∷ active) ((j, u) ∷ highest) h al = elim (Bool-cases (i == k)) [
  | inl hit ↦
      let j_k : (j == k) ≡ true = rw al.0 hit in
      rw (hit, j_k) (al.0, rw ((eq_iff i k).0 hit) h, al.2, al.3)
  | inr miss ↦
      let j_k : (j == k) ≡ false = rw al.0 miss in
      rw (miss, j_k)
        (
          al.0,
          al.1,
          Aligned-put k l t active highest h al.2,
          get-put k i l active ∙ ground (arith, eq_iff k i, eq_iff i k, al.3),
        )
]

-- A new lease for a resource: its token is above every earlier one, and used nonces stay used.
pub record Issues (a : Authority) (l : Lease) (a' : Authority) : Type 0 where
  pub active : a'.active ≡ put l.resource_id l a.active
  pub highest_tokens : a'.highest_tokens ≡ put l.resource_id l.fencing_token a.highest_tokens
  pub fresh : get_or (get l.resource_id a.highest_tokens) 0 < l.fencing_token
  pub kept : (n : Nonce) → nonce_used n a.used_nonces ≡ true → nonce_used n a'.used_nonces ≡ true

-- A step between two states: nothing, or the issue of one lease.
pub data Evolves (a : Authority) (a' : Authority) : Type 0 where
  stays : a' ≡ a → Evolves a a'
  issues : (l : Lease) → Issues a l a' → Evolves a a'

-- Entering a fresh and well-formed lease is an issue, and keeps a sound state sound.
enter-IsSound :
    (a : Authority) (l : Lease) (used : List Nonce)
    → IsSound a
    → IsEntry l.resource_id l l.fencing_token
    → get_or (get l.resource_id a.highest_tokens) 0 < l.fencing_token
    → Distinct used
    → ((n : Nonce) → nonce_used n a.used_nonces ≡ true → nonce_used n used ≡ true)
    → let a' : Authority = record (enter l a) { used_nonces = used } in Issues a l a' × IsSound a'
unfolding enter
enter-IsSound a l used v entry fresh d kept = (
  record { active = refl; highest_tokens = refl; fresh = fresh; kept = kept },
  record {
    aligned = Aligned-put l.resource_id l l.fencing_token a.active a.highest_tokens entry v.aligned;
    distinct = d;
  },
)

-- A body that succeeds issues its result, and keeps a sound state sound.
abbrev pub Good : Authority → Result (Lease × Authority) → Type 0
Good a (ok (l, a')) = Issues a l a' × IsSound a'
Good a (err e) = Unit {0}

max_token_lt : (a b : ℕ) → a < max_token a b + 1
unfolding max_token
max_token_lt a b = ground arith

nonce_used-cons :
    (m : Nonce) (used : List Nonce) (n : Nonce)
    → nonce_used n used ≡ true
    → nonce_used n (m ∷ used) ≡ true
unfolding nonce_used
nonce_used-cons m used n h = ground arith

module _ (a : Authority) (now ttl : Time) (v : IsSound a) (lasts : before epoch ttl ≡ true) where
  fresh-IsEntry :
      (r c : String) (t : ℕ)
      → is_named r ≡ true
      → is_named c ≡ true
      → 0 < t
      → IsEntry r (new_lease r c t now ttl) t
  unfolding new_lease
  fresh-IsEntry r c t named controlled positive = record {
    here = refl;
    named = named;
    controlled = controlled;
    positive = positive;
    covered = omega arith;
    lasting = before-add now ttl lasts;
  }

  pub acquire_body-Good :
      (r c : String) → is_named r ≡ true → is_named c ≡ true → Good a (acquire_body r c now ttl a)
  unfolding acquire_body
  acquire_body-Good r c named controlled = elim (Bool-cases (is_held (get r a.active) now)) [
    | inl held ↦ rw held tt
    | inr idle ↦
        let t : ℕ = get_or (get r a.highest_tokens) 0 + 1 in
        rw idle (
          enter-IsSound a (new_lease r c t now ttl) a.used_nonces v
            (fresh-IsEntry r c t named controlled (omega arith)) (omega arith) v.distinct
            (λ n u. u))
  ]

  pub handoff_body-Good :
      (l : Lease) (c : String) → is_named c ≡ true → Good a (handoff_body l c now ttl a)
  unfolding handoff_body
  handoff_body-Good l c controlled = elim (Option-cases (get l.resource_id a.active)) [
    | inl e ↦ rw e tt
    | inr (m, e) ↦
        let (h, at_h, entry) = Aligned-get l.resource_id a.active a.highest_tokens m v.aligned e in
        let t : ℕ = get_or (get l.resource_id a.highest_tokens) l.fencing_token + 1 in
        let fresh : get_or (get l.resource_id a.highest_tokens) 0 < t = rw at_h (omega arith) in
        let good =
          enter-IsSound a (new_lease l.resource_id c t now ttl) a.used_nonces v
            (fresh-IsEntry l.resource_id c t entry.named controlled (omega arith)) fresh v.distinct
            (λ n u. u) in
        elim (Bool-cases (is_current (get l.resource_id a.active) l)) [
          | inr other ↦ rw other tt
          | inl current ↦ elim (Bool-cases (before now l.expires_at)) [
            | inr late ↦ rw (current, late) tt
            | inl early ↦ rw (current, early) good
          ]
        ]
  ]

  pub reauthorize_body-Good :
      (g : Grant)
      → is_named g.resource_id ≡ true
      → is_named g.controller_id ≡ true
      → is_named g.issuer_id ≡ true
      → is_named g.nonce ≡ true
      → Good a (reauthorize_body g now ttl a)
  unfolding reauthorize_body
  reauthorize_body-Good g named controlled issued nonced =
      elim (Bool-cases (nonce_used (g.issuer_id, g.nonce) a.used_nonces)) [
        | inl used ↦ rw used tt
        | inr unused ↦
            let h : ℕ = get_or (get g.resource_id a.highest_tokens) 0 in
            let t : ℕ = max_token h g.previous_fencing_token + 1 in
            let fresh : h < t = max_token_lt h g.previous_fencing_token in
            let good =
              enter-IsSound a (new_lease g.resource_id g.controller_id t now ttl)
                ((g.issuer_id, g.nonce) ∷ a.used_nonces) v
                (fresh-IsEntry g.resource_id g.controller_id t named controlled (omega arith)) fresh
                (issued, nonced, unused, v.distinct)
                (nonce_used-cons (g.issuer_id, g.nonce) a.used_nonces) in
            elim (Bool-cases (ltb g.previous_fencing_token h)) [
              | inl stale ↦ rw (unused, stale) tt
              | inr current ↦ rw (unused, current) good
            ]
      ]
