-- ===== src/Fence/Store/Saved/Installs.antt =====
-- The acceptance of a fence by device_fabric/controller_fence_store.py, with the anchor's part.
use audio_bodyguard_alpha.Prelude.{
  ℕ, ◌≡◌, refl, sym, ap, ◌∙◌, inl, inr, String, Bool, true, false, ◌==◌, eq_iff, Option, none, some,
  is_some, if◌then◌else◌, ok, Bool-cases, Result-cases, some_inj,
}
use audio_bodyguard_alpha.Prelude.Dict.{Dict, get}
use audio_bodyguard_alpha.Lease.Store.{Write}
use audio_bodyguard_alpha.Fence.{Value, Anchor, is_fence, is_advanced, Honest}
use audio_bodyguard_alpha.Fence.Codec.{Entry, Records}
use audio_bodyguard_alpha.Fence.Store.{
  Files, check_trusted, load_state, is_behind, with_advance, after_advance, record_fence,
  accept_loaded, accept, snapshot,
}
use audio_bodyguard_alpha.Fence.Store.Load.{load_state-Loaded, value_of, load_state-trusted}
use audio_bodyguard_alpha.Fence.Store.Saved.{
  entered, get-entered, Trusts-none, Trusts-some, record_fence-snapshot,
}

-- Where there is an anchor, it is honest.
abbrev pub AllHonest : {S : Type 0} → Option (Anchor S) → Type 0
AllHonest none = Unit {0}
AllHonest (some anchor) = Honest anchor

snapshot-of-Loaded :
    {S : Type 0} (anchor : Anchor S) (s : S) (records : Records)
    → check_trusted (some anchor) s records ≡ ok tt
    → (values : Dict Value) × (anchor.snapshot s ≡ ok values)
unfolding check_trusted
snapshot-of-Loaded anchor s records h = elim (Result-cases (anchor.snapshot s)) [
  | inl found ↦ found
  | inr (e, bad) ↦ cc (rw bad at h)
]

value_of-entered :
    (records : Records) (r c : String) (t : ℕ) (k : String) (x y : Option Value) (z : Option Entry)
    → x ≡ (
        if r == k
        then some (record { resource_id = r; controller_id = c; fencing_token = t })
        else y)
    → y ≡ value_of k (get k records)
    → z ≡ (if r == k then some (t, c) else get k records)
    → x ≡ value_of k z
value_of-entered records r c t k x y z hx hy hz = elim (Bool-cases (r == k)) [
  | inr other ↦ rw (hx, hz, other) hy
  | inl same ↦
      rw (hx, hz, same)
        (ap (λ i. some (record { resource_id = i; controller_id = c; fencing_token = t }))
          ((eq_iff r k).0 same))
]

value_of-Keyed :
    (k : String) (x : Option Value) (o : Option Entry) (v : Value)
    → x ≡ value_of k o
    → x ≡ some v
    → v.resource_id ≡ k
value_of-Keyed k x none v h e = cc
value_of-Keyed k x (some (t, c)) v h e =
    let same : some v ≡ some (record { resource_id = k; controller_id = c; fencing_token = t }) =
      sym e ∙ h in
    ap (λ w. w.resource_id) (some_inj same)

-- What is known after an accepted call: the records before it, and those after it.
pub record Installed {S : Type 0} (anchor : Option (Anchor S)) (r c : String) (t : ℕ)
    (f g : Files S) : Type 0 where
  pub before : Records
  pub after : Records
  pub was : snapshot anchor f ≡ ok before
  pub now : snapshot anchor g ≡ ok after
  pub fences : (k : String) → get k after ≡ (if r == k then some (t, c) else get k before)

with_advance-snapshot :
    {S : Type 0} (anchor : Option (Anchor S)) (records : Records) (legacy : Bool) (r c : String)
    (t : ℕ) (w w' : Write) (f : Files S)
    → AllHonest anchor
    → is_fence r c t ≡ true
    → is_behind (get r records) t c ≡ false
    → load_state anchor f ≡ ok (records, legacy)
    → let g =
        with_advance anchor r c t (record_fence (is_some anchor) (records, legacy) r c t w w') f in
      g.0 ≡ ok true → snapshot anchor g.1 ≡ ok (entered records r c t)
unfolding with_advance after_advance
with_advance-snapshot none records legacy r c t w w' f honest fence ahead load accepted =
    record_fence-snapshot none records legacy r c t w w' f f.trusted fence
      (load_state-Loaded none f records legacy load) (Trusts-none f.trusted (entered records r c t))
      accepted
with_advance-snapshot (some anchor) records legacy r c t w w' f honest fence ahead load accepted =
    elim (Result-cases (anchor.advance r c t f.trusted).0) [
      | inr (e, bad) ↦ cc (rw bad at accepted)
      | inl (d, fine) ↦ elim (Bool-cases (is_advanced d)) [
        | inr refused ↦ cc (rw (fine, refused) at accepted)
        | inl granted ↦
            let l = load_state-Loaded (some anchor) f records legacy load in
            let values = snapshot-of-Loaded anchor f.trusted records l.trusts in
            let next =
              honest.advances r c t f.trusted values.0 d values.1
                (λ j v.
                  value_of-Keyed j (get j values.0) (get j records) v
                    (load_state-trusted anchor f values.0 records legacy j load values.1))
                fine granted in
            let trusts =
              Trusts-some anchor (anchor.advance r c t f.trusted).1 (entered records r c t) next.0
                next.1
                (λ k.
                  value_of-entered records r c t k (get k next.0) (get k values.0)
                    (get k (entered records r c t)) (next.2 k)
                    (load_state-trusted anchor f values.0 records legacy k load values.1)
                    (get-entered records r c t k ahead)) in
            rw (fine, granted)
              (record_fence-snapshot (some anchor) records legacy r c t w w' f
                (anchor.advance r c t f.trusted).1 fence l trusts (rw (fine, granted) at accepted))
      ]
    ]

-- A call that accepts a fence found a consistent store, and leaves one whose snapshot has that fence for its
-- resource and the fences of the others as they were, if the anchor, where there is one, is honest.
pub accept-Installed :
    {S : Type 0} (anchor : Option (Anchor S)) (r c : String) (t : ℕ) (w w' : Write) (f : Files S)
    → AllHonest anchor
    → (accept anchor r c t w w' f).0 ≡ ok true
    → Installed anchor r c t f (accept anchor r c t w w' f).1
unfolding accept accept_loaded snapshot
accept-Installed anchor r c t w w' f honest h = elim (Bool-cases (is_fence r c t)) [
  | inr malformed ↦ cc (rw malformed at h)
  | inl fence ↦ elim (Result-cases (load_state anchor f)) [
    | inr (e, bad) ↦ cc (rw (fence, bad) at h)
    | inl ((records, legacy), fine) ↦ elim (Bool-cases (is_behind (get r records) t c)) [
      | inl behind ↦ cc (rw (fence, fine, behind) at h)
      | inr ahead ↦
          rw (fence, fine, ahead)
            (record {
              before = records;
              after = entered records r c t;
              was = rw fine refl;
              now =
                  with_advance-snapshot anchor records legacy r c t w w' f honest fence ahead fine
                    (rw (fence, fine, ahead) at h);
              fences = λ k. get-entered records r c t k ahead;
            })
    ]
  ]
]
