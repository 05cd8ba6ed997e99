-- ===== src/Lease/Store/Replay.antt =====
-- The nonces of control/controller_reauthorization.py, over later calls.
use audio_bodyguard_alpha.Prelude.{
  ℕ, ◌≡◌, ◌≢◌, refl, ap, inl, inr, true, false, eq_refl, List, ◌∷◌, ok, ok_inj, ltb, get_or,
  Bool-cases, arith,
}
use audio_bodyguard_alpha.Prelude.Time.{Time}
use audio_bodyguard_alpha.Prelude.Dict.{Dict, get}
use audio_bodyguard_alpha.Json.{Number}
use audio_bodyguard_alpha.Lease.{
  Lease, Authority, Grant, Nonce, Verifier, nonce_used, reauthorize_body,
}
use audio_bodyguard_alpha.Lease.Invariant.{Evolves, stays, issues}
use audio_bodyguard_alpha.Lease.Store.{Store, Write, reauthorize}
use audio_bodyguard_alpha.Lease.Store.Returned.{reauthorize-next, reauthorize-ok}
use audio_bodyguard_alpha.Lease.Store.Calls.{Opens, Reach, here, next, IsMade, Step-Evolves}

abbrev nonce_of : Grant → Nonce
nonce_of g = (g.issuer_id, g.nonce)

reauthorize_body-replay :
    (g : Grant) (t d : Time) (a a' : Authority) (l : Lease)
    → reauthorize_body g t d a ≡ ok (l, a')
    → nonce_used (nonce_of g) a.used_nonces ≡ false
unfolding reauthorize_body
reauthorize_body-replay g t d a a' l h = ground arith

nonce_used-head : (n : Nonce) (used : List Nonce) → nonce_used n (n ∷ used) ≡ true
unfolding nonce_used
nonce_used-head n used = rw (eq_refl n.0, eq_refl n.1) refl

reauthorize_body-uses :
    (g : Grant) (t d : Time) (a a' : Authority) (l : Lease)
    → reauthorize_body g t d a ≡ ok (l, a')
    → nonce_used (nonce_of g) a'.used_nonces ≡ true
unfolding reauthorize_body
reauthorize_body-uses g t d a a' l h =
    let h_used : ℕ = get_or (get g.resource_id a.highest_tokens) 0 in
    elim (Bool-cases (nonce_used (nonce_of g) a.used_nonces)) [
      | inl used ↦ absurd (cc (rw used at h))
      | inr unused ↦ elim (Bool-cases (ltb g.previous_fencing_token h_used)) [
        | inl stale ↦ absurd (cc (rw (unused, stale) at h))
        | inr current ↦
            let e = ok_inj (rw (unused, current) at h) in
            rw (← ap (λ (x : Lease × Authority). x.1.used_nonces) e)
              (nonce_used-head (nonce_of g) a.used_nonces)
      ]
    ]

Evolves-nonce_used :
    (n : Nonce) (a a' : Authority)
    → Evolves a a'
    → nonce_used n a.used_nonces ≡ true
    → nonce_used n a'.used_nonces ≡ true
Evolves-nonce_used n a a' (stays e) h = rw e h
Evolves-nonce_used n a a' (issues l i) h = i.kept n h

Reach-nonce_used :
    (verifiers : Dict Verifier) (n : Nonce) (s t : Store) (a : Authority)
    → Reach verifiers s t
    → Opens s a
    → nonce_used n a.used_nonces ≡ true
    → (b : Authority) × Opens t b × (nonce_used n b.used_nonces ≡ true)
Reach-nonce_used verifiers n s t a here o h = (a, o, h)
Reach-nonce_used verifiers n s t a (next {t = u} r st) o h =
    let (b, ob, hb) = Reach-nonce_used verifiers n s u a r o h in
    let (c, oc, ev) = Step-Evolves verifiers u t b st ob in (c, oc, Evolves-nonce_used n b c ev hb)

-- From a sound state, once `reauthorize` has returned a lease for a grant, no grant with the same
-- issuer and nonce is accepted again: after any further calls, whatever the failures of their saves,
-- it raises.
pub reauthorize-replay :
    (verifiers : Dict Verifier) (s : Store) (a : Authority) (g again : Grant) (now ttl : Number)
    → (w : Write) (l : Lease) (s' t : Store) (later ttl' : Number) (w' : Write) (m : Lease)
    → Opens s a
    → IsMade g
    → again.issuer_id ≡ g.issuer_id
    → again.nonce ≡ g.nonce
    → reauthorize verifiers g now ttl w s ≡ (ok l, s')
    → Reach verifiers s' t
    → (reauthorize verifiers again later ttl' w' t).0 ≢ ok m
reauthorize-replay verifiers s a g again now ttl w l s' t later ttl' w' m o made i n e r accepted =
    let (_, a', body, opens) =
      reauthorize-next verifiers a w s o g now ttl l made (ap (λ x. x.0) e) in
    let opened : Opens s' a' = rw (← ap (λ x. x.1) e) opens in
    let (b, ob, used) =
      Reach-nonce_used verifiers (nonce_of g) s' t a' r opened
        (reauthorize_body-uses g _ _ a a' l body) in
    let (ts, b', refused) = reauthorize-ok verifiers b w' t ob.opened again later ttl' m accepted in
    let unused = reauthorize_body-replay again ts.0 ts.1 b b' m refused in cc (used, unused, i, n)
