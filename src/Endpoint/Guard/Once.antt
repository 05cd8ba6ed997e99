-- ===== src/Endpoint/Guard/Once.antt =====
-- Two requests to the guard of device_fabric/endpoint_ledger_guarded_transport.py.
use audio_bodyguard_alpha.Prelude.{
  ◌≡◌, ◌≢◌, refl, ap, ◌∙◌, inl, inr, String, true, Option, Result, ok, err, Bool-cases,
  Result-cases, ok_inj, subst,
}
use audio_bodyguard_alpha.Prelude.Time.{Time}
use audio_bodyguard_alpha.Lease.Store.{Write}
use audio_bodyguard_alpha.Endpoint.Ledger.{
  Context, Ledger, claim_execution, close_if_unstarted, claimed_state, not_applied_state,
}
use audio_bodyguard_alpha.Endpoint.Ledger.Decided.{Reach, decide-once}
use audio_bodyguard_alpha.Endpoint.Guard.{
  Intent, bound_request, Guarded, prepare, claim_request, execute_intent, close_request,
}

claim_request-claimed :
    (p : Result (Intent × Context)) (w : Write) (l : Ledger) (q : Intent)
    → (claim_request p w l).0 ≡ ok q
    → (c : Context) × ((claim_execution q.transaction_id c w l).0 ≡ ok true)
      × ((claim_request p w l).1 ≡ (claim_execution q.transaction_id c w l).1)
unfolding claim_request
claim_request-claimed (err e) w l q h = cc
claim_request-claimed (ok (request, c)) w l q h =
    elim (Result-cases (claim_execution request.transaction_id c w l).0) [
      | inr (e, bad) ↦ cc (rw bad at h)
      | inl (granted, fine) ↦ elim (Bool-cases granted) [
        | inr no_claim ↦ cc (rw (fine, no_claim) at h)
        | inl claim ↦
            let same : request ≡ q = ok_inj (rw (fine, claim) at h) in
            subst
              (λ x.
                (k : Context) × ((claim_execution x.transaction_id k w l).0 ≡ ok true)
                × ((claim_execution request.transaction_id c w l).1
                    ≡ (claim_execution x.transaction_id k w l).1))
              same (c, fine ∙ ap ok claim, refl)
      ]
    ]

states_differ : claimed_state ≢ not_applied_state
states_differ e = cc

module _ {E : Type 0} (g : Guarded E) where
  -- Once a request has gone to the transport, no request of the same transaction goes to it again, whatever the
  -- ledger decides and whoever opens it in between.
  pub execute_intent-once :
      (i i' q q' : Intent) (t t' d d' : Option String) (v v' : Option E × Option E × Option E)
      (now now' : Time) (w w' : Write) (l m : Ledger)
      → (execute_intent g i t d v now w l).0 ≡ ok q
      → Reach (execute_intent g i t d v now w l).1 m
      → (execute_intent g i' t' d' v' now' w' m).0 ≡ ok q'
      → q'.transaction_id ≢ q.transaction_id
  unfolding execute_intent claim_execution
  execute_intent-once i i' q q' t t' d d' v v' now now' w w' l m first reach second same =
      let a = claim_request-claimed (prepare g l.device_id i t d v now) w l q first in
      let b = claim_request-claimed (prepare g m.device_id i' t' d' v' now') w' m q' second in
      let again : (claim_execution q.transaction_id b.0 w' m).0 ≡ ok true =
        subst (λ x. (claim_execution x b.0 w' m).0 ≡ ok true) same b.1 in
      let both =
        decide-once q.transaction_id claimed_state claimed_state a.0 b.0 w w' l m a.1
          (subst (λ x. Reach x m) a.2 reach) again in
      states_differ both.0

  -- Once a transaction has been closed as not started, no request of it goes to the transport.
  pub execute_intent-closed :
      (i i' q : Intent) (t d : Option String) (v : Option E × Option E × Option E) (now : Time)
      (w w' : Write) (l m : Ledger)
      → (close_request g i w l).0 ≡ ok true
      → Reach (close_request g i w l).1 m
      → (execute_intent g i' t d v now w' m).0 ≡ ok q
      → q.transaction_id ≢ i.transaction_id
  unfolding execute_intent close_request claim_execution close_if_unstarted
  execute_intent-closed i i' q t d v now w w' l m first reach second same =
      elim (Result-cases
        (bound_request g.hash l.device_id g.transport_device g.authority_epoch i)) [
          | inr (e, bad) ↦ cc (rw (bad, close_request) at first)
          | inl (c, fine) ↦
              let b = claim_request-claimed (prepare g m.device_id i' t d v now) w' m q second in
              let again : (claim_execution i.transaction_id b.0 w' m).0 ≡ ok true =
                subst (λ x. (claim_execution x b.0 w' m).0 ≡ ok true) same b.1 in
              let both =
                decide-once i.transaction_id not_applied_state claimed_state c b.0 w w' l m
                  (rw (fine, close_request) at first) (rw (fine, close_request) at reach) again in
              states_differ both.1
        ]
