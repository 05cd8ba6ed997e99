-- ===== src/RemoteAuthority/Kept/Again.antt =====
-- What a client of control/remote_atomic_controller_authority.py is told who asks again under a request
-- id that was answered.
use audio_bodyguard_alpha.Prelude.{
  ◌≡◌, refl, sym, ap, ◌∙◌, subst, inl, inr, String, true, eq_iff, eq_refl, some, if◌then◌else◌,
  Result, Result-cases, ok, err, ok_inj, arith, Bool-cases, Option-cases, value_error,
}
use audio_bodyguard_alpha.Prelude.Time.{same_time_iff}
use audio_bodyguard_alpha.Prelude.Text.{is_named}
use audio_bodyguard_alpha.Prelude.Dict.{Dict, get, put, get-put}
use audio_bodyguard_alpha.Json.{Number, finite, non_finite}
use audio_bodyguard_alpha.Lease.{Lease}
use audio_bodyguard_alpha.Lease.Store as Leases
use audio_bodyguard_alpha.Lease.Store.{Store, Write}
use audio_bodyguard_alpha.Evidence.{Hash}
use audio_bodyguard_alpha.Evidence.Remote.{AtomicRequest}
use audio_bodyguard_alpha.RemoteAuthority.{
  Fingerprint, acquired, handed, same_number, same_fingerprint, Service, Committed, Remote,
}
use audio_bodyguard_alpha.RemoteAuthority.Calls.{
  open_remote, guarded, commit_remote, replay, restored, lease_new, lease_body, checked, check_id,
  fingerprint_of, acquire, handoff, highest_token,
}
use audio_bodyguard_alpha.RemoteAuthority.Directives.{issue_fence_directive}
use audio_bodyguard_alpha.RemoteAuthority.Signing.{issue_grant, issue_protocol_result}
use audio_bodyguard_alpha.RemoteAuthority.Kept.{Kept, commit-starts, open-Kept, opened-Kept}
use audio_bodyguard_alpha.RemoteAuthority.Kept.Steps.{
  acquire-Keeps, handoff-Keeps, highest_token-Keeps, grants-Keeps, results-Keeps, directives-Keeps,
}

-- A call, of any client, with any outcome of its saves.
pub data Step (v : Service) (hash : Hash) : Remote → Remote → Type 0 where
  acquires :
      (s : Remote) (i r c : String) (now ttl : Number) (w w' : Write)
      → Step v hash s (acquire v i r c now ttl w w' s).1
  hands_off :
      (s : Remote) (i : String) (l : Lease) (c : String) (now ttl : Number) (w w' : Write)
      → Step v hash s (handoff v i l c now ttl w w' s).1
  reads : (s : Remote) (r : String) → Step v hash s (highest_token v r s).1
  grants :
      (s : Remote) (i key_id : String) (now : Number) (w : Write)
      → Step v hash s (issue_grant v i key_id now w s).1
  answers :
      (s : Remote) (q : AtomicRequest) (w : Write)
      → Step v hash s (issue_protocol_result v hash q w s).1
  directs :
      (s : Remote) (i device_id : String) (now : Number) (w : Write)
      → Step v hash s (issue_fence_directive v i device_id now w s).1

pub data Reach (v : Service) (hash : Hash) : Remote → Remote → Type 0 where
  here : (s : Remote) → Reach v hash s s
  next : (s t u : Remote) → Step v hash s t → Reach v hash t u → Reach v hash s u

-- The two requests for a lease.
pub data Ask : Type 0 where
  acquiring : String → String → Number → Number → Ask
  handing : Lease → String → Number → Number → Ask

unfoldable pub payload : Ask → Fingerprint
unfolding fingerprint_of
payload (acquiring r c now ttl) = acquired r c now ttl
payload (handing l c now ttl) = fingerprint_of l c now ttl

unfoldable pub ask : Service → String → Ask → Write → Write → Remote → Result Lease × Remote
ask v i (acquiring r c now ttl) w w' s = acquire v i r c now ttl w w' s
ask v i (handing l c now ttl) w w' s = handoff v i l c now ttl w w' s

module _ (v : Service) (id : String) (c : Committed) where
  Step-Kept : (hash : Hash) (s t : Remote) → Step v hash s t → Kept v id c s → Kept v id c t
  Step-Kept hash _ _ (acquires s i r n now ttl w w') k =
      (acquire-Keeps v id c i r n now ttl w w' s k).kept
  Step-Kept hash _ _ (hands_off s i l n now ttl w w') k =
      (handoff-Keeps v id c i l n now ttl w w' s k).kept
  Step-Kept hash _ _ (reads s r) k = (highest_token-Keeps v id c r s k).kept
  Step-Kept hash _ _ (grants s i key_id now w) k = (grants-Keeps v id c i key_id now w s k).kept
  Step-Kept hash _ _ (answers s q w) k = (results-Keeps v id c hash q w s k).kept
  Step-Kept hash _ _ (directs s i device_id now w) k =
      (directives-Keeps v id c i device_id now w s k).kept

  Reach-Kept : (hash : Hash) (s t : Remote) → Reach v hash s t → Kept v id c s → Kept v id c t
  Reach-Kept hash _ _ (here s) k = k
  Reach-Kept hash _ _ (next s t u step rest) k =
      Reach-Kept hash t u rest (Step-Kept hash s t step k)

same_number-eq : (a b : Number) → same_number a b ≡ true → a ≡ b
unfolding same_number
same_number-eq (finite a) (finite b) h = ap finite ((same_time_iff a b).0 h)
same_number-eq (finite a) non_finite h = absurd (cc)
same_number-eq non_finite b h = absurd (cc)

same_fingerprint-eq : (p q : Fingerprint) → same_fingerprint p q ≡ true → p ≡ q
unfolding same_fingerprint
same_fingerprint-eq (acquired r c now ttl) (acquired r' c' now' ttl') h =
    ground (arith, eq_iff r r', eq_iff c c', same_number-eq now now', same_number-eq ttl ttl')
same_fingerprint-eq (handed r c t i e n now ttl) (handed r' c' t' i' e' n' now' ttl') h = ground (
  arith,
  eq_iff r r',
  eq_iff c c',
  eq_iff n n',
  same_time_iff i i',
  same_time_iff e e',
  same_number-eq now now',
  same_number-eq ttl ttl',
)
same_fingerprint-eq (acquired r c now ttl) (handed r' c' t' i' e' n' now' ttl') h = absurd (cc)
same_fingerprint-eq (handed r c t i e n now ttl) (acquired r' c' now' ttl') h = absurd (cc)

call_of : Ask → Write → Store → Result Lease × Store
call_of (acquiring r c now ttl) w = Leases.acquire r c now ttl w
call_of (handing l c now ttl) w = Leases.handoff l c now ttl w

asked : Service → String → Ask → Write → Write → Remote → Result Lease × Remote
asked v id q w w' = checked (check_id id) (guarded v (lease_body v id (payload q) (call_of q w) w'))

ask-asked :
    (v : Service) (id : String) (q : Ask) (w w' : Write) (s : Remote)
    → ask v id q w w' s ≡ asked v id q w w' s
unfolding ask payload call_of asked acquire handoff
ask-asked v id (acquiring r c now ttl) w w' s = refl
ask-asked v id (handing l c now ttl) w w' s = refl

get-put-same {ℓ} : {V : Type ℓ} (k : String) (x : V) (d : Dict V) → get k (put k x d) ≡ some x
get-put-same k x d = rw (get-put k k x d) (rw eq_refl refl)

module _ (v : Service) (id : String) where
  replay-same : (r : Committed) (p : Fingerprint) (l : Lease) → replay r p ≡ ok l → r ≡ (p, l)
  unfolding replay
  replay-same (p', l') p l h = elim (Bool-cases (same_fingerprint p' p)) [
    | inl same ↦
        let p'≡p = same_fingerprint-eq p' p same in
        let l'≡l = ok_inj (rw same at h) in ground (arith, p'≡p, l'≡l)
    | inr other ↦ absurd (cc (rw other at h))
  ]

  -- A request that returned a lease has committed it.
  lease_body-starts :
      (p : Fingerprint) (call : Store → Result Lease × Store) (w : Write) (s m : Remote) (l : Lease)
      → open_remote v s ≡ ok m
      → (lease_body v id p call w m).0 ≡ ok l
      → Kept v id (p, l) (lease_body v id p call w m).1
  unfolding lease_body lease_new
  lease_body-starts p call w s m l o h = elim (Option-cases (get id m.committed)) [
    | inr (r, known) ↦
        let same = replay-same r p l (rw (known, lease_body) at h) in
        rw (known, lease_body) (open-Kept v id (p, l) s m o (known ∙ ap some same))
    | inl fresh ↦ elim (Result-cases (call m.authority).0) [
      | inr (e, bad) ↦ absurd (cc (rw (fresh, bad, lease_body, lease_new) at h))
      | inl (lease, fine) ↦
          let a = (call m.authority).1 in
          let new : Remote = record m {
            authority = a;
            committed = put id (p, lease) m.committed;
          } in
          let old : Remote = record m { authority = restored m.authority a } in
          let starts =
            commit-starts v id (p, lease) lease l new old w
              (rw (fresh, fine, lease_body, lease_new) at h)
              (get-put-same id (p, lease) m.committed) in
          rw (fresh, fine, lease_body, lease_new)
            (subst (λ x. Kept v id (p, x) (commit_remote v lease new old w).1) starts.0 starts.1)
    ]
  ]

  asked-starts :
      (q : Ask) (w w' : Write) (s : Remote) (l : Lease)
      → (asked v id q w w' s).0 ≡ ok l
      → (is_named id ≡ true) × Kept v id (payload q, l) (asked v id q w w' s).1
  unfolding asked checked check_id guarded
  asked-starts q w w' s l h = elim (Bool-cases (is_named id)) [
    | inr unnamed ↦ absurd (cc (rw (unnamed, asked) at h))
    | inl named ↦ elim (Result-cases (open_remote v s)) [
      | inr (e, bad) ↦ absurd (cc (rw (named, bad, asked, checked, guarded) at h))
      | inl (m, o) ↦
          let done = rw (named, o, asked, checked, guarded) at h in
          (
            named,
            rw (named, o, asked, checked, guarded)
                (lease_body-starts (payload q) (call_of q w) w' s m l o done),
          )
    ]
  ]

  asked-again :
      (q : Ask) (p : Fingerprint) (l : Lease) (w w' : Write) (s m : Remote)
      → is_named id ≡ true
      → Kept v id (p, l) s
      → open_remote v s ≡ ok m
      → asked v id q w w' s ≡ (replay (p, l) (payload q), m)
  unfolding asked checked check_id guarded lease_body
  asked-again q p l w w' s m named k o =
      rw (named, o, asked, checked, guarded)
        (rw ((opened-Kept v id (p, l) s m k o).in_memory, lease_body) refl)

-- Once a request id was answered with a lease, then after any later calls, whatever becomes of their
-- saves, to ask again under that id changes nothing: the same payload gets that same lease, and any
-- other, of either kind of request, a ValueError, if the state can be opened.
pub ask-again :
    (v : Service) (hash : Hash) (id : String) (q : Ask) (w w' : Write) (s : Remote) (l : Lease)
    → (ask v id q w w' s).0 ≡ ok l
    → (t m : Remote) → Reach v hash (ask v id q w w' s).1 t
    → open_remote v t ≡ ok m
    → (q' : Ask) (u u' : Write)
    → ask v id q' u u' t ≡ (
      if same_fingerprint (payload q) (payload q')
          then ok l
          else err (value_error "request_id already committed with different payload"),
      m,
    )
unfolding replay
ask-again v hash id q w w' s l first t m later o q' u u' =
    let same = ask-asked v id q w w' s in
    let (named, k) = asked-starts v id q w w' s l (ap (λ x. x.0) (sym same) ∙ first) in
    let kept = subst (λ x. Kept v id (payload q, l) x.1) (sym same) k in
    let still = Reach-Kept v id (payload q, l) hash (ask v id q w w' s).1 t later kept in
    ask-asked v id q' u u' t ∙ asked-again v id q' (payload q) l u u' t m named still o
