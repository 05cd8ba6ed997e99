-- ===== src/Endpoint/Barrier/Holds.antt =====
-- Histories of device_fabric/endpoint_handoff_barrier.py, and the holds in them.
use audio_bodyguard_alpha.Prelude.{
  ◌≡◌, ◌≢◌, refl, sym, ap, inl, inr, String, Bool, true, ◌==◌, eq_refl, some, Result, ok, arith,
  Bool-cases, Result-cases, ok_inj, subst,
}
use audio_bodyguard_alpha.Prelude.Dict.{get, put, get-put}
use audio_bodyguard_alpha.Json.{Number}
use audio_bodyguard_alpha.Lease.Store.{Write, written, not_replaced, not_synced}
use audio_bodyguard_alpha.Fence.Codec.{Records}
use audio_bodyguard_alpha.Fence.Store.{Files, snapshot}
use audio_bodyguard_alpha.Endpoint.{
  identifier, Journal, absent, broken, tables, in_transaction, end_transaction, commit_tables,
  in_transaction-true,
}
use audio_bodyguard_alpha.Endpoint.Installer.{Directive, validate}
use audio_bodyguard_alpha.Endpoint.Barrier.{
  Binding, Hold, Handoff, Tables, Barrier, Endpoint, identified, transact, admit_current, admit_new,
  admit_known, admit_body, check_admission, admit, refuses_hold, hold_body, record_body, make_hold,
  make_handoff, begin_install, end_install, is_ready, ready_body, ready_handoff,
}

-- The resource has a hold, in a journal that has tables.
pub IsHeld : String → Journal Tables → Type 0
IsHeld r (tables x) = (h : Hold) × (get r x.holds ≡ some h)
IsHeld r j = ⊥

-- A body of a transaction keeps every hold.
abbrev pub Keeps : (Tables → Result (Bool × Tables)) → Type 0
Keeps body =
    (r : String) (x : Tables) (a : Bool) (y : Tables)
    → body x ≡ ok (a, y)
    → IsHeld r (tables x)
    → IsHeld r (tables y)

same_holds :
    (x y : Tables) (r : String) → y.holds ≡ x.holds → IsHeld r (tables x) → IsHeld r (tables y)
unfolding IsHeld
same_holds x y r e h = (h.0, rw e h.1)

admit_body-Keeps :
    (t : String) (binding : Binding) (fences : Result Records) → Keeps (admit_body t binding fences)
unfolding admit_body admit_known admit_new admit_current
admit_body-Keeps t binding fences r x a y h = same_holds x y r (ground arith)

pub record_body-Keeps :
    (d : Directive) (hold : Hold) (handoff : Handoff) → Keeps (record_body d hold handoff)
unfolding record_body
record_body-Keeps d hold handoff r x a y h = same_holds x y r (ground arith)

ready_body-Keeps : (q : String) (fences : Result Records) → Keeps (ready_body q fences)
unfolding ready_body ready_handoff
ready_body-Keeps q fences r x a y h = same_holds x y r (ground arith)

hold_body-Keeps : (valid : Bool) (d : Directive) (hold : Hold) → Keeps (hold_body valid d hold)
unfolding hold_body IsHeld
hold_body-Keeps valid d hold r x a y h (kept, found) = elim (Bool-cases (refuses_hold valid d x)) [
  | inl refused ↦
      let same : y ≡ x = sym (ap (λ p. p.1) (ok_inj (rw refused at h))) in rw same (kept, found)
  | inr free ↦
      let same : y ≡ record x { holds = put d.resource_id hold x.holds } =
        sym (ap (λ p. p.1) (ok_inj (rw free at h))) in
      rw same (elim (Bool-cases (d.resource_id == r)) [
        | inl mine ↦ (hold, rw (get-put d.resource_id r hold x.holds, mine) refl)
        | inr other ↦ (kept, rw (get-put d.resource_id r hold x.holds, other) found)
      ])
]

commit_tables-IsHeld :
    (r : String) (a : Bool) (x y : Tables) (w : Write)
    → IsHeld r (tables x)
    → IsHeld r (tables y)
    → IsHeld r (commit_tables a y w x).1
unfolding commit_tables
commit_tables-IsHeld r a x y written h k = k
commit_tables-IsHeld r a x y not_replaced h k = h
commit_tables-IsHeld r a x y not_synced h k = k

in_transaction-IsHeld :
    (r : String) (ident : Tables → Bool) (body : Tables → Result (Bool × Tables)) (w : Write)
    (j : Journal Tables)
    → Keeps body
    → IsHeld r j
    → IsHeld r (in_transaction ident body w j).1
unfolding in_transaction end_transaction
in_transaction-IsHeld r ident body w absent keeps h = h
in_transaction-IsHeld r ident body w broken keeps h = h
in_transaction-IsHeld r ident body w (tables x) keeps h = elim (Bool-cases (ident x)) [
  | inr other ↦ rw other h
  | inl mine ↦ elim (Result-cases (body x)) [
    | inr (e, bad) ↦ rw (mine, bad) h
    | inl ((a, y), fine) ↦ rw (mine, fine) (commit_tables-IsHeld r a x y w h (keeps r x a y fine h))
  ]
]

admit_body-held :
    (t : String) (binding : Binding) (fences : Result Records) (x y : Tables)
    → IsHeld binding.resource_id (tables x)
    → admit_body t binding fences x ≢ ok (true, y)
unfolding admit_body admit_known admit_new IsHeld
admit_body-held t binding fences x y (kept, found) h = ground (arith, found)

hold_body-IsHeld :
    (valid : Bool) (d : Directive) (hold : Hold) (x y : Tables)
    → hold_body valid d hold x ≡ ok (true, y)
    → IsHeld d.resource_id (tables y)
unfolding hold_body IsHeld
hold_body-IsHeld valid d hold x y h = elim (Bool-cases (refuses_hold valid d x)) [
  | inl refused ↦ cc (rw refused at h)
  | inr free ↦
      let same : y ≡ record x { holds = put d.resource_id hold x.holds } =
        sym (ap (λ p. p.1) (ok_inj (rw free at h))) in
      rw same
        (hold, rw (get-put d.resource_id d.resource_id hold x.holds, eq_refl d.resource_id) refl)
]

module _ {S : Type 0} (b : Barrier S) where
  pub transact-IsHeld :
      (r : String) (body : Tables → Result (Bool × Tables)) (w : Write) (e : Endpoint S)
      → Keeps body
      → IsHeld r e.journal
      → IsHeld r (transact b body w e).1.journal
  unfolding transact
  transact-IsHeld r body w e keeps h =
      in_transaction-IsHeld r (identified b) body w e.journal keeps h

  admit-IsHeld :
      (r t : String) (binding : Binding) (w : Write) (e : Endpoint S)
      → IsHeld r e.journal
      → IsHeld r (admit b t binding w e).1.journal
  unfolding admit
  admit-IsHeld r t binding w e h = elim (Result-cases (check_admission t binding)) [
    | inr (x, bad) ↦ rw (bad, admit) h
    | inl (u, fine) ↦
        rw (fine, admit)
          (transact-IsHeld r (admit_body t binding (snapshot b.anchor e.fences)) w e
            (admit_body-Keeps t binding (snapshot b.anchor e.fences)) h)
  ]

  is_ready-IsHeld :
      (r q : String) (w : Write) (e : Endpoint S)
      → IsHeld r e.journal
      → IsHeld r (is_ready b q w e).1.journal
  unfolding is_ready
  is_ready-IsHeld r q w e h = elim (Result-cases (identifier q)) [
    | inr (x, bad) ↦ rw (bad, is_ready) h
    | inl (u, fine) ↦
        rw (fine, is_ready)
          (transact-IsHeld r (ready_body q (snapshot b.anchor e.fences)) w e
            (ready_body-Keeps q (snapshot b.anchor e.fences)) h)
  ]

  -- Calls of the barrier, with the steps of installs apart, and changes of the fence store.
  pub data Reach (e : Endpoint S) : Endpoint S → Type 0 where
    here : Reach e e
    admits :
        {f g : Endpoint S} (t : String) (binding : Binding) (w : Write)
        → Reach e f
        → g ≡ (admit b t binding w f).1
        → Reach e g
    begins :
        {f g : Endpoint S} (d : Directive) (now : Number) (w : Write)
        → Reach e f
        → g ≡ (begin_install b d now w f).1
        → Reach e g
    ends :
        {f g : Endpoint S} (d : Directive) (w : Write)
        → Reach e f
        → g ≡ (end_install b d w f).1
        → Reach e g
    readies :
        {f g : Endpoint S} (q : String) (w : Write)
        → Reach e f
        → g ≡ (is_ready b q w f).1
        → Reach e g
    moves :
        {f g : Endpoint S} (fences : Files S)
        → Reach e f
        → g ≡ record f { fences = fences }
        → Reach e g

  Reach-IsHeld :
      (r : String) (e f : Endpoint S) → Reach e f → IsHeld r e.journal → IsHeld r f.journal
  unfolding begin_install end_install
  Reach-IsHeld r e f here h = h
  Reach-IsHeld r e f (admits {f = m} t binding w before x) h =
      rw x (admit-IsHeld r t binding w m (Reach-IsHeld r e m before h))
  Reach-IsHeld r e f (begins {f = m} d now w before x) h =
      let valid = validate b.device_id b.trusted_verifiers b.anchor d now m.fences in
      rw x (
        transact-IsHeld r (hold_body valid d (make_hold b d)) w m
          (hold_body-Keeps valid d (make_hold b d)) (Reach-IsHeld r e m before h))
  Reach-IsHeld r e f (ends {f = m} d w before x) h = rw x (
      transact-IsHeld r (record_body d (make_hold b d) (make_handoff b d)) w m
        (record_body-Keeps d (make_hold b d) (make_handoff b d)) (Reach-IsHeld r e m before h))
  Reach-IsHeld r e f (readies {f = m} q w before x) h =
      rw x (is_ready-IsHeld r q w m (Reach-IsHeld r e m before h))
  Reach-IsHeld r e f (moves {f = m} fences before x) h = rw x (Reach-IsHeld r e m before h)

  -- While the resource has a hold, nothing is admitted to it.
  held-refuses :
      (t : String) (binding : Binding) (w : Write) (e : Endpoint S)
      → IsHeld binding.resource_id e.journal
      → (admit b t binding w e).0 ≢ ok true
  unfolding admit transact
  held-refuses t binding w e held h = elim (Result-cases (check_admission t binding)) [
    | inr (x, bad) ↦ cc (rw (bad, admit) at h)
    | inl (u, fine) ↦
        let run =
          in_transaction-true (identified b) (admit_body t binding (snapshot b.anchor e.fences)) w
            e.journal (rw (fine, admit) at h) in
        admit_body-held t binding (snapshot b.anchor e.fences) run.0 run.1
          (subst (λ j. IsHeld binding.resource_id j) run.2 held) run.3
  ]

  pub begin_install-IsHeld :
      (d : Directive) (now : Number) (w : Write) (e : Endpoint S)
      → (begin_install b d now w e).0 ≡ ok true
      → IsHeld d.resource_id (begin_install b d now w e).1.journal
  unfolding begin_install transact
  begin_install-IsHeld d now w e h =
      let valid = validate b.device_id b.trusted_verifiers b.anchor d now e.fences in
      let run =
        in_transaction-true (identified b) (hold_body valid d (make_hold b d)) w e.journal h in
      subst (λ j. IsHeld d.resource_id j) (sym run.4)
        (hold_body-IsHeld valid d (make_hold b d) run.0 run.1 run.3)

  -- Once the hold of a handoff is made, whatever becomes of that handoff and whatever is called after, nothing is
  -- admitted to its resource.
  pub begin_install-refuses :
      (d : Directive) (now : Number) (t : String) (binding : Binding) (w w' : Write)
      (e f : Endpoint S)
      → (begin_install b d now w e).0 ≡ ok true
      → Reach (begin_install b d now w e).1 f
      → binding.resource_id ≡ d.resource_id
      → (admit b t binding w' f).0 ≢ ok true
  begin_install-refuses d now t binding w w' e f h reach same = held-refuses t binding w' f (
      rw same (
        Reach-IsHeld d.resource_id (begin_install b d now w e).1 f reach
          (begin_install-IsHeld d now w e h)))
