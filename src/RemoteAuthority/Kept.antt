-- ===== src/RemoteAuthority/Kept.antt =====
-- A committed request of control/remote_atomic_controller_authority.py, in memory and in the file, and
-- what each method does to it.
pub mod Steps
pub mod Again
mod Tests
use audio_bodyguard_alpha.Prelude.{
  ℕ, ◌≡◌, refl, sym, ap, ◌∙◌, subst, inl, inr, String, Bool, true, false, ◌==◌, eq_iff, Option,
  none, some, if◌then◌else◌, Result, Result-cases, ok, err, Error, ok_inj, some_inj, arith,
  Bool-cases, Option-cases,
}
use audio_bodyguard_alpha.Prelude.Dict.{Dict, get, put, get-put}
use audio_bodyguard_alpha.Json.{Json, Number}
use audio_bodyguard_alpha.Lease.{Lease}
use audio_bodyguard_alpha.Lease.Store.{
  Store, File, missing, unreadable, holds, Write, written, not_replaced, not_synced, save_file,
  is_written,
}
use audio_bodyguard_alpha.Evidence.{Hash}
use audio_bodyguard_alpha.Evidence.LeaseGrant as Grants
use audio_bodyguard_alpha.Evidence.LeaseGrant.{LeaseGrant}
use audio_bodyguard_alpha.Evidence.Remote.{AtomicRequest}
use audio_bodyguard_alpha.Lease.Store.{validate}
use audio_bodyguard_alpha.RemoteAuthority.{Fingerprint, Key, Service, Committed, Remote}
use audio_bodyguard_alpha.RemoteAuthority.Codec.{write_state}
use audio_bodyguard_alpha.RemoteAuthority.Codec.Signed.{Loaded, read_state}
use audio_bodyguard_alpha.RemoteAuthority.Codec.Written.{committed-written}
use audio_bodyguard_alpha.RemoteAuthority.Calls.{
  put_loaded, load_file, open_remote, guarded, commit_remote, lease_new, lease_body, checked,
}

module _ (v : Service) (id : String) (c : Committed) where
  -- Every load of the file has the request.
  pub FileHas : File → Type 0
  FileHas f =
      v.durable ≡ true
      → (raw : Json) (l : Loaded) → f ≡ holds raw
      → read_state v raw ≡ ok l
      → get id l.committed ≡ some c

  pub record Kept (s : Remote) : Type 0 where
    pub in_memory : get id s.committed ≡ some c
    pub in_file : FileHas s.file

  -- A call leaves the request.
  pub record Keeps {ℓ} {A : Type ℓ} (o : Result A × Remote) : Type 0 where
    pub kept : Kept o.1

  holds_inj : (a b : Json) → holds a ≡ holds b → a ≡ b
  holds_inj a b e = cc

  written-FileHas :
      (s : Remote) (raw : Json)
      → get id s.committed ≡ some c
      → write_state s ≡ ok raw
      → FileHas (holds raw)
  unfolding FileHas
  written-FileHas s raw has w durable raw' l e read =
      ap (get id) (sym (committed-written v s raw' l (w ∙ ap ok (holds_inj raw raw' e)) read)) ∙ has

  load_file-Kept :
      (f : File) (s m : Remote)
      → s.file ≡ f
      → load_file v f s ≡ ok m
      → get id m.committed ≡ some c
      → Kept m
  unfolding load_file put_loaded FileHas
  load_file-Kept missing s m at_f o has = record {
    in_memory = has;
    in_file = λ durable raw l e read. absurd (cc (at_f, ap (λ (x : Remote). x.file) (ok_inj o), e));
  }
  load_file-Kept unreadable s m at_f o has = absurd (cc)
  load_file-Kept (holds raw) s m at_f o has = elim (Result-cases (read_state v raw)) [
    | inr (x, bad) ↦ absurd (cc (rw (bad, load_file) at o))
    | inl (l, fine) ↦
        let loaded = ok_inj (rw (fine, load_file) at o) in
        record {
          in_memory = has;
          in_file = λ durable raw' l' e read.
              let same = holds_inj raw raw' (sym at_f ∙ ap (λ (x : Remote). x.file) loaded ∙ e) in
              let l≡l' = ok_inj (sym fine ∙ ap (read_state v) same ∙ read) in
              ap (λ (x : Loaded). get id x.committed) (sym l≡l')
              ∙ ap (λ (x : Remote). get id x.committed) loaded
              ∙ has;
        }
  ]

  -- What was opened has the request if its memory has it.
  pub open-Kept : (s m : Remote) → open_remote v s ≡ ok m → get id m.committed ≡ some c → Kept m
  unfolding open_remote FileHas
  open-Kept s m o has = elim (Bool-cases v.durable) [
    | inl d ↦ load_file-Kept s.file s m refl (simp d at o) has
    | inr n ↦ record { in_memory = has; in_file = λ d. absurd (cc) }
  ]

  -- A file that has the request in every load gives it to the memory.
  load_file-memory :
      (f : File) (s m : Remote)
      → v.durable ≡ true
      → FileHas f
      → get id s.committed ≡ some c
      → load_file v f s ≡ ok m
      → get id m.committed ≡ some c
  unfolding load_file put_loaded FileHas
  load_file-memory missing s m d k has o =
      ap (λ (x : Remote). get id x.committed) (sym (ok_inj o)) ∙ has
  load_file-memory unreadable s m d k has o = absurd (cc)
  load_file-memory (holds raw) s m d k has o = elim (Result-cases (read_state v raw)) [
    | inr (x, bad) ↦ absurd (cc (rw (bad, load_file) at o))
    | inl (l, fine) ↦
        ap (λ (x : Remote). get id x.committed) (sym (ok_inj (rw (fine, load_file) at o)))
        ∙ k d raw l refl fine
  ]

  pub opened-Kept : (s m : Remote) → Kept s → open_remote v s ≡ ok m → Kept m
  unfolding open_remote
  opened-Kept s m k o = open-Kept s m o (elim (Bool-cases v.durable) [
    | inl d ↦ load_file-memory s.file s m d k.in_file k.in_memory (simp d at o)
    | inr n ↦ ap (λ (x : Remote). get id x.committed) (sym (ok_inj (simp n at o))) ∙ k.in_memory
  ])

  pub commit-Kept {ℓ} :
      {A : Type ℓ} (result : A) (new old : Remote) (w : Write)
      → Kept old
      → get id new.committed ≡ some c
      → Kept (commit_remote v result new old w).1
  unfolding commit_remote save_file is_written FileHas
  commit-Kept result new old w k has = elim (Bool-cases v.durable) [
    | inr n ↦ simp n (record { in_memory = has; in_file = λ d. absurd (cc) })
    | inl d ↦ elim (Result-cases (write_state new)) [
      | inr (e, bad) ↦ simp (d, bad) k
      | inl (raw, fine) ↦ elim w as (λ w. Kept (commit_remote v result new old w).1) [
        | written ↦
            simp (d, fine) (record { in_memory = has; in_file = written-FileHas new raw has fine })
        | not_replaced ↦ simp (d, fine) (record { in_memory = k.in_memory; in_file = k.in_file })
        | not_synced ↦
            simp (d, fine)
              (record { in_memory = k.in_memory; in_file = written-FileHas new raw has fine })
      ]
    ]
  ]

  -- A save that went through needs no request before it.
  pub commit-starts {ℓ} :
      {A : Type ℓ} (result x : A) (new old : Remote) (w : Write)
      → (commit_remote v result new old w).0 ≡ ok x
      → get id new.committed ≡ some c
      → (result ≡ x) × Kept (commit_remote v result new old w).1
  unfolding commit_remote save_file is_written FileHas
  commit-starts result x new old w done has = elim (Bool-cases v.durable) [
    | inr n ↦
        (ok_inj (simp n at done), simp n (record { in_memory = has; in_file = λ d. absurd (cc) }))
    | inl d ↦ elim (Result-cases (write_state new)) [
      | inr (e, bad) ↦ absurd (cc (simp (d, bad) at done))
      | inl (raw, fine) ↦
          elim w
              as (λ w.
                (commit_remote v result new old w).0 ≡ ok x
                → (result ≡ x) × Kept (commit_remote v result new old w).1) [
                  | written ↦ λ done. (
                    ok_inj (simp (d, fine) at done),
                    simp (d, fine)
                        (record { in_memory = has; in_file = written-FileHas new raw has fine }),
                  )
                  | not_replaced ↦ λ done. absurd (cc (simp (d, fine) at done))
                  | not_synced ↦ λ done. absurd (cc (simp (d, fine) at done))
                ]
            done
    ]
  ]

  pub guarded-Keeps {ℓ} :
      {A : Type ℓ} (body : Remote → Result A × Remote) (s : Remote)
      → Kept s
      → ((m : Remote) → Kept m → Keeps (body m))
      → Keeps (guarded v body s)
  unfolding guarded
  guarded-Keeps body s k each = elim (Result-cases (open_remote v s)) [
    | inl (m, o) ↦ rw (o, guarded) (each m (opened-Kept s m k o))
    | inr (e, bad) ↦ rw (bad, guarded) (record { kept = k })
  ]
