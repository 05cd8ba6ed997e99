-- ===== src/Endpoint/Barrier/Installs.antt =====
-- What an install and an admission of device_fabric/endpoint_handoff_barrier.py promise when they succeed.
use audio_bodyguard_alpha.Prelude.{
  ◌+◌, ◌≡◌, refl, sym, ◌∙◌, inl, inr, String, Bool, true, false, Result, ok, err, arith,
  Result-cases, ok_inj, subst,
}
use audio_bodyguard_alpha.Prelude.Dict.{get}
use audio_bodyguard_alpha.Json.{Number}
use audio_bodyguard_alpha.Lease.Store.{Write}
use audio_bodyguard_alpha.Fence.Codec.{Records}
use audio_bodyguard_alpha.Fence.Store.{snapshot}
use audio_bodyguard_alpha.Endpoint.{in_transaction-true}
use audio_bodyguard_alpha.Endpoint.Installer.{
  Directive, HasFence, is_entry, is_entry-eq, install-HasFence, is_signed,
}
use audio_bodyguard_alpha.Endpoint.Barrier.{
  Binding, Tables, Barrier, Endpoint, identified, transact, admit_current, admit_new, admit_known,
  admit_body, check_admission, admit, begin_install, move_fence, end_install, go_on,
  install_barrier, make_hold, make_handoff, record_body,
}
use audio_bodyguard_alpha.Endpoint.Barrier.Holds.{
  IsHeld, begin_install-IsHeld, transact-IsHeld, record_body-Keeps,
}

module _ {S : Type 0} (b : Barrier S) where
  go_on-true :
      (d : Directive) (a : Result Bool × Endpoint S) (rest : Endpoint S → Result Bool × Endpoint S)
      → (go_on b d a rest).0 ≡ ok true
      → (a.0 ≡ ok true) × ((rest a.1).0 ≡ ok true) × ((go_on b d a rest).1 ≡ (rest a.1).1)
  unfolding go_on
  go_on-true d (ok true, e) rest h = (refl, h, refl)
  go_on-true d (ok false, e) rest h = cc
  go_on-true d (err x, e) rest h = cc

  -- What a successful install has done, from `e` to `f`.
  pub record Moved (d : Directive) (e f : Endpoint S) : Type 0 where
    pub signed : is_signed b.trusted_verifiers d ≡ true
    pub was :
        HasFence b.anchor e.fences d.resource_id
          (d.previous_fencing_token, d.previous_controller_id)
    pub now :
        HasFence b.anchor f.fences d.resource_id (d.previous_fencing_token + 1, d.controller_id)
    pub held : IsHeld d.resource_id f.journal

  -- An install succeeds only with a signed directive on the fence that it replaces, and it leaves the directive's
  -- fence, with the next token, and a hold on the resource.
  pub install_barrier-Moved :
      (d : Directive) (now : Number) (w u u' w' : Write) (e : Endpoint S)
      → (install_barrier b d now w u u' w' e).0 ≡ ok true
      → Moved d e (install_barrier b d now w u u' w' e).1
  unfolding install_barrier begin_install move_fence end_install transact
  install_barrier-Moved d now w u u' w' e h =
      let start = begin_install b d now w e in
      let moved = move_fence b d now u u' start.1 in
      let first =
        go_on-true d start
          (λ x.
            go_on b d (ok (move_fence b d now u u' x).0, (move_fence b d now u u' x).1)
              (end_install b d w'))
          h in
      let second = go_on-true d (ok moved.0, moved.1) (end_install b d w') first.1 in
      let parts =
        install-HasFence b.device_id b.trusted_verifiers b.anchor d now u u' start.1.fences
          (ok_inj second.0) in
      let held =
        transact-IsHeld b d.resource_id (record_body d (make_hold b d) (make_handoff b d)) w'
          moved.1 (record_body-Keeps d (make_hold b d) (make_handoff b d))
          (begin_install-IsHeld b d now w e first.0) in
      let all : Moved d e (end_install b d w' moved.1).1 = record {
        signed = parts.0;
        was = parts.1;
        now = parts.2;
        held = held;
      } in
      subst (Moved d e) (sym (first.2 ∙ second.2)) all

  admit_body-current :
      (t : String) (binding : Binding) (fences : Result Records) (x y : Tables)
      → admit_body t binding fences x ≡ ok (true, y)
      → (records : Records) × (fences ≡ ok records)
        × (is_entry (get binding.resource_id records) binding.fencing_token binding.controller_id
            ≡ true)
  unfolding admit_body admit_known admit_new admit_current
  admit_body-current t binding (err e) x y h = absurd (ground (arith))
  admit_body-current t binding (ok records) x y h = (records, refl, ground arith)

  -- A transaction is admitted only under the fence that its resource has now.
  pub admit-HasFence :
      (t : String) (binding : Binding) (w : Write) (e : Endpoint S)
      → (admit b t binding w e).0 ≡ ok true
      → HasFence b.anchor e.fences binding.resource_id
          (binding.fencing_token, binding.controller_id)
  unfolding admit transact HasFence
  admit-HasFence t binding w e h = elim (Result-cases (check_admission t binding)) [
    | inr (x, bad) ↦ cc (rw (bad, admit) at h)
    | inl (v, fine) ↦
        let run =
          in_transaction-true (identified b) (admit_body t binding (snapshot b.anchor e.fences)) w
            e.journal (rw (fine, admit) at h) in
        let current = admit_body-current t binding (snapshot b.anchor e.fences) run.0 run.1 run.3 in
        (
          current.0,
          current.1,
          is_entry-eq (get binding.resource_id current.0) binding.fencing_token
              binding.controller_id current.2,
        )
  ]
