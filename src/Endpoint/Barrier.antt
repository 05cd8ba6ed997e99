-- ===== src/Endpoint/Barrier.antt =====
-- device_fabric/endpoint_handoff_barrier.py: a resource is held before its fence moves. The calls take
-- what the file system does with each of their transactions and saves.
pub mod Holds
pub mod Installs
mod Tests
use audio_bodyguard_alpha.Prelude.{
  ℕ, String, Bool, true, false, not, ◌&&◌, ◌||◌, ◌==◌, Option, none, some, List, [], ◌∷◌, is_some,
  eqb, leb, if◌then◌else◌, Result, ok, err, value_error, other_error, ◌>>=◌, ◌>>◌, guard,
}
use audio_bodyguard_alpha.Prelude.Dict.{Dict, get, put}
use audio_bodyguard_alpha.Json.{Json, Number}
use audio_bodyguard_alpha.Lease.{Verifier}
use audio_bodyguard_alpha.Lease.Store.{Write}
use audio_bodyguard_alpha.Fence.{Anchor}
use audio_bodyguard_alpha.Fence.Codec.{Entry, Records}
use audio_bodyguard_alpha.Fence.Store.{Files, snapshot}
use audio_bodyguard_alpha.Endpoint.{
  identifier, positive_integer, Journal, absent, broken, tables, in_transaction,
}
use audio_bodyguard_alpha.Endpoint.Installer.{
  Directive, canonical_directive, is_entry, validate, install,
}

-- A row of endpoint_barrier_admissions, but for its key.
pub record Binding : Type 0 where
  pub resource_id : String
  pub controller_id : String
  pub fencing_token : ℕ

unfoldable pub same_binding : Binding → Binding → Bool
same_binding a b =
    a.resource_id == b.resource_id
    && a.controller_id == b.controller_id
    && eqb a.fencing_token b.fencing_token

-- A row of endpoint_barrier_handoffs.
pub record Handoff : Type 0 where
  pub resource_id : String
  pub controller_id : String
  pub fencing_token : ℕ
  pub previous_controller_id : String
  pub previous_fencing_token : ℕ
  pub directive_digest : String

-- A row of endpoint_barrier_holds, but for its resource; the claims as JSON text.
pub record Hold : Type 0 where
  pub request_id : String
  pub content_digest : String
  pub canonical_claims : String
  pub signature : String

unfoldable pub same_hold : Hold → Hold → Bool
same_hold a b =
    a.request_id == b.request_id
    && a.content_digest == b.content_digest
    && a.canonical_claims == b.canonical_claims
    && a.signature == b.signature

pub record Tables : Type 0 where
  pub device_id : String
  pub schema_version : ℕ
  pub trusted_verifiers_digest : String
  pub admissions : Dict Binding
  pub handoffs : Dict Handoff
  pub holds : Dict Hold

-- The object, with the text of a JSON value and the digests that it takes, of one text and of two joined
-- by a NUL.
pub record Barrier (S : Type 0) : Type 0 where
  pub device_id : String
  pub trusted_verifiers : Dict Verifier
  pub trusted_verifiers_digest : String
  pub anchor : Option (Anchor S)
  pub dumps : Json → String
  pub digest : String → String
  pub digest_joined : String → String → String

-- The journal, and the files of the fence store.
pub record Endpoint (S : Type 0) : Type 0 where
  pub journal : Journal Tables
  pub fences : Files S

unfoldable pub identified : {S : Type 0} → Barrier S → Tables → Bool
identified b t =
    t.device_id == b.device_id
    && eqb t.schema_version 3
    && t.trusted_verifiers_digest == b.trusted_verifiers_digest

-- `with self._write()` around a body that may read the fence store.
unfoldable pub transact {ℓ} :
    {S : Type 0} {A : Type ℓ}
    → Barrier S
    → (Tables → Result (A × Tables))
    → Write
    → Endpoint S
    → Result A × Endpoint S
transact b body w e =
    let answer = in_transaction (identified b) body w e.journal in
    (answer.0, record e { journal = answer.1 })

unfoldable pub admit_current : String → Binding → Result Records → Tables → Result (Bool × Tables)
admit_current transaction_id binding (err e) t = err e
admit_current transaction_id binding (ok records) t =
    if is_entry (get binding.resource_id records) binding.fencing_token binding.controller_id
    then ok (true, record t { admissions = put transaction_id binding t.admissions })
    else ok (false, t)

unfoldable pub admit_new : String → Binding → Result Records → Tables → Result (Bool × Tables)
admit_new transaction_id binding fences t =
    if is_some (get binding.resource_id t.holds)
    then ok (false, t)
    else admit_current transaction_id binding fences t

unfoldable pub admit_known : Binding → Binding → Tables → Result (Bool × Tables)
admit_known existing binding t = do
  guard (same_binding existing binding) (value_error "endpoint admission binding mismatch")
  ok (false, t)

unfoldable pub admit_body : String → Binding → Result Records → Tables → Result (Bool × Tables)
admit_body transaction_id binding fences t = elim (get transaction_id t.admissions) [
  | some existing ↦ admit_known existing binding t
  | none ↦ admit_new transaction_id binding fences t
]

unfoldable pub check_admission : String → Binding → Result (Unit {0})
check_admission transaction_id binding = do
  identifier transaction_id
  identifier binding.resource_id
  identifier binding.controller_id
  positive_integer binding.fencing_token

unfoldable pub admit :
    {S : Type 0} → Barrier S → String → Binding → Write → Endpoint S → Result Bool × Endpoint S
admit b transaction_id binding w e = elim (check_admission transaction_id binding) [
  | err x ↦ (err x, e)
  | ok u ↦ transact b (admit_body transaction_id binding (snapshot b.anchor e.fences)) w e
]

-- Some hold has this request.
unfoldable pub is_holding : String → Dict Hold → Bool
is_holding request_id [] = false
is_holding request_id ((r, h) ∷ holds) = h.request_id == request_id || is_holding request_id holds

unfoldable pub make_hold : {S : Type 0} → Barrier S → Directive → Hold
make_hold b d =
    let text = b.dumps (canonical_directive d) in
    record {
      request_id = d.request_id;
      content_digest = b.digest text;
      canonical_claims = text;
      signature = d.signature;
    }

unfoldable pub refuses_hold : Bool → Directive → Tables → Bool
refuses_hold valid d t =
    not valid
    || is_some (get d.request_id t.handoffs)
    || is_some (get d.resource_id t.holds)
    || is_holding d.request_id t.holds

-- The first transaction of `install`: it answers whether the hold is made.
unfoldable pub hold_body : Bool → Directive → Hold → Tables → Result (Bool × Tables)
hold_body valid d hold t =
    if refuses_hold valid d t
    then ok (false, t)
    else ok (true, record t { holds = put d.resource_id hold t.holds })

unfoldable pub make_handoff : {S : Type 0} → Barrier S → Directive → Handoff
make_handoff b d = record {
  resource_id = d.resource_id;
  controller_id = d.controller_id;
  fencing_token = d.fencing_token;
  previous_controller_id = d.previous_controller_id;
  previous_fencing_token = d.previous_fencing_token;
  directive_digest = b.digest_joined (b.dumps (canonical_directive d)) d.signature;
}

unfoldable pub is_retained : Option Hold → Hold → Bool
is_retained none hold = false
is_retained (some kept) hold = same_hold kept hold

-- The last transaction of `install`; the key of the handoffs is unique.
unfoldable pub record_body : Directive → Hold → Handoff → Tables → Result (Bool × Tables)
record_body d hold handoff t = do
  guard (is_retained (get d.resource_id t.holds) hold)
      (value_error "endpoint barrier hold mismatch")
  guard (not (is_some (get d.request_id t.handoffs))) (other_error "sqlite3")
  ok (true, record t { handoffs = put d.request_id handoff t.handoffs })

module _ {S : Type 0} (b : Barrier S) (d : Directive) where
  -- The three steps of `install`, between which other calls may come.
  unfoldable pub begin_install : Number → Write → Endpoint S → Result Bool × Endpoint S
  begin_install now w e =
      let valid = validate b.device_id b.trusted_verifiers b.anchor d now e.fences in
      transact b (hold_body valid d (make_hold b d)) w e

  unfoldable pub move_fence : Number → Write → Write → Endpoint S → Bool × Endpoint S
  move_fence now w w' e =
      let answer = install b.device_id b.trusted_verifiers b.anchor d now w w' e.fences in
      (answer.0, record e { fences = answer.1 })

  unfoldable pub end_install : Write → Endpoint S → Result Bool × Endpoint S
  end_install w e = transact b (record_body d (make_hold b d) (make_handoff b d)) w e

  -- Goes on where a step has answered true.
  unfoldable pub go_on :
      Result Bool × Endpoint S → (Endpoint S → Result Bool × Endpoint S) → Result Bool × Endpoint S
  go_on (ok true, e) rest = rest e
  go_on answer rest = answer

  -- `now` is the same in the two checks; `u` and `u'` are for the two saves of the fence store.
  unfoldable pub install_barrier :
      Number → Write → Write → Write → Write → Endpoint S → Result Bool × Endpoint S
  install_barrier now w u u' w' e =
      go_on (begin_install now w e)
        λ held. let moved = move_fence now u u' held in go_on (ok moved.0, moved.1) (end_install w')

-- `is_ready`, in its transaction. It refuses in every case, as a certificate of the device is still wanted.
unfoldable pub is_outstanding : Handoff → Dict Binding → Bool
is_outstanding h [] = false
is_outstanding h ((t, a) ∷ admissions) =
    (a.resource_id == h.resource_id
      && a.controller_id == h.previous_controller_id
      && leb a.fencing_token h.previous_fencing_token)
    || is_outstanding h admissions

unfoldable pub ready_handoff : Handoff → Result Records → Tables → Result (Bool × Tables)
ready_handoff h (err e) t = err e
ready_handoff h (ok records) t =
    if not (is_entry (get h.resource_id records) h.fencing_token h.controller_id)
    then ok (false, t)
    else if is_outstanding h t.admissions
    then ok (false, t)
    else ok (false, t)

unfoldable pub ready_body : String → Result Records → Tables → Result (Bool × Tables)
ready_body request_id fences t = elim (get request_id t.handoffs) [
  | none ↦ ok (false, t)
  | some h ↦ ready_handoff h fences t
]

unfoldable pub is_ready :
    {S : Type 0} → Barrier S → String → Write → Endpoint S → Result Bool × Endpoint S
is_ready b request_id w e = elim (identifier request_id) [
  | err x ↦ (err x, e)
  | ok u ↦ transact b (ready_body request_id (snapshot b.anchor e.fences)) w e
]
