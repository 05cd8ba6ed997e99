-- ===== src/RemoteAuthority/Calls.antt =====
-- The methods of control/remote_atomic_controller_authority.py: under the lock a method reads the file
-- again where there is one, works on what it read, and writes; a save that raises restores the memory.
-- The locks make each call one step. Of two `Write`s of a call, the first is the lease authority's.
use audio_bodyguard_alpha.Prelude.{
  ℕ, String, none, some, get_or, if◌then◌else◌, Result, ok, err, value_error, other_error, ◌>>=◌,
  guard,
}
use audio_bodyguard_alpha.Prelude.Text.{is_named}
use audio_bodyguard_alpha.Prelude.Dict.{get, put}
use audio_bodyguard_alpha.Json.{Number}
use audio_bodyguard_alpha.Lease.{Lease}
use audio_bodyguard_alpha.Lease.Store.{
  Store, File, missing, unreadable, holds, Write, save_file, is_written,
}
use audio_bodyguard_alpha.Lease.Store as Leases
use audio_bodyguard_alpha.RemoteAuthority.{
  Fingerprint, acquired, handed, same_fingerprint, Service, Committed, Remote,
}
use audio_bodyguard_alpha.RemoteAuthority.Codec.{write_state}
use audio_bodyguard_alpha.RemoteAuthority.Codec.Signed.{Loaded, read_state}

-- The assignments that end `_load_state`. The lease authority's used nonces stay.
unfoldable pub put_loaded : Loaded → Remote → Remote
put_loaded l s = record s {
  authority = record s.authority {
    memory = record s.authority.memory { active = l.leases.0; highest_tokens = l.leases.1 };
  };
  committed = l.committed;
  bindings = l.bindings;
  results = l.results;
  directives = l.directives;
}

unfoldable pub load_file : Service → File → Remote → Result Remote
unfolding put_loaded
load_file v missing s = ok s
load_file v unreadable s = err (other_error "json.load")
load_file v (holds raw) s = do loaded ← read_state v raw; ok (put_loaded loaded s)

-- What a method sees once `_state_guard` has opened.
unfoldable pub open_remote : Service → Remote → Result Remote
unfolding load_file
open_remote v s = if v.durable then load_file v s.file s else ok s

unfoldable pub guarded {ℓ} :
    {A : Type ℓ} → Service → (Remote → Result A × Remote) → Remote → Result A × Remote
guarded v body s = elim (open_remote v s) [ err e ↦ (err e, s) | ok m ↦ body m ]

-- `_save_state` of the new state, and what is in memory if it has raised.
unfoldable pub commit_remote {ℓ} :
    {A : Type ℓ} → Service → A → Remote → Remote → Write → Result A × Remote
commit_remote v result new old w =
    if v.durable
    then elim (write_state new) [
      | err e ↦ (err e, old)
      | ok raw ↦
          if is_written w
          then (ok result, record new { file = save_file raw w new.file })
          else (err (other_error "OSError"), record old { file = save_file raw w old.file })
    ]
    else (ok result, new)

-- A known request id: the lease that answered it, if the payload is the same.
unfoldable pub replay : Committed → Fingerprint → Result Lease
replay (fingerprint, lease) asked =
    if same_fingerprint fingerprint asked
    then ok lease
    else err (value_error "request_id already committed with different payload")

-- `_active` and `_highest_tokens` as before
unfoldable pub restored : Store → Store → Store
restored old new = record new {
  memory = record new.memory {
    active = old.memory.active;
    highest_tokens = old.memory.highest_tokens;
  };
}

-- What `acquire` and `handoff` do with a new request: `call` is the lease authority's method.
unfoldable pub lease_new :
    Service
    → String
    → Fingerprint
    → (Store → Result Lease × Store)
    → Write
    → Remote
    → Result Lease × Remote
unfolding commit_remote restored
lease_new v id asked call w s =
    let (answer, a) = call s.authority in
    elim answer [
      | err e ↦ (err e, record s { authority = a })
      | ok lease ↦
          commit_remote v lease
            (record s { authority = a; committed = put id (asked, lease) s.committed })
            (record s { authority = restored s.authority a }) w
    ]

unfoldable pub lease_body :
    Service
    → String
    → Fingerprint
    → (Store → Result Lease × Store)
    → Write
    → Remote
    → Result Lease × Remote
unfolding replay lease_new
lease_body v id asked call w s = elim (get id s.committed) [
  | some request ↦ (replay request asked, s)
  | none ↦ lease_new v id asked call w s
]

-- A check in front of the guard: when it raises, nothing has happened.
unfoldable pub checked {ℓ} :
    {A : Type ℓ} → Result (Unit {0}) → (Remote → Result A × Remote) → Remote → Result A × Remote
checked (err e) f s = (err e, s)
checked (ok _) f s = f s

unfoldable pub check_id : String → Result (Unit {0})
check_id id = guard (is_named id) (value_error "request_id must be a non-empty string")

unfoldable pub acquire :
    Service
    → String
    → String
    → String
    → Number
    → Number
    → Write
    → Write
    → Remote
    → Result Lease × Remote
unfolding checked check_id guarded lease_body
acquire v id resource_id controller_id now ttl_seconds w w' s =
    let fingerprint = acquired resource_id controller_id now ttl_seconds in
    checked (check_id id)
      (guarded v (
        lease_body v id fingerprint (Leases.acquire resource_id controller_id now ttl_seconds w)
          w'))
      s

unfoldable pub fingerprint_of : Lease → String → Number → Number → Fingerprint
fingerprint_of l next_controller_id now ttl_seconds =
    handed l.resource_id l.controller_id l.fencing_token l.issued_at l.expires_at next_controller_id
      now ttl_seconds

unfoldable pub handoff :
    Service
    → String
    → Lease
    → String
    → Number
    → Number
    → Write
    → Write
    → Remote
    → Result Lease × Remote
unfolding checked check_id guarded lease_body fingerprint_of
handoff v id current next_controller_id now ttl_seconds w w' s =
    let fingerprint = fingerprint_of current next_controller_id now ttl_seconds in
    checked (check_id id)
      (guarded v (
        lease_body v id fingerprint (Leases.handoff current next_controller_id now ttl_seconds w)
          w'))
      s

unfoldable pub highest_body : String → Remote → Result ℕ × Remote
highest_body resource_id s = (ok (get_or (get resource_id s.authority.memory.highest_tokens) 0), s)

unfoldable pub highest_token : Service → String → Remote → Result ℕ × Remote
unfolding checked guarded highest_body
highest_token v resource_id s =
    checked (guard (is_named resource_id) (value_error "resource_id must be a non-empty string"))
      (guarded v (highest_body resource_id)) s
