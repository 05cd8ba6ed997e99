-- ===== src/RemoteAuthority.antt =====
-- control/remote_atomic_controller_authority.py: what the idempotent authority keeps, and the payload by
-- which it knows a request again. Its lease authority is a `Lease.Store`.
pub mod Codec
pub mod Calls
pub mod Signing
pub mod Directives
pub mod Kept
use audio_bodyguard_alpha.Prelude.{
  ℕ, String, Bool, true, false, ◌&&◌, ◌==◌, Option, List, [], ◌∷◌, eqb, Result, ok, value_error,
  ◌>>=◌, ◌>>◌, guard, all, not,
}
use audio_bodyguard_alpha.Prelude.Time.{Time, same_time}
use audio_bodyguard_alpha.Prelude.Text.{is_named}
use audio_bodyguard_alpha.Prelude.Dict.{Dict}
use audio_bodyguard_alpha.Json.{Json, Number, finite}
use audio_bodyguard_alpha.Lease.{Lease, Verifier}
use audio_bodyguard_alpha.Lease.Store.{Store, File}
use audio_bodyguard_alpha.Evidence.Remote.{RemoteResult}
use audio_bodyguard_alpha.Endpoint.Installer.{Directive}

-- The list that is kept of a request. An int is the number that it stands for, as in a comparison.
pub data Fingerprint : Type 0 where
  acquired : String → String → Number → Number → Fingerprint
  handed : String → String → ℕ → Time → Time → String → Number → Number → Fingerprint

-- A NaN differs from itself. An infinity is never kept.
unfoldable pub same_number : Number → Number → Bool
same_number (finite a) (finite b) = same_time a b
same_number _ _ = false

-- `==` of two of the lists
unfoldable pub same_fingerprint : Fingerprint → Fingerprint → Bool
unfolding same_number
same_fingerprint (acquired r c now ttl) (acquired r' c' now' ttl') =
    r == r' && c == c' && same_number now now' && same_number ttl ttl'
same_fingerprint (handed r c t i e n now ttl) (handed r' c' t' i' e' n' now' ttl') =
    r == r'
    && c == c'
    && eqb t t'
    && same_time i i'
    && same_time e e'
    && n == n'
    && same_number now now'
    && same_number ttl ttl'
same_fingerprint _ _ = false

-- `fingerprint[0]=="handoff"`
unfoldable pub is_handoff : Fingerprint → Bool
is_handoff (acquired r c now ttl) = false
is_handoff (handed r c t i e n now ttl) = true

-- A signing key: a P256AuthorityKeyPair, or another object, which may lack an algorithm and a verifier.
pub record Key : Type 0 where
  pub key_id : String
  pub is_p256 : Bool
  pub algorithm : Option String
  pub sign : Json → String
  pub verifier : Option Verifier

-- What `__init__` fixes; `durable` says that there is a `_state_path`.
pub record Service : Type 0 where
  pub durable : Bool
  pub signing_key : Option Key
  pub devices : Dict String

-- A committed request: its payload, and the lease that answered it.
abbrev pub Committed : Type 0
Committed = Fingerprint × Lease

-- The rest of the object, and the file.
pub record Remote : Type 0 where
  pub authority : Store
  pub committed : Dict Committed
  pub bindings : Dict String
  pub results : Dict RemoteResult
  pub directives : Dict Directive
  pub file : File

named_binding : String × String → Bool
named_binding (resource, device) = is_named resource && is_named device

-- The checks of `__init__`, before it reads the file.
unfoldable pub new_service : Bool → Option Key → Dict String → Store → Result Service
unfolding named_binding
new_service durable signing_key devices authority = do
  guard (not (durable && authority.durable))
      (value_error "remote authority requires one persistence envelope")
  guard (all named_binding devices) (value_error "endpoint device bindings are invalid")
  ok (record { durable = durable; signing_key = signing_key; devices = devices })
