-- ===== src/Evidence.antt =====
-- The signed statements that a command carries, and their verifiers: control/controller_lease_grant.py
-- (`Evidence.LeaseGrant`), control/remote_controller_protocol.py (`Evidence.Remote`) and
-- control/controller_command_proof.py (`Evidence.Command`). A hash and a verifier are parameters: a
-- document stands for its canonical bytes.
pub mod LeaseGrant
pub mod Remote
pub mod Command
pub mod Genuine
pub mod Bound
use audio_bodyguard_alpha.Prelude.{String, Bool, true, false}
use audio_bodyguard_alpha.Prelude.Time.{Time}
use audio_bodyguard_alpha.Json.{Json, Number, finite, non_finite}

-- `sha256(…).hexdigest()` of a document's bytes
abbrev pub Hash : Type 0
Hash = Json → String

abbrev pub is_finite : Number → Bool
is_finite (finite t) = true
is_finite non_finite = false
