-- ===== src/Lease/Store/Tests.antt =====
-- Runs of control/active_controller_lease.py, and the properties at concrete inputs.
use audio_bodyguard_alpha.Prelude.{
  ℕ, ◌≤◌, ◌<◌, ◌≡◌, ◌≢◌, refl, true, false, some, [], ◌∷◌, ok, arith,
}
use audio_bodyguard_alpha.Prelude.Time.{pos, before, same_time, add}
use audio_bodyguard_alpha.Prelude.Text.{is_named}
use audio_bodyguard_alpha.Prelude.Dict.{Dict, get, put}
use audio_bodyguard_alpha.Json.{Json, Number, finite}
use audio_bodyguard_alpha.Lease.{
  Lease, Authority, allow, stale_fence, Grant, Verifier, empty, same_lease, nonce_used,
  validate_identifier, validate_time, validate_ttl, acquire_body, handoff_body, check_grant,
  reauthorize_body, validate_body,
}
use audio_bodyguard_alpha.Lease.Codec.{encode, decode}
use audio_bodyguard_alpha.Lease.Codec.RoundTrip.{decode-encode}
use audio_bodyguard_alpha.Lease.Invariant.{IsSound}
use audio_bodyguard_alpha.Lease.Store.{
  Store, missing, commit, written, not_synced, open_state, acquire, handoff, reauthorize, validate,
}
use audio_bodyguard_alpha.Lease.Store.Calls.{Opens, here, acquires, IsMade, Step-Evolves}
use audio_bodyguard_alpha.Lease.Invariant.{Evolves}
use audio_bodyguard_alpha.Lease.Store.Fencing.{
  handoff-stale, acquire-highest, allow_unique, validate-allow, highest_of,
}
use audio_bodyguard_alpha.Lease.Store.Replay.{reauthorize-replay}

abbrev at : ℕ → Number
at t = finite (pos t)

abbrev first : Lease
first = record {
  resource_id = "tv";
  controller_id = "phone";
  fencing_token = 1;
  issued_at = pos 0;
  expires_at = pos 10;
}

abbrev second : Lease
second = record {
  resource_id = "tv";
  controller_id = "tablet";
  fencing_token = 2;
  issued_at = pos 5;
  expires_at = pos 15;
}

abbrev held : Authority
held = record { active = ("tv", first) ∷ []; highest_tokens = ("tv", 1) ∷ []; used_nonces = [] }

abbrev passed : Authority
passed = record { active = ("tv", second) ∷ []; highest_tokens = ("tv", 2) ∷ []; used_nonces = [] }

abbrev fresh : Store
fresh = record { durable = false; memory = empty; file = missing }

abbrev in_memory : Authority → Store
in_memory a = record { durable = false; memory = a; file = missing }

fresh-Opens : Opens fresh empty
unfolding open_state
fresh-Opens = record { opened = refl; sound = record { aligned = tt; distinct = tt } }

held-IsSound : IsSound held
unfolding is_named before get
held-IsSound = record {
  aligned = (
    refl,
    record {
      here = refl;
      named = refl;
      controlled = refl;
      positive = omega arith;
      covered = omega arith;
      lasting = refl;
    },
    tt,
    refl,
  );
  distinct = tt;
}

held-Opens : Opens (in_memory held) held
unfolding open_state
held-Opens = record { opened = refl; sound = held-IsSound }

acquire_run : acquire "tv" "phone" (at 0) (at 10) written fresh ≡ (ok first, in_memory held)
unfolding commit acquire acquire_body open_state is_named validate_identifier validate_time
    validate_ttl before add get put
acquire_run = refl

handoff_run :
    handoff first "tablet" (at 5) (at 10) written (in_memory held) ≡ (ok second, in_memory passed)
unfolding commit handoff handoff_body open_state is_named validate_identifier validate_time
    validate_ttl before add get put same_lease same_time
handoff_run = refl

no_verifiers : Dict Verifier
no_verifiers = []

handoff-stale_example : (validate first (at 3) (in_memory passed)).0 ≡ ok stale_fence
handoff-stale_example =
    handoff-stale no_verifiers (in_memory held) held held-Opens first second "tablet" (at 5) (at 10)
      written (in_memory passed) (in_memory passed) (pos 3) handoff_run here

acquire-highest_example :
    (b : Authority) × Opens (in_memory held) b
    × (highest_of "tv" empty < 1)
    × (1 ≤ highest_of "tv" b)
acquire-highest_example =
    acquire-highest no_verifiers fresh empty fresh-Opens "tv" "phone" (at 0) (at 10) written first
      (in_memory held) (in_memory held) acquire_run here

allow_run : (validate first (at 3) (in_memory held)).0 ≡ ok allow
unfolding validate validate_time validate_body open_state before get same_lease same_time
allow_run = refl

validate-allow_example : (get "tv" held.active ≡ some first) × (before (pos 3) (pos 10) ≡ true)
unfolding open_state
validate-allow_example = validate-allow (in_memory held) held first (pos 3) refl allow_run

allow_unique_example : first ≡ first
unfolding open_state
allow_unique_example =
    allow_unique (in_memory held) held first first (pos 3) (pos 3) refl refl allow_run allow_run

decode-encode_example : (raw : Json) × (encode held ≡ ok raw) × (decode raw ≡ ok held)
decode-encode_example = decode-encode held held-IsSound

-- A save that fails after the file was replaced leaves the new lease on disk.
torn : Store
torn = (acquire "tv" "phone" (at 0) (at 10) not_synced (record fresh { durable = true })).1

durable-Opens : Opens (record fresh { durable = true }) empty
unfolding open_state
durable-Opens = record { opened = refl; sound = record { aligned = tt; distinct = tt } }

Step-Evolves_example : (a : Authority) × Opens torn a × Evolves empty a
unfolding torn
Step-Evolves_example =
    Step-Evolves no_verifiers (record fresh { durable = true }) torn empty
      (acquires "tv" "phone" (at 0) (at 10) not_synced refl) durable-Opens

abbrev grant : Grant
grant = record {
  resource_id = "tv";
  controller_id = "tablet";
  previous_fencing_token = 1;
  issued_at = pos 0;
  expires_at = pos 20;
  issuer_id = "owner";
  nonce = "n1";
  reason = "CONTROL_PLANE_REINSTALL";
  signature = "s";
}

abbrev trusting : Dict Verifier
trusting = ("owner", λ document signature. true) ∷ []

abbrev recovered : Authority
recovered = record {
  active = ("tv", second) ∷ [];
  highest_tokens = ("tv", 2) ∷ [];
  used_nonces = ("owner", "n1") ∷ [];
}

grant-IsMade : IsMade grant
unfolding is_named
grant-IsMade = record { resource = refl; controller = refl; issuer = refl; nonced = refl }

reauthorize_run :
    reauthorize trusting grant (at 5) (at 10) written (in_memory held)
    ≡ (ok second, in_memory recovered)
unfolding commit reauthorize reauthorize_body check_grant open_state validate_time validate_ttl
    before add get put nonce_used
reauthorize_run = refl

reauthorize-replay_example :
    (reauthorize trusting grant (at 7) (at 10) written (in_memory recovered)).0 ≢ ok second
reauthorize-replay_example =
    reauthorize-replay trusting (in_memory held) held grant grant (at 5) (at 10) written second
      (in_memory recovered) (in_memory recovered) (at 7) (at 10) written second held-Opens
      grant-IsMade refl refl reauthorize_run here
