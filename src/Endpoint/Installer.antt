-- ===== src/Endpoint/Installer.antt =====
-- device_fabric/endpoint_handoff_fence.py: a signed directive moves a resource's fence on by one.
use audio_bodyguard_alpha.Prelude.{
  ℕ, ◌+◌, ◌≡◌, refl, inl, inr, String, Bool, true, false, not, ◌&&◌, ◌==◌, eq_iff, Option, none,
  some, eqb, ltb, if◌then◌else◌, Result, ok, err, arith, Bool-cases, Result-cases, subst,
}
use audio_bodyguard_alpha.Prelude.Text.{is_named}
use audio_bodyguard_alpha.Prelude.Time.{pos, before, at_most}
use audio_bodyguard_alpha.Prelude.Dict.{Dict, get}
use audio_bodyguard_alpha.Json.{Json, Number, finite, int, float, str, obj, field, end}
use audio_bodyguard_alpha.Lease.{Verifier}
use audio_bodyguard_alpha.Lease.Store.{Write}
use audio_bodyguard_alpha.Fence.{Anchor}
use audio_bodyguard_alpha.Fence.Codec.{Entry, Records}
use audio_bodyguard_alpha.Fence.Store.{Files, same_entry, accept, snapshot}

-- SignedEndpointFenceDirective
pub record Directive : Type 0 where
  pub request_id : String
  pub device_id : String
  pub resource_id : String
  pub previous_controller_id : String
  pub previous_fencing_token : ℕ
  pub controller_id : String
  pub fencing_token : ℕ
  pub issued_at : Number
  pub expires_at : Number
  pub issuer_id : String
  pub algorithm : String
  pub signature : String

-- `canonical_bytes`
unfoldable pub canonical_directive : Directive → Json
canonical_directive d = obj (
    field "purpose" (str "AQSS/endpoint-fence-install/v1") (
      field "request_id" (str d.request_id) (
        field "device_id" (str d.device_id) (
          field "resource_id" (str d.resource_id) (
            field "previous_controller_id" (str d.previous_controller_id) (
              field "previous_fencing_token" (int (pos d.previous_fencing_token)) (
                field "controller_id" (str d.controller_id) (
                  field "fencing_token" (int (pos d.fencing_token)) (
                    field "issued_at" (float d.issued_at) (
                      field "expires_at" (float d.expires_at) (
                        field "issuer_id" (str d.issuer_id)
                          (field "algorithm" (str d.algorithm) end))))))))))))

-- `issued_at <= now < expires_at`, of finite numbers
unfoldable pub in_window : Number → Number → Number → Bool
in_window (finite issued) (finite expires) (finite now) = at_most issued now && before now expires
in_window _ _ _ = false

unfoldable pub is_well_formed : String → Directive → Number → Bool
is_well_formed device_id d now =
    is_named d.request_id
    && is_named d.device_id
    && is_named d.resource_id
    && is_named d.previous_controller_id
    && is_named d.controller_id
    && is_named d.issuer_id
    && is_named d.signature
    && d.device_id == device_id
    && not (d.previous_controller_id == d.controller_id)
    && d.algorithm == "ECDSA_P256_SHA256"
    && ltb 0 d.previous_fencing_token
    && eqb d.fencing_token (d.previous_fencing_token + 1)
    && in_window d.issued_at d.expires_at now

unfoldable pub is_signed : Dict Verifier → Directive → Bool
is_signed verifiers d = elim (get d.issuer_id verifiers) [
  | none ↦ false
  | some verify ↦ verify (canonical_directive d) d.signature
]

unfoldable pub is_entry : Option Entry → ℕ → String → Bool
is_entry none token controller_id = false
is_entry (some e) token controller_id = same_entry e (token, controller_id)

-- `snapshot().get(resource_id) == (token, controller_id)`, false where the snapshot raises
unfoldable pub is_fenced : {S : Type 0} → Option (Anchor S) → Files S → String → ℕ → String → Bool
is_fenced anchor f resource_id token controller_id = elim (snapshot anchor f) [
  | err e ↦ false
  | ok records ↦ is_entry (get resource_id records) token controller_id
]

-- VerifiedEndpointFenceInstaller
unfoldable pub validate :
    {S : Type 0} → String → Dict Verifier → Option (Anchor S) → Directive → Number → Files S → Bool
validate device_id verifiers anchor d now f =
    is_well_formed device_id d now
    && is_signed verifiers d
    && is_fenced anchor f d.resource_id d.previous_fencing_token d.previous_controller_id

is_accepted : Result Bool → Bool
is_accepted (ok b) = b
is_accepted (err e) = false

unfoldable pub install :
    {S : Type 0}
    → String
    → Dict Verifier
    → Option (Anchor S)
    → Directive
    → Number
    → Write
    → Write
    → Files S
    → Bool × Files S
unfolding is_accepted
install device_id verifiers anchor d now w w' f =
    if validate device_id verifiers anchor d now f
    then (let answer = accept anchor d.resource_id d.controller_id d.fencing_token w w' f in
        (
          is_accepted answer.0
              && is_fenced anchor answer.1 d.resource_id d.fencing_token d.controller_id,
          answer.1,
        ))
    else (false, f)

-- The fence that a snapshot has for a resource.
unfoldable pub HasFence : {S : Type 0} → Option (Anchor S) → Files S → String → Entry → Type 0
HasFence anchor f r e =
    (records : Records) × (snapshot anchor f ≡ ok records) × (get r records ≡ some e)

pub is_entry-eq : (o : Option Entry) (t : ℕ) (c : String) → is_entry o t c ≡ true → o ≡ some (t, c)
unfolding is_entry same_entry
is_entry-eq none t c h = cc
is_entry-eq (some (u, d)) t c h = ground (arith, eq_iff d c)

pub is_fenced-HasFence :
    {S : Type 0} (anchor : Option (Anchor S)) (f : Files S) (r : String) (t : ℕ) (c : String)
    → is_fenced anchor f r t c ≡ true
    → HasFence anchor f r (t, c)
unfolding is_fenced HasFence
is_fenced-HasFence anchor f r t c h = elim (Result-cases (snapshot anchor f)) [
  | inr (e, bad) ↦ cc (rw (bad, is_fenced) at h)
  | inl (records, fine) ↦
      (records, fine, is_entry-eq (get r records) t c (rw (fine, is_fenced) at h))
]

and-parts : (a b : Bool) → (a && b) ≡ true → (a ≡ true) × (b ≡ true)
and-parts true b h = (refl, h)
and-parts false b h = cc

next_token :
    (device_id : String) (d : Directive) (now : Number)
    → is_well_formed device_id d now ≡ true
    → d.fencing_token ≡ d.previous_fencing_token + 1
unfolding is_well_formed
next_token device_id d now h = ground arith

pub validate-parts :
    {S : Type 0} (device_id : String) (verifiers : Dict Verifier) (anchor : Option (Anchor S))
    (d : Directive) (now : Number) (f : Files S)
    → validate device_id verifiers anchor d now f ≡ true
    → (d.fencing_token ≡ d.previous_fencing_token + 1)
      × (is_signed verifiers d ≡ true)
      × HasFence anchor f d.resource_id (d.previous_fencing_token, d.previous_controller_id)
unfolding validate
validate-parts device_id verifiers anchor d now f h =
    let fenced =
      is_fenced anchor f d.resource_id d.previous_fencing_token d.previous_controller_id in
    let rest = and-parts (is_well_formed device_id d now && is_signed verifiers d) fenced h in
    let first = and-parts (is_well_formed device_id d now) (is_signed verifiers d) rest.0 in
    (
      next_token device_id d now first.0,
      first.1,
      is_fenced-HasFence anchor f d.resource_id d.previous_fencing_token d.previous_controller_id
          rest.1,
    )

-- A directive is installed only if it is signed by a trusted issuer and the resource has the fence that it
-- replaces, and then the resource has its fence, with the next token.
pub install-HasFence :
    {S : Type 0} (device_id : String) (verifiers : Dict Verifier) (anchor : Option (Anchor S))
    (d : Directive) (now : Number) (w w' : Write) (f : Files S)
    → (install device_id verifiers anchor d now w w' f).0 ≡ true
    → (is_signed verifiers d ≡ true)
      × HasFence anchor f d.resource_id (d.previous_fencing_token, d.previous_controller_id)
      × HasFence anchor
          (install device_id verifiers anchor d now w w' f).1
          d.resource_id
          (d.previous_fencing_token + 1, d.controller_id)
unfolding install
install-HasFence device_id verifiers anchor d now w w' f h =
    elim (Bool-cases (validate device_id verifiers anchor d now f)) [
      | inr invalid ↦ cc (rw invalid at h)
      | inl valid ↦
          let parts = validate-parts device_id verifiers anchor d now f valid in
          let answer = accept anchor d.resource_id d.controller_id d.fencing_token w w' f in
          let both =
            and-parts (is_accepted answer.0)
              (is_fenced anchor answer.1 d.resource_id d.fencing_token d.controller_id)
              (rw valid at h) in
          let fence =
            is_fenced-HasFence anchor answer.1 d.resource_id d.fencing_token d.controller_id
              both.1 in
          rw valid (
            parts.1,
            parts.2,
            subst (λ t. HasFence anchor answer.1 d.resource_id (t, d.controller_id)) parts.0 fence,
          )
    ]
