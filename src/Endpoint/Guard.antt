-- ===== src/Endpoint/Guard.antt =====
-- device_fabric/endpoint_ledger_guarded_transport.py: a request reaches the transport only after the
-- ledger has claimed its transaction.
pub mod Once
mod Tests
use audio_bodyguard_alpha.Prelude.{
  ℕ, ◌≡◌, ◌≢◌, refl, sym, ap, ◌∙◌, inl, inr, String, Bool, true, false, not, ◌&&◌, ◌||◌, ◌==◌,
  Option, none, some, List, [], ◌∷◌, is_some, if◌then◌else◌, Result, ok, err, value_error,
  other_error, ◌>>=◌, ◌>>◌, guard, or_raise, arith, Bool-cases, Result-cases, ok_inj, subst,
}
use audio_bodyguard_alpha.Prelude.Time.{pos, Time, before}
use audio_bodyguard_alpha.Json.{
  Json, Items, Number, finite, non_finite, bool, int, float, str, arr, obj, nil, cons, end, field,
}
use audio_bodyguard_alpha.Lease.Store.{Write}
use audio_bodyguard_alpha.Endpoint.{identifier, positive_integer}
use audio_bodyguard_alpha.Endpoint.Ledger.{
  Context, Ledger, claim_execution, close_if_unstarted, claimed_state, not_applied_state,
}
use audio_bodyguard_alpha.Endpoint.Ledger.Decided.{Reach, decide-once}
use audio_bodyguard_alpha.Evidence.{Hash}

-- DeviceState, with the numbers as floats; `custom_state` is an object.
pub record DeviceState : Type 0 where
  pub power : Bool
  pub volume : Number
  pub muted : Bool
  pub input_source : String
  pub channel : String
  pub custom_state : Json
  pub playback_position_seconds : Number

-- `state_digest`
unfoldable pub state_digest : Hash → DeviceState → String
state_digest hash s = hash (
    obj (
      field "power" (bool s.power) (
        field "volume" (float s.volume) (
          field "muted" (bool s.muted) (
            field "input_source" (str s.input_source) (
              field "channel" (str s.channel) (
                field "custom_state" s.custom_state
                  (field "playback_position_seconds" (float s.playback_position_seconds) end))))))))

-- AuthorizedActionIntent
pub record Intent : Type 0 where
  pub intent_id : String
  pub lease_id : String
  pub action : String
  pub device_id : String
  pub operation : String
  pub target_state : Option DeviceState
  pub expected_pre_state : Option DeviceState
  pub authorization_digest : String
  pub deadline_at : Number
  pub transaction_id : String
  pub capability_digest : String
  pub controller_resource_id : String
  pub controller_id : String
  pub controller_fencing_token : ℕ

-- What the request digest is taken of.
unfoldable pub request_document : Intent → String → String → Time → Json
request_document q target expected deadline = arr (
    cons (str "AQSS/endpoint-execution-request/v1") (
      cons (str q.device_id) (
        cons (str q.transaction_id) (
          cons (str q.intent_id) (
            cons (str q.action) (
              cons (str q.operation) (
                cons (str q.controller_resource_id) (
                  cons (str q.controller_id) (
                    cons (int (pos q.controller_fencing_token)) (
                      cons (str q.capability_digest) (
                        cons (str q.authorization_digest) (
                          cons (str q.lease_id) (
                            cons (str target) (
                              cons (str expected) (cons (float (finite deadline)) nil)))))))))))))))

-- A finite deadline.
unfoldable pub deadline_of : Number → Result Time
deadline_of (finite t) = ok t
deadline_of non_finite = err (value_error "endpoint request deadline is invalid")

-- `_bound_request`: the context under which the ledger decides. `transport_device` is the transport's
-- device identity.
unfoldable pub bound_request : Hash → String → String → ℕ → Intent → Result Context
bound_request hash ledger_device transport_device authority_epoch q = do
  identifier q.device_id
  guard (q.device_id == ledger_device && transport_device == ledger_device)
      (value_error "endpoint transport device identity mismatch")
  target ← or_raise q.target_state (value_error "endpoint request physical state is invalid")
  expected ←
      or_raise q.expected_pre_state (value_error "endpoint request physical state is invalid")
  deadline ← deadline_of q.deadline_at
  identifier q.transaction_id
  identifier q.intent_id
  identifier q.action
  identifier q.operation
  identifier q.controller_resource_id
  identifier q.controller_id
  positive_integer q.controller_fencing_token
  identifier q.capability_digest
  identifier q.authorization_digest
  ok (record {
    intent_id = q.intent_id;
    request_digest =
        hash (request_document q (state_digest hash target) (state_digest hash expected) deadline);
    capability_digest = q.capability_digest;
    authorization_digest = q.authorization_digest;
    controller_id = q.controller_id;
    controller_fencing_token = q.controller_fencing_token;
    authority_epoch = authority_epoch;
  })

-- `endpoint_action_verifier.admit` of the three pieces of evidence, which is not modelled here.
abbrev pub Admit : Type 0 → Type 0
Admit E = E → E → E → Intent → Result Intent

unfoldable pub admit_intent :
    {E : Type 0} → Option (Admit E) → Option E × Option E × Option E → Intent → Result Intent
admit_intent none (none, none, none) q = ok q
admit_intent none _ q = err (value_error "endpoint action verifier is required")
admit_intent (some admit) (some signed, some capability, some controller) q =
    admit signed capability controller q
admit_intent (some admit) _ q = err (value_error "endpoint action signed evidence is required")

unfoldable pub matches : Option String → String → Bool
matches none s = true
matches (some given) s = given == s

-- The checks of `execute_intent` before the claim, at the time `now`.
unfoldable pub check_request :
    Intent → Context → Option String → Option String → Time → Result (Unit {0})
check_request q context transaction_digest capability_digest now = do
  guard (matches transaction_digest q.transaction_id)
      (value_error "endpoint transaction digest mismatch")
  guard (matches capability_digest q.capability_digest)
      (value_error "endpoint capability digest mismatch")
  deadline ← deadline_of q.deadline_at
  guard (before now deadline) (value_error "endpoint request deadline expired")

-- The object's fields, but for the transport itself.
pub record Guarded (E : Type 0) : Type 0 where
  pub hash : Hash
  pub transport_device : String
  pub authority_epoch : ℕ
  pub verifier : Option (Admit E)

-- Everything up to the claim: the request that would be sent, and its context.
unfoldable pub prepare :
    {E : Type 0}
    → Guarded E
    → String
    → Intent
    → Option String
    → Option String
    → Option E × Option E × Option E
    → Time
    → Result (Intent × Context)
prepare g ledger_device intent transaction_digest capability_digest evidence now = do
  request ← admit_intent g.verifier evidence intent
  context ← bound_request g.hash ledger_device g.transport_device g.authority_epoch request
  check_request request context transaction_digest capability_digest now
  ok (request, context)

-- The claim; a request that is returned is handed to the transport.
unfoldable pub claim_request : Result (Intent × Context) → Write → Ledger → Result Intent × Ledger
claim_request (err e) w l = (err e, l)
claim_request (ok (request, context)) w l =
    let answer = claim_execution request.transaction_id context w l in
    (
      (do
        granted ← answer.0
        guard granted (value_error "endpoint execution is closed or already claimed")
        ok request),
      answer.1,
    )

unfoldable pub execute_intent :
    {E : Type 0}
    → Guarded E
    → Intent
    → Option String
    → Option String
    → Option E × Option E × Option E
    → Time
    → Write
    → Ledger
    → Result Intent × Ledger
execute_intent g intent transaction_digest capability_digest evidence now w l =
    claim_request (prepare g l.device_id intent transaction_digest capability_digest evidence now) w
      l

-- `close_if_unstarted`
unfoldable pub close_request :
    {E : Type 0} → Guarded E → Intent → Write → Ledger → Result Bool × Ledger
close_request g intent w l =
    elim (bound_request g.hash l.device_id g.transport_device g.authority_epoch intent) [
      | err e ↦ (err e, l)
      | ok context ↦ close_if_unstarted intent.transaction_id context w l
    ]
